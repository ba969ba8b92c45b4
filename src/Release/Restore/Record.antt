-- ===== src/Release/Restore/Record.antt =====
-- The record that binds the files: `finalizeRestoreEvidence` and `verifyRestorePassRecord`.
use zao_rental.Common.{
  ℕ, ◌+◌, Bool, not, ◌&&◌, Option, none, some, List, String, str_eq, leb, ◌==◌, if◌then◌else◌,
}
use zao_rental.Common.Checked.{Checked, passed, refused, ◌>>=◌, ◌>>◌, ensure}
use zao_rental.Release.Backup.{same_codes, parse_object_key, assert_key_consistent}
use zao_rental.Release.Restore.{
  RestoreError, shape_invalid, file_invalid, stale, already_finalized, binding_mismatch,
  DrillResult, Summary, Expected, is_sha256, given, of_key, pre_0054_migrations,
  validate_drill_result,
}

pub record CipherFile : Type 0 where
  pub size : ℕ
  pub sha256 : String

-- `regularFile`, where the file is one of the owner's.
abbrev pub regular_file : Option CipherFile → Checked RestoreError CipherFile
regular_file none = refused file_invalid
regular_file (some f) = if leb 1 f.size then passed f else refused file_invalid

-- The result file: its digest, and its value where it is JSON.
pub record DrillFile : Type 0 where
  pub sha256 : String
  pub value : Option DrillResult

-- The files of the evidence directory; `none` is a file that is missing or is no regular file of the
-- owner, but for the ciphertext: `cipher_is_gone` says that it is missing.
pub record EvidenceFiles : Type 0 where
  pub key_text : Option (List ℕ)
  pub drill : Option DrillFile
  pub cipher : Option CipherFile
  pub cipher_is_gone : Bool
  pub has_record : Bool

-- `RestorePassRecord`
pub record RestorePass : Type 0 where
  pub key : List ℕ
  pub object_sha256 : String
  pub ciphertext_bytes : ℕ
  pub plaintext_sha256 : String
  pub migrations : ℕ
  pub drill_result_sha256 : String
  pub backup_scheduled_at : List ℕ
  pub restore_ms : ℕ
  pub age_ms : ℕ
  pub finished_at : List ℕ
  pub finalized_at : List ℕ

pub record Derived : Type 0 where
  pub key : List ℕ
  pub drill : DrillResult
  pub drill_sha : String

-- `derive`, of the texts of the two files.
abbrev pub derive_from : Option (List ℕ) → Option DrillFile → Checked RestoreError Derived
derive_from key_text drill = do
  text ← given key_text file_invalid
  key ← of_key (parse_object_key text)
  of_key (assert_key_consistent key)
  f ← given drill file_invalid
  r ← given f.value shape_invalid
  passed (record { key = key; drill = r; drill_sha = f.sha256 })

unfoldable pub derive : EvidenceFiles → Checked RestoreError Derived
derive w = derive_from w.key_text w.drill

-- The object that the drill has to be of.
abbrev pub object_of : Derived → CipherFile → Expected
object_of d f = record { key = d.key; bytes = f.size; sha256 = f.sha256 }

abbrev pub recorded_object : List ℕ → RestorePass → Expected
recorded_object k r = record { key = k; bytes = r.ciphertext_bytes; sha256 = r.object_sha256 }

abbrev pub max_age_ms : ℕ
max_age_ms = 86400000

abbrev pub record_of : Derived → CipherFile → Summary → List ℕ → RestorePass
record_of d f s finalized = record {
  key = d.key;
  object_sha256 = f.sha256;
  ciphertext_bytes = f.size;
  plaintext_sha256 = s.plaintext_sha256;
  migrations = pre_0054_migrations;
  drill_result_sha256 = d.drill_sha;
  backup_scheduled_at = s.backup_scheduled_at;
  restore_ms = s.restore_ms;
  age_ms = s.age_ms;
  finished_at = s.finished_at;
  finalized_at = finalized;
}

abbrev pub is_same_summary : Summary → RestorePass → Bool
is_same_summary s r =
    str_eq s.plaintext_sha256 r.plaintext_sha256
    && same_codes s.backup_scheduled_at r.backup_scheduled_at
    && s.restore_ms == r.restore_ms
    && s.age_ms == r.age_ms
    && same_codes s.finished_at r.finished_at

abbrev pub is_same_cipher : Option CipherFile → RestorePass → Checked RestoreError (Unit {0})
is_same_cipher m r = do
  f ← regular_file m
  ensure (f.size == r.ciphertext_bytes && str_eq f.sha256 r.object_sha256) binding_mismatch

-- While the ciphertext is there, it is that of the record.
abbrev pub check_cipher : EvidenceFiles → RestorePass → Checked RestoreError (Unit {0})
check_cipher w r = if w.cipher_is_gone then passed tt else is_same_cipher w.cipher r

module _ (iso_ms : List ℕ → Option ℕ) where
  -- `assertFresh`
  unfoldable pub assert_fresh : List ℕ → List ℕ → ℕ → Checked RestoreError (Unit {0})
  assert_fresh finished_at finalized_at now = do
    finished ← given (iso_ms finished_at) shape_invalid
    finalized ← given (iso_ms finalized_at) shape_invalid
    ensure
        (leb finished finalized
          && leb finalized (now + 60000)
          && leb finished (now + 60000)
          && leb now (finished + max_age_ms))
        stale

  -- The tests of the record alone.
  unfoldable pub check_record : RestorePass → ℕ → Checked RestoreError (Unit {0})
  check_record r now = do
    ensure (r.migrations == pre_0054_migrations) shape_invalid
    key ← of_key (parse_object_key r.key)
    of_key (assert_key_consistent key)
    ensure
        (is_sha256 r.object_sha256
          && is_sha256 r.plaintext_sha256
          && is_sha256 r.drill_result_sha256
          && leb 1 r.ciphertext_bytes)
        shape_invalid
    assert_fresh r.finished_at r.finalized_at now

module _ (iso_ms : List ℕ → Option ℕ) (registry : String) where
  -- `finalizeRestoreEvidence`: the text of the instant at which the record is made, and the instant
  -- of its test.
  unfoldable pub finalize_restore_evidence :
      EvidenceFiles → List ℕ → ℕ → Checked RestoreError RestorePass
  finalize_restore_evidence w finalized now = do
    d ← derive w
    f ← regular_file w.cipher
    s ← validate_drill_result iso_ms registry d.drill (object_of d f)
    assert_fresh iso_ms s.finished_at finalized now
    ensure (not w.has_record) already_finalized
    passed (record_of d f s finalized)

  -- `verifyRestorePassRecord`, of a record of the right shape.
  unfoldable pub verify_restore_pass_record :
      EvidenceFiles → RestorePass → ℕ → Checked RestoreError RestorePass
  verify_restore_pass_record w r now = do
    check_record iso_ms r now
    key ← of_key (parse_object_key r.key)
    d ← derive w
    ensure (str_eq d.drill_sha r.drill_result_sha256 && same_codes d.key key) binding_mismatch
    s ← validate_drill_result iso_ms registry d.drill (recorded_object key r)
    ensure (is_same_summary s r) binding_mismatch
    check_cipher w r
    passed r
