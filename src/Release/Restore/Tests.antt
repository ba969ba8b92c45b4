-- ===== src/Release/Restore/Tests.antt =====
-- A drill of an hour, its record, and the record a day later.
use zao_rental.Common.{
  ℕ, ◌≤◌, ◌+◌, ◌≡◌, refl, ◌⊎◌, inl, arith, true, false, Option, some, none, List, [], ◌∷◌, subst,
  if◌then◌else◌, String,
}
use zao_rental.Contracts.Flow.{codes}
use zao_rental.Common.Checked.{passed, refused}
use zao_rental.Release.Backup.{same_codes}
use zao_rental.Release.Restore.{
  DrillResult, CriticalTable, Verification, stale, is_sha256, validate_drill_result,
}
use zao_rental.Release.Restore.Record.{
  CipherFile, DrillFile, EvidenceFiles, RestorePass, Derived, derive, finalize_restore_evidence,
  verify_restore_pass_record, max_age_ms,
}
use zao_rental.Release.Restore.Return.{finalize-verify}
use zao_rental.Release.Restore.Bound.{verify-bound}

abbrev key : List ℕ
key = codes "hourly/2026/11/03/2026-11-03T09-17-00-005Z.dump.age"

abbrev scheduled : List ℕ
scheduled = codes "2026-11-03T09:17:00.005Z"

abbrev started : List ℕ
started = codes "2026-11-03T09:18:00.005Z"

abbrev finished : List ℕ
finished = codes "2026-11-03T09:19:00.005Z"

abbrev finalized : List ℕ
finalized = codes "2026-11-03T09:20:00.005Z"

-- The clock readings of this drill, from the day's ninth hour on.
abbrev clock : List ℕ → Option ℕ
clock t =
    if same_codes t scheduled
    then some 1020005
    else if same_codes t started
    then some 1080005
    else if same_codes t finished
    then some 1140005
    else if same_codes t finalized
    then some 1200005
    else none

abbrev hash : String
hash = "0123456789abcdef0123456789abcdef0123456789abcdef0123456789abcdef"

abbrev table : CriticalTable
table = record { name = "public.bookings"; rows = some 3; sha256 = some hash }

abbrev verified : Verification
verified = record {
  migrations = some 53;
  registry_sha256 = some hash;
  foreign_keys = some 40;
  has_sequences = true;
  critical = table ∷ [];
}

abbrev result : DrillResult
result = record {
  status = "DRILL_PASS";
  data_class = "PRODUCTION";
  key = key;
  backup_scheduled_at = scheduled;
  started_at = started;
  finished_at = finished;
  ciphertext_bytes = some 900;
  ciphertext_sha256 = some hash;
  plaintext_sha256 = some hash;
  plaintext_bytes = some 4000;
  restore_ms = some 60000;
  age_ms = some 120000;
  tool_version = some "pg_restore (PostgreSQL) 18.1";
  rpo_rto_approved = some false;
  verification = some verified;
}

abbrev file : DrillFile
file = record { sha256 = hash; value = some result }

abbrev directory : EvidenceFiles
directory = record {
  key_text = some key;
  drill = some file;
  cipher = some (record { size = 900; sha256 = hash });
  cipher_is_gone = false;
  has_record = false;
}

abbrev filed : EvidenceFiles
filed = record {
  key_text = some key;
  drill = some file;
  cipher = none;
  cipher_is_gone = true;
  has_record = true;
}

abbrev pass : RestorePass
pass = record {
  key = key;
  object_sha256 = hash;
  ciphertext_bytes = 900;
  plaintext_sha256 = hash;
  migrations = 53;
  drill_result_sha256 = hash;
  backup_scheduled_at = scheduled;
  restore_ms = 60000;
  age_ms = 120000;
  finished_at = finished;
  finalized_at = finalized;
}

finalized_once : finalize_restore_evidence clock hash directory finalized 1200005 ≡ passed pass
unfolding finalize_restore_evidence derive zao_rental.Release.Backup.parse_object_key
    zao_rental.Release.Backup.assert_key_consistent validate_drill_result
    zao_rental.Release.Restore.check_object zao_rental.Release.Backup.key_time_iso
    zao_rental.Release.Restore.check_clock zao_rental.Release.Restore.check_verification
    zao_rental.Release.Restore.Record.assert_fresh
finalized_once = refl

verified_there : verify_restore_pass_record clock hash directory pass 1200005 ≡ passed pass
unfolding verify_restore_pass_record zao_rental.Release.Restore.Record.check_record
    zao_rental.Release.Backup.parse_object_key zao_rental.Release.Backup.assert_key_consistent
    zao_rental.Release.Restore.Record.assert_fresh derive validate_drill_result
    zao_rental.Release.Restore.check_object zao_rental.Release.Backup.key_time_iso
    zao_rental.Release.Restore.check_clock zao_rental.Release.Restore.check_verification
verified_there = refl

day_old_is_stale : verify_restore_pass_record clock hash directory pass 87540006 ≡ refused stale
unfolding verify_restore_pass_record zao_rental.Release.Restore.Record.check_record
    zao_rental.Release.Backup.parse_object_key zao_rental.Release.Backup.assert_key_consistent
    zao_rental.Release.Restore.Record.assert_fresh
day_old_is_stale = refl

hashed : (x : DrillFile) → directory.drill ≡ some x → is_sha256 x.sha256 ≡ true
hashed x e =
    let same : file ≡ x = ground (arith, e) in subst (λ y. is_sha256 y.sha256 ≡ true) same refl

finalize-verify_example : verify_restore_pass_record clock hash filed pass 87540005 ≡ passed pass
finalize-verify_example =
    finalize-verify clock hash directory filed finalized 1200005 87540005 1140005 pass
      finalized_once hashed refl refl (inl refl) refl (omega arith) (omega arith)

verify-bound_example :
    (d : Derived) × (pass ≡ pass)
    × (derive directory ≡ passed d)
    × (d.drill_sha ≡ hash)
    × (d.drill.status ≡ "DRILL_PASS")
    × (d.drill.data_class ≡ "PRODUCTION")
    × (pass.finished_at ≡ d.drill.finished_at)
    × (pass.backup_scheduled_at ≡ d.drill.backup_scheduled_at)
    × ((t : ℕ) × (clock d.drill.finished_at ≡ some t) × (1200005 ≤ t + max_age_ms))
    × ((directory.cipher_is_gone ≡ true)
        ⊎ ((f : CipherFile) × (directory.cipher ≡ some f) × (f.size ≡ 900) × (f.sha256 ≡ hash)))
verify-bound_example = verify-bound clock hash directory pass pass 1200005 verified_there
