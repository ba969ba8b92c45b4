-- ===== src/Release/Restore.antt =====
-- The evidence of a restore: scripts/production-restore-evidence.ts. Three local files, the object's
-- key, the ciphertext and the result of the drill, are bound to each other by a record. A value of
-- another type than the expected one is `none`; durations are in whole milliseconds.
pub mod Record
pub mod Binding
mod Return
mod Bound
mod Tests
use zao_rental.Common.{
  ℕ, zero, suc, ◌+◌, ◌-◌, ◌*◌, ◌/◌, ◌%◌, ◌^◌, ◌≤◌, ◌<◌, min, max, ◌≡◌, refl, sym, ap, subst, ◌∙◌,
  ◌≢◌, ◌↔◌, ◌⊎◌, inl, inr, Bool, true, false, not, ◌&&◌, ◌||◌, Option, none, some, List, [], ◌∷◌,
  ◌++◌, map, arith, String, str_eq, ltb, leb, ◌==◌, if◌then◌else◌, ltb→lt, leb→le, le→leb, ==_iff,
  ==_refl, Bool-cases, &&-eq-true, Option-cases, length, length-append, any, every, keep, find,
  total, All, All-append, All-imp, total-append, keep-append, includes, In, In-append_left,
  In-append_right, In-append-cases, All-In, In-keep, keep-In, find-In, any-In, every-In,
}
use zao_rental.Contracts.Flow.{codes}
use zao_rental.Common.Checked.{Checked, passed, refused, ◌>>=◌, ◌>>◌, ensure}
use zao_rental.Release.Backup.{
  same_codes, key_time_iso, parse_object_key, assert_key_consistent, after_prefix,
}

pub data RestoreError : Type 0 where
  shape_invalid key_invalid not_production_drill_pass key_mismatch ciphertext_mismatch
        migrations_mismatch file_invalid stale already_finalized binding_mismatch :
      RestoreError

pub record CriticalTable : Type 0 where
  pub name : String
  pub rows : Option ℕ
  pub sha256 : Option String

-- `has_sequences` says that `sequences` is a whole number; a count below 0 is `none`.
pub record Verification : Type 0 where
  pub migrations : Option ℕ
  pub registry_sha256 : Option String
  pub foreign_keys : Option ℕ
  pub has_sequences : Bool
  pub critical : List CriticalTable

-- The drill's result, as it was parsed.
pub record DrillResult : Type 0 where
  pub status : String
  pub data_class : String
  pub key : List ℕ
  pub backup_scheduled_at : List ℕ
  pub started_at : List ℕ
  pub finished_at : List ℕ
  pub ciphertext_bytes : Option ℕ
  pub ciphertext_sha256 : Option String
  pub plaintext_sha256 : Option String
  pub plaintext_bytes : Option ℕ
  pub restore_ms : Option ℕ
  pub age_ms : Option ℕ
  pub tool_version : Option String
  pub rpo_rto_approved : Option Bool
  pub verification : Option Verification

-- What `validateDrillResult` returns.
pub record Summary : Type 0 where
  pub plaintext_sha256 : String
  pub backup_scheduled_at : List ℕ
  pub restore_ms : ℕ
  pub age_ms : ℕ
  pub finished_at : List ℕ

abbrev is_hex : ℕ → Bool
is_hex c = (leb b'0' c && leb c b'9') || (leb b'a' c && leb c b'f')

-- `SHA256`
abbrev pub is_sha256 : String → Bool
is_sha256 s = length (codes s) == 64 && every is_hex (codes s)

abbrev pub given {ℓ} : {A : Type ℓ} → Option A → RestoreError → Checked RestoreError A
given none e = refused e
given (some a) e = passed a

-- A text that is a digest.
abbrev pub digest_of : Option String → Checked RestoreError String
digest_of none = refused shape_invalid
digest_of (some s) = if is_sha256 s then passed s else refused shape_invalid

abbrev is_version_18 : Option String → Bool
is_version_18 none = false
is_version_18 (some s) = elim (after_prefix (codes "pg_restore (PostgreSQL) 18.") (codes s)) [
  | none ↦ false
  | some rest ↦ true
]

abbrev is_denied : Option Bool → Bool
is_denied none = false
is_denied (some b) = not b

abbrev is_count : Option ℕ → ℕ → Bool
is_count none least = false
is_count (some n) least = leb least n

abbrev has_digest : Option String → Bool
has_digest none = false
has_digest (some s) = is_sha256 s

abbrev is_hashed : CriticalTable → Bool
is_hashed t = is_count t.rows 0 && has_digest t.sha256

-- `Math.abs(a-b)>1` does not hold.
abbrev pub is_near : ℕ → ℕ → Bool
is_near a b = leb a (b + 1) && leb b (a + 1)

-- Errors of the key's own checks.
abbrev pub of_key {ℓ κ} : {E : Type ℓ} {A : Type κ} → Checked E A → Checked RestoreError A
of_key (refused e) = refused key_invalid
of_key (passed a) = passed a

abbrev pub pre_0054_migrations : ℕ
pre_0054_migrations = 53

abbrev is_expected_count : Option ℕ → Bool
is_expected_count none = false
is_expected_count (some n) = n == pre_0054_migrations

-- The tests on what was verified in the restored database.
unfoldable pub check_verification : String → Verification → Checked RestoreError (Unit {0})
check_verification registry v = do
  ensure (is_expected_count v.migrations) migrations_mismatch
  found ← digest_of v.registry_sha256
  ensure (str_eq found registry) migrations_mismatch
  ensure (is_count v.foreign_keys 1 && v.has_sequences) shape_invalid
  ensure
      (ltb 0 (length v.critical)
        && not (any (λ t. str_eq t.name "public.provisional_capacity_receipts") v.critical))
      shape_invalid
  ensure (every is_hashed v.critical) shape_invalid

-- The object that the result has to be of.
pub record Expected : Type 0 where
  pub key : List ℕ
  pub bytes : ℕ
  pub sha256 : String

abbrev is_bytes : Option ℕ → ℕ → Bool
is_bytes none n = false
is_bytes (some m) n = m == n

-- `isoMs` of a text is `iso_ms`: the drill's clock readings agree with each other.
unfoldable pub check_clock :
    (List ℕ → Option ℕ) → DrillResult → ℕ → ℕ → Checked RestoreError (Unit {0})
check_clock iso_ms r restore age = do
  scheduled ← given (iso_ms r.backup_scheduled_at) shape_invalid
  started ← given (iso_ms r.started_at) shape_invalid
  finished ← given (iso_ms r.finished_at) shape_invalid
  ensure
      (leb scheduled started
        && leb started finished
        && is_near (finished - started) restore
        && is_near (finished - scheduled) age)
      shape_invalid

-- The tests that bind the result to the object.
unfoldable pub check_object : DrillResult → Expected → Checked RestoreError (Unit {0})
check_object r x = do
  ensure (str_eq r.status "DRILL_PASS" && str_eq r.data_class "PRODUCTION")
      not_production_drill_pass
  ensure (same_codes r.key x.key) key_mismatch
  time ← of_key (key_time_iso x.key)
  ensure (same_codes r.backup_scheduled_at time) key_mismatch
  ensure (is_bytes r.ciphertext_bytes x.bytes) ciphertext_mismatch
  cipher ← digest_of r.ciphertext_sha256
  ensure (str_eq cipher x.sha256) ciphertext_mismatch

-- The registry's digest comes from this checkout's migrations.
module _ (iso_ms : List ℕ → Option ℕ) (registry : String) where
  -- `validateDrillResult`
  unfoldable pub validate_drill_result : DrillResult → Expected → Checked RestoreError Summary
  validate_drill_result r x = do
    check_object r x
    plaintext ← digest_of r.plaintext_sha256
    bytes ← given r.plaintext_bytes shape_invalid
    restore ← given r.restore_ms shape_invalid
    age ← given r.age_ms shape_invalid
    check_clock iso_ms r restore age
    ensure (is_version_18 r.tool_version && is_denied r.rpo_rto_approved) shape_invalid
    v ← given r.verification shape_invalid
    check_verification registry v
    passed (record {
      plaintext_sha256 = plaintext;
      backup_scheduled_at = r.backup_scheduled_at;
      restore_ms = restore;
      age_ms = age;
      finished_at = r.finished_at;
    })
