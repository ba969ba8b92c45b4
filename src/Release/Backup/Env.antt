-- ===== src/Release/Backup/Env.antt =====
-- The settings of a backup and the environment of its child process: `readBackupEnv`,
-- `assertCaRootUsable`, `buildPgDumpChildEnv` and `spawnPgDump` of scripts/production-backup.ts. A host
-- is trimmed and put in lower case by `normal`, and `digest` is SHA-256 in hexadecimal.
pub mod Settled
pub mod Closed
mod Tests
use zao_rental.Common.{
  ℕ, zero, suc, ◌+◌, ◌-◌, ◌*◌, ◌/◌, ◌%◌, ◌^◌, ◌≤◌, ◌<◌, min, max, ◌≡◌, refl, sym, ap, subst, ◌∙◌,
  ◌≢◌, ◌↔◌, ◌⊎◌, inl, inr, Bool, true, false, not, ◌&&◌, ◌||◌, Option, none, some, List, [], ◌∷◌,
  ◌++◌, map, arith, String, str_eq, ltb, leb, ◌==◌, if◌then◌else◌, ltb→lt, leb→le, le→leb, ==_iff,
  ==_refl, Bool-cases, &&-eq-true, Option-cases, length, length-append, any, every, keep, find,
  total, All, All-append, All-imp, total-append, keep-append, includes, In, In-append_left,
  In-append_right, In-append-cases, All-In, In-keep, keep-In, find-In, any-In, every-In,
}
use zao_rental.Contracts.Flow.{codes}
use zao_rental.Common.Checked.{Checked, passed, refused, ◌>>=◌, ◌>>◌, ensure}
use zao_rental.Release.Backup.{same_codes}
use zao_rental.Release.Backup.Run.{occurs, ends_with}

-- `process.env`
abbrev pub ProcessEnv : Type 0
ProcessEnv = String → Option String

abbrev pub expected_production_bucket : String
expected_production_bucket = "zao-rental-prod-backup"

abbrev pub expected_production_port : String
expected_production_port = "5432"

abbrev pub expected_production_ca_root : String
expected_production_ca_root = "/etc/ssl/certs/ca-certificates.crt"

abbrev pub allowed_ambient_child_env_keys : List String
allowed_ambient_child_env_keys =
    "PATH" ∷ ("HOME" ∷ ("LANG" ∷ ("LC_ALL" ∷ ("TMPDIR" ∷ ("TEMP" ∷ ("TMP" ∷ []))))))

abbrev pub required_env_keys : List String
required_env_keys =
    "PGHOST"
    ∷ ("PGPORT"
        ∷ ("PGDATABASE"
            ∷ ("PGUSER"
                ∷ ("PGPASSWORD"
                    ∷ ("PRODUCTION_BACKUP_BUCKET"
                        ∷ ("AGE_BACKUP_RECIPIENT"
                            ∷ ("R2_ACCOUNT_ID"
                                ∷ ("R2_ACCESS_KEY_ID" ∷ ("R2_SECRET_ACCESS_KEY" ∷ [])))))))))

-- `BackupEnv`
pub record Settings : Type 0 where
  pub pg_host : String
  pub pg_port : String
  pub pg_database : String
  pub pg_user : String
  pub pg_password : String
  pub bucket : String
  pub age_recipient : String
  pub r2_account_id : String
  pub r2_access_key_id : String
  pub r2_secret_access_key : String

pub data EnvError : Type 0 where
  env_missing : List String → EnvError
  host_empty host_localhost_rejected host_pooled_rejected host_non_neon_rejected port_rejected
        bucket_mismatch_rejected host_fingerprint_mismatch_rejected ca_root_missing
        ca_root_not_ordinary_file ca_root_unreadable :
      EnvError

-- `assertProductionHost` of a normal host.
unfoldable pub assert_production_host : List ℕ → Checked EnvError (Unit {0})
assert_production_host h = do
  ensure (not (length h == 0)) host_empty
  ensure
      (not (
        same_codes h (codes "localhost")
        || same_codes h (codes "127.0.0.1")
        || same_codes h (codes "::1")))
      host_localhost_rejected
  ensure (not (occurs (codes "-pooler") h)) host_pooled_rejected
  ensure (ends_with (codes ".neon.tech") h) host_non_neon_rejected

abbrev pub text_at : ProcessEnv → String → String
text_at env k = elim (env k) [ none ↦ "" | some v ↦ v ]

-- `!env[k]`
abbrev pub is_missing : ProcessEnv → String → Bool
is_missing env k = str_eq (text_at env k) ""

abbrev pub ensure_none : List String → Checked EnvError (Unit {0})
ensure_none [] = passed tt
ensure_none (k ∷ ks) = refused (env_missing (k ∷ ks))

abbrev pub settings_of : ProcessEnv → Settings
settings_of env = record {
  pg_host = text_at env "PGHOST";
  pg_port = text_at env "PGPORT";
  pg_database = text_at env "PGDATABASE";
  pg_user = text_at env "PGUSER";
  pg_password = text_at env "PGPASSWORD";
  bucket = text_at env "PRODUCTION_BACKUP_BUCKET";
  age_recipient = text_at env "AGE_BACKUP_RECIPIENT";
  r2_account_id = text_at env "R2_ACCOUNT_ID";
  r2_access_key_id = text_at env "R2_ACCESS_KEY_ID";
  r2_secret_access_key = text_at env "R2_SECRET_ACCESS_KEY";
}

module _ (normal : String → List ℕ) (digest : List ℕ → String) where
  -- `fingerprintHost`
  abbrev pub fingerprint_host : String → String
  fingerprint_host host = digest (normal host)

  -- `assertProductionHostFingerprint`
  abbrev pub assert_production_host_fingerprint : String → String → Checked EnvError (Unit {0})
  assert_production_host_fingerprint host expected =
      ensure (str_eq (fingerprint_host host) expected) host_fingerprint_mismatch_rejected

  -- `readBackupEnv`
  unfoldable pub read_backup_env : ProcessEnv → String → Checked EnvError Settings
  read_backup_env env expected = do
    ensure_none (keep (is_missing env) required_env_keys)
    let out = settings_of env
    assert_production_host (normal (text_at env "PGHOST"))
    ensure (str_eq (text_at env "PGPORT") expected_production_port) port_rejected
    ensure (str_eq (text_at env "PRODUCTION_BACKUP_BUCKET") expected_production_bucket)
        bucket_mismatch_rejected
    assert_production_host_fingerprint (text_at env "PGHOST") expected
    passed out

-- What `lstat` and `access` say of the bundle of roots.
pub record CaRoot : Type 0 where
  pub is_there : Bool
  pub is_ordinary : Bool
  pub is_readable : Bool

-- `assertCaRootUsable`
unfoldable pub assert_ca_root_usable : CaRoot → Checked EnvError (Unit {0})
assert_ca_root_usable r = do
  ensure r.is_there ca_root_missing
  ensure r.is_ordinary ca_root_not_ordinary_file
  ensure r.is_readable ca_root_unreadable

abbrev pub lookup : String → List (String × String) → Option String
lookup k [] = none
lookup k ((j, v) ∷ m) = if str_eq j k then some v else lookup k m

abbrev pub is_allowed : String → Bool
is_allowed k = any (str_eq k) allowed_ambient_child_env_keys

abbrev pub override : Option String → Option String → Option String
override none old = old
override (some v) old = some v

-- `minimalPgChildEnv`; the extra entries win.
unfoldable pub minimal_pg_child_env : ProcessEnv → List (String × String) → ProcessEnv
minimal_pg_child_env source extra k =
    override (lookup k extra) (if is_allowed k then source k else none)

abbrev pub pg_dump_entries : Settings → String → List (String × String)
pg_dump_entries env ca_root =
    ("PGHOST", env.pg_host)
    ∷ (("PGPORT", env.pg_port)
        ∷ (("PGDATABASE", env.pg_database)
            ∷ (("PGUSER", env.pg_user)
                ∷ (("PGPASSWORD", env.pg_password)
                    ∷ (("PGSSLMODE", "verify-full")
                        ∷ (("PGCHANNELBINDING", "require")
                            ∷ (("PGSSLROOTCERT", ca_root)
                                ∷ (("PGAPPNAME", "zao-rental-production-backup")
                                    ∷ (("PGOPTIONS", "-c lock_timeout=30000") ∷ [])))))))))

-- `buildPgDumpChildEnv`
unfoldable pub build_pg_dump_child_env : Settings → String → ProcessEnv → ProcessEnv
build_pg_dump_child_env env ca_root source =
    minimal_pg_child_env source (pg_dump_entries env ca_root)

-- What a child that was spawned comes to: its exit code, `none` where there is none or an error.
pub data Dump : Type 0 where
  not_spawned : EnvError → Dump
  spawned : ProcessEnv → ℕ → Dump

-- `spawnPgDump`: the exit code is 1 where nothing is spawned. The tail of the error output is left out.
unfoldable pub spawn_pg_dump : Settings → String → CaRoot → ProcessEnv → Option ℕ → Dump
spawn_pg_dump env ca_root r source exit = elim (assert_ca_root_usable r) [
  | refused e ↦ not_spawned e
  | passed u ↦
      spawned (build_pg_dump_child_env env ca_root source) (elim exit [ none ↦ 1 | some c ↦ c ])
]
