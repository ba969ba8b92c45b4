-- ===== src/Release/Backup/Run.antt =====
-- `runProductionBackup` in scripts/production-backup.ts: the steps of a run, the latest first, with the
-- answers of the adapters and of the file system as inputs.
use zao_rental.Common.{
  ℕ, Bool, true, false, not, ◌&&◌, ◌||◌, Option, none, some, List, [], ◌∷◌, String, str_eq, ◌==◌,
  if◌then◌else◌,
}
use zao_rental.Contracts.Flow.{codes}
use zao_rental.Common.Checked.{Checked, passed, refused, ◌>>◌, ensure}
use zao_rental.Release.Backup.{
  BackupError, host_rejected, port_rejected, bucket_mismatch_rejected, pg_dump_failed,
  special_file_rejected, empty_archive_rejected, archive_validation_failed, encryption_invalid,
  adapter_failed, BackupClass, hourly, daily, UtcTime, object_key, after_prefix, same_codes,
}

-- The host is trimmed and in lower case.
pub record BackupEnv : Type 0 where
  pub host : List ℕ
  pub port : String
  pub bucket : String

abbrev pub occurs : List ℕ → List ℕ → Bool
occurs ps [] = elim (after_prefix ps []) [ none ↦ false | some r ↦ true ]
occurs ps (c ∷ cs) =
    let rest = occurs ps cs in elim (after_prefix ps (c ∷ cs)) [ none ↦ rest | some r ↦ true ]

abbrev pub ends_with : List ℕ → List ℕ → Bool
ends_with ps [] = same_codes ps []
ends_with ps (c ∷ cs) = same_codes ps (c ∷ cs) || ends_with ps cs

-- `assertProductionHost`; an empty host and one outside Neon have one error here.
abbrev pub is_production_host : List ℕ → Bool
is_production_host h =
    not (same_codes h (codes "localhost"))
    && not (same_codes h (codes "127.0.0.1"))
    && not (same_codes h (codes "::1"))
    && not (occurs (codes "-pooler") h)
    && ends_with (codes ".neon.tech") h

-- The port and the bucket of production are constants of the configuration.
unfoldable pub check_backup_env : String → String → BackupEnv → Checked BackupError (Unit {0})
check_backup_env port bucket env = do
  ensure (is_production_host env.host) host_rejected
  ensure (str_eq env.port port) port_rejected
  ensure (str_eq env.bucket bucket) bucket_mismatch_rejected

-- What `lstat` says of a file.
pub record FileFacts : Type 0 where
  pub is_ordinary : Bool
  pub size : ℕ

-- The answers; `none` and `false` stand for an exception where a call has no other answer.
pub record Adapters : Type 0 where
  pub makes_directory : Bool
  pub dump : Option ℕ
  pub plaintext : Option FileFacts
  pub validate : Option Bool
  pub encrypt : Option ℕ
  pub ciphertext_is_ordinary : Bool
  pub uploads : Bool
  pub uploads_daily : Bool
  pub tool_versions : Bool
  pub removes_plaintext : Bool
  pub removes_ciphertext : Bool
  pub removes_directory : Bool

-- The two files of a run, in its directory.
pub data File : Type 0 where
  plaintext_path ciphertext_path : File

-- What an adapter or the file system is asked for, with its arguments. A dump and an encryption may
-- leave a file behind from the moment they begin; a removal says whether it succeeded.
pub data Step : Type 0 where
  made_directory : Step
  dumps validated : File → Step
  encrypts : File → File → Step
  uploaded : String → List ℕ → File → ℕ → Step
  removed : File → Bool → Step
  removed_directory : Bool → Step

-- The steps, and what the two flags say has been written.
pub record Progress : Type 0 where
  pub steps : List Step
  pub plaintext_written : Bool
  pub ciphertext_written : Bool

pub record BackupResult : Type 0 where
  pub key : List ℕ
  pub bytes : ℕ
  pub daily_key : Option (List ℕ)

abbrev pub Reply : Type 0
Reply = Progress × Checked BackupError BackupResult

abbrev pub and_did : Step → Progress → Progress
and_did x p = record p { steps = x ∷ p.steps }

-- `isDesignatedDailyRun` of an hourly run.
abbrev pub is_promoted : BackupClass → UtcTime → Bool
is_promoted hourly at = at.hour == 9
is_promoted daily at = false

module _ (bucket : String) (a : Adapters) (c : BackupClass) (at : UtcTime) where
  abbrev pub result_of : ℕ → BackupResult
  result_of bytes = record {
    key = object_key c at;
    bytes = bytes;
    daily_key = if is_promoted c at then some (object_key daily at) else none;
  }

  abbrev pub versions_step : ℕ → Progress → Reply
  versions_step bytes p =
      if a.tool_versions then (p, passed (result_of bytes)) else (p, refused adapter_failed)

  abbrev pub daily_step : ℕ → ℕ → Progress → Reply
  daily_step bytes n p =
      let p' = and_did (uploaded bucket (object_key daily at) ciphertext_path n) p in
      if not (is_promoted c at)
      then versions_step bytes p
      else if a.uploads_daily
      then versions_step bytes p'
      else (p', refused adapter_failed)

  abbrev pub upload_step : ℕ → ℕ → Progress → Reply
  upload_step bytes n p =
      let p' = and_did (uploaded bucket (object_key c at) ciphertext_path n) p in
      if a.uploads then daily_step bytes n p' else (p', refused adapter_failed)

  abbrev pub encrypt_step : ℕ → Progress → Reply
  encrypt_step bytes p =
      let q = and_did (encrypts plaintext_path ciphertext_path) p in
      elim a.encrypt [
        | none ↦ (q, refused adapter_failed)
        | some n ↦
            let p' = record q { ciphertext_written = true } in
            if not a.ciphertext_is_ordinary
            then (p', refused special_file_rejected)
            else if n == 0
            then (p', refused encryption_invalid)
            else upload_step bytes n p'
      ]

  abbrev pub validate_step : ℕ → Progress → Reply
  validate_step bytes p =
      let q = and_did (validated plaintext_path) p in
      elim a.validate [
        | none ↦ (q, refused adapter_failed)
        | some ok ↦ if ok then encrypt_step bytes q else (q, refused archive_validation_failed)
      ]

  abbrev pub plaintext_step : Progress → Reply
  plaintext_step p = elim a.plaintext [
    | none ↦ (p, refused adapter_failed)
    | some f ↦
        if not f.is_ordinary
        then (p, refused special_file_rejected)
        else if f.size == 0
        then (p, refused empty_archive_rejected)
        else validate_step f.size p
  ]

  -- The body of `try`.
  abbrev pub dump_step : Progress → Reply
  dump_step p =
      let q = and_did (dumps plaintext_path) p in
      elim a.dump [
        | none ↦ (q, refused adapter_failed)
        | some code ↦
            if code == 0
            then plaintext_step (record q { plaintext_written = true })
            else (q, refused pg_dump_failed)
      ]

abbrev pub remove_if : Bool → Step → Progress → Progress
remove_if true x p = and_did x p
remove_if false x p = p

-- The body of `finally`; a removal that fails is ignored.
abbrev pub clean : Adapters → Progress → Progress
clean a p = and_did (removed_directory a.removes_directory) (
    remove_if p.ciphertext_written (removed ciphertext_path a.removes_ciphertext)
      (remove_if p.plaintext_written (removed plaintext_path a.removes_plaintext) p))

abbrev pub nothing_done : Progress
nothing_done = record { steps = []; plaintext_written = false; ciphertext_written = false }

abbrev pub guarded : Adapters → Reply → Reply
guarded a (p, r) = (clean a p, r)

-- From `mkdtemp` on, which made the directory or threw.
abbrev pub from_directory : String → Adapters → BackupClass → UtcTime → Bool → Reply
from_directory bucket a c at true =
    guarded a (dump_step bucket a c at (and_did made_directory nothing_done))
from_directory bucket a c at false = (nothing_done, refused adapter_failed)

abbrev pub with_env :
    String → Adapters → BackupClass → UtcTime → Checked BackupError (Unit {0}) → Reply
with_env bucket a c at (refused e) = (nothing_done, refused e)
with_env bucket a c at (passed _) = from_directory bucket a c at a.makes_directory

-- `runProductionBackup`
unfoldable pub run_production_backup :
    String → String → BackupEnv → Adapters → BackupClass → UtcTime → Reply
run_production_backup port bucket env a c at =
    with_env env.bucket a c at (check_backup_env port bucket env)
