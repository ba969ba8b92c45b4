-- ===== src/Release/Backup/Tests.antt =====
-- A key, and the designated run of a day.
use zao_rental.Common.{arith, ◌≡◌, refl, true, false, some}
use zao_rental.Contracts.Flow.{codes}
use zao_rental.Common.Checked.{passed, is_passed}
use zao_rental.Release.Backup.{
  BackupClass, hourly, daily, UtcTime, iso, object_key, parse_object_key, assert_key_consistent,
  key_time_iso,
}
use zao_rental.Release.Backup.Keys.{object_key-read}
use zao_rental.Release.Backup.Run.{
  BackupEnv, Adapters, BackupResult, result_of, run_production_backup,
}
use zao_rental.Release.Backup.Order.{IsOrdered, run_production_backup-IsOrdered}
use zao_rental.Release.Backup.Cleanup.{IsClean, run_production_backup-IsClean}

abbrev instant : UtcTime
instant = record { year = 2026; month = 11; day = 3; hour = 9; minute = 17; second = 0; milli = 5 }

key_printed :
    object_key hourly instant ≡ codes "hourly/2026/11/03/2026-11-03T09-17-00-005Z.dump.age"
unfolding object_key zao_rental.Release.Backup.digit
key_printed = refl

-- The year 999 is not padded, and its key is not accepted.
early_refused :
    is_passed (parse_object_key (object_key hourly (record instant { year = 999 }))) ≡ false
unfolding parse_object_key object_key zao_rental.Release.Backup.digit
early_refused = refl

wrong_day_refused :
    is_passed (assert_key_consistent (codes "hourly/2026/11/04/2026-11-03T09-17-00-005Z.dump.age"))
    ≡ false
unfolding assert_key_consistent
wrong_day_refused = refl

object_key-read_example :
    (parse_object_key (object_key daily instant) ≡ passed (object_key daily instant))
    × (assert_key_consistent (object_key daily instant) ≡ passed tt)
    × (key_time_iso (object_key daily instant) ≡ passed (iso instant))
object_key-read_example = object_key-read daily instant (omega arith) (omega arith)

abbrev env : BackupEnv
env = record { host = codes "ep-a.neon.tech"; port = "5432"; bucket = "backups" }

abbrev answers : Adapters
answers = record {
  makes_directory = true;
  dump = some 0;
  plaintext = some (record { is_ordinary = true; size = 900 });
  validate = some true;
  encrypt = some 1000;
  ciphertext_is_ordinary = true;
  uploads = true;
  uploads_daily = true;
  tool_versions = true;
  removes_plaintext = true;
  removes_ciphertext = false;
  removes_directory = true;
}

backed_up :
    (run_production_backup "5432" "backups" env answers hourly instant).1
    ≡ passed (result_of "backups" answers hourly instant 900)
unfolding run_production_backup zao_rental.Release.Backup.Run.check_backup_env
backed_up = refl

run_production_backup-IsOrdered_example :
    IsOrdered "backups" answers hourly instant
      (run_production_backup "5432" "backups" env answers hourly instant).0.steps
run_production_backup-IsOrdered_example =
    run_production_backup-IsOrdered "5432" "backups" env answers hourly instant

run_production_backup-IsClean_example :
    IsClean answers (run_production_backup "5432" "backups" env answers hourly instant).0.steps
run_production_backup-IsClean_example =
    run_production_backup-IsClean "5432" "backups" env answers hourly instant
