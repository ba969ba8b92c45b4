-- ===== src/Release/Download/Tests.antt =====
-- A download that stops half way, and one that ends.
use zao_rental.Common.{◌≡◌, refl, true, false, some, none}
use zao_rental.Contracts.Flow.{codes}
use zao_rental.Common.Checked.{refused}
use zao_rental.Release.Download.{
  Before, Answers, Download, OutputFile, wrangler_failed, download_backup_object,
}
use zao_rental.Release.Download.Restored.{download_backup_object-restored}

abbrev start : Before
start = record {
  key_text = some (codes "hourly/2026/11/03/2026-11-03T09-17-00-005Z.dump.age\n");
  output = none;
  has_wrangler = true;
}

abbrev written : OutputFile
written = record { is_regular = true; size = 900 }

abbrev broken_off : Answers
broken_off = record {
  makes_directory = true;
  runs = false;
  left = some written;
  changes_mode = true;
  digest = some "00";
}

abbrev ended : Answers
ended = record {
  makes_directory = true;
  runs = true;
  left = some written;
  changes_mode = true;
  digest = some "00";
}

downloaded : (download_backup_object start ended).0 ≡ some written
unfolding download_backup_object zao_rental.Release.Download.prepare
    zao_rental.Release.Backup.parse_object_key zao_rental.Release.Backup.assert_key_consistent
    zao_rental.Release.Download.fetch
downloaded = refl

broke_off : (download_backup_object start broken_off).1 ≡ refused wrangler_failed
unfolding download_backup_object zao_rental.Release.Download.prepare
    zao_rental.Release.Backup.parse_object_key zao_rental.Release.Backup.assert_key_consistent
    zao_rental.Release.Download.fetch
broke_off = refl

download_backup_object-restored_example : (download_backup_object start broken_off).0 ≡ start.output
download_backup_object-restored_example =
    download_backup_object-restored start broken_off wrangler_failed broke_off
