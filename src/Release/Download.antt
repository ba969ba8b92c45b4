-- ===== src/Release/Download.antt =====
-- `downloadBackupObject` in scripts/production-backup-object-get.ts: the object of a key is fetched to
-- the one path planned for it. What is at that path is the state; the answers of wrangler and of the
-- file system are inputs.
pub mod Restored
mod Tests
use zao_rental.Common.{
  ℕ, Bool, true, false, ◌&&◌, Option, none, some, List, String, leb, if◌then◌else◌,
}
use zao_rental.Common.Checked.{Checked, passed, refused, ◌>>=◌, ◌>>◌, ensure}
use zao_rental.Release.Backup.{parse_object_key, assert_key_consistent}

pub data DownloadError : Type 0 where
  key_file_missing key_rejected output_exists wrangler_missing directory_failed wrangler_failed
        output_invalid mode_failed read_failed :
      DownloadError

-- What `lstat` says of what is at the path: a file or a link, never a directory.
pub record OutputFile : Type 0 where
  pub is_regular : Bool
  pub size : ℕ

-- What is there before the call; `output` is at the planned path.
pub record Before : Type 0 where
  pub key_text : Option (List ℕ)
  pub output : Option OutputFile
  pub has_wrangler : Bool

-- The answers: whether the run ends without an error, what it leaves at the path, and the digest that
-- is read.
pub record Answers : Type 0 where
  pub makes_directory : Bool
  pub runs : Bool
  pub left : Option OutputFile
  pub changes_mode : Bool
  pub digest : Option String

pub record Download : Type 0 where
  pub key : List ℕ
  pub bytes : ℕ
  pub sha256 : String

abbrev pub needed {ℓ} : {A : Type ℓ} → Option A → DownloadError → Checked DownloadError A
needed none e = refused e
needed (some a) e = passed a

abbrev pub of_key {ℓ κ} : {E : Type ℓ} {A : Type κ} → Checked E A → Checked DownloadError A
of_key (passed a) = passed a
of_key (refused e) = refused key_rejected

abbrev pub is_free {ℓ} : {A : Type ℓ} → Option A → Bool
is_free none = true
is_free (some a) = false

-- The part before the `try`: nothing is at the path where it passes.
unfoldable pub prepare : Before → Answers → Checked DownloadError (List ℕ)
prepare w a = do
  text ← needed w.key_text key_file_missing
  key ← of_key (parse_object_key text)
  of_key (assert_key_consistent key)
  ensure (is_free w.output) output_exists
  ensure w.has_wrangler wrangler_missing
  ensure a.makes_directory directory_failed
  passed key

-- The body of the `try`.
unfoldable pub fetch : List ℕ → Answers → Checked DownloadError Download
fetch key a = do
  ensure a.runs wrangler_failed
  f ← needed a.left output_invalid
  ensure (f.is_regular && leb 1 f.size) output_invalid
  ensure a.changes_mode mode_failed
  hash ← needed a.digest read_failed
  passed (record { key = key; bytes = f.size; sha256 = hash })

-- The `catch`: the output is removed and the error thrown again.
abbrev pub clean_up :
    Option OutputFile
    → Checked DownloadError Download
    → Option OutputFile × Checked DownloadError Download
clean_up left (passed d) = (left, passed d)
clean_up left (refused e) = (none, refused e)

abbrev pub try_fetch :
    Before
    → Answers
    → Checked DownloadError (List ℕ)
    → Option OutputFile × Checked DownloadError Download
try_fetch w a (refused e) = (w.output, refused e)
try_fetch w a (passed key) = clean_up a.left (fetch key a)

-- What is at the path afterwards, and the answer.
unfoldable pub download_backup_object :
    Before → Answers → Option OutputFile × Checked DownloadError Download
download_backup_object w a = try_fetch w a (prepare w a)
