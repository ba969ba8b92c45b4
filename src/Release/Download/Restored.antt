-- ===== src/Release/Download/Restored.antt =====
-- A download is done as a whole or not at all.
use zao_rental.Common.{
  ℕ, ◌≡◌, refl, ◌≤◌, true, Option, none, some, arith, List, Option-cases, inl, inr,
}
use zao_rental.Common.Checked.{passed, refused, Checked-cases}
use zao_rental.Release.Download.{
  DownloadError, OutputFile, Before, Answers, Download, is_free, prepare, fetch,
  download_backup_object,
}

is_free-none : (m : Option OutputFile) → is_free m ≡ true → m ≡ none
is_free-none none h = refl
is_free-none (some f) h = absurd (cc)

prepare-none :
    (w : Before) (a : Answers) (key : List ℕ) → prepare w a ≡ passed key → w.output ≡ none
unfolding prepare
prepare-none w a key h = is_free-none w.output (ground (arith, h))

fetch-left :
    (key : List ℕ) (a : Answers) (d : Download)
    → fetch key a ≡ passed d
    → (f : OutputFile) × (a.left ≡ some f)
      × (f.is_regular ≡ true)
      × (1 ≤ f.size)
      × (d.bytes ≡ f.size)
unfolding fetch
fetch-left key a d h = elim (Option-cases a.left) [
  | inl n ↦ absurd (ground (arith, h, n))
  | inr (f, q) ↦ (f, q, ground (arith, h, q), ground (arith, h, q), ground (arith, h, q))
]

-- A download that fails leaves the planned path as it was.
pub download_backup_object-restored :
    (w : Before) (a : Answers) (e : DownloadError)
    → (download_backup_object w a).1 ≡ refused e
    → (download_backup_object w a).0 ≡ w.output
unfolding download_backup_object
download_backup_object-restored w a e h = elim (Checked-cases (prepare w a)) [
  | inl (x, p) ↦ ground (arith, h, p)
  | inr (key, p) ↦ elim (Checked-cases (fetch key a)) [
    | inl (x, q) ↦ let gone = prepare-none w a key p in ground (arith, p, q, gone)
    | inr (d, q) ↦ absurd (ground (arith, h, p, q))
  ]
]

-- A download that succeeds found nothing at the path, and leaves there a regular file that is not
-- empty, of the size that it answers.
download_backup_object-passed :
    (w : Before) (a : Answers) (d : Download)
    → (download_backup_object w a).1 ≡ passed d
    → (w.output ≡ none)
      × ((f : OutputFile) × ((download_backup_object w a).0 ≡ some f)
          × (f.is_regular ≡ true)
          × (1 ≤ f.size)
          × (d.bytes ≡ f.size))
unfolding download_backup_object
download_backup_object-passed w a d h = elim (Checked-cases (prepare w a)) [
  | inl (x, p) ↦ absurd (ground (arith, h, p))
  | inr (key, p) ↦ elim (Checked-cases (fetch key a)) [
    | inl (x, q) ↦ absurd (ground (arith, h, p, q))
    | inr (g, q) ↦
        let (f, left, regular, size, bytes) = fetch-left key a g q in
        (
          prepare-none w a key p,
          (f, ground (arith, p, q, left), regular, size, ground (arith, h, p, q, bytes)),
        )
  ]
]
