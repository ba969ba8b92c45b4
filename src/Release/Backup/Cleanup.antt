-- ===== src/Release/Backup/Cleanup.antt =====
-- What is left on the disk when a run has ended.
use zao_rental.Common.{
  ℕ, ◌≡◌, refl, ◌⊎◌, inl, inr, Bool, true, false, Option-cases, Bool-cases, ◌==◌, none, some, List,
  [], ◌∷◌, arith, String,
}
use zao_rental.Common.Checked.{Checked, passed, refused}
use zao_rental.Release.Backup.{BackupError, BackupClass, UtcTime}
use zao_rental.Release.Backup.Run.{
  BackupEnv, Adapters, File, plaintext_path, ciphertext_path, Step, made_directory, dumps,
  validated, encrypts, uploaded, removed, removed_directory, Progress, Reply, and_did, dump_step,
  clean, nothing_done, guarded, from_directory, with_env, check_backup_env, run_production_backup,
}

-- The directory of the run and what may be in it.
pub record Disk : Type 0 where
  pub directory : Bool
  pub plaintext : Bool
  pub ciphertext : Bool

abbrev pub empty : Disk
empty = record { directory = false; plaintext = false; ciphertext = false }

abbrev set : File → Bool → Disk → Disk
set plaintext_path b d = record d { plaintext = b }
set ciphertext_path b d = record d { ciphertext = b }

-- What one step does to the disk; the directory is removed with all that is in it.
abbrev pub act : Step → Disk → Disk
act made_directory d = record d { directory = true }
act (dumps f) d = set f true d
act (validated f) d = d
act (encrypts f g) d = set g true d
act (uploaded b k f n) d = d
act (removed f true) d = set f false d
act (removed f false) d = d
act (removed_directory true) d = empty
act (removed_directory false) d = d

abbrev pub on_disk : List Step → Disk
on_disk [] = empty
on_disk (x ∷ xs) = act x (on_disk xs)

-- The same as `IsClean` below, as the steps give it.
abbrev IsCleanIf : Adapters → List Step → Type 0
IsCleanIf a xs =
    ((xs ≡ []) ⊎ ((rest : List Step) × (xs ≡ removed_directory a.removes_directory ∷ rest)))
    × (a.removes_directory ≡ true → on_disk xs ≡ empty)
    × (a.removes_plaintext ≡ true → a.dump ≡ some 0 → (on_disk xs).plaintext ≡ false)
    × (a.removes_ciphertext ≡ true → (n : ℕ) → a.encrypt ≡ some n → (on_disk xs).ciphertext ≡ false)

-- A file whose writing ended well is flagged.
abbrev IsFlagged : Adapters → Progress → Type 0
IsFlagged a p =
    (a.dump ≡ some 0 → ((on_disk p.steps).plaintext ≡ false) ⊎ (p.plaintext_written ≡ true))
    × ((n : ℕ)
        → a.encrypt ≡ some n
        → ((on_disk p.steps).ciphertext ≡ false) ⊎ (p.ciphertext_written ≡ true))

module _ (bucket : String) (a : Adapters) (c : BackupClass) (at : UtcTime) where
  abbrev begun : Reply
  begun = dump_step bucket a c at (and_did made_directory nothing_done)

  begun-plaintext :
      a.dump ≡ some 0
      → ((on_disk begun.0.steps).plaintext ≡ false) ⊎ (begun.0.plaintext_written ≡ true)
  begun-plaintext e = ground (arith, e)

  begun-ciphertext :
      (n : ℕ)
      → a.encrypt ≡ some n
      → ((on_disk begun.0.steps).ciphertext ≡ false) ⊎ (begun.0.ciphertext_written ≡ true)
  begun-ciphertext n e = ground (arith, e)

  clean-plaintext :
      (p : Progress)
      → a.removes_plaintext ≡ true
      → ((on_disk p.steps).plaintext ≡ false) ⊎ (p.plaintext_written ≡ true)
      → (on_disk (clean a p).steps).plaintext ≡ false
  clean-plaintext p y h = ground (arith, y, h)

  clean-ciphertext :
      (p : Progress)
      → a.removes_ciphertext ≡ true
      → ((on_disk p.steps).ciphertext ≡ false) ⊎ (p.ciphertext_written ≡ true)
      → (on_disk (clean a p).steps).ciphertext ≡ false
  clean-ciphertext p y h = ground (arith, y, h)

  clean-IsCleanIf : (p : Progress) → IsFlagged a p → IsCleanIf a (clean a p).steps
  clean-IsCleanIf p (plain, cipher) = (
    inr (_, refl),
    λ y. rw y refl,
    λ y e. clean-plaintext p y (plain e),
    λ y n e. clean-ciphertext p y (cipher n e),
  )

  nothing-IsCleanIf : IsCleanIf a []
  nothing-IsCleanIf = (inl refl, λ y. refl, λ y e. refl, λ y n e. refl)

  guarded-IsCleanIf : (x : Reply) → IsFlagged a x.0 → IsCleanIf a (guarded a x).0.steps
  guarded-IsCleanIf (p, r) h = clean-IsCleanIf p h

  from_directory-IsCleanIf : (m : Bool) → IsCleanIf a (from_directory bucket a c at m).0.steps
  from_directory-IsCleanIf true = guarded-IsCleanIf begun (begun-plaintext, begun-ciphertext)
  from_directory-IsCleanIf false = nothing-IsCleanIf

  with_env-IsCleanIf : (m : Checked BackupError _) → IsCleanIf a (with_env bucket a c at m).0.steps
  with_env-IsCleanIf (refused e) = nothing-IsCleanIf
  with_env-IsCleanIf (passed u) = from_directory-IsCleanIf a.makes_directory

-- The dump and the encryption were written in full.
abbrev pub is_dumped : Adapters → Bool
is_dumped a = elim a.dump [ none ↦ false | some code ↦ code == 0 ]

abbrev pub is_encrypted : Adapters → Bool
is_encrypted a = elim a.encrypt [ none ↦ false | some n ↦ true ]

-- The removal of the directory is the last thing that is tried; where it succeeds nothing is left, and
-- where the removal of a file that was written in full succeeds, the file is gone.
abbrev pub IsClean : Adapters → List Step → Type 0
IsClean a xs =
    ((xs ≡ []) ⊎ ((rest : List Step) × (xs ≡ removed_directory a.removes_directory ∷ rest)))
    × ((a.removes_directory ≡ false) ⊎ (on_disk xs ≡ empty))
    × ((a.removes_plaintext ≡ false) ⊎ ((is_dumped a ≡ false) ⊎ ((on_disk xs).plaintext ≡ false)))
    × ((a.removes_ciphertext ≡ false)
        ⊎ ((is_encrypted a ≡ false) ⊎ ((on_disk xs).ciphertext ≡ false)))

is_dumped-some : (a : Adapters) → is_dumped a ≡ true → a.dump ≡ some 0
is_dumped-some a h = ground (arith, h)

is_encrypted-some : (a : Adapters) → is_encrypted a ≡ true → (n : ℕ) × (a.encrypt ≡ some n)
is_encrypted-some a h = elim (Option-cases a.encrypt) [
  | inl e ↦ absurd (ground (arith, h, e))
  | inr (n, e) ↦ (n, e)
]

-- A test is false, or what follows from it holds.
unless_false : {A : Type 0} → (b : Bool) → (b ≡ true → A) → (b ≡ false) ⊎ A
unless_false b f = elim (Bool-cases b) [ inl h ↦ inr (f h) | inr h ↦ inl h ]

IsCleanIf-IsClean : (a : Adapters) (xs : List Step) → IsCleanIf a xs → IsClean a xs
IsCleanIf-IsClean a xs (last, all, plain, cipher) = (
  last,
  unless_false a.removes_directory all,
  unless_false a.removes_plaintext
      (λ r. unless_false (is_dumped a) (λ d. plain r (is_dumped-some a d))),
  unless_false a.removes_ciphertext (λ r.
      unless_false (is_encrypted a) (λ d. let (n, e) = is_encrypted-some a d in cipher r n e)),
)

-- However a run ends that made its directory, the last thing it tries is to remove the directory, and
-- where that succeeds nothing of the run is on the disk, whatever was written, in full or in part. Where
-- it fails, a file that was written in full is still gone if its own removal succeeded.
pub run_production_backup-IsClean :
    (port bucket : String) (env : BackupEnv) (a : Adapters) (c : BackupClass) (at : UtcTime)
    → IsClean a (run_production_backup port bucket env a c at).0.steps
unfolding run_production_backup
run_production_backup-IsClean port bucket env a c at =
    IsCleanIf-IsClean a (run_production_backup port bucket env a c at).0.steps
      (with_env-IsCleanIf env.bucket a c at (check_backup_env port bucket env))
