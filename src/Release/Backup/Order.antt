-- ===== src/Release/Backup/Order.antt =====
-- What a run of the backup uploads: which file, after which steps, and where.
use zao_rental.Common.{
  ℕ, ◌≤◌, ◌≡◌, refl, sym, ap, subst, ◌∙◌, ◌⊎◌, inl, inr, Bool, true, false, some, List, [], ◌∷◌,
  ◌++◌, arith, String, ==_iff, Bool-cases, Option-cases, any,
}
use mathlib.Core.List.{append_assoc}
use zao_rental.Common.Checked.{Checked, passed, refused}
use zao_rental.Release.Backup.{BackupError, BackupClass, hourly, daily, UtcTime, object_key}
use zao_rental.Release.Backup.Run.{
  BackupEnv, FileFacts, Adapters, plaintext_path, ciphertext_path, Step, made_directory, dumps,
  validated, encrypts, uploaded, removed, removed_directory, Progress, Reply, and_did, is_promoted,
  dump_step, clean, nothing_done, guarded, from_directory, with_env, check_backup_env,
  run_production_backup,
}

-- The archive and its encryption are good.
abbrev pub IsSound : Adapters → ℕ → Type 0
IsSound a n =
    (a.dump ≡ some 0)
    × ((f : FileFacts) × (a.plaintext ≡ some f) × (f.is_ordinary ≡ true) × (1 ≤ f.size))
    × (a.validate ≡ some true)
    × (a.encrypt ≡ some n)
    × (a.ciphertext_is_ordinary ≡ true)
    × (1 ≤ n)

abbrev is_upload : Step → Bool
is_upload (uploaded b k f n) = true
is_upload _ = false

-- The steps, the latest first, that come before an upload.
abbrev pub prepared : List Step
prepared =
    encrypts plaintext_path ciphertext_path
    ∷ (validated plaintext_path ∷ (dumps plaintext_path ∷ (made_directory ∷ [])))

abbrev pub upload_of : String → BackupClass → UtcTime → ℕ → Step
upload_of bucket c at n = uploaded bucket (object_key c at) ciphertext_path n

-- No upload; or the validated dump is encrypted and the ciphertext is uploaded, under its own key and
-- after that, at nine of an hourly run, under the daily one.
abbrev pub IsOrdered : String → Adapters → BackupClass → UtcTime → List Step → Type 0
IsOrdered bucket a c at xs =
    (any is_upload xs ≡ false)
    ⊎ ((n : ℕ) × (rest : List Step) × IsSound a n
        × (any is_upload rest ≡ false)
        × ((xs ≡ rest ++ upload_of bucket c at n ∷ prepared)
            ⊎ ((c ≡ hourly)
                × (at.hour ≡ 9)
                × (xs
                    ≡ rest
                      ++ (upload_of bucket daily at n ∷ (upload_of bucket c at n ∷ prepared))))))

abbrev begun : Progress
begun = and_did made_directory nothing_done

is_promoted-hourly :
    (c : BackupClass) (at : UtcTime) → is_promoted c at ≡ true → (c ≡ hourly) × (at.hour ≡ 9)
is_promoted-hourly hourly at h = (refl, (==_iff at.hour 9).0 h)
is_promoted-hourly daily at h = absurd (cc)

module _ (bucket : String) (a : Adapters) (c : BackupClass) (at : UtcTime) where
  dump_step-IsOrdered : IsOrdered bucket a c at (dump_step bucket a c at begun).0.steps
  dump_step-IsOrdered = elim (Option-cases a.encrypt) [
    | inl n ↦ inl (ground (arith, n))
    | inr (n, q) ↦ elim (Option-cases a.plaintext) [
      | inl o ↦ inl (ground (arith, o))
      | inr (f, o) ↦
          let xs = (dump_step bucket a c at begun).0.steps in
          let split : (any is_upload xs ≡ false)
              ⊎ (((a.dump ≡ some 0)
                    × ((f.is_ordinary ≡ true) × (1 ≤ f.size))
                    × (a.validate ≡ some true)
                    × (a.ciphertext_is_ordinary ≡ true)
                    × (1 ≤ n))
                  × ((xs ≡ upload_of bucket c at n ∷ prepared)
                      ⊎ ((is_promoted c at ≡ true)
                          × (xs
                              ≡ upload_of bucket daily at n
                                ∷ (upload_of bucket c at n ∷ prepared))))) =
            ground (arith, q, o) in
          elim split [
            | inl z ↦ inl z
            | inr (s, w) ↦ inr (
              n,
              [],
              (s.0, (f, o, s.1.0, s.1.1), s.2, q, s.3, s.4),
              refl,
              elim w [
                | inl own ↦ inl own
                | inr (p, both) ↦
                    let (hour, nine) = is_promoted-hourly c at p in inr (hour, nine, both)
              ],
            )
          ]
    ]
  ]

  -- Nothing is uploaded when the run cleans up.
  clean-appends :
      (p : Progress)
      → (rest : List Step) × ((clean a p).steps ≡ rest ++ p.steps) × (any is_upload rest ≡ false)
  clean-appends p = elim (Bool-cases p.ciphertext_written) [
    | inl y ↦ elim (Bool-cases p.plaintext_written) [
      | inl z ↦ (
        removed_directory a.removes_directory
            ∷ (removed ciphertext_path a.removes_ciphertext
                ∷ (removed plaintext_path a.removes_plaintext ∷ [])),
        rw (y, z) refl,
        refl,
      )
      | inr z ↦ (
        removed_directory a.removes_directory ∷ (removed ciphertext_path a.removes_ciphertext ∷ []),
        rw (y, z) refl,
        refl,
      )
    ]
    | inr y ↦ elim (Bool-cases p.plaintext_written) [
      | inl z ↦ (
        removed_directory a.removes_directory ∷ (removed plaintext_path a.removes_plaintext ∷ []),
        rw (y, z) refl,
        refl,
      )
      | inr z ↦ (removed_directory a.removes_directory ∷ [], rw (y, z) refl, refl)
    ]
  ]

  any-append :
      (xs ys : List Step)
      → any is_upload xs ≡ false
      → any is_upload ys ≡ false
      → any is_upload (xs ++ ys) ≡ false
  any-append [] ys h k = k
  any-append (x ∷ xs) ys h k =
      let ih = any-append xs ys (ground (arith, h)) k in ground (arith, h, ih)

  IsOrdered-after :
      (front xs : List Step)
      → any is_upload front ≡ false
      → IsOrdered bucket a c at xs
      → IsOrdered bucket a c at (front ++ xs)
  IsOrdered-after front xs h (inl k) = inl (any-append front xs h k)
  IsOrdered-after front xs h (inr (n, rest, s, k, inl e)) = inr (
    n,
    front ++ rest,
    s,
    any-append front rest h k,
    inl (
        ap (λ l. front ++ l) e
        ∙ sym (append_assoc front rest (upload_of bucket c at n ∷ prepared))),
  )
  IsOrdered-after front xs h (inr (n, rest, s, k, inr (hour, nine, e))) = inr (
    n,
    front ++ rest,
    s,
    any-append front rest h k,
    inr (
      hour,
      nine,
      ap (λ l. front ++ l) e
          ∙ sym (
              append_assoc front rest
                (upload_of bucket daily at n ∷ (upload_of bucket c at n ∷ prepared))),
    ),
  )

  guarded-IsOrdered :
      (x : Reply)
      → IsOrdered bucket a c at x.0.steps
      → IsOrdered bucket a c at (guarded a x).0.steps
  guarded-IsOrdered (p, r) h =
      let (rest, e, none_) = clean-appends p in
      subst (IsOrdered bucket a c at) (sym e) (IsOrdered-after rest p.steps none_ h)

  from_directory-IsOrdered :
      (m : Bool) → IsOrdered bucket a c at (from_directory bucket a c at m).0.steps
  from_directory-IsOrdered true =
      guarded-IsOrdered (dump_step bucket a c at begun) dump_step-IsOrdered
  from_directory-IsOrdered false = inl refl

  with_env-IsOrdered :
      (m : Checked BackupError _) → IsOrdered bucket a c at (with_env bucket a c at m).0.steps
  with_env-IsOrdered (refused e) = inl refl
  with_env-IsOrdered (passed u) = from_directory-IsOrdered a.makes_directory

-- A run uploads nothing; or it has dumped, validated and encrypted an ordinary file that is not empty
-- to a ciphertext of at least one byte, and uploads the file of that ciphertext to the bucket of its
-- settings: under its own key, and after that under the daily key, only where it is an hourly run at
-- nine o'clock.
pub run_production_backup-IsOrdered :
    (port bucket : String) (env : BackupEnv) (a : Adapters) (c : BackupClass) (at : UtcTime)
    → IsOrdered env.bucket a c at (run_production_backup port bucket env a c at).0.steps
unfolding run_production_backup
run_production_backup-IsOrdered port bucket env a c at =
    with_env-IsOrdered env.bucket a c at (check_backup_env port bucket env)
