-- ===== src/Release/Restore/Bound.antt =====
-- What a verified record is bound to.
use zao_rental.Common.{
  ℕ, ◌+◌, ◌≤◌, ◌≡◌, refl, sym, subst, ◌∙◌, ◌⊎◌, inl, inr, true, false, Option, none, some, List,
  arith, String, str_eq, ==_iff, Bool-cases, Option-cases,
}
use text.Mathlib.TextEquality.{eq_iff}
use zao_rental.Common.Checked.{passed, Checked-cases}
use zao_rental.Release.Backup.{parse_object_key}
use zao_rental.Release.Restore.{
  DrillResult, Summary, Expected, of_key, validate_drill_result, check_object,
}
use zao_rental.Release.Restore.Record.{
  CipherFile, EvidenceFiles, RestorePass, Derived, derive, max_age_ms, recorded_object,
  is_same_cipher, is_same_summary, check_cipher, assert_fresh, check_record,
  verify_restore_pass_record,
}
use zao_rental.Release.Restore.Binding.{validate_drill_result-object, same_codes-eq}

is_same_summary-instants :
    (s : Summary) (r : RestorePass)
    → is_same_summary s r ≡ true
    → (s.finished_at ≡ r.finished_at) × (s.backup_scheduled_at ≡ r.backup_scheduled_at)
is_same_summary-instants s r h = (
  same_codes-eq s.finished_at r.finished_at (ground (arith, h)),
  same_codes-eq s.backup_scheduled_at r.backup_scheduled_at (ground (arith, h)),
)

is_same_cipher-size :
    (m : Option CipherFile) (r : RestorePass)
    → is_same_cipher m r ≡ passed tt
    → (f : CipherFile) × (m ≡ some f) × (f.size ≡ r.ciphertext_bytes) × (f.sha256 ≡ r.object_sha256)
is_same_cipher-size none r h = absurd (ground (arith, h))
is_same_cipher-size (some f) r h = (
  f,
  refl,
  ground (arith, h, ==_iff f.size r.ciphertext_bytes),
  ground (arith, h, eq_iff f.sha256 r.object_sha256),
)

check_cipher-there :
    (w : EvidenceFiles) (r : RestorePass)
    → check_cipher w r ≡ passed tt
    → w.cipher_is_gone ≡ false
    → is_same_cipher w.cipher r ≡ passed tt
check_cipher-there w r h there = ground (arith, h, there)

check_object-class :
    (x : DrillResult) (o : Expected)
    → check_object x o ≡ passed tt
    → (x.status ≡ "DRILL_PASS") × (x.data_class ≡ "PRODUCTION")
unfolding check_object
check_object-class x o h =
    ground (arith, h, eq_iff x.status "DRILL_PASS", eq_iff x.data_class "PRODUCTION")

check_record-fresh :
    (iso_ms : List ℕ → Option ℕ) (r : RestorePass) (now : ℕ)
    → check_record iso_ms r now ≡ passed tt
    → (t : ℕ) × (iso_ms r.finished_at ≡ some t) × (now ≤ t + max_age_ms)
unfolding check_record assert_fresh
check_record-fresh iso_ms r now h = elim (Option-cases (iso_ms r.finished_at)) [
  | inl n ↦ absurd (ground (arith, h, n))
  | inr (t, e) ↦ (t, e, ground (arith, h, e))
]

check_cipher-cases :
    (w : EvidenceFiles) (r : RestorePass)
    → check_cipher w r ≡ passed tt
    → (w.cipher_is_gone ≡ true)
      ⊎ ((f : CipherFile) × (w.cipher ≡ some f)
          × (f.size ≡ r.ciphertext_bytes)
          × (f.sha256 ≡ r.object_sha256))
check_cipher-cases w r h = elim (Bool-cases w.cipher_is_gone) [
  | inl gone ↦ inl gone
  | inr there ↦ inr (is_same_cipher-size w.cipher r (check_cipher-there w r h there))
]

module _ (iso_ms : List ℕ → Option ℕ) (registry : String) where
  verify-parts :
      (w : EvidenceFiles) (r q : RestorePass) (now : ℕ)
      → verify_restore_pass_record iso_ms registry w r now ≡ passed q
      → (d : Derived) × (key : List ℕ) × (s : Summary) × (derive w ≡ passed d)
        × (check_record iso_ms r now ≡ passed tt)
        × (str_eq d.drill_sha r.drill_result_sha256 ≡ true)
        × (validate_drill_result iso_ms registry d.drill (recorded_object key r) ≡ passed s)
        × (is_same_summary s r ≡ true)
        × (check_cipher w r ≡ passed tt)
        × (r ≡ q)
  unfolding verify_restore_pass_record
  verify-parts w r q now h = elim (Checked-cases (check_record iso_ms r now)) [
    | inl (e, c) ↦ absurd (ground (arith, h, c))
    | inr (u, c) ↦ elim (Checked-cases (of_key (parse_object_key r.key))) [
      | inl (e, k) ↦ absurd (ground (arith, h, c, k))
      | inr (key, k) ↦ elim (Checked-cases (derive w)) [
        | inl (e, p) ↦ absurd (ground (arith, h, c, k, p))
        | inr (d, p) ↦
            elim (Checked-cases
              (validate_drill_result iso_ms registry d.drill (recorded_object key r))) [
                | inl (e, v) ↦ absurd (ground (arith, h, c, k, p, v))
                | inr (s, v) ↦ (
                  d,
                  key,
                  s,
                  p,
                  c,
                  ground (arith, h, c, k, p, v),
                  v,
                  ground (arith, h, c, k, p, v),
                  ground (arith, h, c, k, p, v),
                  ground (arith, h, c, k, p, v),
                )
              ]
      ]
    ]
  ]

  validate-instants :
      (x : DrillResult) (o : Expected) (s : Summary)
      → validate_drill_result iso_ms registry x o ≡ passed s
      → (s.finished_at ≡ x.finished_at) × (s.backup_scheduled_at ≡ x.backup_scheduled_at)
  unfolding validate_drill_result
  validate-instants x o s h = ground (arith, h)

  -- A record that is verified is returned as it is, the drill's result file has the digest that the
  -- record names and is a passed drill of production data, the record has the drill's instants, the drill
  -- ended at most 24 hours ago, and a ciphertext that is there has the size and the digest that the
  -- record names.
  pub verify-bound :
      (w : EvidenceFiles) (r q : RestorePass) (now : ℕ)
      → verify_restore_pass_record iso_ms registry w r now ≡ passed q
      → (d : Derived) × (r ≡ q)
        × (derive w ≡ passed d)
        × (d.drill_sha ≡ r.drill_result_sha256)
        × (d.drill.status ≡ "DRILL_PASS")
        × (d.drill.data_class ≡ "PRODUCTION")
        × (r.finished_at ≡ d.drill.finished_at)
        × (r.backup_scheduled_at ≡ d.drill.backup_scheduled_at)
        × ((t : ℕ) × (iso_ms d.drill.finished_at ≡ some t) × (now ≤ t + max_age_ms))
        × ((w.cipher_is_gone ≡ true)
            ⊎ ((f : CipherFile) × (w.cipher ≡ some f)
                × (f.size ≡ r.ciphertext_bytes)
                × (f.sha256 ≡ r.object_sha256)))
  verify-bound w r q now h =
      let (d, key, s, p, c, sha, ok, summary, cipher, same) = verify-parts w r q now h in
      let (object, hash) =
        validate_drill_result-object iso_ms registry d.drill (recorded_object key r) s ok in
      let (status, class) = check_object-class d.drill (recorded_object key r) object in
      let (ends, starts) = validate-instants d.drill (recorded_object key r) s ok in
      let (finished_in, scheduled_in) = is_same_summary-instants s r summary in
      let finished = sym finished_in ∙ ends in
      let scheduled = sym scheduled_in ∙ starts in
      (
        d,
        same,
        p,
        ground (arith, sha, eq_iff d.drill_sha r.drill_result_sha256),
        status,
        class,
        finished,
        scheduled,
        subst (λ z. (t : ℕ) × (iso_ms z ≡ some t) × (now ≤ t + max_age_ms)) finished
            (check_record-fresh iso_ms r now c),
        check_cipher-cases w r cipher,
      )
