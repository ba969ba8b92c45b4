-- ===== src/Release/Restore/Return.antt =====
-- What was finalized is verified, until the drill is a day old.
use zao_rental.Common.{
  ℕ, ◌+◌, ◌≤◌, ◌≡◌, refl, sym, ap, subst, ◌∙◌, ◌⊎◌, inl, inr, Bool, true, false, Option, none, some,
  List, arith, String, leb, if◌then◌else◌, ==_refl, Option-cases,
}
use text.Mathlib.TextPositions.{eq_refl}
use zao_rental.Common.Checked.{Checked, passed, Checked-cases}
use zao_rental.Release.Backup.{parse_object_key, assert_key_consistent}
use zao_rental.Release.Restore.{RestoreError, Summary, is_sha256, of_key, validate_drill_result}
use zao_rental.Release.Restore.Record.{
  CipherFile, DrillFile, EvidenceFiles, RestorePass, Derived, derive_from, derive, max_age_ms,
  object_of, record_of, is_same_summary, is_same_cipher, check_cipher, assert_fresh,
  finalize_restore_evidence, check_record, verify_restore_pass_record, regular_file,
}
use zao_rental.Release.Restore.Binding.{
  same_codes_refl, derive-key, check_object-sha, finalize-parts, validate_drill_result-object,
  assert_fresh-later, regular_file-size,
}

is_same_summary-record_of :
    (d : Derived) (f : CipherFile) (s : Summary) (at : List ℕ)
    → is_same_summary s (record_of d f s at) ≡ true
is_same_summary-record_of d f s at = ground (
  arith,
  eq_refl s.plaintext_sha256,
  same_codes_refl s.backup_scheduled_at,
  ==_refl s.restore_ms,
  ==_refl s.age_ms,
  same_codes_refl s.finished_at,
)

is_same_cipher-record_of :
    (m : Option CipherFile) (d : Derived) (f : CipherFile) (s : Summary) (at : List ℕ)
    → regular_file m ≡ passed f
    → is_same_cipher m (record_of d f s at) ≡ passed tt
is_same_cipher-record_of m d f s at h = ground (arith, h, ==_refl f.size, eq_refl f.sha256)

if-passed :
    (b : Bool) (m : Checked RestoreError (Unit {0}))
    → m ≡ passed tt
    → (if b then passed tt else m) ≡ passed tt
if-passed true m h = refl
if-passed false m h = h

check_cipher-record_of :
    (w v : EvidenceFiles) (d : Derived) (f : CipherFile) (s : Summary) (at : List ℕ)
    → regular_file w.cipher ≡ passed f
    → (v.cipher_is_gone ≡ true) ⊎ (v.cipher ≡ w.cipher)
    → check_cipher v (record_of d f s at) ≡ passed tt
check_cipher-record_of w v d f s at h (inl gone) = ground (arith, gone)
check_cipher-record_of w v d f s at h (inr same) =
    if-passed v.cipher_is_gone (is_same_cipher v.cipher (record_of d f s at)) (
      is_same_cipher-record_of v.cipher d f s at
        (subst (λ m. regular_file m ≡ passed f) (sym same) h))

derive_again :
    (w v : EvidenceFiles) (d : Derived)
    → v.key_text ≡ w.key_text
    → v.drill ≡ w.drill
    → derive w ≡ passed d
    → derive v ≡ passed d
unfolding derive
derive_again w v d k r h =
    ap (λ t. derive_from t v.drill) k ∙ ap (λ x. derive_from w.key_text x) r ∙ h

derive-sha :
    (w : EvidenceFiles) (d : Derived)
    → ((x : DrillFile) → w.drill ≡ some x → is_sha256 x.sha256 ≡ true)
    → derive w ≡ passed d
    → is_sha256 d.drill_sha ≡ true
unfolding derive
derive-sha w d sha h = elim (Option-cases w.drill) [
  | inl n ↦ elim (Checked-cases (derive_from w.key_text none)) [
    | inl (e, q) ↦ absurd (ground (arith, h, n, q))
    | inr (x, q) ↦ absurd (ground (arith, h, n, q))
  ]
  | inr (x, q) ↦
      let same : x.sha256 ≡ d.drill_sha = ground (arith, h, q) in
      subst (λ t. is_sha256 t ≡ true) same (sha x q)
]

module _ (iso_ms : List ℕ → Option ℕ) (registry : String) where
  check_record-record_of :
      (d : Derived) (f : CipherFile) (s : Summary) (at : List ℕ) (later : ℕ)
      → of_key (parse_object_key d.key) ≡ passed d.key
      → of_key (assert_key_consistent d.key) ≡ passed tt
      → is_sha256 f.sha256 ≡ true
      → is_sha256 s.plaintext_sha256 ≡ true
      → is_sha256 d.drill_sha ≡ true
      → leb 1 f.size ≡ true
      → assert_fresh iso_ms s.finished_at at later ≡ passed tt
      → check_record iso_ms (record_of d f s at) later ≡ passed tt
  unfolding check_record
  check_record-record_of d f s at later k c x y z n fresh = ground (arith, k, c, x, y, z, n, fresh)

  verify-record_of :
      (v : EvidenceFiles) (d : Derived) (f : CipherFile) (s : Summary) (at : List ℕ) (later : ℕ)
      → derive v ≡ passed d
      → of_key (parse_object_key d.key) ≡ passed d.key
      → check_record iso_ms (record_of d f s at) later ≡ passed tt
      → validate_drill_result iso_ms registry d.drill (object_of d f) ≡ passed s
      → check_cipher v (record_of d f s at) ≡ passed tt
      → verify_restore_pass_record iso_ms registry v (record_of d f s at) later
        ≡ passed (record_of d f s at)
  unfolding verify_restore_pass_record
  verify-record_of v d f s at later p k c ok cipher = ground (
    arith,
    p,
    k,
    c,
    ok,
    cipher,
    eq_refl d.drill_sha,
    same_codes_refl d.key,
    is_same_summary-record_of d f s at,
  )

  -- A record that was finalized is verified at every later instant up to 24 hours after the drill's
  -- end, where the key's and the drill's files are the same and the ciphertext is the same or is gone.
  -- That every file's digest is a SHA-256 digest is a condition.
  pub finalize-verify :
      (w v : EvidenceFiles) (at : List ℕ) (now later t : ℕ) (r : RestorePass)
      → finalize_restore_evidence iso_ms registry w at now ≡ passed r
      → ((x : DrillFile) → w.drill ≡ some x → is_sha256 x.sha256 ≡ true)
      → v.key_text ≡ w.key_text
      → v.drill ≡ w.drill
      → (v.cipher_is_gone ≡ true) ⊎ (v.cipher ≡ w.cipher)
      → iso_ms r.finished_at ≡ some t
      → now ≤ later
      → later ≤ t + max_age_ms
      → verify_restore_pass_record iso_ms registry v r later ≡ passed r
  finalize-verify w v at now later t r h sha sk sd sc end le up =
      let (d, f, s, p, q, ok, fresh, same) = finalize-parts iso_ms registry w at now r h in
      let (k, c) = derive-key w d p in
      let (object, plaintext) =
        validate_drill_result-object iso_ms registry d.drill (object_of d f) s ok in
      let started : iso_ms s.finished_at ≡ some t = ap (λ x. iso_ms x.finished_at) same ∙ end in
      let later_fresh =
        assert_fresh-later iso_ms registry s.finished_at at now later t fresh le started up in
      let checked =
        check_record-record_of d f s at later k c (check_object-sha d.drill (object_of d f) object)
          plaintext (derive-sha w d sha p) (regular_file-size w.cipher f q) later_fresh in
      subst (λ x. verify_restore_pass_record iso_ms registry v x later ≡ passed x) same
        (verify-record_of v d f s at later (derive_again w v d sk sd p) k checked ok
          (check_cipher-record_of w v d f s at q sc))
