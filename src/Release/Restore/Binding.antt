-- ===== src/Release/Restore/Binding.antt =====
-- A record holds for the files that it was made from, and for no others.
use zao_rental.Common.{
  ℕ, ◌+◌, ◌≤◌, ◌≡◌, refl, sym, ap, subst, ◌∙◌, inl, inr, Bool, true, false, not, ◌&&◌, Option, none,
  some, List, [], ◌∷◌, arith, String, leb, Bool-cases, Option-cases, length, any,
}
use text.Mathlib.TextEquality.{eq_iff}
use zao_rental.Common.Checked.{passed, ensure, ◌>>◌, Checked-cases}
use zao_rental.Release.Backup.{
  same_codes, parse_object_key, assert_key_consistent, without_newline, is_space, is_object_key,
  BackupError,
}
use zao_rental.Release.Restore.{
  DrillResult, Summary, Expected, is_sha256, of_key, digest_of, validate_drill_result, check_object,
}
use zao_rental.Release.Restore.Record.{
  CipherFile, regular_file, EvidenceFiles, RestorePass, Derived, derive, max_age_ms, object_of,
  record_of, assert_fresh, finalize_restore_evidence,
}

pub same_codes_refl : (cs : List ℕ) → same_codes cs cs ≡ true
same_codes_refl [] = refl
same_codes_refl (c ∷ cs) = let ih = same_codes_refl cs in ground (arith, ih)

pub same_codes-eq : (xs ys : List ℕ) → same_codes xs ys ≡ true → xs ≡ ys
same_codes-eq [] [] h = refl
same_codes-eq [] (y ∷ ys) h = absurd (cc)
same_codes-eq (x ∷ xs) [] h = absurd (cc)
same_codes-eq (x ∷ xs) (y ∷ ys) h = ground (arith, h, same_codes-eq xs ys)

without_newline-unspaced : (cs : List ℕ) → any is_space cs ≡ false → without_newline cs ≡ cs
without_newline-unspaced [] h = refl
without_newline-unspaced (c ∷ cs) h =
    let ih = without_newline-unspaced cs (ground (arith, h)) in ground (arith, h, ih)

abbrev is_valid_key : List ℕ → Bool
is_valid_key k = leb (length k) 200 && not (any is_space k) && is_object_key k

ensured :
    (b : Bool) (k key : List ℕ)
    → (ensure b BackupError.key_invalid >> passed k) ≡ passed key
    → (b ≡ true) × (k ≡ key)
ensured true k key h = (refl, ground (arith, h))
ensured false k key h = absurd (ground (arith, h))

ensured_true :
    (b : Bool) (k : List ℕ) → b ≡ true → (ensure b BackupError.key_invalid >> passed k) ≡ passed k
ensured_true true k h = refl
ensured_true false k h = absurd (cc)

middle-false : (a b c : Bool) → (a && not b && c) ≡ true → b ≡ false
middle-false true true c h = absurd (cc)
middle-false true false c h = refl
middle-false false b c h = absurd (cc)

-- A key that was parsed parses to itself.
pub parse_object_key_again :
    (text key : List ℕ) → parse_object_key text ≡ passed key → parse_object_key key ≡ passed key
unfolding parse_object_key
parse_object_key_again text key h =
    let (ok, same) = ensured (is_valid_key (without_newline text)) (without_newline text) key h in
    let valid : is_valid_key key ≡ true = subst (λ k. is_valid_key k ≡ true) same ok in
    let plain = middle-false (leb (length key) 200) (any is_space key) (is_object_key key) valid in
    subst (λ k. (ensure (is_valid_key k) BackupError.key_invalid >> passed k) ≡ passed k)
      (sym (without_newline-unspaced key plain)) (ensured_true (is_valid_key key) key valid)
    ∙ ap passed (without_newline-unspaced key plain)

pub derive-key :
    (w : EvidenceFiles) (d : Derived)
    → derive w ≡ passed d
    → (of_key (parse_object_key d.key) ≡ passed d.key)
      × (of_key (assert_key_consistent d.key) ≡ passed tt)
unfolding derive
derive-key w d h = elim (Option-cases w.key_text) [
  | inl n ↦ absurd (ground (arith, h, n))
  | inr (text, q) ↦ elim (Checked-cases (parse_object_key text)) [
    | inl (e, p) ↦ absurd (ground (arith, h, q, p))
    | inr (key, p) ↦
        let again = parse_object_key_again text key p in
        let same : key ≡ d.key = ground (arith, h, q, p) in
        let ok : of_key (assert_key_consistent key) ≡ passed tt = ground (arith, h, q, p) in
        (
          subst (λ k. of_key (parse_object_key k) ≡ passed k) same (ap of_key again),
          subst (λ k. of_key (assert_key_consistent k) ≡ passed tt) same ok,
        )
  ]
]

pub digest_of-digest :
    (m : Option String) (c : String) → digest_of m ≡ passed c → is_sha256 c ≡ true
digest_of-digest none c h = absurd (ground (arith, h))
digest_of-digest (some s) c h = elim (Bool-cases (is_sha256 s)) [
  | inl y ↦ let same : s ≡ c = ground (arith, h, y) in subst (λ t. is_sha256 t ≡ true) same y
  | inr n ↦ absurd (ground (arith, h, n))
]

pub check_object-sha :
    (x : DrillResult) (o : Expected) → check_object x o ≡ passed tt → is_sha256 o.sha256 ≡ true
unfolding check_object
check_object-sha x o h = elim (Checked-cases (digest_of x.ciphertext_sha256)) [
  | inl (e, q) ↦ absurd (ground (arith, h, q))
  | inr (c, q) ↦
      let same : c ≡ o.sha256 = ground (arith, h, q, eq_iff c o.sha256) in
      subst (λ t. is_sha256 t ≡ true) same (digest_of-digest x.ciphertext_sha256 c q)
]

pub regular_file-size :
    (m : Option CipherFile) (f : CipherFile) → regular_file m ≡ passed f → leb 1 f.size ≡ true
regular_file-size none f h = absurd (ground (arith, h))
regular_file-size (some g) f h = elim (Bool-cases (leb 1 g.size)) [
  | inl y ↦ let same : g ≡ f = ground (arith, h, y) in subst (λ t. leb 1 t.size ≡ true) same y
  | inr n ↦ absurd (ground (arith, h, n))
]

module _ (iso_ms : List ℕ → Option ℕ) (registry : String) where
  pub finalize-parts :
      (w : EvidenceFiles) (finalized : List ℕ) (now : ℕ) (r : RestorePass)
      → finalize_restore_evidence iso_ms registry w finalized now ≡ passed r
      → (d : Derived) × (f : CipherFile) × (s : Summary) × (derive w ≡ passed d)
        × (regular_file w.cipher ≡ passed f)
        × (validate_drill_result iso_ms registry d.drill (object_of d f) ≡ passed s)
        × (assert_fresh iso_ms s.finished_at finalized now ≡ passed tt)
        × (record_of d f s finalized ≡ r)
  unfolding finalize_restore_evidence
  finalize-parts w finalized now r h = elim (Checked-cases (derive w)) [
    | inl (e, p) ↦ absurd (ground (arith, h, p))
    | inr (d, p) ↦ elim (Checked-cases (regular_file w.cipher)) [
      | inl (e, n) ↦ absurd (ground (arith, h, p, n))
      | inr (f, q) ↦
          elim (Checked-cases (validate_drill_result iso_ms registry d.drill (object_of d f))) [
            | inl (e, v) ↦ absurd (ground (arith, h, p, q, v))
            | inr (s, v) ↦
                (d, f, s, p, q, v, ground (arith, h, p, q, v), ground (arith, h, p, q, v))
          ]
    ]
  ]

  pub validate_drill_result-object :
      (x : DrillResult) (o : Expected) (s : Summary)
      → validate_drill_result iso_ms registry x o ≡ passed s
      → (check_object x o ≡ passed tt) × (is_sha256 s.plaintext_sha256 ≡ true)
  unfolding validate_drill_result
  validate_drill_result-object x o s h = ground (arith, h)

  pub assert_fresh-later :
      (a b : List ℕ) (now later t : ℕ)
      → assert_fresh iso_ms a b now ≡ passed tt
      → now ≤ later
      → iso_ms a ≡ some t
      → later ≤ t + max_age_ms
      → assert_fresh iso_ms a b later ≡ passed tt
  unfolding assert_fresh
  assert_fresh-later a b now later t h le e up = ground (arith, h, le, e, up)
