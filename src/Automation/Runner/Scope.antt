-- ===== src/Automation/Runner/Scope.antt =====
-- A path in the scope of a directory stays below it.
use zao_rental.Common.{
  ℕ, ◌≡◌, refl, sym, ap, ◌∙◌, inl, inr, Bool, true, false, List, [], ◌∷◌, ◌++◌, arith, String, ◌==◌,
  Bool-cases, any,
}
use mathlib.Core.List.{append_assoc}
use zao_rental.Contracts.Flow.{codes}
use zao_rental.Automation.Runner.{
  split, is_special, check_path, starts_with, ends_with_slash, in_scope,
}

split-cases : (cs : List ℕ) → (s : List ℕ) × (ss : List (List ℕ)) × (split cs ≡ s ∷ ss)
split-cases [] = ([], [], refl)
split-cases (c ∷ cs) =
    let (s, ss, e) = split-cases cs in
    elim (Bool-cases (c == b'/')) [
      | inl q ↦ ([], s ∷ ss, ground (arith, e, q))
      | inr q ↦ (c ∷ s, ss, ground (arith, e, q))
    ]

-- The segments before a slash are those of the text before it.
split-append : (xs ys : List ℕ) → split (xs ++ (b'/' ∷ ys)) ≡ split xs ++ split ys
split-append [] ys = let (s, ss, e) = split-cases ys in ground (arith, e)
split-append (x ∷ xs) ys =
    let ih = split-append xs ys in let (s, ss, e) = split-cases xs in ground (arith, ih, e)

starts_with-append : (cs ps : List ℕ) → starts_with cs ps ≡ true → (ys : List ℕ) × (cs ≡ ps ++ ys)
starts_with-append cs [] h = (cs, refl)
starts_with-append [] (p ∷ ps) h = absurd (cc)
starts_with-append (c ∷ cs) (p ∷ ps) h =
    let (ys, e) = starts_with-append cs ps (ground (arith, h)) in (ys, ground (arith, h, e))

ends_with_slash-append : (xs : List ℕ) → ends_with_slash (xs ++ (b'/' ∷ [])) ≡ true
ends_with_slash-append [] = refl
ends_with_slash-append (x ∷ []) = refl
ends_with_slash-append (x ∷ y ∷ xs) = ends_with_slash-append (y ∷ xs)

any-append_right :
    (p : List ℕ → Bool) (xs ys : List (List ℕ)) → any p (xs ++ ys) ≡ false → any p ys ≡ false
any-append_right p [] ys h = h
any-append_right p (x ∷ xs) ys h = any-append_right p xs ys (ground (arith, h))

-- The segments of a valid path in the scope of a directory are those of the directory and then
-- others, none of which leads back up or into the repository's own data.
pub in_scope-IsBelow :
    (file directory : String) (root : List ℕ)
    → codes directory ≡ root ++ (b'/' ∷ [])
    → check_path file ≡ true
    → in_scope file directory ≡ true
    → (rest : List (List ℕ)) × (split (codes file) ≡ split root ++ rest)
      × (any is_special rest ≡ false)
unfolding check_path in_scope
in_scope-IsBelow file directory root d h i =
    let slash : ends_with_slash (codes directory) ≡ true =
      ap ends_with_slash d ∙ ends_with_slash-append root in
    let begins : starts_with (codes file) (codes directory) ≡ true = ground (arith, slash, i) in
    let (ys, e) = starts_with-append (codes file) (codes directory) begins in
    let whole : codes file ≡ root ++ (b'/' ∷ ys) =
      e ∙ (ap (λ z. z ++ ys) d ∙ append_assoc root (b'/' ∷ []) ys) in
    let parts : split (codes file) ≡ split root ++ split ys =
      ap split whole ∙ split-append root ys in
    let plain : any is_special (split (codes file)) ≡ false = ground (arith, h) in
    (
      split ys,
      parts,
      any-append_right is_special (split root) (split ys) (ap (any is_special) (sym parts) ∙ plain),
    )
