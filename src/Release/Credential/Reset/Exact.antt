-- ===== src/Release/Credential/Reset/Exact.antt =====
-- A reset completes on the exact set of its operations.
use zao_rental.Common.{
  ℕ, ◌≡◌, refl, sym, subst, ◌↔◌, ◌⊎◌, true, some, List, [], ◌∷◌, arith, String, every, In, every-In,
}
use text.Mathlib.TextEquality.{eq_iff}
use zao_rental.Common.Checked.{passed}
use zao_rental.Release.Credential.{Holder, Store, held, pending_part}
use zao_rental.Release.Credential.Reset.{
  check_complete_reset, insert_text, sort, same_texts, keys_of, is_finished,
}

In-insert_text : (x s : String) (xs : List String) → In x (insert_text s xs) ↔ ((x ≡ s) ⊎ In x xs)
In-insert_text x s [] = ground arith
In-insert_text x s (y ∷ xs) = let ih = In-insert_text x s xs in ground arith

In-sort : (x : String) (xs : List String) → In x (sort xs) ↔ In x xs
In-sort x [] = ground arith
In-sort x (y ∷ xs) = let ih = In-sort x xs in let j = In-insert_text x y (sort xs) in ground arith

same_texts-eq : (xs ys : List String) → same_texts xs ys ≡ true → xs ≡ ys
same_texts-eq [] [] h = refl
same_texts-eq [] (y ∷ ys) h = absurd (cc)
same_texts-eq (x ∷ xs) [] h = absurd (cc)
same_texts-eq (x ∷ xs) (y ∷ ys) h = ground (arith, eq_iff x y, same_texts-eq xs ys)

-- A pending reset is completed only if the statuses name exactly its operations and the status of
-- each of them is `finished`.
pub check_complete_reset-exact :
    (i : ℕ) (m : List (String × String)) (s : Store) (h : Holder)
    → check_complete_reset i m s ≡ passed h
    → (held pending_part s i ≡ some h)
      × ((x : String) → In x (keys_of m) ↔ In x h.operation_ids)
      × ((x : String) → In x h.operation_ids → is_finished m x ≡ true)
unfolding check_complete_reset
check_complete_reset-exact i m s h e =
    let q : (held pending_part s i ≡ some h)
        × (same_texts (sort (keys_of m)) (sort h.operation_ids) ≡ true)
        × (every (is_finished m) (sort h.operation_ids) ≡ true) =
      ground arith in
    let same = same_texts-eq _ _ q.1 in
    (
      q.0,
      λ x. (
        λ k. (In-sort x h.operation_ids).0 (subst (λ l. In x l) same ((In-sort x (keys_of m)).1 k)),
        λ k.
            (In-sort x (keys_of m)).0
              (subst (λ l. In x l) (sym same) ((In-sort x h.operation_ids).1 k)),
      ),
      λ x k. every-In (is_finished m) x _ q.2 ((In-sort x h.operation_ids).1 k),
    )
