-- ===== src/Release/Dormant/Cadence.antt =====
-- Sorted times, distinct minutes and the gaps between them.
use zao_rental.Common.{
  ℕ, ◌+◌, ◌≤◌, ◌≡◌, sym, subst, ◌↔◌, ◌⊎◌, inl, inr, true, List, [], ◌∷◌, arith, leb, leb→le,
  Bool-cases, All, All-imp, includes, In,
}
use zao_rental.Release.Dormant.Observe.{insert_time, sort_times, unseen, no_gap}

module _ (x : ℕ) where
  In-insert_time : (t : ℕ) (xs : List ℕ) → In x (insert_time t xs) ↔ ((x ≡ t) ⊎ In x xs)
  In-insert_time t [] = ground arith
  In-insert_time t (y ∷ xs) = let ih = In-insert_time t xs in ground arith

  pub In-sort_times : (xs : List ℕ) → In x (sort_times xs) ↔ In x xs
  In-sort_times [] = ground arith
  In-sort_times (y ∷ xs) =
      let ih = In-sort_times xs in let j = In-insert_time y (sort_times xs) in ground arith

-- No element is before an earlier one.
abbrev pub IsSorted : List ℕ → Type 0
IsSorted [] = Unit
IsSorted (x ∷ xs) = All (λ y. x ≤ y) xs × IsSorted xs

All-insert_time :
    (k t : ℕ) (xs : List ℕ) → k ≤ t → All (λ y. k ≤ y) xs → All (λ y. k ≤ y) (insert_time t xs)
All-insert_time k t [] le h = (le, tt)
All-insert_time k t (x ∷ xs) le h =
    let ih = All-insert_time k t xs le h.1 in ground (arith, le, h, ih)

insert_time-IsSorted : (t : ℕ) (xs : List ℕ) → IsSorted xs → IsSorted (insert_time t xs)
insert_time-IsSorted t [] h = (tt, tt)
insert_time-IsSorted t (x ∷ xs) h = elim (Bool-cases (leb t x)) [
  | inl e ↦
      let le = leb→le t x e in
      rw e (((le, All-imp (λ y. x ≤ y) (λ y. t ≤ y) (λ y l. omega (arith, le, l)) xs h.0), h))
  | inr e ↦
      let le : x ≤ t = ground (arith, e) in
      rw e ((All-insert_time x t xs le h.0, insert_time-IsSorted t xs h.1))
]

pub sort_times-IsSorted : (xs : List ℕ) → IsSorted (sort_times xs)
sort_times-IsSorted [] = tt
sort_times-IsSorted (x ∷ xs) = insert_time-IsSorted x (sort_times xs) (sort_times-IsSorted xs)

includes-In : (x : ℕ) (xs : List ℕ) → includes x xs ≡ true → In x xs
includes-In x [] h = absurd (cc)
includes-In x (y ∷ xs) h = ground (arith, h, includes-In x xs)

pub In-unseen : (x : ℕ) (seen ms : List ℕ) → In x ms → In x seen ⊎ In x (unseen seen ms)
In-unseen x seen [] h = absurd h
In-unseen x seen (m ∷ ms) h =
    let j = includes-In m seen in
    let old = In-unseen x seen ms in
    let new = In-unseen x (m ∷ seen) ms in
    elim h [
      | inl e ↦ elim (Bool-cases (includes m seen)) [
        | inl c ↦ inl (subst (λ y. In y seen) (sym e) (j c))
        | inr c ↦ rw c (inr (inl e))
      ]
      | inr k ↦ ground (arith, old k, new k)
    ]

pub unseen-In : (x : ℕ) (seen ms : List ℕ) → In x (unseen seen ms) → In x ms
unseen-In x seen [] h = h
unseen-In x seen (m ∷ ms) h = ground (arith, unseen-In x seen ms, unseen-In x (m ∷ seen) ms)

-- Where no step is longer than two, every number that is passed, or the next one, is in the list.
pub no_gap-covers :
    (h m x : ℕ) (ms : List ℕ)
    → no_gap (h ∷ ms) ≡ true
    → h ≤ m
    → In x (h ∷ ms)
    → m ≤ x
    → In m (h ∷ ms) ⊎ In (m + 1) (h ∷ ms)
no_gap-covers h m x [] g le i up = ground arith
no_gap-covers h m x (n ∷ ms) g le i up = let ih = no_gap-covers n m x ms in ground arith
