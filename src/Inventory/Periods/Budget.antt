-- ===== src/Inventory/Periods/Budget.antt =====
-- How many visits the search makes at most.
use zao_rental.Common.{
  ℕ, ◌+◌, ◌≤◌, ◌≡◌, subst, ◌≢◌, inl, inr, false, List, [], ◌∷◌, ◌++◌, arith, ltb, Bool-cases,
}
use zao_rental.Inventory.Periods.{
  Demand, Placement, Verdict, found, absent, indeterminate, resume, placed, fits, try_units,
  search_units,
}

-- The size of the search tree: a candidate costs its visit and the tree of the demands after it.
abbrev pub branches : ℕ → List ℕ → ℕ
branches below [] = 0
branches below (u ∷ us) = 1 + below + branches below us

abbrev pub tree : List Demand → ℕ
tree [] = 0
tree (d ∷ ds) = branches (tree ds) d.candidates

-- An answer within a number of visits.
abbrev Within : ℕ → Verdict → Type 0
Within b (found ps) = Unit
Within b (absent n) = n ≤ b
Within b indeterminate = ⊥

Within-mono : (a b : ℕ) (v : Verdict) → a ≤ b → Within a v → Within b v
Within-mono a b (found ps) le w = tt
Within-mono a b (absent n) le w = omega arith
Within-mono a b indeterminate le w = w

resume-Within :
    (a b : ℕ) (again : ℕ → Verdict) (v : Verdict)
    → Within a v
    → ((n : ℕ) → n ≤ a → Within b (again n))
    → Within b (resume again v)
resume-Within a b again (found ps) w h = tt
resume-Within a b again (absent n) w h = h n w
resume-Within a b again indeterminate w h = absurd w

module _ (capacity : ℕ → ℕ) (fixed : List Placement) (max_visits : ℕ) where
  try_units-Within :
      (d : Demand) (below : ℕ) (next : List Placement → ℕ → Verdict)
      → ((chosen : List Placement) (n : ℕ)
          → n + below ≤ max_visits
          → Within (n + below) (next chosen n))
      → (chosen : List Placement) (n : ℕ) (us : List ℕ) → n + branches below us ≤ max_visits
      → Within (n + branches below us) (try_units capacity fixed max_visits d next chosen n us)
  unfolding try_units
  try_units-Within d below next rest chosen n [] le = omega arith
  try_units-Within d below next rest chosen n (u ∷ us) le =
      let under : ltb max_visits (n + 1) ≡ false = ground arith in
      elim (Bool-cases (fits capacity fixed chosen (placed d u))) [
        | inl fit ↦
            rw (under, fit)
              (resume-Within (n + 1 + below) (n + branches below (u ∷ us))
                (λ m. try_units capacity fixed max_visits d next chosen m us)
                (next (chosen ++ placed d u ∷ []) (n + 1))
                (rest (chosen ++ placed d u ∷ []) (n + 1) (omega arith))
                (λ m small.
                  Within-mono (m + branches below us) (n + branches below (u ∷ us))
                    (try_units capacity fixed max_visits d next chosen m us) (omega arith)
                    (try_units-Within d below next rest chosen m us (omega arith))))
        | inr unfit ↦
            rw (under, unfit)
              (Within-mono (n + 1 + branches below us) (n + branches below (u ∷ us))
                (try_units capacity fixed max_visits d next chosen (n + 1) us) (omega arith)
                (try_units-Within d below next rest chosen (n + 1) us (omega arith)))
      ]

  search_units-Within :
      (ds : List Demand) (chosen : List Placement) (n : ℕ)
      → n + tree ds ≤ max_visits
      → Within (n + tree ds) (search_units capacity fixed max_visits ds chosen n)
  unfolding search_units
  search_units-Within [] chosen n le = tt
  search_units-Within (d ∷ ds) chosen n le =
      try_units-Within d (tree ds) (search_units capacity fixed max_visits ds)
        (search_units-Within ds) chosen n d.candidates le

-- A budget of the size of the search tree is enough beside the visits that the pruning before the
-- search has spent, which are counted against the same budget: the search then answers.
pub search_units-answers :
    (capacity : ℕ → ℕ) (fixed : List Placement) (max_visits spent : ℕ) (ds : List Demand)
    → spent + tree ds ≤ max_visits
    → search_units capacity fixed max_visits ds [] spent ≢ indeterminate
search_units-answers capacity fixed max_visits spent ds le e =
    subst (Within (spent + tree ds)) e
      (search_units-Within capacity fixed max_visits ds [] spent le)
