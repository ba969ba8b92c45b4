-- ===== src/Inventory/Periods/Answer.antt =====
-- What the answers of the search say.
use zao_rental.Inventory.Periods.{
  interval_of, resume, search_units, fits, placed, try_units, Demand, Placement, Verdict, found,
  absent, indeterminate,
}
use zao_rental.Common.{
  ℕ, ◌+◌, ◌≤◌, ◌≡◌, refl, sym, ap, subst, ◌∙◌, inl, inr, false, List, [], ◌∷◌, ◌++◌, arith, ltb,
  ◌==◌, ==_iff, ==_refl, Bool-cases, All, All-append, In-append_right, In-append-cases,
}
use zao_rental.Inventory.Intervals.Coverage.{IsForward}
use zao_rental.Inventory.Periods.Feasible.{
  fits_iff, AllForward, held, held-append, ServesAll, IsFeasible,
}
use mathlib.Core.List.{append_assoc, append-nil}

abbrev pub IsForwardDemand : Demand → Type 0
IsForwardDemand d = d.start ≤ d.end

-- The demand with a part of its candidates.
abbrev among : Demand → List ℕ → Demand
among d us = record d { candidates = us }

ServesAll-weaken :
    (d : Demand) (ds : List Demand) (u : ℕ) (us : List ℕ) (ps : List Placement)
    → ServesAll (among d us ∷ ds) ps
    → ServesAll (among d (u ∷ us) ∷ ds) ps
ServesAll-weaken d ds u us [] s = absurd s
ServesAll-weaken d ds u us (p ∷ ps) s = (
  record {
    same_key = s.0.same_key;
    same_start = s.0.same_start;
    same_end = s.0.same_end;
    candidate = inr s.0.candidate;
  },
  s.1,
)

module _ (capacity : ℕ → ℕ) (fixed : List Placement) where
  held-last :
      (day u : ℕ) (chosen : List Placement) (p : Placement)
      → held day u (fixed ++ (chosen ++ p ∷ []))
        ≡ held day u (fixed ++ chosen) + held day u (p ∷ [])
  held-last day u chosen p =
      ap (held day u) (sym (append_assoc fixed chosen (p ∷ [])))
      ∙ held-append day u (fixed ++ chosen) (p ∷ [])

  held-prefix :
      (day u : ℕ) (chosen : List Placement) (p : Placement) (more : List Placement)
      → held day u (fixed ++ (chosen ++ p ∷ [])) ≤ held day u (fixed ++ (chosen ++ p ∷ more))
  held-prefix day u chosen p more = omega (
    arith,
    held-append day u fixed (chosen ++ p ∷ []),
    held-append day u fixed (chosen ++ p ∷ more),
    held-append day u chosen (p ∷ []),
    held-append day u chosen (p ∷ more),
  )

  -- A placement that passes the test keeps the choice feasible.
  extend :
      (chosen : List Placement) (p : Placement)
      → IsFeasible capacity fixed chosen
      → ((day : ℕ) → held day p.unit (fixed ++ (chosen ++ p ∷ [])) ≤ capacity p.unit)
      → IsFeasible capacity fixed (chosen ++ p ∷ [])
  extend chosen p v fit q m day = elim (Bool-cases (q.unit == p.unit)) [
    | inl e ↦
        subst (λ u. held day u (fixed ++ (chosen ++ p ∷ [])) ≤ capacity u)
          (sym ((==_iff q.unit p.unit).0 e)) (fit day)
    | inr e ↦ elim (In-append-cases q chosen (p ∷ []) m) [
      | inl here ↦ let old = v q here day in let sum = held-last day q.unit chosen p in ground arith
      | inr (inl same) ↦ absurd (ground (arith, ==_refl p.unit))
      | inr (inr none_left) ↦ absurd none_left
    ]
  ]

  abbrev Answer : List Demand → List Placement → Verdict → Type 0
  Answer ds chosen (found ps) =
      (more : List Placement) × (ps ≡ chosen ++ more)
      × ServesAll ds more
      × IsFeasible capacity fixed ps
  Answer ds chosen (absent n) =
      (more : List Placement) → ServesAll ds more → IsFeasible capacity fixed (chosen ++ more) → ⊥
  Answer ds chosen indeterminate = Unit

  skipped_absent :
      (d : Demand) (ds : List Demand) (u : ℕ) (us : List ℕ) (chosen : List Placement)
      → ((more : List Placement)
          → ServesAll ds more
          → IsFeasible capacity fixed (chosen ++ placed d u ∷ more)
          → ⊥)
      → ((more : List Placement)
          → ServesAll (among d us ∷ ds) more
          → IsFeasible capacity fixed (chosen ++ more)
          → ⊥)
      → (more : List Placement) → ServesAll (among d (u ∷ us) ∷ ds) more
      → IsFeasible capacity fixed (chosen ++ more)
      → ⊥
  skipped_absent d ds u us chosen useless a [] s v = absurd s
  skipped_absent d ds u us chosen useless a (p ∷ more) s v = elim s.0.candidate [
    | inl e ↦ useless more s.1 (
        subst (λ q. IsFeasible capacity fixed (chosen ++ q ∷ more))
          (the_same p e s.0.same_key s.0.same_start s.0.same_end) v)
    | inr m ↦
        a (p ∷ more)
          (
            record {
              same_key = s.0.same_key;
              same_start = s.0.same_start;
              same_end = s.0.same_end;
              candidate = m;
            },
            s.1,
          )
          v
  ]
    where
      the_same :
          (p : Placement)
          → p.unit ≡ u
          → p.key ≡ d.key
          → p.start ≡ d.start
          → p.end ≡ d.end
          → p ≡ placed d u
      the_same p a b c e i = record { key = b i; unit = a i; start = c i; end = e i }

  skipped :
      (d : Demand) (ds : List Demand) (u : ℕ) (us : List ℕ) (chosen : List Placement) (v : Verdict)
      → ((more : List Placement)
          → ServesAll ds more
          → IsFeasible capacity fixed (chosen ++ placed d u ∷ more)
          → ⊥)
      → Answer (among d us ∷ ds) chosen v
      → Answer (among d (u ∷ us) ∷ ds) chosen v
  skipped d ds u us chosen (found ps) useless (more, e, s, v) =
      (more, e, ServesAll-weaken d ds u us more s, v)
  skipped d ds u us chosen indeterminate useless a = tt
  skipped d ds u us chosen (absent n) useless a = skipped_absent d ds u us chosen useless a

  no_candidate :
      (d : Demand) (ds : List Demand) (more : List Placement) → ServesAll (among d [] ∷ ds) more → ⊥
  no_candidate d ds [] s = s
  no_candidate d ds (p ∷ more) s = s.0.candidate

  taken :
      (d : Demand) (ds : List Demand) (u : ℕ) (us : List ℕ) (chosen : List Placement)
      (again : ℕ → Verdict) (w : Verdict)
      → Answer ds (chosen ++ placed d u ∷ []) w
      → ((n : ℕ) → Answer (among d us ∷ ds) chosen (again n))
      → Answer (among d (u ∷ us) ∷ ds) chosen (resume again w)
  taken d ds u us chosen again (found ps) (more, e, s, v) next = (
    placed d u ∷ more,
    e ∙ append_assoc chosen (placed d u ∷ []) more,
    (record { same_key = refl; same_start = refl; same_end = refl; candidate = inl refl }, s),
    v,
  )
  taken d ds u us chosen again indeterminate a next = tt
  taken d ds u us chosen again (absent n) a next =
      skipped d ds u us chosen (again n)
        (λ more s v.
          a more s (
            subst (IsFeasible capacity fixed) (sym (append_assoc chosen (placed d u ∷ []) more)) v))
        (next n)

  module _ (max_visits : ℕ) (d : Demand) (ds : List Demand) (forward : IsForwardDemand d)
      (next : List Placement → ℕ → Verdict) where
    grown :
        (chosen : List Placement) (u : ℕ)
        → AllForward (fixed ++ chosen)
        → AllForward (fixed ++ (chosen ++ placed d u ∷ []))
    grown chosen u f = subst AllForward (append_assoc fixed chosen (placed d u ∷ [])) (
        All-append (λ p. IsForward (interval_of p)) (fixed ++ chosen) (placed d u ∷ []) f
          (forward, tt))

    -- A placement that fails the test is in no feasible choice.
    refused :
        (chosen : List Placement) (u : ℕ) (more : List Placement)
        → AllForward (fixed ++ chosen)
        → fits capacity fixed chosen (placed d u) ≡ false
        → IsFeasible capacity fixed (chosen ++ placed d u ∷ more)
        → ⊥
    refused chosen u more f unfit v =
        let back = (fits_iff capacity fixed chosen (placed d u) f forward).1 in
        let member = In-append_right (placed d u) chosen (placed d u ∷ more) (inl refl) in
        let fit = back (λ day.
          let part = held-prefix day u chosen (placed d u) more in
          let whole = v (placed d u) member day in omega arith) in
        absurd (ground arith)

    try_units-Answer :
        ((chosen : List Placement) (visits : ℕ)
          → AllForward (fixed ++ chosen)
          → IsFeasible capacity fixed chosen
          → Answer ds chosen (next chosen visits))
        → (chosen : List Placement) (visits : ℕ) (us : List ℕ) → AllForward (fixed ++ chosen)
        → IsFeasible capacity fixed chosen
        → Answer
            (among d us ∷ ds)
            chosen
            (try_units capacity fixed max_visits d next chosen visits us)
    unfolding try_units
    try_units-Answer rest chosen visits [] f v = λ more s w. no_candidate d ds more s
    try_units-Answer rest chosen visits (u ∷ us) f v =
        elim (Bool-cases (ltb max_visits (visits + 1))) [
          | inl over ↦ rw over tt
          | inr under ↦ elim (Bool-cases (fits capacity fixed chosen (placed d u))) [
            | inl fit ↦
                rw (under, fit)
                  (taken d ds u us chosen
                    (λ n. try_units capacity fixed max_visits d next chosen n us)
                    (next (chosen ++ placed d u ∷ []) (visits + 1))
                    (rest (chosen ++ placed d u ∷ []) (visits + 1) (grown chosen u f) (
                      extend chosen (placed d u) v
                        ((fits_iff capacity fixed chosen (placed d u) f forward).0 fit)))
                    (λ n. try_units-Answer rest chosen n us f v))
            | inr unfit ↦
                rw (under, unfit)
                  (skipped d ds u us chosen
                    (try_units capacity fixed max_visits d next chosen (visits + 1) us)
                    (λ more s w. refused chosen u more f unfit w)
                    (try_units-Answer rest chosen (visits + 1) us f v))
          ]
        ]

  search_units-Answer :
      (max_visits : ℕ) (ds : List Demand)
      → All IsForwardDemand ds
      → (chosen : List Placement) (visits : ℕ) → AllForward (fixed ++ chosen)
      → IsFeasible capacity fixed chosen
      → Answer ds chosen (search_units capacity fixed max_visits ds chosen visits)
  unfolding search_units
  search_units-Answer max_visits [] h chosen visits f v = ([], sym (append-nil chosen), tt, v)
  search_units-Answer max_visits (d ∷ ds) h chosen visits f v =
      try_units-Answer max_visits d ds h.0 (search_units capacity fixed max_visits ds)
        (search_units-Answer max_visits ds h.1) chosen visits d.candidates f v

-- Placements that the search returns serve every demand in order, each on one of its candidates for
-- its whole interval, and on no day hold a chosen unit beyond its capacity, the fixed placements
-- included, whatever visits were spent before. No interval may end before it starts.
pub search_units-found :
    (capacity : ℕ → ℕ) (fixed : List Placement) (max_visits spent : ℕ) (ds : List Demand)
    (ps : List Placement)
    → All IsForwardDemand ds
    → AllForward fixed
    → search_units capacity fixed max_visits ds [] spent ≡ found ps
    → ServesAll ds ps × IsFeasible capacity fixed ps
search_units-found capacity fixed max_visits spent ds ps h f e =
    let start = subst AllForward (sym (append-nil fixed)) f in
    let a = search_units-Answer capacity fixed max_visits ds h [] spent start (λ p m. absurd m) in
    let (more, same, s, v) = subst (Answer capacity fixed ds []) e a in
    (subst (ServesAll ds) (sym same) s, v)

-- Where the search answers that there is none, no choice of candidates serves all demands within the
-- capacities, whatever visits were spent before. No interval may end before it starts.
pub search_units-absent :
    (capacity : ℕ → ℕ) (fixed : List Placement) (max_visits spent n : ℕ) (ds : List Demand)
    → All IsForwardDemand ds
    → AllForward fixed
    → search_units capacity fixed max_visits ds [] spent ≡ absent n
    → ¬ ((ps : List Placement) × ServesAll ds ps × IsFeasible capacity fixed ps)
search_units-absent capacity fixed max_visits spent n ds h f e (ps, s, v) =
    let start = subst AllForward (sym (append-nil fixed)) f in
    let a = search_units-Answer capacity fixed max_visits ds h [] spent start (λ p m. absurd m) in
    subst (Answer capacity fixed ds []) e a ps s v
