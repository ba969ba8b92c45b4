-- ===== src/Inventory/Periods/Feasible.antt =====
-- When placements use no unit beyond its capacity, and when they serve a list of demands.
use zao_rental.Common.{
  ℕ, ◌+◌, ◌≤◌, ◌≡◌, refl, sym, ap, subst, ◌∙◌, ◌↔◌, true, ◌&&◌, List, [], ◌∷◌, ◌++◌, arith, ◌==◌,
  if◌then◌else◌, ==_refl, total, All, All-append, total-append, In,
}
use zao_rental.Inventory.Intervals.{Interval}
use zao_rental.Inventory.Intervals.Coverage.{covers, load, IsForward, fit_intervals_iff}
use zao_rental.Inventory.Periods.{Demand, Placement, interval_of, on_unit, fits}

-- How many placements hold the unit on the day.
abbrev pub held : ℕ → ℕ → List Placement → ℕ
held day u ps = total (λ p. if p.unit == u && covers day (interval_of p) then 1 else 0) ps

pub load-on_unit : (day u : ℕ) (ps : List Placement) → load day (on_unit u ps) ≡ held day u ps
load-on_unit day u [] = refl
load-on_unit day u (p ∷ ps) = ground (arith, load-on_unit day u ps)

pub load-append :
    (day : ℕ) (xs ys : List Interval) → load day (xs ++ ys) ≡ load day xs + load day ys
load-append day xs ys = total-append (λ p. if covers day p then 1 else 0) xs ys

pub held-append :
    (day u : ℕ) (xs ys : List Placement) → held day u (xs ++ ys) ≡ held day u xs + held day u ys
held-append day u xs ys =
    total-append (λ p. if p.unit == u && covers day (interval_of p) then 1 else 0) xs ys

abbrev pub AllForward : List Placement → Type 0
AllForward ps = All (λ p. IsForward (interval_of p)) ps

pub on_unit-AllForward :
    (u : ℕ) (ps : List Placement) → AllForward ps → All IsForward (on_unit u ps)
on_unit-AllForward u [] h = tt
on_unit-AllForward u (p ∷ ps) h = ground (arith, on_unit-AllForward u ps)

-- The placement serves the demand.
pub record Serves (d : Demand) (p : Placement) : Type 0 where
  pub same_key : p.key ≡ d.key
  pub same_start : p.start ≡ d.start
  pub same_end : p.end ≡ d.end
  pub candidate : In p.unit d.candidates

-- One placement for each demand, in order.
abbrev pub ServesAll : List Demand → List Placement → Type 0
ServesAll [] [] = Unit
ServesAll [] (p ∷ ps) = ⊥
ServesAll (d ∷ ds) [] = ⊥
ServesAll (d ∷ ds) (p ∷ ps) = Serves d p × ServesAll ds ps

module _ (capacity : ℕ → ℕ) (fixed : List Placement) where
  -- On no day is a unit that the search chose held more often than its capacity allows, the fixed
  -- placements included.
  abbrev pub IsFeasible : List Placement → Type 0
  IsFeasible ps =
      (p : Placement) → In p ps → (day : ℕ) → held day p.unit (fixed ++ ps) ≤ capacity p.unit

  same_load :
      (p : Placement) (chosen : List Placement) (day : ℕ)
      → load day (on_unit p.unit (fixed ++ chosen) ++ interval_of p ∷ [])
        ≡ held day p.unit (fixed ++ (chosen ++ p ∷ []))
  same_load p chosen day =
      load-append day (on_unit p.unit (fixed ++ chosen)) (interval_of p ∷ [])
      ∙ ap (λ n. n + load day (interval_of p ∷ []))
          (load-on_unit day p.unit (fixed ++ chosen) ∙ held-append day p.unit fixed chosen)
      ∙ omega (arith, self)
      ∙ ap (λ n. held day p.unit fixed + n) (sym (held-append day p.unit chosen (p ∷ [])))
      ∙ sym (held-append day p.unit fixed (chosen ++ p ∷ []))
    where
      self : load day (interval_of p ∷ []) ≡ held day p.unit (p ∷ [])
      self = ground (arith, ==_refl p.unit)

  pub fits_iff :
      (chosen : List Placement) (p : Placement)
      → AllForward (fixed ++ chosen)
      → IsForward (interval_of p)
      → (fits capacity fixed chosen p ≡ true)
        ↔ ((day : ℕ) → held day p.unit (fixed ++ (chosen ++ p ∷ [])) ≤ capacity p.unit)
  unfolding fits
  fits_iff chosen p f g =
      let all =
        All-append IsForward (on_unit p.unit (fixed ++ chosen)) (interval_of p ∷ [])
          (on_unit-AllForward p.unit (fixed ++ chosen) f) (g, tt) in
      let same = same_load p chosen in
      let both =
        fit_intervals_iff (on_unit p.unit (fixed ++ chosen) ++ interval_of p ∷ []) (capacity p.unit)
          all in
      (
        λ e day. subst (λ n. n ≤ capacity p.unit) (same day) (both.0 e day),
        λ h. both.1 (λ day. subst (λ n. n ≤ capacity p.unit) (sym (same day)) (h day)),
      )
