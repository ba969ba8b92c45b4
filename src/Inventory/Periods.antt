-- ===== src/Inventory/Periods.antt =====
-- The search for one physical unit per demand: the part after the pruning in `matchPeriods` of
-- packages/core/src/inventory/period-matching.ts. Keys and units are opaque and stand as numbers; a
-- unit that `capacities` does not hold has capacity 0. The count of visits starts at what the pruning
-- has spent, which is an input.
pub mod Feasible
pub mod Answer
pub mod Budget
use zao_rental.Common.{
  ℕ, zero, suc, ◌+◌, ◌-◌, ◌*◌, ◌/◌, ◌%◌, ◌^◌, ◌≤◌, ◌<◌, min, max, ◌≡◌, refl, sym, ap, subst, ◌∙◌,
  ◌≢◌, ◌↔◌, ◌⊎◌, inl, inr, Bool, true, false, not, ◌&&◌, ◌||◌, Option, none, some, List, [], ◌∷◌,
  ◌++◌, map, arith, String, str_eq, ltb, leb, ◌==◌, if◌then◌else◌, ltb→lt, leb→le, le→leb, ==_iff,
  ==_refl, Bool-cases, &&-eq-true, Option-cases, length, length-append, any, every, keep, find,
  total, All, All-append, All-imp, total-append, keep-append, includes, In, In-append_left,
  In-append_right, All-In, In-keep, keep-In, find-In, any-In, every-In,
}
use zao_rental.Inventory.Intervals.{Interval, fit_intervals}

pub record Demand : Type 0 where
  pub key : ℕ
  pub start : ℕ
  pub end : ℕ
  pub candidates : List ℕ

pub record Placement : Type 0 where
  pub key : ℕ
  pub unit : ℕ
  pub start : ℕ
  pub end : ℕ

-- What the search leaves: the placements, or the count of the visits so far, or the error that the
-- budget of visits is spent.
pub data Verdict : Type 0 where
  found : List Placement → Verdict
  absent : ℕ → Verdict
  indeterminate : Verdict

-- `if (search(i + 1)) return true; assigned.pop();` and the rest of the loop.
abbrev pub resume : (ℕ → Verdict) → Verdict → Verdict
resume again (found ps) = found ps
resume again (absent visits) = again visits
resume again indeterminate = indeterminate

abbrev pub interval_of : Placement → Interval
interval_of p = record { start = p.start; end = p.end }

-- `assigned.filter(x => x.unit === unit)`
abbrev pub on_unit : ℕ → List Placement → List Interval
on_unit u ps = map interval_of (keep (λ x. x.unit == u) ps)

abbrev pub placed : Demand → ℕ → Placement
placed d u = record { key = d.key; unit = u; start = d.start; end = d.end }

-- The test that a placement gets: `fitIntervals` of those on its unit and itself.
module _ (capacity : ℕ → ℕ) (fixed : List Placement) where
  unfoldable pub fits : List Placement → Placement → Bool
  fits chosen p =
      fit_intervals (on_unit p.unit (fixed ++ chosen) ++ interval_of p ∷ []) (capacity p.unit)

module _ (capacity : ℕ → ℕ) (fixed : List Placement) (max_visits : ℕ) where
  -- The loop over the candidates of one demand; `next` is `search(i + 1)`.
  unfoldable pub try_units :
      Demand → (List Placement → ℕ → Verdict) → List Placement → ℕ → List ℕ → Verdict
  try_units d next chosen visits [] = absent visits
  try_units d next chosen visits (u ∷ us) =
      if ltb max_visits (visits + 1)
      then indeterminate
      else if not (fits capacity fixed chosen (placed d u))
      then try_units d next chosen (visits + 1) us
      else resume (λ v. try_units d next chosen v us)
          (next (chosen ++ placed d u ∷ []) (visits + 1))

  -- `search`, over the demands that are left; `assigned` is `fixed ++ chosen`.
  unfoldable pub search_units : List Demand → List Placement → ℕ → Verdict
  search_units [] chosen visits = found chosen
  search_units (d ∷ ds) chosen visits = try_units d (search_units ds) chosen visits d.candidates
