-- ===== src/Inventory/Tests.antt =====
-- Runs of the inventory modules on concrete data.
use zao_rental.Common.{
  ℕ, ◌+◌, ◌≤◌, ◌≡◌, refl, sym, ◌∙◌, ◌≢◌, ◌↔◌, ◌⊎◌, inl, inr, true, false, none, some, List, [], ◌∷◌,
  arith, String, All, In,
}
use zao_rental.Inventory.Intervals.{Interval, fit_intervals}
use zao_rental.Inventory.Intervals.Coverage.{IsForward, load, fit_intervals_iff}
use zao_rental.Inventory.Periods.{Demand, Placement, search_units, found, absent, indeterminate}
use zao_rental.Inventory.Periods.Feasible.{ServesAll, IsFeasible}
use zao_rental.Inventory.Periods.Answer.{IsForwardDemand, search_units-found, search_units-absent}
use zao_rental.Inventory.Periods.Budget.{search_units-answers}
use zao_rental.Inventory.Provisional.{
  Bucket, BucketClaim, PlanRow, Stock, Draft, ProvisionalRequirement, Slot, all_on, claim_of,
  provisional_capacity,
}
use zao_rental.Inventory.Provisional.Slots.{HaveIds, units_on, provisional_capacity-within}
use zao_rental.Inventory.Wear.{Requirement, Pool, Claim, Loan, Row, Supply, wear_capacity_detailed}
use zao_rental.Inventory.Wear.Ceilings.{
  HasRoom, taken_units, AreKeyed, wear_capacity_detailed-HasRoom,
}
use zao_rental.Inventory.Wear.Served.{IsPlanned, wear_capacity_detailed-IsPlanned}

abbrev stays : List Interval
stays =
    record { start = 10; end = 12 }
    ∷ record { start = 12; end = 14 }
    ∷ record { start = 13; end = 13 }
    ∷ []

-- The last day of one stay is the first of the next.
two_fit : fit_intervals stays 2 ≡ true
unfolding fit_intervals zao_rental.Inventory.Intervals.sweep zao_rental.Inventory.Intervals.changes
    zao_rental.Inventory.Intervals.bump
two_fit = refl

one_does_not : fit_intervals stays 1 ≡ false
unfolding fit_intervals zao_rental.Inventory.Intervals.sweep zao_rental.Inventory.Intervals.changes
    zao_rental.Inventory.Intervals.bump
one_does_not = refl

stays-AllForward : All IsForward stays
stays-AllForward = (omega arith, (omega arith, (omega arith, tt)))

fit_intervals_iff_example : (fit_intervals stays 2 ≡ true) ↔ ((day : ℕ) → load day stays ≤ 2)
fit_intervals_iff_example = fit_intervals_iff stays 2 stays-AllForward

-- Two demands that overlap; the first could take either unit, the second only unit 1.
abbrev demands : List Demand
demands =
    record { key = 1; start = 10; end = 12; candidates = 1 ∷ 2 ∷ [] }
    ∷ record { key = 2; start = 11; end = 14; candidates = 1 ∷ [] }
    ∷ []

abbrev busy : List Placement
busy = record { key = 0; unit = 2; start = 13; end = 20 } ∷ []

abbrev one_each : ℕ → ℕ
one_each u = 1

abbrev answer : List Placement
answer =
    record { key = 1; unit = 2; start = 10; end = 12 }
    ∷ record { key = 2; unit = 1; start = 11; end = 14 }
    ∷ []

demands-AllForward : All IsForwardDemand demands
demands-AllForward = (omega arith, (omega arith, tt))

busy-AllForward : (13 ≤ 20) × Unit {0}
busy-AllForward = (omega arith, tt)

demands_found : search_units one_each busy 100 demands [] 0 ≡ found answer
unfolding search_units zao_rental.Inventory.Periods.try_units zao_rental.Inventory.Periods.fits
    fit_intervals zao_rental.Inventory.Intervals.sweep zao_rental.Inventory.Intervals.changes
    zao_rental.Inventory.Intervals.bump
demands_found = refl

search_units-found_example : ServesAll demands answer × IsFeasible one_each busy answer
search_units-found_example =
    search_units-found one_each busy 100 0 demands answer demands-AllForward busy-AllForward
      demands_found

-- With unit 2 busy from day 12, no choice serves both.
abbrev busier : List Placement
busier = record { key = 0; unit = 2; start = 12; end = 20 } ∷ []

busier-AllForward : (12 ≤ 20) × Unit {0}
busier-AllForward = (omega arith, tt)

demands_absent : search_units one_each busier 100 demands [] 0 ≡ absent 3
unfolding search_units zao_rental.Inventory.Periods.try_units zao_rental.Inventory.Periods.fits
    fit_intervals zao_rental.Inventory.Intervals.sweep zao_rental.Inventory.Intervals.changes
    zao_rental.Inventory.Intervals.bump
demands_absent = refl

search_units-absent_example :
    ¬ ((ps : List Placement) × ServesAll demands ps × IsFeasible one_each busier ps)
search_units-absent_example =
    search_units-absent one_each busier 100 0 3 demands demands-AllForward busier-AllForward
      demands_absent

search_units-answers_example : search_units one_each busy 100 demands [] 7 ≢ indeterminate
search_units-answers_example = search_units-answers one_each busy 100 7 demands (omega arith)

abbrev supply : Supply
supply = record {
  pools = record { id = 7; variant_id = 3; ready = 20 } ∷ [];
  claims = record { pool_id = 7; day = 10; quantity_all = 18; quantity_public = 17 } ∷ [];
  own_loans = [];
  days = 10 ∷ 11 ∷ [];
  buffer_override = false;
}

abbrev wanted : List Requirement
wanted =
    record { key = "a:WEAR_JACKET"; variant = 3 }
    ∷ record { key = "b:WEAR_JACKET"; variant = 3 }
    ∷ record { key = "c:WEAR_JACKET"; variant = 3 }
    ∷ []

-- Of twenty jackets nineteen are public: with eighteen of them claimed, two more are given.
two_given :
    (wear_capacity_detailed supply wanted).infeasible
    ≡ record { key = "c:WEAR_JACKET"; variant = 3 } ∷ []
unfolding wear_capacity_detailed zao_rental.Inventory.Wear.plan_all
    zao_rental.Inventory.Wear.plan_one zao_rental.Inventory.Wear.day_ok
two_given = refl

abbrev first_row : Row
first_row = record { key = "a:WEAR_JACKET"; pool = 7; day = 10 }

abbrev jackets : Pool
jackets = record { id = 7; variant_id = 3; ready = 20 }

supply-AreKeyed : AreKeyed supply.pools
supply-AreKeyed p q (inl a) (inl b) e = a ∙ sym b
supply-AreKeyed p q (inl a) (inr b) e = absurd b
supply-AreKeyed p q (inr a) b e = absurd a

first_row-In : In first_row (wear_capacity_detailed supply wanted).rows
unfolding wear_capacity_detailed zao_rental.Inventory.Wear.plan_all
    zao_rental.Inventory.Wear.plan_one zao_rental.Inventory.Wear.day_ok
first_row-In = inl refl

wear_capacity_detailed-HasRoom_example :
    HasRoom supply jackets 10 (taken_units supply 7 10 (wear_capacity_detailed supply wanted).rows)
wear_capacity_detailed-HasRoom_example =
    wear_capacity_detailed-HasRoom supply wanted first_row jackets supply-AreKeyed
      (refl, (refl, tt)) first_row-In (inl refl) refl

abbrev first_wanted : Requirement
first_wanted = record { key = "a:WEAR_JACKET"; variant = 3 }

wear_capacity_detailed-IsPlanned_example :
    In first_wanted (wear_capacity_detailed supply wanted).infeasible
    ⊎ IsPlanned supply (wear_capacity_detailed supply wanted) first_wanted
wear_capacity_detailed-IsPlanned_example =
    wear_capacity_detailed-IsPlanned supply wanted first_wanted (inl refl)

abbrev old_skis : Bucket
old_skis = record { id = 1; family = "SKI"; age = "ADULT"; size_key = "160 cm"; quantity = 20 }

abbrev stock : Stock
stock = record {
  buckets =
      old_skis
      ∷ record { id = 2; family = "SKI"; age = "ADULT"; size_key = "160 cm"; quantity = 20 }
      ∷ [];
  claims = record { bucket_id = 1; day = 10; quantity_all = 19; quantity_public = 19 } ∷ [];
  bindings = [];
  promise_claims = [];
  days = 10 ∷ [];
  buffer_override = false;
}

abbrev ski : String → ProvisionalRequirement
ski key = record {
  key = key;
  family = "SKI";
  age = "ADULT";
  size_key = "160 cm";
  promise_variant_id = none;
}

abbrev pair : List ProvisionalRequirement
pair = ski "a" ∷ ski "b" ∷ []

-- The first bucket has one pair left, so the second pair comes from the next.
abbrev drafted : Draft
drafted = record {
  slots = record { bucket = 2; day = 10; n = 1 } ∷ record { bucket = 1; day = 10; n = 1 } ∷ [];
  promises = [];
  rows =
      record { key = "a"; bucket = 1; day = 10; promise = none }
      ∷ record { key = "b"; bucket = 2; day = 10; promise = none }
      ∷ [];
}

feasible_pair : provisional_capacity stock pair ≡ some drafted
unfolding provisional_capacity zao_rental.Inventory.Provisional.place_all
    zao_rental.Inventory.Provisional.candidates_of zao_rental.Inventory.Provisional.place_days
    zao_rental.Inventory.Provisional.place_day zao_rental.Inventory.Provisional.slot_ok
feasible_pair = refl

stock-HaveIds : HaveIds stock.buckets
stock-HaveIds a b (inl e) (inl f) h = e ∙ sym f
stock-HaveIds a b (inl e) (inr (inl f)) h = absurd (ground (arith, e, f, h))
stock-HaveIds a b (inl e) (inr (inr f)) h = absurd f
stock-HaveIds a b (inr (inl e)) (inl f) h = absurd (ground (arith, e, f, h))
stock-HaveIds a b (inr (inl e)) (inr (inl f)) h = e ∙ sym f
stock-HaveIds a b (inr (inl e)) (inr (inr f)) h = absurd f
stock-HaveIds a b (inr (inr e)) f h = absurd e

provisional_capacity-within_example : units_on 1 10 drafted.rows + all_on (claim_of stock 1 10) ≤ 20
provisional_capacity-within_example =
    provisional_capacity-within stock pair drafted
      (record { key = "a"; bucket = 1; day = 10; promise = none }) old_skis stock-HaveIds
      feasible_pair (inl refl) (inl refl) refl
