-- ===== src/Inventory/Intervals.antt =====
-- The interval test of packages/core/src/inventory/period-matching.ts. A date is its day number;
-- the key `~`, which sorts after every date, is the number after that of 9999-12-31, so that the
-- day after an interval is its last day and one in both cases.
pub mod Coverage
use zao_rental.Common.{
  ℕ, zero, suc, ◌+◌, ◌-◌, ◌*◌, ◌/◌, ◌%◌, ◌^◌, ◌≤◌, ◌<◌, min, max, ◌≡◌, refl, sym, ap, subst, ◌∙◌,
  ◌≢◌, ◌↔◌, ◌⊎◌, inl, inr, Bool, true, false, not, ◌&&◌, ◌||◌, Option, none, some, List, [], ◌∷◌,
  ◌++◌, map, arith, String, str_eq, ltb, leb, ◌==◌, if◌then◌else◌, ltb→lt, leb→le, le→leb, ==_iff,
  ==_refl, Bool-cases, &&-eq-true, Option-cases, length, length-append, any, every, keep, find,
  total, All, All-append, All-imp, total-append, keep-append, includes, In, In-append_left,
  In-append_right, All-In, In-keep, keep-In, find-In, any-In, every-In,
}

pub record Interval : Type 0 where
  pub start : ℕ
  pub end : ℕ

-- An integer as a difference.
pub record Delta : Type 0 where
  pub ups : ℕ
  pub downs : ℕ

abbrev pub plus : Delta → Delta → Delta
plus a b = record { ups = a.ups + b.ups; downs = a.downs + b.downs }

abbrev pub one_more : Delta
one_more = record { ups = 1; downs = 0 }

abbrev pub one_less : Delta
one_less = record { ups = 0; downs = 1 }

abbrev pub nothing : Delta
nothing = record { ups = 0; downs = 0 }

-- `changes.set(k, (changes.get(k) ?? 0) + x)`, on a map whose entries stand in the order of keys.
unfoldable pub bump : ℕ → Delta → List (ℕ × Delta) → List (ℕ × Delta)
bump k x [] = (k, x) ∷ []
bump k x ((j, y) ∷ m) =
    let rest = bump k x m in
    if ltb k j then (k, x) ∷ (j, y) ∷ m else if k == j then (j, plus y x) ∷ m else (j, y) ∷ rest

unfoldable pub changes : List Interval → List (ℕ × Delta)
changes [] = []
changes (p ∷ ps) = bump p.start one_more (bump (p.end + 1) one_less (changes ps))

-- The loop over the changes; `used > capacity` for a difference.
unfoldable pub sweep : ℕ → Delta → List (ℕ × Delta) → Bool
sweep capacity used [] = true
sweep capacity used ((k, x) ∷ m) =
    let now = plus used x in
    let rest = sweep capacity now m in if ltb (capacity + now.downs) now.ups then false else rest

-- `fitIntervals`
unfoldable pub fit_intervals : List Interval → ℕ → Bool
fit_intervals items capacity = sweep capacity nothing (changes items)
