-- ===== src/Inventory/Wear.antt =====
-- Wear pools: `wearCapacityDetailed` of packages/core/src/inventory/wear-capacity.ts, over the rows
-- that its queries read. A key of a map `pool/day` is the pair; ids are opaque numbers, a day is its
-- number.
pub mod Ceilings
pub mod Served
use zao_rental.Common.{
  ℕ, zero, suc, ◌+◌, ◌-◌, ◌*◌, ◌/◌, ◌%◌, ◌^◌, ◌≤◌, ◌<◌, min, max, ◌≡◌, refl, sym, ap, subst, ◌∙◌,
  ◌≢◌, ◌↔◌, ◌⊎◌, inl, inr, Bool, true, false, not, ◌&&◌, ◌||◌, Option, none, some, List, [], ◌∷◌,
  ◌++◌, map, arith, String, str_eq, ltb, leb, ◌==◌, if◌then◌else◌, ltb→lt, leb→le, le→leb, ==_iff,
  ==_refl, Bool-cases, &&-eq-true, Option-cases, length, length-append, any, every, keep, find,
  total, All, All-append, All-imp, total-append, keep-append, includes, In, In-append_left,
  In-append_right, In-append-cases, All-In, In-keep, keep-In, find-In, any-In, every-In,
}

pub record Requirement : Type 0 where
  pub key : String
  pub variant : ℕ

pub record Pool : Type 0 where
  pub id : ℕ
  pub variant_id : ℕ
  pub ready : ℕ

pub record Claim : Type 0 where
  pub pool_id : ℕ
  pub day : ℕ
  pub quantity_all : ℕ
  pub quantity_public : ℕ

pub record Loan : Type 0 where
  pub requirement_key : String
  pub pool_id : ℕ

pub record Row : Type 0 where
  pub key : String
  pub pool : ℕ
  pub day : ℕ

-- The rows read, the days of the period and whether the staff override applies.
pub record Supply : Type 0 where
  pub pools : List Pool
  pub claims : List Claim
  pub own_loans : List Loan
  pub days : List ℕ
  pub buffer_override : Bool

pub record Count : Type 0 where
  pub pool : ℕ
  pub day : ℕ
  pub n : ℕ

pub record Increment : Type 0 where
  pub day : ℕ
  pub n : ℕ

-- `counts.get(pool + '/' + day) ?? 0`; the newest entry of a key is the one in force.
abbrev pub count_of : ℕ → ℕ → List Count → ℕ
count_of pool day [] = 0
count_of pool day (c ∷ cs) = if c.pool == pool && c.day == day then c.n else count_of pool day cs

-- `for (const {key, n} of increments) counts.set(key, n)`
abbrev pub set_all : ℕ → List Increment → List Count → List Count
set_all pool [] cs = cs
set_all pool (i ∷ is) cs = set_all pool is (record { pool = pool; day = i.day; n = i.n } ∷ cs)

abbrev pub on_loan : Supply → String → ℕ → Bool
on_loan s key pool = any (λ l. str_eq l.requirement_key key && l.pool_id == pool) s.own_loans

abbrev pub claim_on : Supply → ℕ → ℕ → Option Claim
claim_on s pool day = find (λ x. x.pool_id == pool && x.day == day) s.claims

abbrev pub all_of : Option Claim → ℕ
all_of none = 0
all_of (some c) = c.quantity_all

abbrev pub public_of : Option Claim → ℕ
public_of none = 0
public_of (some c) = c.quantity_public

-- `Math.floor(pool.ready * 0.95)`
abbrev pub public_cap : ℕ → ℕ
public_cap ready = ready * 95 / 100

abbrev pub increment_on : Supply → List Count → Requirement → Pool → ℕ → Increment
increment_on s cs r p day = record {
  day = day;
  n = count_of p.id day cs + (if on_loan s r.key p.id then 0 else 1);
}

-- The test of one day.
unfoldable pub day_ok : Supply → Pool → Increment → Bool
day_ok s p i =
    let claim = claim_on s p.id i.day in
    if ltb p.ready (i.n + all_of claim)
    then false
    else s.buffer_override || leb (i.n + public_of claim) (public_cap p.ready)

pub record Plan : Type 0 where
  pub counts : List Count
  pub rows : List Row
  pub infeasible : List Requirement

abbrev pub refuse : Plan → Requirement → Plan
refuse t r = record t { infeasible = t.infeasible ++ r ∷ [] }

abbrev pub rows_of : Requirement → Pool → List ℕ → List Row
rows_of r p [] = []
rows_of r p (d ∷ ds) = record { key = r.key; pool = p.id; day = d } ∷ rows_of r p ds

abbrev pub accept : Supply → Plan → Requirement → Pool → Plan
accept s t r p = record t {
  counts = set_all p.id (map (increment_on s t.counts r p) s.days) t.counts;
  rows = t.rows ++ rows_of r p s.days;
}

abbrev pub try_pool : Supply → Plan → Requirement → Option Pool → Plan
try_pool s t r none = refuse t r
try_pool s t r (some p) =
    if every (day_ok s p) (map (increment_on s t.counts r p) s.days)
    then accept s t r p
    else refuse t r

-- The body of the loop over the requirements, and the loop.
unfoldable pub plan_one : Supply → Plan → Requirement → Plan
plan_one s t r = try_pool s t r (find (λ p. p.variant_id == r.variant) s.pools)

unfoldable pub plan_all : Supply → Plan → List Requirement → Plan
plan_all s t [] = t
plan_all s t (r ∷ rs) = plan_all s (plan_one s t r) rs

abbrev pub empty_plan : Plan
empty_plan = record { counts = []; rows = []; infeasible = [] }

-- `wearCapacityDetailed`, after the queries.
unfoldable pub wear_capacity_detailed : Supply → List Requirement → Plan
wear_capacity_detailed s rs = plan_all s empty_plan rs
