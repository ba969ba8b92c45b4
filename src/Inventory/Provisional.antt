-- ===== src/Inventory/Provisional.antt =====
-- Provisional capacity: the plan of `provisionalCapacity` of
-- packages/core/src/inventory/provisional-capacity.ts, over the rows that its queries read. A size
-- stands as its canonical key, by which the source compares sizes.
pub mod Slots
use zao_rental.Common.{
  ℕ, zero, suc, ◌+◌, ◌-◌, ◌*◌, ◌/◌, ◌%◌, ◌^◌, ◌≤◌, ◌<◌, min, max, ◌≡◌, refl, sym, ap, subst, ◌∙◌,
  ◌≢◌, ◌↔◌, ◌⊎◌, inl, inr, Bool, true, false, not, ◌&&◌, ◌||◌, Option, none, some, List, [], ◌∷◌,
  ◌++◌, map, arith, String, str_eq, ltb, leb, ◌==◌, if◌then◌else◌, ltb→lt, leb→le, le→leb, ==_iff,
  ==_refl, Bool-cases, &&-eq-true, Option-cases, length, length-append, any, every, keep, find,
  total, All, All-append, All-imp, total-append, keep-append, includes, In, In-append_left,
  In-append_right, In-append-cases, All-In, In-keep, keep-In, find-In, any-In, every-In,
}

pub record Bucket : Type 0 where
  pub id : ℕ
  pub family : String
  pub age : String
  pub size_key : String
  pub quantity : ℕ

pub record BucketClaim : Type 0 where
  pub bucket_id : ℕ
  pub day : ℕ
  pub quantity_all : ℕ
  pub quantity_public : ℕ

pub record Binding : Type 0 where
  pub variant_id : ℕ
  pub bucket_id : ℕ
  pub quantity : ℕ

pub record PromiseClaim : Type 0 where
  pub bucket_id : ℕ
  pub variant_id : ℕ
  pub day : ℕ
  pub quantity : ℕ

pub record ProvisionalRequirement : Type 0 where
  pub key : String
  pub family : String
  pub age : String
  pub size_key : String
  pub promise_variant_id : Option ℕ

pub record PlanRow : Type 0 where
  pub key : String
  pub bucket : ℕ
  pub day : ℕ
  pub promise : Option ℕ

pub record Stock : Type 0 where
  pub buckets : List Bucket
  pub claims : List BucketClaim
  pub bindings : List Binding
  pub promise_claims : List PromiseClaim
  pub days : List ℕ
  pub buffer_override : Bool

-- The entries of `ownUsage`, those of slots and those of promises, the newest first.
pub record Slot : Type 0 where
  pub bucket : ℕ
  pub day : ℕ
  pub n : ℕ

pub record PromiseSlot : Type 0 where
  pub variant : ℕ
  pub bucket : ℕ
  pub day : ℕ
  pub n : ℕ

pub record Draft : Type 0 where
  pub slots : List Slot
  pub promises : List PromiseSlot
  pub rows : List PlanRow

abbrev pub used_of : ℕ → ℕ → List Slot → ℕ
used_of bucket day [] = 0
used_of bucket day (x ∷ xs) =
    if x.bucket == bucket && x.day == day then x.n else used_of bucket day xs

abbrev pub promised_of : ℕ → ℕ → ℕ → List PromiseSlot → ℕ
promised_of variant bucket day [] = 0
promised_of variant bucket day (x ∷ xs) =
    if x.variant == variant && x.bucket == bucket && x.day == day
    then x.n
    else promised_of variant bucket day xs

abbrev pub all_on : Option BucketClaim → ℕ
all_on none = 0
all_on (some c) = c.quantity_all

abbrev pub claim_of : Stock → ℕ → ℕ → Option BucketClaim
claim_of s bucket day = find (λ x. x.bucket_id == bucket && x.day == day) s.claims

-- `bound.some(x => x.bucket_id === b.id)`, or true where nothing is promised.
abbrev pub may_use : Stock → Option ℕ → Bucket → Bool
may_use s none b = true
may_use s (some v) b = any (λ x. x.variant_id == v && x.bucket_id == b.id) s.bindings

unfoldable pub candidates_of : Stock → ProvisionalRequirement → List Bucket
candidates_of s r =
    keep
      (λ b.
        str_eq b.family r.family
        && str_eq b.age r.age
        && str_eq b.size_key r.size_key
        && may_use s r.promise_variant_id b)
      s.buckets

abbrev pub public_by_others : Stock → List Bucket → ℕ → ℕ
public_by_others s group day =
    total (λ x. x.quantity_public)
      (keep (λ x. x.day == day && any (λ b. b.id == x.bucket_id) group) s.claims)

abbrev quantity_of : Option PromiseClaim → ℕ
quantity_of none = 0
quantity_of (some c) = c.quantity

abbrev binding_ok : Stock → Draft → ℕ → Bucket → ℕ → Option Binding → Bool
binding_ok s t v b day none = true
binding_ok s t v b day (some x) =
    leb
      (quantity_of
          (find (λ c. c.bucket_id == b.id && c.variant_id == v && c.day == day) s.promise_claims)
        + promised_of v b.id day t.promises
        + 1)
      x.quantity

abbrev promise_ok : Stock → Draft → Option ℕ → Bucket → ℕ → Bool
promise_ok s t none b day = true
promise_ok s t (some v) b day =
    binding_ok s t v b day (find (λ x. x.variant_id == v && x.bucket_id == b.id) s.bindings)

-- The three ceilings for one more unit of the bucket on the day.
unfoldable pub slot_ok : Stock → List Bucket → Draft → ProvisionalRequirement → ℕ → Bucket → Bool
slot_ok s group t r day b =
    leb (all_on (claim_of s b.id day) + used_of b.id day t.slots + 1) b.quantity
    && (s.buffer_override
        || leb (public_by_others s group day + total (λ x. used_of x.id day t.slots) group + 1)
            (total (λ x. x.quantity) group * 95 / 100))
    && promise_ok s t r.promise_variant_id b day

abbrev count_promise : Option ℕ → Bucket → ℕ → List PromiseSlot → List PromiseSlot
count_promise none b day xs = xs
count_promise (some v) b day xs =
    record { variant = v; bucket = b.id; day = day; n = promised_of v b.id day xs + 1 } ∷ xs

abbrev pub placed_on : Draft → ProvisionalRequirement → ℕ → Bucket → Draft
placed_on t r day b = record {
  slots = record { bucket = b.id; day = day; n = used_of b.id day t.slots + 1 } ∷ t.slots;
  promises = count_promise r.promise_variant_id b day t.promises;
  rows =
      t.rows
      ++ record { key = r.key; bucket = b.id; day = day; promise = r.promise_variant_id } ∷ [];
}

-- The first candidate with room takes the day; `none` is a plan that is not feasible.
unfoldable pub place_day : Stock → List Bucket → Draft → ProvisionalRequirement → ℕ → Option Draft
place_day s group t r day = elim (find (slot_ok s group t r day) group) [
  | none ↦ none
  | some b ↦ some (placed_on t r day b)
]

unfoldable pub place_days :
    Stock → List Bucket → ProvisionalRequirement → List ℕ → Draft → Option Draft
place_days s group r [] t = some t
place_days s group r (d ∷ ds) t = elim (place_day s group t r d) [
  | none ↦ none
  | some t' ↦ place_days s group r ds t'
]

unfoldable pub place_all : Stock → List ProvisionalRequirement → Draft → Option Draft
place_all s [] t = some t
place_all s (r ∷ rs) t = elim (candidates_of s r) [
  | [] ↦ none
  | b ∷ bs ↦ elim (place_days s (candidates_of s r) r s.days t) [
    | none ↦ none
    | some t' ↦ place_all s rs t'
  ]
]

abbrev pub empty_draft : Draft
empty_draft = record { slots = []; promises = []; rows = [] }

-- `provisionalCapacity`, after the queries; `none` is `feasible: false`.
unfoldable pub provisional_capacity : Stock → List ProvisionalRequirement → Option Draft
provisional_capacity s rs = place_all s rs empty_draft
