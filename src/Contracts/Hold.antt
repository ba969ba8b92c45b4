-- ===== src/Contracts/Hold.antt =====
-- What is rented: the conditions of a hold, their validation and the match of a ledger variant with
-- a requested item, packages/contracts/src/hold.ts. A value of `HoldConditions` is one that the
-- JSON schema has accepted (the schema validator is a library).
pub mod Laws
use zao_rental.Common.{
  ℕ, Bool, true, false, not, ◌&&◌, ◌||◌, Option, none, some, List, [], ◌∷◌, String, str_eq, leb,
  ◌==◌, if◌then◌else◌, length, any, every, keep,
}
use zao_rental.Contracts.Period.{
  Period, Result, ok, ◌>>=◌, ◌>>◌, refuse_if, normalize_period, duplicate_member,
  contract_version_required, incomplete_set, incomplete_wear_set, invalid_product_class,
  invalid_conditions, wear_explicit_size_required, model_promise_required, model_promise_mismatch,
}

pub data ContractVersion : Type 0 where
  v1_2 v1_3 v1_4 : ContractVersion

-- In the order of the families' names, by which `sort()` arranges them.
pub data Family : Type 0 where
  pole ski ski_boot snowboard snowboard_boot wear_jacket wear_pants : Family

pub data Product : Type 0 where
  ski_set snowboard_set single wear_set : Product

pub data Age : Type 0 where
  adult kids : Age

pub data Tier : Type 0 where
  regular premium standard : Tier

pub data Sport : Type 0 where
  ski snowboard : Sport

pub data StoreId : Type 0 where
  mountain_base onsen_base : StoreId

pub record ModelPromise : Type 0 where
  pub model_id : String
  pub season : String
  pub variant_id : String

pub record HoldItem : Type 0 where
  pub family : Family
  pub variant_ids : List String
  pub model_promise : Option ModelPromise

pub record HoldMember : Type 0 where
  pub key : String
  pub product : Product
  pub age : Age
  pub tier : Tier
  pub wear : Option Bool
  pub wear_sport : Option Sport
  pub items : List HoldItem

pub record HoldConditions : Type 0 where
  pub contract_version : Option ContractVersion
  pub reservation_id : String
  pub pickup_store : StoreId
  pub return_store : StoreId
  pub period : Period
  pub members : List HoldMember

abbrev pub at_least_v13 : Option ContractVersion → Bool
at_least_v13 (some v1_3) = true
at_least_v13 (some v1_4) = true
at_least_v13 _ = false

-- Whether a contract version is named at all: V1.2, V1.3 or V1.4.
abbrev pub is_integrated : Option ContractVersion → Bool
is_integrated none = false
is_integrated (some _) = true

abbrev pub is_v14 : Option ContractVersion → Bool
is_v14 (some v1_4) = true
is_v14 _ = false

abbrev pub is_wear : Family → Bool
is_wear wear_jacket = true
is_wear wear_pants = true
is_wear _ = false

abbrev pub is_pole : Family → Bool
is_pole pole = true
is_pole _ = false

abbrev pub is_board : Family → Bool
is_board Family.ski = true
is_board Family.snowboard = true
is_board _ = false

abbrev pub is_ski_set : Product → Bool
is_ski_set ski_set = true
is_ski_set _ = false

abbrev pub is_wear_set : Product → Bool
is_wear_set wear_set = true
is_wear_set _ = false

unfoldable pub is_accessory_pole : HoldMember → Family → Bool
is_accessory_pole m f = is_ski_set m.product && is_pole f

abbrev pub is_fit_accessory : Family → Bool
is_fit_accessory ski_boot = true
is_fit_accessory snowboard_boot = true
is_fit_accessory pole = true
is_fit_accessory _ = false

abbrev tier_eq : Tier → Tier → Bool
tier_eq regular regular = true
tier_eq premium premium = true
tier_eq standard standard = true
tier_eq _ _ = false

abbrev age_eq : Age → Age → Bool
age_eq adult adult = true
age_eq kids kids = true
age_eq _ _ = false

abbrev pub rank : Family → ℕ
rank pole = 0
rank Family.ski = 1
rank ski_boot = 2
rank Family.snowboard = 3
rank snowboard_boot = 4
rank wear_jacket = 5
rank wear_pants = 6

abbrev pub family_eq : Family → Family → Bool
family_eq a b = rank a == rank b

abbrev is_snow_family : HoldItem → Bool
is_snow_family i = family_eq i.family Family.snowboard || family_eq i.family snowboard_boot

abbrev sport_by_items : HoldMember → Option Sport
sport_by_items m = if any is_snow_family m.items then some Sport.snowboard else some Sport.ski

abbrev sport_of : HoldMember → Product → Option Sport
sport_of m wear_set = m.wear_sport
sport_of m snowboard_set = some Sport.snowboard
sport_of m _ = sport_by_items m

-- `memberSport`. A wear set that names no sport gives `undefined`.
unfoldable pub member_sport : HoldMember → Option Sport
member_sport m = sport_of m m.product

unfoldable pub item_tier : HoldMember → HoldItem → Tier
item_tier m i = if is_wear i.family then standard else m.tier

unfoldable pub tier_matches : HoldMember → HoldItem → Tier → Bool
unfolding item_tier
tier_matches m i tier =
    let want = item_tier m i in
    tier_eq tier want || (tier_eq want premium && is_fit_accessory i.family && tier_eq tier regular)

pub record PromiseVariant : Type 0 where
  pub id : String
  pub family : Family
  pub age : Age
  pub tier : Tier
  pub model_id : Option String
  pub catalog_season : Option String
  pub compatible_sports : Option (List Sport)

abbrev sport_eq : Sport → Sport → Bool
sport_eq Sport.ski Sport.ski = true
sport_eq Sport.snowboard Sport.snowboard = true
sport_eq _ _ = false

-- `sports?.includes(sport)`
abbrev sports_include : Option (List Sport) → Option Sport → Bool
sports_include none s = false
sports_include (some sports) none = false
sports_include (some sports) (some s) = any (λ x. sport_eq x s) sports

abbrev is_text : Option String → String → Bool
is_text none s = false
is_text (some t) s = str_eq t s

abbrev pub keeps_promise : Option ModelPromise → PromiseVariant → Bool
keeps_promise none v = true
keeps_promise (some p) v =
    str_eq v.id p.variant_id && is_text v.model_id p.model_id && is_text v.catalog_season p.season

-- `variantMatches` of a variant that was found.
unfoldable pub variant_matches : HoldMember → HoldItem → PromiseVariant → Bool
variant_matches m i v =
    family_eq v.family i.family
    && age_eq v.age m.age
    && tier_matches m i v.tier
    && (not (is_wear i.family) || sports_include v.compatible_sports (member_sport m))
    && keeps_promise i.model_promise v

-- `new Set(xs).size === xs.length`
abbrev pub distinct {ℓ} : {A : Type ℓ} → (A → A → Bool) → List A → Bool
distinct eq [] = true
distinct eq (x ∷ xs) = not (any (eq x) xs) && distinct eq xs

-- `xs.sort()` on families, by rank.
abbrev pub insert_rank : ℕ → List ℕ → List ℕ
insert_rank n [] = n ∷ []
insert_rank n (m ∷ ms) = if leb n m then n ∷ m ∷ ms else m ∷ insert_rank n ms

abbrev pub sorted_ranks : List HoldItem → List ℕ
sorted_ranks [] = []
sorted_ranks (i ∷ is) = insert_rank (rank i.family) (sorted_ranks is)

-- Equality of the joined names.
abbrev pub ranks_eq : List ℕ → List ℕ → Bool
ranks_eq [] [] = true
ranks_eq (a ∷ xs) (b ∷ ys) = a == b && ranks_eq xs ys
ranks_eq _ _ = false

abbrev is_ski_family : HoldItem → Bool
is_ski_family i = leb (rank i.family) 2

-- `singleItemsCompatible`: one to three different families of one sport, no wear among them.
unfoldable pub single_items_compatible : List HoldItem → Bool
single_items_compatible [] = false
single_items_compatible (i ∷ is) =
    distinct (λ a b. family_eq a.family b.family) (i ∷ is)
    && (every is_ski_family (i ∷ is) || every is_snow_family (i ∷ is))

abbrev has_one : List HoldItem → Bool
has_one gear = length gear == 1

abbrev is_empty {ℓ} : {A : Type ℓ} → List A → Bool
is_empty [] = true
is_empty _ = false

-- The gear of a product is complete.
unfoldable pub gear_complete : Bool → Product → List HoldItem → Bool
gear_complete v14 ski_set gear = ranks_eq (sorted_ranks gear) (0 ∷ 1 ∷ 2 ∷ [])
gear_complete v14 snowboard_set gear = ranks_eq (sorted_ranks gear) (3 ∷ 4 ∷ [])
gear_complete v14 single gear = if v14 then single_items_compatible gear else has_one gear
gear_complete v14 wear_set gear = is_empty gear

abbrev is_true : Option Bool → Bool
is_true (some true) = true
is_true _ = false

abbrev is_given {ℓ} : {A : Type ℓ} → Option A → Bool
is_given none = false
is_given (some _) = true

-- Any sign of the integrated contract in a member.
abbrev uses_integrated : HoldMember → Bool
uses_integrated m =
    is_wear_set m.product
    || is_given m.wear
    || is_given m.wear_sport
    || any (λ i. is_wear i.family) m.items
    || tier_eq m.tier standard
    || any (λ i. is_given i.model_promise) m.items

abbrev wear_complete : Bool → List HoldItem → Bool
wear_complete true wear = ranks_eq (sorted_ranks wear) (5 ∷ 6 ∷ [])
wear_complete false wear = is_empty wear

abbrev class_valid : HoldMember → Bool
class_valid m =
    if is_wear_set m.product
    then tier_eq m.tier standard && is_given m.wear_sport && not (is_given m.wear)
    else not (tier_eq m.tier standard) && not (is_given m.wear_sport)

abbrev is_exactly : List String → String → Bool
is_exactly (v ∷ []) s = str_eq v s
is_exactly _ s = false

abbrev promise_valid : HoldMember → HoldItem → Option ModelPromise → Bool
promise_valid m i none = true
promise_valid m i (some p) =
    is_board i.family && tier_eq m.tier premium && is_exactly i.variant_ids p.variant_id

-- The checks on one item.
unfoldable pub check_item : Option ContractVersion → HoldMember → HoldItem → Result (Unit {0})
check_item version m i = do
  refuse_if (is_empty i.variant_ids && not (at_least_v13 version && is_accessory_pole m i.family))
      invalid_conditions
  refuse_if (is_wear i.family && not (length i.variant_ids == 1)) wear_explicit_size_required
  refuse_if
      (is_integrated version
        && tier_eq m.tier premium
        && is_board i.family
        && not (is_given i.model_promise))
      model_promise_required
  refuse_if (not (promise_valid m i i.model_promise)) model_promise_mismatch

-- `for (const x of xs) check(x)`
abbrev pub check_all : {A : Type 0} → (A → Result (Unit {0})) → List A → Result (Unit {0})
check_all check [] = ok tt
check_all check (x ∷ xs) = check x >> check_all check xs

-- The checks on one member.
unfoldable pub check_member : Option ContractVersion → HoldMember → Result (Unit {0})
check_member version m = do
  refuse_if (not (is_integrated version) && uses_integrated m) contract_version_required
  refuse_if (not (distinct (λ a b. family_eq a.family b.family) m.items)) incomplete_set
  refuse_if
      (not (gear_complete (is_v14 version) m.product (keep (λ i. not (is_wear i.family)) m.items)))
      incomplete_set
  refuse_if
      (not (
        wear_complete (is_wear_set m.product || is_true m.wear)
          (keep (λ i. is_wear i.family) m.items)))
      incomplete_wear_set
  refuse_if (not (class_valid m)) invalid_product_class
  check_all (check_item version m) m.items

-- `parseConditions`
unfoldable pub parse_conditions : HoldConditions → Result HoldConditions
parse_conditions c = do
  _ ← normalize_period c.period
  refuse_if (not (distinct (λ a b. str_eq a.key b.key) c.members)) duplicate_member
  check_all (check_member c.contract_version) c.members
  ok c

pub data PaymentBoundary : Type 0 where
  none_yet pending unknown success failure : PaymentBoundary

pub data PaymentAdvice : Type 0 where
  reconciliation_required inventory_only_valid inventory_reacquire_required may_expire may_change :
      PaymentAdvice

-- `paymentDecision`
unfoldable pub payment_decision : PaymentBoundary → Bool → Bool → Bool → PaymentAdvice
payment_decision pending active expired reacquired = reconciliation_required
payment_decision unknown active expired reacquired = reconciliation_required
payment_decision success active expired reacquired =
    if (active && not expired) || reacquired
    then inventory_only_valid
    else inventory_reacquire_required
payment_decision _ active expired reacquired = if expired then may_expire else may_change
