-- ===== src/Contracts/Period.antt =====
-- Rental periods: the dates, their boundaries and the intake window of
-- packages/contracts/src/hold.ts. A date is the number of its day since 1970-01-01; a text that is
-- no date of the years 2000 to 2099 is any number outside that range. Instants are milliseconds.
pub mod Laws
use zao_rental.Common.{
  ℕ, zero, suc, ◌+◌, ◌-◌, ◌*◌, ◌/◌, ◌%◌, ◌^◌, ◌≤◌, ◌<◌, min, max, ◌≡◌, refl, sym, ap, subst, ◌∙◌,
  ◌≢◌, ◌↔◌, ◌⊎◌, inl, inr, Bool, true, false, not, ◌&&◌, ◌||◌, Option, none, some, List, [], ◌∷◌,
  ◌++◌, map, arith, String, str_eq, ltb, leb, ◌==◌, if◌then◌else◌, ltb→lt, leb→le, le→leb, ==_iff,
  ==_refl, Bool-cases, &&-eq-true, Option-cases, length, length-append, any, every, keep, find,
  total, All, All-append, All-imp, total-append, keep-append, includes, In, In-append_left,
  In-append_right, All-In,
}

pub data HoldCode : Type 0 where
  invalid_period invalid_date invalid_clock period_ended start_date_past intake_closed : HoldCode
  duplicate_member contract_version_required incomplete_set incomplete_wear_set : HoldCode
  invalid_product_class invalid_conditions wear_explicit_size_required : HoldCode
  model_promise_required model_promise_mismatch indeterminate : HoldCode

pub data Result (A : Type 0) : Type 0 where
  ok : A → Result A
  err : HoldCode → Result A

infixl 5 ◌>>=◌ ◌>>◌
abbrev pub ◌>>=◌ : {A B : Type 0} → Result A → (A → Result B) → Result B
ok a >>= f = f a
err e >>= f = err e

abbrev pub ◌>>◌ : {B : Type 0} → Result (Unit {0}) → Result B → Result B
m >> k = m >>= λ _. k

-- `if (refused) throw new HoldError(code)`
abbrev pub refuse_if : Bool → HoldCode → Result (Unit {0})
refuse_if true code = err code
refuse_if false code = ok tt

pub data Slot : Type 0 where
  am pm day multiday : Slot

pub data StartAt : Type 0 where
  at_0830 at_1300 : StartAt

pub data ReturnBy : Type 0 where
  by_1200 by_1700 : ReturnBy

pub record Period : Type 0 where
  pub start_date : ℕ
  pub end_date : ℕ
  pub slot : Slot
  pub start_at : Option StartAt
  pub return_by : Option ReturnBy

abbrev pub day_ms : ℕ
day_ms = 86400000

abbrev pub hour_ms : ℕ
hour_ms = 3600000

-- 2000-01-01 and 2099-12-31.
abbrev pub is_date : ℕ → Bool
is_date d = leb 10957 d && leb d 47481

-- `utcDate`, in days.
unfoldable pub utc_date : ℕ → Result ℕ
utc_date d = if is_date d then ok d else err invalid_date

abbrev same_day_slot : StartAt → ReturnBy → Result Slot
same_day_slot at_1300 by_1200 = err invalid_period
same_day_slot at_1300 by_1700 = ok pm
same_day_slot at_0830 by_1200 = ok am
same_day_slot at_0830 by_1700 = ok day

-- `boundarySlot`
unfoldable pub boundary_slot : ℕ → ℕ → StartAt → ReturnBy → Result Slot
boundary_slot start last from till =
    if not (start == last) then ok multiday else same_day_slot from till

abbrev start_of_slot : Slot → StartAt
start_of_slot pm = at_1300
start_of_slot _ = at_0830

abbrev return_of_slot : Slot → ReturnBy
return_of_slot am = by_1200
return_of_slot _ = by_1700

-- `startTime` and `returnTime`
abbrev pub start_time : Period → StartAt
start_time p = elim p.start_at [ none ↦ start_of_slot p.slot | some t ↦ t ]

abbrev pub return_time : Period → ReturnBy
return_time p = elim p.return_by [ none ↦ return_of_slot p.slot | some t ↦ t ]

-- The time of day in milliseconds.
abbrev pub start_ms : StartAt → ℕ
start_ms at_0830 = 30600000
start_ms at_1300 = 46800000

abbrev pub return_ms : ReturnBy → ℕ
return_ms by_1200 = 43200000
return_ms by_1700 = 61200000

-- An instant given as a date and a time of day in Tokyo, nine hours ahead of UTC.
abbrev pub tokyo : ℕ → ℕ → ℕ
tokyo d time = d * day_ms + time - 9 * hour_ms

-- `Array.from({length: n}, (_, i) => first + i)`
unfoldable pub dates_from : ℕ → ℕ → List ℕ
dates_from first zero = []
dates_from first (suc n) = first ∷ dates_from (first + 1) n

abbrev is_multiday : Slot → Bool
is_multiday multiday = true
is_multiday _ = false

abbrev bool_eq : Bool → Bool → Bool
bool_eq true b = b
bool_eq false b = not b

abbrev slot_eq : Slot → Slot → Bool
slot_eq am am = true
slot_eq pm pm = true
slot_eq day day = true
slot_eq multiday multiday = true
slot_eq _ _ = false

pub record Normalized : Type 0 where
  pub dates : List ℕ
  pub days : ℕ
  pub starts_at : ℕ
  pub due_at : ℕ
  pub occupancy_starts_at : ℕ
  pub occupancy_ends_at : ℕ

-- The explicit boundaries come together, and agree with the slot.
boundaries_checked : Period → Option StartAt → Option ReturnBy → Result (Unit {0})
boundaries_checked p none none = ok tt
boundaries_checked p none (some _) = err invalid_period
boundaries_checked p (some _) none = err invalid_period
boundaries_checked p (some from) (some till) = do
  slot ← boundary_slot p.start_date p.end_date from till
  refuse_if (not (slot_eq slot p.slot)) invalid_period

-- `normalizePeriod`. Where the last date comes before the first the number of days is not positive.
unfoldable pub normalize_period : Period → Result Normalized
unfolding boundaries_checked utc_date boundary_slot
normalize_period p = do
  first ← utc_date p.start_date
  last ← utc_date p.end_date
  let days = last + 1 - first
  refuse_if (ltb days 1 || ltb 10 days || not (bool_eq (is_multiday p.slot) (ltb 1 days)))
      invalid_period
  boundaries_checked p p.start_at p.return_by
  ok (record {
    dates = dates_from first days;
    days = days;
    starts_at = tokyo p.start_date (start_ms (start_time p));
    due_at = tokyo p.end_date (return_ms (return_time p));
    occupancy_starts_at = first * day_ms - 9 * hour_ms;
    occupancy_ends_at = last * day_ms + 15 * hour_ms;
  })

abbrev is_noon : ReturnBy → Bool
is_noon by_1200 = true
is_noon by_1700 = false

-- `intakeClose`
unfoldable pub intake_close : Period → ℕ
intake_close p = tokyo p.start_date (
    if p.start_date == p.end_date && is_noon (return_time p)
    then return_ms by_1200
    else return_ms by_1700)

pub record IntakeWindow : Type 0 where
  pub intake_closes_at : ℕ
  pub quote_boundary_at : ℕ

abbrev clock : Option ℕ → Result ℕ
clock none = err invalid_clock
clock (some ms) = ok ms

-- `newIntakeWindow`; the clock is `none` where `Date.getTime` gives NaN.
unfoldable pub new_intake_window : Period → Option ℕ → Result IntakeWindow
new_intake_window p now = do
  normalized ← normalize_period p
  ms ← clock now
  refuse_if (leb normalized.due_at ms) period_ended
  let today = (ms + 9 * hour_ms) / day_ms
  refuse_if (ltb p.start_date today) start_date_past
  let closes = intake_close p
  refuse_if (leb closes ms) intake_closed
  ok (record {
    intake_closes_at = closes;
    quote_boundary_at = if ltb ms normalized.starts_at then normalized.starts_at else closes;
  })
