-- ===== src/Payment/Projection/Input.antt =====
-- The facts that a decision reads, and the check of an observation against them.
use zao_rental.Common.{
  ℕ, ◌-◌, ◌*◌, Bool, true, false, not, ◌&&◌, ◌||◌, Option, none, some, String, str_eq, ltb, leb,
  ◌==◌,
}
use zao_rental.Contracts.Time.{Stamp, time_of, is_strict, later, is_finite}
use zao_rental.Contracts.Booking.{Mode, BookingState, booking_state_valid, square_production}
use zao_rental.Contracts.Period.{Period, ok, err, normalize_period, is_date, day_ms, hour_ms}
use zao_rental.Contracts.Hold.{HoldConditions, PaymentBoundary, parse_conditions}
use zao_rental.Contracts.Flow.{
  PaymentStatus, PaymentRequest, PaymentObservation, match_payment, is_completed, is_known, present,
  time_of?, ident, is_safe, is_digest, flow_id,
}
use zao_rental.Payment.Truth.{clean, when}

pub data AttemptState : Type 0 where
  submitting unknown pending completed failed review other : AttemptState

pub data HoldState : Type 0 where
  active expired released : HoldState

-- `advanced` is any stage after the provisional one.
pub data AllocationStage : Type 0 where
  provisional advanced : AllocationStage

-- The fields of a price snapshot that are read; `rest` is the remainder of the JSON object. A
-- discount that is no natural number is `none`.
pub record PriceSnapshot : Type 0 where
  pub charge_ready : Bool
  pub currency : String
  pub total_jpy : ℕ
  pub advance_discount_jpy : Option ℕ
  pub conditions : HoldConditions
  pub rest : String

pub record Booking : Type 0 where
  pub id : String
  pub owner_id : String
  pub hold_id : String
  pub quote_id : String
  pub mode : Mode
  pub state : BookingState
  pub confirmed_at : Option Stamp
  pub version : ℕ
  pub conditions : HoldConditions
  pub price_snapshot : PriceSnapshot
  pub price_hash : String

pub record Attempt : Type 0 where
  pub expected : PaymentRequest
  pub actor : String
  pub state : AttemptState
  pub provider_id : Option String
  pub provider_state : Option PaymentStatus
  pub provider_updated_at : Option Stamp
  pub completed_at : Option Stamp

pub record Hold : Type 0 where
  pub id : String
  pub owner_id : String
  pub reservation_id : String
  pub state : HoldState
  pub payment_state : PaymentBoundary
  pub allocation_stage : AllocationStage
  pub transfer_attention : Bool
  pub expires_at : Stamp
  pub due_at : Stamp
  pub confirmed_at : Option Stamp
  pub version : ℕ
  pub conditions : HoldConditions

pub record Quote : Type 0 where
  pub id : String
  pub actor : String
  pub hold_id : Option String
  pub conditions : HoldConditions
  pub snapshot : PriceSnapshot
  pub snapshot_hash : String
  pub coupon_id : Option String
  pub commercial_price_valid : Bool

pub record State : Type 0 where
  pub booking : Booking
  pub attempt : Attempt
  pub hold : Option Hold
  pub quote : Option Quote
  pub gear_claims_intact : Bool
  pub wear_claims_intact : Bool
  pub forbidden_transfer : Bool
  pub unready_transfer_at : Option Stamp
  pub revision : ℕ
  pub previous : Option PaymentObservation

-- The two instants are numbers and the first is not after the second.
abbrev pub reached : Option ℕ → Option ℕ → Bool
reached (some a) (some b) = leb a b
reached _ _ = false

abbrev pub bool_eq : Bool → Bool → Bool
bool_eq true b = b
bool_eq false b = not b

abbrev pub strict_or_absent : Option Stamp → Bool
strict_or_absent none = true
strict_or_absent (some s) = is_strict s

-- `normalized`; `none` is an exception.
unfoldable pub normalized : PaymentObservation → Option ℕ → Option PaymentObservation
normalized o now =
    when
      (ident o.provider_id
        && ident o.reference_id
        && ident o.idempotency_key
        && ident o.merchant_id
        && ident o.location_id
        && str_eq o.currency "JPY"
        && is_safe o.amount_jpy
        && leb 1 o.amount_jpy
        && leb o.amount_jpy 100000000
        && is_known o.status
        && is_strict o.updated_at
        && strict_or_absent o.completed_at
        && not (later (time_of o.updated_at) now)
        && bool_eq (is_completed o.status) (present o.completed_at)
        && not (later (time_of? o.completed_at) (time_of o.updated_at)))
      (clean o)

abbrev is_provider : Option String → PaymentObservation → Bool
is_provider none o = true
is_provider (some p) o = str_eq p o.provider_id

-- The first `try` of `decidePaymentProjection`; `none` is an exception.
unfoldable pub identity : State → PaymentObservation → Option ℕ → Option PaymentObservation
identity s o now = elim (when (is_finite now) (normalized o now)) [
  | none ↦ none
  | some accepted ↦
      when
        (flow_id s.booking.id
          && flow_id s.attempt.expected.attempt_id
          && flow_id s.attempt.expected.idempotency_key
          && is_safe s.revision
          && is_safe s.booking.version
          && leb 1 s.booking.version
          && str_eq s.booking.id s.attempt.expected.booking_id
          && str_eq s.attempt.actor s.booking.owner_id
          && is_provider s.attempt.provider_id accepted
          && booking_state_valid s.booking.mode s.booking.state
          && match_payment s.attempt.expected accepted)
        (some accepted)
]

pub record Hashes : Type 0 where
  pub of_observation : PaymentObservation → String
  pub of_nothing : String
  pub of_conditions : HoldConditions → String
  pub of_snapshot : PriceSnapshot → String

-- `advanceQualification(...) === 'QUALIFIED'`: paid by 15:00 in Tokyo on the day before the start,
-- eighteen hours before the start date begins in UTC.
abbrev is_qualified : ℕ → Option ℕ → Bool
is_qualified start none = false
is_qualified start (some t) = leb t (start * day_ms - 18 * hour_ms)

abbrev is_some_text : Option String → String → Bool
is_some_text none t = false
is_some_text (some s) t = str_eq s t

abbrev is_absent : Option String → Bool
is_absent none = true
is_absent (some _) = false

abbrev pub is_production : Mode → Bool
is_production square_production = true
is_production _ = false

abbrev parses : HoldConditions → Bool
parses c = elim (parse_conditions c) [ ok _ ↦ true | err _ ↦ false ]

abbrev due_of : Period → Option ℕ
due_of p = elim (normalize_period p) [ ok n ↦ some n.due_at | err _ ↦ none ]

abbrev same_time : Option ℕ → Option ℕ → Bool
same_time (some a) (some b) = a == b
same_time _ _ = false

module _ (h : Hashes) where
  abbrev same_conditions : HoldConditions → HoldConditions → Bool
  same_conditions a b = str_eq (h.of_conditions a) (h.of_conditions b)

  -- The booking and its hold agree on the conditions.
  unfoldable pub terms_intact : Booking → Hold → Bool
  terms_intact b d =
      parses b.conditions
      && parses d.conditions
      && str_eq b.conditions.reservation_id b.id
      && same_conditions b.conditions d.conditions
      && same_time (time_of d.due_at) (due_of d.conditions.period)

  -- The quote is the one of the booking and its hold, with no coupon.
  unfoldable pub quote_intact : Booking → Hold → Quote → Bool
  quote_intact b d q =
      str_eq q.id b.quote_id
      && is_some_text q.hold_id d.id
      && str_eq q.actor b.owner_id
      && same_conditions q.conditions b.conditions
      && is_absent q.coupon_id

  -- The price was saved once and never changed.
  unfoldable pub hashes_intact : Booking → Quote → Bool
  hashes_intact b q =
      is_digest b.price_hash
      && str_eq (h.of_snapshot b.price_snapshot) b.price_hash
      && str_eq q.snapshot_hash b.price_hash
      && str_eq (h.of_snapshot q.snapshot) q.snapshot_hash
      && same_conditions q.snapshot.conditions b.conditions

  unfoldable pub charge_intact : Booking → Quote → Attempt → Bool
  charge_intact b q a =
      bool_eq b.price_snapshot.charge_ready (is_production b.mode)
      && (not (is_production b.mode) || q.commercial_price_valid)
      && str_eq b.price_snapshot.currency "JPY"
      && b.price_snapshot.total_jpy == a.expected.amount_jpy

  -- An advance discount needs a payment completed in time.
  unfoldable pub discount_intact : Booking → Attempt → PaymentObservation → Option ℕ → Bool
  discount_intact b a o none = false
  discount_intact b a o (some discount) =
      is_safe discount
      && leb discount a.expected.amount_jpy
      && (not (is_completed o.status && ltb 0 discount)
          || (is_date b.conditions.period.start_date
              && is_qualified b.conditions.period.start_date (time_of? o.completed_at)))

  abbrev intact_with : State → PaymentObservation → Option Hold → Option Quote → Bool
  intact_with s o none q = false
  intact_with s o (some d) none = false
  intact_with s o (some d) (some q) =
      terms_intact s.booking d
      && quote_intact s.booking d q
      && hashes_intact s.booking q
      && charge_intact s.booking q s.attempt
      && discount_intact s.booking s.attempt o s.booking.price_snapshot.advance_discount_jpy

  -- `projectionPriceIntact`
  unfoldable pub price_intact : State → PaymentObservation → Bool
  price_intact s o = intact_with s o s.hold s.quote
