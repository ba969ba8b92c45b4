-- ===== src/Payment/Projection/Decide.antt =====
-- `decidePaymentProjection`: the branches in the order of the source, one function for each group.
use zao_rental.Common.{
  ℕ, Bool, true, false, not, ◌&&◌, ◌||◌, Option, none, some, str_eq, ◌==◌, if◌then◌else◌,
}
use zao_rental.Contracts.Time.{Stamp, time_of, later, is_finite}
use zao_rental.Contracts.Booking.{
  BookingState, booking_confirmed, booking_completed, cancelled, payment_pending, payment_review,
}
use zao_rental.Contracts.Hold.{PaymentBoundary}
use zao_rental.Contracts.Flow.{
  PaymentStatus, PaymentObservation, match_payment, is_completed, is_pending, is_failed, is_closed,
  present,
}
use zao_rental.Payment.Projection.Input.{
  State, Booking, Attempt, Hold, Quote, AttemptState, HoldState, AllocationStage, provisional,
  Hashes, normalized, identity, reached, price_intact, is_production,
}

pub data Decision : Type 0 where
  noop_duplicate noop_stale noop_terminal keep_pending : Decision
  apply_completed apply_failed apply_canceled : Decision
  block_expired_hold block_inventory_drift block_transfer_attention block_price_integrity : Decision
  block_identity_mismatch block_invalid_transition block_conflict block_source : Decision
  requires_operator_reconciliation : Decision

pub data Mutation : Type 0 where
  nothing pending completed failed failed_cancelled review_completed cancelled_payment : Mutation

pub record Outcome : Type 0 where
  pub decision : Decision
  pub mutation : Mutation
  pub observation : Option PaymentObservation

abbrev pub finish : PaymentObservation → Decision → Mutation → Outcome
finish o d m = record { decision = d; mutation = m; observation = some o }

abbrev pub mismatch : Outcome
mismatch = record { decision = block_identity_mismatch; mutation = nothing; observation = none }

-- `decision.startsWith('BLOCK_') || decision === 'REQUIRES_OPERATOR_RECONCILIATION'`
abbrev pub needs_operator : Decision → Bool
needs_operator block_expired_hold = true
needs_operator block_inventory_drift = true
needs_operator block_transfer_attention = true
needs_operator block_price_integrity = true
needs_operator block_identity_mismatch = true
needs_operator block_invalid_transition = true
needs_operator block_conflict = true
needs_operator block_source = true
needs_operator requires_operator_reconciliation = true
needs_operator _ = false

-- The last observation known: refused, in conflict with the row, or found.
pub data Prior : Type 0 where
  refused conflict : Prior
  found : Option PaymentObservation → Prior

abbrev pub time_equal : Option ℕ → Option ℕ → Bool
time_equal (some a) (some b) = a == b
time_equal _ _ = false

module _ (h : Hashes) where
  abbrev pub same_observation : PaymentObservation → PaymentObservation → Bool
  same_observation a b = str_eq (h.of_observation a) (h.of_observation b)

  -- The saved observation is checked again and belongs to the same payment.
  abbrev checked_previous :
      State → PaymentObservation → Option ℕ → Option PaymentObservation → Prior
  checked_previous s o now none = found none
  checked_previous s o now (some p) = elim (normalized p now) [
    | none ↦ refused
    | some n ↦
        if match_payment s.attempt.expected n && str_eq n.provider_id o.provider_id
        then found (some n)
        else refused
  ]

  -- The newer of the saved observation and the one that the attempt's row holds.
  abbrev newer : PaymentObservation → Option PaymentObservation → Prior
  newer row none = found (some row)
  newer row (some p) =
      if later (time_of row.updated_at) (time_of p.updated_at)
      then found (some row)
      else if time_equal (time_of row.updated_at) (time_of p.updated_at)
          && not (same_observation row p)
      then conflict
      else found (some p)

  -- The observation that the row of the attempt stands for; `none` is an exception.
  abbrev row_observation :
      Attempt
      → PaymentObservation
      → Option ℕ
      → Stamp
      → Option PaymentStatus
      → Option PaymentObservation
  row_observation a o now at none = none
  row_observation a o now at (some status) =
      normalized (record o { status = status; updated_at = at; completed_at = a.completed_at }) now

  abbrev with_row : State → PaymentObservation → Option ℕ → Option Stamp → Prior → Prior
  with_row s o now none p = p
  with_row s o now (some at) refused = refused
  with_row s o now (some at) conflict = conflict
  with_row s o now (some at) (found p) =
      elim (row_observation s.attempt o now at s.attempt.provider_state) [
        | none ↦ refused
        | some row ↦ newer row p
      ]

  unfoldable pub prior : State → PaymentObservation → Option ℕ → Prior
  prior s o now =
      with_row s o now s.attempt.provider_updated_at (checked_previous s o now s.previous)

  abbrev pub is_review : AttemptState → Bool
  is_review AttemptState.review = true
  is_review _ = false

  -- The comparison with the last observation; `none` goes on.
  unfoldable pub against_previous :
      State → PaymentObservation → Option PaymentObservation → Option Outcome
  against_previous s o none = none
  against_previous s o (some p) =
      if later (time_of p.updated_at) (time_of o.updated_at)
      then some (finish o noop_stale nothing)
      else if not (time_equal (time_of o.updated_at) (time_of p.updated_at))
      then none
      else if not (same_observation o p)
      then some (finish o block_conflict nothing)
      else if is_review s.attempt.state && is_completed o.status
      then some (finish o requires_operator_reconciliation nothing)
      else some (finish o noop_duplicate nothing)

  abbrev pub is_cancelled : BookingState → Bool
  is_cancelled cancelled = true
  is_cancelled _ = false

  abbrev pub is_attempt_completed : AttemptState → Bool
  is_attempt_completed AttemptState.completed = true
  is_attempt_completed _ = false

  abbrev pub is_attempt_failed : AttemptState → Bool
  is_attempt_failed AttemptState.failed = true
  is_attempt_failed _ = false

  -- `['SUBMITTING', 'UNKNOWN', 'PENDING', 'REVIEW'].includes(state)`
  abbrev pub is_attempt_open : AttemptState → Bool
  is_attempt_open AttemptState.submitting = true
  is_attempt_open AttemptState.unknown = true
  is_attempt_open AttemptState.pending = true
  is_attempt_open AttemptState.review = true
  is_attempt_open _ = false

  -- `['PAYMENT_PENDING', 'PAYMENT_REVIEW'].includes(state)`
  abbrev pub is_awaiting : BookingState → Bool
  is_awaiting payment_pending = true
  is_awaiting payment_review = true
  is_awaiting _ = false

  -- The decision that an observation's own status asks for.
  abbrev pub by_status : PaymentStatus → Decision
  by_status PaymentStatus.completed = apply_completed
  by_status PaymentStatus.pending = keep_pending
  by_status PaymentStatus.failed = apply_failed
  by_status _ = apply_canceled

  abbrev cancelled_price : State → Option Quote → Bool
  cancelled_price s none = false
  cancelled_price s (some q) =
      str_eq q.id s.booking.quote_id
      && str_eq q.snapshot_hash s.booking.price_hash
      && str_eq (h.of_snapshot s.booking.price_snapshot) s.booking.price_hash
      && str_eq (h.of_snapshot q.snapshot) s.booking.price_hash
      && s.booking.price_snapshot.total_jpy == s.attempt.expected.amount_jpy
      && str_eq s.booking.price_snapshot.currency "JPY"
      && (not (is_production s.booking.mode)
          || (s.booking.price_snapshot.charge_ready && q.commercial_price_valid))

  -- A payment that is still open on a cancelled booking.
  unfoldable pub cancelled_outcome : State → PaymentObservation → Option Outcome
  cancelled_outcome s o =
      if is_cancelled s.booking.state
        && not (is_attempt_completed s.attempt.state)
        && not (is_closed s.attempt.provider_state)
      then (if cancelled_price s s.quote
          then some (finish o (by_status o.status) cancelled_payment)
          else some (finish o block_price_integrity nothing))
      else none

  abbrev pub is_active : HoldState → Bool
  is_active HoldState.active = true
  is_active _ = false

  abbrev pub is_provisional : AllocationStage → Bool
  is_provisional provisional = true
  is_provisional _ = false

  -- `['PENDING', 'UNKNOWN'].includes(paymentState)`
  abbrev pub is_payment_open : PaymentBoundary → Bool
  is_payment_open PaymentBoundary.pending = true
  is_payment_open PaymentBoundary.unknown = true
  is_payment_open _ = false

  unfoldable pub owns : Booking → Hold → Bool
  owns b d = str_eq d.id b.hold_id && str_eq d.owner_id b.owner_id && str_eq d.reservation_id b.id

  unfoldable pub is_live : Hold → Bool
  is_live d =
      is_active d.state
      && not (present d.confirmed_at)
      && is_provisional d.allocation_stage
      && is_payment_open d.payment_state

  -- Both instants are numbers and one of them has come.
  unfoldable pub has_lapsed : Hold → Option ℕ → Bool
  has_lapsed d now =
      is_finite (time_of d.expires_at)
      && is_finite (time_of d.due_at)
      && (reached (time_of d.expires_at) now || reached (time_of d.due_at) now)

  abbrev is_provider_completed : Option PaymentStatus → Bool
  is_provider_completed none = false
  is_provider_completed (some st) = is_completed st

  abbrev pub is_lost : State → PaymentObservation → Option ℕ → Option Hold → Bool
  is_lost s o now none = false
  is_lost s o now (some d) =
      is_production s.booking.mode
      && is_awaiting s.booking.state
      && not (present s.booking.confirmed_at)
      && is_attempt_open s.attempt.state
      && not (present s.attempt.completed_at)
      && not (is_provider_completed s.attempt.provider_state)
      && is_closed (some o.status)
      && owns s.booking d
      && is_live d
      && has_lapsed d now

  -- The checkout's response was lost: the attempt has no provider id.
  unfoldable pub lost_outcome : State → PaymentObservation → Option ℕ → Outcome
  lost_outcome s o now =
      if is_lost s o now s.hold
      then (if price_intact h s o
          then finish o (if is_failed o.status then apply_failed else apply_canceled)
              failed_cancelled
          else finish o block_price_integrity nothing)
      else mismatch

  abbrev block : PaymentObservation → Decision → Outcome
  block o d = finish o d (if is_completed o.status then review_completed else nothing)

  abbrev pub transfer_late : Option Stamp → Option ℕ → Bool
  transfer_late none now = false
  transfer_late (some at) now = later now (time_of at)

  -- A completed payment on a live hold.
  unfoldable pub completed_outcome : State → PaymentObservation → Option ℕ → Hold → Outcome
  completed_outcome s o now d =
      if not (is_finite (time_of d.expires_at) && is_finite (time_of d.due_at))
        || reached (time_of d.expires_at) now
        || reached (time_of d.due_at) now
      then block o block_expired_hold
      else if d.transfer_attention
          || s.forbidden_transfer
          || transfer_late s.unready_transfer_at now
      then block o block_transfer_attention
      else if not (s.gear_claims_intact && s.wear_claims_intact)
      then block o block_inventory_drift
      else finish o apply_completed completed

  unfoldable pub hold_outcome : State → PaymentObservation → Option ℕ → Hold → Outcome
  hold_outcome s o now d =
      if not (price_intact h s o)
      then block o block_price_integrity
      else if not (is_live d)
      then block o block_invalid_transition
      else if is_completed o.status
      then completed_outcome s o now d
      else if is_pending o.status
      then finish o keep_pending pending
      else finish o (if is_failed o.status then apply_failed else apply_canceled) failed

  unfoldable pub open_outcome : State → PaymentObservation → Option ℕ → Option Hold → Outcome
  open_outcome s o now none = finish o block_invalid_transition nothing
  open_outcome s o now (some d) =
      if is_attempt_open s.attempt.state && is_awaiting s.booking.state && owns s.booking d
      then hold_outcome s o now d
      else finish o block_invalid_transition nothing

  -- The attempt is known to the provider.
  unfoldable pub known_outcome : State → PaymentObservation → Option ℕ → Outcome
  known_outcome s o now =
      if is_attempt_completed s.attempt.state
        || present s.booking.confirmed_at
        || booking_confirmed s.booking.mode s.booking.state
        || booking_completed s.booking.mode s.booking.state
      then finish o noop_terminal nothing
      else if is_closed s.attempt.provider_state || is_attempt_failed s.attempt.state
      then finish o (if is_completed o.status then block_invalid_transition else noop_terminal)
          nothing
      else open_outcome s o now s.hold

  abbrev pub or_else : Option Outcome → Outcome → Outcome
  or_else none y = y
  or_else (some x) y = x

  unfoldable pub fresh_outcome : State → PaymentObservation → Option ℕ → Outcome
  fresh_outcome s o now =
      or_else (cancelled_outcome s o) (elim s.attempt.provider_id [
        | none ↦ lost_outcome s o now
        | some _ ↦ known_outcome s o now
      ])

  abbrev pub prior_outcome : State → PaymentObservation → Option ℕ → Prior → Outcome
  prior_outcome s o now refused = mismatch
  prior_outcome s o now conflict = finish o block_conflict nothing
  prior_outcome s o now (found p) = or_else (against_previous s o p) (fresh_outcome s o now)

  -- `decidePaymentProjection`, less the fingerprints.
  unfoldable pub decide_payment_projection : State → PaymentObservation → Option ℕ → Outcome
  decide_payment_projection s o now = elim (identity s o now) [
    | none ↦ mismatch
    | some accepted ↦ prior_outcome s accepted now (prior s accepted now)
  ]
