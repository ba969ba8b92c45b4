-- ===== src/Payment/Tests.antt =====
-- Runs of the payment modules on concrete data.
use zao_rental.Common.{ℕ, ◌≡◌, refl, Bool, true, false, Option, none, some, [], ◌∷◌, arith, String}
use zao_rental.Contracts.Time.{Stamp, strict, time_of}
use zao_rental.Contracts.Flow.{PaymentStatus, PaymentRequest, PaymentObservation}
use zao_rental.Payment.Truth.{
  Context, Current, TruthDecision, accept_completed, decide_payment_truth, noop_duplicate,
  retry_delay_seconds,
}
use zao_rental.Payment.Truth.Safety.{IsAccepted, decide_payment_truth-IsAccepted}
use zao_rental.Payment.Truth.Replay.{IsSaved, decide_payment_truth-replay}
use zao_rental.Contracts.Period.{Period, Slot}
use zao_rental.Contracts.Booking.{payment_pending, square_production}
use zao_rental.Contracts.Hold.{HoldConditions, PaymentBoundary, v1_4, mountain_base}
use zao_rental.Payment.Projection.Input.{
  State, Hold, Booking, Attempt, Quote, PriceSnapshot, identity, AttemptState, HoldState,
  provisional,
}
use zao_rental.Payment.Projection.Decide.{
  decide_payment_projection, Outcome, completed, nothing, review_completed, finish, noop_stale,
  found, prior, needs_operator,
}
use zao_rental.Payment.Projection.Safety.{IsConfirmable, decide_payment_projection-IsConfirmable}
use zao_rental.Payment.Worker.{WorkerPlan, Ports, RefundRow, pending, run_normal_production_tick}
use zao_rental.Payment.Worker.Refunds.{IsBounded, run_normal_production_tick-IsBounded}
use zao_rental.Payment.Freshness.{
  TickRecord, FreshnessOptions, tick, dormant_tick, fresh, last_success, is_tick, is_success,
  age_of, evaluate_worker_freshness,
}

abbrev booking_id : String
booking_id = "00000000-0000-4000-8000-000000000001"

abbrev attempt_id : String
attempt_id = "00000000-0000-4000-8000-000000000002"

abbrev key : String
key = "00000000-0000-4000-8000-000000000003"

abbrev digest : String
digest = "0123456789abcdef0123456789abcdef0123456789abcdef0123456789abcdef"

abbrev request : PaymentRequest
request = record {
  attempt_id = attempt_id;
  booking_id = booking_id;
  idempotency_key = key;
  merchant_id = "MERCHANT";
  location_id = "LOCATION";
  amount_jpy = 5000;
  currency = "JPY";
}

abbrev paid_at : ℕ → PaymentObservation
paid_at t = record {
  provider_id = "payment-1";
  reference_id = booking_id;
  idempotency_key = key;
  merchant_id = "MERCHANT";
  location_id = "LOCATION";
  amount_jpy = 5000;
  currency = "JPY";
  status = PaymentStatus.completed;
  updated_at = strict t;
  completed_at = some (strict t);
}

abbrev paid : PaymentObservation
paid = paid_at 1800000000000

abbrev truth_hashes : zao_rental.Payment.Truth.Hashes
truth_hashes = record {
  of_observation = λ o. o.provider_id;
  of_context = λ c. "context";
  of_truth = λ a b d o. "truth";
}

abbrev unpaid_row : Context
unpaid_row = record {
  expected = request;
  current = record {
    state = zao_rental.Payment.Truth.submitting;
    provider_id = none;
    provider_state = none;
    provider_updated_at = none;
  };
  latest = none;
}

abbrev paid_row : Context
paid_row = record {
  expected = request;
  current = record {
    state = zao_rental.Payment.Truth.completed;
    provider_id = some "payment-1";
    provider_state = some PaymentStatus.completed;
    provider_updated_at = some (strict 1800000000000);
  };
  latest = some paid;
}

decide_payment_truth-IsAccepted_example :
    IsAccepted unpaid_row "payment-1" paid (some 1800000001000)
unfolding decide_payment_truth zao_rental.Payment.Truth.truth_of
    zao_rental.Payment.Truth.candidate_evidence zao_rental.Contracts.Flow.match_payment
    zao_rental.Contracts.Flow.ident zao_rental.Payment.Truth.clean
    zao_rental.Payment.Truth.latest_evidence zao_rental.Payment.Truth.judge
    zao_rental.Payment.Truth.previous_time zao_rental.Contracts.Time.iso
    zao_rental.Payment.Truth.terminal_of
decide_payment_truth-IsAccepted_example =
    decide_payment_truth-IsAccepted truth_hashes unpaid_row "payment-1" paid (some 1800000001000)
      refl

first_delivery :
    (decide_payment_truth truth_hashes unpaid_row "payment-1" paid (some 1800000001000)).observation
    ≡ some paid
unfolding decide_payment_truth zao_rental.Payment.Truth.truth_of
    zao_rental.Payment.Truth.candidate_evidence zao_rental.Contracts.Flow.match_payment
    zao_rental.Contracts.Flow.ident zao_rental.Payment.Truth.clean
    zao_rental.Payment.Truth.latest_evidence zao_rental.Payment.Truth.judge
    zao_rental.Payment.Truth.previous_time zao_rental.Contracts.Time.iso
first_delivery = refl

paid_row-IsSaved : IsSaved unpaid_row paid_row "payment-1" paid
paid_row-IsSaved = record {
  expected = refl;
  latest = refl;
  known = refl;
  updated = refl;
  consistent = refl;
}

decide_payment_truth-replay_example :
    ((decide_payment_truth truth_hashes paid_row "payment-1" paid (some 1800000009000)).decision
      ≡ noop_duplicate)
    × ((decide_payment_truth truth_hashes paid_row "payment-1" paid
          (some 1800000009000)).observation
        ≡ some paid)
decide_payment_truth-replay_example =
    decide_payment_truth-replay truth_hashes unpaid_row paid_row "payment-1" paid paid 1800000001000
      1800000009000 first_delivery paid_row-IsSaved (omega arith)

third_retry : retry_delay_seconds 3 1 2 ≡ some 40
unfolding retry_delay_seconds zao_rental.Payment.Truth.ceil_div
third_retry = refl

abbrev conditions : HoldConditions
conditions = record {
  contract_version = some v1_4;
  reservation_id = booking_id;
  pickup_store = mountain_base;
  return_store = mountain_base;
  period = record {
    start_date = 20900;
    end_date = 20901;
    slot = Slot.multiday;
    start_at = none;
    return_by = none;
  };
  members = [];
}

abbrev price : PriceSnapshot
price = record {
  charge_ready = true;
  currency = "JPY";
  total_jpy = 5000;
  advance_discount_jpy = some 500;
  conditions = conditions;
  rest = "";
}

abbrev booking : Booking
booking = record {
  id = booking_id;
  owner_id = "guest";
  hold_id = "hold";
  quote_id = "quote";
  mode = square_production;
  state = payment_pending;
  confirmed_at = none;
  version = 1;
  conditions = conditions;
  price_snapshot = price;
  price_hash = digest;
}

abbrev attempt : AttemptState → Attempt
attempt a = record {
  expected = request;
  actor = "guest";
  state = a;
  provider_id = some "payment-1";
  provider_state = none;
  provider_updated_at = none;
  completed_at = none;
}

abbrev live_hold : Hold
live_hold = record {
  id = "hold";
  owner_id = "guest";
  reservation_id = booking_id;
  state = HoldState.active;
  payment_state = PaymentBoundary.unknown;
  allocation_stage = provisional;
  transfer_attention = false;
  expires_at = strict 1800000600000;
  due_at = strict 1805875200000;
  confirmed_at = none;
  version = 1;
  conditions = conditions;
}

abbrev quote : Quote
quote = record {
  id = "quote";
  actor = "guest";
  hold_id = some "hold";
  conditions = conditions;
  snapshot = price;
  snapshot_hash = digest;
  coupon_id = none;
  commercial_price_valid = true;
}

-- The booking awaits payment; `gear` says whether its claims on gear are in place, and `previous` is
-- the observation that was saved last.
abbrev awaiting : AttemptState → Bool → Option PaymentObservation → State
awaiting a gear previous = record {
  booking = booking;
  attempt = attempt a;
  hold = some live_hold;
  quote = some quote;
  gear_claims_intact = gear;
  wear_claims_intact = true;
  forbidden_transfer = false;
  unready_transfer_at = none;
  revision = 1;
  previous = previous;
}

abbrev hashes : zao_rental.Payment.Projection.Input.Hashes
hashes = record {
  of_observation = λ o. o.provider_id;
  of_nothing = "";
  of_conditions = λ c. c.reservation_id;
  of_snapshot = λ x. digest;
}

abbrev now : Option ℕ
now = some 1800000001000

paid_confirms :
    (decide_payment_projection hashes (awaiting AttemptState.unknown true none) paid now).mutation
    ≡ completed
unfolding decide_payment_projection identity zao_rental.Payment.Projection.Input.normalized
    zao_rental.Contracts.Flow.ident zao_rental.Payment.Truth.clean zao_rental.Contracts.Flow.flow_id
    zao_rental.Contracts.Booking.booking_state_valid zao_rental.Contracts.Flow.match_payment
    zao_rental.Contracts.Time.iso prior zao_rental.Payment.Projection.Decide.against_previous
    zao_rental.Payment.Projection.Decide.fresh_outcome
    zao_rental.Payment.Projection.Decide.cancelled_outcome
    zao_rental.Payment.Projection.Decide.known_outcome
    zao_rental.Payment.Projection.Decide.open_outcome zao_rental.Payment.Projection.Decide.owns
    zao_rental.Payment.Projection.Decide.hold_outcome
    zao_rental.Payment.Projection.Decide.completed_outcome
    zao_rental.Payment.Projection.Decide.is_live zao_rental.Payment.Projection.Input.price_intact
    zao_rental.Payment.Projection.Input.charge_intact
    zao_rental.Payment.Projection.Input.discount_intact
    zao_rental.Payment.Projection.Input.hashes_intact
    zao_rental.Payment.Projection.Input.quote_intact
    zao_rental.Payment.Projection.Input.terms_intact zao_rental.Contracts.Booking.booking_completed
    zao_rental.Contracts.Booking.booking_confirmed zao_rental.Contracts.Flow.is_digest
    zao_rental.Contracts.Hold.parse_conditions zao_rental.Contracts.Period.normalize_period
    zao_rental.Contracts.Period.boundary_slot zao_rental.Contracts.Period.dates_from
    zao_rental.Contracts.Period.utc_date
paid_confirms = refl

decide_payment_projection-IsConfirmable_example :
    (accepted : PaymentObservation) × (identity (awaiting AttemptState.unknown true none) paid now
      ≡ some accepted)
    × ((d : Hold) × IsConfirmable hashes (awaiting AttemptState.unknown true none) now accepted d)
decide_payment_projection-IsConfirmable_example =
    decide_payment_projection-IsConfirmable hashes (awaiting AttemptState.unknown true none) paid
      now paid_confirms

abbrev saved_paid : State
saved_paid = awaiting AttemptState.unknown true (some paid)

older_identity : identity saved_paid (paid_at 1799999990000) now ≡ some (paid_at 1799999990000)
unfolding identity zao_rental.Payment.Projection.Input.normalized zao_rental.Contracts.Flow.ident
    zao_rental.Payment.Truth.clean zao_rental.Contracts.Flow.flow_id
    zao_rental.Contracts.Booking.booking_state_valid zao_rental.Contracts.Flow.match_payment
    zao_rental.Contracts.Time.iso
older_identity = refl

older_prior : prior hashes saved_paid (paid_at 1799999990000) now ≡ found (some paid)
unfolding prior zao_rental.Payment.Projection.Input.normalized zao_rental.Contracts.Flow.ident
    zao_rental.Payment.Truth.clean zao_rental.Contracts.Flow.match_payment
    zao_rental.Contracts.Time.iso
older_prior = refl

same_identity : identity saved_paid paid now ≡ some paid
unfolding identity zao_rental.Payment.Projection.Input.normalized zao_rental.Contracts.Flow.ident
    zao_rental.Payment.Truth.clean zao_rental.Contracts.Flow.flow_id
    zao_rental.Contracts.Booking.booking_state_valid zao_rental.Contracts.Flow.match_payment
    zao_rental.Contracts.Time.iso
same_identity = refl

same_prior : prior hashes saved_paid paid now ≡ found (some paid)
unfolding prior zao_rental.Payment.Projection.Input.normalized zao_rental.Contracts.Flow.ident
    zao_rental.Payment.Truth.clean zao_rental.Contracts.Flow.match_payment
    zao_rental.Contracts.Time.iso
same_prior = refl

drift_alerts :
    needs_operator
      (decide_payment_projection hashes
        (awaiting AttemptState.unknown false none)
        paid
        now).decision
    ≡ true
unfolding decide_payment_projection identity zao_rental.Payment.Projection.Input.normalized
    zao_rental.Contracts.Flow.ident zao_rental.Payment.Truth.clean zao_rental.Contracts.Flow.flow_id
    zao_rental.Contracts.Booking.booking_state_valid zao_rental.Contracts.Flow.match_payment
    zao_rental.Contracts.Time.iso prior zao_rental.Payment.Projection.Decide.against_previous
    zao_rental.Payment.Projection.Decide.fresh_outcome
    zao_rental.Payment.Projection.Decide.cancelled_outcome
    zao_rental.Payment.Projection.Decide.known_outcome
    zao_rental.Payment.Projection.Decide.open_outcome zao_rental.Payment.Projection.Decide.owns
    zao_rental.Payment.Projection.Decide.hold_outcome
    zao_rental.Payment.Projection.Decide.completed_outcome
    zao_rental.Payment.Projection.Decide.is_live zao_rental.Payment.Projection.Input.price_intact
    zao_rental.Payment.Projection.Input.charge_intact
    zao_rental.Payment.Projection.Input.discount_intact
    zao_rental.Payment.Projection.Input.hashes_intact
    zao_rental.Payment.Projection.Input.quote_intact
    zao_rental.Payment.Projection.Input.terms_intact zao_rental.Contracts.Booking.booking_completed
    zao_rental.Contracts.Booking.booking_confirmed zao_rental.Contracts.Flow.is_digest
    zao_rental.Contracts.Hold.parse_conditions zao_rental.Contracts.Period.normalize_period
    zao_rental.Contracts.Period.boundary_slot zao_rental.Contracts.Period.dates_from
    zao_rental.Contracts.Period.utc_date
drift_alerts = refl

abbrev worker_plan : WorkerPlan
worker_plan = record {
  worker_id = "normal-tick-202701150800";
  accepted_bookings_after = some 1791018879000;
  deadline = some 1800000050000;
  batch_size = 20;
  notification_limit = 0;
  refund_create_limit = 1;
  refund_budget_jpy = 100000000;
}

abbrev refund : ℕ → RefundRow
refund n = record {
  id = n;
  amount_jpy = 3000;
  provider_id = none;
  dispatched = false;
  state = pending;
}

abbrev ports : Ports
ports = record {
  now = 1800000000000;
  clock = λ k. true;
  reconciliation = some false;
  candidates = some [];
  has_refunds = true;
  refund_rows = some (refund 1 ∷ refund 2 ∷ []);
  call_throws = λ c. false;
  notifications_throw = false;
}

one_refund : (run_normal_production_tick worker_plan ports).refunds.creates ≡ 1
unfolding run_normal_production_tick zao_rental.Payment.Worker.normal_worker_plan
    zao_rental.Contracts.Flow.ident zao_rental.Payment.Worker.project_loop
    zao_rental.Payment.Worker.refund_loop zao_rental.Payment.Worker.refund_step
one_refund = refl

run_normal_production_tick-IsBounded_example :
    IsBounded worker_plan (run_normal_production_tick worker_plan ports).refunds
run_normal_production_tick-IsBounded_example =
    run_normal_production_tick-IsBounded worker_plan ports

abbrev finished : TickRecord
finished = record {
  time = 1800000000000;
  event = tick;
  state = some zao_rental.Payment.Freshness.completed;
  pending_payments = some 2;
  oldest_pending_age_seconds = some 30;
}

abbrev dormant : TickRecord
dormant = record {
  time = 1800000001000;
  event = dormant_tick;
  state = none;
  pending_payments = none;
  oldest_pending_age_seconds = none;
}

abbrev options : FreshnessOptions
options = record {
  now = 1800000060000;
  expected_active = true;
  max_success_age_seconds = 900;
  max_backlog_age_seconds = 1800;
  consecutive_failure_limit = 3;
}

finished_fresh : (evaluate_worker_freshness (finished ∷ []) options).status ≡ fresh
unfolding evaluate_worker_freshness zao_rental.Payment.Freshness.reasons_of
finished_fresh = refl
