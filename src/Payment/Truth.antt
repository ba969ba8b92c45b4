-- ===== src/Payment/Truth.antt =====
-- What a provider observation proves about a payment: packages/core/src/payment/payment-truth.ts.
-- SHA-256 over canonical JSON (`flowHash`) is a parameter, one function for each type hashed.
pub mod Safety
pub mod Replay
use zao_rental.Common.{
  ℕ, suc, ◌+◌, ◌-◌, ◌*◌, ◌/◌, ◌^◌, min, Bool, true, false, ◌&&◌, ◌||◌, not, Option, none, some,
  String, str_eq, ltb, leb, if◌then◌else◌, max, ◌==◌,
}
use zao_rental.Contracts.Time.{Stamp, time_of, iso, later, is_finite}
use zao_rental.Contracts.Flow.{
  PaymentStatus, PaymentRequest, PaymentObservation, match_payment, is_completed, is_closed,
  is_pending, present, time_of?,
}

pub data KnowledgeState : Type 0 where
  submitting unknown pending completed failed review : KnowledgeState

pub record Current : Type 0 where
  pub state : KnowledgeState
  pub provider_id : Option String
  pub provider_state : Option PaymentStatus
  pub provider_updated_at : Option Stamp

pub record Context : Type 0 where
  pub expected : PaymentRequest
  pub current : Current
  pub latest : Option PaymentObservation

pub data TruthDecision : Type 0 where
  accept_pending accept_completed accept_failed accept_canceled : TruthDecision
  noop_duplicate noop_stale noop_terminal : TruthDecision
  blocked_evidence_mismatch blocked_invalid_transition : TruthDecision

pub record TruthResult : Type 0 where
  pub decision : TruthDecision
  pub fingerprint : String
  pub context_fingerprint : String
  pub observation : Option PaymentObservation

pub record Hashes : Type 0 where
  pub of_observation : PaymentObservation → String
  pub of_context : Context → String
  pub of_truth : String → String → TruthDecision → Option PaymentObservation → String

-- `new Date(value).toISOString()` of an optional text; the outer `none` is its RangeError.
abbrev clean_completed : Option Stamp → Option (Option Stamp)
clean_completed none = some none
clean_completed (some s) = elim (time_of s) [ none ↦ none | some t ↦ some (some (iso t)) ]

abbrev clean_times :
    PaymentObservation → Option ℕ → Option (Option Stamp) → Option PaymentObservation
clean_times o none c = none
clean_times o (some t) none = none
clean_times o (some t) (some c) = some (record o { updated_at = iso t; completed_at = c })

-- `cleanObservation`; `none` is an exception.
unfoldable pub clean : PaymentObservation → Option PaymentObservation
clean o = clean_times o (time_of o.updated_at) (clean_completed o.completed_at)

abbrev pub when {ℓ} : {A : Type ℓ} → Bool → Option A → Option A
when true x = x
when false x = none

-- The provider id of the row, where it has one, is that of the payment looked up.
abbrev pub known_as : Option String → String → Bool
known_as none payment = true
known_as (some p) payment = str_eq p "" || str_eq p payment

-- The checks on the candidate inside `try`; `none` is an exception.
unfoldable pub candidate_evidence :
    Context → String → PaymentObservation → Option ℕ → Option PaymentObservation
candidate_evidence context payment input now =
    when
      (match_payment context.expected input
        && str_eq context.expected.currency "JPY"
        && leb 1 context.expected.amount_jpy
        && is_finite now
        && str_eq input.provider_id payment
        && known_as context.current.provider_id payment
        && (is_completed input.status || not (present input.completed_at))
        && not (later (time_of input.updated_at) now)
        && not (later (time_of? input.completed_at) (time_of input.updated_at)))
      (clean input)

-- The same for the observation that was saved last.
unfoldable pub latest_evidence :
    Context → String → Option ℕ → Option PaymentObservation → Option (Option PaymentObservation)
latest_evidence context payment now none = some none
latest_evidence context payment now (some l) =
    when
      (match_payment context.expected l
        && str_eq l.provider_id payment
        && not (later (time_of l.updated_at) now)
        && (is_completed l.status || not (present l.completed_at)))
      (elim (clean l) [ none ↦ none | some c ↦ some (some c) ])

-- A number of JavaScript that may be -Infinity or NaN.
pub data Bound : Type 0 where
  nan unbounded : Bound
  since : ℕ → Bound

abbrev pub bound_of : Option Stamp → Bound
bound_of none = unbounded
bound_of (some s) = elim (time_of s) [ none ↦ nan | some t ↦ since t ]

-- `Math.max`
abbrev pub max_bound : Bound → Bound → Bound
max_bound nan b = nan
max_bound unbounded b = b
max_bound (since s) nan = nan
max_bound (since s) unbounded = since s
max_bound (since s) (since t) = since (max s t)

abbrev pub is_before : Option ℕ → Bound → Bool
is_before (some t) (since s) = ltb t s
is_before _ _ = false

abbrev pub is_nan : Bound → Bool
is_nan nan = true
is_nan _ = false

abbrev pub updated_of : Option PaymentObservation → Option Stamp
updated_of none = none
updated_of (some o) = some o.updated_at

unfoldable pub previous_time : Context → Option PaymentObservation → Bound
previous_time context latest =
    max_bound (bound_of (updated_of latest)) (bound_of context.current.provider_updated_at)

abbrev pub is_state_completed : KnowledgeState → Bool
is_state_completed completed = true
is_state_completed _ = false

abbrev pub is_state_failed : KnowledgeState → Bool
is_state_failed failed = true
is_state_failed _ = false

abbrev latest_terminal : Option PaymentObservation → Option PaymentStatus
latest_terminal none = none
latest_terminal (some o) = if is_pending o.status then none else some o.status

-- The terminal status that the row or the last observation has reached.
unfoldable pub terminal_of : Current → Option PaymentObservation → Option PaymentStatus
terminal_of current latest =
    if is_state_completed current.state
    then some PaymentStatus.completed
    else if is_closed current.provider_state
    then current.provider_state
    else if is_state_failed current.state
    then some PaymentStatus.failed
    else latest_terminal latest

-- `'ACCEPT_' + status`; a cleaned observation has one of the four known statuses.
abbrev pub accept : PaymentStatus → TruthDecision
accept PaymentStatus.pending = accept_pending
accept PaymentStatus.completed = accept_completed
accept PaymentStatus.failed = accept_failed
accept PaymentStatus.canceled = accept_canceled
accept PaymentStatus.other = blocked_evidence_mismatch

abbrev pub after_terminal : PaymentStatus → Option PaymentStatus → TruthDecision
after_terminal status none = accept status
after_terminal status (some terminal) =
    if is_completed terminal || not (is_completed status)
    then noop_terminal
    else blocked_invalid_transition

module _ (h : Hashes) where
  abbrev pub same_hash : PaymentObservation → Option PaymentObservation → Bool
  same_hash o none = false
  same_hash o (some l) = str_eq (h.of_observation o) (h.of_observation l)

  -- Everything after the `try` block.
  unfoldable pub judge :
      Context
      → PaymentObservation
      → Option PaymentObservation
      → TruthDecision × Option PaymentObservation
  judge context o latest =
      let previous = previous_time context latest in
      if is_nan previous
      then (blocked_evidence_mismatch, none)
      else if is_before (time_of o.updated_at) previous
      then (noop_stale, some o)
      else if (is_state_failed context.current.state || is_closed context.current.provider_state)
          && is_completed o.status
      then (blocked_invalid_transition, some o)
      else if same_hash o latest
      then (noop_duplicate, some o)
      else (after_terminal o.status (terminal_of context.current latest), some o)

  abbrev pub judge_evidence :
      Context
      → Option PaymentObservation
      → Option (Option PaymentObservation)
      → TruthDecision × Option PaymentObservation
  judge_evidence context none l = (blocked_evidence_mismatch, none)
  judge_evidence context (some o) none = (blocked_evidence_mismatch, none)
  judge_evidence context (some o) (some l) = judge context o l

  -- The decision with its observation.
  unfoldable pub truth_of :
      Context → String → PaymentObservation → Option ℕ → TruthDecision × Option PaymentObservation
  truth_of context payment input now =
      judge_evidence context (candidate_evidence context payment input now)
        (latest_evidence context payment now context.latest)

  -- `decidePaymentTruth`
  unfoldable pub decide_payment_truth :
      Context → String → PaymentObservation → Option ℕ → TruthResult
  decide_payment_truth context payment input now =
      let (decision, observation) = truth_of context payment input now in
      let ctx = h.of_context context in
      record {
        decision = decision;
        fingerprint = h.of_truth ctx payment decision observation;
        context_fingerprint = ctx;
        observation = observation;
      }

-- Retry budget: `retryDelaySeconds`. The jitter is `j / d` with `0 ≤ j ≤ d`; `none` is the exception.
-- `Math.ceil(10 * 2 ** (attempt - 1) * (0.5 + j / d))` is the ceiling of a quotient by `2 * d`.
abbrev pub max_attempts : ℕ
max_attempts = 5

abbrev pub max_backoff_seconds : ℕ
max_backoff_seconds = 300

unfoldable pub ceil_div : ℕ → ℕ → ℕ
ceil_div a b = (a + (b - 1)) / b

unfoldable pub retry_delay_seconds : ℕ → ℕ → ℕ → Option ℕ
retry_delay_seconds attempt j d =
    when (leb 1 attempt && leb attempt max_attempts && leb 1 d && leb j d)
      (some (min max_backoff_seconds (ceil_div (10 * 2 ^ (attempt - 1) * (d + 2 * j)) (2 * d))))
