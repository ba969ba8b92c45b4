-- ===== src/Payment/Tick.antt =====
-- The authenticated request behind which a tick runs: packages/core/src/payment/worker-tick.ts. A
-- request is handled in two steps, up to the call of the worker and from its end, since others may
-- arrive between the two. A runtime, its databases and its worker are inputs.
mod Tests
pub mod Exclusion
pub mod Start
pub mod Spending
use zao_rental.Common.{
  ℕ, zero, suc, ◌+◌, ◌-◌, ◌*◌, ◌/◌, ◌%◌, ◌^◌, ◌≤◌, ◌<◌, min, max, ◌≡◌, refl, sym, ap, subst, ◌∙◌,
  ◌≢◌, ◌↔◌, ◌⊎◌, inl, inr, Bool, true, false, not, ◌&&◌, ◌||◌, Option, none, some, List, [], ◌∷◌,
  ◌++◌, map, arith, String, str_eq, ltb, leb, ◌==◌, if◌then◌else◌, ltb→lt, leb→le, le→leb, ==_iff,
  ==_refl, Bool-cases, &&-eq-true, Option-cases, length, length-append, any, every, keep, find,
  total, All, All-append, All-imp, total-append, keep-append, includes, In, In-append_left,
  In-append_right, In-append-cases, All-In, In-keep, keep-In, find-In, any-In, every-In,
}
use zao_rental.Contracts.Flow.{codes}
use zao_rental.Payment.Worker.{
  WorkerPlan, Outcome, done, failed, ◌>>=◌, WorkerError, cutoff_invalid, limit_invalid,
  credential_missing, other_error, normal_worker_plan,
}

-- The accepted bookings' cutoff: a text that the expression in `workerTickPlan` refuses or that is
-- missing, or one of the right shape with what `Date.parse` gives.
pub data Cutoff : Type 0 where
  unshaped : Cutoff
  shaped : Option ℕ → Cutoff

-- `WorkerTickEnv`; a password is given by its length.
pub record TickEnv : Type 0 where
  pub cron_secret : Option String
  pub activation : Option String
  pub accepted_after : Cutoff
  pub notification_limit : Option String
  pub refund_create_limit : Option String
  pub dispatcher_password : Option ℕ
  pub worker_password : Option ℕ
  pub projector_password : Option ℕ

abbrev same_codes : List ℕ → List ℕ → Bool
same_codes [] [] = true
same_codes [] (b ∷ ys) = false
same_codes (a ∷ xs) [] = false
same_codes (a ∷ xs) (b ∷ ys) = a == b && same_codes xs ys

-- `authorizeWorkerTick`
unfoldable pub authorize_worker_tick : Option String → Option String → Bool
authorize_worker_tick authorization none = false
authorize_worker_tick none (some secret) = false
authorize_worker_tick (some got) (some secret) =
    leb 32 (length (codes secret))
    && not (str_eq got "")
    && same_codes (codes "Bearer " ++ codes secret) (codes got)

abbrev is_digit : ℕ → Bool
is_digit c = leb b'0' c && leb c b'9'

abbrev is_plain : List ℕ → Bool
is_plain [] = false
is_plain (c ∷ []) = is_digit c
is_plain (c ∷ d ∷ ds) =
    leb b'1' c && leb c b'9' && leb (length (d ∷ ds)) 8 && every is_digit (d ∷ ds)

-- `Number(raw)` of a text of digits, read from the left.
abbrev pub number_from : ℕ → List ℕ → ℕ
number_from n [] = n
number_from n (c ∷ cs) = number_from (n * 10 + (c - b'0')) cs

-- `workerTickLimit`; both bounds are twenty.
unfoldable pub worker_tick_limit : Option String → Outcome ℕ
worker_tick_limit none = done 0
worker_tick_limit (some raw) =
    if not (is_plain (codes raw))
    then failed limit_invalid
    else if ltb 20 (number_from 0 (codes raw))
    then failed limit_invalid
    else done (number_from 0 (codes raw))

abbrev pub budget_ms : ℕ
budget_ms = 50000

abbrev pub row_max_jpy : ℕ
row_max_jpy = 100000000

abbrev pub parsed_cutoff : Cutoff → Outcome (Option ℕ)
parsed_cutoff unshaped = failed cutoff_invalid
parsed_cutoff (shaped t) = done t

-- `'normal-tick-'` and the digits of the minute are written by the library.
module _ (tick_id : ℕ → String) where
  abbrev pub planned : ℕ → Option ℕ → ℕ → ℕ → WorkerPlan
  planned now after notifications refunds = record {
    worker_id = tick_id now;
    accepted_bookings_after = after;
    deadline = some (now + budget_ms);
    batch_size = 20;
    notification_limit = notifications;
    refund_create_limit = refunds;
    refund_budget_jpy = if ltb 0 refunds then row_max_jpy else 0;
  }

  abbrev pub with_limits : TickEnv → ℕ → Option ℕ → ℕ → ℕ → Outcome WorkerPlan
  with_limits env now after notifications refunds =
      normal_worker_plan (planned now after notifications refunds) now

  abbrev pub with_notifications : TickEnv → ℕ → Option ℕ → ℕ → Outcome WorkerPlan
  with_notifications env now after notifications =
      worker_tick_limit env.refund_create_limit >>= with_limits env now after notifications

  abbrev pub with_cutoff : TickEnv → ℕ → Option ℕ → Outcome WorkerPlan
  with_cutoff env now after =
      worker_tick_limit env.notification_limit >>= with_notifications env now after

  -- `workerTickPlan`
  unfoldable pub worker_tick_plan : TickEnv → ℕ → Outcome WorkerPlan
  worker_tick_plan env now = parsed_cutoff env.accepted_after >>= with_cutoff env now

abbrev has_credential : Option ℕ → Bool
has_credential none = false
has_credential (some n) = leb 16 n

-- `workerTickDatabaseUrls`, which builds a URL for each of the three roles.
unfoldable pub worker_tick_database_urls : TickEnv → Outcome (Unit {0})
worker_tick_database_urls env =
    if has_credential env.dispatcher_password
      && has_credential env.worker_password
      && has_credential env.projector_password
    then done tt
    else failed credential_missing

pub data TickResponse : Type 0 where
  unauthorized not_activated skipped_in_flight runtime_not_ready stopped completed
        provider_stopped :
      TickResponse

-- The HTTP status of each answer.
abbrev pub status_of : TickResponse → ℕ
status_of unauthorized = 401
status_of not_activated = 200
status_of skipped_in_flight = 200
status_of runtime_not_ready = 503
status_of stopped = 500
status_of completed = 200
status_of provider_stopped = 500

-- `resolves` is whether `resolve` returns.
pub record TickRequest : Type 0 where
  pub authorization : Option String
  pub env : TickEnv
  pub now : ℕ
  pub has_runtime : Bool
  pub resolves : Bool

-- The module's flag, and how many calls of the worker have not ended.
pub record TickState : Type 0 where
  pub in_flight : Bool
  pub running : ℕ

-- A request is answered at once, or its call of the worker begins with a plan.
pub data Arrival : Type 0 where
  answered : TickResponse → Arrival
  started : WorkerPlan → Arrival

abbrev pub is_activated : Option String → Bool
is_activated none = false
is_activated (some t) = str_eq t "NORMAL_WORKER_TICK_APPROVED"

abbrev pub with_databases : TickRequest → WorkerPlan → Outcome WorkerPlan
with_databases r plan =
    if not r.resolves
    then failed other_error
    else worker_tick_database_urls r.env >>= λ _. done plan

-- The evaluation of the worker's arguments; `failed` is the exception that `catch` answers.
unfoldable pub arguments_of : (ℕ → String) → TickRequest → Outcome WorkerPlan
arguments_of tick_id r = worker_tick_plan tick_id r.env r.now >>= with_databases r

-- `finally { inFlight = false; }`
abbrev pub released : TickState → TickState
released s = record s { in_flight = false }

abbrev pub began : TickState → Outcome WorkerPlan → TickState × Arrival
began s (failed e) = (released s, answered stopped)
began s (done plan) = (record { in_flight = true; running = s.running + 1 }, started plan)

-- `handleWorkerTick`, up to the worker.
unfoldable pub arrive : (ℕ → String) → TickRequest → TickState → TickState × Arrival
arrive tick_id r s =
    if not (authorize_worker_tick r.authorization r.env.cron_secret)
    then (s, answered unauthorized)
    else if not (is_activated r.env.activation)
    then (s, answered not_activated)
    else if s.in_flight
    then (s, answered skipped_in_flight)
    else if not r.has_runtime
    then (released s, answered runtime_not_ready)
    else began s (arguments_of tick_id r)

-- How a call of the worker ends.
pub data RunEnd : Type 0 where
  run_completed run_other run_threw : RunEnd

abbrev pub response_of : RunEnd → TickResponse
response_of run_completed = completed
response_of run_other = provider_stopped
response_of run_threw = stopped

-- `handleWorkerTick`, from the end of the worker.
unfoldable pub finish : RunEnd → TickState → TickState × TickResponse
finish e s = (record { in_flight = false; running = s.running - 1 }, response_of e)
