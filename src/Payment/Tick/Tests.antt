-- ===== src/Payment/Tick/Tests.antt =====
-- Runs of the tick's request on concrete data.
use zao_rental.Common.{
  ℕ, ◌≤◌, ◌≡◌, refl, ◌↔◌, true, false, none, some, List, [], ◌∷◌, String, length, total,
}
use zao_rental.Payment.Worker.{
  Ports, RefundRow, pending, run_normal_production_tick, WorkerPlan, Outcome, done, failed,
  limit_invalid,
}
use zao_rental.Payment.Tick.{
  row_max_jpy, TickEnv, TickRequest, TickState, Arrival, Cutoff, shaped, answered, started, arrive,
  authorize_worker_tick, is_activated, worker_tick_plan, worker_tick_limit, skipped_in_flight,
}
use zao_rental.Payment.Tick.Exclusion.{idle, Reachable, start, request, Reachable-IsExclusive}
use zao_rental.Payment.Tick.Spending.{arrive-created}
use zao_rental.Payment.Worker.Refunds.{created}

twelve : worker_tick_limit (some "12") ≡ done 12
unfolding worker_tick_limit
twelve = refl

too_many : worker_tick_limit (some "21") ≡ failed limit_invalid
unfolding worker_tick_limit
too_many = refl

leading_zero : worker_tick_limit (some "01") ≡ failed limit_invalid
unfolding worker_tick_limit
leading_zero = refl

abbrev environment : TickEnv
environment = record {
  cron_secret = some "0123456789abcdef0123456789abcdef";
  activation = some "NORMAL_WORKER_TICK_APPROVED";
  accepted_after = shaped (some 1791018879000);
  notification_limit = none;
  refund_create_limit = some "5";
  dispatcher_password = some 20;
  worker_password = some 20;
  projector_password = some 20;
}

abbrev scheduled : TickRequest
scheduled = record {
  authorization = some "Bearer 0123456789abcdef0123456789abcdef";
  env = environment;
  now = 1800000000000;
  has_runtime = true;
  resolves = true;
}

abbrev minute : ℕ → String
minute now = "normal-tick-202701150800"

abbrev plan : WorkerPlan
plan = record {
  worker_id = "normal-tick-202701150800";
  accepted_bookings_after = some 1791018879000;
  deadline = some 1800000050000;
  batch_size = 20;
  notification_limit = 0;
  refund_create_limit = 5;
  refund_budget_jpy = 100000000;
}

scheduled_starts : (arrive minute scheduled idle).1 ≡ started plan
unfolding arrive authorize_worker_tick zao_rental.Payment.Tick.arguments_of worker_tick_plan
    worker_tick_limit zao_rental.Payment.Worker.normal_worker_plan zao_rental.Contracts.Flow.ident
    zao_rental.Payment.Tick.worker_tick_database_urls
scheduled_starts = refl

abbrev busy : TickState
busy = record { in_flight = true; running = 1 }

busy-Reachable : Reachable minute busy
unfolding arrive authorize_worker_tick zao_rental.Payment.Tick.arguments_of worker_tick_plan
    worker_tick_limit zao_rental.Payment.Worker.normal_worker_plan zao_rental.Contracts.Flow.ident
    zao_rental.Payment.Tick.worker_tick_database_urls
busy-Reachable = request scheduled idle start

-- A second request is skipped while the first one's call runs.
second_skipped : (arrive minute scheduled busy).1 ≡ answered skipped_in_flight
unfolding arrive authorize_worker_tick
second_skipped = refl

Reachable-IsExclusive_example : (busy.running ≤ 1) × ((busy.in_flight ≡ true) ↔ (busy.running ≡ 1))
Reachable-IsExclusive_example = Reachable-IsExclusive minute busy busy-Reachable

abbrev quiet : Ports
quiet = record {
  now = 1800000000000;
  clock = λ k. true;
  reconciliation = some false;
  candidates = some [];
  has_refunds = true;
  refund_rows = some (
      record { id = 1; amount_jpy = 3000; provider_id = none; dispatched = false; state = pending }
      ∷ []);
  call_throws = λ c. false;
  notifications_throw = false;
}

abbrev refunded : List RefundRow
refunded = created (run_normal_production_tick plan quiet).refunds.calls

arrive-created_example :
    (length refunded ≤ 20)
    × (total (λ x. x.amount_jpy) refunded ≤ row_max_jpy)
    × (environment.refund_create_limit ≡ none → refunded ≡ [])
arrive-created_example = arrive-created minute scheduled idle plan quiet scheduled_starts
