-- ===== src/Payment/Tick/Spending.antt =====
-- The money that a tick behind a request can send back.
use zao_rental.Common.{ℕ, ◌≤◌, ◌≡◌, refl, none, List, [], ◌∷◌, arith, String, length, total}
use zao_rental.Payment.Worker.{WorkerPlan, Ports, run_normal_production_tick}
use zao_rental.Payment.Worker.Refunds.{created, run_normal_production_tick-IsBounded}
use zao_rental.Payment.Tick.{
  TickRequest, TickState, started, arrive, row_max_jpy, worker_tick_limit,
}
use zao_rental.Payment.Tick.Start.{IsLimited, arrive-started, worker_tick_plan-refunds}

length-zero : {A : Type 0} (xs : List A) → length xs ≡ 0 → xs ≡ []
length-zero [] e = refl
length-zero (x ∷ xs) e = absurd (omega (arith, e))

within_row : (plan : WorkerPlan) → IsLimited plan → plan.refund_budget_jpy ≤ row_max_jpy
within_row plan l = ground (arith, l.stopped, l.admitted)

-- Whatever the ports answer, a tick that a request starts creates at most twenty refunds, of at most
-- a hundred million yen together; where the environment sets no refund limit it creates none.
pub arrive-created :
    (tick_id : ℕ → String) (r : TickRequest) (s : TickState) (plan : WorkerPlan) (p : Ports)
    → (arrive tick_id r s).1 ≡ started plan
    → (length (created (run_normal_production_tick plan p).refunds.calls) ≤ 20)
      × (total (λ x. x.amount_jpy) (created (run_normal_production_tick plan p).refunds.calls)
          ≤ row_max_jpy)
      × (r.env.refund_create_limit ≡ none
          → created (run_normal_production_tick plan p).refunds.calls ≡ [])
unfolding worker_tick_limit
arrive-created tick_id r s plan p e =
    let (_, _, _, _, planned_so, l) = arrive-started tick_id r s plan e in
    let b = run_normal_production_tick-IsBounded plan p in
    let cap = within_row plan l in
    let own = worker_tick_plan-refunds tick_id r.env r.now plan planned_so in
    (
      omega (arith, b.within_limit, b.counted, l.refunds),
      omega (arith, b.within_budget, b.summed, cap),
      λ unset.
          let off : plan.refund_create_limit ≡ 0 = ground (arith, own, unset) in
          length-zero (created (run_normal_production_tick plan p).refunds.calls)
            (omega (arith, b.within_limit, b.counted, off)),
    )
