-- ===== src/Payment/Tick/Start.antt =====
-- What a call of the worker needs before it begins.
use zao_rental.Common.{
  ℕ, ◌≤◌, ◌≡◌, refl, sym, ap, subst, ◌∙◌, inl, inr, true, false, Option, none, some, arith, String,
}
use zao_rental.Payment.Worker.{
  ◌>>=◌, WorkerPlan, Outcome, done, failed, Outcome-cases, normal_worker_plan,
}
use zao_rental.Payment.Tick.{
  parsed_cutoff, with_cutoff, with_notifications, with_limits, with_databases, TickEnv, TickRequest,
  TickState, started, arrive, authorize_worker_tick, is_activated, arguments_of, worker_tick_plan,
  worker_tick_limit, worker_tick_database_urls, planned, row_max_jpy,
}

-- The limits of a plan; refunds have a budget exactly where the limit admits one.
pub record IsLimited (plan : WorkerPlan) : Type 0 where
  pub batch : plan.batch_size ≡ 20
  pub mails : plan.notification_limit ≤ 20
  pub refunds : plan.refund_create_limit ≤ 20
  pub stopped : plan.refund_create_limit ≡ 0 → plan.refund_budget_jpy ≡ 0
  pub admitted : 1 ≤ plan.refund_create_limit → plan.refund_budget_jpy ≡ row_max_jpy

worker_tick_limit-bound : (raw : Option String) (n : ℕ) → worker_tick_limit raw ≡ done n → n ≤ 20
unfolding worker_tick_limit
worker_tick_limit-bound none n e = ground arith
worker_tick_limit-bound (some raw) n e = ground arith

-- A chain that succeeds has a step that succeeds.
chained :
    {A B : Type 0} (o : Outcome A) (f : A → Outcome B) (b : B)
    → o >>= f ≡ done b
    → (a : A) × (o ≡ done a) × (f a ≡ done b)
chained (failed x) f b e = absurd (cc)
chained (done a) f b e = (a, refl, e)

normal_worker_plan-same : (p q : WorkerPlan) (now : ℕ) → normal_worker_plan p now ≡ done q → q ≡ p
unfolding normal_worker_plan
normal_worker_plan-same p q now e = ground arith

worker_tick_plan-IsLimited :
    (tick_id : ℕ → String) (env : TickEnv) (now : ℕ) (plan : WorkerPlan)
    → worker_tick_plan tick_id env now ≡ done plan
    → IsLimited plan
unfolding worker_tick_plan
worker_tick_plan-IsLimited tick_id env now plan e =
    let (after, _, e₁) =
      chained (parsed_cutoff env.accepted_after) (with_cutoff tick_id env now) plan e in
    let (mails, m, e₂) =
      chained (worker_tick_limit env.notification_limit) (with_notifications tick_id env now after)
        plan e₁ in
    let (refunds, r, e₃) =
      chained (worker_tick_limit env.refund_create_limit) (with_limits tick_id env now after mails)
        plan e₂ in
    subst IsLimited
      (sym (normal_worker_plan-same (planned tick_id now after mails refunds) plan now e₃))
      (limited after mails refunds (worker_tick_limit-bound env.notification_limit mails m)
        (worker_tick_limit-bound env.refund_create_limit refunds r))
  where
    limited :
        (after : Option ℕ) (mails refunds : ℕ)
        → mails ≤ 20
        → refunds ≤ 20
        → IsLimited (planned tick_id now after mails refunds)
    limited after mails refunds m r = ground arith

-- The limit of the plan is the one that the environment sets.
pub worker_tick_plan-refunds :
    (tick_id : ℕ → String) (env : TickEnv) (now : ℕ) (plan : WorkerPlan)
    → worker_tick_plan tick_id env now ≡ done plan
    → worker_tick_limit env.refund_create_limit ≡ done plan.refund_create_limit
unfolding worker_tick_plan
worker_tick_plan-refunds tick_id env now plan e =
    let (after, _, e₁) =
      chained (parsed_cutoff env.accepted_after) (with_cutoff tick_id env now) plan e in
    let (mails, _, e₂) =
      chained (worker_tick_limit env.notification_limit) (with_notifications tick_id env now after)
        plan e₁ in
    let (refunds, r, e₃) =
      chained (worker_tick_limit env.refund_create_limit) (with_limits tick_id env now after mails)
        plan e₂ in
    r
    ∙ ap (λ p. done p.refund_create_limit)
        (sym (normal_worker_plan-same (planned tick_id now after mails refunds) plan now e₃))

-- A call of the worker begins only for a request that carries the secret, with the activation token
-- set, no other call in flight and a runtime; its plan is the one of the environment, within the
-- limits, and the switch that stops refunds leaves no budget for them.
pub arrive-started :
    (tick_id : ℕ → String) (r : TickRequest) (s : TickState) (plan : WorkerPlan)
    → (arrive tick_id r s).1 ≡ started plan
    → (authorize_worker_tick r.authorization r.env.cron_secret ≡ true)
      × (is_activated r.env.activation ≡ true)
      × (s.in_flight ≡ false)
      × (r.has_runtime ≡ true)
      × (worker_tick_plan tick_id r.env r.now ≡ done plan)
      × IsLimited plan
unfolding arrive
arrive-started tick_id r s plan e = elim (Outcome-cases (arguments_of tick_id r)) [
  | inl (x, failing) ↦ absurd (ground (arith, failing, e))
  | inr (p, given) ↦
      let (q, own, rest) =
        chained (worker_tick_plan tick_id r.env r.now) (with_databases r) p
          (unfold arguments_of in given) in
      let same : q ≡ p = unfold worker_tick_database_urls in ground (arith, rest) in
      let begun : p ≡ plan = ground (arith, given, e) in
      let planned_so : worker_tick_plan tick_id r.env r.now ≡ done plan =
        own ∙ ap done (same ∙ begun) in
      (
        ground (arith, e),
        ground (arith, e),
        ground (arith, e),
        ground (arith, e),
        planned_so,
        worker_tick_plan-IsLimited tick_id r.env r.now plan planned_so,
      )
]
