-- ===== src/Payment/Worker/Refunds.antt =====
-- The money that a tick can send back, and which refunds it touches.
use zao_rental.Payment.Worker.{
  Outcome-cases, WorkerPlan, RefundRow, RefundTally, Call, dispatch, reconcile, refund_step,
  refund_loop, Ports, run_normal_production_tick, normal_worker_plan, has_provider, pending,
  no_refunds, reconciled, after_projects, refund_lane, after_refunds, queried, project_loop,
  no_projects, ProjectTally,
}
use zao_rental.Common.{
  ℕ, ◌+◌, ◌≤◌, ◌≡◌, inl, inr, Bool, true, false, Option, none, some, List, [], ◌∷◌, arith,
  Bool-cases, Option-cases, length, total, All,
}

-- The refunds that a list of calls creates, their number and their sum.
abbrev pub created : List Call → List RefundRow
created [] = []
created (dispatch r ∷ cs) = r ∷ created cs
created (reconcile r ∷ cs) = created cs

-- A refund is created only for a pending row that was never dispatched; a row that was dispatched
-- is only looked up, by the provider id that it has.
abbrev pub IsAllowed : Call → Type 0
IsAllowed (dispatch r) = (r.dispatched ≡ false) × (r.state ≡ pending)
IsAllowed (reconcile r) = (r.dispatched ≡ true) × (has_provider r ≡ true)

pub record IsBounded (plan : WorkerPlan) (t : RefundTally) : Type 0 where
  pub within_limit : t.creates ≤ plan.refund_create_limit
  pub within_budget : t.jpy ≤ plan.refund_budget_jpy
  pub counted : t.creates ≡ length (created t.calls)
  pub summed : t.jpy ≡ total (λ r. r.amount_jpy) (created t.calls)
  pub allowed : All IsAllowed t.calls

refund_step-IsBounded :
    (plan : WorkerPlan) (t : RefundTally) (r : RefundRow)
    → IsBounded plan t
    → IsBounded plan (refund_step plan t r).1
unfolding refund_step
refund_step-IsBounded plan t r v = ground arith

module _ (plan : WorkerPlan) (clock : ℕ → Bool) (throws : Call → Bool) where
  refund_loop-IsBounded :
      (k : ℕ) (t : RefundTally) (rs : List RefundRow)
      → IsBounded plan t
      → IsBounded plan (refund_loop plan clock throws k t rs).1
  unfolding refund_loop
  refund_loop-IsBounded k t [] v = v
  refund_loop-IsBounded k t (r ∷ rs) v =
      let w = refund_step-IsBounded plan t r v in
      let ih = refund_loop-IsBounded (k + 1) (refund_step plan t r).1 rs w in ground arith

module _ (plan : WorkerPlan) (p : Ports) where
  no_refunds-IsBounded : IsBounded plan no_refunds
  no_refunds-IsBounded = ground arith

  after_refunds-IsBounded :
      (a : ProjectTally) (b : Bool × RefundTally)
      → IsBounded plan b.1
      → IsBounded plan (after_refunds p a b).refunds
  after_refunds-IsBounded a (true, t) v = v
  after_refunds-IsBounded a (false, t) v = v

  refund_lane-IsBounded :
      (a : ProjectTally) (rows : Option (List RefundRow))
      → IsBounded plan (refund_lane plan p a rows).refunds
  refund_lane-IsBounded a none = no_refunds-IsBounded
  refund_lane-IsBounded a (some rows) =
      after_refunds-IsBounded a
        (refund_loop plan p.clock p.call_throws (a.readings + 1) no_refunds rows)
        (refund_loop-IsBounded plan p.clock p.call_throws (a.readings + 1) no_refunds rows
          no_refunds-IsBounded)

  after_projects-IsBounded :
      (b : Bool × ProjectTally) → IsBounded plan (after_projects plan p b).refunds
  after_projects-IsBounded (true, a) = no_refunds-IsBounded
  after_projects-IsBounded (false, a) = elim (Bool-cases p.has_refunds) [
    | inl e ↦ rw e (refund_lane-IsBounded a (queried (p.clock a.readings) p.refund_rows))
    | inr e ↦ rw e (no_refunds-IsBounded)
  ]

  reconciled-IsBounded : (r : Option Bool) → IsBounded plan (reconciled plan p r).refunds
  reconciled-IsBounded none = no_refunds-IsBounded
  reconciled-IsBounded (some true) = no_refunds-IsBounded
  reconciled-IsBounded (some false) = elim (Option-cases (queried (p.clock 0) p.candidates)) [
    | inl e ↦ rw e (no_refunds-IsBounded)
    | inr (xs, e) ↦ rw e (after_projects-IsBounded (project_loop p.clock (no_projects 1) xs))
  ]

-- A tick never creates more refunds than its plan's limit, nor refunds of a larger sum than its
-- plan's budget; the number and the sum that it reports are those of the refunds it created; it
-- creates a refund only of a pending row that was never dispatched, and looks up only dispatched
-- rows, by the provider's own id. This holds for every answer of the ports and of the clock,
-- those included that end the tick by an exception in the middle of the loop.
pub run_normal_production_tick-IsBounded :
    (plan : WorkerPlan) (p : Ports) → IsBounded plan (run_normal_production_tick plan p).refunds
unfolding run_normal_production_tick
run_normal_production_tick-IsBounded plan p = elim (Outcome-cases (normal_worker_plan plan p.now)) [
  | inl (e, h) ↦ rw (h, run_normal_production_tick) (no_refunds-IsBounded plan p)
  | inr (q, h) ↦ rw (h, run_normal_production_tick) (reconciled-IsBounded plan p p.reconciliation)
]
