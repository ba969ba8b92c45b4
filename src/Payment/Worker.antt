-- ===== src/Payment/Worker.antt =====
-- One finite tick of the payment worker: packages/core/src/payment/normal-production-worker.ts. The
-- ports are databases and providers: their answers are parameters of the tick, and the calls that
-- change something are recorded in order.
pub mod Refunds
use zao_rental.Common.{
  ℕ, zero, suc, ◌+◌, ◌-◌, ◌*◌, ◌/◌, ◌%◌, ◌^◌, ◌≤◌, ◌<◌, min, max, ◌≡◌, refl, sym, ap, subst, ◌∙◌,
  ◌≢◌, ◌↔◌, ◌⊎◌, inl, inr, Bool, true, false, not, ◌&&◌, ◌||◌, Option, none, some, List, [], ◌∷◌,
  ◌++◌, map, arith, String, str_eq, ltb, leb, ◌==◌, if◌then◌else◌, ltb→lt, leb→le, le→leb, ==_iff,
  ==_refl, Bool-cases, &&-eq-true, Option-cases, length, length-append, any, every, keep, find,
  total, All, All-append, All-imp, total-append, keep-append, includes, In, In-append_left,
  In-append_right, All-In, In-keep, keep-In, find-In, any-In, every-In,
}
use zao_rental.Contracts.Flow.{ident, is_safe}

pub record WorkerPlan : Type 0 where
  pub worker_id : String
  pub accepted_bookings_after : Option ℕ
  pub deadline : Option ℕ
  pub batch_size : ℕ
  pub notification_limit : ℕ
  pub refund_create_limit : ℕ
  pub refund_budget_jpy : ℕ

pub data WorkerError : Type 0 where
  window_rejected batch_rejected cutoff_invalid limit_invalid credential_missing other_error :
      WorkerError

pub data Outcome (A : Type 0) : Type 0 where
  done : A → Outcome A
  failed : WorkerError → Outcome A

pub Outcome-cases :
    {A : Type 0} (x : Outcome A) → ((e : WorkerError) × (x ≡ failed e)) ⊎ ((a : A) × (x ≡ done a))
Outcome-cases (done a) = inr (a, refl)
Outcome-cases (failed e) = inl (e, refl)

infixl 5 ◌>>=◌
abbrev pub ◌>>=◌ : {A B : Type 0} → Outcome A → (A → Outcome B) → Outcome B
done a >>= f = f a
failed e >>= f = failed e

-- 2026-10-03T09:14:39Z in milliseconds.
abbrev pub first_cutoff : ℕ
first_cutoff = 1791018879000

abbrev within : ℕ → ℕ → ℕ → Bool
within n least most = is_safe n && leb least n && leb n most

abbrev cutoff_ok : Option ℕ → ℕ → Bool
cutoff_ok none now = false
cutoff_ok (some t) now = leb first_cutoff t && leb t now

abbrev deadline_ok : Option ℕ → ℕ → Bool
deadline_ok none now = false
deadline_ok (some t) now = ltb now t && leb t (now + 60000)

-- `normalWorkerPlan`, of an object with exactly the seven fields. A time that `Date.parse` refuses
-- is `none`.
unfoldable pub normal_worker_plan : WorkerPlan → ℕ → Outcome WorkerPlan
normal_worker_plan p now =
    if not
      (ident p.worker_id && cutoff_ok p.accepted_bookings_after now && deadline_ok p.deadline now)
    then failed window_rejected
    else if within p.batch_size 1 20
        && within p.notification_limit 0 20
        && within p.refund_create_limit 0 20
        && within p.refund_budget_jpy 0 100000000
    then done p
    else failed batch_rejected

pub data RefundState : Type 0 where
  pending other : RefundState

pub record RefundRow : Type 0 where
  pub id : ℕ
  pub amount_jpy : ℕ
  pub provider_id : Option String
  pub dispatched : Bool
  pub state : RefundState

-- A call that reaches the provider.
pub data Call : Type 0 where
  dispatch reconcile : RefundRow → Call

pub record RefundTally : Type 0 where
  pub creates : ℕ
  pub lookups : ℕ
  pub jpy : ℕ
  pub calls : List Call

abbrev pub is_pending : RefundState → Bool
is_pending pending = true
is_pending other = false

abbrev pub has_provider : RefundRow → Bool
has_provider r = elim r.provider_id [ none ↦ false | some p ↦ not (str_eq p "") ]

-- What the body of the loop does with one row; a row with no call leaves the tally.
unfoldable pub refund_step : WorkerPlan → RefundTally → RefundRow → Option Call × RefundTally
refund_step plan t r =
    if r.dispatched
    then (if has_provider r
        then (
          some (reconcile r),
          record t { lookups = t.lookups + 1; calls = reconcile r ∷ t.calls },
        )
        else (none, t))
    else if is_pending r.state
        && ltb t.creates plan.refund_create_limit
        && leb (t.jpy + r.amount_jpy) plan.refund_budget_jpy
    then (
      some (dispatch r),
      record t {
        creates = t.creates + 1;
        jpy = t.jpy + r.amount_jpy;
        calls = dispatch r ∷ t.calls;
      },
    )
    else (none, t)

-- The loop over the refund candidates. Before each row the clock is read once; `clock k` is the
-- answer of its `k`-th reading. A call that throws ends the tick, after it has been made.
module _ (plan : WorkerPlan) (clock : ℕ → Bool) (throws : Call → Bool) where
  abbrev raised : Option Call → Bool
  raised none = false
  raised (some c) = throws c

  -- Whether the loop ended by an exception, and the tally then.
  unfoldable pub refund_loop : ℕ → RefundTally → List RefundRow → Bool × RefundTally
  refund_loop k t [] = (false, t)
  refund_loop k t (r ∷ rs) =
      let (call, t') = refund_step plan t r in
      let rest = refund_loop (k + 1) t' rs in
      if not (clock k) then (false, t) else if raised call then (true, t') else rest

pub data ProjectAnswer : Type 0 where
  projected stale thrown : ProjectAnswer

pub record ProjectTally : Type 0 where
  pub projected_count : ℕ
  pub deferred : ℕ
  pub readings : ℕ

-- The loop over the projection candidates, given by their answers.
module _ (clock : ℕ → Bool) where
  unfoldable pub project_loop : ProjectTally → List ProjectAnswer → Bool × ProjectTally
  project_loop t [] = (false, t)
  project_loop t (a ∷ xs) =
      let t' = record t { readings = t.readings + 1 } in
      let after_project = project_loop (record t' { projected_count = t.projected_count + 1 }) xs in
      let after_stale = project_loop (record t' { deferred = t.deferred + 1 }) xs in
      if not (clock t.readings)
      then (false, t')
      else elim a [ projected ↦ after_project | stale ↦ after_stale | thrown ↦ (true, t') ]

-- What the databases and the provider answer during the tick. The reconciliation gives `none` where
-- it throws, and otherwise whether one of its results is AUTH_BLOCKED or RATE_LIMITED; a candidate
-- query gives `none` where it throws; the refund port may be absent. `notifications_throw` says that
-- the notification batch ran and threw.
pub record Ports : Type 0 where
  pub now : ℕ
  pub clock : ℕ → Bool
  pub reconciliation : Option Bool
  pub candidates : Option (List ProjectAnswer)
  pub has_refunds : Bool
  pub refund_rows : Option (List RefundRow)
  pub call_throws : Call → Bool
  pub notifications_throw : Bool

pub data TickEnd : Type 0 where
  provider_stop completed thrown : TickEnd

pub record TickResult : Type 0 where
  pub end : TickEnd
  pub projects : ProjectTally
  pub refunds : RefundTally

abbrev pub no_refunds : RefundTally
no_refunds = record { creates = 0; lookups = 0; jpy = 0; calls = [] }

abbrev pub no_projects : ℕ → ProjectTally
no_projects k = record { projected_count = 0; deferred = 0; readings = k }

-- `active() ? await query() : []`
abbrev pub queried {ℓ} : {A : Type ℓ} → Bool → Option (List A) → Option (List A)
queried true rows = rows
queried false rows = some []

abbrev pub notify : Ports → ProjectTally → RefundTally → TickResult
notify p a t = record {
  end = if p.notifications_throw then thrown else completed;
  projects = a;
  refunds = t;
}

abbrev pub after_refunds : Ports → ProjectTally → Bool × RefundTally → TickResult
after_refunds p a (true, t) = record { end = thrown; projects = a; refunds = t }
after_refunds p a (false, t) = notify p a t

abbrev pub refund_lane : WorkerPlan → Ports → ProjectTally → Option (List RefundRow) → TickResult
refund_lane plan p a none = record { end = thrown; projects = a; refunds = no_refunds }
refund_lane plan p a (some rows) =
    after_refunds p a (refund_loop plan p.clock p.call_throws (a.readings + 1) no_refunds rows)

abbrev pub after_projects : WorkerPlan → Ports → Bool × ProjectTally → TickResult
after_projects plan p (true, a) = record { end = thrown; projects = a; refunds = no_refunds }
after_projects plan p (false, a) =
    if p.has_refunds
    then refund_lane plan p a (queried (p.clock a.readings) p.refund_rows)
    else notify p a no_refunds

abbrev project_lane : WorkerPlan → Ports → Option (List ProjectAnswer) → TickResult
project_lane plan p none = record { end = thrown; projects = no_projects 1; refunds = no_refunds }
project_lane plan p (some xs) = after_projects plan p (project_loop p.clock (no_projects 1) xs)

abbrev pub reconciled : WorkerPlan → Ports → Option Bool → TickResult
reconciled plan p none = record { end = thrown; projects = no_projects 0; refunds = no_refunds }
reconciled plan p (some true) = record {
  end = provider_stop;
  projects = no_projects 0;
  refunds = no_refunds;
}
reconciled plan p (some false) = project_lane plan p (queried (p.clock 0) p.candidates)

-- `runNormalProductionTick`
unfoldable pub run_normal_production_tick : WorkerPlan → Ports → TickResult
run_normal_production_tick plan p = elim (normal_worker_plan plan p.now) [
  | failed e ↦ record { end = thrown; projects = no_projects 0; refunds = no_refunds }
  | done _ ↦ reconciled plan p p.reconciliation
]
