-- ===== src/Release/Dormant/Observe.antt =====
-- `observe`: every rule, over all rows of the request log.
use zao_rental.Common.{
  ℕ, ◌+◌, ◌-◌, ◌/◌, Bool, true, false, not, ◌&&◌, ◌||◌, Option, none, some, List, [], ◌∷◌, map,
  String, str_eq, ltb, leb, ◌==◌, if◌then◌else◌, length, any, every, keep, includes,
}
use zao_rental.Contracts.Flow.{codes}
use zao_rental.Common.Checked.{Checked, passed, refused, ◌>>=◌, ◌>>◌, ensure}
use zao_rental.Release.Dormant.{
  ProofError, no_requests_observed, unexpected_request, activated_tick_observed,
  request_without_dormant_event, too_few_observations, cadence_not_scheduler, observation_stale,
  DeploymentFacts, RequestLog, ProofPort, ProofFacts, cron_path, target_project, target_environment,
  equals, is_finite, live_state,
}

-- What is left of a text after one that it starts with.
abbrev after_prefix : List ℕ → List ℕ → Option (List ℕ)
after_prefix [] cs = some cs
after_prefix (p ∷ ps) [] = none
after_prefix (p ∷ ps) (c ∷ cs) = if p == c then after_prefix ps cs else none

abbrev starts : List ℕ → List ℕ → Bool
starts ps cs = elim (after_prefix ps cs) [ none ↦ false | some rest ↦ true ]

abbrev activated_at : List ℕ → Bool
activated_at cs = elim (after_prefix (codes "normal_worker_tick") cs) [
  | none ↦ false
  | some rest ↦ not (starts (codes "_dormant") rest)
]

-- `ACTIVATED_TICK`, a name that is not followed by `_dormant`, anywhere in a text.
abbrev pub mentions_activated : List ℕ → Bool
mentions_activated [] = activated_at []
mentions_activated (c ∷ cs) = activated_at (c ∷ cs) || mentions_activated cs

abbrev agrees : Option String → String → Bool
agrees none s = true
agrees (some t) s = str_eq t s

-- The rule on one row of the route.
abbrev pub is_expected : ProofFacts → RequestLog → Bool
is_expected facts l =
    str_eq l.request_method "GET"
    && l.response_status_code == 200
    && str_eq l.deployment_id facts.deployment_id
    && is_finite l.timestamp
    && agrees l.project_id target_project
    && agrees l.environment target_environment

-- `!(l.timestamp<notBefore)`
abbrev is_since : Option ℕ → Option ℕ → Bool
is_since none t = true
is_since (some first) none = true
is_since (some first) (some t) = not (ltb t first)

-- `sort((a,b)=>a-b)`
abbrev pub insert_time : ℕ → List ℕ → List ℕ
insert_time t [] = t ∷ []
insert_time t (x ∷ xs) = let rest = insert_time t xs in if leb t x then t ∷ x ∷ xs else x ∷ rest

abbrev pub sort_times : List ℕ → List ℕ
sort_times [] = []
sort_times (t ∷ ts) = insert_time t (sort_times ts)

abbrev pub times_of : List RequestLog → List ℕ
times_of [] = []
times_of (l ∷ ls) = elim l.timestamp [ none ↦ times_of ls | some t ↦ t ∷ times_of ls ]

abbrev pub minute_of : ℕ → ℕ
minute_of t = t / 60000

-- `[...new Set(minutes)]`: what is left of a list without the elements seen before.
abbrev pub unseen : List ℕ → List ℕ → List ℕ
unseen seen [] = []
unseen seen (m ∷ ms) =
    let new = unseen (m ∷ seen) ms in
    let old = unseen seen ms in if includes m seen then old else m ∷ new

abbrev pub no_gap : List ℕ → Bool
no_gap [] = true
no_gap (m ∷ []) = true
no_gap (m ∷ n ∷ ms) = leb (n - m) 2 && no_gap (n ∷ ms)

-- The last element of a list that starts with `t`.
abbrev pub last_of : ℕ → List ℕ → ℕ
last_of t [] = t
last_of t (x ∷ xs) = last_of x xs

-- What the rules have proved: the deployment, the first time, all times and the number of minutes.
pub record Observed : Type 0 where
  pub dep : DeploymentFacts
  pub first : ℕ
  pub times : List ℕ
  pub minutes : ℕ

-- The rules on the times, the earliest of which is `t`.
unfoldable pub check_times : ℕ → ℕ → List ℕ → Checked ProofError ℕ
check_times now t ts = do
  let minutes = unseen [] (map minute_of (t ∷ ts))
  ensure (leb 3 (length minutes)) too_few_observations
  ensure (no_gap minutes) cadence_not_scheduler
  ensure (leb now (last_of t ts + 150000) && leb (last_of t ts) (now + 60000)) observation_stale
  passed (length minutes)

abbrev pub with_times : DeploymentFacts → ℕ → List ℕ → Checked ProofError Observed
with_times dep now [] = refused no_requests_observed
with_times dep now (t ∷ ts) = do
  minutes ← check_times now t ts
  passed (record { dep = dep; first = t; times = t ∷ ts; minutes = minutes })

abbrev pub is_relevant : Option ℕ → RequestLog → Bool
is_relevant since l = str_eq l.request_path cron_path && is_since since l.timestamp

-- `eventOf` parses a message as JSON.
module _ (event_of : String → Option String) where
  abbrev pub is_dormant : RequestLog → Bool
  is_dormant l = any (λ m. equals (event_of m) "normal_worker_tick_dormant") l.messages

  unfoldable pub check_rows : ProofFacts → List RequestLog → Checked ProofError (Unit {0})
  check_rows facts logs = do
    ensure (ltb 0 (length logs)) no_requests_observed
    ensure (every (is_expected facts) logs) unexpected_request
    ensure (not (any (λ l. any (λ m. mentions_activated (codes m)) l.messages) logs))
        activated_tick_observed
    ensure (every is_dormant logs) request_without_dormant_event

  -- `observe`; `since` is `notBefore`.
  unfoldable pub observe : ProofPort → ProofFacts → ℕ → ℕ → Option ℕ → Checked ProofError Observed
  observe port facts window now since = do
    dep ← live_state port facts
    all_logs ← port.request_logs facts.deployment_id window
    let logs = keep (is_relevant since) all_logs
    check_rows facts logs
    with_times dep now (sort_times (times_of logs))
