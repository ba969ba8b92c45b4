-- ===== src/Release/Dormant/Tests.antt =====
-- A dormant deployment that is observed, recorded and verified.
use zao_rental.Common.{
  ℕ, ◌≤◌, ◌≡◌, refl, ap, ◌∙◌, true, false, Option, none, some, List, [], ◌∷◌, arith, String, keep,
}
use zao_rental.Common.Checked.{passed}
use zao_rental.Release.Dormant.{
  ProofError, DeploymentFacts, ProjectFacts, EnvRow, RequestLog, ProofPort, ProofFacts, cron_path,
  target_project, live_state,
}
use zao_rental.Release.Dormant.Observe.{
  Observed, is_relevant, observe, minute_of, mentions_activated,
}
use zao_rental.Release.Dormant.Proof.{DormantProof, collect_dormant_proof, verify_dormant_proof}
use zao_rental.Release.Dormant.Ticks.{IsTime}
use zao_rental.Release.Dormant.Verified.{verify-collect}
use zao_rental.Contracts.Flow.{codes}

abbrev facts : ProofFacts
facts = record {
  release_sha = "0123456789abcdef0123456789abcdef01234567";
  deployment_id = "dpl_AbCdEf0123456789";
}

abbrev deployed : DeploymentFacts
deployed = record {
  id = facts.deployment_id;
  project_id = target_project;
  target = "production";
  ready_state = "READY";
  created_at = some 1799999000000;
  git_commit_sha = some facts.release_sha;
  git_dirty = false;
  crons = record { path = cron_path; schedule = "* * * * *" } ∷ [];
}

abbrev row : ℕ → RequestLog
row t = record {
  timestamp = some t;
  deployment_id = facts.deployment_id;
  project_id = none;
  environment = some "production";
  request_method = "GET";
  request_path = cron_path;
  response_status_code = 200;
  messages = "normal_worker_tick_dormant" ∷ [];
}

-- Ticks in the minutes 30000000, 30000001 and 30000003; the second comes last in the log.
abbrev logs : List RequestLog
logs = row 1800000001000 ∷ row 1800000181000 ∷ row 1800000061000 ∷ []

abbrev port : ProofPort
port = record {
  deployment = λ i. passed deployed;
  project = passed (record {
    id = target_project;
    production_deployment_id = some facts.deployment_id;
    protection_type = some "all";
  });
  env_rows =
      passed (record { key = "CRON_SECRET"; kind = "sensitive"; target = "production" ∷ [] } ∷ []);
  request_logs = λ i w. passed logs;
}

-- A message that is its own event.
abbrev event_of : String → Option String
event_of m = some m

abbrev now : ℕ
now = 1800000200000

abbrev recorded : DormantProof
recorded = record {
  tags_ok = true;
  release_sha = facts.release_sha;
  deployment_id = facts.deployment_id;
  project_id = target_project;
  deployment_created_at = some 1799999000000;
  absent_at_proof =
      "PRODUCTION_WORKER_DB_PASSWORD_DISPATCHER" ∷ "PRODUCTION_WORKER_DB_PASSWORD_WORKER"
      ∷ "PRODUCTION_WORKER_DB_PASSWORD_PROJECTOR" ∷ "PRODUCTION_WORKER_ACCEPTED_AFTER"
      ∷ "PRODUCTION_WORKER_TICK_ACTIVATION" ∷ [];
  observations = some (record {
    count = some 3;
    distinct_minutes = some 3;
    first_at = some 1800000001000;
    last_at = some 1800000181000;
  });
  observed_at = some now;
}

collected : collect_dormant_proof event_of port facts now ≡ passed recorded
unfolding collect_dormant_proof observe live_state zao_rental.Release.Dormant.check_deployment
    zao_rental.Release.Dormant.check_project zao_rental.Release.Dormant.check_env
    zao_rental.Release.Dormant.Observe.check_rows zao_rental.Release.Dormant.Observe.check_times
collected = refl

-- A line that was cut after the activated event counts as one.
cut_line : mentions_activated (codes "xx normal_worker_tick") ≡ true
cut_line = refl

past : (t : ℕ) → IsTime t (keep (is_relevant none) logs) → t ≤ now
past t (l, m, e) = ground (arith, m, e)

live_answer : live_state port facts ≡ passed deployed
unfolding live_state zao_rental.Release.Dormant.check_deployment
    zao_rental.Release.Dormant.check_project zao_rental.Release.Dormant.check_env
live_answer = refl

older :
    (dep : DeploymentFacts) (c t : ℕ)
    → live_state port facts ≡ passed dep
    → dep.created_at ≡ some c
    → IsTime t (keep (is_relevant none) logs)
    → c ≤ t
older dep c t live known (l, m, e) =
    let same : deployed ≡ dep = ground (arith, live_answer, live) in
    let at : some 1799999000000 ≡ some c = ap (λ d. d.created_at) same ∙ known in
    ground (arith, at, m, e)

verify-collect_example :
    verify_dormant_proof event_of (some recorded) port facts now ≡ passed recorded
verify-collect_example =
    verify-collect event_of port facts now recorded logs collected (λ w. refl) past older

observed_now : (o : Observed) × (observe event_of port facts 15 now none ≡ passed o)
unfolding observe live_state zao_rental.Release.Dormant.check_deployment
    zao_rental.Release.Dormant.check_project zao_rental.Release.Dormant.check_env
    zao_rental.Release.Dormant.Observe.check_rows zao_rental.Release.Dormant.Observe.check_times
observed_now = (_, refl)
