-- ===== src/Release/Dormant.antt =====
-- The proof that the scheduler reaches the dormant worker: scripts/production-worker-dormant-proof.ts.
-- The host's answers are a port, whose calls may throw; a value of another type than the expected one
-- is `none`.
pub mod Observe
pub mod Proof
pub mod Cadence
pub mod Ticks
pub mod Return
pub mod Verified
pub mod Accepted
pub mod Logs
mod Tests
use zao_rental.Common.{
  ℕ, zero, suc, ◌+◌, ◌-◌, ◌*◌, ◌/◌, ◌%◌, ◌^◌, ◌≤◌, ◌<◌, min, max, ◌≡◌, refl, sym, ap, subst, ◌∙◌,
  ◌≢◌, ◌↔◌, ◌⊎◌, inl, inr, Bool, true, false, not, ◌&&◌, ◌||◌, Option, none, some, List, [], ◌∷◌,
  ◌++◌, map, arith, String, str_eq, ltb, leb, ◌==◌, if◌then◌else◌, ltb→lt, leb→le, le→leb, ==_iff,
  ==_refl, Bool-cases, &&-eq-true, Option-cases, length, length-append, any, every, keep, find,
  total, All, All-append, All-imp, total-append, keep-append, includes, In, In-append_left,
  In-append_right, In-append-cases, All-In, In-keep, keep-In, find-In, any-In, every-In,
}
use zao_rental.Contracts.Flow.{codes}
use zao_rental.Common.Checked.{Checked, passed, refused, ◌>>=◌, ◌>>◌, ensure}

-- `fail(code)`, and `port_failed` for an error of the port.
pub data ProofError : Type 0 where
  facts_invalid deployment_mismatch deployment_facts_incomplete deployment_not_ready_production
        wrong_source cron_not_defined not_current_deployment protection_not_all
        cron_secret_not_first_and_sensitive activation_name_already_bound no_requests_observed
        unexpected_request activated_tick_observed request_without_dormant_event
        too_few_observations cadence_not_scheduler observation_stale shape_invalid stale
        record_not_in_log port_failed :
      ProofError

-- A defined cron: its path and its schedule.
pub record Cron : Type 0 where
  pub path : String
  pub schedule : String

-- `created_at` is `none` where it is not finite.
pub record DeploymentFacts : Type 0 where
  pub id : String
  pub project_id : String
  pub target : String
  pub ready_state : String
  pub created_at : Option ℕ
  pub git_commit_sha : Option String
  pub git_dirty : Bool
  pub crons : List Cron

pub record ProjectFacts : Type 0 where
  pub id : String
  pub production_deployment_id : Option String
  pub protection_type : Option String

-- `VercelEnvRow`
pub record EnvRow : Type 0 where
  pub key : String
  pub kind : String
  pub target : List String

-- `RequestLog`; `timestamp` is `none` where it is not finite.
pub record RequestLog : Type 0 where
  pub timestamp : Option ℕ
  pub deployment_id : String
  pub project_id : Option String
  pub environment : Option String
  pub request_method : String
  pub request_path : String
  pub response_status_code : ℕ
  pub messages : List String

-- `DormantProofPort`
pub record ProofPort : Type 0 where
  pub deployment : String → Checked ProofError DeploymentFacts
  pub project : Checked ProofError ProjectFacts
  pub env_rows : Checked ProofError (List EnvRow)
  pub request_logs : String → ℕ → Checked ProofError (List RequestLog)

pub record ProofFacts : Type 0 where
  pub release_sha : String
  pub deployment_id : String

abbrev pub cron_path : String
cron_path = "/api/internal/worker-tick"

abbrev cron_schedule : String
cron_schedule = "* * * * *"

-- `VERCEL_TARGET`
abbrev pub target_project : String
target_project = "prj_ehUMOzM77em9DVnHJBJffncD5hg7"

abbrev pub target_environment : String
target_environment = "production"

-- `ABSENT`
abbrev pub absent_names : List String
absent_names =
    "PRODUCTION_WORKER_DB_PASSWORD_DISPATCHER" ∷ "PRODUCTION_WORKER_DB_PASSWORD_WORKER"
    ∷ "PRODUCTION_WORKER_DB_PASSWORD_PROJECTOR" ∷ "PRODUCTION_WORKER_ACCEPTED_AFTER"
    ∷ "PRODUCTION_WORKER_TICK_ACTIVATION" ∷ []

abbrev is_digit : ℕ → Bool
is_digit c = leb b'0' c && leb c b'9'

-- `/^[a-f0-9]{40}$/`
abbrev is_sha1 : String → Bool
is_sha1 s =
    length (codes s) == 40 && every (λ c. is_digit c || (leb b'a' c && leb c b'f')) (codes s)

abbrev is_alphanumeric : ℕ → Bool
is_alphanumeric c = is_digit c || (leb b'a' c && leb c b'z') || (leb b'A' c && leb c b'Z')

-- `DEPLOYMENT_ID`
abbrev is_deployment_tail : List ℕ → Bool
is_deployment_tail (d ∷ p ∷ l ∷ u ∷ cs) =
    d == b'd'
    && p == b'p'
    && l == b'l'
    && u == b'_'
    && leb 8 (length cs)
    && leb (length cs) 64
    && every is_alphanumeric cs
is_deployment_tail _ = false

abbrev is_deployment_id : String → Bool
is_deployment_id s = is_deployment_tail (codes s)

abbrev pub equals : Option String → String → Bool
equals none s = false
equals (some t) s = str_eq t s

abbrev pub is_finite : Option ℕ → Bool
is_finite none = false
is_finite (some n) = true

abbrev is_sole : List String → String → Bool
is_sole (t ∷ []) s = str_eq t s
is_sole _ s = false

abbrev is_sole_secret : List EnvRow → Bool
is_sole_secret (r ∷ []) = str_eq r.kind "sensitive" && is_sole r.target target_environment
is_sole_secret _ = false

-- The tests of `liveState` on the deployment.
unfoldable pub check_deployment : ProofFacts → DeploymentFacts → Checked ProofError (Unit {0})
check_deployment facts dep = do
  ensure (str_eq dep.id facts.deployment_id && str_eq dep.project_id target_project)
      deployment_mismatch
  ensure (is_finite dep.created_at) deployment_facts_incomplete
  ensure (str_eq dep.target "production" && str_eq dep.ready_state "READY")
      deployment_not_ready_production
  ensure (equals dep.git_commit_sha facts.release_sha && not dep.git_dirty) wrong_source
  ensure (any (λ c. str_eq c.path cron_path && str_eq c.schedule cron_schedule) dep.crons)
      cron_not_defined

-- Those on the project, and those on the names of the environment.
unfoldable pub check_project : ProofFacts → ProjectFacts → Checked ProofError (Unit {0})
check_project facts project = do
  ensure
      (str_eq project.id target_project
        && equals project.production_deployment_id facts.deployment_id)
      not_current_deployment
  ensure (equals project.protection_type "all") protection_not_all

unfoldable pub check_env : List EnvRow → Checked ProofError (Unit {0})
check_env rows = do
  ensure (is_sole_secret (keep (λ r. str_eq r.key "CRON_SECRET") rows))
      cron_secret_not_first_and_sensitive
  ensure (not (any (λ n. any (λ r. str_eq r.key n) rows) absent_names))
      activation_name_already_bound

-- `liveState`
unfoldable pub live_state : ProofPort → ProofFacts → Checked ProofError DeploymentFacts
live_state port facts = do
  ensure (is_sha1 facts.release_sha && is_deployment_id facts.deployment_id) facts_invalid
  dep ← port.deployment facts.deployment_id
  check_deployment facts dep
  project ← port.project
  check_project facts project
  rows ← port.env_rows
  check_env rows
  passed dep
