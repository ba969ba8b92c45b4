-- ===== src/Release/Credential/Containment.antt =====
-- Containment of a role, its baseline, and the two requests that are never repeated.
pub mod Schedule
use zao_rental.Common.{
  ℕ, zero, suc, ◌+◌, Bool, true, false, ◌&&◌, ◌||◌, Option, none, some, List, [], ◌∷◌, String,
  str_eq, ltb, leb, ◌==◌, if◌then◌else◌, length, every,
}
use Prim.Native.String.{◌++◌ as str_append}
use zao_rental.Contracts.Flow.{codes}
use zao_rental.Common.Checked.{Checked, passed, ◌>>=◌, ◌>>◌, ensure}
use zao_rental.Release.Names.{
  Code, Service, target_invalid, role_for, quoted, manager_set, is_digit,
}
use zao_rental.Release.Credential.Stages.{Readback, is_true, is_false}

abbrev is_slug : List ℕ → Bool
is_slug cs =
    leb 1 (length cs)
    && leb (length cs) 60
    && every (λ c. (leb b'a' c && leb c b'z') || is_digit c || c == b'-') cs

-- `PROJECT_ID`, and `BRANCH_ID` and `ENDPOINT_ID` after their two letters and dash.
abbrev is_project : String → Bool
is_project s = is_slug (codes s)

abbrev is_tagged : ℕ → ℕ → List ℕ → Bool
is_tagged p q (a ∷ b ∷ c ∷ cs) = a == p && b == q && c == b'-' && is_slug cs
is_tagged p q _ = false

-- A request; all are POST.
pub record Request : Type 0 where
  pub path : String
  pub is_idempotent : Bool
  pub max_calls : ℕ

-- `productionCredentialResetPasswordRequest`
unfoldable pub reset_password_request : String → String → String → Service → Checked Code Request
reset_password_request project branch database service = do
  ensure (is_project project && is_tagged b'b' b'r' (codes branch)) target_invalid
  role ← role_for database service
  passed (record {
    path = str_append "/projects/" (
        str_append project (
          str_append "/branches/"
            (str_append branch (str_append "/roles/" (str_append role "/reset_password")))));
    is_idempotent = false;
    max_calls = 1;
  })

-- `productionCredentialRestartRequest`
unfoldable pub restart_request : String → String → Checked Code Request
restart_request project endpoint = do
  ensure (is_project project && is_tagged b'e' b'p' (codes endpoint)) target_invalid
  passed (record {
    path =
        str_append "/projects/"
          (str_append project (str_append "/endpoints/" (str_append endpoint "/restart")));
    is_idempotent = false;
    max_calls = 1;
  })

-- `productionCredentialRollbackSql`
unfoldable pub rollback_sql : String → Service → Checked Code (List String)
rollback_sql database service = do
  first ← manager_set database
  role ← role_for database service
  name ← quoted role
  passed (
      first
      ∷ str_append "ALTER ROLE " (str_append name " NOLOGIN PASSWORD NULL VALID UNTIL 'infinity'")
      ∷ [])

pub data Baseline : Type 0 where
  ready_pristine ready_normalized stale_lease not_ready : Baseline

abbrev baseline_until : Option String → Baseline
baseline_until none = ready_pristine
baseline_until (some s) =
    if str_eq s "infinity" then ready_normalized else if str_eq s "" then not_ready else stale_lease

-- `productionCredentialBaseline`
unfoldable pub baseline : Option Readback → Baseline
baseline none = not_ready
baseline (some r) =
    if is_false r.can_login && is_true r.password_is_null
    then baseline_until r.valid_until
    else not_ready

abbrev pub is_normalized : Baseline → Bool
is_normalized ready_normalized = true
is_normalized _ = false

-- `productionCredentialContainmentComplete`
unfoldable pub containment_complete : Option Readback → Bool
containment_complete r = is_normalized (baseline r)

abbrev pub backoff_seconds : ℕ → ℕ
backoff_seconds zero = 5
backoff_seconds (suc zero) = 10
backoff_seconds (suc (suc zero)) = 20
backoff_seconds (suc (suc (suc i))) = 30

-- `productionCredentialContainmentSchedule`, with the window as an argument (600 in the source). A
-- delay is at least one second, so the fuel, which starts at the window, is never used up.
unfoldable pub schedule_from : ℕ → ℕ → ℕ → ℕ → List ℕ
schedule_from zero window i sum = []
schedule_from (suc fuel) window i sum =
    let rest = schedule_from fuel window (i + 1) (sum + backoff_seconds i) in
    if ltb window (sum + backoff_seconds i) then [] else backoff_seconds i ∷ rest

unfoldable pub containment_schedule : ℕ → List ℕ
containment_schedule window = schedule_from (window + 1) window 0 0

pub data RestartClass : Type 0 where
  terminal_success terminal_failure pending_restart anomalous : RestartClass

-- The status of a restart's operation; `other_status` is any other value.
pub data RestartStatus : Type 0 where
  finished skipped failed errored cancelled scheduling running cancelling other_status :
      RestartStatus

abbrev no_error : Option String → Bool
no_error none = true
no_error (some s) = str_eq s ""

abbrev is_zero : Option ℕ → Bool
is_zero none = false
is_zero (some n) = n == 0

-- `productionCredentialRestartOperationClass`
unfoldable pub restart_operation_class : RestartStatus → Option String → Option ℕ → RestartClass
restart_operation_class finished e n = terminal_success
restart_operation_class skipped e n =
    if is_zero n && no_error e then terminal_success else anomalous
restart_operation_class failed e n = terminal_failure
restart_operation_class errored e n = terminal_failure
restart_operation_class cancelled e n = terminal_failure
restart_operation_class scheduling e n = pending_restart
restart_operation_class running e n = pending_restart
restart_operation_class cancelling e n = pending_restart
restart_operation_class other_status e n = anomalous
