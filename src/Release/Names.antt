-- ===== src/Release/Names.antt =====
-- Databases, services and the names of their roles: scripts/production-app-roles.ts and the first part
-- of scripts/production-credential-activation.ts.
pub mod Canary
use zao_rental.Common.{
  ℕ, Bool, true, false, not, ◌&&◌, ◌||◌, List, [], ◌∷◌, String, leb, ◌==◌, length, every,
}
use Prim.Native.String.{◌++◌ as str_append}
use zao_rental.Contracts.Flow.{codes}
use zao_rental.Common.Checked.{Checked, passed, ◌>>=◌, ◌>>◌, ensure}

pub data Code : Type 0 where
  database_name_invalid role_name_too_long role_name_invalid temporary_password_invalid
        target_invalid reset_response_invalid pending_reset_required reset_not_completed
        database_client_required clock_read_invalid clock_proof_required time_invalid
        completed_reset_required lease_proof_required probe_evidence_invalid restart_canary_only
        probe_proof_required restart_evidence_invalid sink_proof_required sink_not_confirmed
        sink_confirmation_required finalization_attempt_required finalization_failed :
      Code

pub data Service : Type 0 where
  auth ledger hold transfer pricing recommendation operations guest content_read booking_access :
      Service

abbrev is_lower : ℕ → Bool
is_lower c = leb b'a' c && leb c b'z'

abbrev pub is_digit : ℕ → Bool
is_digit c = leb b'0' c && leb c b'9'

abbrev is_word : ℕ → Bool
is_word c = is_lower c || is_digit c || c == b'_'

-- `/^[a-z][a-z0-9_]{2,62}$/`
abbrev pub identifier : List ℕ → Bool
identifier [] = false
identifier (c ∷ cs) = is_lower c && leb 2 (length cs) && leb (length cs) 62 && every is_word cs

abbrev is_hex : ℕ → Bool
is_hex c = is_digit c || (leb b'a' c && leb c b'f')

-- `/^zr_[a-f0-9]{12}$/`
abbrev is_scratch : List ℕ → Bool
is_scratch (a ∷ b ∷ c ∷ cs) =
    a == b'z' && b == b'r' && c == b'_' && length cs == 12 && every is_hex cs
is_scratch _ = false

-- `assertProductionDatabaseName`
unfoldable pub assert_production_database_name : String → Checked Code (Unit {0})
assert_production_database_name database =
    ensure (identifier (codes database) && not (is_scratch (codes database))) database_name_invalid

abbrev pub suffix_of : Service → String
suffix_of auth = "_auth"
suffix_of ledger = "_ledger"
suffix_of hold = "_hold"
suffix_of transfer = "_transfer"
suffix_of pricing = "_pricing"
suffix_of recommendation = "_recommendation"
suffix_of operations = "_operations"
suffix_of guest = "_guest"
suffix_of content_read = "_content_read"
suffix_of booking_access = "_booking_access"

abbrev services : List Service
services =
    auth ∷ ledger ∷ hold ∷ transfer ∷ pricing ∷ recommendation ∷ operations ∷ guest ∷ content_read
    ∷ booking_access ∷ []

-- `assertIdentifierLength`; a database's name is ASCII where it is reached.
abbrev is_short : String → Bool
is_short name = leb (length (codes name)) 63

-- `productionAppRoleNames` and `roleFor`: all eleven names have to be short, that of the avatar
-- reader included.
unfoldable pub role_for : String → Service → Checked Code String
role_for database service = do
  assert_production_database_name database
  ensure
      (every (λ x. is_short (str_append database (suffix_of x))) services
        && is_short (str_append database "_avatar_read"))
      role_name_too_long
  passed (str_append database (suffix_of service))

-- `qi`
unfoldable pub quoted : String → Checked Code String
quoted name = do
  ensure (identifier (codes name) && is_short name) role_name_invalid
  passed (str_append "\"" (str_append name "\""))

-- `managerSet`
unfoldable pub manager_set : String → Checked Code String
manager_set database = do
  name ← quoted (str_append database "_role_admin")
  passed (str_append "SET LOCAL ROLE " name)

-- `sinkKeyFor`
abbrev pub sink_key_for : Service → String
sink_key_for auth = "PRODUCTION_DB_PASSWORD_AUTH"
sink_key_for ledger = "PRODUCTION_DB_PASSWORD_LEDGER"
sink_key_for hold = "PRODUCTION_DB_PASSWORD_HOLD"
sink_key_for transfer = "PRODUCTION_DB_PASSWORD_TRANSFER"
sink_key_for pricing = "PRODUCTION_DB_PASSWORD_PRICING"
sink_key_for recommendation = "PRODUCTION_DB_PASSWORD_RECOMMENDATION"
sink_key_for operations = "PRODUCTION_DB_PASSWORD_OPERATIONS"
sink_key_for guest = "PRODUCTION_DB_PASSWORD_GUEST"
sink_key_for content_read = "PRODUCTION_DB_PASSWORD_CONTENT_READ"
sink_key_for booking_access = "PRODUCTION_DB_PASSWORD_BOOKING_ACCESS"

-- `PRODUCTION_CREDENTIAL_CANARY`, and whether a service is it.
abbrev pub is_canary : Service → Bool
is_canary content_read = true
is_canary _ = false
