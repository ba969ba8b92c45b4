-- ===== src/Release/Credential/Stages.antt =====
-- From the first login to the finalized role: the checks of the later operations, the containment, and
-- the baseline of a role.
use zao_rental.Common.{
  ℕ, Bool, false, not, ◌&&◌, Option, none, some, List, [], ◌∷◌, String, str_eq, ◌==◌, if◌then◌else◌,
  keep,
}
use Prim.Native.String.{◌++◌ as str_append}
use zao_rental.Common.Checked.{Checked, passed, refused, ◌>>=◌, ◌>>◌, ensure}
use zao_rental.Release.Names.{
  Code, Service, completed_reset_required, probe_evidence_invalid, restart_canary_only,
  probe_proof_required, restart_evidence_invalid, sink_proof_required, sink_not_confirmed,
  sink_confirmation_required, finalization_attempt_required, finalization_failed, role_for, quoted,
  manager_set, is_canary, sink_key_for,
}
use zao_rental.Release.Credential.{
  Object, Holder, Confirmed, Attempt, Store, completed_part, probe_part, restart_part,
  confirmed_part, attempt_part, given, require_stage,
}

-- `COMMERCIAL_CREDENTIAL_PROBES`: the query that has to succeed, the one that has to fail, and how.
pub record Probe : Type 0 where
  pub positive : String
  pub negative : String
  pub negative_sql_state : String

abbrev denied : String → String → Probe
denied yes_query no_query = record {
  positive = yes_query;
  negative = no_query;
  negative_sql_state = "42501";
}

abbrev pub probe_for : Service → Probe
probe_for Service.auth =
    denied "SELECT count(*) FROM staff_role_permissions" "SELECT 1 FROM guest_contexts LIMIT 1"
probe_for Service.ledger =
    denied "SELECT count(*) FROM ledger_models" "SELECT 1 FROM auth_user LIMIT 1"
probe_for Service.hold =
    denied "SELECT count(*) FROM inventory_holds" "SELECT 1 FROM auth_session LIMIT 1"
probe_for Service.transfer =
    denied "SELECT count(*) FROM inventory_claims" "SELECT 1 FROM auth_account LIMIT 1"
probe_for Service.pricing =
    denied "SELECT count(*) FROM price_books" "SELECT 1 FROM ledger_assets LIMIT 1"
probe_for Service.recommendation =
    denied "SELECT count(*) FROM recommendation_selections" "SELECT 1 FROM price_books LIMIT 1"
probe_for Service.operations =
    denied "SELECT count(*) FROM ledger_stores" "SELECT 1 FROM auth_user LIMIT 1"
probe_for Service.guest =
    denied "SELECT count(*) FROM guest_policy_versions" "SELECT 1 FROM staff_members LIMIT 1"
probe_for Service.content_read =
    denied "SELECT count(*) FROM content_public_policies" "SELECT 1 FROM ledger_poles LIMIT 1"
probe_for Service.booking_access =
    denied "SELECT booking_access.read('nonexistent')" "SELECT 1 FROM guest_contexts LIMIT 1"

-- `ProductionCredentialProbeEvidence`
pub record ProbeEvidence : Type 0 where
  pub current_user : String
  pub session_user : String
  pub tls_verify_full : Bool
  pub positive : String
  pub negative_sql_state : Option String
  pub posture_unchanged : Bool

abbrev is_state : Option String → String → Bool
is_state none expected = false
is_state (some s) expected = str_eq s expected

abbrev pub is_proof : String → Service → ProbeEvidence → Bool
is_proof role service e =
    str_eq e.current_user role
    && str_eq e.session_user role
    && e.tls_verify_full
    && str_eq e.positive "PASS"
    && is_state e.negative_sql_state (probe_for service).negative_sql_state
    && e.posture_unchanged

-- `assertProbeEvidence`
unfoldable pub assert_probe_evidence :
    String → Service → Option ProbeEvidence → Checked Code (Unit {0})
assert_probe_evidence role service none = refused probe_evidence_invalid
assert_probe_evidence role service (some e) =
    ensure (is_proof role service e) probe_evidence_invalid

-- The checks of `productionCredentialProbeProven`.
unfoldable pub check_probe :
    String → Service → ℕ → Option ProbeEvidence → Store → Checked Code Holder
check_probe database service i e s = do
  h ← require_stage completed_part (λ x. x.role) completed_reset_required database service i s
  assert_probe_evidence h.role service e
  passed h

-- Evidence of a restart; `authenticated_with` is the object that authenticated again.
pub record RestartEvidence : Type 0 where
  pub probes : ProbeEvidence
  pub restart_proven : Bool
  pub authenticated_with : Option ℕ

abbrev is_same : Option ℕ → ℕ → Bool
is_same none i = false
is_same (some j) i = j == i

-- The checks of `productionCredentialRestartProven`.
unfoldable pub check_restart :
    String → Service → ℕ → Option RestartEvidence → Store → Checked Code Holder
check_restart database service i e s = do
  ensure (is_canary service) restart_canary_only
  h ← require_stage probe_part (λ x. x.role) probe_proof_required database service i s
  r ← given e restart_evidence_invalid
  ensure (r.restart_proven && is_same r.authenticated_with i) restart_evidence_invalid
  assert_probe_evidence h.role service (some r.probes)
  passed h

-- The stage that a sink asks for.
abbrev pub proof_part : Service → Object → Option Holder
proof_part service = if is_canary service then restart_part else probe_part

-- `productionCredentialSink`: the key and the value.
unfoldable pub credential_sink : String → Service → ℕ → Store → Checked Code (String × String)
credential_sink database service i s = do
  h ← require_stage (proof_part service) (λ x. x.role) sink_proof_required database service i s
  passed (sink_key_for service, h.password)

pub record SinkRow : Type 0 where
  pub key : String
  pub kind : String
  pub target : List String

abbrev is_production : List String → Bool
is_production (t ∷ []) = str_eq t "production"
is_production _ = false

abbrev pub is_sole_sensitive : List SinkRow → Bool
is_sole_sensitive (r ∷ []) = str_eq r.kind "sensitive" && is_production r.target
is_sole_sensitive _ = false

-- The checks of `productionCredentialSinkConfirmed`.
unfoldable pub check_sink : String → Service → ℕ → List SinkRow → Store → Checked Code Confirmed
check_sink database service i rows s = do
  h ← require_stage (proof_part service) (λ x. x.role) sink_proof_required database service i s
  ensure (is_sole_sensitive (keep (λ r. str_eq r.key (sink_key_for service)) rows))
      sink_not_confirmed
  passed (record { role = h.role; sink_key = sink_key_for service })

-- `productionCredentialFinalizationSql`, which uses up its confirmation before it builds the SQL.
unfoldable pub check_finalization : String → Service → ℕ → Store → Checked Code Confirmed
check_finalization database service i s =
    require_stage confirmed_part (λ x. x.role) sink_confirmation_required database service i s

unfoldable pub finalization_of : String → Service → Confirmed → Checked Code Attempt
finalization_of database service c = do
  first ← manager_set database
  role ← role_for database service
  name ← quoted role
  passed (record {
    role = c.role;
    sink_key = c.sink_key;
    sql = first ∷ str_append "ALTER ROLE " (str_append name " VALID UNTIL 'infinity'") ∷ [];
  })

-- `rolvaliduntil` as text, or null.
pub record Readback : Type 0 where
  pub can_login : Option Bool
  pub password_is_null : Option Bool
  pub valid_until : Option String

abbrev pub is_true : Option Bool → Bool
is_true none = false
is_true (some b) = b

abbrev pub is_false : Option Bool → Bool
is_false none = false
is_false (some b) = not b

abbrev pub is_infinite : Option String → Bool
is_infinite none = false
is_infinite (some s) = str_eq s "infinity"

-- `productionCredentialFinalized`: the test before the attempt is used up, and the one after.
unfoldable pub check_attempt : String → Service → ℕ → Store → Checked Code Attempt
check_attempt database service i s =
    require_stage attempt_part (λ x. x.role) finalization_attempt_required database service i s

unfoldable pub judge_readback : Option Readback → Checked Code (Unit {0})
judge_readback none = refused finalization_failed
judge_readback (some r) =
    ensure (is_true r.can_login && is_infinite r.valid_until) finalization_failed
