-- ===== src/Release/Credential/Tests.antt =====
-- Runs of the credential's lifecycle.
use zao_rental.Common.{ℕ, ◌≡◌, refl, true, false, Option, none, some, List, [], ◌∷◌, String, length}
use zao_rental.Common.Checked.{passed, is_passed}
use zao_rental.Release.Names.{Code, Service, role_for}
use zao_rental.Release.Credential.{
  Object, pending, Holder, Confirmed, Attempt, Store, nothing_yet, held, pending_part,
}
use zao_rental.Release.Credential.Reset.{
  ResetBody, check_complete_reset, check_reset_response, keys_of, is_finished,
}
use zao_rental.Release.Credential.Stages.{
  ProbeEvidence, RestartEvidence, SinkRow, Readback, finalization_of, check_attempt,
}
use zao_rental.Release.Credential.Containment.{backoff_seconds, containment_schedule}
use zao_rental.Release.Credential.Calls.{
  Call, complete_reset, prove_probe, prove_restart, confirm_sink, finalization_sql, finalize,
  password_from_reset_response, Output, activated, perform, now, Reaches, start, and_then, logged,
}
use zao_rental.Release.Credential.Once.{perform-once}
use zao_rental.Release.Credential.Milestones.{Ordered}
use zao_rental.Release.Credential.Milestones.Trace.{finalize-Ordered, lifecycle, SaysActive}
use zao_rental.Release.Credential.Lifecycle.{run_from}
use zao_rental.Release.Credential.Lifecycle.Active.{run_from-canary, first_calls, last_calls}

abbrev iso : ℕ → String → String
iso t fraction = "2026-11-01T00:20:00Z"

abbrev canary : Service
canary = Service.content_read

abbrev operation : String
operation = "0a1b2c3d-0000-4000-8000-00000000000f"

abbrev temporary : String
temporary = "abcdefghijklmnopqrstuvwxyzABCDEFGHIJKLMNOPQ"

abbrev role : String
role = "zao_prod_content_read"

abbrev holder : Holder
holder = record { role = role; password = "a-long-enough-password"; operation_ids = operation ∷ [] }

abbrev body : Option ResetBody
body = some (record {
  name = some role;
  password = some "a-long-enough-password";
  operations = some (some operation ∷ []);
})

abbrev statuses : List (String × String)
statuses = (operation, "finished") ∷ []

abbrev evidence : ProbeEvidence
evidence = record {
  current_user = role;
  session_user = role;
  tls_verify_full = true;
  positive = "PASS";
  negative_sql_state = some "42501";
  posture_unchanged = true;
}

abbrev restarted : RestartEvidence
restarted = record { probes = evidence; restart_proven = true; authenticated_with = some 2 }

abbrev restarted_after_login : RestartEvidence
restarted_after_login = record restarted { authenticated_with = some 4 }

-- The first of November 2026.
abbrev midnight : ℕ
midnight = 1793491200000

abbrev rows : List SinkRow
rows =
    record {
      key = "PRODUCTION_DB_PASSWORD_CONTENT_READ";
      kind = "sensitive";
      target = "production" ∷ [];
    }
    ∷ []

abbrev readback : Readback
readback = record { can_login = some true; password_is_null = none; valid_until = some "infinity" }

abbrev attempt : Attempt
attempt = record {
  role = role;
  sink_key = "PRODUCTION_DB_PASSWORD_CONTENT_READ";
  sql =
      "SET LOCAL ROLE \"zao_prod_role_admin\""
      ∷ "ALTER ROLE \"zao_prod_content_read\" VALID UNTIL 'infinity'" ∷ [];
}

role_of_canary : role_for "zao_prod" canary ≡ passed role
unfolding role_for zao_rental.Release.Names.assert_production_database_name
role_of_canary = refl

reset_accepted : check_reset_response body role temporary ≡ passed holder
unfolding check_reset_response zao_rental.Release.Credential.Reset.assert_temporary_password
    zao_rental.Contracts.Flow.ident_char
reset_accepted = refl

-- A response that echoes the temporary password is refused.
echo_refused :
    is_passed (
      check_reset_response
        (some (record {
          name = some role;
          password = some temporary;
          operations = some (some operation ∷ []);
        }))
        role
        temporary)
    ≡ false
unfolding check_reset_response zao_rental.Release.Credential.Reset.assert_temporary_password
    zao_rental.Contracts.Flow.ident_char
echo_refused = refl

statement_built :
    finalization_of "zao_prod" canary
      (record { role = role; sink_key = "PRODUCTION_DB_PASSWORD_CONTENT_READ" })
    ≡ passed attempt
unfolding finalization_of zao_rental.Release.Names.manager_set zao_rental.Release.Names.quoted
    role_for zao_rental.Release.Names.assert_production_database_name
statement_built = refl

run_from-canary_example :
    run_from iso
      (activated attempt)
      (first_calls "zao_prod" canary body role temporary statuses evidence midnight ".5" 0 (
        prove_restart "zao_prod" canary 4 (some restarted_after_login)
        ∷ last_calls "zao_prod" canary rows readback 5))
      nothing_yet
    ≡ passed (activated attempt)
run_from-canary_example =
    run_from-canary iso "zao_prod" canary rows readback holder attempt role_of_canary refl
      statement_built refl refl refl body temporary statuses evidence restarted_after_login midnight
      ".5" nothing_yet reset_accepted refl refl refl refl (activated attempt) refl refl refl refl

schedule_of_source : length (containment_schedule 600) ≡ 21
unfolding containment_schedule zao_rental.Release.Credential.Containment.schedule_from
schedule_of_source = refl

abbrev after : Call → Store × List Output → Store × List Output
after c x = ((perform iso c x.0).1, logged (perform iso c x.0).0 x.1)

abbrev parsed : Store × List Output
parsed = after (password_from_reset_response body role temporary) (nothing_yet, [])

abbrev finished : Store × List Output
finished = after (complete_reset 0 statuses) parsed

abbrev probed : Store × List Output
probed = after (prove_probe "zao_prod" canary 1 (some evidence)) finished

abbrev persisted : Store × List Output
persisted = after (prove_restart "zao_prod" canary 2 (some restarted)) probed

abbrev sunk : Store × List Output
sunk = after (confirm_sink "zao_prod" canary 3 rows) persisted

abbrev issue : Call
issue = finalization_sql "zao_prod" canary 4

abbrev attempted : Store × List Output
attempted = after issue sunk

sunk-Reaches : Reaches iso sunk.0 sunk.1
sunk-Reaches =
    and_then _ _ _ (and_then _ _ _ (and_then _ _ _ (and_then _ _ _ (and_then _ _ _ start))))

attempted-Reaches : Reaches iso attempted.0 attempted.1
attempted-Reaches = and_then _ _ _ sunk-Reaches

check_complete_reset_passes : check_complete_reset 0 statuses parsed.0 ≡ passed holder
unfolding check_complete_reset held perform check_reset_response
    zao_rental.Release.Credential.Reset.assert_temporary_password
    zao_rental.Contracts.Flow.ident_char
check_complete_reset_passes = refl

issue_passes : is_passed (perform iso issue sunk.0).0 ≡ true
unfolding perform check_attempt held check_complete_reset check_reset_response role_for
    finalization_of zao_rental.Release.Credential.require_stage
    zao_rental.Release.Credential.Stages.check_finalization
    zao_rental.Release.Credential.Stages.check_sink
    zao_rental.Release.Credential.Stages.check_restart
    zao_rental.Release.Credential.Stages.check_probe zao_rental.Contracts.Flow.ident_char
    zao_rental.Release.Credential.Stages.assert_probe_evidence
    zao_rental.Release.Credential.Stages.judge_readback
    zao_rental.Release.Credential.Reset.assert_temporary_password
    zao_rental.Release.Names.assert_production_database_name zao_rental.Release.Names.manager_set
    zao_rental.Release.Names.quoted
issue_passes = refl

perform-once_example : is_passed (perform iso issue attempted.0).0 ≡ false
perform-once_example =
    perform-once iso sunk.0 attempted.0 sunk.1 issue issue 4 sunk-Reaches refl refl issue_passes now

attempt_passes : check_attempt "zao_prod" canary 5 attempted.0 ≡ passed attempt
unfolding perform check_attempt held check_complete_reset check_reset_response role_for
    finalization_of zao_rental.Release.Credential.require_stage
    zao_rental.Release.Credential.Stages.check_finalization
    zao_rental.Release.Credential.Stages.check_sink
    zao_rental.Release.Credential.Stages.check_restart
    zao_rental.Release.Credential.Stages.check_probe zao_rental.Contracts.Flow.ident_char
    zao_rental.Release.Credential.Stages.assert_probe_evidence
    zao_rental.Release.Credential.Stages.judge_readback
    zao_rental.Release.Credential.Reset.assert_temporary_password
    zao_rental.Release.Names.assert_production_database_name zao_rental.Release.Names.manager_set
    zao_rental.Release.Names.quoted
attempt_passes = refl

becomes_active :
    (perform iso (finalize "zao_prod" canary 5 (some readback)) attempted.0).0
    ≡ passed (activated attempt)
unfolding perform check_attempt held check_complete_reset check_reset_response role_for
    finalization_of zao_rental.Release.Credential.require_stage
    zao_rental.Release.Credential.Stages.check_finalization
    zao_rental.Release.Credential.Stages.check_sink
    zao_rental.Release.Credential.Stages.check_restart
    zao_rental.Release.Credential.Stages.check_probe zao_rental.Contracts.Flow.ident_char
    zao_rental.Release.Credential.Stages.assert_probe_evidence
    zao_rental.Release.Credential.Stages.judge_readback
    zao_rental.Release.Credential.Reset.assert_temporary_password
    zao_rental.Release.Names.assert_production_database_name zao_rental.Release.Names.manager_set
    zao_rental.Release.Names.quoted
becomes_active = refl

finalize-Ordered_example : Ordered (lifecycle canary role) attempted.1 × SaysActive (some readback)
finalize-Ordered_example =
    finalize-Ordered iso attempted.0 attempted.1 "zao_prod" canary 5 (some readback) attempt
      attempted-Reaches becomes_active
