-- ===== src/Automation/Tests.antt =====
-- A run that is ready, a path in scope, and an effect that a crash interrupts.
use zao_rental.Common.{◌≤◌, ◌≡◌, refl, true, false, none, some, [], ◌∷◌, String, ◌==◌, every, All}
use zao_rental.Automation.Runner.{Policy, Approval, split, is_special, check_path, in_scope}
use zao_rental.Automation.Verdict.{
  Verdict, Severity, Ci, Review, Evidence, Decision, awaiting_approval, success, evaluate,
}
use zao_rental.Automation.Verdict.Ready.{IsInTime, IsAllowed, IsGreen, IsAccepted, evaluate-IsReady}
use zao_rental.Automation.Journal.{
  Kind, Operation, Fate, World, result, stopped, unknown_effect, once, new_world, Reaches, begin,
  call, restart,
}
use zao_rental.Automation.Once.{times, once-at_most}

abbrev head : String
head = "0123456789abcdef0123456789abcdef01234567"

abbrev base : String
base = "89abcdef0123456789abcdef0123456789abcdef"

abbrev spec : String
spec = "0123456789abcdef0123456789abcdef0123456789abcdef0123456789abcdef"

abbrev policy : Policy
policy = record {
  enabled = false;
  auto_merge = false;
  production = false;
  paid_api = false;
  max_fix_rounds = 2;
  max_minutes = some 60;
  protected_paths = ".github/" ∷ [];
  required_checks = "verify" ∷ [];
}

abbrev approval : Approval
approval = record {
  task_id = "E01";
  status = "READY";
  base_sha = base;
  spec_hash = spec;
  allowed_paths = "packages/" ∷ [];
  dependencies_merged = true;
  expires_at = some 1800000000000;
}

abbrev reviewed : Review
reviewed = record {
  task_id = "E01";
  base_sha = base;
  head_sha = head;
  spec_hash = spec;
  verdict = Verdict.pass;
  unverified = [];
  findings = Severity.low ∷ [];
}

abbrev evidence : Evidence
evidence = record {
  task_id = "E01";
  base_sha = base;
  spec_hash = spec;
  head_sha = head;
  changed_files = "packages/core/index.ts" ∷ [];
  command_exit_codes = 0 ∷ [];
  draft = true;
  ci = record { head_sha = head; checks = ("verify", success) ∷ []; run_id = "7" };
  review = some reviewed;
}

ready : evaluate approval policy evidence 0 1000 ≡ awaiting_approval 0
unfolding evaluate zao_rental.Automation.Runner.check_changed_files check_path in_scope
    zao_rental.Automation.Verdict.judge_ci zao_rental.Automation.Verdict.judge_review
ready = refl

evaluate-IsReady_example :
    (0 ≤ policy.max_fix_rounds)
    × IsInTime policy.max_minutes 1000
    × (evidence.draft ≡ true)
    × (every (λ c. c == 0) evidence.command_exit_codes ≡ true)
    × All (IsAllowed approval policy) evidence.changed_files
    × IsGreen policy evidence
    × ((r : Review) × (evidence.review ≡ some r) × IsAccepted approval evidence r)
evaluate-IsReady_example = evaluate-IsReady approval policy evidence 0 1000 0 ready

path_valid : check_path "packages/core/index.ts" ≡ true
unfolding check_path
path_valid = refl

path_scoped : in_scope "packages/core/index.ts" "packages/" ≡ true
unfolding in_scope
path_scoped = refl

climbing_refused : check_path "packages/../secrets" ≡ false
unfolding check_path
climbing_refused = refl

abbrev pushed : Operation
pushed = record { kind = Kind.push; key = "push-0"; input_hash = "h" }

-- The process stops before it learns what the effect returned.
abbrev crash : Fate
crash = record { first_save = true; invoked = none; reconciled = none; last_save = true }

abbrev fine : Fate
fine = record { first_save = true; invoked = some "ok"; reconciled = some none; last_save = true }

abbrev crashed : World
crashed = (once pushed crash new_world).0

abbrev restarted : World
restarted = record crashed { memory = crashed.disk }

-- After the restart the effect is not made again, since nothing is known of it.
unknown_stops : (once pushed fine restarted).1 ≡ stopped unknown_effect
unfolding once
unknown_stops = refl

restarted-Reaches : Reaches (once pushed fine restarted).0
restarted-Reaches = call pushed fine restarted (restart crashed (call pushed crash new_world begin))

once-at_most_example : times "push-0" (once pushed fine restarted).0.effects ≤ 1
once-at_most_example = once-at_most (once pushed fine restarted).0 "push-0" restarted-Reaches

returned : (once pushed fine new_world).1 ≡ result "ok"
unfolding once
returned = refl
