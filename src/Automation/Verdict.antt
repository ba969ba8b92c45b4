-- ===== src/Automation/Verdict.antt =====
-- `evaluate`: the verdict on the evidence of a round.
pub mod Ready
use zao_rental.Common.{
  ℕ, zero, suc, ◌+◌, ◌-◌, ◌*◌, ◌/◌, ◌%◌, ◌^◌, ◌≤◌, ◌<◌, min, max, ◌≡◌, refl, sym, ap, subst, ◌∙◌,
  ◌≢◌, ◌↔◌, ◌⊎◌, inl, inr, Bool, true, false, not, ◌&&◌, ◌||◌, Option, none, some, List, [], ◌∷◌,
  ◌++◌, map, arith, String, str_eq, ltb, leb, ◌==◌, if◌then◌else◌, ltb→lt, leb→le, le→leb, ==_iff,
  ==_refl, Bool-cases, &&-eq-true, Option-cases, length, length-append, any, every, keep, find,
  total, All, All-append, All-imp, total-append, keep-append, includes, In, In-append_left,
  In-append_right, In-append-cases, All-In, In-keep, keep-In, find-In, any-In, every-In,
}
use zao_rental.Automation.Runner.{
  Reason, time_or_round_limit, evidence_identity_mismatch, implementation_or_draft_missing,
  ci_missing_pending_or_stale, fix_round_limit, invalid_or_missing_review, stale_review,
  review_unverified, review_not_acceptable, ci_failed, review_findings, evidence_ready_no_merge,
  Policy, Approval, check_changed_files, is_sha,
}

-- What a check reports; `absent` stands for any other text, and for no entry.
pub data Conclusion : Type 0 where
  success failure absent : Conclusion

pub record Ci : Type 0 where
  pub head_sha : String
  pub checks : List (String × Conclusion)
  pub run_id : String

pub data Verdict : Type 0 where
  pass changes_required blocked_verdict : Verdict

pub data Severity : Type 0 where
  blocker high medium low : Severity

-- A review that its schema accepts.
pub record Review : Type 0 where
  pub task_id : String
  pub base_sha : String
  pub head_sha : String
  pub spec_hash : String
  pub verdict : Verdict
  pub unverified : List String
  pub findings : List Severity

pub record Evidence : Type 0 where
  pub task_id : String
  pub base_sha : String
  pub spec_hash : String
  pub head_sha : String
  pub changed_files : List String
  pub command_exit_codes : List ℕ
  pub draft : Bool
  pub ci : Ci
  pub review : Option Review

-- `Result`, without the head, which is always that of the evidence.
pub data Decision : Type 0 where
  awaiting_approval : ℕ → Decision
  fix_required : Reason → ℕ → Decision
  blocked : Reason → ℕ → Decision

abbrev pub conclusion_of : List (String × Conclusion) → String → Conclusion
conclusion_of [] name = absent
conclusion_of ((k, c) ∷ m) name = if str_eq k name then c else conclusion_of m name

abbrev pub is_settled : Conclusion → Bool
is_settled absent = false
is_settled _ = true

abbrev pub is_failure : Conclusion → Bool
is_failure failure = true
is_failure _ = false

abbrev is_pass : Verdict → Bool
is_pass pass = true
is_pass _ = false

abbrev is_changes : Verdict → Bool
is_changes changes_required = true
is_changes _ = false

abbrev is_blocked : Verdict → Bool
is_blocked blocked_verdict = true
is_blocked _ = false

abbrev pub is_minor : Severity → Bool
is_minor medium = true
is_minor low = true
is_minor _ = false

abbrev is_major : Severity → Bool
is_major s = not (is_minor s)

-- Whether milliseconds have reached the limit of the policy.
abbrev pub is_over : Option ℕ → ℕ → Bool
is_over none ms = false
is_over (some minutes) ms = leb (minutes * 60000) ms

-- One more round, or none where the limit is reached.
abbrev pub next_round : Policy → Reason → ℕ → Decision
next_round policy reason round =
    if leb policy.max_fix_rounds round
    then blocked fix_round_limit round
    else fix_required reason (round + 1)

unfoldable pub judge_review : Approval → Policy → Evidence → ℕ → Option Review → Decision
judge_review approval policy e round none = blocked invalid_or_missing_review round
judge_review approval policy e round (some r) =
    if not (
      str_eq r.task_id approval.task_id
      && str_eq r.base_sha approval.base_sha
      && str_eq r.head_sha e.head_sha
      && str_eq r.spec_hash approval.spec_hash)
    then blocked stale_review round
    else if is_blocked r.verdict || ltb 0 (length r.unverified)
    then blocked review_unverified round
    else if is_pass r.verdict && every is_minor r.findings
    then awaiting_approval round
    else if is_changes r.verdict || any is_major r.findings
    then next_round policy review_findings round
    else blocked review_not_acceptable round

unfoldable pub judge_ci : Approval → Policy → Evidence → ℕ → Decision
judge_ci approval policy e round =
    if not (
      str_eq e.ci.head_sha e.head_sha
      && not (str_eq e.ci.run_id "")
      && every (λ c. is_settled (conclusion_of e.ci.checks c)) policy.required_checks)
    then blocked ci_missing_pending_or_stale round
    else if any (λ c. is_failure (conclusion_of e.ci.checks c)) policy.required_checks
    then next_round policy ci_failed round
    else judge_review approval policy e round e.review

abbrev pub scoped : Option Reason → ℕ → Decision → Decision
scoped none round d = d
scoped (some reason) round d = blocked reason round

-- `evaluate`; the elapsed time in milliseconds.
unfoldable pub evaluate : Approval → Policy → Evidence → ℕ → ℕ → Decision
evaluate approval policy e round elapsed =
    if ltb policy.max_fix_rounds round || is_over policy.max_minutes elapsed
    then blocked time_or_round_limit round
    else if not (
        str_eq e.task_id approval.task_id
        && str_eq e.base_sha approval.base_sha
        && str_eq e.spec_hash approval.spec_hash
        && is_sha e.head_sha)
    then blocked evidence_identity_mismatch round
    else if not
        (e.draft && ltb 0 (length e.command_exit_codes) && every (λ c. c == 0) e.command_exit_codes)
    then blocked implementation_or_draft_missing round
    else scoped (check_changed_files approval policy e.changed_files) round
        (judge_ci approval policy e round)
