-- ===== src/Automation/Verdict/Ready.antt =====
-- What is behind a verdict that a run may wait for its approval.
use zao_rental.Common.{
  ℕ, ◌≤◌, ◌<◌, ◌*◌, ◌≡◌, refl, ap, ◌∙◌, inl, inr, true, false, Option, none, some, List, [], ◌∷◌,
  arith, String, str_eq, ◌==◌, any, every, All, In,
}
use text.Mathlib.TextEquality.{eq_iff}
use zao_rental.Automation.Runner.{Policy, Approval, check_path, in_scope, check_changed_files}
use zao_rental.Automation.Verdict.{
  Evidence, Review, awaiting_approval, success, conclusion_of, is_settled, is_failure, is_minor,
  is_over, pass, judge_review, judge_ci, evaluate,
}

-- A file that may change: a valid path, outside every protected scope and inside an allowed one.
abbrev pub IsAllowed : Approval → Policy → String → Type 0
IsAllowed approval policy file =
    (check_path file ≡ true)
    × (any (in_scope file) policy.protected_paths ≡ false)
    × (any (in_scope file) approval.allowed_paths ≡ true)

check_changed_files-IsAllowed :
    (approval : Approval) (policy : Policy) (files : List String)
    → check_changed_files approval policy files ≡ none
    → All (IsAllowed approval policy) files
unfolding check_changed_files
check_changed_files-IsAllowed approval policy [] e = tt
check_changed_files-IsAllowed approval policy (f ∷ fs) e =
    let ih = check_changed_files-IsAllowed approval policy fs in
    (ground (arith, e), ih (ground (arith, e)))

-- A passing review of this head and this task that has nothing left to verify and only minor findings.
abbrev pub IsAccepted : Approval → Evidence → Review → Type 0
IsAccepted approval e r =
    (r.task_id ≡ approval.task_id)
    × (r.head_sha ≡ e.head_sha)
    × (r.base_sha ≡ approval.base_sha)
    × (r.spec_hash ≡ approval.spec_hash)
    × (r.verdict ≡ pass)
    × (r.unverified ≡ [])
    × (every is_minor r.findings ≡ true)

judge_review-IsAccepted :
    (approval : Approval) (policy : Policy) (e : Evidence) (round n : ℕ) (o : Option Review)
    → judge_review approval policy e round o ≡ awaiting_approval n
    → (r : Review) × (o ≡ some r) × IsAccepted approval e r
unfolding judge_review
judge_review-IsAccepted approval policy e round n none h = absurd (ground (arith, h))
judge_review-IsAccepted approval policy e round n (some r) h = (
  r,
  refl,
  ground (
    arith,
    h,
    eq_iff r.task_id approval.task_id,
    eq_iff r.head_sha e.head_sha,
    eq_iff r.base_sha approval.base_sha,
    eq_iff r.spec_hash approval.spec_hash,
  ),
)

-- Every required check has succeeded on this head.
abbrev pub IsGreen : Policy → Evidence → Type 0
IsGreen policy e =
    (e.ci.head_sha ≡ e.head_sha)
    × ((c : String) → In c policy.required_checks → conclusion_of e.ci.checks c ≡ success)

all_green :
    (e : Evidence) (checks : List String)
    → every (λ c. is_settled (conclusion_of e.ci.checks c)) checks ≡ true
    → any (λ c. is_failure (conclusion_of e.ci.checks c)) checks ≡ false
    → (c : String) → In c checks
    → conclusion_of e.ci.checks c ≡ success
all_green e [] s f c i = absurd i
all_green e (k ∷ ks) s f c (inl p) =
    let q : conclusion_of e.ci.checks k ≡ success = ground (arith, s, f) in
    ap (conclusion_of e.ci.checks) p ∙ q
all_green e (k ∷ ks) s f c (inr i) = all_green e ks (ground (arith, s)) (ground (arith, f)) c i

judge_ci-IsGreen :
    (approval : Approval) (policy : Policy) (e : Evidence) (round n : ℕ)
    → judge_ci approval policy e round ≡ awaiting_approval n
    → IsGreen policy e × (judge_review approval policy e round e.review ≡ awaiting_approval n)
unfolding judge_ci
judge_ci-IsGreen approval policy e round n h =
    let q : (str_eq e.ci.head_sha e.head_sha ≡ true)
        × (every (λ c. is_settled (conclusion_of e.ci.checks c)) policy.required_checks ≡ true)
        × (any (λ c. is_failure (conclusion_of e.ci.checks c)) policy.required_checks ≡ false)
        × (judge_review approval policy e round e.review ≡ awaiting_approval n) =
      ground (arith, h) in
    (((eq_iff e.ci.head_sha e.head_sha).0 q.0, all_green e policy.required_checks q.1 q.2), q.3)

-- A run with a time limit has been going for less than that many minutes.
abbrev pub IsInTime : Option ℕ → ℕ → Type 0
IsInTime none elapsed = Unit {0}
IsInTime (some minutes) elapsed = elapsed < minutes * 60000

is_over-IsInTime : (limit : Option ℕ) (ms : ℕ) → is_over limit ms ≡ false → IsInTime limit ms
is_over-IsInTime none ms h = tt
is_over-IsInTime (some minutes) ms h = ground (arith, h)

-- A run waits for approval only in a round within the limit and before the time of the policy, where
-- it has one, is over, on a draft whose commands all succeeded, with changes to allowed files only,
-- with every required check green on exactly this head, and with a passing review of exactly this head
-- that has nothing left to verify and only minor findings.
pub evaluate-IsReady :
    (approval : Approval) (policy : Policy) (e : Evidence) (round elapsed n : ℕ)
    → evaluate approval policy e round elapsed ≡ awaiting_approval n
    → (round ≤ policy.max_fix_rounds)
      × IsInTime policy.max_minutes elapsed
      × (e.draft ≡ true)
      × (every (λ c. c == 0) e.command_exit_codes ≡ true)
      × All (IsAllowed approval policy) e.changed_files
      × IsGreen policy e
      × ((r : Review) × (e.review ≡ some r) × IsAccepted approval e r)
unfolding evaluate
evaluate-IsReady approval policy e round elapsed n h =
    let q : (round ≤ policy.max_fix_rounds)
        × (is_over policy.max_minutes elapsed ≡ false)
        × (e.draft ≡ true)
        × (every (λ c. c == 0) e.command_exit_codes ≡ true)
        × (check_changed_files approval policy e.changed_files ≡ none)
        × (judge_ci approval policy e round ≡ awaiting_approval n) =
      ground (arith, h) in
    let (green, reviewed) = judge_ci-IsGreen approval policy e round n q.5 in
    (
      q.0,
      is_over-IsInTime policy.max_minutes elapsed q.1,
      q.2,
      q.3,
      check_changed_files-IsAllowed approval policy e.changed_files q.4,
      green,
      judge_review-IsAccepted approval policy e round n e.review reviewed,
    )
