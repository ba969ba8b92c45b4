-- ===== src/Automation/Runner.antt =====
-- Paths, scopes, approvals and the verdict on the evidence of a run: tools/automation/runner.ts.
pub mod Scope
use zao_rental.Common.{
  ℕ, Bool, true, false, not, ◌&&◌, ◌||◌, Option, none, some, List, [], ◌∷◌, String, str_eq, ltb,
  leb, ◌==◌, if◌then◌else◌, length, any, every, includes,
}
use zao_rental.Contracts.Flow.{codes}
use zao_rental.Common.Checked.{Checked, passed, ◌>>◌, ensure}

pub data Reason : Type 0 where
  unsafe_policy untrusted_approval invalid_approval invalid_path protected_file_change
        out_of_scope_change time_or_round_limit evidence_identity_mismatch
        implementation_or_draft_missing ci_missing_pending_or_stale fix_round_limit
        invalid_or_missing_review stale_review review_unverified review_not_acceptable ci_failed
        review_findings evidence_ready_no_merge :
      Reason

-- `max_minutes` is `none` where it is not finite; a limit is a whole number of minutes.
pub record Policy : Type 0 where
  pub enabled : Bool
  pub auto_merge : Bool
  pub production : Bool
  pub paid_api : Bool
  pub max_fix_rounds : ℕ
  pub max_minutes : Option ℕ
  pub protected_paths : List String
  pub required_checks : List String

-- `expires_at` is what `Date.parse` gives.
pub record Approval : Type 0 where
  pub task_id : String
  pub status : String
  pub base_sha : String
  pub spec_hash : String
  pub allowed_paths : List String
  pub dependencies_merged : Bool
  pub expires_at : Option ℕ

-- The parts of a text between slashes.
abbrev pub split : List ℕ → List (List ℕ)
split [] = [] ∷ []
split (c ∷ cs) = elim (split cs) [
  | [] ↦ []
  | ◌∷◌ s ss ↦ if c == b'/' then [] ∷ s ∷ ss else (c ∷ s) ∷ ss
]

abbrev pub same_codes : List ℕ → List ℕ → Bool
same_codes [] [] = true
same_codes [] (b ∷ ys) = false
same_codes (a ∷ xs) [] = false
same_codes (a ∷ xs) (b ∷ ys) = a == b && same_codes xs ys

-- A segment that a path may not have.
abbrev pub is_special : List ℕ → Bool
is_special s = same_codes s (codes "..") || same_codes s (codes ".") || same_codes s (codes ".git")

abbrev is_absolute : List ℕ → Bool
is_absolute [] = false
is_absolute (c ∷ cs) = c == b'/'

-- `checkPath` passes.
unfoldable pub check_path : String → Bool
check_path path =
    ltb 0 (length (codes path))
    && not (is_absolute (codes path))
    && not (includes b'\\' (codes path))
    && not (any is_special (split (codes path)))
    && not (any (λ c. ltb c 32) (codes path))

abbrev pub starts_with : List ℕ → List ℕ → Bool
starts_with cs [] = true
starts_with [] (p ∷ ps) = false
starts_with (c ∷ cs) (p ∷ ps) = c == p && starts_with cs ps

abbrev pub ends_with_slash : List ℕ → Bool
ends_with_slash [] = false
ends_with_slash (c ∷ []) = c == b'/'
ends_with_slash (c ∷ d ∷ cs) = ends_with_slash (d ∷ cs)

-- `inScope`
unfoldable pub in_scope : String → String → Bool
in_scope path pattern' =
    if ends_with_slash (codes pattern')
    then starts_with (codes path) (codes pattern')
    else str_eq path pattern'

-- `checkChangedFiles`; a file's error is that of the first file that has one.
unfoldable pub check_changed_files : Approval → Policy → List String → Option Reason
check_changed_files approval policy [] = none
check_changed_files approval policy (file ∷ files) =
    let rest = check_changed_files approval policy files in
    if not (check_path file)
    then some invalid_path
    else if any (in_scope file) policy.protected_paths
    then some protected_file_change
    else if not (any (in_scope file) approval.allowed_paths)
    then some out_of_scope_change
    else rest

abbrev is_digit : ℕ → Bool
is_digit c = leb b'0' c && leb c b'9'

abbrev is_hex : ℕ → Bool
is_hex c = is_digit c || (leb b'a' c && leb c b'f')

-- `sha` and `hash`
abbrev pub is_sha : String → Bool
is_sha s = length (codes s) == 40 && every is_hex (codes s)

abbrev is_hash : String → Bool
is_hash s = length (codes s) == 64 && every is_hex (codes s)

-- `/^E[0-9]{2}$/`
abbrev is_task : List ℕ → Bool
is_task (e ∷ a ∷ b ∷ []) = e == b'E' && is_digit a && is_digit b
is_task _ = false

abbrev is_limit : Option ℕ → Bool
is_limit none = false
is_limit (some n) = ltb 0 n && leb n 60

abbrev is_after : Option ℕ → ℕ → Bool
is_after none now = false
is_after (some t) now = ltb now t

abbrev pub is_safe_policy : Policy → Bool
is_safe_policy p =
    not p.enabled
    && not p.auto_merge
    && not p.production
    && not p.paid_api
    && p.max_fix_rounds == 2
    && is_limit p.max_minutes
    && ltb 0 (length p.required_checks)
    && ltb 0 (length p.protected_paths)

-- `validateApproval`; the signature is verified by the library.
unfoldable pub validate_approval :
    (Approval → Bool) → Approval → Policy → String → ℕ → Checked Reason Approval
validate_approval signed a policy expected now = do
  ensure (is_safe_policy policy) unsafe_policy
  ensure (signed a) untrusted_approval
  ensure
      (is_task (codes a.task_id)
        && str_eq a.status "READY"
        && is_sha a.base_sha
        && is_hash a.spec_hash
        && str_eq a.spec_hash expected
        && a.dependencies_merged
        && is_after a.expires_at now
        && ltb 0 (length a.allowed_paths))
      invalid_approval
  ensure (every check_path a.allowed_paths && every check_path policy.protected_paths) invalid_path
  passed a
