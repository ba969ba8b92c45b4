-- ===== src/Release/Dormant/Proof.antt =====
-- `collectDormantProof` and `verifyDormantProof`.
use zao_rental.Common.{
  ℕ, ◌+◌, ◌-◌, ◌/◌, min, Bool, true, false, ◌&&◌, Option, none, some, List, [], ◌∷◌, String, str_eq,
  leb, ◌==◌, if◌then◌else◌, length, keep,
}
use zao_rental.Common.Checked.{Checked, passed, refused, ◌>>=◌, ◌>>◌, ensure}
use zao_rental.Release.Dormant.{
  ProofError, deployment_mismatch, wrong_source, shape_invalid, stale, record_not_in_log, ProofPort,
  ProofFacts, target_project, absent_names,
}
use zao_rental.Release.Dormant.Observe.{Observed, observe, last_of}

-- The observations of a record; an instant is `some` where its text is that which the library writes
-- for it.
pub record Observations : Type 0 where
  pub count : Option ℕ
  pub distinct_minutes : Option ℕ
  pub first_at : Option ℕ
  pub last_at : Option ℕ

-- A record with exactly the keys of `DormantProof`; `tags_ok` says that its version, result, event,
-- protection and cron secret are the constant texts.
pub record DormantProof : Type 0 where
  pub tags_ok : Bool
  pub release_sha : String
  pub deployment_id : String
  pub project_id : String
  pub deployment_created_at : Option ℕ
  pub absent_at_proof : List String
  pub observations : Option Observations
  pub observed_at : Option ℕ

abbrev same_names : List String → List String → Bool
same_names [] [] = true
same_names [] (b ∷ ys) = false
same_names (a ∷ xs) [] = false
same_names (a ∷ xs) (b ∷ ys) = str_eq a b && same_names xs ys

abbrev pub given {ℓ} : {A : Type ℓ} → Option A → ProofError → Checked ProofError A
given none e = refused e
given (some a) e = passed a

-- The last of the times, which start with the first.
abbrev pub last_time : Observed → ℕ
last_time o = last_of o.first o.times

-- The record that `collectDormantProof` writes.
abbrev pub proof_of : ProofFacts → ℕ → Observed → DormantProof
proof_of facts now o = record {
  tags_ok = true;
  release_sha = facts.release_sha;
  deployment_id = facts.deployment_id;
  project_id = target_project;
  deployment_created_at = o.dep.created_at;
  absent_at_proof = absent_names;
  observations = some (record {
    count = some (length o.times);
    distinct_minutes = some o.minutes;
    first_at = some o.first;
    last_at = some (last_time o);
  });
  observed_at = some now;
}

-- The instants of a record.
pub record Instants : Type 0 where
  pub count : ℕ
  pub first : ℕ
  pub last : ℕ
  pub observed : ℕ
  pub created : ℕ

-- The tests on the record alone.
unfoldable pub check_shape :
    Option DormantProof → ProofFacts → Checked ProofError (DormantProof × Observations)
check_shape raw facts = do
  r ← given raw shape_invalid
  ensure r.tags_ok shape_invalid
  ensure (str_eq r.release_sha facts.release_sha) wrong_source
  ensure (str_eq r.deployment_id facts.deployment_id && str_eq r.project_id target_project)
      deployment_mismatch
  ensure (same_names r.absent_at_proof absent_names) shape_invalid
  o ← given r.observations shape_invalid
  passed (r, o)

-- Those on its numbers and its instants.
unfoldable pub check_instants : DormantProof → Observations → ℕ → Checked ProofError Instants
check_instants r o now = do
  count ← given o.count shape_invalid
  minutes ← given o.distinct_minutes shape_invalid
  ensure (leb 3 count && leb 3 minutes) shape_invalid
  first ← given o.first_at shape_invalid
  last ← given o.last_at shape_invalid
  observed ← given r.observed_at shape_invalid
  created ← given r.deployment_created_at shape_invalid
  ensure (leb first last && leb last observed && leb created first) shape_invalid
  ensure (leb now (observed + 1800000) && leb observed (now + 60000)) stale
  passed
      (record { count = count; first = first; last = last; observed = observed; created = created })

-- `Math.min(60,Math.ceil((at.getTime()-first)/60_000)+2)`; the first instant is at most a minute
-- in the future, where the quotient is rounded up to zero, or is minus one for a whole minute.
abbrev pub window_of : ℕ → ℕ → ℕ
window_of now first =
    min 60 (if leb (now + 60000) first then 1 else (now - first + 59999) / 60000 + 2)

abbrev pub is_created : Option ℕ → ℕ → Bool
is_created none t = false
is_created (some c) t = c == t

-- Whether the record is that of the rows read again.
abbrev pub is_in_log : Instants → Observed → Bool
is_in_log t live =
    live.first == t.first
    && length (keep (λ x. leb x t.last) live.times) == t.count
    && is_created live.dep.created_at t.created

module _ (event_of : String → Option String) where
  -- `collectDormantProof`
  unfoldable pub collect_dormant_proof :
      ProofPort → ProofFacts → ℕ → Checked ProofError DormantProof
  collect_dormant_proof port facts now = do
    o ← observe event_of port facts 15 now none
    passed (proof_of facts now o)

  -- `verifyDormantProof`
  unfoldable pub verify_dormant_proof :
      Option DormantProof → ProofPort → ProofFacts → ℕ → Checked ProofError DormantProof
  verify_dormant_proof raw port facts now = do
    (r, o) ← check_shape raw facts
    t ← check_instants r o now
    live ← observe event_of port facts (window_of now t.first) now (some t.first)
    ensure (is_in_log t live) record_not_in_log
    passed r
