-- ===== src/Release/Dormant/Verified.antt =====
-- A record that has just been collected is verified.
use zao_rental.Common.{
  ℕ, ◌≤◌, ◌≡◌, refl, sym, ap, subst, inl, inr, true, Option, none, some, List, ◌∷◌, arith, String,
  leb, le→leb, Option-cases, length, keep, In,
}
use zao_rental.Release.Dormant.Return.{IsSorted-last, keep-all, relevant-eq, with_times-parts}
use zao_rental.Release.Dormant.Observe.{
  last_of, sort_times, times_of, Observed, with_times, is_relevant, check_rows, observe,
}
use zao_rental.Release.Dormant.Proof.{
  window_of, DormantProof, collect_dormant_proof, is_in_log, verify_dormant_proof, Observations,
  Instants, last_time, proof_of, check_shape, check_instants,
}
use text.Mathlib.TextPositions.{eq_refl}
use zao_rental.Common.Checked.{passed}
use zao_rental.Release.Dormant.{
  DeploymentFacts, RequestLog, ProofPort, ProofFacts, is_finite, live_state, check_deployment,
}
use zao_rental.Release.Dormant.Cadence.{In-sort_times, IsSorted, sort_times-IsSorted}
use zao_rental.Release.Dormant.Ticks.{
  last_of-In, observe-IsScheduled, IsTime, IsTime-times_of, IsSorted-head, times_of-IsTime,
}

abbrev observations_of : Observed → Observations
observations_of o = record {
  count = some (length o.times);
  distinct_minutes = some o.minutes;
  first_at = some o.first;
  last_at = some (last_time o);
}

check_shape-collected :
    (facts : ProofFacts) (now : ℕ) (o : Observed)
    → check_shape (some (proof_of facts now o)) facts
      ≡ passed (proof_of facts now o, observations_of o)
unfolding check_shape
check_shape-collected facts now o =
    ground (arith, eq_refl facts.release_sha, eq_refl facts.deployment_id)

abbrev instants_of : ℕ → ℕ → Observed → Instants
instants_of now c o = record {
  count = length o.times;
  first = o.first;
  last = last_time o;
  observed = now;
  created = c;
}

check_instants-collected :
    (facts : ProofFacts) (now c : ℕ) (o : Observed)
    → o.dep.created_at ≡ some c
    → 3 ≤ length o.times
    → 3 ≤ o.minutes
    → o.first ≤ last_time o
    → last_time o ≤ now
    → c ≤ o.first
    → check_instants (proof_of facts now o) (observations_of o) now ≡ passed (instants_of now c o)
unfolding check_instants
check_instants-collected facts now c o e a b d f g = ground (arith, e, a, b, d, f, g)

observe-built :
    (event_of : String → Option String) (port : ProofPort) (facts : ProofFacts) (window now : ℕ)
    (since : Option ℕ) (dep : DeploymentFacts) (logs : List RequestLog) (u : _) (o : Observed)
    → live_state port facts ≡ passed dep
    → port.request_logs facts.deployment_id window ≡ passed logs
    → check_rows event_of facts (keep (is_relevant since) logs) ≡ passed u
    → with_times dep now (sort_times (times_of (keep (is_relevant since) logs))) ≡ passed o
    → observe event_of port facts window now since ≡ passed o
unfolding observe
observe-built event_of port facts window now since dep logs u o a b c d = ground (arith, a, b, c, d)

observe-parts :
    (event_of : String → Option String) (port : ProofPort) (facts : ProofFacts) (window now : ℕ)
    (since : Option ℕ) (o : Observed) (logs : List RequestLog)
    → observe event_of port facts window now since ≡ passed o
    → port.request_logs facts.deployment_id window ≡ passed logs
    → (dep : _) × (u : _) × (live_state port facts ≡ passed dep)
      × (check_rows event_of facts (keep (is_relevant since) logs) ≡ passed u)
      × (with_times dep now (sort_times (times_of (keep (is_relevant since) logs))) ≡ passed o)
unfolding observe
observe-parts event_of port facts window now since o logs e r = ground (arith, e, r)

created_at-known :
    (port : ProofPort) (facts : ProofFacts) (dep : DeploymentFacts)
    → live_state port facts ≡ passed dep
    → (c : ℕ) × (dep.created_at ≡ some c)
unfolding live_state check_deployment
created_at-known port facts dep e = elim (Option-cases dep.created_at) [
  | inl n ↦
      let f : is_finite dep.created_at ≡ true = ground (arith, e) in
      absurd (ground (arith, rw n at f))
  | inr (c, q) ↦ (c, q)
]

-- The observation that verification makes again is the one that was collected.
observe-again :
    (event_of : String → Option String) (port : ProofPort) (facts : ProofFacts)
    (window again now : ℕ) (o : Observed) (logs : List RequestLog)
    → observe event_of port facts window now none ≡ passed o
    → port.request_logs facts.deployment_id window ≡ passed logs
    → port.request_logs facts.deployment_id again ≡ passed logs
    → (observe event_of port facts again now (some o.first) ≡ passed o)
      × (us : List ℕ) × (o.times ≡ o.first ∷ us)
      × IsSorted (o.first ∷ us)
      × (3 ≤ o.minutes)
      × (3 ≤ length o.times)
      × ((x : ℕ) → In x (o.first ∷ us) → IsTime x (keep (is_relevant none) logs))
observe-again event_of port facts window again now o logs e r r' =
    let rows = keep (is_relevant none) logs in
    let (dep, u, live, checked, times) =
      observe-parts event_of port facts window now none o logs e r in
    let (same, us, parts, whole, three, long) =
      with_times-parts dep now (sort_times (times_of rows)) o times in
    let sorted : IsSorted (o.first ∷ us) =
      subst IsSorted whole (sort_times-IsSorted (times_of rows)) in
    let low : (x : ℕ) → IsTime x rows → o.first ≤ x = λ x i.
      IsSorted-head o.first x us sorted
        (subst (In x) whole ((In-sort_times x (times_of rows)).1 (IsTime-times_of x rows i))) in
    let eq = sym (relevant-eq o.first logs low) in
    (
      observe-built event_of port facts again now (some o.first) dep logs u o live r'
          (subst (λ xs. check_rows event_of facts xs ≡ passed u) eq checked)
          (subst (λ xs. with_times dep now (sort_times (times_of xs)) ≡ passed o) eq times),
      us,
      parts,
      sorted,
      three,
      long,
      λ x i.
          times_of-IsTime x rows ((In-sort_times x (times_of rows)).0 (subst (In x) (sym whole) i)),
    )

is_in_log-collected :
    (now c : ℕ) (o : Observed) (us : List ℕ)
    → o.dep.created_at ≡ some c
    → o.times ≡ o.first ∷ us
    → IsSorted (o.first ∷ us)
    → is_in_log (instants_of now c o) o ≡ true
is_in_log-collected now c o us e parts sorted =
    let top : last_time o ≡ last_of o.first us = ap (last_of o.first) parts in
    let all_kept : keep (λ x. leb x (last_time o)) o.times ≡ o.times =
      keep-all (λ x. leb x (last_time o)) o.times
        λ x i.
          let le = IsSorted-last o.first x us sorted (subst (In x) parts i) in
          le→leb x (last_time o) (omega (arith, le, top)) in
    ground (arith, all_kept, e)

collect_dormant_proof-observed :
    (event_of : String → Option String) (port : ProofPort) (facts : ProofFacts) (now : ℕ)
    (r : DormantProof)
    → collect_dormant_proof event_of port facts now ≡ passed r
    → (o : Observed) × (observe event_of port facts 15 now none ≡ passed o)
      × (proof_of facts now o ≡ r)
unfolding collect_dormant_proof
collect_dormant_proof-observed event_of port facts now r e = ground (arith, e)

verify-built :
    (event_of : String → Option String) (port : ProofPort) (facts : ProofFacts) (now : ℕ)
    (r : DormantProof) (b : Observations) (t : Instants) (o : Observed)
    → check_shape (some r) facts ≡ passed (r, b)
    → check_instants r b now ≡ passed t
    → observe event_of port facts (window_of now t.first) now (some t.first) ≡ passed o
    → is_in_log t o ≡ true
    → verify_dormant_proof event_of (some r) port facts now ≡ passed r
unfolding verify_dormant_proof
verify-built event_of port facts now r b t o x y z w = rw (x, y, z, w) refl

-- A record that has been collected is verified at once, where the log answers the same rows for
-- every window, all its times have passed, and the deployment is older than each of them.
pub verify-collect :
    (event_of : String → Option String) (port : ProofPort) (facts : ProofFacts) (now : ℕ)
    (r : DormantProof) (logs : List RequestLog)
    → collect_dormant_proof event_of port facts now ≡ passed r
    → ((window : ℕ) → port.request_logs facts.deployment_id window ≡ passed logs)
    → ((t : ℕ) → IsTime t (keep (is_relevant none) logs) → t ≤ now)
    → ((dep : DeploymentFacts) (c t : ℕ)
        → live_state port facts ≡ passed dep
        → dep.created_at ≡ some c
        → IsTime t (keep (is_relevant none) logs)
        → c ≤ t)
    → verify_dormant_proof event_of (some r) port facts now ≡ passed r
verify-collect event_of port facts now r logs e reads past older =
    let (o, seen, same) = collect_dormant_proof-observed event_of port facts now r e in
    let (again, us, parts, sorted, three, long, timed) =
      observe-again event_of port facts 15 (window_of now o.first) now o logs seen (reads 15)
        (reads (window_of now o.first)) in
    let live = (observe-IsScheduled event_of port facts 15 now none o seen).0 in
    let (c, known) = created_at-known port facts o.dep live in
    let top : last_time o ≡ last_of o.first us = ap (last_of o.first) parts in
    let first_in : In o.first (o.first ∷ us) = inl refl in
    let last_in = last_of-In o.first us in
    let up = IsSorted-last o.first o.first us sorted first_in in
    let late = past (last_of o.first us) (timed (last_of o.first us) last_in) in
    let old = older o.dep c o.first live known (timed o.first first_in) in
    subst (λ x. verify_dormant_proof event_of (some x) port facts now ≡ passed x) same
      (verify-built event_of port facts now (proof_of facts now o) (observations_of o)
        (instants_of now c o) o (check_shape-collected facts now o)
        (check_instants-collected facts now c o known long three (omega (arith, up, top))
          (omega (arith, late, top)) old)
        again (is_in_log-collected now c o us known parts sorted))
