-- ===== src/Release/Credential/Milestones/Passed.antt =====
-- What a check that has passed says of the proof that it was given.
use zao_rental.Common.{
  ℕ, ◌≡◌, sym, ap, subst, ◌∙◌, inl, inr, true, Option, some, arith, String, str_eq, Bool-cases,
  Option-cases,
}
use text.Mathlib.TextEquality.{eq_iff}
use zao_rental.Common.Checked.{passed}
use zao_rental.Release.Names.{
  Code, Service, role_for, is_canary, completed_reset_required, probe_proof_required,
  sink_proof_required, sink_confirmation_required, finalization_attempt_required,
}
use zao_rental.Release.Credential.{
  Object, pending, completed, probe_proven, restart_proven, sink_confirmed, finalization_attempt,
  Holder, Confirmed, Attempt, Store, held, require_stage, pending_part, completed_part, probe_part,
  restart_part, confirmed_part, attempt_part,
}
use zao_rental.Release.Credential.Reset.{check_complete_reset}
use zao_rental.Release.Credential.Stages.{
  check_probe, check_restart, check_sink, check_finalization, check_attempt, proof_part,
}
use zao_rental.Release.Credential.Milestones.{HasHistory, IsTraced, Ordered, proof_path}

-- `mk` makes the objects of the kind that `part` reads.
abbrev IsKind : {A : Type 0} → (Object → Option A) → (A → Object) → Type 0
IsKind part mk = (o : Object) (a : _) → part o ≡ some a → o ≡ mk a

pending-IsKind : IsKind pending_part pending
pending-IsKind o a e = ground arith

completed-IsKind : IsKind completed_part completed
completed-IsKind o a e = ground arith

probe-IsKind : IsKind probe_part probe_proven
probe-IsKind o a e = ground arith

restart-IsKind : IsKind restart_part restart_proven
restart-IsKind o a e = ground arith

confirmed-IsKind : IsKind confirmed_part sink_confirmed
confirmed-IsKind o a e = ground arith

attempt-IsKind : IsKind attempt_part finalization_attempt
attempt-IsKind o a e = ground arith

held-HasHistory :
    {A : Type 0} (part : Object → Option A) (mk : A → Object) (s : Store) (log : _) (i : ℕ) (a : A)
    → IsKind part mk
    → IsTraced s log
    → held part s i ≡ some a
    → HasHistory log (mk a)
unfolding held
held-HasHistory part mk s log i a k v e = elim (Option-cases (s.live i)) [
  | inl n ↦ ground (arith, n, e)
  | inr (o, q) ↦
      let p : part o ≡ some a = ground (arith, q, e) in subst (HasHistory log) (k o a p) (v i o q)
]

pub require_stage-passed :
    {A : Type 0} (part : Object → Option A) (role_of : A → String) (e : Code) (d : String) (v : _)
    (i : ℕ) (s : Store) (a : A)
    → require_stage part role_of e d v i s ≡ passed a
    → (held part s i ≡ some a) × (role_for d v ≡ passed (role_of a))
unfolding require_stage
require_stage-passed part role_of e d v i s a h =
    let q : (r : String) × (held part s i ≡ some a)
        × (role_for d v ≡ passed r)
        × (str_eq (role_of a) r ≡ true) =
      ground arith in
    (q.1, q.2 ∙ ap (λ r. passed r) (sym ((eq_iff (role_of a) q.0).0 q.3)))

module _ (s : Store) (log : _) (v : IsTraced s log) (d : String) (w : Service) (i : ℕ) where
  pub check_complete_reset-HasHistory :
      (m : _) (h : Holder) → check_complete_reset i m s ≡ passed h → HasHistory log (pending h)
  unfolding check_complete_reset
  check_complete_reset-HasHistory m h p =
      let q : held pending_part s i ≡ some h = ground arith in
      held-HasHistory pending_part pending s log i h pending-IsKind v q

  pub check_probe-HasHistory :
      (e : _) (h : Holder) → check_probe d w i e s ≡ passed h → HasHistory log (completed h)
  unfolding check_probe
  check_probe-HasHistory e h p =
      let q : require_stage completed_part (λ x. x.role) completed_reset_required d w i s
          ≡ passed h =
        ground arith in
      held-HasHistory completed_part completed s log i h completed-IsKind v
        (require_stage-passed completed_part (λ x. x.role) completed_reset_required d w i s h q).0

  pub check_restart-HasHistory :
      (e : _) (h : Holder) → check_restart d w i e s ≡ passed h → HasHistory log (probe_proven h)
  unfolding check_restart
  check_restart-HasHistory e h p =
      let q : require_stage probe_part (λ x. x.role) probe_proof_required d w i s ≡ passed h =
        ground arith in
      held-HasHistory probe_part probe_proven s log i h probe-IsKind v
        (require_stage-passed probe_part (λ x. x.role) probe_proof_required d w i s h q).0

  proof_part-Ordered :
      (h : Holder)
      → held (proof_part w) s i ≡ some h
      → Ordered (proof_path (is_canary w) h.role) log
  proof_part-Ordered h e = elim (Bool-cases (is_canary w)) [
    | inl c ↦
        let q : held restart_part s i ≡ some h = rw c at e in
        rw c (held-HasHistory restart_part restart_proven s log i h restart-IsKind v q)
    | inr c ↦
        let q : held probe_part s i ≡ some h = rw c at e in
        rw c (held-HasHistory probe_part probe_proven s log i h probe-IsKind v q)
  ]

  pub check_sink-passed :
      (rows : _) (c : Confirmed)
      → check_sink d w i rows s ≡ passed c
      → (role_for d w ≡ passed c.role) × Ordered (proof_path (is_canary w) c.role) log
  unfolding check_sink
  check_sink-passed rows c p =
      let q : (h : Holder) × (require_stage (proof_part w) (λ x. x.role) sink_proof_required d w i s
            ≡ passed h)
          × (h.role ≡ c.role) =
        ground arith in
      let r =
        require_stage-passed (proof_part w) (λ x. x.role) sink_proof_required d w i s q.0 q.1 in
      (
        r.1 ∙ ap (λ x. passed x) q.2,
        subst (λ x. Ordered (proof_path (is_canary w) x) log) q.2 (proof_part-Ordered q.0 r.0),
      )

  pub check_finalization-HasHistory :
      (c : Confirmed) → check_finalization d w i s ≡ passed c → HasHistory log (sink_confirmed c)
  unfolding check_finalization
  check_finalization-HasHistory c p =
      held-HasHistory confirmed_part sink_confirmed s log i c confirmed-IsKind v
        (require_stage-passed confirmed_part (λ x. x.role) sink_confirmation_required d w i s c p).0

  pub check_attempt-passed :
      (a : Attempt)
      → check_attempt d w i s ≡ passed a
      → HasHistory log (finalization_attempt a) × (role_for d w ≡ passed a.role)
  unfolding check_attempt
  check_attempt-passed a p =
      let r =
        require_stage-passed attempt_part (λ x. x.role) finalization_attempt_required d w i s a p in
      (held-HasHistory attempt_part finalization_attempt s log i a attempt-IsKind v r.0, r.1)
