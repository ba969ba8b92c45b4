-- ===== src/Release/Credential/Lifecycle.antt =====
-- The lifecycle can be completed: with good answers the operations lead to an active role.
pub mod Login
pub mod Active
use zao_rental.Common.{
  ℕ, zero, suc, ◌+◌, ◌-◌, ◌*◌, ◌/◌, ◌%◌, ◌^◌, ◌≤◌, ◌<◌, min, max, ◌≡◌, refl, sym, ap, subst, ◌∙◌,
  ◌≢◌, ◌↔◌, ◌⊎◌, inl, inr, Bool, true, false, not, ◌&&◌, ◌||◌, Option, none, some, List, [], ◌∷◌,
  ◌++◌, map, arith, String, str_eq, ltb, leb, ◌==◌, if◌then◌else◌, ltb→lt, leb→le, le→leb, ==_iff,
  ==_refl, Bool-cases, &&-eq-true, Option-cases, length, length-append, any, every, keep, find,
  total, All, All-append, All-imp, total-append, keep-append, includes, In, In-append_left,
  In-append_right, In-append-cases, All-In, In-keep, keep-In, find-In, any-In, every-In,
}
use text.Mathlib.TextPositions.{eq_refl}
use zao_rental.Common.Checked.{Checked, passed, refused, ◌>>=◌}
use zao_rental.Release.Names.{Code, Service, role_for, is_canary, sink_key_for}
use zao_rental.Release.Credential.{
  Object, pending, completed, probe_proven, restart_proven, sink_confirmed, finalization_attempt,
  Holder, Confirmed, Attempt, Store, drop, mint, promote, held, require_stage,
}
use zao_rental.Release.Credential.Reset.{
  check_complete_reset, check_reset_response, ResetBody, same_texts, sort, keys_of, is_finished,
}
use zao_rental.Release.Credential.Stages.{
  ProbeEvidence, RestartEvidence, SinkRow, Readback, is_proof, is_sole_sensitive, is_true,
  is_infinite, check_probe, check_restart, check_sink, check_finalization, finalization_of,
  check_attempt, judge_readback, assert_probe_evidence, proof_part,
}
use zao_rental.Release.Credential.Calls.{
  Call, complete_reset, lease_deadline, activation_sql, prove_probe, prove_restart, confirm_sink,
  finalization_sql, finalize, password_from_reset_response, read_database_clock, open_sink, Output,
  Reply, on_parsed, on_finished, on_clock, on_deadline, on_login, on_probe, on_restart, on_opened,
  on_checked, on_issue, on_readback, commit, minted, promoted, derived, issued, judged, logged_in,
  reset_parsed, reset_finished, probes_passed, restart_passed, sink_checked, finalization_issued,
  activated, perform, Later, now, next_call, Reaches, start, and_then,
}

module _ (iso : ℕ → String → String) where
  -- The calls in order, up to the first that is refused; the answer is the last output.
  unfoldable pub run_from : Output → List Call → Store → Checked Code Output
  run_from o [] s = passed o
  run_from o (c ∷ cs) s =
      let rest = λ (p : Output). run_from p cs (perform iso c s).1 in (perform iso c s).0 >>= rest

  pub run_from-next :
      (o p : Output) (c : Call) (cs : List Call) (s t : Store)
      → perform iso c s ≡ (passed p, t)
      → run_from o (c ∷ cs) s ≡ run_from p cs t
  unfolding run_from
  run_from-next o p c cs s t e = ground (arith, e)

  pub run_from-end : (o : Output) (s : Store) → run_from o [] s ≡ passed o
  unfolding run_from
  run_from-end o s = refl

  pub promote-live : (i : ℕ) (x : Object) (s : Store) → (promote i x s).live s.next ≡ some x
  promote-live i x s = ground arith

  module _ (d : String) (v : Service) (s : Store) (i : ℕ) where
    pub perform-complete_reset :
        (m : _) (h : Holder)
        → s.live i ≡ some (pending h)
        → same_texts (sort (keys_of m)) (sort h.operation_ids) ≡ true
        → every (is_finished m) (sort h.operation_ids) ≡ true
        → perform iso (complete_reset i m) s
          ≡ (passed (reset_finished s.next h), promote i (completed h) s)
    unfolding perform check_complete_reset held
    perform-complete_reset m h e p q = ground (arith, e, p, q)

    pub perform-prove_probe :
        (e : ProbeEvidence) (h : Holder)
        → s.live i ≡ some (completed h)
        → role_for d v ≡ passed h.role
        → is_proof h.role v e ≡ true
        → perform iso (prove_probe d v i (some e)) s
          ≡ (passed (probes_passed s.next h), promote i (probe_proven h) s)
    unfolding perform check_probe held require_stage assert_probe_evidence
    perform-prove_probe e h l r p = ground (arith, l, r, eq_refl h.role, p)

    pub perform-prove_restart :
        (r : RestartEvidence) (h : Holder)
        → s.live i ≡ some (probe_proven h)
        → is_canary v ≡ true
        → role_for d v ≡ passed h.role
        → r.restart_proven ≡ true
        → r.authenticated_with ≡ some i
        → is_proof h.role v r.probes ≡ true
        → perform iso (prove_restart d v i (some r)) s
          ≡ (passed (restart_passed s.next h), promote i (restart_proven h) s)
    unfolding perform check_restart held require_stage assert_probe_evidence
    perform-prove_restart r h l c q a b p = ground (arith, l, c, q, a, b, p, eq_refl h.role)

    pub check_sink-proof :
        (rows : List SinkRow) (h : Holder)
        → held (proof_part v) s i ≡ some h
        → role_for d v ≡ passed h.role
        → is_sole_sensitive (keep (λ r. str_eq r.key (sink_key_for v)) rows) ≡ true
        → check_sink d v i rows s ≡ passed (record { role = h.role; sink_key = sink_key_for v })
    unfolding check_sink require_stage
    check_sink-proof rows h l q p = ground (arith, l, q, p, eq_refl h.role)

    pub perform-confirm_sink :
        (rows : List SinkRow) (c : Confirmed)
        → check_sink d v i rows s ≡ passed c
        → perform iso (confirm_sink d v i rows) s
          ≡ (passed (sink_checked (is_canary v) s.next c), promote i (sink_confirmed c) s)
    unfolding perform
    perform-confirm_sink rows c e = ground (arith, e)

    pub perform-finalization_sql :
        (c : Confirmed) (a : Attempt)
        → s.live i ≡ some (sink_confirmed c)
        → role_for d v ≡ passed c.role
        → finalization_of d v c ≡ passed a
        → perform iso (finalization_sql d v i) s
          ≡ (passed (finalization_issued s.next a), promote i (finalization_attempt a) s)
    unfolding perform check_finalization held require_stage
    perform-finalization_sql c a l q e = ground (arith, l, q, e, eq_refl c.role)

    pub perform-finalize :
        (a : Attempt) (r : Readback)
        → s.live i ≡ some (finalization_attempt a)
        → role_for d v ≡ passed a.role
        → is_true r.can_login ≡ true
        → is_infinite r.valid_until ≡ true
        → perform iso (finalize d v i (some r)) s ≡ (passed (activated a), drop i s)
    unfolding perform check_attempt held require_stage judge_readback
    perform-finalize a r l q x y = ground (arith, l, q, x, y, eq_refl a.role)
