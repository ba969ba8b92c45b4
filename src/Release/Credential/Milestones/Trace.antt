-- ===== src/Release/Credential/Milestones/Trace.antt =====
-- Every sequence of calls keeps the history of its proofs, up to the role that becomes active.
use zao_rental.Release.Credential.Calls.{
  sink_opened, restart_passed, probes_passed, clock_read, reset_finished, activated,
  finalization_issued, lease_derived, logged, login_issued, reset_parsed, Call, complete_reset,
  lease_deadline, activation_sql, prove_probe, prove_restart, confirm_sink, finalization_sql,
  finalize, password_from_reset_response, read_database_clock, open_sink, Output, Reply, on_parsed,
  on_finished, on_clock, on_deadline, on_login, on_probe, on_restart, on_opened, on_checked,
  on_issue, on_readback, commit, derived, issued, judged, logged_in, perform, sink_checked, Reaches,
  start, and_then,
}
use zao_rental.Common.{
  ℕ, ◌≡◌, refl, subst, inl, inr, Bool, true, Option, none, some, List, [], ◌∷◌, arith, String,
}
use text.Mathlib.TextPositions.{eq_refl}
use zao_rental.Common.Checked.{Checked, passed, refused, Checked-cases}
use zao_rental.Release.Names.{Code, Service, role_for, is_canary}
use zao_rental.Release.Names.Canary.{role_for-canary}
use zao_rental.Release.Credential.{
  pending, completed, probe_proven, restart_proven, clock_proof, lease_proof, sink_confirmed,
  finalization_attempt, LeaseProof, Confirmed, Attempt, Store, drop,
}
use zao_rental.Release.Credential.Reset.{check_complete_reset}
use zao_rental.Release.Credential.Lease.{lease_of, login_sql}
use zao_rental.Release.Credential.Stages.{
  finalization_of, judge_readback, is_true, is_infinite, check_attempt, check_probe, check_restart,
  check_sink, check_finalization, Readback,
}
use zao_rental.Release.Credential.Milestones.{
  Ordered, IsTraced, IsTraced-drop, IsTraced-later, IsTraced-mint, IsTraced-promote, Sunk, sunk_as,
  is_sunk, is_issued, proof_path,
}
use zao_rental.Release.Credential.Milestones.Passed.{
  check_complete_reset-HasHistory, check_probe-HasHistory, check_restart-HasHistory,
  check_sink-passed, check_finalization-HasHistory, check_attempt-passed,
}

-- A reply keeps the histories.
abbrev Keeps : List Output → Reply → Type 0
Keeps log r = IsTraced r.1 (logged r.0 log)

module _ (s : Store) (log : List Output) (v : IsTraced s log) where
  commit-Keeps :
      {A : Type 0} (m : Checked Code A) (f : A → Reply)
      → ((a : A) → m ≡ passed a → Keeps log (f a))
      → Keeps log (commit s m f)
  commit-Keeps m f k = elim (Checked-cases m) [ inl (e, q) ↦ rw q v | inr (a, q) ↦ rw q (k a q) ]

  derived-Keeps : (i : ℕ) (m : Checked Code LeaseProof) → Keeps log (derived s i m)
  derived-Keeps i (refused e) = IsTraced-drop s log i v
  derived-Keeps i (passed l) =
      IsTraced-promote s log i (lease_proof l) (lease_derived s.next l) v tt

  logged_in-Keeps : (i : ℕ) (m : Checked Code (List String)) → Keeps log (logged_in s i m)
  logged_in-Keeps i (refused e) = IsTraced-drop s log i v
  logged_in-Keeps i (passed l) =
      IsTraced-later (drop i s) log (login_issued l) (IsTraced-drop s log i v)

  judged-Keeps : (i : ℕ) (a : Attempt) (m : Checked Code _) → Keeps log (judged s i a m)
  judged-Keeps i a (refused e) = IsTraced-drop s log i v
  judged-Keeps i a (passed b) =
      IsTraced-later (drop i s) log (activated a) (IsTraced-drop s log i v)

  issued-Keeps :
      (i : ℕ) (m : Checked Code Attempt)
      → ((a : Attempt) → m ≡ passed a → Sunk a.role [] log)
      → Keeps log (issued s i m)
  issued-Keeps i (refused e) k = IsTraced-drop s log i v
  issued-Keeps i (passed a) k =
      IsTraced-promote s log i (finalization_attempt a) (finalization_issued s.next a) v
        (elim (k a refl) [ sunk_as d w e h ↦ sunk_as d w e (inl (eq_refl a.role, h)) ])

finalization_of-role :
    (d : String) (w : Service) (c : Confirmed) (a : Attempt)
    → finalization_of d w c ≡ passed a
    → c.role ≡ a.role
unfolding finalization_of
finalization_of-role d w c a e = ground arith

perform-Keeps :
    (iso : ℕ → String → String) (c : Call) (s : Store) (log : List Output)
    → IsTraced s log
    → Keeps log (perform iso c s)
unfolding perform
perform-Keeps iso (password_from_reset_response b r t) s log v =
    commit-Keeps s log v _ (on_parsed s)
      λ h q. IsTraced-mint s log (pending h) (reset_parsed s.next h) v (inl (eq_refl h.role, tt))
perform-Keeps iso (complete_reset i m) s log v =
    commit-Keeps s log v (check_complete_reset i m s) (on_finished s i) λ h q.
      IsTraced-promote s log i (completed h) (reset_finished s.next h) v
        (inl (eq_refl h.role, check_complete_reset-HasHistory s log v "" Service.auth i m h q))
perform-Keeps iso (read_database_clock d w q) s log v =
    commit-Keeps s log v _ (on_clock s)
      λ c p. IsTraced-mint s log (clock_proof c) (clock_read s.next c) v tt
perform-Keeps iso (lease_deadline d w i) s log v =
    commit-Keeps s log v _ (on_deadline s i) λ c p. derived-Keeps s log v i (lease_of c)
perform-Keeps iso (activation_sql d w i l) s log v =
    commit-Keeps s log v _ (on_login iso d w s l)
      λ c p. logged_in-Keeps s log v l (login_sql iso d w c)
perform-Keeps iso (prove_probe d w i e) s log v =
    commit-Keeps s log v (check_probe d w i e s) (on_probe s i) λ h q.
      IsTraced-promote s log i (probe_proven h) (probes_passed s.next h) v
        (inl (eq_refl h.role, check_probe-HasHistory s log v d w i e h q))
perform-Keeps iso (prove_restart d w i e) s log v =
    commit-Keeps s log v (check_restart d w i e s) (on_restart s i) λ h q.
      IsTraced-promote s log i (restart_proven h) (restart_passed s.next h) v
        (inl (eq_refl h.role, check_restart-HasHistory s log v d w i e h q))
perform-Keeps iso (open_sink d w i) s log v =
    commit-Keeps s log v _ (on_opened s) λ kv q. IsTraced-later s log (sink_opened kv) v
perform-Keeps iso (confirm_sink d w i rows) s log v =
    commit-Keeps s log v (check_sink d w i rows s) (on_checked w s i) λ c q.
      let (role, path) = check_sink-passed s log v d w i rows c q in
      IsTraced-promote s log i (sink_confirmed c) (sink_checked (is_canary w) s.next c) v
        (sunk_as d w role (inl (eq_refl c.role, path)))
perform-Keeps iso (finalization_sql d w i) s log v =
    commit-Keeps s log v (check_finalization d w i s) (on_issue d w s i) λ c q.
      issued-Keeps s log v i (finalization_of d w c) λ a p.
        subst (λ r. Sunk r [] log) (finalization_of-role d w c a p)
          (check_finalization-HasHistory s log v d w i c q)
perform-Keeps iso (finalize d w i r) s log v =
    commit-Keeps s log v _ (on_readback s i r) λ a q. judged-Keeps s log v i a (judge_readback r)

Reaches-IsTraced :
    (iso : ℕ → String → String) (s : Store) (log : List Output) → Reaches iso s log → IsTraced s log
Reaches-IsTraced iso s log start = λ i x e. ground (arith, e)
Reaches-IsTraced iso s log (and_then c t l r) = perform-Keeps iso c t l (Reaches-IsTraced iso t l r)

-- The calls that a role has been through when it is finalized, the latest first.
abbrev pub lifecycle : Service → String → List (Output → Bool)
lifecycle v role = is_issued role ∷ is_sunk role ∷ proof_path (is_canary v) role

Sunk-Ordered :
    (d : String) (v : Service) (role : String) (log : List Output)
    → role_for d v ≡ passed role
    → Sunk role (is_issued role ∷ []) log
    → Ordered (lifecycle v role) log
Sunk-Ordered d v role log e (sunk_as d' w q h) =
    subst (λ b. Ordered (is_issued role ∷ is_sunk role ∷ proof_path b role) log)
      (role_for-canary d' d w v role q e) h

-- What the readback of a finalized role says.
abbrev pub SaysActive : Option Readback → Type 0
SaysActive none = ⊥
SaysActive (some r) = (is_true r.can_login ≡ true) × (is_infinite r.valid_until ≡ true)

judged-active :
    (s : Store) (i : ℕ) (a b : Attempt) (r : Option Readback)
    → (judged s i b (judge_readback r)).0 ≡ passed (activated a)
    → (b ≡ a) × SaysActive r
unfolding judge_readback
judged-active s i a b none e = ground arith
judged-active s i a b (some r) e = ground arith

-- After any calls, a role is reported active only if its reset was parsed, all operations of the
-- reset finished, its login proven by the probes, for the canary proven again after a restart, its
-- sink checked and its finalization issued, in this order, and if the readback says that it may log
-- in without a limit.
pub finalize-Ordered :
    (iso : ℕ → String → String) (s : Store) (log : List Output) (d : String) (v : Service) (i : ℕ)
    (r : Option Readback) (a : Attempt)
    → Reaches iso s log
    → (perform iso (finalize d v i r) s).0 ≡ passed (activated a)
    → Ordered (lifecycle v a.role) log × SaysActive r
unfolding perform
finalize-Ordered iso s log d v i r a h e = elim (Checked-cases (check_attempt d v i s)) [
  | inl (c, q) ↦ ground (arith, rw q at e)
  | inr (b, q) ↦
      let (same, active) = judged-active s i a b r (rw q at e) in
      let (history, role) = check_attempt-passed s log (Reaches-IsTraced iso s log h) d v i b q in
      let ordered = Sunk-Ordered d v b.role log role history in
      (subst (λ x. Ordered (lifecycle v x.role) log) same ordered, active)
]
