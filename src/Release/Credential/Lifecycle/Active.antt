-- ===== src/Release/Credential/Lifecycle/Active.antt =====
-- The whole lifecycle, from the provider's answer to the active role.
use zao_rental.Release.Credential.Lifecycle.{
  perform-prove_probe, perform-complete_reset, perform-prove_restart, is_proof, is_finished,
  keys_of, sort, same_texts, RestartEvidence, ProbeEvidence, run_from, run_from-end, run_from-next,
  check_sink-proof, perform-confirm_sink, perform-finalization_sql, perform-finalize,
}
use zao_rental.Release.Credential.{
  completed, clock_proof, lease_proof, drop, probe_proven, restart_part, restart_proven, pending,
  sink_confirmed, finalization_attempt, Holder, Confirmed, Attempt, Store, mint, promote, held,
}
use zao_rental.Release.Credential.Lease.{lease_ms, year_10000}
use zao_rental.Release.Credential.Calls.{
  read_database_clock, lease_deadline, activation_sql, open_sink, prove_restart, prove_probe,
  complete_reset, Call, confirm_sink, finalization_sql, finalize, password_from_reset_response,
  Output, reset_parsed, activated, perform,
}
use zao_rental.Release.Credential.Lifecycle.Login.{
  row_at, clock_at, lease_from, login_sql-passed, perform-read_database_clock,
  perform-lease_deadline, perform-activation_sql, perform-open_sink,
}
use zao_rental.Common.{
  ℕ, ◌+◌, ◌≡◌, refl, ltb, sym, ap, ◌∙◌, true, Option, some, List, [], ◌∷◌, arith, String, str_eq,
  every, keep,
}
use zao_rental.Release.Credential.Stages.{
  is_proof, SinkRow, Readback, is_sole_sensitive, is_true, is_infinite, finalization_of, proof_part,
}
use zao_rental.Release.Names.{is_canary, Service, role_for, sink_key_for}
use zao_rental.Common.Checked.{passed}
use zao_rental.Release.Credential.Reset.{ResetBody, check_reset_response}

-- The calls from the sink to the readback, with the proof `i` of the stage before.
abbrev pub last_calls : String → Service → List SinkRow → Readback → ℕ → List Call
last_calls d v rows r i =
    open_sink d v i
    ∷ confirm_sink d v i rows
    ∷ finalization_sql d v (i + 1)
    ∷ finalize d v (i + 2) (some r)
    ∷ []

-- The calls from the reset, the proofs of which are numbered from `n`, to the proof of the login:
-- the database tells its time, a lease is taken from it, and the role may log in under the lease.
abbrev pub first_calls :
    String
    → Service
    → Option ResetBody
    → String
    → String
    → List (String × String)
    → ProbeEvidence
    → ℕ
    → String
    → ℕ
    → List Call
    → List Call
first_calls d v body role temporary m e clock fraction n cs =
    password_from_reset_response body role temporary
    ∷ complete_reset n m
    ∷ read_database_clock d v (some (row_at d clock fraction ∷ []))
    ∷ lease_deadline d v (n + 2)
    ∷ activation_sql d v (n + 1) (n + 3)
    ∷ prove_probe d v (n + 1) (some e)
    ∷ cs

perform-parsed :
    (iso : _) (b : Option ResetBody) (role temporary : String) (h : Holder) (s : Store)
    → check_reset_response b role temporary ≡ passed h
    → perform iso (password_from_reset_response b role temporary) s
      ≡ (passed (reset_parsed s.next h), mint (pending h) s)
unfolding perform
perform-parsed iso b role temporary h s e = ground (arith, e)

check_reset_response-role :
    (b : Option ResetBody) (role temporary : String) (h : Holder)
    → check_reset_response b role temporary ≡ passed h
    → h.role ≡ role
unfolding check_reset_response
check_reset_response-role b role temporary h e = ground (arith, e)

module _ (iso : ℕ → String → String) (d : String) (v : Service) (rows : List SinkRow) (r : Readback)
    (h : Holder) (a : Attempt) where
  module _ (role : role_for d v ≡ passed h.role)
      (sole : is_sole_sensitive (keep (λ x. str_eq x.key (sink_key_for v)) rows) ≡ true)
      (sql : finalization_of d v (record { role = h.role; sink_key = sink_key_for v }) ≡ passed a)
      (same : a.role ≡ h.role) (login : is_true r.can_login ≡ true)
      (unlimited : is_infinite r.valid_until ≡ true) where
    run_last :
        (o : Output) (s : Store) (i : ℕ)
        → s.next ≡ i + 1
        → held (proof_part v) s i ≡ some h
        → run_from iso o (last_calls d v rows r i) s ≡ passed (activated a)
    run_last o s i n l =
        let c : Confirmed = record { role = h.role; sink_key = sink_key_for v } in
        let s1 = promote i (sink_confirmed c) s in
        let s2 = promote (i + 1) (finalization_attempt a) s1 in
        let e1 =
          perform-confirm_sink iso d v s i rows c
            (check_sink-proof iso d v s i rows h l role sole) in
        let live1 : s1.live (i + 1) ≡ some (sink_confirmed c) = ground (arith, n) in
        let e2 = perform-finalization_sql iso d v s1 (i + 1) c a live1 role sql in
        let live2 : s2.live (i + 2) ≡ some (finalization_attempt a) = ground (arith, n) in
        let e3 =
          perform-finalize iso d v s2 (i + 2) a r live2 (role ∙ ap (λ x. passed x) (sym same)) login
            unlimited in
        let e0 = perform-open_sink iso d v h s i l role in
        run_from-next iso o _ _ _ s s e0
        ∙ (run_from-next iso _ _ _ _ s s1 e1
            ∙ (run_from-next iso _ _ _ _ s1 s2 e2
                ∙ (run_from-next iso _ _ _ [] s2 _ e3 ∙ run_from-end iso _ _)))

    module _ (body : Option ResetBody) (temporary : String) (m : List (String × String))
        (e : ProbeEvidence) (rr : RestartEvidence) (clock : ℕ) (fraction : String) (s : Store) where
      module _ (answered : check_reset_response body h.role temporary ≡ passed h)
          (listed : same_texts (sort (keys_of m)) (sort h.operation_ids) ≡ true)
          (finished : every (is_finished m) (sort h.operation_ids) ≡ true)
          (probed : is_proof h.role v e ≡ true)
          (early : ltb (clock + lease_ms) year_10000 ≡ true) where
        run_first :
            (o : Output) (cs : List Call)
            → (p : Output) × (t : Store) × (run_from iso o
                  (first_calls d v body h.role temporary m e clock fraction s.next cs)
                  s
                ≡ run_from iso p cs t)
              × (t.next ≡ s.next + 5)
              × (t.live (s.next + 4) ≡ some (probe_proven h))
        run_first o cs =
            let s1 = mint (pending h) s in
            let s2 = promote s.next (completed h) s1 in
            let s3 = mint (clock_proof (clock_at d v h.role clock fraction)) s2 in
            let s4 = promote (s.next + 2) (lease_proof (lease_from d v h.role clock fraction)) s3 in
            let s5 = drop (s.next + 3) s4 in
            let s6 = promote (s.next + 1) (probe_proven h) s5 in
            let e1 = perform-parsed iso body h.role temporary h s answered in
            let l1 : s1.live s.next ≡ some (pending h) = ground arith in
            let e2 = perform-complete_reset iso d v s1 s.next m h l1 listed finished in
            let e3 = perform-read_database_clock iso d v h.role clock fraction s2 role in
            let l3 : s3.live (s.next + 2)
                ≡ some (clock_proof (clock_at d v h.role clock fraction)) =
              ground arith in
            let e4 = perform-lease_deadline iso d v h.role clock fraction s3 (s.next + 2) l3 role in
            let l4 : s4.live (s.next + 3)
                ≡ some (lease_proof (lease_from d v h.role clock fraction)) =
              ground arith in
            let c4 : s4.live (s.next + 1) ≡ some (completed h) = ground arith in
            let (q, login_passes) =
              login_sql-passed iso d v (lease_from d v h.role clock fraction) h.role _ a sql role in
            let e5 =
              perform-activation_sql iso d v h.role clock fraction s4 h (s.next + 1) (s.next + 3) q
                c4 refl l4 role early login_passes in
            let c5 : s5.live (s.next + 1) ≡ some (completed h) = ground arith in
            let e6 = perform-prove_probe iso d v s5 (s.next + 1) e h c5 role probed in
            (
              _,
              s6,
              run_from-next iso o _ _ _ s s1 e1
                  ∙ (run_from-next iso _ _ _ _ s1 s2 e2
                      ∙ (run_from-next iso _ _ _ _ s2 s3 e3
                          ∙ (run_from-next iso _ _ _ _ s3 s4 e4
                              ∙ (run_from-next iso _ _ _ _ s4 s5 e5
                                  ∙ run_from-next iso _ _ _ cs s5 s6 e6)))),
              ground arith,
              ground arith,
            )

        held-restart :
            (t : Store) (i : ℕ)
            → is_canary v ≡ true
            → t.live i ≡ some (restart_proven h)
            → held (proof_part v) t i ≡ some h
        unfolding held
        held-restart t i c l = let q : held restart_part t i ≡ some h = ground (arith, l) in rw c q

        -- Whatever was called before, the calls of the canary all pass and its role becomes active: the
        -- answer to the reset and its operations, the time of the database and a lease from it, the
        -- login, its probes, the restart, the opening of the sink and its metadata, the finalization and
        -- its readback. The answers are good: the reset is accepted and its operations finish, the lease
        -- ends before the year 10000, the probes prove the login, those after the restart do so with
        -- the same object, the metadata is that of one sensitive production row, the finalization can be
        -- built, and the readback says that the role may log in without a limit.
        pub run_from-canary :
            (o : Output)
            → is_canary v ≡ true
            → rr.restart_proven ≡ true
            → rr.authenticated_with ≡ some (s.next + 4)
            → is_proof h.role v rr.probes ≡ true
            → run_from iso o
                (first_calls d v body h.role temporary m e clock fraction s.next
                  (prove_restart d v (s.next + 4) (some rr) ∷ last_calls d v rows r (s.next + 5)))
                s
              ≡ passed (activated a)
        run_from-canary o c x y z =
            let (p, t, e, n, l) =
              run_first o
                (prove_restart d v (s.next + 4) (some rr) ∷ last_calls d v rows r (s.next + 5)) in
            let t1 = promote (s.next + 4) (restart_proven h) t in
            let e1 = perform-prove_restart iso d v t (s.next + 4) rr h l c role x y z in
            let l1 : t1.live (s.next + 5) ≡ some (restart_proven h) = ground (arith, n) in
            e
            ∙ (run_from-next iso p _ _ (last_calls d v rows r (s.next + 5)) t t1 e1
                ∙ run_last _ t1 (s.next + 5) (omega (arith, n)) (held-restart t1 (s.next + 5) c l1))
