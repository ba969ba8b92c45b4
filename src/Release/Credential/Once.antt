-- ===== src/Release/Credential/Once.antt =====
-- No proof is used up twice, whatever is called in between.
mod Checks
use zao_rental.Common.{
  ℕ, zero, suc, ◌+◌, ◌-◌, ◌*◌, ◌/◌, ◌%◌, ◌^◌, ◌≤◌, ◌<◌, min, max, ◌≡◌, refl, sym, ap, subst, ◌∙◌,
  ◌≢◌, ◌↔◌, ◌⊎◌, inl, inr, Bool, true, false, not, ◌&&◌, ◌||◌, Option, none, some, List, [], ◌∷◌,
  ◌++◌, map, arith, String, str_eq, ltb, leb, ◌==◌, if◌then◌else◌, ltb→lt, leb→le, le→leb, ==_iff,
  ==_refl, Bool-cases, &&-eq-true, Option-cases, length, length-append, any, every, keep, find,
  total, All, All-append, All-imp, total-append, keep-append, includes, In, In-append_left,
  In-append_right, In-append-cases, All-In, In-keep, keep-In, find-In, any-In, every-In,
}
use zao_rental.Common.Checked.{Checked, passed, refused, is_passed, Checked-cases}
use zao_rental.Release.Names.{Code}
use zao_rental.Release.Credential.{Object, Attempt, Store, drop, promote}
use zao_rental.Release.Credential.Lease.{lease_of, login_sql}
use zao_rental.Release.Credential.Stages.{finalization_of, judge_readback, check_attempt}
use zao_rental.Release.Credential.Calls.{
  Call, complete_reset, lease_deadline, activation_sql, prove_probe, prove_restart, confirm_sink,
  finalization_sql, finalize, password_from_reset_response, read_database_clock, open_sink, Output,
  Reply, on_parsed, on_finished, on_clock, on_deadline, on_login, on_probe, on_restart, on_opened,
  on_checked, on_issue, on_readback, commit, minted, promoted, derived, issued, judged, logged_in,
  perform, Later, now, next_call, Reaches, start, and_then,
}
use zao_rental.Release.Credential.Spent.{
  IsSpent, IsOrderly, IsHeld, consumed, Reaches-IsOrderly, Later-IsSpent,
}
use Checks.{
  Needs, check_complete_reset-Needs, check_clock_proof-Needs, check_activation-Needs,
  check_probe-Needs, check_restart-Needs, check_sink-Needs, check_finalization-Needs,
  check_attempt-Needs,
}

module _ (i : ℕ) (s : Store) {A : Type 0} (m : Checked Code A) (f : A → Reply) where
  commit-spent : Needs i s m → IsSpent i s → is_passed (commit s m f).0 ≡ false
  commit-spent n v = elim (Checked-cases m) [
    | inl (e, q) ↦ rw q refl
    | inr (a, q) ↦ let (o, p) = n a q in ground (arith, p, v)
  ]

  commit-spends :
      IsOrderly s
      → Needs i s m
      → ((a : A) → i < s.next → IsSpent i (f a).1)
      → is_passed (commit s m f).0 ≡ true
      → IsSpent i (commit s m f).1
  commit-spends v n k h = elim (Checked-cases m) [
    | inl (e, q) ↦ ground (arith, rw q at h)
    | inr (a, q) ↦ let (o, p) = n a q in let lt : i < s.next = ground (arith, v i) in rw q (k a lt)
  ]

module _ (i : ℕ) (s : Store) where
  promote-IsSpent : (o : Object) → i < s.next → IsSpent i (promote i o s)
  promote-IsSpent o lt = (ground arith, ground arith)

  drop-IsSpent : i < s.next → IsSpent i (drop i s)
  drop-IsSpent lt = (ground arith, ground arith)

  derived-IsSpent : (m : Checked Code _) → i < s.next → IsSpent i (derived s i m).1
  derived-IsSpent (refused e) lt = drop-IsSpent lt
  derived-IsSpent (passed l) lt = promote-IsSpent _ lt

  issued-IsSpent : (m : Checked Code _) → i < s.next → IsSpent i (issued s i m).1
  issued-IsSpent (refused e) lt = drop-IsSpent lt
  issued-IsSpent (passed l) lt = promote-IsSpent _ lt

  judged-IsSpent : (a : Attempt) (m : Checked Code _) → i < s.next → IsSpent i (judged s i a m).1
  judged-IsSpent a (refused e) lt = drop-IsSpent lt
  judged-IsSpent a (passed l) lt = drop-IsSpent lt

  logged_in-IsSpent : (m : Checked Code _) → i < s.next → IsSpent i (logged_in s i m).1
  logged_in-IsSpent (refused e) lt = drop-IsSpent lt
  logged_in-IsSpent (passed l) lt = drop-IsSpent lt

abbrev OfSome : (ℕ → Type 0) → Option ℕ → Type 0
OfSome P none = Unit
OfSome P (some i) = P i

module _ (iso : ℕ → String → String) where
  consumes :
      (c : Call) (s : Store)
      → IsOrderly s
      → is_passed (perform iso c s).0 ≡ true
      → OfSome (λ i. IsSpent i (perform iso c s).1) (consumed c)
  unfolding perform
  consumes (password_from_reset_response b r t) s v h = tt
  consumes (complete_reset i m) s v h =
      commit-spends i s _ (on_finished s i) v (check_complete_reset-Needs i m s)
        (λ a. promote-IsSpent i s _) h
  consumes (read_database_clock d w q) s v h = tt
  consumes (lease_deadline d w i) s v h =
      commit-spends i s _ (on_deadline s i) v (check_clock_proof-Needs d w i s)
        (λ a. derived-IsSpent i s (lease_of a)) h
  consumes (activation_sql d w i l) s v h =
      commit-spends l s _ (on_login iso d w s l) v (check_activation-Needs d w i l s)
        (λ a. logged_in-IsSpent l s (login_sql iso d w a)) h
  consumes (prove_probe d w i e) s v h =
      commit-spends i s _ (on_probe s i) v (check_probe-Needs d w i e s)
        (λ a. promote-IsSpent i s _) h
  consumes (prove_restart d w i e) s v h =
      commit-spends i s _ (on_restart s i) v (check_restart-Needs d w i e s)
        (λ a. promote-IsSpent i s _) h
  consumes (open_sink d w i) s v h = tt
  consumes (confirm_sink d w i rows) s v h =
      commit-spends i s _ (on_checked w s i) v (check_sink-Needs d w i rows s)
        (λ a. promote-IsSpent i s _) h
  consumes (finalization_sql d w i) s v h =
      commit-spends i s _ (on_issue d w s i) v (check_finalization-Needs d w i s)
        (λ a. issued-IsSpent i s (finalization_of d w a)) h
  consumes (finalize d w i r) s v h =
      commit-spends i s _ (on_readback s i r) v (check_attempt-Needs d w i s)
        (λ a. judged-IsSpent i s a (judge_readback r)) h

  refuses :
      (c : Call) (s : Store)
      → OfSome (λ i. IsSpent i s → is_passed (perform iso c s).0 ≡ false) (consumed c)
  unfolding perform
  refuses (password_from_reset_response b r t) s = tt
  refuses (complete_reset i m) s =
      commit-spent i s _ (on_finished s i) (check_complete_reset-Needs i m s)
  refuses (read_database_clock d w q) s = tt
  refuses (lease_deadline d w i) s =
      commit-spent i s _ (on_deadline s i) (check_clock_proof-Needs d w i s)
  refuses (activation_sql d w i l) s =
      commit-spent l s _ (on_login iso d w s l) (check_activation-Needs d w i l s)
  refuses (prove_probe d w i e) s = commit-spent i s _ (on_probe s i) (check_probe-Needs d w i e s)
  refuses (prove_restart d w i e) s =
      commit-spent i s _ (on_restart s i) (check_restart-Needs d w i e s)
  refuses (open_sink d w i) s = tt
  refuses (confirm_sink d w i rows) s =
      commit-spent i s _ (on_checked w s i) (check_sink-Needs d w i rows s)
  refuses (finalization_sql d w i) s =
      commit-spent i s _ (on_issue d w s i) (check_finalization-Needs d w i s)
  refuses (finalize d w i r) s =
      commit-spent i s _ (on_readback s i r) (check_attempt-Needs d w i s)

-- After any calls, once a call that uses up a proof has passed, every later call that uses up the
-- same proof is refused, whatever is called in between and with whatever evidence.
pub perform-once :
    (iso : ℕ → String → String) (s t : Store) (log : List Output) (c d : Call) (i : ℕ)
    → Reaches iso s log
    → consumed c ≡ some i
    → consumed d ≡ some i
    → is_passed (perform iso c s).0 ≡ true
    → Later iso (perform iso c s).1 t
    → is_passed (perform iso d t).0 ≡ false
perform-once iso s t log c d i r ec ed h l =
    let gone : IsSpent i (perform iso c s).1 =
      subst (OfSome (λ j. IsSpent j (perform iso c s).1)) ec
        (consumes iso c s (Reaches-IsOrderly iso s log r) h) in
    subst (OfSome (λ j. IsSpent j t → is_passed (perform iso d t).0 ≡ false)) ed (refuses iso d t)
      (Later-IsSpent iso i _ t l gone)

-- A finalization is judged once: whatever its readback says, the attempt is refused ever after.
finalize-once :
    (iso : ℕ → String → String) (s t : Store) (log : List Output) (v w : _) (d e : String) (i : ℕ)
    (r q : _) (a : Attempt)
    → Reaches iso s log
    → check_attempt d v i s ≡ passed a
    → Later iso (perform iso (finalize d v i r) s).1 t
    → is_passed (perform iso (finalize e w i q) t).0 ≡ false
unfolding perform
finalize-once iso s t log v w d e i r q a h p l =
    let (o, live) = check_attempt-Needs d v i s a p in
    let orderly = Reaches-IsOrderly iso s log h i in
    let lt : i < s.next = ground (arith, live, orderly) in
    let gone : IsSpent i (perform iso (finalize d v i r) s).1 =
      rw p (judged-IsSpent i s a (judge_readback r) lt) in
    refuses iso (finalize e w i q) t (Later-IsSpent iso i _ t l gone)
