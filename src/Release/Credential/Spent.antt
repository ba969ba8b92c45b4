-- ===== src/Release/Credential/Spent.antt =====
-- A proof that has been used up is never accepted again.
use zao_rental.Release.Credential.Calls.{
  start, open_sink, and_then, now, read_database_clock, Reaches, judged, next_call,
  password_from_reset_response, Later, Output, issued, logged_in, perform, Call, complete_reset,
  lease_deadline, activation_sql, prove_probe, prove_restart, confirm_sink, finalization_sql,
  finalize, Reply, on_parsed, on_finished, on_clock, on_deadline, on_login, on_probe, on_restart,
  on_opened, on_checked, on_issue, on_readback, commit, derived,
}
use zao_rental.Release.Credential.{held, require_stage, Attempt, Object, Store, drop, mint, promote}
use zao_rental.Common.{
  ℕ, ◌≤◌, ◌<◌, ◌≡◌, refl, inl, inr, Option, none, some, List, arith, String, Option-cases,
}
use zao_rental.Release.Credential.Lease.{lease_of, login_sql}
use zao_rental.Release.Credential.Stages.{finalization_of, judge_readback}
use zao_rental.Common.Checked.{Checked, passed, refused}
use zao_rental.Release.Names.{Code}

-- A number that has been given out and is no longer registered.
abbrev pub IsSpent : ℕ → Store → Type 0
IsSpent i s = (s.live i ≡ none) × (i < s.next)

-- Numbers that have not been given out have no object.
abbrev pub IsOrderly : Store → Type 0
IsOrderly s = (i : ℕ) → s.next ≤ i → s.live i ≡ none

-- The proof that a call uses up.
abbrev pub consumed : Call → Option ℕ
consumed (complete_reset i m) = some i
consumed (lease_deadline d v i) = some i
consumed (activation_sql d v i l) = some l
consumed (prove_probe d v i e) = some i
consumed (prove_restart d v i e) = some i
consumed (confirm_sink d v i rows) = some i
consumed (finalization_sql d v i) = some i
consumed (finalize d v i r) = some i
consumed _ = none

-- What a call may do to the store.
data Change (s : Store) : Store → Type 0 where
  same : Change s s
  added : (o : Object) → Change s (mint o s)
  taken : (i : ℕ) → Change s (drop i s)
  moved : (i : ℕ) (o : Object) → Change s (promote i o s)

Change-IsSpent : (i : ℕ) (s t : Store) → Change s t → IsSpent i s → IsSpent i t
Change-IsSpent i s _ same v = v
Change-IsSpent i s _ (added o) v = (ground (arith, v), ground (arith, v))
Change-IsSpent i s _ (taken j) v = (ground (arith, v), ground (arith, v))
Change-IsSpent i s _ (moved j o) v = (ground (arith, v), ground (arith, v))

Change-IsOrderly : (s t : Store) → Change s t → IsOrderly s → IsOrderly t
Change-IsOrderly s _ same v i le = v i le
Change-IsOrderly s _ (added o) v i le = ground (arith, v i)
Change-IsOrderly s _ (taken j) v i le = ground (arith, v i)
Change-IsOrderly s _ (moved j o) v i le = ground (arith, v i)

commit-Change :
    {A : Type 0} (s : Store) (m : Checked Code A) (f : A → Reply)
    → ((a : A) → Change s (f a).1)
    → Change s (commit s m f).1
commit-Change s (refused e) f h = same
commit-Change s (passed a) f h = h a

module _ (iso : ℕ → String → String) where
  derived-Change : (s : Store) (i : ℕ) (m : Checked Code _) → Change s (derived s i m).1
  derived-Change s i (refused e) = taken i
  derived-Change s i (passed l) = moved i _

  issued-Change : (s : Store) (i : ℕ) (m : Checked Code _) → Change s (issued s i m).1
  issued-Change s i (refused e) = taken i
  issued-Change s i (passed a) = moved i _

  judged-Change :
      (s : Store) (i : ℕ) (a : Attempt) (m : Checked Code _) → Change s (judged s i a m).1
  judged-Change s i a (refused e) = taken i
  judged-Change s i a (passed b) = taken i

  logged_in-Change : (s : Store) (i : ℕ) (m : Checked Code _) → Change s (logged_in s i m).1
  logged_in-Change s i (refused e) = taken i
  logged_in-Change s i (passed b) = taken i

  perform-Change : (c : Call) (s : Store) → Change s (perform iso c s).1
  unfolding perform
  perform-Change (password_from_reset_response b r t) s =
      commit-Change s _ (on_parsed s) λ h. added _
  perform-Change (complete_reset i m) s = commit-Change s _ (on_finished s i) λ h. moved i _
  perform-Change (read_database_clock d v q) s = commit-Change s _ (on_clock s) λ h. added _
  perform-Change (lease_deadline d v i) s =
      commit-Change s _ (on_deadline s i) λ c. derived-Change s i (lease_of c)
  perform-Change (activation_sql d v i l) s =
      commit-Change s _ (on_login iso d v s l) λ c. logged_in-Change s l (login_sql iso d v c)
  perform-Change (prove_probe d v i e) s = commit-Change s _ (on_probe s i) λ h. moved i _
  perform-Change (prove_restart d v i e) s = commit-Change s _ (on_restart s i) λ h. moved i _
  perform-Change (open_sink d v i) s = commit-Change s _ (on_opened s) λ h. same
  perform-Change (confirm_sink d v i rows) s = commit-Change s _ (on_checked v s i) λ h. moved i _
  perform-Change (finalization_sql d v i) s =
      commit-Change s _ (on_issue d v s i) λ c. issued-Change s i (finalization_of d v c)
  perform-Change (finalize d v i r) s =
      commit-Change s _ (on_readback s i r) λ a. judged-Change s i a (judge_readback r)

  pub Reaches-IsOrderly : (s : Store) (log : List Output) → Reaches iso s log → IsOrderly s
  Reaches-IsOrderly s log start = λ i le. refl
  Reaches-IsOrderly s log (and_then c t l r) =
      Change-IsOrderly t _ (perform-Change c t) (Reaches-IsOrderly t l r)

  pub Later-IsSpent : (i : ℕ) (s t : Store) → Later iso s t → IsSpent i s → IsSpent i t
  Later-IsSpent i s t now v = v
  Later-IsSpent i s t (next_call c u l) v =
      Change-IsSpent i u _ (perform-Change c u) (Later-IsSpent i s u l v)

-- The proof under a number is registered.
abbrev pub IsHeld : ℕ → Store → Type 0
IsHeld i s = (o : Object) × (s.live i ≡ some o)

pub held-IsHeld :
    {A : Type 0} (part : Object → Option A) (i : ℕ) (s : Store) (a : A)
    → held part s i ≡ some a
    → IsHeld i s
unfolding held
held-IsHeld part i s a e = elim (Option-cases (s.live i)) [
  | inl n ↦ ground (arith, n, e)
  | inr (o, q) ↦ (o, q)
]

pub require_stage-IsHeld :
    {A : Type 0} (part : Object → Option A) (role_of : A → String) (e : Code) (d : String) (v : _)
    (i : ℕ) (s : Store) (a : A)
    → require_stage part role_of e d v i s ≡ passed a
    → IsHeld i s
unfolding require_stage
require_stage-IsHeld part role_of e d v i s a h =
    let q : (b : _) × (held part s i ≡ some b) = ground arith in held-IsHeld part i s q.0 q.1
