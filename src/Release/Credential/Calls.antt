-- ===== src/Release/Credential/Calls.antt =====
-- The operations of the credential's lifecycle on the store, and the stores and histories that any
-- sequence of calls leads to.
use zao_rental.Common.{ℕ, Bool, Option, List, [], ◌∷◌, String}
use zao_rental.Common.Checked.{Checked, passed, refused}
use zao_rental.Release.Names.{Code, Service, is_canary}
use zao_rental.Release.Credential.{
  Object, pending, completed, probe_proven, restart_proven, clock_proof, lease_proof,
  sink_confirmed, finalization_attempt, Holder, ClockProof, LeaseProof, Confirmed, Attempt, Store,
  nothing_yet, drop, mint, promote,
}
use zao_rental.Release.Credential.Reset.{ResetBody, check_reset_response, check_complete_reset}
use zao_rental.Release.Credential.Lease.{
  ClockRow, check_database_clock, check_clock_proof, lease_of, check_activation, login_sql,
}
use zao_rental.Release.Credential.Stages.{
  ProbeEvidence, RestartEvidence, SinkRow, Readback, check_probe, check_restart, credential_sink,
  check_sink, check_finalization, finalization_of, check_attempt, judge_readback,
}

-- The exported operations that make or use proofs, with their arguments; a proof is its number.
pub data Call : Type 0 where
  password_from_reset_response : Option ResetBody → String → String → Call
  complete_reset : ℕ → List (String × String) → Call
  read_database_clock : String → Service → Option (List ClockRow) → Call
  lease_deadline : String → Service → ℕ → Call
  activation_sql : String → Service → ℕ → ℕ → Call
  prove_probe : String → Service → ℕ → Option ProbeEvidence → Call
  prove_restart : String → Service → ℕ → Option RestartEvidence → Call
  open_sink : String → Service → ℕ → Call
  confirm_sink : String → Service → ℕ → List SinkRow → Call
  finalization_sql : String → Service → ℕ → Call
  finalize : String → Service → ℕ → Option Readback → Call

-- What a call returns; an object with its number.
pub data Output : Type 0 where
  reset_parsed reset_finished restart_passed : ℕ → Holder → Output
  probes_passed : ℕ → Holder → Output
  clock_read : ℕ → ClockProof → Output
  lease_derived : ℕ → LeaseProof → Output
  login_issued : List String → Output
  sink_opened : String × String → Output
  sink_checked : Bool → ℕ → Confirmed → Output
  finalization_issued : ℕ → Attempt → Output
  activated : Attempt → Output

abbrev pub Reply : Type 0
Reply = Checked Code Output × Store

-- A check that fails changes nothing.
abbrev pub commit : {A : Type 0} → Store → Checked Code A → (A → Reply) → Reply
commit s (refused e) f = (refused e, s)
commit s (passed a) f = f a

abbrev pub minted : Store → (ℕ → Output) → Object → Reply
minted s out o = (passed (out s.next), mint o s)

abbrev pub promoted : Store → ℕ → (ℕ → Output) → Object → Reply
promoted s i out o = (passed (out s.next), promote i o s)

abbrev pub derived : Store → ℕ → Checked Code LeaseProof → Reply
derived s i (refused e) = (refused e, drop i s)
derived s i (passed l) = promoted s i (λ j. lease_derived j l) (lease_proof l)

abbrev pub logged_in : Store → ℕ → Checked Code (List String) → Reply
logged_in s l (refused e) = (refused e, drop l s)
logged_in s l (passed sql) = (passed (login_issued sql), drop l s)

abbrev pub issued : Store → ℕ → Checked Code Attempt → Reply
issued s i (refused e) = (refused e, drop i s)
issued s i (passed a) = promoted s i (λ j. finalization_issued j a) (finalization_attempt a)

abbrev pub judged : Store → ℕ → Attempt → Checked Code (Unit {0}) → Reply
judged s i a (refused e) = (refused e, drop i s)
judged s i a (passed _) = (passed (activated a), drop i s)

-- What each call does once its checks have passed.
abbrev pub on_parsed : Store → Holder → Reply
on_parsed s h = minted s (λ j. reset_parsed j h) (pending h)

abbrev pub on_finished : Store → ℕ → Holder → Reply
on_finished s i h = promoted s i (λ j. reset_finished j h) (completed h)

abbrev pub on_clock : Store → ClockProof → Reply
on_clock s c = minted s (λ j. clock_read j c) (clock_proof c)

abbrev pub on_deadline : Store → ℕ → ClockProof → Reply
on_deadline s i c = derived s i (lease_of c)

abbrev pub on_probe : Store → ℕ → Holder → Reply
on_probe s i h = promoted s i (λ j. probes_passed j h) (probe_proven h)

abbrev pub on_restart : Store → ℕ → Holder → Reply
on_restart s i h = promoted s i (λ j. restart_passed j h) (restart_proven h)

abbrev pub on_opened : Store → String × String → Reply
on_opened s kv = (passed (sink_opened kv), s)

abbrev pub on_checked : Service → Store → ℕ → Confirmed → Reply
on_checked v s i c = promoted s i (λ j. sink_checked (is_canary v) j c) (sink_confirmed c)

abbrev pub on_issue : String → Service → Store → ℕ → Confirmed → Reply
on_issue d v s i c = issued s i (finalization_of d v c)

abbrev pub on_readback : Store → ℕ → Option Readback → Attempt → Reply
on_readback s i r a = judged s i a (judge_readback r)

module _ (iso : ℕ → String → String) where
  abbrev pub on_login : String → Service → Store → ℕ → LeaseProof → Reply
  on_login d v s l lease = logged_in s l (login_sql iso d v lease)

  unfoldable pub perform : Call → Store → Reply
  perform (password_from_reset_response body role temporary) s =
      commit s (check_reset_response body role temporary) (on_parsed s)
  perform (complete_reset i statuses) s =
      commit s (check_complete_reset i statuses s) (on_finished s i)
  perform (read_database_clock d v client) s =
      commit s (check_database_clock d v client) (on_clock s)
  perform (lease_deadline d v i) s = commit s (check_clock_proof d v i s) (on_deadline s i)
  perform (activation_sql d v i l) s = commit s (check_activation d v i l s) (on_login d v s l)
  perform (prove_probe d v i e) s = commit s (check_probe d v i e s) (on_probe s i)
  perform (prove_restart d v i e) s = commit s (check_restart d v i e s) (on_restart s i)
  perform (open_sink d v i) s = commit s (credential_sink d v i s) (on_opened s)
  perform (confirm_sink d v i rows) s = commit s (check_sink d v i rows s) (on_checked v s i)
  perform (finalization_sql d v i) s = commit s (check_finalization d v i s) (on_issue d v s i)
  perform (finalize d v i r) s = commit s (check_attempt d v i s) (on_readback s i r)

  -- The later stores of a sequence of calls.
  pub data Later (s : Store) : Store → Type 0 where
    now : Later s s
    next_call : (c : Call) (t : Store) → Later s t → Later s (perform c t).1

abbrev pub logged : Checked Code Output → List Output → List Output
logged (refused e) log = log
logged (passed o) log = o ∷ log

-- The stores that any sequence of calls leads to, each with what was returned, the latest first.
pub data Reaches (iso : ℕ → String → String) : Store → List Output → Type 0 where
  start : Reaches iso nothing_yet []
  and_then :
      (c : Call) (s : Store) (log : List Output)
      → Reaches iso s log
      → Reaches iso (perform iso c s).1 (logged (perform iso c s).0 log)
