-- ===== src/Release/Credential/Once/Checks.antt =====
-- Each check of a call that uses up a proof passes only while the proof is registered.
use zao_rental.Release.Credential.Stages.{
  proof_part, check_attempt, check_finalization, check_probe, check_restart, check_sink,
}
use zao_rental.Common.{ℕ, ◌≡◌, some, arith, String}
use zao_rental.Release.Credential.Reset.{check_complete_reset}
use zao_rental.Release.Credential.Lease.{check_clock_proof, check_activation}
use zao_rental.Common.Checked.{Checked, passed}
use zao_rental.Release.Names.{
  Code, completed_reset_required, probe_proof_required, sink_proof_required,
  sink_confirmation_required, finalization_attempt_required,
}
use zao_rental.Release.Credential.{
  Store, held, require_stage, completed_part, probe_part, confirmed_part, attempt_part,
  pending_part, clock_part, lease_part,
}
use zao_rental.Release.Credential.Spent.{IsHeld, held-IsHeld, require_stage-IsHeld}

-- A check that passes only if the proof is registered.
abbrev pub Needs : ℕ → Store → {A : Type 0} → Checked Code A → Type 0
Needs i s m = (a : _) → m ≡ passed a → IsHeld i s

pub check_complete_reset-Needs :
    (i : ℕ) (m : _) (s : Store) → Needs i s (check_complete_reset i m s)
unfolding check_complete_reset
check_complete_reset-Needs i m s a h =
    let q : (b : _) × (held pending_part s i ≡ some b) = ground arith in
    held-IsHeld pending_part i s q.0 q.1

pub check_clock_proof-Needs :
    (d : String) (v : _) (i : ℕ) (s : Store) → Needs i s (check_clock_proof d v i s)
unfolding check_clock_proof
check_clock_proof-Needs d v i s a h =
    let q : (b : _) × (held clock_part s i ≡ some b) = ground arith in
    held-IsHeld clock_part i s q.0 q.1

pub check_activation-Needs :
    (d : String) (v : _) (i l : ℕ) (s : Store) → Needs l s (check_activation d v i l s)
unfolding check_activation
check_activation-Needs d v i l s a h =
    let q : (b : _) × (held lease_part s l ≡ some b) = ground arith in
    held-IsHeld lease_part l s q.0 q.1

pub check_probe-Needs :
    (d : String) (v : _) (i : ℕ) (e : _) (s : Store) → Needs i s (check_probe d v i e s)
unfolding check_probe
check_probe-Needs d v i e s a h =
    let q : (b : _) × (require_stage completed_part (λ x. x.role) completed_reset_required d v i s
          ≡ passed b) =
      ground arith in
    require_stage-IsHeld completed_part (λ x. x.role) completed_reset_required d v i s q.0 q.1

pub check_restart-Needs :
    (d : String) (v : _) (i : ℕ) (e : _) (s : Store) → Needs i s (check_restart d v i e s)
unfolding check_restart
check_restart-Needs d v i e s a h =
    let q : (b : _) × (require_stage probe_part (λ x. x.role) probe_proof_required d v i s
          ≡ passed b) =
      ground arith in
    require_stage-IsHeld probe_part (λ x. x.role) probe_proof_required d v i s q.0 q.1

pub check_sink-Needs :
    (d : String) (v : _) (i : ℕ) (rows : _) (s : Store) → Needs i s (check_sink d v i rows s)
unfolding check_sink
check_sink-Needs d v i rows s a h =
    let q : (b : _) × (require_stage (proof_part v) (λ x. x.role) sink_proof_required d v i s
          ≡ passed b) =
      ground arith in
    require_stage-IsHeld (proof_part v) (λ x. x.role) sink_proof_required d v i s q.0 q.1

pub check_finalization-Needs :
    (d : String) (v : _) (i : ℕ) (s : Store) → Needs i s (check_finalization d v i s)
unfolding check_finalization
check_finalization-Needs d v i s a h =
    let q : (b : _) × (require_stage confirmed_part (λ x. x.role) sink_confirmation_required d v i s
          ≡ passed b) =
      ground arith in
    require_stage-IsHeld confirmed_part (λ x. x.role) sink_confirmation_required d v i s q.0 q.1

pub check_attempt-Needs :
    (d : String) (v : _) (i : ℕ) (s : Store) → Needs i s (check_attempt d v i s)
unfolding check_attempt
check_attempt-Needs d v i s a h =
    let q : (b : _) × (require_stage attempt_part (λ x. x.role) finalization_attempt_required d v i
            s
          ≡ passed b) =
      ground arith in
    require_stage-IsHeld attempt_part (λ x. x.role) finalization_attempt_required d v i s q.0 q.1
