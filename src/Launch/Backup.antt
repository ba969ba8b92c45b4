-- ===== src/Launch/Backup.antt =====
-- The backup gate of packages/contracts/src/launch-staging.ts, over an input of the right shape. An
-- age in hours is a whole number here.
use zao_rental.Common.{
  ℕ, ◌≤◌, ◌≡◌, ◌↔◌, inl, inr, Bool, true, false, not, ◌&&◌, Option, none, some, List, [], ◌∷◌, ◌++◌,
  arith, ltb, leb, if◌then◌else◌, Option-cases,
}

pub record BackupGateInput : Type 0 where
  pub backup_enabled : Bool
  pub retention_days : Option ℕ
  pub pitr_enabled : Bool
  pub latest_successful_backup_age_hours : Option ℕ
  pub restore_target_isolated : Bool

pub data BackupReason : Type 0 where
  backup_not_enabled retention_insufficient pitr_not_enabled no_successful_backup_observed
        latest_backup_too_old restore_target_not_isolated :
      BackupReason

pub data GateState : Type 0 where
  ready pending blocked not_run : GateState

pub record GateAnswer : Type 0 where
  pub state : GateState
  pub reasons : List BackupReason

pub data GateResult : Type 0 where
  gate : GateAnswer → GateResult
  backup_gate_invalid : GateResult

abbrev when : Bool → BackupReason → List BackupReason
when true r = r ∷ []
when false r = []

abbrev retention_reasons : Option ℕ → List BackupReason
retention_reasons none = retention_insufficient ∷ []
retention_reasons (some d) = when (ltb d 7) retention_insufficient

abbrev age_reasons : Option ℕ → List BackupReason
age_reasons none = no_successful_backup_observed ∷ []
age_reasons (some h) = when (ltb 26 h) latest_backup_too_old

abbrev pub backup_reasons : BackupGateInput → List BackupReason
backup_reasons b =
    when (not b.backup_enabled) backup_not_enabled
    ++ retention_reasons b.retention_days
    ++ when (not b.pitr_enabled) pitr_not_enabled
    ++ age_reasons b.latest_successful_backup_age_hours
    ++ when (not b.restore_target_isolated) restore_target_not_isolated

abbrev is_missing : Option ℕ → Bool
is_missing none = true
is_missing (some x) = false

abbrev retention_valid : Option ℕ → Bool
retention_valid none = true
retention_valid (some d) = leb d 3650

abbrev state_of : Bool → List BackupReason → GateState
state_of true rs = not_run
state_of false [] = ready
state_of false (r ∷ rs) = blocked

-- `backupConnectionGate`
unfoldable pub backup_connection_gate : BackupGateInput → GateResult
backup_connection_gate b =
    let reasons = backup_reasons b in
    let unconfigured =
      not b.backup_enabled
      && is_missing b.latest_successful_backup_age_hours
      && not b.pitr_enabled in
    if not (retention_valid b.retention_days)
    then backup_gate_invalid
    else gate (record { state = state_of unconfigured reasons; reasons = reasons })

-- What a ready gate stands for.
pub record IsRecoverable (b : BackupGateInput) : Type 0 where
  pub enabled : b.backup_enabled ≡ true
  pub restorable : b.pitr_enabled ≡ true
  pub isolated : b.restore_target_isolated ≡ true
  pub retained : (d : ℕ) × (b.retention_days ≡ some d) × (7 ≤ d) × (d ≤ 3650)
  pub recent : (h : ℕ) × (b.latest_successful_backup_age_hours ≡ some h) × (h ≤ 26)

-- The gate is ready, with no reason against it, exactly where backups and point-in-time recovery are
-- enabled, the restore target is isolated, the retention is from 7 to 3650 days and the latest
-- successful backup is at most 26 hours old.
pub backup_connection_gate_iff :
    (b : BackupGateInput)
    → (backup_connection_gate b ≡ gate (record { state = ready; reasons = [] })) ↔ IsRecoverable b
unfolding backup_connection_gate
backup_connection_gate_iff b = (
  λ e. record {
    enabled = ground arith;
    restorable = ground arith;
    isolated = ground arith;
    retained = elim (Option-cases b.retention_days) [
      | inl h ↦ absurd (ground arith)
      | inr (d, h) ↦ (d, h, ground arith, ground arith)
    ];
    recent = elim (Option-cases b.latest_successful_backup_age_hours) [
      | inl h ↦ absurd (ground arith)
      | inr (d, h) ↦ (d, h, ground arith)
    ];
  },
  λ v.
      let (d, hd, ld, ud) = v.retained in
      let (h, hh, lh) = v.recent in ground (arith, v.enabled, v.restorable, v.isolated),
)
