-- ===== src/Launch/Tests.antt =====
-- Runs of the launch checks on concrete data.
use zao_rental.Common.{◌≡◌, refl, true, some, List, [], ◌∷◌}
use zao_rental.Launch.Staging.{StagingCategory, StagingState, media, notification, ready, off}
use zao_rental.Launch.Backup.{BackupGateInput}
use zao_rental.Launch.Manifest.{
  ManifestEntry, Manifest, ManifestComponent, manifest, production_config_manifest, active,
  disabled, neon, square, square_webhook, r2, notification_provider, vercel, custom_domain,
  backup_pitr,
}

-- All that must be ready is; media and notifications are off.
abbrev staging : StagingCategory → StagingState
staging media = off
staging notification = off
staging c = ready

abbrev backups : BackupGateInput
backups = record {
  backup_enabled = true;
  retention_days = some 30;
  pitr_enabled = true;
  latest_successful_backup_age_hours = some 20;
  restore_target_isolated = true;
}

abbrev entry : ManifestComponent → ManifestEntry
entry c = record { component = c; activation_state = active }

abbrev entries : List ManifestEntry
entries =
    entry neon
    ∷ entry square
    ∷ entry square_webhook
    ∷ record { component = r2; activation_state = disabled }
    ∷ entry notification_provider
    ∷ entry vercel
    ∷ entry custom_domain
    ∷ entry backup_pitr
    ∷ []

abbrev opened : Manifest
opened = record { missing = []; disabled_mandatory = []; complete = true }

entries_complete : production_config_manifest entries ≡ manifest opened
unfolding production_config_manifest
entries_complete = refl
