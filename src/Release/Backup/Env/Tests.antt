-- ===== src/Release/Backup/Env/Tests.antt =====
-- Settings that are accepted, and two environments that a child cannot tell apart.
use zao_rental.Common.{
  ℕ, ◌≡◌, refl, subst, inl, inr, true, false, some, List, String, str_eq, if◌then◌else◌, Bool-cases,
}
use text.Mathlib.TextEquality.{eq_iff}
use zao_rental.Contracts.Flow.{codes}
use zao_rental.Common.Checked.{passed}
use zao_rental.Release.Backup.Env.{
  ProcessEnv, Settings, CaRoot, ca_root_unreadable, Dump, not_spawned, spawn_pg_dump, is_missing,
  required_env_keys, settings_of, assert_production_host, fingerprint_host,
  expected_production_port, expected_production_bucket, expected_production_ca_root,
  read_backup_env, is_allowed, build_pg_dump_child_env,
}
use zao_rental.Release.Backup.Env.Closed.{build_pg_dump_child_env-same}

abbrev env : ProcessEnv
env k =
    if str_eq k "PGHOST"
    then some "ep-a.eu.neon.tech"
    else if str_eq k "PGPORT"
    then some "5432"
    else if str_eq k "PRODUCTION_BACKUP_BUCKET"
    then some "zao-rental-prod-backup"
    else some "x"

abbrev print_of : List ℕ → String
print_of cs = "7ad9"

read : read_backup_env codes print_of env "7ad9" ≡ passed (settings_of env)
unfolding read_backup_env assert_production_host
read = refl

-- The same, with a secret of the ambient environment more.
abbrev tainted : ProcessEnv
tainted k = if str_eq k "R2_SECRET_ACCESS_KEY" then some "secret" else env k

same_allowed : (k : String) → is_allowed k ≡ true → env k ≡ tainted k
same_allowed k h = elim (Bool-cases (str_eq k "R2_SECRET_ACCESS_KEY")) [
  | inl y ↦
      let same = (eq_iff k "R2_SECRET_ACCESS_KEY").0 y in
      absurd (cc (subst (λ t. is_allowed t ≡ true) same h))
  | inr n ↦ rw n refl
]

build_pg_dump_child_env-same_example :
    let child = build_pg_dump_child_env (settings_of env) expected_production_ca_root in
    (child env "HOME" ≡ child tainted "HOME")
    × (child env "PGSSLROOTCERT" ≡ some expected_production_ca_root)
    × (child env "PGPASSWORD" ≡ some "x")
build_pg_dump_child_env-same_example =
    build_pg_dump_child_env-same (settings_of env) expected_production_ca_root env tainted
      same_allowed "HOME"

unreadable_roots :
    spawn_pg_dump
      (settings_of env)
      expected_production_ca_root
      (record { is_there = true; is_ordinary = true; is_readable = false })
      env
      (some 0)
    ≡ not_spawned ca_root_unreadable
unfolding spawn_pg_dump zao_rental.Release.Backup.Env.assert_ca_root_usable
unreadable_roots = refl
