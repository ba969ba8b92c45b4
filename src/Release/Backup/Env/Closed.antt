-- ===== src/Release/Backup/Env/Closed.antt =====
-- What reaches the child process.
use zao_rental.Common.{◌≡◌, refl, ap, inl, inr, true, none, some, String, if◌then◌else◌, Bool-cases}
use zao_rental.Release.Backup.Env.{
  ProcessEnv, Settings, is_allowed, override, lookup, minimal_pg_child_env, pg_dump_entries,
  build_pg_dump_child_env,
}

allowed-same :
    (s t : ProcessEnv) (k : String)
    → (is_allowed k ≡ true → s k ≡ t k)
    → (if is_allowed k then s k else none) ≡ (if is_allowed k then t k else none)
allowed-same s t k same = elim (Bool-cases (is_allowed k)) [
  | inl y ↦ rw (y, same y) refl
  | inr n ↦ rw n refl
]

-- Two environments of the process that agree on the seven allowed names give the child the same value
-- for every name, and the bundle of roots that it trusts is the given one in any case.
pub build_pg_dump_child_env-same :
    (env : Settings) (ca_root : String) (s t : ProcessEnv)
    → ((k : String) → is_allowed k ≡ true → s k ≡ t k)
    → (k : String)
    → (build_pg_dump_child_env env ca_root s k ≡ build_pg_dump_child_env env ca_root t k)
      × (build_pg_dump_child_env env ca_root s "PGSSLROOTCERT" ≡ some ca_root)
      × (build_pg_dump_child_env env ca_root s "PGPASSWORD" ≡ some env.pg_password)
unfolding build_pg_dump_child_env minimal_pg_child_env
build_pg_dump_child_env-same env ca_root s t same k = (
  ap (override (lookup k (pg_dump_entries env ca_root))) (allowed-same s t k (same k)),
  refl,
  refl,
)
