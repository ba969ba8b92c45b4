-- ===== src/Release/Backup/Env/Settled.antt =====
-- The settings that are accepted.
use zao_rental.Common.{
  ℕ, ◌≡◌, refl, sym, ap, subst, ◌∙◌, inl, inr, Bool, false, List, [], ◌∷◌, arith, String, str_eq,
  Bool-cases, any, keep,
}
use text.Mathlib.TextEquality.{eq_iff}
use zao_rental.Common.Checked.{passed, ensure, >>-eq-passed, ensure-eq-passed}
use zao_rental.Release.Backup.Env.{
  port_rejected, bucket_mismatch_rejected, host_fingerprint_mismatch_rejected, ProcessEnv, Settings,
  is_missing, text_at, ensure_none, settings_of, required_env_keys, assert_production_host,
  fingerprint_host, expected_production_port, expected_production_bucket, read_backup_env,
}

keep-none : (p : String → Bool) (ks : List String) → keep p ks ≡ [] → any p ks ≡ false
keep-none p [] h = refl
keep-none p (k ∷ ks) h = elim (Bool-cases (p k)) [
  | inl y ↦ absurd (ground (arith, h, y))
  | inr n ↦ let ih = keep-none p ks (ground (arith, h, n)) in ground (arith, n, ih)
]

ensure_none-passed : (ks : List String) → ensure_none ks ≡ passed tt → ks ≡ []
ensure_none-passed [] h = refl
ensure_none-passed (k ∷ ks) h = absurd (cc)

-- Settings are read only where every required name has a value, the host is one of production by its
-- shape and by its fingerprint, and the port and the bucket are the fixed ones.
read_backup_env-passed :
    (normal : String → List ℕ) (digest : List ℕ → String) (env : ProcessEnv) (expected : String)
    (out : Settings)
    → read_backup_env normal digest env expected ≡ passed out
    → (any (is_missing env) required_env_keys ≡ false)
      × (assert_production_host (normal out.pg_host) ≡ passed tt)
      × (fingerprint_host normal digest out.pg_host ≡ expected)
      × (out.pg_port ≡ expected_production_port)
      × (out.bucket ≡ expected_production_bucket)
      × (out ≡ settings_of env)
unfolding read_backup_env
read_backup_env-passed normal digest env expected out h =
    let keys = keep (is_missing env) required_env_keys in
    let host = assert_production_host (normal (text_at env "PGHOST")) in
    let port = str_eq (text_at env "PGPORT") expected_production_port in
    let bucket = str_eq (text_at env "PRODUCTION_BACKUP_BUCKET") expected_production_bucket in
    let print = str_eq (fingerprint_host normal digest (text_at env "PGHOST")) expected in
    let (a, h1) = >>-eq-passed (ensure_none keys) _ out h in
    let (b, h2) = >>-eq-passed host _ out h1 in
    let (c, h3) = >>-eq-passed (ensure port port_rejected) _ out h2 in
    let (d, h4) = >>-eq-passed (ensure bucket bucket_mismatch_rejected) _ out h3 in
    let (e, h5) = >>-eq-passed (ensure print host_fingerprint_mismatch_rejected) _ out h4 in
    let same : settings_of env ≡ out = ground (arith, h5) in
    (
      keep-none (is_missing env) required_env_keys (ensure_none-passed keys a),
      subst (λ o. assert_production_host (normal o.pg_host) ≡ passed tt) same b,
      ap (λ o. fingerprint_host normal digest o.pg_host) (sym same)
          ∙ (eq_iff (fingerprint_host normal digest (text_at env "PGHOST")) expected).0
              (ensure-eq-passed print host_fingerprint_mismatch_rejected e),
      ap (λ o. o.pg_port) (sym same)
          ∙ (eq_iff (text_at env "PGPORT") expected_production_port).0
              (ensure-eq-passed port port_rejected c),
      ap (λ o. o.bucket) (sym same)
          ∙ (eq_iff (text_at env "PRODUCTION_BACKUP_BUCKET") expected_production_bucket).0
              (ensure-eq-passed bucket bucket_mismatch_rejected d),
      sym same,
    )
