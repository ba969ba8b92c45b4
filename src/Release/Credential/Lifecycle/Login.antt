-- ===== src/Release/Credential/Lifecycle/Login.antt =====
-- The calls of the lifecycle beside those that turn one proof into the next: the login under a lease
-- of the database's time, and the opening of the sink.
use zao_rental.Common.{ℕ, ◌+◌, ◌≡◌, refl, true, inl, inr, some, List, [], ◌∷◌, arith, String, ltb}
use Prim.Native.String.{◌++◌ as str_append}
use text.Mathlib.TextPositions.{eq_refl}
use zao_rental.Common.Checked.{passed, Checked-cases}
use zao_rental.Release.Names.{Service, role_for, sink_key_for, manager_set, quoted}
use zao_rental.Release.Credential.{
  completed, clock_proof, lease_proof, shaped, Holder, ClockProof, LeaseProof, Confirmed, Attempt,
  Store, drop, mint, promote, held, require_stage,
}
use zao_rental.Release.Credential.Lease.{
  ClockRow, check_database_clock, check_clock_proof, lease_of, lease_ms, year_10000, same_service,
  check_activation, login_sql,
}
use zao_rental.Release.Credential.Stages.{proof_part, credential_sink, finalization_of}
use zao_rental.Release.Credential.Calls.{
  read_database_clock, lease_deadline, activation_sql, open_sink, clock_read, lease_derived,
  login_issued, sink_opened, perform,
}

same_service-same : (v : Service) → same_service v v ≡ true
same_service-same Service.auth = refl
same_service-same Service.ledger = refl
same_service-same Service.hold = refl
same_service-same Service.transfer = refl
same_service-same Service.pricing = refl
same_service-same Service.recommendation = refl
same_service-same Service.operations = refl
same_service-same Service.guest = refl
same_service-same Service.content_read = refl
same_service-same Service.booking_access = refl

-- The one row of a database that tells its time.
abbrev pub row_at : String → ℕ → String → ClockRow
row_at d clock fraction = record {
  database = d;
  database_now = some (shaped (some clock) fraction);
}

abbrev pub clock_at : String → Service → String → ℕ → String → ClockProof
clock_at d v role clock fraction = record {
  database = d;
  service = v;
  role = role;
  database_now = shaped (some clock) fraction;
}

-- A lease of twenty minutes from that time.
abbrev pub lease_from : String → Service → String → ℕ → String → LeaseProof
lease_from d v role clock fraction = record {
  database = d;
  service = v;
  role = role;
  deadline = clock + lease_ms;
  fraction = fraction;
}

module _ (iso : ℕ → String → String) (d : String) (v : Service) (role : String) (clock : ℕ)
    (fraction : String) (s : Store) where
  pub perform-read_database_clock :
      role_for d v ≡ passed role
      → perform iso (read_database_clock d v (some (row_at d clock fraction ∷ []))) s ≡ (
        passed (clock_read s.next (clock_at d v role clock fraction)),
        mint (clock_proof (clock_at d v role clock fraction)) s,
      )
  unfolding perform check_database_clock
  perform-read_database_clock r = ground (arith, r, eq_refl d)

  pub perform-lease_deadline :
      (i : ℕ)
      → s.live i ≡ some (clock_proof (clock_at d v role clock fraction))
      → role_for d v ≡ passed role
      → perform iso (lease_deadline d v i) s ≡ (
        passed (lease_derived s.next (lease_from d v role clock fraction)),
        promote i (lease_proof (lease_from d v role clock fraction)) s,
      )
  unfolding perform check_clock_proof held lease_of
  perform-lease_deadline i l r = ground (arith, l, r, eq_refl d, eq_refl role, same_service-same v)

  pub perform-activation_sql :
      (h : Holder) (i j : ℕ) (sql : List String)
      → s.live i ≡ some (completed h)
      → h.role ≡ role
      → s.live j ≡ some (lease_proof (lease_from d v role clock fraction))
      → role_for d v ≡ passed role
      → ltb (clock + lease_ms) year_10000 ≡ true
      → login_sql iso d v (lease_from d v role clock fraction) ≡ passed sql
      → perform iso (activation_sql d v i j) s ≡ (passed (login_issued sql), drop j s)
  unfolding perform check_activation held require_stage
  perform-activation_sql h i j sql l same k r early q =
      ground (arith, l, same, k, r, early, q, eq_refl d, eq_refl role, same_service-same v)

-- The statements of the login, after the one that sets the manager.
abbrev login_after : (ℕ → String → String) → LeaseProof → String → String → List String
login_after iso lease first name =
    first
    ∷ str_append "ALTER ROLE " (
        str_append name
          (str_append " LOGIN VALID UNTIL '" (str_append (iso lease.deadline lease.fraction) "'")))
    ∷ []

-- The login can be written where the finalization can: both name the role and the manager.
pub login_sql-passed :
    (iso : ℕ → String → String) (d : String) (v : Service) (lease : LeaseProof) (role : String)
    (c : Confirmed) (a : Attempt)
    → finalization_of d v c ≡ passed a
    → role_for d v ≡ passed role
    → (sql : List String) × (login_sql iso d v lease ≡ passed sql)
unfolding finalization_of login_sql
login_sql-passed iso d v lease role c a h r = elim (Checked-cases (manager_set d)) [
  | inl (e, f) ↦ absurd (ground (arith, h, f, r))
  | inr (first, f) ↦ elim (Checked-cases (quoted role)) [
    | inl (e, n) ↦ absurd (ground (arith, h, f, r, n))
    | inr (name, n) ↦ (login_after iso lease first name, ground (arith, f, r, n))
  ]
]

pub perform-open_sink :
    (iso : ℕ → String → String) (d : String) (v : Service) (h : Holder) (s : Store) (i : ℕ)
    → held (proof_part v) s i ≡ some h
    → role_for d v ≡ passed h.role
    → perform iso (open_sink d v i) s ≡ (passed (sink_opened (sink_key_for v, h.password)), s)
unfolding perform credential_sink require_stage
perform-open_sink iso d v h s i l r = ground (arith, l, r, eq_refl h.role)
