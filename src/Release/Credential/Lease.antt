-- ===== src/Release/Credential/Lease.antt =====
-- The database clock, the lease that it bounds, and the login under the lease.
use zao_rental.Common.{
  ℕ, ◌+◌, Bool, true, false, ◌&&◌, Option, none, some, List, [], ◌∷◌, String, str_eq, ltb,
}
use Prim.Native.String.{◌++◌ as str_append}
use zao_rental.Common.Checked.{Checked, passed, ◌>>=◌, ◌>>◌, ensure}
use zao_rental.Release.Names.{
  Code, Service, database_client_required, clock_read_invalid, clock_proof_required, time_invalid,
  completed_reset_required, lease_proof_required, role_for, quoted, manager_set,
}
use zao_rental.Release.Credential.{
  ClockText, unshaped, shaped, ClockProof, LeaseProof, Store, completed_part, clock_part,
  lease_part, held, given, require_stage,
}

-- The rows of the fixed query, with the database that each names.
pub record ClockRow : Type 0 where
  pub database : String
  pub database_now : Option ClockText

abbrev the_row : List ClockRow → Option ClockRow
the_row (r ∷ []) = some r
the_row _ = none

-- `productionCredentialReadDatabaseClock`; `none` stands for a client of another class.
unfoldable pub check_database_clock :
    String → Service → Option (List ClockRow) → Checked Code ClockProof
check_database_clock database service client = do
  role ← role_for database service
  rows ← given client database_client_required
  r ← given (the_row rows) clock_read_invalid
  ensure (str_eq r.database database) clock_read_invalid
  now ← given r.database_now clock_read_invalid
  passed (record { database = database; service = service; role = role; database_now = now })

abbrev pub same_service : Service → Service → Bool
same_service Service.auth Service.auth = true
same_service Service.ledger Service.ledger = true
same_service Service.hold Service.hold = true
same_service Service.transfer Service.transfer = true
same_service Service.pricing Service.pricing = true
same_service Service.recommendation Service.recommendation = true
same_service Service.operations Service.operations = true
same_service Service.guest Service.guest = true
same_service Service.content_read Service.content_read = true
same_service Service.booking_access Service.booking_access = true
same_service _ _ = false

-- The test of a clock proof before it is used up.
unfoldable pub check_clock_proof : String → Service → ℕ → Store → Checked Code ClockProof
check_clock_proof database service i s = do
  c ← given (held clock_part s i) clock_proof_required
  ensure (str_eq c.database database && same_service c.service service) clock_proof_required
  role ← role_for database service
  ensure (str_eq c.role role) clock_proof_required
  passed c

-- Twenty minutes.
abbrev pub lease_ms : ℕ
lease_ms = 1200000

abbrev pub seconds_of : ClockText → Option (ℕ × String)
seconds_of unshaped = none
seconds_of (shaped none fraction) = none
seconds_of (shaped (some t) fraction) = some (t, fraction)

-- `productionCredentialLeaseDeadline` after the clock proof has been used up.
unfoldable pub lease_of : ClockProof → Checked Code LeaseProof
lease_of c = do
  (t, fraction) ← given (seconds_of c.database_now) time_invalid
  passed (record {
    database = c.database;
    service = c.service;
    role = c.role;
    deadline = t + lease_ms;
    fraction = fraction;
  })

-- `LEASE_DEADLINE`: the year of the deadline has four digits.
abbrev pub year_10000 : ℕ
year_10000 = 253402300800000

-- The tests of `productionCredentialActivationSql`, before it uses up the lease.
unfoldable pub check_activation : String → Service → ℕ → ℕ → Store → Checked Code LeaseProof
check_activation database service i l s = do
  h ← require_stage completed_part (λ x. x.role) completed_reset_required database service i s
  lease ← given (held lease_part s l) lease_proof_required
  ensure (str_eq lease.database database && same_service lease.service service) lease_proof_required
  role ← role_for database service
  ensure (str_eq lease.role role && ltb lease.deadline year_10000) lease_proof_required
  passed lease

-- The SQL that it returns, with the text of an instant as the library writes it.
unfoldable pub login_sql :
    (ℕ → String → String) → String → Service → LeaseProof → Checked Code (List String)
login_sql iso database service lease = do
  first ← manager_set database
  role ← role_for database service
  name ← quoted role
  passed (
      first
      ∷ str_append "ALTER ROLE " (
          str_append name (
            str_append " LOGIN VALID UNTIL '" (str_append (iso lease.deadline lease.fraction) "'")))
      ∷ [])
