-- ===== src/Release/Credential.antt =====
-- The proofs of a credential's lifecycle: scripts/production-credential-activation.ts. A proof is an
-- object that its module has registered in a WeakSet or a WeakMap; it is used by its identity, and an
-- object that is not registered counts for nothing. The store keeps the registered objects of all the
-- sets; a new object gets a new number.
pub mod Reset
pub mod Lease
pub mod Stages
pub mod Containment
pub mod Calls
pub mod Spent
pub mod Once
pub mod Milestones
pub mod Lifecycle
mod Tests
use zao_rental.Common.{
  ℕ, zero, suc, ◌+◌, ◌-◌, ◌*◌, ◌/◌, ◌%◌, ◌^◌, ◌≤◌, ◌<◌, min, max, ◌≡◌, refl, sym, ap, subst, ◌∙◌,
  ◌≢◌, ◌↔◌, ◌⊎◌, inl, inr, Bool, true, false, not, ◌&&◌, ◌||◌, Option, none, some, List, [], ◌∷◌,
  ◌++◌, map, arith, String, str_eq, ltb, leb, ◌==◌, if◌then◌else◌, ltb→lt, leb→le, le→leb, ==_iff,
  ==_refl, Bool-cases, &&-eq-true, Option-cases, length, length-append, any, every, keep, find,
  total, All, All-append, All-imp, total-append, keep-append, includes, In, In-append_left,
  In-append_right, In-append-cases, All-In, In-keep, keep-In, find-In, any-In, every-In,
}
use zao_rental.Common.Checked.{Checked, passed, refused, ◌>>=◌, ◌>>◌, ensure}
use zao_rental.Release.Names.{Code, Service, role_for}

-- A role with its password from the provider, and the operations that have to finish.
pub record Holder : Type 0 where
  pub role : String
  pub password : String
  pub operation_ids : List String

-- What the expression of `productionCredentialLeaseDeadline` and `Date.parse` learn of the database's
-- time: milliseconds of the whole second, and the text of the fraction.
pub data ClockText : Type 0 where
  unshaped : ClockText
  shaped : Option ℕ → String → ClockText

-- `DatabaseClockProof`
pub record ClockProof : Type 0 where
  pub database : String
  pub service : Service
  pub role : String
  pub database_now : ClockText

-- `LeaseDeadlineProof`; the deadline is a second in milliseconds and its fraction.
pub record LeaseProof : Type 0 where
  pub database : String
  pub service : Service
  pub role : String
  pub deadline : ℕ
  pub fraction : String

pub record Confirmed : Type 0 where
  pub role : String
  pub sink_key : String

pub record Attempt : Type 0 where
  pub role : String
  pub sink_key : String
  pub sql : List String

pub data Object : Type 0 where
  pending completed probe_proven restart_proven : Holder → Object
  clock_proof : ClockProof → Object
  lease_proof : LeaseProof → Object
  sink_confirmed : Confirmed → Object
  finalization_attempt : Attempt → Object

pub record Store : Type 0 where
  pub next : ℕ
  pub live : ℕ → Option Object

abbrev pub nothing_yet : Store
nothing_yet = record { next = 0; live = λ i. none }

-- `set.delete(object)`
abbrev pub drop : ℕ → Store → Store
drop i s = record s { live = λ j. if i == j then none else s.live j }

-- `set.add(object)` of an object just made.
abbrev pub mint : Object → Store → Store
mint o s = record { next = s.next + 1; live = λ j. if s.next == j then some o else s.live j }

-- `delete` of one proof and `add` of the next.
abbrev pub promote : ℕ → Object → Store → Store
promote i o s = mint o (drop i s)

abbrev pub pending_part : Object → Option Holder
pending_part (pending h) = some h
pending_part _ = none

abbrev pub completed_part : Object → Option Holder
completed_part (completed h) = some h
completed_part _ = none

abbrev pub probe_part : Object → Option Holder
probe_part (probe_proven h) = some h
probe_part _ = none

abbrev pub restart_part : Object → Option Holder
restart_part (restart_proven h) = some h
restart_part _ = none

abbrev pub clock_part : Object → Option ClockProof
clock_part (clock_proof c) = some c
clock_part _ = none

abbrev pub lease_part : Object → Option LeaseProof
lease_part (lease_proof l) = some l
lease_part _ = none

abbrev pub confirmed_part : Object → Option Confirmed
confirmed_part (sink_confirmed c) = some c
confirmed_part _ = none

abbrev pub attempt_part : Object → Option Attempt
attempt_part (finalization_attempt a) = some a
attempt_part _ = none

-- The object of a kind that is registered under a number.
unfoldable pub held : {A : Type 0} → (Object → Option A) → Store → ℕ → Option A
held part s i = elim (s.live i) [ none ↦ none | some o ↦ part o ]

abbrev pub given : {A : Type 0} → Option A → Code → Checked Code A
given none e = refused e
given (some a) e = passed a

-- `requireStage`
unfoldable pub require_stage :
    {A : Type 0}
    → (Object → Option A)
    → (A → String)
    → Code
    → String
    → Service
    → ℕ
    → Store
    → Checked Code A
require_stage part role_of e database service i s = do
  a ← given (held part s i) e
  role ← role_for database service
  ensure (str_eq (role_of a) role) e
  passed a
