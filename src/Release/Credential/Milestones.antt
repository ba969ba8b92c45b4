-- ===== src/Release/Credential/Milestones.antt =====
-- What has happened before a proof exists: the calls that returned for its role, in their order.
pub mod Passed
pub mod Trace
use zao_rental.Common.{
  ℕ, zero, suc, ◌+◌, ◌-◌, ◌*◌, ◌/◌, ◌%◌, ◌^◌, ◌≤◌, ◌<◌, min, max, ◌≡◌, refl, sym, ap, subst, ◌∙◌,
  ◌≢◌, ◌↔◌, ◌⊎◌, inl, inr, Bool, true, false, not, ◌&&◌, ◌||◌, Option, none, some, List, [], ◌∷◌,
  ◌++◌, map, arith, String, str_eq, ltb, leb, ◌==◌, if◌then◌else◌, ltb→lt, leb→le, le→leb, ==_iff,
  ==_refl, Bool-cases, &&-eq-true, Option-cases, length, length-append, any, every, keep, find,
  total, All, All-append, All-imp, total-append, keep-append, includes, In, In-append_left,
  In-append_right, In-append-cases, All-In, In-keep, keep-In, find-In, any-In, every-In,
}
use text.Mathlib.TextPositions.{eq_refl}
use zao_rental.Common.Checked.{Checked, passed, refused}
use zao_rental.Release.Names.{Code, Service, role_for, is_canary}
use zao_rental.Release.Credential.{
  Object, pending, completed, probe_proven, restart_proven, clock_proof, lease_proof,
  sink_confirmed, finalization_attempt, Holder, Confirmed, Attempt, Store, drop, mint, promote,
}
use zao_rental.Release.Credential.Calls.{
  Output, reset_parsed, reset_finished, restart_passed, probes_passed, clock_read, lease_derived,
  login_issued, sink_opened, sink_checked, finalization_issued, activated,
}

-- Which outputs a role's lifecycle passes through.
abbrev pub is_parsed : String → Output → Bool
is_parsed role (reset_parsed i h) = str_eq h.role role
is_parsed role _ = false

abbrev pub is_finished : String → Output → Bool
is_finished role (reset_finished i h) = str_eq h.role role
is_finished role _ = false

abbrev pub is_probed : String → Output → Bool
is_probed role (probes_passed i h) = str_eq h.role role
is_probed role _ = false

abbrev pub is_restarted : String → Output → Bool
is_restarted role (restart_passed i h) = str_eq h.role role
is_restarted role _ = false

abbrev pub is_sunk : String → Output → Bool
is_sunk role (sink_checked b i c) = str_eq c.role role
is_sunk role _ = false

abbrev pub is_issued : String → Output → Bool
is_issued role (finalization_issued i a) = str_eq a.role role
is_issued role _ = false

-- The log, the latest first, has an output of each kind, in this order.
abbrev pub Ordered : List (Output → Bool) → List Output → Type 0
Ordered [] log = Unit
Ordered (p ∷ ps) [] = ⊥
Ordered (p ∷ ps) (o ∷ log) = ((p o ≡ true) × Ordered ps log) ⊎ Ordered (p ∷ ps) log

pub Ordered-later :
    (ps : List (Output → Bool)) (o : Output) (log : List Output)
    → Ordered ps log
    → Ordered ps (o ∷ log)
Ordered-later [] o log h = tt
Ordered-later (p ∷ ps) o log h = inr h

abbrev pub reset_path : String → List (Output → Bool)
reset_path role = is_finished role ∷ is_parsed role ∷ []

abbrev pub probe_path : String → List (Output → Bool)
probe_path role = is_probed role ∷ reset_path role

-- What a sink waits for: the restart as well, for the canary.
abbrev pub proof_path : Bool → String → List (Output → Bool)
proof_path true role = is_restarted role ∷ probe_path role
proof_path false role = probe_path role

-- The service under which a role reached its sink.
pub data Sunk (role : String) (ps : List (Output → Bool)) (log : List Output) : Type 0 where
  sunk_as :
      (d : String) (v : Service)
      → role_for d v ≡ passed role
      → Ordered (ps ++ (is_sunk role ∷ proof_path (is_canary v) role)) log
      → Sunk role ps log

-- The history of a registered proof.
abbrev pub HasHistory : List Output → Object → Type 0
HasHistory log (pending h) = Ordered (is_parsed h.role ∷ []) log
HasHistory log (completed h) = Ordered (reset_path h.role) log
HasHistory log (probe_proven h) = Ordered (probe_path h.role) log
HasHistory log (restart_proven h) = Ordered (proof_path true h.role) log
HasHistory log (sink_confirmed c) = Sunk c.role [] log
HasHistory log (finalization_attempt a) = Sunk a.role (is_issued a.role ∷ []) log
HasHistory log (clock_proof c) = Unit
HasHistory log (lease_proof l) = Unit

Sunk-later :
    (role : String) (ps : List (Output → Bool)) (o : Output) (log : List Output)
    → Sunk role ps log
    → Sunk role ps (o ∷ log)
Sunk-later role ps o log (sunk_as d v e h) = sunk_as d v e (Ordered-later _ o log h)

pub HasHistory-later :
    (x : Object) (o : Output) (log : List Output) → HasHistory log x → HasHistory (o ∷ log) x
HasHistory-later (pending h) o log v = Ordered-later (is_parsed h.role ∷ []) o log v
HasHistory-later (completed h) o log v = Ordered-later (reset_path h.role) o log v
HasHistory-later (probe_proven h) o log v = Ordered-later (probe_path h.role) o log v
HasHistory-later (restart_proven h) o log v = Ordered-later (proof_path true h.role) o log v
HasHistory-later (sink_confirmed c) o log v = Sunk-later c.role [] o log v
HasHistory-later (finalization_attempt a) o log v = Sunk-later a.role _ o log v
HasHistory-later (clock_proof c) o log v = tt
HasHistory-later (lease_proof l) o log v = tt

-- Every registered proof has its history in the log.
abbrev pub IsTraced : Store → List Output → Type 0
IsTraced s log = (i : ℕ) (x : Object) → s.live i ≡ some x → HasHistory log x

module _ (s : Store) (log : List Output) where
  pub IsTraced-drop : (i : ℕ) → IsTraced s log → IsTraced (drop i s) log
  IsTraced-drop i v j x e = ground (arith, v j x)

  pub IsTraced-later : (o : Output) → IsTraced s log → IsTraced s (o ∷ log)
  IsTraced-later o v j x e = HasHistory-later x o log (v j x e)

  pub IsTraced-mint :
      (y : Object) (o : Output)
      → IsTraced s log
      → HasHistory (o ∷ log) y
      → IsTraced (mint y s) (o ∷ log)
  IsTraced-mint y o v h j x e = ground (arith, v j x, HasHistory-later x o log, h)

pub IsTraced-promote :
    (s : Store) (log : List Output) (i : ℕ) (y : Object) (o : Output)
    → IsTraced s log
    → HasHistory (o ∷ log) y
    → IsTraced (promote i y s) (o ∷ log)
IsTraced-promote s log i y o v h = IsTraced-mint (drop i s) log y o (IsTraced-drop s log i v) h
