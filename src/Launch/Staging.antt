-- ===== src/Launch/Staging.antt =====
-- The staging preflight of packages/contracts/src/launch-staging.ts, over an input with a valid state
-- for each category: the input is a function of the category.
pub mod Ready
use zao_rental.Common.{
  ℕ, zero, suc, ◌+◌, ◌-◌, ◌*◌, ◌/◌, ◌%◌, ◌^◌, ◌≤◌, ◌<◌, min, max, ◌≡◌, refl, sym, ap, subst, ◌∙◌,
  ◌≢◌, ◌↔◌, ◌⊎◌, inl, inr, Bool, true, false, not, ◌&&◌, ◌||◌, Option, none, some, List, [], ◌∷◌,
  ◌++◌, map, arith, String, str_eq, ltb, leb, ◌==◌, if◌then◌else◌, ltb→lt, leb→le, le→leb, ==_iff,
  ==_refl, Bool-cases, &&-eq-true, Option-cases, length, length-append, any, every, keep, find,
  total, All, All-append, All-imp, total-append, keep-append, includes, In, In-append_left,
  In-append_right, In-append-cases, All-In, In-keep, keep-In, find-In, any-In, every-In,
}

pub data StagingCategory : Type 0 where
  app db migrations staff_auth guest booking_access payment webhook media notification backup
        feature_flags :
      StagingCategory

pub data StagingState : Type 0 where
  ready off unconnected configured configured_activation_pending unavailable : StagingState

abbrev pub staging_categories : List StagingCategory
staging_categories =
    app ∷ db ∷ migrations ∷ staff_auth ∷ guest ∷ booking_access ∷ payment ∷ webhook ∷ media
    ∷ notification ∷ backup ∷ feature_flags ∷ []

-- `mandatory`, of the list `mandatoryCategories`.
abbrev pub is_mandatory : StagingCategory → Bool
is_mandatory media = false
is_mandatory notification = false
is_mandatory feature_flags = false
is_mandatory app = true
is_mandatory db = true
is_mandatory migrations = true
is_mandatory staff_auth = true
is_mandatory guest = true
is_mandatory booking_access = true
is_mandatory payment = true
is_mandatory webhook = true
is_mandatory backup = true

abbrev pub is_unavailable : StagingState → Bool
is_unavailable unavailable = true
is_unavailable ready = false
is_unavailable off = false
is_unavailable unconnected = false
is_unavailable configured = false
is_unavailable configured_activation_pending = false

abbrev pub is_pending : StagingState → Bool
is_pending unconnected = true
is_pending configured = true
is_pending configured_activation_pending = true
is_pending ready = false
is_pending off = false
is_pending unavailable = false

abbrev pub is_off : StagingState → Bool
is_off off = true
is_off ready = false
is_off unconnected = false
is_off configured = false
is_off configured_activation_pending = false
is_off unavailable = false

pub record Preflight : Type 0 where
  pub blocked : List StagingCategory
  pub connection_pending : List StagingCategory
  pub disabled_mandatory : List StagingCategory
  pub unmet : List StagingCategory
  pub is_ready : Bool

abbrev pub is_empty {ℓ} : {A : Type ℓ} → List A → Bool
is_empty [] = true
is_empty (x ∷ xs) = false

-- The body of `launchStagingPreflight`, over a list of categories. The three parts of `unmet` share
-- no category, since a category has one state: the set of the source drops none of them.
unfoldable pub preflight_of : (StagingCategory → StagingState) → List StagingCategory → Preflight
preflight_of v categories =
    let blocked = keep (λ c. is_unavailable (v c)) categories in
    let pending = keep (λ c. is_pending (v c)) categories in
    let disabled = keep (λ c. is_off (v c) && is_mandatory c) categories in
    let unmet = blocked ++ (keep is_mandatory pending ++ disabled) in
    record {
      blocked = blocked;
      connection_pending = pending;
      disabled_mandatory = disabled;
      unmet = unmet;
      is_ready = is_empty unmet;
    }

-- `launchStagingPreflight`
unfoldable pub launch_staging_preflight : (StagingCategory → StagingState) → Preflight
launch_staging_preflight v = preflight_of v staging_categories
