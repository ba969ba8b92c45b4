-- ===== src/Launch/Manifest.antt =====
-- The production manifest of packages/contracts/src/launch-staging.ts: `productionConfigManifest`
-- over entries that `manifestEntry` accepts, with the fields that its answer depends on.
pub mod Complete
use zao_rental.Common.{
  ℕ, zero, suc, ◌+◌, ◌-◌, ◌*◌, ◌/◌, ◌%◌, ◌^◌, ◌≤◌, ◌<◌, min, max, ◌≡◌, refl, sym, ap, subst, ◌∙◌,
  ◌≢◌, ◌↔◌, ◌⊎◌, inl, inr, Bool, true, false, not, ◌&&◌, ◌||◌, Option, none, some, List, [], ◌∷◌,
  ◌++◌, map, arith, String, str_eq, ltb, leb, ◌==◌, if◌then◌else◌, ltb→lt, leb→le, le→leb, ==_iff,
  ==_refl, Bool-cases, &&-eq-true, Option-cases, length, length-append, any, every, keep, find,
  total, All, All-append, All-imp, total-append, keep-append, includes, In, In-append_left,
  In-append_right, In-append-cases, All-In, In-keep, keep-In, find-In, any-In, every-In,
}

pub data ManifestComponent : Type 0 where
  neon square square_webhook r2 notification_provider vercel custom_domain backup_pitr :
      ManifestComponent

pub data ActivationState : Type 0 where
  not_configured configured activation_pending active disabled : ActivationState

pub record ManifestEntry : Type 0 where
  pub component : ManifestComponent
  pub activation_state : ActivationState

abbrev pub manifest_components : List ManifestComponent
manifest_components =
    neon ∷ square ∷ square_webhook ∷ r2 ∷ notification_provider ∷ vercel ∷ custom_domain
    ∷ backup_pitr ∷ []

-- `required`, of the list `mandatoryComponents`.
abbrev pub required : ManifestComponent → Bool
required neon = true
required square = true
required square_webhook = true
required vercel = true
required backup_pitr = true
required r2 = false
required notification_provider = false
required custom_domain = false

abbrev pub is_active : ActivationState → Bool
is_active active = true
is_active not_configured = false
is_active configured = false
is_active activation_pending = false
is_active disabled = false

abbrev pub is_disabled : ActivationState → Bool
is_disabled disabled = true
is_disabled not_configured = false
is_disabled configured = false
is_disabled activation_pending = false
is_disabled active = false

-- The place of a component in the list of all.
abbrev pub place : ManifestComponent → ℕ
place neon = 0
place square = 1
place square_webhook = 2
place r2 = 3
place notification_provider = 4
place vercel = 5
place custom_domain = 6
place backup_pitr = 7

abbrev pub names : ManifestComponent → ManifestEntry → Bool
names c e = place e.component == place c

-- `new Set(entries.map(e => e.component)).size`
abbrev pub components_named : List ManifestEntry → ℕ
components_named es = length (keep (λ c. any (names c) es) manifest_components)

abbrev pub is_missing : ManifestEntry → Bool
is_missing e =
    not (is_active e.activation_state)
    && (not (is_disabled e.activation_state) || required e.component)

pub record Manifest : Type 0 where
  pub missing : List ManifestEntry
  pub disabled_mandatory : List ManifestComponent
  pub complete : Bool

pub data ManifestResult : Type 0 where
  manifest : Manifest → ManifestResult
  manifest_shape_invalid : ManifestResult

abbrev pub no_entry : List ManifestEntry → Bool
no_entry [] = true
no_entry (e ∷ es) = false

-- `productionConfigManifest`
unfoldable pub production_config_manifest : List ManifestEntry → ManifestResult
production_config_manifest es =
    let pending = keep is_missing es in
    if not (length es == length manifest_components)
    then manifest_shape_invalid
    else if not (components_named es == length manifest_components)
    then manifest_shape_invalid
    else manifest (record {
      missing = pending;
      disabled_mandatory =
          map (λ e. e.component)
            (keep (λ e. is_disabled e.activation_state && required e.component) es);
      complete = no_entry pending;
    })

pub no_entry-In :
    (es : List ManifestEntry) (e : ManifestEntry)
    → no_entry (keep is_missing es) ≡ true
    → In e es
    → is_missing e ≡ false
no_entry-In es e h m = elim (Bool-cases (is_missing e)) [
  | inl b ↦ absurd (none_in (keep is_missing es) h (keep-In is_missing e es m b))
  | inr b ↦ b
]
  where
    none_in : (xs : List ManifestEntry) → no_entry xs ≡ true → In e xs → ⊥
    none_in [] k n = n
    none_in (x ∷ xs) k n = absurd (cc)
