-- ===== src/Launch/Staging/Ready.antt =====
-- When the preflight is ready.
use zao_rental.Launch.Staging.{
  preflight_of, StagingCategory, StagingState, staging_categories, is_mandatory, is_unavailable,
  is_pending, is_off, is_empty, launch_staging_preflight, app, db, migrations, staff_auth, guest,
  booking_access, payment, webhook, media, notification, backup, feature_flags, ready, unavailable,
}
use zao_rental.Common.{
  ◌≡◌, refl, ◌≢◌, ◌↔◌, inl, inr, Bool, true, false, ◌&&◌, List, [], ◌∷◌, ◌++◌, arith, Bool-cases,
  &&-eq-true, keep, In, In-append_left, In-append_right, In-append-cases, In-keep, keep-In,
}

In-staging_categories : (c : StagingCategory) → In c staging_categories
In-staging_categories app = inl refl
In-staging_categories db = inr (inl refl)
In-staging_categories migrations = inr (inr (inl refl))
In-staging_categories staff_auth = inr (inr (inr (inl refl)))
In-staging_categories guest = inr (inr (inr (inr (inl refl))))
In-staging_categories booking_access = inr (inr (inr (inr (inr (inl refl)))))
In-staging_categories payment = inr (inr (inr (inr (inr (inr (inl refl))))))
In-staging_categories webhook = inr (inr (inr (inr (inr (inr (inr (inl refl)))))))
In-staging_categories media = inr (inr (inr (inr (inr (inr (inr (inr (inl refl))))))))
In-staging_categories notification = inr (inr (inr (inr (inr (inr (inr (inr (inr (inl refl)))))))))
In-staging_categories backup = inr (inr (inr (inr (inr (inr (inr (inr (inr (inr (inl refl))))))))))
In-staging_categories feature_flags =
    inr (inr (inr (inr (inr (inr (inr (inr (inr (inr (inr (inl refl)))))))))))

-- A mandatory category must be ready; another may be in any state but unavailable.
abbrev pub IsMet : (StagingCategory → StagingState) → StagingCategory → Type 0
IsMet v c = (v c ≢ unavailable) × (is_mandatory c ≡ true → v c ≡ ready)

is_empty-In : {A : Type 0} (xs : List A) → is_empty xs ≡ true → (x : A) → In x xs → ⊥
is_empty-In [] e x m = m
is_empty-In (y ∷ ys) e x m = absurd (cc)

In-is_empty : {A : Type 0} (xs : List A) → ((x : A) → In x xs → ⊥) → is_empty xs ≡ true
In-is_empty [] h = refl
In-is_empty (y ∷ ys) h = absurd (h y (inl refl))

-- The state of an unmet category is one of those that the three lists hold.
met :
    (s : StagingState) (b : Bool)
    → is_unavailable s ≡ false
    → (is_pending s && b) ≡ false
    → (is_off s && b) ≡ false
    → (s ≢ unavailable) × (b ≡ true → s ≡ ready)
met s b h k l = (λ e. ground (arith, e), λ e. ground (arith, e))

unmet :
    (s : StagingState) (b : Bool)
    → (s ≢ unavailable) × (b ≡ true → s ≡ ready)
    → (is_unavailable s ≡ false) × ((is_pending s && b) ≡ false) × ((is_off s && b) ≡ false)
unmet s b (h, k) = ground arith

keep-none :
    (p : StagingCategory → Bool) (c : StagingCategory) (xs : List StagingCategory)
    → (In c (keep p xs) → ⊥)
    → In c xs
    → p c ≡ false
keep-none p c xs h m = elim (Bool-cases (p c)) [
  | inl e ↦ absurd (h (keep-In p c xs m e))
  | inr e ↦ e
]

preflight_of-ready :
    (v : StagingCategory → StagingState) (cs : List StagingCategory) (c : StagingCategory)
    → (preflight_of v cs).is_ready ≡ true
    → In c cs
    → IsMet v c
unfolding preflight_of
preflight_of-ready v cs c e m =
    let blocked = keep (λ c. is_unavailable (v c)) cs in
    let pending = keep (λ c. is_pending (v c)) cs in
    let disabled = keep (λ c. is_off (v c) && is_mandatory c) cs in
    let out : In c (blocked ++ (keep is_mandatory pending ++ disabled)) → ⊥ = is_empty-In _ e c in
    let rest = λ (h : In c (keep is_mandatory pending ++ disabled)).
      out (In-append_right c blocked (keep is_mandatory pending ++ disabled) h) in
    met (v c) (is_mandatory c)
      (keep-none (λ c. is_unavailable (v c)) c cs
        (λ h. out (In-append_left c blocked (keep is_mandatory pending ++ disabled) h)) m)
      (elim (Bool-cases (is_pending (v c) && is_mandatory c)) [
        | inl both ↦
            let (p, q) = &&-eq-true _ _ both in
            absurd (
              rest (
                In-append_left c (keep is_mandatory pending) disabled
                  (keep-In is_mandatory c pending (keep-In (λ c. is_pending (v c)) c cs m p) q)))
        | inr no_pending ↦ no_pending
      ])
      (keep-none (λ c. is_off (v c) && is_mandatory c) c cs
        (λ h. rest (In-append_right c (keep is_mandatory pending) disabled h)) m)

preflight_of-met :
    (v : StagingCategory → StagingState) (cs : List StagingCategory)
    → ((c : StagingCategory) → IsMet v c)
    → (preflight_of v cs).is_ready ≡ true
unfolding preflight_of
preflight_of-met v cs h =
    let blocked = keep (λ c. is_unavailable (v c)) cs in
    let pending = keep (λ c. is_pending (v c)) cs in
    let disabled = keep (λ c. is_off (v c) && is_mandatory c) cs in
    In-is_empty (blocked ++ (keep is_mandatory pending ++ disabled)) (λ c m.
      let (a, b, d) = unmet (v c) (is_mandatory c) (h c) in
      elim (In-append-cases c blocked (keep is_mandatory pending ++ disabled) m) [
        | inl k ↦
            let (_, e) = In-keep (λ c. is_unavailable (v c)) c cs k in absurd (ground (arith, e, a))
        | inr k ↦ elim (In-append-cases c (keep is_mandatory pending) disabled k) [
          | inl l ↦
              let (l', e) = In-keep is_mandatory c pending l in
              let (_, f) = In-keep (λ c. is_pending (v c)) c cs l' in
              absurd (ground (arith, e, f, b))
          | inr l ↦
              let (_, e) = In-keep (λ c. is_off (v c) && is_mandatory c) c cs l in
              absurd (ground (arith, e, d))
        ]
      ])

-- The preflight is ready exactly where every mandatory category is ready and no other category is
-- unavailable: a mandatory one that is off, or configured and not connected, is unmet as well.
launch_staging_preflight_iff :
    (v : StagingCategory → StagingState)
    → ((launch_staging_preflight v).is_ready ≡ true) ↔ ((c : StagingCategory) → IsMet v c)
unfolding launch_staging_preflight
launch_staging_preflight_iff v = (
  λ e c. preflight_of-ready v staging_categories c e (In-staging_categories c),
  λ h. preflight_of-met v staging_categories h,
)
