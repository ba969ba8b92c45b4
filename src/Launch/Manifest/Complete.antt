-- ===== src/Launch/Manifest/Complete.antt =====
-- What a complete manifest stands for.
use zao_rental.Common.{
  ℕ, ◌≤◌, ◌≡◌, refl, sym, ap, ◌∙◌, ◌⊎◌, inl, inr, Bool, true, false, List, [], ◌∷◌, arith, ◌==◌,
  if◌then◌else◌, ==_iff, Bool-cases, length, any, keep, In,
}
use zao_rental.Launch.Manifest.{
  ManifestComponent, ManifestEntry, ManifestResult, Manifest, manifest, manifest_components,
  required, place, names, components_named, is_missing, production_config_manifest, no_entry,
  no_entry-In, manifest_shape_invalid, neon, square, square_webhook, r2, notification_provider,
  vercel, custom_domain, backup_pitr, active, disabled,
}

abbrev at : ℕ → ManifestComponent
at n =
    if n == 0
    then neon
    else if n == 1
    then square
    else if n == 2
    then square_webhook
    else if n == 3
    then r2
    else if n == 4
    then notification_provider
    else if n == 5
    then vercel
    else if n == 6
    then custom_domain
    else backup_pitr

at-place : (c : ManifestComponent) → at (place c) ≡ c
at-place neon = refl
at-place square = refl
at-place square_webhook = refl
at-place r2 = refl
at-place notification_provider = refl
at-place vercel = refl
at-place custom_domain = refl
at-place backup_pitr = refl

In-manifest_components : (c : ManifestComponent) → In c manifest_components
In-manifest_components neon = inl refl
In-manifest_components square = inr (inl refl)
In-manifest_components square_webhook = inr (inr (inl refl))
In-manifest_components r2 = inr (inr (inr (inl refl)))
In-manifest_components notification_provider = inr (inr (inr (inr (inl refl))))
In-manifest_components vercel = inr (inr (inr (inr (inr (inl refl)))))
In-manifest_components custom_domain = inr (inr (inr (inr (inr (inr (inl refl))))))
In-manifest_components backup_pitr = inr (inr (inr (inr (inr (inr (inr (inl refl)))))))

length-keep_le : {A : Type 0} (p : A → Bool) (xs : List A) → length (keep p xs) ≤ length xs
length-keep_le p [] = omega arith
length-keep_le p (x ∷ xs) = ground (arith, length-keep_le p xs)

-- A filter that drops nothing holds of every element.
keep-all :
    {A : Type 0} (p : A → Bool) (xs : List A) (x : A)
    → length (keep p xs) ≡ length xs
    → In x xs
    → p x ≡ true
keep-all p [] x e m = absurd m
keep-all p (y ∷ ys) x e m = ground (arith, keep-all p ys x, length-keep_le p ys)

any-find :
    {A : Type 0} (p : A → Bool) (xs : List A) → any p xs ≡ true → (x : A) × In x xs × (p x ≡ true)
any-find p [] e = absurd (cc)
any-find p (x ∷ xs) e = elim (Bool-cases (p x)) [
  | inl h ↦ (x, inl refl, h)
  | inr h ↦ let (y, m, k) = any-find p xs (rw h at e) in (y, inr m, k)
]

-- An entry that is not missing: active, or disabled where it is optional.
abbrev pub IsSettled : ManifestEntry → Type 0
IsSettled e =
    (e.activation_state ≡ active)
    ⊎ ((e.activation_state ≡ disabled) × (required e.component ≡ false))

is_missing-IsSettled : (e : ManifestEntry) → is_missing e ≡ false → IsSettled e
is_missing-IsSettled e h = ground arith

abbrev complete_of : ManifestResult → Bool
complete_of (manifest m) = m.complete
complete_of manifest_shape_invalid = false

-- A manifest that is complete has, for every component, an entry that is active or, where the
-- component is optional, disabled.
pub production_config_manifest-IsSettled :
    (es : List ManifestEntry) (m : Manifest) (c : ManifestComponent)
    → production_config_manifest es ≡ manifest m
    → m.complete ≡ true
    → (e : ManifestEntry) × In e es × (e.component ≡ c) × IsSettled e
unfolding production_config_manifest
production_config_manifest-IsSettled es m c h k =
    elim (Bool-cases (length es == length manifest_components)) [
      | inr short ↦ absurd (ground (arith, h, short))
      | inl sized ↦ elim (Bool-cases (components_named es == length manifest_components)) [
        | inr twice ↦ absurd (ground (arith, h, twice))
        | inl all ↦
            let count = (==_iff (components_named es) (length manifest_components)).0 all in
            let appears =
              keep-all (λ c. any (names c) es) manifest_components c count
                (In-manifest_components c) in
            let (e, member, named) = any-find (names c) es appears in
            let same = (==_iff (place e.component) (place c)).0 named in
            let whole : no_entry (keep is_missing es) ≡ true =
              rw (sized, all) at (ap complete_of h ∙ k) in
            (
              e,
              member,
              sym (at-place e.component) ∙ ap at same ∙ at-place c,
              is_missing-IsSettled e (no_entry-In es e whole member),
            )
      ]
    ]
