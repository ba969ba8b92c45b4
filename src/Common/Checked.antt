-- ===== src/Common/Checked.antt =====
-- Exceptions as values: what a checked call gives, or the error that it throws.
use mathlib.Core.Path.{◌≡◌, refl}
use mathlib.Core.Logic.{◌⊎◌, inl, inr}
use mathlib.Core.Bool.{Bool, true, false}

pub data Checked {ℓ κ} (E : Type ℓ) (A : Type κ) : Type (ℓ ⊔ κ) where
  passed : A → Checked E A
  refused : E → Checked E A

infixl 5 ◌>>=◌
abbrev pub ◌>>=◌ {ℓ κ μ} :
    {E : Type ℓ} {A : Type κ} {B : Type μ} → Checked E A → (A → Checked E B) → Checked E B
passed a >>= f = f a
refused e >>= f = refused e

infixl 5 ◌>>◌
abbrev pub ◌>>◌ {ℓ κ} : {E : Type ℓ} {B : Type κ} → Checked E (Unit {0}) → Checked E B → Checked E B
m >> k = m >>= λ _. k

-- `if(!b)throw e`
abbrev pub ensure {ℓ} : {E : Type ℓ} → Bool → E → Checked E (Unit {0})
ensure true e = passed tt
ensure false e = refused e

abbrev pub is_passed {ℓ κ} : {E : Type ℓ} {A : Type κ} → Checked E A → Bool
is_passed (passed a) = true
is_passed (refused e) = false

pub Checked-cases {ℓ κ} :
    {E : Type ℓ} {A : Type κ} (m : Checked E A)
    → ((e : E) × (m ≡ refused e)) ⊎ ((a : A) × (m ≡ passed a))
Checked-cases (passed a) = inr (a, refl)
Checked-cases (refused e) = inl (e, refl)

-- Inversion of a sequence that passes.
pub >>-eq-passed {ℓ κ} :
    {E : Type ℓ} {B : Type κ} (m : Checked E (Unit {0})) (k : Checked E B) (b : B)
    → (m >> k) ≡ passed b
    → (m ≡ passed tt) × (k ≡ passed b)
>>-eq-passed (passed u) k b h = (refl, h)
>>-eq-passed (refused e) k b h = absurd (cc)

pub ensure-eq-passed {ℓ} : {E : Type ℓ} (b : Bool) (e : E) → ensure b e ≡ passed tt → b ≡ true
ensure-eq-passed true e h = refl
ensure-eq-passed false e h = absurd (cc)
