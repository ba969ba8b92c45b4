-- ===== src/Square/Observation.antt =====
-- What `squareObservation` and `matchPayment` say of the fields of the payment that was answered.
use zao_rental.Common.{
  ℕ, ◌≡◌, refl, ap, ◌∙◌, inl, inr, true, false, Option, none, some, arith, String, ==_iff,
  Option-cases,
}
use text.Mathlib.TextEquality.{eq_iff}
use zao_rental.Contracts.Flow.{ident, completed, PaymentRequest, PaymentObservation, match_payment}
use zao_rental.Square.{
  Field, absent, other, given, value_of, is_given, differs, Money, RawPayment, status_of,
  is_safe_jpy, ◌>>=◌, square_observation,
}

bound {ℓ κ} :
    {A : Type ℓ} {B : Type κ} (m : Option A) (f : A → Option B) (b : B)
    → (m >>= f) ≡ some b
    → (a : A) × (m ≡ some a) × (f a ≡ some b)
bound none f b h = absurd (cc)
bound (some a) f b h = (a, refl, h)

pub value_of-given {ℓ} : {A : Type ℓ} (f : Field A) (a : A) → value_of f ≡ some a → f ≡ given a
value_of-given absent a h = absurd (cc)
value_of-given other a h = absurd (cc)
value_of-given (given b) a h = ground (arith, h)

yen-given : (c : Field String) → differs c "JPY" ≡ false → is_given c ≡ true → c ≡ given "JPY"
yen-given absent h g = absurd (cc)
yen-given other h g = absurd (cc)
yen-given (given s) h g = ap given ((eq_iff s "JPY").0 (ground (arith, h)))

is_safe_jpy-given :
    (m : Money) (n : ℕ) → is_safe_jpy m ≡ some n → (m.amount ≡ given n) × (m.currency ≡ given "JPY")
is_safe_jpy-given m n h = elim (Option-cases (value_of m.amount)) [
  | inl e ↦ absurd (ground (arith, h, e))
  | inr (k, e) ↦ (
    value_of-given m.amount n (ground (arith, h, e)),
    yen-given m.currency (ground (arith, h, e)) (ground (arith, h, e)),
  )
]

status_of-completed : (s : String) → status_of s ≡ some completed → s ≡ "COMPLETED"
status_of-completed s h = (eq_iff s "COMPLETED").0 (ground (arith, h))

-- The amount in yen of a sum of money.
abbrev pub IsYen : Option Money → ℕ → Type 0
IsYen o n = (m : Money) × (o ≡ some m) × (m.amount ≡ given n) × (m.currency ≡ given "JPY")

-- The fields that the provider itself reports are those of the request.
abbrev pub IsCompletedFor : PaymentRequest → RawPayment → Type 0
IsCompletedFor r p =
    (p.status ≡ "COMPLETED")
    × IsYen p.amount_money r.amount_jpy
    × (p.reference_id ≡ given r.booking_id)
    × (p.location_id ≡ given r.location_id)
    × ((id : String) × (p.id ≡ given id) × (ident id ≡ true))

matched-fields :
    (r : PaymentRequest) (b : PaymentObservation)
    → match_payment r b ≡ true
    → (b.reference_id ≡ r.booking_id)
      × (b.location_id ≡ r.location_id)
      × (b.amount_jpy ≡ r.amount_jpy)
      × (ident b.provider_id ≡ true)
unfolding match_payment
matched-fields r b h = (
  (eq_iff b.reference_id r.booking_id).0 (ground (arith, h)),
  (eq_iff b.location_id r.location_id).0 (ground (arith, h)),
  (==_iff b.amount_jpy r.amount_jpy).0 (ground (arith, h)),
  ground (arith, h),
)

pub square_observation-IsCompletedFor :
    (p : RawPayment) (r : PaymentRequest) (merchant : String) (b : PaymentObservation)
    → square_observation p r merchant ≡ some b
    → match_payment r b ≡ true
    → b.status ≡ completed
    → IsCompletedFor r p
unfolding square_observation
square_observation-IsCompletedFor p r merchant b h matched done =
    let (money, em, h1) = bound p.amount_money _ b h in
    let (amount, ea, h2) = bound (is_safe_jpy money) _ b h1 in
    let (id, ei, h3) = bound (value_of p.id) _ b h2 in
    let (reference, er, h4) = bound (value_of p.reference_id) _ b h3 in
    let (location, el, h5) = bound (value_of p.location_id) _ b h4 in
    let (updated, eu, h6) = bound p.updated_at _ b h5 in
    let (status, es, h7) = bound (status_of p.status) _ b h6 in
    let (mr, ml, ma, mi) = matched-fields r b matched in
    let same_amount : amount ≡ b.amount_jpy = ground (arith, h7) in
    let same_reference : reference ≡ b.reference_id = ground (arith, h7) in
    let same_location : location ≡ b.location_id = ground (arith, h7) in
    let same_id : id ≡ b.provider_id = ground (arith, h7) in
    let same_status : status ≡ b.status = ground (arith, h7) in
    let (given_amount, given_currency) = is_safe_jpy-given money amount ea in
    (
      status_of-completed p.status (es ∙ ap some (same_status ∙ done)),
      (money, em, given_amount ∙ ap given (same_amount ∙ ma), given_currency),
      value_of-given p.reference_id reference er ∙ ap given (same_reference ∙ mr),
      value_of-given p.location_id location el ∙ ap given (same_location ∙ ml),
      (b.provider_id, value_of-given p.id id ei ∙ ap given same_id, mi),
    )
