-- ===== src/Square.antt =====
-- The payment provider, packages/core/src/payment: the staged trial, where S1 reads who we are, S2
-- makes one payment and S3 refunds it, and the gateway of the program. Here stands what they share:
-- the texts of square-engine.ts, the reading of a response (`readSquareJson` of square-transport.ts
-- and its copies in square-s2.ts and square-s3.ts), and `squareObservation` of square-boundary.ts.
-- A JSON value is what the stages read of it. `other` is a field of another type than the one that is
-- looked for, and an amount below 0, which no request has; an object that is not there, or is no
-- object, is `none`.
pub mod Gateway
pub mod Replies
pub mod Observation
pub mod S1
pub mod S2
pub mod S3
use zao_rental.Common.{
  ℕ, zero, suc, ◌+◌, ◌-◌, ◌*◌, ◌/◌, ◌%◌, ◌^◌, ◌≤◌, ◌<◌, min, max, ◌≡◌, refl, sym, ap, subst, ◌∙◌,
  ◌≢◌, ◌↔◌, ◌⊎◌, inl, inr, Bool, true, false, not, ◌&&◌, ◌||◌, Option, none, some, List, [], ◌∷◌,
  ◌++◌, map, arith, String, str_eq, ltb, leb, ◌==◌, if◌then◌else◌, ltb→lt, leb→le, le→leb, ==_iff,
  ==_refl, Bool-cases, &&-eq-true, Option-cases, length, length-append, any, every, keep, find,
  total, All, All-append, All-imp, total-append, keep-append, includes, In, In-append_left,
  In-append_right, In-append-cases, All-In, In-keep, keep-In, find-In, any-In, every-In,
}
use zao_rental.Contracts.Time.{Stamp}
use zao_rental.Contracts.Flow.{
  codes, PaymentStatus, pending, completed, failed, canceled, PaymentRequest, PaymentObservation,
}

abbrev pub square_version : String
square_version = "2026-08-19"

abbrev pub sandbox_origin : String
sandbox_origin = "https://connect.squareupsandbox.com"

abbrev pub production_origin : String
production_origin = "https://connect.squareup.com"

pub data Method : Type 0 where
  get post : Method

abbrev pub is_get : Method → Bool
is_get get = true
is_get post = false

-- `fetch` gives a response or throws, also by the deadline of the call.
pub record Response (V : Type 0) : Type 0 where
  pub status : ℕ
  pub is_json : Bool
  pub has_reader : Bool
  pub chunks : List ℕ
  pub value : Option V

pub data Fetched (V : Type 0) : Type 0 where
  thrown : Fetched V
  answered : Response V → Fetched V

abbrev pub is_success : ℕ → Bool
is_success status = leb 200 status && ltb status 300

-- The loop over the chunks: `false` as soon as they exceed one MiB together.
unfoldable pub fits : ℕ → List ℕ → Bool
fits n [] = true
fits n (c ∷ cs) = let rest = fits (n + c) cs in if ltb 1048576 (n + c) then false else rest

-- The value of a response: `none` is an exception, also by the deadline or by JSON.parse.
unfoldable pub read_json : {V : Type 0} → Response V → Option V
unfolding fits
read_json r = if r.is_json && r.has_reader && fits 0 r.chunks then r.value else none

-- `/^[-A-Za-z0-9._~+/=]{1,4096}$/`
abbrev token_char : ℕ → Bool
token_char c =
    (leb b'A' c && leb c b'Z')
    || (leb b'a' c && leb c b'z')
    || (leb b'0' c && leb c b'9')
    || includes c (codes "-._~+/=")

unfoldable pub is_token : String → Bool
is_token s = let cs = codes s in leb 1 (length cs) && leb (length cs) 4096 && every token_char cs

-- `text.includes(part)`
abbrev pub starts : List ℕ → List ℕ → Bool
starts [] cs = true
starts (p ∷ ps) [] = false
starts (p ∷ ps) (c ∷ cs) = p == c && starts ps cs

abbrev contains : List ℕ → List ℕ → Bool
contains ps [] = starts ps []
contains ps (c ∷ cs) = starts ps (c ∷ cs) || contains ps cs

unfoldable pub mentions : String → String → Bool
mentions text part = contains (codes part) (codes text)

pub data Field {ℓ} (A : Type ℓ) : Type ℓ where
  absent other : Field A
  given : A → Field A

abbrev pub is_given {ℓ} : {A : Type ℓ} → Field A → Bool
is_given absent = false
is_given other = false
is_given (given a) = true

abbrev pub is_none {ℓ} : {A : Type ℓ} → Option A → Bool
is_none none = true
is_none (some a) = false

abbrev pub value_of {ℓ} : {A : Type ℓ} → Field A → Option A
value_of absent = none
value_of other = none
value_of (given a) = some a

-- The field is there and is not this text, or not this number.
abbrev pub differs : Field String → String → Bool
differs absent s = false
differs other s = true
differs (given t) s = not (str_eq t s)

abbrev pub differs_from : Field ℕ → ℕ → Bool
differs_from absent n = false
differs_from other n = true
differs_from (given m) n = not (m == n)

infixl 5 ◌>>=◌
abbrev pub ◌>>=◌ {ℓ κ} : {A : Type ℓ} {B : Type κ} → Option A → (A → Option B) → Option B
none >>= f = none
some a >>= f = f a

pub record Money : Type 0 where
  pub amount : Field ℕ
  pub currency : Field String

-- A payment; `refund_ids` is the length of the list. A status that is no text is the empty text: a
-- list of one text, which `String` reads as that text, is left aside.
pub record RawPayment : Type 0 where
  pub id : Field String
  pub reference_id : Field String
  pub location_id : Field String
  pub status : String
  pub amount_money : Option Money
  pub total_money : Field Money
  pub refunded_money : Field Money
  pub refund_ids : Field ℕ
  pub updated_at : Option Stamp
  pub captured_at : Option Stamp

-- `['APPROVED','PENDING','COMPLETED','FAILED','CANCELED'].includes(status)`, and what is kept of it.
abbrev pub status_of : String → Option PaymentStatus
status_of s =
    if str_eq s "APPROVED"
    then some pending
    else if str_eq s "PENDING"
    then some pending
    else if str_eq s "COMPLETED"
    then some completed
    else if str_eq s "FAILED"
    then some failed
    else if str_eq s "CANCELED"
    then some canceled
    else none

abbrev pub is_safe_jpy : Money → Option ℕ
is_safe_jpy m = elim (value_of m.amount) [
  | none ↦ none
  | some n ↦
      if differs m.currency "JPY" || not (is_given m.currency) || not (leb n 9007199254740991)
      then none
      else some n
]

-- `squareObservation`; `none` is INVALID_PROVIDER_RESPONSE.
unfoldable pub square_observation : RawPayment → PaymentRequest → String → Option PaymentObservation
square_observation p request merchant_id = do
  money ← p.amount_money
  amount ← is_safe_jpy money
  id ← value_of p.id
  reference ← value_of p.reference_id
  location ← value_of p.location_id
  updated ← p.updated_at
  status ← status_of p.status
  some (record {
    provider_id = id;
    reference_id = reference;
    idempotency_key = request.idempotency_key;
    merchant_id = merchant_id;
    location_id = location;
    amount_jpy = amount;
    currency = "JPY";
    status = status;
    updated_at = updated;
    completed_at = if str_eq p.status "COMPLETED" then p.captured_at else none;
  })

pub data Fault : Type 0 where
  call_forbidden version_forbidden aborted transport_failure : Fault

-- How `send` ends: by an exception, or with a status and a body, null where it is no success.
pub data Sent (V : Type 0) : Type 0 where
  threw : Fault → Sent V
  replied : ℕ → Option V → Sent V

-- What is left of `send` once the response is there.
abbrev pub reply : {V : Type 0} → Response V → Sent V
reply r =
    if not (is_success r.status)
    then replied r.status none
    else elim (read_json r) [ none ↦ threw transport_failure | some v ↦ replied r.status (some v) ]

-- The flag of a service that runs once, before and after a call of `run`; `none` is ALREADY_ATTEMPTED.
abbrev pub attempt {ℓ} : {A : Type ℓ} → Bool → A → Bool × Option A
attempt true a = (true, none)
attempt false a = (true, some a)
