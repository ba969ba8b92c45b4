-- ===== src/Square/Gateway.antt =====
-- `SquarePaymentGateway` of packages/core/src/payment/square-engine.ts, over the transport of
-- square-transport.ts. The length of a payment source counts code points.
pub mod Transport
pub mod Sent
pub mod Found
pub mod Webhook
mod Tests
use zao_rental.Common.{
  ℕ, zero, suc, ◌+◌, ◌-◌, ◌*◌, ◌/◌, ◌%◌, ◌^◌, ◌≤◌, ◌<◌, min, max, ◌≡◌, refl, sym, ap, subst, ◌∙◌,
  ◌≢◌, ◌↔◌, ◌⊎◌, inl, inr, Bool, true, false, not, ◌&&◌, ◌||◌, Option, none, some, List, [], ◌∷◌,
  ◌++◌, map, arith, String, str_eq, ltb, leb, ◌==◌, if◌then◌else◌, ltb→lt, leb→le, le→leb, ==_iff,
  ==_refl, Bool-cases, &&-eq-true, Option-cases, length, length-append, any, every, keep, find,
  total, All, All-append, All-imp, total-append, keep-append, includes, In, In-append_left,
  In-append_right, In-append-cases, All-In, In-keep, keep-In, find-In, any-In, every-In,
}
use zao_rental.Contracts.Flow.{
  codes, ident, is_safe, PaymentRequest, PaymentObservation, match_payment,
}
use zao_rental.Common.Checked.{Checked, passed, refused}
use zao_rental.Square.{
  square_version, Method, get, post, is_success, RawPayment, square_observation,
}
use zao_rental.Square.S2.{CreateBody}
use zao_rental.Square.Gateway.Transport.{
  origin_of, Binding, Body, no_body, paying, Call, GatewayError, auth_stop, quota_stop,
  invalid_provider_response, payment_evidence_mismatch, payment_source_not_connected,
  payment_provider_id_unresolved, invalid_provider_id, Effect, Answer, threw, replied,
  payments_path, payment_prefix, unknown_of, World, send,
}

-- The body of an answer, as far as it is read.
pub record Payload : Type 0 where
  pub payment : Option RawPayment

abbrev Outcome : Type 0
Outcome = Checked GatewayError PaymentObservation

-- `squareObservation` and `matchPayment`
abbrev pub observed : PaymentRequest → String → Option Payload → Outcome
observed r merchant none = refused invalid_provider_response
observed r merchant (some p) = elim p.payment [
  | none ↦ refused invalid_provider_response
  | some raw ↦ elim (square_observation raw r merchant) [
    | none ↦ refused invalid_provider_response
    | some o ↦ if match_payment r o then passed o else refused payment_evidence_mismatch
  ]
]

unfoldable pub conclude : PaymentRequest → String → Method → Answer Payload → Outcome
conclude r merchant m (threw e) = refused e
conclude r merchant m (replied status body) =
    if status == 401 || status == 403
    then refused auth_stop
    else if status == 429
    then refused quota_stop
    else if not (is_success status)
    then refused (unknown_of m)
    else observed r merchant body

-- `squareCreateBody`, where the source is not empty.
abbrev pub body_of : PaymentRequest → String → CreateBody
body_of r source = record {
  idempotency_key = r.idempotency_key;
  source = source;
  reference_id = r.booking_id;
  location_id = r.location_id;
  amount = r.amount_jpy;
  currency = r.currency;
  autocomplete = true;
}

abbrev pub call_to : Binding → Method → List ℕ → Body → Call
call_to b m path body = record {
  method = m;
  url = origin_of b.environment ++ path;
  version = square_version;
  body = body;
}

-- The condition of `call` on a request.
unfoldable pub is_own : Binding → PaymentRequest → Bool
is_own b r =
    str_eq r.merchant_id b.merchant_id
    && is_safe r.amount_jpy
    && leb 1 r.amount_jpy
    && str_eq r.currency "JPY"

-- `call`
unfoldable pub call :
    Binding → PaymentRequest → Method → List ℕ → Body → World Payload → List Effect × Outcome
call b r m path body w =
    if is_own b r
    then (let s = send b (call_to b m path body) w in (s.0, conclude r b.merchant_id m s.1))
    else ([], refused payment_evidence_mismatch)

unfoldable pub is_source : String → Bool
is_source s =
    not (str_eq s "") && leb (length (codes s)) 1024 && not (str_eq s "CASH" || str_eq s "EXTERNAL")

-- `create`; the source is `none` where asking for it throws.
unfoldable pub create :
    Binding → PaymentRequest → Option String → World Payload → List Effect × Outcome
create b r none w = ([], refused payment_source_not_connected)
create b r (some source) w =
    if is_source source
    then call b r post payments_path (paying (body_of r source)) w
    else ([], refused payment_source_not_connected)

abbrev pub same_payment : String → Outcome → Outcome
same_payment id (refused e) = refused e
same_payment id (passed o) =
    if str_eq o.provider_id id then passed o else refused payment_evidence_mismatch

-- `lookup`
unfoldable pub lookup :
    Binding → PaymentRequest → Option String → World Payload → List Effect × Outcome
lookup b r none w = ([], refused payment_provider_id_unresolved)
lookup b r (some id) w =
    if str_eq id ""
    then ([], refused payment_provider_id_unresolved)
    else if not (ident id)
    then ([], refused invalid_provider_id)
    else (let c = call b r get (payment_prefix ++ codes id) no_body w in (c.0, same_payment id c.1))
