-- ===== src/Square/Gateway/Tests.antt =====
-- A payment that is created and looked up in production, and a credential that has expired.
use zao_rental.Common.{
  ℕ, ◌≡◌, refl, true, false, ◌&&◌, some, List, [], ◌∷◌, ◌++◌, String, str_eq, if◌then◌else◌,
}
use zao_rental.Contracts.Time.{strict}
use zao_rental.Contracts.Flow.{
  codes, PaymentRequest, PaymentObservation, PaymentStatus, match_payment,
}
use zao_rental.Common.Checked.{passed, refused}
use zao_rental.Square.{
  post, get, Fetched, answered, Response, Field, absent, given, Money, RawPayment,
}
use zao_rental.Square.Gateway.Transport.{
  production, Binding, Credential, World, no_body, paying, payments_path, payment_prefix, asks,
  auth_stop, Effect,
}
use zao_rental.Square.Gateway.{Payload, body_of, call_to, is_own, is_source, create, lookup}
use zao_rental.Square.Gateway.Sent.{is_bound, sent_with, create-sent}
use zao_rental.Square.Gateway.Webhook.{
  Delivery, Webhook, signature_rejected, verify_square_webhook, verified_webhook,
  verified_webhook-IsFound,
}
use zao_rental.Square.Gateway.Found.{IsAnswered, lookup-IsFound}

abbrev binding : Binding
binding = record { environment = production; merchant_id = "M1"; location_id = "L1" }

abbrev request : PaymentRequest
request = record {
  attempt_id = "A1";
  booking_id = "B1";
  idempotency_key = "K1";
  merchant_id = "M1";
  location_id = "L1";
  amount_jpy = 5500;
  currency = "JPY";
}

abbrev credential : Field ℕ → Credential
credential expires_at = record {
  environment = production;
  merchant_id = "M1";
  location_id = "L1";
  access_token = "token";
  expires_at = expires_at;
  revoked = false;
}

abbrev payment : RawPayment
payment = record {
  id = given "P1";
  reference_id = given "B1";
  location_id = given "L1";
  status = "COMPLETED";
  amount_money = some (record { amount = given 5500; currency = given "JPY" });
  total_money = absent;
  refunded_money = absent;
  refund_ids = absent;
  updated_at = some (strict 1700000000000);
  captured_at = some (strict 1700000000000);
}

abbrev world : Field ℕ → World Payload
world expires_at = record {
  credential = some (credential expires_at);
  now = 1700000000000;
  is_broken = false;
  fetched = answered (record {
    status = 200;
    is_json = true;
    has_reader = true;
    chunks = 400 ∷ [];
    value = some (record { payment = some payment });
  });
}

abbrev observation : PaymentObservation
observation = record {
  provider_id = "P1";
  reference_id = "B1";
  idempotency_key = "K1";
  merchant_id = "M1";
  location_id = "L1";
  amount_jpy = 5500;
  currency = "JPY";
  status = PaymentStatus.completed;
  updated_at = strict 1700000000000;
  completed_at = some (strict 1700000000000);
}

looked_up : (lookup binding request (some "P1") (world absent)).1 ≡ passed observation
unfolding lookup zao_rental.Contracts.Flow.ident zao_rental.Square.Gateway.call is_own
    zao_rental.Square.Gateway.conclude zao_rental.Square.Gateway.Transport.send
    zao_rental.Square.Gateway.Transport.is_allowed zao_rental.Square.Gateway.Transport.is_usable
    zao_rental.Square.is_token zao_rental.Square.Gateway.Transport.receive
    zao_rental.Square.read_json zao_rental.Square.square_observation match_payment
looked_up = refl

expired :
    create binding request (some "cnon") (world (given 1600000000000))
    ≡ (asks ∷ [], refused auth_stop)
unfolding create is_source zao_rental.Square.Gateway.call is_own
    zao_rental.Square.Gateway.Transport.send zao_rental.Square.Gateway.conclude
    zao_rental.Square.Gateway.Transport.is_allowed zao_rental.Square.Gateway.Transport.is_usable
expired = refl

create-sent_example : (create binding request (some "cnon") (world absent)).0 ≡ (
    if is_source "cnon" && (is_own binding request && is_bound binding request)
    then sent_with binding
        (call_to binding post payments_path (paying (body_of request "cnon")))
        1700000000000
        (some (credential absent))
    else [])
create-sent_example = create-sent binding request "cnon" (world absent)

lookup-IsFound_example :
    (match_payment request observation ≡ true)
    × (str_eq "P1" "P1" ≡ true)
    × IsAnswered binding
        (call_to binding get (payment_prefix ++ codes "P1") no_body)
        (world absent)
        (lookup binding request (some "P1") (world absent)).0
lookup-IsFound_example = lookup-IsFound binding request "P1" (world absent) observation looked_up

-- A signature that decodes to the body itself stands for the right one.
abbrev hmac : String → String → List ℕ → List ℕ
hmac key url raw = raw

abbrev decode : String → List ℕ
decode s = 7 ∷ []

abbrev delivery : Delivery
delivery = record {
  raw = 7 ∷ [];
  signature = some "AAAAAAAAAAAAAAAAAAAAAAAAAAAAAAAAAAAAAAAAAAA=";
  url = "https://example.org/webhook";
  value = some (record {
    kind = "payment.updated";
    event_id = some "E1";
    merchant_id = some "M1";
    payment_id = some "P1";
  });
}

abbrev event : Webhook
event = record { event_id = "E1"; merchant_id = "M1"; payment_id = "P1"; is_created = false }

notified :
    (verified_webhook hmac decode binding request delivery "key" (world absent)).1
    ≡ passed (event, observation)
unfolding lookup zao_rental.Contracts.Flow.ident zao_rental.Square.Gateway.call is_own
    zao_rental.Square.Gateway.conclude zao_rental.Square.Gateway.Transport.send
    zao_rental.Square.Gateway.Transport.is_allowed zao_rental.Square.Gateway.Transport.is_usable
    zao_rental.Square.is_token zao_rental.Square.Gateway.Transport.receive
    zao_rental.Square.read_json zao_rental.Square.square_observation match_payment verified_webhook
    verify_square_webhook zao_rental.Square.Gateway.Webhook.parse_verified_square_webhook
    zao_rental.Square.Gateway.Webhook.is_signature zao_rental.Square.Gateway.Webhook.parse_webhook
notified = refl

forged :
    verified_webhook hmac decode binding request
      (record delivery { raw = 8 ∷ [] })
      "key"
      (world absent)
    ≡ ([], refused signature_rejected)
unfolding verified_webhook zao_rental.Square.Gateway.Webhook.parse_verified_square_webhook
    verify_square_webhook zao_rental.Square.Gateway.Webhook.is_signature
forged = refl

verified_webhook-IsFound_example :
    (verify_square_webhook hmac decode delivery "key" ≡ true)
    × (str_eq "M1" "M1" ≡ true)
    × ((lookup binding request (some "P1") (world absent)).1 ≡ passed observation)
    × ((verified_webhook hmac decode binding request delivery "key" (world absent)).0
        ≡ (lookup binding request (some "P1") (world absent)).0)
    × (match_payment request observation ≡ true)
    × (str_eq "P1" "P1" ≡ true)
    × IsAnswered binding
        (call_to binding get (payment_prefix ++ codes "P1") no_body)
        (world absent)
        (lookup binding request (some "P1") (world absent)).0
verified_webhook-IsFound_example =
    verified_webhook-IsFound hmac decode binding request delivery "key" (world absent) event
      observation notified
