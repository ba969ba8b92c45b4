-- ===== src/Square/S2/Tests.antt =====
-- A payment whose first answer is open and whose second is completed.
use zao_rental.Common.{◌≡◌, refl, ◌⊎◌, Bool, true, false, some, List, [], ◌∷◌, String}
use zao_rental.Contracts.Time.{strict}
use zao_rental.Contracts.Flow.{PaymentRequest, PaymentObservation, PaymentStatus}
use zao_rental.Square.{Fetched, thrown, answered, Response, Field, absent, given, Money, RawPayment}
use zao_rental.Square.S2.{CreateBody, new_transport, s2_request, create_body}
use zao_rental.Square.S2.Service.{
  Body, s2_pass, unknown_do_not_retry, run, lookup_call, create_call,
}
use zao_rental.Square.S2.Protocol.{
  Phase, idle, IsIn, Reach, Op, sends, allows, apply_all, apply_all-Reach,
}
use zao_rental.Square.S2.Passed.{run-IsPaid, IsPaidBy}
use zao_rental.Square.S2.Counts.{serve_all, serve_all-counts, IsCounted}

abbrev request : PaymentRequest
request = record {
  attempt_id = "c9febd47-5d29-49b9-a032-cbca5f258401";
  booking_id = "459563cc-28db-416b-b8d1-73b4d2fa5149";
  idempotency_key = "1fc46b8b-ce24-49f6-b809-c1594c2788b5";
  merchant_id = "MLKDVEDH1ME21";
  location_id = "L1";
  amount_jpy = 100;
  currency = "JPY";
}

requested : s2_request "L1" ≡ some request
unfolding zao_rental.Contracts.Flow.ident
requested = refl

abbrev payment_with : String → RawPayment
payment_with status = record {
  id = given "P1";
  reference_id = given "459563cc-28db-416b-b8d1-73b4d2fa5149";
  location_id = given "L1";
  status = status;
  amount_money = some (record { amount = given 100; currency = given "JPY" });
  total_money = absent;
  refunded_money = absent;
  refund_ids = absent;
  updated_at = some (strict 1700000000000);
  captured_at = some (strict 1700000000000);
}

abbrev answer : String → Fetched Body
answer status = answered (record {
  status = 200;
  is_json = true;
  has_reader = true;
  chunks = 400 ∷ 200 ∷ [];
  value = some (record { payment = some (payment_with status) });
})

-- A hash for these runs: the key of the body.
abbrev key_of : CreateBody → String
key_of b = b.idempotency_key

abbrev hidden : PaymentObservation → Bool
hidden o = false

paid_at_second_look :
    (run hidden "secret" request key_of "token" new_transport
      (answer "PENDING")
      (answer "COMPLETED")).0.classification
    ≡ s2_pass
unfolding run zao_rental.Square.S2.send zao_rental.Square.is_token zao_rental.Square.read_json
    zao_rental.Square.S2.Service.classify zao_rental.Square.S2.Service.evaluate
    zao_rental.Square.square_observation zao_rental.Contracts.Flow.match_payment
    zao_rental.Contracts.Flow.ident zao_rental.Square.mentions zao_rental.Square.S2.allow_lookup
paid_at_second_look = refl

lost_answer :
    (run hidden "secret" request key_of "token" new_transport thrown
      (answer "COMPLETED")).0.classification
    ≡ unknown_do_not_retry
unfolding run zao_rental.Square.S2.send zao_rental.Square.is_token
lost_answer = refl

run-IsPaid_example :
    IsPaidBy hidden "secret" request (answer "PENDING")
    ⊎ IsPaidBy hidden "secret" request (answer "COMPLETED")
run-IsPaid_example =
    run-IsPaid hidden "secret" request key_of "token" new_transport (answer "PENDING")
      (answer "COMPLETED") paid_at_second_look

-- The trial is run twice, and the second run is refused.
abbrev runs : List (Fetched Body × Fetched Body)
runs = (answer "PENDING", answer "COMPLETED") ∷ (answer "COMPLETED", thrown) ∷ []

serve_all-counts_example :
    IsCounted (serve_all hidden "secret" request key_of "token" false new_transport runs)
serve_all-counts_example = serve_all-counts hidden "secret" request key_of "token" runs

abbrev calls : List (Op Body)
calls =
    sends (create_call hidden "secret" request key_of "token") "token" thrown
    ∷ (sends (create_call hidden "secret" request key_of "token") "token" (answer "PENDING")
        ∷ (allows "P1" ∷ (allows "P2" ∷ [])))

apply_all-Reach_example :
    (q : Phase) × IsIn key_of request (apply_all key_of request new_transport calls) q
    × Reach idle q
apply_all-Reach_example = apply_all-Reach key_of request calls
