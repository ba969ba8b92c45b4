-- ===== src/Square/S3/Tests.antt =====
-- A refund that is pending first and completed then.
use zao_rental.Common.{◌≡◌, refl, Bool, true, false, none, some, List, [], ◌∷◌, String}
use zao_rental.Contracts.Time.{strict}
use zao_rental.Contracts.Flow.{PaymentObservation}
use zao_rental.Square.{Fetched, thrown, answered, Response, Field, absent, given, Money, RawPayment}
use zao_rental.Square.S3.{RefundBody, RawRefund, Body, payment_id}
use zao_rental.Square.S3.Transport.{new_transport, payment_url, refunds_url}
use zao_rental.Square.S3.Service.{s3_pass, s3_payment_evidence_mismatch, run, serve}
use zao_rental.Square.S3.Protocol.{Phase, fresh, IsIn, Reach, Op, authorizes, permits, operate_all}
use zao_rental.Square.S3.Protocol.Refines.{operate_all-Reach}
use zao_rental.Square.S3.Passed.{run-IsRefunded, IsPaidBy, IsRefunded}

abbrev yen : Money
yen = record { amount = given 100; currency = given "JPY" }

abbrev paid : Field Money → RawPayment
paid refunded = record {
  id = given payment_id;
  reference_id = given "459563cc-28db-416b-b8d1-73b4d2fa5149";
  location_id = given "L1";
  status = "COMPLETED";
  amount_money = some yen;
  total_money = absent;
  refunded_money = refunded;
  refund_ids = absent;
  updated_at = some (strict 1700000000000);
  captured_at = some (strict 1700000000000);
}

abbrev refund_with : String → RawRefund
refund_with status = record {
  id = given "R1";
  paid = given payment_id;
  location_id = given "L1";
  amount_money = some yen;
  status = status;
}

abbrev answer_of : Body → Fetched Body
answer_of b =
    answered (record {
      status = 200;
      is_json = true;
      has_reader = true;
      chunks = 700 ∷ [];
      value = some b;
    })

abbrev first_body : Field Money → Body
first_body m = record { errors = absent; payment = some (paid m); refund = none }

abbrev refund_body : String → Body
refund_body status = record { errors = given 0; payment = none; refund = some (refund_with status) }

abbrev key_of : RefundBody → String
key_of b = b.idempotency_key

abbrev hidden : PaymentObservation → String → Bool
hidden o s = false

refunded_at_second_look :
    (run hidden "L1" "secret" "token" key_of new_transport
      (answer_of (first_body absent))
      (answer_of (refund_body "PENDING"))
      (answer_of (refund_body "COMPLETED"))).0.classification
    ≡ s3_pass
unfolding run zao_rental.Square.S3.Transport.send zao_rental.Square.is_token
    zao_rental.Square.read_json zao_rental.Square.S3.Service.failure
    zao_rental.Square.S3.Transport.authorize_refund zao_rental.Square.S3.s3_payment_evidence
    zao_rental.Square.S3.is_refundable zao_rental.Contracts.Flow.ident
    zao_rental.Square.square_observation zao_rental.Contracts.Flow.match_payment
    zao_rental.Square.S3.s3_refund_evidence zao_rental.Square.mentions
    zao_rental.Square.S3.Transport.authorize_refund_lookup
refunded_at_second_look = refl

refunded_before :
    (run hidden "L1" "secret" "token" key_of new_transport
      (answer_of (first_body (given yen)))
      (answer_of (refund_body "PENDING"))
      (answer_of (refund_body "COMPLETED"))).0.classification
    ≡ s3_payment_evidence_mismatch
unfolding run zao_rental.Square.S3.Transport.send zao_rental.Square.is_token
    zao_rental.Square.read_json zao_rental.Square.S3.Service.failure
    zao_rental.Square.S3.Transport.authorize_refund zao_rental.Square.S3.s3_payment_evidence
    zao_rental.Square.S3.is_refundable
refunded_before = refl

run_again :
    (serve hidden "L1" "secret" "token" key_of true new_transport thrown thrown thrown).1 ≡ none
run_again = refl

run-IsRefunded_example :
    IsPaidBy hidden "L1" "secret" "token" key_of (answer_of (first_body absent))
    × IsRefunded hidden "L1" "secret" "token" key_of
        (answer_of (refund_body "PENDING"))
        (answer_of (refund_body "COMPLETED"))
run-IsRefunded_example =
    run-IsRefunded hidden "L1" "secret" "token" key_of new_transport (answer_of (first_body absent))
      (answer_of (refund_body "PENDING")) (answer_of (refund_body "COMPLETED"))
      refunded_at_second_look

abbrev calls : List Op
calls = authorizes (some (first_body absent)) ∷ (permits (some (refund_body "PENDING")) ∷ [])

operate_all-Reach_example :
    (q : Phase) × IsIn key_of (operate_all hidden "L1" "token" key_of new_transport calls) q
    × Reach hidden "L1" "token" key_of fresh q
operate_all-Reach_example = operate_all-Reach hidden "L1" "token" key_of calls
