-- ===== src/Square/S3/Service.antt =====
-- `SquareS3Service` of square-s3.ts. Fields of the result that never change are left out, and so are
-- the counts, which are the transport's.
use zao_rental.Common.{
  ℕ, Bool, true, false, not, ◌&&◌, ◌||◌, Option, none, some, String, ltb, leb, ◌==◌, if◌then◌else◌,
}
use zao_rental.Contracts.Time.{time_of}
use zao_rental.Contracts.Flow.{PaymentObservation, time_of?}
use zao_rental.Square.{
  square_version, Method, get, post, Fetched, Sent, threw, replied, is_success, attempt,
}
use zao_rental.Square.S3.{
  RefundBody, s3_refund_body, Body, RefundStatus, pending, completed, rejected, failed, Refund,
  s3_refund_evidence,
}
use zao_rental.Square.S3.Transport.{
  Call, Step, payment, refund, refund_lookup, Transport, payment_url, refunds_url, lookup_url,
  authorize_refund, authorize_refund_lookup, send,
}

pub data Class : Type 0 where
  s3_pass s3_nonterminal_do_not_retry s3_refund_failed s3_fail_auth s3_fail_rate_limit
        s3_payment_not_found s3_payment_provider_fail s3_payment_evidence_mismatch
        s3_refund_provider_fail s3_refund_evidence_mismatch unknown_do_not_retry :
      Class

-- `S3Result`; the payment's dates in milliseconds. `payment_match` stands for the three fields that
-- say the payment was completed, with its reference and its location.
pub record Outcome : Type 0 where
  pub classification : Class
  pub refund_id : Option String
  pub refund_status : Option RefundStatus
  pub refund_location_match : Bool
  pub payment_match : Bool
  pub payment_updated_at : Option ℕ
  pub payment_completed_at : Option ℕ

abbrev pub blank : Outcome
blank = record {
  classification = unknown_do_not_retry;
  refund_id = none;
  refund_status = none;
  refund_location_match = false;
  payment_match = false;
  payment_updated_at = none;
  payment_completed_at = none;
}

abbrev pub is_payment_step : Step → Bool
is_payment_step payment = true
is_payment_step _ = false

-- `failure`; `none` is a success.
unfoldable pub failure : ℕ → Step → Option Class
failure status s =
    if status == 401 || status == 403
    then some s3_fail_auth
    else if status == 429
    then some s3_fail_rate_limit
    else if status == 404 && is_payment_step s
    then some s3_payment_not_found
    else if leb 400 status && ltb status 500
    then some (if is_payment_step s then s3_payment_provider_fail else s3_refund_provider_fail)
    else if not (is_success status)
    then some unknown_do_not_retry
    else none

abbrev pub judge : Outcome → Class → Outcome
judge o c = record o { classification = c }

abbrev pub class_of : RefundStatus → Class
class_of completed = s3_pass
class_of pending = s3_nonterminal_do_not_retry
class_of rejected = s3_refund_failed
class_of failed = s3_refund_failed

-- `refundResult`
abbrev pub refund_result : Outcome → Option Refund → Outcome
refund_result o none = judge o s3_refund_evidence_mismatch
refund_result o (some r) = record o {
  refund_id = some r.id;
  refund_status = some r.status;
  refund_location_match = true;
  classification = class_of r.status;
}

abbrev pub record_payment : Outcome → PaymentObservation → Outcome
record_payment o p = record o {
  payment_match = true;
  payment_updated_at = time_of p.updated_at;
  payment_completed_at = time_of? p.completed_at;
}

-- `if(failed)out.classification=failed;else ...`
abbrev pub unless_failed :
    Outcome → Transport → Option Class → Outcome × Transport → Outcome × Transport
unless_failed o t (some c) next = (judge o c, t)
unless_failed o t none next = next

module _ (leaks : PaymentObservation → String → Bool) (location secret token : String)
    (hash : RefundBody → String) where
  abbrev pub evidence : Option Body → Option String → Option Refund
  evidence = s3_refund_evidence leaks location secret

  abbrev pub call_of : Method → String → Option RefundBody → Call
  call_of m url body = record {
    method = m;
    url = url;
    version = square_version;
    body = body;
    is_aborted = false;
  }

  abbrev pub after_lookup : Outcome → String → Transport × Sent Body → Outcome × Transport
  after_lookup o id (t, threw e) = (judge o unknown_do_not_retry, t)
  after_lookup o id (t, replied status body) =
      unless_failed o t (failure status refund_lookup)
        (refund_result o (evidence body (some id)), t)

  abbrev pub look_again :
      Outcome → String → Option Transport → Transport → Fetched Body → Outcome × Transport
  look_again o id none before f = (judge o unknown_do_not_retry, before)
  look_again o id (some t) before f =
      after_lookup o id (send hash t (call_of get (lookup_url id) none) token f)

  abbrev pub after_result :
      Outcome → Transport → Option Body → Option Refund → Fetched Body → Outcome × Transport
  after_result o t body none f = (refund_result o none, t)
  after_result o t body (some r) f = elim r.status [
    | pending ↦
        look_again (refund_result o (some r)) r.id
          (authorize_refund_lookup leaks location token t body) t f
    | _ ↦ (refund_result o (some r), t)
  ]

  abbrev pub after_refund : Outcome → Transport × Sent Body → Fetched Body → Outcome × Transport
  after_refund o (t, threw e) f = (judge o unknown_do_not_retry, t)
  after_refund o (t, replied status body) f =
      unless_failed o t (failure status refund) (after_result o t body (evidence body none) f)

  abbrev pub pay_back :
      Transport
      → Option (Transport × PaymentObservation)
      → Fetched Body
      → Fetched Body
      → Outcome × Transport
  pay_back before none second third = (judge blank s3_payment_evidence_mismatch, before)
  pay_back before (some (t, p)) second third =
      after_refund (record_payment blank p)
        (send hash t (call_of post refunds_url (some s3_refund_body)) token second) third

  abbrev pub after_payment :
      Transport × Sent Body → Fetched Body → Fetched Body → Outcome × Transport
  after_payment (t, threw e) second third = (judge blank unknown_do_not_retry, t)
  after_payment (t, replied status body) second third =
      unless_failed blank t (failure status payment)
        (pay_back t (authorize_refund leaks location token t body) second third)

  -- `run` behind its flag; what `fetch` gives for the three calls are inputs.
  unfoldable pub run : Transport → Fetched Body → Fetched Body → Fetched Body → Outcome × Transport
  run t first second third =
      after_payment (send hash t (call_of get payment_url none) token first) second third

  -- A call of `run` with the flag `attempted`.
  abbrev pub serve :
      Bool
      → Transport
      → Fetched Body
      → Fetched Body
      → Fetched Body
      → Bool × Option (Outcome × Transport)
  serve attempted t first second third = attempt attempted (run t first second third)
