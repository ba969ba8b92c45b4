-- ===== src/Square/S3/Transport.antt =====
-- `SquareS3Transport` of square-s3.ts: which calls are let through, and how often.
use zao_rental.Common.{
  ℕ, ◌+◌, Bool, true, false, not, ◌&&◌, ◌||◌, Option, none, some, List, [], ◌∷◌, String, str_eq,
  ◌==◌, if◌then◌else◌,
}
use Prim.Native.String.{◌++◌ as append}
use zao_rental.Contracts.Flow.{PaymentObservation}
use zao_rental.Square.{
  Sent, threw, call_forbidden, version_forbidden, aborted, transport_failure, reply, square_version,
  sandbox_origin, Method, is_get, is_none, Fetched, thrown, answered, is_success, is_token,
}
use zao_rental.Square.S3.{
  payment_id, RefundBody, s3_refund_body, Body, RefundStatus, pending, Refund, s3_payment_evidence,
  s3_refund_evidence,
}

pub record Call : Type 0 where
  pub method : Method
  pub url : String
  pub version : String
  pub body : Option RefundBody
  pub is_aborted : Bool

pub data Step : Type 0 where
  payment refund refund_lookup : Step

-- `counts`, `httpResults` and the two private fields, and the calls that were given to `fetch`, the
-- latest first.
pub record Transport : Type 0 where
  pub payments : ℕ
  pub refunds : ℕ
  pub lookups : ℕ
  pub payment_status : Option ℕ
  pub refund_status : Option ℕ
  pub lookup_status : Option ℕ
  pub refund_allowed : Bool
  pub refund_id : Option String
  pub requests : List Call

abbrev pub new_transport : Transport
new_transport = record {
  payments = 0;
  refunds = 0;
  lookups = 0;
  payment_status = none;
  refund_status = none;
  lookup_status = none;
  refund_allowed = false;
  refund_id = none;
  requests = [];
}

abbrev pub payment_url : String
payment_url = append sandbox_origin (append "/v2/payments/" payment_id)

abbrev pub refunds_url : String
refunds_url = append sandbox_origin "/v2/refunds"

abbrev pub lookup_url : String → String
lookup_url id = append refunds_url (append "/" id)

abbrev pub was_success : Option ℕ → Bool
was_success none = false
was_success (some status) = is_success status

abbrev pub is_pending : RefundStatus → Bool
is_pending pending = true
is_pending _ = false

abbrev pub permit : Transport → Option Refund → Option Transport
permit t none = none
permit t (some r) = if is_pending r.status then some (record t { refund_id = some r.id }) else none

abbrev pub allow : Transport → Option PaymentObservation → Option (Transport × PaymentObservation)
allow t none = none
allow t (some o) = some (record t { refund_allowed = true }, o)

module _ (leaks : PaymentObservation → String → Bool) (location token : String) where
  -- `authorizeRefund`; `none` is an exception.
  unfoldable pub authorize_refund :
      Transport → Option Body → Option (Transport × PaymentObservation)
  authorize_refund t body =
      if not (t.payments == 1) || t.refund_allowed
      then none
      else allow t (s3_payment_evidence leaks location token body)

  -- `authorizeRefundLookup`
  unfoldable pub authorize_refund_lookup : Transport → Option Body → Option Transport
  authorize_refund_lookup t body =
      if not (t.refunds == 1) || not (was_success t.refund_status) || not (is_none t.refund_id)
      then none
      else permit t (s3_refund_evidence leaks location token body none)

abbrev pub fetching : Transport → Call → Transport
fetching t c = record t { requests = c ∷ t.requests }

-- The counts and what `fetch` gives: a call is counted before it is known how it ends.
abbrev pub dispatch : {V : Type 0} → Transport → Call → Step → Fetched V → Transport × Sent V
dispatch t c payment thrown =
    (record (fetching t c) { payments = t.payments + 1 }, threw transport_failure)
dispatch t c payment (answered r) =
    (record (fetching t c) { payments = t.payments + 1; payment_status = some r.status }, reply r)
dispatch t c refund thrown =
    (record (fetching t c) { refunds = t.refunds + 1 }, threw transport_failure)
dispatch t c refund (answered r) =
    (record (fetching t c) { refunds = t.refunds + 1; refund_status = some r.status }, reply r)
dispatch t c refund_lookup thrown =
    (record (fetching t c) { lookups = t.lookups + 1 }, threw transport_failure)
dispatch t c refund_lookup (answered r) =
    (record (fetching t c) { lookups = t.lookups + 1; lookup_status = some r.status }, reply r)

abbrev is_lookup_url : Option String → String → Bool
is_lookup_url none url = false
is_lookup_url (some id) url = str_eq url (lookup_url id)

module _ (hash : RefundBody → String) where
  abbrev is_own_body : Option RefundBody → Bool
  is_own_body none = false
  is_own_body (some b) = str_eq (hash b) (hash s3_refund_body)

  abbrev pub is_payment : Transport → Call → Bool
  is_payment t c = is_get c.method && str_eq c.url payment_url && is_none c.body && t.payments == 0

  abbrev pub is_refund : Transport → Call → Bool
  is_refund t c =
      not (is_get c.method)
      && str_eq c.url refunds_url
      && is_own_body c.body
      && t.refund_allowed
      && t.refunds == 0

  abbrev pub is_lookup : Transport → Call → Bool
  is_lookup t c =
      is_get c.method && is_lookup_url t.refund_id c.url && is_none c.body && t.lookups == 0

  abbrev pub step_of : Transport → Call → Option Step
  step_of t c =
      if is_payment t c
      then some payment
      else if is_refund t c
      then some refund
      else if is_lookup t c
      then some refund_lookup
      else none

  abbrev pub go :
      {V : Type 0} → Transport → Call → String → Fetched V → Option Step → Transport × Sent V
  go t c token f none = (t, threw call_forbidden)
  go t c token f (some s) =
      if not (str_eq c.version square_version)
      then (t, threw version_forbidden)
      else if c.is_aborted
      then (t, threw aborted)
      else if not (is_token token)
      then (t, threw transport_failure)
      else dispatch t c s f

  -- `send`
  unfoldable pub send : {V : Type 0} → Transport → Call → String → Fetched V → Transport × Sent V
  send t c token f = go t c token f (step_of t c)
