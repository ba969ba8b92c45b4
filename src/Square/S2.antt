-- ===== src/Square/S2.antt =====
-- Stage S2, packages/core/src/payment/square-s2.ts: one payment of 100 yen, and one look at it where
-- its result is open. The hash of a body is a parameter, SHA-256 over canonical JSON.
pub mod Service
pub mod Protocol
pub mod Passed
pub mod Counts
mod Tests
use zao_rental.Common.{
  ℕ, zero, suc, ◌+◌, ◌-◌, ◌*◌, ◌/◌, ◌%◌, ◌^◌, ◌≤◌, ◌<◌, min, max, ◌≡◌, refl, sym, ap, subst, ◌∙◌,
  ◌≢◌, ◌↔◌, ◌⊎◌, inl, inr, Bool, true, false, not, ◌&&◌, ◌||◌, Option, none, some, List, [], ◌∷◌,
  ◌++◌, map, arith, String, str_eq, ltb, leb, ◌==◌, if◌then◌else◌, ltb→lt, leb→le, le→leb, ==_iff,
  ==_refl, Bool-cases, &&-eq-true, Option-cases, length, length-append, any, every, keep, find,
  total, All, All-append, All-imp, total-append, keep-append, includes, In, In-append_left,
  In-append_right, In-append-cases, All-In, In-keep, keep-In, find-In, any-In, every-In,
}
use Prim.Native.String.{◌++◌ as append}
use zao_rental.Contracts.Flow.{ident, PaymentRequest}
use zao_rental.Square.{
  Sent, threw, replied, call_forbidden, aborted, transport_failure, reply, square_version,
  sandbox_origin, Method, get, post, is_get, Response, Fetched, thrown, answered, is_none,
  is_success, read_json, is_token,
}

-- The operation's manifest, docs/execution/p6/s2-evidence/operation-manifest.json.
abbrev pub source_id : String
source_id = "cnon:card-nonce-ok"

abbrev pub trial_amount : ℕ
trial_amount = 100

-- `s2Request`
abbrev pub s2_request : String → Option PaymentRequest
s2_request location =
    if ident location
    then some (record {
      attempt_id = "c9febd47-5d29-49b9-a032-cbca5f258401";
      booking_id = "459563cc-28db-416b-b8d1-73b4d2fa5149";
      idempotency_key = "1fc46b8b-ce24-49f6-b809-c1594c2788b5";
      merchant_id = "MLKDVEDH1ME21";
      location_id = location;
      amount_jpy = trial_amount;
      currency = "JPY";
    })
    else none

-- What `squareCreateBody` gives; it completes by itself.
pub record CreateBody : Type 0 where
  pub idempotency_key : String
  pub source : String
  pub reference_id : String
  pub location_id : String
  pub amount : ℕ
  pub currency : String
  pub autocomplete : Bool

abbrev pub create_body : PaymentRequest → CreateBody
create_body r = record {
  idempotency_key = r.idempotency_key;
  source = source_id;
  reference_id = r.booking_id;
  location_id = r.location_id;
  amount = r.amount_jpy;
  currency = r.currency;
  autocomplete = true;
}

pub record Call : Type 0 where
  pub method : Method
  pub url : String
  pub version : String
  pub body : Option CreateBody
  pub is_aborted : Bool

-- The fields of `SquareS2Transport` that change, and the calls that were given to `fetch`, the latest
-- first.
pub record Transport : Type 0 where
  pub create_count : ℕ
  pub lookup_count : ℕ
  pub create_status : Option ℕ
  pub lookup_status : Option ℕ
  pub lookup_id : Option String
  pub requests : List Call

abbrev pub new_transport : Transport
new_transport = record {
  create_count = 0;
  lookup_count = 0;
  create_status = none;
  lookup_status = none;
  lookup_id = none;
  requests = [];
}

-- `allowLookup`; `none` is S2_LOOKUP_FORBIDDEN.
unfoldable pub allow_lookup : Transport → String → Option Transport
allow_lookup t id =
    if not (t.create_count == 1) || not (ident id) || not (is_none t.lookup_id)
    then none
    else some (record t { lookup_id = some id })

abbrev pub payments_url : String
payments_url = append sandbox_origin "/v2/payments"

abbrev pub lookup_url : String → String
lookup_url id = append payments_url (append "/" id)

module _ (hash : CreateBody → String) (expected : PaymentRequest) where
  abbrev is_own_body : Option CreateBody → Bool
  is_own_body none = false
  is_own_body (some b) = str_eq (hash b) (hash (create_body expected))

  abbrev pub is_create : Transport → Call → Bool
  is_create t c =
      not (is_get c.method)
      && str_eq c.url payments_url
      && is_own_body c.body
      && t.create_count == 0

  abbrev is_lookup_url : Option String → String → Bool
  is_lookup_url none url = false
  is_lookup_url (some id) url = str_eq url (lookup_url id)

  abbrev pub is_lookup : Transport → Call → Bool
  is_lookup t c =
      is_get c.method && is_lookup_url t.lookup_id c.url && is_none c.body && t.lookup_count == 0

  abbrev pub fetching : Transport → Call → Transport
  fetching t c = record t { requests = c ∷ t.requests }

  -- `fetch` and what follows: a call is counted before it is known how it ends.
  abbrev pub dispatch : {V : Type 0} → Transport → Call → Bool → Fetched V → Transport × Sent V
  dispatch t c true thrown =
      (record (fetching t c) { create_count = t.create_count + 1 }, threw transport_failure)
  dispatch t c true (answered r) = (
    record (fetching t c) { create_count = t.create_count + 1; create_status = some r.status },
    reply r,
  )
  dispatch t c false thrown =
      (record (fetching t c) { lookup_count = t.lookup_count + 1 }, threw transport_failure)
  dispatch t c false (answered r) = (
    record (fetching t c) { lookup_count = t.lookup_count + 1; lookup_status = some r.status },
    reply r,
  )

  -- `send`
  unfoldable pub send : {V : Type 0} → Transport → Call → String → Fetched V → Transport × Sent V
  send t c token f =
      if not (str_eq c.version square_version) || not (is_create t c || is_lookup t c)
      then (t, threw call_forbidden)
      else if c.is_aborted
      then (t, threw aborted)
      else if not (is_token token)
      then (t, threw transport_failure)
      else dispatch t c (is_create t c) f
