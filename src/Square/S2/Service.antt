-- ===== src/Square/S2/Service.antt =====
-- `SquareS2Service` of square-s2.ts: what the answers of the provider are worth. Fields of the result
-- that never change are left out.
use zao_rental.Common.{
  ℕ, Bool, true, false, not, ◌&&◌, ◌||◌, Option, none, some, String, str_eq, ltb, leb, ◌==◌,
  if◌then◌else◌,
}
use zao_rental.Contracts.Time.{time_of}
use zao_rental.Contracts.Flow.{
  ident, PaymentStatus, completed, failed, canceled, PaymentRequest, PaymentObservation,
  match_payment, time_of?,
}
use zao_rental.Square.{
  Sent, replied, square_version, get, post, Fetched, is_success, Field, absent, other, given,
  differs, differs_from, Money, RawPayment, square_observation, mentions, attempt,
}
use zao_rental.Square.S2.{
  trial_amount, CreateBody, create_body, Call, Transport, allow_lookup, payments_url, lookup_url,
  send,
}

pub data Class : Type 0 where
  s2_pass s2_fail_auth s2_fail_rate_limit s2_fail_provider s2_fail_evidence unknown_do_not_retry :
      Class

-- `S2Result` but for the counts, which are the transport's; a date is kept in milliseconds.
pub record Outcome : Type 0 where
  pub classification : Class
  pub payment_id : Option String
  pub payment_status : Option PaymentStatus
  pub reference_match : Bool
  pub location_match : Bool
  pub updated_at : Option ℕ
  pub completed_at : Option ℕ

abbrev pub blank : Outcome
blank = record {
  classification = unknown_do_not_retry;
  payment_id = none;
  payment_status = none;
  reference_match = false;
  location_match = false;
  updated_at = none;
  completed_at = none;
}

-- What a body says: its payment, where it has one.
pub record Body : Type 0 where
  pub payment : Option RawPayment

-- `classify`; `none` is a success.
unfoldable pub classify : ℕ → Option Class
classify status =
    if status == 401 || status == 403
    then some s2_fail_auth
    else if status == 429
    then some s2_fail_rate_limit
    else if leb 400 status && ltb status 500
    then some s2_fail_provider
    else if not (is_success status)
    then some unknown_do_not_retry
    else none

pub data Verdict : Type 0 where
  pass look stop : Verdict

-- `safeId`
abbrev pub safe_id : String → Field String → Option String
safe_id secret absent = none
safe_id secret other = none
safe_id secret (given id) = if ident id && not (mentions id secret) then some id else none

abbrev pub is_id : Option String → String → Bool
is_id none id = false
is_id (some i) id = str_eq i id

-- `lookupId&&id!==lookupId`
abbrev pub is_another : Option String → Option String → Bool
is_another none id = false
is_another (some l) id = not (is_id id l)

abbrev pub money_mismatch : Option Money → Bool
money_mismatch none = false
money_mismatch (some m) = differs_from m.amount trial_amount || differs m.currency "JPY"

abbrev pub mismatch : RawPayment → PaymentRequest → Bool
mismatch p r =
    differs p.reference_id r.booking_id
    || differs p.location_id r.location_id
    || money_mismatch p.amount_money

abbrev pub keep_id : Outcome → Option String → Outcome
keep_id o none = o
keep_id o (some id) = record o { payment_id = some id }

abbrev pub judge : Outcome → Class → Outcome
judge o c = record o { classification = c }

-- `if(failure)out.classification=failure;else ...`
abbrev pub unless_failed :
    Outcome → Transport → Option Class → Outcome × Transport → Outcome × Transport
unless_failed o t (some c) go = (judge o c, t)
unless_failed o t none go = go

-- `squareObservation` and `matchPayment`, where neither throws.
abbrev pub observed : RawPayment → PaymentRequest → Option PaymentObservation
observed p r = elim (square_observation p r r.merchant_id) [
  | none ↦ none
  | some o ↦ if match_payment r o then some o else none
]

abbrev pub open_verdict : Option String → Option String → Verdict
open_verdict (some id) none = look
open_verdict id lookup = stop

abbrev pub by_status : Outcome → Option String → PaymentStatus → Outcome × Verdict
by_status o lookup completed = (judge o s2_pass, pass)
by_status o lookup failed = (judge o s2_fail_provider, stop)
by_status o lookup canceled = (judge o s2_fail_provider, stop)
by_status o none s = (judge o unknown_do_not_retry, look)
by_status o (some id) s = (judge o unknown_do_not_retry, stop)

abbrev pub record_observed : Outcome → PaymentObservation → Outcome
record_observed o b = record o {
  reference_match = true;
  location_match = true;
  payment_status = some b.status;
  updated_at = time_of b.updated_at;
  completed_at = time_of? b.completed_at;
}

-- `JSON.stringify(observation).includes(secret)` is `leaks`.
module _ (leaks : PaymentObservation → Bool) (secret : String) (r : PaymentRequest) where
  abbrev pub settle :
      Outcome → Option String → Option String → Option PaymentObservation → Outcome × Verdict
  settle o id lookup none = (judge o unknown_do_not_retry, open_verdict id lookup)
  settle o none lookup (some b) = (judge o s2_fail_evidence, stop)
  settle o (some id) lookup (some b) =
      if leaks b
      then (judge o s2_fail_evidence, stop)
      else by_status (record_observed o b) lookup b.status

  abbrev pub weigh : Outcome → RawPayment → Option String → Option String → Outcome × Verdict
  weigh o p id lookup =
      if is_another lookup id || mismatch p r
      then (judge o s2_fail_evidence, stop)
      else settle o id lookup (observed p r)

  -- `evaluate`
  unfoldable pub evaluate : Outcome → Option RawPayment → Option String → Outcome × Verdict
  evaluate o none lookup = (judge o unknown_do_not_retry, stop)
  evaluate o (some p) lookup = let id = safe_id secret p.id in weigh (keep_id o id) p id lookup

  abbrev pub payment_of : Option Body → Option RawPayment
  payment_of none = none
  payment_of (some b) = b.payment

  module _ (hash : CreateBody → String) (token : String) where
    abbrev pub create_call : Call
    create_call = record {
      method = post;
      url = payments_url;
      version = square_version;
      body = some (create_body r);
      is_aborted = false;
    }

    abbrev pub lookup_call : String → Call
    lookup_call id = record {
      method = get;
      url = lookup_url id;
      version = square_version;
      body = none;
      is_aborted = false;
    }

    -- The second answer, where the call is made.
    abbrev pub after_lookup : Outcome → String → Transport × Sent Body → Outcome × Transport
    after_lookup o id (t, replied status body) =
        unless_failed o t (classify status) ((evaluate o (payment_of body) (some id)).0, t)
    after_lookup o id (t, _) = (judge o unknown_do_not_retry, t)

    abbrev pub look_at :
        Outcome → String → Option Transport → Transport → Fetched Body → Outcome × Transport
    look_at o id none before f = (judge o unknown_do_not_retry, before)
    look_at o id (some t) before f = after_lookup o id (send hash r t (lookup_call id) token f)

    abbrev pub after_verdict :
        Outcome × Verdict → Option String → Transport → Fetched Body → Outcome × Transport
    after_verdict (o, look) (some id) t f = look_at o id (allow_lookup t id) t f
    after_verdict (o, v) id t f = (o, t)

    abbrev pub after_create : Transport × Sent Body → Fetched Body → Outcome × Transport
    after_create (t, replied status body) f =
        let e = evaluate blank (payment_of body) none in
        unless_failed blank t (classify status) (after_verdict e e.0.payment_id t f)
    after_create (t, _) f = (judge blank unknown_do_not_retry, t)

    -- `run` behind its flag: the result, and the transport with its counts. `first` and `second` are
    -- what `fetch` gives for the two calls.
    unfoldable pub run : Transport → Fetched Body → Fetched Body → Outcome × Transport
    run t first second = after_create (send hash r t create_call token first) second

    -- A call of `run` with the flag `attempted`.
    abbrev pub serve :
        Bool → Transport → Fetched Body → Fetched Body → Bool × Option (Outcome × Transport)
    serve attempted t first second = attempt attempted (run t first second)
