-- ===== src/Square/S1.antt =====
-- Stage S1, packages/core/src/payment/square-s1.ts with its transport in square-transport.ts: two
-- calls that read who the merchant is and where it trades. The texts that the summary repeats are left
-- out of the result; `late` says that the deadline passes while a body is read.
pub mod Passed
mod Tests
use zao_rental.Common.{
  ℕ, zero, suc, ◌+◌, ◌-◌, ◌*◌, ◌/◌, ◌%◌, ◌^◌, ◌≤◌, ◌<◌, min, max, ◌≡◌, refl, sym, ap, subst, ◌∙◌,
  ◌≢◌, ◌↔◌, ◌⊎◌, inl, inr, Bool, true, false, not, ◌&&◌, ◌||◌, Option, none, some, List, [], ◌∷◌,
  ◌++◌, map, arith, String, str_eq, ltb, leb, ◌==◌, if◌then◌else◌, ltb→lt, leb→le, le→leb, ==_iff,
  ==_refl, Bool-cases, &&-eq-true, Option-cases, length, length-append, any, every, keep, find,
  total, All, All-append, All-imp, total-append, keep-append, includes, In, In-append_left,
  In-append_right, In-append-cases, All-In, In-keep, keep-In, find-In, any-In, every-In,
}
use zao_rental.Contracts.Flow.{codes, ident}
use zao_rental.Common.Checked.{Checked, passed, refused, ◌>>=◌, ◌>>◌, ensure}
use zao_rental.Square.{
  Response, Fetched, thrown, answered, is_success, read_json, is_token, Field, absent, other, given,
  attempt,
}

pub data Reason : Type 0 where
  auth_failed sandbox_country_mismatch currency_mismatch location_not_found location_id_mismatch
        merchant_mismatch merchant_inactive location_inactive capability_missing network_failure
        schema_mismatch rate_limited provider_failure :
      Reason

-- A field that is no text is `none`.
pub record Merchant : Type 0 where
  pub id : Option String
  pub status : Option String
  pub country : Option String
  pub currency : Option String
  pub main_location_id : Option String

-- `capabilities` is `other` where it is no list of texts.
pub record Location : Type 0 where
  pub id : Option String
  pub status : Option String
  pub country : Option String
  pub currency : Option String
  pub merchant_id : Option String
  pub capabilities : Field (List String)

-- A body that is an object; a location that is no object is `none`.
pub record Body : Type 0 where
  pub errors : Field ℕ
  pub merchant : Option Merchant
  pub locations : Option (List (Option Location))

-- `object`, `identity`, `code` and `activeStatus`: any other value is a mismatch of the schema.
abbrev pub needed {ℓ} : {A : Type ℓ} → Option A → Checked Reason A
needed none = refused schema_mismatch
needed (some a) = passed a

abbrev pub identity : Option String → Checked Reason String
identity none = refused schema_mismatch
identity (some s) = if ident s then passed s else refused schema_mismatch

abbrev is_upper : ℕ → Bool
is_upper c = leb b'A' c && leb c b'Z'

abbrev pub code_of : ℕ → Option String → Checked Reason String
code_of n none = refused schema_mismatch
code_of n (some s) =
    if length (codes s) == n && every is_upper (codes s) then passed s else refused schema_mismatch

abbrev pub active_status : Option String → Checked Reason String
active_status none = refused schema_mismatch
active_status (some s) =
    if str_eq s "ACTIVE" || str_eq s "INACTIVE" then passed s else refused schema_mismatch

-- `FetchSquareS1Transport.send`, for one of its two addresses.
pub data Sent : Type 0 where
  auth_stop : Sent
  failed : Reason → Option ℕ → Sent
  replied : ℕ → Option Body → Sent

abbrev pub receive : Bool → Fetched Body → Sent
receive late thrown = failed network_failure none
receive late (answered r) =
    if not (is_success r.status)
    then replied r.status none
    else if late
    then failed network_failure (some r.status)
    else elim (read_json r) [
      | none ↦ failed schema_mismatch (some r.status)
      | some b ↦ replied r.status (some b)
    ]

abbrev pub send : String → Bool → Fetched Body → Sent
send token late f = if is_token token then receive late f else auth_stop

-- The status that the summary notes.
abbrev pub status_of : Sent → Option ℕ
status_of auth_stop = none
status_of (failed e status) = status
status_of (replied status body) = some status

abbrev pub has_no_errors : Field ℕ → Bool
has_no_errors absent = true
has_no_errors other = false
has_no_errors (given n) = n == 0

abbrev pub body_of : Option Body → Checked Reason Body
body_of none = refused schema_mismatch
body_of (some b) = if has_no_errors b.errors then passed b else refused schema_mismatch

-- `read`
unfoldable pub read : Sent → Checked Reason Body
read auth_stop = refused auth_failed
read (failed e status) = refused e
read (replied status body) = do
  ensure (not (status == 401 || status == 403)) auth_failed
  ensure (not (status == 429)) rate_limited
  ensure (is_success status) provider_failure
  body_of body

-- The first half of `run`: the identifier of the merchant.
unfoldable pub check_merchant : String → Body → Checked Reason String
check_merchant location b = do
  m ← needed b.merchant
  id ← identity m.id
  status ← active_status m.status
  country ← code_of 2 m.country
  currency ← code_of 3 m.currency
  main ← identity m.main_location_id
  ensure (str_eq status "ACTIVE") merchant_inactive
  ensure (str_eq country "JP") sandbox_country_mismatch
  ensure (str_eq currency "JPY") currency_mismatch
  ensure (str_eq main location) location_id_mismatch
  passed id

-- `locations.map(object).filter(location=>identity(location.id)===this.locationId)`; the two loops
-- refuse for the same reason.
abbrev pub matches_of : String → List (Option Location) → Checked Reason (List Location)
matches_of location [] = passed []
matches_of location (none ∷ ls) = refused schema_mismatch
matches_of location (some l ∷ ls) = do
  id ← identity l.id
  rest ← matches_of location ls
  passed (if str_eq id location then l ∷ rest else rest)

abbrev pub only_one : Bool → List Location → Checked Reason Location
only_one is_empty [] = refused (if is_empty then location_not_found else location_id_mismatch)
only_one is_empty (l ∷ []) = passed l
only_one is_empty (l ∷ (k ∷ ls)) = refused schema_mismatch

abbrev pub capabilities_of : Field (List String) → Checked Reason (List String)
capabilities_of absent = passed []
capabilities_of other = refused schema_mismatch
capabilities_of (given cs) = passed cs

-- The second half of `run`: whether cards can be processed.
unfoldable pub check_location : String → String → Location → Checked Reason Bool
check_location location merchant l = do
  status ← active_status l.status
  country ← code_of 2 l.country
  currency ← code_of 3 l.currency
  owner ← identity l.merchant_id
  ensure (str_eq status "ACTIVE") location_inactive
  ensure (str_eq country "JP") sandbox_country_mismatch
  ensure (str_eq currency "JPY") currency_mismatch
  ensure (str_eq owner merchant) merchant_mismatch
  capabilities ← capabilities_of l.capabilities
  passed (any (str_eq "CREDIT_CARD_PROCESSING") capabilities)

unfoldable pub check_locations : String → String → Body → Checked Reason Bool
check_locations location merchant b = do
  ls ← needed b.locations
  found ← matches_of location ls
  l ← only_one (length ls == 0) found
  check_location location merchant l

pub data Result : Type 0 where
  s1_pass s1_warning s1_fail : Result

pub record Summary : Type 0 where
  pub result : Result
  pub reason : Option Reason
  pub request_count : ℕ
  pub merchant_http : Option ℕ
  pub locations_http : Option ℕ

abbrev pub conclude : ℕ → Option ℕ → Option ℕ → Checked Reason Bool → Summary
conclude n m l (refused e) = record {
  result = s1_fail;
  reason = some e;
  request_count = n;
  merchant_http = m;
  locations_http = l;
}
conclude n m l (passed true) = record {
  result = s1_pass;
  reason = none;
  request_count = n;
  merchant_http = m;
  locations_http = l;
}
conclude n m l (passed false) = record {
  result = s1_warning;
  reason = some capability_missing;
  request_count = n;
  merchant_http = m;
  locations_http = l;
}

abbrev pub second_call : String → Option ℕ → Checked Reason String → Sent → Summary
second_call location http (refused e) s = conclude 1 http none (refused e)
second_call location http (passed merchant) s =
    conclude 2 http (status_of s) (read s >>= check_locations location merchant)

-- `run` behind its flag; what `fetch` gives for the two calls are inputs.
unfoldable pub run : String → String → Bool → Fetched Body → Bool → Fetched Body → Summary
run location token late first late' second =
    let s = send token late first in
    second_call location (status_of s) (read s >>= check_merchant location)
      (send token late' second)

-- A call of `run` with the flag `started`.
abbrev pub serve :
    Bool → String → String → Bool → Fetched Body → Bool → Fetched Body → Bool × Option Summary
serve started location token late first late' second =
    attempt started (run location token late first late' second)
