-- ===== src/Square/Gateway/Transport.antt =====
-- `FetchSquareTransport` of packages/core/src/payment/square-transport.ts: which requests leave the
-- program, and with what credential. A URL is the list of its code points.
use zao_rental.Common.{
  ℕ, Bool, true, false, not, ◌&&◌, ◌||◌, Option, none, some, List, [], ◌∷◌, ◌++◌, String, str_eq,
  ltb, leb, ◌==◌, if◌then◌else◌, length, every,
}
use zao_rental.Contracts.Flow.{codes, ident_char, is_safe}
use zao_rental.Release.Backup.{same_codes}
use zao_rental.Square.{
  square_version, sandbox_origin, production_origin, Method, get, post, is_get, Fetched, thrown,
  answered, is_success, read_json, is_token, starts, Field, absent, other, given,
}
use zao_rental.Square.S2.{CreateBody}
use zao_rental.Square.S3.{RefundBody}

pub data Environment : Type 0 where
  sandbox production : Environment

abbrev pub is_production : Environment → Bool
is_production sandbox = false
is_production production = true

abbrev pub same_environment : Environment → Environment → Bool
same_environment sandbox e = not (is_production e)
same_environment production e = is_production e

abbrev pub origin_of : Environment → List ℕ
origin_of sandbox = codes sandbox_origin
origin_of production = codes production_origin

-- The fields of the transport that it is made with.
pub record Binding : Type 0 where
  pub environment : Environment
  pub merchant_id : String
  pub location_id : String

-- `expires_at` is `absent` where it is null and `other` where it is no valid date.
pub record Credential : Type 0 where
  pub environment : Environment
  pub merchant_id : String
  pub location_id : String
  pub access_token : String
  pub expires_at : Field ℕ
  pub revoked : Bool

pub data Body : Type 0 where
  no_body : Body
  paying : CreateBody → Body
  refunding : RefundBody → Body

pub record Call : Type 0 where
  pub method : Method
  pub url : List ℕ
  pub version : String
  pub body : Body

pub data GatewayError : Type 0 where
  request_rejected auth_stop quota_stop payment_result_unknown payment_lookup_unavailable
        invalid_response invalid_provider_response payment_evidence_mismatch
        payment_source_not_connected payment_provider_id_unresolved invalid_provider_id :
      GatewayError

-- What `send` does, in order: it asks for the credential, and it fetches with a token.
pub data Effect : Type 0 where
  asks : Effect
  fetches : Call → String → Effect

pub data Answer (V : Type 0) : Type 0 where
  threw : GatewayError → Answer V
  replied : ℕ → Option V → Answer V

-- What follows a prefix, by its length.
abbrev pub after : List ℕ → List ℕ → List ℕ
after [] cs = cs
after (p ∷ ps) [] = []
after (p ∷ ps) (c ∷ cs) = after ps cs

abbrev pub is_money : ℕ → String → Bool
is_money amount currency = str_eq currency "JPY" && is_safe amount && ltb 0 amount

abbrev pub is_payment_body : Binding → Body → Bool
is_payment_body b no_body = false
is_payment_body b (refunding r) = false
is_payment_body b (paying p) =
    str_eq p.location_id b.location_id
    && is_money p.amount p.currency
    && not (str_eq p.idempotency_key "")
    && not (str_eq p.reference_id "")
    && p.autocomplete

-- `/^[a-f0-9-]{36}$/`
abbrev key_char : ℕ → Bool
key_char c = (leb b'a' c && leb c b'f') || (leb b'0' c && leb c b'9') || c == b'-'

abbrev pub is_refund_key : String → Bool
is_refund_key s = let cs = codes s in length cs == 36 && every key_char cs

-- `/^[A-Za-z0-9_-]{1,100}$/`
abbrev pub ident_codes : List ℕ → Bool
ident_codes cs = leb 1 (length cs) && leb (length cs) 100 && every ident_char cs

abbrev pub is_refund_body : Binding → Body → Bool
is_refund_body b no_body = false
is_refund_body b (paying p) = false
is_refund_body b (refunding r) =
    is_money r.amount r.currency
    && is_refund_key r.idempotency_key
    && ident_codes (codes r.payment)
    && ((str_eq r.reason "SYNTHETIC_P4_SANDBOX_TEST" && not (is_production b.environment))
        || str_eq r.reason "ZAO_CANCELLATION_V1")

abbrev pub is_empty_body : Body → Bool
is_empty_body no_body = true
is_empty_body _ = false

abbrev pub payments_path : List ℕ
payments_path = codes "/v2/payments"

abbrev pub refunds_path : List ℕ
refunds_path = codes "/v2/refunds"

abbrev pub payment_prefix : List ℕ
payment_prefix = codes "/v2/payments/"

abbrev pub refund_prefix : List ℕ
refund_prefix = codes "/v2/refunds/"

abbrev pub names_one : List ℕ → List ℕ → Bool
names_one prefix path = starts prefix path && ident_codes (after prefix path)

abbrev pub path_of : Binding → Call → List ℕ
path_of b c = after (origin_of b.environment) c.url

abbrev pub is_payment : Binding → Call → Bool
is_payment b c =
    not (is_get c.method) && same_codes (path_of b c) payments_path && is_payment_body b c.body

abbrev pub is_refund : Binding → Call → Bool
is_refund b c =
    not (is_get c.method) && same_codes (path_of b c) refunds_path && is_refund_body b c.body

abbrev pub is_lookup : Binding → Call → Bool
is_lookup b c =
    is_get c.method
    && (names_one payment_prefix (path_of b c) || names_one refund_prefix (path_of b c))
    && is_empty_body c.body

-- The conditions on a call, before the credential is asked for.
unfoldable pub is_allowed : Binding → Call → Bool
is_allowed b c =
    str_eq c.version square_version
    && starts (origin_of b.environment ++ b'/' ∷ []) c.url
    && (is_payment b c || is_refund b c || is_lookup b c)

-- `credentialCurrent`
abbrev pub credential_current : Credential → ℕ → Bool
credential_current c now = elim c.expires_at [
  | absent ↦ is_production c.environment
  | other ↦ false
  | given at ↦ ltb now at
]

unfoldable pub is_usable : Binding → Credential → ℕ → Bool
is_usable b c now =
    same_environment c.environment b.environment
    && str_eq c.merchant_id b.merchant_id
    && str_eq c.location_id b.location_id
    && not c.revoked
    && credential_current c now
    && is_token c.access_token

-- The code of an exception whose cause is not known.
abbrev pub unknown_of : Method → GatewayError
unknown_of get = payment_lookup_unavailable
unknown_of post = payment_result_unknown

-- `e instanceof SquareResponseMalformed`, where the signal is not aborted.
abbrev pub malformed_of : Environment → Method → GatewayError
malformed_of production get = invalid_response
malformed_of e m = unknown_of m

-- `is_broken`: the deadline passes, or the connection breaks off, before the body is read.
unfoldable pub receive : {V : Type 0} → Environment → Method → Bool → Fetched V → Answer V
receive e m is_broken thrown = threw (unknown_of m)
receive e m is_broken (answered r) =
    if not (is_success r.status)
    then replied r.status none
    else if is_broken
    then threw (unknown_of m)
    else elim (read_json r) [ none ↦ threw (malformed_of e m) | some v ↦ replied r.status (some v) ]

-- What the world gives to a call: the credential, or `none` where asking for it throws or the
-- deadline passes, the present instant and what `fetch` gives.
pub record World (V : Type 0) : Type 0 where
  pub credential : Option Credential
  pub now : ℕ
  pub is_broken : Bool
  pub fetched : Fetched V

abbrev pub with_credential :
    {V : Type 0} → Binding → Call → World V → Option Credential → List Effect × Answer V
with_credential b c w none = (asks ∷ [], threw (unknown_of c.method))
with_credential b c w (some k) =
    if is_usable b k w.now
    then (
      asks ∷ fetches c k.access_token ∷ [],
      receive b.environment c.method w.is_broken w.fetched,
    )
    else (asks ∷ [], threw auth_stop)

-- `send`
unfoldable pub send : {V : Type 0} → Binding → Call → World V → List Effect × Answer V
send b c w =
    if is_allowed b c then with_credential b c w w.credential else ([], threw request_rejected)
