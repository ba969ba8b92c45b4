-- ===== src/Square/Gateway/Webhook.antt =====
-- Notifications of the provider: `verifySquareWebhook` and `parseVerifiedSquareWebhook` of
-- packages/core/src/payment/square-boundary.ts and `verifiedWebhook` of square-engine.ts. HMAC-SHA256
-- over the address and the raw body, and the decoding of base64, are parameters. A length counts code
-- points.
use zao_rental.Common.{
  refl, ◌∙◌, ℕ, ◌≡◌, ap, subst, inl, inr, Bool, true, false, not, ◌&&◌, ◌||◌, Option, none, some,
  List, [], ◌∷◌, ◌++◌, arith, String, str_eq, leb, ◌==◌, if◌then◌else◌, Bool-cases, length,
  includes,
}
use zao_rental.Contracts.Flow.{codes, PaymentRequest, PaymentObservation, match_payment}
use zao_rental.Common.Checked.{
  Checked, passed, refused, ◌>>=◌, ◌>>◌, ensure, >>-eq-passed, ensure-eq-passed,
}
use zao_rental.Release.Backup.{same_codes}
use zao_rental.Square.{starts, get}
use zao_rental.Square.Gateway.Transport.{
  Binding, Effect, GatewayError, World, no_body, payment_prefix,
}
use zao_rental.Square.Gateway.{Payload, lookup, call_to}
use zao_rental.Square.Gateway.Found.{IsAnswered, lookup-IsFound}

pub data WebhookError : Type 0 where
  signature_rejected invalid_webhook target_mismatch : WebhookError
  not_observed : GatewayError → WebhookError

-- What is read of the JSON value; a field that is no text is `none`.
pub record RawWebhook : Type 0 where
  pub kind : String
  pub event_id : Option String
  pub merchant_id : Option String
  pub payment_id : Option String

pub record Webhook : Type 0 where
  pub event_id : String
  pub merchant_id : String
  pub payment_id : String
  pub is_created : Bool

-- A request as it arrives: `value` is the object that JSON.parse gives for the raw body. A body that is
-- the value null ends in another exception, which is left aside.
pub record Delivery : Type 0 where
  pub raw : List ℕ
  pub signature : Option String
  pub url : String
  pub value : Option RawWebhook

abbrev base64_char : ℕ → Bool
base64_char c =
    (leb b'A' c && leb c b'Z')
    || (leb b'a' c && leb c b'z')
    || (leb b'0' c && leb c b'9')
    || includes c (codes "-+/")

abbrev ends_padded : List ℕ → Bool
ends_padded [] = false
ends_padded (c ∷ []) = c == b'='
ends_padded (c ∷ (d ∷ cs)) = base64_char c && ends_padded (d ∷ cs)

-- `/^[-A-Za-z0-9+/]{43}=$/`
unfoldable pub is_signature : String → Bool
is_signature s = let cs = codes s in length cs == 44 && ends_padded cs

abbrev pub short_text : ℕ → Option String → Option String
short_text n none = none
short_text n (some s) = if leb (length (codes s)) n then some s else none

abbrev pub needed {ℓ} : {A : Type ℓ} → Option A → Checked WebhookError A
needed none = refused invalid_webhook
needed (some a) = passed a

-- What follows the check of the signature.
unfoldable pub parse_webhook : Option RawWebhook → Checked WebhookError Webhook
parse_webhook value = do
  v ← needed value
  ensure (str_eq v.kind "payment.created" || str_eq v.kind "payment.updated") invalid_webhook
  event ← needed (short_text 128 v.event_id)
  merchant ← needed (short_text 100 v.merchant_id)
  payment ← needed (short_text 100 v.payment_id)
  passed (record {
    event_id = event;
    merchant_id = merchant;
    payment_id = payment;
    is_created = str_eq v.kind "payment.created";
  })

module _ (hmac : String → String → List ℕ → List ℕ) (decode : String → List ℕ) where
  -- `verifySquareWebhook`
  unfoldable pub verify_square_webhook : Delivery → String → Bool
  verify_square_webhook d key = elim d.signature [
    | none ↦ false
    | some s ↦
        not (str_eq s "")
        && not (str_eq key "")
        && leb (length d.raw) 65536
        && starts (codes "https://") (codes d.url)
        && is_signature s
        && same_codes (decode s) (hmac key d.url d.raw)
  ]

  -- `parseVerifiedSquareWebhook`
  unfoldable pub parse_verified_square_webhook : Delivery → String → Checked WebhookError Webhook
  parse_verified_square_webhook d key = do
    ensure (verify_square_webhook d key) signature_rejected
    parse_webhook d.value

  abbrev pub with_event :
      Webhook
      → List Effect × Checked GatewayError PaymentObservation
      → List Effect × Checked WebhookError (Webhook × PaymentObservation)
  with_event e (es, refused x) = (es, refused (not_observed x))
  with_event e (es, passed o) = (es, passed (e, o))

  abbrev pub look_up :
      Binding
      → PaymentRequest
      → World Payload
      → Checked WebhookError Webhook
      → List Effect × Checked WebhookError (Webhook × PaymentObservation)
  look_up b r w (refused x) = ([], refused x)
  look_up b r w (passed e) =
      let found = with_event e (lookup b r (some e.payment_id) w) in
      if str_eq e.merchant_id r.merchant_id then found else ([], refused target_mismatch)

  -- `verifiedWebhook`
  unfoldable pub verified_webhook :
      Binding
      → PaymentRequest
      → Delivery
      → String
      → World Payload
      → List Effect × Checked WebhookError (Webhook × PaymentObservation)
  verified_webhook b r d key w = look_up b r w (parse_verified_square_webhook d key)

  with_event-passed :
      (e f : Webhook) (s : List Effect × Checked GatewayError PaymentObservation)
      (o : PaymentObservation)
      → (with_event e s).1 ≡ passed (f, o)
      → (e ≡ f) × (s.1 ≡ passed o)
  with_event-passed e f (es, refused x) o h = absurd (cc)
  with_event-passed e f (es, passed p) o h = (ground (arith, h), ground (arith, h))

  look_up-passed :
      (b : Binding) (r : PaymentRequest) (w : World Payload) (m : Checked WebhookError Webhook)
      (f : Webhook) (o : PaymentObservation)
      → (look_up b r w m).1 ≡ passed (f, o)
      → (m ≡ passed f)
        × (str_eq f.merchant_id r.merchant_id ≡ true)
        × ((lookup b r (some f.payment_id) w).1 ≡ passed o)
  look_up-passed b r w (refused x) f o h = absurd (cc)
  look_up-passed b r w (passed e) f o h = elim (Bool-cases (str_eq e.merchant_id r.merchant_id)) [
    | inr n ↦ absurd (ground (arith, h, n))
    | inl y ↦
        let (same, found) =
          with_event-passed e f (lookup b r (some e.payment_id) w) o (ground (arith, h, y)) in
        (
          ap passed same,
          subst (λ z. str_eq z.merchant_id r.merchant_id ≡ true) same y,
          subst (λ z. (lookup b r (some z.payment_id) w).1 ≡ passed o) same found,
        )
  ]

  with_event-effects :
      (e : Webhook) (s : List Effect × Checked GatewayError PaymentObservation)
      → (with_event e s).0 ≡ s.0
  with_event-effects e (es, refused x) = refl
  with_event-effects e (es, passed o) = refl

  look_up-sends :
      (b : Binding) (r : PaymentRequest) (w : World Payload) (m : Checked WebhookError Webhook)
      (e : Webhook)
      → m ≡ passed e
      → str_eq e.merchant_id r.merchant_id ≡ true
      → (look_up b r w m).0 ≡ (lookup b r (some e.payment_id) w).0
  look_up-sends b r w m e p own =
      ap (λ z. (look_up b r w z).0) p
      ∙ rw own (with_event-effects e (lookup b r (some e.payment_id) w))

  -- A notification counts only where its signature over address and body is right, it is about the
  -- merchant of the request, and a lookup of the payment that it names gives what is returned: nothing
  -- else is sent, and the observation is the lookup's, never the notification's.
  pub verified_webhook-IsFound :
      (b : Binding) (r : PaymentRequest) (d : Delivery) (key : String) (w : World Payload)
      (e : Webhook) (o : PaymentObservation)
      → (verified_webhook b r d key w).1 ≡ passed (e, o)
      → (verify_square_webhook d key ≡ true)
        × (str_eq e.merchant_id r.merchant_id ≡ true)
        × ((lookup b r (some e.payment_id) w).1 ≡ passed o)
        × ((verified_webhook b r d key w).0 ≡ (lookup b r (some e.payment_id) w).0)
        × (match_payment r o ≡ true)
        × (str_eq o.provider_id e.payment_id ≡ true)
        × IsAnswered b
            (call_to b get (payment_prefix ++ codes e.payment_id) no_body)
            w
            (lookup b r (some e.payment_id) w).0
  unfolding verified_webhook parse_verified_square_webhook
  verified_webhook-IsFound b r d key w e o h =
      let (parsed, own, found) = look_up-passed b r w (parse_verified_square_webhook d key) e o h in
      let (signed, read) =
        >>-eq-passed (ensure (verify_square_webhook d key) signature_rejected)
          (parse_webhook d.value) e parsed in
      let (matched, same, answered_) = lookup-IsFound b r e.payment_id w o found in
      (
        ensure-eq-passed (verify_square_webhook d key) signature_rejected signed,
        own,
        found,
        look_up-sends b r w (parse_verified_square_webhook d key) e parsed own,
        matched,
        same,
        answered_,
      )
