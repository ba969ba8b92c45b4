-- ===== src/Square/Gateway/Found.antt =====
-- What the gateway accepts as an observation of a payment.
use zao_rental.Common.{
  ℕ, ◌≡◌, refl, ap, subst, inl, inr, true, Option, none, some, List, [], ◌∷◌, ◌++◌, arith, String,
  str_eq, Bool-cases, Option-cases,
}
use zao_rental.Contracts.Flow.{codes, ident, PaymentRequest, PaymentObservation, match_payment}
use zao_rental.Common.Checked.{Checked, passed, refused}
use zao_rental.Square.{Method, get, square_observation}
use zao_rental.Square.Gateway.Transport.{
  Binding, Body, no_body, Call, Credential, Effect, asks, fetches, with_credential, payment_prefix,
  is_allowed, is_usable, World, send, GatewayError, Answer, threw, replied,
}
use zao_rental.Square.Gateway.{
  Payload, call_to, is_own, call, lookup, observed, conclude, same_payment,
}

observed-passed :
    (r : PaymentRequest) (merchant : String) (m : Option Payload) (o : PaymentObservation)
    → observed r merchant m ≡ passed o
    → match_payment r o ≡ true
observed-passed r merchant none o h = absurd (cc)
observed-passed r merchant (some p) o h = elim (Option-cases p.payment) [
  | inl n ↦ absurd (ground (arith, h, n))
  | inr (raw, e) ↦ elim (Option-cases (square_observation raw r merchant)) [
    | inl n ↦ absurd (ground (arith, h, e, n))
    | inr (x, f) ↦ elim (Bool-cases (match_payment r x)) [
      | inl y ↦
          let same : x ≡ o = ground (arith, h, e, f, y) in
          subst (λ z. match_payment r z ≡ true) same y
      | inr n ↦ absurd (ground (arith, h, e, f, n))
    ]
  ]
]

-- The transport answered the call, after it had asked for a usable credential.
abbrev pub IsAnswered : Binding → Call → World Payload → List Effect → Type 0
IsAnswered b c w es =
    (k : Credential) × (w.credential ≡ some k)
    × (is_usable b k w.now ≡ true)
    × (es ≡ asks ∷ fetches c k.access_token ∷ [])

with_credential-IsAnswered :
    (b : Binding) (c : Call) (w : World Payload) (m : Option Credential) (status : ℕ)
    (body : Option Payload)
    → w.credential ≡ m
    → (with_credential b c w m).1 ≡ replied status body
    → IsAnswered b c w (with_credential b c w m).0
with_credential-IsAnswered b c w none status body e h = absurd (cc)
with_credential-IsAnswered b c w (some k) status body e h =
    elim (Bool-cases (is_usable b k w.now)) [
      | inl y ↦ (k, e, y, rw y refl)
      | inr n ↦ absurd (ground (arith, h, n))
    ]

send-IsAnswered :
    (b : Binding) (c : Call) (w : World Payload) (status : ℕ) (body : Option Payload)
    → (send b c w).1 ≡ replied status body
    → IsAnswered b c w (send b c w).0
unfolding send
send-IsAnswered b c w status body h = elim (Bool-cases (is_allowed b c)) [
  | inl y ↦
      rw y (with_credential-IsAnswered b c w w.credential status body refl (ground (arith, h, y)))
  | inr n ↦ absurd (ground (arith, h, n))
]

-- The answer of a call that gives an observation.
abbrev IsReply : PaymentRequest → Answer Payload → PaymentObservation → Type 0
IsReply r a o =
    (status : ℕ) × (body : Option Payload) × (a ≡ replied status body) × (match_payment r o ≡ true)

conclude-IsReply :
    (r : PaymentRequest) (merchant : String) (m : Method) (a : Answer Payload)
    (o : PaymentObservation)
    → conclude r merchant m a ≡ passed o
    → IsReply r a o
unfolding conclude
conclude-IsReply r merchant m (threw e) o h = absurd (cc)
conclude-IsReply r merchant m (replied status body) o h =
    (status, body, refl, observed-passed r merchant body o (ground (arith, h)))

call-IsAnswered :
    (b : Binding) (r : PaymentRequest) (m : Method) (path : List ℕ) (body : Body)
    (w : World Payload) (o : PaymentObservation)
    → (call b r m path body w).1 ≡ passed o
    → (is_own b r ≡ true)
      × (match_payment r o ≡ true)
      × IsAnswered b (call_to b m path body) w (call b r m path body w).0
unfolding call
call-IsAnswered b r m path body w o h = elim (Bool-cases (is_own b r)) [
  | inl y ↦
      let s = send b (call_to b m path body) w in
      let (status, v, e, matched) =
        conclude-IsReply r b.merchant_id m s.1 o (ground (arith, h, y)) in
      (y, matched, rw y (send-IsAnswered b (call_to b m path body) w status v e))
  | inr n ↦ absurd (ground (arith, h, n))
]

same_payment-passed :
    (id : String) (m : Checked GatewayError PaymentObservation) (o : PaymentObservation)
    → same_payment id m ≡ passed o
    → (m ≡ passed o) × (str_eq o.provider_id id ≡ true)
same_payment-passed id (refused e) o h = absurd (cc)
same_payment-passed id (passed x) o h = elim (Bool-cases (str_eq x.provider_id id)) [
  | inl y ↦
      let same : x ≡ o = ground (arith, h, y) in
      (ap passed same, subst (λ z. str_eq z.provider_id id ≡ true) same y)
  | inr n ↦ absurd (ground (arith, h, n))
]

-- A lookup that gives an observation has sent one request, for the payment that it was asked for, with
-- a usable credential; the observation is of that payment and matches the request.
pub lookup-IsFound :
    (b : Binding) (r : PaymentRequest) (id : String) (w : World Payload) (o : PaymentObservation)
    → (lookup b r (some id) w).1 ≡ passed o
    → (match_payment r o ≡ true)
      × (str_eq o.provider_id id ≡ true)
      × IsAnswered b
          (call_to b get (payment_prefix ++ codes id) no_body)
          w
          (lookup b r (some id) w).0
unfolding lookup
lookup-IsFound b r id w o h = elim (Bool-cases (str_eq id "")) [
  | inl y ↦ absurd (ground (arith, h, y))
  | inr n ↦ elim (Bool-cases (ident id)) [
    | inr bad ↦ absurd (ground (arith, h, n, bad))
    | inl good ↦
        let c = call b r get (payment_prefix ++ codes id) no_body w in
        let (found, same) = same_payment-passed id c.1 o (ground (arith, h, n, good)) in
        let (own, matched, answered_) =
          call-IsAnswered b r get (payment_prefix ++ codes id) no_body w o found in
        (matched, same, rw (n, good) answered_)
  ]
]
