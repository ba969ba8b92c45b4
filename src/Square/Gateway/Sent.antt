-- ===== src/Square/Gateway/Sent.antt =====
-- Which requests the gateway sends.
use zao_rental.Common.{
  ℕ, ◌≡◌, refl, sym, inl, inr, Bool, true, not, ◌&&◌, Option, none, some, List, [], ◌∷◌, ◌++◌,
  arith, String, str_eq, if◌then◌else◌, ==_refl, Bool-cases,
}
use zao_rental.Contracts.Flow.{codes, ident, PaymentRequest}
use zao_rental.Square.{Method, get, post, starts}
use zao_rental.Square.Gateway.Transport.{
  Binding, Body, no_body, paying, Call, Credential, Effect, asks, fetches, with_credential, after,
  origin_of, payments_path, payment_prefix, is_allowed, is_usable, World, send,
}
use zao_rental.Square.Gateway.{Payload, body_of, call_to, is_own, is_source, call, create}

after_append : (p cs : List ℕ) → after p (p ++ cs) ≡ cs
after_append [] cs = refl
after_append (x ∷ p) cs = after_append p cs

starts_append : (p q cs : List ℕ) → starts (p ++ q) (p ++ cs) ≡ starts q cs
starts_append [] q cs = refl
starts_append (x ∷ p) q cs = rw (==_refl x) (starts_append p q cs)

-- The request is for the location of the transport, and has a key and a booking.
abbrev pub is_bound : Binding → PaymentRequest → Bool
is_bound b r =
    str_eq r.location_id b.location_id
    && not (str_eq r.idempotency_key "")
    && not (str_eq r.booking_id "")

create-is_allowed :
    (b : Binding) (r : PaymentRequest) (source : String)
    → is_own b r ≡ true
    → is_allowed b (call_to b post payments_path (paying (body_of r source))) ≡ is_bound b r
unfolding is_allowed is_own
create-is_allowed b r source h =
    rw
      (
        starts_append (origin_of b.environment) (b'/' ∷ []) payments_path,
        after_append (origin_of b.environment) payments_path,
      )
      (ground (arith, h))

lookup-is_allowed :
    (b : Binding) (id : String)
    → is_allowed b (call_to b get (payment_prefix ++ codes id) no_body) ≡ ident id
unfolding is_allowed ident
lookup-is_allowed b id =
    rw
      (
        starts_append (origin_of b.environment) (b'/' ∷ []) (payment_prefix ++ codes id),
        after_append (origin_of b.environment) (payment_prefix ++ codes id),
        after_append payment_prefix (codes id),
      )
      (ground (arith))

-- What is sent for a call of the bound shape: nothing before the credential has been asked for, and
-- nothing without a usable one.
abbrev pub sent_with : Binding → Call → ℕ → Option Credential → List Effect
sent_with b c now none = asks ∷ []
sent_with b c now (some k) =
    if is_usable b k now then asks ∷ fetches c k.access_token ∷ [] else asks ∷ []

with_credential-sent :
    (b : Binding) (c : Call) (w : World Payload) (m : Option Credential)
    → (with_credential b c w m).0 ≡ sent_with b c w.now m
with_credential-sent b c w none = refl
with_credential-sent b c w (some k) = elim (Bool-cases (is_usable b k w.now)) [
  | inl y ↦ rw y refl
  | inr n ↦ rw n refl
]

send-sent :
    (b : Binding) (c : Call) (w : World Payload)
    → (send b c w).0 ≡ (if is_allowed b c then sent_with b c w.now w.credential else [])
unfolding send
send-sent b c w = elim (Bool-cases (is_allowed b c)) [
  | inl y ↦ rw y (with_credential-sent b c w w.credential)
  | inr n ↦ rw n refl
]

call-sent :
    (b : Binding) (r : PaymentRequest) (m : Method) (path : List ℕ) (body : Body)
    (w : World Payload) (ok : Bool)
    → (is_own b r ≡ true → is_allowed b (call_to b m path body) ≡ ok)
    → (call b r m path body w).0
      ≡ (if is_own b r && ok then sent_with b (call_to b m path body) w.now w.credential else [])
unfolding call
call-sent b r m path body w ok allowed = elim (Bool-cases (is_own b r)) [
  | inl y ↦ rw (y, sym (allowed y)) (send-sent b (call_to b m path body) w)
  | inr n ↦ rw n refl
]

-- A payment is asked for, once and with the body of the request, exactly where the source is
-- acceptable, the request is for the bound merchant and location, has a key and a booking and a safe
-- positive amount of yen, and the credential is usable: then the transport refuses no such call.
pub create-sent :
    (b : Binding) (r : PaymentRequest) (source : String) (w : World Payload)
    → (create b r (some source) w).0 ≡ (
        if is_source source && (is_own b r && is_bound b r)
        then sent_with b
            (call_to b post payments_path (paying (body_of r source)))
            w.now
            w.credential
        else [])
unfolding create
create-sent b r source w = elim (Bool-cases (is_source source)) [
  | inl y ↦ rw y (
      call-sent b r post payments_path (paying (body_of r source)) w (is_bound b r)
        (create-is_allowed b r source))
  | inr n ↦ rw n refl
]
