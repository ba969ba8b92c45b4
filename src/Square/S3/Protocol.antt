-- ===== src/Square/S3/Protocol.antt =====
-- What the transport of S3 promises to whoever holds it, as a machine of six phases.
pub mod Refines
use zao_rental.Common.{ℕ, ◌≡◌, Bool, true, false, Option, none, some, List, [], ◌∷◌, String}
use zao_rental.Contracts.Flow.{PaymentObservation}
use zao_rental.Square.{Fetched, get, post}
use zao_rental.Square.S3.{
  s3_refund_body, RefundBody, Body, Refund, pending, s3_payment_evidence, s3_refund_evidence,
}
use zao_rental.Square.S3.Transport.{
  payment_url, refunds_url, lookup_url, Call, Transport, authorize_refund, authorize_refund_lookup,
  send,
}

pub data Phase : Type 0 where
  fresh seen allowed refunded : Phase
  permitted looked : String → Phase

abbrev pub payments_in : Phase → ℕ
payments_in fresh = 0
payments_in _ = 1

abbrev pub refunds_in : Phase → ℕ
refunds_in fresh = 0
refunds_in seen = 0
refunds_in allowed = 0
refunds_in _ = 1

abbrev pub lookups_in : Phase → ℕ
lookups_in (looked id) = 1
lookups_in _ = 0

abbrev pub allowed_in : Phase → Bool
allowed_in fresh = false
allowed_in seen = false
allowed_in _ = true

abbrev pub refund_id_in : Phase → Option String
refund_id_in (permitted id) = some id
refund_id_in (looked id) = some id
refund_id_in _ = none

-- What was given to `fetch` in a phase: the look at the payment, the refund with its own body, and the
-- look at the refund that was permitted.
abbrev pub IsLook : String → Call → Type 0
IsLook url c = (c.method ≡ get) × (c.url ≡ url) × (c.body ≡ none)

abbrev pub IsRefund : (RefundBody → String) → Call → Type 0
IsRefund hash c =
    (c.method ≡ post)
    × (c.url ≡ refunds_url)
    × ((b : RefundBody) × (c.body ≡ some b) × (hash b ≡ hash s3_refund_body))

abbrev pub IsSeenLog : List Call → Type 0
IsSeenLog xs = (c : Call) × (xs ≡ c ∷ []) × IsLook payment_url c

abbrev pub IsRefundLog : (RefundBody → String) → List Call → Type 0
IsRefundLog hash xs = (ys : List Call) × (d : Call) × (xs ≡ d ∷ ys) × IsRefund hash d × IsSeenLog ys

abbrev pub IsLookLog : (RefundBody → String) → String → List Call → Type 0
IsLookLog hash id xs =
    (ys : List Call) × (d : Call) × (xs ≡ d ∷ ys) × IsLook (lookup_url id) d × IsRefundLog hash ys

abbrev pub IsLog : (RefundBody → String) → Phase → List Call → Type 0
IsLog hash fresh xs = xs ≡ []
IsLog hash seen xs = IsSeenLog xs
IsLog hash allowed xs = IsSeenLog xs
IsLog hash refunded xs = IsRefundLog hash xs
IsLog hash (permitted id) xs = IsRefundLog hash xs
IsLog hash (looked id) xs = IsLookLog hash id xs

-- The transport is in a phase.
pub record IsIn (hash : RefundBody → String) (t : Transport) (p : Phase) : Type 0 where
  pub payments_at : t.payments ≡ payments_in p
  pub refunds_at : t.refunds ≡ refunds_in p
  pub lookups_at : t.lookups ≡ lookups_in p
  pub allowed_at : t.refund_allowed ≡ allowed_in p
  pub refund_id_at : t.refund_id ≡ refund_id_in p
  pub requests_at : IsLog hash p t.requests

-- What a holder of the transport can do; an exception leaves it as it is.
pub data Op : Type 0 where
  sends : Call → Fetched Body → Op
  authorizes permits : Option Body → Op

abbrev kept : Transport → Option Transport → Transport
kept t none = t
kept t (some u) = u

abbrev kept_first : Transport → Option (Transport × PaymentObservation) → Transport
kept_first t none = t
kept_first t (some (u, o)) = u

module _ (leaks : PaymentObservation → String → Bool) (location token : String)
    (hash : RefundBody → String) where
  -- One look at the payment, a refund once its evidence is accepted, and one look at the refund that
  -- its own evidence shows to be pending.
  pub data Moves : Phase → Phase → Type 0 where
    see : Moves fresh seen
    accept :
        (body : Option Body) (o : PaymentObservation)
        → s3_payment_evidence leaks location token body ≡ some o
        → Moves seen allowed
    pay_back : Moves allowed refunded
    admit :
        (body : Option Body) (r : Refund)
        → s3_refund_evidence leaks location token body none ≡ some r
        → r.status ≡ pending
        → Moves refunded (permitted r.id)
    look : (id : String) → Moves (permitted id) (looked id)

  pub data Reach (p : Phase) : Phase → Type 0 where
    here : Reach p p
    next : {q r : Phase} → Reach p q → Moves q r → Reach p r

  Reach-trans : {p q r : Phase} → Reach p q → Reach q r → Reach p r
  Reach-trans a here = a
  Reach-trans a (next b s) = next (Reach-trans a b) s

  abbrev pub operate : Transport → Op → Transport
  operate t (sends c f) = (send hash t c token f).0
  operate t (authorizes body) = kept_first t (authorize_refund leaks location token t body)
  operate t (permits body) = kept t (authorize_refund_lookup leaks location token t body)

  abbrev pub operate_all : Transport → List Op → Transport
  operate_all t [] = t
  operate_all t (o ∷ os) = operate_all (operate t o) os

  -- A transport that went on from a phase.
  abbrev pub GoesOn : Transport → Phase → Type 0
  GoesOn u p = (q : Phase) × IsIn hash u q × Reach p q
