-- ===== src/Square/S3/Protocol/Refines.antt =====
-- The transport of S3 refines the machine of six phases.
use zao_rental.Common.{
  ◌+◌, ◌≡◌, refl, sym, ap, subst, ◌∙◌, ◌⊎◌, inl, inr, Bool, true, false, not, ◌||◌, Option, none,
  some, List, [], ◌∷◌, arith, String, str_eq, ◌==◌, if◌then◌else◌, Bool-cases, Option-cases,
}
use text.Mathlib.TextEquality.{eq_iff}
use zao_rental.Contracts.Flow.{PaymentObservation}
use zao_rental.Square.{
  threw, version_forbidden, aborted, transport_failure, Fetched, thrown, answered, is_token,
  square_version, is_none, Method, get, post, is_get,
}
use zao_rental.Square.S3.{
  s3_refund_body, RefundBody, Body, Refund, RefundStatus, pending, completed, rejected, failed,
  s3_payment_evidence, s3_refund_evidence,
}
use zao_rental.Square.S3.Transport.{
  is_pending, was_success, Call, Transport, new_transport, Step, payment, refund, refund_lookup,
  payment_url, refunds_url, lookup_url, permit, authorize_refund, authorize_refund_lookup, dispatch,
  is_payment, is_refund, is_lookup, step_of, go, send,
}
use zao_rental.Square.S3.Protocol.{
  Phase, fresh, seen, allowed, refunded, permitted, looked, IsIn, IsLook, IsRefund, Op, sends,
  authorizes, permits, kept, kept_first, see, accept, pay_back, admit, look, Reach, here, next,
  Reach-trans, operate, operate_all, GoesOn,
}

-- What a call that was let through changes.
paid_fields :
    (t : Transport) (c : Call) (f : Fetched Body)
    → let u = (dispatch t c payment f).0 in
      (u.payments ≡ t.payments + 1)
      × (u.refunds ≡ t.refunds)
      × (u.lookups ≡ t.lookups)
      × (u.refund_allowed ≡ t.refund_allowed)
      × (u.refund_id ≡ t.refund_id)
      × (u.requests ≡ c ∷ t.requests)
paid_fields t c thrown = (refl, refl, refl, refl, refl, refl)
paid_fields t c (answered r) = (refl, refl, refl, refl, refl, refl)

refund_fields :
    (t : Transport) (c : Call) (f : Fetched Body)
    → let u = (dispatch t c refund f).0 in
      (u.payments ≡ t.payments)
      × (u.refunds ≡ t.refunds + 1)
      × (u.lookups ≡ t.lookups)
      × (u.refund_allowed ≡ t.refund_allowed)
      × (u.refund_id ≡ t.refund_id)
      × (u.requests ≡ c ∷ t.requests)
refund_fields t c thrown = (refl, refl, refl, refl, refl, refl)
refund_fields t c (answered r) = (refl, refl, refl, refl, refl, refl)

lookup_fields :
    (t : Transport) (c : Call) (f : Fetched Body)
    → let u = (dispatch t c refund_lookup f).0 in
      (u.payments ≡ t.payments)
      × (u.refunds ≡ t.refunds)
      × (u.lookups ≡ t.lookups + 1)
      × (u.refund_allowed ≡ t.refund_allowed)
      × (u.refund_id ≡ t.refund_id)
      × (u.requests ≡ c ∷ t.requests)
lookup_fields t c thrown = (refl, refl, refl, refl, refl, refl)
lookup_fields t c (answered r) = (refl, refl, refl, refl, refl, refl)

gate-cases :
    {S : Type 0} (version stopped token : Bool) (t : Transport) (x y z : S) (d : Transport × S)
    → let r =
        if not version
        then (t, x)
        else if stopped
        then (t, y)
        else if not token
        then (t, z)
        else d in
      (r.0 ≡ t) ⊎ (r.0 ≡ d.0)
gate-cases true false true t x y z d = inr refl
gate-cases _ _ _ t x y z d = inl refl

pending-cases : (s : RefundStatus) → (s ≡ pending) ⊎ (is_pending s ≡ false)
pending-cases pending = inl refl
pending-cases completed = inr refl
pending-cases rejected = inr refl
pending-cases failed = inr refl

is_none-none : {A : Type 0} (m : Option A) → is_none m ≡ true → m ≡ none
is_none-none none h = refl
is_none-none (some a) h = absurd (cc)

get-get : (m : Method) → is_get m ≡ true → m ≡ get
get-get get h = refl
get-get post h = absurd (cc)

get-post : (m : Method) → not (is_get m) ≡ true → m ≡ post
get-post get h = absurd (cc)
get-post post h = refl

is_payment-IsLook :
    (hash : RefundBody → String) (t : Transport) (c : Call)
    → is_payment hash t c ≡ true
    → IsLook payment_url c
is_payment-IsLook hash t c h = (
  get-get c.method (ground (arith, h)),
  (eq_iff c.url payment_url).0 (ground (arith, h)),
  is_none-none c.body (ground (arith, h)),
)

is_refund-IsRefund :
    (hash : RefundBody → String) (t : Transport) (c : Call)
    → is_refund hash t c ≡ true
    → IsRefund hash c
is_refund-IsRefund hash t c h = elim (Option-cases c.body) [
  | inl n ↦ absurd (ground (arith, h, n))
  | inr (b, e) ↦ (
    get-post c.method (ground (arith, h)),
    (eq_iff c.url refunds_url).0 (ground (arith, h)),
    (b, e, (eq_iff (hash b) (hash s3_refund_body)).0 (ground (arith, h, e))),
  )
]

is_lookup-IsLook :
    (hash : RefundBody → String) (t : Transport) (c : Call) (id : String)
    → t.refund_id ≡ some id
    → is_lookup hash t c ≡ true
    → IsLook (lookup_url id) c
is_lookup-IsLook hash t c id e h = (
  get-get c.method (ground (arith, h)),
  (eq_iff c.url (lookup_url id)).0 (ground (arith, h, e)),
  is_none-none c.body (ground (arith, h)),
)

module _ (leaks : PaymentObservation → String → Bool) (location token : String)
    (hash : RefundBody → String) where
  abbrev Goes : Transport → Phase → Type 0
  Goes = GoesOn leaks location token hash

  payment-Goes :
      (t : Transport) (p : Phase) (c : Call) (f : Fetched Body)
      → IsIn hash t p
      → is_payment hash t c ≡ true
      → Goes (dispatch t c payment f).0 p
  payment-Goes t fresh c f h new =
      let (a, b, d, e, g, l) = paid_fields t c f in
      (
        seen,
        record {
          payments_at = omega (arith, a, h.payments_at);
          refunds_at = b ∙ h.refunds_at;
          lookups_at = d ∙ h.lookups_at;
          allowed_at = e ∙ h.allowed_at;
          refund_id_at = g ∙ h.refund_id_at;
          requests_at = (c, l ∙ ap (λ xs. c ∷ xs) h.requests_at, is_payment-IsLook hash t c new);
        },
        next here see,
      )
  payment-Goes t seen c f h new = absurd (ground (arith, new, h.payments_at))
  payment-Goes t allowed c f h new = absurd (ground (arith, new, h.payments_at))
  payment-Goes t refunded c f h new = absurd (ground (arith, new, h.payments_at))
  payment-Goes t (permitted id) c f h new = absurd (ground (arith, new, h.payments_at))
  payment-Goes t (looked id) c f h new = absurd (ground (arith, new, h.payments_at))

  refund-Goes :
      (t : Transport) (p : Phase) (c : Call) (f : Fetched Body)
      → IsIn hash t p
      → is_refund hash t c ≡ true
      → Goes (dispatch t c refund f).0 p
  refund-Goes t allowed c f h new =
      let (a, b, d, e, g, l) = refund_fields t c f in
      (
        refunded,
        record {
          payments_at = a ∙ h.payments_at;
          refunds_at = omega (arith, b, h.refunds_at);
          lookups_at = d ∙ h.lookups_at;
          allowed_at = e ∙ h.allowed_at;
          refund_id_at = g ∙ h.refund_id_at;
          requests_at = (t.requests, c, l, is_refund-IsRefund hash t c new, h.requests_at);
        },
        next here pay_back,
      )
  refund-Goes t fresh c f h new = absurd (ground (arith, new, h.allowed_at))
  refund-Goes t seen c f h new = absurd (ground (arith, new, h.allowed_at))
  refund-Goes t refunded c f h new = absurd (ground (arith, new, h.refunds_at))
  refund-Goes t (permitted id) c f h new = absurd (ground (arith, new, h.refunds_at))
  refund-Goes t (looked id) c f h new = absurd (ground (arith, new, h.refunds_at))

  lookup-Goes :
      (t : Transport) (p : Phase) (c : Call) (f : Fetched Body)
      → IsIn hash t p
      → is_lookup hash t c ≡ true
      → Goes (dispatch t c refund_lookup f).0 p
  lookup-Goes t (permitted id) c f h new =
      let (a, b, d, e, g, l) = lookup_fields t c f in
      (
        looked id,
        record {
          payments_at = a ∙ h.payments_at;
          refunds_at = b ∙ h.refunds_at;
          lookups_at = omega (arith, d, h.lookups_at);
          allowed_at = e ∙ h.allowed_at;
          refund_id_at = g ∙ h.refund_id_at;
          requests_at =
              (t.requests, c, l, is_lookup-IsLook hash t c id h.refund_id_at new, h.requests_at);
        },
        next here (look id),
      )
  lookup-Goes t fresh c f h new = absurd (ground (arith, new, h.refund_id_at))
  lookup-Goes t seen c f h new = absurd (ground (arith, new, h.refund_id_at))
  lookup-Goes t allowed c f h new = absurd (ground (arith, new, h.refund_id_at))
  lookup-Goes t refunded c f h new = absurd (ground (arith, new, h.refund_id_at))
  lookup-Goes t (looked id) c f h new = absurd (ground (arith, new, h.lookups_at))

  step-Goes :
      (t : Transport) (p : Phase) (c : Call) (f : Fetched Body) (s : Step)
      → IsIn hash t p
      → step_of hash t c ≡ some s
      → Goes (dispatch t c s f).0 p
  step-Goes t p c f payment h e = payment-Goes t p c f h (ground (arith, e))
  step-Goes t p c f refund h e = refund-Goes t p c f h (ground (arith, e))
  step-Goes t p c f refund_lookup h e = lookup-Goes t p c f h (ground (arith, e))

  go-Goes :
      (t : Transport) (p : Phase) (c : Call) (f : Fetched Body) (m : Option Step)
      → IsIn hash t p
      → step_of hash t c ≡ m
      → Goes (go hash t c token f m).0 p
  go-Goes t p c f none h e = (p, h, here)
  go-Goes t p c f (some s) h e =
      elim (gate-cases (str_eq c.version square_version) c.is_aborted (is_token token) t
        (threw version_forbidden) (threw aborted) (threw transport_failure) (dispatch t c s f)) [
          | inl same ↦ (p, subst (λ u. IsIn hash u p) (sym same) h, here)
          | inr moved ↦ subst (λ u. Goes u p) (sym moved) (step-Goes t p c f s h e)
        ]

  allowed-Goes :
      (t : Transport) (p : Phase) (body : Option Body) (o : PaymentObservation)
      → IsIn hash t p
      → t.payments ≡ 1
      → t.refund_allowed ≡ false
      → s3_payment_evidence leaks location token body ≡ some o
      → Goes (record t { refund_allowed = true }) p
  allowed-Goes t fresh body o h one free e = absurd (omega (arith, one, h.payments_at))
  allowed-Goes t seen body o h one free e = (
    allowed,
    record {
      payments_at = h.payments_at;
      refunds_at = h.refunds_at;
      lookups_at = h.lookups_at;
      allowed_at = refl;
      refund_id_at = h.refund_id_at;
      requests_at = h.requests_at;
    },
    next here (accept body o e),
  )
  allowed-Goes t allowed body o h one free e = absurd (ground (arith, free, h.allowed_at))
  allowed-Goes t refunded body o h one free e = absurd (ground (arith, free, h.allowed_at))
  allowed-Goes t (permitted id) body o h one free e = absurd (ground (arith, free, h.allowed_at))
  allowed-Goes t (looked id) body o h one free e = absurd (ground (arith, free, h.allowed_at))

  permitted-Goes :
      (t : Transport) (p : Phase) (body : Option Body) (r : Refund)
      → IsIn hash t p
      → t.refunds ≡ 1
      → t.refund_id ≡ none
      → s3_refund_evidence leaks location token body none ≡ some r
      → r.status ≡ pending
      → Goes (record t { refund_id = some r.id }) p
  permitted-Goes t refunded body r h one new e w = (
    permitted r.id,
    record {
      payments_at = h.payments_at;
      refunds_at = h.refunds_at;
      lookups_at = h.lookups_at;
      allowed_at = h.allowed_at;
      refund_id_at = refl;
      requests_at = h.requests_at;
    },
    next here (admit body r e w),
  )
  permitted-Goes t fresh body r h one new e w = absurd (omega (arith, one, h.refunds_at))
  permitted-Goes t seen body r h one new e w = absurd (omega (arith, one, h.refunds_at))
  permitted-Goes t allowed body r h one new e w = absurd (omega (arith, one, h.refunds_at))
  permitted-Goes t (permitted id) body r h one new e w =
      absurd (ground (arith, new, h.refund_id_at))
  permitted-Goes t (looked id) body r h one new e w = absurd (ground (arith, new, h.refund_id_at))

  permit-Goes :
      (t : Transport) (p : Phase) (body : Option Body) (m : Option Refund)
      → IsIn hash t p
      → t.refunds ≡ 1
      → t.refund_id ≡ none
      → s3_refund_evidence leaks location token body none ≡ m
      → Goes (kept t (permit t m)) p
  permit-Goes t p body none h one new e = (p, h, here)
  permit-Goes t p body (some r) h one new e = elim (pending-cases r.status) [
    | inl w ↦
        let moved : kept t (permit t (some r)) ≡ record t { refund_id = some r.id } =
          ground (arith, w) in
        subst (λ u. Goes u p) (sym moved) (permitted-Goes t p body r h one new e w)
    | inr n ↦
        let same : kept t (permit t (some r)) ≡ t = ground (arith, n) in
        (p, subst (λ u. IsIn hash u p) (sym same) h, here)
  ]

  accept-Goes :
      (t : Transport) (p : Phase) (body : Option Body)
      → IsIn hash t p
      → Goes (kept_first t (authorize_refund leaks location token t body)) p
  unfolding authorize_refund
  accept-Goes t p body h = elim (Bool-cases (not (t.payments == 1) || t.refund_allowed)) [
    | inl no_ ↦
        let same : kept_first t (authorize_refund leaks location token t body) ≡ t =
          ground (arith, no_) in
        (p, subst (λ u. IsIn hash u p) (sym same) h, here)
    | inr free ↦ elim (Option-cases (s3_payment_evidence leaks location token body)) [
      | inl n ↦
          let same : kept_first t (authorize_refund leaks location token t body) ≡ t =
            ground (arith, free, n) in
          (p, subst (λ u. IsIn hash u p) (sym same) h, here)
      | inr (o, e) ↦
          let moved : kept_first t (authorize_refund leaks location token t body)
              ≡ record t { refund_allowed = true } =
            ground (arith, free, e) in
          subst (λ u. Goes u p) (sym moved)
            (allowed-Goes t p body o h (ground (arith, free)) (ground (arith, free)) e)
    ]
  ]

  admit-Goes :
      (t : Transport) (p : Phase) (body : Option Body)
      → IsIn hash t p
      → Goes (kept t (authorize_refund_lookup leaks location token t body)) p
  unfolding authorize_refund_lookup
  admit-Goes t p body h =
      elim (Bool-cases
        (not (t.refunds == 1) || not (was_success t.refund_status) || not (is_none t.refund_id))) [
          | inl no_ ↦
              let same : kept t (authorize_refund_lookup leaks location token t body) ≡ t =
                ground (arith, no_) in
              (p, subst (λ u. IsIn hash u p) (sym same) h, here)
          | inr free ↦
              let one : t.refunds ≡ 1 = ground (arith, free) in
              let new = is_none-none t.refund_id (ground (arith, free)) in
              let done : authorize_refund_lookup leaks location token t body
                  ≡ permit t (s3_refund_evidence leaks location token body none) =
                ground (arith, free) in
              subst (λ u. Goes (kept t u) p) (sym done)
                (permit-Goes t p body (s3_refund_evidence leaks location token body none) h one new
                  refl)
        ]

  operate-Goes :
      (t : Transport) (p : Phase) (o : Op)
      → IsIn hash t p
      → Goes (operate leaks location token hash t o) p
  unfolding send
  operate-Goes t p (sends c f) h = go-Goes t p c f (step_of hash t c) h refl
  operate-Goes t p (authorizes body) h = accept-Goes t p body h
  operate-Goes t p (permits body) h = admit-Goes t p body h

  operate_all-Goes :
      (os : List Op) (t : Transport) (p : Phase)
      → IsIn hash t p
      → Goes (operate_all leaks location token hash t os) p
  operate_all-Goes [] t p h = (p, h, here)
  operate_all-Goes (o ∷ os) t p h =
      let (q, i, r) = operate-Goes t p o h in
      let (last, j, s) = operate_all-Goes os (operate leaks location token hash t o) q i in
      (last, j, Reach-trans leaks location token hash r s)

  -- Whatever is sent, authorized and answered, in whatever order, a new transport does what the
  -- machine of six phases does, and `fetch` is given nothing else, whether or not a call was answered:
  -- one look at the payment; after its evidence was accepted one refund, with the body of the refund by
  -- its hash; and one look at the address of a refund that its own evidence showed to be pending.
  pub operate_all-Reach :
      (os : List Op)
      → (q : Phase) × IsIn hash (operate_all leaks location token hash new_transport os) q
        × Reach leaks location token hash fresh q
  operate_all-Reach os = operate_all-Goes os new_transport fresh (record {
    payments_at = refl;
    refunds_at = refl;
    lookups_at = refl;
    allowed_at = refl;
    refund_id_at = refl;
    requests_at = refl;
  })
