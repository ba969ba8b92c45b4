-- ===== src/Square/S2/Protocol.antt =====
-- What the transport of S2 promises to whoever holds it, as a machine of four phases.
use zao_rental.Square.S2.{
  transport_failure, aborted, call_forbidden, CreateBody, Call, Transport, new_transport,
  allow_lookup, is_create, is_lookup, dispatch, send, payments_url, lookup_url, create_body,
}
use zao_rental.Common.{
  ℕ, ◌+◌, ◌≡◌, refl, sym, ap, subst, ◌∙◌, ◌⊎◌, inl, inr, Bool, true, false, not, ◌||◌, Option, none,
  some, List, [], ◌∷◌, arith, String, str_eq, if◌then◌else◌, Option-cases,
}
use text.Mathlib.TextEquality.{eq_iff}
use zao_rental.Contracts.Flow.{ident, PaymentRequest}
use zao_rental.Square.{
  threw, call_forbidden, aborted, transport_failure, Fetched, thrown, answered, is_token,
  square_version, Method, get, post, is_get, is_none,
}

pub data Phase : Type 0 where
  idle created : Phase
  permitted looked : String → Phase

abbrev pub creates : Phase → ℕ
creates idle = 0
creates _ = 1

abbrev pub lookups : Phase → ℕ
lookups (looked id) = 1
lookups _ = 0

abbrev pub permit_of : Phase → Option String
permit_of (permitted id) = some id
permit_of (looked id) = some id
permit_of _ = none

-- One payment, then the permission to look at one, then one look at it.
pub data Step : Phase → Phase → Type 0 where
  create : Step idle created
  permit : (id : String) → ident id ≡ true → Step created (permitted id)
  look : (id : String) → Step (permitted id) (looked id)

pub data Reach (p : Phase) : Phase → Type 0 where
  here : Reach p p
  next : {q r : Phase} → Reach p q → Step q r → Reach p r

Reach-trans : {p q r : Phase} → Reach p q → Reach q r → Reach p r
Reach-trans a here = a
Reach-trans a (next b s) = next (Reach-trans a b) s

-- What was given to `fetch` in a phase: the payment, with the body of the request, and the look at the
-- payment that was allowed.
abbrev pub IsPayment : (CreateBody → String) → PaymentRequest → Call → Type 0
IsPayment hash r c =
    (c.method ≡ post)
    × (c.url ≡ payments_url)
    × ((b : CreateBody) × (c.body ≡ some b) × (hash b ≡ hash (create_body r)))

abbrev pub IsLook : String → Call → Type 0
IsLook id c = (c.method ≡ get) × (c.url ≡ lookup_url id) × (c.body ≡ none)

abbrev pub IsLog : (CreateBody → String) → PaymentRequest → Phase → List Call → Type 0
IsLog hash r idle xs = xs ≡ []
IsLog hash r (looked id) xs =
    (c : Call) × (d : Call) × (xs ≡ d ∷ (c ∷ [])) × IsPayment hash r c × IsLook id d
IsLog hash r p xs = (c : Call) × (xs ≡ c ∷ []) × IsPayment hash r c

-- The transport is in a phase.
pub record IsIn (hash : CreateBody → String) (r : PaymentRequest) (t : Transport) (p : Phase)
    : Type 0 where
  pub created_in : t.create_count ≡ creates p
  pub looked_in : t.lookup_count ≡ lookups p
  pub permitted_in : t.lookup_id ≡ permit_of p
  pub requested_in : IsLog hash r p t.requests

-- What a holder of the transport can do; an exception leaves it as it is.
pub data Op (V : Type 0) : Type 0 where
  sends : Call → String → Fetched V → Op V
  allows : String → Op V

abbrev pub kept : Transport → Option Transport → Transport
kept t none = t
kept t (some u) = u

-- The tests of `send` in their order: nothing happens, or it is a payment, or it is a look.
gate-cases :
    {S : Type 0} (version create lookup aborted token : Bool) (t : Transport) (x y z : S)
    (go : Bool → Transport × S)
    → let r =
        if not version || not (create || lookup)
        then (t, x)
        else if aborted
        then (t, y)
        else if not token
        then (t, z)
        else go create in
      (r.0 ≡ t)
      ⊎ (((create ≡ true) × (r.0 ≡ (go true).0)) ⊎ ((lookup ≡ true) × (r.0 ≡ (go false).0)))
gate-cases true true l false true t x y z go = inr (inl (refl, refl))
gate-cases true false true false true t x y z go = inr (inr (refl, refl))
gate-cases _ _ _ _ _ t x y z go = inl refl

allow_lookup-cases :
    (t : Transport) (id : String)
    → (kept t (allow_lookup t id) ≡ t)
      ⊎ ((kept t (allow_lookup t id) ≡ record t { lookup_id = some id })
          × (t.create_count ≡ 1)
          × (ident id ≡ true)
          × (t.lookup_id ≡ none))
unfolding allow_lookup
allow_lookup-cases t id = elim (Option-cases (allow_lookup t id)) [
  | inl n ↦ inl (ground (arith, n))
  | inr (u, e) ↦ elim (Option-cases t.lookup_id) [
    | inl free ↦ inr (ground (arith, e, free), ground (arith, e), ground (arith, e), free)
    | inr (i, taken) ↦ absurd (ground (arith, e, taken))
  ]
]

permit-refines :
    (hash : CreateBody → String) (r : PaymentRequest) (t : Transport) (p : Phase) (id : String)
    → IsIn hash r t p
    → t.create_count ≡ 1
    → ident id ≡ true
    → t.lookup_id ≡ none
    → (q : Phase) × IsIn hash r (record t { lookup_id = some id }) q × Reach p q
permit-refines hash r t idle id h one ok free = absurd (omega (arith, one, h.created_in))
permit-refines hash r t created id h one ok free = (
  permitted id,
  record {
    created_in = one;
    looked_in = h.looked_in;
    permitted_in = refl;
    requested_in = h.requested_in;
  },
  next here (permit id ok),
)
permit-refines hash r t (permitted i) id h one ok free =
    absurd (ground (arith, free, h.permitted_in))
permit-refines hash r t (looked i) id h one ok free = absurd (ground (arith, free, h.permitted_in))

get-get : (m : Method) → is_get m ≡ true → m ≡ get
get-get get h = refl
get-get post h = absurd (cc)

get-post : (m : Method) → not (is_get m) ≡ true → m ≡ post
get-post get h = absurd (cc)
get-post post h = refl

is_none-none : {A : Type 0} (m : Option A) → is_none m ≡ true → m ≡ none
is_none-none none h = refl
is_none-none (some a) h = absurd (cc)

is_create-IsPayment :
    (hash : CreateBody → String) (r : PaymentRequest) (t : Transport) (c : Call)
    → is_create hash r t c ≡ true
    → IsPayment hash r c
is_create-IsPayment hash r t c h = elim (Option-cases c.body) [
  | inl n ↦ absurd (ground (arith, h, n))
  | inr (b, e) ↦ (
    get-post c.method (ground (arith, h)),
    (eq_iff c.url payments_url).0 (ground (arith, h)),
    (b, e, (eq_iff (hash b) (hash (create_body r))).0 (ground (arith, h, e))),
  )
]

is_lookup-IsLook :
    (hash : CreateBody → String) (r : PaymentRequest) (t : Transport) (c : Call) (id : String)
    → t.lookup_id ≡ some id
    → is_lookup hash r t c ≡ true
    → IsLook id c
is_lookup-IsLook hash r t c id e h = (
  get-get c.method (ground (arith, h)),
  (eq_iff c.url (lookup_url id)).0 (ground (arith, h, e)),
  is_none-none c.body (ground (arith, h)),
)

module _ {V : Type 0} (hash : CreateBody → String) (expected : PaymentRequest) where
  abbrev pub apply : Transport → Op V → Transport
  apply t (sends c token f) = (send hash expected t c token f).0
  apply t (allows id) = kept t (allow_lookup t id)

  abbrev pub apply_all : Transport → List (Op V) → Transport
  apply_all t [] = t
  apply_all t (o ∷ os) = apply_all (apply t o) os

  dispatch-create :
      (t : Transport) (c : Call) (f : Fetched V)
      → let u = (dispatch hash expected t c true f).0 in
        (u.create_count ≡ t.create_count + 1)
        × (u.lookup_count ≡ t.lookup_count)
        × (u.lookup_id ≡ t.lookup_id)
        × (u.requests ≡ c ∷ t.requests)
  dispatch-create t c thrown = (refl, refl, refl, refl)
  dispatch-create t c (answered r) = (refl, refl, refl, refl)

  dispatch-lookup :
      (t : Transport) (c : Call) (f : Fetched V)
      → let u = (dispatch hash expected t c false f).0 in
        (u.create_count ≡ t.create_count)
        × (u.lookup_count ≡ t.lookup_count + 1)
        × (u.lookup_id ≡ t.lookup_id)
        × (u.requests ≡ c ∷ t.requests)
  dispatch-lookup t c thrown = (refl, refl, refl, refl)
  dispatch-lookup t c (answered r) = (refl, refl, refl, refl)

  create-refines :
      (t : Transport) (p : Phase) (c : Call) (f : Fetched V)
      → IsIn hash expected t p
      → is_create hash expected t c ≡ true
      → (q : Phase) × IsIn hash expected (dispatch hash expected t c true f).0 q × Reach p q
  create-refines t idle c f h new =
      let (a, b, d, g) = dispatch-create t c f in
      (
        created,
        record {
          created_in = omega (arith, a, h.created_in);
          looked_in = b ∙ h.looked_in;
          permitted_in = d ∙ h.permitted_in;
          requested_in =
              (c, g ∙ ap (λ l. c ∷ l) h.requested_in, is_create-IsPayment hash expected t c new);
        },
        next here create,
      )
  create-refines t created c f h new = absurd (ground (arith, new, h.created_in))
  create-refines t (permitted id) c f h new = absurd (ground (arith, new, h.created_in))
  create-refines t (looked id) c f h new = absurd (ground (arith, new, h.created_in))

  lookup-refines :
      (t : Transport) (p : Phase) (c : Call) (f : Fetched V)
      → IsIn hash expected t p
      → is_lookup hash expected t c ≡ true
      → (q : Phase) × IsIn hash expected (dispatch hash expected t c false f).0 q × Reach p q
  lookup-refines t idle c f h new = absurd (ground (arith, new, h.permitted_in))
  lookup-refines t created c f h new = absurd (ground (arith, new, h.permitted_in))
  lookup-refines t (permitted id) c f h new =
      let (a, b, d, g) = dispatch-lookup t c f in
      let (paid, log, ok) = h.requested_in in
      (
        looked id,
        record {
          created_in = a ∙ h.created_in;
          looked_in = omega (arith, b, h.looked_in);
          permitted_in = d ∙ h.permitted_in;
          requested_in = (
            paid,
            c,
            g ∙ ap (λ l. c ∷ l) log,
            ok,
            is_lookup-IsLook hash expected t c id h.permitted_in new,
          );
        },
        next here (look id),
      )
  lookup-refines t (looked id) c f h new = absurd (ground (arith, new, h.looked_in))

  send-cases :
      (t : Transport) (c : Call) (token : String) (f : Fetched V)
      → ((send hash expected t c token f).0 ≡ t)
        ⊎ (((is_create hash expected t c ≡ true)
              × ((send hash expected t c token f).0 ≡ (dispatch hash expected t c true f).0))
            ⊎ ((is_lookup hash expected t c ≡ true)
                × ((send hash expected t c token f).0 ≡ (dispatch hash expected t c false f).0)))
  unfolding send
  send-cases t c token f =
      gate-cases (str_eq c.version square_version) (is_create hash expected t c)
        (is_lookup hash expected t c) c.is_aborted (is_token token) t (threw call_forbidden)
        (threw aborted) (threw transport_failure) (λ b. dispatch hash expected t c b f)

  -- A holder's call keeps the phase or moves it by one step.
  apply-refines :
      (t : Transport) (p : Phase) (o : Op V)
      → IsIn hash expected t p
      → (q : Phase) × IsIn hash expected (apply t o) q × Reach p q
  apply-refines t p (sends c token f) h = elim (send-cases t c token f) [
    | inl same ↦ (p, subst (λ u. IsIn hash expected u p) (sym same) h, here)
    | inr (inl (new, moved)) ↦
        let (q, i, r) = create-refines t p c f h new in
        (q, subst (λ u. IsIn hash expected u q) (sym moved) i, r)
    | inr (inr (new, moved)) ↦
        let (q, i, r) = lookup-refines t p c f h new in
        (q, subst (λ u. IsIn hash expected u q) (sym moved) i, r)
  ]
  apply-refines t p (allows id) h = elim (allow_lookup-cases t id) [
    | inl same ↦ (p, subst (λ u. IsIn hash expected u p) (sym same) h, here)
    | inr (moved, one, ok, free) ↦
        let (q, i, r) = permit-refines hash expected t p id h one ok free in
        (q, subst (λ u. IsIn hash expected u q) (sym moved) i, r)
  ]

  apply_all-IsIn :
      (os : List (Op V)) (t : Transport) (p : Phase)
      → IsIn hash expected t p
      → (q : Phase) × IsIn hash expected (apply_all t os) q × Reach p q
  apply_all-IsIn [] t p h = (p, h, here)
  apply_all-IsIn (o ∷ os) t p h =
      let (q, i, r) = apply-refines t p o h in
      let (last, j, s) = apply_all-IsIn os (apply t o) q i in (last, j, Reach-trans r s)

  -- Whatever is sent, allowed and answered, in whatever order, a new transport does what the machine
  -- of four phases does: it gives `fetch` at most one payment, with the body of the request by its
  -- hash, and after that at most one look, at the address of the payment that it was allowed to look
  -- at, and nothing else, whether or not a call was answered.
  pub apply_all-Reach :
      (os : List (Op V))
      → (q : Phase) × IsIn hash expected (apply_all new_transport os) q × Reach idle q
  apply_all-Reach os =
      apply_all-IsIn os new_transport idle
        (record { created_in = refl; looked_in = refl; permitted_in = refl; requested_in = refl })
