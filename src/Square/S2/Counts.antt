-- ===== src/Square/S2/Counts.antt =====
-- How often the trial calls the provider.
use zao_rental.Common.{
  ℕ, ◌≤◌, ◌≡◌, refl, sym, ap, subst, ◌∙◌, ◌⊎◌, inl, inr, Bool, true, false, not, Option, none, some,
  List, [], ◌∷◌, arith, String, length, keep,
}
use zao_rental.Contracts.Flow.{PaymentRequest, PaymentObservation}
use zao_rental.Square.{post, is_get, Sent, threw, replied, Fetched}
use zao_rental.Square.S2.{Call, CreateBody, Transport, new_transport, allow_lookup, send}
use zao_rental.Square.S2.Service.{
  Class, Outcome, blank, Body, classify, Verdict, pass, look, stop, unless_failed, evaluate,
  payment_of, create_call, lookup_call, after_lookup, look_at, after_verdict, after_create, run,
  serve,
}
use zao_rental.Square.S2.Protocol.{
  Phase, idle, created, permitted, looked, Op, IsIn, sends, allows, kept, apply_all,
  apply_all-Reach,
}

abbrev pub posts : List Call → ℕ
posts xs = length (keep (λ c. not (is_get c.method)) xs)

abbrev pub looks : List Call → ℕ
looks xs = length (keep (λ c. is_get c.method) xs)

-- Of the calls given to `fetch`, at most one payment, and no more looks than payments; and the counts
-- that are reported are those of these calls.
abbrev pub IsCounted : Transport → Type 0
IsCounted t =
    (posts t.requests ≤ 1)
    × (looks t.requests ≤ posts t.requests)
    × (t.create_count ≡ posts t.requests)
    × (t.lookup_count ≡ looks t.requests)

unless_failed-transport :
    (o : Outcome) (t : Transport) (m : Option Class) (go : Outcome × Transport)
    → ((unless_failed o t m go).1 ≡ t) ⊎ ((unless_failed o t m go).1 ≡ go.1)
unless_failed-transport o t none go = inr refl
unless_failed-transport o t (some c) go = inl refl

counted :
    (t : Transport) (c : Call)
    → t.requests ≡ c ∷ []
    → c.method ≡ post
    → t.create_count ≡ 1
    → t.lookup_count ≡ 0
    → IsCounted t
counted t c e q a b = ground (arith, e, q, a, b)

module _ (leaks : PaymentObservation → Bool) (secret : String) (r : PaymentRequest)
    (hash : CreateBody → String) (token : String) where
  after_lookup-transport :
      (o : Outcome) (id : String) (t : Transport) (s : Sent Body)
      → (after_lookup leaks secret r hash token o id (t, s)).1 ≡ t
  after_lookup-transport o id t (threw e) = refl
  after_lookup-transport o id t (replied status body) =
      elim (unless_failed-transport o t (classify status)
        ((evaluate leaks secret r o (payment_of leaks secret r body) (some id)).0, t)) [
          | inl e ↦ e
          | inr e ↦ e
        ]

  -- The calls of the transport that lead from one to the other.
  abbrev pub IsMadeBy : Transport → Transport → Type 0
  IsMadeBy t u = (os : List (Op Body)) × (u ≡ apply_all hash r t os)

  look_at-IsMadeBy :
      (o : Outcome) (id : String) (m : Option Transport) (t : Transport) (f : Fetched Body)
      → allow_lookup t id ≡ m
      → IsMadeBy t (look_at leaks secret r hash token o id m t f).1
  look_at-IsMadeBy o id none t f e = ([], refl)
  look_at-IsMadeBy o id (some u) t f e =
      let c = lookup_call leaks secret r hash token id in
      let x = send hash r u c token f in
      (
        allows id ∷ sends c token f ∷ [],
        after_lookup-transport o id x.0 x.1
            ∙ ap (λ m. (send hash r (kept t m) c token f).0) (sym e),
      )

  after_verdict-IsMadeBy :
      (e : Outcome × Verdict) (id : Option String) (t : Transport) (f : Fetched Body)
      → IsMadeBy t (after_verdict leaks secret r hash token e id t f).1
  after_verdict-IsMadeBy (o, look) (some id) t f =
      look_at-IsMadeBy o id (allow_lookup t id) t f refl
  after_verdict-IsMadeBy (o, look) none t f = ([], refl)
  after_verdict-IsMadeBy (o, pass) id t f = ([], refl)
  after_verdict-IsMadeBy (o, stop) id t f = ([], refl)

  after_create-IsMadeBy :
      (t : Transport) (s : Sent Body) (f : Fetched Body)
      → IsMadeBy t (after_create leaks secret r hash token (t, s) f).1
  after_create-IsMadeBy t (threw e) f = ([], refl)
  after_create-IsMadeBy t (replied status body) f =
      let e = evaluate leaks secret r blank (payment_of leaks secret r body) none in
      let go = after_verdict leaks secret r hash token e e.0.payment_id t f in
      let (os, made) = after_verdict-IsMadeBy e e.0.payment_id t f in
      elim (unless_failed-transport blank t (classify status) go) [
        | inl same ↦ ([], same)
        | inr moved ↦ (os, moved ∙ made)
      ]

  IsIn-IsCounted : (p : Phase) (t : Transport) → IsIn hash r t p → IsCounted t
  IsIn-IsCounted idle t h =
      let e : t.requests ≡ [] = h.requested_in in
      subst
        (λ xs.
          (posts xs ≤ 1)
          × (looks xs ≤ posts xs)
          × (t.create_count ≡ posts xs)
          × (t.lookup_count ≡ looks xs))
        (sym e) (omega arith, omega arith, h.created_in, h.looked_in)
  IsIn-IsCounted created t h =
      let (c, e, ok) = h.requested_in in counted t c e ok.0 h.created_in h.looked_in
  IsIn-IsCounted (permitted id) t h =
      let (c, e, ok) = h.requested_in in counted t c e ok.0 h.created_in h.looked_in
  IsIn-IsCounted (looked id) t h =
      let (c, d, e, ok, look_) = h.requested_in in
      let q = ok.0 in let g = look_.0 in ground (arith, e, q, g, h.created_in, h.looked_in)

  run-counts :
      (first second : Fetched Body)
      → IsCounted (run leaks secret r hash token new_transport first second).1
  unfolding run
  run-counts first second =
      let c = create_call leaks secret r hash token in
      let x = send hash r new_transport c token first in
      let (os, made) = after_create-IsMadeBy x.0 x.1 second in
      let (q, i, reach) = apply_all-Reach hash r (sends c token first ∷ os) in
      subst IsCounted (sym made)
        (IsIn-IsCounted q (apply_all hash r new_transport (sends c token first ∷ os)) i)

  -- The transport after a call that ran, or was refused.
  abbrev left : Transport → Option (Outcome × Transport) → Transport
  left t none = t
  left t (some (o, u)) = u

  -- The service is run again and again, on the same transport.
  abbrev pub serve_all : Bool → Transport → List (Fetched Body × Fetched Body) → Transport
  serve_all attempted t [] = t
  serve_all attempted t ((first, second) ∷ fs) =
      let s = serve leaks secret r hash token attempted t first second in
      serve_all s.0 (left t s.1) fs

  serve_all-refused :
      (t : Transport) (fs : List (Fetched Body × Fetched Body)) → serve_all true t fs ≡ t
  serve_all-refused t [] = refl
  serve_all-refused t ((first, second) ∷ fs) = serve_all-refused t fs

  -- However often the trial is run, and whatever the provider answers or fails to answer, `fetch` is
  -- given at most one payment and no more looks than payments, and the reported counts are those.
  pub serve_all-counts :
      (fs : List (Fetched Body × Fetched Body)) → IsCounted (serve_all false new_transport fs)
  serve_all-counts [] = (omega arith, omega arith, refl, refl)
  serve_all-counts ((first, second) ∷ fs) =
      subst IsCounted
        (sym (serve_all-refused (run leaks secret r hash token new_transport first second).1 fs))
        (run-counts first second)
