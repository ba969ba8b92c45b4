-- ===== src/Square/S2/Passed.antt =====
-- When the trial passes, and how often it calls.
use zao_rental.Square.{
  Sent, threw, replied, call_forbidden, aborted, transport_failure, is_token, square_version,
  Fetched, thrown, answered, RawPayment, square_observation,
}
use zao_rental.Square.Observation.{IsCompletedFor, square_observation-IsCompletedFor}
use zao_rental.Square.Replies.{Answers, reply-replied}
use zao_rental.Square.S2.{
  is_lookup, Call, CreateBody, Transport, Sent, call_forbidden, aborted, transport_failure, replied,
  allow_lookup, is_create, dispatch, send,
}
use zao_rental.Square.S2.Service.{
  s2_fail_evidence, mismatch, is_another, Class, s2_pass, unless_failed, Outcome, blank, Body,
  classify, Verdict, pass, look, stop, safe_id, observed, judge, by_status, record_observed, settle,
  weigh, keep_id, evaluate, create_call, lookup_call, after_lookup, look_at, after_verdict,
  after_create, run,
}
use zao_rental.Common.{
  ℕ, ◌≡◌, refl, ap, subst, ◌≢◌, ◌⊎◌, inl, inr, Bool, true, false, not, ◌||◌, Option, none, some,
  arith, String, str_eq, if◌then◌else◌, Bool-cases, Option-cases,
}
use zao_rental.Contracts.Flow.{
  PaymentStatus, completed, pending, failed, canceled, PaymentRequest, PaymentObservation,
  match_payment,
}

-- The payment is completed, with the amount in yen, the reference and the location of the request, and
-- what is observed of it matches the request and does not show the secret.
abbrev pub IsPaid : (PaymentObservation → Bool) → PaymentRequest → Option RawPayment → Type 0
IsPaid leaks r m =
    (p : RawPayment) × (b : PaymentObservation) × (m ≡ some p)
    × IsCompletedFor r p
    × (square_observation p r r.merchant_id ≡ some b)
    × (match_payment r b ≡ true)
    × (b.status ≡ completed)
    × (leaks b ≡ false)

by_status-pass :
    (o : Outcome) (lookup : Option String) (s : PaymentStatus)
    → (by_status o lookup s).0.classification ≡ s2_pass
    → s ≡ completed
by_status-pass o lookup completed h = refl
by_status-pass o lookup failed h = absurd (cc)
by_status-pass o lookup canceled h = absurd (cc)
by_status-pass o none pending h = absurd (cc)
by_status-pass o (some id) pending h = absurd (cc)
by_status-pass o none PaymentStatus.other h = absurd (cc)
by_status-pass o (some id) PaymentStatus.other h = absurd (cc)

guarded-pass :
    (b : Bool) (o : Outcome) (e : Outcome × Verdict)
    → (if b then (judge o s2_fail_evidence, stop) else e).0.classification ≡ s2_pass
    → (b ≡ false) × (e.0.classification ≡ s2_pass)
guarded-pass true o e h = absurd (cc)
guarded-pass false o e h = (refl, h)

observed-some :
    (p : RawPayment) (r : PaymentRequest) (b : PaymentObservation)
    → observed p r ≡ some b
    → (square_observation p r r.merchant_id ≡ some b) × (match_payment r b ≡ true)
observed-some p r b h = elim (Option-cases (square_observation p r r.merchant_id)) [
  | inl n ↦ absurd (ground (arith, h, n))
  | inr (c, e) ↦ elim (Bool-cases (match_payment r c)) [
    | inl yes_ ↦
        let same : c ≡ b = ground (arith, h, e, yes_) in
        (ground (arith, e, same), subst (λ x. match_payment r x ≡ true) same yes_)
    | inr n ↦ absurd (ground (arith, h, e, n))
  ]
]

gate-replied :
    (version create lookup stopped token : Bool) (t : Transport) (go : Transport × Sent Body)
    (status : ℕ) (b : Body)
    → (if not version || not (create || lookup)
        then (t, threw call_forbidden)
        else if stopped
        then (t, threw aborted)
        else if not token
        then (t, threw transport_failure)
        else go).1
      ≡ replied status (some b)
    → go.1 ≡ replied status (some b)
gate-replied version create lookup stopped token t go status b h = ground (arith, h)

module _ (hash : CreateBody → String) (r : PaymentRequest) where
  dispatch-replied :
      (t : Transport) (k : Call) (c : Bool) (f : Fetched Body) (status : ℕ) (b : Body)
      → (dispatch hash r t k c f).1 ≡ replied status (some b)
      → Answers f b
  dispatch-replied t k true thrown status b h = absurd (cc)
  dispatch-replied t k false thrown status b h = absurd (cc)
  dispatch-replied t k true (answered a) status b h =
      let (ok, v) = reply-replied a status b h in (a, refl, ok, v)
  dispatch-replied t k false (answered a) status b h =
      let (ok, v) = reply-replied a status b h in (a, refl, ok, v)

  send-replied :
      (t : Transport) (c : Call) (token : String) (f : Fetched Body) (status : ℕ) (b : Body)
      → (send hash r t c token f).1 ≡ replied status (some b)
      → Answers f b
  unfolding send
  send-replied t c token f status b h = dispatch-replied t c (is_create hash r t c) f status b (
      gate-replied (str_eq c.version square_version) (is_create hash r t c) (is_lookup hash r t c)
        c.is_aborted (is_token token) t (dispatch hash r t c (is_create hash r t c) f) status b h)

classify-fails : (status : ℕ) → classify status ≢ some s2_pass
unfolding classify
classify-fails status h = ground (arith, h)

class-split :
    (m : Option Class) (o : Outcome) (t : Transport) (go : Outcome × Transport)
    → m ≢ some s2_pass
    → (unless_failed o t m go).0.classification ≡ s2_pass
    → (m ≡ none) × (go.0.classification ≡ s2_pass)
class-split none o t go n h = (refl, h)
class-split (some c) o t go n h = absurd (n (ap some h))

module _ (leaks : PaymentObservation → Bool) (secret : String) (r : PaymentRequest) where
  settle-pass :
      (o : Outcome) (p : RawPayment) (id lookup : Option String) (m : Option PaymentObservation)
      → observed p r ≡ m
      → (settle leaks secret r o id lookup m).0.classification ≡ s2_pass
      → IsPaid leaks r (some p)
  settle-pass o p id lookup none e h = absurd (cc)
  settle-pass o p none lookup (some b) e h = absurd (cc)
  settle-pass o p (some id) lookup (some b) e h =
      let (hidden, go) =
        guarded-pass (leaks b) o (by_status (record_observed o b) lookup b.status) h in
      let (o1, o2) = observed-some p r b e in
      let done = by_status-pass (record_observed o b) lookup b.status go in
      (
        p,
        b,
        refl,
        square_observation-IsCompletedFor p r r.merchant_id b o1 o2 done,
        o1,
        o2,
        done,
        hidden,
      )

  weigh-pass :
      (o : Outcome) (p : RawPayment) (id lookup : Option String)
      → (weigh leaks secret r o p id lookup).0.classification ≡ s2_pass
      → IsPaid leaks r (some p)
  weigh-pass o p id lookup h =
      settle-pass o p id lookup (observed p r) refl
        (guarded-pass (is_another lookup id || mismatch p r) o
          (settle leaks secret r o id lookup (observed p r)) h).1

  evaluate-pass :
      (o : Outcome) (m : Option RawPayment) (lookup : Option String)
      → (evaluate leaks secret r o m lookup).0.classification ≡ s2_pass
      → IsPaid leaks r m
  unfolding evaluate
  evaluate-pass o none lookup h = absurd (cc)
  evaluate-pass o (some p) lookup h =
      weigh-pass (keep_id o (safe_id secret p.id)) p (safe_id secret p.id) lookup h

  -- What an answered call proves.
  abbrev pub IsPaidBy : Fetched Body → Type 0
  IsPaidBy f = (b : Body) × Answers f b × IsPaid leaks r b.payment

  module _ (hash : CreateBody → String) (token : String) where
    after_lookup-pass :
        (o : Outcome) (id : String) (t : Transport) (s : Sent Body) (f : Fetched Body)
        → ((status : ℕ) (b : Body) → s ≡ replied status (some b) → Answers f b)
        → (after_lookup leaks secret r hash token o id (t, s)).0.classification ≡ s2_pass
        → IsPaidBy f
    after_lookup-pass o id t (threw e) f a h = absurd (cc)
    after_lookup-pass o id t (replied status none) f a h =
        let (ok, go) = class-split (classify status) o t _ (classify-fails status) h in
        absurd (unfold evaluate in cc)
    after_lookup-pass o id t (replied status (some b)) f a h =
        let (ok, go) =
          class-split (classify status) o t ((evaluate leaks secret r o b.payment (some id)).0, t)
            (classify-fails status) h in
        (b, a status b refl, evaluate-pass o b.payment (some id) go)

    look_at-pass :
        (o : Outcome) (id : String) (m : Option Transport) (t : Transport) (f : Fetched Body)
        → (look_at leaks secret r hash token o id m t f).0.classification ≡ s2_pass
        → IsPaidBy f
    look_at-pass o id none t f h = absurd (cc)
    look_at-pass o id (some u) t f h =
        let x = send hash r u (lookup_call leaks secret r hash token id) token f in
        after_lookup-pass o id x.0 x.1 f
          (send-replied hash r u (lookup_call leaks secret r hash token id) token f) h

    after_verdict-pass :
        (e : Outcome × Verdict) (id : Option String) (t : Transport) (f : Fetched Body)
        → (after_verdict leaks secret r hash token e id t f).0.classification ≡ s2_pass
        → (e.0.classification ≡ s2_pass) ⊎ IsPaidBy f
    after_verdict-pass (o, look) (some id) t f h = inr (look_at-pass o id (allow_lookup t id) t f h)
    after_verdict-pass (o, look) none t f h = inl h
    after_verdict-pass (o, pass) id t f h = inl h
    after_verdict-pass (o, stop) id t f h = inl h

    after_create-pass :
        (t : Transport) (s : Sent Body) (first second : Fetched Body)
        → ((status : ℕ) (b : Body) → s ≡ replied status (some b) → Answers first b)
        → (after_create leaks secret r hash token (t, s) second).0.classification ≡ s2_pass
        → IsPaidBy first ⊎ IsPaidBy second
    after_create-pass t (threw e) first second a h = absurd (cc)
    after_create-pass t (replied status none) first second a h =
        let (ok, go) = class-split (classify status) blank t _ (classify-fails status) h in
        absurd (unfold evaluate in cc)
    after_create-pass t (replied status (some b)) first second a h =
        let e = evaluate leaks secret r blank b.payment none in
        let (ok, go) =
          class-split (classify status) blank t
            (after_verdict leaks secret r hash token e e.0.payment_id t second)
            (classify-fails status) h in
        elim (after_verdict-pass e e.0.payment_id t second go) [
          | inl p ↦ inl (b, a status b refl, evaluate-pass blank b.payment none p)
          | inr p ↦ inr p
        ]

    -- The trial passes only where one of its two calls was answered with a success whose payment is
    -- completed, of the amount of the request in yen, with its reference, its location and a well
    -- formed identifier; what is observed of it matches the request and does not show the secret.
    pub run-IsPaid :
        (t : Transport) (first second : Fetched Body)
        → (run leaks secret r hash token t first second).0.classification ≡ s2_pass
        → IsPaidBy first ⊎ IsPaidBy second
    unfolding run
    run-IsPaid t first second h =
        let c = create_call leaks secret r hash token in
        let x = send hash r t c token first in
        after_create-pass x.0 x.1 first second (send-replied hash r t c token first) h
