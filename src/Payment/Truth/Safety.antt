-- ===== src/Payment/Truth/Safety.antt =====
-- What an accepted observation guarantees, and what a terminal payment refuses.
use zao_rental.Contracts.Time.{is_finite, later, time_of}
use zao_rental.Common.{
  ℕ, zero, suc, ◌+◌, ◌-◌, ◌*◌, ◌^◌, ◌≤◌, min, ◌≡◌, refl, sym, ap, subst, ◌∙◌, inl, inr,
  Option-cases, Bool, true, false, not, ◌&&◌, ◌||◌, if◌then◌else◌, Option, none, some, arith,
  String, str_eq, leb,
}
use zao_rental.Payment.Truth.{
  ceil_div, latest_evidence, truth_of, decide_payment_truth, judge_evidence, retry_delay_seconds,
  Context, Hashes, TruthDecision, accept_pending, accept_completed, accept_failed, accept_canceled,
  Current, clean, candidate_evidence, previous_time, is_nan, is_before, same_hash, after_terminal,
  blocked_evidence_mismatch, noop_stale, blocked_invalid_transition, noop_duplicate,
  is_state_completed, is_state_failed, terminal_of, judge,
}
use zao_rental.Contracts.Flow.{
  PaymentObservation, match_payment, is_closed, is_completed, time_of?, present, is_pending,
  PaymentStatus,
}

abbrev pub is_accept : TruthDecision → Bool
is_accept accept_pending = true
is_accept accept_completed = true
is_accept accept_failed = true
is_accept accept_canceled = true
is_accept _ = false

-- The observation that was saved last, if there is one, is pending.
abbrev pub IsOpen : Option PaymentObservation → Type 0
IsOpen none = Unit {0}
IsOpen (some l) = l.status ≡ PaymentStatus.pending

-- What holds of a candidate that is accepted.
pub record IsAccepted (context : Context) (payment : String) (input : PaymentObservation)
    (now : Option ℕ) : Type 0 where
  pub matched : match_payment context.expected input ≡ true
  pub provider : str_eq input.provider_id payment ≡ true
  pub settled : (is_completed input.status || not (present input.completed_at)) ≡ true
  pub past : later (time_of input.updated_at) now ≡ false
  pub ordered : later (time_of? input.completed_at) (time_of input.updated_at) ≡ false
  pub row_open : is_state_completed context.current.state ≡ false
  pub not_failed :
      (is_state_failed context.current.state || is_closed context.current.provider_state) ≡ false
  pub latest_pending : IsOpen context.latest

-- Every test that the candidate passed.
pub record CandidateFacts (context : Context) (payment : String) (input o : PaymentObservation)
    (now : Option ℕ) : Type 0 where
  pub matched : match_payment context.expected input ≡ true
  pub currency : str_eq context.expected.currency "JPY" ≡ true
  pub positive : leb 1 context.expected.amount_jpy ≡ true
  pub clock : is_finite now ≡ true
  pub provider : str_eq input.provider_id payment ≡ true
  pub settled : (is_completed input.status || not (present input.completed_at)) ≡ true
  pub past : later (time_of input.updated_at) now ≡ false
  pub ordered : later (time_of? input.completed_at) (time_of input.updated_at) ≡ false
  pub cleaned : clean input ≡ some o

pub candidate_sound :
    (context : Context) (payment : String) (input o : PaymentObservation) (now : Option ℕ)
    → candidate_evidence context payment input now ≡ some o
    → CandidateFacts context payment input o now
unfolding candidate_evidence
candidate_sound context payment input o now h = ground arith

judge_open :
    (h : Hashes) (context : Context) (o : PaymentObservation) (l : Option PaymentObservation)
    → is_accept (judge h context o l).0 ≡ true
    → (is_state_completed context.current.state ≡ false)
      × ((is_state_failed context.current.state || is_closed context.current.provider_state)
          ≡ false)
unfolding judge terminal_of
judge_open h context o l a = ground arith

is_pending-pending : (s : PaymentStatus) → is_pending s ≡ true → s ≡ PaymentStatus.pending
is_pending-pending PaymentStatus.pending e = refl
is_pending-pending PaymentStatus.completed e = absurd (cc)
is_pending-pending PaymentStatus.failed e = absurd (cc)
is_pending-pending PaymentStatus.canceled e = absurd (cc)
is_pending-pending PaymentStatus.other e = absurd (cc)

-- The earlier tests of `judge` accept nothing by themselves.
gates-accept :
    (nan before invalid same : Bool) (o : PaymentObservation) (x : TruthDecision)
    → let r : TruthDecision × Option PaymentObservation =
        if nan
        then (blocked_evidence_mismatch, none)
        else if before
        then (noop_stale, some o)
        else if invalid
        then (blocked_invalid_transition, some o)
        else if same
        then (noop_duplicate, some o)
        else (x, some o) in
      is_accept r.0 ≡ true → is_accept x ≡ true
gates-accept false false false false o x h = h
gates-accept true b c d o x h = absurd (cc)
gates-accept false true c d o x h = absurd (cc)
gates-accept false false true d o x h = absurd (cc)
gates-accept false false false true o x h = absurd (cc)

after_terminal-none :
    (s : PaymentStatus) (m : Option PaymentStatus)
    → is_accept (after_terminal s m) ≡ true
    → m ≡ none
after_terminal-none s none h = refl
after_terminal-none s (some t) h = absurd (ground (arith, h))

terminal_of-pending :
    (c : Current) (l : PaymentObservation)
    → terminal_of c (some l) ≡ none
    → is_pending l.status ≡ true
unfolding terminal_of
terminal_of-pending c l h = elim (Option-cases c.provider_state) [
  | inl n ↦ ground (arith, h, n)
  | inr (s, e) ↦ ground (arith, h, e)
]

judge_pending :
    (h : Hashes) (context : Context) (o l : PaymentObservation)
    → is_accept (judge h context o (some l)).0 ≡ true
    → is_pending l.status ≡ true
unfolding judge
judge_pending h context o l a =
    let previous = previous_time context (some l) in
    let x = after_terminal o.status (terminal_of context.current (some l)) in
    let ok =
      gates-accept (is_nan previous) (is_before (time_of o.updated_at) previous)
        ((is_state_failed context.current.state || is_closed context.current.provider_state)
          && is_completed o.status)
        (same_hash h o (some l)) o x a in
    terminal_of-pending context.current l
      (after_terminal-none o.status (terminal_of context.current (some l)) ok)

clean-status : (o l : PaymentObservation) → clean o ≡ some l → l.status ≡ o.status
unfolding clean
clean-status o l e = ground arith

-- What was saved last is cleaned before it is judged; its status stays.
latest_evidence-status :
    (context : Context) (payment : String) (now : Option ℕ) (o : PaymentObservation)
    (m : Option PaymentObservation)
    → latest_evidence context payment now (some o) ≡ some m
    → (l : PaymentObservation) × (m ≡ some l) × (l.status ≡ o.status)
unfolding latest_evidence
latest_evidence-status context payment now o m e = elim (Option-cases (clean o)) [
  | inl n ↦ absurd (ground (arith, e, n))
  | inr (l, q) ↦ (l, ground (arith, e, q), clean-status o l q)
]

latest-pending :
    (h : Hashes) (context : Context) (payment : String) (now : Option ℕ) (o l : PaymentObservation)
    (m : Option PaymentObservation)
    → latest_evidence context payment now context.latest ≡ some m
    → is_accept (judge h context o m).0 ≡ true
    → context.latest ≡ some l
    → l.status ≡ PaymentStatus.pending
latest-pending h context payment now o l m e a k =
    let (c, same, status) =
      latest_evidence-status context payment now l m
        (ap (latest_evidence context payment now) (sym k) ∙ e) in
    let p =
      judge_pending h context o c (subst (λ z. is_accept (judge h context o z).0 ≡ true) same a) in
    sym status ∙ is_pending-pending c.status p

latest-IsOpen :
    (h : Hashes) (context : Context) (payment : String) (now : Option ℕ) (o : PaymentObservation)
    (x : Option PaymentObservation) (m : Option PaymentObservation)
    → context.latest ≡ x
    → latest_evidence context payment now context.latest ≡ some m
    → is_accept (judge h context o m).0 ≡ true
    → IsOpen x
latest-IsOpen h context payment now o none m k e a = tt
latest-IsOpen h context payment now o (some l) m k e a =
    latest-pending h context payment now o l m e a k

module _ (h : Hashes) (context : Context) (payment : String) (input : PaymentObservation)
    (now : Option ℕ) where
  evidence_IsAccepted :
      (c : Option PaymentObservation) (l : Option (Option PaymentObservation))
      → candidate_evidence context payment input now ≡ c
      → latest_evidence context payment now context.latest ≡ l
      → is_accept (judge_evidence h context c l).0 ≡ true
      → IsAccepted context payment input now
  evidence_IsAccepted none l e k a = absurd (cc)
  evidence_IsAccepted (some o) none e k a = absurd (cc)
  evidence_IsAccepted (some o) (some l) e k a =
      let f = candidate_sound context payment input o now e in
      let (row, failed) = judge_open h context o l a in
      record {
        matched = f.matched;
        provider = f.provider;
        settled = f.settled;
        past = f.past;
        ordered = f.ordered;
        row_open = row;
        not_failed = failed;
        latest_pending = latest-IsOpen h context payment now o context.latest l refl k a;
      }

  -- An observation is accepted only if it matches the request that was made, carries the id of the
  -- payment looked up, lies in the past and in order, and only while the payment has reached no
  -- terminal state: neither in its row, completed, failed or canceled, nor by the observation that was
  -- saved last, which has to be pending.
  pub decide_payment_truth-IsAccepted :
      is_accept (decide_payment_truth h context payment input now).decision ≡ true
      → IsAccepted context payment input now
  unfolding decide_payment_truth truth_of
  decide_payment_truth-IsAccepted a =
      evidence_IsAccepted (candidate_evidence context payment input now)
        (latest_evidence context payment now context.latest) refl refl a

ceil_div-lower : (a b m : ℕ) → 1 ≤ b → m * b ≤ a → m ≤ ceil_div a b
unfolding ceil_div
ceil_div-lower a b m h k = grind arith

ceil_div-upper : (a b m : ℕ) → 1 ≤ b → a ≤ m * b → ceil_div a b ≤ m
unfolding ceil_div
ceil_div-upper a b m h k = grind arith

wait_bounds :
    (p j d : ℕ)
    → 1 ≤ d
    → j ≤ d
    → p ≤ 16
    → (5 * p ≤ min 300 (ceil_div (10 * p * (d + 2 * j)) (2 * d)))
      × (min 300 (ceil_div (10 * p * (d + 2 * j)) (2 * d)) ≤ 15 * p)
wait_bounds p j d pos le small =
    let pj : p * j ≤ p * d = grind arith in
    let low = ceil_div-lower (10 * p * (d + 2 * j)) (2 * d) (5 * p) (omega arith) (omega arith) in
    let high = ceil_div-upper (10 * p * (d + 2 * j)) (2 * d) (15 * p) (omega arith) (omega arith) in
    (omega arith, omega arith)

power-le : (n : ℕ) → n ≤ 4 → 2 ^ n ≤ 16
power-le zero h = omega arith
power-le (suc zero) h = omega arith
power-le (suc (suc zero)) h = omega arith
power-le (suc (suc (suc zero))) h = omega arith
power-le (suc (suc (suc (suc zero)))) h = omega arith
power-le (suc (suc (suc (suc (suc n))))) h = absurd (omega arith)

-- A retry within the budget of five attempts waits for half to one and a half times the base delay
-- of ten seconds, which doubles with each attempt.
pub retry_delay_seconds-bounds :
    (attempt j d delay : ℕ)
    → retry_delay_seconds attempt j d ≡ some delay
    → (1 ≤ attempt)
      × (attempt ≤ 5)
      × (5 * 2 ^ (attempt - 1) ≤ delay)
      × (delay ≤ 15 * 2 ^ (attempt - 1))
unfolding retry_delay_seconds
retry_delay_seconds-bounds attempt j d delay e =
    ground (arith, wait_bounds (2 ^ (attempt - 1)) j d, power-le (attempt - 1))
