-- ===== src/Payment/Truth/Replay.antt =====
-- The same provider state delivered a second time changes nothing.
use zao_rental.Common.{
  ℕ, ◌≤◌, ◌≡◌, refl, ap, ◌∙◌, inl, inr, true, false, not, ◌&&◌, ◌||◌, Option, none, some, arith,
  String, str_eq, Option-cases,
}
use mathlib.Core.Path.{ap₂}
use zao_rental.Payment.Truth.{
  truth_of, decide_payment_truth, noop_duplicate, Hashes, is_state_failed, known_as, previous_time,
  Context, candidate_evidence, judge, latest_evidence, clean,
}
use zao_rental.Contracts.Time.{later, time_of, iso, time_of-iso}
use zao_rental.Payment.Truth.Safety.{candidate_sound, CandidateFacts}
use text.Mathlib.TextPositions.{eq_refl}
use zao_rental.Contracts.Flow.{
  is_completed, is_closed, PaymentRequest, match_payment, PaymentObservation, time_of?, present,
}

-- What cleaning keeps, and that the cleaned times parse to the times of the original.
clean_facts :
    (o c : PaymentObservation)
    → clean o ≡ some c
    → (t : ℕ) × (time_of o.updated_at ≡ some t)
      × (time_of c.updated_at ≡ some t)
      × (time_of? c.completed_at ≡ time_of? o.completed_at)
      × (present c.completed_at ≡ present o.completed_at)
      × (c.provider_id ≡ o.provider_id)
      × (c.status ≡ o.status)
      × (c.updated_at ≡ iso t)
unfolding clean
clean_facts o c h = elim (Option-cases (time_of o.updated_at)) [
  | inl e ↦ absurd (ground arith)
  | inr (t, e) ↦ (
    t,
    e,
    ground (arith, time_of-iso t),
    grind (arith, time_of-iso),
    ground arith,
    ground arith,
    ground arith,
    ground arith,
  )
]

clean-clean : (o c : PaymentObservation) → clean o ≡ some c → clean c ≡ some c
unfolding clean
clean-clean o c h = grind (arith, time_of-iso)

match_payment-clean :
    (r : PaymentRequest) (o c : PaymentObservation)
    → clean o ≡ some c
    → match_payment r o ≡ true
    → match_payment r c ≡ true
unfolding match_payment clean
match_payment-clean r o c h m = grind (arith, time_of-iso)

-- The row after an observation `o` was saved: the same request and payment, `o` as the last
-- observation with its time, and not failed where `o` completed the payment.
pub record IsSaved (before after : Context) (payment : String) (o : PaymentObservation)
    : Type 0 where
  pub expected : after.expected ≡ before.expected
  pub latest : after.latest ≡ some o
  pub known : known_as after.current.provider_id payment ≡ true
  pub updated : after.current.provider_updated_at ≡ some o.updated_at
  pub consistent :
      ((is_state_failed after.current.state || is_closed after.current.provider_state)
        && is_completed o.status)
      ≡ false

later_mono :
    (x : Option ℕ) (n n' : ℕ) → later x (some n) ≡ false → n ≤ n' → later x (some n') ≡ false
later_mono none n n' h le = refl
later_mono (some t) n n' h le = ground arith

module _ (before after : Context) (payment : String) (input o : PaymentObservation) (n n' : ℕ)
    (f : CandidateFacts before payment input o (some n)) (same : after.expected ≡ before.expected)
    (le : n ≤ n') where
  candidate_again :
      known_as after.current.provider_id payment ≡ true
      → candidate_evidence after payment input (some n') ≡ some o
  unfolding candidate_evidence
  candidate_again known =
      rw
        (
          same,
          f.matched,
          f.currency,
          f.positive,
          f.provider,
          known,
          f.settled,
          later_mono _ n n' f.past le,
          f.ordered,
        )
        f.cleaned

  latest_again : latest_evidence after payment (some n') (some o) ≡ some (some o)
  unfolding latest_evidence
  latest_again =
      let (t, read, read', completed, there, name, status, stamp) = clean_facts input o f.cleaned in
      let past = later_mono (some t) n n' (rw read at f.past) le in
      let id : str_eq o.provider_id payment ≡ true = ap (λ p. str_eq p payment) name ∙ f.provider in
      let settled : (is_completed o.status || not (present o.completed_at)) ≡ true =
        ap₂ (λ s c. is_completed s || not c) status there ∙ f.settled in
      rw (
        same,
        match_payment-clean before.expected input o f.cleaned f.matched,
        id,
        read',
        past,
        settled,
        clean-clean input o f.cleaned,
      )

judge_again :
    (h : Hashes) (before after : Context) (payment : String) (input o : PaymentObservation) (t : ℕ)
    → IsSaved before after payment o
    → time_of o.updated_at ≡ some t
    → judge h after o (some o) ≡ (noop_duplicate, some o)
unfolding judge previous_time
judge_again h before after payment input o t saved read =
    ground (arith, saved.updated, saved.consistent, eq_refl (h.of_observation o))

-- The observation behind a decision that kept one.
truth_of-candidate :
    (h : Hashes) (context : Context) (payment : String) (input o : PaymentObservation)
    (now : Option ℕ)
    → (decide_payment_truth h context payment input now).observation ≡ some o
    → candidate_evidence context payment input now ≡ some o
unfolding decide_payment_truth truth_of judge
truth_of-candidate h context payment input o now e = ground arith

-- Once a decision's observation has been saved, a second delivery of the same provider state, now
-- or at any later time, is recognised as a duplicate and decides nothing new.
pub decide_payment_truth-replay :
    (h : Hashes) (before after : Context) (payment : String) (input o : PaymentObservation)
    (n n' : ℕ)
    → (decide_payment_truth h before payment input (some n)).observation ≡ some o
    → IsSaved before after payment o
    → n ≤ n'
    → ((decide_payment_truth h after payment input (some n')).decision ≡ noop_duplicate)
      × ((decide_payment_truth h after payment input (some n')).observation ≡ some o)
unfolding decide_payment_truth truth_of
decide_payment_truth-replay h before after payment input o n n' kept saved le =
    let f =
      candidate_sound before payment input o (some n)
        (truth_of-candidate h before payment input o (some n) kept) in
    let (t, _, read, _, _, _, _, _) = clean_facts input o f.cleaned in
    ground (
      arith,
      saved.latest,
      candidate_again before after payment input o n n' f saved.expected le saved.known,
      latest_again before after payment input o n n' f saved.expected le,
      judge_again h before after payment input o t saved read,
    )
