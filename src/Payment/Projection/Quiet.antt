-- ===== src/Payment/Projection/Quiet.antt =====
-- When a projection changes nothing, and when it does confirm.
use zao_rental.Common.{ℕ, ◌≡◌, refl, ◌⊎◌, inl, inr, true, Option, none, some, arith, Option-cases}
use zao_rental.Contracts.Time.{time_of, later}
use zao_rental.Contracts.Flow.{PaymentObservation}
use zao_rental.Payment.Projection.Input.{State, Hold, Hashes, identity, AttemptState}
use zao_rental.Payment.Projection.Decide.{
  Outcome, Prior, refused, conflict, found, finish, needs_operator, prior, against_previous,
  cancelled_outcome, completed_outcome, lost_outcome, known_outcome, fresh_outcome, prior_outcome,
  decide_payment_projection, hold_outcome, open_outcome, noop_stale, nothing, review_completed,
  is_attempt_completed,
}

module _ (h : Hashes) (s : State) (now : Option ℕ) where
  -- An observation older than the last one known changes nothing, whatever it says.
  pub decide_payment_projection-stale :
      (o accepted p : PaymentObservation)
      → identity s o now ≡ some accepted
      → prior h s accepted now ≡ found (some p)
      → later (time_of p.updated_at) (time_of accepted.updated_at) ≡ true
      → decide_payment_projection h s o now ≡ finish accepted noop_stale nothing
  unfolding decide_payment_projection against_previous
  decide_payment_projection-stale o accepted p i e older = ground (arith, i, e, older)

  -- An observation with the time of the last one known changes nothing either: it is a duplicate,
  -- a conflict, or is left to an operator.
  pub decide_payment_projection-repeat :
      (o accepted p : PaymentObservation) (t : ℕ)
      → identity s o now ≡ some accepted
      → prior h s accepted now ≡ found (some p)
      → time_of p.updated_at ≡ some t
      → time_of accepted.updated_at ≡ some t
      → (decide_payment_projection h s o now).mutation ≡ nothing
  unfolding decide_payment_projection against_previous
  decide_payment_projection-repeat o accepted p t i e a b = ground (arith, i, e)

  lost_closed :
      (o : PaymentObservation)
      → is_attempt_completed h s.attempt.state ≡ true
      → (lost_outcome h s o now).mutation ≡ nothing
  unfolding lost_outcome
  lost_closed o e = ground arith

  fresh_closed :
      (o : PaymentObservation)
      → is_attempt_completed h s.attempt.state ≡ true
      → (fresh_outcome h s o now).mutation ≡ nothing
  unfolding fresh_outcome cancelled_outcome known_outcome
  fresh_closed o e = ground (arith, lost_closed o e)

  against_quiet :
      (o : PaymentObservation) (p : Option PaymentObservation) (r : Outcome)
      → against_previous h s o p ≡ some r
      → r.mutation ≡ nothing
  unfolding against_previous
  against_quiet o p r e = ground arith

  prior_closed :
      (o : PaymentObservation) (p : Prior)
      → is_attempt_completed h s.attempt.state ≡ true
      → (prior_outcome h s o now p).mutation ≡ nothing
  prior_closed o refused e = refl
  prior_closed o conflict e = refl
  prior_closed o (found p) e = elim (Option-cases (against_previous h s o p)) [
    | inl fresh ↦ ground (arith, fresh, fresh_closed o e)
    | inr (r, c) ↦ ground (arith, c, against_quiet o p r c)
  ]

  -- Once the attempt is completed no observation changes anything, on any booking.
  pub decide_payment_projection-closed :
      (o : PaymentObservation)
      → s.attempt.state ≡ AttemptState.completed
      → (decide_payment_projection h s o now).mutation ≡ nothing
  unfolding decide_payment_projection
  decide_payment_projection-closed o e = elim (Option-cases (identity s o now)) [
    | inl refused_input ↦ ground (arith, refused_input)
    | inr (accepted, i) ↦
        ground (arith, i, prior_closed accepted (prior h s accepted now) (ground (arith, e)))
  ]

abbrev pub Restrains : Outcome → Type 0
Restrains r =
    needs_operator r.decision ≡ true → (r.mutation ≡ nothing) ⊎ (r.mutation ≡ review_completed)

module _ (h : Hashes) (s : State) (now : Option ℕ) (o : PaymentObservation) where
  completed_Restrains : (d : Hold) → Restrains (completed_outcome h s o now d)
  unfolding completed_outcome
  completed_Restrains d n = ground arith

  hold_Restrains : (d : Hold) → Restrains (hold_outcome h s o now d)
  unfolding hold_outcome
  hold_Restrains d n = ground (arith, completed_Restrains d)

  open_Restrains : (x : Option Hold) → Restrains (open_outcome h s o now x)
  unfolding open_outcome
  open_Restrains none n = ground arith
  open_Restrains (some d) n = ground (arith, hold_Restrains d)

  known_Restrains : Restrains (known_outcome h s o now)
  unfolding known_outcome
  known_Restrains n = ground (arith, open_Restrains s.hold)

  lost_Restrains : Restrains (lost_outcome h s o now)
  unfolding lost_outcome
  lost_Restrains n = ground arith

  cancelled_Restrains : (r : Outcome) → cancelled_outcome h s o ≡ some r → Restrains r
  unfolding cancelled_outcome
  cancelled_Restrains r e n = ground arith

  fresh_Restrains : Restrains (fresh_outcome h s o now)
  unfolding fresh_outcome
  fresh_Restrains n = elim (Option-cases (cancelled_outcome h s o)) [
    | inl c ↦ ground (arith, c, known_Restrains, lost_Restrains)
    | inr (r, c) ↦ ground (arith, c, cancelled_Restrains r c)
  ]

  prior_Restrains : (p : Prior) → Restrains (prior_outcome h s o now p)
  prior_Restrains refused n = inl refl
  prior_Restrains conflict n = inl refl
  prior_Restrains (found p) n = elim (Option-cases (against_previous h s o p)) [
    | inl fresh ↦ ground (arith, fresh, fresh_Restrains)
    | inr (r, c) ↦ inl (ground (arith, c, against_quiet h s now o p r c))
  ]

-- A payment of which the operator has to be told never confirms, fails or cancels anything: at most
-- it is put under review.
pub needs_operator-mutation :
    (h : Hashes) (s : State) (o : PaymentObservation) (now : Option ℕ)
    → needs_operator (decide_payment_projection h s o now).decision ≡ true
    → ((decide_payment_projection h s o now).mutation ≡ nothing)
      ⊎ ((decide_payment_projection h s o now).mutation ≡ review_completed)
unfolding decide_payment_projection
needs_operator-mutation h s o now e = elim (Option-cases (identity s o now)) [
  | inl refused_input ↦ inl (ground (arith, refused_input))
  | inr (accepted, i) ↦ ground (arith, i, prior_Restrains h s now accepted (prior h s accepted now))
]
