-- ===== src/Payment/Projection/Safety.antt =====
-- When a projection confirms a booking, and when it changes nothing.
use zao_rental.Payment.Projection.Decide.{
  conflict, refused, found, prior, prior_outcome, Prior, decide_payment_projection, fresh_outcome,
  hold_outcome, open_outcome, nothing, Outcome, against_previous, cancelled_outcome, known_outcome,
  lost_outcome, completed_outcome, completed, is_live, owns, is_attempt_open, is_awaiting,
  transfer_late,
}
use zao_rental.Payment.Projection.Input.{identity, State, Hold, Hashes, reached, price_intact}
use zao_rental.Common.{
  ℕ, ◌≡◌, refl, subst, ◌≢◌, inl, inr, true, false, Option, none, some, arith, Option-cases,
}
use zao_rental.Contracts.Time.{time_of}
use zao_rental.Contracts.Flow.{PaymentObservation, is_completed, present}

module _ (h : Hashes) (s : State) (now : Option ℕ) where
  -- The facts under which a completed payment confirms its booking.
  pub record IsConfirmable (o : PaymentObservation) (d : Hold) : Type 0 where
    pub held : s.hold ≡ some d
    pub paid : is_completed o.status ≡ true
    pub open_attempt : is_attempt_open h s.attempt.state ≡ true
    pub awaiting : is_awaiting h s.booking.state ≡ true
    pub unconfirmed : present s.booking.confirmed_at ≡ false
    pub owned : owns h s.booking d ≡ true
    pub live : is_live h d ≡ true
    pub price : price_intact h s o ≡ true
    pub unexpired : reached (time_of d.expires_at) now ≡ false
    pub undue : reached (time_of d.due_at) now ≡ false
    pub unattended : d.transfer_attention ≡ false
    pub permitted : s.forbidden_transfer ≡ false
    pub ready : transfer_late h s.unready_transfer_at now ≡ false
    pub gear : s.gear_claims_intact ≡ true
    pub wear : s.wear_claims_intact ≡ true

  completed_only :
      (o : PaymentObservation) (d : Hold)
      → (completed_outcome h s o now d).mutation ≡ completed
      → (reached (time_of d.expires_at) now ≡ false)
        × (reached (time_of d.due_at) now ≡ false)
        × (d.transfer_attention ≡ false)
        × (s.forbidden_transfer ≡ false)
        × (transfer_late h s.unready_transfer_at now ≡ false)
        × (s.gear_claims_intact ≡ true)
        × (s.wear_claims_intact ≡ true)
  unfolding completed_outcome
  completed_only o d e = ground arith

  hold_sound :
      (o : PaymentObservation) (d : Hold)
      → (hold_outcome h s o now d).mutation ≡ completed
      → (is_completed o.status ≡ true)
        × (price_intact h s o ≡ true)
        × (is_live h d ≡ true)
        × ((completed_outcome h s o now d).mutation ≡ completed)
  unfolding hold_outcome
  hold_sound o d e = ground arith

  open_sound :
      (o : PaymentObservation) (d : Hold)
      → (open_outcome h s o now (some d)).mutation ≡ completed
      → (is_attempt_open h s.attempt.state ≡ true)
        × (is_awaiting h s.booking.state ≡ true)
        × (owns h s.booking d ≡ true)
        × ((hold_outcome h s o now d).mutation ≡ completed)
  unfolding open_outcome
  open_sound o d e = ground arith

  known_sound :
      (o : PaymentObservation)
      → (known_outcome h s o now).mutation ≡ completed
      → (present s.booking.confirmed_at ≡ false)
        × ((open_outcome h s o now s.hold).mutation ≡ completed)
  unfolding known_outcome
  known_sound o e = ground arith

  open_held :
      (o : PaymentObservation) (x : Option Hold)
      → (open_outcome h s o now x).mutation ≡ completed
      → (d : Hold) × (x ≡ some d)
  unfolding open_outcome
  open_held o none e = absurd (cc)
  open_held o (some d) e = (d, refl)

  known_IsConfirmable :
      (o : PaymentObservation)
      → (known_outcome h s o now).mutation ≡ completed
      → (d : Hold) × IsConfirmable o d
  known_IsConfirmable o e =
      let (unconfirmed, opened) = known_sound o e in
      let (d, held) = open_held o s.hold opened in
      let (attempt, awaiting, owned, reached_hold) =
        open_sound o d (subst (λ x. (open_outcome h s o now x).mutation ≡ completed) held opened) in
      let (paid, price, live, last) = hold_sound o d reached_hold in
      let (unexpired, undue, unattended, permitted, ready, gear, wear) = completed_only o d last in
      (
        d,
        record {
          held = held;
          paid = paid;
          open_attempt = attempt;
          awaiting = awaiting;
          unconfirmed = unconfirmed;
          owned = owned;
          live = live;
          price = price;
          unexpired = unexpired;
          undue = undue;
          unattended = unattended;
          permitted = permitted;
          ready = ready;
          gear = gear;
          wear = wear;
        },
      )

  lost_never : (o : PaymentObservation) → (lost_outcome h s o now).mutation ≢ completed
  unfolding lost_outcome
  lost_never o = ground arith

  cancelled_never :
      (o : PaymentObservation) (r : Outcome)
      → cancelled_outcome h s o ≡ some r
      → r.mutation ≢ completed
  unfolding cancelled_outcome
  cancelled_never o r e = ground arith

  against_nothing :
      (o : PaymentObservation) (p : Option PaymentObservation) (r : Outcome)
      → against_previous h s o p ≡ some r
      → r.mutation ≡ nothing
  unfolding against_previous
  against_nothing o p r e = ground arith

  -- Past the comparison with earlier observations, only a known attempt on a booking that is not
  -- cancelled can confirm.
  fresh_known :
      (o : PaymentObservation)
      → (fresh_outcome h s o now).mutation ≡ completed
      → (known_outcome h s o now).mutation ≡ completed
  unfolding fresh_outcome
  fresh_known o e = elim (Option-cases (cancelled_outcome h s o)) [
    | inl none_yet ↦ ground (arith, none_yet, lost_never o)
    | inr (r, c) ↦ absurd (cancelled_never o r c (ground (arith, c)))
  ]

  later_known :
      (o : PaymentObservation) (p : Prior)
      → (prior_outcome h s o now p).mutation ≡ completed
      → (known_outcome h s o now).mutation ≡ completed
  later_known o refused e = absurd (cc)
  later_known o conflict e = absurd (cc)
  later_known o (found p) e = elim (Option-cases (against_previous h s o p)) [
    | inl fresh ↦ fresh_known o (ground (arith, fresh))
    | inr (r, c) ↦ absurd (ground (arith, c, against_nothing o p r c))
  ]

-- A projection confirms a booking only for a completed payment whose identity was checked, on an
-- attempt that is still open and a booking that still awaits payment and is unconfirmed, while its
-- own hold is live and neither expired nor due, with the price intact, no transfer in the way and
-- every claim on stock in place.
pub decide_payment_projection-IsConfirmable :
    (h : Hashes) (s : State) (o : PaymentObservation) (now : Option ℕ)
    → (decide_payment_projection h s o now).mutation ≡ completed
    → (accepted : PaymentObservation) × (identity s o now ≡ some accepted)
      × ((d : Hold) × IsConfirmable h s now accepted d)
unfolding decide_payment_projection
decide_payment_projection-IsConfirmable h s o now e = elim (Option-cases (identity s o now)) [
  | inl refused_input ↦ absurd (ground (arith, refused_input))
  | inr (accepted, i) ↦ (
    accepted,
    i,
    known_IsConfirmable h s now accepted
        (later_known h s now accepted (prior h s accepted now) (ground (arith, i))),
  )
]
