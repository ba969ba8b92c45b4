-- ===== src/Square/S3/Evidence.antt =====
-- What the two bodies that S3 accepts show, field by field.
use zao_rental.Common.{
  ℕ, ◌≡◌, refl, sym, ap, subst, ◌∙◌, inl, inr, Bool, true, ◌&&◌, Option, none, some, arith, String,
  ==_iff, Bool-cases, Option-cases,
}
use text.Mathlib.TextEquality.{eq_iff}
use zao_rental.Contracts.Flow.{PaymentObservation}
use zao_rental.Square.{Field, absent, other, given, value_of, Money, RawPayment}
use zao_rental.Square.Observation.{IsYen, value_of-given}
use zao_rental.Square.S2.{trial_amount}
use zao_rental.Square.S3.{
  payment_id, RawRefund, Body, is_text, is_number, has_money, may_hold, may_be_empty, is_refundable,
  RefundStatus, pending, completed, rejected, failed, refund_status_of, Refund, is_safe_id,
  no_errors, refund_of, s3_payment_evidence, s3_refund_evidence, payment_of,
}

is_text-given : (f : Field String) (s : String) → is_text f s ≡ true → f ≡ given s
is_text-given absent s h = absurd (cc)
is_text-given other s h = absurd (cc)
is_text-given (given t) s h = ap given ((eq_iff t s).0 h)

is_number-given : (f : Field ℕ) (n : ℕ) → is_number f n ≡ true → f ≡ given n
is_number-given absent n h = absurd (cc)
is_number-given other n h = absurd (cc)
is_number-given (given m) n h = ap given ((==_iff m n).0 h)

has_money-IsYen : (o : Option Money) (n : ℕ) → has_money o n ≡ true → IsYen o n
has_money-IsYen none n h = absurd (cc)
has_money-IsYen (some m) n h = (
  m,
  refl,
  is_number-given m.amount n (ground (arith, h)),
  is_text-given m.currency "JPY" (ground (arith, h)),
)

abbrev pub text_of : RefundStatus → String
text_of pending = "PENDING"
text_of completed = "COMPLETED"
text_of rejected = "REJECTED"
text_of failed = "FAILED"

refund_status_of-text :
    (s : String) (r : RefundStatus) → refund_status_of s ≡ some r → s ≡ text_of r
refund_status_of-text s pending h = (eq_iff s "PENDING").0 (ground (arith, h))
refund_status_of-text s completed h = (eq_iff s "COMPLETED").0 (ground (arith, h))
refund_status_of-text s rejected h = (eq_iff s "REJECTED").0 (ground (arith, h))
refund_status_of-text s failed h = (eq_iff s "FAILED").0 (ground (arith, h))

-- The refund in the body is of the payment of the trial and of its whole amount, at the location.
abbrev pub IsShown : String → Body → RawRefund → String → String → Type 0
IsShown location b x id status =
    (b.refund ≡ some x)
    × (x.id ≡ given id)
    × (x.paid ≡ given payment_id)
    × (x.location_id ≡ given location)
    × IsYen x.amount_money trial_amount
    × (x.status ≡ status)

-- The payment of the trial, completed, of the whole amount, and nothing of it refunded.
abbrev pub IsUnrefunded : String → RawPayment → Type 0
IsUnrefunded location p =
    (p.id ≡ given payment_id)
    × (p.status ≡ "COMPLETED")
    × IsYen p.amount_money trial_amount
    × ((m : Money) → p.refunded_money ≡ given m → m.amount ≡ given 0)
    × ((n : ℕ) → p.refund_ids ≡ given n → n ≡ 0)

module _ (leaks : PaymentObservation → String → Bool) (location secret : String) where
  abbrev passes : Body → RawRefund → Option String → String → Bool
  passes b x expected id =
      no_errors b
      && is_safe_id leaks location secret id expected
      && is_text x.paid payment_id
      && is_text x.location_id location
      && has_money x.amount_money trial_amount

  Parts : RawRefund → Option String → Refund → Type 0
  Parts x expected r =
      (x.id ≡ given r.id)
      × ((is_safe_id leaks location secret r.id expected ≡ true)
          × ((is_text x.paid payment_id ≡ true)
              × ((is_text x.location_id location ≡ true)
                  × ((has_money x.amount_money trial_amount ≡ true)
                      × (refund_status_of x.status ≡ some r.status)))))

  and_parts :
      (a b c d e : Bool)
      → (a && b && c && d && e) ≡ true
      → (b ≡ true) × (c ≡ true) × (d ≡ true) × (e ≡ true)
  and_parts a b c d e h =
      (ground (arith, h), ground (arith, h), ground (arith, h), ground (arith, h))

  refund_of_lem :
      (b : Body) (x : RawRefund) (expected : Option String) (r : Refund)
      → refund_of leaks location secret b (some x) expected ≡ some r
      → Parts x expected r
  unfolding Parts
  refund_of_lem b x expected r h = elim (Option-cases (value_of x.id)) [
    | inl n ↦ absurd (ground (arith, h, n))
    | inr (i, ei) ↦ elim (Bool-cases (passes b x expected i)) [
      | inr n ↦ absurd (ground (arith, h, ei, n))
      | inl y ↦ elim (Option-cases (refund_status_of x.status)) [
        | inl n ↦ absurd (ground (arith, h, ei, y, n))
        | inr (s, es) ↦
            let same : record { id = i; status = s } ≡ r = ground (arith, h, ei, y, es) in
            let (safe, paid, place, money) =
              and_parts (no_errors b) (is_safe_id leaks location secret i expected)
                (is_text x.paid payment_id) (is_text x.location_id location)
                (has_money x.amount_money trial_amount) y in
            subst (Parts x expected) same
              (value_of-given x.id i ei, (safe, (paid, (place, (money, es)))))
      ]
    ]
  ]

  pub s3_refund_evidence-IsShown :
      (b : Body) (expected : Option String) (r : Refund)
      → s3_refund_evidence leaks location secret (some b) expected ≡ some r
      → (x : RawRefund) × IsShown location b x r.id (text_of r.status)
  unfolding s3_refund_evidence Parts
  s3_refund_evidence-IsShown b expected r h = elim (Option-cases b.refund) [
    | inl n ↦ absurd (ground (arith, h, n))
    | inr (x, e) ↦
        let h' : refund_of leaks location secret b (some x) expected ≡ some r =
          ap (λ m. refund_of leaks location secret b m expected) (sym e) ∙ h in
        let (i, (safe, (paid, (place, (money, status))))) = refund_of_lem b x expected r h' in
        (
          x,
          (
            e,
            i,
            is_text-given x.paid payment_id paid,
            is_text-given x.location_id location place,
            has_money-IsYen x.amount_money trial_amount money,
            refund_status_of-text x.status r.status status,
          ),
        )
  ]

  pub s3_refund_evidence-expected :
      (b : Body) (id : String) (r : Refund)
      → s3_refund_evidence leaks location secret (some b) (some id) ≡ some r
      → r.id ≡ id
  unfolding s3_refund_evidence Parts
  s3_refund_evidence-expected b id r h = elim (Option-cases b.refund) [
    | inl n ↦ absurd (ground (arith, h, n))
    | inr (x, e) ↦
        let h' : refund_of leaks location secret b (some x) (some id) ≡ some r =
          ap (λ m. refund_of leaks location secret b m (some id)) (sym e) ∙ h in
        let parts = refund_of_lem b x (some id) r h' in
        let safe = parts.1 in (eq_iff r.id id).0 (ground (arith, safe))
  ]

  payment_of-refundable :
      (b : Body) (p : RawPayment) (o : PaymentObservation)
      → payment_of leaks location secret b (some p) ≡ some o
      → is_refundable p ≡ true
  payment_of-refundable b p o h = elim (Bool-cases (is_refundable p)) [
    | inl y ↦ y
    | inr n ↦ absurd (ground (arith, h, n))
  ]

  is_refundable-IsUnrefunded : (p : RawPayment) → is_refundable p ≡ true → IsUnrefunded location p
  unfolding is_refundable
  is_refundable-IsUnrefunded p h =
      let money : has_money p.amount_money trial_amount ≡ true = ground (arith, h) in
      let back : may_hold p.refunded_money 0 ≡ true = ground (arith, h) in
      let ids : may_be_empty p.refund_ids ≡ true = ground (arith, h) in
      (
        is_text-given p.id payment_id (ground (arith, h)),
        (eq_iff p.status "COMPLETED").0 (ground (arith, h)),
        has_money-IsYen p.amount_money trial_amount money,
        λ m e. is_number-given m.amount 0 (ground (arith, back, e)),
        λ n e. ground (arith, ids, e),
      )

  pub s3_payment_evidence-IsUnrefunded :
      (b : Body) (o : PaymentObservation)
      → s3_payment_evidence leaks location secret (some b) ≡ some o
      → (p : RawPayment) × (b.payment ≡ some p) × IsUnrefunded location p
  unfolding s3_payment_evidence
  s3_payment_evidence-IsUnrefunded b o h = elim (Option-cases b.payment) [
    | inl n ↦ absurd (ground (arith, h, n))
    | inr (p, e) ↦
        let h' : payment_of leaks location secret b (some p) ≡ some o =
          ap (payment_of leaks location secret b) (sym e) ∙ h in
        (p, e, is_refundable-IsUnrefunded p (payment_of-refundable b p o h'))
  ]
