-- ===== src/Square/S3.antt =====
-- Stage S3, packages/core/src/payment/square-s3.ts: the payment of S2 is refunded. Here stands what
-- the bodies have to show. `leaks o secret` is `JSON.stringify(o).includes(secret)`.
pub mod Transport
pub mod Service
pub mod Protocol
pub mod Evidence
pub mod Passed
mod Tests
use zao_rental.Common.{
  ℕ, zero, suc, ◌+◌, ◌-◌, ◌*◌, ◌/◌, ◌%◌, ◌^◌, ◌≤◌, ◌<◌, min, max, ◌≡◌, refl, sym, ap, subst, ◌∙◌,
  ◌≢◌, ◌↔◌, ◌⊎◌, inl, inr, Bool, true, false, not, ◌&&◌, ◌||◌, Option, none, some, List, [], ◌∷◌,
  ◌++◌, map, arith, String, str_eq, ltb, leb, ◌==◌, if◌then◌else◌, ltb→lt, leb→le, le→leb, ==_iff,
  ==_refl, Bool-cases, &&-eq-true, Option-cases, length, length-append, any, every, keep, find,
  total, All, All-append, All-imp, total-append, keep-append, includes, In, In-append_left,
  In-append_right, In-append-cases, All-In, In-keep, keep-In, find-In, any-In, every-In,
}
use zao_rental.Contracts.Flow.{ident, PaymentRequest, PaymentObservation, match_payment}
use zao_rental.Square.{
  Field, absent, other, given, value_of, Money, RawPayment, square_observation, mentions, is_none,
}
use zao_rental.Square.S2.{s2_request, trial_amount}

-- The operation's manifest, docs/execution/p6/s3-evidence/operation-manifest.json.
abbrev pub payment_id : String
payment_id = "pezzekG1LQRt4MVKF0X4sgRCx1FZY"

pub record RefundBody : Type 0 where
  pub idempotency_key : String
  pub payment : String
  pub amount : ℕ
  pub currency : String
  pub reason : String

-- `s3RefundBody`
abbrev pub s3_refund_body : RefundBody
s3_refund_body = record {
  idempotency_key = "98e94ea9-a081-480d-86f4-5aa491df1d6f";
  payment = payment_id;
  amount = trial_amount;
  currency = "JPY";
  reason = "SYNTHETIC_R10_S3_SANDBOX_ACCEPTANCE_FULL_REFUND";
}

pub record RawRefund : Type 0 where
  pub id : Field String
  pub paid : Field String
  pub location_id : Field String
  pub amount_money : Option Money
  pub status : String

-- A body that is an object; `errors` is the length of its list.
pub record Body : Type 0 where
  pub errors : Field ℕ
  pub payment : Option RawPayment
  pub refund : Option RawRefund

abbrev pub is_text : Field String → String → Bool
is_text f s = elim (value_of f) [ none ↦ false | some t ↦ str_eq t s ]

abbrev pub is_number : Field ℕ → ℕ → Bool
is_number f n = elim (value_of f) [ none ↦ false | some m ↦ m == n ]

-- `moneyMatches`
abbrev pub money_matches : Money → ℕ → Bool
money_matches m n = is_number m.amount n && is_text m.currency "JPY"

abbrev pub has_money : Option Money → ℕ → Bool
has_money none n = false
has_money (some m) n = money_matches m n

-- The field is missing or holds this amount.
abbrev pub may_hold : Field Money → ℕ → Bool
may_hold absent n = true
may_hold other n = false
may_hold (given m) n = money_matches m n

abbrev pub may_be_empty : Field ℕ → Bool
may_be_empty absent = true
may_be_empty other = false
may_be_empty (given n) = n == 0

abbrev pub no_errors : Body → Bool
no_errors b = may_be_empty b.errors

-- The first condition of `s3PaymentEvidence`.
unfoldable pub is_refundable : RawPayment → Bool
is_refundable p =
    is_text p.id payment_id
    && str_eq p.status "COMPLETED"
    && has_money p.amount_money trial_amount
    && may_hold p.total_money trial_amount
    && may_hold p.refunded_money 0
    && may_be_empty p.refund_ids

pub data RefundStatus : Type 0 where
  pending completed rejected failed : RefundStatus

abbrev pub refund_status_of : String → Option RefundStatus
refund_status_of s =
    if str_eq s "PENDING"
    then some pending
    else if str_eq s "COMPLETED"
    then some completed
    else if str_eq s "REJECTED"
    then some rejected
    else if str_eq s "FAILED"
    then some failed
    else none

pub record Refund : Type 0 where
  pub id : String
  pub status : RefundStatus

abbrev is_expected : Option String → String → Bool
is_expected none id = true
is_expected (some e) id = str_eq id e

module _ (leaks : PaymentObservation → String → Bool) (location secret : String) where
  abbrev pub observed_by : RawPayment → PaymentRequest → Option PaymentObservation
  observed_by p r = elim (square_observation p r r.merchant_id) [
    | none ↦ none
    | some o ↦
        if match_payment r o && not (str_eq secret "") && not (leaks o secret) then some o else none
  ]

  abbrev pub payment_of : Body → Option RawPayment → Option PaymentObservation
  payment_of b none = none
  payment_of b (some p) =
      if no_errors b && is_refundable p
      then elim (s2_request location) [ none ↦ none | some r ↦ observed_by p r ]
      else none

  -- `s3PaymentEvidence`; `none` is an exception. The dates are normalized where they are kept.
  unfoldable pub s3_payment_evidence : Option Body → Option PaymentObservation
  s3_payment_evidence none = none
  s3_payment_evidence (some b) = payment_of b b.payment

  abbrev pub is_safe_id : String → Option String → Bool
  is_safe_id id expected =
      ident id && not (str_eq secret "") && not (mentions id secret) && is_expected expected id

  abbrev pub refund_of : Body → Option RawRefund → Option String → Option Refund
  refund_of b none expected = none
  refund_of b (some f) expected = elim (value_of f.id) [
    | none ↦ none
    | some id ↦
        if no_errors b
          && is_safe_id id expected
          && is_text f.paid payment_id
          && is_text f.location_id location
          && has_money f.amount_money trial_amount
        then elim (refund_status_of f.status) [
          | none ↦ none
          | some s ↦ some (record { id = id; status = s })
        ]
        else none
  ]

  -- `s3RefundEvidence`; `none` is S3_REFUND_EVIDENCE_MISMATCH.
  unfoldable pub s3_refund_evidence : Option Body → Option String → Option Refund
  s3_refund_evidence none expected = none
  s3_refund_evidence (some b) expected = refund_of b b.refund expected
