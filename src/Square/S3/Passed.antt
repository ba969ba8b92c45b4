-- ===== src/Square/S3/Passed.antt =====
-- When the refund stage passes.
use zao_rental.Square.{
  Response, RawPayment, get, post, Sent, threw, replied, version_forbidden, aborted,
  transport_failure, reply, Fetched, thrown, answered, is_token, square_version,
}
use zao_rental.Common.{
  subst, ℕ, ◌≡◌, refl, ap, ◌≢◌, ◌⊎◌, inl, inr, Bool, not, Option, none, some, arith, String, str_eq,
  if◌then◌else◌, Option-cases,
}
use zao_rental.Contracts.Flow.{PaymentObservation}
use zao_rental.Square.S3.Evidence.{
  IsShown, text_of, IsUnrefunded, s3_refund_evidence-IsShown, s3_refund_evidence-expected,
  s3_payment_evidence-IsUnrefunded,
}
use zao_rental.Square.Replies.{Answers, reply-replied}
use zao_rental.Square.S3.{
  RawRefund, RefundBody, s3_refund_body, Body, Refund, RefundStatus, pending, completed, rejected,
  failed, s3_payment_evidence, s3_refund_evidence,
}
use zao_rental.Square.S3.Transport.{
  Call, Transport, payment_url, refunds_url, lookup_url, Step, payment, refund, refund_lookup,
  authorize_refund, authorize_refund_lookup, dispatch, step_of, go, send,
}
use zao_rental.Square.S3.Service.{
  Class, s3_pass, Outcome, blank, failure, class_of, refund_result, record_payment, unless_failed,
  evidence, call_of, after_lookup, look_again, after_result, after_refund, pay_back, after_payment,
  run,
}

gate-replied :
    (version stopped token : Bool) (t : Transport) (d : Transport × Sent Body) (status : ℕ)
    (b : Body)
    → (if not version
        then (t, threw version_forbidden)
        else if stopped
        then (t, threw aborted)
        else if not token
        then (t, threw transport_failure)
        else d).1
      ≡ replied status (some b)
    → d.1 ≡ replied status (some b)
gate-replied version stopped token t d status b h = ground (arith, h)

reply-Answers :
    (a : Response Body) (status : ℕ) (b : Body)
    → reply a ≡ replied status (some b)
    → Answers (answered a) b
reply-Answers a status b h = let (ok, v) = reply-replied a status b h in (a, refl, ok, v)

dispatch-replied :
    (t : Transport) (c : Call) (s : Step) (f : Fetched Body) (status : ℕ) (b : Body)
    → (dispatch t c s f).1 ≡ replied status (some b)
    → Answers f b
dispatch-replied t c payment thrown status b h = absurd (cc)
dispatch-replied t c refund thrown status b h = absurd (cc)
dispatch-replied t c refund_lookup thrown status b h = absurd (cc)
dispatch-replied t c payment (answered a) status b h = reply-Answers a status b h
dispatch-replied t c refund (answered a) status b h = reply-Answers a status b h
dispatch-replied t c refund_lookup (answered a) status b h = reply-Answers a status b h

failure-ne-pass : (status : ℕ) (s : Step) → failure status s ≢ some s3_pass
unfolding failure
failure-ne-pass status payment h = ground (arith, h)
failure-ne-pass status refund h = ground (arith, h)
failure-ne-pass status refund_lookup h = ground (arith, h)

class-split :
    (m : Option Class) (o : Outcome) (t : Transport) (next : Outcome × Transport)
    → m ≢ some s3_pass
    → (unless_failed o t m next).0.classification ≡ s3_pass
    → next.0.classification ≡ s3_pass
class-split none o t next n h = h
class-split (some c) o t next n h = absurd (n (ap some h))

class_of-pass : (s : RefundStatus) → class_of s ≡ s3_pass → s ≡ completed
class_of-pass pending h = absurd (cc)
class_of-pass completed h = refl
class_of-pass rejected h = absurd (cc)
class_of-pass failed h = absurd (cc)

module _ (leaks : PaymentObservation → String → Bool) (location secret token : String)
    (hash : RefundBody → String) where
  go-replied :
      (t : Transport) (c : Call) (f : Fetched Body) (m : Option Step) (status : ℕ) (b : Body)
      → (go hash t c token f m).1 ≡ replied status (some b)
      → Answers f b
  go-replied t c f none status b h = absurd (cc)
  go-replied t c f (some s) status b h = dispatch-replied t c s f status b (
      gate-replied (str_eq c.version square_version) c.is_aborted (is_token token) t
        (dispatch t c s f) status b h)

  send-replied :
      (t : Transport) (c : Call) (f : Fetched Body) (status : ℕ) (b : Body)
      → (send hash t c token f).1 ≡ replied status (some b)
      → Answers f b
  unfolding send
  send-replied t c f status b h = go-replied t c f (step_of hash t c) status b h

  -- The answer shows a refund of the payment with this identifier and this status: the whole amount, in
  -- yen, at the location.
  abbrev pub Shows : Fetched Body → String → String → Type 0
  Shows f id status = (b : Body) × (x : RawRefund) × Answers f b × IsShown location b x id status

  refund_result-pass :
      (o : Outcome) (m : Option Refund)
      → (refund_result o m).classification ≡ s3_pass
      → (r : Refund) × (m ≡ some r) × (r.status ≡ completed)
  refund_result-pass o none h = absurd (cc)
  refund_result-pass o (some r) h = (r, refl, class_of-pass r.status h)

  abbrev Replies : Sent Body → Fetched Body → Type 0
  Replies s f = (status : ℕ) (b : Body) → s ≡ replied status (some b) → Answers f b

  after_lookup-pass :
      (o : Outcome) (id : String) (t : Transport) (s : Sent Body) (f : Fetched Body)
      → Replies s f
      → (after_lookup leaks location secret token hash o id (t, s)).0.classification ≡ s3_pass
      → Shows f id "COMPLETED"
  after_lookup-pass o id t (threw e) f a h = absurd (cc)
  after_lookup-pass o id t (replied status none) f a h =
      let go =
        class-split (failure status refund_lookup) o t _ (failure-ne-pass status refund_lookup) h in
      absurd (unfold s3_refund_evidence in cc)
  after_lookup-pass o id t (replied status (some b)) f a h =
      let go =
        class-split (failure status refund_lookup) o t
          (refund_result o (evidence leaks location secret token hash (some b) (some id)), t)
          (failure-ne-pass status refund_lookup) h in
      let (r, e, done) =
        refund_result-pass o (s3_refund_evidence leaks location secret (some b) (some id)) go in
      let (x, shown) = s3_refund_evidence-IsShown leaks location secret b (some id) r e in
      let same = s3_refund_evidence-expected leaks location secret b id r e in
      (
        b,
        x,
        a status b refl,
        subst (λ i. IsShown location b x i "COMPLETED") same
            (subst (λ z. IsShown location b x r.id (text_of z)) done shown),
      )

  look_again-pass :
      (o : Outcome) (id : String) (m : Option Transport) (t : Transport) (f : Fetched Body)
      → (look_again leaks location secret token hash o id m t f).0.classification ≡ s3_pass
      → Shows f id "COMPLETED"
  look_again-pass o id none t f h = absurd (cc)
  look_again-pass o id (some u) t f h =
      let c = call_of leaks location secret token hash get (lookup_url id) none in
      let x = send hash u c token f in after_lookup-pass o id x.0 x.1 f (send-replied u c f) h

  -- The refund is completed at once, or it was pending and is at the second look.
  abbrev pub IsRefunded : Fetched Body → Fetched Body → Type 0
  IsRefunded second third =
      (id : String) × (Shows second id "COMPLETED"
        ⊎ (Shows second id "PENDING" × Shows third id "COMPLETED"))

  shows :
      (b : Body) (id : String) (s : RefundStatus) (f : Fetched Body)
      → Answers f b
      → s3_refund_evidence leaks location secret (some b) none
        ≡ some (record { id = id; status = s })
      → Shows f id (text_of s)
  shows b id s f a e =
      let (x, shown) =
        s3_refund_evidence-IsShown leaks location secret b none (record { id = id; status = s })
          e in
      (b, x, a, shown)

  by_status-pass :
      (o : Outcome) (t : Transport) (b : Body) (id : String) (s : RefundStatus)
      (second third : Fetched Body)
      → Answers second b
      → s3_refund_evidence leaks location secret (some b) none
        ≡ some (record { id = id; status = s })
      → (after_result leaks location secret token hash o t
          (some b)
          (some (record { id = id; status = s }))
          third).0.classification
        ≡ s3_pass
      → IsRefunded second third
  by_status-pass o t b id pending second third a e h = (
    id,
    inr (
      shows b id pending second a e,
      look_again-pass (refund_result o (some (record { id = id; status = pending }))) id
          (authorize_refund_lookup leaks location token t (some b)) t third h,
    ),
  )
  by_status-pass o t b id completed second third a e h = (id, inl (shows b id completed second a e))
  by_status-pass o t b id rejected second third a e h = absurd (cc)
  by_status-pass o t b id failed second third a e h = absurd (cc)

  after_result-pass :
      (o : Outcome) (t : Transport) (b : Body) (m : Option Refund) (second third : Fetched Body)
      → Answers second b
      → s3_refund_evidence leaks location secret (some b) none ≡ m
      → (after_result leaks location secret token hash o t (some b) m third).0.classification
        ≡ s3_pass
      → IsRefunded second third
  after_result-pass o t b none second third a e h = absurd (cc)
  after_result-pass o t b (some r) second third a e h =
      by_status-pass o t b r.id r.status second third a e h

  after_refund-pass :
      (o : Outcome) (t : Transport) (s : Sent Body) (second third : Fetched Body)
      → Replies s second
      → (after_refund leaks location secret token hash o (t, s) third).0.classification ≡ s3_pass
      → IsRefunded second third
  after_refund-pass o t (threw e) second third a h = absurd (cc)
  after_refund-pass o t (replied status none) second third a h =
      let go = class-split (failure status refund) o t _ (failure-ne-pass status refund) h in
      absurd (unfold s3_refund_evidence in cc)
  after_refund-pass o t (replied status (some b)) second third a h =
      let m = s3_refund_evidence leaks location secret (some b) none in
      after_result-pass o t b m second third (a status b refl) refl (
        class-split (failure status refund) o t
          (after_result leaks location secret token hash o t (some b) m third)
          (failure-ne-pass status refund) h)

  -- The first answer shows the payment of the trial, completed, of the whole amount and not refunded.
  abbrev pub IsPaidBy : Fetched Body → Type 0
  IsPaidBy f =
      (b : Body) × (o : PaymentObservation) × Answers f b
      × (s3_payment_evidence leaks location token (some b) ≡ some o)
      × ((p : RawPayment) × (b.payment ≡ some p) × IsUnrefunded location p)

  authorized :
      (t : Transport) (b : Option Body) (u : Transport) (o : PaymentObservation)
      → authorize_refund leaks location token t b ≡ some (u, o)
      → s3_payment_evidence leaks location token b ≡ some o
  unfolding authorize_refund
  authorized t b u o h = elim (Option-cases (s3_payment_evidence leaks location token b)) [
    | inl n ↦ absurd (ground (arith, h, n))
    | inr (x, e) ↦ ground (arith, h, e)
  ]

  pay_back-pass :
      (t : Transport) (b : Option Body) (m : Option (Transport × PaymentObservation))
      (second third : Fetched Body)
      → authorize_refund leaks location token t b ≡ m
      → (pay_back leaks location secret token hash t m second third).0.classification ≡ s3_pass
      → ((o : PaymentObservation) × (s3_payment_evidence leaks location token b ≡ some o))
        × IsRefunded second third
  pay_back-pass t b none second third e h = absurd (cc)
  pay_back-pass t b (some (u, o)) second third e h =
      let c = call_of leaks location secret token hash post refunds_url (some s3_refund_body) in
      let x = send hash u c token second in
      (
        (o, authorized t b u o e),
        after_refund-pass (record_payment blank o) x.0 x.1 second third (send-replied u c second) h,
      )

  after_payment-pass :
      (t : Transport) (s : Sent Body) (first second third : Fetched Body)
      → Replies s first
      → (after_payment leaks location secret token hash (t, s) second third).0.classification
        ≡ s3_pass
      → IsPaidBy first × IsRefunded second third
  after_payment-pass t (threw e) first second third a h = absurd (cc)
  after_payment-pass t (replied status none) first second third a h =
      let m = authorize_refund leaks location token t none in
      let ((o, e), refunds) = pay_back-pass t none m second third refl (
        class-split (failure status payment) blank t
          (pay_back leaks location secret token hash t m second third)
          (failure-ne-pass status payment) h) in
      absurd (unfold s3_payment_evidence in cc)
  after_payment-pass t (replied status (some b)) first second third a h =
      let m = authorize_refund leaks location token t (some b) in
      let ((o, e), refunds) = pay_back-pass t (some b) m second third refl (
        class-split (failure status payment) blank t
          (pay_back leaks location secret token hash t m second third)
          (failure-ne-pass status payment) h) in
      (
        (b, o, a status b refl, e, s3_payment_evidence-IsUnrefunded leaks location token b o e),
        refunds,
      )

  -- The stage passes only where the first call was answered with the payment of the trial, completed,
  -- of the whole amount and not refunded before, and the second with a refund of that payment, amount
  -- and location that is completed, or that is pending and that the third shows to be completed, under
  -- the same identifier.
  pub run-IsRefunded :
      (t : Transport) (first second third : Fetched Body)
      → (run leaks location secret token hash t first second third).0.classification ≡ s3_pass
      → IsPaidBy first × IsRefunded second third
  unfolding run
  run-IsRefunded t first second third h =
      let c = call_of leaks location secret token hash get payment_url none in
      let x = send hash t c token first in
      after_payment-pass x.0 x.1 first second third (send-replied t c first) h
