-- ===== src/Payment/Freshness/Laws.antt =====
-- What a fresh worker has shown, and that a dormant answer is no evidence of work.
use zao_rental.Common.{
  ℕ, ◌+◌, ◌*◌, ◌≤◌, ◌≡◌, refl, ap, inl, inr, true, some, List, [], ◌∷◌, ◌++◌, arith, leb, leb→le,
  Option-cases, keep, In, In-keep,
}
use zao_rental.Payment.Freshness.{
  TickRecord, FreshnessOptions, fresh, last_success, last?, is_tick, is_success, ticks_until,
  evaluate_worker_freshness, reasons_of, age_of, dormant_tick,
}

module _ {A : Type 0} where
  In-last? : (xs : List A) (x : A) → last? xs ≡ some x → In x xs
  In-last? [] x e = absurd (cc)
  In-last? (y ∷ []) x e = inl (cc)
  In-last? (y ∷ z ∷ zs) x e = inr (In-last? (z ∷ zs) x e)

-- The last success is a record of the log, of a tick that ran by now and completed.
pub last_success-In :
    (now : ℕ) (records : List TickRecord) (r : TickRecord)
    → last_success now records ≡ some r
    → In r records × (r.time ≤ now) × (is_tick r ≡ true) × (is_success r.state ≡ true)
unfolding last_success
last_success-In now records r e =
    let past = keep (λ (x : TickRecord). leb x.time now) records in
    let (ran, done) =
      In-keep (λ (x : TickRecord). is_success x.state) r (keep is_tick past) (In-last? _ r e) in
    let (here, is_run) = In-keep is_tick r past ran in
    let (member, early) = In-keep (λ (x : TickRecord). leb x.time now) r records here in
    (member, leb→le r.time now early, is_run, done)

-- A log that is judged fresh, of a worker that is expected to run, holds a tick that completed no
-- longer ago than the window allows, with a backlog no older than allowed.
pub evaluate_worker_freshness-fresh :
    (records : List TickRecord) (o : FreshnessOptions)
    → (evaluate_worker_freshness records o).status ≡ fresh
    → (r : TickRecord) × In r records
      × (is_tick r ≡ true)
      × (is_success r.state ≡ true)
      × (r.time ≤ o.now)
      × (o.now ≤ r.time + o.max_success_age_seconds * 1000)
      × (age_of r.oldest_pending_age_seconds ≤ o.max_backlog_age_seconds)
unfolding evaluate_worker_freshness
evaluate_worker_freshness-fresh records o e = elim (Option-cases (last_success o.now records)) [
  | inl missing ↦ absurd (unfold reasons_of in ground (arith, missing))
  | inr (r, found) ↦
      let (member, early, is_run, done) = last_success-In o.now records r found in
      (
        r,
        member,
        is_run,
        done,
        early,
        unfold reasons_of in ground (arith, found),
        unfold reasons_of in ground (arith, found),
      )
]

last?-append {ℓ} : {A : Type ℓ} (xs : List A) (y : A) → last? (xs ++ y ∷ []) ≡ some y
last?-append [] y = refl
last?-append (x ∷ []) y = refl
last?-append (x ∷ z ∷ zs) y = last?-append (z ∷ zs) y

-- A dormant answer, wherever it stands in the log, is never counted as a success: without it the
-- last success is the same.
pub last_success-dormant :
    (now : ℕ) (before after : List TickRecord) (r : TickRecord)
    → r.event ≡ dormant_tick
    → last_success now (before ++ r ∷ after) ≡ last_success now (before ++ after)
unfolding last_success
last_success-dormant now before after r e =
    ap (λ xs. last? (keep (λ x. is_success x.state) xs)) (same before)
  where
    same :
        (xs : List TickRecord) → ticks_until now (xs ++ r ∷ after) ≡ ticks_until now (xs ++ after)
    same [] = ground arith
    same (x ∷ xs) = ground (arith, same xs)
