-- ===== src/Release/Dormant/Ticks.antt =====
-- What `observe` proves: the rows keep the scheduler's cadence.
use zao_rental.Common.{
  ℕ, ◌+◌, ◌≤◌, ◌≡◌, refl, sym, ap, subst, ◌∙◌, ◌⊎◌, inl, inr, true, Option, some, List, [], ◌∷◌,
  map, arith, String, Option-cases, every, keep, In, All-In,
}
use zao_rental.Common.Checked.{passed}
use zao_rental.Release.Dormant.{RequestLog, ProofPort, ProofFacts, live_state}
use zao_rental.Release.Dormant.Observe.{
  sort_times, times_of, minute_of, unseen, no_gap, last_of, Observed, check_times, with_times,
  is_relevant, is_expected, is_dormant, check_rows, observe,
}
use zao_rental.Release.Dormant.Cadence.{
  In-sort_times, IsSorted, sort_times-IsSorted, In-unseen, unseen-In, no_gap-covers,
}

-- A row of the log has the time `t`.
abbrev pub IsTime : ℕ → List RequestLog → Type 0
IsTime t rows = (l : RequestLog) × In l rows × (l.timestamp ≡ some t)

-- A row of the log falls in the minute `m`.
abbrev pub IsTicked : ℕ → List RequestLog → Type 0
IsTicked m rows = (t : ℕ) × IsTime t rows × (minute_of t ≡ m)

pub times_of-IsTime : (t : ℕ) (rows : List RequestLog) → In t (times_of rows) → IsTime t rows
times_of-IsTime t [] h = absurd h
times_of-IsTime t (l ∷ ls) h =
    let ih = times_of-IsTime t ls in
    elim (Option-cases l.timestamp) [
      | inl e ↦ let (k, i, q) = ih (rw e at h) in (k, inr i, q)
      | inr (u, e) ↦
          let j : (t ≡ u) ⊎ In t (times_of ls) = rw e at h in
          elim j [
            | inl p ↦ (l, inl refl, e ∙ ap (λ y. some y) (sym p))
            | inr i ↦ let (k, i', q) = ih i in (k, inr i', q)
          ]
    ]

pub IsTime-times_of : (t : ℕ) (rows : List RequestLog) → IsTime t rows → In t (times_of rows)
IsTime-times_of t [] (k, h, e) = absurd h
IsTime-times_of t (l ∷ ls) (k, inl p, e) =
    let q : l.timestamp ≡ some t = ap (λ y. y.timestamp) (sym p) ∙ e in ground (arith, q)
IsTime-times_of t (l ∷ ls) (k, inr i, e) =
    let ih = IsTime-times_of t ls (k, i, e) in
    elim (Option-cases l.timestamp) [ inl q ↦ rw q ih | inr (u, q) ↦ rw q (inr ih) ]

In-map_minute :
    (m : ℕ) (ts : List ℕ) → In m (map minute_of ts) → (t : ℕ) × In t ts × (m ≡ minute_of t)
In-map_minute m [] h = absurd h
In-map_minute m (t ∷ ts) (inl e) = (t, inl refl, e)
In-map_minute m (t ∷ ts) (inr h) = let (u, i, e) = In-map_minute m ts h in (u, inr i, e)

map_minute-In : (t : ℕ) (ts : List ℕ) → In t ts → In (minute_of t) (map minute_of ts)
map_minute-In t [] h = absurd h
map_minute-In t (u ∷ ts) (inl e) = inl (ap minute_of e)
map_minute-In t (u ∷ ts) (inr h) = inr (map_minute-In t ts h)

pub last_of-In : (t : ℕ) (ts : List ℕ) → In (last_of t ts) (t ∷ ts)
last_of-In t [] = inl refl
last_of-In t (x ∷ ts) = inr (last_of-In x ts)

pub IsSorted-head : (t x : ℕ) (ts : List ℕ) → IsSorted (t ∷ ts) → In x (t ∷ ts) → t ≤ x
IsSorted-head t x ts s (inl e) = omega (arith, e)
IsSorted-head t x ts s (inr i) = All-In (λ y. t ≤ y) x ts s.0 i

-- The minutes that the times pass are ticked, up to one missed.
covers :
    (t : ℕ) (ts : List ℕ) (x y m : ℕ)
    → no_gap (unseen [] (map minute_of (t ∷ ts))) ≡ true
    → IsSorted (t ∷ ts)
    → In x (t ∷ ts)
    → In y (t ∷ ts)
    → minute_of x ≤ m
    → m ≤ minute_of y
    → In m (map minute_of (t ∷ ts)) ⊎ In (m + 1) (map minute_of (t ∷ ts))
covers t ts x y m g s i j lo hi =
    let le = IsSorted-head t x ts s i in
    let at_y : In (minute_of y) (unseen [] (map minute_of (t ∷ ts))) =
      elim (In-unseen (minute_of y) [] (map minute_of (t ∷ ts)) (map_minute-In y (t ∷ ts) j)) [
        | inl n ↦ absurd n
        | inr k ↦ k
      ] in
    elim (no_gap-covers (minute_of t) m (minute_of y) (unseen (minute_of t ∷ []) (map minute_of ts))
      g (omega (arith, le, lo)) at_y hi) [
        | inl k ↦ inl (unseen-In m [] (map minute_of (t ∷ ts)) k)
        | inr k ↦ inr (unseen-In (m + 1) [] (map minute_of (t ∷ ts)) k)
      ]

check_times-passed :
    (now t n : ℕ) (ts : List ℕ)
    → check_times now t ts ≡ passed n
    → (no_gap (unseen [] (map minute_of (t ∷ ts))) ≡ true) × (now ≤ last_of t ts + 150000)
unfolding check_times
check_times-passed now t n ts e = ground (arith, e)

pub with_times-passed :
    (dep : _) (now : ℕ) (ts : List ℕ) (o : Observed)
    → with_times dep now ts ≡ passed o
    → (t : ℕ) × (us : List ℕ) × (ts ≡ t ∷ us)
      × (no_gap (unseen [] (map minute_of (t ∷ us))) ≡ true)
      × (now ≤ last_of t us + 150000)
      × (o.dep ≡ dep)
with_times-passed dep now [] o e = absurd (cc)
with_times-passed dep now (t ∷ us) o e =
    let q : ((n : ℕ) × (check_times now t us ≡ passed n)) × (o.dep ≡ dep) = ground (arith, e) in
    let (gap, fresh) = check_times-passed now t q.0.0 us q.0.1 in (t, us, refl, gap, fresh, q.1)

check_rows-passed :
    (event_of : String → Option String) (facts : ProofFacts) (rows : List RequestLog) (u : _)
    → check_rows event_of facts rows ≡ passed u
    → (every (is_expected facts) rows ≡ true) × (every (is_dormant event_of) rows ≡ true)
unfolding check_rows
check_rows-passed event_of facts rows u e = ground (arith, e)

-- The rows keep the cadence of the scheduler and reach up to now.
abbrev pub IsScheduled : ℕ → List RequestLog → Type 0
IsScheduled now rows =
    ((x y m : ℕ)
      → IsTime x rows
      → IsTime y rows
      → minute_of x ≤ m
      → m ≤ minute_of y
      → IsTicked m rows ⊎ IsTicked (m + 1) rows)
    × ((t : ℕ) × IsTime t rows × (now ≤ t + 150000))

with_times-IsScheduled :
    (dep : _) (now : ℕ) (rows : List RequestLog) (o : Observed)
    → with_times dep now (sort_times (times_of rows)) ≡ passed o
    → IsScheduled now rows × (o.dep ≡ dep)
with_times-IsScheduled dep now rows o e =
    let (t, us, p, gap, fresh, d) = with_times-passed dep now (sort_times (times_of rows)) o e in
    let sorted : IsSorted (t ∷ us) = subst IsSorted p (sort_times-IsSorted (times_of rows)) in
    let back : (x : ℕ) → In x (t ∷ us) → IsTime x rows = λ x i.
      times_of-IsTime x rows ((In-sort_times x (times_of rows)).0 (subst (In x) (sym p) i)) in
    let forth : (x : ℕ) → IsTime x rows → In x (t ∷ us) =
      λ x i. subst (In x) p ((In-sort_times x (times_of rows)).1 (IsTime-times_of x rows i)) in
    let ticked : (m : ℕ) → In m (map minute_of (t ∷ us)) → IsTicked m rows =
      λ m i. let (u, j, q) = In-map_minute m (t ∷ us) i in (u, back u j, sym q) in
    (
      (
        λ x y m i j lo hi. elim (covers t us x y m gap sorted (forth x i) (forth y j) lo hi) [
          | inl k ↦ inl (ticked m k)
          | inr k ↦ inr (ticked (m + 1) k)
        ],
        (last_of t us, back (last_of t us) (last_of-In t us), fresh),
      ),
      d,
    )

-- An observation is made only while the deployment is the current, protected one. All rows of the
-- route in the log are expected and carry the dormant event; of every two successive minutes
-- between two of its rows one has a row; and one row is at most 150 seconds old.
pub observe-IsScheduled :
    (event_of : String → Option String) (port : ProofPort) (facts : ProofFacts) (window now : ℕ)
    (since : Option ℕ) (o : Observed)
    → observe event_of port facts window now since ≡ passed o
    → (live_state port facts ≡ passed o.dep)
      × ((logs : List RequestLog) × (port.request_logs facts.deployment_id window ≡ passed logs)
          × (every (is_expected facts) (keep (is_relevant since) logs) ≡ true)
          × (every (is_dormant event_of) (keep (is_relevant since) logs) ≡ true)
          × IsScheduled now (keep (is_relevant since) logs))
unfolding observe
observe-IsScheduled event_of port facts window now since o e =
    let q : (dep : _) × (logs : List RequestLog) × (u : _) × (live_state port facts ≡ passed dep)
        × (port.request_logs facts.deployment_id window ≡ passed logs)
        × (check_rows event_of facts (keep (is_relevant since) logs) ≡ passed u)
        × (with_times dep now (sort_times (times_of (keep (is_relevant since) logs))) ≡ passed o) =
      ground (arith, e) in
    let (dep, logs, u, live, read, rows, times) = q in
    let (expected, dormant) = check_rows-passed event_of facts _ u rows in
    let (scheduled, same) = with_times-IsScheduled dep now _ o times in
    (live ∙ ap (λ d. passed d) (sym same), (logs, read, expected, dormant, scheduled))
