-- ===== src/Inventory/Provisional/Slots.antt =====
-- No bucket gives more units on a day than it has.
use zao_rental.Common.{
  ℕ, ◌+◌, ◌≤◌, ◌≡◌, refl, sym, ap, subst, ◌∙◌, inl, inr, Bool, true, ◌&&◌, some, List, [], ◌∷◌,
  arith, str_eq, ◌==◌, if◌then◌else◌, leb→le, ==_iff, ==_refl, Bool-cases, &&-eq-true, Option-cases,
  find, total, total-append, In, In-append-cases, In-keep, find-In,
}
use mathlib.Core.Path.{ap₂}
use mathlib.Core.Option.{some-injective}
use zao_rental.Inventory.Provisional.{
  Bucket, PlanRow, Stock, Draft, ProvisionalRequirement, used_of, all_on, claim_of, candidates_of,
  may_use, slot_ok, placed_on, place_day, place_days, place_all, empty_draft, provisional_capacity,
}

abbrev pub takes : ℕ → ℕ → PlanRow → Bool
takes bucket day r = r.bucket == bucket && r.day == day

-- How many rows of the plan take a unit of the bucket on the day.
abbrev pub units_on : ℕ → ℕ → List PlanRow → ℕ
units_on bucket day rows = total (λ r. if takes bucket day r then 1 else 0) rows

abbrev pub HaveIds : List Bucket → Type 0
HaveIds bs = (a b : Bucket) → In a bs → In b bs → a.id ≡ b.id → a ≡ b

record IsCovered (s : Stock) (t : Draft) : Type 0 where
  pub counted : (bucket day : ℕ) → used_of bucket day t.slots ≡ units_on bucket day t.rows
  pub covered :
      (q : PlanRow) (b : Bucket)
      → In q t.rows
      → In b s.buckets
      → b.id ≡ q.bucket
      → units_on b.id q.day t.rows + all_on (claim_of s b.id q.day) ≤ b.quantity

slot_ok-room :
    (s : Stock) (group : List Bucket) (t : Draft) (r : ProvisionalRequirement) (day : ℕ)
    (b : Bucket)
    → slot_ok s group t r day b ≡ true
    → used_of b.id day t.slots + 1 + all_on (claim_of s b.id day) ≤ b.quantity
unfolding slot_ok
slot_ok-room s group t r day b e =
    let first = &&-eq-true _ _ (&&-eq-true _ _ e).0 in
    let fits =
      leb→le (all_on (claim_of s b.id day) + used_of b.id day t.slots + 1) b.quantity first.0 in
    omega (arith, fits)

module _ (s : Stock) (ids : HaveIds s.buckets) where
  module _ (t : Draft) (v : IsCovered s t) (r : ProvisionalRequirement) (day : ℕ) (b : Bucket) where
    abbrev row : PlanRow
    row = record { key = r.key; bucket = b.id; day = day; promise = r.promise_variant_id }

    units_on-placed_on :
        (bucket d : ℕ)
        → units_on bucket d (placed_on t r day b).rows
          ≡ units_on bucket d t.rows + (if takes bucket d row then 1 else 0)
    units_on-placed_on bucket d =
        total-append (λ x. if takes bucket d x then 1 else 0) t.rows (row ∷ []) ∙ omega arith

    self : takes b.id day row ≡ true
    self = ground (arith, ==_refl b.id, ==_refl day)

    placed_on-counted :
        (bucket d : ℕ)
        → used_of bucket d (placed_on t r day b).slots
          ≡ units_on bucket d (placed_on t r day b).rows
    placed_on-counted bucket d = elim (Bool-cases (takes bucket d row)) [
      | inl e ↦
          let both = &&-eq-true (b.id == bucket) (day == d) e in
          let same_bucket = (==_iff b.id bucket).0 both.0 in
          let same_day = (==_iff day d).0 both.1 in
          let whole : units_on bucket d (placed_on t r day b).rows ≡ units_on bucket d t.rows + 1 =
            units_on-placed_on bucket d ∙ rw e refl in
          let old : used_of b.id day t.slots + 1 ≡ units_on bucket d t.rows + 1 =
            ap₂ (λ x y. used_of x y t.slots + 1) same_bucket same_day
            ∙ ap (λ n. n + 1) (v.counted bucket d) in
          rw e (old ∙ sym whole)
      | inr e ↦
          let whole : units_on bucket d (placed_on t r day b).rows ≡ units_on bucket d t.rows =
            units_on-placed_on bucket d ∙ rw e (omega arith) in
          rw e (v.counted bucket d ∙ sym whole)
    ]

    placed_on-covered :
        In b s.buckets
        → used_of b.id day t.slots + 1 + all_on (claim_of s b.id day) ≤ b.quantity
        → (q : PlanRow) (o : Bucket) → In q (placed_on t r day b).rows
        → In o s.buckets
        → o.id ≡ q.bucket
        → units_on o.id q.day (placed_on t r day b).rows + all_on (claim_of s o.id q.day)
          ≤ o.quantity
    placed_on-covered mb room q o m mo same = elim (Bool-cases (takes o.id q.day row)) [
      | inl e ↦
          let both = &&-eq-true (b.id == o.id) (day == q.day) e in
          let one = ids b o mb mo ((==_iff b.id o.id).0 both.0) in
          let day_same = (==_iff day q.day).0 both.1 in
          subst
            (λ x.
              units_on x.id q.day (placed_on t r day b).rows + all_on (claim_of s x.id q.day)
              ≤ x.quantity)
            one
            (subst
              (λ d.
                units_on b.id d (placed_on t r day b).rows + all_on (claim_of s b.id d)
                ≤ b.quantity)
              day_same
              (subst (λ n. n + all_on (claim_of s b.id day) ≤ b.quantity)
                (ap (λ n. n + 1) (v.counted b.id day)
                  ∙ sym (units_on-placed_on b.id day ∙ rw self refl))
                room))
      | inr e ↦ elim (In-append-cases q t.rows (row ∷ []) m) [
        | inl old ↦
            subst (λ n. n + all_on (claim_of s o.id q.day) ≤ o.quantity)
              (sym (units_on-placed_on o.id q.day ∙ rw e (omega arith))) (v.covered q o old mo same)
        | inr (inl new) ↦ absurd (
            ground (
              arith,
              (==_iff b.id o.id).1 (sym (same ∙ ap (λ x. x.bucket) new)),
              (==_iff day q.day).1 (sym (ap (λ x. x.day) new)),
            ))
        | inr (inr none_left) ↦ absurd none_left
      ]
    ]

  placed_on-IsCovered :
      (t : Draft) (r : ProvisionalRequirement) (day : ℕ) (group : List Bucket) (b : Bucket)
      → IsCovered s t
      → In b s.buckets
      → slot_ok s group t r day b ≡ true
      → IsCovered s (placed_on t r day b)
  placed_on-IsCovered t r day group b v mb e = record {
    counted = placed_on-counted t v r day b;
    covered = placed_on-covered t v r day b mb (slot_ok-room s group t r day b e);
  }

  place_day-IsCovered :
      (group : List Bucket) (t u : Draft) (r : ProvisionalRequirement) (day : ℕ)
      → ((b : Bucket) → In b group → In b s.buckets)
      → IsCovered s t
      → place_day s group t r day ≡ some u
      → IsCovered s u
  unfolding place_day
  place_day-IsCovered group t u r day sub v e =
      elim (Option-cases (find (slot_ok s group t r day) group)) [
        | inl nowhere ↦ absurd (ground (arith, nowhere, e))
        | inr (b, here) ↦
            let (member, ok) = find-In (slot_ok s group t r day) b group here in
            let same : placed_on t r day b ≡ u = some-injective _ _ (rw (here, place_day) at e) in
            subst (IsCovered s) same (placed_on-IsCovered t r day group b v (sub b member) ok)
      ]

  place_days-IsCovered :
      (group : List Bucket) (r : ProvisionalRequirement) (ds : List ℕ) (t u : Draft)
      → ((b : Bucket) → In b group → In b s.buckets)
      → IsCovered s t
      → place_days s group r ds t ≡ some u
      → IsCovered s u
  unfolding place_days
  place_days-IsCovered group r [] t u sub v e = subst (IsCovered s) (some-injective _ _ e) v
  place_days-IsCovered group r (d ∷ ds) t u sub v e =
      elim (Option-cases (place_day s group t r d)) [
        | inl nowhere ↦ absurd (ground (arith, nowhere, e))
        | inr (t', here) ↦
            place_days-IsCovered group r ds t' u sub (place_day-IsCovered group t t' r d sub v here)
              (rw (here, place_days) at e)
      ]

  candidates_In :
      (r : ProvisionalRequirement) (b : Bucket) → In b (candidates_of s r) → In b s.buckets
  unfolding candidates_of
  candidates_In r b m =
      (In-keep
        (λ x.
          str_eq x.family r.family
          && str_eq x.age r.age
          && str_eq x.size_key r.size_key
          && may_use s r.promise_variant_id x)
        b s.buckets m).0

  place_all-IsCovered :
      (rs : List ProvisionalRequirement) (t u : Draft)
      → IsCovered s t
      → place_all s rs t ≡ some u
      → IsCovered s u
  unfolding place_all
  place_all-IsCovered [] t u v e = subst (IsCovered s) (some-injective _ _ e) v
  place_all-IsCovered (r ∷ rs) t u v e =
      elim (Option-cases (place_days s (candidates_of s r) r s.days t)) [
        | inl nowhere ↦ absurd (ground (arith, nowhere, e))
        | inr (t', here) ↦
            place_all-IsCovered rs t' u
              (place_days-IsCovered (candidates_of s r) r s.days t t' (candidates_In r) v here)
              (ground (arith, here, e))
      ]

-- In a feasible plan the units that its rows take of a bucket on a day, together with the active
-- claims of the other holds, are no more than the bucket's quantity, with the staff override or
-- without. The buckets have distinct ids.
pub provisional_capacity-within :
    (s : Stock) (rs : List ProvisionalRequirement) (t : Draft) (q : PlanRow) (b : Bucket)
    → HaveIds s.buckets
    → provisional_capacity s rs ≡ some t
    → In q t.rows
    → In b s.buckets
    → b.id ≡ q.bucket
    → units_on b.id q.day t.rows + all_on (claim_of s b.id q.day) ≤ b.quantity
unfolding provisional_capacity
provisional_capacity-within s rs t q b ids e m mb same =
    let none_yet : IsCovered s empty_draft = record {
      counted = λ bucket d. refl;
      covered = λ x o m' mo h. absurd m';
    } in
    (place_all-IsCovered s ids rs empty_draft t none_yet e).covered q b m mb same
