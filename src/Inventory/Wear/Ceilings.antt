-- ===== src/Inventory/Wear/Ceilings.antt =====
-- The ceilings of the pools, for the rows that a plan claims.
use zao_rental.Inventory.Wear.{
  empty_plan, plan_one, plan_all, try_pool, wear_capacity_detailed, accept, Plan, Requirement, Pool,
  Row, Supply, Count, Increment, count_of, set_all, on_loan, claim_on, all_of, public_of,
  public_cap, increment_on, day_ok, rows_of,
}
use zao_rental.Common.{
  ℕ, ◌+◌, ◌≤◌, ◌≡◌, refl, sym, ap, subst, ◌∙◌, inl, inr, Bool, true, false, not, ◌&&◌, ◌||◌, Option,
  none, some, List, [], ◌∷◌, map, arith, ◌==◌, if◌then◌else◌, ==_iff, ==_refl, Bool-cases,
  &&-eq-true, every, find, total, total-append, includes, In, In-append-cases, find-In, any-In,
}

-- The row claims a unit of the pool on the day, one that the booking has not on loan already.
abbrev pub takes : Supply → ℕ → ℕ → Row → Bool
takes s pool day r = r.pool == pool && r.day == day && not (on_loan s r.key pool)

abbrev pub taken_units : Supply → ℕ → ℕ → List Row → ℕ
taken_units s pool day rows = total (λ r. if takes s pool day r then 1 else 0) rows

abbrev pub Distinct : List ℕ → Type 0
Distinct [] = Unit
Distinct (d ∷ ds) = (includes d ds ≡ false) × Distinct ds

abbrev pub AreKeyed : List Pool → Type 0
AreKeyed ps = (p q : Pool) → In p ps → In q ps → p.id ≡ q.id → p ≡ q

-- `n` more units of the pool on the day stay within what is ready, and without the override within
-- the public share of it.
pub record HasRoom (s : Supply) (p : Pool) (day n : ℕ) : Type 0 where
  pub whole : n + all_of (claim_on s p.id day) ≤ p.ready
  pub public : s.buffer_override ≡ false → n + public_of (claim_on s p.id day) ≤ public_cap p.ready

day_ok-HasRoom :
    (s : Supply) (p : Pool) (i : Increment) → day_ok s p i ≡ true → HasRoom s p i.day i.n
unfolding day_ok
day_ok-HasRoom s p i e = ground arith

overwritten :
    (here same later : Bool) (n m k : ℕ)
    → (same ≡ true → n ≡ m)
    → (if here && later then n else if here && same then m else k)
      ≡ (if here && (same || later) then n else k)
overwritten here same later n m k h = ground arith

count_of-set_all :
    (s : Supply) (cs : List Count) (r : Requirement) (p : Pool) (pool day : ℕ) (ds : List ℕ)
    (now : List Count)
    → count_of pool day (set_all p.id (map (increment_on s cs r p) ds) now) ≡ (
        if p.id == pool && includes day ds
        then (increment_on s cs r p day).n
        else count_of pool day now)
count_of-set_all s cs r p pool day [] now = ground arith
count_of-set_all s cs r p pool day (d ∷ ds) now =
    let next = record { pool = p.id; day = d; n = (increment_on s cs r p d).n } ∷ now in
    let ih = count_of-set_all s cs r p pool day ds next in
    ih
    ∙ overwritten (p.id == pool) (d == day) (includes day ds) (increment_on s cs r p day).n
        (increment_on s cs r p d).n (count_of pool day now)
        (λ e. ap (λ x. (increment_on s cs r p x).n) (sym ((==_iff d day).0 e)))

taken_units-rows_of :
    (s : Supply) (r : Requirement) (p : Pool) (pool day : ℕ) (ds : List ℕ)
    → Distinct ds
    → taken_units s pool day (rows_of r p ds)
      ≡ (if p.id == pool && includes day ds && not (on_loan s r.key pool) then 1 else 0)
taken_units-rows_of s r p pool day [] h = ground arith
taken_units-rows_of s r p pool day (d ∷ ds) h =
    let ih = taken_units-rows_of s r p pool day ds h.1 in
    elim (Bool-cases (d == day)) [
      | inl e ↦ let same = (==_iff d day).0 e in ground (arith, h.0)
      | inr e ↦ rw e (ground arith)
    ]

In-rows_of :
    (r : Requirement) (p : Pool) (ds : List ℕ) (q : Row)
    → In q (rows_of r p ds)
    → (q.pool ≡ p.id) × In q.day ds
In-rows_of r p [] q m = absurd m
In-rows_of r p (d ∷ ds) q (inl e) = (ap (λ x. x.pool) e, inl (ap (λ x. x.day) e))
In-rows_of r p (d ∷ ds) q (inr m) = let (a, b) = In-rows_of r p ds q m in (a, inr b)

includes-In : (d : ℕ) (ds : List ℕ) → includes d ds ≡ true → In d ds
includes-In d [] e = absurd (cc)
includes-In d (x ∷ ds) e = ground (arith, includes-In d ds, ==_iff x d)

In-includes : (d : ℕ) (ds : List ℕ) → In d ds → includes d ds ≡ true
In-includes d ds m = any-In (λ x. x == d) d ds m (==_refl d)

every-days :
    (s : Supply) (cs : List Count) (r : Requirement) (p : Pool) (ds : List ℕ) (day : ℕ)
    → every (day_ok s p) (map (increment_on s cs r p) ds) ≡ true
    → In day ds
    → day_ok s p (increment_on s cs r p day) ≡ true
every-days s cs r p [] day e m = absurd m
every-days s cs r p (d ∷ ds) day e m =
    let both = &&-eq-true _ _ e in
    elim m [
      | inl same ↦ subst (λ x. day_ok s p (increment_on s cs r p x) ≡ true) (sym same) both.0
      | inr rest ↦ every-days s cs r p ds day both.1 rest
    ]

one_more :
    (here listed loaned : Bool) (n m : ℕ)
    → n ≡ m
    → (if here && listed then n + (if loaned then 0 else 1) else n)
      ≡ m + (if here && listed && not loaned then 1 else 0)
one_more here listed loaned n m e = ground arith

claimed_one :
    (here listed loaned : Bool) (n m : ℕ)
    → n ≡ m
    → here ≡ true
    → listed ≡ true
    → n + (if loaned then 0 else 1) ≡ m + (if here && listed && not loaned then 1 else 0)
claimed_one here listed loaned n m e h l = ground arith

-- The counts are those of the rows, and on every day that a row claims the pool has room for them.
pub record IsWithin (s : Supply) (t : Plan) : Type 0 where
  pub counted : (pool day : ℕ) → count_of pool day t.counts ≡ taken_units s pool day t.rows
  pub room :
      (q : Row) (p : Pool)
      → In q t.rows
      → In p s.pools
      → p.id ≡ q.pool
      → HasRoom s p q.day (taken_units s p.id q.day t.rows)

module _ (s : Supply) (keyed : AreKeyed s.pools) (distinct : Distinct s.days) where
  module _ (t : Plan) (v : IsWithin s t) (r : Requirement) (p : Pool) (member : In p s.pools) where
    taken_units-accept :
        (pool day : ℕ)
        → taken_units s pool day (accept s t r p).rows
          ≡ taken_units s pool day t.rows
            + (if p.id == pool && includes day s.days && not (on_loan s r.key pool) then 1 else 0)
    taken_units-accept pool day =
        total-append (λ x. if takes s pool day x then 1 else 0) t.rows (rows_of r p s.days)
        ∙ ap (λ n. taken_units s pool day t.rows + n)
            (taken_units-rows_of s r p pool day s.days distinct)

    accept-counted :
        (pool day : ℕ)
        → count_of pool day (accept s t r p).counts ≡ taken_units s pool day (accept s t r p).rows
    accept-counted pool day =
        count_of-set_all s t.counts r p pool day s.days t.counts
        ∙ elim (Bool-cases (p.id == pool)) [
          | inl e ↦
              subst
                (λ x.
                  (if p.id == x && includes day s.days
                    then (increment_on s t.counts r p day).n
                    else count_of x day t.counts)
                  ≡ taken_units s x day (accept s t r p).rows)
                ((==_iff p.id pool).0 e)
                (one_more (p.id == p.id) (includes day s.days) (on_loan s r.key p.id)
                    (count_of p.id day t.counts) (taken_units s p.id day t.rows)
                    (v.counted p.id day)
                  ∙ sym (taken_units-accept p.id day))
          | inr e ↦ (rw e (v.counted pool day ∙ omega arith)) ∙ sym (taken_units-accept pool day)
        ]

    -- A row of the grown plan on another pool or day is an old one, and its count is the old one.
    old_room :
        (q : Row) (o : Pool)
        → In q (accept s t r p).rows
        → In o s.pools
        → o.id ≡ q.pool
        → (p.id == o.id && includes q.day s.days) ≡ false
        → HasRoom s o q.day (taken_units s o.id q.day (accept s t r p).rows)
    old_room q o m mo same apart =
        subst (HasRoom s o q.day) (sym (taken_units-accept o.id q.day ∙ (rw apart (omega arith))))
          (elim (In-append-cases q t.rows (rows_of r p s.days) m) [
            | inl old ↦ v.room q o old mo same
            | inr new ↦
                let (here, listed) = In-rows_of r p s.days q new in
                let yes_day = In-includes q.day s.days listed in
                absurd (ground (arith, (==_iff p.id o.id).1 (sym (same ∙ here))))
          ])

    accept-room :
        every (day_ok s p) (map (increment_on s t.counts r p) s.days) ≡ true
        → (q : Row) (o : Pool) → In q (accept s t r p).rows
        → In o s.pools
        → o.id ≡ q.pool
        → HasRoom s o q.day (taken_units s o.id q.day (accept s t r p).rows)
    accept-room ok q o m mo same = elim (Bool-cases (p.id == o.id && includes q.day s.days)) [
      | inr apart ↦ old_room q o m mo same apart
      | inl hit ↦
          let both = &&-eq-true _ _ hit in
          let one = keyed p o member mo ((==_iff p.id o.id).0 both.0) in
          let day_in = includes-In q.day s.days both.1 in
          subst (λ x. HasRoom s x q.day (taken_units s x.id q.day (accept s t r p).rows)) one
            (subst (HasRoom s p q.day)
              (claimed_one (p.id == p.id) (includes q.day s.days) (on_loan s r.key p.id)
                  (count_of p.id q.day t.counts) (taken_units s p.id q.day t.rows)
                  (v.counted p.id q.day) (==_refl p.id) both.1
                ∙ sym (taken_units-accept p.id q.day))
              (day_ok-HasRoom s p (increment_on s t.counts r p q.day)
                (every-days s t.counts r p s.days q.day ok day_in)))
    ]

  try_pool-IsWithin :
      (t : Plan) (r : Requirement) (o : Option Pool)
      → IsWithin s t
      → ((p : Pool) → o ≡ some p → In p s.pools)
      → IsWithin s (try_pool s t r o)
  try_pool-IsWithin t r none v m = record { counted = v.counted; room = v.room }
  try_pool-IsWithin t r (some p) v m =
      elim (Bool-cases (every (day_ok s p) (map (increment_on s t.counts r p) s.days))) [
        | inl ok ↦ rw ok (record {
          counted = accept-counted t v r p (m p refl);
          room = accept-room t v r p (m p refl) ok;
        })
        | inr refused ↦ rw refused (record { counted = v.counted; room = v.room })
      ]

  plan_all-IsWithin :
      (t : Plan) (rs : List Requirement) → IsWithin s t → IsWithin s (plan_all s t rs)
  unfolding plan_all plan_one
  plan_all-IsWithin t [] v = v
  plan_all-IsWithin t (r ∷ rs) v = plan_all-IsWithin (plan_one s t r) rs (
      try_pool-IsWithin t r (find (λ p. p.variant_id == r.variant) s.pools) v
        (λ p e. (find-In (λ q. q.variant_id == r.variant) p s.pools e).0))

-- On every pool and day that a row of the plan claims, the units that the plan takes, together with
-- the active claims of the other bookings, are no more than what is ready; without the staff
-- override they are, together with the public claims, no more than 95 percent of it, rounded down.
-- The days are distinct and the pools have distinct ids. A unit that the booking has on loan already
-- is not taken again.
pub wear_capacity_detailed-HasRoom :
    (s : Supply) (rs : List Requirement) (q : Row) (p : Pool)
    → AreKeyed s.pools
    → Distinct s.days
    → In q (wear_capacity_detailed s rs).rows
    → In p s.pools
    → p.id ≡ q.pool
    → HasRoom s p q.day (taken_units s p.id q.day (wear_capacity_detailed s rs).rows)
unfolding wear_capacity_detailed
wear_capacity_detailed-HasRoom s rs q p keyed distinct m mp same =
    let start : IsWithin s empty_plan = record {
      counted = λ pool day. refl;
      room = λ r o m' mo e. absurd m';
    } in
    (plan_all-IsWithin s keyed distinct empty_plan rs start).room q p m mp same
