-- ===== src/Inventory/Wear/Served.antt =====
-- What becomes of each requirement.
use zao_rental.Common.{
  ℕ, ◌≡◌, refl, sym, ap, subst, ◌⊎◌, inl, inr, Option, none, some, List, [], ◌∷◌, map, ◌==◌, ==_iff,
  Bool-cases, every, find, In, In-append_left, In-append_right, find-In,
}
use zao_rental.Inventory.Wear.{
  Requirement, Pool, Row, Supply, Plan, increment_on, day_ok, rows_of, try_pool, plan_one, plan_all,
  empty_plan, wear_capacity_detailed,
}

abbrev row_on : Requirement → Pool → ℕ → Row
row_on r p day = record { key = r.key; pool = p.id; day = day }

-- One pool of the requirement's variant gives it a unit on each day.
abbrev pub IsPlanned : Supply → Plan → Requirement → Type 0
IsPlanned s t r =
    (p : Pool) × In p s.pools
    × (p.variant_id ≡ r.variant)
    × ((day : ℕ) → In day s.days → In (record { key = r.key; pool = p.id; day = day }) t.rows)

rows_of-In :
    (r : Requirement) (p : Pool) (day : ℕ) (ds : List ℕ)
    → In day ds
    → In (record { key = r.key; pool = p.id; day = day }) (rows_of r p ds)
rows_of-In r p day [] m = absurd m
rows_of-In r p day (d ∷ ds) (inl e) = inl (ap (row_on r p) e)
rows_of-In r p day (d ∷ ds) (inr m) = inr (rows_of-In r p day ds m)

abbrev IsSettled : Supply → Plan → Requirement → Type 0
IsSettled s t r = In r t.infeasible ⊎ IsPlanned s t r

-- The plan grows only.
record IsPart (t u : Plan) : Type 0 where
  pub kept_rows : (q : Row) → In q t.rows → In q u.rows
  pub kept_refusals : (r : Requirement) → In r t.infeasible → In r u.infeasible

IsSettled-grow :
    (s : Supply) (t u : Plan) (r : Requirement) → IsPart t u → IsSettled s t r → IsSettled s u r
IsSettled-grow s t u r g (inl m) = inl (g.kept_refusals r m)
IsSettled-grow s t u r g (inr (p, m, e, h)) = inr (p, m, e, λ day k. g.kept_rows _ (h day k))

try_pool-IsPart :
    (s : Supply) (t : Plan) (r : Requirement) (o : Option Pool) → IsPart t (try_pool s t r o)
try_pool-IsPart s t r none = record {
  kept_rows = λ q m. m;
  kept_refusals = λ x m. In-append_left x t.infeasible (r ∷ []) m;
}
try_pool-IsPart s t r (some p) =
    elim (Bool-cases (every (day_ok s p) (map (increment_on s t.counts r p) s.days))) [
      | inl ok ↦ rw ok (record {
        kept_rows = λ q m. In-append_left q t.rows (rows_of r p s.days) m;
        kept_refusals = λ x m. m;
      })
      | inr refused ↦ rw refused (record {
        kept_rows = λ q m. m;
        kept_refusals = λ x m. In-append_left x t.infeasible (r ∷ []) m;
      })
    ]

try_pool-IsSettled :
    (s : Supply) (t : Plan) (r : Requirement) (o : Option Pool)
    → ((p : Pool) → o ≡ some p → In p s.pools × (p.variant_id ≡ r.variant))
    → IsSettled s (try_pool s t r o) r
try_pool-IsSettled s t r none h = inl (In-append_right r t.infeasible (r ∷ []) (inl refl))
try_pool-IsSettled s t r (some p) h =
    elim (Bool-cases (every (day_ok s p) (map (increment_on s t.counts r p) s.days))) [
      | inl ok ↦
          let (member, same) = h p refl in
          rw ok (
            inr (
              p,
              member,
              same,
              λ day m. In-append_right _ t.rows (rows_of r p s.days) (rows_of-In r p day s.days m),
            ))
      | inr refused ↦ rw refused (inl (In-append_right r t.infeasible (r ∷ []) (inl refl)))
    ]

plan_all-IsPart : (s : Supply) (t : Plan) (rs : List Requirement) → IsPart t (plan_all s t rs)
unfolding plan_all plan_one
plan_all-IsPart s t [] = record { kept_rows = λ q m. m; kept_refusals = λ x m. m }
plan_all-IsPart s t (r ∷ rs) =
    let first = try_pool-IsPart s t r (find (λ p. p.variant_id == r.variant) s.pools) in
    let rest = plan_all-IsPart s (plan_one s t r) rs in
    record {
      kept_rows = λ q m. rest.kept_rows q (first.kept_rows q m);
      kept_refusals = λ x m. rest.kept_refusals x (first.kept_refusals x m);
    }

plan_all-IsSettled :
    (s : Supply) (t : Plan) (rs : List Requirement) (r : Requirement)
    → In r rs
    → IsSettled s (plan_all s t rs) r
unfolding plan_all plan_one
plan_all-IsSettled s t [] r m = absurd m
plan_all-IsSettled s t (x ∷ rs) r m = elim m [
  | inl e ↦ subst (IsSettled s (plan_all s (plan_one s t x) rs)) (sym e) (
      IsSettled-grow s (plan_one s t x) (plan_all s (plan_one s t x) rs) x
        (plan_all-IsPart s (plan_one s t x) rs)
        (try_pool-IsSettled s t x (find (λ p. p.variant_id == x.variant) s.pools) (λ p e.
          let (member, hit) = find-In (λ q. q.variant_id == x.variant) p s.pools e in
          (member, (==_iff p.variant_id x.variant).0 hit))))
  | inr k ↦ plan_all-IsSettled s (plan_one s t x) rs r k
]

-- Every requirement is either among the infeasible ones or has, from one pool of its own variant, a
-- row on each day of the period.
pub wear_capacity_detailed-IsPlanned :
    (s : Supply) (rs : List Requirement) (r : Requirement)
    → In r rs
    → In r (wear_capacity_detailed s rs).infeasible ⊎ IsPlanned s (wear_capacity_detailed s rs) r
unfolding wear_capacity_detailed
wear_capacity_detailed-IsPlanned s rs r m = plan_all-IsSettled s empty_plan rs r m
