-- ===== src/Contracts/Hold/Laws.antt =====
-- What the members of accepted conditions rent.
use zao_rental.Common.{
  ℕ, ◌+◌, ◌≡◌, refl, sym, ap, subst, ◌∙◌, ◌⊎◌, inl, inr, Bool, true, false, not, ◌&&◌, Option, List,
  [], ◌∷◌, arith, str_eq, leb, ◌==◌, if◌then◌else◌, ==_iff, &&-eq-true, keep, total, In,
}
use zao_rental.Contracts.Period.{
  normalize_period, refuse_if, duplicate_member, Result, ok, err, ◌>>=◌, ◌>>◌,
}
use zao_rental.Contracts.Hold.{
  distinct, is_v14, Family, Product, ski_set, snowboard_set, HoldItem, HoldMember, HoldConditions,
  ContractVersion, is_wear, rank, family_eq, insert_rank, sorted_ranks, ranks_eq, gear_complete,
  check_member, check_all, parse_conditions,
}

-- How many of the items are of the family.
abbrev pub number_of : Family → List HoldItem → ℕ
number_of f items = total (λ i. if family_eq i.family f then 1 else 0) items

abbrev occurrences : ℕ → List ℕ → ℕ
occurrences n ms = total (λ m. if m == n then 1 else 0) ms

occurrences-insert_rank :
    (n m : ℕ) (ms : List ℕ) → occurrences n (insert_rank m ms) ≡ occurrences n (m ∷ ms)
occurrences-insert_rank n m [] = refl
occurrences-insert_rank n m (x ∷ ms) = ground (arith, occurrences-insert_rank n m ms)

occurrences-sorted_ranks :
    (f : Family) (items : List HoldItem)
    → occurrences (rank f) (sorted_ranks items) ≡ number_of f items
occurrences-sorted_ranks f [] = refl
occurrences-sorted_ranks f (i ∷ is) =
    occurrences-insert_rank (rank f) (rank i.family) (sorted_ranks is)
    ∙ ap (λ n. (if rank i.family == rank f then 1 else 0) + n) (occurrences-sorted_ranks f is)

ranks_eq-eq : (xs ys : List ℕ) → ranks_eq xs ys ≡ true → xs ≡ ys
ranks_eq-eq [] [] e = refl
ranks_eq-eq [] (y ∷ ys) e = absurd (cc)
ranks_eq-eq (x ∷ xs) [] e = absurd (cc)
ranks_eq-eq (x ∷ xs) (y ∷ ys) e =
    let both = &&-eq-true (x == y) (ranks_eq xs ys) e in
    let head = (==_iff x y).0 both.0 in let tail = ranks_eq-eq xs ys both.1 in cc

is_wear-rank : (f : Family) → is_wear f ≡ leb 5 (rank f)
is_wear-rank f = ground arith

-- An item of wear is none of another family.
number_of-keep :
    (f : Family) (items : List HoldItem)
    → is_wear f ≡ false
    → number_of f (keep (λ i. not (is_wear i.family)) items) ≡ number_of f items
number_of-keep f [] h = refl
number_of-keep f (i ∷ is) h =
    ground (arith, number_of-keep f is h, is_wear-rank f, is_wear-rank i.family)

check_member_complete :
    (v : Option ContractVersion) (m : HoldMember)
    → check_member v m ≡ ok tt
    → (b : Bool) × (gear_complete b m.product (keep (λ i. not (is_wear i.family)) m.items) ≡ true)
unfolding check_member
check_member_complete v m e = (is_v14 v, ground arith)

check_all-In :
    {A : Type 0} (check : A → Result (Unit {0})) (xs : List A) (x : A)
    → check_all check xs ≡ ok tt
    → In x xs
    → check x ≡ ok tt
check_all-In check [] x e m = absurd m
check_all-In check (y ∷ ys) x e m =
    let (first, rest) = both (check y) (check_all check ys) e in
    elim m [
      | inl same ↦ subst (λ z. check z ≡ ok tt) (sym same) first
      | inr further ↦ check_all-In check ys x rest further
    ]
  where
    both : (a b : Result (Unit {0})) → (a >> b) ≡ ok tt → (a ≡ ok tt) × (b ≡ ok tt)
    both (ok _) b e = (refl, e)
    both (err x) b e = absurd (cc)

-- The families of a ski set and of a snowboard set.
abbrev pub belongs : Product → Family → Bool
belongs ski_set f = leb (rank f) 2
belongs snowboard_set f = leb 3 (rank f) && leb (rank f) 4
belongs _ f = false

abbrev pub IsGearSet : Product → Type 0
IsGearSet p = (p ≡ ski_set) ⊎ (p ≡ snowboard_set)

gear_complete-number :
    (b : Bool) (p : Product) (gear : List HoldItem) (f : Family)
    → IsGearSet p
    → gear_complete b p gear ≡ true
    → is_wear f ≡ false
    → number_of f gear ≡ (if belongs p f then 1 else 0)
unfolding gear_complete
gear_complete-number b p gear f (inl s) e h =
    let same = ranks_eq-eq (sorted_ranks gear) (0 ∷ 1 ∷ 2 ∷ []) (rw s at e) in
    sym (occurrences-sorted_ranks f gear) ∙ rw (same, s) (ground (arith, is_wear-rank f))
gear_complete-number b p gear f (inr s) e h =
    let same = ranks_eq-eq (sorted_ranks gear) (3 ∷ 4 ∷ []) (rw s at e) in
    sym (occurrences-sorted_ranks f gear) ∙ rw (same, s) (ground (arith, is_wear-rank f))

last_check :
    {A B : Type 0} (a : Result A) (r k : Result (Unit {0})) (c d : B)
    → (a >>= λ _. r >> (k >> ok c)) ≡ ok d
    → k ≡ ok tt
last_check (err x) r k c d e = absurd (cc)
last_check (ok a) (err x) k c d e = absurd (cc)
last_check (ok a) (ok _) (err x) c d e = absurd (cc)
last_check (ok a) (ok _) (ok _) c d e = refl

-- In accepted conditions a ski set has exactly one item each of skis, boots and poles, a snowboard
-- set exactly one board and one pair of boots, and neither has an item of any other family of gear.
pub parse_conditions-number :
    (c accepted : HoldConditions) (m : HoldMember) (f : Family)
    → parse_conditions c ≡ ok accepted
    → In m c.members
    → IsGearSet m.product
    → is_wear f ≡ false
    → number_of f m.items ≡ (if belongs m.product f then 1 else 0)
unfolding parse_conditions
parse_conditions-number c accepted m f e member set gear =
    let checked : check_all (check_member c.contract_version) c.members ≡ ok tt =
      last_check (normalize_period c.period)
        (refuse_if (not (distinct (λ a b. str_eq a.key b.key) c.members)) duplicate_member)
        (check_all (check_member c.contract_version) c.members) c accepted e in
    let (b, full) =
      check_member_complete c.contract_version m
        (check_all-In (check_member c.contract_version) c.members m checked member) in
    sym (number_of-keep f m.items gear)
    ∙ gear_complete-number b m.product (keep (λ i. not (is_wear i.family)) m.items) f set full gear
