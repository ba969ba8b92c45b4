-- ===== src/Release/Dormant/Return.antt =====
-- A record that has just been collected is verified.
use zao_rental.Release.Dormant.Observe.{
  minute_of, with_times, Observed, check_times, unseen, last_of, is_relevant,
}
use zao_rental.Release.Dormant.{passed, DeploymentFacts, RequestLog, cron_path}
use zao_rental.Common.{
  ℕ, ◌≤◌, ◌≡◌, refl, subst, inl, inr, Bool, true, none, some, List, [], ◌∷◌, map, arith, str_eq,
  leb, leb→le, Bool-cases, Option-cases, length, keep, In, keep-In,
}
use zao_rental.Release.Dormant.Cadence.{IsSorted}
use zao_rental.Release.Dormant.Ticks.{IsTime}

keep-ext :
    {A : Type 0} (p q : A → Bool) (xs : List A)
    → ((x : A) → In x xs → p x ≡ q x)
    → keep p xs ≡ keep q xs
keep-ext p q [] h = refl
keep-ext p q (x ∷ xs) h =
    let ih = keep-ext p q xs λ y i. h y (inr i) in let e = h x (inl refl) in ground (arith, e, ih)

pub keep-all :
    {A : Type 0} (p : A → Bool) (xs : List A) → ((x : A) → In x xs → p x ≡ true) → keep p xs ≡ xs
keep-all p [] h = refl
keep-all p (x ∷ xs) h =
    let ih = keep-all p xs λ y i. h y (inr i) in let e = h x (inl refl) in ground (arith, e, ih)

pub IsSorted-last : (t x : ℕ) (ts : List ℕ) → IsSorted (t ∷ ts) → In x (t ∷ ts) → x ≤ last_of t ts
IsSorted-last t x [] s i = ground arith
IsSorted-last t x (u ∷ ts) s (inl e) =
    let ih = IsSorted-last u u ts s.1 (inl refl) in ground (arith, s, e, ih)
IsSorted-last t x (u ∷ ts) s (inr i) = IsSorted-last u x ts s.1 i

length-unseen : (seen ms : List ℕ) → length (unseen seen ms) ≤ length ms
length-unseen seen [] = omega arith
length-unseen seen (m ∷ ms) =
    let a = length-unseen seen ms in let b = length-unseen (m ∷ seen) ms in ground arith

length-map : (f : ℕ → ℕ) (xs : List ℕ) → length (map f xs) ≡ length xs
length-map f [] = refl
length-map f (x ∷ xs) = omega (arith, length-map f xs)

-- Rows from the first time on are all rows.
pub relevant-eq :
    (t : ℕ) (logs : List RequestLog)
    → ((x : ℕ) → IsTime x (keep (is_relevant none) logs) → t ≤ x)
    → keep (is_relevant (some t)) logs ≡ keep (is_relevant none) logs
relevant-eq t logs h = keep-ext (is_relevant (some t)) (is_relevant none) logs λ l i.
    elim (Bool-cases (str_eq l.request_path cron_path)) [
      | inl e ↦ elim (Option-cases l.timestamp) [
        | inl n ↦ ground (arith, e, n)
        | inr (x, q) ↦
            let m = keep-In (is_relevant none) l logs i (ground (arith, e)) in
            let le = h x (l, m, q) in ground (arith, e, q, le)
      ]
      | inr e ↦ ground (arith, e)
    ]

check_times-minutes :
    (now t n : ℕ) (ts : List ℕ) → check_times now t ts ≡ passed n → (3 ≤ n) × (n ≤ length (t ∷ ts))
unfolding check_times
check_times-minutes now t n ts e =
    let a = length-unseen [] (map minute_of (t ∷ ts)) in
    let b = length-map minute_of (t ∷ ts) in
    let c : (leb 3 n ≡ true) × (n ≡ length (unseen [] (map minute_of (t ∷ ts)))) =
      ground (arith, e) in
    let d = leb→le 3 n c.0 in (d, omega (arith, a, b, c.1))

-- The parts of an observation.
pub with_times-parts :
    (dep : DeploymentFacts) (now : ℕ) (ts : List ℕ) (o : Observed)
    → with_times dep now ts ≡ passed o
    → (o.dep ≡ dep)
      × (us : List ℕ) × (o.times ≡ o.first ∷ us)
      × (ts ≡ o.first ∷ us)
      × (3 ≤ o.minutes)
      × (3 ≤ length o.times)
with_times-parts dep now [] o e = absurd (cc)
with_times-parts dep now (t ∷ us) o e =
    let q : (n : ℕ) × (check_times now t us ≡ passed n)
        × (record { dep = dep; first = t; times = t ∷ us; minutes = n } ≡ o) =
      ground (arith, e) in
    let (a, b) = check_times-minutes now t q.0 us q.1 in
    let Parts : Observed → Type 0 = λ x.
      (x.dep ≡ dep)
      × (vs : List ℕ) × (x.times ≡ x.first ∷ vs)
      × (t ∷ us ≡ x.first ∷ vs)
      × (3 ≤ x.minutes)
      × (3 ≤ length x.times) in
    subst Parts q.2 (refl, us, refl, refl, a, omega (arith, a, b))
