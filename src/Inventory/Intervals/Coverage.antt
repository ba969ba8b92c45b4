-- ===== src/Inventory/Intervals/Coverage.antt =====
-- The sweep over the endpoints against the count of the intervals on each single day.
use zao_rental.Common.{
  ℕ, ◌+◌, ◌≤◌, ◌<◌, ◌≡◌, refl, ◌↔◌, Bool, true, ◌&&◌, List, [], ◌∷◌, arith, leb, if◌then◌else◌,
  total, All,
}
use zao_rental.Inventory.Intervals.{
  Interval, Delta, plus, one_more, one_less, nothing, bump, changes, sweep, fit_intervals,
}

abbrev pub covers : ℕ → Interval → Bool
covers day p = leb p.start day && leb day p.end

-- How many of the intervals hold the day.
abbrev pub load : ℕ → List Interval → ℕ
load day ps = total (λ p. if covers day p then 1 else 0) ps

abbrev pub IsForward : Interval → Type 0
IsForward p = p.start ≤ p.end

-- The sum of the changes until a day.
abbrev until : ℕ → List (ℕ × Delta) → Delta
until day [] = nothing
until day ((k, x) ∷ m) = let rest = plus x (until day m) in if leb k day then rest else nothing

abbrev Above : ℕ → List (ℕ × Delta) → Type 0
Above k [] = Unit
Above k ((j, x) ∷ m) = (k < j) × Above j m

abbrev IsSorted : List (ℕ × Delta) → Type 0
IsSorted [] = Unit
IsSorted ((j, x) ∷ m) = Above j m

until-Above : (d k : ℕ) (m : List (ℕ × Delta)) → Above k m → d ≤ k → until d m ≡ nothing
until-Above d k [] h le = refl
until-Above d k ((j, x) ∷ m) h le = ground arith

until-bump :
    (d k : ℕ) (x : Delta) (m : List (ℕ × Delta))
    → until d (bump k x m) ≡ (if leb k d then plus x (until d m) else until d m)
unfolding bump
until-bump d k x [] = ground arith
until-bump d k x ((j, y) ∷ m) = ground (arith, until-bump d k x m)

Above-bump : (i k : ℕ) (x : Delta) (m : List (ℕ × Delta)) → i < k → Above i m → Above i (bump k x m)
unfolding bump
Above-bump i k x [] lt h = ground arith
Above-bump i k x ((j, y) ∷ m) lt h = ground (arith, Above-bump j k x m)

Above-IsSorted : (k : ℕ) (m : List (ℕ × Delta)) → Above k m → IsSorted m
Above-IsSorted k [] h = tt
Above-IsSorted k (x ∷ m) h = h.1

bump-IsSorted : (k : ℕ) (x : Delta) (m : List (ℕ × Delta)) → IsSorted m → IsSorted (bump k x m)
unfolding bump
bump-IsSorted k x [] h = tt
bump-IsSorted k x ((j, y) ∷ m) h = ground (arith, Above-bump j k x m)

changes-IsSorted : (ps : List Interval) → IsSorted (changes ps)
unfolding changes
changes-IsSorted [] = tt
changes-IsSorted (p ∷ ps) =
    bump-IsSorted p.start one_more (bump (p.end + 1) one_less (changes ps))
      (bump-IsSorted (p.end + 1) one_less (changes ps) (changes-IsSorted ps))

-- Until a day, the intervals that started are those that ended and those that hold the day.
until-changes :
    (d : ℕ) (ps : List Interval)
    → All IsForward ps
    → (until d (changes ps)).ups ≡ (until d (changes ps)).downs + load d ps
unfolding changes
until-changes d [] h = refl
until-changes d (p ∷ ps) h =
    let ih = until-changes d ps h.1 in
    let inner = until-bump d (p.end + 1) one_less (changes ps) in
    let outer = until-bump d p.start one_more (bump (p.end + 1) one_less (changes ps)) in
    ground (arith, h.0, ih, inner, outer)

module _ (capacity : ℕ) where
  sweep-within :
      (d : ℕ) (used : Delta) (m : List (ℕ × Delta))
      → used.ups ≤ capacity + used.downs
      → sweep capacity used m ≡ true
      → (plus used (until d m)).ups ≤ capacity + (plus used (until d m)).downs
  unfolding sweep
  sweep-within d used [] le e = ground arith
  sweep-within d used ((k, x) ∷ m) le e = ground (arith, sweep-within d (plus used x) m)

  within-sweep :
      (used : Delta) (m : List (ℕ × Delta))
      → IsSorted m
      → ((d : ℕ) → (plus used (until d m)).ups ≤ capacity + (plus used (until d m)).downs)
      → sweep capacity used m ≡ true
  unfolding sweep
  within-sweep used [] s h = refl
  within-sweep used ((k, x) ∷ m) s h =
      let here = until-Above k k m s (omega arith) in
      let at_k = h k in
      let step : (d : ℕ)
          → (plus (plus used x) (until d m)).ups
            ≤ capacity + (plus (plus used x) (until d m)).downs =
        λ d. let at_d = h d in let before = until-Above d k m s in ground arith in
      let rest = within-sweep (plus used x) m (Above-IsSorted k m s) step in ground arith

-- The sweep over the sorted endpoints gives the pointwise answer: where no interval ends before it
-- starts, the intervals fit a capacity exactly if on every single day no more than that many of
-- them hold the day.
pub fit_intervals_iff :
    (items : List Interval) (capacity : ℕ)
    → All IsForward items
    → (fit_intervals items capacity ≡ true) ↔ ((day : ℕ) → load day items ≤ capacity)
unfolding fit_intervals
fit_intervals_iff items capacity f = (
  λ e day.
      let balance = until-changes day items f in
      let within = sweep-within capacity day nothing (changes items) (ground arith) e in
      ground arith,
  λ h.
      within-sweep capacity nothing (changes items) (changes-IsSorted items)
        (λ day. let balance = until-changes day items f in let here = h day in ground arith),
)
