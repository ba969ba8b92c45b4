-- ===== src/Contracts/Period/Laws.antt =====
-- What a normalised period and an intake window guarantee.
use zao_rental.Contracts.Period.{
  err, ◌>>=◌, Result, intake_close, new_intake_window, IntakeWindow, Period, Normalized, ok,
  normalize_period, dates_from,
}
use zao_rental.Common.{
  ℕ, zero, suc, ◌+◌, ◌*◌, ◌≤◌, ◌<◌, ◌≡◌, refl, ◌↔◌, inl, inr, some, arith, length, In,
}

pub record IsNormalized (p : Period) (n : Normalized) : Type 0 where
  pub at_least_one : 1 ≤ n.days
  pub at_most_ten : n.days ≤ 10
  pub span : p.start_date + n.days ≡ p.end_date + 1
  pub listed : n.dates ≡ dates_from p.start_date n.days
  pub ordered : n.starts_at < n.due_at
  pub opens : n.occupancy_starts_at ≤ n.starts_at
  pub closes : n.due_at ≤ n.occupancy_ends_at

-- A period that is accepted spans one to ten days, its dates are those from the first to the last
-- in order, it starts before it is due, and the whole of it lies within its occupancy.
pub normalize_period-IsNormalized :
    (p : Period) (n : Normalized) → normalize_period p ≡ ok n → IsNormalized p n
unfolding normalize_period
normalize_period-IsNormalized p n h = ground arith

pub length-dates_from : (s n : ℕ) → length (dates_from s n) ≡ n
unfolding dates_from
length-dates_from s zero = refl
length-dates_from s (suc n) = omega (arith, length-dates_from (s + 1) n)

pub In-dates_from : (s n d : ℕ) → In d (dates_from s n) → (s ≤ d) × (d < s + n)
unfolding dates_from
In-dates_from s zero d h = absurd h
In-dates_from s (suc n) d (inl e) = omega arith
In-dates_from s (suc n) d (inr h) = omega (arith, In-dates_from (s + 1) n d h)

pub dates_from-In : (s n d : ℕ) → s ≤ d → d < s + n → In d (dates_from s n)
unfolding dates_from
dates_from-In s zero d a b = omega arith
dates_from-In s (suc n) d a b = ground (arith, dates_from-In (s + 1) n d)

-- The dates of an accepted period are exactly the days from its first date to its last, and as many
-- as its length.
pub normalize_period-dates :
    (p : Period) (n : Normalized)
    → normalize_period p ≡ ok n
    → (length n.dates ≡ n.days) × ((d : ℕ) → In d n.dates ↔ ((p.start_date ≤ d) × (d ≤ p.end_date)))
normalize_period-dates p n h =
    let v = normalize_period-IsNormalized p n h in
    rw v.listed (
      length-dates_from p.start_date n.days,
      λ d. (
        λ m. omega (arith, v.span, In-dates_from p.start_date n.days d m),
        λ b. dates_from-In p.start_date n.days d b.0 (omega (arith, v.span)),
      ),
    )

-- A chain that is accepted has an accepted first step.
first_step :
    {A B : Type 0} (step : Result A) (next : A → Result B) (out : B)
    → step >>= next ≡ ok out
    → (value : A) × (next value ≡ ok out) × (step ≡ ok value)
first_step (err code) next out accepted = absurd (cc)
first_step (ok value) next out accepted = (value, accepted, refl)

-- On its first date a period has begun before the intake closes, and it is due no sooner.
intake_close-bounds :
    (p : Period) (n : Normalized)
    → normalize_period p ≡ ok n
    → (n.starts_at ≤ intake_close p) × (intake_close p ≤ n.due_at)
unfolding normalize_period intake_close
intake_close-bounds p n h = ground arith

-- A period is accepted for intake only while it is not due, on or before its first date in Tokyo,
-- and before the intake closes; the quote's boundary then lies in the future, no later than the
-- close of intake, and the intake closes no later than the period is due.
pub new_intake_window-is_open :
    (p : Period) (ms : ℕ) (w : IntakeWindow)
    → new_intake_window p (some ms) ≡ ok w
    → (n : Normalized) × (normalize_period p ≡ ok n)
      × (ms < n.due_at)
      × (ms + 32400000 < (p.start_date + 1) * 86400000)
      × (ms < w.intake_closes_at)
      × (ms < w.quote_boundary_at)
      × (w.quote_boundary_at ≤ w.intake_closes_at)
      × (w.intake_closes_at ≤ n.due_at)
unfolding new_intake_window
new_intake_window-is_open p ms w h =
    let (n, rest, e) = first_step (normalize_period p) _ w h in
    let (low, high) = intake_close-bounds p n e in
    (n, e, ground arith, ground arith, ground arith, ground arith, ground arith, ground arith)
