-- ===== src/Release/Credential/Containment/Schedule.antt =====
-- How long containment is retried.
use zao_rental.Release.Credential.Containment.{containment_schedule, backoff_seconds, schedule_from}
use zao_rental.Common.{
  ℕ, zero, suc, ◌+◌, ◌≤◌, ◌<◌, inl, inr, List, arith, ltb, Bool-cases, length, total,
}

abbrev pub seconds : List ℕ → ℕ
seconds ds = total (λ x. x) ds

schedule_from-fits :
    (fuel window i sum : ℕ)
    → sum ≤ window
    → window < fuel + sum
    → (sum + seconds (schedule_from fuel window i sum) ≤ window)
      × (window
          < sum
            + seconds (schedule_from fuel window i sum)
            + backoff_seconds (i + length (schedule_from fuel window i sum)))
unfolding schedule_from
schedule_from-fits zero window i sum le lt = absurd (omega (arith, le, lt))
schedule_from-fits (suc fuel) window i sum le lt =
    elim (Bool-cases (ltb window (sum + backoff_seconds i))) [
      | inl e ↦ ground (arith, e)
      | inr e ↦
          let ih = schedule_from-fits fuel window (i + 1) (sum + backoff_seconds i) in
          ground (arith, e, ih)
    ]

-- The delays of the schedule fit in the window, and the next delay would not.
pub containment_schedule-fits :
    (window : ℕ)
    → (seconds (containment_schedule window) ≤ window)
      × (window
          < seconds (containment_schedule window)
            + backoff_seconds (length (containment_schedule window)))
unfolding containment_schedule
containment_schedule-fits window =
    let h = schedule_from-fits (window + 1) window 0 0 (omega arith) (omega arith) in
    ground (arith, h)
