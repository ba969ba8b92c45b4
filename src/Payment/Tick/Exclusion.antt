-- ===== src/Payment/Tick/Exclusion.antt =====
-- No two calls of the worker run at the same time.
use zao_rental.Common.{ℕ, ◌≤◌, ◌≡◌, ◌↔◌, true, false, arith, String}
use zao_rental.Payment.Worker.{Outcome, done, failed}
use zao_rental.Payment.Tick.{TickRequest, TickState, RunEnd, arrive, finish, arguments_of, began}

abbrev pub idle : TickState
idle = record { in_flight = false; running = 0 }

-- The states that any order of requests and of ends of calls leads to; a call ends only while one
-- runs.
pub data Reachable (tick_id : ℕ → String) : TickState → Type 0 where
  start : Reachable tick_id idle
  request :
      (r : TickRequest) (s : TickState)
      → Reachable tick_id s
      → Reachable tick_id (arrive tick_id r s).0
  end :
      (e : RunEnd) (s : TickState)
      → 1 ≤ s.running
      → Reachable tick_id s
      → Reachable tick_id (finish e s).0

abbrev IsExclusive : TickState → Type 0
IsExclusive s = (s.running ≤ 1) × ((s.in_flight ≡ true) ↔ (s.running ≡ 1))

module _ (tick_id : ℕ → String) where
  began-IsExclusive :
      (s : TickState) (o : Outcome _)
      → s.in_flight ≡ false
      → IsExclusive s
      → IsExclusive (began s o).0
  began-IsExclusive s (failed e) f v = (v.0, ground (arith, f, v.1))
  began-IsExclusive s (done plan) f v = ground (arith, f, v.1)

  arrive-IsExclusive :
      (r : TickRequest) (s : TickState) → IsExclusive s → IsExclusive (arrive tick_id r s).0
  unfolding arrive
  arrive-IsExclusive r s v =
      let b = began-IsExclusive s (arguments_of tick_id r) in ground (arith, v, b)

-- In whatever order requests arrive and calls of the worker end, at most one call runs at a time, and
-- the flag is set exactly while one runs: it is released on every path, failures included.
pub Reachable-IsExclusive :
    (tick_id : ℕ → String) (s : TickState)
    → Reachable tick_id s
    → (s.running ≤ 1) × ((s.in_flight ≡ true) ↔ (s.running ≡ 1))
unfolding finish
Reachable-IsExclusive tick_id s start = ground arith
Reachable-IsExclusive tick_id s (request r t h) =
    arrive-IsExclusive tick_id r t (Reachable-IsExclusive tick_id t h)
Reachable-IsExclusive tick_id s (end e t le h) =
    let v = Reachable-IsExclusive tick_id t h in ground arith
