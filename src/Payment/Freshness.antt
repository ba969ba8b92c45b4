-- ===== src/Payment/Freshness.antt =====
-- The outside check that the scheduled worker is alive:
-- packages/core/src/payment/worker-freshness.ts. Times are milliseconds. `JSON.parse` is a library:
-- a log line is what it gives, with the fields that are read.
pub mod Laws
use zao_rental.Common.{
  ℕ, zero, suc, ◌+◌, ◌-◌, ◌*◌, ◌/◌, ◌%◌, ◌^◌, ◌≤◌, ◌<◌, min, max, ◌≡◌, refl, sym, ap, subst, ◌∙◌,
  ◌≢◌, ◌↔◌, ◌⊎◌, inl, inr, Bool, true, false, not, ◌&&◌, ◌||◌, Option, none, some, List, [], ◌∷◌,
  ◌++◌, map, arith, String, str_eq, ltb, leb, ◌==◌, if◌then◌else◌, ltb→lt, leb→le, le→leb, ==_iff,
  ==_refl, Bool-cases, &&-eq-true, Option-cases, length, length-append, any, every, keep, find,
  total, All, All-append, All-imp, total-append, keep-append, includes, In, In-append_left,
  In-append_right, All-In,
}
use zao_rental.Contracts.Time.{Stamp}

pub data TickEvent : Type 0 where
  tick dormant_tick : TickEvent

-- `stopped` is any state but COMPLETED.
pub data TickState : Type 0 where
  completed stopped : TickState

pub record TickRecord : Type 0 where
  pub time : ℕ
  pub event : TickEvent
  pub state : Option TickState
  pub pending_payments : Option ℕ
  pub oldest_pending_age_seconds : Option ℕ

-- A field of a log object that holds a time, a text that `Date.parse` reads, or nothing of use.
pub data TimeField : Type 0 where
  number : ℕ → TimeField
  text : Option ℕ → TimeField
  missing : TimeField

-- The object that carries the tick, with no event where the event is not one of the two.
pub record Carrier : Type 0 where
  pub event : Option TickEvent
  pub state : Option TickState
  pub pending_payments : Option ℕ
  pub oldest_pending_age_seconds : Option ℕ

-- A line that is no JSON, or whose message is none, carries nothing.
pub record Line : Type 0 where
  pub stamp : TimeField
  pub carrier : Option Carrier

abbrev line_time : TimeField → Option ℕ → Option ℕ
line_time (number t) fallback = some t
line_time (text t) fallback = t
line_time missing fallback = fallback

abbrev is_judged : TickEvent → Option TickState → Bool
is_judged tick none = false
is_judged _ _ = true

abbrev record_of : Carrier → Option TickEvent → Option ℕ → Option TickRecord
record_of c none at = none
record_of c (some e) none = none
record_of c (some e) (some t) =
    if is_judged e c.state
    then some (record {
      time = t;
      event = e;
      state = c.state;
      pending_payments = c.pending_payments;
      oldest_pending_age_seconds = c.oldest_pending_age_seconds;
    })
    else none

-- What one line contributes.
unfoldable pub read_line : Option ℕ → Line → Option TickRecord
read_line fallback l = elim l.carrier [
  | none ↦ none
  | some c ↦ record_of c c.event (line_time l.stamp fallback)
]

-- `sort((a, b) => a.time - b.time)`, which is stable.
abbrev insert_tick : TickRecord → List TickRecord → List TickRecord
insert_tick r [] = r ∷ []
insert_tick r (x ∷ xs) = if leb r.time x.time then r ∷ x ∷ xs else x ∷ insert_tick r xs

abbrev add_tick : Option TickRecord → List TickRecord → List TickRecord
add_tick none xs = xs
add_tick (some r) xs = insert_tick r xs

-- `parseTickLines`
unfoldable pub parse_tick_lines : Option ℕ → List Line → List TickRecord
parse_tick_lines fallback [] = []
parse_tick_lines fallback (l ∷ ls) = add_tick (read_line fallback l) (parse_tick_lines fallback ls)

pub record FreshnessOptions : Type 0 where
  pub now : ℕ
  pub expected_active : Bool
  pub max_success_age_seconds : ℕ
  pub max_backlog_age_seconds : ℕ
  pub consecutive_failure_limit : ℕ

pub data Reason : Type 0 where
  no_successful_tick dormant_while_expected consecutive_failures backlog_aging : Reason

pub data Status : Type 0 where
  fresh alert not_expected : Status

pub record FreshnessResult : Type 0 where
  pub status : Status
  pub reasons : List Reason
  pub last_success_age_seconds : Option ℕ
  pub last_tick_state : Option TickState
  pub pending_payments : Option ℕ
  pub oldest_pending_age_seconds : Option ℕ
  pub dormant_ticks : ℕ
  pub failed_ticks : ℕ

abbrev pub is_tick : TickRecord → Bool
is_tick r = elim r.event [ tick ↦ true | dormant_tick ↦ false ]

abbrev pub is_success : Option TickState → Bool
is_success none = false
is_success (some completed) = true
is_success (some stopped) = false

-- `xs.at(-1)`
abbrev pub last? {ℓ} : {A : Type ℓ} → List A → Option A
last? [] = none
last? (x ∷ []) = some x
last? (x ∷ y ∷ ys) = last? (y ∷ ys)

abbrev drop {ℓ} : {A : Type ℓ} → ℕ → List A → List A
drop zero xs = xs
drop (suc n) [] = []
drop (suc n) (x ∷ xs) = drop n xs

-- `xs.slice(-n)`, which is the whole of `xs` at 0.
abbrev pub slice_last {ℓ} : {A : Type ℓ} → ℕ → List A → List A
slice_last n xs = if n == 0 then xs else drop (length xs - n) xs

abbrev pub ticks_until : ℕ → List TickRecord → List TickRecord
ticks_until now records = keep is_tick (keep (λ r. leb r.time now) records)

-- The last record of a tick that completed.
unfoldable pub last_success : ℕ → List TickRecord → Option TickRecord
last_success now records = last? (keep (λ r. is_success r.state) (ticks_until now records))

abbrev is_stale : FreshnessOptions → Option TickRecord → Bool
is_stale o none = true
is_stale o (some r) = ltb (o.max_success_age_seconds * 1000) (o.now - r.time)

abbrev is_dormant : Option TickRecord → Bool
is_dormant none = false
is_dormant (some r) = not (is_tick r)

abbrev pub age_of : Option ℕ → ℕ
age_of none = 0
age_of (some n) = n

abbrev is_aging : FreshnessOptions → Option TickRecord → Bool
is_aging o none = false
is_aging o (some r) = ltb o.max_backlog_age_seconds (age_of r.oldest_pending_age_seconds)

abbrev all_failed : FreshnessOptions → List TickRecord → Bool
all_failed o ran =
    leb o.consecutive_failure_limit (length ran)
    && every (λ r. not (is_success r.state)) (slice_last o.consecutive_failure_limit ran)

abbrev push_if : Bool → Reason → List Reason → List Reason
push_if true r rs = r ∷ rs
push_if false r rs = rs

-- The reasons, in the order of the source.
unfoldable pub reasons_of : FreshnessOptions → List TickRecord → List Reason
unfolding last_success
reasons_of o records =
    let last = last_success o.now records in
    push_if (is_stale o last) no_successful_tick (
      push_if (is_dormant (last? (keep (λ r. leb r.time o.now) records))) dormant_while_expected (
        push_if (all_failed o (ticks_until o.now records)) consecutive_failures
          (push_if (is_aging o last) backlog_aging [])))

abbrev status_of : List Reason → Status
status_of [] = fresh
status_of _ = alert

abbrev age_seconds : ℕ → Option TickRecord → Option ℕ
age_seconds now none = none
age_seconds now (some r) = some ((now - r.time + 500) / 1000)

abbrev state_of : Option TickRecord → Option TickState
state_of none = none
state_of (some r) = r.state

abbrev pending_of : Option TickRecord → Option ℕ
pending_of none = none
pending_of (some r) = r.pending_payments

abbrev oldest_of : Option TickRecord → Option ℕ
oldest_of none = none
oldest_of (some r) = r.oldest_pending_age_seconds

-- `evaluateWorkerFreshness`, with the defaults of the options filled in.
unfoldable pub evaluate_worker_freshness : List TickRecord → FreshnessOptions → FreshnessResult
evaluate_worker_freshness records o =
    let ran = ticks_until o.now records in
    let last = last_success o.now records in
    let reasons = reasons_of o records in
    record {
      status = if not o.expected_active then not_expected else status_of reasons;
      reasons = if not o.expected_active then [] else reasons;
      last_success_age_seconds = age_seconds o.now last;
      last_tick_state = state_of (last? ran);
      pending_payments = pending_of last;
      oldest_pending_age_seconds = oldest_of last;
      dormant_ticks = length (keep (λ r. not (is_tick r)) (keep (λ r. leb r.time o.now) records));
      failed_ticks = length (keep (λ r. not (is_success r.state)) ran);
    }
