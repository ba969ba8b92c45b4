-- ===== src/Contracts/Time.antt =====
-- Timestamps. A text is modelled by what the program can learn of it: `Date.parse` gives a number
-- of milliseconds since 1970 or NaN, and `timestamp` of packages/contracts/src/pricing.ts accepts
-- only the ISO form with a year from 2000 to 2099.
use zao_rental.Common.{
  ℕ, ◌≡◌, Bool, true, false, ◌&&◌, Option, none, some, arith, ltb, leb, if◌then◌else◌,
}

pub data Stamp : Type 0 where
  garbage : Stamp
  loose strict : ℕ → Stamp

-- `Date.parse`; `none` is NaN.
abbrev pub time_of : Stamp → Option ℕ
time_of garbage = none
time_of (loose t) = some t
time_of (strict t) = some t

abbrev pub is_strict : Stamp → Bool
is_strict (strict t) = true
is_strict _ = false

-- 2000-01-01 and 2100-01-01 in milliseconds.
abbrev first_strict : ℕ
first_strict = 946684800000

abbrev last_strict : ℕ
last_strict = 4102444800000

-- `new Date(ms).toISOString()`
unfoldable pub iso : ℕ → Stamp
iso t = if leb first_strict t && ltb t last_strict then strict t else loose t

pub time_of-iso : (t : ℕ) → time_of (iso t) ≡ some t
unfolding iso
time_of-iso t = ground arith

-- Comparisons of JavaScript numbers: false as soon as one side is NaN.
abbrev pub later : Option ℕ → Option ℕ → Bool
later none b = false
later (some a) none = false
later (some a) (some b) = ltb b a

abbrev pub is_finite : Option ℕ → Bool
is_finite none = false
is_finite (some _) = true
