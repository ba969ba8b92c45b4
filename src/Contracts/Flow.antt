-- ===== src/Contracts/Flow.antt =====
-- Payment requests and observations, packages/contracts/src/rental-flow.ts. Texts that the program
-- only compares are native strings; an amount is a natural number of yen.
use zao_rental.Common.{
  ℕ, ◌+◌, Bool, true, false, not, ◌&&◌, ◌||◌, Option, none, some, List, [], ◌∷◌, String, str_eq,
  leb, ◌==◌, if◌then◌else◌, length, every, includes,
}
use Prim.Native.Char.{code}
use zao_rental.Contracts.Time.{Stamp, time_of, is_finite}

-- `other` is any text that names none of the four.
pub data PaymentStatus : Type 0 where
  pending completed failed canceled other : PaymentStatus

pub record PaymentRequest : Type 0 where
  pub attempt_id : String
  pub booking_id : String
  pub idempotency_key : String
  pub merchant_id : String
  pub location_id : String
  pub amount_jpy : ℕ
  pub currency : String

pub record PaymentObservation : Type 0 where
  pub provider_id : String
  pub reference_id : String
  pub idempotency_key : String
  pub merchant_id : String
  pub location_id : String
  pub amount_jpy : ℕ
  pub currency : String
  pub status : PaymentStatus
  pub updated_at : Stamp
  pub completed_at : Option Stamp

-- The code points of a text.
abbrev pub codes : String → List ℕ
codes String.[] = []
codes (String.◌∷◌ c s) = code c ∷ codes s

-- A character of the class `[A-Za-z0-9_-]`.
unfoldable pub ident_char : ℕ → Bool
ident_char c =
    (leb b'A' c && leb c b'Z')
    || (leb b'a' c && leb c b'z')
    || (leb b'0' c && leb c b'9')
    || c == b'_'
    || c == b'-'

-- `/^[A-Za-z0-9_-]{1,100}$/`
unfoldable pub ident : String → Bool
unfolding ident_char
ident s = let cs = codes s in leb 1 (length cs) && leb (length cs) 100 && every ident_char cs

-- `Number.isSafeInteger` of a natural number.
abbrev pub is_safe : ℕ → Bool
is_safe n = leb n 9007199254740991

abbrev pub is_completed : PaymentStatus → Bool
is_completed completed = true
is_completed _ = false

abbrev pub is_pending : PaymentStatus → Bool
is_pending pending = true
is_pending _ = false

abbrev pub is_failed : PaymentStatus → Bool
is_failed failed = true
is_failed _ = false

-- `['FAILED', 'CANCELED'].includes(status ?? '')`
abbrev pub is_closed : Option PaymentStatus → Bool
is_closed (some failed) = true
is_closed (some canceled) = true
is_closed _ = false

-- `['PENDING', 'COMPLETED', 'FAILED', 'CANCELED'].includes(status)`
abbrev pub is_known : PaymentStatus → Bool
is_known other = false
is_known _ = true

abbrev pub present : Option Stamp → Bool
present none = false
present (some _) = true

abbrev pub time_of? : Option Stamp → Option ℕ
time_of? none = none
time_of? (some s) = time_of s

-- `matchPayment`; `false` stands for the exception PAYMENT_EVIDENCE_MISMATCH.
unfoldable pub match_payment : PaymentRequest → PaymentObservation → Bool
match_payment expected observed =
    ident observed.provider_id
    && str_eq observed.reference_id expected.booking_id
    && str_eq observed.idempotency_key expected.idempotency_key
    && str_eq observed.merchant_id expected.merchant_id
    && str_eq observed.location_id expected.location_id
    && str_eq observed.currency "JPY"
    && is_safe observed.amount_jpy
    && observed.amount_jpy == expected.amount_jpy
    && is_known observed.status
    && is_finite (time_of observed.updated_at)
    && (not (is_completed observed.status) || is_finite (time_of? observed.completed_at))

-- A lower-case hexadecimal digit, and `/^[a-f0-9]{64}$/`.
hex_char : ℕ → Bool
hex_char c = (leb b'a' c && leb c b'f') || (leb b'0' c && leb c b'9')

unfoldable pub is_digest : String → Bool
unfolding hex_char
is_digest s = let cs = codes s in length cs == 64 && every hex_char cs

-- The places of the four dashes in an identifier.
abbrev is_dash_place : ℕ → Bool
is_dash_place i = includes i (8 ∷ 13 ∷ 18 ∷ 23 ∷ [])

id_from : ℕ → List ℕ → Bool
unfolding hex_char
id_from i [] = i == 36
id_from i (c ∷ cs) = (if is_dash_place i then c == b'-' else hex_char c) && id_from (i + 1) cs

-- `flowId`; `false` stands for the exception INVALID_ID.
unfoldable pub flow_id : String → Bool
unfolding id_from
flow_id s = id_from 0 (codes s)
