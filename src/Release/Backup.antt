-- ===== src/Release/Backup.antt =====
-- Production backups: the objects' keys, which scripts/production-backup.ts writes and
-- scripts/production-backup-object-get.ts and scripts/production-restore-evidence.ts read, and the run.
-- A text is the list of its characters' codes.
pub mod Keys
pub mod Run
pub mod Order
pub mod Cleanup
pub mod Env
mod Tests
use zao_rental.Common.{
  ℕ, zero, suc, ◌+◌, ◌-◌, ◌*◌, ◌/◌, ◌%◌, ◌^◌, ◌≤◌, ◌<◌, min, max, ◌≡◌, refl, sym, ap, subst, ◌∙◌,
  ◌≢◌, ◌↔◌, ◌⊎◌, inl, inr, Bool, true, false, not, ◌&&◌, ◌||◌, Option, none, some, List, [], ◌∷◌,
  ◌++◌, map, arith, String, str_eq, ltb, leb, ◌==◌, if◌then◌else◌, ltb→lt, leb→le, le→leb, ==_iff,
  ==_refl, Bool-cases, &&-eq-true, Option-cases, length, length-append, any, every, keep, find,
  total, All, All-append, All-imp, total-append, keep-append, includes, In, In-append_left,
  In-append_right, In-append-cases, All-In, In-keep, keep-In, find-In, any-In, every-In,
}
use zao_rental.Contracts.Flow.{codes}
use zao_rental.Common.Checked.{Checked, passed, refused, ◌>>=◌, ◌>>◌, ensure}

pub data BackupError : Type 0 where
  key_invalid host_rejected port_rejected bucket_mismatch_rejected pg_dump_failed
        special_file_rejected empty_archive_rejected archive_validation_failed encryption_invalid
        adapter_failed :
      BackupError

pub data BackupClass : Type 0 where
  hourly daily : BackupClass

-- An instant by its fields in UTC, as the library gives them.
pub record UtcTime : Type 0 where
  pub year : ℕ
  pub month : ℕ
  pub day : ℕ
  pub hour : ℕ
  pub minute : ℕ
  pub second : ℕ
  pub milli : ℕ

unfoldable pub digit : ℕ → ℕ
digit n = b'0' + n % 10

abbrev pub two : ℕ → List ℕ
two n = digit (n / 10) ∷ digit n ∷ []

abbrev pub three : ℕ → List ℕ
three n = digit (n / 100) ∷ two n

-- A year of at most four digits, padded to four.
abbrev pub four : ℕ → List ℕ
four n = digit (n / 1000) ∷ three n

-- `String(at.getUTCFullYear())` of such a year: no digit stands in for a missing one.
abbrev pub year_digits : ℕ → List ℕ
year_digits n =
    if ltb n 10
    then digit n ∷ []
    else if ltb n 100
    then two n
    else if ltb n 1000
    then three n
    else four n

abbrev pub class_codes : BackupClass → List ℕ
class_codes hourly = codes "hourly"
class_codes daily = codes "daily"

-- `toISOString()`, with `d` between the parts of a date, `t` between those of a time, and `p` before
-- the fraction.
abbrev pub stamp : ℕ → ℕ → UtcTime → List ℕ
stamp t p at =
    four at.year
    ++ (b'-'
        ∷ (two at.month
            ++ (b'-'
                ∷ (two at.day
                    ++ (b'T'
                        ∷ (two at.hour
                            ++ (t
                                ∷ (two at.minute
                                    ++ (t
                                        ∷ (two at.second
                                            ++ (p ∷ (three at.milli ++ (b'Z' ∷ [])))))))))))))

abbrev pub iso : UtcTime → List ℕ
iso at = stamp b':' b'.' at

-- What follows the class in a key.
abbrev pub key_tail : UtcTime → List ℕ
key_tail at =
    b'/'
    ∷ (year_digits at.year
        ++ (b'/'
            ∷ (two at.month
                ++ (b'/' ∷ (two at.day ++ (b'/' ∷ (stamp b'-' b'-' at ++ codes ".dump.age")))))))

-- `objectKey`; the time in it is `toISOString()` with `:` and `.` replaced.
unfoldable pub object_key : BackupClass → UtcTime → List ℕ
object_key c at = class_codes c ++ key_tail at

abbrev pub is_digit : ℕ → Bool
is_digit c = leb b'0' c && leb c b'9'

-- A character of a fixed pattern: any digit, or one that is given.
pub data Token : Type 0 where
  any_digit : Token
  just : ℕ → Token

abbrev pub fits : Token → ℕ → Bool
fits any_digit c = is_digit c
fits (just d) c = c == d

abbrev pub matches : List Token → List ℕ → Bool
matches [] [] = true
matches [] (c ∷ cs) = false
matches (t ∷ ts) [] = false
matches (t ∷ ts) (c ∷ cs) = fits t c && matches ts cs

abbrev literal : List ℕ → List Token
literal [] = []
literal (c ∷ cs) = just c ∷ literal cs

abbrev digits : ℕ → List Token
digits zero = []
digits (suc n) = any_digit ∷ digits n

-- `BACKUP_OBJECT_KEY` after the class.
abbrev pub tail_pattern : List Token
tail_pattern =
    (just b'/' ∷ digits 4)
    ++ ((just b'/' ∷ digits 2)
        ++ ((just b'/' ∷ digits 2)
            ++ ((just b'/' ∷ digits 4)
                ++ ((just b'-' ∷ digits 2)
                    ++ ((just b'-' ∷ digits 2)
                        ++ ((just b'T' ∷ digits 2)
                            ++ ((just b'-' ∷ digits 2)
                                ++ ((just b'-' ∷ digits 2)
                                    ++ ((just b'-' ∷ digits 3)
                                        ++ literal (codes "Z.dump.age"))))))))))

-- What is left of a text after another.
abbrev pub after_prefix : List ℕ → List ℕ → Option (List ℕ)
after_prefix [] cs = some cs
after_prefix (p ∷ ps) [] = none
after_prefix (p ∷ ps) (c ∷ cs) = if p == c then after_prefix ps cs else none

abbrev or_else : Option (List ℕ) → Option (List ℕ) → Option (List ℕ)
or_else (some a) b = some a
or_else none b = b

-- What follows `hourly` or `daily`.
abbrev pub tail_of : List ℕ → Option (List ℕ)
tail_of key = or_else (after_prefix (codes "hourly") key) (after_prefix (codes "daily") key)

abbrev pub is_object_key : List ℕ → Bool
is_object_key key = elim (tail_of key) [ none ↦ false | some cs ↦ matches tail_pattern cs ]

-- `text.replace(/\r?\n$/,'')`
abbrev pub without_newline : List ℕ → List ℕ
without_newline [] = []
without_newline (c ∷ cs) =
    let rest = without_newline cs in
    if c == 10 && length cs == 0
    then []
    else if c == 13 && length cs == 1 && includes 10 cs
    then []
    else c ∷ rest

abbrev pub is_space : ℕ → Bool
is_space c = (leb 9 c && leb c 13) || c == 32

-- `parseObjectKey`
unfoldable pub parse_object_key : List ℕ → Checked BackupError (List ℕ)
parse_object_key text = do
  let key = without_newline text
  ensure (leb (length key) 200 && not (any is_space key) && is_object_key key) key_invalid
  passed key

abbrev pub skip : ℕ → List ℕ → List ℕ
skip zero cs = cs
skip (suc n) [] = []
skip (suc n) (c ∷ cs) = skip n cs

abbrev pub first : ℕ → List ℕ → List ℕ
first zero cs = []
first (suc n) [] = []
first (suc n) (c ∷ cs) = c ∷ first n cs

abbrev pub same_codes : List ℕ → List ℕ → Bool
same_codes [] [] = true
same_codes [] (b ∷ ys) = false
same_codes (a ∷ xs) [] = false
same_codes (a ∷ xs) (b ∷ ys) = a == b && same_codes xs ys

-- The groups of the expression, in a key that `parseObjectKey` accepts.
abbrev pub is_consistent : List ℕ → Bool
is_consistent cs =
    same_codes (first 4 (skip 1 cs)) (first 4 (skip 12 cs))
    && same_codes (first 2 (skip 6 cs)) (first 2 (skip 17 cs))
    && same_codes (first 2 (skip 9 cs)) (first 2 (skip 20 cs))

-- `assertKeyConsistent`, after `parseObjectKey`.
unfoldable pub assert_key_consistent : List ℕ → Checked BackupError (Unit {0})
assert_key_consistent key =
    ensure (elim (tail_of key) [ none ↦ false | some cs ↦ is_consistent cs ]) key_invalid

abbrev iso_at : List ℕ → List ℕ
iso_at cs =
    first 10 cs
    ++ (b'T'
        ∷ (first 2 (skip 11 cs)
            ++ (b':'
                ∷ (first 2 (skip 14 cs)
                    ++ (b':'
                        ∷ (first 2 (skip 17 cs)
                            ++ (b'.' ∷ (first 3 (skip 20 cs) ++ (b'Z' ∷ [])))))))))

-- `keyTimeIso`, after `parseObjectKey`.
unfoldable pub key_time_iso : List ℕ → Checked BackupError (List ℕ)
key_time_iso key = elim (tail_of key) [
  | none ↦ refused key_invalid
  | some cs ↦ passed (iso_at (skip 12 cs))
]
