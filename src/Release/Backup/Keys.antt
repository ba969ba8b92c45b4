-- ===== src/Release/Backup/Keys.antt =====
-- A key that the backup writes is read back as the time that it was written for.
use zao_rental.Release.Backup.{
  is_object_key, iso, key_time_iso, passed, assert_key_consistent, parse_object_key, is_space,
  BackupClass, hourly, daily, UtcTime, digit, object_key, two, four, stamp, class_codes,
  year_digits, is_digit, matches, tail_pattern, without_newline,
}
use zao_rental.Common.{
  ℕ, ◌≤◌, ◌≡◌, refl, sym, subst, ◌++◌, Bool, true, false, List, [], ◌∷◌, arith, ltb, leb, ==_refl,
  length, any, every,
}
use zao_rental.Contracts.Flow.{codes}

digit-is_digit : (n : ℕ) → is_digit (digit n) ≡ true
unfolding digit
digit-is_digit n = ground arith

-- The tail and the key of an instant whose year has four digits.
abbrev padded_tail : UtcTime → List ℕ
padded_tail at =
    b'/'
    ∷ (four at.year
        ++ (b'/'
            ∷ (two at.month
                ++ (b'/' ∷ (two at.day ++ (b'/' ∷ (stamp b'-' b'-' at ++ codes ".dump.age")))))))

abbrev padded_key : BackupClass → UtcTime → List ℕ
padded_key c at = class_codes c ++ padded_tail at

year_digits-four : (n : ℕ) → 1000 ≤ n → year_digits n ≡ four n
year_digits-four n h = ground arith

object_key-padded :
    (c : BackupClass) (at : UtcTime) → 1000 ≤ at.year → object_key c at ≡ padded_key c at
unfolding object_key
object_key-padded c at h = rw (year_digits-four at.year h) refl

-- All characters of a key's tail fit.
padded_tail-matches : (at : UtcTime) → matches tail_pattern (padded_tail at) ≡ true
padded_tail-matches at = simp digit-is_digit

digit-printed : (n : ℕ) → (48 ≤ digit n) × (digit n ≤ 57)
unfolding digit
digit-printed n = ground arith

-- A text without line ends stays as it is.
abbrev is_plain : ℕ → Bool
is_plain c = ltb 32 c

without_newline-plain : (cs : List ℕ) → every is_plain cs ≡ true → without_newline cs ≡ cs
without_newline-plain [] h = refl
without_newline-plain (c ∷ cs) h =
    let ih = without_newline-plain cs (ground (arith, h)) in ground (arith, h, ih)

plain_digit : (n : ℕ) → is_plain (digit n) ≡ true
plain_digit n = let d = digit-printed n in ground (arith, d)

padded_key-plain : (c : BackupClass) (at : UtcTime) → every is_plain (padded_key c at) ≡ true
padded_key-plain hourly at = simp plain_digit
padded_key-plain daily at = simp plain_digit

is_space-plain : (cs : List ℕ) → every is_plain cs ≡ true → any is_space cs ≡ false
is_space-plain [] h = refl
is_space-plain (c ∷ cs) h = let ih = is_space-plain cs (ground (arith, h)) in ground (arith, h, ih)

length-padded : (c : BackupClass) (at : UtcTime) → leb (length (padded_key c at)) 200 ≡ true
length-padded hourly at = refl
length-padded daily at = refl

is_object_key-padded : (c : BackupClass) (at : UtcTime) → is_object_key (padded_key c at) ≡ true
is_object_key-padded hourly at = padded_tail-matches at
is_object_key-padded daily at = padded_tail-matches at

parse_object_key-padded :
    (c : BackupClass) (at : UtcTime) → parse_object_key (padded_key c at) ≡ passed (padded_key c at)
unfolding parse_object_key
parse_object_key-padded c at =
    let key = padded_key c at in
    let whole = without_newline-plain key (padded_key-plain c at) in
    let blank = is_space-plain key (padded_key-plain c at) in
    ground (arith, whole, blank, is_object_key-padded c at, length-padded c at)

assert_key_consistent-padded :
    (c : BackupClass) (at : UtcTime) → assert_key_consistent (padded_key c at) ≡ passed tt
unfolding assert_key_consistent
assert_key_consistent-padded hourly at = simp ==_refl
assert_key_consistent-padded daily at = simp ==_refl

key_time_iso-padded :
    (c : BackupClass) (at : UtcTime) → key_time_iso (padded_key c at) ≡ passed (iso at)
unfolding key_time_iso
key_time_iso-padded hourly at = refl
key_time_iso-padded daily at = refl

-- For every instant of the years 1000 to 9999, the key that a backup is written under is accepted, its
-- date agrees with its time, and the instant is read back from it.
pub object_key-read :
    (c : BackupClass) (at : UtcTime)
    → 1000 ≤ at.year
    → at.year ≤ 9999
    → (parse_object_key (object_key c at) ≡ passed (object_key c at))
      × (assert_key_consistent (object_key c at) ≡ passed tt)
      × (key_time_iso (object_key c at) ≡ passed (iso at))
object_key-read c at low high =
    subst
      (λ k.
        (parse_object_key k ≡ passed k)
        × (assert_key_consistent k ≡ passed tt)
        × (key_time_iso k ≡ passed (iso at)))
      (sym (object_key-padded c at low))
      (parse_object_key-padded c at, assert_key_consistent-padded c at, key_time_iso-padded c at)
