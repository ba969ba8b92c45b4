-- ===== src/Release/Credential/Reset.antt =====
-- From the provider's answer to a completed reset.
pub mod Exact
use zao_rental.Common.{
  ℕ, zero, suc, Bool, true, false, not, ◌&&◌, ◌||◌, Option, none, some, List, [], ◌∷◌, String,
  str_eq, ltb, leb, ◌==◌, if◌then◌else◌, length, any, every,
}
use Prim.Native.String.{compare, ◌++◌ as str_append}
use Prim.Native.Nat.{Ordering}
use zao_rental.Contracts.Flow.{codes, ident_char}
use zao_rental.Common.Checked.{Checked, passed, ◌>>=◌, ◌>>◌, ensure}
use zao_rental.Release.Names.{
  Code, Service, temporary_password_invalid, reset_response_invalid, pending_reset_required,
  reset_not_completed, role_for, quoted, manager_set, is_digit,
}
use zao_rental.Release.Credential.{Holder, Store, pending_part, held, given}

-- `TEMPORARY_PASSWORD`
abbrev is_temporary : String → Bool
is_temporary s = length (codes s) == 43 && every ident_char (codes s)

-- `assertProductionCredentialTemporaryPassword`
unfoldable pub assert_temporary_password : String → Checked Code (Unit {0})
assert_temporary_password s = ensure (is_temporary s) temporary_password_invalid

-- `productionCredentialTemporaryPasswordSql`
unfoldable pub temporary_password_sql : String → Service → String → Checked Code (List String)
temporary_password_sql database service temporary = do
  assert_temporary_password temporary
  first ← manager_set database
  role ← role_for database service
  name ← quoted role
  passed (
      first
      ∷ str_append "ALTER ROLE " (
          str_append name
            (str_append " NOLOGIN PASSWORD '" (str_append temporary "' VALID UNTIL 'infinity'")))
      ∷ [])

-- The body of a reset's answer; a value that is no text is `none`.
pub record ResetBody : Type 0 where
  pub name : Option String
  pub password : Option String
  pub operations : Option (List (Option String))

abbrev is_named : Option String → String → Bool
is_named none expected = false
is_named (some s) expected = str_eq s expected

abbrev is_hex : ℕ → Bool
is_hex c = is_digit c || (leb b'a' c && leb c b'f')

-- A run of `n` digits, and a dash after it where more follows.
abbrev hex_groups : List ℕ → List ℕ → Bool
hex_groups [] [] = true
hex_groups [] (c ∷ cs) = false
hex_groups (zero ∷ []) [] = true
hex_groups (n ∷ ns) [] = false
hex_groups (zero ∷ ns) (c ∷ cs) = c == b'-' && hex_groups ns cs
hex_groups (suc n ∷ ns) (c ∷ cs) = is_hex c && hex_groups (n ∷ ns) cs

-- `OPERATION_ID`
abbrev is_operation_id : String → Bool
is_operation_id s = hex_groups (8 ∷ 4 ∷ 4 ∷ 4 ∷ 12 ∷ []) (codes s)

-- The texts of a list in which all are identifiers.
abbrev pub ids_of : List (Option String) → Option (List String)
ids_of [] = some []
ids_of (none ∷ xs) = none
ids_of (some s ∷ xs) = elim (ids_of xs) [
  | none ↦ none
  | some ys ↦ if is_operation_id s then some (s ∷ ys) else none
]

-- `new Set(ids).size===ids.length`
abbrev pub is_distinct : List String → Bool
is_distinct [] = true
is_distinct (s ∷ xs) = not (any (str_eq s) xs) && is_distinct xs

-- The checks of `productionCredentialPasswordFromResetResponse`; lengths are in code points.
unfoldable pub check_reset_response : Option ResetBody → String → String → Checked Code Holder
check_reset_response body expected temporary = do
  assert_temporary_password temporary
  b ← given body reset_response_invalid
  ensure (is_named b.name expected) reset_response_invalid
  password ← given b.password reset_response_invalid
  ensure
      (leb 16 (length (codes password))
        && leb (length (codes password)) 512
        && not (str_eq password temporary))
      reset_response_invalid
  operations ← given b.operations reset_response_invalid
  ensure (ltb 0 (length operations)) reset_response_invalid
  ids ← given (ids_of operations) reset_response_invalid
  ensure (is_distinct ids) reset_response_invalid
  passed (record { role = expected; password = password; operation_ids = ids })

-- `sort()`
abbrev before : String → String → Bool
before a b = elim (compare a b) [ Ordering.gt ↦ false | _ ↦ true ]

abbrev pub insert_text : String → List String → List String
insert_text s [] = s ∷ []
insert_text s (x ∷ xs) = let rest = insert_text s xs in if before s x then s ∷ x ∷ xs else x ∷ rest

abbrev pub sort : List String → List String
sort [] = []
sort (x ∷ xs) = insert_text x (sort xs)

abbrev pub same_texts : List String → List String → Bool
same_texts [] [] = true
same_texts [] (b ∷ ys) = false
same_texts (a ∷ xs) [] = false
same_texts (a ∷ xs) (b ∷ ys) = str_eq a b && same_texts xs ys

-- `Object.keys(operationStatus)`
abbrev pub keys_of : List (String × String) → List String
keys_of [] = []
keys_of ((k, v) ∷ m) = k ∷ keys_of m

-- `operationStatus[id]==='finished'`
abbrev pub is_finished : List (String × String) → String → Bool
is_finished [] i = false
is_finished ((k, v) ∷ m) i = if str_eq k i then str_eq v "finished" else is_finished m i

-- The checks of `productionCredentialCompleteReset`. The keys of the statuses are distinct.
unfoldable pub check_complete_reset : ℕ → List (String × String) → Store → Checked Code Holder
check_complete_reset i statuses s = do
  h ← given (held pending_part s i) pending_reset_required
  ensure
      (same_texts (sort (keys_of statuses)) (sort h.operation_ids)
        && every (is_finished statuses) (sort h.operation_ids))
      reset_not_completed
  passed h
