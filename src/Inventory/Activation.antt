-- ===== src/Inventory/Activation.antt =====
-- scripts/provisional-activation-plan.ts: two tables of provisional capacity are read, and their
-- payloads are written where all totals are those that were approved. A text is the list of its code
-- units. The files are parameters, and so is `Number(text)`: `none` is NaN, and a number is a difference
-- of two whole multiples of one part of a unit, of which `parts` make a unit; sums of such numbers are
-- taken to be exact.
pub mod Csv
pub mod Totals
mod Tests
use zao_rental.Common.{
  ℕ, zero, suc, ◌+◌, ◌-◌, ◌*◌, ◌/◌, ◌%◌, ◌^◌, ◌≤◌, ◌<◌, min, max, ◌≡◌, refl, sym, ap, subst, ◌∙◌,
  ◌≢◌, ◌↔◌, ◌⊎◌, inl, inr, Bool, true, false, not, ◌&&◌, ◌||◌, Option, none, some, List, [], ◌∷◌,
  ◌++◌, map, arith, String, str_eq, ltb, leb, ◌==◌, if◌then◌else◌, ltb→lt, leb→le, le→leb, ==_iff,
  ==_refl, Bool-cases, &&-eq-true, Option-cases, length, length-append, any, every, keep, find,
  total, All, All-append, All-imp, total-append, keep-append, includes, In, In-append_left,
  In-append_right, In-append-cases, All-In, In-keep, keep-In, find-In, any-In, every-In,
}
use zao_rental.Contracts.Flow.{codes}
use zao_rental.Common.Checked.{Checked, passed, refused, ◌>>=◌, ◌>>◌, ensure}
use zao_rental.Release.Backup.{same_codes}

abbrev pub quote : ℕ
quote = 34

abbrev pub comma : ℕ
comma = 44

-- The loop of `parseCsvLine`: whether it is within quotes, the field so far, and the rest of the line.
unfoldable pub scan : Bool → List ℕ → List ℕ → List (List ℕ)
scan inside field [] = field ∷ []
scan true field (c ∷ []) = (if c == quote then field else field ++ (c ∷ [])) ∷ []
scan true field (c ∷ (d ∷ cs)) = elim (c == quote) [
  | true ↦ elim (d == quote) [
    | true ↦ scan true (field ++ (quote ∷ [])) cs
    | false ↦ scan false field (d ∷ cs)
  ]
  | false ↦ scan true (field ++ (c ∷ [])) (d ∷ cs)
]
scan false field (c ∷ cs) = elim (c == quote) [
  | true ↦ scan true field cs
  | false ↦ elim (c == comma) [
    | true ↦ field ∷ scan false [] cs
    | false ↦ scan false (field ++ (c ∷ [])) cs
  ]
]

-- `parseCsvLine`
abbrev pub parse_csv_line : List ℕ → List (List ℕ)
parse_csv_line line = scan false [] line

-- A number: `over - under` parts of a unit.
pub record Units : Type 0 where
  pub over : ℕ
  pub under : ℕ

pub record Row : Type 0 where
  pub source : List ℕ
  pub family : List ℕ
  pub age : List ℕ
  pub source_size : List ℕ
  pub booking_size : Option (List ℕ)
  pub quantity : Option Units
  pub unit_note : List ℕ
  pub provenance : List ℕ

pub data PlanError : Type 0 where
  unexpected_csv_header csv_status_booking_size_mismatch totals_failed : PlanError

-- A field of the line; a missing one is no text, and stands here as the empty one.
abbrev field_at : ℕ → List (List ℕ) → List ℕ
field_at n [] = []
field_at zero (f ∷ fs) = f
field_at (suc n) (f ∷ fs) = field_at n fs

abbrev pub non_empty : List ℕ → Option (List ℕ)
non_empty [] = none
non_empty (c ∷ cs) = some (c ∷ cs)

-- `sizeMappingStatus==='MAPPED'`
abbrev pub is_mapped : Row → Bool
is_mapped r = elim r.booking_size [ none ↦ false | some s ↦ true ]

abbrev text_at : ℕ → List (List ℕ) → Option (List ℕ)
text_at n [] = none
text_at zero (f ∷ fs) = some f
text_at (suc n) (f ∷ fs) = text_at n fs

-- `fields.join(',')`
abbrev pub joined : List (List ℕ) → List ℕ
joined [] = []
joined (f ∷ []) = f
joined (f ∷ (g ∷ gs)) = f ++ comma ∷ joined (g ∷ gs)

abbrev expected_header : List (List ℕ)
expected_header = map codes (
    "source"
    ∷ ("family"
        ∷ ("age"
            ∷ ("source_size"
                ∷ ("booking_size"
                    ∷ ("size_mapping_status"
                        ∷ ("quantity" ∷ ("unit_note" ∷ ("provenance" ∷ [])))))))))

abbrev same_bool : Bool → Bool → Bool
same_bool true b = b
same_bool false b = not b

pub data Family : Type 0 where
  ski snowboard ski_boot snowboard_boot wear_jacket wear_pants : Family

abbrev pub name_of : Family → List ℕ
name_of ski = codes "SKI"
name_of snowboard = codes "SNOWBOARD"
name_of ski_boot = codes "SKI_BOOT"
name_of snowboard_boot = codes "SNOWBOARD_BOOT"
name_of wear_jacket = codes "WEAR_JACKET"
name_of wear_pants = codes "WEAR_PANTS"

abbrev pub families : List Family
families = ski ∷ (snowboard ∷ (ski_boot ∷ (snowboard_boot ∷ (wear_jacket ∷ (wear_pants ∷ [])))))

-- A sum with NaN in it is NaN.
abbrev pub add : Option Units → Option Units → Option Units
add none b = none
add (some a) none = none
add (some a) (some b) = some (record { over = a.over + b.over; under = a.under + b.under })

abbrev pub is_counted : Family → Bool → Row → Bool
is_counted f mapped_only r = same_codes r.family (name_of f) && (not mapped_only || is_mapped r)

-- `sumBy`
unfoldable pub sum_by : List Row → Family → Bool → Option Units
sum_by [] f mapped_only = some (record { over = 0; under = 0 })
sum_by (r ∷ rs) f mapped_only =
    let rest = sum_by rs f mapped_only in
    if is_counted f mapped_only r then add r.quantity rest else rest

-- The approved totals.
abbrev pub expected_raw : Family → ℕ
expected_raw ski = 311
expected_raw snowboard = 260
expected_raw ski_boot = 311
expected_raw snowboard_boot = 309
expected_raw wear_jacket = 115
expected_raw wear_pants = 115

abbrev pub expected_mapped : Family → ℕ
expected_mapped ski = 311
expected_mapped snowboard = 260
expected_mapped ski_boot = 311
expected_mapped snowboard_boot = 309
expected_mapped wear_jacket = 115
expected_mapped wear_pants = 115

-- Source A has no wear.
abbrev pub expected_source_a : Family → Option ℕ
expected_source_a ski = some 213
expected_source_a snowboard = some 205
expected_source_a ski_boot = some 242
expected_source_a snowboard_boot = some 241
expected_source_a _ = none

abbrev pub expected_source_b : Family → ℕ
expected_source_b ski = 98
expected_source_b snowboard = 55
expected_source_b ski_boot = 69
expected_source_b snowboard_boot = 68
expected_source_b wear_jacket = 115
expected_source_b wear_pants = 115

abbrev pub expected_source_b_mapped : Family → Option ℕ
expected_source_b_mapped ski_boot = some 69
expected_source_b_mapped snowboard_boot = some 68
expected_source_b_mapped _ = none

abbrev pub is_total : ℕ → Option Units → ℕ → Bool
is_total parts none n = false
is_total parts (some u) n = u.over == n * parts + u.under

abbrev pub is_total_if : ℕ → Option Units → Option ℕ → Bool
is_total_if parts m none = true
is_total_if parts m (some n) = is_total parts m n

-- The checks of one family. A table that has no entry for it makes none.
abbrev pub family_passes : ℕ → List Row → List Row → Family → Bool
family_passes parts a b f =
    is_total_if parts (sum_by a f false) (expected_source_a f)
    && is_total parts (sum_by b f false) (expected_source_b f)
    && is_total_if parts (sum_by b f true) (expected_source_b_mapped f)
    && is_total parts (add (sum_by a f false) (sum_by b f false)) (expected_raw f)
    && is_total parts (add (sum_by a f true) (sum_by b f true)) (expected_mapped f)

pub record Bucket : Type 0 where
  pub family : List ℕ
  pub age : List ℕ
  pub source_size : List ℕ
  pub booking_size : Option (List ℕ)
  pub quantity : Option Units
  pub provenance : List ℕ

-- `payloadFor`, less the constants of its source.
unfoldable pub payload_for : List Row → List Bucket
payload_for rows =
    map
      (λ r. record {
        family = r.family;
        age = r.age;
        source_size = r.source_size;
        booking_size = r.booking_size;
        quantity = r.quantity;
        provenance = r.provenance;
      })
      rows

module _ (number : List ℕ → Option Units) where
  -- `Number(quantity)`; where the field is missing, NaN.
  abbrev quantity_of : Option (List ℕ) → Option Units
  quantity_of none = none
  quantity_of (some text) = number text

  abbrev row_of : List (List ℕ) → Row
  row_of fs = record {
    source = field_at 0 fs;
    family = field_at 1 fs;
    age = field_at 2 fs;
    source_size = field_at 3 fs;
    booking_size = non_empty (field_at 4 fs);
    quantity = quantity_of (text_at 6 fs);
    unit_note = field_at 7 fs;
    provenance = field_at 8 fs;
  }

  -- One line of the table.
  unfoldable pub read_row : List ℕ → Checked PlanError Row
  read_row line = do
    let fs = parse_csv_line line
    let row = row_of fs
    ensure (same_bool (is_mapped row) (same_codes (field_at 5 fs) (codes "MAPPED")))
        csv_status_booking_size_mismatch
    passed row

  abbrev pub read_rows : List (List ℕ) → Checked PlanError (List Row)
  read_rows [] = passed []
  read_rows (line ∷ lines) = do row ← read_row line; rows ← read_rows lines; passed (row ∷ rows)

  -- `readCapacityCsv` of the first line and the others.
  unfoldable pub read_capacity_csv : List ℕ → List (List ℕ) → Checked PlanError (List Row)
  read_capacity_csv header lines = do
    ensure (same_codes (joined (parse_csv_line header)) (joined expected_header))
        unexpected_csv_header
    read_rows lines

  -- `main`: the two payloads, where every check passes.
  unfoldable pub activation_plan :
      ℕ
      → List ℕ
      → List (List ℕ)
      → List ℕ
      → List (List ℕ)
      → Checked PlanError (List Bucket × List Bucket)
  activation_plan parts header_a lines_a header_b lines_b = do
    a ← read_capacity_csv header_a lines_a
    b ← read_capacity_csv header_b lines_b
    ensure (every (family_passes parts a b) families) totals_failed
    passed (payload_for a, payload_for b)
