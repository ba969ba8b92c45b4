-- ===== src/Inventory/Activation/Tests.antt =====
-- A line with quotes, and the smallest plan that is made.
use zao_rental.Common.{
  true, ◌==◌, ℕ, ◌+◌, ◌-◌, ◌*◌, ◌≡◌, refl, false, ◌&&◌, Option, none, some, List, [], ◌∷◌, map, leb,
  if◌then◌else◌,
}
use zao_rental.Contracts.Flow.{codes}
use zao_rental.Common.Checked.{passed, refused}
use zao_rental.Inventory.Activation.{
  Units, Row, PlanError, csv_status_booking_size_mismatch, read_row, read_capacity_csv,
  activation_plan, payload_for, Bucket, sum_by, parse_csv_line,
}
use zao_rental.Inventory.Activation.Csv.{
  Cell, plain, quoted, print_line, text_of, parse_csv_line-print,
}

-- Whole numbers in decimal.
abbrev number_from : ℕ → List ℕ → Option ℕ
number_from n [] = some n
number_from n (c ∷ cs) =
    let rest = number_from (n * 10 + (c - 48)) cs in if leb 48 c && leb c 57 then rest else none

abbrev positive : Option ℕ → Option Units
positive none = none
positive (some n) = some (record { over = n; under = 0 })

abbrev number : List ℕ → Option Units
number [] = some (record { over = 0; under = 0 })
number (c ∷ cs) = elim (c == 45) [
  | true ↦ elim (number_from 0 cs) [ none ↦ none | some n ↦ some (record { over = 0; under = n }) ]
  | false ↦ positive (number_from 0 (c ∷ cs))
]

abbrev cells : List Cell
cells = quoted (codes "row 3, \"row 4\"") ∷ (plain [] ∷ (plain (codes "213") ∷ []))

parse_csv_line-print_example :
    parse_csv_line (print_line (plain (codes "SKI")) cells) ≡ codes "SKI" ∷ map text_of cells
parse_csv_line-print_example =
    parse_csv_line-print (plain (codes "SKI")) cells refl (tt, (refl, (refl, tt)))

abbrev header : List ℕ
header =
    codes
      "source,family,age,source_size,booking_size,size_mapping_status,quantity,unit_note,provenance"

abbrev lines_a : List (List ℕ)
lines_a = map codes (
    "A,SKI,ADULT,150,150 cm,MAPPED,213,,\"rows 3, 4\""
    ∷ ("A,SNOWBOARD,ADULT,145,145 cm,MAPPED,205,,row 5"
        ∷ ("A,SKI_BOOT,ADULT,25,25 cm,MAPPED,242,,row 6"
            ∷ ("A,SNOWBOARD_BOOT,ADULT,25,25 cm,MAPPED,241,,row 7" ∷ []))))

abbrev lines_b : List (List ℕ)
lines_b = map codes (
    "B,SKI,ADULT,150,150 cm,MAPPED,98,,row 3"
    ∷ ("B,SNOWBOARD,ADULT,145,145 cm,MAPPED,55,,row 4"
        ∷ ("B,SKI_BOOT,ADULT,25X,25/25.5 cm,MAPPED,69,,row 5"
            ∷ ("B,SNOWBOARD_BOOT,ADULT,25X,25/25.5 cm,MAPPED,68,,row 6"
                ∷ ("B,WEAR_JACKET,ADULT,M,M,MAPPED,115,,row 7"
                    ∷ ("B,WEAR_PANTS,ADULT,M,M,MAPPED,115,,row 8"
                        ∷ ("B,WEAR_PANTS,ADULT,S,,UNRESOLVED,0,,row 9" ∷ [])))))))

abbrev rows : List (List ℕ) → List Row
rows lines = elim (read_capacity_csv number header lines) [ passed rs ↦ rs | refused e ↦ [] ]

mismatch_refused :
    read_row number (codes "A,SKI,ADULT,150,,MAPPED,213,,row 3")
    ≡ refused csv_status_booking_size_mismatch
unfolding read_row zao_rental.Inventory.Activation.scan
mismatch_refused = refl

abbrev payloads : List Bucket × List Bucket
unfolding read_capacity_csv
payloads = (payload_for (rows lines_a), payload_for (rows lines_b))

-- Rows without a booking size that cancel are not seen.
abbrev lines_canceling : List (List ℕ)
lines_canceling =
    codes "B,SKI,ADULT,160,,UNRESOLVED,5,,row 10"
    ∷ (codes "B,SKI,ADULT,160,,UNRESOLVED,-5,,row 11" ∷ lines_b)

abbrev payloads_canceling : List Bucket × List Bucket
unfolding read_capacity_csv
payloads_canceling = (payload_for (rows lines_a), payload_for (rows lines_canceling))

canceling_planned :
    activation_plan number 1 header lines_a header lines_canceling ≡ passed payloads_canceling
unfolding activation_plan read_capacity_csv zao_rental.Inventory.Activation.scan read_row sum_by
canceling_planned = refl
