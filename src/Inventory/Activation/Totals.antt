-- ===== src/Inventory/Activation/Totals.antt =====
-- What the approved totals say of the rows.
use zao_rental.Common.{◌≡◌, ◌⊎◌, true, false, Option, none, some}
use zao_rental.Release.Backup.{same_codes}
use zao_rental.Inventory.Activation.{Units, Row, is_mapped, Family, name_of}

-- The quantity, if it is a number, is not below zero.
abbrev pub IsAdded : Option Units → Type 0
IsAdded none = Unit {0}
IsAdded (some u) = u.under ≡ 0

-- The row does not take units away.
abbrev pub IsNonNegative : Row → Type 0
IsNonNegative r = IsAdded r.quantity

-- A row of another family, a row with a booking size, or a row of no units.
abbrev pub IsEmptyOrMapped : Family → Row → Type 0
IsEmptyOrMapped f r =
    (same_codes r.family (name_of f) ≡ false)
    ⊎ ((is_mapped r ≡ true) ⊎ ((u : Units) × (r.quantity ≡ some u) × (u.over ≡ u.under)))
