-- ===== src/Contracts/Tests.antt =====
-- Runs of the contracts on concrete data.
use zao_rental.Common.{◌≡◌, refl, inl, true, none, some, [], ◌∷◌}
use zao_rental.Contracts.Hold.{
  Family, ski_boot, pole, HoldItem, HoldMember, HoldConditions, ski_set, adult, regular, v1_4,
  mountain_base, parse_conditions,
}
use zao_rental.Contracts.Hold.Laws.{number_of, parse_conditions-number}
use zao_rental.Contracts.Booking.{booking_state_valid, square_production, confirmed}
use zao_rental.Contracts.Period.{
  Period, Normalized, Slot, ok, normalize_period, new_intake_window, IntakeWindow,
}

production_confirmed : booking_state_valid square_production confirmed ≡ true
unfolding booking_state_valid
production_confirmed = refl

abbrev weekend : Period
weekend = record {
  start_date = 20900;
  end_date = 20901;
  slot = Slot.multiday;
  start_at = none;
  return_by = none;
}

abbrev weekend_times : Normalized
weekend_times = record {
  dates = 20900 ∷ 20901 ∷ [];
  days = 2;
  starts_at = 1805758200000;
  due_at = 1805875200000;
  occupancy_starts_at = 1805727600000;
  occupancy_ends_at = 1805900400000;
}

weekend_normalized : normalize_period weekend ≡ ok weekend_times
unfolding normalize_period zao_rental.Contracts.Period.dates_from
weekend_normalized = refl

abbrev weekend_window : IntakeWindow
weekend_window = record { intake_closes_at = 1805788800000; quote_boundary_at = 1805758200000 }

weekend_open : new_intake_window weekend (some 1800000000000) ≡ ok weekend_window
unfolding new_intake_window normalize_period zao_rental.Contracts.Period.intake_close
weekend_open = refl

abbrev item : Family → HoldItem
item f = record { family = f; variant_ids = "v" ∷ []; model_promise = none }

abbrev skier : HoldMember
skier = record {
  key = "a";
  product = ski_set;
  age = adult;
  tier = regular;
  wear = none;
  wear_sport = none;
  items = item Family.ski ∷ item ski_boot ∷ item pole ∷ [];
}

abbrev skis_for_one : HoldConditions
skis_for_one = record {
  contract_version = some v1_4;
  reservation_id = "r";
  pickup_store = mountain_base;
  return_store = mountain_base;
  period = weekend;
  members = skier ∷ [];
}

skis_accepted : parse_conditions skis_for_one ≡ ok skis_for_one
unfolding parse_conditions normalize_period zao_rental.Contracts.Hold.check_member
    zao_rental.Contracts.Hold.gear_complete zao_rental.Contracts.Hold.check_item
skis_accepted = refl

parse_conditions-number_example : number_of ski_boot skier.items ≡ 1
parse_conditions-number_example =
    parse_conditions-number skis_for_one skis_for_one skier ski_boot skis_accepted (inl refl)
      (inl refl) refl
