-- ===== src/Square/S1/Tests.antt =====
-- A merchant and a location that are accepted, and a location without cards.
use zao_rental.Common.{◌≡◌, refl, true, false, none, some, List, [], ◌∷◌, String}
use zao_rental.Common.Checked.{passed}
use zao_rental.Square.{Fetched, answered, Response, Field, absent, given}
use zao_rental.Square.S1.{Merchant, Location, Body, send, read, s1_pass, s1_warning, run, serve}
use zao_rental.Square.S1.Passed.{IsMerchant, IsLocation, run-IsAccepted}

abbrev merchant : Merchant
merchant = record {
  id = some "M1";
  status = some "ACTIVE";
  country = some "JP";
  currency = some "JPY";
  main_location_id = some "L1";
}

abbrev place : Field (List String) → Location
place cs = record {
  id = some "L1";
  status = some "ACTIVE";
  country = some "JP";
  currency = some "JPY";
  merchant_id = some "M1";
  capabilities = cs;
}

abbrev first_body : Body
first_body = record { errors = absent; merchant = some merchant; locations = none }

abbrev second_body : Field (List String) → Body
second_body cs = record {
  errors = given 0;
  merchant = none;
  locations = some (some (place cs) ∷ []);
}

abbrev answer : Body → Fetched Body
answer b =
    answered
      (record { status = 200; is_json = true; has_reader = true; chunks = 90 ∷ []; value = some b })

abbrev cards : Field (List String)
cards = given ("CREDIT_CARD_PROCESSING" ∷ [])

accepted :
    (run "L1" "token" false (answer first_body) false (answer (second_body cards))).result ≡ s1_pass
unfolding run read zao_rental.Square.is_token zao_rental.Square.read_json
    zao_rental.Square.S1.check_merchant zao_rental.Contracts.Flow.ident
    zao_rental.Square.S1.check_locations zao_rental.Square.S1.check_location
accepted = refl

no_cards :
    (run "L1" "token" false (answer first_body) false (answer (second_body absent))).result
    ≡ s1_warning
unfolding run read zao_rental.Square.is_token zao_rental.Square.read_json
    zao_rental.Square.S1.check_merchant zao_rental.Contracts.Flow.ident
    zao_rental.Square.S1.check_locations zao_rental.Square.S1.check_location
no_cards = refl

run_again :
    (serve true "L1" "token" false (answer first_body) false (answer (second_body cards))).1 ≡ none
run_again = refl

run-IsAccepted_example :
    (m : String) × (a : Body) × (b : Body) × (read (send "token" false (answer first_body))
      ≡ passed a)
    × (read (send "token" false (answer (second_body cards))) ≡ passed b)
    × IsMerchant "L1" m a
    × IsLocation "L1" m b
run-IsAccepted_example =
    run-IsAccepted "L1" "token" false (answer first_body) false (answer (second_body cards))
      accepted
