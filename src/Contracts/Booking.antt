-- ===== src/Contracts/Booking.antt =====
-- The states of a booking in its mode: packages/contracts/src/booking-state.ts. `other` stands for
-- any text that names no mode, or no state.
use zao_rental.Common.{◌≡◌, ◌↔◌, ◌⊎◌, Bool, true, false, ◌&&◌, ◌||◌, arith}

pub data Mode : Type 0 where
  simulated_dev square_sandbox square_production other : Mode

pub data BookingState : Type 0 where
  draft payment_pending payment_review cancelled : BookingState
  confirmed confirmed_dev completed completed_dev other : BookingState

unfoldable pub booking_confirmed : Mode → BookingState → Bool
booking_confirmed square_production confirmed = true
booking_confirmed simulated_dev confirmed_dev = true
booking_confirmed square_sandbox confirmed_dev = true
booking_confirmed _ _ = false

unfoldable pub booking_completed : Mode → BookingState → Bool
booking_completed square_production completed = true
booking_completed simulated_dev completed_dev = true
booking_completed square_sandbox completed_dev = true
booking_completed _ _ = false

abbrev pub is_mode : Mode → Bool
is_mode Mode.other = false
is_mode _ = true

abbrev pub is_unpaid_state : BookingState → Bool
is_unpaid_state draft = true
is_unpaid_state payment_pending = true
is_unpaid_state payment_review = true
is_unpaid_state cancelled = true
is_unpaid_state _ = false

unfoldable pub booking_state_valid : Mode → BookingState → Bool
unfolding booking_confirmed booking_completed
booking_state_valid mode state =
    is_mode mode
    && (is_unpaid_state state || booking_confirmed mode state || booking_completed mode state)

-- A state that is confirmed or completed in one mode is no valid state of a mode on the other side
-- of the line between development and production.
pub booking_state_valid-separates :
    (mode : Mode) (state : BookingState)
    → booking_state_valid mode state ≡ true
    → is_unpaid_state state ≡ false
    → ((mode ≡ square_production) ↔ ((state ≡ confirmed) ⊎ (state ≡ completed)))
unfolding booking_state_valid
booking_state_valid-separates mode state v p = (grind arith, grind arith)
