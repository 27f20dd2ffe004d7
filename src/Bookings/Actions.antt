-- ===== src/Bookings/Actions.antt =====
-- bookings/booking-actions.helper.ts: which actions the application offers on a booking. The set of
-- actions is a list in the order of insertion.
pub mod Laws
use limpeja_backend.Common.{
  ℕ, Bool, true, false, not, ◌&&◌, ◌==◌, Option, none, some, List, [], ◌∷◌, ◌++◌, leb,
  if◌then◌else◌,
}
use limpeja_backend.Common.Int.{pos, ltb_ℤ}
use limpeja_backend.Common.Lists.{includes}
use limpeja_backend.Bookings.Status.{
  BookingStatus, pending, confirmed, on_the_way, arrived, started, finished, pending_dispute,
  status_eq,
}
use limpeja_backend.Bookings.Table.{UserRole, client, provider, admin, system, support_agent}
use limpeja_backend.Bookings.Rows.{Booking, is_paid, or_else_time, calculate_expected_end}
use limpeja_backend.Bookings.Visit.{start_of}
use limpeja_backend.Bookings.Override.{finalized_states, rounded_minutes, in_start_window}

pub data BookingAction : Type 0 where
  contact_support cancel open_dispute start_service complete_service : BookingAction
  confirm reject : BookingAction

abbrev action_rank : BookingAction → ℕ
action_rank contact_support = 0
action_rank cancel = 1
action_rank open_dispute = 2
action_rank start_service = 3
action_rank complete_service = 4
action_rank confirm = 5
action_rank reject = 6

abbrev pub action_eq : BookingAction → BookingAction → Bool
action_eq a b = action_rank a == action_rank b

-- `CLIENT_OPEN_DISPUTE_STATUSES`
abbrev pub client_open_dispute_statuses : List BookingStatus
client_open_dispute_statuses =
    confirmed ∷ on_the_way ∷ arrived ∷ started ∷ finished ∷ pending_dispute ∷ []

-- `PROVIDER_OPEN_DISPUTE_STATUSES`
abbrev pub provider_open_dispute_statuses : List BookingStatus
provider_open_dispute_statuses = confirmed ∷ started ∷ on_the_way ∷ arrived ∷ pending_dispute ∷ []

-- `canStartService`
unfoldable pub can_start_service : ℕ → Booking → Bool
can_start_service now b =
    status_eq b.status arrived && (is_paid b.payment && in_start_window now (start_of b))

-- `canCompleteService`; `min_minutes` is MIN_SERVICE_MINUTES.
unfoldable pub can_complete_service : ℕ → ℕ → Booking → Bool
can_complete_service min_minutes now b =
    status_eq b.status started
    && (is_paid b.payment
        && (leb (calculate_expected_end b) now
            && not (
                ltb_ℤ (rounded_minutes now (or_else_time b.started_at (start_of b)))
                  (pos min_minutes))))

abbrev pub when : Bool → BookingAction → List BookingAction
when test a = if test then a ∷ [] else []

abbrev pub role_actions : ℕ → ℕ → Booking → UserRole → List BookingAction
role_actions min_minutes now b client =
    when (not (includes status_eq b.status finalized_states)) cancel
    ++ when (includes status_eq b.status client_open_dispute_statuses) open_dispute
role_actions min_minutes now b provider =
    when (status_eq b.status pending) confirm
    ++ (when (status_eq b.status pending) reject
        ++ (when (can_start_service now b) start_service
            ++ (when (can_complete_service min_minutes now b) complete_service
                ++ when (includes status_eq b.status provider_open_dispute_statuses) open_dispute)))
role_actions min_minutes now b admin = open_dispute ∷ []
role_actions min_minutes now b _ = []

-- `getAllowedBookingActions`
unfoldable pub get_allowed_booking_actions : ℕ → ℕ → Booking → UserRole → List BookingAction
get_allowed_booking_actions min_minutes now b role =
    contact_support ∷ role_actions min_minutes now b role
