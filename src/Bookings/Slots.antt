-- ===== src/Bookings/Slots.antt =====
-- The hours that a provider's bookings take: `BLOCKED_BOOKING_STATUSES` of
-- bookings/bookings.constants.ts, the lookup of an overlap that `create` and
-- `createBookingFromSubscription` of bookings/bookings.service.ts make, and `canHoldSlot` of
-- availability/availability.service.ts. A comparison with a time that is missing fails, as in SQL.
pub mod Laws
use limpeja_backend.Common.{
  ℕ, ◌+◌, ltb, leb, Bool, true, false, ◌&&◌, ◌==◌, Option, none, some, List, [], ◌∷◌,
}
use limpeja_backend.Common.Lists.{any, filter, length, includes}
use limpeja_backend.Common.Text.{Text, text_eq}
use limpeja_backend.Bookings.Status.{
  BookingStatus, pending, pending_payment, pending_provider_confirmation, confirmed, on_the_way,
  arrived, started, rescheduled, status_eq,
}
use limpeja_backend.Bookings.Rows.{Booking}

-- `BLOCKED_BOOKING_STATUSES`
abbrev pub blocked_booking_statuses : List BookingStatus
blocked_booking_statuses =
    pending ∷ pending_payment ∷ pending_provider_confirmation ∷ confirmed ∷ on_the_way ∷ arrived
    ∷ started ∷ rescheduled ∷ []

-- The statuses that the lookup for a subscription asks for.
abbrev pub subscription_blocked_statuses : List BookingStatus
subscription_blocked_statuses =
    pending ∷ confirmed ∷ on_the_way ∷ arrived ∷ started ∷ rescheduled ∷ []

abbrev pub before : Option ℕ → ℕ → Bool
before none t = false
before (some s) t = ltb s t

abbrev pub after : Option ℕ → ℕ → Bool
after none t = false
after (some s) t = ltb t s

-- `status: { in: statuses }`
unfoldable pub in_status : List BookingStatus → BookingStatus → Bool
in_status statuses status = includes status_eq status statuses

-- The `where` of the lookup, for a slot from `from` to `to`.
unfoldable pub takes_slot : List BookingStatus → ℕ → ℕ → ℕ → Booking → Bool
takes_slot statuses provider from to b =
    b.provider_id == provider
    && (in_status statuses b.status && (before b.scheduled_start to && after b.scheduled_end from))

pub record SlotHoldStrike : Type 0 where
  pub client_user : Text
  pub provider_id : ℕ
  pub start : ℕ
  pub created_at : ℕ

-- SLOT_HOLD_STRIKE_WINDOW_MS and SLOT_HOLD_STRIKE_THRESHOLD.
pub record StrikeConfig : Type 0 where
  pub window_ms : ℕ
  pub threshold : ℕ

abbrev pub is_strike : StrikeConfig → ℕ → ℕ → Text → ℕ → SlotHoldStrike → Bool
is_strike config now provider client start s =
    text_eq s.client_user client
    && (s.provider_id == provider
        && (s.start == start && leb now (s.created_at + config.window_ms)))

-- `canHoldSlot`: whether the client has not had too many strikes on the slot.
unfoldable pub can_hold_slot : StrikeConfig → List SlotHoldStrike → ℕ → ℕ → Text → ℕ → Bool
can_hold_slot config strikes now provider client start =
    ltb (length (filter (is_strike config now provider client start) strikes)) config.threshold
