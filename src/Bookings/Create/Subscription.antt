-- ===== src/Bookings/Create/Subscription.antt =====
-- The bookings of a subscription: `createBookingFromSubscription` of bookings/bookings.service.ts.
use limpeja_backend.Common.{
  ℕ, ◌+◌, ◌*◌, ◌≡◌, refl, true, false, Option, some, List, [], ◌∷◌, ◌++◌, arith, inl, inr,
  Bool-cases,
}
use limpeja_backend.Common.Lists.{any, any-last}
use limpeja_backend.Common.Outcome.{ok}
use limpeja_backend.Bookings.Status.{pending_payment}
use limpeja_backend.Bookings.Rows.{Booking, Store, minute_ms}
use limpeja_backend.Bookings.Slots.{
  blocked_booking_statuses, subscription_blocked_statuses, in_status, takes_slot,
}
use limpeja_backend.Bookings.Slots.Laws.{IsDisjoint, clashes}
use limpeja_backend.Bookings.Create.{
  SubscriptionBooking, midnight_of, or_minutes, add_booking, subscription_row,
  create_from_subscription,
}

clash-taken :
    (b c : Booking) (from to : ℕ)
    → c.scheduled_start ≡ some from
    → c.scheduled_end ≡ some to
    → in_status blocked_booking_statuses c.status ≡ true
    → takes_slot blocked_booking_statuses c.provider_id from to b ≡ true
    → clashes b c ≡ true
unfolding takes_slot clashes
clash-taken b c from to start end blocked h = ground arith

blocked_new : in_status blocked_booking_statuses pending_payment ≡ true
unfolding in_status
blocked_new = refl

overlap-not_IsDisjoint :
    (bs : List Booking) (c : Booking) (from to : ℕ)
    → c.scheduled_start ≡ some from
    → c.scheduled_end ≡ some to
    → in_status blocked_booking_statuses c.status ≡ true
    → any (takes_slot blocked_booking_statuses c.provider_id from to) bs ≡ true
    → ¬ IsDisjoint (bs ++ c ∷ [])
overlap-not_IsDisjoint [] c from to start end blocked h d = cc
overlap-not_IsDisjoint (b ∷ bs) c from to start end blocked h (fresh, d) =
    elim (Bool-cases (clashes b c)) [
      | inl e ↦ let last = any-last (clashes b) bs c e in cc
      | inr e ↦
          let taken = clash-taken b c from to start end blocked in
          overlap-not_IsDisjoint bs c from to start end blocked (ground (arith, taken)) d
    ]

-- The lookup for a subscription leaves out the bookings that wait for their payment or for the
-- provider: where one of these takes an hour of the slot and no other booking does, the booking of
-- the subscription is made all the same, if the text of its date is read, and two bookings of the provider share an hour.
pub subscription_overbooks :
    (s : Store) (now : ℕ) (r : SubscriptionBooking) (service : Option ℕ) (date : ℕ)
    → r.service_minutes ≡ some service
    → midnight_of r.scheduled_date ≡ some date
    → let to = r.start + or_minutes service 60 * minute_ms in
      any (takes_slot subscription_blocked_statuses r.provider.id r.start to) s.bookings ≡ false
      → any (takes_slot blocked_booking_statuses r.provider.id r.start to) s.bookings ≡ true
      → let b = subscription_row now r service in
        (create_from_subscription s now r ≡ ok (b, add_booking s b))
        × ¬ IsDisjoint (add_booking s b).bookings
unfolding create_from_subscription
subscription_overbooks s now r service date offered read free taken = (
  simp (offered, free, read) refl,
  overlap-not_IsDisjoint s.bookings (subscription_row now r service) r.start
      (r.start + or_minutes service 60 * minute_ms) refl refl blocked_new taken,
)
