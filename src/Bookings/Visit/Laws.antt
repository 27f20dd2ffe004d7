-- ===== src/Bookings/Visit/Laws.antt =====
-- What a handler of the visit that ends well has tested and written: bookings/bookings.service.ts.
use limpeja_backend.Common.{ℕ, ◌≡◌, refl, true, false, not, Option, some, arith}
use limpeja_backend.Common.Outcome.{ok, >>=-ok, throw_if-ok, ◌>>=◌}
use limpeja_backend.Bookings.Status.{BookingStatus, confirmed, on_the_way, arrived, status_eq}
use limpeja_backend.Bookings.Rows.{
  Location, Booking, Store, find_booking, change_booking_status, invalid_status,
}
use limpeja_backend.Bookings.Rows.Laws.{changed, change_booking_status-ok, find_booking-id}
use limpeja_backend.Bookings.Visit.{
  own_booking, on_the_way_service, kept_position, arrive_at_location,
}

-- The booking that a handler acts on: its key, its provider, and its status.
abbrev pub IsTarget : Store → ℕ → ℕ → BookingStatus → Booking → Type 0
IsTarget s id user from b =
    (find_booking id s.bookings ≡ some b) × (b.provider_user ≡ user) × (b.status ≡ from)

pub own_booking-ok :
    (s : Store) (id user : ℕ) (b : Booking)
    → own_booking s id user ≡ ok b
    → (find_booking id s.bookings ≡ some b) × (b.provider_user ≡ user)
own_booking-ok s id user b h = ground arith

pub own_booking-may :
    (s : Store) (id user : ℕ) (b : Booking)
    → find_booking id s.bookings ≡ some b
    → b.provider_user ≡ user
    → own_booking s id user ≡ ok b
own_booking-may s id user b h k = ground arith

pub status_eq_sound : (a b : BookingStatus) → status_eq a b ≡ true → a ≡ b
status_eq_sound a b h = ground arith

-- The end of a handler: a change of the status, and notices that leave the bookings.
pub change-ok :
    (s : Store) (id user : ℕ) (from new : BookingStatus) (data_of : Booking → Booking)
    (after : Store → Store) (b : Booking) (t : Store)
    → find_booking id s.bookings ≡ some b
    → status_eq from new ≡ false
    → ((u : Store) → (after u).bookings ≡ u.bookings)
    → b.status ≡ from
    → (change_booking_status s b new data_of >>= λ u. ok (after u)) ≡ ok t
    → t.bookings ≡ (changed s id new data_of).bookings
change-ok s id user from new data_of after b t found n keeps is h =
    let (u, change, end) = >>=-ok (change_booking_status s b new data_of) _ h in
    let other : status_eq b.status new ≡ false = rw is n in
    let (_, wrote) = change_booking_status-ok s b new data_of u other change in
    ground (arith, find_booking-id id s.bookings b found, keeps u)

pub on_the_way_service-ok :
    (s : Store) (id user : ℕ) (t : Store)
    → on_the_way_service s id user ≡ ok t
    → (b : Booking) × IsTarget s id user confirmed b
      × (t.bookings ≡ (changed s id on_the_way (λ r. r)).bookings)
unfolding on_the_way_service
on_the_way_service-ok s id user t h =
    let (b, own, checks) = >>=-ok (own_booking s id user) _ h in
    let (found, user_is) = own_booking-ok s id user b own in
    let (fit, rest) = throw_if-ok (not (status_eq b.status confirmed)) invalid_status _ checks in
    let from = status_eq_sound b.status confirmed (ground arith) in
    (
      b,
      (found, user_is, from),
      change-ok s id user confirmed on_the_way _ _ b t found refl (λ u. refl) from rest,
    )

-- What the arrival writes.
abbrev pub arrival : ℕ → Option Location → Booking → Booking
arrival now location r = record r {
  arrived_at = some now;
  arrived_position = kept_position location r.arrived_position;
}

pub arrive_at_location-ok :
    (s : Store) (now id user : ℕ) (location : Option Location) (t : Store)
    → arrive_at_location s now id user location ≡ ok t
    → (b : Booking) × IsTarget s id user on_the_way b
      × (t.bookings ≡ (changed s id arrived (arrival now location)).bookings)
unfolding arrive_at_location
arrive_at_location-ok s now id user location t h =
    let (b, own, checks) = >>=-ok (own_booking s id user) _ h in
    let (found, user_is) = own_booking-ok s id user b own in
    let (fit, rest) = throw_if-ok (not (status_eq b.status on_the_way)) invalid_status _ checks in
    let from = status_eq_sound b.status on_the_way (ground arith) in
    (
      b,
      (found, user_is, from),
      change-ok s id user on_the_way arrived _ _ b t found refl (λ u. refl) from rest,
    )
