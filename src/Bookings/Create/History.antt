-- ===== src/Bookings/Create/History.antt =====
-- Bookings that are made and change their status, in any order: bookings/bookings.service.ts.
use limpeja_backend.Common.{ℕ, ◌≡◌, true, false, some, arith, inl, inr, Bool-cases}
use limpeja_backend.Common.Lists.{includes}
use limpeja_backend.Common.Outcome.{ok}
use limpeja_backend.Bookings.Status.{BookingStatus, status_eq}
use limpeja_backend.Bookings.Table.{booking_status_transitions}
use limpeja_backend.Bookings.Rows.{
  Booking, Store, find_booking, update_booking, assert_valid_transition, change_booking_status,
}
use limpeja_backend.Bookings.Slots.{StrikeConfig}
use limpeja_backend.Bookings.Slots.Laws.{IsDisjoint, unblocked_stays, update_booking-IsDisjoint}
use limpeja_backend.Locks.{Redis}
use limpeja_backend.Bookings.Create.{CreateRequest, Lookups, Desk, create}
use limpeja_backend.Bookings.Create.Laws.{create-IsDisjoint}

-- A change of columns that leaves the hours and the status.
abbrev pub KeepsHours : (Booking → Booking) → Type 0
KeepsHours change =
    (b : Booking)
    → ((change b).provider_id ≡ b.provider_id)
      × ((change b).scheduled_start ≡ b.scheduled_start)
      × ((change b).scheduled_end ≡ b.scheduled_end)
      × ((change b).status ≡ b.status)

-- One call of `create`, which may also be refused or answered from the cache, or one change of the
-- status of a booking that has been read.
pub data Call : Store → Store → Type 1 where
  made :
      {s : Store} (redis : Redis) (config : StrikeConfig) (d : Desk) (locks : redis.State)
      (now end : ℕ) (r : CreateRequest) (l : Lookups)
      → d.core ≡ s
      → Call s (create redis config d locks now end r l).desk.core
  moved :
      {s t : Store} (b : Booking) (new : BookingStatus) (change : Booking → Booking)
      → find_booking b.id s.bookings ≡ some b
      → KeepsHours change
      → change_booking_status s b new change ≡ ok t
      → Call s t

pub data History (s : Store) : Store → Type 1 where
  here : History s s
  then_ : {t u : Store} → History s t → Call t u → History s u

change_booking_status-wrote :
    (s : Store) (b : Booking) (new : BookingStatus) (change : Booking → Booking) (t : Store)
    → change_booking_status s b new change ≡ ok t
    → status_eq b.status new ≡ false
    → (includes status_eq new (booking_status_transitions b.status) ≡ true)
      × (t.bookings ≡ update_booking b.id (λ r. change (record r { status = new })) s.bookings)
unfolding change_booking_status assert_valid_transition
change_booking_status-wrote s b new change t h other = ground arith

unmoved :
    (s : Store) (b : Booking) (new : BookingStatus) (change : Booking → Booking) (t : Store)
    → status_eq b.status new ≡ true
    → change_booking_status s b new change ≡ ok t
    → s ≡ t
unfolding change_booking_status
unmoved s b new change t e h = ground arith

change_booking_status-IsDisjoint :
    (s : Store) (b : Booking) (new : BookingStatus) (change : Booking → Booking) (t : Store)
    → find_booking b.id s.bookings ≡ some b
    → KeepsHours change
    → change_booking_status s b new change ≡ ok t
    → IsDisjoint s.bookings
    → IsDisjoint t.bookings
change_booking_status-IsDisjoint s b new change t found keeps h d =
    elim (Bool-cases (status_eq b.status new)) [
      | inl e ↦ let same = unmoved s b new change t e h in rw (← same) d
      | inr e ↦
          let (listed, wrote) = change_booking_status-wrote s b new change t h e in
          let (p, from, to, status) = keeps (record b { status = new }) in
          rw wrote (
            update_booking-IsDisjoint b b.id (λ r. change (record r { status = new })) s.bookings
              found (p, from, to, λ k. unblocked_stays b.status new listed (rw (← status) k)) d)
    ]

Call-IsDisjoint : {s t : Store} → Call s t → IsDisjoint s.bookings → IsDisjoint t.bookings
Call-IsDisjoint {s} {t} (made redis config d locks now end r l e) disjoint =
    create-IsDisjoint redis config d locks now end r l (rw e disjoint)
Call-IsDisjoint {s} {t} (moved b new change found keeps h) disjoint =
    change_booking_status-IsDisjoint s b new change t found keeps h disjoint

-- Where no two bookings of a provider that take a slot share an hour, none do after any number of
-- calls of `create`, whatever they answer, and of changes of status by `changeBookingStatus`, in any
-- order. Bookings made by `createBookingFromSubscription` and statuses that the route of
-- `updateStatus` writes are not among them.
pub history-IsDisjoint : {s t : Store} → History s t → IsDisjoint s.bookings → IsDisjoint t.bookings
history-IsDisjoint here d = d
history-IsDisjoint (then_ h c) d = Call-IsDisjoint c (history-IsDisjoint h d)
