-- ===== src/Subscriptions/Laws/Runs.antt =====
-- What a run of `generateRecurringBooking` of subscriptions/subscriptions.service.ts does.
use limpeja_backend.Common.{
  ℕ, ◌+◌, ◌*◌, ◌<◌, ◌≡◌, refl, sym, true, some, List, [], ◌∷◌, arith, inl, inr, Bool-cases,
  Option-cases,
}
use limpeja_backend.Common.Lists.{any}
use limpeja_backend.Common.Outcome.{ok, err, >>=-ok}
use limpeja_backend.Bookings.Rows.{Booking, Store, minute_ms}
use limpeja_backend.Bookings.Create.{create_from_subscription, or_minutes}
use limpeja_backend.Bookings.Slots.{takes_slot, subscription_blocked_statuses}
use limpeja_backend.Subscriptions.Period.{next_generation}
use limpeja_backend.Subscriptions.{
  Subscription, Desk, RunInput, find_subscription, is_job_of, request_of, keep_booking,
  or_not_created, create_booking, booking_not_created,
}

-- A booking that is made is kept with its period, and nothing else changes but the rows of bookings.
pub create_booking-ok :
    (now : ℕ) (s : Subscription) (r : RunInput) (d e : Desk)
    → create_booking now s r d ≡ ok e
    → (made : Booking × Store) × (e ≡ keep_booking s d made)
unfolding create_booking
create_booking-ok now s r d e h =
    let (made, _, h1) =
      >>=-ok (or_not_created (create_from_subscription d.core now (request_of s r))) _ h in
    let is : keep_booking s d made ≡ e = cc in (made, sym is)

-- The text of a whole moment is no date once a time is added to it: no booking is made.
pub create_booking-refused :
    (now : ℕ) (s : Subscription) (r : RunInput) (d : Desk)
    → create_booking now s r d ≡ err booking_not_created
unfolding create_booking create_from_subscription
create_booking-refused now s r d = elim (Option-cases r.service_minutes) [
  | inl missing ↦ simp missing refl
  | inr (service, given) ↦
      let to = r.scheduled_start + or_minutes service 60 * minute_ms in
      elim (Bool-cases (
        any (takes_slot subscription_blocked_statuses r.provider.id r.scheduled_start to)
          d.core.bookings)) [
            | inl taken ↦ simp (given, taken) refl
            | inr free ↦ simp (given, free) refl
          ]
]

pub find-key :
    (id : ℕ) (ss : List Subscription) (s : Subscription)
    → find_subscription id ss ≡ some s
    → s.id ≡ id
find-key id [] s h = cc
find-key id (x ∷ xs) s h = ground (arith, find-key id xs s)

-- What the end of a run leaves, from rows that have the subscription.
abbrev pub AfterRun : ℕ → Subscription → Desk → Type 0
AfterRun id s e =
    let next = next_generation s.frequency s.next_generation_date in
    (find_subscription id e.subscriptions ≡ some (record s { next_generation_date = next }))
    × (s.next_generation_date < next)
    × (any (is_job_of id) e.jobs ≡ true)
