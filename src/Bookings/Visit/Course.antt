-- ===== src/Bookings/Visit/Course.antt =====
-- Visits as sequences of calls, over bookings/bookings.service.ts and the state machine of
-- bookings/states/booking.state-machine.ts.
use limpeja_backend.Common.{
  ℕ, ◌≡◌, ◌≢◌, refl, Option, none, some, arith, inl, inr, Option-cases, subst,
}
use limpeja_backend.Common.Outcome.{ok, err, Outcome}
use limpeja_backend.Bookings.Status.{
  BookingStatus, confirmed, on_the_way, arrived, started, finished, BookingEvent, start_travel,
  arrive, start_service as start_event, complete_service as complete_event, next_status,
}
use limpeja_backend.Bookings.Rows.{Location, Booking, Store, BookingError, find_booking}
use limpeja_backend.Bookings.Rows.Laws.{KeepsId, changed, find-update_booking, find-update_other}
use limpeja_backend.Bookings.Visit.{
  on_the_way_service, arrive_at_location, Reply, start_service, complete_service,
}
use limpeja_backend.Bookings.Visit.Laws.{
  IsTarget, arrival, on_the_way_service-ok, arrive_at_location-ok,
}
use limpeja_backend.Bookings.Visit.Start.{beginning, start_service-ok}
use limpeja_backend.Bookings.Visit.Complete.{completion, complete_service-ok}

-- The four calls that move a visit on, with their booking, caller and position.
pub data Call : Type 0 where
  travel : ℕ → ℕ → Call
  reach start complete : ℕ → ℕ → Option Location → Call

abbrev pub answered : Reply → Outcome BookingError Store
answered r = elim r.error [ none ↦ ok r.store | some e ↦ err e ]

-- The handler of a call.
abbrev pub perform : Store → ℕ → Call → Outcome BookingError Store
perform s now (travel id user) = on_the_way_service s id user
perform s now (reach id user l) = arrive_at_location s now id user l
perform s now (start id user l) = answered (start_service s now id user l)
perform s now (complete id user l) = complete_service s now id user l

abbrev pub booking_of : Call → ℕ
booking_of (travel id user) = id
booking_of (reach id user l) = id
booking_of (start id user l) = id
booking_of (complete id user l) = id

abbrev pub caller_of : Call → ℕ
caller_of (travel id user) = user
caller_of (reach id user l) = user
caller_of (start id user l) = user
caller_of (complete id user l) = user

abbrev pub event_of : Call → BookingEvent
event_of (travel id user) = start_travel
event_of (reach id user l) = arrive
event_of (start id user l) = start_event
event_of (complete id user l) = complete_event

abbrev pub source_of : Call → BookingStatus
source_of (travel id user) = confirmed
source_of (reach id user l) = on_the_way
source_of (start id user l) = arrived
source_of (complete id user l) = started

abbrev pub goal_of : Call → BookingStatus
goal_of (travel id user) = on_the_way
goal_of (reach id user l) = arrived
goal_of (start id user l) = started
goal_of (complete id user l) = finished

abbrev pub data_of : ℕ → Call → Booking → Booking
data_of now (travel id user) r = r
data_of now (reach id user l) r = arrival now l r
data_of now (start id user l) r = beginning now user l r
data_of now (complete id user l) r = completion now user l r

-- Every call that ends well has found its booking with the caller as provider and in the status
-- that the call leaves, and has written that row alone.
pub perform-ok :
    (s : Store) (now : ℕ) (c : Call) (t : Store)
    → perform s now c ≡ ok t
    → (b : Booking) × IsTarget s (booking_of c) (caller_of c) (source_of c) b
      × (t.bookings ≡ (changed s (booking_of c) (goal_of c) (data_of now c)).bookings)
perform-ok s now (travel id user) t h = on_the_way_service-ok s id user t h
perform-ok s now (reach id user l) t h = arrive_at_location-ok s now id user l t h
perform-ok s now (start id user l) t h = elim (Option-cases (start_service s now id user l).error) [
  | inl e ↦
      let (b, may, wrote) = start_service-ok s now id user l e in
      let same : (start_service s now id user l).store ≡ t = ground arith in
      (
        b,
        may.0,
        subst (λ z. z.bookings ≡ (changed s id started (beginning now user l)).bookings) same wrote,
      )
  | inr (x, e) ↦ absurd (ground arith)
]
perform-ok s now (complete id user l) t h =
    let (b, may, wrote) = complete_service-ok s now id user l t h in (b, may.0, wrote)

pub writes-KeepsId :
    (now : ℕ) (c : Call) → KeepsId (λ r. data_of now c (record r { status = goal_of c }))
writes-KeepsId now (travel id user) b = refl
writes-KeepsId now (reach id user l) b = refl
writes-KeepsId now (start id user l) b = refl
writes-KeepsId now (complete id user l) b = refl

writes-status :
    (now : ℕ) (c : Call) (b : Booking)
    → (data_of now c (record b { status = goal_of c })).status ≡ goal_of c
writes-status now (travel id user) b = refl
writes-status now (reach id user l) b = refl
writes-status now (start id user l) b = refl
writes-status now (complete id user l) b = refl

machine_step : (c : Call) → next_status (source_of c) (event_of c) ≡ ok (goal_of c)
unfolding next_status
machine_step (travel id user) = refl
machine_step (reach id user l) = refl
machine_step (start id user l) = refl
machine_step (complete id user l) = refl

-- A call that ends well is a step of the state machine: the booking had a provider who made the
-- call, the event of the call leads the machine from its old status to its new one, and every
-- other booking is as it was.
pub perform_refines_machine :
    (s : Store) (now : ℕ) (c : Call) (t : Store)
    → perform s now c ≡ ok t
    → (b d : Booking) × (find_booking (booking_of c) s.bookings ≡ some b)
      × (find_booking (booking_of c) t.bookings ≡ some d)
      × (b.provider_user ≡ caller_of c)
      × (next_status b.status (event_of c) ≡ ok d.status)
      × ((other : ℕ)
          → other ≢ booking_of c
          → find_booking other t.bookings ≡ find_booking other s.bookings)
perform_refines_machine s now c t h =
    let (b, (found, caller, from), wrote) = perform-ok s now c t h in
    let change = λ (r : Booking). data_of now c (record r { status = goal_of c }) in
    (
      b,
      change b,
      found,
      rw wrote
          (find-update_booking (booking_of c) change s.bookings b (writes-KeepsId now c) found),
      caller,
      rw (from, writes-status now c b) (machine_step c),
      λ other n.
          rw wrote
            (find-update_other (booking_of c) other change s.bookings (writes-KeepsId now c) n),
    )
