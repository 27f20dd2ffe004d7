-- ===== src/Availability.antt =====
-- The slots that a provider offers: `updateAvailability`, `createAvailability` and
-- `deleteAvailability` of availability/availability.service.ts, with availability/timezone.ts. A time is the pair of numbers
-- of a text `HH:mm`, and a moment is in milliseconds, after 1970 in São Paulo. The day of the week of
-- a day since 1970, which the clock of JavaScript gives, is written out. Of a booking the model keeps
-- what the lookups select. The keys of new rows are given with the request.
pub mod Laws
pub mod Days
mod Tests
use limpeja_backend.Common.{
  ℕ, ◌+◌, ◌-◌, ◌*◌, ◌/◌, ◌%◌, ltb, leb, Bool, true, false, not, ◌&&◌, ◌==◌, Option, none, some,
  List, [], ◌∷◌, ◌++◌, if◌then◌else◌,
}
use limpeja_backend.Common.Lists.{any, filter, includes}
use limpeja_backend.Common.Outcome.{Outcome, ok, err, ◌>>=◌, ◌>>◌, throw_if}
use limpeja_backend.Bookings.Status.{
  BookingStatus, pending, pending_payment, confirmed, started, finished, status_eq,
}

abbrev pub day_ms : ℕ
day_ms = 86400000

-- -SAO_PAULO_TIMEZONE_OFFSET_MS
abbrev pub offset_ms : ℕ
offset_ms = 180 * 60000

pub record SaoPauloDayRange : Type 0 where
  pub start : ℕ
  pub last : ℕ
  pub day_of_week : ℕ

-- `buildDayRange`, for a day since 1970; the first was a Thursday.
unfoldable pub build_day_range : ℕ → SaoPauloDayRange
build_day_range day = record {
  start = day * day_ms + offset_ms;
  last = day * day_ms + offset_ms + (day_ms - 1);
  day_of_week = (day + 4) % 7;
}

-- `getSaoPauloDayRangeFromTimestamp`
unfoldable pub day_range : ℕ → SaoPauloDayRange
day_range timestamp = build_day_range ((timestamp - offset_ms) / day_ms)

-- `minutesNow`
abbrev pub minutes_now : ℕ → ℕ
minutes_now now = (now - offset_ms) / 60000 % 1440

pub record Time : Type 0 where
  pub hours : ℕ
  pub minutes : ℕ

abbrev pub to_minutes : Time → ℕ
to_minutes t = t.hours * 60 + t.minutes

pub record Slot : Type 0 where
  pub id : ℕ
  pub provider_id : ℕ
  pub day_of_week : ℕ
  pub start_time : Time
  pub end_time : Time
  pub is_available : Bool

-- `id` and `isAvailable` are optional in the request.
pub record UpdateAvailabilityDto : Type 0 where
  pub id : Option ℕ
  pub day_of_week : ℕ
  pub start_time : Time
  pub end_time : Time
  pub is_available : Option Bool
  pub new_id : ℕ

pub record ScheduledBooking : Type 0 where
  pub provider_id : ℕ
  pub status : BookingStatus
  pub scheduled_date : ℕ
  pub scheduled_time : Time

pub data AvailabilityError : Type 0 where
  provider_not_found not_full_hour invalid_interval slot_passed : AvailabilityError
  booking_conflict slot_conflict slot_not_found slot_exists : AvailabilityError

-- CONFLICT_BOOKING_STATUSES
abbrev pub conflict_booking_statuses : List BookingStatus
conflict_booking_statuses = pending ∷ pending_payment ∷ confirmed ∷ started ∷ finished ∷ []

-- The `where` of `futureBookings`.
abbrev pub is_future : ℕ → ℕ → ScheduledBooking → Bool
is_future provider from b =
    b.provider_id == provider
    && (includes status_eq b.status conflict_booking_statuses && leb from b.scheduled_date)

-- `overlappingBooking`
abbrev pub starts_in : UpdateAvailabilityDto → ScheduledBooking → Bool
starts_in d b =
    (day_range b.scheduled_date).day_of_week == d.day_of_week
    && (ltb (to_minutes b.scheduled_time) (to_minutes d.end_time)
        && leb (to_minutes d.start_time) (to_minutes b.scheduled_time))

-- `id: id ? { not: id } : undefined`
abbrev pub is_other : Option ℕ → Slot → Bool
is_other none s = true
is_other (some id) s = not (s.id == id)

abbrev pub is_of_day : ℕ → ℕ → Slot → Bool
is_of_day provider day s = s.provider_id == provider && s.day_of_week == day

abbrev pub share_minutes : Time → Time → Time → Time → Bool
share_minutes a b c d = ltb (to_minutes a) (to_minutes d) && ltb (to_minutes c) (to_minutes b)

-- `overlapsSlot`, for a row of `otherSlots`.
unfoldable pub overlaps : ℕ → UpdateAvailabilityDto → Slot → Bool
overlaps provider d s =
    is_of_day provider d.day_of_week s
    && (is_other d.id s && share_minutes d.start_time d.end_time s.start_time s.end_time)

abbrev pub time_eq : Time → Time → Bool
time_eq a b = a.hours == b.hours && a.minutes == b.minutes

-- `existingSlot`
abbrev pub is_same_slot : ℕ → UpdateAvailabilityDto → Slot → Bool
is_same_slot provider d s =
    is_of_day provider d.day_of_week s
    && (time_eq s.start_time d.start_time && time_eq s.end_time d.end_time)

abbrev pub is_row : ℕ → ℕ → Slot → Bool
is_row id provider s = s.id == id && s.provider_id == provider

abbrev pub moved_slot : UpdateAvailabilityDto → Slot → Slot
moved_slot d s = record s {
  day_of_week = d.day_of_week;
  start_time = d.start_time;
  end_time = d.end_time;
  is_available = true;
}

-- `availability.update`, on the rows that the `where` names.
unfoldable pub update_slot : ℕ → ℕ → UpdateAvailabilityDto → List Slot → List Slot
update_slot id provider d [] = []
update_slot id provider d (s ∷ ss) =
    let rest = update_slot id provider d ss in
    (if is_row id provider s then moved_slot d s else s) ∷ rest

abbrev pub new_slot : ℕ → UpdateAvailabilityDto → Slot
new_slot provider d = record {
  id = d.new_id;
  provider_id = provider;
  day_of_week = d.day_of_week;
  start_time = d.start_time;
  end_time = d.end_time;
  is_available = true;
}

abbrev pub is_removal : Option Bool → Bool
is_removal (some false) = true
is_removal _ = false

-- What the loop of `updateAvailability` writes for a request that has passed its tests.
unfoldable pub write_slot :
    ℕ → UpdateAvailabilityDto → Option ℕ → List Slot → Outcome AvailabilityError (List Slot)
write_slot provider d (some id) slots = do
  throw_if (not (any (is_row id provider) slots)) slot_not_found
  ok (
      if is_removal d.is_available
      then filter (λ s. not (is_row id provider s)) slots
      else update_slot id provider d slots)
write_slot provider d none slots = do
  throw_if (any (is_same_slot provider d) slots) slot_exists
  ok (slots ++ new_slot provider d ∷ [])

-- The tests of the times of a request.
abbrev pub check_times : ℕ → UpdateAvailabilityDto → Outcome AvailabilityError (Unit {0})
check_times now d = do
  throw_if (not (d.start_time.minutes == 0)) not_full_hour
  throw_if (not (d.end_time.minutes == 0)) not_full_hour
  throw_if (leb (to_minutes d.end_time) (to_minutes d.start_time)) invalid_interval
  throw_if
      (d.day_of_week == (day_range now).day_of_week
        && leb (to_minutes d.end_time) (minutes_now now))
      slot_passed

-- One turn of the loop of `updateAvailability`.
unfoldable pub update_one :
    ℕ
    → List ScheduledBooking
    → ℕ
    → UpdateAvailabilityDto
    → List Slot
    → Outcome AvailabilityError (List Slot)
update_one now future provider d slots = do
  check_times now d
  throw_if (any (starts_in d) future) booking_conflict
  throw_if (any (overlaps provider d) slots) slot_conflict
  write_slot provider d d.id slots

-- The rows after a run that may have ended early, with its end.
abbrev pub Run : Type 0
Run = List Slot × Outcome AvailabilityError (Unit {0})

-- The turns after one, unless it has thrown.
abbrev pub go_on : List Slot → Outcome AvailabilityError (List Slot) → (List Slot → Run) → Run
go_on slots (ok written) next = next written
go_on slots (err e) next = (slots, err e)

-- The loop. There is no transaction: what was written before an exception stays.
unfoldable pub update_all :
    ℕ → List ScheduledBooking → ℕ → List UpdateAvailabilityDto → List Slot → Run
update_all now future provider [] slots = (slots, ok tt)
update_all now future provider (d ∷ ds) slots =
    go_on slots (update_one now future provider d slots)
      (λ written. update_all now future provider ds written)

abbrev pub future_bookings : ℕ → ℕ → List ScheduledBooking → List ScheduledBooking
future_bookings now provider bs = filter (is_future provider (day_range now).start) bs

-- `updateAvailability`, without the list of the rows that it answers with.
unfoldable pub update_availability :
    ℕ → List ℕ → List ScheduledBooking → ℕ → List UpdateAvailabilityDto → List Slot → Run
update_availability now providers bookings provider ds slots =
    if not (includes (λ a b. a == b) provider providers)
    then (slots, err provider_not_found)
    else update_all now (future_bookings now provider bookings) provider ds slots

-- `createAvailability`
unfoldable pub create_availability :
    ℕ
    → List ℕ
    → List ScheduledBooking
    → ℕ
    → UpdateAvailabilityDto
    → List Slot
    → Outcome AvailabilityError (List Slot)
create_availability now providers bookings provider d slots = do
  throw_if (not (includes (λ a b. a == b) provider providers)) provider_not_found
  check_times now d
  throw_if (any (is_same_slot provider d) slots) slot_exists
  throw_if (any (starts_in d) (future_bookings now provider bookings)) booking_conflict
  ok (slots ++ new_slot provider d ∷ [])

-- `deleteAvailability`: `delete` throws where no row has the key and the provider.
unfoldable pub delete_availability : ℕ → ℕ → List Slot → Outcome AvailabilityError (List Slot)
delete_availability id provider slots = do
  throw_if (not (any (is_row id provider) slots)) slot_not_found
  ok (filter (λ s. not (is_row id provider s)) slots)
