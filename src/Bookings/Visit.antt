-- ===== src/Bookings/Visit.antt =====
-- The provider's visit in bookings/bookings.service.ts: accept, travel, arrive, start, complete,
-- and the job that completes what is overdue. A handler that throws leaves the store as it was,
-- except the start of a service, which sends a notice before its last checks.
pub mod Laws
pub mod Start
pub mod Complete
pub mod Course
pub mod Sweep
pub mod Timeline
pub mod History
pub mod Progress
use limpeja_backend.Common.{
  ℕ, ◌+◌, Bool, true, false, not, ◌&&◌, ◌||◌, ◌==◌, Option, none, some, List, [], ◌∷◌, leb, ltb,
  if◌then◌else◌,
}
use limpeja_backend.Common.Lists.{is_some, filter}
use limpeja_backend.Common.Outcome.{Outcome, ok, err, ◌>>=◌, ◌>>◌, throw_if, or_throw}
use limpeja_backend.Bookings.Status.{
  BookingStatus, confirmed, on_the_way, arrived, started, finished, status_eq,
}
use limpeja_backend.Bookings.Rows.{
  InsurancePlanId, essencial, premium, total, checkin, checkout, BookingInsurance, Location,
  Booking, accepted, job_started, job_ended, status_push, client_finished, provider_finished,
  visit_started, client_status, Store, BookingError, not_found, forbidden, invalid_status,
  already_accepted, not_paid, video_required, gps_required, too_early, too_late, before_end,
  find_booking, update_booking, notify, change_booking_status, ensure_proof_recorded, needs_proof,
  requires_proof_gps, is_paid, or_else_time, minute_ms, calculate_expected_end,
}
use limpeja_backend.Coupons.Apply.{mark_coupon_as_used}

-- The booking, if the actor is its provider.
abbrev pub own_booking : Store → ℕ → ℕ → Outcome BookingError Booking
own_booking s id user = do
  b ← or_throw (find_booking id s.bookings) not_found
  throw_if (not (b.provider_user == user)) forbidden
  ok b

-- `acceptBooking`
unfoldable pub accept_booking : Store → ℕ → ℕ → ℕ → Outcome BookingError Store
accept_booking s now id user = do
  b ← own_booking s id user
  throw_if (not (status_eq b.status confirmed)) invalid_status
  throw_if (is_some b.accepted_at) already_accepted
  ok (
      notify (accepted id) (record s {
        bookings = update_booking id (λ r. record r { accepted_at = some now }) s.bookings;
      }))

-- `onTheWayService`
unfoldable pub on_the_way_service : Store → ℕ → ℕ → Outcome BookingError Store
on_the_way_service s id user = do
  b ← own_booking s id user
  throw_if (not (status_eq b.status confirmed)) invalid_status
  t ← change_booking_status s b on_the_way (λ r. r)
  ok (notify (client_status id on_the_way) t)

-- `buildGpsFields`: a call without a position leaves the columns.
abbrev pub kept_position : Option Location → Option Location → Option Location
kept_position (some l) _ = some l
kept_position none old = old

-- `arriveAtLocation`
unfoldable pub arrive_at_location : Store → ℕ → ℕ → ℕ → Option Location → Outcome BookingError Store
arrive_at_location s now id user location = do
  b ← own_booking s id user
  throw_if (not (status_eq b.status on_the_way)) invalid_status
  t ← change_booking_status s b arrived λ r. record r {
    arrived_at = some now;
    arrived_position = kept_position location r.arrived_position;
  }
  ok (notify (client_status id arrived) t)

-- `if (proofRequired) await ensureProofRecorded(…, CHECKIN)`
abbrev pub checkin_recorded : Store → Booking → Outcome BookingError (Unit {0})
checkin_recorded s b =
    if needs_proof b.insurance then (ensure_proof_recorded s b.id checkin >>= λ p. ok tt) else ok tt

-- The checks of `startService` before its first notice.
unfoldable pub check_start : Store → ℕ → ℕ → Option Location → Outcome BookingError Booking
check_start s id user location = do
  b ← own_booking s id user
  checkin_recorded s b
  throw_if (not (status_eq b.status arrived)) invalid_status
  throw_if (not (is_paid b.payment)) not_paid
  throw_if (requires_proof_gps b.insurance && not (is_some location)) gps_required
  ok b

abbrev pub start_window : ℕ
start_window = 900000

abbrev pub start_of : Booking → ℕ
start_of b = or_else_time b.scheduled_start b.scheduled_at

-- The rest of `startService`: the window of 15 minutes, and the change of the status.
unfoldable pub enter_started :
    Store → ℕ → ℕ → ℕ → Option Location → Booking → Outcome BookingError Store
enter_started s now id user location b = do
  throw_if (ltb (now + start_window) (start_of b)) too_early
  throw_if (ltb (start_of b + start_window) now) too_late
  t ← change_booking_status s b started λ r. record r {
    started_at = some now;
    started_by = some user;
    started_position = kept_position location r.started_position;
  }
  ok (notify (visit_started id) (notify (client_status id started) t))

-- A store, and the exception that a handler ended with, if any.
pub record Reply : Type 0 where
  pub store : Store
  pub error : Option BookingError

abbrev pub reply_of : Store → Outcome BookingError Store → Reply
reply_of s (ok t) = record { store = t; error = none }
reply_of s (err e) = record { store = s; error = some e }

-- The notice to the client goes out between the two parts.
abbrev pub start_checked :
    Store → ℕ → ℕ → ℕ → Option Location → Outcome BookingError Booking → Reply
start_checked s now id user location (err e) = record { store = s; error = some e }
start_checked s now id user location (ok b) =
    let told = notify (job_started id) s in
    reply_of told (enter_started told now id user location b)

-- `startService`
unfoldable pub start_service : Store → ℕ → ℕ → ℕ → Option Location → Reply
start_service s now id user location =
    start_checked s now id user location (check_start s id user location)

abbrev pub plan_needs_video : Option BookingInsurance → Bool
plan_needs_video none = false
plan_needs_video (some i) = elim i.plan_id [ essencial ↦ false | premium ↦ true | total ↦ true ]

-- The proof of the end, with a video for the higher plans.
abbrev pub checkout_recorded : Store → Booking → Outcome BookingError (Unit {0})
checkout_recorded s b =
    let recorded = ensure_proof_recorded s b.id checkout >>= λ p.
    throw_if (plan_needs_video b.insurance && not p.has_video) video_required in
    if needs_proof b.insurance then recorded else ok tt

abbrev pub use_coupon : Option ℕ → Store → Store
use_coupon none s = s
use_coupon (some c) s = record s { coupons = mark_coupon_as_used s.coupons c }

-- The notices to both sides once a booking is finished.
abbrev pub finish_notices : ℕ → Store → Store
finish_notices id s =
    notify (status_push id) (notify (provider_finished id) (notify (client_finished id) s))

-- `completeService`
unfoldable pub complete_service : Store → ℕ → ℕ → ℕ → Option Location → Outcome BookingError Store
complete_service s now id user location = do
  b ← own_booking s id user
  checkout_recorded s b
  throw_if (not (status_eq b.status started)) invalid_status
  throw_if (not (is_paid b.payment)) not_paid
  throw_if (requires_proof_gps b.insurance && not (is_some location)) gps_required
  throw_if (ltb now (calculate_expected_end b)) before_end
  t ← change_booking_status s b finished λ r. record r {
    completed_at = some now;
    completed_by = some user;
    completed_position = kept_position location r.completed_position;
  }
  ok (finish_notices id (use_coupon b.coupon_id (notify (job_ended id) t)))

-- A running, paid booking whose end has passed.
abbrev pub is_overdue : ℕ → Booking → Bool
is_overdue now b =
    status_eq b.status started && (leb (calculate_expected_end b) now && is_paid b.payment)

-- The loop of `autoCompleteOverdueBookings`; the first exception ends it.
unfoldable pub complete_each : List Booking → Store → Outcome BookingError Store
complete_each [] s = ok s
complete_each (b ∷ bs) s = do
  t ←
      change_booking_status s b finished
        λ r. record r { completed_at = some (calculate_expected_end b) }
  complete_each bs (finish_notices b.id t)

-- `autoCompleteOverdueBookings`
unfoldable pub auto_complete_overdue : Store → ℕ → Outcome BookingError Store
auto_complete_overdue s now = complete_each (filter (is_overdue now) s.bookings) s
