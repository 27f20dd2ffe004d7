-- ===== src/Bookings/Visit/Complete.antt =====
-- When a service is completed: `completeService` of bookings/bookings.service.ts.
use limpeja_backend.Common.{
  ℕ, ◌≤◌, ◌≡◌, ◌≢◌, refl, ◌↔◌, true, false, not, ◌&&◌, Option, none, some, arith, ltb,
}
use limpeja_backend.Common.Lists.{is_some}
use limpeja_backend.Common.Outcome.{ok, >>=-ok, throw_if-ok}
use limpeja_backend.Bookings.Status.{started, finished, status_eq}
use limpeja_backend.Bookings.Rows.{
  Location, Booking, Store, requires_proof_gps, is_paid, calculate_expected_end, invalid_status,
  not_paid, gps_required, notify, job_ended, before_end,
}
use limpeja_backend.Bookings.Rows.Laws.{changed, change_booking_status-allowed}
use limpeja_backend.Bookings.Visit.{
  own_booking, kept_position, checkout_recorded, complete_service, use_coupon, finish_notices,
}
use limpeja_backend.Bookings.Visit.Laws.{
  IsTarget, own_booking-ok, own_booking-may, status_eq_sound, change-ok,
}

-- What the completion writes.
abbrev pub completion : ℕ → ℕ → Option Location → Booking → Booking
completion now user location r = record r {
  completed_at = some now;
  completed_by = some user;
  completed_position = kept_position location r.completed_position;
}

-- The conditions under which a service is completed.
abbrev pub MayComplete : Store → ℕ → ℕ → ℕ → Option Location → Booking → Type 0
MayComplete s now id user location b =
    IsTarget s id user started b
    × (checkout_recorded s b ≡ ok tt)
    × (is_paid b.payment ≡ true)
    × (requires_proof_gps b.insurance ≡ true → location ≢ none)
    × (calculate_expected_end b ≤ now)

use_coupon-bookings : (c : Option ℕ) (s : Store) → (use_coupon c s).bookings ≡ s.bookings
use_coupon-bookings none s = refl
use_coupon-bookings (some c) s = refl

pub complete_service-ok :
    (s : Store) (now id user : ℕ) (location : Option Location) (t : Store)
    → complete_service s now id user location ≡ ok t
    → (b : Booking) × MayComplete s now id user location b
      × (t.bookings ≡ (changed s id finished (completion now user location)).bookings)
unfolding complete_service
complete_service-ok s now id user location t h =
    let (c, own, checks) = >>=-ok (own_booking s id user) _ h in
    let (found, user_is) = own_booking-ok s id user c own in
    let (u, proof, more) = >>=-ok (checkout_recorded s c) _ checks in
    let (fit, rest) = throw_if-ok (not (status_eq c.status started)) invalid_status _ more in
    let from = status_eq_sound c.status started (ground arith) in
    let (p, rest2) = throw_if-ok (not (is_paid c.payment)) not_paid _ rest in
    let (g, rest3) =
      throw_if-ok (requires_proof_gps c.insurance && not (is_some location)) gps_required _ rest2 in
    let (l, last) = throw_if-ok (ltb now (calculate_expected_end c)) before_end _ rest3 in
    (
      c,
      ((found, user_is, from), proof, ground arith, λ r n. ground arith, ground arith),
      change-ok s id user started finished _ _ c t found refl
          (λ w. use_coupon-bookings c.coupon_id (notify (job_ended id) w)) from last,
    )

pub complete_service-may :
    (s : Store) (now id user : ℕ) (location : Option Location) (b : Booking)
    → MayComplete s now id user location b
    → complete_service s now id user location
      ≡ ok (
          finish_notices id (
            use_coupon b.coupon_id
              (notify (job_ended id) (changed s b.id finished (completion now user location)))))
unfolding complete_service
complete_service-may s now id user location b ((found, user_is, from), proof, pay, gps, time) =
    let located : (requires_proof_gps b.insurance && not (is_some location)) ≡ false =
      ground arith in
    let late : ltb now (calculate_expected_end b) ≡ false = ground arith in
    let change =
      change_booking_status-allowed s b finished (completion now user location) (rw from refl)
        (rw from refl) in
    simp (own_booking-may s id user b found user_is, proof, from, pay, located, late, change) refl

-- A call to complete a service succeeds exactly if the booking is a running, paid one of that
-- provider, with its proofs, whose expected end has come.
pub complete_service_iff :
    (s : Store) (now id user : ℕ) (location : Option Location)
    → ((t : Store) × (complete_service s now id user location ≡ ok t))
      ↔ ((b : Booking) × MayComplete s now id user location b)
complete_service_iff s now id user location = (
  λ (t, h). let (b, may, _) = complete_service-ok s now id user location t h in (b, may),
  λ (b, may). (_, complete_service-may s now id user location b may),
)
