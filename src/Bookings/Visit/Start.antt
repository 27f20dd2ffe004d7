-- ===== src/Bookings/Visit/Start.antt =====
-- When a service starts: `startService` of bookings/bookings.service.ts.
use limpeja_backend.Common.{
  ℕ, ◌+◌, ◌≤◌, ◌≡◌, ◌≢◌, refl, ◌↔◌, true, false, not, ◌&&◌, Option, none, some, arith, inl, inr,
  ◌<◌, ltb, subst,
}
use limpeja_backend.Common.Lists.{is_some}
use limpeja_backend.Common.Outcome.{ok, >>=-ok, throw_if-ok, Outcome-cases}
use limpeja_backend.Bookings.Status.{arrived, started, status_eq}
use limpeja_backend.Bookings.Rows.{
  Location, Booking, Store, requires_proof_gps, is_paid, invalid_status, not_paid, gps_required,
  too_early, too_late, notify, visit_started, client_status, job_started,
}
use limpeja_backend.Bookings.Rows.Laws.{changed, change_booking_status-allowed, find_booking-id}
use limpeja_backend.Bookings.Visit.{
  own_booking, kept_position, checkin_recorded, check_start, start_window, start_of, enter_started,
  start_service,
}
use limpeja_backend.Bookings.Visit.Laws.{
  IsTarget, own_booking-ok, own_booking-may, status_eq_sound, change-ok,
}

-- What the start of the service writes.
abbrev pub beginning : ℕ → ℕ → Option Location → Booking → Booking
beginning now user location r = record r {
  started_at = some now;
  started_by = some user;
  started_position = kept_position location r.started_position;
}

-- The conditions under which a service starts, of the booking that is started.
abbrev pub MayStart : Store → ℕ → ℕ → ℕ → Option Location → Booking → Type 0
MayStart s now id user location b =
    IsTarget s id user arrived b
    × (checkin_recorded s b ≡ ok tt)
    × (is_paid b.payment ≡ true)
    × (requires_proof_gps b.insurance ≡ true → location ≢ none)
    × (start_of b ≤ now + start_window)
    × (now ≤ start_of b + start_window)

check_start-ok :
    (s : Store) (id user : ℕ) (location : Option Location) (b : Booking)
    → check_start s id user location ≡ ok b
    → IsTarget s id user arrived b
      × (checkin_recorded s b ≡ ok tt)
      × (is_paid b.payment ≡ true)
      × (requires_proof_gps b.insurance ≡ true → location ≢ none)
unfolding check_start
check_start-ok s id user location b h =
    let (c, own, checks) = >>=-ok (own_booking s id user) _ h in
    let (found, user_is) = own_booking-ok s id user c own in
    let (u, proof, more) = >>=-ok (checkin_recorded s c) _ checks in
    let (fit, rest) = throw_if-ok (not (status_eq c.status arrived)) invalid_status _ more in
    let from = status_eq_sound c.status arrived (ground arith) in
    let (p, rest2) = throw_if-ok (not (is_paid c.payment)) not_paid _ rest in
    let (g, last) =
      throw_if-ok (requires_proof_gps c.insurance && not (is_some location)) gps_required _ rest2 in
    let same : c ≡ b = ground arith in
    subst
      (λ z.
        IsTarget s id user arrived z
        × (checkin_recorded s z ≡ ok tt)
        × (is_paid z.payment ≡ true)
        × (requires_proof_gps z.insurance ≡ true → location ≢ none))
      same ((found, user_is, from), proof, ground arith, λ r n. ground arith)

check_start-may :
    (s : Store) (id user : ℕ) (location : Option Location) (b : Booking)
    → IsTarget s id user arrived b
    → checkin_recorded s b ≡ ok tt
    → is_paid b.payment ≡ true
    → (requires_proof_gps b.insurance ≡ true → location ≢ none)
    → check_start s id user location ≡ ok b
unfolding check_start
check_start-may s id user location b (found, user_is, from) proof pay gps =
    let located : (requires_proof_gps b.insurance && not (is_some location)) ≡ false =
      ground arith in
    simp (own_booking-may s id user b found user_is, from, proof, pay, located) refl

enter_started-ok :
    (s : Store) (now id user : ℕ) (location : Option Location) (b : Booking) (t : Store)
    → IsTarget s id user arrived b
    → enter_started s now id user location b ≡ ok t
    → (start_of b ≤ now + start_window)
      × (now ≤ start_of b + start_window)
      × (t.bookings ≡ (changed s id started (beginning now user location)).bookings)
unfolding enter_started
enter_started-ok s now id user location b t (found, user_is, from) h =
    let (early, more) = throw_if-ok (ltb (now + start_window) (start_of b)) too_early _ h in
    let (late, rest) = throw_if-ok (ltb (start_of b + start_window) now) too_late _ more in
    (
      ground arith,
      ground arith,
      change-ok s id user arrived started _ _ b t found refl (λ u. refl) from rest,
    )

enter_started-may :
    (s : Store) (now id user : ℕ) (location : Option Location) (b : Booking)
    → IsTarget s id user arrived b
    → start_of b ≤ now + start_window
    → now ≤ start_of b + start_window
    → enter_started s now id user location b
      ≡ ok (
          notify (visit_started id) (
            notify
              (client_status id started)
              (changed s b.id started (beginning now user location))))
unfolding enter_started
enter_started-may s now id user location b (found, user_is, from) early late =
    let not_early : ltb (now + start_window) (start_of b) ≡ false = ground arith in
    let not_late : ltb (start_of b + start_window) now ≡ false = ground arith in
    let change =
      change_booking_status-allowed s b started (beginning now user location) (rw from refl)
        (rw from refl) in
    simp (not_early, not_late, change) refl

-- A call to start a service ends without an exception exactly if the booking may be started by
-- that user, at that time and place.
pub start_service_iff :
    (s : Store) (now id user : ℕ) (location : Option Location)
    → ((start_service s now id user location).error ≡ none)
      ↔ ((b : Booking) × MayStart s now id user location b)
unfolding start_service
start_service_iff s now id user location = (
  λ h. elim (Outcome-cases (check_start s id user location)) [
    | inl (b, e) ↦
        let (target, proof, pay, gps) = check_start-ok s id user location b e in
        let told = notify (job_started id) s in
        elim (Outcome-cases (enter_started told now id user location b)) [
          | inl (t, k) ↦
              let (early, late, _) = enter_started-ok told now id user location b t target k in
              (b, (target, proof, pay, gps, early, late))
          | inr (x, k) ↦ absurd (ground arith)
        ]
    | inr (x, e) ↦ absurd (ground arith)
  ],
  λ (b, (target, proof, pay, gps, early, late)).
      let checked = check_start-may s id user location b target proof pay gps in
      let entered =
        enter_started-may (notify (job_started id) s) now id user location b target early late in
      simp (checked, entered) refl,
)

-- What a successful start has tested and written.
pub start_service-ok :
    (s : Store) (now id user : ℕ) (location : Option Location)
    → (start_service s now id user location).error ≡ none
    → (b : Booking) × MayStart s now id user location b
      × ((start_service s now id user location).store.bookings
          ≡ (changed s id started (beginning now user location)).bookings)
unfolding start_service
start_service-ok s now id user location h =
    let (b, (target, proof, pay, gps, early, late)) =
      (start_service_iff s now id user location).0 h in
    let checked = check_start-may s id user location b target proof pay gps in
    let told = notify (job_started id) s in
    let entered = enter_started-may told now id user location b target early late in
    let key = find_booking-id id s.bookings b target.0 in
    (b, (target, proof, pay, gps, early, late), simp (checked, entered, key) refl)

-- A booking whose service could start but for the time: the call is refused, and the client has
-- already been told that the service started.
pub told_before_refused :
    (s : Store) (now id user : ℕ) (location : Option Location) (b : Booking)
    → check_start s id user location ≡ ok b
    → start_of b + start_window < now
    → ((start_service s now id user location).error ≡ some too_late)
      × ((start_service s now id user location).store ≡ notify (job_started id) s)
unfolding start_service enter_started
told_before_refused s now id user location b h late =
    let not_early : ltb (now + start_window) (start_of b) ≡ false = ground arith in
    let is_late : ltb (start_of b + start_window) now ≡ true = ground arith in
    simp (h, not_early, is_late) (refl, refl)
