-- ===== src/Bookings/Visit/Progress.antt =====
-- A visit can be carried to its end: bookings/bookings.service.ts.
use limpeja_backend.Common.{ℕ, ◌+◌, ◌≤◌, ◌≡◌, refl, true, none, some, arith}
use limpeja_backend.Common.Outcome.{ok}
use limpeja_backend.Bookings.Status.{confirmed, on_the_way, arrived, started, finished}
use limpeja_backend.Bookings.Rows.{
  Booking, Store, find_booking, is_paid, notify, client_status, calculate_expected_end,
  requires_proof_gps,
}
use limpeja_backend.Bookings.Rows.Laws.{
  changed, change_booking_status-allowed, find-update_booking, find_booking-id,
}
use limpeja_backend.Bookings.Visit.{
  on_the_way_service, arrive_at_location, start_window, start_of, start_service, complete_service,
}
use limpeja_backend.Bookings.Visit.Laws.{IsTarget, own_booking-may, arrival}
use limpeja_backend.Bookings.Visit.Start.{beginning, MayStart, start_service_iff, start_service-ok}
use limpeja_backend.Bookings.Visit.Complete.{completion, complete_service_iff, complete_service-ok}
use limpeja_backend.Bookings.Visit.Course.{travel, reach, start, complete, perform}
use limpeja_backend.Bookings.Visit.Timeline.{run_time, expected_end-started}
use limpeja_backend.Bookings.Visit.History.{History, here, call}

module _ (id user : ℕ) where
  travel-may :
      (s : Store) (b : Booking)
      → IsTarget s id user confirmed b
      → (t : Store) × (on_the_way_service s id user ≡ ok t)
        × (find_booking id t.bookings ≡ some (record b { status = on_the_way }))
  unfolding on_the_way_service
  travel-may s b (found, user_is, from) =
      let change =
        change_booking_status-allowed s b on_the_way (λ r. r) (rw from refl) (rw from refl) in
      let key = find_booking-id id s.bookings b found in
      (
        notify (client_status id on_the_way) (changed s id on_the_way (λ r. r)),
        simp (own_booking-may s id user b found user_is, from, change, key) refl,
        find-update_booking id _ s.bookings b (λ r. refl) found,
      )

  reach-may :
      (s : Store) (now : ℕ) (b : Booking)
      → IsTarget s id user on_the_way b
      → (t : Store) × (arrive_at_location s now id user none ≡ ok t)
        × (find_booking id t.bookings ≡ some (arrival now none (record b { status = arrived })))
  unfolding arrive_at_location
  reach-may s now b (found, user_is, from) =
      let change =
        change_booking_status-allowed s b arrived (arrival now none) (rw from refl)
          (rw from refl) in
      let key = find_booking-id id s.bookings b found in
      (
        notify (client_status id arrived) (changed s id arrived (arrival now none)),
        simp (own_booking-may s id user b found user_is, from, change, key) refl,
        find-update_booking id _ s.bookings b (λ r. refl) found,
      )

  start-may :
      (s : Store) (now : ℕ) (b : Booking)
      → MayStart s now id user none b
      → (t : Store) × (perform s now (start id user none) ≡ ok t)
        × (find_booking id t.bookings
            ≡ some (beginning now user none (record b { status = started })))
  start-may s now b may =
      let none_wrong = (start_service_iff s now id user none).1 (b, may) in
      let (c, may2, wrote) = start_service-ok s now id user none none_wrong in
      (
        (start_service s now id user none).store,
        rw none_wrong refl,
        rw wrote (find-update_booking id _ s.bookings b (λ r. refl) may.0.0),
      )

  complete-may :
      (s : Store) (now : ℕ) (b : Booking)
      → IsTarget s id user started b
      → is_paid b.payment ≡ true
      → b.insurance ≡ none
      → calculate_expected_end b ≤ now
      → (t : Store) × (complete_service s now id user none ≡ ok t)
        × (find_booking id t.bookings
            ≡ some (completion now user none (record b { status = finished })))
  unfolding requires_proof_gps
  complete-may s now b target pay plain due =
      let (t, ends) =
        (complete_service_iff s now id user none).1
          (b, (target, rw plain refl, pay, rw plain (λ e. absurd cc), due)) in
      let (c, may, wrote) = complete_service-ok s now id user none t ends in
      (t, ends, rw wrote (find-update_booking id _ s.bookings b (λ r. refl) target.0))

  -- A confirmed, paid booking without insurance can always be carried to its end: its provider
  -- travels, arrives and starts at any time in the window around the scheduled start, and completes
  -- at any time once the service has run for its duration; the booking is then finished and records
  -- these times.
  pub confirmed_can_finish :
      (s : Store) (b : Booking) (now begin end : ℕ)
      → IsTarget s id user confirmed b
      → is_paid b.payment ≡ true
      → b.insurance ≡ none
      → now ≤ begin
      → start_of b ≤ begin + start_window
      → begin ≤ start_of b + start_window
      → begin + run_time b ≤ end
      → (t : Store) × (d : Booking) × History s now t end
        × (find_booking id t.bookings ≡ some d)
        × (d.status ≡ finished)
        × (d.started_at ≡ some begin)
        × (d.completed_at ≡ some end)
  unfolding requires_proof_gps
  confirmed_can_finish s b now begin end target pay plain le early late due =
      let (s1, did1, found1) = travel-may s b target in
      let (s2, did2, found2) =
        reach-may s1 begin (record b { status = on_the_way }) (found1, target.1, refl) in
      let b2 = arrival begin none (record b { status = arrived }) in
      let (s3, did3, found3) =
        start-may s2 begin b2
          ((found2, target.1, refl), rw plain refl, pay, rw plain (λ e. absurd cc), early, late) in
      let b3 = beginning begin user none (record b2 { status = started }) in
      let ends = expected_end-started b3 begin refl in
      let (s4, did4, found4) =
        complete-may s3 end b3 (found3, target.1, refl) pay plain (omega arith) in
      let h1 = call here le (travel id user) did1 in
      let h2 = call h1 (omega arith) (reach id user none) did2 in
      let h3 = call h2 (omega arith) (start id user none) did3 in
      (
        s4,
        completion end user none (record b3 { status = finished }),
        call h3 (omega arith) (complete id user none) did4,
        found4,
        refl,
        refl,
        refl,
      )
