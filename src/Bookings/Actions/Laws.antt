-- ===== src/Bookings/Actions/Laws.antt =====
-- How the offered actions stand to the handlers: bookings/booking-actions.helper.ts and
-- bookings/bookings.service.ts.
use limpeja_backend.Common.{
  ℕ, ◌+◌, ◌*◌, ◌≤◌, ◌≡◌, refl, true, false, Option, some, List, [], ◌∷◌, ◌++◌, arith, leb,
}
use limpeja_backend.Common.Int.{pos, ltb_ℤ}
use limpeja_backend.Common.Lists.{includes}
use limpeja_backend.Common.Text.{Text, text_eq}
use limpeja_backend.Bookings.Status.{pending, finished, status_eq}
use limpeja_backend.Bookings.Table.{client, provider}
use limpeja_backend.Bookings.Rows.{
  Location, Booking, Store, find_booking, or_else_time, minute_ms, calculate_expected_end,
  status_finalized, notify, admin_dispute,
}
use limpeja_backend.Bookings.Visit.{start_of}
use limpeja_backend.Bookings.Visit.Start.{MayStart}
use limpeja_backend.Bookings.Visit.Complete.{MayComplete}
use limpeja_backend.Bookings.Visit.Timeline.{run_time}
use limpeja_backend.Bookings.Override.{rounded_minutes, client_user, report_issue, update_status}
use limpeja_backend.Bookings.Override.Laws.{in_start_window_iff}
use limpeja_backend.Bookings.Actions.{
  BookingAction, action_eq, open_dispute, start_service, complete_service, confirm, reject,
  contact_support, provider_open_dispute_statuses, can_start_service, can_complete_service, when,
  get_allowed_booking_actions,
}

includes-right :
    (a : BookingAction) (xs ys : List BookingAction)
    → includes action_eq a ys ≡ true
    → includes action_eq a (xs ++ ys) ≡ true
includes-right a [] ys h = h
includes-right a (x ∷ xs) ys h = ground (arith, includes-right a xs ys h)

includes-left :
    (a : BookingAction) (xs ys : List BookingAction)
    → includes action_eq a xs ≡ true
    → includes action_eq a (xs ++ ys) ≡ true
includes-left a [] ys h = absurd cc
includes-left a (x ∷ xs) ys h = ground (arith, includes-left a xs ys)

can_start-may :
    (s : Store) (now id user : ℕ) (location : Option Location) (b : Booking)
    → MayStart s now id user location b
    → can_start_service now b ≡ true
unfolding can_start_service
can_start-may s now id user location b ((_, _, from), _, pay, _, early, late) =
    let window = (in_start_window_iff now (start_of b)).1 (omega arith, omega arith) in
    simp (from, pay, window) refl

-- Rounded to minutes, what has run its minutes counts them.
rounded_minutes-run :
    (now then_ minutes : ℕ)
    → then_ + minutes * minute_ms ≤ now
    → ltb_ℤ (rounded_minutes now then_) (pos minutes) ≡ false
unfolding rounded_minutes
rounded_minutes-run now then_ minutes h = ground arith

can_complete-may :
    (s : Store) (min_minutes now id user : ℕ) (location : Option Location) (b : Booking)
    → MayComplete s now id user location b
    → min_minutes * minute_ms ≤ run_time b
    → can_complete_service min_minutes now b ≡ true
unfolding can_complete_service calculate_expected_end
can_complete-may s m now id user location b ((_, _, from), _, pay, _, due) long =
    let ended : leb (calculate_expected_end b) now ≡ true = ground arith in
    let ran = rounded_minutes-run now (or_else_time b.started_at (start_of b)) m (omega arith) in
    simp (from, pay, ended, ran) refl

-- Whoever may start or complete a service is offered it: to the provider the actions on a booking
-- contain the start wherever the start would succeed, and the completion wherever that would
-- succeed on a booking that lasts the least number of minutes.
pub get_allowed_booking_actions-covers :
    (s : Store) (min_minutes now id user : ℕ) (location : Option Location) (b : Booking)
    → (MayStart s now id user location b
        → includes action_eq start_service (get_allowed_booking_actions min_minutes now b provider)
          ≡ true)
      × (MayComplete s now id user location b
          → min_minutes * minute_ms ≤ run_time b
          → includes action_eq complete_service
              (get_allowed_booking_actions min_minutes now b provider)
            ≡ true)
unfolding get_allowed_booking_actions
get_allowed_booking_actions-covers s m now id user location b =
    let disputes = when (includes status_eq b.status provider_open_dispute_statuses) open_dispute in
    let completes = when (can_complete_service m now b) complete_service ++ disputes in
    let starts = when (can_start_service now b) start_service ++ completes in
    let rejects = when (status_eq b.status pending) reject ++ starts in
    let confirms = when (status_eq b.status pending) confirm in
    (
      λ may. includes-right start_service (contact_support ∷ confirms) rejects (
          includes-right start_service (when (status_eq b.status pending) reject) starts (
            includes-left start_service (when (can_start_service now b) start_service) completes
              (rw (can_start-may s now id user location b may) refl))),
      λ may long. includes-right complete_service (contact_support ∷ confirms) rejects (
          includes-right complete_service (when (status_eq b.status pending) reject) starts (
            includes-right complete_service (when (can_start_service now b) start_service) completes
              (includes-left complete_service (when (can_complete_service m now b) complete_service)
                disputes (rw (can_complete-may s m now id user location b may long) refl)))),
    )

-- A client is offered to open a dispute on a finished booking, and the report is then refused, with
-- the administration already told.
pub dispute_offered_and_refused :
    (s : Store) (min_minutes now id : ℕ) (user : Text) (b : Booking)
    → find_booking id s.bookings ≡ some b
    → text_eq b.client_user user ≡ true
    → b.status ≡ finished
    → (includes action_eq open_dispute (get_allowed_booking_actions min_minutes now b client)
        ≡ true)
      × ((report_issue s min_minutes now id (client_user user)).error ≡ some status_finalized)
      × ((report_issue s min_minutes now id (client_user user)).store ≡ notify (admin_dispute id) s)
unfolding get_allowed_booking_actions report_issue update_status
dispute_offered_and_refused s m now id user b found own from =
    simp (found, own, from) (refl, refl, refl)
