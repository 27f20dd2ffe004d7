-- ===== src/Bookings/Override/Laws.antt =====
-- What the free change of a status lets through: bookings/bookings.service.ts.
use limpeja_backend.Common.{
  ℕ, ◌+◌, ◌≤◌, ◌<◌, ◌≡◌, ◌↔◌, refl, true, false, Option, none, some, map, arith,
}
use limpeja_backend.Common.Int.{◌-ℤ◌}
use limpeja_backend.Common.Lists.{includes}
use limpeja_backend.Common.Outcome.{Outcome, ok, err}
use limpeja_backend.Bookings.Status.{BookingStatus, finished, status_eq}
use limpeja_backend.Bookings.Table.{UserRole, client}
use limpeja_backend.Bookings.Rows.{Booking, Store, find_booking, status_finalized}
use limpeja_backend.Bookings.Rows.Laws.{find-update_booking}
use limpeja_backend.Bookings.Override.{
  finalized_states, is_admin, rounded_minutes, in_start_window, update_status, client_user,
  patch_status, after_status, status_data, update_read, counted_client, count_completed,
}
use limpeja_backend.Common.{ap, ◌∙◌}
use limpeja_backend.Common.Text.{Text, text_eq}
use limpeja_backend.Bookings.Rows.{update_booking, Location, BookingError}
use limpeja_backend.Bookings.Rows.Laws.{find_booking-id, KeepsId}
use limpeja_backend.Bookings.Visit.{complete_service, use_coupon}
use limpeja_backend.Coupons.Apply.{mark_coupon_as_used}
use limpeja_backend.Bookings.Visit.Complete.{complete_service-ok, complete_service-may}

-- The window in which a provider may set a booking to started, in milliseconds: from fifteen and a
-- half minutes before the scheduled time to less than a hundred and twenty and a half after it.
pub in_start_window_iff :
    (now scheduled : ℕ)
    → (in_start_window now scheduled ≡ true)
      ↔ ((scheduled ≤ now + 930000) × (now < scheduled + 7230000))
unfolding in_start_window rounded_minutes ◌-ℤ◌
in_start_window_iff now scheduled = ground arith

-- A finished, cancelled or rejected booking, or a no-show, changes its status for an administrator
-- alone: to everyone else the method answers that it is final.
pub finalized_refused :
    (s : Store) (min_minutes now id : ℕ) (new : BookingStatus) (role : UserRole) (actor : Option ℕ)
    (b : Booking)
    → find_booking id s.bookings ≡ some b
    → includes status_eq b.status finalized_states ≡ true
    → is_admin role ≡ false
    → status_eq b.status new ≡ false
    → update_status s min_minutes now id new role actor ≡ err status_finalized
unfolding update_status
finalized_refused s m now id new role actor b found final plain other =
    simp (found, final, plain, other) refl

after_status-bookings :
    (b : Booking) (new : BookingStatus) (s : Store) → (after_status b new s).bookings ≡ s.bookings
unfolding after_status count_completed
after_status-bookings b new s = ground arith

plain-status_data :
    (now : ℕ) (new from : BookingStatus) (r : Booking)
    → status_data now new client none from r ≡ record r { status = new }
unfolding status_data
plain-status_data now new from r = refl

plain-KeepsId :
    (now : ℕ) (new from : BookingStatus) → KeepsId (status_data now new client none from)
unfolding status_data
plain-KeepsId now new from r = refl

-- Nothing else is tested when a client sets a status: for the client of a booking that is not
-- final, the route accepts every other status, such as that of a paid booking for an unpaid one,
-- and stores it without touching the payment.
pub client_sets_any_status :
    (s : Store) (min_minutes now id : ℕ) (new : BookingStatus) (user : Text) (b : Booking)
    → find_booking id s.bookings ≡ some b
    → text_eq b.client_user user ≡ true
    → includes status_eq b.status finalized_states ≡ false
    → status_eq b.status new ≡ false
    → (t : Store) × (patch_status s min_minutes now id new (client_user user) ≡ ok t)
      × (find_booking id t.bookings ≡ some (record b { status = new }))
unfolding patch_status update_status
client_sets_any_status s m now id new user b found own open_ other =
    let key = find_booking-id id s.bookings b found in
    (
      after_status b new (record s {
        bookings = update_booking id (status_data now new client none b.status) s.bookings;
      }),
      simp (found, own, open_, other, key) refl,
      rw
          (after_status-bookings b new (record s {
            bookings = update_booking id (status_data now new client none b.status) s.bookings;
          }))
          (find-update_booking id (status_data now new client none b.status) s.bookings b
              (plain-KeepsId now new b.status) found
            ∙ ap some (plain-status_data now new b.status b)),
    )

updated-clients :
    (s : Store) (min_minutes now : ℕ) (b : Booking) (role : UserRole) (actor : Option ℕ) (t : Store)
    → update_read s min_minutes now b finished role actor ≡ ok t
    → t.coupons.clients ≡ map (counted_client b.client_user) s.coupons.clients
unfolding after_status count_completed
updated-clients s m now b role actor t h = ground arith

use_coupon-clients :
    (c : Option ℕ) (s : Store) → (use_coupon c s).coupons.clients ≡ s.coupons.clients
unfolding mark_coupon_as_used
use_coupon-clients none s = refl
use_coupon-clients (some c) s = refl

only_result : {r : Outcome BookingError Store} (t u : Store) → r ≡ ok t → r ≡ ok u → u ≡ t
only_result t u h k = cc

complete_service-clients :
    (s : Store) (now id user : ℕ) (location : Option Location) (u : Store)
    → complete_service s now id user location ≡ ok u
    → u.coupons.clients ≡ s.coupons.clients
complete_service-clients s now id user location u h =
    let (b, may, _) = complete_service-ok s now id user location u h in
    let done = complete_service-may s now id user location b may in
    ap (λ z. z.coupons.clients) (only_result _ u done h) ∙ use_coupon-clients b.coupon_id _

-- A booking counts for its client when it is finished by a change of the status, and does not when
-- its provider completes it.
pub finish_counts :
    (s t u : Store) (min_minutes now id user : ℕ) (role : UserRole) (actor : Option ℕ)
    (location : Option Location) (b : Booking)
    → find_booking id s.bookings ≡ some b
    → status_eq b.status finished ≡ false
    → update_status s min_minutes now id finished role actor ≡ ok t
    → complete_service s now id user location ≡ ok u
    → (t.coupons.clients ≡ map (counted_client b.client_user) s.coupons.clients)
      × (u.coupons.clients ≡ s.coupons.clients)
unfolding update_status
finish_counts s t u m now id user role actor location b found open_ updated completed = (
  updated-clients s m now b role actor t (ground arith),
  complete_service-clients s now id user location u completed,
)
