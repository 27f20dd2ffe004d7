-- ===== src/Bookings/Override.antt =====
-- `updateStatus` of bookings/bookings.service.ts and what calls it: the route that sets a status
-- (bookings/bookings.controller.ts), cancellation, the system's changes and the reports of a
-- dispute. The role in the request is the one passed on. The scheduled reminders and their push
-- are one notice; their failure is only logged.
pub mod Laws
use limpeja_backend.Common.{
  ℕ, ◌+◌, ◌-◌, ◌*◌, ◌/◌, Bool, true, false, not, ◌&&◌, ◌||◌, ◌==◌, Option, none, some, List, [],
  ◌∷◌, map, leb, ltb, if◌then◌else◌,
}
use limpeja_backend.Common.Int.{ℤ, pos, negsuc, ◌-ℤ◌, ltb_ℤ}
use limpeja_backend.Common.Lists.{includes}
use limpeja_backend.Common.Text.{Text, text_eq}
use limpeja_backend.Common.Outcome.{Outcome, ok, err, ◌>>=◌, ◌>>◌, throw_if, or_throw}
use limpeja_backend.Bookings.Status.{
  BookingStatus, confirmed, arrived, started, finished, canceled, rejected, no_show,
  pending_dispute, status_eq,
}
use limpeja_backend.Bookings.Table.{UserRole, client, provider, admin, system, support_agent}
use limpeja_backend.Bookings.Rows.{
  Booking, reminders, admin_dispute, dispute_job, Store, BookingError, not_found, forbidden,
  status_finalized, outside_window, finish_too_early, find_booking, update_booking, notify,
  or_else_time, minute_ms,
}
use limpeja_backend.Bookings.Visit.{start_of, Reply, reply_of}
use limpeja_backend.Coupons.{Client, Store as CouponStore}

-- `finalizedStates`
abbrev pub finalized_states : List BookingStatus
finalized_states = finished ∷ canceled ∷ rejected ∷ no_show ∷ []

abbrev pub is_provider : UserRole → Bool
is_provider provider = true
is_provider _ = false

abbrev pub is_admin : UserRole → Bool
is_admin admin = true
is_admin _ = false

-- `Math.round((now - then) / 60000)`, which rounds a half up.
unfoldable pub rounded_minutes : ℕ → ℕ → ℤ
rounded_minutes now then_ =
    if leb then_ now
    then pos ((now - then_ + 30000) / minute_ms)
    else pos 0 -ℤ pos ((then_ - now + 29999) / minute_ms)

-- `diffMin >= -15 && diffMin <= 120`
unfoldable pub in_start_window : ℕ → ℕ → Bool
in_start_window now scheduled =
    let diff = rounded_minutes now scheduled in
    not (ltb_ℤ diff (negsuc 14)) && not (ltb_ℤ (pos 120) diff)

-- The two changes by a provider that the method treats by themselves.
abbrev pub is_start : UserRole → BookingStatus → BookingStatus → Bool
is_start role from to = is_provider role && (status_eq from arrived && status_eq to started)

abbrev pub is_end : UserRole → BookingStatus → BookingStatus → Bool
is_end role from to = is_provider role && (status_eq from started && status_eq to finished)

abbrev pub actor_or : Option ℕ → Option ℕ → Option ℕ
actor_or (some user) _ = some user
actor_or none old = old

-- `dataToUpdate`
unfoldable pub status_data :
    ℕ → BookingStatus → UserRole → Option ℕ → BookingStatus → Booking → Booking
status_data now new role actor from r =
    if is_start role from new
    then (record r {
      status = new;
      started_at = some now;
      started_by = actor_or actor r.started_by;
    })
    else (if is_end role from new
        then (record r {
          status = new;
          completed_at = some now;
          completed_by = actor_or actor r.completed_by;
        })
        else (record r { status = new }))

abbrev pub counted_client : Text → Client → Client
counted_client user c =
    if text_eq c.user_id user
    then (record c { completed_bookings = c.completed_bookings + 1 })
    else c

-- The counters of the client and of the provider.
unfoldable pub count_completed : Booking → Store → Store
count_completed b s = record s {
  coupons = record s.coupons { clients = map (counted_client b.client_user) s.coupons.clients };
  monthly_bookings =
      λ p. if p == b.provider_id then s.monthly_bookings p + 1 else s.monthly_bookings p;
}

-- What follows the write.
unfoldable pub after_status : Booking → BookingStatus → Store → Store
after_status b new s =
    if status_eq new finished
    then count_completed b s
    else (if status_eq new confirmed then notify (reminders b.id) s else s)

abbrev pub update_read :
    Store → ℕ → ℕ → Booking → BookingStatus → UserRole → Option ℕ → Outcome BookingError Store
update_read s min_minutes now b new role actor = do
  throw_if (includes status_eq b.status finalized_states && not (is_admin role)) status_finalized
  throw_if (is_start role b.status new && not (in_start_window now b.scheduled_at)) outside_window
  let run = rounded_minutes now (or_else_time b.started_at (start_of b))
  throw_if (is_end role b.status new && ltb_ℤ run (pos min_minutes)) finish_too_early
  ok (
      after_status b new (record s {
        bookings = update_booking b.id (status_data now new role actor b.status) s.bookings;
      }))

-- `updateStatus`; `min_minutes` is MIN_SERVICE_MINUTES.
unfoldable pub update_status :
    Store → ℕ → ℕ → ℕ → BookingStatus → UserRole → Option ℕ → Outcome BookingError Store
update_status s min_minutes now id new role actor = do
  b ← or_throw (find_booking id s.bookings) not_found
  let updated = update_read s min_minutes now b new role actor
  if status_eq b.status new then ok s else updated

-- `systemChangeStatus`
unfoldable pub system_change_status : Store → ℕ → ℕ → ℕ → BookingStatus → Outcome BookingError Store
system_change_status s min_minutes now id new = update_status s min_minutes now id new system none

-- `cancelBooking`
unfoldable pub cancel_booking : Store → ℕ → ℕ → ℕ → UserRole → Option ℕ → Outcome BookingError Store
cancel_booking s min_minutes now id role actor =
    update_status s min_minutes now id canceled role actor

-- The user of a request.
pub data Caller : Type 0 where
  client_user : Text → Caller
  provider_user : ℕ → Caller
  staff : UserRole → Caller

abbrev pub role_of : Caller → UserRole
role_of (client_user u) = client
role_of (provider_user u) = provider
role_of (staff r) = r

abbrev pub actor_of : Caller → Option ℕ
actor_of (provider_user u) = some u
actor_of _ = none

-- A client or a provider that the booking does not belong to.
abbrev pub is_stranger : Booking → Caller → Bool
is_stranger b (client_user u) = not (text_eq b.client_user u)
is_stranger b (provider_user u) = not (b.provider_user == u)
is_stranger b (staff r) = false

-- The handler of `PATCH :id/status`.
unfoldable pub patch_status :
    Store → ℕ → ℕ → ℕ → BookingStatus → Caller → Outcome BookingError Store
patch_status s min_minutes now id new caller = do
  b ← or_throw (find_booking id s.bookings) not_found
  throw_if (is_stranger b caller) forbidden
  update_status s min_minutes now id new (role_of caller) (actor_of caller)

abbrev pub report_checked :
    Store → ℕ → ℕ → ℕ → Caller → Outcome BookingError Booking → (Store → Store) → Reply
report_checked s min_minutes now id caller (err e) tell = record { store = s; error = some e }
report_checked s min_minutes now id caller (ok b) tell =
    reply_of (tell s)
      (update_status (tell s) min_minutes now id pending_dispute (role_of caller) (actor_of caller))

abbrev pub check_party : Store → ℕ → Caller → Outcome BookingError Booking
check_party s id caller = do
  b ← or_throw (find_booking id s.bookings) not_found
  throw_if (is_stranger b caller) forbidden
  ok b

-- `reportIssue`: the administration is told before the status is changed.
unfoldable pub report_issue : Store → ℕ → ℕ → ℕ → Caller → Reply
report_issue s min_minutes now id caller =
    report_checked s min_minutes now id caller (check_party s id caller) (notify (admin_dispute id))

-- `reportDispute`
unfoldable pub report_dispute : Store → ℕ → ℕ → ℕ → Caller → Reply
report_dispute s min_minutes now id caller =
    report_checked s min_minutes now id caller (check_party s id caller) (notify (dispute_job id))
