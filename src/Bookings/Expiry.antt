-- ===== src/Bookings/Expiry.antt =====
-- worker/expire-bookings.job.ts: bookings whose payment did not come in time, and the reminders
-- before. The rows are read first and updated by key one after the other, whatever they have
-- become; `expire_each` is that loop.
pub mod Laws
use limpeja_backend.Common.{
  ℕ, suc, ◌+◌, ◌-◌, ◌*◌, ◌/◌, Bool, true, false, ◌&&◌, Option, none, some, List, [], ◌∷◌, ltb, leb,
  max, if◌then◌else◌,
}
use limpeja_backend.Common.Lists.{filter, length}
use limpeja_backend.Common.Text.{Text}
use limpeja_backend.Bookings.Status.{BookingStatus, pending_payment, expired, status_eq}
use limpeja_backend.Bookings.Rows.{Booking, update_booking, minute_ms}

-- `expiresAt: { not: null, lt: now }`
abbrev pub before : ℕ → Option ℕ → Bool
before now none = false
before now (some t) = ltb t now

abbrev pub is_due : ℕ → Booking → Bool
is_due now b = status_eq b.status pending_payment && before now b.expires_at

abbrev pub expire : Booking → Booking
expire r = record r { status = expired }

-- The loop over the rows that were read, with its count.
unfoldable pub expire_each : List Booking → List Booking → List Booking
expire_each [] bs = bs
expire_each (d ∷ ds) bs = expire_each ds (update_booking d.id expire bs)

-- `expireDueBookings`: the bookings afterwards, and how many were expired.
unfoldable pub expire_due_bookings : ℕ → List Booking → List Booking × ℕ
expire_due_bookings now bs = let due = filter (is_due now) bs in (expire_each due bs, length due)

-- `expiresAt` between five and ten minutes from now.
abbrev pub is_near : ℕ → Option ℕ → Bool
is_near now none = false
is_near now (some t) = leb (now + 5 * minute_ms) t && leb t (now + 10 * minute_ms)

abbrev pub is_upcoming : ℕ → Booking → Bool
is_upcoming now b = status_eq b.status pending_payment && is_near now b.expires_at

-- What `createNotification` is given: the booking, its user, the minutes, and the minute that the
-- key against repetition carries.
pub record Reminder : Type 0 where
  pub booking : ℕ
  pub user : Text
  pub minutes_left : ℕ
  pub dedupe_minute : ℕ

-- `Math.max(1, Math.ceil((expiresAt - now) / 60000))`
unfoldable pub minutes_until : ℕ → ℕ → ℕ
minutes_until now t = max 1 ((t - now + 59999) / minute_ms)

abbrev pub reminder_of : ℕ → Booking → ℕ → Reminder
reminder_of now b t = record {
  booking = b.id;
  user = b.client_user;
  minutes_left = minutes_until now t;
  dedupe_minute = t / minute_ms;
}

-- `sent` says for which reminders `createNotification` succeeds; a failure is logged only.
unfoldable pub remind_each : (Reminder → Bool) → ℕ → List Booking → List Reminder
remind_each sent now [] = []
remind_each sent now (b ∷ bs) =
    let rest = remind_each sent now bs in
    elim b.expires_at [
      | none ↦ rest
      | some t ↦ if sent (reminder_of now b t) then reminder_of now b t ∷ rest else rest
    ]

-- `notifyUpcomingExpirations`
unfoldable pub notify_upcoming_expirations : (Reminder → Bool) → ℕ → List Booking → List Reminder
notify_upcoming_expirations sent now bs = remind_each sent now (filter (is_upcoming now) bs)
