-- ===== src/Bookings/Weekly.antt =====
-- The weekly limit of bookings/bookings.service.ts: how many bookings of a week count, and the lock
-- under which they are counted. The bounds of the week, the key and the value of the lock are
-- arguments; the work under the lock ends at a time that is given with it.
pub mod Laws
use limpeja_backend.Common.{
  ℕ, ◌+◌, Bool, true, false, not, ◌&&◌, ◌==◌, Option, none, some, List, [], ◌∷◌, leb, if◌then◌else◌,
}
use limpeja_backend.Common.Lists.{includes, filter, length}
use limpeja_backend.Common.Text.{Text, text_eq}
use limpeja_backend.Common.Outcome.{Outcome, ok, err, throw_if}
use limpeja_backend.Bookings.Status.{BookingStatus, confirmed, started, finished, status_eq}
use limpeja_backend.Bookings.Rows.{Booking}
use limpeja_backend.Locks.{Redis, acquire_lock, release_lock}

-- `WEEKLY_COUNTABLE_STATUSES`
abbrev pub weekly_countable_statuses : List BookingStatus
weekly_countable_statuses = confirmed ∷ started ∷ finished ∷ []

abbrev pub weekly_booking_limit : ℕ
weekly_booking_limit = 2

abbrev pub weekly_lock_ttl_ms : ℕ
weekly_lock_ttl_ms = 3000

pub data WeeklyError : Type 0 where
  weekly_limit lock_busy : WeeklyError

abbrev pub at_least : ℕ → Option ℕ → Bool
at_least bound none = false
at_least bound (some t) = leb bound t

abbrev pub at_most : ℕ → Option ℕ → Bool
at_most bound none = false
at_most bound (some t) = leb t bound

abbrev pub counts_weekly : Text → ℕ → ℕ → ℕ → Booking → Bool
counts_weekly client provider from to b =
    text_eq b.client_user client
    && b.provider_id == provider
    && at_least from b.scheduled_start
    && at_most to b.scheduled_end
    && includes status_eq b.status weekly_countable_statuses

-- `countWeeklyBookings`
unfoldable pub count_weekly_bookings : List Booking → Text → ℕ → ℕ → ℕ → ℕ
count_weekly_bookings bs client provider from to =
    length (filter (counts_weekly client provider from to) bs)

-- `ensureWeeklyLimit`
unfoldable pub ensure_weekly_limit :
    List Booking → Text → ℕ → ℕ → ℕ → Outcome WeeklyError (Unit {0})
ensure_weekly_limit bs client provider from to =
    throw_if (leb weekly_booking_limit (count_weekly_bookings bs client provider from to))
      weekly_limit

module _ (redis : Redis) where
  open redis use {State}

  -- The work, which ends at `end`, and the release in `finally`.
  abbrev pub work_and_release {ℓ} :
      {A : Type ℓ}
      → ℕ
      → ℕ
      → ℕ
      → (State → Outcome WeeklyError A × State)
      → Bool × State
      → Outcome WeeklyError A × State
  work_and_release key value end work (false, s) = (err lock_busy, s)
  work_and_release key value end work (true, s) =
      let r = work s in (r.0, (release_lock redis r.1 end key value).1)

  -- `runWithWeeklyLock`
  unfoldable pub run_with_weekly_lock {ℓ} :
      {A : Type ℓ}
      → State
      → ℕ
      → ℕ
      → ℕ
      → ℕ
      → (State → Outcome WeeklyError A × State)
      → Outcome WeeklyError A × State
  run_with_weekly_lock s now end key value work =
      work_and_release key value end work (acquire_lock redis s now key value weekly_lock_ttl_ms)
