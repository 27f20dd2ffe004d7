-- ===== src/Bookings/Weekly/Laws.antt =====
-- What the weekly limit holds back, and what it does not: bookings/bookings.service.ts.
use limpeja_backend.Common.{
  ℕ, ◌<◌, ◌≡◌, ◌↔◌, refl, Bool, true, false, ◌==◌, none, some, List, [], ◌∷◌, ◌++◌, arith,
}
use limpeja_backend.Common.Lists.{includes, All}
use limpeja_backend.Common.Text.{Text}
use limpeja_backend.Common.Outcome.{Outcome, ok, err}
use limpeja_backend.Bookings.Status.{status_eq}
use limpeja_backend.Bookings.Rows.{Booking}
use limpeja_backend.Locks.{Redis, acquire_lock, release_lock}
use limpeja_backend.Bookings.Weekly.{
  weekly_countable_statuses, weekly_booking_limit, weekly_lock_ttl_ms, WeeklyError, lock_busy,
  count_weekly_bookings, ensure_weekly_limit, run_with_weekly_lock, work_and_release,
}

-- The test passes exactly while fewer than two bookings of the week count.
ensure_weekly_limit_iff :
    (bs : List Booking) (client : Text) (provider from to : ℕ)
    → (ensure_weekly_limit bs client provider from to ≡ ok tt)
      ↔ (count_weekly_bookings bs client provider from to < weekly_booking_limit)
unfolding ensure_weekly_limit
ensure_weekly_limit_iff bs client provider from to = ground arith

uncounted :
    (bs news : List Booking) (client : Text) (provider from to : ℕ)
    → All (λ b. includes status_eq b.status weekly_countable_statuses ≡ false) news
    → count_weekly_bookings (news ++ bs) client provider from to
      ≡ count_weekly_bookings bs client provider from to
unfolding count_weekly_bookings
uncounted bs [] client provider from to h = refl
uncounted bs (b ∷ news) client provider from to (n, h) =
    ground (arith, uncounted bs news client provider from to h)

-- Bookings that wait for their payment, or whose provider is under way or has arrived, do not count:
-- with any number of them added the test answers as before.
pub ensure_weekly_limit-uncounted :
    (bs news : List Booking) (client : Text) (provider from to : ℕ)
    → All (λ b. includes status_eq b.status weekly_countable_statuses ≡ false) news
    → ensure_weekly_limit (news ++ bs) client provider from to
      ≡ ensure_weekly_limit bs client provider from to
unfolding ensure_weekly_limit
ensure_weekly_limit-uncounted bs news client provider from to h =
    rw (uncounted bs news client provider from to h) refl

module _ {ℓ} (redis : Redis) {A : Type ℓ} where
  open redis use {State, get, set-free, set-taken, del-get}

  worked :
      (key value end : ℕ) (work : State → Outcome WeeklyError A × State) (p : Bool × State)
      → p.0 ≡ true
      → ((work_and_release redis key value end work p).0 ≡ (work p.1).0)
        × (get (work p.1).1 end key ≡ some value
            → get (work_and_release redis key value end work p).1 end key ≡ none)
  unfolding release_lock
  worked key value end work (false, s) h = absurd cc
  worked key value end work (true, s) h =
      let self : (value == value) ≡ true = ground arith in
      (refl, λ mine. simp (mine, self) (del-get (work s).1 end key))

  -- Work under the weekly lock: while another holds it nothing is run and the answer is that it is
  -- busy; while it is free the work runs, holding it, and its result is the answer; where the work
  -- ends in time and leaves the lock, the lock is free afterwards.
  pub run_with_weekly_lock_lem :
      (s : State) (now end key value : ℕ) (work : State → Outcome WeeklyError A × State)
      → ((other : ℕ)
          → get s now key ≡ some other
          → run_with_weekly_lock redis s now end key value work ≡ (err lock_busy, s))
        × (get s now key ≡ none
            → let held = (acquire_lock redis s now key value weekly_lock_ttl_ms).1 in
              let r = run_with_weekly_lock redis s now end key value work in
              (r.0 ≡ (work held).0)
              × (get (work held).1 end key ≡ some value → get r.1 end key ≡ none))
  unfolding run_with_weekly_lock acquire_lock release_lock
  run_with_weekly_lock_lem s now end key value work = (
    λ other taken.
        let no = set-taken s now key value weekly_lock_ttl_ms other taken in simp no refl,
    λ free.
        let (won, _, _) = set-free s now key value weekly_lock_ttl_ms free in
        worked key value end work (acquire_lock redis s now key value weekly_lock_ttl_ms) won,
  )
