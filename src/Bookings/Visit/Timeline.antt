-- ===== src/Bookings/Visit/Timeline.antt =====
-- The times that a visit leaves in its booking: bookings/bookings.service.ts.
use limpeja_backend.Common.{
  ℕ, ◌+◌, ◌*◌, ◌≤◌, ◌≡◌, refl, Option, none, some, arith, inl, inr, subst, Bool-cases,
}
use limpeja_backend.Common.Outcome.{ok}
use limpeja_backend.Bookings.Status.{
  BookingStatus, confirmed, on_the_way, arrived, started, finished,
}
use limpeja_backend.Bookings.Rows.{Booking, Store, minute_ms, or_else_time, calculate_expected_end}
use limpeja_backend.Bookings.Rows.Laws.{changed}
use limpeja_backend.Bookings.Visit.Laws.{IsTarget, status_eq_sound}
use limpeja_backend.Bookings.Visit.Sweep.{closed_if_overdue}
use limpeja_backend.Bookings.Visit.{is_overdue}
use limpeja_backend.Bookings.Visit.Complete.{complete_service-ok}
use limpeja_backend.Bookings.Visit.Course.{
  Call, travel, reach, start, complete, perform, booking_of, source_of, goal_of, data_of,
  perform-ok, caller_of,
}

-- The minutes that a service takes.
abbrev pub run_time : Booking → ℕ
run_time b = or_else_time b.duration_minutes 60 * minute_ms

-- The times that a booking carries in each status of the visit: none is in the future, the arrival
-- comes before the start, and a finished service has run for its whole duration.
abbrev pub TimesOf : ℕ → ℕ → BookingStatus → Option ℕ → Option ℕ → Option ℕ → Type 0
TimesOf now run confirmed a u c = (a ≡ none) × (u ≡ none) × (c ≡ none)
TimesOf now run on_the_way a u c = (a ≡ none) × (u ≡ none) × (c ≡ none)
TimesOf now run arrived a u c = (x : ℕ) × (a ≡ some x) × (x ≤ now) × (u ≡ none) × (c ≡ none)
TimesOf now run started a u c =
    (x y : ℕ) × (a ≡ some x) × (u ≡ some y) × (x ≤ y) × (y ≤ now) × (c ≡ none)
TimesOf now run finished a u c =
    (x y z : ℕ) × (a ≡ some x) × (u ≡ some y) × (c ≡ some z) × (x ≤ y) × (y + run ≤ z) × (z ≤ now)
TimesOf now run _ a u c = Unit {0}

abbrev pub IsTimely : ℕ → Booking → Type 0
IsTimely now b = TimesOf now (run_time b) b.status b.arrived_at b.started_at b.completed_at

pub TimesOf-later :
    (now later run : ℕ) (st : BookingStatus) (a u c : Option ℕ)
    → now ≤ later
    → TimesOf now run st a u c
    → TimesOf later run st a u c
TimesOf-later now later run arrived a u c l (x, e, le, n, m) = (x, e, omega arith, n, m)
TimesOf-later now later run started a u c l (x, y, e, f, le, le2, n) =
    (x, y, e, f, le, omega arith, n)
TimesOf-later now later run finished a u c l (x, y, z, e, f, g, le, le2, le3) =
    (x, y, z, e, f, g, le, le2, omega arith)
TimesOf-later now later run confirmed a u c l h = h
TimesOf-later now later run on_the_way a u c l h = h
TimesOf-later now later run _ a u c l h = tt

TimesOf-at :
    (now : ℕ) (b : Booking) (from : BookingStatus)
    → b.status ≡ from
    → IsTimely now b
    → TimesOf now (run_time b) from b.arrived_at b.started_at b.completed_at
TimesOf-at now b from e h =
    subst (λ st. TimesOf now (run_time b) st b.arrived_at b.started_at b.completed_at) e h

pub expected_end-started :
    (b : Booking) (y : ℕ) → b.started_at ≡ some y → calculate_expected_end b ≡ y + run_time b
unfolding calculate_expected_end
expected_end-started b y e = rw e refl

-- What each call writes keeps the times in order.
pub written-IsTimely :
    (s : Store) (now : ℕ) (c : Call) (t : Store)
    → perform s now c ≡ ok t
    → (b : Booking) × IsTarget s (booking_of c) (caller_of c) (source_of c) b
      × (t.bookings ≡ (changed s (booking_of c) (goal_of c) (data_of now c)).bookings)
      × (IsTimely now b → IsTimely now (data_of now c (record b { status = goal_of c })))
written-IsTimely s now (travel id user) t h =
    let (b, target, wrote) = perform-ok s now (travel id user) t h in
    (b, target, wrote, TimesOf-at now b confirmed target.2)
written-IsTimely s now (reach id user l) t h =
    let (b, target, wrote) = perform-ok s now (reach id user l) t h in
    (
      b,
      target,
      wrote,
      λ p.
          let (no_arrival, no_start, no_end) = TimesOf-at now b on_the_way target.2 p in
          (now, refl, omega arith, no_start, no_end),
    )
written-IsTimely s now (start id user l) t h =
    let (b, target, wrote) = perform-ok s now (start id user l) t h in
    (
      b,
      target,
      wrote,
      λ p.
          let (x, e, le, no_start, no_end) = TimesOf-at now b arrived target.2 p in
          (x, now, e, refl, le, omega arith, no_end),
    )
written-IsTimely s now (complete id user l) t h =
    let (b, (target, _, _, _, due), wrote) = complete_service-ok s now id user l t h in
    (
      b,
      target,
      wrote,
      λ p.
          let (x, y, e, f, le, le2, no_end) = TimesOf-at now b started target.2 p in
          let end = expected_end-started b y f in
          (x, y, now, e, f, refl, le, omega arith, omega arith),
    )

pub closed-IsTimely :
    (now : ℕ) (b : Booking) → IsTimely now b → IsTimely now (closed_if_overdue now b)
closed-IsTimely now b p = elim (Bool-cases (is_overdue now b)) [
  | inl e ↦
      let from = status_eq_sound b.status started (ground arith) in
      let (x, y, ar, st, le, le2, no_end) = TimesOf-at now b started from p in
      let end = expected_end-started b y st in
      let due : calculate_expected_end b ≤ now = ground arith in
      rw e (x, y, calculate_expected_end b, ar, st, refl, le, omega arith, due)
  | inr e ↦ rw e p
]
