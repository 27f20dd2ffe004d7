-- ===== src/Bookings/Visit/Sweep.antt =====
-- `autoCompleteOverdueBookings` of bookings/bookings.service.ts as one pass over the bookings.
use limpeja_backend.Common.{
  ℕ, ◌≡◌, refl, some, List, [], ◌∷◌, map, inl, inr, Bool-cases, arith, if◌then◌else◌,
}
use limpeja_backend.Common.Lists.{All, filter}
use limpeja_backend.Common.Outcome.{ok}
use limpeja_backend.Bookings.Status.{started, finished}
use limpeja_backend.Bookings.Rows.{Booking, Store, calculate_expected_end}
use limpeja_backend.Bookings.Rows.Laws.{change_booking_status-allowed, changed}
use limpeja_backend.Bookings.Rows.Sweep.{IsKeyed, sweep, sweep-filter}
use limpeja_backend.Bookings.Visit.{
  is_overdue, complete_each, finish_notices, auto_complete_overdue,
}
use limpeja_backend.Bookings.Visit.Laws.{status_eq_sound}

-- What the job writes into a row.
abbrev pub closing : Booking → Booking → Booking
closing b r = record r { status = finished; completed_at = some (calculate_expected_end b) }

abbrev pub closed_if_overdue : ℕ → Booking → Booking
closed_if_overdue now b = if is_overdue now b then closing b b else b

complete_each-sweep :
    (bs : List Booking) (s : Store)
    → All (λ b. b.status ≡ started) bs
    → (t : Store) × (complete_each bs s ≡ ok t) × (t.bookings ≡ sweep closing bs s.bookings)
unfolding complete_each sweep
complete_each-sweep [] s h = (s, refl, refl)
complete_each-sweep (b ∷ bs) s (e, h) =
    let finish = λ (r : Booking). record r { completed_at = some (calculate_expected_end b) } in
    let change = change_booking_status-allowed s b finished finish (rw e refl) (rw e refl) in
    let (t, ends, wrote) =
      complete_each-sweep bs (finish_notices b.id (changed s b.id finished finish)) h in
    (t, simp change ends, wrote)

overdue_started :
    (now : ℕ) (bs : List Booking) → All (λ b. b.status ≡ started) (filter (is_overdue now) bs)
overdue_started now [] = tt
overdue_started now (b ∷ bs) = elim (Bool-cases (is_overdue now b)) [
  | inl e ↦ rw e (status_eq_sound b.status started (ground arith), overdue_started now bs)
  | inr e ↦ rw e (overdue_started now bs)
]

-- The job never fails: each running, paid booking whose expected end has come is finished at that
-- end, and no other row is written.
pub auto_complete_overdue_lem :
    (s : Store) (now : ℕ)
    → IsKeyed s.bookings
    → (t : Store) × (auto_complete_overdue s now ≡ ok t)
      × (t.bookings ≡ map (closed_if_overdue now) s.bookings)
unfolding auto_complete_overdue
auto_complete_overdue_lem s now d =
    let (t, ends, wrote) =
      complete_each-sweep (filter (is_overdue now) s.bookings) s (overdue_started now s.bookings) in
    (t, ends, rw wrote (sweep-filter closing (is_overdue now) s.bookings (λ b c. refl) d))
