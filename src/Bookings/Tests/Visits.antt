-- ===== src/Bookings/Tests/Visits.antt =====
-- Runs of the visit at concrete bookings.
use limpeja_backend.Common.{ℕ, ◌≡◌, ◌≢◌, ◌↔◌, refl, some, none, [], ◌∷◌, map, arith}
use limpeja_backend.Common.Outcome.{ok}
use limpeja_backend.Bookings.Status.{on_the_way, started, finished, next_status}
use limpeja_backend.Bookings.Rows.{
  Booking, Store, find_booking, notify, client_status, change_booking_status,
  assert_valid_transition,
}
use limpeja_backend.Bookings.Rows.Laws.{changed}
use limpeja_backend.Bookings.Visit.{on_the_way_service, start_service, auto_complete_overdue}
use limpeja_backend.Bookings.Visit.Start.{MayStart, start_service_iff}
use limpeja_backend.Bookings.Visit.Sweep.{closed_if_overdue, auto_complete_overdue_lem}
use limpeja_backend.Bookings.Visit.Course.{Call, travel, perform, event_of, perform_refines_machine}
use limpeja_backend.Bookings.Visit.History.{History, here, call, IsSound, history-IsSound}
use limpeja_backend.Bookings.Visit.Progress.{confirmed_can_finish}
use limpeja_backend.Bookings.Tests.Rows.{cleaning_at, store_of, cleaning, store}

abbrev leaving : Call
leaving = travel 1 5

abbrev after_leaving : Store
after_leaving = notify (client_status 1 on_the_way) (changed store 1 on_the_way (λ r. r))

leaving_ok : perform store 100 leaving ≡ ok after_leaving
unfolding on_the_way_service change_booking_status assert_valid_transition
leaving_ok = refl

perform_refines_machine_example :
    (b d : Booking) × (find_booking 1 store.bookings ≡ some b)
    × (find_booking 1 after_leaving.bookings ≡ some d)
    × (b.provider_user ≡ 5)
    × (next_status b.status (event_of leaving) ≡ ok d.status)
    × ((other : ℕ)
        → other ≢ 1
        → find_booking other after_leaving.bookings ≡ find_booking other store.bookings)
perform_refines_machine_example = perform_refines_machine store 100 leaving after_leaving leaving_ok

store-IsSound : IsSound store 0
store-IsSound = ((tt, tt), ((refl, refl, refl), tt))

departure : History store 0 after_leaving 100
departure = call here (omega arith) leaving leaving_ok

history-IsSound_example : IsSound after_leaving 100
history-IsSound_example = history-IsSound departure store-IsSound

confirmed_can_finish_example :
    (t : Store) × (d : Booking) × History store 0 t 18000000
    × (find_booking 1 t.bookings ≡ some d)
    × (d.status ≡ finished)
    × (d.started_at ≡ some 3600000)
    × (d.completed_at ≡ some 18000000)
confirmed_can_finish_example =
    confirmed_can_finish 1 5 store cleaning 0 3600000 18000000 (refl, refl, refl) refl refl
      (omega arith) (omega arith) (omega arith) (omega arith)

start_service_iff_example :
    ((start_service after_leaving 3000000 1 5 none).error ≡ none)
    ↔ ((b : Booking) × MayStart after_leaving 3000000 1 5 none b)
start_service_iff_example = start_service_iff after_leaving 3000000 1 5 none

abbrev running : Store
running = store_of (cleaning_at started ∷ [])

auto_complete_overdue_lem_example :
    (t : Store) × (auto_complete_overdue running 20000000 ≡ ok t)
    × (t.bookings ≡ map (closed_if_overdue 20000000) running.bookings)
auto_complete_overdue_lem_example = auto_complete_overdue_lem running 20000000 (tt, tt)
