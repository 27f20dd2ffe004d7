-- ===== src/Bookings/Tests/Desk.antt =====
-- Runs of what changes a booking besides the visit: the route, the jobs and the disputes.
use limpeja_backend.Common.{◌/◌, ◌≤◌, ◌≡◌, refl, false, some, none, [], ◌∷◌, arith}
use limpeja_backend.Common.Text.{codes}
use limpeja_backend.Common.Outcome.{ok, err}
use limpeja_backend.Bookings.Status.{confirmed, pending_payment, pending_dispute}
use limpeja_backend.Bookings.Rows.{Booking, Store, find_booking, assert_valid_transition}
use limpeja_backend.Bookings.Override.{client_user, patch_status}
use limpeja_backend.Bookings.Override.Laws.{client_sets_any_status}
use limpeja_backend.Bookings.Dispute.{DisputeStore, resolve_dispute}
use limpeja_backend.Bookings.Dispute.Laws.{count_entries, resolve_dispute-earning}
use limpeja_backend.Bookings.Tests.Rows.{cleaning_at, store_of}
use limpeja_backend.Payouts.{earning, Store as PayoutStore}
use limpeja_backend.Payouts.Withdrawal.{Rounding, atoms}

abbrev unpaid : Booking
unpaid = record (cleaning_at pending_payment) { payment = none }

client_sets_any_status_example :
    (t : Store) × (patch_status
        (store_of (unpaid ∷ []))
        15
        100
        1
        confirmed
        (client_user (codes "ana"))
      ≡ ok t)
    × (find_booking 1 t.bookings ≡ some (record unpaid { status = confirmed }))
client_sets_any_status_example =
    client_sets_any_status (store_of (unpaid ∷ [])) 15 100 1 confirmed (codes "ana") unpaid refl
      refl refl refl

-- Rounding down to the cent.
abbrev down : Rounding
down = record {
  to_cents = λ x. x / atoms;
  to_cents-exact = λ n. omega arith;
  to_cents-le = λ x n h. omega arith;
}

abbrev ledger_of : PayoutStore
ledger_of = record {
  payouts = [];
  ledger = [];
  providers = [];
  dispute_of = λ b. none;
  replays = [];
  jobs = [];
  outbox = [];
  breaker = record { failure_count = 0; pause_until = 0; queue_paused = false };
  next_id = 0;
}

abbrev disputed : DisputeStore
disputed = record {
  bookings = store_of (cleaning_at pending_dispute ∷ []);
  payouts = ledger_of;
  transactions = [];
}

abbrev settled : DisputeStore
settled = elim (resolve_dispute down disputed 50 1 none none) [ ok t ↦ t | err e ↦ disputed ]

settles : resolve_dispute down disputed 50 1 none none ≡ ok settled
unfolding resolve_dispute assert_valid_transition
settles = refl

none_yet : count_entries 1 earning disputed.payouts.ledger ≤ 1
unfolding count_entries
none_yet = omega arith

resolve_dispute-earning_example : count_entries 1 earning settled.payouts.ledger ≤ 1
resolve_dispute-earning_example =
    resolve_dispute-earning down disputed 50 1 none none settled 1 settles none_yet
