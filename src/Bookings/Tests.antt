-- ===== src/Bookings/Tests.antt =====
-- Runs of the booking modules at concrete inputs.
mod Rows
mod Visits
mod Desk
mod Proofs
use limpeja_backend.Common.{◌≡◌, ◌↔◌, refl, true, inl, inr, []}
use limpeja_backend.Common.Lists.{includes}
use limpeja_backend.Common.Outcome.{ok, err}
use limpeja_backend.Bookings.Status.{
  pending, pending_payment, confirmed, on_the_way, arrived, started, finished, rejected,
  BookingEvent, confirm, reject, arrive, status_eq, unknown_status, invalid_transition,
  normalize_booking_status, can_transition, next_status, get_next_status,
}
use limpeja_backend.Bookings.Table.{
  provider, booking_status_transitions, booking_status_requires_action,
}
use limpeja_backend.Bookings.Machine.{
  IsAwaiting, IsEarly, IsUnsettled, Agrees, Walk, here, step, normalize-status_name,
  table_iff_machine, awaiting_diverges, role_within_table, requires_action_iff,
  can_transition-get_next_status, no_service_unconfirmed, final_stays,
}

legacy_name : get_next_status "ACCEPTED" arrive ≡ ok arrived
unfolding get_next_status normalize_booking_status next_status
legacy_name = refl

unknown_name : can_transition "LOST" arrive ≡ err (unknown_status "LOST")
unfolding can_transition normalize_booking_status
unknown_name = refl

arrived_not-IsAwaiting : ¬ IsAwaiting arrived
arrived_not-IsAwaiting (inl h) = cc
arrived_not-IsAwaiting (inr h) = cc

table_iff_machine_example :
    (includes status_eq started (booking_status_transitions arrived) ≡ true)
    ↔ ((e : BookingEvent) × (next_status arrived e ≡ ok started))
table_iff_machine_example = table_iff_machine arrived started arrived_not-IsAwaiting
