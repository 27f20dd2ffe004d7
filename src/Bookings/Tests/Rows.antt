-- ===== src/Bookings/Tests/Rows.antt =====
-- A booking and a store that the runs of the booking modules share.
use limpeja_backend.Common.{none, some, List, [], ◌∷◌}
use limpeja_backend.Common.Text.{codes}
use limpeja_backend.Bookings.Status.{BookingStatus, confirmed}
use limpeja_backend.Bookings.Rows.{Booking, Store}
use limpeja_backend.Payments.{paid}

abbrev pub cleaning_at : BookingStatus → Booking
cleaning_at status = record {
  id = 1;
  client_user = codes "ana";
  provider_id = 3;
  provider_user = 5;
  status = status;
  scheduled_start = some 3600000;
  scheduled_at = 3600000;
  scheduled_end = some 18000000;
  duration_minutes = some 240;
  expires_at = some 900000;
  total_price = 20000;
  accepted_at = none;
  arrived_at = none;
  started_at = none;
  completed_at = none;
  arrived_position = none;
  started_position = none;
  completed_position = none;
  started_by = none;
  completed_by = none;
  coupon_id = none;
  payment = some paid;
  insurance = none;
}

abbrev pub store_of : List Booking → Store
store_of bs = record {
  bookings = bs;
  proofs = [];
  coupons = record { coupons = []; usages = []; clients = []; next_id = 0 };
  monthly_bookings = λ p. 0;
  outbox = [];
}

abbrev pub cleaning : Booking
cleaning = cleaning_at confirmed

abbrev pub store : Store
store = store_of (cleaning ∷ [])
