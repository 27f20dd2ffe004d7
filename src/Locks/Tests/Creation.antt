-- ===== src/Locks/Tests/Creation.antt =====
-- Runs of the creation of bookings under its two locks.
use limpeja_backend.Common.{ℕ, ◌≡◌, ◌≤◌, refl, sym, true, false, none, some, [], arith}
use limpeja_backend.Common.Text.{codes}
use limpeja_backend.Common.Outcome.{ok}
use limpeja_backend.Locks.{acquire_lock}
use limpeja_backend.Locks.Tests.{cells, nothing}
use limpeja_backend.Bookings.Rows.{Booking, Store}
use limpeja_backend.Bookings.Weekly.{
  run_with_weekly_lock, ensure_weekly_limit, count_weekly_bookings,
}
use limpeja_backend.Bookings.Slots.{takes_slot, in_status, StrikeConfig, can_hold_slot}
use limpeja_backend.Bookings.Create.{
  CreateRequest, Lookups, Quote, ProviderRow, Desk, new_booking, add_booking, create_in_transaction,
  check_create, create, cached,
}
use limpeja_backend.Bookings.Slots.Laws.{IsDisjoint}
use limpeja_backend.Bookings.Create.Laws.{create-idempotent}
use limpeja_backend.Bookings.Create.History.{History, here, then_, made, history-IsDisjoint}

abbrev config : StrikeConfig
config = record { window_ms = 604800000; threshold = 2 }

abbrev quote : Quote
quote = record {
  final_price = 20000;
  coupon_id = none;
  hash = 9;
  normalized_minutes = some 240;
  insurance = none;
}

abbrev ana : ProviderRow
ana = record { id = 3; user = 5; is_approved = true }

abbrev lookups : Lookups
lookups = record {
  has_client = true;
  has_terms = true;
  provider = some ana;
  service_minutes = some none;
  quote = quote;
  is_charged = true;
}

abbrev request : CreateRequest
request = record {
  client_user = codes "bia";
  booking_id = 8;
  start = 3600000;
  requested_minutes = some 100;
  quote_expires_at = none;
  quote_hash = some 9;
  wants_insurance = false;
  total_price = none;
  allow_dto_price = false;
  idempotency_key = some 6;
  creation_key = 1;
  weekly_key = 2;
  lock_value = 4;
  week_start = 0;
  week_end = 604800000;
}

abbrev empty : Store
empty = record {
  bookings = [];
  proofs = [];
  coupons = record { coupons = []; usages = []; clients = []; next_id = 0 };
  monthly_bookings = λ p. 0;
  outbox = [];
}

abbrev desk : Desk
desk = record { core = empty; strikes = []; cache = λ k. none; cache_unit_ms = 1000 }

abbrev row : Booking
row = new_booking 8 (codes "bia") ana 1000 3600000 240 20000 quote

passes : check_create 1000 request lookups ≡ ok row
unfolding check_create
passes = refl

writes : create_in_transaction config desk 1000 request row 18000000 ≡ ok (add_booking empty row)
unfolding create_in_transaction can_hold_slot ensure_weekly_limit count_weekly_bookings
writes = refl

create-idempotent_example :
    let first = create cells config desk nothing 1000 1100 request lookups in
    let second = create cells config first.desk nothing 5000 5100 request lookups in
    (first.result ≡ ok row)
    × (first.desk.core ≡ add_booking empty row)
    × (second.result ≡ ok row)
    × (second.desk ≡ first.desk)
    × ((at : ℕ) → 601100 ≤ at → cached first.desk.cache request.idempotency_key at ≡ none)
unfolding acquire_lock
create-idempotent_example =
    create-idempotent cells config desk nothing nothing 1000 1100 6 5000 5100 request request
      lookups lookups row (add_booking empty row) refl (refl, refl) passes writes refl refl refl
      (omega arith)

-- A second booking of the same provider in the next hours, made by another client.
abbrev next_request : CreateRequest
next_request = record request {
  client_user = codes "eva";
  booking_id = 9;
  start = 18000000;
  idempotency_key = none;
}

abbrev second_desk : Desk
second_desk = record desk { core = add_booking empty row }

abbrev next_row : Booking
next_row = new_booking 9 (codes "eva") ana 2000 18000000 240 20000 quote

abbrev both : Store
both = add_booking (add_booking empty row) next_row

first_made :
    (create cells config desk nothing 1000 1100 request lookups).desk.core ≡ add_booking empty row
unfolding create acquire_lock check_create run_with_weekly_lock create_in_transaction can_hold_slot
    ensure_weekly_limit count_weekly_bookings
first_made = refl

second_made :
    (create cells config second_desk nothing 2000 2100 next_request lookups).desk.core ≡ both
unfolding create acquire_lock check_create run_with_weekly_lock create_in_transaction can_hold_slot
    takes_slot in_status ensure_weekly_limit count_weekly_bookings
second_made = refl

two_made :
    History empty (create cells config second_desk nothing 2000 2100 next_request lookups).desk.core
two_made =
    then_ (then_ here (made cells config desk nothing 1000 1100 request lookups refl))
      (made cells config second_desk nothing 2000 2100 next_request lookups (sym first_made))

history-IsDisjoint_example :
    IsDisjoint
      (create cells config second_desk nothing 2000 2100 next_request lookups).desk.core.bookings
history-IsDisjoint_example = history-IsDisjoint two_made tt
