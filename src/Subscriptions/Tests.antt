-- ===== src/Subscriptions/Tests.antt =====
-- Runs of subscriptions.
use limpeja_backend.Common.{ℕ, ◌+◌, ◌*◌, ◌≡◌, refl, true, false, none, some, [], ◌∷◌, List}
use limpeja_backend.Common.Lists.{any}
use limpeja_backend.Common.Text.{codes}
use limpeja_backend.Common.Outcome.{ok}
use limpeja_backend.Bookings.Rows.{Store}
use limpeja_backend.Subscriptions.Period.{
  period_eq, day_ms, weekly, build_period_id, period_on, next_generation, iso_week,
}
use limpeja_backend.Subscriptions.Period.Calendar.{
  year_of, month_of, month_from, month_days, month_start,
}
use limpeja_backend.Subscriptions.{
  Subscription, GeneratedBooking, Desk, RunInput, active, paused, is_of_period, period_of, run_due,
  advance, generate_recurring_booking, UpdateDto,
}
use limpeja_backend.Subscriptions.Period.Laws.{next_period-new}
use limpeja_backend.Subscriptions.Laws.Unread.{subscriptions_book_nothing}
use limpeja_backend.Subscriptions.Laws.History.{here, then_, ran}

abbrev store : Store
store = record {
  bookings = [];
  proofs = [];
  coupons = record { coupons = []; usages = []; clients = []; next_id = 0 };
  monthly_bookings = λ p. 0;
  outbox = [];
}

-- 2024-12-30, a Monday, and 2024-01-01.
abbrev last_monday : ℕ
last_monday = 20087 * day_ms

abbrev first_monday : ℕ
first_monday = 19723 * day_ms

abbrev cleaning_weekly : Subscription
cleaning_weekly = record {
  id = 4;
  client_id = 1;
  frequency = weekly;
  start_date = first_monday;
  end_date = none;
  status = active;
  total_price = 15000;
  next_generation_date = last_monday;
}

abbrev run : RunInput
run = record {
  address = some (record { id = 1; has_coordinates = true });
  client_user = codes "eva";
  provider = record { id = 3; user = 5; is_approved = true };
  service_minutes = some (some 120);
  booking_id = 2;
  scheduled_start = last_monday + 43200000;
}

abbrev desk : List GeneratedBooking → Desk
desk rows = record {
  core = store;
  subscriptions = cleaning_weekly ∷ [];
  generated = rows;
  jobs = [];
}

abbrev of_january : GeneratedBooking
of_january = record {
  booking_id = 1;
  subscription_id = 4;
  period_id = build_period_id 4 first_monday weekly;
}

week_1 :
    period_of cleaning_weekly
    ≡ record { subscription_id = 4; year = 54; frequency = weekly; number = 1 }
unfolding period_on iso_week year_of month_of month_from month_days month_start
week_1 = refl

abbrev to_paused : UpdateDto
to_paused = record { status = some paused; frequency = none; end_date = none; total_price = none }

-- The desk after a subscription is paused.
abbrev stopped : Desk
stopped = record (desk []) { subscriptions = record cleaning_weekly { status = paused } ∷ [] }

-- A desk on which one subscription waits for its next date.
abbrev waiting : Desk
waiting = record (desk []) { jobs = record { subscription_id = 4; delay = 5 } ∷ [] }

found_there : any (is_of_period 4 (period_of cleaning_weekly)) (of_january ∷ []) ≡ true
unfolding period_on iso_week year_of month_of month_from month_days month_start
found_there = refl

-- A run on a desk whose subscription is not there changes nothing.
idle :
    generate_recurring_booking last_monday 5 run (desk (of_january ∷ []))
    ≡ ok (false, desk (of_january ∷ []))
unfolding generate_recurring_booking
idle = refl

skipped :
    generate_recurring_booking last_monday 4 run (desk (of_january ∷ []))
    ≡ ok (true, advance last_monday cleaning_weekly (desk (of_january ∷ [])))
unfolding generate_recurring_booking run_due
skipped = rw found_there refl

subscriptions_book_nothing_example :
    let e = advance last_monday cleaning_weekly (desk (of_january ∷ [])) in
    (e.core ≡ store) × (e.generated ≡ of_january ∷ [])
subscriptions_book_nothing_example =
    subscriptions_book_nothing
      (then_ (then_ here (ran last_monday 5 run idle)) (ran last_monday 4 run skipped))

next_period-new_example :
    period_eq
      (build_period_id 4 (next_generation weekly first_monday) weekly)
      (build_period_id 4 first_monday weekly)
    ≡ false
next_period-new_example = next_period-new weekly 4 first_monday
