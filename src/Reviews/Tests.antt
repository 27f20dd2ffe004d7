-- ===== src/Reviews/Tests.antt =====
-- Runs of reviews.
use limpeja_backend.Common.{◌≤◌, ◌≡◌, refl, false, none, some, [], ◌∷◌}
use limpeja_backend.Common.Int.{pos, ◌+ℤ◌}
use limpeja_backend.Common.Lists.{any}
use limpeja_backend.Common.Text.{codes}
use limpeja_backend.Common.Outcome.{ok, err}
use limpeja_backend.Bookings.Status.{finished}
use limpeja_backend.Payments.{paid}
use limpeja_backend.Loyalty.{add_points}
use limpeja_backend.Reviews.{
  Booking, Store, already_reviewed, check_reviewable, is_review_of, recent_reviews, can_review,
  add_review, review_booking, write_review, submit_review,
}
use limpeja_backend.Reviews.Laws.{write_review_lem}

abbrev cleaning : Booking
cleaning = record {
  id = 1;
  client_id = 2;
  client_user = codes "ana";
  provider_id = 3;
  status = finished;
  completed_at = some 1000;
  started_at = some 0;
  scheduled_start = some 0;
  scheduled_at = 0;
  duration_minutes = none;
  service_minutes = some 60;
  payment = some paid;
  is_reviewed = false;
}

abbrev store : Store
store = record {
  bookings = cleaning ∷ [];
  reviews = [];
  loyalty = record { accounts = λ u. none; transactions = []; next_id = 0 };
  missions = record { missions = []; progresses = []; events = [] };
  next_id = 7;
}

abbrev reviewed : Store
reviewed = add_review store 2000 cleaning 5

writes : write_review store 2000 (codes "ana") 1 5 ≡ ok (cleaning, reviewed)
unfolding write_review review_booking check_reviewable
writes = refl

rewards_first :
    (submit_review store 2000 false 0 (codes "ana") 1 5).store.loyalty.accounts (codes "ana")
    ≡ some (pos 20)
unfolding submit_review write_review review_booking check_reviewable add_points ◌+ℤ◌
rewards_first = refl

write_review_lem_example :
    (any (is_review_of 1) store.reviews ≡ false)
    × (recent_reviews reviewed 2000 2 3 ≤ 3)
    × (can_review reviewed 2000 (codes "ana") 1 ≡ err already_reviewed)
    × (write_review reviewed 2000 (codes "ana") 1 4 ≡ err already_reviewed)
write_review_lem_example =
    write_review_lem store 2000 (codes "ana") 1 5 4 cleaning cleaning reviewed refl writes
