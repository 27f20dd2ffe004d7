-- ===== src/Reviews.antt =====
-- `canReview` and `submitReview` of reviews/reviews.service.ts. A booking has the columns that these
-- read; the start that the service computes from its date and time is the field `scheduled_at`. The
-- comment of a review, which is only stored, the badges of the provider and the logs are left out;
-- days have twenty-four hours; the mission event's number and whether it is August are arguments.
pub mod Laws
mod Tests
use limpeja_backend.Common.{
  ℕ, ◌+◌, ◌*◌, ltb, leb, Bool, true, false, not, ◌&&◌, ◌||◌, ◌==◌, Option, none, some, List, [],
  ◌∷◌, ◌++◌, if◌then◌else◌,
}
use limpeja_backend.Common.Int.{ℤ}
use limpeja_backend.Common.Lists.{any, find, filter, length}
use limpeja_backend.Common.Text.{Text, text_eq}
use limpeja_backend.Common.Outcome.{Outcome, ok, err, ◌>>=◌, ◌>>◌, throw_if, or_throw}
use limpeja_backend.Bookings.Status.{BookingStatus, finished, status_eq}
use limpeja_backend.Bookings.Rows.{or_else_time, minute_ms, is_paid}
use limpeja_backend.Payments.{PaymentIntentStatus, refunded, chargeback}
use limpeja_backend.Loyalty.{
  LoyaltyTransactionType, first_review, review_submitted, plain, LoyaltyError, add_points,
  Store as LoyaltyStore,
}
use limpeja_backend.Missions.{Store as MissionStore}
use limpeja_backend.Missions.Progress.{track_event, day_ms}

pub record Booking : Type 0 where
  pub id : ℕ
  pub client_id : ℕ
  pub client_user : Text
  pub provider_id : ℕ
  pub status : BookingStatus
  pub completed_at : Option ℕ
  pub started_at : Option ℕ
  pub scheduled_start : Option ℕ
  pub scheduled_at : ℕ
  pub duration_minutes : Option ℕ
  pub service_minutes : Option ℕ
  pub payment : Option PaymentIntentStatus
  pub is_reviewed : Bool

pub record Review : Type 0 where
  pub id : ℕ
  pub booking_id : ℕ
  pub client_id : ℕ
  pub provider_id : ℕ
  pub rating : ℕ
  pub created_at : ℕ

pub record Store : Type 0 where
  pub bookings : List Booking
  pub reviews : List Review
  pub loyalty : LoyaltyStore
  pub missions : MissionStore
  pub next_id : ℕ

pub data ReviewError : Type 0 where
  no_booking forbidden not_completed too_early refunded_payment unpaid : ReviewError
  already_reviewed rate_limited : ReviewError
  points_refused : LoyaltyError → ReviewError

-- `computeExpectedEnd`
unfoldable pub compute_expected_end : Booking → ℕ
compute_expected_end b =
    or_else_time b.started_at (or_else_time b.scheduled_start b.scheduled_at)
    + or_else_time b.duration_minutes (or_else_time b.service_minutes 60) * minute_ms

abbrev pub is_refunded : Option PaymentIntentStatus → Bool
is_refunded (some refunded) = true
is_refunded (some chargeback) = true
is_refunded _ = false

-- The tests that `canReview` and `submitReview` share.
unfoldable pub check_reviewable : ℕ → Text → Booking → Outcome ReviewError (Unit {0})
check_reviewable now user b = do
  throw_if (not (text_eq b.client_user user)) forbidden
  throw_if (not (status_eq b.status finished)) not_completed
  throw_if (ltb now (or_else_time b.completed_at (compute_expected_end b))) too_early
  throw_if (is_refunded b.payment) refunded_payment
  throw_if (not (is_paid b.payment)) unpaid

abbrev pub is_booking : ℕ → Booking → Bool
is_booking id b = b.id == id

abbrev pub is_review_of : ℕ → Review → Bool
is_review_of id r = r.booking_id == id

-- `canReview`: the reason why not is an error.
unfoldable pub can_review : Store → ℕ → Text → ℕ → Outcome ReviewError (Unit {0})
can_review s now user id = or_throw (find (is_booking id) s.bookings) no_booking >>= λ b.
    check_reviewable now user b
    >> throw_if (b.is_reviewed || any (is_review_of id) s.reviews) already_reviewed

abbrev pub is_recent : ℕ → ℕ → ℕ → Review → Bool
is_recent now client provider r =
    r.client_id == client && r.provider_id == provider && leb now (r.created_at + 30 * day_ms)

abbrev pub recent_reviews : Store → ℕ → ℕ → ℕ → ℕ
recent_reviews s now client provider = length (filter (is_recent now client provider) s.reviews)

unfoldable pub mark_reviewed : ℕ → List Booking → List Booking
mark_reviewed id [] = []
mark_reviewed id (b ∷ bs) =
    let rest = mark_reviewed id bs in
    if is_booking id b then record b { is_reviewed = true } ∷ bs else b ∷ rest

abbrev pub review_of : Store → ℕ → Booking → ℕ → Review
review_of s now b rating = record {
  id = s.next_id;
  booking_id = b.id;
  client_id = b.client_id;
  provider_id = b.provider_id;
  rating = rating;
  created_at = now;
}

abbrev pub add_review : Store → ℕ → Booking → ℕ → Store
add_review s now b rating = record s {
  bookings = mark_reviewed b.id s.bookings;
  reviews = s.reviews ++ review_of s now b rating ∷ [];
  next_id = s.next_id + 1;
}

-- The transaction of `submitReview` on the booking that it has read.
unfoldable pub review_booking :
    Store → ℕ → Text → ℕ → Booking → Outcome ReviewError (Booking × Store)
review_booking s now user rating b = do
  check_reviewable now user b
  throw_if (any (is_review_of b.id) s.reviews) already_reviewed
  throw_if (leb 3 (recent_reviews s now b.client_id b.provider_id)) rate_limited
  ok (b, add_review s now b rating)

unfoldable pub write_review : Store → ℕ → Text → ℕ → ℕ → Outcome ReviewError (Booking × Store)
write_review s now user id rating =
    or_throw (find (is_booking id) s.bookings) no_booking >>= review_booking s now user rating

pub record Reply : Type 0 where
  pub store : Store
  pub error : Option ReviewError

abbrev pub by_client : ℕ → Review → Bool
by_client client r = r.client_id == client

abbrev pub is_first : Store → Booking → Bool
is_first t b = length (filter (by_client b.client_id) t.reviews) == 1

-- The points of the client: twenty for the first review, five for another one.
abbrev pub reward_points : Store → ℕ → Bool → Booking → ℕ → Outcome LoyaltyError (ℤ × LoyaltyStore)
reward_points t now august b review =
    let first = add_points t.loyalty now august b.client_user 20 first_review (plain review) in
    let more = add_points t.loyalty now august b.client_user 5 review_submitted (plain review) in
    if is_first t b then first else more

abbrev pub rewarded : Store → ℕ → ℕ → Booking → Outcome LoyaltyError (ℤ × LoyaltyStore) → Reply
rewarded t now event b (err e) = record { store = t; error = some (points_refused e) }
rewarded t now event b (ok (_, points)) = record {
  store = record t {
    loyalty = points;
    missions = (track_event t.missions b.client_user event now).1;
  };
  error = none;
}

abbrev pub after_write : Store → ℕ → Bool → ℕ → Outcome ReviewError (Booking × Store) → Reply
after_write s now august event (err e) = record { store = s; error = some e }
after_write s now august event (ok (b, t)) =
    rewarded t now event b (reward_points t now august b s.next_id)

-- `submitReview`
unfoldable pub submit_review : Store → ℕ → Bool → ℕ → Text → ℕ → ℕ → Reply
submit_review s now august event user id rating =
    after_write s now august event (write_review s now user id rating)
