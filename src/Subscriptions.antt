-- ===== src/Subscriptions.antt =====
-- subscriptions/subscriptions.service.ts: the operations that write, over the rows of subscriptions,
-- the bookings that were made for them (the columns `subscriptionId` and `periodId` are kept beside
-- the rows of bookings) and the jobs of the queue, of which one key has at most one. The rows that a
-- lookup joins are given with the call; so are the keys of new rows and the start that the date and
-- `09:00` name. The charge that a new booking begins is modelled with the payments; here only
-- its failure would count, which is caught.
pub mod Period
pub mod Laws
mod Tests
use limpeja_backend.Common.{
  ℕ, ◌+◌, ◌-◌, ltb, leb, Bool, true, false, not, ◌&&◌, ◌||◌, ◌==◌, Option, none, some, List, [],
  ◌∷◌, ◌++◌, if◌then◌else◌,
}
use limpeja_backend.Common.Lists.{any, find, filter}
use limpeja_backend.Common.Text.{Text}
use limpeja_backend.Common.Outcome.{Outcome, ok, err, ◌>>=◌, ◌>>◌, throw_if}
use limpeja_backend.Bookings.Rows.{Booking, Store}
use limpeja_backend.Bookings.Create.{
  ProviderRow, SubscriptionBooking, moment_text, create_from_subscription,
}
use limpeja_backend.Subscriptions.Period.{
  Frequency, PeriodId, period_eq, day_ms, build_period_id, next_generation,
}

pub data SubscriptionStatus : Type 0 where
  active paused canceled action_required_address completed : SubscriptionStatus

abbrev pub is_active : SubscriptionStatus → Bool
is_active active = true
is_active _ = false

-- PAUSED or CANCELED
abbrev pub is_stopped : SubscriptionStatus → Bool
is_stopped paused = true
is_stopped canceled = true
is_stopped _ = false

pub record Subscription : Type 0 where
  pub id : ℕ
  pub client_id : ℕ
  pub frequency : Frequency
  pub start_date : ℕ
  pub end_date : Option ℕ
  pub status : SubscriptionStatus
  pub total_price : ℕ
  pub next_generation_date : ℕ

pub record GeneratedBooking : Type 0 where
  pub booking_id : ℕ
  pub subscription_id : ℕ
  pub period_id : PeriodId

pub record GenerationJob : Type 0 where
  pub subscription_id : ℕ
  pub delay : ℕ

pub record Desk : Type 0 where
  pub core : Store
  pub subscriptions : List Subscription
  pub generated : List GeneratedBooking
  pub jobs : List GenerationJob

pub record Address : Type 0 where
  pub id : ℕ
  pub has_coordinates : Bool

-- What a run reads of other tables and of the clock.
pub record RunInput : Type 0 where
  pub address : Option Address
  pub client_user : Text
  pub provider : ProviderRow
  pub service_minutes : Option (Option ℕ)
  pub booking_id : ℕ
  pub scheduled_start : ℕ

pub data SubscriptionError : Type 0 where
  rows_not_found subscription_not_found forbidden booking_not_created : SubscriptionError

abbrev pub has_key : ℕ → Subscription → Bool
has_key id s = s.id == id

abbrev pub find_subscription : ℕ → List Subscription → Option Subscription
find_subscription id ss = find (has_key id) ss

-- `subscription.update`
unfoldable pub update_row :
    ℕ → (Subscription → Subscription) → List Subscription → List Subscription
update_row id change [] = []
update_row id change (s ∷ ss) =
    let rest = update_row id change ss in (if has_key id s then change s else s) ∷ rest

abbrev pub is_job_of : ℕ → GenerationJob → Bool
is_job_of id j = j.subscription_id == id

-- `removeSubscriptionGenerationJob`
abbrev pub remove_job : ℕ → List GenerationJob → List GenerationJob
remove_job id jobs = filter (λ j. not (is_job_of id j)) jobs

-- `scheduleNextBookingGeneration`
unfoldable pub schedule : ℕ → ℕ → ℕ → List GenerationJob → List GenerationJob
schedule now id target jobs =
    remove_job id jobs ++ record { subscription_id = id; delay = target - now } ∷ []

-- `flagSubscriptionAddressIssue`, for a subscription that is active.
abbrev pub flag_address : ℕ → Desk → Desk
flag_address id d = record d {
  subscriptions =
      update_row id (λ s. record s { status = action_required_address }) d.subscriptions;
}

-- `horizonMs`
abbrev pub horizon_ms : ℕ
horizon_ms = day_ms

-- The writes at the end of a run.
unfoldable pub advance : ℕ → Subscription → Desk → Desk
advance now s d =
    let next = next_generation s.frequency s.next_generation_date in
    record d {
      subscriptions =
          update_row s.id (λ r. record r { next_generation_date = next }) d.subscriptions;
      jobs = schedule now s.id next d.jobs;
    }

abbrev pub period_of : Subscription → PeriodId
period_of s = build_period_id s.id s.next_generation_date s.frequency

-- The `where` of the lookup for a booking of the period.
abbrev pub is_of_period : ℕ → PeriodId → GeneratedBooking → Bool
is_of_period id p g = g.subscription_id == id && period_eq g.period_id p

abbrev pub request_of : Subscription → RunInput → SubscriptionBooking
request_of s r = record {
  booking_id = r.booking_id;
  client_user = r.client_user;
  provider = r.provider;
  scheduled_date = moment_text s.next_generation_date;
  start = r.scheduled_start;
  total_price = s.total_price;
  service_minutes = r.service_minutes;
}

abbrev pub keep_booking : Subscription → Desk → Booking × Store → Desk
keep_booking s d (b, core) = record d {
  core = core;
  generated =
      d.generated
      ++ record { booking_id = b.id; subscription_id = s.id; period_id = period_of s } ∷ [];
}

abbrev pub or_not_created {ℓ κ} :
    {E : Type κ} {A : Type ℓ} → Outcome E A → Outcome SubscriptionError A
or_not_created (ok a) = ok a
or_not_created (err e) = err booking_not_created

-- The call of `createBookingFromSubscription`.
unfoldable pub create_booking : ℕ → Subscription → RunInput → Desk → Outcome SubscriptionError Desk
create_booking now s r d =
    or_not_created (create_from_subscription d.core now (request_of s r)) >>= λ made.
    ok (keep_booking s d made)

abbrev pub finish : ℕ → Subscription → Desk → Outcome SubscriptionError (Bool × Desk)
finish now s d = ok (true, advance now s d)

-- A run for a subscription that is due.
unfoldable pub run_due :
    ℕ → Subscription → RunInput → Desk → Outcome SubscriptionError (Bool × Desk)
run_due now s r d =
    if any (is_of_period s.id (period_of s)) d.generated
    then finish now s d
    else (create_booking now s r d >>= finish now s)

abbrev pub run_addressed :
    ℕ → Subscription → RunInput → Desk → Option Address → Outcome SubscriptionError (Bool × Desk)
run_addressed now s r d none = ok (false, flag_address s.id d)
run_addressed now s r d (some a) =
    if not a.has_coordinates
    then ok (false, flag_address s.id d)
    else if ltb (now + horizon_ms) s.next_generation_date
    then ok (false, d)
    else run_due now s r d

abbrev pub run_found :
    ℕ → RunInput → Desk → Option Subscription → Outcome SubscriptionError (Bool × Desk)
run_found now r d none = ok (false, d)
run_found now r d (some s) =
    if is_active s.status then run_addressed now s r d r.address else ok (false, d)

-- `generateRecurringBooking`
unfoldable pub generate_recurring_booking :
    ℕ → ℕ → RunInput → Desk → Outcome SubscriptionError (Bool × Desk)
generate_recurring_booking now id r d = run_found now r d (find_subscription id d.subscriptions)

pub record UpdateDto : Type 0 where
  pub status : Option SubscriptionStatus
  pub frequency : Option Frequency
  pub end_date : Option ℕ
  pub total_price : Option ℕ

abbrev pub or_kept {ℓ} : {A : Type ℓ} → Option A → A → A
or_kept none a = a
or_kept (some b) a = b

abbrev pub or_other {ℓ} : {A : Type ℓ} → Option A → Option A → Option A
or_other none a = a
or_other (some b) a = some b

abbrev pub changed : UpdateDto → Subscription → Subscription
changed u s = record s {
  status = or_kept u.status s.status;
  frequency = or_kept u.frequency s.frequency;
  end_date = or_other u.end_date s.end_date;
  total_price = or_kept u.total_price s.total_price;
}

-- The jobs after a change of status.
abbrev pub jobs_after :
    ℕ → Subscription → Option SubscriptionStatus → List GenerationJob → List GenerationJob
jobs_after now s none jobs = jobs
jobs_after now s (some to) jobs =
    if is_stopped to
    then remove_job s.id jobs
    else if is_active to && not (is_active s.status)
    then schedule now s.id s.next_generation_date jobs
    else jobs

abbrev pub update_found :
    ℕ → UpdateDto → ℕ → Bool → Desk → Option Subscription → Outcome SubscriptionError Desk
update_found now u user is_client d none = err subscription_not_found
update_found now u user is_client d (some s) = do
  throw_if (is_client && not (s.client_id == user)) forbidden
  ok (record d {
    subscriptions = update_row s.id (changed u) d.subscriptions;
    jobs = jobs_after now s u.status d.jobs;
  })

-- `update`
unfoldable pub update : ℕ → ℕ → UpdateDto → ℕ → Bool → Desk → Outcome SubscriptionError Desk
update now id u user is_client d =
    update_found now u user is_client d (find_subscription id d.subscriptions)

abbrev pub add_row : Subscription → Desk → Desk
add_row s d = record d { subscriptions = d.subscriptions ++ s ∷ [] }

-- The end of `create`: the new row stays when its first run throws.
abbrev pub after_first_run :
    Desk → Outcome SubscriptionError (Bool × Desk) → Desk × Outcome SubscriptionError (Unit {0})
after_first_run d (ok (_, e)) = (e, ok tt)
after_first_run d (err e) = (d, err e)

-- `create`, for a row that is given with its first date as `next_generation_date` and the status
-- ACTIVE, and the answer of the lookups of the client, the provider and the service.
unfoldable pub create :
    ℕ → Bool → Subscription → RunInput → Desk → Desk × Outcome SubscriptionError (Unit {0})
create now has_rows s r d =
    if not has_rows
    then (d, err rows_not_found)
    else if ltb now s.next_generation_date
    then (record (add_row s d) { jobs = schedule now s.id s.next_generation_date d.jobs }, ok tt)
    else after_first_run (add_row s d) (generate_recurring_booking now s.id r (add_row s d))
