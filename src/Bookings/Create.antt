-- ===== src/Bookings/Create.antt =====
-- `create` and `createBookingFromSubscription` of bookings/bookings.service.ts. What `create` asks of
-- the other services (the client, the terms, the provider, its service, the quote, the answer of the
-- charge) is given with the request; so are the keys and the value of the locks, the bounds of the
-- week, the start that the date and the time name, and the id of the new row. Prices are cents. Of
-- the row the address and the notes, which are only stored, are left out, and so are the mission
-- event and the messages.
pub mod Laws
pub mod Subscription
pub mod History
use limpeja_backend.Common.{
  ℕ, ◌+◌, ◌*◌, ltb, leb, Bool, true, false, not, ◌&&◌, ◌||◌, ◌==◌, Option, none, some, List, [],
  ◌∷◌, ◌++◌, if◌then◌else◌,
}
use limpeja_backend.Common.Lists.{any, is_some}
use limpeja_backend.Common.Text.{Text}
use limpeja_backend.Common.Outcome.{Outcome, ok, err, ◌>>=◌, ◌>>◌, throw_if, or_throw}
use limpeja_backend.Coupons.{Store as CouponStore}
use limpeja_backend.Locks.{Redis, acquire_lock, release_lock}
use limpeja_backend.Bookings.Status.{pending_payment}
use limpeja_backend.Bookings.Rows.{Booking, BookingInsurance, Store, minute_ms}
use limpeja_backend.Bookings.Weekly.{
  WeeklyError, weekly_limit, ensure_weekly_limit, run_with_weekly_lock,
}
use limpeja_backend.Bookings.Slots.{
  blocked_booking_statuses, subscription_blocked_statuses, takes_slot, SlotHoldStrike, StrikeConfig,
  can_hold_slot,
}

-- PENDING_PAYMENT_TIMEOUT_MS
abbrev pub pending_payment_timeout_ms : ℕ
pending_payment_timeout_ms = 20 * minute_ms

pub data CreateError : Type 0 where
  concurrent_creation client_not_found terms_not_accepted provider_not_found : CreateError
  provider_not_approved service_not_found quote_expired price_mismatch : CreateError
  insurance_not_eligible cannot_create time_slot_unavailable excessive_cancellations : CreateError
  over_weekly_limit invalid_date : CreateError

pub record ProviderRow : Type 0 where
  pub id : ℕ
  pub user : ℕ
  pub is_approved : Bool

-- What `calculateQuoteForBooking` answers. The plan of the insurance has its eligibility tested.
pub record Quote : Type 0 where
  pub final_price : ℕ
  pub coupon_id : Option ℕ
  pub hash : ℕ
  pub normalized_minutes : Option ℕ
  pub insurance : Option BookingInsurance

pub record CreateRequest : Type 0 where
  pub client_user : Text
  pub booking_id : ℕ
  pub start : ℕ
  pub requested_minutes : Option ℕ
  pub quote_expires_at : Option ℕ
  pub quote_hash : Option ℕ
  pub wants_insurance : Bool
  pub total_price : Option ℕ
  pub allow_dto_price : Bool
  pub idempotency_key : Option ℕ
  pub creation_key : ℕ
  pub weekly_key : ℕ
  pub lock_value : ℕ
  pub week_start : ℕ
  pub week_end : ℕ

-- The answers of the other services.
pub record Lookups : Type 0 where
  pub has_client : Bool
  pub has_terms : Bool
  pub provider : Option ProviderRow
  pub service_minutes : Option (Option ℕ)
  pub quote : Quote
  pub is_charged : Bool

-- An entry of the cache.
pub record CacheEntry : Type 0 where
  pub booking : Booking
  pub lapses_at : ℕ

-- `cache_unit_ms` is what the cache takes a unit of its time to live for.
pub record Desk : Type 0 where
  pub core : Store
  pub strikes : List SlotHoldStrike
  pub cache : ℕ → Option CacheEntry
  pub cache_unit_ms : ℕ

-- `a || b` on minutes: the first that is there and not zero.
abbrev pub or_minutes : Option ℕ → ℕ → ℕ
or_minutes none d = d
or_minutes (some m) d = if m == 0 then d else m

abbrev pub minutes_of : CreateRequest → Quote → Option ℕ → ℕ
minutes_of r q service =
    or_minutes q.normalized_minutes (or_minutes r.requested_minutes (or_minutes service 60))

abbrev pub price_of : CreateRequest → Quote → ℕ
price_of r q = if r.allow_dto_price then or_minutes r.total_price q.final_price else q.final_price

abbrev pub new_booking : ℕ → Text → ProviderRow → ℕ → ℕ → ℕ → ℕ → Quote → Booking
new_booking id client p now start minutes price q = record {
  id = id;
  client_user = client;
  provider_id = p.id;
  provider_user = p.user;
  status = pending_payment;
  scheduled_start = some start;
  scheduled_at = start;
  scheduled_end = some (start + minutes * minute_ms);
  duration_minutes = some minutes;
  expires_at = some (now + pending_payment_timeout_ms);
  total_price = price;
  accepted_at = none;
  arrived_at = none;
  started_at = none;
  completed_at = none;
  arrived_position = none;
  started_position = none;
  completed_position = none;
  started_by = none;
  completed_by = none;
  coupon_id = q.coupon_id;
  payment = none;
  insurance = q.insurance;
}

abbrev pub with_usage : CouponStore → Option ℕ → Text → CouponStore
with_usage c none user = c
with_usage c (some id) user = record c {
  usages = c.usages ++ record { coupon_id = id; user_id = user } ∷ [];
}

abbrev pub add_booking : Store → Booking → Store
add_booking s b = record s {
  bookings = s.bookings ++ b ∷ [];
  coupons = with_usage s.coupons b.coupon_id b.client_user;
}

abbrev pub weekly_outcome : Outcome WeeklyError (Unit {0}) → Outcome CreateError (Unit {0})
weekly_outcome (ok u) = ok u
weekly_outcome (err e) = err over_weekly_limit

-- The transaction of `create`.
unfoldable pub create_in_transaction :
    StrikeConfig → Desk → ℕ → CreateRequest → Booking → ℕ → Outcome CreateError Store
create_in_transaction config d now r b end = do
  throw_if (not (can_hold_slot config d.strikes now b.provider_id b.client_user r.start))
      excessive_cancellations
  throw_if (any (takes_slot blocked_booking_statuses b.provider_id r.start end) d.core.bookings)
      time_slot_unavailable
  weekly_outcome
      (ensure_weekly_limit d.core.bookings b.client_user b.provider_id r.week_start r.week_end)
  ok (add_booking d.core b)

abbrev pub is_past : ℕ → Option ℕ → Bool
is_past now none = false
is_past now (some t) = ltb t now

abbrev pub differs : ℕ → Option ℕ → Bool
differs hash none = false
differs hash (some h) = not (h == hash)

-- The tests before the transaction, and the row that it is to write.
unfoldable pub check_create : ℕ → CreateRequest → Lookups → Outcome CreateError Booking
check_create now r l =
    throw_if (not l.has_client) client_not_found
    >> (throw_if (not l.has_terms) terms_not_accepted
        >> (or_throw l.provider provider_not_found >>= λ p.
            throw_if (not p.is_approved) provider_not_approved
            >> (or_throw l.service_minutes service_not_found >>= λ service.
                throw_if (is_past now r.quote_expires_at) quote_expired
                >> (throw_if (differs l.quote.hash r.quote_hash) price_mismatch
                    >> (throw_if (r.wants_insurance && not (is_some l.quote.insurance))
                          insurance_not_eligible
                        >> ok (
                            new_booking r.booking_id r.client_user p now r.start
                              (minutes_of r l.quote service) (price_of r l.quote) l.quote))))))

abbrev pub or_zero : Option ℕ → ℕ
or_zero none = 0
or_zero (some t) = t

-- IDEMPOTENCY_TTL_SECONDS
abbrev pub idempotency_ttl : ℕ
idempotency_ttl = 10 * 60

-- `cacheService.set`
abbrev pub remember : (ℕ → Option CacheEntry) → Option ℕ → Booking → ℕ → ℕ → Option CacheEntry
remember cache none b lapses k = cache k
remember cache (some key) b lapses k =
    if k == key then some (record { booking = b; lapses_at = lapses }) else cache k

-- After the transaction: a charge that fails is answered like any other error, and nothing is undone.
abbrev pub after_charge :
    ℕ → Desk → CreateRequest → Booking → Bool → Outcome CreateError Booking × Desk
after_charge end d r b false = (err cannot_create, d)
after_charge end d r b true = (
  ok b,
  record d {
    cache = remember d.cache r.idempotency_key b (end + idempotency_ttl * d.cache_unit_ms);
  },
)

-- The `catch` answers every error of the transaction and of the weekly lock by the same one.
abbrev pub after_transaction :
    ℕ
    → Desk
    → CreateRequest
    → Lookups
    → Booking
    → Outcome WeeklyError (Outcome CreateError Store)
    → Outcome CreateError Booking × Desk
after_transaction end d r l b (err e) = (err cannot_create, d)
after_transaction end d r l b (ok (err e)) = (err cannot_create, d)
after_transaction end d r l b (ok (ok s)) =
    after_charge end (record d { core = s }) r b l.is_charged

abbrev pub if_live : ℕ → Option CacheEntry → Option Booking
if_live now none = none
if_live now (some e) = if ltb now e.lapses_at then some e.booking else none

-- `cacheService.get`: an entry that has lapsed is not there.
abbrev pub cached : (ℕ → Option CacheEntry) → Option ℕ → ℕ → Option Booking
cached cache none now = none
cached cache (some key) now = if_live now (cache key)

module _ (redis : Redis) where
  open redis use {State}

  pub record Reply : Type 0 where
    pub result : Outcome CreateError Booking
    pub desk : Desk
    pub locks : State

  -- The transaction under the weekly lock.
  abbrev pub create_checked :
      StrikeConfig
      → Desk
      → State
      → ℕ
      → ℕ
      → CreateRequest
      → Lookups
      → Outcome CreateError Booking
      → Reply
  create_checked config d locks now end r l (err e) = record {
    result = err e;
    desk = d;
    locks = locks;
  }
  create_checked config d locks now end r l (ok b) =
      let work =
        run_with_weekly_lock redis locks now end r.weekly_key r.lock_value
          (λ s. (ok (create_in_transaction config d now r b (or_zero b.scheduled_end)), s)) in
      let done = after_transaction end d r l b work.0 in
      record { result = done.0; desk = done.1; locks = work.1 }

  abbrev pub create_locked :
      StrikeConfig → Desk → ℕ → ℕ → CreateRequest → Lookups → Bool × State → Reply
  create_locked config d now end r l (false, locks) = record {
    result = err concurrent_creation;
    desk = d;
    locks = locks;
  }
  create_locked config d now end r l (true, locks) =
      let done = create_checked config d locks now end r l (check_create now r l) in
      record done { locks = (release_lock redis done.locks end r.creation_key r.lock_value).1 }

  abbrev pub create_unless_cached :
      StrikeConfig → Desk → State → ℕ → ℕ → CreateRequest → Lookups → Option Booking → Reply
  create_unless_cached config d locks now end r l (some b) = record {
    result = ok b;
    desk = d;
    locks = locks;
  }
  create_unless_cached config d locks now end r l none =
      create_locked config d now end r l
        (acquire_lock redis locks now r.creation_key r.lock_value 15000)

  -- `create`, which begins at `now` and ends at `end`.
  unfoldable pub create : StrikeConfig → Desk → State → ℕ → ℕ → CreateRequest → Lookups → Reply
  create config d locks now end r l =
      create_unless_cached config d locks now end r l (cached d.cache r.idempotency_key now)

-- The two texts of a date: `YYYY-MM-DD`, and the text of a whole moment that `toISOString` makes.
pub data DateText : Type 0 where
  day_text moment_text : ℕ → DateText

-- `new Date(`${text}T00:00:00.000Z`)`: a text that has a time gets a second one, and is no date.
abbrev pub midnight_of : DateText → Option ℕ
midnight_of (day_text day) = some (day * 86400000)
midnight_of (moment_text at) = none

-- `createBookingFromSubscription`, for a subscription without insurance and coupon.
pub record SubscriptionBooking : Type 0 where
  pub booking_id : ℕ
  pub client_user : Text
  pub provider : ProviderRow
  pub scheduled_date : DateText
  pub start : ℕ
  pub total_price : ℕ
  pub service_minutes : Option (Option ℕ)

abbrev pub plain_quote : ℕ → Quote
plain_quote price = record {
  final_price = price;
  coupon_id = none;
  hash = 0;
  normalized_minutes = none;
  insurance = none;
}

abbrev pub subscription_row : ℕ → SubscriptionBooking → Option ℕ → Booking
subscription_row now r service =
    new_booking r.booking_id r.client_user r.provider now r.start (or_minutes service 60)
      r.total_price (plain_quote r.total_price)

abbrev pub add_if_free :
    Store → SubscriptionBooking → Booking → Outcome CreateError (Booking × Store)
add_if_free s r b =
    throw_if
      (any
        (takes_slot subscription_blocked_statuses b.provider_id r.start (or_zero b.scheduled_end))
        s.bookings)
      time_slot_unavailable
    >> (or_throw (midnight_of r.scheduled_date) invalid_date >>= λ date. ok (b, add_booking s b))

unfoldable pub create_from_subscription :
    Store → ℕ → SubscriptionBooking → Outcome CreateError (Booking × Store)
create_from_subscription s now r = or_throw r.service_minutes service_not_found >>= λ service.
    add_if_free s r (subscription_row now r service)
