-- ===== src/Bookings/Create/Laws.antt =====
-- What making a booking keeps: bookings/bookings.service.ts.
use limpeja_backend.Common.{
  ℕ, ◌+◌, ◌*◌, ◌<◌, ◌≤◌, ◌≡◌, refl, ltb, Bool, true, false, not, ◌&&◌, ◌==◌, Option, none, some,
  arith, subst,
}
use limpeja_backend.Common.Lists.{any, is_some}
use limpeja_backend.Common.Outcome.{Outcome, ok, err, or_throw, throw_if-ok, >>=-ok}
use limpeja_backend.Locks.{Redis, acquire_lock}
use limpeja_backend.Bookings.Rows.{Booking, Store, minute_ms}
use limpeja_backend.Bookings.Weekly.{
  WeeklyError, ensure_weekly_limit, run_with_weekly_lock, work_and_release, weekly_lock_ttl_ms,
}
use limpeja_backend.Bookings.Slots.{
  blocked_booking_statuses, takes_slot, StrikeConfig, can_hold_slot,
}
use limpeja_backend.Bookings.Slots.Laws.{IsDisjoint, free-clashes}
use limpeja_backend.Bookings.Create.{
  CreateError, CreateRequest, Lookups, Desk, minutes_of, price_of, new_booking, add_booking,
  create_in_transaction, check_create, create_checked, create_locked, after_charge,
  after_transaction, idempotency_ttl, create_unless_cached, cached, create, or_zero, weekly_outcome,
  excessive_cancellations, time_slot_unavailable, client_not_found, terms_not_accepted,
  provider_not_found, provider_not_approved, service_not_found, quote_expired, price_mismatch,
  insurance_not_eligible, is_past, differs,
}

-- The row of a request.
abbrev pub IsRowOf : CreateRequest → Booking → Type 0
IsRowOf r b =
    (minutes : ℕ) × (b.scheduled_start ≡ some r.start)
    × (b.scheduled_end ≡ some (r.start + minutes * minute_ms))

check_create-ok :
    (now : ℕ) (r : CreateRequest) (l : Lookups) (b : Booking)
    → check_create now r l ≡ ok b
    → IsRowOf r b
unfolding check_create
check_create-ok now r l b h =
    let (_, k1) = throw_if-ok (not l.has_client) client_not_found _ h in
    let (_, k2) = throw_if-ok (not l.has_terms) terms_not_accepted _ k1 in
    let (p, _, k3) = >>=-ok (or_throw l.provider provider_not_found) _ k2 in
    let (_, k4) = throw_if-ok (not p.is_approved) provider_not_approved _ k3 in
    let (service, _, k5) = >>=-ok (or_throw l.service_minutes service_not_found) _ k4 in
    let (_, k6) = throw_if-ok (is_past now r.quote_expires_at) quote_expired _ k5 in
    let (_, k7) = throw_if-ok (differs l.quote.hash r.quote_hash) price_mismatch _ k6 in
    let (_, k8) =
      throw_if-ok (r.wants_insurance && not (is_some l.quote.insurance)) insurance_not_eligible _
        k7 in
    let same : new_booking r.booking_id r.client_user p now r.start (minutes_of r l.quote service)
          (price_of r l.quote) l.quote
        ≡ b =
      cc in
    subst (λ c. IsRowOf r c) same (minutes_of r l.quote service, refl, refl)

create_in_transaction-ok :
    (config : StrikeConfig) (d : Desk) (now : ℕ) (r : CreateRequest) (b : Booking) (end : ℕ)
    (s : Store)
    → create_in_transaction config d now r b end ≡ ok s
    → (any (takes_slot blocked_booking_statuses b.provider_id r.start end) d.core.bookings ≡ false)
      × (s ≡ add_booking d.core b)
unfolding create_in_transaction
create_in_transaction-ok config d now r b end s h =
    let (_, k1) =
      throw_if-ok (not (can_hold_slot config d.strikes now b.provider_id b.client_user r.start))
        excessive_cancellations _ h in
    let (free, k2) =
      throw_if-ok
        (any (takes_slot blocked_booking_statuses b.provider_id r.start end) d.core.bookings)
        time_slot_unavailable _ k1 in
    let (_, _, k3) =
      >>=-ok
        (weekly_outcome
          (ensure_weekly_limit d.core.bookings b.client_user b.provider_id r.week_start r.week_end))
        _ k2 in
    (free, ground arith)

pub create_in_transaction-IsDisjoint :
    (config : StrikeConfig) (d : Desk) (now : ℕ) (r : CreateRequest) (b : Booking) (s : Store)
    → IsRowOf r b
    → IsDisjoint d.core.bookings
    → create_in_transaction config d now r b (or_zero b.scheduled_end) ≡ ok s
    → IsDisjoint s.bookings
create_in_transaction-IsDisjoint config d now r b s (minutes, start, end) disjoint h =
    let (free, wrote) = create_in_transaction-ok config d now r b (or_zero b.scheduled_end) s h in
    let end' : or_zero b.scheduled_end ≡ r.start + minutes * minute_ms = simp end refl in
    rw wrote (
      free-clashes d.core.bookings b r.start (or_zero b.scheduled_end) start (simp end refl) free
        disjoint)

after_charge-IsDisjoint :
    (end : ℕ) (d : Desk) (r : CreateRequest) (b : Booking) (charged : Bool)
    → IsDisjoint d.core.bookings
    → IsDisjoint (after_charge end d r b charged).1.core.bookings
after_charge-IsDisjoint end d r b true h = h
after_charge-IsDisjoint end d r b false h = h

after_transaction-IsDisjoint :
    (end : ℕ) (d : Desk) (r : CreateRequest) (l : Lookups) (b : Booking)
    (out : Outcome WeeklyError (Outcome CreateError Store))
    → IsDisjoint d.core.bookings
    → ((s : Store) → out ≡ ok (ok s) → IsDisjoint s.bookings)
    → IsDisjoint (after_transaction end d r l b out).1.core.bookings
after_transaction-IsDisjoint end d r l b (err e) h k = h
after_transaction-IsDisjoint end d r l b (ok (err e)) h k = h
after_transaction-IsDisjoint end d r l b (ok (ok s)) h k =
    after_charge-IsDisjoint end (record d { core = s }) r b l.is_charged (k s refl)

module _ (redis : Redis) where
  open redis use {State}

  -- What the work under the lock answers is the answer of the lock, if it was taken.
  work_and_release-ok {ℓ} :
      {A : Type ℓ} (key value end : ℕ) (work : State → Outcome WeeklyError A × State)
      (p : Bool × State) (a : A)
      → (work_and_release redis key value end work p).0 ≡ ok a
      → (work p.1).0 ≡ ok a
  work_and_release-ok key value end work (true, s) a h = h
  work_and_release-ok key value end work (false, s) a h = absurd cc

  create_checked-IsDisjoint :
      (config : StrikeConfig) (d : Desk) (locks : State) (now end : ℕ) (r : CreateRequest)
      (l : Lookups) (row : Outcome CreateError Booking)
      → ((b : Booking) → row ≡ ok b → IsRowOf r b)
      → IsDisjoint d.core.bookings
      → IsDisjoint (create_checked redis config d locks now end r l row).desk.core.bookings
  unfolding run_with_weekly_lock
  create_checked-IsDisjoint config d locks now end r l (err e) rows h = h
  create_checked-IsDisjoint config d locks now end r l (ok b) rows h =
      let tried = create_in_transaction config d now r b (or_zero b.scheduled_end) in
      let work : State → Outcome WeeklyError (Outcome CreateError Store) × State =
        λ s. (ok tried, s) in
      let p = acquire_lock redis locks now r.weekly_key r.lock_value weekly_lock_ttl_ms in
      after_transaction-IsDisjoint end d r l b
        (work_and_release redis r.weekly_key r.lock_value end work p).0 h
        (λ s won.
          let same : tried ≡ ok s =
            let got = work_and_release-ok r.weekly_key r.lock_value end work p (ok s) won in cc in
          create_in_transaction-IsDisjoint config d now r b s (rows b refl) h same)

  create_locked-IsDisjoint :
      (config : StrikeConfig) (d : Desk) (now end : ℕ) (r : CreateRequest) (l : Lookups)
      (p : Bool × State)
      → IsDisjoint d.core.bookings
      → IsDisjoint (create_locked redis config d now end r l p).desk.core.bookings
  create_locked-IsDisjoint config d now end r l (false, locks) h = h
  create_locked-IsDisjoint config d now end r l (true, locks) h =
      create_checked-IsDisjoint config d locks now end r l (check_create now r l)
        (λ b. check_create-ok now r l b) h

  create_unless_cached-IsDisjoint :
      (config : StrikeConfig) (d : Desk) (locks : State) (now end : ℕ) (r : CreateRequest)
      (l : Lookups) (hit : Option Booking)
      → IsDisjoint d.core.bookings
      → IsDisjoint (create_unless_cached redis config d locks now end r l hit).desk.core.bookings
  create_unless_cached-IsDisjoint config d locks now end r l (some b) h = h
  create_unless_cached-IsDisjoint config d locks now end r l none h =
      create_locked-IsDisjoint config d now end r l
        (acquire_lock redis locks now r.creation_key r.lock_value 15000) h

  -- No double booking: where no two bookings of a provider share an hour, none do after a call of
  -- `create`, whatever the request, the answers of the other services and the locks are.
  pub create-IsDisjoint :
      (config : StrikeConfig) (d : Desk) (locks : State) (now end : ℕ) (r : CreateRequest)
      (l : Lookups)
      → IsDisjoint d.core.bookings
      → IsDisjoint (create redis config d locks now end r l).desk.core.bookings
  unfolding create
  create-IsDisjoint config d locks now end r l h =
      create_unless_cached-IsDisjoint config d locks now end r l
        (cached d.cache r.idempotency_key now) h

  work_and_release-won {ℓ} :
      {A : Type ℓ} (key value end : ℕ) (work : State → Outcome WeeklyError A × State)
      (p : Bool × State)
      → p.0 ≡ true
      → (work_and_release redis key value end work p).0 ≡ (work p.1).0
  work_and_release-won key value end work (true, s) h = refl
  work_and_release-won key value end work (false, s) h = absurd cc

  create_locked-won :
      (config : StrikeConfig) (d : Desk) (now end : ℕ) (r : CreateRequest) (l : Lookups)
      (p : Bool × State)
      → p.0 ≡ true
      → ((create_locked redis config d now end r l p).result
          ≡ (create_checked redis config d p.1 now end r l (check_create now r l)).result)
        × ((create_locked redis config d now end r l p).desk
            ≡ (create_checked redis config d p.1 now end r l (check_create now r l)).desk)
  create_locked-won config d now end r l (true, s) h = (refl, refl)
  create_locked-won config d now end r l (false, s) h = absurd cc

  -- The lock of the creation, and the lock of the week after it, are taken.
  abbrev pub TakesLocks : State → ℕ → CreateRequest → Type 0
  TakesLocks locks now r =
      ((acquire_lock redis locks now r.creation_key r.lock_value 15000).0 ≡ true)
      × ((acquire_lock redis (acquire_lock redis locks now r.creation_key r.lock_value 15000).1 now
            r.weekly_key r.lock_value weekly_lock_ttl_ms).0
          ≡ true)

  hit_result :
      (config : StrikeConfig) (d : Desk) (locks : State) (now end : ℕ) (r : CreateRequest)
      (l : Lookups) (b : Booking)
      → cached d.cache r.idempotency_key now ≡ some b
      → (create redis config d locks now end r l).result ≡ ok b
  unfolding create
  hit_result config d locks now end r l b hit = simp hit refl

  hit_desk :
      (config : StrikeConfig) (d : Desk) (locks : State) (now end : ℕ) (r : CreateRequest)
      (l : Lookups) (b : Booking)
      → cached d.cache r.idempotency_key now ≡ some b
      → (create redis config d locks now end r l).desk ≡ d
  unfolding create
  hit_desk config d locks now end r l b hit = simp hit refl

  create-after :
      (config : StrikeConfig) (d : Desk) (locks : State) (now end : ℕ) (r : CreateRequest)
      (l : Lookups) (b : Booking) (s : Store)
      → cached d.cache r.idempotency_key now ≡ none
      → TakesLocks locks now r
      → check_create now r l ≡ ok b
      → create_in_transaction config d now r b (or_zero b.scheduled_end) ≡ ok s
      → let done = after_charge end (record d { core = s }) r b l.is_charged in
        ((create redis config d locks now end r l).result ≡ done.0)
        × ((create redis config d locks now end r l).desk ≡ done.1)
  unfolding create run_with_weekly_lock
  create-after config d locks now end r l b s miss (outer, inner) row wrote =
      let p = acquire_lock redis locks now r.creation_key r.lock_value 15000 in
      let q = acquire_lock redis p.1 now r.weekly_key r.lock_value weekly_lock_ttl_ms in
      let work : State → Outcome WeeklyError (Outcome CreateError Store) × State =
        λ k. (ok (ok s), k) in
      let (result, desk) = create_locked-won config d now end r l p outer in
      let won = work_and_release-won r.weekly_key r.lock_value end work q inner in
      (simp (miss, result, row, won, wrote) refl, simp (miss, desk, row, won, wrote) refl)

  -- A request whose locks are free and whose tests pass, with a charge that is taken: the answer is
  -- the booking, and all that changes of the tables is that it stands in them with its use of a
  -- coupon. Called again under its key before the entry of the cache lapses, also with other data,
  -- `create` answers with the same booking and changes nothing; from then on the key is not known.
  pub create-idempotent :
      (config : StrikeConfig) (d : Desk) (locks later_locks : State)
      (now end key later later_end : ℕ) (r other : CreateRequest) (l others : Lookups) (b : Booking)
      (s : Store)
      → cached d.cache r.idempotency_key now ≡ none
      → TakesLocks locks now r
      → check_create now r l ≡ ok b
      → create_in_transaction config d now r b (or_zero b.scheduled_end) ≡ ok s
      → l.is_charged ≡ true
      → r.idempotency_key ≡ some key
      → other.idempotency_key ≡ some key
      → later < end + idempotency_ttl * d.cache_unit_ms
      → let first = create redis config d locks now end r l in
        let second = create redis config first.desk later_locks later later_end other others in
        (first.result ≡ ok b)
        × (first.desk.core ≡ add_booking d.core b)
        × (second.result ≡ ok b)
        × (second.desk ≡ first.desk)
        × ((at : ℕ)
            → end + idempotency_ttl * d.cache_unit_ms ≤ at
            → cached first.desk.cache other.idempotency_key at ≡ none)
  create-idempotent config d locks later_locks now end key later later_end r other l others b s miss
        taken row wrote charged keyed keyed' soon =
      let (answer, stored) = create-after config d locks now end r l b s miss taken row wrote in
      let (_, added) =
        create_in_transaction-ok config d now r b (or_zero b.scheduled_end) s wrote in
      let self : (key == key) ≡ true = ground arith in
      let desk : (create redis config d locks now end r l).desk
          ≡ (after_charge end (record d { core = s }) r b true).1 =
        simp (stored, charged) refl in
      let hit : cached (create redis config d locks now end r l).desk.cache other.idempotency_key
            later
          ≡ some b =
        let live : ltb later (end + idempotency_ttl * d.cache_unit_ms) ≡ true = ground arith in
        simp (desk, keyed, keyed', self, live) refl in
      (
        simp (answer, charged) refl,
        simp (desk, added) refl,
        hit_result config (create redis config d locks now end r l).desk later_locks later later_end
            other others b hit,
        hit_desk config (create redis config d locks now end r l).desk later_locks later later_end
            other others b hit,
        λ at late.
            let over : ltb at (end + idempotency_ttl * d.cache_unit_ms) ≡ false = ground arith in
            simp (desk, keyed, keyed', self, over) refl,
      )
