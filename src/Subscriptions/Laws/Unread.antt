-- ===== src/Subscriptions/Laws/Unread.antt =====
-- What becomes of the bookings: `generateRecurringBooking` of subscriptions/subscriptions.service.ts
-- hands the text of a whole moment to `createBookingFromSubscription`, which adds a time to it.
use limpeja_backend.Common.{
  ℕ, ◌+◌, ◌≡◌, refl, sym, Bool, Option, none, some, arith, inl, inr, Bool-cases, ltb, ◌∙◌, not,
  ◌&&◌, ◌==◌,
}
use limpeja_backend.Common.Lists.{any}
use limpeja_backend.Common.Outcome.{ok, ◌>>=◌, >>=-ok, throw_if-ok, Outcome-cases}
use limpeja_backend.Subscriptions.{
  Subscription, Desk, RunInput, Address, find_subscription, advance, period_of, is_of_period,
  is_active, create_booking, finish, run_due, run_addressed, flag_address, run_found,
  generate_recurring_booking, horizon_ms, create, add_row, UpdateDto, update, update_found,
  update_row, changed, jobs_after, forbidden,
}
use limpeja_backend.Subscriptions.Laws.History.{Call, made, updated, ran, History, here, then_}
use limpeja_backend.Subscriptions.Laws.Runs.{create_booking-refused}

abbrev pub BooksNothing : Desk → Desk → Type 0
BooksNothing d e = (e.core ≡ d.core) × (e.generated ≡ d.generated)

run_due-BooksNothing :
    (now : ℕ) (s : Subscription) (r : RunInput) (d e : Desk) (done : Bool)
    → run_due now s r d ≡ ok (done, e)
    → BooksNothing d e
unfolding run_due advance
run_due-BooksNothing now s r d e done h =
    elim (Bool-cases (any (is_of_period s.id (period_of s)) d.generated)) [
      | inl there ↦ let is : advance now s d ≡ e = ground arith in rw (sym is) (refl, refl)
      | inr none_there ↦
          let h1 : (create_booking now s r d >>= finish now s) ≡ ok (done, e) = ground arith in
          let (kept, h2, _) = >>=-ok (create_booking now s r d) _ h1 in
          let none_made = create_booking-refused now s r d in cc
    ]

run_addressed-BooksNothing :
    (now : ℕ) (s : Subscription) (r : RunInput) (d e : Desk) (done : Bool) (o : Option Address)
    → run_addressed now s r d o ≡ ok (done, e)
    → BooksNothing d e
run_addressed-BooksNothing now s r d e done none h =
    let is : flag_address s.id d ≡ e = cc in rw (sym is) (refl, refl)
run_addressed-BooksNothing now s r d e done (some a) h = elim (Bool-cases a.has_coordinates) [
  | inl located ↦ elim (Bool-cases (ltb (now + horizon_ms) s.next_generation_date)) [
    | inl early ↦ let is : d ≡ e = ground arith in rw is (refl, refl)
    | inr due ↦ run_due-BooksNothing now s r d e done (ground arith)
  ]
  | inr lost ↦ let is : flag_address s.id d ≡ e = ground arith in rw (sym is) (refl, refl)
]

run_found-BooksNothing :
    (now : ℕ) (r : RunInput) (d e : Desk) (done : Bool) (o : Option Subscription)
    → run_found now r d o ≡ ok (done, e)
    → BooksNothing d e
run_found-BooksNothing now r d e done none h = let is : d ≡ e = cc in rw is (refl, refl)
run_found-BooksNothing now r d e done (some s) h = elim (Bool-cases (is_active s.status)) [
  | inl live ↦ run_addressed-BooksNothing now s r d e done r.address (ground arith)
  | inr dead ↦ let is : d ≡ e = ground arith in rw is (refl, refl)
]

generate-BooksNothing :
    (now id : ℕ) (r : RunInput) (d e : Desk) (done : Bool)
    → generate_recurring_booking now id r d ≡ ok (done, e)
    → BooksNothing d e
unfolding generate_recurring_booking
generate-BooksNothing now id r d e done h =
    run_found-BooksNothing now r d e done (find_subscription id d.subscriptions) h

create-BooksNothing :
    (now : ℕ) (has_rows : Bool) (s : Subscription) (r : RunInput) (d : Desk)
    → BooksNothing d (create now has_rows s r d).0
unfolding create
create-BooksNothing now has_rows s r d = elim (Bool-cases has_rows) [
  | inl e ↦ elim (Bool-cases (ltb now s.next_generation_date)) [
    | inl f ↦ rw (e, f) (refl, refl)
    | inr f ↦ elim (Outcome-cases (generate_recurring_booking now s.id r (add_row s d))) [
      | inl ((b, x), g) ↦ rw (e, f, g) (generate-BooksNothing now s.id r (add_row s d) x b g)
      | inr (x, g) ↦ rw (e, f, g) (refl, refl)
    ]
  ]
  | inr e ↦ rw e (refl, refl)
]

update_found-BooksNothing :
    (now : ℕ) (u : UpdateDto) (user : ℕ) (is_client : Bool) (d e : Desk) (o : Option Subscription)
    → update_found now u user is_client d o ≡ ok e
    → BooksNothing d e
update_found-BooksNothing now u user is_client d e none h = absurd cc
update_found-BooksNothing now u user is_client d e (some s) h =
    let (_, h2) = throw_if-ok (is_client && not (s.client_id == user)) forbidden _ h in
    let is : record d {
      subscriptions = update_row s.id (changed u) d.subscriptions;
      jobs = jobs_after now s u.status d.jobs;
    }
        ≡ e =
      cc in
    rw (sym is) (refl, refl)

update-BooksNothing :
    (now id : ℕ) (u : UpdateDto) (user : ℕ) (is_client : Bool) (d e : Desk)
    → update now id u user is_client d ≡ ok e
    → BooksNothing d e
unfolding update
update-BooksNothing now id u user is_client d e h =
    update_found-BooksNothing now u user is_client d e (find_subscription id d.subscriptions) h

Call-BooksNothing : {d e : Desk} → Call d e → BooksNothing d e
Call-BooksNothing (made now has_rows r s fresh live) = create-BooksNothing now has_rows s r _
Call-BooksNothing (updated now id user is_client u h) =
    update-BooksNothing now id u user is_client _ _ h
Call-BooksNothing (ran now id r h) = generate-BooksNothing now id r _ _ _ h

-- No history of subscriptions that are made, changed and run ever makes a booking: the rows of
-- bookings and the bookings of subscriptions stay as they were at first.
pub subscriptions_book_nothing :
    {d e : Desk} → History d e → (e.core ≡ d.core) × (e.generated ≡ d.generated)
subscriptions_book_nothing here = (refl, refl)
subscriptions_book_nothing (then_ h c) =
    let (core, rows) = subscriptions_book_nothing h in
    let (core2, rows2) = Call-BooksNothing c in (core2 ∙ core, rows2 ∙ rows)
