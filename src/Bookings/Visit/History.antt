-- ===== src/Bookings/Visit/History.antt =====
-- Acceptances, steps and automatic ends of visits, in any order: the handlers of bookings/bookings.service.ts
-- that carry it, and its job, at times that do not run backwards.
use limpeja_backend.Common.{
  ℕ, ◌≤◌, ◌≡◌, refl, Bool-cases, inl, inr, not, some, List, [], ◌∷◌, map, arith, subst,
}
use limpeja_backend.Common.Lists.{All, is_some}
use limpeja_backend.Common.Outcome.{ok, >>=-ok, throw_if-ok}
use limpeja_backend.Bookings.Status.{confirmed, status_eq}
use limpeja_backend.Bookings.Rows.{
  Booking, Store, invalid_status, already_accepted, notify, accepted, update_booking,
}
use limpeja_backend.Bookings.Rows.Laws.{All-update_booking, All-find, KeepsId}
use limpeja_backend.Bookings.Rows.Sweep.{IsKeyed, update_booking-IsKeyed, map-IsKeyed}
use limpeja_backend.Bookings.Visit.{own_booking, accept_booking, auto_complete_overdue, is_overdue}
use limpeja_backend.Bookings.Visit.Laws.{own_booking-ok}
use limpeja_backend.Bookings.Visit.Sweep.{closed_if_overdue, auto_complete_overdue_lem}
use limpeja_backend.Bookings.Visit.Course.{
  Call, perform, booking_of, goal_of, data_of, writes-KeepsId,
}
use limpeja_backend.Bookings.Visit.Timeline.{
  TimesOf-later, IsTimely, run_time, written-IsTimely, closed-IsTimely,
}

-- What leads from one store and time to another.
pub data History (s : Store) (now : ℕ) : Store → ℕ → Type 0 where
  here : History s now s now
  call :
      {t u : Store} {m later : ℕ}
      → History s now t m
      → m ≤ later
      → (c : Call) → perform t later c ≡ ok u
      → History s now u later
  accept :
      {t u : Store} {m later : ℕ}
      → History s now t m
      → m ≤ later
      → (id user : ℕ) → accept_booking t later id user ≡ ok u
      → History s now u later
  close :
      {t u : Store} {m later : ℕ}
      → History s now t m
      → m ≤ later
      → auto_complete_overdue t later ≡ ok u
      → History s now u later

-- The bookings of a store have distinct keys and times in order.
abbrev pub IsSound : Store → ℕ → Type 0
IsSound s now = IsKeyed s.bookings × All (IsTimely now) s.bookings

All-later :
    (now later : ℕ) (bs : List Booking)
    → now ≤ later
    → All (IsTimely now) bs
    → All (IsTimely later) bs
All-later now later [] l h = tt
All-later now later (b ∷ bs) l (p, h) =
    (TimesOf-later now later (run_time b) b.status _ _ _ l p, All-later now later bs l h)

closed-KeepsId : (now : ℕ) → KeepsId (closed_if_overdue now)
closed-KeepsId now b = elim (Bool-cases (is_overdue now b)) [
  | inl e ↦ rw e refl
  | inr e ↦ rw e refl
]

All-closed :
    (now : ℕ) (bs : List Booking)
    → All (IsTimely now) bs
    → All (IsTimely now) (map (closed_if_overdue now) bs)
All-closed now [] h = tt
All-closed now (b ∷ bs) (p, h) = (closed-IsTimely now b p, All-closed now bs h)

perform-IsSound :
    (s : Store) (now : ℕ) (c : Call) (t : Store)
    → perform s now c ≡ ok t
    → IsSound s now
    → IsSound t now
perform-IsSound s now c t h (keyed, timely) =
    let (b, (found, _, _), wrote, keeps) = written-IsTimely s now c t h in
    let change = λ (r : Booking). data_of now c (record r { status = goal_of c }) in
    rw wrote (
      update_booking-IsKeyed (booking_of c) change s.bookings (writes-KeepsId now c) keyed,
      All-update_booking (IsTimely now) (booking_of c) change s.bookings b timely found
          (keeps (All-find (IsTimely now) (booking_of c) s.bookings b timely found)),
    )

accept_booking-IsSound :
    (s : Store) (now id user : ℕ) (t : Store)
    → accept_booking s now id user ≡ ok t
    → IsSound s now
    → IsSound t now
unfolding accept_booking
accept_booking-IsSound s now id user t h (keyed, timely) =
    let (b, own, checks) = >>=-ok (own_booking s id user) _ h in
    let (found, _) = own_booking-ok s id user b own in
    let (fit, more) = throw_if-ok (not (status_eq b.status confirmed)) invalid_status _ checks in
    let (fresh, rest) = throw_if-ok (is_some b.accepted_at) already_accepted _ more in
    let change = λ (r : Booking). record r { accepted_at = some now } in
    let same : notify (accepted id) (record s { bookings = update_booking id change s.bookings })
        ≡ t =
      ground arith in
    subst (λ z. IsSound z now) same
      (
        update_booking-IsKeyed id change s.bookings (λ r. refl) keyed,
        All-update_booking (IsTimely now) id change s.bookings b timely found
            (All-find (IsTimely now) id s.bookings b timely found),
      )

-- Over any acceptances of bookings, successful calls of the four steps of a visit and runs of the
-- completing job, at times that do not go back, the keys stay distinct and the times of every
-- booking in order, if they were so at first: none in the future, arrival before start, and a
-- finished service has run for its duration. The route of `updateStatus` and `resolveDispute` are
-- not among these calls.
pub history-IsSound :
    {s : Store} {now : ℕ} {t : Store} {later : ℕ}
    → History s now t later
    → IsSound s now
    → IsSound t later
history-IsSound here h = h
history-IsSound {s} (call {t} {m = m} {later} past l c e) h =
    let (keyed, timely) = history-IsSound past h in
    perform-IsSound t later c _ e (keyed, All-later m later t.bookings l timely)
history-IsSound {s} (accept {t} {m = m} {later} past l id user e) h =
    let (keyed, timely) = history-IsSound past h in
    accept_booking-IsSound t later id user _ e (keyed, All-later m later t.bookings l timely)
history-IsSound {s} (close {t} {u} {m} {later} past l e) h =
    let (keyed, timely) = history-IsSound past h in
    let (v, ends, wrote) = auto_complete_overdue_lem t later keyed in
    let same : v ≡ u = ground arith in
    subst (λ z. IsSound z later) same
      (rw wrote (
        map-IsKeyed (closed_if_overdue later) t.bookings (closed-KeepsId later) keyed,
        All-closed later t.bookings (All-later m later t.bookings l timely),
      ))
