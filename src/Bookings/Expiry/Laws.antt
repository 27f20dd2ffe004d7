-- ===== src/Bookings/Expiry/Laws.antt =====
-- What the expiry job promises: worker/expire-bookings.job.ts.
use limpeja_backend.Common.{
  ℕ, ◌≤◌, ◌≡◌, refl, sym, subst, ◌∙◌, Bool, true, some, List, [], ◌∷◌, map, arith, inl, inr,
  Bool-cases, Option-cases, if◌then◌else◌,
}
use limpeja_backend.Common.Lists.{All, filter}
use limpeja_backend.Bookings.Status.{expired}
use limpeja_backend.Bookings.Rows.{Booking, find_booking, update_booking}
use limpeja_backend.Bookings.Rows.Laws.{find-update_booking, find_booking-id}
use limpeja_backend.Bookings.Rows.Sweep.{IsKeyed, sweep, sweep-filter}
use limpeja_backend.Bookings.Expiry.{
  is_due, expire, expire_each, expire_due_bookings, is_near, is_upcoming, Reminder, minutes_until,
  remind_each, notify_upcoming_expirations, reminder_of,
}

abbrev pub expired_if_due : ℕ → Booking → Booking
expired_if_due now b = if is_due now b then expire b else b

expire_each-sweep : (ds bs : List Booking) → expire_each ds bs ≡ sweep (λ _. expire) ds bs
unfolding expire_each sweep
expire_each-sweep [] bs = refl
expire_each-sweep (d ∷ ds) bs = expire_each-sweep ds (update_booking d.id expire bs)

-- The job expires the bookings that wait for a payment past their time, and no others.
pub expire_due_bookings_lem :
    (now : ℕ) (bs : List Booking)
    → IsKeyed bs
    → (expire_due_bookings now bs).0 ≡ map (expired_if_due now) bs
unfolding expire_due_bookings
expire_due_bookings_lem now bs d =
    expire_each-sweep (filter (is_due now) bs) bs
    ∙ sweep-filter (λ _. expire) (is_due now) bs (λ b r. refl) d

none_due : (now : ℕ) (bs : List Booking) → filter (is_due now) (map (expired_if_due now) bs) ≡ []
none_due now [] = refl
none_due now (b ∷ bs) = ground (arith, none_due now bs)

-- A second run at the same time finds nothing to expire, and leaves the bookings.
pub expire_twice :
    (now : ℕ) (bs : List Booking)
    → IsKeyed bs
    → expire_due_bookings now (expire_due_bookings now bs).0 ≡ ((expire_due_bookings now bs).0, 0)
unfolding expire_due_bookings expire_each
expire_twice now bs d =
    let none_left : filter (is_due now) (expire_due_bookings now bs).0 ≡ [] =
      rw (expire_due_bookings_lem now bs d) (none_due now bs) in
    simp none_left refl

-- The loop does not look again: a booking that was read as due and is confirmed before its turn is
-- expired all the same.
pub stale_read_expires :
    (now id : ℕ) (b : Booking) (bs : List Booking) (change : Booking → Booking)
    → find_booking id bs ≡ some b
    → ((r : Booking) → (change r).id ≡ r.id)
    → (d : Booking) × (find_booking id (expire_each (b ∷ []) (update_booking id change bs))
        ≡ some d)
      × (d.status ≡ expired)
unfolding expire_each
stale_read_expires now id b bs change found keeps =
    let key = find_booking-id id bs b found in
    let changed_row = find-update_booking id change bs b keeps found in
    (
      expire (change b),
      subst
          (λ k.
            find_booking id (update_booking k expire (update_booking id change bs))
            ≡ some (expire (change b)))
          (sym key)
          (find-update_booking id expire (update_booking id change bs) (change b) (λ r. refl)
            changed_row),
      refl,
    )

abbrev FromFiveToTen : Reminder → Type 0
FromFiveToTen r = (5 ≤ r.minutes_left) × (r.minutes_left ≤ 10)

near-minutes :
    (now t : ℕ)
    → is_near now (some t) ≡ true
    → (5 ≤ minutes_until now t) × (minutes_until now t ≤ 10)
unfolding minutes_until
near-minutes now t h = (ground arith, ground arith)

near_reminders :
    (sent : Reminder → Bool) (now : ℕ) (bs : List Booking)
    → All (λ b. is_upcoming now b ≡ true) bs
    → All FromFiveToTen (remind_each sent now bs)
unfolding remind_each
near_reminders sent now [] h = tt
near_reminders sent now (b ∷ bs) (near, h) = elim (Option-cases b.expires_at) [
  | inl e ↦ simp e (near_reminders sent now bs h)
  | inr (t, e) ↦
      let within = near-minutes now t (ground arith) in
      elim (Bool-cases (sent (reminder_of now b t))) [
        | inl k ↦ simp (e, k) (within, near_reminders sent now bs h)
        | inr k ↦ simp (e, k) (near_reminders sent now bs h)
      ]
]

upcoming_filtered :
    (now : ℕ) (bs : List Booking)
    → All (λ b. is_upcoming now b ≡ true) (filter (is_upcoming now) bs)
upcoming_filtered now [] = tt
upcoming_filtered now (b ∷ bs) = elim (Bool-cases (is_upcoming now b)) [
  | inl e ↦ rw e (e, upcoming_filtered now bs)
  | inr e ↦ rw e (upcoming_filtered now bs)
]

-- Every reminder that is sent says between five and ten minutes.
pub reminder_minutes :
    (sent : Reminder → Bool) (now : ℕ) (bs : List Booking)
    → All
        (λ (r : Reminder). (5 ≤ r.minutes_left) × (r.minutes_left ≤ 10))
        (notify_upcoming_expirations sent now bs)
unfolding notify_upcoming_expirations
reminder_minutes sent now bs =
    near_reminders sent now (filter (is_upcoming now) bs) (upcoming_filtered now bs)
