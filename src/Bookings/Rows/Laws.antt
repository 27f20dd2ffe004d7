-- ===== src/Bookings/Rows/Laws.antt =====
-- Reading the bookings of bookings/bookings.service.ts after an update by key, and what a change
-- of the status does.
use limpeja_backend.Common.{
  ℕ, ◌≡◌, ◌≢◌, refl, subst, true, false, some, List, [], ◌∷◌, arith, inl, inr, Bool-cases,
}
use limpeja_backend.Common.Lists.{All, includes}
use limpeja_backend.Common.Outcome.{ok}
use limpeja_backend.Bookings.Status.{BookingStatus, status_eq}
use limpeja_backend.Bookings.Table.{booking_status_transitions}
use limpeja_backend.Bookings.Rows.{
  Booking, Store, has_id, find_booking, update_booking, assert_valid_transition,
  change_booking_status,
}

-- A change of columns that leaves the key.
abbrev pub KeepsId : (Booking → Booking) → Type 0
KeepsId change = (b : Booking) → (change b).id ≡ b.id

pub find_booking-id :
    (id : ℕ) (bs : List Booking) (b : Booking) → find_booking id bs ≡ some b → b.id ≡ id
find_booking-id id [] b h = absurd cc
find_booking-id id (c ∷ cs) b h = ground (arith, find_booking-id id cs b)

pub find-update_booking :
    (id : ℕ) (change : Booking → Booking) (bs : List Booking) (b : Booking)
    → KeepsId change
    → find_booking id bs ≡ some b
    → find_booking id (update_booking id change bs) ≡ some (change b)
unfolding update_booking
find-update_booking id change [] b k h = absurd cc
find-update_booking id change (c ∷ cs) b k h =
    ground (arith, find-update_booking id change cs b k, k c)

pub find-update_other :
    (id other : ℕ) (change : Booking → Booking) (bs : List Booking)
    → KeepsId change
    → other ≢ id
    → find_booking other (update_booking id change bs) ≡ find_booking other bs
unfolding update_booking
find-update_other id other change [] k n = refl
find-update_other id other change (c ∷ cs) k n =
    ground (arith, find-update_other id other change cs k n, k c)

pub All-find {κ} :
    (P : Booking → Type κ) (id : ℕ) (bs : List Booking) (b : Booking)
    → All P bs
    → find_booking id bs ≡ some b
    → P b
All-find P id [] b a h = absurd cc
All-find P id (c ∷ cs) b a h = elim (Bool-cases (has_id id c)) [
  | inl e ↦ let same : c ≡ b = ground arith in subst P same a.0
  | inr e ↦ let rest : find_booking id cs ≡ some b = ground arith in All-find P id cs b a.1 rest
]

pub All-update_booking {κ} :
    (P : Booking → Type κ) (id : ℕ) (change : Booking → Booking) (bs : List Booking) (b : Booking)
    → All P bs
    → find_booking id bs ≡ some b
    → P (change b)
    → All P (update_booking id change bs)
unfolding update_booking
All-update_booking P id change [] b a h p = tt
All-update_booking P id change (c ∷ cs) b a h p = elim (Bool-cases (has_id id c)) [
  | inl e ↦ let same : b ≡ c = ground arith in rw e (subst (λ z. P (change z)) same p, a.1)
  | inr e ↦
      let rest : find_booking id cs ≡ some b = ground arith in
      rw e (a.0, All-update_booking P id change cs b a.1 rest p)
]

-- The store after a change of the status.
abbrev pub changed : Store → ℕ → BookingStatus → (Booking → Booking) → Store
changed s id new data_of = record s {
  bookings = update_booking id (λ r. data_of (record r { status = new })) s.bookings;
}

-- A change to another status that succeeds is one of the table, and writes that row alone.
pub change_booking_status-ok :
    (s : Store) (b : Booking) (new : BookingStatus) (data_of : Booking → Booking) (t : Store)
    → status_eq b.status new ≡ false
    → change_booking_status s b new data_of ≡ ok t
    → (includes status_eq new (booking_status_transitions b.status) ≡ true)
      × (t ≡ changed s b.id new data_of)
unfolding change_booking_status assert_valid_transition
change_booking_status-ok s b new data_of t n h =
    elim (Bool-cases (includes status_eq new (booking_status_transitions b.status))) [
      | inl e ↦ (e, ground arith)
      | inr e ↦ absurd (ground arith)
    ]

-- Between two statuses that the table joins, the change succeeds.
pub change_booking_status-allowed :
    (s : Store) (b : Booking) (new : BookingStatus) (data_of : Booking → Booking)
    → status_eq b.status new ≡ false
    → includes status_eq new (booking_status_transitions b.status) ≡ true
    → change_booking_status s b new data_of ≡ ok (changed s b.id new data_of)
unfolding change_booking_status assert_valid_transition
change_booking_status-allowed s b new data_of n e = simp (n, e) refl
