-- ===== src/Bookings/Slots/Laws.antt =====
-- When the bookings of a provider do not overlap, and what keeps them so.
use limpeja_backend.Common.{
  ℕ, ◌≡◌, refl, Bool, true, false, ◌&&◌, ◌==◌, Option, some, List, [], ◌∷◌, ◌++◌, arith, inl, inr,
  Bool-cases, ltb, subst,
}
use limpeja_backend.Common.Lists.{any-new, any, includes}
use limpeja_backend.Bookings.Status.{
  BookingStatus, status_eq, pending, finished, canceled, expired, rejected, no_show,
  pending_dispute,
}
use limpeja_backend.Bookings.Table.{booking_status_transitions}
use limpeja_backend.Bookings.Rows.{Booking, has_id, find_booking, update_booking}
use limpeja_backend.Bookings.Slots.{blocked_booking_statuses, in_status, takes_slot}

abbrev pub is_blocked : Booking → Bool
is_blocked b = in_status blocked_booking_statuses b.status

abbrev pub meet : Option ℕ → Option ℕ → Option ℕ → Option ℕ → Bool
meet (some a) (some b) (some c) (some d) = ltb a d && ltb c b
meet _ _ _ _ = false

-- Two bookings of one provider take an hour that they share.
unfoldable pub clashes : Booking → Booking → Bool
clashes b c =
    b.provider_id == c.provider_id
    && (is_blocked b
        && (is_blocked c
            && meet b.scheduled_start b.scheduled_end c.scheduled_start c.scheduled_end))

-- No two bookings clash.
abbrev pub IsDisjoint : List Booking → Type 0
IsDisjoint [] = Unit
IsDisjoint (b ∷ bs) = (any (clashes b) bs ≡ false) × IsDisjoint bs

-- The lookup before a booking is made finds whatever would clash with it.
takes-clashes :
    (b c : Booking) (from to : ℕ)
    → c.scheduled_start ≡ some from
    → c.scheduled_end ≡ some to
    → clashes b c ≡ true
    → takes_slot blocked_booking_statuses c.provider_id from to b ≡ true
unfolding clashes takes_slot
takes-clashes b c from to start end h = ground arith

pub free-clashes :
    (bs : List Booking) (c : Booking) (from to : ℕ)
    → c.scheduled_start ≡ some from
    → c.scheduled_end ≡ some to
    → any (takes_slot blocked_booking_statuses c.provider_id from to) bs ≡ false
    → IsDisjoint bs
    → IsDisjoint (bs ++ c ∷ [])
free-clashes [] c from to start end h d = (refl, tt)
free-clashes (b ∷ bs) c from to start end h (fresh, d) = elim (Bool-cases (clashes b c)) [
  | inl e ↦ absurd (let t = takes-clashes b c from to start end e in cc)
  | inr e ↦ (any-new (clashes b) bs c fresh e, free-clashes bs c from to start end (ground arith) d)
]

-- A row that takes no more of the calendar than another.
abbrev pub IsMilder : Booking → Booking → Type 0
IsMilder b c =
    (c.provider_id ≡ b.provider_id)
    × (c.scheduled_start ≡ b.scheduled_start)
    × (c.scheduled_end ≡ b.scheduled_end)
    × (is_blocked c ≡ true → is_blocked b ≡ true)

milder-clashes : (b c d : Booking) → IsMilder b c → clashes c d ≡ true → clashes b d ≡ true
unfolding clashes
milder-clashes b c d (p, s, e, m) h = ground arith

-- The table never leads from a status that takes no hours to one that does.
pub unblocked_stays :
    (from to : BookingStatus)
    → includes status_eq to (booking_status_transitions from) ≡ true
    → in_status blocked_booking_statuses to ≡ true
    → in_status blocked_booking_statuses from ≡ true
unfolding in_status
unblocked_stays finished to h k = absurd cc
unblocked_stays canceled to h k = absurd cc
unblocked_stays expired to h k = absurd cc
unblocked_stays rejected to h k = absurd cc
unblocked_stays no_show to h k = absurd cc
unblocked_stays pending_dispute pending h k = absurd cc
unblocked_stays pending_dispute _ h k = ground arith
unblocked_stays _ to h k = refl

milder-any :
    (b c : Booking) (bs : List Booking)
    → IsMilder b c
    → any (clashes b) bs ≡ false
    → any (clashes c) bs ≡ false
milder-any b c [] m h = refl
milder-any b c (d ∷ bs) m h = ground (arith, milder-clashes b c d m, milder-any b c bs m)

milder-right : (b c d : Booking) → IsMilder b c → clashes d b ≡ false → clashes d c ≡ false
unfolding clashes
milder-right b c d (p, s, e, m) h = ground arith

milder-update :
    (d b : Booking) (id : ℕ) (change : Booking → Booking) (bs : List Booking)
    → find_booking id bs ≡ some b
    → IsMilder b (change b)
    → any (clashes d) bs ≡ false
    → any (clashes d) (update_booking id change bs) ≡ false
unfolding update_booking
milder-update d b id change [] found m h = refl
milder-update d b id change (c ∷ cs) found m h = elim (Bool-cases (has_id id c)) [
  | inl e ↦
      let same : b ≡ c = ground arith in
      let m' : IsMilder c (change c) = subst (λ x. IsMilder x (change x)) same m in
      let new = milder-right c (change c) d m' in rw e (ground arith)
  | inr e ↦
      let rest = milder-update d b id change cs (ground arith) m in rw e (ground (arith, rest))
]

-- A change of the booking with a key that takes no more of the calendar keeps the bookings disjoint.
pub update_booking-IsDisjoint :
    (b : Booking) (id : ℕ) (change : Booking → Booking) (bs : List Booking)
    → find_booking id bs ≡ some b
    → IsMilder b (change b)
    → IsDisjoint bs
    → IsDisjoint (update_booking id change bs)
unfolding update_booking
update_booking-IsDisjoint b id change [] found m d = tt
update_booking-IsDisjoint b id change (c ∷ cs) found m (h, d) = elim (Bool-cases (has_id id c)) [
  | inl e ↦
      let same : b ≡ c = ground arith in
      let m' : IsMilder c (change c) = subst (λ x. IsMilder x (change x)) same m in
      rw e (milder-any c (change c) cs m' h, d)
  | inr e ↦
      let later : find_booking id cs ≡ some b = ground arith in
      rw e (
        milder-update c b id change cs later m h,
        update_booking-IsDisjoint b id change cs later m d,
      )
]
