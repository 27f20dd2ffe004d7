-- ===== src/Availability/Laws.antt =====
-- When the slots of a provider do not overlap, what keeps them so, and what becomes of slots that do.
use limpeja_backend.Common.{
  ℕ, ◌≡◌, refl, Bool, true, false, not, ◌&&◌, ◌==◌, Option, none, some, List, [], ◌∷◌, ◌++◌, arith,
  inl, inr, Bool-cases, subst, if◌then◌else◌,
}
use limpeja_backend.Common.Lists.{any-new, any-filter, any, filter, includes}
use limpeja_backend.Common.Outcome.{ok, err, >>=-ok, throw_if-ok, Outcome-cases}
use limpeja_backend.Availability.{
  delete_availability, Slot, UpdateAvailabilityDto, ScheduledBooking, AvailabilityError, is_row,
  moved_slot, new_slot, is_same_slot, share_minutes, overlaps, update_slot, write_slot, update_one,
  update_all, future_bookings, update_availability, booking_conflict, slot_conflict, slot_exists,
  slot_not_found, check_times, starts_in, is_removal,
}

-- Two rows of one provider share minutes of a day.
unfoldable pub clashes : Slot → Slot → Bool
clashes a b =
    not (a.id == b.id)
    && (a.provider_id == b.provider_id
        && (a.day_of_week == b.day_of_week
            && share_minutes a.start_time a.end_time b.start_time b.end_time))

-- No two slots clash.
abbrev pub HasNoOverlap : List Slot → Type 0
HasNoOverlap [] = Unit
HasNoOverlap (s ∷ ss) = (any (clashes s) ss ≡ false) × HasNoOverlap ss

abbrev moved_row : ℕ → ℕ → UpdateAvailabilityDto → Slot → Slot
moved_row id provider d s = if is_row id provider s then moved_slot d s else s

module _ (provider id : ℕ) (d : UpdateAvailabilityDto) (named : d.id ≡ some id) where
  moved-clear :
      (s t : Slot)
      → is_row id provider s ≡ true
      → overlaps provider d t ≡ false
      → (clashes (moved_slot d s) t ≡ false) × (clashes t (moved_slot d s) ≡ false)
  unfolding clashes overlaps
  moved-clear s t row h = ground arith

  both-clear :
      (s t : Slot)
      → is_row id provider s ≡ true
      → is_row id provider t ≡ true
      → clashes (moved_slot d s) (moved_slot d t) ≡ false
  unfolding clashes
  both-clear s t e f = ground arith

  moved_row-clear :
      (s t : Slot)
      → overlaps provider d s ≡ false
      → overlaps provider d t ≡ false
      → clashes s t ≡ false
      → clashes (moved_row id provider d s) (moved_row id provider d t) ≡ false
  moved_row-clear s t hs ht h = elim (Bool-cases (is_row id provider s)) [
    | inl e ↦ elim (Bool-cases (is_row id provider t)) [
      | inl f ↦ rw e (rw f (both-clear s t e f))
      | inr f ↦ rw e (rw f (moved-clear s t e ht).0)
    ]
    | inr e ↦ elim (Bool-cases (is_row id provider t)) [
      | inl f ↦ rw e (rw f (moved-clear t s f hs).1)
      | inr f ↦ rw e (rw f h)
    ]
  ]

  any-updated :
      (s : Slot) (ss : List Slot)
      → overlaps provider d s ≡ false
      → any (overlaps provider d) ss ≡ false
      → any (clashes s) ss ≡ false
      → any (clashes (moved_row id provider d s)) (update_slot id provider d ss) ≡ false
  unfolding update_slot
  any-updated s [] hs h k = refl
  any-updated s (t ∷ ts) hs h k =
      let one = moved_row-clear s t hs (ground arith) (ground arith) in
      let rest = any-updated s ts hs (ground arith) (ground arith) in rw one rest

  updated-HasNoOverlap :
      (ss : List Slot)
      → any (overlaps provider d) ss ≡ false
      → HasNoOverlap ss
      → HasNoOverlap (update_slot id provider d ss)
  unfolding update_slot
  updated-HasNoOverlap [] h k = tt
  updated-HasNoOverlap (s ∷ ss) h (k, ks) =
      (any-updated s ss (ground arith) (ground arith) k, updated-HasNoOverlap ss (ground arith) ks)

filter-HasNoOverlap :
    (kept : Slot → Bool) (ss : List Slot) → HasNoOverlap ss → HasNoOverlap (filter kept ss)
filter-HasNoOverlap kept [] h = tt
filter-HasNoOverlap kept (s ∷ ss) (h, hs) = elim (Bool-cases (kept s)) [
  | inl e ↦ rw e (any-filter (clashes s) kept ss h, filter-HasNoOverlap kept ss hs)
  | inr e ↦ rw e (filter-HasNoOverlap kept ss hs)
]

new-clear :
    (provider : ℕ) (d : UpdateAvailabilityDto) (s : Slot)
    → d.id ≡ none
    → overlaps provider d s ≡ false
    → clashes s (new_slot provider d) ≡ false
unfolding clashes overlaps
new-clear provider d s e h = ground arith

added-HasNoOverlap :
    (provider : ℕ) (d : UpdateAvailabilityDto) (ss : List Slot)
    → d.id ≡ none
    → any (overlaps provider d) ss ≡ false
    → HasNoOverlap ss
    → HasNoOverlap (ss ++ new_slot provider d ∷ [])
added-HasNoOverlap provider d [] e h k = (refl, tt)
added-HasNoOverlap provider d (s ∷ ss) e h (k, ks) = (
  any-new (clashes s) ss (new_slot provider d) k (new-clear provider d s e (ground arith)),
  added-HasNoOverlap provider d ss e (ground arith) ks,
)

write_slot-HasNoOverlap :
    (provider : ℕ) (d : UpdateAvailabilityDto) (key : Option ℕ) (ss written : List Slot)
    → d.id ≡ key
    → any (overlaps provider d) ss ≡ false
    → write_slot provider d key ss ≡ ok written
    → HasNoOverlap ss
    → HasNoOverlap written
unfolding write_slot
write_slot-HasNoOverlap provider d (some id) ss written e h w k =
    let (_, w1) = throw_if-ok (not (any (is_row id provider) ss)) slot_not_found _ w in
    elim (Bool-cases (is_removal d.is_available)) [
      | inl r ↦
          let same : filter (λ s. not (is_row id provider s)) ss ≡ written = ground arith in
          subst HasNoOverlap same (filter-HasNoOverlap (λ s. not (is_row id provider s)) ss k)
      | inr r ↦
          let same : update_slot id provider d ss ≡ written = ground arith in
          subst HasNoOverlap same (updated-HasNoOverlap provider id d e ss h k)
    ]
write_slot-HasNoOverlap provider d none ss written e h w k =
    let (_, w1) = throw_if-ok (any (is_same_slot provider d) ss) slot_exists _ w in
    let same : ss ++ new_slot provider d ∷ [] ≡ written = cc in
    subst HasNoOverlap same (added-HasNoOverlap provider d ss e h k)

update_one-HasNoOverlap :
    (now provider : ℕ) (future : List ScheduledBooking) (d : UpdateAvailabilityDto)
    (ss written : List Slot)
    → update_one now future provider d ss ≡ ok written
    → HasNoOverlap ss
    → HasNoOverlap written
unfolding update_one
update_one-HasNoOverlap now provider future d ss written w k =
    let (_, _, w1) = >>=-ok (check_times now d) _ w in
    let (_, w2) = throw_if-ok (any (starts_in d) future) booking_conflict _ w1 in
    let (h, w3) = throw_if-ok (any (overlaps provider d) ss) slot_conflict _ w2 in
    write_slot-HasNoOverlap provider d d.id ss written refl h w3 k

update_all-HasNoOverlap :
    (now provider : ℕ) (future : List ScheduledBooking) (ds : List UpdateAvailabilityDto)
    (ss : List Slot)
    → HasNoOverlap ss
    → HasNoOverlap (update_all now future provider ds ss).0
unfolding update_all
update_all-HasNoOverlap now provider future [] ss k = k
update_all-HasNoOverlap now provider future (d ∷ ds) ss k =
    elim (Outcome-cases (update_one now future provider d ss)) [
      | inl (w, e) ↦
          let next = update_one-HasNoOverlap now provider future d ss w e k in
          rw e (update_all-HasNoOverlap now provider future ds w next)
      | inr (x, e) ↦ rw e k
    ]

-- `updateAvailability` leaves the slots without an overlap if they had none, whatever the requests
-- are and wherever an exception ends the loop.
pub update_availability-HasNoOverlap :
    (now : ℕ) (providers : List ℕ) (bookings : List ScheduledBooking) (provider : ℕ)
    (ds : List UpdateAvailabilityDto) (slots : List Slot)
    → HasNoOverlap slots
    → HasNoOverlap (update_availability now providers bookings provider ds slots).0
unfolding update_availability
update_availability-HasNoOverlap now providers bookings provider ds slots k =
    elim (Bool-cases (not (includes (λ a b. a == b) provider providers))) [
      | inl e ↦ rw e k
      | inr e ↦ rw e (update_all-HasNoOverlap now provider _ ds slots k)
    ]

clash-overlaps :
    (provider : ℕ) (d : UpdateAvailabilityDto) (s t : Slot)
    → s.provider_id ≡ provider
    → d.id ≡ some s.id
    → d.day_of_week ≡ s.day_of_week
    → d.start_time ≡ s.start_time
    → d.end_time ≡ s.end_time
    → clashes s t ≡ true
    → overlaps provider d t ≡ true
unfolding clashes overlaps
clash-overlaps provider d s t p e day start end h = ground arith

any-overlaps :
    (provider : ℕ) (d : UpdateAvailabilityDto) (s : Slot) (ss : List Slot)
    → s.provider_id ≡ provider
    → d.id ≡ some s.id
    → d.day_of_week ≡ s.day_of_week
    → d.start_time ≡ s.start_time
    → d.end_time ≡ s.end_time
    → any (clashes s) ss ≡ true
    → any (overlaps provider d) ss ≡ true
any-overlaps provider d s [] p e day start end h = h
any-overlaps provider d s (t ∷ ts) p e day start end h = elim (Bool-cases (clashes s t)) [
  | inl c ↦ rw (clash-overlaps provider d s t p e day start end c) refl
  | inr c ↦ let rest = any-overlaps provider d s ts p e day start end (ground arith) in ground arith
]

update_one-overlap :
    (now provider : ℕ) (future : List ScheduledBooking) (d : UpdateAvailabilityDto) (ss : List Slot)
    → any (overlaps provider d) ss ≡ true
    → (e : AvailabilityError) × (update_one now future provider d ss ≡ err e)
unfolding update_one
update_one-overlap now provider future d ss h = elim (Outcome-cases (check_times now d)) [
  | inl (_, e) ↦ elim (Bool-cases (any (starts_in d) future)) [
    | inl f ↦ (booking_conflict, rw e (rw f refl))
    | inr f ↦ (slot_conflict, rw e (rw f (rw h refl)))
  ]
  | inr (x, e) ↦ (x, rw e refl)
]

-- `deleteAvailability` of a slot that is there removes it, and leaves the slots without an overlap if
-- they had none.
pub delete_availability-HasNoOverlap :
    (id provider : ℕ) (slots written : List Slot)
    → delete_availability id provider slots ≡ ok written
    → HasNoOverlap slots
    → HasNoOverlap written
unfolding delete_availability
delete_availability-HasNoOverlap id provider slots written w k =
    let (_, w1) = throw_if-ok (not (any (is_row id provider) slots)) slot_not_found _ w in
    let same : filter (λ s. not (is_row id provider s)) slots ≡ written = ground arith in
    subst HasNoOverlap same (filter-HasNoOverlap (λ s. not (is_row id provider s)) slots k)

-- A request of `updateAvailability` that names a slot which shares minutes with another of its
-- provider, with the day and the times that the slot has, leaves every row as it was, whether it
-- asks for the removal of the slot or not.
pub overlap_sticks :
    (now : ℕ) (providers : List ℕ) (bookings : List ScheduledBooking) (slots : List Slot) (s : Slot)
    (d : UpdateAvailabilityDto)
    → d.id ≡ some s.id
    → d.day_of_week ≡ s.day_of_week
    → d.start_time ≡ s.start_time
    → d.end_time ≡ s.end_time
    → any (clashes s) slots ≡ true
    → (update_availability now providers bookings s.provider_id (d ∷ []) slots).0 ≡ slots
unfolding update_availability update_all
overlap_sticks now providers bookings slots s d e day start end h =
    let found = any-overlaps s.provider_id d s slots refl e day start end h in
    let future = future_bookings now s.provider_id bookings in
    let (x, stop) = update_one-overlap now s.provider_id future d slots found in
    elim (Bool-cases (not (includes (λ a b. a == b) s.provider_id providers))) [
      | inl f ↦ rw f refl
      | inr f ↦ rw f (rw stop refl)
    ]
