-- ===== src/Bookings/Rows/Sweep.antt =====
-- The jobs over bookings read the rows that pass a test and then update them one by one, by their
-- key; while no two rows share a key, this is one pass over the table.
use limpeja_backend.Common.{
  ℕ, ◌≡◌, ◌≢◌, refl, sym, ap, ◌∙◌, Bool, false, List, [], ◌∷◌, map, inl, inr, Bool-cases, arith,
  if◌then◌else◌,
}
use limpeja_backend.Common.Lists.{All, filter}
use limpeja_backend.Bookings.Rows.{Booking, has_id, update_booking}
use limpeja_backend.Bookings.Rows.Laws.{KeepsId}

-- No two rows have the same key.
abbrev pub IsKeyed : List Booking → Type 0
IsKeyed [] = Unit
IsKeyed (b ∷ bs) = All (λ c. c.id ≢ b.id) bs × IsKeyed bs

-- One update per row that was read; `change` is given that row and the stored one.
unfoldable pub sweep : (Booking → Booking → Booking) → List Booking → List Booking → List Booking
sweep change [] xs = xs
sweep change (b ∷ bs) xs = sweep change bs (update_booking b.id (change b) xs)

sweep-skip :
    (change : Booking → Booking → Booking) (c : Booking) (bs xs : List Booking)
    → All (λ b. b.id ≢ c.id) bs
    → sweep change bs (c ∷ xs) ≡ c ∷ sweep change bs xs
unfolding sweep update_booking
sweep-skip change c [] xs h = refl
sweep-skip change c (b ∷ bs) xs (n, h) =
    let other : has_id b.id c ≡ false = ground arith in
    simp other (sweep-skip change c bs (update_booking b.id (change b) xs) h)

All-filter-id :
    (test : Booking → Bool) (id : ℕ) (bs : List Booking)
    → All (λ b. b.id ≢ id) bs
    → All (λ b. b.id ≢ id) (filter test bs)
All-filter-id test id [] h = tt
All-filter-id test id (b ∷ bs) (n, h) = elim (Bool-cases (test b)) [
  | inl e ↦ rw e (n, All-filter-id test id bs h)
  | inr e ↦ rw e (All-filter-id test id bs h)
]

update_booking-head :
    (change : Booking → Booking) (c : Booking) (cs : List Booking)
    → update_booking c.id change (c ∷ cs) ≡ change c ∷ cs
unfolding update_booking
update_booking-head change c cs = ground arith

-- The updates of all rows that pass a test, done one by one, change each row once.
pub sweep-filter :
    (change : Booking → Booking → Booking) (test : Booking → Bool) (bs : List Booking)
    → ((b : Booking) → KeepsId (change b))
    → IsKeyed bs
    → sweep change (filter test bs) bs ≡ map (λ b. if test b then change b b else b) bs
unfolding sweep update_booking
sweep-filter change test [] k d = refl
sweep-filter change test (c ∷ cs) k (n, d) =
    let ih = sweep-filter change test cs k d in
    let others = All-filter-id test c.id cs n in
    elim (Bool-cases (test c)) [
      | inl e ↦
          let same : (change c c).id ≡ c.id = k c c in
          let kept : All (λ b. b.id ≢ (change c c).id) (filter test cs) = rw same others in
          simp e (
            ap (sweep change (filter test cs)) (update_booking-head (change c) c cs)
            ∙ sweep-skip change (change c c) (filter test cs) cs kept
            ∙ ap (λ z. change c c ∷ z) ih)
      | inr e ↦ simp e (sweep-skip change c (filter test cs) cs others ∙ ap (λ z. c ∷ z) ih)
    ]

IsKeyed-other :
    (id key : ℕ) (change : Booking → Booking) (bs : List Booking)
    → KeepsId change
    → All (λ c. c.id ≢ id) bs
    → All (λ c. c.id ≢ id) (update_booking key change bs)
unfolding update_booking
IsKeyed-other id key change [] k h = tt
IsKeyed-other id key change (b ∷ bs) k (n, h) = elim (Bool-cases (has_id key b)) [
  | inl e ↦ rw e (λ z. n (sym (k b) ∙ z), h)
  | inr e ↦ rw e (n, IsKeyed-other id key change bs k h)
]

-- An update that leaves the key leaves the keys distinct.
pub update_booking-IsKeyed :
    (key : ℕ) (change : Booking → Booking) (bs : List Booking)
    → KeepsId change
    → IsKeyed bs
    → IsKeyed (update_booking key change bs)
unfolding update_booking
update_booking-IsKeyed key change [] k d = tt
update_booking-IsKeyed key change (b ∷ bs) k (n, d) = elim (Bool-cases (has_id key b)) [
  | inl e ↦ rw e ((rw (k b) n, d))
  | inr e ↦ rw e (IsKeyed-other b.id key change bs k n, update_booking-IsKeyed key change bs k d)
]

All-map-id :
    (f : Booking → Booking) (id : ℕ) (bs : List Booking)
    → KeepsId f
    → All (λ b. b.id ≢ id) bs
    → All (λ b. b.id ≢ id) (map f bs)
All-map-id f id [] k h = tt
All-map-id f id (b ∷ bs) k (n, h) = (λ z. n (sym (k b) ∙ z), All-map-id f id bs k h)

-- So does a change of every row.
pub map-IsKeyed :
    (f : Booking → Booking) (bs : List Booking) → KeepsId f → IsKeyed bs → IsKeyed (map f bs)
map-IsKeyed f [] k d = tt
map-IsKeyed f (b ∷ bs) k (n, d) = (rw (k b) (All-map-id f b.id bs k n), map-IsKeyed f bs k d)
