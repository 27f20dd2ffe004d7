-- ===== src/Payments/Settlement/Laws.antt =====
-- What a settled payment guarantees: payments/payments.service.ts.
use limpeja_backend.Common.{
  ℕ, ◌+◌, ◌≤◌, ◌≡◌, refl, subst, ◌≢◌, ◌==◌, ℕ_discrete, Bool, true, false, Option, none, some, List,
  [], ◌∷◌, ◌++◌, arith, Bool-cases, Option-cases, inl, inr, if◌then◌else◌,
}
use limpeja_backend.Common.Lists.{find, any, filter, length}
use limpeja_backend.Common.Outcome.{ok}
use limpeja_backend.Payments.{
  PaymentIntent, pending, paid, Booking, Entry, hold, platform_fee, Store, update_intent,
  update_booking,
}
use limpeja_backend.Payments.Machine.{can_transition}
use limpeja_backend.Payments.Settlement.{
  Reference, matches, has_reference, processed, already_paid, is_pending_booking, has_lapsed,
  is_hold_of, payment_entries, book, settle_booking, settle_intent, finalize_pix_payment,
}

abbrev pay : PaymentIntent → PaymentIntent
pay j = record j { status = paid }

abbrev clear : Booking → Booking
clear c = record c { expires_at = none }

find-pay :
    (r : Reference) (id : ℕ) (is : List PaymentIntent) (i : PaymentIntent)
    → find (matches r) is ≡ some i
    → i.id ≡ id
    → find (matches r) (update_intent id pay is) ≡ some (pay i)
unfolding update_intent
find-pay r id [] i h k = absurd cc
find-pay r id (j ∷ js) i h k = elim (Bool-cases (matches r j)) [
  | inl e ↦ ground arith
  | inr e ↦ ground (arith, find-pay r id js i)
]

find-clear :
    (id key : ℕ) (bs : List Booking) (b : Booking)
    → find (λ c. c.id == key) bs ≡ some b
    → b.id ≡ id
    → find (λ c. c.id == key) (update_booking id clear bs) ≡ some (clear b)
unfolding update_booking
find-clear id key [] b h k = absurd cc
find-clear id key (c ∷ cs) b h k = elim (Bool-cases (c.id == key)) [
  | inl e ↦ ground arith
  | inr e ↦ ground (arith, find-clear id key cs b)
]

any-filter :
    (test : Entry → Bool) (es : List Entry) → any test es ≡ false → length (filter test es) ≡ 0
any-filter test [] h = refl
any-filter test (e ∷ es) h = ground (arith, any-filter test es)

filter-append :
    (test : Entry → Bool) (es fs : List Entry)
    → length (filter test (es ++ fs)) ≡ length (filter test es) + length (filter test fs)
filter-append test [] fs = omega arith
filter-append test (e ∷ es) fs = ground (arith, filter-append test es fs)

-- At most one hold of the booking.
abbrev pub HasOneHold : ℕ → Store → Type 0
HasOneHold booking s = length (filter (is_hold_of booking) s.entries) ≤ 1

module _ (to_cents : ℕ → ℕ) where
  -- What `processed` says of the intent and the booking that were found.
  abbrev pub IsSettled : Store → Store → ℕ → Option PaymentIntent → Type 0
  IsSettled s s1 now o =
      (i : PaymentIntent) × (b : Booking) × (user : ℕ) × (o ≡ some i)
      × (i.status ≡ pending)
      × (find (λ c. c.id == i.booking_id) s.bookings ≡ some b)
      × (is_pending_booking b.status ≡ true)
      × (has_lapsed now b.expires_at ≡ false)
      × (b.provider_user_id ≡ some user)
      × (s1 ≡ book to_cents s i b user)

  settle_booking-processed :
      (s s1 : Store) (now : ℕ) (i : PaymentIntent) (o : Option Booking)
      → settle_booking to_cents s now i o ≡ (ok processed, s1)
      → (b : Booking) × (user : ℕ) × (o ≡ some b)
        × (is_pending_booking b.status ≡ true)
        × (has_lapsed now b.expires_at ≡ false)
        × (b.provider_user_id ≡ some user)
        × (s1 ≡ book to_cents s i b user)
  settle_booking-processed s s1 now i none h = absurd (ground arith)
  settle_booking-processed s s1 now i (some b) h = elim (Option-cases b.provider_user_id) [
    | inl e ↦ absurd (ground arith)
    | inr (user, e) ↦ (b, user, refl, ground arith, ground arith, e, ground arith)
  ]

  settle_intent-processed :
      (s s1 : Store) (now : ℕ) (i : PaymentIntent)
      → settle_intent to_cents s now (some i) ≡ (ok processed, s1)
      → (i.status ≡ pending)
        × (settle_booking to_cents s now i (find (λ b. b.id == i.booking_id) s.bookings)
            ≡ (ok processed, s1))
  unfolding can_transition
  settle_intent-processed s s1 now i h = ground arith

  -- What the answer `processed` tells of a call.
  finalize_pix_payment-IsSettled :
      (s s1 : Store) (now : ℕ) (r : Reference)
      → finalize_pix_payment to_cents s now r ≡ (ok processed, s1)
      → (has_reference r ≡ true) × IsSettled s s1 now (find (matches r) s.intents)
  unfolding finalize_pix_payment
  finalize_pix_payment-IsSettled s s1 now r h = elim (Option-cases (find (matches r) s.intents)) [
    | inl e ↦ absurd (ground arith)
    | inr (i, e) ↦
        let (open_status, settled) = settle_intent-processed s s1 now i (ground arith) in
        let (b, user, found, awaits, lapses, provided, stored) =
          settle_booking-processed s s1 now i (find (λ c. c.id == i.booking_id) s.bookings)
            settled in
        (ground arith, (i, b, user, e, open_status, found, awaits, lapses, provided, stored))
  ]

  -- A payment is processed only for a pending intent of a booking that awaits payment, has not
  -- lapsed and has a provider. After it the event finds the same intent, paid; the booking has no
  -- time to lapse and is else the same; and if the booking had no hold, exactly two entries for the
  -- provider are added, the price of the booking, held, and the fee of a tenth, rounded to cents.
  pub finalize_pix_payment-processed :
      (s s1 : Store) (now : ℕ) (r : Reference)
      → finalize_pix_payment to_cents s now r ≡ (ok processed, s1)
      → (i : PaymentIntent) × (b : Booking) × (user : ℕ) × (find (matches r) s.intents ≡ some i)
        × (i.status ≡ pending)
        × (find (λ c. c.id == i.booking_id) s.bookings ≡ some b)
        × (is_pending_booking b.status ≡ true)
        × (has_lapsed now b.expires_at ≡ false)
        × (b.provider_user_id ≡ some user)
        × (find (matches r) s1.intents ≡ some (record i { status = paid }))
        × (find (λ c. c.id == i.booking_id) s1.bookings ≡ some (record b { expires_at = none }))
        × (s1.entries ≡ (
            if any (is_hold_of b.id) s.entries
            then s.entries
            else s.entries
              ++ record { user_id = user; booking_id = b.id; amount = b.total_price; kind = hold }
                ∷ record {
                  user_id = user;
                  booking_id = b.id;
                  amount = to_cents b.total_price;
                  kind = platform_fee;
                }
                ∷ []))
  unfolding book
  finalize_pix_payment-processed s s1 now r h =
      let (_, settled) = finalize_pix_payment-IsSettled s s1 now r h in
      let (i, b, user, e, open_status, found, awaits, lapses, provided, stored) = settled in
      (
        i,
        b,
        user,
        e,
        open_status,
        found,
        awaits,
        lapses,
        provided,
        rw stored (find-pay r i.id s.intents i e refl),
        rw stored (find-clear b.id i.booking_id s.bookings b found refl),
        rw stored refl,
      )

  -- A payment is processed once: after that, the same event, at any time, is answered as already
  -- paid, and the store stays as it is.
  pub finalize_pix_payment-once :
      (s s1 : Store) (now later : ℕ) (r : Reference)
      → finalize_pix_payment to_cents s now r ≡ (ok processed, s1)
      → finalize_pix_payment to_cents s1 later r ≡ (ok already_paid, s1)
  unfolding finalize_pix_payment book
  finalize_pix_payment-once s s1 now later r h =
      let (given, settled) = finalize_pix_payment-IsSettled s s1 now r h in
      let (i, b, user, e, open_status, found, awaits, lapses, provided, stored) = settled in
      let paid_now = find-pay r i.id s.intents i e refl in ground (arith)

  payment_entries-holds :
      (booking : ℕ) (b : Booking) (user : ℕ)
      → (length (filter (is_hold_of booking) (payment_entries to_cents b user)) ≤ 1)
        × (b.id ≢ booking
            → length (filter (is_hold_of booking) (payment_entries to_cents b user)) ≡ 0)
  payment_entries-holds booking b user = (ground arith, λ h. ground arith)

  pub book-HasOneHold :
      (booking : ℕ) (s : Store) (i : PaymentIntent) (b : Booking) (user : ℕ)
      → HasOneHold booking s
      → HasOneHold booking (book to_cents s i b user)
  unfolding book
  book-HasOneHold booking s i b user h = elim (Bool-cases (any (is_hold_of b.id) s.entries)) [
    | inl e ↦ simp e h
    | inr e ↦
        let split =
          filter-append (is_hold_of booking) s.entries (payment_entries to_cents b user) in
        let (few, other) = payment_entries-holds booking b user in
        simp e (elim (ℕ_discrete b.id booking) [
          | yes same ↦
              let none_yet = any-filter (is_hold_of b.id) s.entries e in
              let none_here : length (filter (is_hold_of booking) s.entries) ≡ 0 =
                subst (λ k. length (filter (is_hold_of k) s.entries) ≡ 0) same none_yet in
              omega (arith, split, few, none_here)
          | no distinct ↦ let zero_more = other distinct in omega (arith, split, zero_more, h)
        ])
  ]

  settle_booking-HasOneHold :
      (booking : ℕ) (s : Store) (now : ℕ) (i : PaymentIntent) (o : Option Booking)
      → HasOneHold booking s
      → HasOneHold booking (settle_booking to_cents s now i o).1
  settle_booking-HasOneHold booking s now i none h = h
  settle_booking-HasOneHold booking s now i (some b) h = elim (Option-cases b.provider_user_id) [
    | inl e ↦ ground arith
    | inr (user, e) ↦ ground (arith, book-HasOneHold booking s i b user h)
  ]

  settle_intent-HasOneHold :
      (booking : ℕ) (s : Store) (now : ℕ) (o : Option PaymentIntent)
      → HasOneHold booking s
      → HasOneHold booking (settle_intent to_cents s now o).1
  settle_intent-HasOneHold booking s now none h = h
  settle_intent-HasOneHold booking s now (some i) h =
      let settled =
        settle_booking-HasOneHold booking s now i (find (λ b. b.id == i.booking_id) s.bookings) h in
      ground arith

  -- Where a booking has at most one hold of a positive amount, it still has at most one after any
  -- settlement, whatever its answer and whichever booking it is for.
  pub finalize_pix_payment-HasOneHold :
      (booking : ℕ) (s : Store) (now : ℕ) (r : Reference)
      → HasOneHold booking s
      → HasOneHold booking (finalize_pix_payment to_cents s now r).1
  unfolding finalize_pix_payment
  finalize_pix_payment-HasOneHold booking s now r h =
      let settled = settle_intent-HasOneHold booking s now (find (matches r) s.intents) h in
      ground arith
