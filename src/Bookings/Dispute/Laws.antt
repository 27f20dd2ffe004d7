-- ===== src/Bookings/Dispute/Laws.antt =====
-- What the end of a dispute books: bookings/bookings.service.ts and the ledger of the payouts.
use limpeja_backend.Common.{
  ℕ, ◌+◌, ◌≤◌, ◌≡◌, refl, subst, Bool, false, not, Option, none, some, List, [], ◌∷◌, ◌++◌, arith,
  inl, inr, Bool-cases, ltb, if◌then◌else◌, ◌&&◌, ◌==◌,
}
use limpeja_backend.Common.Int.{pos, ◌+ℤ◌, int_laws}
use limpeja_backend.Common.Outcome.{ok, or_throw, >>=-ok, throw_if-ok}
use limpeja_backend.Bookings.Status.{BookingStatus, finished, pending_dispute, status_eq}
use limpeja_backend.Bookings.Rows.{
  Booking, find_booking, not_found, not_in_dispute, assert_valid_transition,
}
use limpeja_backend.Payouts.{LedgerEntryType, earning, fee, LedgerEntry, Store as PayoutStore}
use limpeja_backend.Payouts.Ledger.{sum_amounts}
use limpeja_backend.Payouts.Withdrawal.{Rounding}
use limpeja_backend.Bookings.Dispute.{
  DisputeStore, is_type, of_booking, has_entry, book_earning, book_fee, resolve_dispute, net_atoms,
  fee_atoms, book_refund, book_result, set_status, or_finished,
}

-- How many entries of a type a booking has.
unfoldable pub count_entries : ℕ → LedgerEntryType → List LedgerEntry → ℕ
count_entries id type [] = 0
count_entries id type (e ∷ es) =
    (if of_booking id e.booking_id && is_type type e.type then 1 else 0) + count_entries id type es

count-append :
    (id : ℕ) (type : LedgerEntryType) (es : List LedgerEntry) (e : LedgerEntry)
    → count_entries id type (es ++ e ∷ [])
      ≡ count_entries id type es
        + (if of_booking id e.booking_id && is_type type e.type then 1 else 0)
unfolding count_entries
count-append id type [] e = omega arith
count-append id type (f ∷ fs) e = rw (count-append id type fs e) (omega arith)

none_counted :
    (id : ℕ) (type : LedgerEntryType) (es : List LedgerEntry)
    → has_entry id type es ≡ false
    → count_entries id type es ≡ 0
unfolding count_entries has_entry
none_counted id type [] h = refl
none_counted id type (e ∷ es) h = ground (arith, none_counted id type es)

pub sum-append :
    (test : LedgerEntry → Bool) (es : List LedgerEntry) (e : LedgerEntry)
    → sum_amounts test (es ++ e ∷ []) ≡ sum_amounts test es +ℤ (if test e then e.amount else pos 0)
unfolding sum_amounts
sum-append test [] e = omega int_laws
sum-append test (f ∷ fs) e = rw (sum-append test fs e) (omega int_laws)

pub has_entry-append :
    (id : ℕ) (type : LedgerEntryType) (es : List LedgerEntry) (e : LedgerEntry)
    → is_type type e.type ≡ false
    → has_entry id type (es ++ e ∷ []) ≡ has_entry id type es
unfolding has_entry
has_entry-append id type [] e h = ground arith
has_entry-append id type (f ∷ fs) e h = ground (arith, has_entry-append id type fs e h)

module _ (db : Rounding) where
  open db use {to_cents, to_cents-exact}

  book_earning-once :
      (now : ℕ) (b : Booking) (p : PayoutStore) (id : ℕ)
      → count_entries id earning p.ledger ≤ 1
      → count_entries id earning (book_earning db now b p).ledger ≤ 1
  unfolding book_earning
  book_earning-once now b p id h = elim (Bool-cases (has_entry b.id earning p.ledger)) [
    | inl e ↦ simp e h
    | inr e ↦
        let empty = none_counted b.id earning p.ledger e in
        elim (Bool-cases (ltb 0 (net_atoms b.total_price))) [
          | inl k ↦
              simp (e, k, count-append)
                (elim (Bool-cases (b.id == id)) [
                  | inl same ↦
                      let key : b.id ≡ id = ground arith in
                      let zero : count_entries id earning p.ledger ≡ 0 =
                        subst (λ k. count_entries k earning p.ledger ≡ 0) key empty in
                      simp (same, zero) (omega arith)
                  | inr other ↦ simp other (omega arith)
                ])
          | inr k ↦ simp (e, k) h
        ]
  ]

  book_fee-earning :
      (now : ℕ) (b : Booking) (p : PayoutStore) (id : ℕ)
      → count_entries id earning (book_fee db now b p).ledger ≡ count_entries id earning p.ledger
  unfolding book_fee
  book_fee-earning now b p id =
      elim (Bool-cases (not (has_entry b.id fee p.ledger) && ltb 0 (fee_atoms b.total_price))) [
        | inl e ↦ simp (e, count-append) (ground arith)
        | inr e ↦ simp e refl
      ]

  book_refund-earning :
      (now : ℕ) (b : Booking) (amount : Option ℕ) (s : DisputeStore) (id : ℕ)
      → count_entries id earning (book_refund db now b amount s).payouts.ledger
        ≡ count_entries id earning s.payouts.ledger
  unfolding book_refund
  book_refund-earning now b none s id = refl
  book_refund-earning now b (some a) s id = elim (Bool-cases (ltb 0 a)) [
    | inl e ↦ simp (e, count-append) (ground arith)
    | inr e ↦ simp e refl
  ]

  book_result-once :
      (now : ℕ) (b : Booking) (final : BookingStatus) (s : DisputeStore) (id : ℕ)
      → count_entries id earning s.payouts.ledger ≤ 1
      → count_entries id earning (book_result db now b final s).payouts.ledger ≤ 1
  book_result-once now b final s id h = elim (Bool-cases (status_eq final finished)) [
    | inl e ↦
        rw (e, book_fee-earning now b (book_earning db now b s.payouts) id)
          (book_earning-once now b s.payouts id h)
    | inr e ↦ rw e h
  ]

  resolve_dispute-ok :
      (s : DisputeStore) (now id : ℕ) (amount : Option ℕ) (new : Option BookingStatus)
      (t : DisputeStore)
      → resolve_dispute db s now id amount new ≡ ok t
      → (b : Booking) × (t
          ≡ set_status db id
              (or_finished db new)
              (book_result db now b (or_finished db new) (book_refund db now b amount s)))
  unfolding resolve_dispute
  resolve_dispute-ok s now id amount new t h =
      let (b, found, checks) =
        >>=-ok (or_throw (find_booking id s.bookings.bookings) not_found) _ h in
      let (fit, more) =
        throw_if-ok (not (status_eq b.status pending_dispute)) not_in_dispute _ checks in
      let (u, allowed, rest) =
        >>=-ok (assert_valid_transition b.status (or_finished db new)) _ more in
      (b, ground arith)

  -- The end of a dispute never books a second earning: a booking with at most one has at most one
  -- afterwards, whatever the resolution.
  pub resolve_dispute-earning :
      (s : DisputeStore) (now id : ℕ) (amount : Option ℕ) (new : Option BookingStatus)
      (t : DisputeStore) (booking : ℕ)
      → resolve_dispute db s now id amount new ≡ ok t
      → count_entries booking earning s.payouts.ledger ≤ 1
      → count_entries booking earning t.payouts.ledger ≤ 1
  unfolding resolve_dispute
  resolve_dispute-earning s now id amount new t booking h few =
      let (b, wrote) = resolve_dispute-ok s now id amount new t h in
      rw wrote (
        book_result-once now b (or_finished db new) (book_refund db now b amount s) booking
          (rw (book_refund-earning now b amount s booking) few))
