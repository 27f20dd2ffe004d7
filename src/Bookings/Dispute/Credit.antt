-- ===== src/Bookings/Dispute/Credit.antt =====
-- What a finished dispute is worth to the provider: bookings/bookings.service.ts and the ledger of
-- the payouts.
use limpeja_backend.Common.{
  ℕ, ◌+◌, ◌*◌, ◌≡◌, refl, ap, true, false, none, some, arith, inl, inr, Bool-cases, ltb,
  if◌then◌else◌, ◌==◌,
}
use limpeja_backend.Common.Int.{pos, ◌+ℤ◌, ◌-ℤ◌, int_laws}
use limpeja_backend.Common.Outcome.{ok}
use limpeja_backend.Bookings.Status.{finished, pending_dispute}
use limpeja_backend.Bookings.Rows.{Booking, find_booking, assert_valid_transition}
use limpeja_backend.Payouts.{earning, fee, Store as PayoutStore}
use limpeja_backend.Payouts.Ledger.{of_user, sum_amounts}
use limpeja_backend.Payouts.Withdrawal.{Rounding}
use limpeja_backend.Bookings.Dispute.{
  DisputeStore, has_entry, book_earning, book_fee, resolve_dispute, net_atoms, fee_atoms,
  book_refund, set_status,
}
use limpeja_backend.Bookings.Dispute.Laws.{sum-append, has_entry-append}

module _ (db : Rounding) where
  open db use {to_cents, to_cents-exact}

  book_fee-sum :
      (now n : ℕ) (b : Booking) (p : PayoutStore)
      → b.total_price ≡ 20 * (n + 1)
      → sum_amounts (of_user b.provider_user) (book_fee db now b p).ledger
        ≡ sum_amounts (of_user b.provider_user) p.ledger
          -ℤ pos (if has_entry b.id fee p.ledger then 0 else 3 * (n + 1))
  unfolding book_fee
  book_fee-sum now n b p price =
      let self : (b.provider_user == b.provider_user) ≡ true = ground arith in
      let some_fee : ltb 0 (fee_atoms b.total_price) ≡ true = ground arith in
      let exact : to_cents (fee_atoms b.total_price) ≡ 3 * (n + 1) =
        rw (price, ← to_cents-exact (3 * (n + 1))) (ap to_cents (omega arith)) in
      elim (Bool-cases (has_entry b.id fee p.ledger)) [
        | inl booked ↦ simp booked (omega int_laws)
        | inr none_booked ↦ simp (none_booked, some_fee, sum-append, self, exact) (omega int_laws)
      ]

  book_earning-sum :
      (now n : ℕ) (b : Booking) (p : PayoutStore)
      → b.total_price ≡ 20 * (n + 1)
      → has_entry b.id earning p.ledger ≡ false
      → (sum_amounts (of_user b.provider_user) (book_earning db now b p).ledger
          ≡ sum_amounts (of_user b.provider_user) p.ledger +ℤ pos (17 * (n + 1)))
        × (has_entry b.id fee (book_earning db now b p).ledger ≡ has_entry b.id fee p.ledger)
  unfolding book_earning
  book_earning-sum now n b p price fresh =
      let self : (b.provider_user == b.provider_user) ≡ true = ground arith in
      let some_net : ltb 0 (net_atoms b.total_price) ≡ true = ground arith in
      let exact : to_cents (net_atoms b.total_price) ≡ 17 * (n + 1) =
        rw (price, ← to_cents-exact (17 * (n + 1))) (ap to_cents (omega arith)) in
      (
        simp (fresh, some_net, sum-append, self, exact) refl,
        simp (fresh, some_net) (has_entry-append b.id fee p.ledger _ refl),
      )

  -- What a dispute that ends with a finished booking adds for its provider, when no earning is
  -- booked, no refund is due and the price is a multiple of twenty cents: the price less the
  -- commission of fifteen hundredths, and, unless a fee is booked, less the commission once more.
  pub resolve_dispute-credit :
      (s : DisputeStore) (now id n : ℕ) (b : Booking)
      → find_booking id s.bookings.bookings ≡ some b
      → b.status ≡ pending_dispute
      → b.total_price ≡ 20 * (n + 1)
      → has_entry b.id earning s.payouts.ledger ≡ false
      → (t : DisputeStore) × (resolve_dispute db s now id none none ≡ ok t)
        × (sum_amounts (of_user b.provider_user) t.payouts.ledger
            ≡ (sum_amounts (of_user b.provider_user) s.payouts.ledger +ℤ pos (17 * (n + 1)))
              -ℤ pos (if has_entry b.id fee s.payouts.ledger then 0 else 3 * (n + 1)))
  unfolding resolve_dispute assert_valid_transition book_refund
  resolve_dispute-credit s now id n b found from price fresh =
      let earned = book_earning db now b s.payouts in
      let (sums, fees) = book_earning-sum now n b s.payouts price fresh in
      (
        set_status db id finished (record s { payouts = book_fee db now b earned }),
        simp (found, from) refl,
        rw (book_fee-sum now n b earned price, sums, fees) refl,
      )
