-- ===== src/Bookings/Dispute.antt =====
-- `resolveDispute` of bookings/bookings.service.ts, with the ledger of the payouts. Its
-- transaction writes all or nothing; the notices that follow can only fail into the log. A refund
-- is in atoms of 10⁻⁸ cents, and the column rounds it as `Rounding` says.
pub mod Laws
pub mod Credit
use limpeja_backend.Common.{
  ℕ, ◌+◌, ◌*◌, Bool, true, false, not, ◌&&◌, ◌==◌, Option, none, some, List, [], ◌∷◌, ◌++◌, ltb,
  if◌then◌else◌,
}
use limpeja_backend.Common.Int.{ℤ, pos, ◌-ℤ◌}
use limpeja_backend.Common.Lists.{any}
use limpeja_backend.Common.Outcome.{Outcome, ok, err, ◌>>=◌, ◌>>◌, throw_if, or_throw}
use limpeja_backend.Bookings.Status.{BookingStatus, finished, pending_dispute, status_eq}
use limpeja_backend.Bookings.Rows.{
  Booking, Store, BookingError, not_found, not_in_dispute, find_booking, update_booking,
  assert_valid_transition,
}
use limpeja_backend.Payouts.{
  LedgerEntryType, earning, fee, refund, LedgerEntry, Store as PayoutStore,
}
use limpeja_backend.Payouts.Withdrawal.{Rounding}

-- A row of `Transaction`, as a refund writes it.
pub record RefundRow : Type 0 where
  pub provider_id : ℕ
  pub booking_id : ℕ
  pub amount : ℤ

pub record DisputeStore : Type 0 where
  pub bookings : Store
  pub payouts : PayoutStore
  pub transactions : List RefundRow

abbrev pub is_type : LedgerEntryType → LedgerEntryType → Bool
is_type earning earning = true
is_type fee fee = true
is_type _ _ = false

abbrev pub of_booking : ℕ → Option ℕ → Bool
of_booking id none = false
of_booking id (some b) = b == id

-- `findFirst({ where: { bookingId, type } })`, asked for an EARNING or a FEE.
unfoldable pub has_entry : ℕ → LedgerEntryType → List LedgerEntry → Bool
has_entry id type es = any (λ e. of_booking id e.booking_id && is_type type e.type) es

-- A Decimal of so many atoms in a cent: the share of the price that COMMISSION_RATE leaves to the
-- platform, and the rest.
abbrev pub fee_atoms : ℕ → ℕ
fee_atoms price = price * 15000000

abbrev pub net_atoms : ℕ → ℕ
net_atoms price = price * 85000000

abbrev pub add_entry : ℕ → Booking → ℤ → LedgerEntryType → PayoutStore → PayoutStore
add_entry now b amount type p = record p {
  ledger =
      p.ledger
      ++ record {
        id = p.next_id;
        user_id = b.provider_user;
        booking_id = some b.id;
        amount = amount;
        type = type;
        created_at = now;
      }
        ∷ [];
  next_id = p.next_id + 1;
}

module _ (db : Rounding) where
  open db use {to_cents}

  abbrev pub negated : ℕ → ℤ
  negated atoms = pos 0 -ℤ pos (to_cents atoms)

  -- The refund, if there is one.
  unfoldable pub book_refund : ℕ → Booking → Option ℕ → DisputeStore → DisputeStore
  book_refund now b none s = s
  book_refund now b (some atoms) s =
      if ltb 0 atoms
      then (record s {
        payouts = add_entry now b (negated atoms) refund s.payouts;
        transactions =
            record { provider_id = b.provider_id; booking_id = b.id; amount = negated atoms }
            ∷ s.transactions;
      })
      else s

  -- The earning of the provider, unless one is booked.
  unfoldable pub book_earning : ℕ → Booking → PayoutStore → PayoutStore
  book_earning now b p =
      if not (has_entry b.id earning p.ledger) && ltb 0 (net_atoms b.total_price)
      then add_entry now b (pos (to_cents (net_atoms b.total_price))) earning p
      else p

  -- The fee, unless one is booked.
  unfoldable pub book_fee : ℕ → Booking → PayoutStore → PayoutStore
  book_fee now b p =
      if not (has_entry b.id fee p.ledger) && ltb 0 (fee_atoms b.total_price)
      then add_entry now b (negated (fee_atoms b.total_price)) fee p
      else p

  abbrev pub book_result : ℕ → Booking → BookingStatus → DisputeStore → DisputeStore
  book_result now b final s =
      if status_eq final finished
      then (record s { payouts = book_fee now b (book_earning now b s.payouts) })
      else s

  abbrev pub set_status : ℕ → BookingStatus → DisputeStore → DisputeStore
  set_status id final s = record s {
    bookings = record s.bookings {
      bookings = update_booking id (λ r. record r { status = final }) s.bookings.bookings;
    };
  }

  abbrev pub or_finished : Option BookingStatus → BookingStatus
  or_finished (some new) = new
  or_finished none = finished

  -- `resolveDispute`
  unfoldable pub resolve_dispute :
      DisputeStore → ℕ → ℕ → Option ℕ → Option BookingStatus → Outcome BookingError DisputeStore
  resolve_dispute s now id amount new = do
    b ← or_throw (find_booking id s.bookings.bookings) not_found
    throw_if (not (status_eq b.status pending_dispute)) not_in_dispute
    assert_valid_transition b.status (or_finished new)
    ok (
        set_status id (or_finished new)
          (book_result now b (or_finished new) (book_refund now b amount s)))
