-- ===== src/Payouts/Hold.antt =====
-- `holdBookingForClaim`, and the job that releases a held earning (`ReleaseWorker.handleRelease`
-- of queues/workers/payout.worker.ts). Of several entries created at one moment the first in the
-- ledger counts as the newest; the database leaves that open.
pub mod Laws
use limpeja_backend.Common.{
  ℕ, ◌+◌, ◌/◌, ◌≡◌, Bool, true, false, ◌&&◌, Option, none, some, List, [], ◌∷◌, ◌++◌, ltb, leb,
  ◌==◌, if◌then◌else◌,
}
use limpeja_backend.Common.Lists.{find, filter}
use limpeja_backend.Common.Int.{ℤ, pos, negsuc, ltb_ℤ}
use limpeja_backend.Payouts.{LedgerEntryType, earning, hold, LedgerEntry, Store}

-- The columns of a booking that the handler reads: its price in cents, and the user of its
-- provider, if it has one.
pub record BookingRow : Type 0 where
  pub total_price : Option ℕ
  pub provider_user : Option ℕ

abbrev pub is_hold : LedgerEntryType → Bool
is_hold hold = true
is_hold _ = false

abbrev pub is_earning_or_hold : LedgerEntryType → Bool
is_earning_or_hold earning = true
is_earning_or_hold hold = true
is_earning_or_hold _ = false

abbrev pub of_booking : ℕ → LedgerEntry → Bool
of_booking booking e = elim e.booking_id [ none ↦ false | some b ↦ b == booking ]

-- The `where` of the lookup: a credit of the provider for the booking.
abbrev pub is_claimable : ℕ → ℕ → LedgerEntry → Bool
is_claimable booking user e =
    of_booking booking e && e.user_id == user && ltb_ℤ (pos 0) e.amount && is_earning_or_hold e.type

abbrev newer : LedgerEntry → Option LedgerEntry → LedgerEntry
newer e none = e
newer e (some f) = if ltb e.created_at f.created_at then f else e

-- `orderBy: { createdAt: 'desc' }`, and the first row.
unfoldable pub newest : List LedgerEntry → Option LedgerEntry
newest [] = none
newest (e ∷ es) = some (newer e (newest es))

-- `ledgerEntry.update` by the primary key.
unfoldable pub retype : ℕ → LedgerEntryType → List LedgerEntry → List LedgerEntry
retype id type [] = []
retype id type (e ∷ es) =
    let rest = retype id type es in if e.id == id then record e { type = type } ∷ rest else e ∷ rest

abbrev pub hold_entry : ℕ → ℕ → ℕ → ℕ → ℕ → LedgerEntry
hold_entry id now user booking total = record {
  id = id;
  user_id = user;
  booking_id = some booking;
  amount = pos total;
  type = hold;
  created_at = now;
}

abbrev pub create_hold : Store → ℕ → ℕ → ℕ → Option ℕ → Store
create_hold s now booking user none = s
create_hold s now booking user (some total) = if total == 0 then s else record s {
  ledger = s.ledger ++ hold_entry s.next_id now user booking total ∷ [];
  next_id = s.next_id + 1;
}

abbrev pub hold_found : Store → ℕ → ℕ → ℕ → Option ℕ → Option LedgerEntry → Store
hold_found s now booking user total (some e) =
    if is_hold e.type then s else record s { ledger = retype e.id hold s.ledger }
hold_found s now booking user total none = create_hold s now booking user total

-- `holdBookingForClaim`, given the row of the booking.
unfoldable pub hold_booking_for_claim : Store → ℕ → ℕ → Option BookingRow → Store
hold_booking_for_claim s now booking none = s
hold_booking_for_claim s now booking (some row) = elim row.provider_user [
  | none ↦ s
  | some user ↦
      hold_found s now booking user row.total_price
        (newest (filter (is_claimable booking user) s.ledger))
]

abbrev pub is_held : ℕ → ℕ → LedgerEntry → Bool
is_held booking user e = of_booking booking e && e.user_id == user && is_hold e.type

-- `handleRelease`: the held entry of a booking becomes an earning.
unfoldable pub handle_release : Store → ℕ → ℕ → Store
handle_release s booking user = elim (find (is_held booking user) s.ledger) [
  | none ↦ s
  | some e ↦ record s { ledger = retype e.id earning s.ledger }
]
