-- ===== src/Payouts.antt =====
-- payouts/payouts.service.ts: withdrawals of the providers' earnings, the ledger that they are
-- booked in, and the gateway that pays them out. This module holds the rows of the database that
-- the service reads and writes, and its configuration.
--
-- Identifiers are numbers, since they are only compared. Times are milliseconds. Money in the
-- ledger is in cents, as the columns `Decimal(14, 2)` store it. A Decimal in memory is a number
-- of units of 10⁻⁴ cents, and a fee rate a number of 10⁻⁴, so that their product is exact in
-- atoms of 10⁻⁸ cents.
pub mod Ledger
pub mod Gateway
pub mod Update
pub mod Webhook
pub mod Decision
pub mod Withdrawal
pub mod Hold
mod Tests
use mathlib.Core.Option
use limpeja_backend.Common.{
  ℕ, ◌≡◌, arith, Bool, Option, none, some, List, [], ◌∷◌, ◌==◌, if◌then◌else◌,
}
use limpeja_backend.Common.Int.{ℤ}
use limpeja_backend.Common.Text.{Text}

-- The enum `PayoutStatus`.
pub data PayoutStatus : Type 0 where
  pending processing paid failed canceled : PayoutStatus

-- The enum `LedgerEntryType`.
pub data LedgerEntryType : Type 0 where
  earning adjustment withdrawal fee refund hold release : LedgerEntryType

-- The enum `DisputeStatus`.
pub data DisputeStatus : Type 0 where
  opened in_review resolved rejected : DisputeStatus

-- The texts that name a transfer: one that the gateway chose, and the two that the service makes
-- up from the time and the payout, `gw_…` and `manual_…`.
pub data TxnId : Type 0 where
  psp : ℕ → TxnId
  gw manual : ℕ → ℕ → TxnId

pub record Payout : Type 0 where
  pub id : ℕ
  pub user_id : ℕ
  pub amount : ℕ
  pub status : PayoutStatus
  pub gateway_txn_id : Option TxnId
  pub idempotency_key : ℕ
  pub requested_at : ℕ
  pub processed_at : Option ℕ

pub record LedgerEntry : Type 0 where
  pub id : ℕ
  pub user_id : ℕ
  pub booking_id : Option ℕ
  pub amount : ℤ
  pub type : LedgerEntryType
  pub created_at : ℕ

pub record Provider : Type 0 where
  pub user_id : ℕ
  pub kyc_approved : Bool
  pub pix_key : Text

-- The notifications that the service sends, by their type.
pub data Notice : Type 0 where
  withdrawal_requested withdrawal_paid withdrawal_failed withdrawal_status : ℕ → Notice

-- `gatewayFailureCount` and `gatewayPauseUntil`, with the state of the queue `payouts`.
pub record Breaker : Type 0 where
  pub failure_count : ℕ
  pub pause_until : ℕ
  pub queue_paused : Bool

pub record Store : Type 0 where
  pub payouts : List Payout
  pub ledger : List LedgerEntry
  pub providers : List Provider
  pub dispute_of : ℕ → Option DisputeStatus
  pub replays : List ℕ
  pub jobs : List ℕ
  pub outbox : List Notice
  pub breaker : Breaker
  pub next_id : ℕ

-- What the constructor reads from the environment.
pub record Config : Type 0 where
  pub min_withdrawal : ℕ
  pub max_withdrawal : Option ℕ
  pub daily_limit : Option ℕ
  pub daily_count_max : ℕ
  pub settle_window_days : ℕ
  pub settle_window_hours : ℕ
  pub withdrawal_fixed_fee : ℕ
  pub withdrawal_percent_fee : ℕ
  pub has_psp_token : Bool
  pub is_production : Bool

-- The exceptions of the service.
pub data PayoutError : Type 0 where
  missing_idempotency_key psp_token_missing lock_busy provider_not_found kyc_not_approved :
      PayoutError
  below_minimum above_maximum daily_limit_exceeded daily_count_reached : PayoutError
  missing_pix_key insufficient_balance gateway_paused payout_not_found : PayoutError
  already_paid missing_event_id missing_payload txn_mismatch : PayoutError
  -- the unique column `gatewayTxnId`, and the answer of the payments service
  txn_taken order_failed : PayoutError

-- `findUnique` and `update` on the payouts, by their primary key.
unfoldable pub find_payout : ℕ → List Payout → Option Payout
find_payout id [] = none
find_payout id (p ∷ ps) = if p.id == id then some p else find_payout id ps

unfoldable pub update_payout : ℕ → (Payout → Payout) → List Payout → List Payout
update_payout id change [] = []
update_payout id change (p ∷ ps) =
    let rest = update_payout id change ps in if p.id == id then change p ∷ rest else p ∷ rest

-- A row that is read after an update by key.
pub find-update :
    (id key : ℕ) (change : Payout → Payout) (ps : List Payout)
    → ((p : Payout) → (change p).id ≡ p.id)
    → find_payout id (update_payout key change ps)
      ≡ (if id == key then Option.map change (find_payout id ps) else find_payout id ps)
unfolding find_payout update_payout
find-update id key change [] h = ground arith
find-update id key change (p ∷ ps) h = ground (arith, h p, find-update id key change ps h)

pub find_payout-id :
    (id : ℕ) (ps : List Payout) (p : Payout) → find_payout id ps ≡ some p → p.id ≡ id
unfolding find_payout
find_payout-id id [] p h = cc
find_payout-id id (q ∷ ps) p h = ground (arith, find_payout-id id ps p)
