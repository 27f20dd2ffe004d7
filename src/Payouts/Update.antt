-- ===== src/Payouts/Update.antt =====
-- How a payout changes its status: `applyGatewayUpdate`, `processPayout` and the three decisions of
-- an administrator. A handler that throws inside its transaction leaves the store as it was.
-- `applyGatewayUpdate` normalizes the status that it is given; here it is given a status, whose
-- name normalizes to itself.
pub mod Laws
use limpeja_backend.Common.{
  ℕ, ◌+◌, Bool, true, false, not, ◌&&◌, ◌||◌, Option, none, some, List, [], ◌∷◌, ◌++◌, ◌==◌,
  if◌then◌else◌,
}
use limpeja_backend.Common.Int.{pos}
use limpeja_backend.Common.Lists.{any}
use limpeja_backend.Common.Outcome.{Outcome, ok, err, ◌>>=◌, ◌>>◌, throw_if, or_throw}
use limpeja_backend.Payouts.{
  PayoutStatus, pending, processing, paid, failed, canceled, LedgerEntryType, release, TxnId, psp,
  gw, manual, Payout, LedgerEntry, Notice, withdrawal_paid, withdrawal_failed, withdrawal_status,
  Store, Config, PayoutError, payout_not_found, already_paid, txn_taken, find_payout, update_payout,
}

abbrev pub is_paid : PayoutStatus → Bool
is_paid paid = true
is_paid _ = false

abbrev pub is_pending : PayoutStatus → Bool
is_pending pending = true
is_pending _ = false

-- The two statuses that give the money back.
abbrev pub is_reversal : PayoutStatus → Bool
is_reversal failed = true
is_reversal canceled = true
is_reversal _ = false

-- `a ?? b`, and `a || b` on texts that may be missing.
abbrev pub or_txn : Option TxnId → Option TxnId → Option TxnId
or_txn (some t) other = some t
or_txn none other = other

abbrev pub txn_eq : TxnId → TxnId → Bool
txn_eq (psp a) (psp b) = a == b
txn_eq (gw t a) (gw u b) = t == u && a == b
txn_eq (manual t a) (manual u b) = t == u && a == b
txn_eq _ _ = false

abbrev pub holds_txn : TxnId → Option TxnId → Bool
holds_txn t none = false
holds_txn t (some u) = txn_eq u t

-- A payout without a transaction id is to be given one that a row has. The column is unique
-- (`gatewayTxnId String? @unique`), so the write of it throws.
unfoldable pub is_txn_taken : List Payout → Option TxnId → Option TxnId → Bool
is_txn_taken ps none (some t) = any (λ q. holds_txn t q.gateway_txn_id) ps
is_txn_taken ps _ _ = false

-- `updateData`: a transaction id is set only where there is none.
abbrev pub updated : ℕ → PayoutStatus → Option TxnId → Payout → Payout
updated now target txn p = record p {
  status = target;
  processed_at = some now;
  gateway_txn_id = or_txn p.gateway_txn_id txn;
}

-- The entry that a failed or canceled payout adds to the ledger.
abbrev pub rollback_entry : ℕ → ℕ → Payout → LedgerEntry
rollback_entry id now p = record {
  id = id;
  user_id = p.user_id;
  booking_id = none;
  amount = pos p.amount;
  type = release;
  created_at = now;
}

abbrev pub status_notice : PayoutStatus → ℕ → Notice
status_notice paid user = withdrawal_paid user
status_notice failed user = withdrawal_failed user
status_notice canceled user = withdrawal_failed user
status_notice _ user = withdrawal_status user

abbrev pub apply_to : Store → ℕ → PayoutStatus → Option TxnId → Payout → Store
apply_to s now target txn p = record s {
  payouts = update_payout p.id (updated now target txn) s.payouts;
  ledger = if is_reversal target then s.ledger ++ rollback_entry s.next_id now p ∷ [] else s.ledger;
  next_id = if is_reversal target then s.next_id + 1 else s.next_id;
  outbox = s.outbox ++ status_notice target p.user_id ∷ [];
}

-- `applyGatewayUpdate`
unfoldable pub apply_gateway_update :
    Store → ℕ → ℕ → PayoutStatus → Option TxnId → Outcome PayoutError Store
apply_gateway_update s now id target txn = do
  p ← or_throw (find_payout id s.payouts) payout_not_found
  throw_if (is_txn_taken s.payouts p.gateway_txn_id txn) txn_taken
  ok (apply_to s now target txn p)

abbrev pub mark_processing : TxnId → Payout → Payout
mark_processing txn p = record p { status = processing; gateway_txn_id = some txn }

abbrev pub txn_or : Option TxnId → TxnId → TxnId
txn_or (some t) other = t
txn_or none other = other

abbrev process_found : Config → Store → ℕ → Payout → Outcome PayoutError Store
process_found c s now p =
    let txn = txn_or p.gateway_txn_id (gw now p.id) in
    let marked = record s { payouts = update_payout p.id (mark_processing txn) s.payouts } in
    if not (is_pending p.status)
    then ok s
    else (if not c.has_psp_token && c.is_production then ok s else (do
      throw_if (is_txn_taken s.payouts p.gateway_txn_id (some txn)) txn_taken
      if not c.has_psp_token
          then apply_gateway_update marked now p.id paid (some txn)
          else ok marked))

-- `processPayout`: a payout that is missing or not pending is left alone; without a gateway token
-- the payout counts as paid, but never in production.
unfoldable pub process_payout : Config → Store → ℕ → ℕ → Outcome PayoutError Store
unfolding apply_gateway_update
process_payout c s now id = elim (find_payout id s.payouts) [
  | none ↦ ok s
  | some p ↦ process_found c s now p
]

-- The body that an administrator sends.
pub record AdminInput : Type 0 where
  pub gateway_txn_id : Option TxnId
  pub has_note : Bool
  pub has_confirmed_by : Bool

-- `input?.gatewayTxnId || payout.gatewayTxnId || manual_…`
abbrev pub admin_txn : AdminInput → ℕ → Payout → TxnId
admin_txn input now p = txn_or (or_txn input.gateway_txn_id p.gateway_txn_id) (manual now p.id)

-- `notification.create`, whose failure is swallowed.
abbrev pub notify_if : Bool → Notice → Store → Store
notify_if true n s = record s { outbox = s.outbox ++ n ∷ [] }
notify_if false n s = s

-- `adminConfirmWithdrawal`
unfoldable pub admin_confirm_withdrawal : Store → ℕ → ℕ → AdminInput → Outcome PayoutError Store
unfolding apply_gateway_update
admin_confirm_withdrawal s now id input = do
  p ← or_throw (find_payout id s.payouts) payout_not_found
  if is_paid p.status then ok s else (do
    t ← apply_gateway_update s now id paid (some (admin_txn input now p))
    ok (notify_if (input.has_note || input.has_confirmed_by) (withdrawal_paid p.user_id) t))

-- `adminFailWithdrawal` and `adminCancelWithdrawal` differ in the status that they set.
unfoldable pub admin_reverse_withdrawal :
    PayoutStatus → Store → ℕ → ℕ → AdminInput → Outcome PayoutError Store
unfolding apply_gateway_update
admin_reverse_withdrawal target s now id input = do
  p ← or_throw (find_payout id s.payouts) payout_not_found
  throw_if (is_paid p.status) already_paid
  t ← apply_gateway_update s now id target (some (admin_txn input now p))
  ok (notify_if input.has_note (withdrawal_failed p.user_id) t)

unfoldable pub admin_fail_withdrawal : Store → ℕ → ℕ → AdminInput → Outcome PayoutError Store
unfolding admin_reverse_withdrawal
admin_fail_withdrawal = admin_reverse_withdrawal failed

unfoldable pub admin_cancel_withdrawal : Store → ℕ → ℕ → AdminInput → Outcome PayoutError Store
unfolding admin_reverse_withdrawal
admin_cancel_withdrawal = admin_reverse_withdrawal canceled
