-- ===== src/Payouts/Decision.antt =====
-- `approveWithdrawal` and `rejectWithdrawal` of payments/payments.service.ts, by which an administrator
-- decides about a payout. They write its row and nothing else; an `update` of a row that is missing
-- throws.
pub mod Laws
use limpeja_backend.Common.{
  ℕ, Bool, true, false, ◌==◌, Option, none, some, List, [], ◌∷◌, ◌++◌, if◌then◌else◌,
}
use limpeja_backend.Common.Lists.{find}
use limpeja_backend.Common.Outcome.{Outcome, ok, err, ◌>>=◌, or_throw}
use limpeja_backend.Payouts.{
  PayoutStatus, paid, failed, Payout, Store, PayoutError, payout_not_found, find_payout,
  update_payout,
}

abbrev pub decided : ℕ → PayoutStatus → Payout → Payout
decided now status p = record p { status = status; processed_at = some now }

-- `payout.update`
unfoldable pub decide : PayoutStatus → Store → ℕ → ℕ → Outcome PayoutError Store
decide status s now id = do
  p ← or_throw (find_payout id s.payouts) payout_not_found
  ok (record s { payouts = update_payout id (decided now status) s.payouts })

abbrev pub approve_withdrawal : Store → ℕ → ℕ → Outcome PayoutError Store
approve_withdrawal s now id = decide paid s now id

abbrev pub reject_withdrawal : Store → ℕ → ℕ → Outcome PayoutError Store
reject_withdrawal s now id = decide failed s now id
