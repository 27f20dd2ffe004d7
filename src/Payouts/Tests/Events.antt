-- ===== src/Payouts/Tests/Events.antt =====
-- Runs of the payout modules at concrete inputs: updates and events of a payout.
use limpeja_backend.Common.{
  ℕ, ◌≡◌, ◌≢◌, refl, true, false, none, some, [], ◌∷◌, ◌==◌, ◌&&◌, if◌then◌else◌,
}
use limpeja_backend.Common.Int.{pos, ◌+ℤ◌, ◌-ℤ◌}
use limpeja_backend.Common.Text.{codes, is_blank}
use limpeja_backend.Common.Outcome.{ok, err}
use limpeja_backend.Payouts.{
  pending, paid, failed, psp, txn_taken, Payout, Store, Config, payout_not_found, update_payout,
  find_payout,
}
use limpeja_backend.Payouts.Ledger.{compute_balance, sum_amounts}
use limpeja_backend.Payouts.Gateway.{try_acquire_lock, initiate_gateway_transfer}
use limpeja_backend.Payouts.Update.{
  apply_to, AdminInput, updated, or_txn, is_txn_taken, is_reversal, apply_gateway_update,
  admin_fail_withdrawal,
}
use limpeja_backend.Payouts.Withdrawal.{
  withdrawal_fee, request_withdrawal, check_limits, admit, commit,
}
use limpeja_backend.Payouts.Update.Laws.{apply_gateway_update_lem}
use limpeja_backend.Payouts.Decision.{approve_withdrawal}
use limpeja_backend.Payouts.Decision.Laws.{approve_after_failure}
use limpeja_backend.Payouts.Webhook.{Delegate, Payload, handle_payout_event, handle_gateway_webhook}
use limpeja_backend.Payouts.Webhook.Laws.{KeepsPaid, paid_survives_events}
use limpeja_backend.Payouts.Tests.{store, withdrawn, going, withdrawn_find}

abbrev no_note : AdminInput
no_note = record { gateway_txn_id = none; has_note = false; has_confirmed_by = false }

abbrev with_note : AdminInput
with_note = record { gateway_txn_id = none; has_note = true; has_confirmed_by = false }

apply_gateway_update_lem_example :
    (t : Store) × (q : Payout) × (apply_gateway_update withdrawn 90000001 12 failed none ≡ ok t)
    × (find_payout 12 t.payouts ≡ some q)
    × (q.status ≡ failed)
    × (q.processed_at ≡ some 90000001)
    × (q.gateway_txn_id ≡ or_txn going.gateway_txn_id none)
    × (q.idempotency_key ≡ 77)
    × (q.amount ≡ 40000)
    × (q.user_id ≡ 7)
    × ((c : Config) (later user : ℕ)
        → compute_balance c t later user
          ≡ compute_balance c withdrawn later user
            +ℤ (if is_reversal failed && 7 == user then pos 40000 else pos 0))
unfolding is_txn_taken
apply_gateway_update_lem_example =
    apply_gateway_update_lem withdrawn 90000001 12 failed none going withdrawn_find refl

approve_after_failure_example :
    (t : Store) × (u : Store) × (q : Payout) × (apply_gateway_update withdrawn 90000001 12 failed
        none
      ≡ ok t)
    × (approve_withdrawal t 90000002 12 ≡ ok u)
    × (find_payout 12 u.payouts ≡ some q)
    × (q.status ≡ paid)
    × ((c : Config) (at : ℕ)
        → compute_balance c u at 7 ≡ compute_balance c withdrawn at 7 +ℤ pos 40000)
unfolding is_txn_taken
approve_after_failure_example =
    approve_after_failure withdrawn 90000001 90000002 12 none going withdrawn_find refl

-- The same store with the payout paid.
abbrev settled : Payout
settled = record going { status = paid }

abbrev paid_store : Store
paid_store = record store { payouts = settled ∷ [] }

settled_find : find_payout 12 paid_store.payouts ≡ some settled
unfolding request_withdrawal check_limits admit commit compute_balance withdrawal_fee
    initiate_gateway_transfer try_acquire_lock sum_amounts is_blank ◌-ℤ◌ ◌+ℤ◌ update_payout
    find_payout
settled_find = refl

going_not_paid : going.status ≢ paid
going_not_paid e = cc

-- The store after one and after two decisions that the payout has failed.
abbrev failed_once : Store
failed_once = apply_to withdrawn 90000001 failed (some (psp 5)) going

abbrev failed_again : Store
failed_again =
    apply_to failed_once 90000001 failed (some (psp 5))
      (updated 90000001 failed (some (psp 5)) going)

first_failure : admin_fail_withdrawal withdrawn 90000001 12 no_note ≡ ok failed_once
unfolding request_withdrawal check_limits admit commit compute_balance withdrawal_fee
    initiate_gateway_transfer try_acquire_lock sum_amounts is_blank ◌-ℤ◌ ◌+ℤ◌ update_payout
    find_payout admin_fail_withdrawal is_txn_taken
first_failure = refl

second_failure : admin_fail_withdrawal failed_once 90000001 12 no_note ≡ ok failed_again
unfolding request_withdrawal check_limits admit commit compute_balance withdrawal_fee
    initiate_gateway_transfer try_acquire_lock sum_amounts is_blank ◌-ℤ◌ ◌+ℤ◌ update_payout
    find_payout admin_fail_withdrawal is_txn_taken
second_failure = refl

-- An event of the gateway that says that the payout has failed.
abbrev failure_event : Payload
failure_event = record {
  is_order = false;
  payout_id = some 12;
  status = some (codes "failed");
  gateway_txn_id = none;
}

-- A payments service that takes an order and books nothing.
abbrev no_orders : Delegate
no_orders entries = (true, entries)

-- An event for a payout that is not there yet.
abbrev early_event : Payload
early_event = record failure_event { payout_id = some 99 }

abbrev noted : Store
noted = record withdrawn { replays = 3 ∷ [] }

early_failure :
    handle_gateway_webhook no_orders withdrawn 90000001 (some 3) early_event
    ≡ (err payout_not_found, noted)
unfolding request_withdrawal check_limits admit commit compute_balance withdrawal_fee
    initiate_gateway_transfer try_acquire_lock sum_amounts is_blank ◌-ℤ◌ ◌+ℤ◌ update_payout
    find_payout handle_gateway_webhook handle_payout_event
early_failure = refl

paid_survives_events_example :
    KeepsPaid 12 settled paid_store
      (handle_gateway_webhook no_orders paid_store 5 (some 3) failure_event).1
paid_survives_events_example =
    paid_survives_events no_orders paid_store 5 12 3 failure_event settled refl refl settled_find
      refl

-- A second payout, without a transaction id, cannot be given the one of the first.
abbrev waiting : Payout
waiting = record going { id = 13; status = pending; gateway_txn_id = none }

abbrev two_payouts : Store
two_payouts = record store { payouts = going ∷ waiting ∷ [] }

taken_refused : apply_gateway_update two_payouts 90000001 13 paid (some (psp 5)) ≡ err txn_taken
unfolding apply_gateway_update is_txn_taken find_payout
taken_refused = refl
