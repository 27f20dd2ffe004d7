-- ===== src/Payouts/Webhook.antt =====
-- `handleGatewayWebhook`: what the gateway tells the service, and `normalizeStatus`. An event of an
-- order is handed to the payments service; what that does to the ledger is an argument here.
pub mod Laws
use limpeja_backend.Common.{
  ℕ, Bool, true, false, not, ◌&&◌, ◌||◌, Option, none, some, List, [], ◌∷◌, ◌++◌, ◌==◌,
  if◌then◌else◌,
}
use limpeja_backend.Common.Lists.{includes}
use limpeja_backend.Common.Text.{Text, codes, text_eq, to_upper_case}
use limpeja_backend.Common.Outcome.{Outcome, ok, err, ◌>>=◌, ◌>>◌, throw_if, or_throw}
use limpeja_backend.Payouts.{
  PayoutStatus, pending, processing, paid, failed, canceled, TxnId, psp, gw, manual, Payout, Store,
  LedgerEntry, PayoutError, order_failed, missing_event_id, missing_payload, payout_not_found,
  txn_mismatch, find_payout,
}
use limpeja_backend.Payouts.Update.{is_paid, txn_eq, apply_gateway_update}

abbrev pub payout_status_name : PayoutStatus → Text
payout_status_name pending = codes "PENDING"
payout_status_name processing = codes "PROCESSING"
payout_status_name paid = codes "PAID"
payout_status_name failed = codes "FAILED"
payout_status_name canceled = codes "CANCELED"

-- `normalizeStatus`: any text that is not listed reads as pending.
unfoldable pub normalize_status : Text → PayoutStatus
unfolding to_upper_case
normalize_status status =
    let upper = to_upper_case status in
    if text_eq upper (codes "PROCESSING")
    then processing
    else (if text_eq upper (codes "PAID") || text_eq upper (codes "COMPLETED")
        then paid
        else (if text_eq upper (codes "FAILED") || text_eq upper (codes "ERROR")
            then failed
            else (if text_eq upper (codes "CANCELED") || text_eq upper (codes "CANCELLED")
                then canceled
                else pending)))

-- The payload of the event. `is_order` says that its type is `ORDER` or that its name starts with
-- `order.`; an empty text counts as missing.
pub record Payload : Type 0 where
  pub is_order : Bool
  pub payout_id : Option ℕ
  pub status : Option Text
  pub gateway_txn_id : Option TxnId

pub data WebhookReply : Type 0 where
  replay delegated ignored accepted : WebhookReply

-- Both ids are there and differ.
abbrev pub mismatched : Option TxnId → Option TxnId → Bool
mismatched (some a) (some b) = not (txn_eq a b)
mismatched _ _ = false

-- What the handler does with a payout that it has found, and the status that it has read.
unfoldable pub move_payout :
    Store → ℕ → ℕ → Payload → PayoutStatus → Payout → Outcome PayoutError (WebhookReply × Store)
unfolding apply_gateway_update
move_payout s now id payload normalized p =
    if is_paid p.status && not (is_paid normalized) then ok (ignored, s) else (do
      throw_if (mismatched p.gateway_txn_id payload.gateway_txn_id) txn_mismatch
      t ← apply_gateway_update s now id normalized payload.gateway_txn_id
      ok (accepted, t))

-- The part of the handler that concerns payouts.
unfoldable pub handle_payout_event :
    Store → ℕ → Payload → Outcome PayoutError (WebhookReply × Store)
handle_payout_event s now payload = do
  id ← or_throw payload.payout_id missing_payload
  status ← or_throw payload.status missing_payload
  p ← or_throw (find_payout id s.payouts) payout_not_found
  move_payout s now id payload (normalize_status status) p

abbrev pub keep_store :
    Store → Outcome PayoutError (WebhookReply × Store) → Outcome PayoutError WebhookReply × Store
keep_store s (ok (r, t)) = (ok r, t)
keep_store s (err e) = (err e, s)

abbrev pub same_event : ℕ → ℕ → Bool
same_event a b = a == b

-- What `handlePixWebhook` of the payments service does with an order event, to the rows that the two
-- services share: whether it returns, and the ledger that it leaves.
abbrev pub Delegate : Type 0
Delegate = List LedgerEntry → Bool × List LedgerEntry

abbrev pub delegated_reply :
    Store → Bool × List LedgerEntry → Outcome PayoutError WebhookReply × Store
delegated_reply s (true, entries) = (ok delegated, record s { ledger = entries })
delegated_reply s (false, entries) = (err order_failed, record s { ledger = entries })

abbrev pub handle_new :
    Delegate → Store → ℕ → ℕ → Payload → Outcome PayoutError WebhookReply × Store
handle_new orders s now event payload =
    let seen = record s { replays = s.replays ++ event ∷ [] } in
    if payload.is_order
    then delegated_reply seen (orders seen.ledger)
    else keep_store seen (handle_payout_event seen now payload)

-- `handleGatewayWebhook`: the event is recorded before it is handled, and stays recorded when the
-- handling throws.
unfoldable pub handle_gateway_webhook :
    Delegate → Store → ℕ → Option ℕ → Payload → Outcome PayoutError WebhookReply × Store
handle_gateway_webhook orders s now none payload = (err missing_event_id, s)
handle_gateway_webhook orders s now (some event) payload =
    if includes same_event event s.replays
    then (ok replay, s)
    else handle_new orders s now event payload
