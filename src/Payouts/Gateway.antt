-- ===== src/Payouts/Gateway.antt =====
-- The circuit breaker around the payment gateway (`isGatewayHealthy`, `markGatewayFailure`,
-- `markGatewaySuccess`, `initiateGatewayTransfer`) and the retries of the withdrawal lock
-- (`tryAcquireLock`). The replies of the gateway and of Redis are arguments.
use limpeja_backend.Common.{
  ℕ, zero, suc, ◌+◌, ◌≤◌, ◌<◌, ◌≡◌, Bool, true, false, ◌&&◌, Option, none, some, leb, ◌==◌,
  if◌then◌else◌, arith,
}
use limpeja_backend.Common.Outcome.{Outcome, ok, err}
use limpeja_backend.Payouts.{TxnId, Breaker, Config}

abbrev pub gateway_failure_threshold : ℕ
gateway_failure_threshold = 3

abbrev pub gateway_pause_duration_ms : ℕ
gateway_pause_duration_ms = 300000

unfoldable pub is_gateway_healthy : Breaker → ℕ → Bool
is_gateway_healthy b now = leb b.pause_until now

unfoldable pub mark_gateway_failure : Breaker → ℕ → Breaker
mark_gateway_failure b now =
    let counted = record b { failure_count = b.failure_count + 1 } in
    if leb gateway_failure_threshold counted.failure_count
    then record counted { pause_until = now + gateway_pause_duration_ms; queue_paused = true }
    else counted

unfoldable pub mark_gateway_success : Breaker → Breaker
mark_gateway_success b =
    if b.failure_count == 0 && b.pause_until == 0
    then b
    else record { failure_count = 0; pause_until = 0; queue_paused = false }

pub data TransferError : Type 0 where
  token_missing suspended rejected_by_gateway : TransferError

abbrev after_reply : Breaker → ℕ → Option TxnId → Outcome TransferError TxnId × Breaker
after_reply b now (some txn) = (ok txn, mark_gateway_success b)
after_reply b now none = (err rejected_by_gateway, mark_gateway_failure b now)

-- `initiateGatewayTransfer`, with the answer that the gateway would give: a transfer or a failure.
unfoldable pub initiate_gateway_transfer :
    Config → Breaker → ℕ → Option TxnId → Outcome TransferError TxnId × Breaker
unfolding is_gateway_healthy mark_gateway_failure mark_gateway_success
initiate_gateway_transfer c b now reply =
    if c.has_psp_token
    then (if is_gateway_healthy b now then after_reply b now reply else (err suspended, b))
    else (err token_missing, b)

-- The rounds of `tryAcquireLock` that are left, from a round on; the waits in between are left out.
unfoldable pub try_rounds : ℕ → ℕ → (ℕ → Bool) → Bool
try_rounds zero round replies = false
try_rounds (suc left) round replies =
    if replies round then true else try_rounds left (round + 1) replies

unfoldable pub try_acquire_lock : (ℕ → Bool) → Bool
unfolding try_rounds
try_acquire_lock replies = try_rounds 5 0 replies

-- A paused queue goes with a pause that was set.
abbrev pub IsConsistent : Breaker → Type 0
IsConsistent b = b.queue_paused ≡ true → 0 < b.pause_until

-- While the pause lasts the gateway is not called: whatever it would answer, the transfer is
-- refused and the breaker stays as it is.
pub suspended_while_paused :
    (c : Config) (b : Breaker) (now : ℕ) (reply : Option TxnId)
    → now < b.pause_until
    → ((t : TxnId) → (initiate_gateway_transfer c b now reply).0 ≡ ok t → ⊥)
      × ((initiate_gateway_transfer c b now reply).1 ≡ b)
unfolding initiate_gateway_transfer
suspended_while_paused c b now reply h = ((λ t e. ground arith), ground arith)

-- Three failed transfers, at times `t` to `v`, open the breaker: from a healthy start, the gateway
-- is not healthy at any later moment within five minutes of the first of them.
pub three_failures_pause :
    (c : Config) (b : Breaker) (t u v w : ℕ)
    → c.has_psp_token ≡ true
    → is_gateway_healthy b t ≡ true
    → t ≤ u
    → u ≤ v
    → v ≤ w
    → w < t + gateway_pause_duration_ms
    → let once = (initiate_gateway_transfer c b t none).1 in
      let twice = (initiate_gateway_transfer c once u none).1 in
      let thrice = (initiate_gateway_transfer c twice v none).1 in
      is_gateway_healthy thrice w ≡ false
unfolding initiate_gateway_transfer
three_failures_pause c b t u v w token healthy p q r s = ground arith

-- A transfer that goes through closes the breaker: no failure is remembered, no pause is left and
-- the queue runs.
pub success_resets :
    (c : Config) (b : Breaker) (now : ℕ) (txn : TxnId)
    → IsConsistent b
    → c.has_psp_token ≡ true
    → is_gateway_healthy b now ≡ true
    → initiate_gateway_transfer c b now (some txn)
      ≡ (ok txn, record { failure_count = 0; pause_until = 0; queue_paused = false })
unfolding initiate_gateway_transfer
success_resets c b now txn k token healthy = ground arith

-- Consistency is kept by every call, whatever the gateway answers.
pub transfer-IsConsistent :
    (c : Config) (b : Breaker) (now : ℕ) (reply : Option TxnId)
    → IsConsistent b
    → IsConsistent (initiate_gateway_transfer c b now reply).1
unfolding initiate_gateway_transfer
transfer-IsConsistent c b now reply k = ground arith
