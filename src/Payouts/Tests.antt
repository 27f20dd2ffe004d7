-- ===== src/Payouts/Tests.antt =====
-- Runs of the payout modules at concrete inputs: withdrawals, the gateway and holds.
mod Events
use limpeja_backend.Common.{
  ℕ, ◌+◌, ◌*◌, ◌/◌, ◌≤◌, ◌≡◌, ◌≢◌, refl, true, false, none, some, [], ◌∷◌, arith, ◌==◌, ◌&&◌,
  if◌then◌else◌,
}
use limpeja_backend.Common.Int.{ℤ, pos, ◌+ℤ◌, ◌-ℤ◌, ◌≤ℤ◌}
use limpeja_backend.Common.Lists.{find}
use limpeja_backend.Common.Text.{codes, is_blank}
use limpeja_backend.Common.Outcome.{ok, err}
use limpeja_backend.Payouts.{
  pending, processing, paid, failed, canceled, already_paid, earning, psp, Payout, LedgerEntry,
  Store, Config, Breaker, payout_not_found, update_payout, insufficient_balance, find_payout,
}
use limpeja_backend.Payouts.Ledger.{compute_balance, sum_amounts}
use limpeja_backend.Payouts.Gateway.{
  try_acquire_lock, is_gateway_healthy, initiate_gateway_transfer, suspended_while_paused,
  three_failures_pause, success_resets,
}
use limpeja_backend.Payouts.Update.{
  apply_to, AdminInput, updated, is_reversal, apply_gateway_update, process_payout,
  admin_confirm_withdrawal, admin_fail_withdrawal, admin_cancel_withdrawal,
}
use limpeja_backend.Payouts.Withdrawal.{
  units, atoms, Rounding, WithdrawalRequest, Environment, with_key, withdrawal_fee,
  request_withdrawal, check_limits, admit, commit,
}
use limpeja_backend.Payouts.Withdrawal.Laws.{
  request_withdrawal-covered, request_withdrawal-refused, request_withdrawal-idempotent,
}
use limpeja_backend.Payouts.Update.Laws.{
  apply_gateway_update_lem, paid_is_kept, admin_fail-balance, failed_twice,
}
use limpeja_backend.Payouts.Webhook.{
  Payload, replay, normalize_status, handle_payout_event, handle_gateway_webhook,
}
use limpeja_backend.Payouts.Webhook.Laws.{
  KeepsPaid, normalize-payout_status_name, replayed, failed_event_is_lost, paid_survives_events,
}
use limpeja_backend.Payouts.Hold.{BookingRow, hold_booking_for_claim}
use limpeja_backend.Payouts.Hold.Laws.{IsKeyed, hold-never-lowers}

-- Rounding half up, as PostgreSQL rounds a positive numeric.
abbrev pub half_up : ℕ → ℕ
half_up x = (x + 50000000) / atoms

pub half_up-exact : (n : ℕ) → half_up (n * atoms) ≡ n
half_up-exact n = omega arith

pub half_up-le : (x n : ℕ) → x ≤ n * atoms → half_up x ≤ n
half_up-le x n h = omega arith

abbrev pub database : Rounding
database = record { to_cents = half_up; to_cents-exact = half_up-exact; to_cents-le = half_up-le }

-- A fee of one percent, at least 50 cents; at most three withdrawals a day.
abbrev pub config : Config
config = record {
  min_withdrawal = 1000 * units;
  max_withdrawal = some (500000 * units);
  daily_limit = none;
  daily_count_max = 3;
  settle_window_days = 0;
  settle_window_hours = 1;
  withdrawal_fixed_fee = 50 * units;
  withdrawal_percent_fee = 100;
  has_psp_token = true;
  is_production = true;
}

abbrev pub entry : ℕ → ℤ → LedgerEntry
entry id amount = record {
  id = id;
  user_id = 7;
  booking_id = none;
  amount = amount;
  type = earning;
  created_at = 1000;
}

abbrev pub store : Store
store = record {
  payouts = [];
  ledger = entry 1 (pos 30000) ∷ entry 2 (pos 15050) ∷ [];
  providers = record { user_id = 7; kyc_approved = true; pix_key = codes "key" } ∷ [];
  dispute_of = λ b. none;
  replays = [];
  jobs = [];
  outbox = [];
  breaker = record { failure_count = 0; pause_until = 0; queue_paused = false };
  next_id = 10;
}

-- A breaker that three failures have opened until time 20.
abbrev tripped : Breaker
tripped = record { failure_count = 3; pause_until = 20; queue_paused = true }

abbrev pub world : Environment
world = record { now = 90000000; lock_replies = λ n. n == 1; gateway_reply = some (psp 5) }

abbrev pub request : ℕ → WithdrawalRequest
request cents = record {
  user_id = 7;
  amount = cents * units;
  pix_key = [];
  idempotency_key = some 77;
}

after_withdrawal :
    compute_balance config
      (request_withdrawal database config store world (request 40000)).1
      90000000
      7
    ≡ pos 4650
unfolding request_withdrawal check_limits admit commit compute_balance withdrawal_fee
    initiate_gateway_transfer try_acquire_lock sum_amounts is_blank ◌-ℤ◌ ◌+ℤ◌ update_payout
    find_payout
after_withdrawal = refl

too_much_done :
    request_withdrawal database config store world (request 45000)
    ≡ (err insufficient_balance, store)
unfolding request_withdrawal check_limits admit commit compute_balance withdrawal_fee
    initiate_gateway_transfer try_acquire_lock sum_amounts is_blank ◌-ℤ◌ ◌+ℤ◌ update_payout
    find_payout
too_much_done = refl

-- The store after a withdrawal of 400 reais, and the payout that it made.
abbrev pub withdrawn : Store
withdrawn = (request_withdrawal database config store world (request 40000)).1

abbrev pub made : Payout
made = record {
  id = 12;
  user_id = 7;
  amount = 40000;
  status = pending;
  gateway_txn_id = none;
  idempotency_key = 77;
  requested_at = 90000000;
  processed_at = none;
}

abbrev pub going : Payout
going = record made { status = processing; gateway_txn_id = some (psp 5) }

withdrawal_done :
    request_withdrawal database config store world (request 40000) ≡ (ok made, withdrawn)
unfolding request_withdrawal check_limits admit commit compute_balance withdrawal_fee
    initiate_gateway_transfer try_acquire_lock sum_amounts is_blank ◌-ℤ◌ ◌+ℤ◌ update_payout
    find_payout
withdrawal_done = refl

pub withdrawn_find : find_payout 12 withdrawn.payouts ≡ some going
unfolding request_withdrawal check_limits admit commit compute_balance withdrawal_fee
    initiate_gateway_transfer try_acquire_lock sum_amounts is_blank ◌-ℤ◌ ◌+ℤ◌ update_payout
    find_payout
withdrawn_find = refl

request_withdrawal-covered_example : pos 0 ≤ℤ compute_balance config withdrawn 90000000 7
request_withdrawal-covered_example =
    (request_withdrawal-covered database config store withdrawn world (request 40000) 77 40000 made
      refl refl refl withdrawal_done).4

again_done :
    request_withdrawal database config withdrawn world (request 20000)
    ≡ (ok going, (request_withdrawal database config withdrawn world (request 20000)).1)
unfolding request_withdrawal check_limits admit commit compute_balance withdrawal_fee
    initiate_gateway_transfer try_acquire_lock sum_amounts is_blank ◌-ℤ◌ ◌+ℤ◌ update_payout
    find_payout
again_done = refl

key_taken : find (with_key 77) withdrawn.payouts ≡ some going
unfolding request_withdrawal check_limits admit commit compute_balance withdrawal_fee
    initiate_gateway_transfer try_acquire_lock sum_amounts is_blank ◌-ℤ◌ ◌+ℤ◌ update_payout
    find_payout
key_taken = refl

request_withdrawal-idempotent_example :
    (request_withdrawal database config withdrawn world (request 20000)).1.ledger ≡ withdrawn.ledger
request_withdrawal-idempotent_example =
    (request_withdrawal-idempotent database config withdrawn _ world (request 20000) 77 going going
      refl key_taken again_done).2

tripped_healthy : is_gateway_healthy tripped 20 ≡ true
unfolding is_gateway_healthy
tripped_healthy = refl

abbrev row : BookingRow
row = record { total_price = some 30000; provider_user = some 7 }

store-IsKeyed : IsKeyed store.ledger
store-IsKeyed = (((λ e. refl), ((λ e. cc), tt)), (((λ e. cc), ((λ e. refl), tt)), tt))
