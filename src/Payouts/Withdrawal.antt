-- ===== src/Payouts/Withdrawal.antt =====
-- `requestWithdrawal`. The transaction's checks come first; nothing is written unless all of them
-- pass, and a transaction that throws leaves the store as it was. What Redis, the gateway and the
-- rounding of the column `Decimal(14, 2)` answer are arguments.
-- The id that the gateway answers for a transfer is taken to be new.
pub mod Entries
pub mod Laws
use limpeja_backend.Common.{
  ℕ, ◌+◌, ◌*◌, ◌≤◌, ◌≡◌, Bool, true, false, not, ◌&&◌, ◌||◌, Option, none, some, List, [], ◌∷◌,
  ◌++◌, leb, ltb, ◌==◌, if◌then◌else◌,
}
use limpeja_backend.Common.Lists.{length, find, filter, sum_of}
use limpeja_backend.Common.Text.{Text, is_blank, or_else}
use limpeja_backend.Common.Int.{ℤ, pos, negsuc, ◌-ℤ◌}
use limpeja_backend.Common.Outcome.{Outcome, ok, err, ◌>>=◌, ◌>>◌, throw_if, or_throw}
use limpeja_backend.Payouts.{
  pending, processing, LedgerEntryType, withdrawal, fee, TxnId, Payout, LedgerEntry, Provider,
  withdrawal_requested, Breaker, Store, Config, PayoutError, missing_idempotency_key,
  psp_token_missing, lock_busy, provider_not_found, kyc_not_approved, below_minimum, above_maximum,
  daily_limit_exceeded, daily_count_reached, missing_pix_key, insufficient_balance, gateway_paused,
  update_payout,
}
use limpeja_backend.Payouts.Ledger.{compute_balance}
use limpeja_backend.Payouts.Gateway.{
  TransferError, is_gateway_healthy, initiate_gateway_transfer, try_acquire_lock,
}

-- Units in a cent, and atoms in a cent.
abbrev pub units : ℕ
units = 10000

abbrev pub atoms : ℕ
atoms = 100000000

-- How the database rounds a Decimal, in atoms, to the cents of a column: a value that is in cents
-- is kept, and no value is rounded past a number of cents above it.
pub record Rounding : Type 0 where
  pub to_cents : ℕ → ℕ
  pub to_cents-exact : (n : ℕ) → to_cents (n * atoms) ≡ n
  pub to_cents-le : (x n : ℕ) → x ≤ n * atoms → to_cents x ≤ n

-- The body of the request; the amount in units.
pub record WithdrawalRequest : Type 0 where
  pub user_id : ℕ
  pub amount : ℕ
  pub pix_key : Text
  pub idempotency_key : Option ℕ

-- What the world answers during the call.
pub record Environment : Type 0 where
  pub now : ℕ
  pub lock_replies : ℕ → Bool
  pub gateway_reply : Option TxnId

abbrev pub day_ms : ℕ
day_ms = 86400000

abbrev pub provider_of : ℕ → Provider → Bool
provider_of user p = p.user_id == user

abbrev pub with_key : ℕ → Payout → Bool
with_key key p = p.idempotency_key == key

-- The user's payouts of the last 24 hours, whatever became of them.
abbrev pub requested_today : ℕ → ℕ → Payout → Bool
requested_today user now p = p.user_id == user && leb now (p.requested_at + day_ms)

-- `max && amount.gt(max)`
abbrev pub above : Option ℕ → ℕ → Bool
above none amount = false
above (some limit) amount = ltb limit amount

-- The fee in atoms: the larger of the percentage and the fixed fee.
unfoldable pub withdrawal_fee : Config → ℕ → ℕ
withdrawal_fee c amount =
    let percent = amount * c.withdrawal_percent_fee in
    let fixed = c.withdrawal_fixed_fee * units in if ltb fixed percent then percent else fixed

-- `totalDebit.gt(balance)`, with the debit in atoms and the balance in cents.
abbrev pub exceeds : ℕ → ℤ → Bool
exceeds total (pos balance) = ltb (balance * atoms) total
exceeds total (negsuc n) = true

-- What the checks end with: a payout that carries the same key, or the fee of a new one.
pub data Admission : Type 0 where
  existing : Payout → Admission
  fresh : ℕ → Admission

-- The limits and the balance, for a request of an approved provider under a new key.
unfoldable pub check_limits :
    Config → Store → ℕ → WithdrawalRequest → Provider → Outcome PayoutError ℕ
check_limits c s now r p = do
  throw_if (ltb r.amount c.min_withdrawal) below_minimum
  throw_if (above c.max_withdrawal r.amount) above_maximum
  let today = filter (requested_today r.user_id now) s.payouts
  let spent = sum_of (λ (q : Payout). q.amount) today * units
  throw_if (above c.daily_limit (spent + r.amount)) daily_limit_exceeded
  throw_if (ltb 0 c.daily_count_max && leb c.daily_count_max (length today)) daily_count_reached
  throw_if (is_blank (or_else r.pix_key p.pix_key)) missing_pix_key
  let charge = withdrawal_fee c r.amount
  throw_if (exceeds (r.amount * units + charge) (compute_balance c s now r.user_id))
      insufficient_balance
  ok charge

abbrev pub admit_new :
    Config
    → Store
    → ℕ
    → WithdrawalRequest
    → Provider
    → Option Payout
    → Outcome PayoutError Admission
admit_new c s now r p (some q) = ok (existing q)
admit_new c s now r p none = check_limits c s now r p >>= λ charge. ok (fresh charge)

-- The checks of the transaction, in their order.
unfoldable pub admit : Config → Store → ℕ → WithdrawalRequest → ℕ → Outcome PayoutError Admission
admit c s now r key = do
  p ← or_throw (find (provider_of r.user_id) s.providers) provider_not_found
  throw_if (not p.kyc_approved) kyc_not_approved
  admit_new c s now r p (find (with_key key) s.payouts)

module _ (db : Rounding) where
  open db use {to_cents}

  abbrev pub debit : ℕ → ℕ → ℕ → LedgerEntryType → ℕ → LedgerEntry
  debit id now user type value = record {
    id = id;
    user_id = user;
    booking_id = none;
    amount = pos 0 -ℤ pos (to_cents value);
    type = type;
    created_at = now;
  }

  -- The entries of a withdrawal: the amount, and the fee if there is one.
  abbrev pub debits : ℕ → ℕ → WithdrawalRequest → ℕ → List LedgerEntry
  debits id now r charge =
      debit id now r.user_id withdrawal (r.amount * units)
      ∷ (if ltb 0 charge then debit (id + 1) now r.user_id fee charge ∷ [] else [])

  abbrev pub new_payout : ℕ → ℕ → WithdrawalRequest → ℕ → Payout
  new_payout id now r key = record {
    id = id;
    user_id = r.user_id;
    amount = to_cents (r.amount * units);
    status = pending;
    gateway_txn_id = none;
    idempotency_key = key;
    requested_at = now;
    processed_at = none;
  }

  -- The writes of a new withdrawal, before the gateway is called.
  abbrev pub booked : Store → ℕ → WithdrawalRequest → ℕ → ℕ → Store
  booked s now r key charge = record s {
    ledger = s.ledger ++ debits s.next_id now r charge;
    payouts = s.payouts ++ new_payout (s.next_id + 2) now r key ∷ [];
    next_id = s.next_id + 3;
  }

  abbrev pub sent : Store → ℕ → Outcome TransferError TxnId × Breaker → Store
  sent s id (ok txn, b) = record s {
    payouts =
        update_payout id (λ p. record p { status = processing; gateway_txn_id = some txn })
          s.payouts;
    breaker = b;
  }
  sent s id (err e, b) = record s { breaker = b }

  -- With a token the transfer is started, and a failure is swallowed: the payout stays pending.
  -- Without one a job is queued, unless the gateway is paused, which throws.
  unfoldable pub commit :
      Config
      → Store
      → Environment
      → WithdrawalRequest
      → ℕ
      → Admission
      → Outcome PayoutError (Payout × Store)
  commit c s env r key (existing p) = ok (p, s)
  commit c s env r key (fresh charge) =
      let t = booked s env.now r key charge in
      let p = new_payout (s.next_id + 2) env.now r key in
      if c.has_psp_token
      then ok (p, sent t p.id (initiate_gateway_transfer c t.breaker env.now env.gateway_reply))
      else (if is_gateway_healthy t.breaker env.now
          then ok (p, record t { jobs = t.jobs ++ p.id ∷ [] })
          else err gateway_paused)

  abbrev pub finish :
      Store → ℕ → Outcome PayoutError (Payout × Store) → Outcome PayoutError Payout × Store
  finish s user (ok (p, t)) =
      (ok p, record t { outbox = t.outbox ++ withdrawal_requested user ∷ [] })
  finish s user (err e) = (err e, s)

  abbrev pub locked :
      Config → Store → Environment → WithdrawalRequest → ℕ → Outcome PayoutError (Payout × Store)
  locked c s env r key = do
    throw_if (c.is_production && not c.has_psp_token) psp_token_missing
    throw_if (not (try_acquire_lock env.lock_replies)) lock_busy
    a ← admit c s env.now r key
    commit c s env r key a

  -- `requestWithdrawal`; the lock is released at the end in every case.
  unfoldable pub request_withdrawal :
      Config → Store → Environment → WithdrawalRequest → Outcome PayoutError Payout × Store
  request_withdrawal c s env r =
      finish s r.user_id (or_throw r.idempotency_key missing_idempotency_key >>= locked c s env r)
