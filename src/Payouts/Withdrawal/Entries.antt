-- ===== src/Payouts/Withdrawal/Entries.antt =====
-- What the checks of a withdrawal guarantee, and what its ledger entries take from the balance:
-- payouts/payouts.service.ts, `requestWithdrawal`.
use limpeja_backend.Common.{
  ℕ, ◌+◌, ◌-◌, ◌*◌, ◌≤◌, ◌≡◌, refl, true, false, none, some, ◌++◌, ◌==◌, arith, Option-cases,
  Bool-cases, inl, inr, ltb,
}
use limpeja_backend.Common.Int.{ℤ, pos, negsuc, ◌-ℤ◌, ◌≤ℤ◌, int_laws}
use limpeja_backend.Common.Lists.{find}
use limpeja_backend.Common.Outcome.{Outcome, ok, err}
use limpeja_backend.Payouts.{
  fee, withdrawal, Breaker, TxnId, Payout, LedgerEntryType, Provider, Store, Config,
}
use limpeja_backend.Payouts.Gateway.{TransferError, initiate_gateway_transfer}
use limpeja_backend.Payouts.Ledger.{
  is_earning, is_withheld, contribution, available, available-append, is_withheld-false,
  compute_balance, compute_balance-available,
}
use limpeja_backend.Payouts.Withdrawal.{
  units, atoms, Rounding, WithdrawalRequest, Environment, provider_of, with_key, withdrawal_fee,
  exceeds, existing, fresh, check_limits, admit, debit, debits, new_payout, booked, sent, commit,
}

-- What the limits guarantee when they let a request through.
check_limits-ok :
    (c : Config) (s : Store) (now : ℕ) (r : WithdrawalRequest) (p : Provider) (charge : ℕ)
    → check_limits c s now r p ≡ ok charge
    → (charge ≡ withdrawal_fee c r.amount)
      × (exceeds (r.amount * units + charge) (compute_balance c s now r.user_id) ≡ false)
      × (c.min_withdrawal ≤ r.amount)
unfolding check_limits
check_limits-ok c s now r p charge h = ground arith

pub admit-fresh :
    (c : Config) (s : Store) (now key : ℕ) (r : WithdrawalRequest) (charge : ℕ)
    → admit c s now r key ≡ ok (fresh charge)
    → (find (with_key key) s.payouts ≡ none)
      × (charge ≡ withdrawal_fee c r.amount)
      × (exceeds (r.amount * units + charge) (compute_balance c s now r.user_id) ≡ false)
      × (c.min_withdrawal ≤ r.amount)
unfolding admit
admit-fresh c s now key r charge h =
    elim (Option-cases (find (provider_of r.user_id) s.providers)) [
      | inl e ↦ absurd (ground arith)
      | inr (p, e) ↦ ground (arith, check_limits-ok c s now r p charge)
    ]

pub admit-existing :
    (c : Config) (s : Store) (now key : ℕ) (r : WithdrawalRequest) (p : Payout)
    → admit c s now r key ≡ ok (existing p)
    → find (with_key key) s.payouts ≡ some p
unfolding admit
admit-existing c s now key r p h = ground arith

same_id : (n : ℕ) → (n == n) ≡ true
same_id n = ground arith

module _ (db : Rounding) where
  debit-contribution :
      (c : Config) (s : Store) (id now later user v : ℕ) (type : LedgerEntryType)
      → is_earning type ≡ false
      → contribution (is_withheld c s.dispute_of later) user (debit db id now user type v)
        ≡ pos 0 -ℤ pos (db.to_cents v)
  debit-contribution c s id now later user v type h =
      rw (same_id user, is_withheld-false c s.dispute_of later (debit db id now user type v) h)

  -- What the entries of a withdrawal take from the balance.
  available-debits :
      (c : Config) (s : Store) (id now later charge : ℕ) (r : WithdrawalRequest)
      → available (is_withheld c s.dispute_of later) r.user_id (debits db id now r charge)
        ≡ pos 0 -ℤ pos (db.to_cents (r.amount * units)) -ℤ pos (db.to_cents charge)
  unfolding available
  available-debits c s id now later charge r = elim (Bool-cases (ltb 0 charge)) [
    | inl some_fee ↦
        rw
          (
            some_fee,
            available,
            debit-contribution c s id now later r.user_id (r.amount * units) withdrawal refl,
            debit-contribution c s (id + 1) now later r.user_id charge fee refl,
          )
          (omega int_laws)
    | inr no_fee ↦
        let none_taken : charge ≡ 0 = ground arith in
        rw
          (
            no_fee,
            available,
            debit-contribution c s id now later r.user_id (r.amount * units) withdrawal refl,
            none_taken,
            db.to_cents-exact 0,
          )
          (omega int_laws)
  ]

  pub booked-balance :
      (c : Config) (s t : Store) (now later charge : ℕ) (r : WithdrawalRequest)
      → t.dispute_of ≡ s.dispute_of
      → t.ledger ≡ s.ledger ++ debits db s.next_id now r charge
      → compute_balance c t later r.user_id
        ≡ compute_balance c s later r.user_id
          -ℤ pos (db.to_cents (r.amount * units))
          -ℤ pos (db.to_cents charge)
  booked-balance c s t now later charge r d l =
      rw
        (
          compute_balance-available c t later r.user_id,
          compute_balance-available c s later r.user_id,
          d,
          l,
          available-append (is_withheld c s.dispute_of later) r.user_id s.ledger
              (debits db s.next_id now r charge),
          available-debits c s s.next_id now later charge r,
        )
        (omega int_laws)

  pub covered :
      (b : ℤ) (n charge : ℕ)
      → exceeds (n * units * units + charge) b ≡ false
      → pos 0 ≤ℤ b -ℤ pos n -ℤ pos (db.to_cents charge)
  covered (negsuc b) n charge h = cc
  covered (pos b) n charge h =
      let within : n * units * units + charge ≤ b * atoms = ground arith in
      omega (int_laws, db.to_cents-le charge (b - n) (omega arith))

  sent-ledger :
      (s : Store) (id : ℕ) (x : Outcome TransferError TxnId × Breaker)
      → (sent db s id x).ledger ≡ s.ledger
  sent-ledger s id (ok txn, b) = refl
  sent-ledger s id (err e, b) = refl

  sent-dispute_of :
      (s : Store) (id : ℕ) (x : Outcome TransferError TxnId × Breaker)
      → (sent db s id x).dispute_of ≡ s.dispute_of
  sent-dispute_of s id (ok txn, b) = refl
  sent-dispute_of s id (err e, b) = refl

  -- What is booked when a new withdrawal goes through.
  pub commit-fresh :
      (c : Config) (s t : Store) (env : Environment) (r : WithdrawalRequest) (key charge : ℕ)
      (p : Payout)
      → commit db c s env r key (fresh charge) ≡ ok (p, t)
      → (p ≡ new_payout db (s.next_id + 2) env.now r key)
        × (t.ledger ≡ s.ledger ++ debits db s.next_id env.now r charge)
        × (t.dispute_of ≡ s.dispute_of)
  unfolding commit
  commit-fresh c s t env r key charge p h =
      let before = booked db s env.now r key charge in
      let reply = initiate_gateway_transfer c before.breaker env.now env.gateway_reply in
      ground (
        arith,
        sent-ledger before (s.next_id + 2) reply,
        sent-dispute_of before (s.next_id + 2) reply,
      )
