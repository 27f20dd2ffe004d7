-- ===== src/Payouts/Update/Laws.antt =====
-- What the operations of an administrator and of the worker do to a payout and to the balances.
use limpeja_backend.Common.{
  ℕ, ◌≡◌, ◌≢◌, refl, Bool, true, false, Option, none, some, List, ◌==◌, if◌then◌else◌, arith, ◌&&◌,
  ap, subst, ◌∙◌, Bool-cases, inl, inr,
}
use limpeja_backend.Common.Int.{pos, ◌+ℤ◌, add_zero}
use limpeja_backend.Common.Lists.{is_some}
use limpeja_backend.Common.Outcome.{ok, err}
use limpeja_backend.Payouts.{
  PayoutStatus, paid, failed, TxnId, Notice, withdrawal_failed, Payout, Store, Config, already_paid,
  txn_taken, find_payout, find-update, find_payout-id,
}
use limpeja_backend.Payouts.Ledger.{compute_balance, balance-append, balance-same}
use limpeja_backend.Payouts.Update.{
  is_paid, is_reversal, is_txn_taken, or_txn, updated, apply_to, rollback_entry, admin_txn,
  notify_if, apply_gateway_update, AdminInput, admin_confirm_withdrawal, admin_fail_withdrawal,
  admin_cancel_withdrawal,
}

-- A payout that is failed or canceled gives its amount back to its user, every other change of
-- status moves no money, and nobody else's balance changes.
apply_to-balance :
    (c : Config) (s : Store) (now later user : ℕ) (target : PayoutStatus) (txn : Option TxnId)
    (p : Payout)
    → compute_balance c (apply_to s now target txn p) later user
      ≡ compute_balance c s later user
        +ℤ (if is_reversal target && p.user_id == user then pos p.amount else pos 0)
apply_to-balance c s now later user target txn p = elim (Bool-cases (is_reversal target)) [
  | inl e ↦ rw e (balance-append c s _ later user (rollback_entry s.next_id now p) refl refl refl)
  | inr e ↦ rw e (rw add_zero (balance-same c s _ later user refl refl))
]

apply_to-find :
    (s : Store) (now id : ℕ) (target : PayoutStatus) (txn : Option TxnId) (p : Payout)
    → find_payout id s.payouts ≡ some p
    → find_payout id (apply_to s now target txn p).payouts ≡ some (updated now target txn p)
apply_to-find s now id target txn p e = ground (
  arith,
  find_payout-id id s.payouts p e,
  find-update id p.id (updated now target txn) s.payouts (λ q. refl),
)

-- The store that an update leaves whose transaction id is free.
pub apply_gateway_update-applied :
    (s : Store) (now id : ℕ) (target : PayoutStatus) (txn : Option TxnId) (p : Payout)
    → find_payout id s.payouts ≡ some p
    → is_txn_taken s.payouts p.gateway_txn_id txn ≡ false
    → (t : Store) × (apply_gateway_update s now id target txn ≡ ok t)
      × (find_payout id t.payouts ≡ some (updated now target txn p))
      × ((c : Config) (later user : ℕ)
          → compute_balance c t later user
            ≡ compute_balance c s later user
              +ℤ (if is_reversal target && p.user_id == user then pos p.amount else pos 0))
unfolding apply_gateway_update
apply_gateway_update-applied s now id target txn p e free = (
  apply_to s now target txn p,
  rw (e, free),
  apply_to-find s now id target txn p e,
  λ c later user. apply_to-balance c s now later user target txn p,
)

-- An update that would give a payout a transaction id that another one has is refused.
pub apply_gateway_update-refused :
    (s : Store) (now id : ℕ) (target : PayoutStatus) (txn : Option TxnId) (p : Payout)
    → find_payout id s.payouts ≡ some p
    → is_txn_taken s.payouts p.gateway_txn_id txn ≡ true
    → apply_gateway_update s now id target txn ≡ err txn_taken
unfolding apply_gateway_update
apply_gateway_update-refused s now id target txn p e taken = rw (e, taken)

-- A gateway update of a known payout succeeds if it gives no transaction id that a row has already.
-- The payout then has the new status and the time of the update, the transaction id that it had
-- or else the one that is given, and the key, the amount and the user that it had. The balance of
-- that user grows by the amount if the payout has failed or been canceled; no other balance
-- changes, and no balance changes for the other three statuses.
pub apply_gateway_update_lem :
    (s : Store) (now id : ℕ) (target : PayoutStatus) (txn : Option TxnId) (p : Payout)
    → find_payout id s.payouts ≡ some p
    → is_txn_taken s.payouts p.gateway_txn_id txn ≡ false
    → (t : Store) × (q : Payout) × (apply_gateway_update s now id target txn ≡ ok t)
      × (find_payout id t.payouts ≡ some q)
      × (q.status ≡ target)
      × (q.processed_at ≡ some now)
      × (q.gateway_txn_id ≡ or_txn p.gateway_txn_id txn)
      × (q.idempotency_key ≡ p.idempotency_key)
      × (q.amount ≡ p.amount)
      × (q.user_id ≡ p.user_id)
      × ((c : Config) (later user : ℕ)
          → compute_balance c t later user
            ≡ compute_balance c s later user
              +ℤ (if is_reversal target && p.user_id == user then pos p.amount else pos 0))
apply_gateway_update_lem s now id target txn p e free =
    let (t, done, found, moved) = apply_gateway_update-applied s now id target txn p e free in
    (t, updated now target txn p, done, found, refl, refl, refl, refl, refl, refl, moved)

-- An administrator cannot undo a payout that was paid: confirming it again changes nothing, and
-- failing or canceling it is refused.
pub paid_is_kept :
    (s : Store) (now id : ℕ) (input : AdminInput) (p : Payout)
    → find_payout id s.payouts ≡ some p
    → p.status ≡ paid
    → (admin_confirm_withdrawal s now id input ≡ ok s)
      × (admin_fail_withdrawal s now id input ≡ err already_paid)
      × (admin_cancel_withdrawal s now id input ≡ err already_paid)
unfolding admin_confirm_withdrawal admin_fail_withdrawal admin_cancel_withdrawal
paid_is_kept s now id input p e h = (rw (e, h), rw (e, h), rw (e, h))

not_paid : (x : PayoutStatus) → x ≢ paid → is_paid x ≡ false
not_paid paid h = absurd (h refl)
not_paid _ h = refl

-- A notification touches neither the payouts nor the balances.
notify-payouts : (b : Bool) (n : Notice) (s : Store) → (notify_if b n s).payouts ≡ s.payouts
notify-payouts true n s = refl
notify-payouts false n s = refl

notify-balance :
    (c : Config) (b : Bool) (n : Notice) (s : Store) (now user : ℕ)
    → compute_balance c (notify_if b n s) now user ≡ compute_balance c s now user
notify-balance c true n s now user = balance-same c s _ now user refl refl
notify-balance c false n s now user = refl

-- Each time an administrator fails a payout that is not paid, with no transaction id that another has, its amount goes back to its user,
-- also when the payout had failed before.
pub admin_fail-balance :
    (c : Config) (s : Store) (now id later : ℕ) (input : AdminInput) (p : Payout)
    → find_payout id s.payouts ≡ some p
    → p.status ≢ paid
    → is_txn_taken s.payouts p.gateway_txn_id (some (admin_txn input now p)) ≡ false
    → (t : Store) × (q : Payout) × (admin_fail_withdrawal s now id input ≡ ok t)
      × (find_payout id t.payouts ≡ some q)
      × (q.status ≡ failed)
      × (q.amount ≡ p.amount)
      × (q.user_id ≡ p.user_id)
      × (is_some q.gateway_txn_id ≡ true)
      × (compute_balance c t later p.user_id ≡ compute_balance c s later p.user_id +ℤ pos p.amount)
unfolding admin_fail_withdrawal
admin_fail-balance c s now id later input p e h free =
    let txn : Option TxnId = some (admin_txn input now p) in
    let moved = apply_to s now failed txn p in
    let done = notify_if input.has_note (withdrawal_failed p.user_id) moved in
    (
      done,
      updated now failed txn p,
      rw (e, not_paid p.status h, free),
      rw notify-payouts (apply_to-find s now id failed txn p e),
      refl,
      refl,
      refl,
      has_txn p.gateway_txn_id,
      rw notify-balance (
          apply_to-balance c s now later p.user_id failed txn p
          ∙ ap (λ b. compute_balance c s later p.user_id +ℤ (if b then pos p.amount else pos 0))
              (same p.user_id)),
    )
  where
    same : (n : ℕ) → (n == n) ≡ true
    same n = ground arith

    has_txn : (own : Option TxnId) → is_some (or_txn own (some (admin_txn input now p))) ≡ true
    has_txn none = refl
    has_txn (some t) = refl

own_txn-free :
    (ps : List Payout) (own txn : Option TxnId)
    → is_some own ≡ true
    → is_txn_taken ps own txn ≡ false
unfolding is_txn_taken
own_txn-free ps none txn h = absurd cc
own_txn-free ps (some t) none h = refl
own_txn-free ps (some t) (some u) h = refl

-- So a payout that is failed twice is paid back twice: after both decisions the balance has grown
-- by two times the amount that was once debited.
pub failed_twice :
    (c : Config) (s : Store) (now id later : ℕ) (first second : AdminInput) (p : Payout)
    → find_payout id s.payouts ≡ some p
    → p.status ≢ paid
    → is_txn_taken s.payouts p.gateway_txn_id (some (admin_txn first now p)) ≡ false
    → (t u : Store) → admin_fail_withdrawal s now id first ≡ ok t
    → admin_fail_withdrawal t now id second ≡ ok u
    → compute_balance c u later p.user_id
      ≡ compute_balance c s later p.user_id +ℤ pos p.amount +ℤ pos p.amount
failed_twice c s now id later first second p e h free t u ht hu =
    let (t', q, done, found, is_failed, same_amount, same_user, has_txn, moved) =
      admin_fail-balance c s now id later first p e h free in
    let t_eq : t' ≡ t = cc in
    let found' : find_payout id t.payouts ≡ some q =
      subst (λ x. find_payout id x.payouts ≡ some q) t_eq found in
    let (u', r, done', _, _, _, _, _, moved') =
      admin_fail-balance c t now id later second q found' (λ z. cc)
        (own_txn-free t.payouts q.gateway_txn_id _ has_txn) in
    let u_eq : u' ≡ u = cc in cc
