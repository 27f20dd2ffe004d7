-- ===== src/Payouts/Decision/Laws.antt =====
-- What the decisions of an administrator leave of the balance:
-- payments/payments.service.ts.
use limpeja_backend.Common.{ℕ, ◌≡◌, refl, true, false, ◌==◌, Option, some, arith, ◌∙◌}
use limpeja_backend.Common.Outcome.{ok}
use limpeja_backend.Payouts.{
  PayoutStatus, failed, paid, Payout, Store, Config, TxnId, find_payout, update_payout, find-update,
}
use limpeja_backend.Payouts.Ledger.{compute_balance}
use limpeja_backend.Payouts.Update.{is_txn_taken, apply_gateway_update, updated}
use limpeja_backend.Common.Int.{pos, ◌+ℤ◌}
use limpeja_backend.Payouts.Update.Laws.{apply_gateway_update-applied}
use limpeja_backend.Payouts.Decision.{decided, decide, approve_withdrawal}

-- A decision sets the status of a payout that is there, whatever it was, and moves no balance: a
-- payout that is rejected keeps its debit, and one whose amount was given back can be approved.
pub decide_lem :
    (status : PayoutStatus) (s : Store) (now id : ℕ) (p : Payout)
    → find_payout id s.payouts ≡ some p
    → (t : Store) × (decide status s now id ≡ ok t)
      × (find_payout id t.payouts ≡ some (decided now status p))
      × ((c : Config) (later user : ℕ)
          → compute_balance c t later user ≡ compute_balance c s later user)
unfolding decide compute_balance
decide_lem status s now id p found = (
  record s { payouts = update_payout id (decided now status) s.payouts },
  rw found refl,
  (find-update id id (decided now status) s.payouts (λ q. refl) ∙ ground (arith, found)),
  λ c later user. refl,
)

-- A payout that the gateway has failed, so that its amount was given back, can still be approved:
-- then it counts as paid, and the provider has the amount as well. The update that fails it gives
-- no transaction id that a row has already.
pub approve_after_failure :
    (s : Store) (now later id : ℕ) (txn : Option TxnId) (p : Payout)
    → find_payout id s.payouts ≡ some p
    → is_txn_taken s.payouts p.gateway_txn_id txn ≡ false
    → (t : Store) × (u : Store) × (q : Payout) × (apply_gateway_update s now id failed txn ≡ ok t)
      × (approve_withdrawal t later id ≡ ok u)
      × (find_payout id u.payouts ≡ some q)
      × (q.status ≡ paid)
      × ((c : Config) (at : ℕ)
          → compute_balance c u at p.user_id ≡ compute_balance c s at p.user_id +ℤ pos p.amount)
approve_after_failure s now later id txn p found free =
    let (t, failed_ok, there, given_back) =
      apply_gateway_update-applied s now id failed txn p found free in
    let (u, approved, after, same) = decide_lem paid t later id _ there in
    let own : (p.user_id == p.user_id) ≡ true = ground arith in
    (
      t,
      u,
      decided later paid (updated now failed txn p),
      failed_ok,
      approved,
      after,
      refl,
      λ c at. same c at p.user_id ∙ given_back c at p.user_id ∙ rw own refl,
    )
