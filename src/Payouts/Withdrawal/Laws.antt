-- ===== src/Payouts/Withdrawal/Laws.antt =====
-- What a withdrawal does to the payouts and the balance of its user.
use limpeja_backend.Common.{
  ℕ, ◌+◌, ◌*◌, ◌≤◌, ◌≡◌, sym, ap, ◌∙◌, subst, false, none, some, [], ◌∷◌, ◌++◌, arith,
}
use limpeja_backend.Common.Int.{pos, ◌-ℤ◌, ◌≤ℤ◌}
use limpeja_backend.Common.Lists.{find}
use limpeja_backend.Common.Outcome.{Outcome, ok, err, or_throw, >>=-ok, throw_if-ok}
use limpeja_backend.Payouts.{
  withdrawal_requested, Payout, Store, Config, PayoutError, missing_idempotency_key, lock_busy,
  psp_token_missing,
}
use limpeja_backend.Payouts.Ledger.{compute_balance}
use limpeja_backend.Payouts.Withdrawal.{
  units, Rounding, WithdrawalRequest, Environment, with_key, withdrawal_fee, exceeds, Admission,
  existing, fresh, admit, commit, finish, locked, request_withdrawal,
}
use limpeja_backend.Payouts.Withdrawal.Entries.{
  admit-fresh, admit-existing, booked-balance, covered, commit-fresh,
}

module _ (db : Rounding) where
  finish-ok :
      (s t : Store) (user : ℕ) (p : Payout) (m : Outcome PayoutError (Payout × Store))
      → finish db s user m ≡ (ok p, t)
      → (u : Store) × (m ≡ ok (p, u))
        × (t ≡ record u { outbox = u.outbox ++ withdrawal_requested user ∷ [] })
  finish-ok s t user p (ok (q, u)) h = (u, ground arith, ground arith)
  finish-ok s t user p (err e) h = cc

  request-commit :
      (c : Config) (s t : Store) (env : Environment) (r : WithdrawalRequest) (key : ℕ) (p : Payout)
      → r.idempotency_key ≡ some key
      → request_withdrawal db c s env r ≡ (ok p, t)
      → (a : Admission) × (u : Store) × (admit c s env.now r key ≡ ok a)
        × (commit db c s env r key a ≡ ok (p, u))
        × (t ≡ record u { outbox = u.outbox ++ withdrawal_requested r.user_id ∷ [] })
  unfolding request_withdrawal
  request-commit c s t env r key p k h =
      let (u, done, left) = finish-ok s t r.user_id p _ h in
      let (key', known, inside) =
        >>=-ok (or_throw r.idempotency_key missing_idempotency_key) (locked db c s env r) done in
      let same : key' ≡ key = ground arith in
      let inside' : locked db c s env r key ≡ ok (p, u) =
        subst (λ x. locked db c s env r x ≡ ok (p, u)) same inside in
      let (a, admitted, committed) =
        >>=-ok (admit c s env.now r key) (commit db c s env r key)
          (throw_if-ok _ lock_busy _ (throw_if-ok _ psp_token_missing _ inside').1).1 in
      (a, u, admitted, committed, left)

  -- A new withdrawal of a whole number `n` of cents that goes through was allowed to: `n` is at
  -- least the minimum, the payout is for `n` cents and its user, the balance falls by exactly `n`
  -- and the fee as the database rounds it, and it does not fall below zero.
  pub request_withdrawal-covered :
      (c : Config) (s t : Store) (env : Environment) (r : WithdrawalRequest) (key n : ℕ)
      (p : Payout)
      → r.idempotency_key ≡ some key
      → r.amount ≡ n * units
      → find (with_key key) s.payouts ≡ none
      → request_withdrawal db c s env r ≡ (ok p, t)
      → (p.amount ≡ n)
        × (p.user_id ≡ r.user_id)
        × (c.min_withdrawal ≤ n * units)
        × (compute_balance c t env.now r.user_id
            ≡ compute_balance c s env.now r.user_id
              -ℤ pos n
              -ℤ pos (db.to_cents (withdrawal_fee c r.amount)))
        × (pos 0 ≤ℤ compute_balance c t env.now r.user_id)
  request_withdrawal-covered c s t env r key n p k whole new h =
      let (a, u, admitted, committed, left) = request-commit c s t env r key p k h in
      on_admission a u admitted committed left
    where
      in_cents : db.to_cents (r.amount * units) ≡ n
      in_cents = rw whole (subst (λ x. db.to_cents x ≡ n) (omega arith) (db.to_cents-exact n))

      on_admission :
          (a : Admission) (u : Store)
          → admit c s env.now r key ≡ ok a
          → commit db c s env r key a ≡ ok (p, u)
          → t ≡ record u { outbox = u.outbox ++ withdrawal_requested r.user_id ∷ [] }
          → (p.amount ≡ n)
            × (p.user_id ≡ r.user_id)
            × (c.min_withdrawal ≤ n * units)
            × (compute_balance c t env.now r.user_id
                ≡ compute_balance c s env.now r.user_id
                  -ℤ pos n
                  -ℤ pos (db.to_cents (withdrawal_fee c r.amount)))
            × (pos 0 ≤ℤ compute_balance c t env.now r.user_id)
      on_admission (existing q) u admitted committed left =
          absurd (ground (arith, admit-existing c s env.now key r q admitted))
      on_admission (fresh charge) u admitted committed left =
          let (_, charged, enough, above_min) = admit-fresh c s env.now key r charge admitted in
          let (made, ledger, disputes) = commit-fresh db c s u env r key charge p committed in
          let moved : compute_balance c t env.now r.user_id
              ≡ compute_balance c s env.now r.user_id -ℤ pos n -ℤ pos (db.to_cents charge) =
            subst
              (λ m.
                compute_balance c t env.now r.user_id
                ≡ compute_balance c s env.now r.user_id -ℤ pos m -ℤ pos (db.to_cents charge))
              in_cents
              (booked-balance db c s t env.now env.now charge r
                (ap (λ (x : Store). x.dispute_of) left ∙ disputes)
                (ap (λ (x : Store). x.ledger) left ∙ ledger)) in
          (
            ap (λ (x : Payout). x.amount) made ∙ in_cents,
            ap (λ (x : Payout). x.user_id) made,
            subst (λ x. c.min_withdrawal ≤ x) whole above_min,
            subst
                (λ x.
                  compute_balance c t env.now r.user_id
                  ≡ compute_balance c s env.now r.user_id -ℤ pos n -ℤ pos (db.to_cents x))
                charged moved,
            subst (λ b. pos 0 ≤ℤ b) (sym moved)
                (covered db (compute_balance c s env.now r.user_id) n charge (
                  subst
                    (λ x.
                      exceeds (x * units + charge) (compute_balance c s env.now r.user_id) ≡ false)
                    whole enough)),
          )

  -- A request that is refused, for whatever reason, leaves no trace in the store.
  pub request_withdrawal-refused :
      (c : Config) (s t : Store) (env : Environment) (r : WithdrawalRequest) (e : PayoutError)
      → request_withdrawal db c s env r ≡ (err e, t)
      → t ≡ s
  unfolding request_withdrawal
  request_withdrawal-refused c s t env r e h = ground arith

  on_existing :
      (c : Config) (s t u : Store) (env : Environment) (r : WithdrawalRequest) (key : ℕ)
      (p q q' : Payout)
      → find (with_key key) s.payouts ≡ some q'
      → find (with_key key) s.payouts ≡ some q
      → commit db c s env r key (existing q') ≡ ok (p, u)
      → t ≡ record u { outbox = u.outbox ++ withdrawal_requested r.user_id ∷ [] }
      → (p ≡ q) × (t.payouts ≡ s.payouts) × (t.ledger ≡ s.ledger) × (t.breaker ≡ s.breaker)
  unfolding commit
  on_existing c s t u env r key p q q' found' found done left = ground arith

  -- A request under a key that a payout carries books nothing: it answers with that payout, and
  -- neither the payouts nor the ledger nor the circuit breaker change.
  pub request_withdrawal-idempotent :
      (c : Config) (s t : Store) (env : Environment) (r : WithdrawalRequest) (key : ℕ)
      (p q : Payout)
      → r.idempotency_key ≡ some key
      → find (with_key key) s.payouts ≡ some q
      → request_withdrawal db c s env r ≡ (ok p, t)
      → (p ≡ q) × (t.payouts ≡ s.payouts) × (t.ledger ≡ s.ledger) × (t.breaker ≡ s.breaker)
  request_withdrawal-idempotent c s t env r key p q k found h =
      let (a, u, admitted, committed, left) = request-commit c s t env r key p k h in
      on_admission a u admitted committed left
    where
      on_admission :
          (a : Admission) (u : Store)
          → admit c s env.now r key ≡ ok a
          → commit db c s env r key a ≡ ok (p, u)
          → t ≡ record u { outbox = u.outbox ++ withdrawal_requested r.user_id ∷ [] }
          → (p ≡ q) × (t.payouts ≡ s.payouts) × (t.ledger ≡ s.ledger) × (t.breaker ≡ s.breaker)
      on_admission (existing q') u admitted committed left =
          on_existing c s t u env r key p q q' (admit-existing c s env.now key r q' admitted) found
            committed left
      on_admission (fresh charge) u admitted committed left =
          absurd (ground (arith, admit-fresh c s env.now key r charge admitted))
