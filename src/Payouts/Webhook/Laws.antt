-- ===== src/Payouts/Webhook/Laws.antt =====
-- What the gateway's events can and cannot do.
use limpeja_backend.Common.{
  ℕ, ◌≡◌, refl, subst, ◌∙◌, Bool, true, false, Option, some, List, [], ◌∷◌, ◌++◌, arith,
  Option-cases, Bool-cases, inl, inr,
}
use limpeja_backend.Common.Int.{add_zero}
use limpeja_backend.Common.Lists.{includes}
use limpeja_backend.Common.Outcome.{Outcome, ok, err}
use limpeja_backend.Payouts.{
  PayoutStatus, pending, paid, TxnId, Payout, LedgerEntry, Store, Config, PayoutError, find_payout,
}
use limpeja_backend.Payouts.Ledger.{compute_balance, balance-same}
use limpeja_backend.Payouts.Update.{is_txn_taken, updated, apply_gateway_update}
use limpeja_backend.Payouts.Update.Laws.{apply_gateway_update-applied, apply_gateway_update-refused}
use limpeja_backend.Payouts.Webhook.{
  payout_status_name, normalize_status, Payload, WebhookReply, replay, same_event, mismatched,
  Delegate, delegated_reply, move_payout, keep_store, handle_payout_event, handle_gateway_webhook,
}

-- The name of every status normalizes to that status.
pub normalize-payout_status_name : (s : PayoutStatus) → normalize_status (payout_status_name s) ≡ s
unfolding normalize_status
normalize-payout_status_name pending = refl
normalize-payout_status_name _ = refl

includes-last : (e : ℕ) (es : List ℕ) → includes same_event e (es ++ e ∷ []) ≡ true
includes-last e [] = ground arith
includes-last e (x ∷ es) = ground (arith, includes-last e es)

event-replays :
    (s t : Store) (now : ℕ) (payload : Payload) (r : WebhookReply)
    → handle_payout_event s now payload ≡ ok (r, t)
    → t.replays ≡ s.replays
unfolding handle_payout_event move_payout
event-replays s t now payload r h = ground arith

handled-includes :
    (orders : Delegate) (s : Store) (now event : ℕ) (payload : Payload)
    → includes same_event event (handle_gateway_webhook orders s now (some event) payload).1.replays
      ≡ true
unfolding handle_gateway_webhook
handled-includes orders s now event payload =
    elim (Bool-cases (includes same_event event s.replays)) [
      | inl seen ↦ rw seen seen
      | inr new ↦ rw new (elim (Bool-cases payload.is_order) [
        | inl order ↦ simp order (handed (orders s.ledger))
        | inr other ↦ simp other (kept _ refl)
      ])
    ]
  where
    marked : Store
    marked = record s { replays = s.replays ++ event ∷ [] }

    handed :
        (p : Bool × List LedgerEntry)
        → includes same_event event (delegated_reply marked p).1.replays ≡ true
    handed (true, entries) = includes-last event s.replays
    handed (false, entries) = includes-last event s.replays

    kept :
        (r : Outcome PayoutError (WebhookReply × Store))
        → handle_payout_event marked now payload ≡ r
        → includes same_event event (keep_store marked r).1.replays ≡ true
    kept (ok (r, t)) e = rw (event-replays marked t now payload r e) (includes-last event s.replays)
    kept (err x) e = includes-last event s.replays

again :
    (orders : Delegate) (t : Store) (later event : ℕ) (payload : Payload)
    → includes same_event event t.replays ≡ true
    → handle_gateway_webhook orders t later (some event) payload ≡ (ok replay, t)
unfolding handle_gateway_webhook
again orders t later event payload h = rw h

-- Every event is handled once: whatever became of its first delivery, a further one is answered
-- as a replay and changes nothing.
pub replayed :
    (orders : Delegate) (s : Store) (now later event : ℕ) (first second : Payload)
    → let t = (handle_gateway_webhook orders s now (some event) first).1 in
      handle_gateway_webhook orders t later (some event) second ≡ (ok replay, t)
replayed orders s now later event first second =
    again orders (handle_gateway_webhook orders s now (some event) first).1 later event second
      (handled-includes orders s now event first)

-- An event of a payout whose handling throws has changed nothing but the record of events, so that
-- its repetition by the gateway is taken for a replay and the payout is never updated.
pub failed_event_is_lost :
    (orders : Delegate) (s t : Store) (now later event : ℕ) (payload : Payload) (x : PayoutError)
    → payload.is_order ≡ false
    → handle_gateway_webhook orders s now (some event) payload ≡ (err x, t)
    → (t ≡ record s { replays = s.replays ++ event ∷ [] })
      × (handle_gateway_webhook orders t later (some event) payload ≡ (ok replay, t))
unfolding handle_gateway_webhook
failed_event_is_lost orders s t now later event payload x other h = (
  ground arith,
  again orders t later event payload (
      subst (λ z. includes same_event event z.1.replays ≡ true) h
        (handled-includes orders s now event payload)),
)

-- The payout `id` stays paid with the amount of `p`, and no balance moves, from `s` to `t`.
abbrev pub KeepsPaid : ℕ → Payout → Store → Store → Type 0
KeepsPaid id p s t =
    ((q : Payout) × (find_payout id t.payouts ≡ some q) × (q.status ≡ paid) × (q.amount ≡ p.amount))
    × ((c : Config) (later user : ℕ)
        → compute_balance c t later user ≡ compute_balance c s later user)

stays_paid :
    (s : Store) (id : ℕ) (p : Payout)
    → find_payout id s.payouts ≡ some p
    → p.status ≡ paid
    → KeepsPaid id p s s
stays_paid s id p e h = ((p, e, h, refl), λ c later user. refl)

again_paid :
    (s : Store) (now id : ℕ) (txn : Option TxnId) (p : Payout)
    → find_payout id s.payouts ≡ some p
    → is_txn_taken s.payouts p.gateway_txn_id txn ≡ false
    → (t : Store) × (apply_gateway_update s now id paid txn ≡ ok t) × KeepsPaid id p s t
again_paid s now id txn p e free =
    let (t, done, found, moved) = apply_gateway_update-applied s now id paid txn p e free in
    (
      t,
      done,
      (
        (updated now paid txn p, found, refl, refl),
        λ c later user. moved c later user ∙ add_zero _,
      ),
    )

move-KeepsPaid :
    (s : Store) (now id : ℕ) (payload : Payload) (n : PayoutStatus) (p : Payout)
    → find_payout id s.payouts ≡ some p
    → p.status ≡ paid
    → KeepsPaid id p s (keep_store s (move_payout s now id payload n p)).1
unfolding move_payout
move-KeepsPaid s now id payload paid p e h =
    elim (Bool-cases (mismatched p.gateway_txn_id payload.gateway_txn_id)) [
      | inl bad ↦ rw (h, bad) (stays_paid s id p e h)
      | inr good ↦
          elim (Bool-cases (is_txn_taken s.payouts p.gateway_txn_id payload.gateway_txn_id)) [
            | inl taken ↦
                let refused =
                  apply_gateway_update-refused s now id paid payload.gateway_txn_id p e taken in
                rw (h, good, refused) (stays_paid s id p e h)
            | inr free ↦
                let (t, done, kept) = again_paid s now id payload.gateway_txn_id p e free in
                rw (h, good, done) kept
          ]
    ]
move-KeepsPaid s now id payload pending p e h = rw h (stays_paid s id p e h)
move-KeepsPaid s now id payload _ p e h = rw h (stays_paid s id p e h)

event-KeepsPaid :
    (s : Store) (now id : ℕ) (payload : Payload) (p : Payout)
    → payload.payout_id ≡ some id
    → find_payout id s.payouts ≡ some p
    → p.status ≡ paid
    → KeepsPaid id p s (keep_store s (handle_payout_event s now payload)).1
unfolding handle_payout_event
event-KeepsPaid s now id payload p k e h = elim (Option-cases payload.status) [
  | inl missing ↦ simp (k, missing) (stays_paid s id p e h)
  | inr (status, given) ↦
      simp (k, given, e) (move-KeepsPaid s now id payload (normalize_status status) p e h)
]

-- An event that names a payout that was paid, and is not an event of an order, leaves it paid with
-- its amount and changes no balance: the event is ignored or refused, or says once more that the
-- payout was paid.
pub paid_survives_events :
    (orders : Delegate) (s : Store) (now id event : ℕ) (payload : Payload) (p : Payout)
    → payload.is_order ≡ false
    → payload.payout_id ≡ some id
    → find_payout id s.payouts ≡ some p
    → p.status ≡ paid
    → let t = (handle_gateway_webhook orders s now (some event) payload).1 in KeepsPaid id p s t
unfolding handle_gateway_webhook
paid_survives_events orders s now id event payload p other k e h =
    elim (Bool-cases (includes same_event event s.replays)) [
      | inl seen ↦ rw seen (stays_paid s id p e h)
      | inr new ↦ simp (new, other) (seen_store _ (event-KeepsPaid marked now id payload p k e h))
    ]
  where
    marked : Store
    marked = record s { replays = s.replays ++ event ∷ [] }

    seen_store : (t : Store) → KeepsPaid id p marked t → KeepsPaid id p s t
    seen_store t (row, moved) =
        (row, λ c later user. moved c later user ∙ balance-same c s marked later user refl refl)
