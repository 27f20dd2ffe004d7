-- ===== src/Payments/Locker.antt =====
-- payments/payment-intent-locker.ts, `claimPaymentIntent`.
use limpeja_backend.Common.{
  ℕ, ◌+◌, ◌≡◌, refl, Bool, true, false, Option, none, some, List, [], ◌∷◌, ◌++◌, arith,
  if◌then◌else◌, inl, inr, Bool-cases,
}
use limpeja_backend.Common.Lists.{find}
use limpeja_backend.Common.Outcome.{err}
use limpeja_backend.Payments.{
  PaymentIntentStatus, pending, paid, PaymentIntent, Store, intent_of, update_intent,
}
use limpeja_backend.Payments.Machine.{
  confirmed, awaiting, state_of, invalid_transition, apply_transition, can_transition,
}

-- `isIntentActive`
abbrev pub is_intent_active : PaymentIntentStatus → Bool
is_intent_active pending = true
is_intent_active _ = false

abbrev pub reset : (amount reference key : ℕ) → PaymentIntent → PaymentIntent
reset amount reference key i = record i {
  amount_cents = amount;
  status = pending;
  reference_id = some reference;
  external_ref = some reference;
  idempotency_key = key;
  external_order_id = none;
  external_charge_id = none;
  external_qr_code_id = none;
  qr_code_text = none;
  qr_code_url = none;
  expires_at = none;
}

abbrev pub new_intent : (id booking amount reference key : ℕ) → PaymentIntent
new_intent id booking amount reference key = record {
  id = id;
  booking_id = booking;
  amount_cents = amount;
  status = pending;
  reference_id = some reference;
  external_ref = some reference;
  idempotency_key = key;
  external_order_id = none;
  external_charge_id = none;
  external_qr_code_id = none;
  qr_code_text = none;
  qr_code_url = none;
  expires_at = none;
}

pub record Claim : Type 0 where
  pub intent : PaymentIntent
  pub should_create : Bool
  pub store : Store

abbrev pub claim_found : Store → (booking amount reference key : ℕ) → Option PaymentIntent → Claim
claim_found s booking amount reference key none =
    let i = new_intent s.next_id booking amount reference key in
    record {
      intent = i;
      should_create = true;
      store = record s { intents = s.intents ++ i ∷ []; next_id = s.next_id + 1 };
    }
claim_found s booking amount reference key (some i) =
    if is_intent_active i.status
    then record { intent = i; should_create = false; store = s }
    else record {
      intent = reset amount reference key i;
      should_create = true;
      store = record s { intents = update_intent i.id (reset amount reference key) s.intents };
    }

-- `claimPaymentIntent`
unfoldable pub claim_payment_intent : Store → (booking amount reference key : ℕ) → Claim
claim_payment_intent s booking amount reference key =
    claim_found s booking amount reference key (find (intent_of booking) s.intents)

find-update_intent :
    (booking id amount reference key : ℕ) (is : List PaymentIntent) (i : PaymentIntent)
    → find (intent_of booking) is ≡ some i
    → i.id ≡ id
    → find (intent_of booking) (update_intent id (reset amount reference key) is)
      ≡ some (reset amount reference key i)
unfolding update_intent
find-update_intent booking id amount reference key [] i h k = absurd cc
find-update_intent booking id amount reference key (j ∷ js) i h k =
    ground (arith, find-update_intent booking id amount reference key js i)

find-append_intent :
    (booking : ℕ) (is : List PaymentIntent) (i : PaymentIntent)
    → find (intent_of booking) is ≡ none
    → i.booking_id ≡ booking
    → find (intent_of booking) (is ++ i ∷ []) ≡ some i
find-append_intent booking [] i h k = ground arith
find-append_intent booking (j ∷ js) i h k = ground (arith, find-append_intent booking js i)

abbrev pub IsClaimed : ℕ → Claim → Type 0
IsClaimed booking r =
    (find (intent_of booking) r.store.intents ≡ some r.intent) × (r.intent.status ≡ pending)

is_intent_active_sound : (t : PaymentIntentStatus) → is_intent_active t ≡ true → t ≡ pending
is_intent_active_sound t h = ground arith

claim_found-IsClaimed :
    (s : Store) (booking amount reference key : ℕ) (o : Option PaymentIntent)
    → find (intent_of booking) s.intents ≡ o
    → IsClaimed booking (claim_found s booking amount reference key o)
claim_found-IsClaimed s booking amount reference key none h =
    let i = new_intent s.next_id booking amount reference key in
    (find-append_intent booking s.intents i h refl, refl)
claim_found-IsClaimed s booking amount reference key (some i) h =
    elim (Bool-cases (is_intent_active i.status)) [
      | inl e ↦ simp e (h, is_intent_active_sound i.status e)
      | inr e ↦
          simp e (find-update_intent booking i.id amount reference key s.intents i h refl, refl)
    ]

-- After a claim, the intent of the booking in the store is the one returned, and it is pending.
pub claim_payment_intent_lem :
    (s : Store) (booking amount reference key : ℕ)
    → IsClaimed booking (claim_payment_intent s booking amount reference key)
unfolding claim_payment_intent
claim_payment_intent_lem s booking amount reference key =
    claim_found-IsClaimed s booking amount reference key (find (intent_of booking) s.intents) refl

-- The second of two claims for a booking is not told to create a charge at the gateway: whatever its
-- amount and keys, it gets the intent of the first and leaves the store as it is.
pub claim_payment_intent-once :
    (s : Store) (booking amount reference key amount2 reference2 key2 : ℕ)
    → let first = claim_payment_intent s booking amount reference key in
      let again = claim_payment_intent first.store booking amount2 reference2 key2 in
      (again.should_create ≡ false) × (again.intent ≡ first.intent) × (again.store ≡ first.store)
unfolding claim_payment_intent
claim_payment_intent-once s booking amount reference key amount2 reference2 key2 =
    let first = claim_payment_intent s booking amount reference key in
    let (found, status) = claim_payment_intent_lem s booking amount reference key in ground arith

-- A claim for a booking whose intent is paid turns that intent back to pending and asks for a new
-- charge, a step that the state machine of payments refuses.
pub claim_reopens_paid :
    (s : Store) (booking amount reference key : ℕ) (i : PaymentIntent)
    → find (intent_of booking) s.intents ≡ some i
    → i.status ≡ paid
    → ((claim_payment_intent s booking amount reference key).should_create ≡ true)
      × ((claim_payment_intent s booking amount reference key).intent
          ≡ reset amount reference key i)
      × (apply_transition (state_of i.status) (state_of pending)
          ≡ err (invalid_transition confirmed awaiting))
unfolding claim_payment_intent apply_transition can_transition
claim_reopens_paid s booking amount reference key i h k = simp (h, k) (refl, refl, refl)
