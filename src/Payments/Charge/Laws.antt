-- ===== src/Payments/Charge/Laws.antt =====
-- What a charge leaves, and how long a call waits for another one's: payments/payments.service.ts and
-- payments/payment-intent-locker.ts.
use limpeja_backend.Common.{
  ℕ, zero, suc, ◌+◌, ◌*◌, ◌≤◌, ◌≡◌, refl, ◌==◌, ltb, true, false, Option, none, some, List, [], ◌∷◌,
  arith, inl, inr, Bool-cases,
}
use limpeja_backend.Common.Lists.{find}
use limpeja_backend.Common.Text.{text_eq}
use limpeja_backend.Common.Outcome.{Outcome, ok, err}
use limpeja_backend.Payments.{pending, PaymentIntent, Store, intent_of}
use limpeja_backend.Payments.Locker.{
  claim_found, claim_payment_intent, claim_payment_intent_lem, is_intent_active,
}
use limpeja_backend.Payments.Settlement.{is_pending_booking}
use limpeja_backend.Payments.Charge.{
  ChargedBooking, ChargeRequest, Order, ChargeError, gateway_failed, is_row_ready, or_not_ready,
  wait_rounds, wait_for_intent_ready, pending_intent, create_pix_charge,
}

module _ (clock : ℕ → ℕ) (row : ℕ → Option PaymentIntent) where
  wait_rounds-ends :
      (fuel k deadline : ℕ)
      → ((j : ℕ) → clock j + 150 ≤ clock (suc j))
      → deadline ≤ clock k + 150 * fuel
      → (r : Outcome ChargeError PaymentIntent) × (wait_rounds clock row (suc fuel) k deadline
          ≡ some r)
  unfolding wait_rounds
  wait_rounds-ends zero k deadline step near =
      let over : ltb (clock k) deadline ≡ false = ground arith in
      (or_not_ready (row k), rw over refl)
  wait_rounds-ends (suc fuel) k deadline step near = elim (Bool-cases (ltb (clock k) deadline)) [
    | inr e ↦ (or_not_ready (row k), rw e refl)
    | inl e ↦
        let gap = step k in
        let (r, rest) = wait_rounds-ends fuel (suc k) deadline step (omega (arith, gap)) in
        elim (Bool-cases (is_row_ready (row k))) [
          | inl ready ↦ (or_not_ready (row k), rw (e, ready) refl)
          | inr waits ↦ (r, rw (e, waits) rest)
        ]
  ]

  -- The wait for another call's charge ends: on any clock on which a round takes its pause, and
  -- whatever the rows read are, fifteen rounds are enough.
  pub wait_for_intent_ready-ends :
      ((j : ℕ) → clock j + 150 ≤ clock (suc j))
      → (r : Outcome ChargeError PaymentIntent) × (wait_for_intent_ready clock row 15 ≡ some r)
  unfolding wait_for_intent_ready
  wait_for_intent_ready-ends step = wait_rounds-ends 14 0 (clock 0 + 2000) step (omega arith)

find-pending :
    (booking : ℕ) (is : List PaymentIntent) (i : PaymentIntent)
    → find (intent_of booking) is ≡ some i
    → i.status ≡ pending
    → find (pending_intent booking) is ≡ some i
find-pending booking [] i found open_ = absurd cc
find-pending booking (j ∷ js) i found open_ = ground (arith, find-pending booking js i)

none-pending :
    (booking : ℕ) (is : List PaymentIntent) (i : PaymentIntent)
    → find (pending_intent booking) is ≡ none
    → find (intent_of booking) is ≡ some i
    → is_intent_active i.status ≡ false
none-pending booking [] i clear found = absurd cc
none-pending booking (j ∷ js) i clear found = ground (arith, none-pending booking js i)

-- An intent on which no charge at the gateway has been written.
abbrev pub IsBare : PaymentIntent → Type 0
IsBare i =
    (i.status ≡ pending)
    × (i.external_order_id ≡ none)
    × (i.external_charge_id ≡ none)
    × (i.qr_code_text ≡ none)
    × (i.qr_code_url ≡ none)

claim_found-IsBare :
    (s : Store) (booking amount reference key : ℕ) (o : Option PaymentIntent)
    → ((i : PaymentIntent) → o ≡ some i → is_intent_active i.status ≡ false)
    → ((claim_found s booking amount reference key o).should_create ≡ true)
      × IsBare (claim_found s booking amount reference key o).intent
claim_found-IsBare s booking amount reference key none h = (refl, (refl, refl, refl, refl, refl))
claim_found-IsBare s booking amount reference key (some i) h =
    let off = h i refl in simp off (refl, (refl, refl, refl, refl, refl))

claim-IsBare :
    (s : Store) (booking amount reference key : ℕ)
    → find (pending_intent booking) s.intents ≡ none
    → ((claim_payment_intent s booking amount reference key).should_create ≡ true)
      × IsBare (claim_payment_intent s booking amount reference key).intent
unfolding claim_payment_intent
claim-IsBare s booking amount reference key clear =
    claim_found-IsBare s booking amount reference key (find (intent_of booking) s.intents)
      (λ i found. none-pending booking s.intents i clear found)

-- The booking may be charged by the request.
abbrev pub MayCharge : ChargeRequest → ChargedBooking → Type 0
MayCharge r b =
    (text_eq b.client_user r.client_user ≡ true)
    × ((b.provider_id == r.provider_id) ≡ true)
    × (is_pending_booking b.status ≡ true)
    × (b.has_email ≡ true)
    × (ltb b.price_cents 100 ≡ false)

-- A charge that the gateway refuses leaves its claim: the intent stays pending without a code to
-- pay by, and every later call for the booking answers with that intent, whatever the gateway would
-- answer then, and changes nothing.
pub refused_charge_sticks :
    (s : Store) (r : ChargeRequest) (b : ChargedBooking) (answer : Option Order)
    (waited again : Outcome ChargeError PaymentIntent)
    → MayCharge r b
    → find (pending_intent r.booking_id) s.intents ≡ none
    → let first = create_pix_charge true s r (some b) none waited in
      let second = create_pix_charge true first.store r (some b) answer again in
      (first.result ≡ err gateway_failed)
      × ((i : PaymentIntent) × (second.result ≡ ok i) × IsBare i)
      × (second.store ≡ first.store)
unfolding create_pix_charge
refused_charge_sticks s r b answer waited again (own, provider, awaits, email, enough) clear =
    let claim = claim_payment_intent s r.booking_id b.price_cents r.reference r.idempotency_key in
    let (creates, bare) =
      claim-IsBare s r.booking_id b.price_cents r.reference r.idempotency_key clear in
    let (stored, open_) =
      claim_payment_intent_lem s r.booking_id b.price_cents r.reference r.idempotency_key in
    let found = find-pending r.booking_id claim.store.intents claim.intent stored open_ in
    (
      simp (own, provider, awaits, email, enough, clear, creates) refl,
      (claim.intent, simp (own, provider, awaits, email, enough, clear, creates, found) refl, bare),
      simp (own, provider, awaits, email, enough, clear, creates, found) refl,
    )
