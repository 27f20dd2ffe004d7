-- ===== src/Payments/Charge.antt =====
-- `createPixCharge` of payments/payments.service.ts, around `claimPaymentIntent`, and
-- `waitForIntentReady` of payments/payment-intent-locker.ts. The answer of the gateway is an argument,
-- and so are the clock and the rows that the rounds of the wait read. The payload that is sent and
-- the form of the response are left out; the price is in cents.
pub mod Laws
use limpeja_backend.Common.{
  ℕ, zero, suc, ◌+◌, ◌==◌, ltb, Bool, true, false, not, ◌&&◌, ◌||◌, Option, none, some, List, [],
  ◌∷◌, if◌then◌else◌,
}
use limpeja_backend.Common.Lists.{find, is_some}
use limpeja_backend.Common.Text.{Text, text_eq}
use limpeja_backend.Common.Outcome.{Outcome, ok, err, throw_if}
use limpeja_backend.Bookings.Status.{BookingStatus}
use limpeja_backend.Payments.{
  PaymentIntentStatus, pending, PaymentIntent, Store, intent_of, update_intent,
}
use limpeja_backend.Payments.Locker.{is_intent_active, Claim, claim_payment_intent}
use limpeja_backend.Payments.Settlement.{is_pending_booking}

-- The booking with its client, as `createPixCharge` reads it.
pub record ChargedBooking : Type 0 where
  pub id : ℕ
  pub client_user : Text
  pub provider_id : ℕ
  pub status : BookingStatus
  pub price_cents : ℕ
  pub has_email : Bool

pub record ChargeRequest : Type 0 where
  pub client_user : Text
  pub booking_id : ℕ
  pub provider_id : ℕ
  pub reference : ℕ
  pub idempotency_key : ℕ

-- The answer of the gateway: an order with its first code for the payment, if it has one.
pub record QrCode : Type 0 where
  pub id : ℕ
  pub text : ℕ
  pub url : Option ℕ
  pub expires_at : ℕ

pub record Order : Type 0 where
  pub id : ℕ
  pub qr : Option QrCode

pub data ChargeError : Type 0 where
  booking_not_found forbidden other_provider not_pending psp_not_configured : ChargeError
  below_minimum no_email gateway_failed no_qr_code not_ready : ChargeError

abbrev pub is_ready : PaymentIntent → Bool
is_ready i = is_some i.external_order_id && is_some i.qr_code_url

abbrev pub or_not_ready : Option PaymentIntent → Outcome ChargeError PaymentIntent
or_not_ready none = err not_ready
or_not_ready (some i) = ok i

abbrev pub is_row_ready : Option PaymentIntent → Bool
is_row_ready none = false
is_row_ready (some i) = is_ready i

-- `clock k` is the time of the test of round k and `row k` the row that it reads, or that is read
-- after the loop. `none` means that the fuel ran out.
module _ (clock : ℕ → ℕ) (row : ℕ → Option PaymentIntent) where
  unfoldable pub wait_rounds : ℕ → ℕ → ℕ → Option (Outcome ChargeError PaymentIntent)
  wait_rounds zero k deadline = none
  wait_rounds (suc fuel) k deadline =
      let rest = wait_rounds fuel (suc k) deadline in
      if ltb (clock k) deadline
      then (if is_row_ready (row k) then some (or_not_ready (row k)) else rest)
      else some (or_not_ready (row k))

  -- `waitForIntentReady`: two seconds, with 150 ms between the rounds.
  unfoldable pub wait_for_intent_ready : ℕ → Option (Outcome ChargeError PaymentIntent)
  wait_for_intent_ready fuel = wait_rounds fuel 0 (clock 0 + 2000)

pub record Charge : Type 0 where
  pub result : Outcome ChargeError PaymentIntent
  pub store : Store

-- `existingIntent`: the booking column is unique, so there is one row at most.
abbrev pub pending_intent : ℕ → PaymentIntent → Bool
pending_intent booking i = intent_of booking i && is_intent_active i.status

abbrev pub with_order : Order → QrCode → PaymentIntent → PaymentIntent
with_order o qr i = record i {
  external_order_id = some o.id;
  external_charge_id = some qr.id;
  external_qr_code_id = some qr.id;
  qr_code_text = some qr.text;
  qr_code_url = qr.url;
  expires_at = some qr.expires_at;
  status = pending;
}

abbrev pub with_qr : Claim → Order → Option QrCode → Charge
with_qr c o none = record { result = err no_qr_code; store = c.store }
with_qr c o (some qr) = record {
  result = ok (with_order o qr c.intent);
  store = record (c.store) {
    intents = update_intent c.intent.id (with_order o qr) c.store.intents;
  };
}

abbrev pub with_answer : Claim → Option Order → Charge
with_answer c none = record { result = err gateway_failed; store = c.store }
with_answer c (some o) = with_qr c o o.qr

-- The claim and the gateway; `waited` is what `waitForIntentReady` returns for a charge that another
-- call is making.
abbrev pub charge_claimed : Claim → Option Order → Outcome ChargeError PaymentIntent → Charge
charge_claimed c answer waited =
    if c.should_create then with_answer c answer else record { result = waited; store = c.store }

abbrev pub charge_unless_pending :
    Bool
    → Store
    → ChargeRequest
    → ChargedBooking
    → Option Order
    → Outcome ChargeError PaymentIntent
    → Option PaymentIntent
    → Charge
charge_unless_pending is_configured s r b answer waited (some i) = record {
  result = ok i;
  store = s;
}
charge_unless_pending is_configured s r b answer waited none =
    let claimed =
      charge_claimed
        (claim_payment_intent s r.booking_id b.price_cents r.reference r.idempotency_key) answer
        waited in
    if not is_configured
    then record { result = err psp_not_configured; store = s }
    else (if ltb b.price_cents 100
        then record { result = err below_minimum; store = s }
        else (if not b.has_email then record { result = err no_email; store = s } else claimed))

abbrev pub charge_booking :
    Bool
    → Store
    → ChargeRequest
    → Option ChargedBooking
    → Option Order
    → Outcome ChargeError PaymentIntent
    → Charge
charge_booking is_configured s r none answer waited = record {
  result = err booking_not_found;
  store = s;
}
charge_booking is_configured s r (some b) answer waited =
    let charged =
      charge_unless_pending is_configured s r b answer waited
        (find (pending_intent r.booking_id) s.intents) in
    if not (text_eq b.client_user r.client_user)
    then record { result = err forbidden; store = s }
    else (if not (b.provider_id == r.provider_id)
        then record { result = err other_provider; store = s }
        else (if not (is_pending_booking b.status)
            then record { result = err not_pending; store = s }
            else charged))

-- `createPixCharge`, given the row of the booking.
unfoldable pub create_pix_charge :
    Bool
    → Store
    → ChargeRequest
    → Option ChargedBooking
    → Option Order
    → Outcome ChargeError PaymentIntent
    → Charge
create_pix_charge is_configured s r b answer waited =
    charge_booking is_configured s r b answer waited
