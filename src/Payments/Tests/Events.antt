-- ===== src/Payments/Tests/Events.antt =====
-- Runs of the events of the gateway and of its charges.
use limpeja_backend.Common.{◌+◌, ◌*◌, ◌≡◌, refl, true, false, none, some, List, [], ◌∷◌, arith}
use limpeja_backend.Common.Text.{codes, to_upper_case}
use limpeja_backend.Common.Outcome.{Outcome, ok, err}
use limpeja_backend.Bookings.Status.{BookingStatus}
use limpeja_backend.Payments.{paid, expired, PaymentIntent, Store, update_intent, update_booking}
use limpeja_backend.Payments.Webhook.{
  PaymentWebhook, handled, handled_and_confirm, says_paid, says_failed, with_entries, mark_paid,
  handle_payment_webhook,
}
use limpeja_backend.Payments.Settlement.Laws.{HasOneHold}
use limpeja_backend.Payments.Webhook.Laws.{
  Event, payment, pix, after_events, events-HasOneHold, failed_event_reopens,
  unnamed_event_pays_first,
}
use limpeja_backend.Payments.Charge.{
  ChargedBooking, ChargeRequest, ChargeError, gateway_failed, not_ready, wait_for_intent_ready,
  create_pix_charge,
}
use limpeja_backend.Payments.Charge.Laws.{IsBare, wait_for_intent_ready-ends, refused_charge_sticks}
use limpeja_backend.Payments.Tests.{charged, cleaning, store, half_up}

abbrev paid_event : PaymentWebhook
paid_event = record {
  is_signed = true;
  is_charge_paid = true;
  status = [];
  external_ref = none;
  reference_id = some 999;
}

abbrev failed_event : PaymentWebhook
failed_event = record {
  is_signed = true;
  is_charge_paid = false;
  status = codes "canceled";
  external_ref = some 70;
  reference_id = none;
}

abbrev events : List Event
events =
    payment paid_event
    ∷ pix 100 (record {
      charge_status = codes "paid";
      reference = record { reference = some 70; charge = none; event = none };
    })
    ∷ payment failed_event
    ∷ payment paid_event
    ∷ []

events-HasOneHold_example : HasOneHold 7 (after_events half_up store events)
events-HasOneHold_example = events-HasOneHold half_up 7 store events (omega arith)

paid_says : says_paid paid_event ≡ true
unfolding says_paid to_upper_case
paid_says = refl

paid_not_failed : says_failed paid_event ≡ false
unfolding says_failed to_upper_case
paid_not_failed = refl

failed_says : says_failed failed_event ≡ true
unfolding says_failed to_upper_case
failed_says = refl

failed_not_paid : says_paid failed_event ≡ false
unfolding says_paid to_upper_case
failed_not_paid = refl

unnamed_event_pays_first_run :
    handle_payment_webhook half_up store paid_event
    ≡ (handled_and_confirm 7, with_entries half_up (mark_paid store charged) cleaning 3)
unnamed_event_pays_first_run =
    unnamed_event_pays_first half_up store paid_event 999 3 charged [] cleaning refl paid_says
      paid_not_failed refl refl refl refl refl refl

abbrev settled_intent : PaymentIntent
settled_intent = record charged { status = paid }

abbrev served : Store
served = record {
  intents = settled_intent ∷ [];
  bookings = record cleaning { status = BookingStatus.finished } ∷ [];
  entries = [];
  next_id = 2;
}

failed_event_reopens_run : handle_payment_webhook half_up served failed_event ≡ (
  handled,
  record served {
    intents = update_intent 1 (λ j. record j { status = expired }) served.intents;
    bookings = update_booking 7 (λ b. record b { status = BookingStatus.pending }) served.bookings;
  },
)
failed_event_reopens_run =
    failed_event_reopens half_up served failed_event settled_intent refl failed_not_paid failed_says
      refl refl

wait_for_intent_ready-ends_example :
    (r : Outcome ChargeError PaymentIntent) × (wait_for_intent_ready
        (λ k. 1000 + 150 * k)
        (λ k. none)
        15
      ≡ some r)
wait_for_intent_ready-ends_example =
    wait_for_intent_ready-ends (λ k. 1000 + 150 * k) (λ k. none) (λ j. omega arith)

abbrev booked : ChargedBooking
booked = record {
  id = 7;
  client_user = codes "ana";
  provider_id = 3;
  status = BookingStatus.pending_payment;
  price_cents = 12000;
  has_email = true;
}

abbrev asked : ChargeRequest
asked = record {
  client_user = codes "ana";
  booking_id = 7;
  provider_id = 3;
  reference = 70;
  idempotency_key = 1;
}

abbrev fresh : Store
fresh = record { intents = []; bookings = cleaning ∷ []; entries = []; next_id = 2 }

refused_charge_sticks_example :
    let first = create_pix_charge true fresh asked (some booked) none (err not_ready) in
    let second = create_pix_charge true first.store asked (some booked) none (err not_ready) in
    (first.result ≡ err gateway_failed)
    × ((i : PaymentIntent) × (second.result ≡ ok i) × IsBare i)
    × (second.store ≡ first.store)
refused_charge_sticks_example =
    refused_charge_sticks fresh asked booked none (err not_ready) (err not_ready)
      (refl, refl, refl, refl, refl) refl
