-- ===== src/Payments/Webhook/Laws.antt =====
-- What the events of the gateway keep, and what they do not: payments/payments.service.ts.
use limpeja_backend.Common.{
  ℕ, ◌≡◌, ◌==◌, refl, true, false, Option, none, some, List, [], ◌∷◌, arith,
}
use limpeja_backend.Common.Lists.{find}
use limpeja_backend.Bookings.Status.{BookingStatus}
use limpeja_backend.Payments.{
  pending, paid, expired, PaymentIntent, Booking, Store, update_intent, update_booking,
}
use limpeja_backend.Payments.Machine.{can_transition}
use limpeja_backend.Payments.Settlement.{book}
use limpeja_backend.Payments.Settlement.Laws.{
  HasOneHold, book-HasOneHold, finalize_pix_payment-HasOneHold,
}
use limpeja_backend.Payments.Webhook.{
  PaymentWebhook, PixWebhook, handled, handled_and_confirm, says_paid, says_failed,
  has_external_ref, Stage, stop, go, mark_paid, with_entries, pay_provider, pay_booking, pay_intent,
  paid_part, fail_intent, failed_part, rest_of, handle_payment_webhook, handle_pix_webhook,
  store_after,
}

fail_intent-entries : (s : Store) (o : Option PaymentIntent) → (fail_intent s o).entries ≡ s.entries
fail_intent-entries s none = refl
fail_intent-entries s (some i) = ground arith

failed_part-entries : (s : Store) (w : PaymentWebhook) → (failed_part s w).entries ≡ s.entries
unfolding failed_part
failed_part-entries s w =
    let failed = fail_intent-entries s (find (has_external_ref w.external_ref) s.intents) in
    ground (arith, failed)

module _ (to_cents : ℕ → ℕ) where
  -- The older route books the entries that a settlement books.
  with_entries-book :
      (s : Store) (i : PaymentIntent) (b : Booking) (user : ℕ)
      → (with_entries to_cents (mark_paid s i) b user).entries ≡ (book to_cents s i b user).entries
  unfolding book
  with_entries-book s i b user = refl

  pay_provider-HasOneHold :
      (booking : ℕ) (s : Store) (i : PaymentIntent) (b : Booking) (o : Option ℕ)
      → HasOneHold booking s
      → HasOneHold booking (pay_provider to_cents s i b o).1
  pay_provider-HasOneHold booking s i b none h = h
  pay_provider-HasOneHold booking s i b (some user) h =
      rw (with_entries-book s i b user) (book-HasOneHold to_cents booking s i b user h)

  pay_booking-HasOneHold :
      (booking : ℕ) (s : Store) (i : PaymentIntent) (o : Option Booking)
      → HasOneHold booking s
      → HasOneHold booking (pay_booking to_cents s i o).1
  pay_booking-HasOneHold booking s i none h = h
  pay_booking-HasOneHold booking s i (some b) h =
      pay_provider-HasOneHold booking s i b b.provider_user_id h

  pay_intent-HasOneHold :
      (booking : ℕ) (s : Store) (o : Option PaymentIntent)
      → HasOneHold booking s
      → HasOneHold booking (pay_intent to_cents s o).1
  pay_intent-HasOneHold booking s none h = h
  pay_intent-HasOneHold booking s (some i) h =
      let paid_now =
        pay_booking-HasOneHold booking s i (find (λ b. b.id == i.booking_id) s.bookings) h in
      ground (arith, paid_now)

  paid_part-HasOneHold :
      (booking : ℕ) (s : Store) (w : PaymentWebhook)
      → HasOneHold booking s
      → HasOneHold booking (paid_part to_cents s w).1
  unfolding paid_part
  paid_part-HasOneHold booking s w h =
      let found =
        pay_intent-HasOneHold booking s (find (has_external_ref w.external_ref) s.intents) h in
      ground (arith, found)

  rest_of-HasOneHold :
      (booking : ℕ) (w : PaymentWebhook) (r : Stage × Store)
      → HasOneHold booking r.1
      → HasOneHold booking (rest_of w r).1
  rest_of-HasOneHold booking w (stop a, s) h = h
  rest_of-HasOneHold booking w (go a, s) h = rw (failed_part-entries s w) h

  webhook-HasOneHold :
      (booking : ℕ) (s : Store) (w : PaymentWebhook)
      → HasOneHold booking s
      → HasOneHold booking (handle_payment_webhook to_cents s w).1
  unfolding handle_payment_webhook
  webhook-HasOneHold booking s w h =
      let rest =
        rest_of-HasOneHold booking w (paid_part to_cents s w)
          (paid_part-HasOneHold booking s w h) in
      ground (arith, rest)

  pix-HasOneHold :
      (booking : ℕ) (s : Store) (now : ℕ) (w : PixWebhook)
      → HasOneHold booking s
      → HasOneHold booking (store_after s (handle_pix_webhook to_cents s now w))
  unfolding handle_pix_webhook
  pix-HasOneHold booking s now w h =
      let settled_now = finalize_pix_payment-HasOneHold to_cents booking s now w.reference h in
      ground (arith, settled_now)

-- An event on either route, with the time at which it comes.
pub data Event : Type 0 where
  payment : PaymentWebhook → Event
  pix : ℕ → PixWebhook → Event

abbrev pub after_event : (ℕ → ℕ) → Store → Event → Store
after_event to_cents s (payment w) = (handle_payment_webhook to_cents s w).1
after_event to_cents s (pix now w) = store_after s (handle_pix_webhook to_cents s now w)

abbrev pub after_events : (ℕ → ℕ) → Store → List Event → Store
after_events to_cents s [] = s
after_events to_cents s (e ∷ es) = after_events to_cents (after_event to_cents s e) es

-- The two routes of the gateway never hold a booking's money twice: after any events on either, in
-- any order and repeated as often as may be, a booking that had at most one hold has at most one.
pub events-HasOneHold :
    (to_cents : ℕ → ℕ) (booking : ℕ) (s : Store) (es : List Event)
    → HasOneHold booking s
    → HasOneHold booking (after_events to_cents s es)
events-HasOneHold to_cents booking s [] h = h
events-HasOneHold to_cents booking s (payment w ∷ es) h =
    events-HasOneHold to_cents booking (handle_payment_webhook to_cents s w).1 es
      (webhook-HasOneHold to_cents booking s w h)
events-HasOneHold to_cents booking s (pix now w ∷ es) h =
    events-HasOneHold to_cents booking (store_after s (handle_pix_webhook to_cents s now w)) es
      (pix-HasOneHold to_cents booking s now w h)

-- A failed event is not held back by the state of the intent: one for a paid intent of a booking in
-- any status makes the intent expired and the booking pending, and leaves what is held.
pub failed_event_reopens :
    (to_cents : ℕ → ℕ) (s : Store) (w : PaymentWebhook) (i : PaymentIntent)
    → w.is_signed ≡ true
    → says_paid w ≡ false
    → says_failed w ≡ true
    → find (has_external_ref w.external_ref) s.intents ≡ some i
    → i.status ≡ paid
    → handle_payment_webhook to_cents s w ≡ (
      handled,
      record s {
        intents = update_intent i.id (λ j. record j { status = expired }) s.intents;
        bookings =
            update_booking i.booking_id
              (λ b. record b { status = BookingStatus.pending })
              s.bookings;
      },
    )
unfolding handle_payment_webhook paid_part failed_part
failed_event_reopens to_cents s w i signed not_paid failed found was_paid =
    simp (signed, not_paid, failed, found, was_paid) refl

-- A paid event that names a reference but no id of the gateway settles the first intent of the
-- table, whichever booking it belongs to.
pub unnamed_event_pays_first :
    (to_cents : ℕ → ℕ) (s : Store) (w : PaymentWebhook) (reference user : ℕ) (i : PaymentIntent)
    (is : List PaymentIntent) (b : Booking)
    → w.is_signed ≡ true
    → says_paid w ≡ true
    → says_failed w ≡ false
    → w.external_ref ≡ none
    → w.reference_id ≡ some reference
    → s.intents ≡ i ∷ is
    → i.status ≡ pending
    → find (λ c. c.id == i.booking_id) s.bookings ≡ some b
    → b.provider_user_id ≡ some user
    → handle_payment_webhook to_cents s w
      ≡ (handled_and_confirm b.id, with_entries to_cents (mark_paid s i) b user)
unfolding handle_payment_webhook paid_part failed_part can_transition
unnamed_event_pays_first to_cents s w reference user i is b signed says fails ref named first open_
      found provided =
    simp (signed, says, fails, ref, named, first, open_, found, provided) refl
