-- ===== src/Payments/Webhook.antt =====
-- payments/payments.service.ts, `handlePaymentWebhook`, the route of the gateway's older events, and
-- `handlePixWebhook`, which ends in `finalizePixPayment`. Whether the signature fits is an argument,
-- and so are the ids that a payload names, the first that is given; the change of the booking to
-- CONFIRMED is asked for by the answer, since the bookings service makes it in a transaction of its
-- own. The messages to both sides are left out.
pub mod Laws
use limpeja_backend.Common.{
  ℕ, ◌==◌, Bool, true, false, not, ◌&&◌, ◌||◌, Option, none, some, List, [], ◌∷◌, ◌++◌,
  if◌then◌else◌,
}
use limpeja_backend.Common.Lists.{find, any, includes}
use limpeja_backend.Common.Text.{Text, codes, text_eq, to_upper_case}
use limpeja_backend.Bookings.Status.{BookingStatus}
use limpeja_backend.Payments.{
  PaymentIntentStatus, paid, expired, PaymentIntent, Booking, Store, update_intent, update_booking,
}
use limpeja_backend.Payments.Machine.{confirmed, state_of, can_transition}
use limpeja_backend.Payments.Settlement.{
  Reference, Settlement, Settled, is_paid, is_hold_of, payment_entries, same_ref,
  finalize_pix_payment,
}

pub record PaymentWebhook : Type 0 where
  pub is_signed : Bool
  pub is_charge_paid : Bool
  pub status : Text
  pub external_ref : Option ℕ
  pub reference_id : Option ℕ

pub data WebhookAnswer : Type 0 where
  invalid_signature provider_missing handled : WebhookAnswer
  handled_and_confirm : ℕ → WebhookAnswer

abbrev pub paid_statuses : List Text
paid_statuses = codes "PAID" ∷ codes "COMPLETED" ∷ codes "APPROVED" ∷ []

-- `failedStatuses`
abbrev pub failed_statuses : List Text
failed_statuses =
    codes "FAILED"
    ∷ codes "CANCELED"
    ∷ codes "CANCELLED"
    ∷ codes "DECLINED"
    ∷ codes "DENIED"
    ∷ codes "REFUSED"
    ∷ codes "EXPIRED"
    ∷ codes "TIMEOUT"
    ∷ []

unfoldable pub says_paid : PaymentWebhook → Bool
says_paid w = w.is_charge_paid || includes text_eq (to_upper_case w.status) paid_statuses

unfoldable pub says_failed : PaymentWebhook → Bool
says_failed w = includes text_eq (to_upper_case w.status) failed_statuses

-- `where: { externalRef }`, which Prisma reads as no condition where the value is undefined.
abbrev pub has_external_ref : Option ℕ → PaymentIntent → Bool
has_external_ref none i = true
has_external_ref (some r) i = same_ref (some r) i.external_ref

abbrev pub is_named : Option ℕ → Bool
is_named none = false
is_named (some r) = true

-- Whether there is a `bookingId`.
abbrev pub names_something : PaymentWebhook → Bool
names_something w = is_named w.reference_id || is_named w.external_ref

-- What the part for a paid event ends with: an answer at once, or the rest of the handler.
pub data Stage : Type 0 where
  stop : WebhookAnswer → Stage
  go : WebhookAnswer → Stage

abbrev pub mark_paid : Store → PaymentIntent → Store
mark_paid s i = record s {
  intents = update_intent i.id (λ j. record j { status = paid }) s.intents;
}

module _ (to_cents : ℕ → ℕ) where
  abbrev pub with_entries : Store → Booking → ℕ → Store
  with_entries s b user = record s {
    entries =
        if any (is_hold_of b.id) s.entries
        then s.entries
        else s.entries ++ payment_entries to_cents b user;
  }

  -- The transaction, on the booking of the intent; an exception in it leaves the store.
  abbrev pub pay_provider : Store → PaymentIntent → Booking → Option ℕ → Stage × Store
  pay_provider s i b none = (stop provider_missing, s)
  pay_provider s i b (some user) =
      (go (handled_and_confirm b.id), with_entries (mark_paid s i) b user)

  abbrev pub pay_booking : Store → PaymentIntent → Option Booking → Stage × Store
  pay_booking s i none = (go handled, mark_paid s i)
  pay_booking s i (some b) = pay_provider s i b b.provider_user_id

  abbrev pub pay_intent : Store → Option PaymentIntent → Stage × Store
  pay_intent s none = (go handled, s)
  pay_intent s (some i) =
      if is_paid i.status || not (can_transition (state_of i.status) confirmed)
      then (stop handled, s)
      else pay_booking s i (find (λ b. b.id == i.booking_id) s.bookings)

  unfoldable pub paid_part : Store → PaymentWebhook → Stage × Store
  paid_part s w =
      if says_paid w && names_something w
      then pay_intent s (find (has_external_ref w.external_ref) s.intents)
      else (go handled, s)

abbrev pub is_expired : PaymentIntentStatus → Bool
is_expired expired = true
is_expired _ = false

abbrev pub fail_intent : Store → Option PaymentIntent → Store
fail_intent s none = s
fail_intent s (some i) = if is_expired i.status then s else record s {
  intents = update_intent i.id (λ j. record j { status = expired }) s.intents;
  bookings =
      update_booking i.booking_id (λ b. record b { status = BookingStatus.pending }) s.bookings;
}

unfoldable pub failed_part : Store → PaymentWebhook → Store
failed_part s w =
    if says_failed w then fail_intent s (find (has_external_ref w.external_ref) s.intents) else s

abbrev pub rest_of : PaymentWebhook → Stage × Store → WebhookAnswer × Store
rest_of w (stop a, s) = (a, s)
rest_of w (go a, s) = (a, failed_part s w)

-- `handlePaymentWebhook`
unfoldable pub handle_payment_webhook : (ℕ → ℕ) → Store → PaymentWebhook → WebhookAnswer × Store
handle_payment_webhook to_cents s w =
    if w.is_signed then rest_of w (paid_part to_cents s w) else (invalid_signature, s)

-- The payload of `handlePixWebhook`; the status is that of its first charge, else its own.
pub record PixWebhook : Type 0 where
  pub charge_status : Text
  pub reference : Reference

pub data PixAnswer : Type 0 where
  ignored : PixAnswer
  settled : Settlement → PixAnswer

-- `handlePixWebhook`
unfoldable pub handle_pix_webhook : (ℕ → ℕ) → Store → ℕ → PixWebhook → PixAnswer
handle_pix_webhook to_cents s now w =
    if includes text_eq (to_upper_case w.charge_status) paid_statuses
    then settled (finalize_pix_payment to_cents s now w.reference)
    else ignored

abbrev pub store_after : Store → PixAnswer → Store
store_after s ignored = s
store_after s (settled r) = r.1
