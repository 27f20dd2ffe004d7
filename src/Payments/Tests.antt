-- ===== src/Payments/Tests.antt =====
-- Runs of the payment modules at concrete inputs.
mod Events
use limpeja_backend.Common.{
  ℕ, ◌/◌, ◌+◌, ◌≡◌, ◌==◌, refl, true, false, none, some, [], ◌∷◌, ◌++◌, inl, inr, arith,
  if◌then◌else◌,
}
use limpeja_backend.Common.Lists.{find, any}
use limpeja_backend.Common.Outcome.{ok, err}
use limpeja_backend.Bookings.Status.{BookingStatus}
use limpeja_backend.Payments.{
  pending, paid, PaymentIntent, Booking, Store, hold, platform_fee, update_intent, update_booking,
}
use limpeja_backend.Payments.Machine.{
  awaiting, confirmed, IsOpen, state_of, invalid_transition, can_transition, apply_transition,
}
use limpeja_backend.Payments.Locker.{
  reset, claim_payment_intent, claim_payment_intent-once, claim_reopens_paid,
}
use limpeja_backend.Payments.Settlement.{
  Reference, processed, already_paid, matches, is_pending_booking, has_lapsed, is_hold_of, book,
  finalize_pix_payment,
}
use limpeja_backend.Payments.Settlement.Laws.{
  HasOneHold, finalize_pix_payment-processed, finalize_pix_payment-once,
  finalize_pix_payment-HasOneHold,
}

abbrev pub charged : PaymentIntent
charged = record {
  id = 1;
  booking_id = 7;
  amount_cents = 12000;
  status = pending;
  reference_id = some 70;
  external_ref = some 70;
  idempotency_key = 5;
  external_order_id = some 900;
  external_charge_id = some 901;
  external_qr_code_id = some 901;
  qr_code_text = none;
  qr_code_url = none;
  expires_at = none;
}

abbrev pub cleaning : Booking
cleaning = record {
  id = 7;
  status = BookingStatus.pending_payment;
  expires_at = some 500;
  total_price = 12000;
  provider_user_id = some 3;
}

abbrev pub store : Store
store = record { intents = charged ∷ []; bookings = cleaning ∷ []; entries = []; next_id = 2 }

abbrev pub half_up : ℕ → ℕ
half_up x = (x + 5) / 10

abbrev order_paid : Reference
order_paid = record { reference = some 70; charge = none; event = none }

abbrev settled_store : Store
settled_store = record {
  intents = record charged { status = paid } ∷ [];
  bookings = record cleaning { expires_at = none } ∷ [];
  entries =
      record { user_id = 3; booking_id = 7; amount = 12000; kind = hold }
      ∷ record { user_id = 3; booking_id = 7; amount = 1200; kind = platform_fee }
      ∷ [];
  next_id = 2;
}

settles : finalize_pix_payment half_up store 400 order_paid ≡ (ok processed, settled_store)
unfolding finalize_pix_payment book can_transition update_intent update_booking
settles = refl

finalize_pix_payment-once_example :
    finalize_pix_payment half_up settled_store 600 order_paid ≡ (ok already_paid, settled_store)
finalize_pix_payment-once_example =
    finalize_pix_payment-once half_up store settled_store 400 600 order_paid settles

finalize_pix_payment-processed_example :
    (i : PaymentIntent) × (b : Booking) × (user : ℕ) × (find (matches order_paid) store.intents
      ≡ some i)
    × (i.status ≡ pending)
    × (find (λ c. c.id == i.booking_id) store.bookings ≡ some b)
    × (is_pending_booking b.status ≡ true)
    × (has_lapsed 400 b.expires_at ≡ false)
    × (b.provider_user_id ≡ some user)
    × (find (matches order_paid) settled_store.intents ≡ some (record i { status = paid }))
    × (find (λ c. c.id == i.booking_id) settled_store.bookings
        ≡ some (record b { expires_at = none }))
    × (settled_store.entries ≡ (
        if any (is_hold_of b.id) store.entries
        then store.entries
        else store.entries
          ++ record { user_id = user; booking_id = b.id; amount = b.total_price; kind = hold }
            ∷ record {
              user_id = user;
              booking_id = b.id;
              amount = half_up b.total_price;
              kind = platform_fee;
            }
            ∷ []))
finalize_pix_payment-processed_example =
    finalize_pix_payment-processed half_up store settled_store 400 order_paid settles
