-- ===== src/Payments.antt =====
-- payments: payment intents (the row of prisma/schema.prisma), the bookings and ledger entries that a
-- confirmed PIX payment touches. Ids and external references are numbers: the code only compares
-- them. Money is in cents, times are milliseconds.
pub mod Machine
pub mod Locker
pub mod Settlement
pub mod Webhook
pub mod Charge
pub mod Refund
mod Tests
use limpeja_backend.Common.{
  ℕ, ◌==◌, Bool, true, false, Option, none, some, List, [], ◌∷◌, if◌then◌else◌,
}
use limpeja_backend.Bookings.Status.{BookingStatus}

pub data PaymentIntentStatus : Type 0 where
  pending paid expired refunded chargeback : PaymentIntentStatus

-- The columns that `claimPaymentIntent` and `finalizePixPayment` read or write.
pub record PaymentIntent : Type 0 where
  pub id : ℕ
  pub booking_id : ℕ
  pub amount_cents : ℕ
  pub status : PaymentIntentStatus
  pub reference_id : Option ℕ
  pub external_ref : Option ℕ
  pub idempotency_key : ℕ
  pub external_order_id : Option ℕ
  pub external_charge_id : Option ℕ
  pub external_qr_code_id : Option ℕ
  pub qr_code_text : Option ℕ
  pub qr_code_url : Option ℕ
  pub expires_at : Option ℕ

pub record Booking : Type 0 where
  pub id : ℕ
  pub status : BookingStatus
  pub expires_at : Option ℕ
  pub total_price : ℕ
  pub provider_user_id : Option ℕ

-- The two kinds of entry that a payment books, each with a positive amount: what is held for the
-- provider, and the fee, which the column stores negated.
pub data EntryKind : Type 0 where
  hold platform_fee : EntryKind

pub record Entry : Type 0 where
  pub user_id : ℕ
  pub booking_id : ℕ
  pub amount : ℕ
  pub kind : EntryKind

pub record Store : Type 0 where
  pub intents : List PaymentIntent
  pub bookings : List Booking
  pub entries : List Entry
  pub next_id : ℕ

abbrev pub intent_of : ℕ → PaymentIntent → Bool
intent_of booking i = i.booking_id == booking

-- `paymentIntent.update` of the row with the given key.
unfoldable pub update_intent :
    ℕ → (PaymentIntent → PaymentIntent) → List PaymentIntent → List PaymentIntent
update_intent id change [] = []
update_intent id change (i ∷ is) =
    let rest = update_intent id change is in if i.id == id then change i ∷ rest else i ∷ rest

unfoldable pub update_booking : ℕ → (Booking → Booking) → List Booking → List Booking
update_booking id change [] = []
update_booking id change (b ∷ bs) =
    let rest = update_booking id change bs in if b.id == id then change b ∷ rest else b ∷ rest
