-- ===== src/Payments/Settlement.antt =====
-- payments/payments.service.ts, `finalizePixPayment` up to the end of its transaction, with
-- `buildPixIntentWhere`. The change of the booking to CONFIRMED that follows, in a transaction of the
-- bookings service, is asked for by the answer `processed`. The references of an event are given
-- trimmed, an empty one as none.
pub mod Laws
use limpeja_backend.Common.{
  ℕ, ◌+◌, ◌*◌, ◌==◌, leb, ltb, Bool, true, false, not, ◌&&◌, ◌||◌, Option, none, some, List, [],
  ◌∷◌, ◌++◌, if◌then◌else◌,
}
use limpeja_backend.Common.Lists.{find, any}
use limpeja_backend.Common.Outcome.{Outcome, ok, err}
use limpeja_backend.Bookings.Status.{BookingStatus, expired, status_eq}
use limpeja_backend.Payments.{
  PaymentIntentStatus, paid, PaymentIntent, Booking, hold, platform_fee, EntryKind, Entry, Store,
  update_intent, update_booking,
}
use limpeja_backend.Payments.Machine.{confirmed, state_of, can_transition}

pub record Reference : Type 0 where
  pub reference : Option ℕ
  pub charge : Option ℕ
  pub event : Option ℕ

abbrev pub same_ref : Option ℕ → Option ℕ → Bool
same_ref none column = false
same_ref (some a) none = false
same_ref (some a) (some b) = a == b

-- `buildPixIntentWhere` of at least one reference.
abbrev pub matches : Reference → PaymentIntent → Bool
matches r i =
    same_ref r.reference i.reference_id
    || same_ref r.reference i.external_ref
    || same_ref r.charge i.external_charge_id
    || same_ref r.charge i.external_qr_code_id
    || same_ref r.event (some i.id)
    || same_ref r.event i.external_order_id
    || same_ref r.event i.external_charge_id
    || same_ref r.event i.reference_id

abbrev pub is_given : Option ℕ → Bool
is_given none = false
is_given (some a) = true

abbrev pub has_reference : Reference → Bool
has_reference r = is_given r.reference || is_given r.charge || is_given r.event

pub data Settled : Type 0 where
  missing_reference intent_not_found already_paid refused_transition : Settled
  invalid_booking_status processed : Settled

-- The exceptions of the body; the handler wraps each in the same error.
pub data SettleError : Type 0 where
  booking_not_found payment_expired provider_missing : SettleError

abbrev pub Settlement : Type 0
Settlement = Outcome SettleError Settled × Store

abbrev pub is_paid : PaymentIntentStatus → Bool
is_paid paid = true
is_paid _ = false

abbrev pub is_pending_booking : BookingStatus → Bool
is_pending_booking t =
    status_eq t BookingStatus.pending_payment || status_eq t BookingStatus.pending

abbrev pub has_lapsed : ℕ → Option ℕ → Bool
has_lapsed now none = false
has_lapsed now (some t) = leb t now

abbrev pub is_kind_hold : EntryKind → Bool
is_kind_hold hold = true
is_kind_hold platform_fee = false

-- `existingHold`
abbrev pub is_hold_of : ℕ → Entry → Bool
is_hold_of booking e = e.booking_id == booking && is_kind_hold e.kind && ltb 0 e.amount

-- The rounding of a tenth of a sum to cents by the ledger's column is an argument, on tenths of a
-- cent.
module _ (to_cents : ℕ → ℕ) where
  -- The two entries of a payment: the gross amount, held, and the fee of a tenth.
  abbrev pub payment_entries : Booking → ℕ → List Entry
  payment_entries b user =
      record { user_id = user; booking_id = b.id; amount = b.total_price; kind = hold }
      ∷ record {
        user_id = user;
        booking_id = b.id;
        amount = to_cents b.total_price;
        kind = platform_fee;
      }
      ∷ []

  -- The transaction.
  unfoldable pub book : Store → PaymentIntent → Booking → ℕ → Store
  book s i b user = record s {
    intents = update_intent i.id (λ j. record j { status = paid }) s.intents;
    bookings = update_booking b.id (λ c. record c { expires_at = none }) s.bookings;
    entries =
        if any (is_hold_of b.id) s.entries then s.entries else s.entries ++ payment_entries b user;
  }

  abbrev pub settle_for : Store → PaymentIntent → Booking → Option ℕ → Settlement
  settle_for s i b none = (err provider_missing, s)
  settle_for s i b (some user) = (ok processed, book s i b user)

  abbrev pub settle_booking : Store → ℕ → PaymentIntent → Option Booking → Settlement
  settle_booking s now i none = (err booking_not_found, s)
  settle_booking s now i (some b) =
      if not (is_pending_booking b.status)
      then (ok invalid_booking_status, s)
      else (if has_lapsed now b.expires_at
          then (
            err payment_expired,
            record s {
              bookings =
                  update_booking b.id (λ c. record c { status = BookingStatus.expired }) s.bookings;
            },
          )
          else settle_for s i b b.provider_user_id)

  abbrev pub settle_intent : Store → ℕ → Option PaymentIntent → Settlement
  settle_intent s now none = (ok intent_not_found, s)
  settle_intent s now (some i) =
      if is_paid i.status
      then (ok already_paid, s)
      else (if not (can_transition (state_of i.status) confirmed)
          then (ok refused_transition, s)
          else settle_booking s now i (find (λ b. b.id == i.booking_id) s.bookings))

  -- `finalizePixPayment`
  unfoldable pub finalize_pix_payment : Store → (now : ℕ) → Reference → Settlement
  finalize_pix_payment s now r =
      if has_reference r
      then settle_intent s now (find (matches r) s.intents)
      else (ok missing_reference, s)
