-- ===== src/Payments/Refund.antt =====
-- `initiateRefund` of payments/payments.service.ts, by which an administrator gives a payment back. An
-- amount is in cents; of a transaction the columns that are only copied are left out.
use limpeja_backend.Common.{
  ℕ, ◌≡◌, refl, ap, Bool, ◌==◌, Option, none, some, List, [], ◌∷◌, ◌++◌, arith, inl, inr,
  Bool-cases, if◌then◌else◌,
}
use limpeja_backend.Common.Lists.{find}
use limpeja_backend.Common.Outcome.{Outcome, ok, ◌>>=◌, or_throw}

pub data TransactionType : Type 0 where
  payment withdrawal commission refund : TransactionType

pub data TransactionStatus : Type 0 where
  pending paid failed canceled refunded processed completed : TransactionStatus

pub record Transaction : Type 0 where
  pub id : ℕ
  pub booking_id : Option ℕ
  pub amount : ℕ
  pub type : TransactionType
  pub status : TransactionStatus

pub data RefundError : Type 0 where
  transaction_not_found : RefundError

abbrev pub or_amount : Option ℕ → ℕ → ℕ
or_amount none whole = whole
or_amount (some part) whole = part

abbrev pub has_key : ℕ → Transaction → Bool
has_key id t = t.id == id

unfoldable pub mark_refunded : ℕ → List Transaction → List Transaction
mark_refunded id [] = []
mark_refunded id (t ∷ ts) =
    let rest = mark_refunded id ts in
    (if has_key id t then record t { status = refunded } else t) ∷ rest

abbrev pub refund_of : ℕ → Option ℕ → Transaction → Transaction
refund_of new_id amount t = record {
  id = new_id;
  booking_id = t.booking_id;
  amount = or_amount amount t.amount;
  type = refund;
  status = paid;
}

-- `initiateRefund`, with the key of the new row.
unfoldable pub initiate_refund :
    List Transaction → ℕ → ℕ → Option ℕ → Outcome RefundError (List Transaction)
initiate_refund ts new_id id amount = do
  t ← or_throw (find (has_key id) ts) transaction_not_found
  ok (mark_refunded id ts ++ refund_of new_id amount t ∷ [])

marked-found :
    (id : ℕ) (ts us : List Transaction) (t : Transaction)
    → find (has_key id) ts ≡ some t
    → find (has_key id) (mark_refunded id ts ++ us) ≡ some (record t { status = refunded })
unfolding mark_refunded
marked-found id [] us t h = cc
marked-found id (x ∷ xs) us t h = elim (Bool-cases (has_key id x)) [
  | inl e ↦
      let is : x ≡ t = ground arith in
      rw e (rw e (ap (λ (y : Transaction). some (record y { status = refunded })) is))
  | inr e ↦ rw e (rw e (marked-found id xs us t (ground arith)))
]

-- A transaction can be given back as often as it is asked for, each time with its whole amount: a
-- second call succeeds as the first does, and adds a second refund.
pub refund_again :
    (ts : List Transaction) (first second id : ℕ) (t : Transaction)
    → find (has_key id) ts ≡ some t
    → (us : List Transaction) × (initiate_refund ts first id none ≡ ok us)
      × (initiate_refund us second id none
          ≡ ok (mark_refunded id us ++ refund_of second none t ∷ []))
unfolding initiate_refund
refund_again ts first second id t found =
    let new = refund_of first none t ∷ [] in
    (mark_refunded id ts ++ new, rw found refl, rw (marked-found id ts new t found) refl)
