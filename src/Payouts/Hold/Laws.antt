-- ===== src/Payouts/Hold/Laws.antt =====
-- A hold and the balance.
use limpeja_backend.Common.{
  ℕ, ◌+◌, ◌≡◌, refl, Bool, true, false, Option, none, some, List, [], ◌∷◌, ◌++◌, ltb, ◌==◌, arith,
  subst, Option-cases, Bool-cases, inl, inr,
}
use limpeja_backend.Common.Lists.{filter, All, All-filter}
use limpeja_backend.Common.Int.{ℤ, pos, ◌+ℤ◌, ◌≤ℤ◌, int_laws}
use limpeja_backend.Payouts.{hold, LedgerEntry, Store, Config}
use limpeja_backend.Payouts.Ledger.{
  of_user, is_withheld, is_withheld-false, contribution, available, compute_balance,
  compute_balance-available, balance-append,
}
use limpeja_backend.Payouts.Hold.{
  BookingRow, is_hold, is_claimable, newest, retype, hold_entry, create_hold, hold_found,
  hold_booking_for_claim,
}

-- Every entry with the id of `e` is `e`, as for a primary key.
abbrev pub IsKeyOf : LedgerEntry → List LedgerEntry → Type 0
IsKeyOf e [] = Unit
IsKeyOf e (f ∷ fs) = ((f.id == e.id) ≡ true → f ≡ e) × IsKeyOf e fs

-- Every id of the ledger is a key.
abbrev pub IsKeyed : List LedgerEntry → Type 0
IsKeyed es = All (λ e. IsKeyOf e es) es

newest-All :
    (P : LedgerEntry → Type 0) (es : List LedgerEntry) (e : LedgerEntry)
    → All P es
    → newest es ≡ some e
    → P e
unfolding newest
newest-All P [] e h k = cc
newest-All P (x ∷ es) e h k = elim (Option-cases (newest es)) [
  | inl none_left ↦ subst P (ground arith) h.0
  | inr (f, left) ↦ elim (Bool-cases (ltb x.created_at f.created_at)) [
    | inl later ↦ subst P (ground arith) (newest-All P es f h.1 left)
    | inr earlier ↦ subst P (ground arith) h.0
  ]
]

module _ (held : LedgerEntry → Bool) (user : ℕ) where
  ≤ℤ-add : (a b c d : ℤ) → a ≤ℤ b → c ≤ℤ d → a +ℤ c ≤ℤ b +ℤ d
  ≤ℤ-add a b c d h k = omega int_laws

  held_contribution :
      (e : LedgerEntry)
      → held (record e { type = hold }) ≡ false
      → pos 0 ≤ℤ e.amount
      → contribution held user e ≤ℤ contribution held user (record e { type = hold })
  held_contribution e h k = elim (Bool-cases (of_user user e)) [
    | inl own ↦ elim (Bool-cases (held e)) [
      | inl was ↦ rw (own, was, h) k
      | inr not ↦ rw (own, not, h) (omega arith)
    ]
    | inr other ↦ rw other (omega arith)
  ]

  retype-available :
      (e : LedgerEntry) (es : List LedgerEntry)
      → IsKeyOf e es
      → held (record e { type = hold }) ≡ false
      → pos 0 ≤ℤ e.amount
      → available held user es ≤ℤ available held user (retype e.id hold es)
  unfolding available retype
  retype-available e [] k h a = omega arith
  retype-available e (f ∷ es) k h a =
      let rest = retype-available e es k.1 h a in
      elim (Bool-cases (f.id == e.id)) [
        | inl same ↦ rw (same, k.0 same) (≤ℤ-add _ _ _ _ (held_contribution e h a) rest)
        | inr other ↦ rw other (≤ℤ-add (contribution held user f) _ _ _ (omega arith) rest)
      ]

claimable_credit :
    (booking user : ℕ) (e : LedgerEntry) → is_claimable booking user e ≡ true → pos 0 ≤ℤ e.amount
claimable_credit booking user e h = ground arith

module _ (c : Config) (s : Store) (now later booking owner user : ℕ) where
  retype-balance :
      (e : LedgerEntry)
      → IsKeyOf e s.ledger
      → pos 0 ≤ℤ e.amount
      → compute_balance c s later user
        ≤ℤ compute_balance c (record s { ledger = retype e.id hold s.ledger }) later user
  retype-balance e k a =
      rw
        (
          compute_balance-available c s later user,
          compute_balance-available c (record s { ledger = retype e.id hold s.ledger }) later user,
        )
        (retype-available (is_withheld c s.dispute_of later) user e s.ledger k
          (is_withheld-false c s.dispute_of later (record e { type = hold }) refl) a)

  create-balance :
      (price : Option ℕ)
      → compute_balance c s later user
        ≤ℤ compute_balance c (create_hold s now booking owner price) later user
  create-balance none = omega arith
  create-balance (some total) = elim (Bool-cases (total == 0)) [
    | inl free ↦ rw free (omega arith)
    | inr priced ↦
        rw
          (
            priced,
            balance-append c s
                (record s {
                  ledger = s.ledger ++ hold_entry s.next_id now owner booking total ∷ [];
                  next_id = s.next_id + 1;
                })
                later user (hold_entry s.next_id now owner booking total) refl refl refl,
          )
          (elim (Bool-cases (owner == user)) [
            | inl own ↦ rw own (omega int_laws)
            | inr other ↦ rw other (omega int_laws)
          ])
  ]

  found-balance :
      (price : Option ℕ) (o : Option LedgerEntry)
      → IsKeyed s.ledger
      → newest (filter (is_claimable booking owner) s.ledger) ≡ o
      → compute_balance c s later user
        ≤ℤ compute_balance c (hold_found s now booking owner price o) later user
  found-balance price none k found = create-balance price
  found-balance price (some e) k found =
      let (key, claim) =
        newest-All (λ x. IsKeyOf x s.ledger × (is_claimable booking owner x ≡ true)) _ e
          (All-filter (λ x. IsKeyOf x s.ledger) (is_claimable booking owner) s.ledger k) found in
      elim (Bool-cases (is_hold e.type)) [
        | inl already ↦ simp already (omega arith)
        | inr earned ↦ simp earned (retype-balance e key (claimable_credit booking owner e claim))
      ]

-- Holding a booking for a claim lowers nobody's balance, at any time and under any settlement
-- window, although it is meant to keep the money from being withdrawn: an earning that becomes a
-- hold counts in full at once, and a hold that is created adds the price of the booking.
pub hold-never-lowers :
    (c : Config) (s : Store) (now later booking user : ℕ) (row : Option BookingRow)
    → IsKeyed s.ledger
    → compute_balance c s later user
      ≤ℤ compute_balance c (hold_booking_for_claim s now booking row) later user
unfolding hold_booking_for_claim
hold-never-lowers c s now later booking user none k = omega arith
hold-never-lowers c s now later booking user (some row) k = elim (Option-cases row.provider_user) [
  | inl e ↦ simp e (omega arith)
  | inr (owner, e) ↦
      simp e (found-balance c s now later booking owner user row.total_price _ k refl)
]
