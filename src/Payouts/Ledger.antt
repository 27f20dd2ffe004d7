-- ===== src/Payouts/Ledger.antt =====
-- The balance of a provider: `computeBalance`, and how it moves with the ledger.
use limpeja_backend.Common.{
  ℕ, ◌+◌, ◌*◌, ◌≡◌, refl, ap, Bool, true, false, ◌&&◌, ◌||◌, Option, none, some, List, [], ◌∷◌,
  ◌++◌, inl, inr, Bool-cases, ltb, ◌==◌, if◌then◌else◌,
}
use limpeja_backend.Common.Int.{
  ℤ, pos, ◌+ℤ◌, ◌-ℤ◌, int_laws, difference-keep, difference-drop, add_zero,
}
use limpeja_backend.Payouts.{
  LedgerEntryType, earning, LedgerEntry, DisputeStatus, opened, in_review, Store, Config,
}

abbrev pub is_earning : LedgerEntryType → Bool
is_earning earning = true
is_earning _ = false

abbrev pub is_active_dispute : Option DisputeStatus → Bool
is_active_dispute (some opened) = true
is_active_dispute (some in_review) = true
is_active_dispute _ = false

-- The dispute of the booking that an entry belongs to.
abbrev pub under_dispute : (ℕ → Option DisputeStatus) → Option ℕ → Bool
under_dispute dispute_of none = false
under_dispute dispute_of (some b) = is_active_dispute (dispute_of b)

-- `_sum: { amount: true }` over the entries that pass the test.
unfoldable pub sum_amounts : (LedgerEntry → Bool) → List LedgerEntry → ℤ
sum_amounts test [] = pos 0
sum_amounts test (e ∷ es) = (if test e then e.amount else pos 0) +ℤ sum_amounts test es

abbrev pub hour_ms : ℕ
hour_ms = 3600000

abbrev pub of_user : ℕ → LedgerEntry → Bool
of_user user e = e.user_id == user

-- An earning younger than a number of hours.
abbrev pub withheld_hours : ℕ → ℕ → LedgerEntry → Bool
withheld_hours hours now e = is_earning e.type && ltb now (e.created_at + hours * hour_ms)

-- An earning younger than a number of days, or of a booking in dispute.
abbrev pub withheld_days : (ℕ → Option DisputeStatus) → ℕ → ℕ → LedgerEntry → Bool
withheld_days dispute_of days now e =
    is_earning e.type
    && (ltb now (e.created_at + days * 24 * hour_ms) || under_dispute dispute_of e.booking_id)

-- `computeBalance`: the sum of the user's entries less those that are withheld. A window that the
-- configuration sets below zero acts as zero does.
unfoldable pub compute_balance : Config → Store → ℕ → ℕ → ℤ
compute_balance c s now user =
    let total = sum_amounts (of_user user) s.ledger in
    let hours = λ (e : LedgerEntry). of_user user e && withheld_hours c.settle_window_hours now e in
    let days = λ (e : LedgerEntry).
      of_user user e && withheld_days s.dispute_of c.settle_window_days now e in
    if c.settle_window_days == 0
    then (if c.settle_window_hours == 0 then total else total -ℤ sum_amounts hours s.ledger)
    else total -ℤ sum_amounts days s.ledger

-- Which earnings the configured settlement window withholds.
unfoldable pub is_withheld : Config → (ℕ → Option DisputeStatus) → ℕ → LedgerEntry → Bool
is_withheld c dispute_of now =
    if c.settle_window_days == 0
    then (if c.settle_window_hours == 0
        then (λ e. false)
        else withheld_hours c.settle_window_hours now)
    else withheld_days dispute_of c.settle_window_days now

-- What an entry adds to a user's balance.
abbrev pub contribution : (LedgerEntry → Bool) → ℕ → LedgerEntry → ℤ
contribution held user e = if of_user user e then (if held e then pos 0 else e.amount) else pos 0

-- The balance as one sum over the ledger, entry by entry.
unfoldable pub available : (LedgerEntry → Bool) → ℕ → List LedgerEntry → ℤ
available held user [] = pos 0
available held user (e ∷ es) = contribution held user e +ℤ available held user es

pub available-append :
    (held : LedgerEntry → Bool) (user : ℕ) (es fs : List LedgerEntry)
    → available held user (es ++ fs) ≡ available held user es +ℤ available held user fs
unfolding available
available-append held user [] fs = omega int_laws
available-append held user (e ∷ es) fs = rw (available-append held user es fs) (omega int_laws)

total-available :
    (user : ℕ) (es : List LedgerEntry)
    → sum_amounts (of_user user) es ≡ available (λ _. false) user es
unfolding sum_amounts available
total-available user [] = refl
total-available user (e ∷ es) = rw (total-available user es) refl

difference-available :
    (held : LedgerEntry → Bool) (user : ℕ) (es : List LedgerEntry)
    → sum_amounts (of_user user) es -ℤ sum_amounts (λ e. of_user user e && held e) es
      ≡ available held user es
unfolding sum_amounts available
difference-available held user [] = omega int_laws
difference-available held user (e ∷ es) =
    let total = sum_amounts (of_user user) es in
    let withheld = sum_amounts (λ f. of_user user f && held f) es in
    let ih = difference-available held user es in
    elim (Bool-cases (of_user user e)) [
      | inl own ↦ elim (Bool-cases (held e)) [
        | inl h ↦ rw (own, h) (difference-drop e.amount total withheld ih)
        | inr h ↦ rw (own, h) (difference-keep e.amount total withheld ih)
      ]
      | inr other ↦ rw other (difference-keep (pos 0) total withheld ih)
    ]

-- The computed balance counts each entry of the user once, and the withheld ones not at all.
pub compute_balance-available :
    (c : Config) (s : Store) (now user : ℕ)
    → compute_balance c s now user ≡ available (is_withheld c s.dispute_of now) user s.ledger
unfolding compute_balance is_withheld
compute_balance-available c s now user = elim (Bool-cases (c.settle_window_days == 0)) [
  | inl no_days ↦ elim (Bool-cases (c.settle_window_hours == 0)) [
    | inl no_hours ↦ rw (no_days, no_hours, is_withheld) (total-available user s.ledger)
    | inr hours ↦ rw (no_days, hours, is_withheld) (difference-available _ user s.ledger)
  ]
  | inr days ↦ rw (days, is_withheld) (difference-available _ user s.ledger)
]

-- Only earnings are ever withheld.
pub is_withheld-false :
    (c : Config) (d : ℕ → Option DisputeStatus) (now : ℕ) (e : LedgerEntry)
    → is_earning e.type ≡ false
    → is_withheld c d now e ≡ false
unfolding is_withheld
is_withheld-false c d now e h = elim (Bool-cases (c.settle_window_days == 0)) [
  | inl no_days ↦ elim (Bool-cases (c.settle_window_hours == 0)) [
    | inl no_hours ↦ rw (no_days, no_hours)
    | inr hours ↦ rw (no_days, hours, h)
  ]
  | inr days ↦ rw (days, h)
]

-- What one more entry, not an earning, does to the balances.
pub balance-append :
    (c : Config) (s t : Store) (now user : ℕ) (e : LedgerEntry)
    → t.dispute_of ≡ s.dispute_of
    → t.ledger ≡ s.ledger ++ e ∷ []
    → is_earning e.type ≡ false
    → compute_balance c t now user
      ≡ compute_balance c s now user +ℤ (if of_user user e then e.amount else pos 0)
unfolding available
balance-append c s t now user e d l h =
    rw
      (
        compute_balance-available c t now user,
        compute_balance-available c s now user,
        d,
        l,
        available-append (is_withheld c s.dispute_of now) user s.ledger (e ∷ []),
        is_withheld-false c s.dispute_of now e h,
      )
      (ap (λ z. available (is_withheld c s.dispute_of now) user s.ledger +ℤ z)
        (add_zero (if of_user user e then e.amount else pos 0)))

-- The balance depends on the ledger and the disputes alone.
pub balance-same :
    (c : Config) (s t : Store) (now user : ℕ)
    → t.dispute_of ≡ s.dispute_of
    → t.ledger ≡ s.ledger
    → compute_balance c t now user ≡ compute_balance c s now user
balance-same c s t now user d l =
    rw (compute_balance-available c t now user, compute_balance-available c s now user, d, l)
