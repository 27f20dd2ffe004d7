-- ===== src/Loyalty/Balance.antt =====
-- The balance of a user is the sum of the user's transactions, and the daily limits hold:
-- loyalty/loyalty.service.ts.
use limpeja_backend.Common.{
  ℕ, ◌+◌, ◌≤◌, ◌≡◌, sym, subst, ◌∙◌, Bool, false, ◌==◌, Option, none, some, List, [], ◌∷◌, ◌++◌,
  arith, Bool-cases, inl, inr, if◌then◌else◌,
}
use limpeja_backend.Common.Int.{ℤ, pos, pos_part, ◌+ℤ◌, ◌-ℤ◌, int_laws}
use limpeja_backend.Common.Lists.{any, find, filter, sum_of}
use limpeja_backend.Common.Text.{Text, text_eq}
use limpeja_backend.Common.Outcome.{Outcome-cases, ok, throw_if-ok}
use limpeja_backend.Loyalty.{
  LoyaltyTransactionType, LoyaltyTransaction, ReferenceId, Store, or_zero, daily_limit,
  points_today, earned_today, exceeds_limit, same_key, record_points, final_points, earn,
  add_points, expire_in, expire_entry, expire_all, expire_points, is_old, is_expiry_of,
  invalid_points, daily_limit_reached, admin_adjustment, expire,
}

unfoldable pub points_of : Text → List LoyaltyTransaction → ℤ
points_of user [] = pos 0
points_of user (t ∷ ts) = (if text_eq user t.user_id then t.points else pos 0) +ℤ points_of user ts

points_of-append :
    (user : Text) (ts us : List LoyaltyTransaction)
    → points_of user (ts ++ us) ≡ points_of user ts +ℤ points_of user us
unfolding points_of
points_of-append user [] us = omega int_laws
points_of-append user (t ∷ ts) us = rw (points_of-append user ts us) (omega int_laws)

-- Every balance is the sum of its user's transactions.
abbrev pub IsBalanced : Store → Type 0
IsBalanced s = (user : Text) → or_zero (s.accounts user) ≡ points_of user s.transactions

pub record_points-IsBalanced :
    (s : Store) (now : ℕ) (user : Text) (p : ℤ) (type : LoyaltyTransactionType) (ref : ReferenceId)
    → IsBalanced s
    → IsBalanced (record_points s now user p type ref)
unfolding points_of
record_points-IsBalanced s now user p type ref h v = elim (Bool-cases (text_eq v user)) [
  | inl e ↦ rw (points_of-append v s.transactions _, e, h v) (omega int_laws)
  | inr e ↦ rw (points_of-append v s.transactions _, e, h v) (omega int_laws)
]

earn-IsBalanced :
    (s : Store) (now : ℕ) (user : Text) (p : ℕ) (type : LoyaltyTransactionType) (ref : ReferenceId)
    (o : Option LoyaltyTransaction)
    → IsBalanced s
    → IsBalanced (earn s now user p type ref o)
earn-IsBalanced s now user p type ref (some t) h = h
earn-IsBalanced s now user p type ref none h =
    record_points-IsBalanced s now user (pos p) type ref h

-- What a successful earning has passed and done.
add_points-ok :
    (s t : Store) (now : ℕ) (august : Bool) (user : Text) (points : ℕ)
    (type : LoyaltyTransactionType) (ref : ReferenceId) (b : ℤ)
    → add_points s now august user points type ref ≡ ok (b, t)
    → (exceeds_limit
          (daily_limit type)
          (points_today s now user type + final_points august type points)
        ≡ false)
      × (t
          ≡ earn s now user
              (final_points august type points)
              type
              ref
              (find (same_key user type ref) s.transactions))
      × (b ≡ or_zero (t.accounts user))
unfolding add_points
add_points-ok s t now august user points type ref b h =
    let (positive, k) = throw_if-ok (points == 0) invalid_points _ h in
    let (within, l) = throw_if-ok _ daily_limit_reached _ k in (within, ground arith, ground arith)

-- Where every balance is the sum of its user's transactions, it is so after an earning that
-- succeeds, which returns the sum of the user's transactions.
pub add_points-IsBalanced :
    (s t : Store) (now : ℕ) (august : Bool) (user : Text) (points : ℕ)
    (type : LoyaltyTransactionType) (ref : ReferenceId) (b : ℤ)
    → IsBalanced s
    → add_points s now august user points type ref ≡ ok (b, t)
    → IsBalanced t × (b ≡ points_of user t.transactions)
add_points-IsBalanced s t now august user points type ref b balanced h =
    let (within, stored, returned) = add_points-ok s t now august user points type ref b h in
    let kept : IsBalanced t =
      subst IsBalanced (sym stored)
        (earn-IsBalanced s now user (final_points august type points) type ref _ balanced) in
    (kept, returned ∙ kept user)

expire_in-IsBalanced :
    (s t : Store) (now : ℕ) (e : LoyaltyTransaction) (o : Option ℤ)
    → IsBalanced s
    → expire_in s now e o ≡ ok t
    → IsBalanced t
expire_in-IsBalanced s t now e none h k = absurd cc
expire_in-IsBalanced s t now e (some p) h k =
    let spent = pos 0 -ℤ e.points in
    let same : record_points s now e.user_id spent admin_adjustment (expire e.id) ≡ t =
      ground arith in
    subst IsBalanced same
      (record_points-IsBalanced s now e.user_id spent admin_adjustment (expire e.id) h)

expire_entry-IsBalanced :
    (s t : Store) (now : ℕ) (e : LoyaltyTransaction)
    → IsBalanced s
    → expire_entry s now e ≡ ok t
    → IsBalanced t
unfolding expire_entry
expire_entry-IsBalanced s t now e h k = elim (Bool-cases (any (is_expiry_of e.id) s.transactions)) [
  | inl seen ↦ let same : s ≡ t = ground arith in subst IsBalanced same h
  | inr new ↦ expire_in-IsBalanced s t now e (s.accounts e.user_id) h (ground arith)
]

expire_all-IsBalanced :
    (now : ℕ) (ts : List LoyaltyTransaction) (s : Store)
    → IsBalanced s
    → IsBalanced (expire_all now ts s).1
unfolding expire_all
expire_all-IsBalanced now [] s h = h
expire_all-IsBalanced now (t ∷ ts) s h = elim (Outcome-cases (expire_entry s now t)) [
  | inl (u, e) ↦ simp e (expire_all-IsBalanced now ts u (expire_entry-IsBalanced s u now t h e))
  | inr (x, e) ↦ simp e h
]

-- Where every balance is the sum of its user's transactions, it is so after the daily expiry of
-- points, also after one that stops at an error.
pub expire_points-IsBalanced :
    (s : Store) (now : ℕ) → IsBalanced s → IsBalanced (expire_points s now).1
unfolding expire_points
expire_points-IsBalanced s now h =
    expire_all-IsBalanced now (filter (is_old now) s.transactions) s h

sum_of-append :
    (f : LoyaltyTransaction → ℕ) (test : LoyaltyTransaction → Bool)
    (ts us : List LoyaltyTransaction)
    → sum_of f (filter test (ts ++ us)) ≡ sum_of f (filter test ts) + sum_of f (filter test us)
sum_of-append f test [] us = omega arith
sum_of-append f test (t ∷ ts) us = ground (arith, sum_of-append f test ts us)

-- What a new earning adds to the sum of its day is at most its points.
earn-points_today :
    (s : Store) (now : ℕ) (user : Text) (p : ℕ) (type : LoyaltyTransactionType) (ref : ReferenceId)
    (o : Option LoyaltyTransaction)
    → points_today (earn s now user p type ref o) now user type ≤ points_today s now user type + p
earn-points_today s now user p type ref (some t) = omega arith
earn-points_today s now user p type ref none =
    let t : LoyaltyTransaction = record {
      id = s.next_id;
      user_id = user;
      points = pos p;
      type = type;
      reference_id = ref;
      created_at = now;
    } in
    let split =
      sum_of-append (λ (u : LoyaltyTransaction). pos_part u.points) (earned_today now user type)
        s.transactions (t ∷ []) in
    let added : sum_of (λ (u : LoyaltyTransaction). pos_part u.points)
          (filter (earned_today now user type) (t ∷ []))
        ≤ p =
      ground arith in
    omega (arith, split, added)

-- Where a type of points has a daily limit, an earning that succeeds leaves the sum of the day's
-- earnings of its user and type within that limit.
pub add_points-within_limit :
    (s t : Store) (now : ℕ) (august : Bool) (user : Text) (points : ℕ)
    (type : LoyaltyTransactionType) (ref : ReferenceId) (b : ℤ) (limit : ℕ)
    → add_points s now august user points type ref ≡ ok (b, t)
    → daily_limit type ≡ some limit
    → points_today t now user type ≤ limit
add_points-within_limit s t now august user points type ref b limit h k =
    let (within, stored, returned) = add_points-ok s t now august user points type ref b h in
    let p = final_points august type points in
    let grown : points_today t now user type ≤ points_today s now user type + p =
      subst (λ u. points_today u now user type ≤ points_today s now user type + p) (sym stored)
        (earn-points_today s now user p type ref (find (same_key user type ref) s.transactions)) in
    let bounded : exceeds_limit (some limit) (points_today s now user type + p) ≡ false =
      subst (λ o. exceeds_limit o (points_today s now user type + p) ≡ false) k within in
    ground (arith, grown, bounded)
