-- ===== src/Loyalty.antt =====
-- loyalty/loyalty.service.ts: points earned, redeemed for a coupon and expired. Rewards and references
-- are numbers, times are milliseconds, points are integers. An earning always has a reference here;
-- the multipliers of `addPoints` are all one in the code, and whether it is August is an argument. The
-- id of a user is never empty here, which the code tests first.
pub mod Balance
pub mod Redeem
mod Tests
use limpeja_backend.Common.{
  ℕ, ◌+◌, ◌-◌, ◌*◌, ◌%◌, ◌==◌, ltb, leb, Bool, true, false, not, ◌&&◌, ◌||◌, Option, none, some,
  List, [], ◌∷◌, ◌++◌, if◌then◌else◌,
}
use limpeja_backend.Common.Int.{ℤ, pos, negsuc, ◌+ℤ◌, ◌-ℤ◌, ltb_ℤ, pos_part}
use limpeja_backend.Common.Lists.{any, find, filter, sum_of}
use limpeja_backend.Common.Text.{Text, text_eq}
use limpeja_backend.Common.Outcome.{Outcome, ok, err, ◌>>=◌, ◌>>◌, throw_if, or_throw}

pub data LoyaltyTransactionType : Type 0 where
  service_completed review_submitted first_review referral redeem : LoyaltyTransactionType
  mission_completed admin_adjustment referral_conversion profile_completion : LoyaltyTransactionType

-- A reference: an id of the caller's, or the text `expire:` with the id of a transaction.
pub data ReferenceId : Type 0 where
  plain : ℕ → ReferenceId
  expire : ℕ → ReferenceId

pub record LoyaltyTransaction : Type 0 where
  pub id : ℕ
  pub user_id : Text
  pub points : ℤ
  pub type : LoyaltyTransactionType
  pub reference_id : ReferenceId
  pub created_at : ℕ

-- The rows of `Loyalty` as a map from the user to `currentPoints`.
pub record Store : Type 0 where
  pub accounts : Text → Option ℤ
  pub transactions : List LoyaltyTransaction
  pub next_id : ℕ

pub data LoyaltyError : Type 0 where
  invalid_points daily_limit_reached no_account : LoyaltyError

abbrev pub type_eq : LoyaltyTransactionType → LoyaltyTransactionType → Bool
type_eq service_completed service_completed = true
type_eq review_submitted review_submitted = true
type_eq first_review first_review = true
type_eq referral referral = true
type_eq redeem redeem = true
type_eq mission_completed mission_completed = true
type_eq admin_adjustment admin_adjustment = true
type_eq referral_conversion referral_conversion = true
type_eq profile_completion profile_completion = true
type_eq _ _ = false

abbrev pub reference_eq : ReferenceId → ReferenceId → Bool
reference_eq (plain a) (plain b) = a == b
reference_eq (expire a) (expire b) = a == b
reference_eq _ _ = false

-- `DAILY_LIMITS`
abbrev pub daily_limit : LoyaltyTransactionType → Option ℕ
daily_limit review_submitted = some 500
daily_limit service_completed = some 800
daily_limit referral = some 1000
daily_limit _ = none

abbrev pub or_zero : Option ℤ → ℤ
or_zero none = pos 0
or_zero (some p) = p

-- The row after an increment, created where it is missing.
abbrev pub credit : (Text → Option ℤ) → Text → ℤ → Text → Option ℤ
credit accounts user p v = if text_eq v user then some (or_zero (accounts v) +ℤ p) else accounts v

abbrev pub start_of_day : ℕ → ℕ
start_of_day now = now - now % (24 * 60 * 60 * 1000)

abbrev pub earned_today : ℕ → Text → LoyaltyTransactionType → LoyaltyTransaction → Bool
earned_today now user type t =
    text_eq t.user_id user
    && type_eq t.type type
    && ltb_ℤ (pos 0) t.points
    && leb (start_of_day now) t.created_at

-- What `enforceDailyLimit` sums; the rows it selects are positive.
abbrev pub points_today : Store → ℕ → Text → LoyaltyTransactionType → ℕ
points_today s now user type =
    sum_of (λ (t : LoyaltyTransaction). pos_part t.points)
      (filter (earned_today now user type) s.transactions)

abbrev pub exceeds_limit : Option ℕ → ℕ → Bool
exceeds_limit none total = false
exceeds_limit (some limit) total = ltb limit total

abbrev pub same_key : Text → LoyaltyTransactionType → ReferenceId → LoyaltyTransaction → Bool
same_key user type ref t =
    text_eq t.user_id user && type_eq t.type type && reference_eq t.reference_id ref

abbrev pub record_points : Store → ℕ → Text → ℤ → LoyaltyTransactionType → ReferenceId → Store
record_points s now user p type ref = record s {
  accounts = credit s.accounts user p;
  transactions =
      s.transactions
      ++ record {
        id = s.next_id;
        user_id = user;
        points = p;
        type = type;
        reference_id = ref;
        created_at = now;
      }
        ∷ [];
  next_id = s.next_id + 1;
}

abbrev pub final_points : Bool → LoyaltyTransactionType → ℕ → ℕ
final_points august type points = if type_eq type referral && august then points * 2 else points

abbrev pub earn :
    Store → ℕ → Text → ℕ → LoyaltyTransactionType → ReferenceId → Option LoyaltyTransaction → Store
earn s now user p type ref (some t) = s
earn s now user p type ref none = record_points s now user (pos p) type ref

-- `addPoints`, which returns the balance after it.
unfoldable pub add_points :
    Store
    → (now : ℕ) → (august : Bool) → Text
    → (points : ℕ) → LoyaltyTransactionType
    → ReferenceId
    → Outcome LoyaltyError (ℤ × Store)
add_points s now august user points type ref = do
  throw_if (points == 0) invalid_points
  let p = final_points august type points
  throw_if (exceeds_limit (daily_limit type) (points_today s now user type + p)) daily_limit_reached
  let t = earn s now user p type ref (find (same_key user type ref) s.transactions)
  ok (or_zero (t.accounts user), t)

abbrev pub lifetime : ℕ
lifetime = 180 * 24 * 60 * 60 * 1000

abbrev pub is_old : ℕ → LoyaltyTransaction → Bool
is_old now t = ltb_ℤ (pos 0) t.points && leb (t.created_at + lifetime) now

abbrev pub is_expiry_of : ℕ → LoyaltyTransaction → Bool
is_expiry_of id t = reference_eq t.reference_id (expire id)

-- One turn of the loop of `expirePointsOlderThan180Days`. A user without a row ends the job.
abbrev pub expire_in : Store → ℕ → LoyaltyTransaction → Option ℤ → Outcome LoyaltyError Store
expire_in s now t none = err no_account
expire_in s now t (some p) =
    ok (record_points s now t.user_id (pos 0 -ℤ t.points) admin_adjustment (expire t.id))

unfoldable pub expire_entry : Store → ℕ → LoyaltyTransaction → Outcome LoyaltyError Store
expire_entry s now t =
    if any (is_expiry_of t.id) s.transactions
    then ok s
    else expire_in s now t (s.accounts t.user_id)

abbrev pub keep_on :
    (Store → Outcome LoyaltyError (Unit {0}) × Store)
    → Store
    → Outcome LoyaltyError Store
    → Outcome LoyaltyError (Unit {0}) × Store
keep_on go s (ok t) = go t
keep_on go s (err e) = (err e, s)

unfoldable pub expire_all :
    ℕ → List LoyaltyTransaction → Store → Outcome LoyaltyError (Unit {0}) × Store
expire_all now [] s = (ok tt, s)
expire_all now (t ∷ ts) s = keep_on (expire_all now ts) s (expire_entry s now t)

-- `expirePointsOlderThan180Days`: the old entries are read once, then expired one by one.
unfoldable pub expire_points : Store → (now : ℕ) → Outcome LoyaltyError (Unit {0}) × Store
expire_points s now = expire_all now (filter (is_old now) s.transactions) s
