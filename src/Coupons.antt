-- ===== src/Coupons.antt =====
-- coupons/coupons.service.ts. User, service and provider ids and codes are texts. Money is in cents
-- and the value of a coupon in hundredths, as the column `Decimal(10, 2)` stores it: a fraction of
-- the price for a percentage, reais for a fixed amount. Times are milliseconds, and the random part
-- of a code is an argument. An expiry `setDate(getDate() + n)` is `n` days of 24 hours.
pub mod Apply
pub mod Issue
mod Tests
use limpeja_backend.Common.{
  ℕ, zero, suc, ◌+◌, ◌==◌, Bool, true, false, ◌||◌, Option, none, some, List, [], ◌∷◌, ◌++◌,
  if◌then◌else◌,
}
use limpeja_backend.Common.Lists.{find}
use limpeja_backend.Common.Text.{Text, codes, text_eq, to_upper_case}
use limpeja_backend.Common.Outcome.{Outcome, ok, err, ◌>>=◌, ◌>>◌, throw_if, or_throw}

pub data CouponType : Type 0 where
  percent fixed : CouponType

pub data CouponTarget : Type 0 where
  general new_clients specific_service specific_provider new_customer : CouponTarget
  referral_referred referral_referrer mission_reward repeat_customer : CouponTarget

pub data CouponStatus : Type 0 where
  active inactive expired used_up : CouponStatus

pub record Coupon : Type 0 where
  pub id : ℕ
  pub code : Text
  pub value : ℕ
  pub value_type : CouponType
  pub target : CouponTarget
  pub target_id : Option Text
  pub max_uses : Option ℕ
  pub uses_count : ℕ
  pub valid_from : ℕ
  pub valid_until : ℕ
  pub status : CouponStatus
  pub first_booking_only : Bool
  pub issued_to : Option Text
  pub issued_by : Text
  pub max_discount : Option ℕ

-- A row of `CouponUsage`, and the column of `Client` that the service reads.
pub record CouponUsage : Type 0 where
  pub coupon_id : ℕ
  pub user_id : Text

pub record Client : Type 0 where
  pub user_id : Text
  pub completed_bookings : ℕ

pub record Store : Type 0 where
  pub coupons : List Coupon
  pub usages : List CouponUsage
  pub clients : List Client
  pub next_id : ℕ

pub data CouponError : Type 0 where
  code_taken invalid_value_type coupon_not_found not_a_coupon_mission : CouponError

-- `normalizeValueType`
unfoldable pub normalize_value_type : Text → Option CouponType
unfolding to_upper_case
normalize_value_type v =
    let up = to_upper_case v in
    if text_eq up (codes "PERCENT") || text_eq up (codes "PERCENTAGE")
    then some percent
    else (if text_eq up (codes "FIXED") || text_eq up (codes "FIXED_AMOUNT")
        then some fixed
        else none)

abbrev find_target : Text → List (Text × CouponTarget) → Option CouponTarget
find_target up [] = none
find_target up ((name, t) ∷ rest) = if text_eq up name then some t else find_target up rest

abbrev target_names : List (Text × CouponTarget)
target_names =
    (codes "GENERAL", general)
    ∷ (codes "ALL", general)
    ∷ (codes "NEW_CLIENTS", new_clients)
    ∷ (codes "SPECIFIC_SERVICE", specific_service)
    ∷ (codes "SPECIFIC_PROVIDER", specific_provider)
    ∷ (codes "NEW_CUSTOMER", new_customer)
    ∷ (codes "REFERRAL_REFERRED", referral_referred)
    ∷ (codes "REFERRAL_REFERRER", referral_referrer)
    ∷ (codes "MISSION_REWARD", mission_reward)
    ∷ (codes "REPEAT_CUSTOMER", repeat_customer)
    ∷ []

-- `normalizeTarget`
unfoldable pub normalize_target : Text → Option CouponTarget
unfolding to_upper_case
normalize_target v = find_target (to_upper_case v) target_names

-- The body of `create`. An absent `isActive` counts as true, an absent `firstBookingOnly` as false.
pub record NewCoupon : Type 0 where
  pub code : Text
  pub type : Text
  pub value : ℕ
  pub target : Text
  pub target_id : Option Text
  pub max_uses : Option ℕ
  pub valid_from : ℕ
  pub valid_until : ℕ
  pub is_active : Bool
  pub first_booking_only : Bool
  pub issued_to : Option Text
  pub issued_by : Option Text
  pub max_discount : Option ℕ

abbrev pub has_code : Text → Coupon → Bool
has_code code c = text_eq c.code code

abbrev pub or_general : Option CouponTarget → CouponTarget
or_general (some t) = t
or_general none = general

abbrev pub or_system : Option Text → Text
or_system (some t) = t
or_system none = codes "SYSTEM"

-- `maxDiscount ? … : null`: a cap of zero is no cap.
abbrev pub cap_given : Option ℕ → Option ℕ
cap_given (some n) = elim n [ zero ↦ none | suc k ↦ some (suc k) ]
cap_given none = none

abbrev pub row_of : ℕ → NewCoupon → CouponType → Coupon
row_of id d type = record {
  id = id;
  code = to_upper_case d.code;
  value = d.value;
  value_type = type;
  target = or_general (normalize_target d.target);
  target_id = d.target_id;
  max_uses = d.max_uses;
  uses_count = 0;
  valid_from = d.valid_from;
  valid_until = d.valid_until;
  status = if d.is_active then active else inactive;
  first_booking_only = d.first_booking_only;
  issued_to = d.issued_to;
  issued_by = or_system d.issued_by;
  max_discount = cap_given d.max_discount;
}

abbrev pub is_taken {ℓ} : {A : Type ℓ} → Option A → Bool
is_taken none = false
is_taken (some a) = true

-- `create`
unfoldable pub create : Store → NewCoupon → Outcome CouponError (Coupon × Store)
create s d = do
  throw_if (is_taken (find (has_code (to_upper_case d.code)) s.coupons)) code_taken
  type ← or_throw (normalize_value_type d.type) invalid_value_type
  let c = row_of s.next_id d type
  ok (c, record s { coupons = s.coupons ++ c ∷ []; next_id = s.next_id + 1 })

-- `update` of one row by its key.
unfoldable pub update_coupon : ℕ → (Coupon → Coupon) → List Coupon → List Coupon
update_coupon id change [] = []
update_coupon id change (c ∷ cs) =
    let rest = update_coupon id change cs in if c.id == id then change c ∷ rest else c ∷ rest
