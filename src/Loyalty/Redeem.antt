-- ===== src/Loyalty/Redeem.antt =====
-- loyalty/loyalty.service.ts, `redeemPoints`, with the coupon that it creates by
-- coupons/coupons.service.ts. The value of a reward is in hundredths, and the random part of the
-- coupon's code is an argument.
pub mod Laws
use limpeja_backend.Common.{
  ℕ, ◌+◌, ◌*◌, ◌==◌, ◌≡◌, refl, subst, ap, ◌∙◌, leb, Bool, true, false, not, Option, none, some,
  List, ◌++◌, if◌then◌else◌, arith, Bool-cases, inl, inr, ◌⊎◌,
}
use limpeja_backend.Common.Int.{ℤ, pos, ◌≤ℤ◌, ◌-ℤ◌, ltb_ℤ, int_laws}
use limpeja_backend.Common.Lists.{any, find}
use limpeja_backend.Common.Text.{Text, codes, text_eq_refl}
use limpeja_backend.Common.Outcome.{Outcome, ok, err, ◌>>=◌, ◌>>◌, throw_if, or_throw}
use limpeja_backend.Coupons
use limpeja_backend.Loyalty.{redeem, plain, Store, or_zero, credit, same_key, record_points}
use limpeja_backend.Loyalty.Balance.{IsBalanced, record_points-IsBalanced}

pub record Reward : Type 0 where
  pub id : ℕ
  pub cost_points : ℕ
  pub value : ℕ
  pub is_active : Bool

pub record RedeemPoints : Type 0 where
  pub points_to_redeem : ℕ
  pub is_discount_coupon : Bool
  pub reward_id : Option ℕ

-- The tables that a redemption touches.
pub record Shop : Type 0 where
  pub loyalty : Store
  pub coupons : Coupons.Store
  pub rewards : List Reward

pub data RedeemError : Type 0 where
  no_points unsupported_reward no_reward_id insufficient_points : RedeemError
  invalid_reward cost_mismatch coupon_refused duplicate_transaction : RedeemError

abbrev pub can_pay : ℕ → Option ℤ → Bool
can_pay cost none = false
can_pay cost (some p) = not (ltb_ℤ p (pos cost))

abbrev pub reward_of : ℕ → Reward → Bool
reward_of id r = r.id == id

-- The body of the coupon.
abbrev pub reward_coupon : ℕ → Text → Text → Reward → Coupons.NewCoupon
reward_coupon now user rand r = record {
  code = codes "POINTS-" ++ rand;
  type = if leb r.value 100 then codes "PERCENT" else codes "FIXED";
  value = r.value;
  target = codes "GENERAL";
  target_id = none;
  max_uses = some 1;
  valid_from = now;
  valid_until = now + 30 * 24 * 60 * 60 * 1000;
  is_active = true;
  first_booking_only = false;
  issued_to = some user;
  issued_by = some (codes "LOYALTY_REDEEM");
  max_discount = none;
}

-- The checks of `redeemPoints`, in their order.
unfoldable pub check_redeem : Shop → Text → RedeemPoints → Outcome RedeemError Reward
check_redeem s user d = do
  throw_if (d.points_to_redeem == 0) no_points
  throw_if (not d.is_discount_coupon) unsupported_reward
  id ← or_throw d.reward_id no_reward_id
  throw_if (not (can_pay d.points_to_redeem (s.loyalty.accounts user))) insufficient_points
  r ← or_throw (find (reward_of id) s.rewards) invalid_reward
  throw_if (not r.is_active) invalid_reward
  throw_if (not (r.cost_points == d.points_to_redeem)) cost_mismatch
  ok r

abbrev pub debit : Store → Text → ℕ → Store
debit s user cost = record s { accounts = credit s.accounts user (pos 0 -ℤ pos cost) }

-- The debit and the transaction, two writes: the second is refused by the unique key on user, type
-- and reference.
abbrev pub pay : Shop → ℕ → Text → Reward → Outcome RedeemError (Unit {0}) × Shop
pay s now user r =
    if any (same_key user redeem (plain r.id)) s.loyalty.transactions
    then (err duplicate_transaction, record s { loyalty = debit s.loyalty user r.cost_points })
    else (
      ok tt,
      record s {
        loyalty = record_points s.loyalty now user (pos 0 -ℤ pos r.cost_points) redeem (plain r.id);
      },
    )

abbrev pub buy :
    Shop
    → ℕ
    → Text
    → Reward
    → Outcome Coupons.CouponError (Coupons.Coupon × Coupons.Store)
    → Outcome RedeemError (Unit {0}) × Shop
buy s now user r (err e) = (err coupon_refused, s)
buy s now user r (ok (c, t)) = pay (record s { coupons = t }) now user r

abbrev pub redeem_checked :
    Shop → ℕ → Text → Text → Outcome RedeemError Reward → Outcome RedeemError (Unit {0}) × Shop
redeem_checked s now user rand (err e) = (err e, s)
redeem_checked s now user rand (ok r) =
    buy s now user r (Coupons.create s.coupons (reward_coupon now user rand r))

-- `redeemPoints`
unfoldable pub redeem_points :
    Shop → (now : ℕ) → Text → (rand : Text) → RedeemPoints → Outcome RedeemError (Unit {0}) × Shop
redeem_points s now user rand d = redeem_checked s now user rand (check_redeem s user d)
