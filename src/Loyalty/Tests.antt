-- ===== src/Loyalty/Tests.antt =====
-- Runs of the loyalty modules at concrete inputs.
use limpeja_backend.Common.{
  ◌+◌, ◌++◌, ◌≡◌, refl, sym, true, false, none, some, [], ◌∷◌, inl, inr, Bool-cases, if◌then◌else◌,
}
use limpeja_backend.Common.Int.{pos, ◌+ℤ◌, ◌-ℤ◌, ◌≤ℤ◌, add_zero}
use limpeja_backend.Common.Text.{Text, codes, text_eq, to_upper_case}
use limpeja_backend.Common.Outcome.{ok}
use limpeja_backend.Coupons
use limpeja_backend.Loyalty.{
  service_completed, plain, LoyaltyTransaction, Store, or_zero, add_points, record_points,
}
use limpeja_backend.Loyalty.Balance.{IsBalanced, points_of}
use limpeja_backend.Loyalty.Redeem.{
  Reward, RedeemPoints, Shop, check_redeem, reward_coupon, redeem_points,
}
use limpeja_backend.Loyalty.Redeem.Laws.{redeem_points_lem}

abbrev ana : Text
ana = codes "ana"

abbrev earned : LoyaltyTransaction
earned = record {
  id = 1;
  user_id = ana;
  points = pos 300;
  type = service_completed;
  reference_id = plain 50;
  created_at = 1000;
}

abbrev store : Store
store = record {
  accounts = λ v. if text_eq v ana then some (pos 300) else none;
  transactions = earned ∷ [];
  next_id = 2;
}

store-IsBalanced : IsBalanced store
unfolding points_of
store-IsBalanced v = elim (Bool-cases (text_eq v ana)) [
  | inl e ↦ rw e (sym (add_zero (pos 300)))
  | inr e ↦ rw e (sym (add_zero (pos 0)))
]

abbrev grown : Store
grown = record_points store 2000 ana (pos 400) service_completed (plain 51)

earns : add_points store 2000 false ana 400 service_completed (plain 51) ≡ ok (pos 700, grown)
unfolding add_points ◌+ℤ◌
earns = refl

abbrev mug : Reward
mug = record { id = 9; cost_points = 100; value = 50; is_active = true }

abbrev wish : RedeemPoints
wish = record { points_to_redeem = 100; is_discount_coupon = true; reward_id = some 9 }

abbrev shop : Shop
shop = record {
  loyalty = store;
  coupons = record { coupons = []; usages = []; clients = []; next_id = 1 };
  rewards = mug ∷ [];
}

-- The shop after one redemption and after another of the same reward.
abbrev served : Shop
served = (redeem_points shop 5000 ana (codes "X1") wish).1

redeems : redeem_points shop 5000 ana (codes "X1") wish ≡ (ok tt, served)
unfolding redeem_points check_redeem Coupons.create Coupons.normalize_value_type
    Coupons.normalize_target to_upper_case
redeems = refl

redeem_points_lem_example :
    IsBalanced served.loyalty
    × (or_zero (served.loyalty.accounts ana) ≡ or_zero (store.accounts ana) -ℤ pos 100)
    × (pos 0 ≤ℤ or_zero (served.loyalty.accounts ana))
redeem_points_lem_example =
    redeem_points_lem shop served 5000 ana (codes "X1") wish store-IsBalanced redeems

abbrev second : Coupons.NewCoupon
second = reward_coupon 6000 ana (codes "X2") mug

abbrev second_row : Coupons.Coupon
second_row = Coupons.row_of served.coupons.next_id second Coupons.percent

abbrev second_coupons : Coupons.Store
second_coupons = record served.coupons {
  coupons = served.coupons.coupons ++ second_row ∷ [];
  next_id = served.coupons.next_id + 1;
}
