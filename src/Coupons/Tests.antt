-- ===== src/Coupons/Tests.antt =====
-- Runs of the coupon modules at concrete inputs.
use limpeja_backend.Common.{ℕ, ◌+◌, ◌/◌, arith, ◌≡◌, refl, true, false, none, some, [], ◌∷◌, ◌↔◌}
use limpeja_backend.Common.Lists.{find}
use limpeja_backend.Common.Text.{Text, codes, to_upper_case}
use limpeja_backend.Common.Outcome.{ok}
use limpeja_backend.Coupons.{
  percent, general, new_clients, active, Coupon, Store, has_code, create, normalize_value_type,
  normalize_target,
}
use limpeja_backend.Coupons.Apply.{
  applied, BookingData, capped, raw_discount, discount, check_coupon, check_target, apply_coupon,
  IsEligible, Rounding, IsNearest,
}
use limpeja_backend.Coupons.Apply.Laws.{IsFair, apply_coupon-IsFair, apply_coupon_iff}
use limpeja_backend.Coupons.Issue.{welcome, welcome_code, ensure_welcome_coupon}

abbrev half_off : Coupon
half_off = record {
  id = 1;
  code = codes "HALF";
  value = 50;
  value_type = percent;
  target = general;
  target_id = none;
  max_uses = some 1;
  uses_count = 0;
  valid_from = 100;
  valid_until = 200;
  status = active;
  first_booking_only = false;
  issued_to = none;
  issued_by = codes "SYSTEM";
  max_discount = some 3000;
}

abbrev store : Store
store = record { coupons = half_off ∷ []; usages = []; clients = []; next_id = 2 }

abbrev cleaning : BookingData
cleaning = record { original_price = 10001; provider_service_id = none; provider_id = none }

abbrev ana : Text
ana = codes "abcdef-ana"

abbrev bia : Text
bia = codes "ABCDEF-bia"

-- The rounding of exact halves down, as 50.025 comes out.
abbrev down : ℕ → ℕ
down x = (x + 49) / 100

down-IsNearest : (x : ℕ) → IsNearest x (down x)
down-IsNearest x = (omega arith, omega arith)

abbrev binary : Rounding
binary = record {
  discount_cents = λ c price x. down x;
  rest_cents = λ c price x. down x;
  discount-IsNearest = λ c price x. down-IsNearest x;
  rest-IsNearest = λ c price x. down-IsNearest x;
}

abbrev plain_half : Coupon
plain_half = record half_off { max_discount = none }

-- Half of 100.05 is 50.02, and 50.02 is left.
a_cent_is_lost :
    apply_coupon binary
      (record store { coupons = plain_half ∷ [] })
      150
      (codes "half")
      ana
      (record cleaning { original_price = 10005 })
    ≡ record {
      discount_amount = 5002;
      new_total_price = 5002;
      message = applied;
      coupon = some plain_half;
    }
unfolding apply_coupon to_upper_case check_coupon check_target discount capped raw_discount
a_cent_is_lost = refl

-- Half of 100.01 is capped at 30.00.
half_off_applies : apply_coupon binary store 150 (codes "half") ana cleaning ≡ record {
  discount_amount = 3000;
  new_total_price = 7001;
  message = applied;
  coupon = some half_off;
}
unfolding apply_coupon to_upper_case check_coupon check_target discount capped raw_discount
half_off_applies = refl

apply_coupon-IsFair_example :
    IsFair cleaning (apply_coupon binary store 150 (codes "HALF") ana cleaning)
apply_coupon-IsFair_example = apply_coupon-IsFair binary store 150 (codes "HALF") ana cleaning

apply_coupon_iff_example :
    ((apply_coupon binary store 150 (codes "HALF") ana cleaning).message ≡ applied)
    ↔ (c : Coupon) × (find (has_code (to_upper_case (codes "HALF"))) store.coupons ≡ some c)
      × IsEligible store 150 c ana cleaning
apply_coupon_iff_example = apply_coupon_iff binary store 150 (codes "HALF") ana cleaning

half_off_found : find (has_code (to_upper_case (codes "HALF"))) store.coupons ≡ some half_off
unfolding to_upper_case
half_off_found = refl

abbrev welcomed : Coupon
welcomed = record {
  id = 2;
  code = codes "BEMVINDO-ABCDEF";
  value = 20;
  value_type = percent;
  target = new_clients;
  target_id = none;
  max_uses = some 1;
  uses_count = 0;
  valid_from = 100;
  valid_until = 2592000100;
  status = active;
  first_booking_only = true;
  issued_to = some ana;
  issued_by = codes "WELCOME_NEW_USER";
  max_discount = some 5000;
}

abbrev welcomed_store : Store
welcomed_store = record store { coupons = half_off ∷ welcomed ∷ []; next_id = 3 }

first_created : create store (welcome 100 ana) ≡ ok (welcomed, welcomed_store)
unfolding create to_upper_case normalize_value_type normalize_target
first_created = refl

first_welcome : ensure_welcome_coupon store 100 ana ≡ ok (welcomed, welcomed_store)
unfolding ensure_welcome_coupon create to_upper_case normalize_value_type normalize_target
first_welcome = refl

same_code : to_upper_case (welcome_code bia) ≡ to_upper_case (welcome_code ana)
unfolding to_upper_case
same_code = refl
