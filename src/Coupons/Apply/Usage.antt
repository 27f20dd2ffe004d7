-- ===== src/Coupons/Apply/Usage.antt =====
-- What `markCouponAsUsed` does to later applications: coupons/coupons.service.ts.
use limpeja_backend.Common.{
  ℕ, suc, ◌+◌, ◌≤◌, ◌≡◌, refl, ◌≢◌, true, false, some, List, [], ◌∷◌, arith, Bool-cases, inl, inr,
}
use limpeja_backend.Common.Lists.{find}
use limpeja_backend.Common.Text.{Text, to_upper_case}
use limpeja_backend.Coupons.{used_up, Coupon, Store, has_code, update_coupon}
use limpeja_backend.Coupons.Apply.{
  applied, BookingData, Rounding, is_exhausted, apply_coupon, count_use, mark_coupon_as_used,
}
use limpeja_backend.Coupons.Apply.Laws.{apply_coupon_iff}

has_code-count_use : (code : Text) (c : Coupon) → has_code code (count_use c) ≡ has_code code c
unfolding count_use
has_code-count_use code c =
    elim (Bool-cases (is_exhausted (record c { uses_count = c.uses_count + 1 }))) [
      | inl e ↦ simp e refl
      | inr e ↦ simp e refl
    ]

find-update_coupon :
    (code : Text) (id : ℕ) (cs : List Coupon) (c : Coupon)
    → find (has_code code) cs ≡ some c
    → c.id ≡ id
    → find (has_code code) (update_coupon id count_use cs) ≡ some (count_use c)
unfolding update_coupon
find-update_coupon code id [] c h k = absurd cc
find-update_coupon code id (d ∷ ds) c h k =
    ground (arith, find-update_coupon code id ds c, has_code-count_use code d)

count_use-is_exhausted :
    (c : Coupon) (m : ℕ)
    → c.max_uses ≡ some (suc m)
    → m ≤ c.uses_count
    → (is_exhausted (count_use c) ≡ true) × ((count_use c).status ≡ used_up)
unfolding count_use
count_use-is_exhausted c m h k = ground arith

-- The last use of a coupon with a maximum: after it is counted, the coupon found by its code is
-- marked as used up, and no user can apply it, at any time and to any booking.
pub spent_is_refused :
    (rounding : Rounding) (s : Store) (now : ℕ) (code user : Text) (b : BookingData) (c : Coupon)
    (m : ℕ)
    → find (has_code (to_upper_case code)) s.coupons ≡ some c
    → c.max_uses ≡ some (suc m)
    → m ≤ c.uses_count
    → (find (has_code (to_upper_case code)) (mark_coupon_as_used s c.id).coupons
        ≡ some (count_use c))
      × ((count_use c).status ≡ used_up)
      × ((apply_coupon rounding (mark_coupon_as_used s c.id) now code user b).message ≢ applied)
unfolding mark_coupon_as_used
spent_is_refused rounding s now code user b c m h k l =
    let found = find-update_coupon (to_upper_case code) c.id s.coupons c h refl in
    let (spent, status) = count_use-is_exhausted c m k l in
    (
      found,
      status,
      λ e.
          let (d, f, eligible) =
            (apply_coupon_iff rounding (mark_coupon_as_used s c.id) now code user b).0 e in
          let fresh : is_exhausted d ≡ false = eligible.2 in cc,
    )
