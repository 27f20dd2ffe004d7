-- ===== src/Coupons/Apply/Laws.antt =====
-- What the application of a coupon guarantees: coupons/coupons.service.ts.
use limpeja_backend.Common.{
  ℕ, ◌+◌, ◌-◌, ◌*◌, ◌≤◌, ◌≡◌, refl, sym, subst, ◌≢◌, ◌⊎◌, ◌<◌, leb, Bool-cases, ◌↔◌, Bool, true,
  false, Option, none, some, arith, Option-cases, inl, inr, if◌then◌else◌,
}
use limpeja_backend.Common.Lists.{find}
use limpeja_backend.Common.Text.{Text, to_upper_case}
use limpeja_backend.Common.Outcome.{Outcome, ok, err}
use limpeja_backend.Coupons.{
  CouponTarget, new_clients, specific_service, specific_provider, Coupon, Store, has_code,
}
use limpeja_backend.Coupons.Apply.{
  IsNewClient, FitsTarget, FitsFirst, IsEligible, client_of, Message, applied, BookingData,
  check_new_client, check_target, check_coupon, raw_discount, capped, discount, Rounding, IsNearest,
  refuse, invalid, CouponApplication, conclude, apply_coupon, resolve_coupon,
}

-- The guards never answer with the message of success.
check_coupon-applied :
    (s : Store) (now : ℕ) (c : Coupon) (user : Text) (b : BookingData)
    → check_coupon s now c user b ≢ err applied
unfolding check_coupon check_target check_new_client
check_coupon-applied s now c user b h = ground arith

capped-≤ : (cap d : ℕ) → capped (some cap) d ≤ cap * 100
unfolding capped
capped-≤ cap d = ground arith

capped-≤-raw : (cap : Option ℕ) (d : ℕ) → capped cap d ≤ d
unfolding capped
capped-≤-raw cap d = ground arith

discount-capped :
    (c : Coupon) (price cap : ℕ) → c.max_discount ≡ some cap → discount c price ≤ cap * 100
unfolding discount raw_discount
discount-capped c price cap h = rw h (capped-≤ cap (raw_discount c price))

-- The price to pay is never above the original price. With the discount it is the original price up
-- to one cent, or it is zero and the two fall short by one cent at most. The discount of a coupon
-- with a cap is within the cap, and a refusal has no discount.
abbrev pub IsFair : BookingData → CouponApplication → Type 0
IsFair b r =
    (r.new_total_price ≤ b.original_price)
    × (b.original_price ≤ r.discount_amount + r.new_total_price + 1)
    × ((r.discount_amount + r.new_total_price ≤ b.original_price + 1) ⊎ (r.new_total_price ≡ 0))
    × ((c : Coupon) (cap : ℕ)
        → r.coupon ≡ some c
        → c.max_discount ≡ some cap
        → r.discount_amount ≤ cap)
    × (r.message ≢ applied → (r.discount_amount ≡ 0) × (r.new_total_price ≡ b.original_price))

nearest-parts :
    (p d n m : ℕ)
    → IsNearest d n
    → IsNearest (p * 100 - d) m
    → (m ≤ p) × (p ≤ n + m + 1) × ((n + m ≤ p + 1) ⊎ (m ≡ 0))
nearest-parts p d n m (n_low, n_high) (m_low, m_high) = (
  omega (arith, n_low, n_high, m_low, m_high),
  omega (arith, n_low, n_high, m_low, m_high),
  elim (Bool-cases (leb d (p * 100))) [
    | inl e ↦ let le : d ≤ p * 100 = ground arith in inl (omega (arith, le, n_low, m_low))
    | inr e ↦ let gt : p * 100 < d = ground arith in inr (omega (arith, gt, m_low))
  ],
)

refuse-IsFair : (b : BookingData) (m : Message) → IsFair b (refuse b m)
refuse-IsFair b m =
    (omega arith, omega arith, inl (omega arith), λ d cap h k. absurd cc, λ h. (refl, refl))

conclude-IsFair :
    (rounding : Rounding) (c : Coupon) (b : BookingData) (checked : Outcome Message (Unit {0}))
    → IsFair b (conclude rounding c b checked)
conclude-IsFair rounding c b (err m) = refuse-IsFair b m
conclude-IsFair rounding c b (ok u) =
    let price = b.original_price in
    let d = discount c price in
    let near = rounding.discount-IsNearest c price d in
    let (below, above, exact) =
      nearest-parts price d (rounding.discount_cents c price d)
        (rounding.rest_cents c price (price * 100 - d)) near
        (rounding.rest-IsNearest c price (price * 100 - d)) in
    (
      below,
      above,
      exact,
      λ e cap h k.
          let within : d ≤ cap * 100 = discount-capped c price cap cc in
          let low = near.0 in omega (arith, within, low),
      λ h. absurd (h refl),
    )

apply_coupon-none :
    (rounding : Rounding) (s : Store) (now : ℕ) (code user : Text) (b : BookingData)
    → find (has_code (to_upper_case code)) s.coupons ≡ none
    → apply_coupon rounding s now code user b ≡ refuse b invalid
unfolding apply_coupon
apply_coupon-none rounding s now code user b e = simp e

apply_coupon-some :
    (rounding : Rounding) (s : Store) (now : ℕ) (code user : Text) (b : BookingData) (c : Coupon)
    → find (has_code (to_upper_case code)) s.coupons ≡ some c
    → apply_coupon rounding s now code user b ≡ conclude rounding c b (check_coupon s now c user b)
unfolding apply_coupon
apply_coupon-some rounding s now code user b c e = simp e

-- Whatever a user applies a coupon code to, and however amounts between two cents are rounded: the
-- price to pay is never above the original price; with the discount it falls short of that by one
-- cent at most, and exceeds it by one cent at most unless there is nothing to pay; the discount of a
-- coupon with a cap is within the cap; and an answer other than success has no discount and the
-- original price.
pub apply_coupon-IsFair :
    (rounding : Rounding) (s : Store) (now : ℕ) (code user : Text) (b : BookingData)
    → IsFair b (apply_coupon rounding s now code user b)
apply_coupon-IsFair rounding s now code user b =
    elim (Option-cases (find (has_code (to_upper_case code)) s.coupons)) [
      | inl e ↦
          subst (IsFair b) (sym (apply_coupon-none rounding s now code user b e))
            (refuse-IsFair b invalid)
      | inr (c, e) ↦
          subst (IsFair b) (sym (apply_coupon-some rounding s now code user b c e))
            (conclude-IsFair rounding c b (check_coupon s now c user b))
    ]

check_new_client_iff :
    (s : Store) (user : Text) → (check_new_client s user ≡ ok tt) ↔ IsNewClient s user
unfolding check_new_client
check_new_client_iff s user = elim (Option-cases (find (client_of user) s.clients)) [
  | inl e ↦ (λ h. absurd (ground arith), λ (k, f, z). absurd cc)
  | inr (k, e) ↦ (λ h. (k, e, ground arith), λ (l, f, z). ground arith)
]

check_target_iff :
    (s : Store) (user : Text) (b : BookingData) (id : Option Text) (t : CouponTarget)
    → (check_target s user b id t ≡ ok tt) ↔ FitsTarget s user b id t
unfolding check_target
check_target_iff s user b id new_clients = check_new_client_iff s user
check_target_iff s user b id specific_service = (λ h. ground arith, λ h. ground arith)
check_target_iff s user b id specific_provider = (λ h. ground arith, λ h. ground arith)
check_target_iff s user b id t = (λ h. tt, λ h. refl)

check_first_iff :
    (s : Store) (user : Text) (first : Bool)
    → ((if first then check_new_client s user else ok tt) ≡ ok tt) ↔ FitsFirst s user first
check_first_iff s user true = check_new_client_iff s user
check_first_iff s user false = (λ h. tt, λ h. refl)

check_coupon_iff :
    (s : Store) (now : ℕ) (c : Coupon) (user : Text) (b : BookingData)
    → (check_coupon s now c user b ≡ ok tt) ↔ IsEligible s now c user b
unfolding check_coupon
check_coupon_iff s now c user b =
    let first = check_first_iff s user c.first_booking_only in
    let target = check_target_iff s user b c.target_id c.target in
    (λ h. ground (arith, first, target), λ h. ground (arith, first, target))

-- A coupon code is applied for a user exactly if a coupon with that code exists which is within its
-- period, active, not exhausted, not yet used by the user, not issued to someone else, and fits the
-- user and the booking by its first-booking flag and its target.
pub apply_coupon_iff :
    (rounding : Rounding) (s : Store) (now : ℕ) (code user : Text) (b : BookingData)
    → ((apply_coupon rounding s now code user b).message ≡ applied)
      ↔ (c : Coupon) × (find (has_code (to_upper_case code)) s.coupons ≡ some c)
        × IsEligible s now c user b
unfolding apply_coupon
apply_coupon_iff rounding s now code user b =
    elim (Option-cases (find (has_code (to_upper_case code)) s.coupons)) [
      | inl e ↦ (λ h. absurd (ground arith), λ (c, f, h). absurd cc)
      | inr (c, e) ↦
          let checked = check_coupon_iff s now c user b in
          let other = check_coupon-applied s now c user b in
          (λ h. (c, e, ground (arith, checked, other)), λ (d, f, h). ground (arith, checked))
    ]

-- The preview of a coupon calls it eligible exactly if its application succeeds.
pub resolve_coupon_iff :
    (rounding : Rounding) (s : Store) (now : ℕ) (code user : Text) (b : BookingData)
    → ((resolve_coupon rounding s now code user b).eligibility ≡ true)
      ↔ ((apply_coupon rounding s now code user b).message ≡ applied)
unfolding resolve_coupon
resolve_coupon_iff rounding s now code user b =
    let fair = apply_coupon-IsFair rounding s now code user b in
    elim (Option-cases (find (has_code (to_upper_case code)) s.coupons)) [
      | inl e ↦
          let none_applied = apply_coupon-none rounding s now code user b e in
          (λ h. absurd (ground arith), λ h. absurd (ground arith))
      | inr (c, e) ↦ (λ h. ground arith, λ h. ground arith)
    ]
