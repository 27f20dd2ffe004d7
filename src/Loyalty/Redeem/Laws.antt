-- ===== src/Loyalty/Redeem/Laws.antt =====
-- What a redemption does to the balance, the transactions and the coupons:
-- loyalty/loyalty.service.ts, `redeemPoints`.
use limpeja_backend.Common.{
  ℕ, ◌≡◌, refl, sym, subst, ap, ◌∙◌, true, Option, arith, Bool-cases, inl, inr,
}
use limpeja_backend.Common.Int.{ℤ, pos, ◌≤ℤ◌, ◌-ℤ◌, int_laws}
use limpeja_backend.Common.Lists.{any}
use limpeja_backend.Common.Text.{Text, text_eq_refl}
use limpeja_backend.Common.Outcome.{Outcome-cases, Outcome, ok, err}
use limpeja_backend.Coupons
use limpeja_backend.Loyalty.{redeem, plain, Store, or_zero, same_key, record_points}
use limpeja_backend.Loyalty.Balance.{IsBalanced, record_points-IsBalanced}
use limpeja_backend.Loyalty.Redeem.{
  Reward, RedeemPoints, Shop, RedeemError, duplicate_transaction, can_pay, check_redeem,
  reward_coupon, debit, pay, buy, redeem_checked, redeem_points,
}

pay-IsBalanced :
    (s t : Shop) (now : ℕ) (user : Text) (r : Reward)
    → IsBalanced s.loyalty
    → pay s now user r ≡ (ok tt, t)
    → IsBalanced t.loyalty
pay-IsBalanced s t now user r h k =
    elim (Bool-cases (any (same_key user redeem (plain r.id)) s.loyalty.transactions)) [
      | inl seen ↦ absurd (ground arith)
      | inr new ↦
          let cost = pos 0 -ℤ pos r.cost_points in
          let same : record_points s.loyalty now user cost redeem (plain r.id) ≡ t.loyalty =
            ground arith in
          subst IsBalanced same
            (record_points-IsBalanced s.loyalty now user cost redeem (plain r.id) h)
    ]

buy-IsBalanced :
    (s t : Shop) (now : ℕ) (user : Text) (r : Reward)
    (m : Outcome Coupons.CouponError (Coupons.Coupon × Coupons.Store))
    → IsBalanced s.loyalty
    → buy s now user r m ≡ (ok tt, t)
    → IsBalanced t.loyalty
buy-IsBalanced s t now user r (err e) h k = absurd (ground arith)
buy-IsBalanced s t now user r (ok (c, u)) h k =
    pay-IsBalanced (record s { coupons = u }) t now user r h k

redeem_checked-IsBalanced :
    (s t : Shop) (now : ℕ) (user rand : Text) (m : Outcome RedeemError Reward)
    → IsBalanced s.loyalty
    → redeem_checked s now user rand m ≡ (ok tt, t)
    → IsBalanced t.loyalty
redeem_checked-IsBalanced s t now user rand (err e) h k = absurd (ground arith)
redeem_checked-IsBalanced s t now user rand (ok r) h k =
    buy-IsBalanced s t now user r (Coupons.create s.coupons (reward_coupon now user rand r)) h k

debit-balance :
    (s : Store) (user : Text) (cost : ℕ)
    → or_zero ((debit s user cost).accounts user) ≡ or_zero (s.accounts user) -ℤ pos cost
debit-balance s user cost = rw (text_eq_refl user) (omega int_laws)

can_pay-≤ : (cost : ℕ) (o : Option ℤ) → can_pay cost o ≡ true → pos cost ≤ℤ or_zero o
can_pay-≤ cost o h = ground arith

-- What the checks guarantee.
check_redeem-ok :
    (s : Shop) (user : Text) (d : RedeemPoints) (r : Reward)
    → check_redeem s user d ≡ ok r
    → (pos d.points_to_redeem ≤ℤ or_zero (s.loyalty.accounts user))
      × (r.cost_points ≡ d.points_to_redeem)
unfolding check_redeem
check_redeem-ok s user d r h =
    ground (arith, can_pay-≤ d.points_to_redeem (s.loyalty.accounts user))

buy-balance :
    (s t : Shop) (now : ℕ) (user : Text) (r : Reward)
    (m : Outcome Coupons.CouponError (Coupons.Coupon × Coupons.Store))
    → buy s now user r m ≡ (ok tt, t)
    → t.loyalty.accounts ≡ (debit s.loyalty user r.cost_points).accounts
buy-balance s t now user r (err e) k = absurd (ground arith)
buy-balance s t now user r (ok (c, u)) k = ground arith

-- A redemption that succeeds takes exactly its points from the balance of the user, which covers
-- them, and keeps every balance the sum of its user's transactions, where they were so before.
pub redeem_points_lem :
    (s t : Shop) (now : ℕ) (user rand : Text) (d : RedeemPoints)
    → IsBalanced s.loyalty
    → redeem_points s now user rand d ≡ (ok tt, t)
    → IsBalanced t.loyalty
      × (or_zero (t.loyalty.accounts user)
          ≡ or_zero (s.loyalty.accounts user) -ℤ pos d.points_to_redeem)
      × (pos 0 ≤ℤ or_zero (t.loyalty.accounts user))
unfolding redeem_points
redeem_points_lem s t now user rand d h k = elim (Outcome-cases (check_redeem s user d)) [
  | inr (x, e) ↦ absurd (ground arith)
  | inl (r, e) ↦
      let (enough, exact) = check_redeem-ok s user d r e in
      let bought : buy s now user r (Coupons.create s.coupons (reward_coupon now user rand r))
          ≡ (ok tt, t) =
        ground arith in
      let accounts = buy-balance s t now user r _ bought in
      let left : or_zero (t.loyalty.accounts user)
          ≡ or_zero (s.loyalty.accounts user) -ℤ pos d.points_to_redeem =
        ap (λ f. or_zero (f user)) accounts
        ∙ subst
            (λ n.
              or_zero ((debit s.loyalty user r.cost_points).accounts user)
              ≡ or_zero (s.loyalty.accounts user) -ℤ pos n)
            exact (debit-balance s.loyalty user r.cost_points) in
      (
        redeem_checked-IsBalanced s t now user rand (check_redeem s user d) h k,
        left,
        subst (λ b. pos 0 ≤ℤ b) (sym left) (omega (int_laws, enough)),
      )
]

-- A reward that passes the checks, but that the user has redeemed before: the redemption throws, yet
-- its coupon is created and its cost is taken from the balance without a transaction.
pub redeem_again_throws :
    (s : Shop) (now : ℕ) (user rand : Text) (d : RedeemPoints) (r : Reward) (c : Coupons.Coupon)
    (u : Coupons.Store)
    → check_redeem s user d ≡ ok r
    → Coupons.create s.coupons (reward_coupon now user rand r) ≡ ok (c, u)
    → any (same_key user redeem (plain r.id)) s.loyalty.transactions ≡ true
    → let (reply, t) = redeem_points s now user rand d in
      (reply ≡ err duplicate_transaction)
      × (t.coupons ≡ u)
      × (t.loyalty.transactions ≡ s.loyalty.transactions)
      × (or_zero (t.loyalty.accounts user) ≡ or_zero (s.loyalty.accounts user) -ℤ pos r.cost_points)
unfolding redeem_points
redeem_again_throws s now user rand d r c u checked created seen =
    simp (checked, created, seen) (refl, refl, refl, debit-balance s.loyalty user r.cost_points)
