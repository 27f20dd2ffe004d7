-- ===== src/Coupons/Issue/Laws.antt =====
-- What the creation of coupons guarantees, and when the welcome coupon is issued:
-- coupons/coupons.service.ts.
use limpeja_backend.Common.{
  ℕ, ◌≡◌, refl, sym, ap, subst, Bool, true, none, some, List, [], ◌∷◌, ◌++◌, arith, Option-cases,
  inl, inr,
}
use limpeja_backend.Common.Lists.{find}
use limpeja_backend.Common.Text.{text_eq_refl, Text, to_upper_case}
use limpeja_backend.Common.Outcome.{ok, err}
use limpeja_backend.Coupons.{
  Coupon, Store, CouponType, code_taken, row_of, normalize_value_type, NewCoupon, has_code, create,
}
use limpeja_backend.Coupons.Issue.{
  is_welcome, or_create, welcome_code, welcome, ensure_welcome_coupon,
}

module _ {ℓ} {A : Type ℓ} (test : A → Bool) where
  find-append-some :
      (xs : List A) (y x : A) → find test xs ≡ some x → find test (xs ++ y ∷ []) ≡ some x
  find-append-some [] y x h = absurd cc
  find-append-some (z ∷ xs) y x h = ground (arith, find-append-some xs y x)

  find-append-none :
      (xs : List A) (y : A)
      → find test xs ≡ none
      → test y ≡ true
      → find test (xs ++ y ∷ []) ≡ some y
  find-append-none [] y h k = rw k refl
  find-append-none (z ∷ xs) y h k = ground (arith, find-append-none xs y)

-- What a successful creation has passed and done.
create-ok :
    (s s1 : Store) (d : NewCoupon) (c : Coupon)
    → create s d ≡ ok (c, s1)
    → (type : CouponType) × (find (has_code (to_upper_case d.code)) s.coupons ≡ none)
      × (c ≡ row_of s.next_id d type)
      × (s1.coupons ≡ s.coupons ++ c ∷ [])
unfolding create
create-ok s s1 d c h = elim (Option-cases (find (has_code (to_upper_case d.code)) s.coupons)) [
  | inr (old, e) ↦ absurd (ground arith)
  | inl e ↦ elim (Option-cases (normalize_value_type d.type)) [
    | inl k ↦ absurd (ground arith)
    | inr (type, k) ↦ (type, e, ground arith, ground arith)
  ]
]

-- A successful creation gives the coupon its upper-cased code, which no coupon had, a lookup by that
-- code finds the new coupon, and a lookup that found a coupon before finds it still.
pub create_lem :
    (s s1 : Store) (d : NewCoupon) (c : Coupon)
    → create s d ≡ ok (c, s1)
    → (c.code ≡ to_upper_case d.code)
      × (find (has_code (to_upper_case d.code)) s.coupons ≡ none)
      × (find (has_code (to_upper_case d.code)) s1.coupons ≡ some c)
      × ((code : Text) (old : Coupon)
          → find (has_code code) s.coupons ≡ some old
          → find (has_code code) s1.coupons ≡ some old)
create_lem s s1 d c h =
    let (type, fresh, made, stored) = create-ok s s1 d c h in
    let coded : has_code (to_upper_case d.code) c ≡ true =
      rw made (text_eq_refl (to_upper_case d.code)) in
    (
      ap (λ k. k.code) made,
      fresh,
      rw stored (find-append-none (has_code (to_upper_case d.code)) s.coupons c fresh coded),
      λ code old h. rw stored (find-append-some (has_code code) s.coupons c old h),
    )

create-taken :
    (s : Store) (d : NewCoupon) (old : Coupon)
    → find (has_code (to_upper_case d.code)) s.coupons ≡ some old
    → create s d ≡ err code_taken
unfolding create
create-taken s d old e = ground arith

-- Once a coupon is issued under a code, another creation under the same code, in any case of its
-- letters, is refused.
pub create-once :
    (s s1 : Store) (d e : NewCoupon) (c : Coupon)
    → create s d ≡ ok (c, s1)
    → to_upper_case e.code ≡ to_upper_case d.code
    → create s1 e ≡ err code_taken
create-once s s1 d e c h same =
    let (coded, fresh, found, others) = create_lem s s1 d c h in
    create-taken s1 e c (subst (λ k. find (has_code k) s1.coupons ≡ some c) (sym same) found)

-- The welcome coupon is issued once: a second call for the same user, at any time, returns the
-- coupon of the first and changes nothing.
pub ensure_welcome_coupon-once :
    (s s1 : Store) (now later : ℕ) (user : Text) (c : Coupon)
    → ensure_welcome_coupon s now user ≡ ok (c, s1)
    → ensure_welcome_coupon s1 later user ≡ ok (c, s1)
unfolding ensure_welcome_coupon
ensure_welcome_coupon-once s s1 now later user c h =
    elim (Option-cases (find (is_welcome user) s.coupons)) [
      | inr (old, e) ↦ ground arith
      | inl e ↦
          let (type, fresh, made, stored) =
            create-ok s s1 (welcome now user) c
              (subst (λ o. or_create s (welcome now user) o ≡ ok (c, s1)) e h) in
          let mine : is_welcome user c ≡ true = rw made (rw (text_eq_refl user) refl) in
          let found : find (is_welcome user) s1.coupons ≡ some c =
            rw stored (find-append-none (is_welcome user) s.coupons c e mine) in
          simp found refl
    ]

-- Two users whose ids begin alike collide: once the first has got a welcome coupon by its creation,
-- the welcome coupon of the second, who has none, is refused as a taken code.
pub welcome_collides :
    (s s1 : Store) (now later : ℕ) (user other : Text) (c : Coupon)
    → create s (welcome now user) ≡ ok (c, s1)
    → to_upper_case (welcome_code other) ≡ to_upper_case (welcome_code user)
    → find (is_welcome other) s1.coupons ≡ none
    → ensure_welcome_coupon s1 later other ≡ err code_taken
unfolding ensure_welcome_coupon
welcome_collides s s1 now later user other c h same e =
    rw e (create-once s s1 (welcome now user) (welcome later other) c h same)
