-- ===== src/Coupons/Issue.antt =====
-- coupons/coupons.service.ts: the coupons that the platform issues by itself, the update of a coupon
-- by an administrator and the list of a user's coupons. The random part of a code is an argument.
pub mod Laws
use limpeja_backend.Common.{
  ℕ, zero, suc, ◌+◌, ◌*◌, min, Bool, true, false, ◌&&◌, ◌||◌, Option, none, some, List, [], ◌∷◌,
  ◌++◌, ltb, leb, if◌then◌else◌,
}
use limpeja_backend.Common.Lists.{find, filter}
use limpeja_backend.Common.Text.{Text, codes, text_eq, to_upper_case}
use limpeja_backend.Common.Outcome.{Outcome, ok, err, ◌>>=◌, ◌>>◌, throw_if, or_throw}
use limpeja_backend.Coupons.{
  CouponTarget, general, CouponStatus, active, inactive, expired, used_up, Coupon, Store,
  CouponError, not_a_coupon_mission, NewCoupon, create,
}

abbrev pub day : ℕ
day = 24 * 60 * 60 * 1000

-- `text.substring(0, n)`
abbrev pub first_chars : ℕ → Text → Text
first_chars zero t = []
first_chars (suc n) [] = []
first_chars (suc n) (c ∷ cs) = c ∷ first_chars n cs

-- What the bodies of the calls of `create` below have in common: one use, active, no target id.
abbrev pub issue :
    (code type : Text) (value : ℕ) (target : Text) (now days : ℕ) (user issuer : Text)
    (first : Bool)
    → Option ℕ
    → NewCoupon
issue code type value target now days user issuer first cap = record {
  code = code;
  type = type;
  value = value;
  target = target;
  target_id = none;
  max_uses = some 1;
  valid_from = now;
  valid_until = now + days * day;
  is_active = true;
  first_booking_only = first;
  issued_to = some user;
  issued_by = some issuer;
  max_discount = cap;
}

pub record Mission : Type 0 where
  pub code : Text
  pub rewards_coupon : Bool
  pub reward_value : ℕ

-- `issueCouponFromMission`. The value of the reward is an integer, here one that is not negative.
unfoldable pub issue_coupon_from_mission :
    Store
    → (now : ℕ) → (user : Text) → Mission
    → (days : ℕ) → (rand : Text) → Outcome CouponError (Coupon × Store)
issue_coupon_from_mission s now user m days rand =
    if m.rewards_coupon
    then create s (
        issue (codes "MIS-" ++ m.code ++ codes "-" ++ rand) (codes "PERCENT")
          (min 100 m.reward_value) (codes "GENERAL") now days user (codes "MISSION") false
          (some 5000))
    else err not_a_coupon_mission

-- A code of a prefix, the start of the user's id and the random part.
abbrev pub user_code : Text → Text → Text → Text
user_code prefix user rand = prefix ++ to_upper_case (first_chars 4 user) ++ codes "-" ++ rand

-- `issueReturnCoupon`
unfoldable pub issue_return_coupon :
    Store → (now : ℕ) → (user rand : Text) → Outcome CouponError (Coupon × Store)
issue_return_coupon s now user rand = create s (
    issue (user_code (codes "RET-") user rand) (codes "PERCENT") 20 (codes "GENERAL") now 7 user
      (codes "RETURN_COUPON") false (some 3000))

-- `issueReferralReferredCoupon`
unfoldable pub issue_referral_referred_coupon :
    Store → (now : ℕ) → (user rand : Text) → Outcome CouponError (Coupon × Store)
issue_referral_referred_coupon s now user rand = create s (
    issue (user_code (codes "REFIND-") user rand) (codes "PERCENT") 20 (codes "NEW_CLIENTS") now 14
      user (codes "REFERRAL") true (some 3000))

-- `issueReferralReferrerCoupon`
unfoldable pub issue_referral_referrer_coupon :
    Store → (now : ℕ) → (user rand : Text) → Outcome CouponError (Coupon × Store)
issue_referral_referrer_coupon s now user rand = create s (
    issue (user_code (codes "REFINC-") user rand) (codes "FIXED") 2000 (codes "GENERAL") now 14 user
      (codes "REFERRAL") false none)

abbrev pub issued_to_user : Option Text → Text → Bool
issued_to_user none user = false
issued_to_user (some t) user = text_eq t user

abbrev pub is_welcome : Text → Coupon → Bool
is_welcome user c =
    issued_to_user c.issued_to user && text_eq c.issued_by (codes "WELCOME_NEW_USER")

abbrev pub welcome_code : Text → Text
welcome_code user = codes "BEMVINDO-" ++ to_upper_case (first_chars 6 user)

abbrev pub welcome : (now : ℕ) → Text → NewCoupon
welcome now user =
    issue (welcome_code user) (codes "PERCENT") 20 (codes "NEW_CLIENTS") now 30 user
      (codes "WELCOME_NEW_USER") true (some 5000)

abbrev pub or_create : Store → NewCoupon → Option Coupon → Outcome CouponError (Coupon × Store)
or_create s d (some c) = ok (c, s)
or_create s d none = create s d

-- `ensureWelcomeCoupon`
unfoldable pub ensure_welcome_coupon :
    Store → (now : ℕ) → (user : Text) → Outcome CouponError (Coupon × Store)
ensure_welcome_coupon s now user = or_create s (welcome now user) (find (is_welcome user) s.coupons)

abbrev pub is_listed_status : CouponStatus → Bool
is_listed_status inactive = false
is_listed_status _ = true

abbrev pub is_general : CouponTarget → Bool
is_general general = true
is_general _ = false

abbrev pub is_mine : Text → Coupon → Bool
is_mine user c =
    is_listed_status c.status
    && elim c.issued_to [ none ↦ is_general c.target | some t ↦ text_eq t user ]

abbrev pub is_expired : CouponStatus → Bool
is_expired expired = true
is_expired _ = false

abbrev pub is_used_up : CouponStatus → Bool
is_used_up used_up = true
is_used_up _ = false

abbrev pub derived_status : (now : ℕ) → Coupon → CouponStatus
derived_status now c =
    if ltb c.valid_until now || is_expired c.status
    then expired
    else (if is_used_up c.status then used_up else c.status)

abbrev pub insert_coupon : Coupon → List Coupon → List Coupon
insert_coupon c [] = c ∷ []
insert_coupon c (d ∷ ds) =
    let rest = insert_coupon c ds in
    if leb c.valid_until d.valid_until then c ∷ d ∷ ds else d ∷ rest

-- `orderBy: { validUntil: 'asc' }`
unfoldable pub by_expiry : List Coupon → List Coupon
by_expiry [] = []
by_expiry (c ∷ cs) = insert_coupon c (by_expiry cs)

abbrev pub enrich : (now : ℕ) → List Coupon → List Coupon
enrich now [] = []
enrich now (c ∷ cs) = record c { status = derived_status now c } ∷ enrich now cs

-- `getMyCoupons`
unfoldable pub get_my_coupons :
    Store → (now : ℕ) → (user : Text) → Outcome CouponError (List Coupon × Store)
get_my_coupons s now user = do
  (c, s1) ← ensure_welcome_coupon s now user
  ok (enrich now (by_expiry (filter (is_mine user) s1.coupons)), s1)
