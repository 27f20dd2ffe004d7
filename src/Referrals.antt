-- ===== src/Referrals.antt =====
-- `createReferral` of referrals/referrals.service.ts. Users are texts; a CPF is one that is given.
-- The column of the referred user is unique, so the database refuses a second row for one. The
-- random part of the coupon's code is an argument, and a coupon that fails is only logged. The code
-- of the referral, which is only stored, is left out.
pub mod Laws
mod Tests
use limpeja_backend.Common.{
  ℕ, ◌+◌, ◌*◌, Bool, true, false, not, ◌&&◌, Option, none, some, List, [], ◌∷◌, ◌++◌, leb,
  if◌then◌else◌,
}
use limpeja_backend.Common.Lists.{any, includes, filter, length}
use limpeja_backend.Common.Text.{Text, text_eq}
use limpeja_backend.Common.Outcome.{Outcome, ok, err, ◌>>=◌, ◌>>◌, throw_if}
use limpeja_backend.Coupons.{Coupon, CouponError, Store as CouponStore}
use limpeja_backend.Coupons.Issue.{day, issue_referral_referred_coupon}

pub record Referral : Type 0 where
  pub id : ℕ
  pub referred : Text
  pub referrer : Text
  pub created_at : ℕ

pub record Store : Type 0 where
  pub users : List Text
  pub cpf_of : Text → Option Text
  pub referrals : List Referral
  pub coupons : CouponStore
  pub next_id : ℕ

pub data ReferralError : Type 0 where
  self_referral user_not_found same_cpf limit_reached already_referred not_unique : ReferralError

abbrev pub equal_cpfs : Option Text → Option Text → Bool
equal_cpfs (some a) (some b) = text_eq a b
equal_cpfs _ _ = false

-- `createdAt: { gte: … }`, of the referrer's referrals in the last thirty days.
abbrev pub is_recent : ℕ → Text → Referral → Bool
is_recent now user r = text_eq r.referrer user && leb now (r.created_at + 30 * day)

abbrev pub recent_referrals : Store → ℕ → Text → ℕ
recent_referrals s now user = length (filter (is_recent now user) s.referrals)

abbrev pub is_pair : Text → Text → Referral → Bool
is_pair referred referrer r = text_eq r.referred referred && text_eq r.referrer referrer

abbrev pub is_referred : Text → Referral → Bool
is_referred user r = text_eq r.referred user

abbrev pub coupons_after : CouponStore → Outcome CouponError (Coupon × CouponStore) → CouponStore
coupons_after c (ok r) = r.1
coupons_after c (err e) = c

abbrev pub add_referral : Store → ℕ → Text → Text → Text → Store
add_referral s now rand referred referrer = record s {
  referrals =
      s.referrals
      ++ record { id = s.next_id; referred = referred; referrer = referrer; created_at = now } ∷ [];
  coupons = coupons_after s.coupons (issue_referral_referred_coupon s.coupons now referred rand);
  next_id = s.next_id + 1;
}

-- `createReferral`
unfoldable pub create_referral : Store → ℕ → Text → Text → Text → Outcome ReferralError Store
create_referral s now rand referred referrer = do
  throw_if (text_eq referred referrer) self_referral
  throw_if (not (includes text_eq referred s.users)) user_not_found
  throw_if (not (includes text_eq referrer s.users)) user_not_found
  throw_if (equal_cpfs (s.cpf_of referred) (s.cpf_of referrer)) same_cpf
  throw_if (leb 5 (recent_referrals s now referrer)) limit_reached
  throw_if (any (is_pair referred referrer) s.referrals) already_referred
  throw_if (any (is_referred referred) s.referrals) not_unique
  ok (add_referral s now rand referred referrer)
