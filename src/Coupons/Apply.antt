-- ===== src/Coupons/Apply.antt =====
-- coupons/coupons.service.ts, `applyCoupon`, `resolveCoupon` and `markCouponAsUsed`. Prices are in
-- cents, and a discount is computed in hundredths of a cent. The code computes both in floating point
-- and rounds them to cents at the end by `toFixed(2)`; the rounding is an argument. The `errorCode` of an
-- answer, set exactly for `already_used`, is left out.
pub mod Laws
pub mod Usage
use limpeja_backend.Common.{
  ℕ, zero, suc, ◌+◌, ◌-◌, ◌*◌, ◌/◌, ◌≤◌, ◌≡◌, Bool, true, false, not, [], ◌∷◌, ◌&&◌, ◌||◌, Option,
  none, some, ltb, leb, ◌==◌, if◌then◌else◌,
}
use limpeja_backend.Common.Lists.{find}
use limpeja_backend.Common.Text.{Text, text_eq, to_upper_case}
use limpeja_backend.Common.Outcome.{Outcome, ok, err, ◌>>=◌, ◌>>◌, throw_if, or_throw}
use limpeja_backend.Coupons.{
  percent, fixed, CouponTarget, new_clients, specific_service, specific_provider, CouponStatus,
  active, used_up, Coupon, CouponUsage, Client, Store, has_code, is_taken, update_coupon,
}

pub data Message : Type 0 where
  invalid out_of_period exhausted not_active already_used not_yours no_client : Message
  only_new_clients not_this_service not_this_provider applied : Message

pub record BookingData : Type 0 where
  pub original_price : ℕ
  pub provider_service_id : Option Text
  pub provider_id : Option Text

pub record CouponApplication : Type 0 where
  pub discount_amount : ℕ
  pub new_total_price : ℕ
  pub message : Message
  pub coupon : Option Coupon

-- A refusal of `applyCoupon`.
abbrev pub refuse : BookingData → Message → CouponApplication
refuse b m = record {
  discount_amount = 0;
  new_total_price = b.original_price;
  message = m;
  coupon = none;
}

-- `coupon.maxUses && coupon.usesCount >= coupon.maxUses`: a maximum of zero is none.
abbrev pub is_exhausted : Coupon → Bool
is_exhausted c = elim c.max_uses [
  | none ↦ false
  | some n ↦ elim n [ zero ↦ false | suc m ↦ leb (suc m) c.uses_count ]
]

abbrev pub is_active : CouponStatus → Bool
is_active active = true
is_active _ = false

-- The given user is another one than the coupon names; the empty text names nobody.
abbrev pub names_other : Option Text → Text → Bool
names_other none user = false
names_other (some []) user = false
names_other (some (x ∷ xs)) user = not (text_eq (x ∷ xs) user)

-- `!given || given !== expected`
abbrev pub is_missed : Option Text → Option Text → Bool
is_missed none expected = true
is_missed (some []) expected = true
is_missed (some (x ∷ xs)) none = true
is_missed (some (x ∷ xs)) (some t) = not (text_eq (x ∷ xs) t)

abbrev pub usage_of : ℕ → Text → CouponUsage → Bool
usage_of id user u = u.coupon_id == id && text_eq u.user_id user

abbrev pub client_of : Text → Client → Bool
client_of user c = text_eq c.user_id user

-- The tests of a coupon for new clients.
unfoldable pub check_new_client : Store → Text → Outcome Message (Unit {0})
check_new_client s user = do
  client ← or_throw (find (client_of user) s.clients) no_client
  throw_if (ltb 0 client.completed_bookings) only_new_clients

unfoldable pub check_target :
    Store → Text → BookingData → Option Text → CouponTarget → Outcome Message (Unit {0})
check_target s user b id new_clients = check_new_client s user
check_target s user b id specific_service =
    throw_if (is_missed b.provider_service_id id) not_this_service
check_target s user b id specific_provider = throw_if (is_missed b.provider_id id) not_this_provider
check_target s user b id _ = ok tt

-- The guards of `applyCoupon` on a coupon that exists, in their order.
unfoldable pub check_coupon :
    Store → (now : ℕ) → Coupon → (user : Text) → BookingData → Outcome Message (Unit {0})
check_coupon s now c user b = do
  throw_if (ltb now c.valid_from || ltb c.valid_until now) out_of_period
  throw_if (is_exhausted c) exhausted
  throw_if (not (is_active c.status)) not_active
  throw_if (is_taken (find (usage_of c.id user) s.usages)) already_used
  throw_if (names_other c.issued_to user) not_yours
  (if c.first_booking_only then check_new_client s user else ok tt)
  check_target s user b c.target_id c.target

-- The discount before the cap, in hundredths of a cent.
unfoldable pub raw_discount : Coupon → ℕ → ℕ
raw_discount c price = elim c.value_type [ percent ↦ price * c.value | fixed ↦ c.value * 100 ]

unfoldable pub capped : Option ℕ → ℕ → ℕ
capped none d = d
capped (some cap) d = if ltb (cap * 100) d then cap * 100 else d

unfoldable pub discount : Coupon → ℕ → ℕ
discount c price = capped c.max_discount (raw_discount c price)

-- `n` cents are the nearest, or one of the two nearest, to `x` hundredths of a cent.
abbrev pub IsNearest : ℕ → ℕ → Type 0
IsNearest x n = (n * 100 ≤ x + 50) × (x ≤ n * 100 + 50)

-- `Number(amount.toFixed(2))` of the discount of a coupon on a price, and of what is left to pay,
-- for the exact amount. Which of two cents an amount just between them becomes depends on the
-- binary numbers that it was computed from.
pub record Rounding : Type 0 where
  pub discount_cents : Coupon → ℕ → ℕ → ℕ
  pub rest_cents : Coupon → ℕ → ℕ → ℕ
  pub discount-IsNearest : (c : Coupon) (price x : ℕ) → IsNearest x (discount_cents c price x)
  pub rest-IsNearest : (c : Coupon) (price x : ℕ) → IsNearest x (rest_cents c price x)

pub record Resolution : Type 0 where
  pub coupon : Option Coupon
  pub eligibility : Bool
  pub message : Message
  pub discount_preview : Option ℕ

abbrev pub is_applied : Message → Bool
is_applied applied = true
is_applied _ = false

abbrev pub resolution : CouponApplication → Option Coupon → Resolution
resolution r none = record {
  coupon = none;
  eligibility = false;
  message = invalid;
  discount_preview = none;
}
resolution r (some c) = record {
  coupon = some c;
  eligibility = ltb 0 r.discount_amount || is_applied r.message;
  message = r.message;
  discount_preview = some r.discount_amount;
}

module _ (rounding : Rounding) where
  abbrev pub accept : Coupon → BookingData → CouponApplication
  accept c b = record {
    discount_amount = rounding.discount_cents c b.original_price (discount c b.original_price);
    new_total_price =
        rounding.rest_cents c b.original_price
          (b.original_price * 100 - discount c b.original_price);
    message = applied;
    coupon = some c;
  }

  abbrev pub conclude : Coupon → BookingData → Outcome Message (Unit {0}) → CouponApplication
  conclude c b (ok u) = accept c b
  conclude c b (err m) = refuse b m

  abbrev pub answer : Store → ℕ → Text → BookingData → Option Coupon → CouponApplication
  answer s now user b none = refuse b invalid
  answer s now user b (some c) = conclude c b (check_coupon s now c user b)

  -- `applyCoupon`
  unfoldable pub apply_coupon :
      Store → (now : ℕ) → Text → (user : Text) → BookingData → CouponApplication
  apply_coupon s now code user b =
      answer s now user b (find (has_code (to_upper_case code)) s.coupons)

  -- `resolveCoupon`, whose message for a missing coupon is another text with the same meaning.
  unfoldable pub resolve_coupon :
      Store → (now : ℕ) → Text → (user : Text) → BookingData → Resolution
  resolve_coupon s now code user b =
      resolution (apply_coupon s now code user b) (find (has_code (to_upper_case code)) s.coupons)

-- The two updates of `markCouponAsUsed` on the row.
unfoldable pub count_use : Coupon → Coupon
count_use c =
    let used = record c { uses_count = c.uses_count + 1 } in
    if is_exhausted used then record used { status = used_up } else used

-- `markCouponAsUsed`, which does nothing when there is no such coupon.
unfoldable pub mark_coupon_as_used : Store → (id : ℕ) → Store
mark_coupon_as_used s id = record s { coupons = update_coupon id count_use s.coupons }

-- The conditions under which a coupon applies, without the order of the tests.
abbrev pub IsNewClient : Store → Text → Type 0
IsNewClient s user =
    (k : Client) × (find (client_of user) s.clients ≡ some k) × (k.completed_bookings ≡ 0)

abbrev pub FitsTarget : Store → Text → BookingData → Option Text → CouponTarget → Type 0
FitsTarget s user b id new_clients = IsNewClient s user
FitsTarget s user b id specific_service = is_missed b.provider_service_id id ≡ false
FitsTarget s user b id specific_provider = is_missed b.provider_id id ≡ false
FitsTarget s user b id _ = Unit

abbrev pub FitsFirst : Store → Text → Bool → Type 0
FitsFirst s user true = IsNewClient s user
FitsFirst s user false = Unit

abbrev pub IsEligible : Store → ℕ → Coupon → Text → BookingData → Type 0
IsEligible s now c user b =
    (c.valid_from ≤ now)
    × (now ≤ c.valid_until)
    × (is_exhausted c ≡ false)
    × (c.status ≡ active)
    × (find (usage_of c.id user) s.usages ≡ none)
    × (names_other c.issued_to user ≡ false)
    × FitsFirst s user c.first_booking_only
    × FitsTarget s user b c.target_id c.target
