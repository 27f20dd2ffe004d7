-- ===== src/Referrals/Tests.antt =====
-- A run of a referral.
use limpeja_backend.Common.{◌≤◌, ◌≡◌, refl, false, none, [], ◌∷◌}
use limpeja_backend.Common.Text.{codes, text_eq}
use limpeja_backend.Common.Outcome.{ok}
use limpeja_backend.Referrals.{Store, recent_referrals, add_referral, create_referral}
use limpeja_backend.Referrals.Laws.{IsReferredOnce, create_referral_lem}

abbrev store : Store
store = record {
  users = codes "ana" ∷ codes "bia" ∷ [];
  cpf_of = λ u. none;
  referrals = [];
  coupons = record { coupons = []; usages = []; clients = []; next_id = 0 };
  next_id = 0;
}

abbrev referred : Store
referred = add_referral store 10 (codes "X") (codes "bia") (codes "ana")

refers : create_referral store 10 (codes "X") (codes "bia") (codes "ana") ≡ ok referred
unfolding create_referral
refers = refl

create_referral_lem_example :
    (text_eq (codes "bia") (codes "ana") ≡ false)
    × IsReferredOnce referred.referrals
    × (recent_referrals referred 10 (codes "ana") ≤ 5)
create_referral_lem_example =
    create_referral_lem store 10 (codes "X") (codes "bia") (codes "ana") referred refers tt
