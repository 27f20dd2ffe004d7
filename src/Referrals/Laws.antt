-- ===== src/Referrals/Laws.antt =====
-- What a new referral keeps: referrals/referrals.service.ts.
use limpeja_backend.Common.{
  ℕ, ◌+◌, ◌≤◌, ◌≡◌, refl, Bool, true, false, not, List, [], ◌∷◌, ◌++◌, arith, leb, inl, inr,
  Bool-cases,
}
use limpeja_backend.Common.Lists.{any, includes, filter, length}
use limpeja_backend.Common.Text.{Text, text_eq, text_eq_refl, text_eq_sound}
use limpeja_backend.Common.Outcome.{ok, throw_if-ok}
use limpeja_backend.Referrals.{
  Referral, Store, self_referral, user_not_found, same_cpf, limit_reached, already_referred,
  not_unique, equal_cpfs, is_recent, recent_referrals, is_pair, is_referred, add_referral,
  create_referral,
}

create_referral-ok :
    (s : Store) (now : ℕ) (rand referred referrer : Text) (t : Store)
    → create_referral s now rand referred referrer ≡ ok t
    → (text_eq referred referrer ≡ false)
      × (leb 5 (recent_referrals s now referrer) ≡ false)
      × (any (is_referred referred) s.referrals ≡ false)
      × (t ≡ add_referral s now rand referred referrer)
unfolding create_referral
create_referral-ok s now rand referred referrer t h =
    let (self, k1) = throw_if-ok (text_eq referred referrer) self_referral _ h in
    let (_, k2) = throw_if-ok (not (includes text_eq referred s.users)) user_not_found _ k1 in
    let (_, k3) = throw_if-ok (not (includes text_eq referrer s.users)) user_not_found _ k2 in
    let (_, k4) = throw_if-ok (equal_cpfs (s.cpf_of referred) (s.cpf_of referrer)) same_cpf _ k3 in
    let (few, k5) = throw_if-ok (leb 5 (recent_referrals s now referrer)) limit_reached _ k4 in
    let (_, k6) = throw_if-ok (any (is_pair referred referrer) s.referrals) already_referred _ k5 in
    let (fresh, k7) = throw_if-ok (any (is_referred referred) s.referrals) not_unique _ k6 in
    (self, few, fresh, ground arith)

length-filter-append :
    (test : Referral → Bool) (rs : List Referral) (r : Referral)
    → length (filter test (rs ++ r ∷ [])) ≤ length (filter test rs) + 1
length-filter-append test [] r = ground arith
length-filter-append test (q ∷ rs) r = ground (arith, length-filter-append test rs r)

-- No user is referred twice.
abbrev pub IsReferredOnce : List Referral → Type 0
IsReferredOnce [] = Unit
IsReferredOnce (r ∷ rs) = (any (is_referred r.referred) rs ≡ false) × IsReferredOnce rs

any-append :
    (test : Referral → Bool) (rs : List Referral) (r : Referral)
    → any test rs ≡ false
    → test r ≡ false
    → any test (rs ++ r ∷ []) ≡ false
any-append test [] r h k = ground arith
any-append test (q ∷ rs) r h k = ground (arith, any-append test rs r)

text_eq_swap : (a b : Text) → text_eq a b ≡ false → text_eq b a ≡ false
text_eq_swap a b h = elim (Bool-cases (text_eq b a)) [
  | inl e ↦
      let same = text_eq_sound b a e in
      absurd (let bad : text_eq a b ≡ true = rw same (text_eq_refl a) in cc)
  | inr e ↦ e
]

append-IsReferredOnce :
    (rs : List Referral) (r : Referral)
    → any (is_referred r.referred) rs ≡ false
    → IsReferredOnce rs
    → IsReferredOnce (rs ++ r ∷ [])
append-IsReferredOnce [] r h once = (refl, tt)
append-IsReferredOnce (q ∷ rs) r h (fresh, once) =
    let other : text_eq q.referred r.referred ≡ false = ground arith in
    let rest : any (is_referred r.referred) rs ≡ false = ground arith in
    (
      any-append (is_referred q.referred) rs r fresh (text_eq_swap q.referred r.referred other),
      append-IsReferredOnce rs r rest once,
    )

-- A new referral is not of the user by themself, leaves every user referred at most once, and its
-- referrer with at most five referrals of the last thirty days.
pub create_referral_lem :
    (s : Store) (now : ℕ) (rand referred referrer : Text) (t : Store)
    → create_referral s now rand referred referrer ≡ ok t
    → IsReferredOnce s.referrals
    → (text_eq referred referrer ≡ false)
      × IsReferredOnce t.referrals
      × (recent_referrals t now referrer ≤ 5)
create_referral_lem s now rand referred referrer t h once =
    let (self, few, fresh, wrote) = create_referral-ok s now rand referred referrer t h in
    let new : Referral = record {
      id = s.next_id;
      referred = referred;
      referrer = referrer;
      created_at = now;
    } in
    let more = length-filter-append (is_recent now referrer) s.referrals new in
    let under : recent_referrals s now referrer ≤ 4 = ground arith in
    (
      self,
      rw wrote (append-IsReferredOnce s.referrals new fresh once),
      rw wrote (omega (arith, more, under)),
    )
