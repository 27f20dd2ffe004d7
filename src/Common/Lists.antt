-- ===== src/Common/Lists.antt =====
-- Searches and sums over lists, in the form that the source's array methods have.
use Prim.Native.Nat.{ℕ, suc, ◌+◌}
use mathlib.Core.Path.{◌≡◌, refl}
use mathlib.Core.Bool.{Bool, true, false, ◌||◌}
use native.Mathlib.Omega.{arith}
use mathlib.Core.Option.{Option, none, some}
use mathlib.Core.List.{List, [], ◌∷◌, ◌++◌}
use mathlib.Core.Logic.{inl, inr}
use limpeja_backend.Common.Tests.{if◌then◌else◌, Bool-cases}

module _ {ℓ} {A : Type ℓ} where
  abbrev pub length : List A → ℕ
  length [] = 0
  length (x ∷ xs) = suc (length xs)

  -- `xs.includes(a)`, and `set.has(a)`, by a given test of equality.
  abbrev pub includes : (A → A → Bool) → A → List A → Bool
  includes same a [] = false
  includes same a (x ∷ xs) = same a x || includes same a xs

  -- `xs.some(test)`
  abbrev pub any : (A → Bool) → List A → Bool
  any test [] = false
  any test (x ∷ xs) = test x || any test xs

  -- `xs.find(test)`, and Prisma's `findFirst` over rows in the order that the query asks for.
  abbrev pub find : (A → Bool) → List A → Option A
  find test [] = none
  find test (x ∷ xs) = if test x then some x else find test xs

  -- `xs.filter(test)`, and Prisma's `findMany`.
  abbrev pub filter : (A → Bool) → List A → List A
  filter test [] = []
  filter test (x ∷ xs) = let rest = filter test xs in if test x then x ∷ rest else rest

  -- The sum of a number taken from each element.
  abbrev pub sum_of : (A → ℕ) → List A → ℕ
  sum_of f [] = 0
  sum_of f (x ∷ xs) = f x + sum_of f xs

  abbrev pub is_some : Option A → Bool
  is_some none = false
  is_some (some a) = true

  -- Some element passes the test exactly if a search for one succeeds.
  pub any-find : (test : A → Bool) (xs : List A) → any test xs ≡ is_some (find test xs)
  any-find test [] = refl
  any-find test (x ∷ xs) = ground (arith, any-find test xs)

  -- A test that no element passes, nor a new last one.
  pub any-new :
      (test : A → Bool) (xs : List A) (a : A)
      → any test xs ≡ false
      → test a ≡ false
      → any test (xs ++ a ∷ []) ≡ false
  any-new test [] a h k = ground arith
  any-new test (x ∷ xs) a h k = ground (arith, any-new test xs a)

  -- A test that the last element passes.
  pub any-last :
      (test : A → Bool) (xs : List A) (a : A) → test a ≡ true → any test (xs ++ a ∷ []) ≡ true
  any-last test [] a h = ground arith
  any-last test (x ∷ xs) a h = ground (arith, any-last test xs a h)

  -- What passes no element passes none of some of them.
  pub any-filter :
      (test kept : A → Bool) (xs : List A) → any test xs ≡ false → any test (filter kept xs) ≡ false
  any-filter test kept [] h = refl
  any-filter test kept (x ∷ xs) h = ground (arith, any-filter test kept xs)

-- A predicate of every element, which computes to the tuple of its instances.
abbrev pub All {ℓ κ} : {A : Type ℓ} → (A → Type κ) → List A → Type κ
All P [] = Unit
All P (x ∷ xs) = P x × All P xs

-- What is found by a filter passes its test, besides what held before.
pub All-filter {ℓ κ} :
    {A : Type ℓ} (P : A → Type κ) (test : A → Bool) (xs : List A)
    → All P xs
    → All (λ x. P x × (test x ≡ true)) (filter test xs)
All-filter P test [] h = tt
All-filter P test (x ∷ xs) h = elim (Bool-cases (test x)) [
  | inl e ↦ rw e ((h.0, e), All-filter P test xs h.1)
  | inr e ↦ rw e (All-filter P test xs h.1)
]
