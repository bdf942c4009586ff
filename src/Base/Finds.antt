-- ===== src/Base/Finds.antt =====
-- What `find` gives of a list, beside the other searches.
use mathlib.Core.Path.{◌≡◌, refl, sym, ap, subst}
use mathlib.Core.Logic.{◌⊎◌, inl, inr}
use mathlib.Core.Bool.{Bool, true, false}
use mathlib.Core.Option.{Option, some, some-injective}
use mathlib.Core.List.{List, [], ◌∷◌}
use native.Mathlib.Omega.{arith}
use genesis_reserve_smarter.Base.Tests.{if◌then◌else◌}
use genesis_reserve_smarter.Base.Lists.{select, find, any}

-- The first that is found is the head, or it is found later.
first_found :
    {A : Type 0} (b : Bool) (x a : A) (later : Option A)
    → (if b then some x else later) ≡ some a
    → ((b ≡ true) × (x ≡ a)) ⊎ ((b ≡ false) × (later ≡ some a))
first_found true x a later h = inl (refl, some-injective x a h)
first_found false x a later h = inr (refl, h)

module _ {A : Type 0} (p : A → Bool) where
  pub find-holds : (xs : List A) (a : A) → find p xs ≡ some a → p a ≡ true
  find-holds [] a h = cc h
  find-holds (x ∷ xs) a h = elim (first_found (p x) x a (find p xs) h) [
    | inl (here, e) ↦ subst (λ y. p y ≡ true) e here
    | inr (there, later) ↦ find-holds xs a later
  ]

  pub select-find :
      (xs : List A) (a : A) → find p xs ≡ some a → (rest : List A) × (select p xs ≡ a ∷ rest)
  select-find [] a h = cc h
  select-find (x ∷ xs) a h = elim (first_found (p x) x a (find p xs) h) [
    | inl (here, e) ↦ (select p xs, rw here (ap (λ y. y ∷ select p xs) e))
    | inr (there, later) ↦ rw there (select-find xs a later)
  ]

  pub any-find :
      (q : A → Bool) (xs : List A) (a : A) → find p xs ≡ some a → q a ≡ true → any q xs ≡ true
  any-find q [] a h holds = cc h
  any-find q (x ∷ xs) a h holds = elim (first_found (p x) x a (find p xs) h) [
    | inl (here, e) ↦ rw (subst (λ y. q y ≡ true) (sym e) holds) refl
    | inr (there, later) ↦ ground (arith, any-find q xs a later holds)
  ]

-- What is found by one test and passes another is among those that pass it.
pub any-select_found :
    {A : Type 0} (q p : A → Bool) (xs : List A) (a : A)
    → find q xs ≡ some a
    → p a ≡ true
    → any q (select p xs) ≡ true
any-select_found q p [] a h passes = cc h
any-select_found q p (x ∷ xs) a h passes = elim (first_found (q x) x a (find q xs) h) [
  | inl (here, e) ↦ rw (subst (λ y. p y ≡ true) (sym e) passes, here) refl
  | inr (there, later) ↦ ground (arith, any-select_found q p xs a later passes)
]
