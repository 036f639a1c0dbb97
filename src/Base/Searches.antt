-- ===== src/Base/Searches.antt =====
-- Searches and tests that follow from one another.
use mathlib.Core.Path.{◌≡◌, refl}
use mathlib.Core.Bool.{Bool, true, false}
use mathlib.Core.Option.{some}
use mathlib.Core.List.{List, [], ◌∷◌, ◌++◌}
use mathlib.Core.Logic.{inl, inr}
use native.Mathlib.Omega.{arith}
use supply_chain_integration.Base.Tests.{is_none, Bool-cases}
use supply_chain_integration.Base.Lists.{All}
use supply_chain_integration.Base.Tables.{find, select, any, every, unique, any-append}

module _ {ℓ} {A : Type ℓ} where
  pub any_weaken :
      (p q : A → Bool)
      → ((x : A) → p x ≡ true → q x ≡ true)
      → (xs : List A) → any q xs ≡ false
      → any p xs ≡ false
  unfolding any
  any_weaken p q h [] none_q = refl
  any_weaken p q h (x ∷ xs) none_q = ground (arith, h x, any_weaken p q h xs)

  pub find-append_some :
      (p : A → Bool) (xs ys : List A)
      → is_none (find p xs) ≡ false
      → is_none (find p (xs ++ ys)) ≡ false
  unfolding find
  find-append_some p [] ys h = ground arith
  find-append_some p (x ∷ xs) ys h = ground (arith, find-append_some p xs ys)

  pub find-append_last :
      (p : A → Bool) (xs : List A) (a : A) → p a ≡ true → is_none (find p (xs ++ a ∷ [])) ≡ false
  unfolding find
  find-append_last p [] a h = ground arith
  find-append_last p (x ∷ xs) a h = ground (arith, find-append_last p xs a h)

  pub every_weaken :
      (p q : A → Bool)
      → ((x : A) → p x ≡ true → q x ≡ true)
      → (xs : List A) → every p xs ≡ true
      → every q xs ≡ true
  unfolding every
  every_weaken p q h [] all_p = refl
  every_weaken p q h (x ∷ xs) all_p = ground (arith, h x, every_weaken p q h xs)

  pub every-find :
      (p q : A → Bool) (xs : List A) (a : A) → every p xs ≡ true → find q xs ≡ some a → p a ≡ true
  unfolding every find
  every-find p q [] a h found = ground arith
  every-find p q (x ∷ xs) a h found = ground (arith, every-find p q xs a)

  pub every-any :
      (p q : A → Bool)
      → ((x : A) → p x ≡ true → q x ≡ false)
      → (xs : List A) → every p xs ≡ true
      → any q xs ≡ false
  unfolding every any
  every-any p q h [] all_p = refl
  every-any p q h (x ∷ xs) all_p = ground (arith, h x, every-any p q h xs)

pub All-select {ℓ κ} :
    {A : Type ℓ} (P : A → Type κ) (p : A → Bool) (xs : List A)
    → All P xs
    → All (λ j. P j × (p j ≡ true)) (select p xs)
unfolding select
All-select P p [] h = tt
All-select P p (x ∷ xs) h = elim (Bool-cases (p x)) [
  | inl e ↦ rw e ((h.0, e), All-select P p xs h.1)
  | inr e ↦ rw e (All-select P p xs h.1)
]

-- Every selected row passes the test.
pub All-select_test {ℓ} :
    {A : Type ℓ} (p : A → Bool) (xs : List A) → All (λ x. p x ≡ true) (select p xs)
unfolding select
All-select_test p [] = tt
All-select_test p (x ∷ xs) = ground (arith, All-select_test p xs)

module _ {ℓ} {A : Type ℓ} (same : A → A → Bool) where
  -- Two tables without a row in common by `same`, each without a duplicate.
  pub unique-together :
      (p : A → Bool) (xs ys : List A)
      → ((x : A) → p x ≡ true → any (same x) ys ≡ false)
      → every p xs ≡ true
      → unique same xs ≡ true
      → unique same ys ≡ true
      → unique same (xs ++ ys) ≡ true
  unfolding unique every
  unique-together p [] ys apart all ux uy = uy
  unique-together p (x ∷ xs) ys apart all ux uy = ground (
    arith,
    apart x,
    any-append (same x) xs ys,
    unique-together p xs ys apart (ground arith) (ground arith) uy,
  )
