-- ===== src/Base/Tables.antt =====
-- Tables of rows as lists in the order of insertion: selection, update in place and uniqueness.
use mathlib.Core.Path.{◌≡◌, refl}
use mathlib.Core.Bool.{Bool, true, false, not, ◌&&◌, ◌||◌}
use mathlib.Core.Option.{Option, none, some}
use mathlib.Core.List.{List, [], ◌∷◌, ◌++◌}
use native.Mathlib.Omega.{arith}
use supply_chain_integration.Base.Tests.{if◌then◌else◌, is_none}
use supply_chain_integration.Base.Lists.{All}

module _ {ℓ} {A : Type ℓ} where
  -- `session.scalar(select(T).where(p))`: the first row that satisfies the condition.
  unfoldable pub find : (A → Bool) → List A → Option A
  find p [] = none
  find p (x ∷ xs) = if p x then some x else find p xs

  -- `session.scalars(select(T).where(p)).all()`
  unfoldable pub select : (A → Bool) → List A → List A
  select p [] = []
  select p (x ∷ xs) = let rest = select p xs in if p x then x ∷ rest else rest

  -- Assignments to the attributes of the object that `find` loaded: its row changes.
  unfoldable pub update : (A → Bool) → (A → A) → List A → List A
  update p f [] = []
  update p f (x ∷ xs) = let rest = update p f xs in if p x then f x ∷ xs else x ∷ rest

  unfoldable pub any : (A → Bool) → List A → Bool
  any p [] = false
  any p (x ∷ xs) = p x || any p xs

  unfoldable pub every : (A → Bool) → List A → Bool
  every p [] = true
  every p (x ∷ xs) = p x && every p xs

  -- A unique constraint: no two rows agree by `same`.
  unfoldable pub unique : (A → A → Bool) → List A → Bool
  unfolding any
  unique same [] = true
  unique same (x ∷ xs) = not (any (same x) xs) && unique same xs

module _ {ℓ} {A : Type ℓ} where
  pub any-append : (p : A → Bool) (xs ys : List A) → any p (xs ++ ys) ≡ (any p xs || any p ys)
  unfolding any
  any-append p [] ys = refl
  any-append p (x ∷ xs) ys = ground (arith, any-append p xs ys)

  pub every-append :
      (p : A → Bool) (xs ys : List A) → every p (xs ++ ys) ≡ (every p xs && every p ys)
  unfolding every
  every-append p [] ys = refl
  every-append p (x ∷ xs) ys = ground (arith, every-append p xs ys)

  -- Adding a row keeps a unique constraint when no row that is there agrees with it.
  pub unique-append :
      (same : A → A → Bool) (a : A) (xs : List A)
      → unique same (xs ++ a ∷ []) ≡ (unique same xs && not (any (λ x. same x a) xs))
  unfolding unique any
  unique-append same a [] = refl
  unique-append same a (x ∷ xs) =
      ground (arith, unique-append same a xs, any-append (same x) xs (a ∷ []))

  pub find-append :
      (p : A → Bool) (xs ys : List A)
      → find p (xs ++ ys) ≡ (if is_none (find p xs) then find p ys else find p xs)
  unfolding find
  find-append p [] ys = refl
  find-append p (x ∷ xs) ys = ground (arith, find-append p xs ys)

  pub find-eq-some : (p : A → Bool) (xs : List A) (a : A) → find p xs ≡ some a → p a ≡ true
  unfolding find
  find-eq-some p [] a h = ground arith
  find-eq-some p (x ∷ xs) a h = ground (arith, find-eq-some p xs a)

  pub any-eq-find : (p : A → Bool) (xs : List A) → any p xs ≡ not (is_none (find p xs))
  unfolding any find
  any-eq-find p [] = refl
  any-eq-find p (x ∷ xs) = ground (arith, any-eq-find p xs)

  pub All-find {κ} :
      (P : A → Type κ) (p : A → Bool) (xs : List A) (a : A) → All P xs → find p xs ≡ some a → P a
  unfolding find
  All-find P p [] a h e = ground arith
  All-find P p (x ∷ xs) a h e = ground (arith, h.0, All-find P p xs a h.1)
