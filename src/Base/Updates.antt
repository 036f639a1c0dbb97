-- ===== src/Base/Updates.antt =====
-- Rows updated in place: what the searches find, and which tests stay as they are.
use mathlib.Core.Path.{◌≡◌, refl}
use mathlib.Core.Bool.{Bool, true, false}
use mathlib.Core.Option.{some}
use mathlib.Core.List.{List, [], ◌∷◌}
use mathlib.Core.Logic.{◌⊎◌, inl, inr}
use native.Mathlib.Omega.{arith}
use supply_chain_integration.Base.Tests.{is_none, Bool-cases}
use supply_chain_integration.Base.Lists.{All, length}
use supply_chain_integration.Base.Tables.{find, update, any, every, unique}

module _ {ℓ} {A : Type ℓ} where
  any_same : (p q : A → Bool) → ((x : A) → p x ≡ q x) → (xs : List A) → any p xs ≡ any q xs
  unfolding any
  any_same p q h [] = refl
  any_same p q h (x ∷ xs) = ground (arith, h x, any_same p q h xs)

module _ {ℓ} {A : Type ℓ} (p : A → Bool) (f : A → A) where
  pub length-update : (xs : List A) → length (update p f xs) ≡ length xs
  unfolding update
  length-update [] = refl
  length-update (x ∷ xs) = ground (arith, length-update xs)

  -- The search that loaded the row finds it changed.
  pub find-update_self :
      ((x : A) → p (f x) ≡ p x)
      → (xs : List A) (a : A) → find p xs ≡ some a
      → find p (update p f xs) ≡ some (f a)
  unfolding find update
  find-update_self keep [] a h = ground arith
  find-update_self keep (x ∷ xs) a h = ground (arith, keep x, find-update_self keep xs a)

  -- A search for rows that the update does not touch finds what it found.
  pub find-update_other :
      (q : A → Bool)
      → ((x : A) → q (f x) ≡ q x)
      → ((x : A) → p x ≡ true → q x ≡ false)
      → (xs : List A) → find q (update p f xs) ≡ find q xs
  unfolding find update
  find-update_other q keep apart [] = refl
  find-update_other q keep apart (x ∷ xs) =
      ground (arith, keep x, apart x, find-update_other q keep apart xs)

  pub any-update :
      (q : A → Bool) → ((x : A) → q (f x) ≡ q x) → (xs : List A) → any q (update p f xs) ≡ any q xs
  unfolding any update
  any-update q keep [] = refl
  any-update q keep (x ∷ xs) = ground (arith, keep x, any-update q keep xs)

  pub every-update :
      (q : A → Bool)
      → ((x : A) → q x ≡ true → q (f x) ≡ true)
      → (xs : List A) → every q xs ≡ true
      → every q (update p f xs) ≡ true
  unfolding every update
  every-update q keep [] h = refl
  every-update q keep (x ∷ xs) h = ground (arith, keep x, every-update q keep xs)

  -- An update that leaves the columns of a unique constraint alone keeps it.
  pub unique-update :
      (same : A → A → Bool)
      → ((x y : A) → same (f x) y ≡ same x y)
      → ((x y : A) → same x (f y) ≡ same x y)
      → (xs : List A) → unique same (update p f xs) ≡ unique same xs
  unfolding unique update
  unique-update same left right [] = refl
  unique-update same left right (x ∷ xs) = elim (Bool-cases (p x)) [
    | inl e ↦ rw e (rw (any_same (same (f x)) (same x) (left x) xs))
    | inr e ↦ rw e (rw (any-update (same x) (λ y. right x y) xs, unique-update same left right xs))
  ]

  pub All-update {κ} :
      (P : A → Type κ) (xs : List A)
      → ((a : A) → find p xs ≡ some a → P a → P (f a))
      → All P xs
      → All P (update p f xs)
  unfolding find update
  All-update P [] step h = tt
  All-update P (x ∷ xs) step h = elim (Bool-cases (p x)) [
    | inl e ↦ rw e (step x (rw e) h.0, h.1)
    | inr e ↦ rw e (h.0, All-update P xs (λ a found. step a (rw e found)) h.1)
  ]

  -- What holds at a row that is found before and after, whichever search finds it.
  pub find-update_cases :
      (q : A → Bool) (xs : List A) (b : A)
      → ((x : A) → q (f x) ≡ q x)
      → find q (update p f xs) ≡ some b
      → (find q xs ≡ some b) ⊎ ((a : A) × (find p xs ≡ some a) × (find q xs ≡ some a) × (b ≡ f a))
  unfolding find update
  find-update_cases q [] b keep h = ground arith
  find-update_cases q (x ∷ xs) b keep h = elim (Bool-cases (p x)) [
    | inl e ↦ elim (Bool-cases (q x)) [
      | inl e' ↦ inr (x, rw e, rw e', ground (arith, keep x))
      | inr e' ↦ inl (ground (arith, keep x))
    ]
    | inr e ↦ elim (Bool-cases (q x)) [
      | inl e' ↦ inl (ground arith)
      | inr e' ↦ rw (e, e') (find-update_cases q xs b keep (ground arith))
    ]
  ]

module _ {ℓ} {A : Type ℓ} where
  pub find-update_some :
      (p q : A → Bool) (f : A → A)
      → ((x : A) → q (f x) ≡ q x)
      → (xs : List A) → is_none (find q xs) ≡ false
      → is_none (find q (update p f xs)) ≡ false
  unfolding find update
  find-update_some p q f keep [] h = ground arith
  find-update_some p q f keep (x ∷ xs) h = ground (arith, keep x, find-update_some p q f keep xs)
