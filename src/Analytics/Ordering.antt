-- ===== src/Analytics/Ordering.antt =====
-- Rows in ascending order of distinct numbers are determined by which rows they are.
use supply_chain_integration.Base.{
  ℕ, ◌≤◌, ◌<◌, ◌≡◌, refl, sym, ap, Bool, true, false, Bool-cases, inl, inr, List, [], ◌∷◌, ◌==◌,
  arith,
}
use supply_chain_integration.Analytics.Frames.{count, SameRows, AtLeast, Ascending}

module _ {ℓ} {P : Type ℓ} where
  abbrev truth : Dec P → Bool
  truth (yes p) = true
  truth (no p) = false

  truth-yes : (d : Dec P) → P → truth d ≡ true
  truth-yes (yes p) h = refl
  truth-yes (no p) h = absurd (p h)

  truth-holds : (d : Dec P) → truth d ≡ true → P
  truth-holds (yes p) h = p
  truth-holds (no p) h = absurd (cc h)

module _ {ℓ} {A : Type ℓ} (key : A → ℕ) (discrete : Discrete A) where
  abbrev is : A → A → Bool
  is x a = truth (discrete a x)

  abbrev has_number : ℕ → A → Bool
  has_number n a = key a == n

  -- No number stands for two rows.
  abbrev pub Distinct : List A → Type 0
  Distinct xs = (n : ℕ) → count (has_number n) xs ≤ 1

  is_self : (x : A) → is x x ≡ true
  is_self x = truth-yes (discrete x x) refl

  is_eq : (x a : A) → is x a ≡ true → a ≡ x
  is_eq x a h = truth-holds (discrete a x) h

  count-least : (n k : ℕ) (xs : List A) → AtLeast key n xs → 0 < count (has_number k) xs → n ≤ k
  unfolding count
  count-least n k [] least some = elim some [ ]
  count-least n k (x ∷ xs) least some = ground (arith, least.0, count-least n k xs least.1)

  count-weaken :
      (p q : A → Bool)
      → ((a : A) → p a ≡ true → q a ≡ true)
      → (xs : List A) → count p xs ≤ count q xs
  unfolding count
  count-weaken p q h [] = omega arith
  count-weaken p q h (x ∷ xs) = ground (arith, h x, count-weaken p q h xs)

  -- The first row of the one is not after the first of the other.
  first-le :
      (x y : A) (xs ys : List A)
      → AtLeast key (key y) ys
      → SameRows (x ∷ xs) (y ∷ ys)
      → key y ≤ key x
  unfolding count
  first-le x y xs ys least same =
      ground (arith, same (has_number (key x)), count-least (key y) (key x) ys least)

  first-eq :
      (x y : A) (xs ys : List A)
      → Distinct (y ∷ ys)
      → key x ≡ key y
      → SameRows (x ∷ xs) (y ∷ ys)
      → x ≡ y
  unfolding count
  first-eq x y xs ys distinct numbers same = elim (Bool-cases (is x y)) [
    | inl e ↦ sym (is_eq x y e)
    | inr e ↦ absurd (
        ground (
          arith,
          numbers,
          is_self x,
          same (is x),
          distinct (key x),
          count-weaken (is x) (has_number (key x)) (λ a h. ground (arith, is_eq x a h)) ys,
        ))
  ]

  pub Ascending-unique :
      (xs ys : List A)
      → Ascending key xs
      → Ascending key ys
      → Distinct xs
      → Distinct ys
      → SameRows xs ys
      → xs ≡ ys
  unfolding count
  Ascending-unique [] [] ax ay dx dy same = refl
  Ascending-unique [] (y ∷ ys) ax ay dx dy same = absurd (ground (arith, same (λ a. true)))
  Ascending-unique (x ∷ xs) [] ax ay dx dy same = absurd (ground (arith, same (λ a. true)))
  Ascending-unique (x ∷ xs) (y ∷ ys) ax ay dx dy same =
      let low = first-le x y xs ys ay.0 same in
      let high = first-le y x ys xs ax.0 (λ p. sym (same p)) in
      let e = first-eq x y xs ys dy (omega arith) same in
      let rest =
        Ascending-unique xs ys ax.1 ay.1 (λ n. ground (arith, dx n)) (λ n. ground (arith, dy n))
          (λ p. ground (arith, same p, ap p e)) in
      rw (e, rest) refl
