-- ===== src/Analytics/Sorting.antt =====
-- Counting rows under `map` and under a sort.
use supply_chain_integration.Base.{
  ℕ, ◌≤◌, ◌≡◌, refl, sym, ◌∙◌, Bool, true, Bool-cases, inl, inr, List, [], ◌∷◌, map, length, leb,
  insert_by, sort_by, arith,
}
use supply_chain_integration.Analytics.Frames.{count, SameRows, AtLeast, Ascending}

module _ {ℓ} {A : Type ℓ} where
  pub length-count : (xs : List A) → length xs ≡ count (λ a. true) xs
  unfolding count
  length-count [] = refl
  length-count (x ∷ xs) = ground (arith, length-count xs)

  pub SameRows-length : (xs ys : List A) → SameRows xs ys → length xs ≡ length ys
  SameRows-length xs ys same = ground (arith, same (λ a. true), length-count xs, length-count ys)

  pub count-map {κ} :
      {B : Type κ} (f : A → B) (p : B → Bool) (xs : List A)
      → count p (map f xs) ≡ count (λ a. p (f a)) xs
  unfolding count
  count-map f p [] = refl
  count-map f p (x ∷ xs) = ground (arith, count-map f p xs)

  pub SameRows-map {κ} :
      {B : Type κ} (f : A → B) (xs ys : List A) → SameRows xs ys → SameRows (map f xs) (map f ys)
  SameRows-map f xs ys same p = count-map f p xs ∙ same (λ a. p (f a)) ∙ sym (count-map f p ys)

  module _ (key : A → ℕ) where
    count-insert_by :
        (p : A → Bool) (a : A) (xs : List A) → count p (insert_by key a xs) ≡ count p (a ∷ xs)
    unfolding count insert_by
    count-insert_by p a [] = refl
    count-insert_by p a (x ∷ xs) = ground (arith, count-insert_by p a xs)

    pub SameRows-sort_by : (xs : List A) → SameRows (sort_by key xs) xs
    unfolding sort_by count
    SameRows-sort_by [] p = refl
    SameRows-sort_by (x ∷ xs) p =
        ground (arith, count-insert_by p x (sort_by key xs), SameRows-sort_by xs p)

    AtLeast-weaken : (m n : ℕ) (xs : List A) → m ≤ n → AtLeast key n xs → AtLeast key m xs
    AtLeast-weaken m n [] h least = tt
    AtLeast-weaken m n (x ∷ xs) h least = (omega (arith, least.0), AtLeast-weaken m n xs h least.1)

    AtLeast-insert_by :
        (n : ℕ) (a : A) (xs : List A)
        → n ≤ key a
        → AtLeast key n xs
        → AtLeast key n (insert_by key a xs)
    unfolding insert_by
    AtLeast-insert_by n a [] h least = (h, tt)
    AtLeast-insert_by n a (x ∷ xs) h least =
        ground (arith, least.0, AtLeast-insert_by n a xs h least.1)

    Ascending-insert_by :
        (a : A) (xs : List A) → Ascending key xs → Ascending key (insert_by key a xs)
    unfolding insert_by
    Ascending-insert_by a [] h = (tt, tt)
    Ascending-insert_by a (x ∷ xs) h = elim (Bool-cases (leb (key a) (key x))) [
      | inl e ↦
          rw e ((ground arith, AtLeast-weaken (key a) (key x) xs (ground arith) h.0), (h.0, h.1))
      | inr e ↦
          rw e (AtLeast-insert_by (key x) a xs (ground arith) h.0, Ascending-insert_by a xs h.1)
    ]

    pub Ascending-sort_by : (xs : List A) → Ascending key (sort_by key xs)
    unfolding sort_by
    Ascending-sort_by [] = tt
    Ascending-sort_by (x ∷ xs) = Ascending-insert_by x (sort_by key xs) (Ascending-sort_by xs)
