-- ===== src/Base/Pages.antt =====
-- What a sorted, limited selection of rows contains.
use mathlib.Core.Path.{◌≡◌, refl, ap}
use mathlib.Core.Bool.{Bool, true}
use mathlib.Core.List.{List, [], ◌∷◌}
use Prim.Native.Nat.{ℕ, zero, suc, ◌<◌}
use native.Mathlib.Omega.{arith}
use supply_chain_integration.Base.Lists.{All, All-mono, length, take, sort_by, insert_by}
use supply_chain_integration.Base.Tables.{any, select}

-- A page that is not full is the whole list.
pub take_whole {ℓ} : {A : Type ℓ} (n : ℕ) (xs : List A) → length (take n xs) < n → take n xs ≡ xs
take_whole zero xs h = absurd (omega arith)
take_whole (suc n) [] h = refl
take_whole (suc n) (x ∷ xs) h = ap (λ ys. x ∷ ys) (take_whole n xs (omega (arith, h)))

any-insert_by {ℓ} :
    {A : Type ℓ} (p : A → Bool) (key : A → ℕ) (a : A) (xs : List A)
    → any p (insert_by key a xs) ≡ any p (a ∷ xs)
unfolding any insert_by
any-insert_by p key a [] = refl
any-insert_by p key a (x ∷ xs) = ground (arith, any-insert_by p key a xs)

pub any-sort_by {ℓ} :
    {A : Type ℓ} (p : A → Bool) (key : A → ℕ) (xs : List A) → any p (sort_by key xs) ≡ any p xs
unfolding any sort_by
any-sort_by p key [] = refl
any-sort_by p key (x ∷ xs) =
    ground (arith, any-insert_by p key x (sort_by key xs), any-sort_by p key xs)

-- Every row that passes the test is selected.
pub All-selected {ℓ} :
    {A : Type ℓ} (same : A → A → Bool) (p : A → Bool) (xs : List A)
    → ((x : A) → same x x ≡ true)
    → All (λ x. p x ≡ true → any (same x) (select p xs) ≡ true) xs
unfolding any select
All-selected same p [] own = tt
All-selected same p (x ∷ xs) own = (
  λ h. ground (arith, own x),
  All-mono _ _ xs (λ y f h. ground (arith, f h)) (All-selected same p xs own),
)
