-- ===== src/Domain/Errors.antt =====
-- domain/exceptions.py, and the exceptions of the database driver, the standard library and the
-- validation library that the services tell apart. A function that may raise returns a `Result`.
use supply_chain_integration.Base.{◌≡◌, refl, ◌⊎◌, inl, inr}

pub data Exn : Type 0 where
  domain_validation resource_not_found resource_conflict resource_unavailable : Exn
  transient_import permanent_import : Exn
  operational_error timeout_error connection_error integrity_error other_error : Exn

pub data Result {ℓ} (A : Type ℓ) : Type ℓ where
  ok : A → Result A
  err : Exn → Result A

-- The rest of a function runs on the value, an exception leaves the function.
module _ {ℓ} {A B : Type ℓ} where
  infixl 5 ◌>>=◌
  abbrev pub ◌>>=◌ : Result A → (A → Result B) → Result B
  result >>= rest = elim result [ err e ↦ err e | ok value ↦ rest value ]

  pub >>=_cong :
      (rest rest' : A → Result B)
      → ((value : A) → rest value ≡ rest' value)
      → (result : Result A) → (result >>= rest) ≡ (result >>= rest')
  >>=_cong rest rest' same (err e) = refl
  >>=_cong rest rest' same (ok value) = same value

  -- What returns normally has computed a value on the way.
  pub >>=-returns :
      (b : B) (rest : A → Result B) (result : Result A)
      → (result >>= rest) ≡ ok b
      → (value : A) × (result ≡ ok value) × (rest value ≡ ok b)
  >>=-returns b rest (err e) h = cc
  >>=-returns b rest (ok value) h = (value, refl, h)

pub >>=_assoc {ℓ} :
    {A B C : Type ℓ} (rest : A → Result B) (last : B → Result C) (result : Result A)
    → ((result >>= rest) >>= last) ≡ (result >>= λ value. rest value >>= last)
>>=_assoc rest last (err e) = refl
>>=_assoc rest last (ok value) = refl

-- To split on a result that was computed.
pub Result-cases {ℓ} :
    {A : Type ℓ} (r : Result A) → ((e : Exn) × (r ≡ err e)) ⊎ ((a : A) × (r ≡ ok a))
Result-cases (ok a) = inr (a, refl)
Result-cases (err e) = inl (e, refl)
