-- ===== src/Api/Errors.antt =====
-- The exception handlers of main.py.
use supply_chain_integration.Base.{ℕ}
use supply_chain_integration.Domain.Errors.{
  Exn, Result, ok, err, domain_validation, resource_not_found, resource_conflict,
  resource_unavailable,
}

pub data Response {ℓ} (A : Type ℓ) : Type ℓ where
  answered : ℕ → A → Response A
  refused : ℕ → Response A

-- An exception that no handler takes is an internal error.
abbrev pub status_of : Exn → ℕ
status_of resource_not_found = 404
status_of resource_conflict = 409
status_of domain_validation = 422
status_of resource_unavailable = 503
status_of e = 500

abbrev pub respond {ℓ} : {A : Type ℓ} → ℕ → Result A → Response A
respond status (ok a) = answered status a
respond status (err e) = refused (status_of e)
