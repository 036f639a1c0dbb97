-- ===== src/Api/Guards.antt =====
-- The guards before a route.
use supply_chain_integration.Base.{
  ◌≡◌, refl, sym, subst, true, false, Bool-cases, ◌⊎◌, inl, inr, Option, some, none, Option-cases,
  String, eq_iff, ℕ, arith,
}
use supply_chain_integration.Store.Rows.Imports.{ImportJob}
use supply_chain_integration.Imports.Queue.{Submission}
use supply_chain_integration.Api.Errors.{Response, refused}
use supply_chain_integration.Api.Headers.{is_idempotency_key, require_partner_token}
use supply_chain_integration.Api.Imports.{System, guarded}
use supply_chain_integration.Api.Publication.{Refuses, Accepts, Answers, is_refusal}

require_partner_token-refuses :
    (expected : String) (token : Option String) (status : ℕ)
    → require_partner_token expected token ≡ some status
    → is_refusal status ≡ true
unfolding require_partner_token
require_partner_token-refuses expected none status h = ground arith
require_partner_token-refuses expected (some token) status h = ground arith

require_partner_token-accepts :
    (expected : String) (token : Option String)
    → require_partner_token expected token ≡ none
    → token ≡ some expected
unfolding require_partner_token
require_partner_token-accepts expected none h = ground arith
require_partner_token-accepts expected (some token) h = ground (arith, eq_iff token expected)

module _ {ℓ} {O Q : Type ℓ} (expected : String) (token : Option String)
    (request : String → Submission) (route : String → System O Q → Response ImportJob × System O Q)
    (system : System O Q) where
  guarded-refused :
      (idempotency_key : Option String) (status : ℕ)
      → require_partner_token expected token ≡ some status
      → guarded expected token idempotency_key route system ≡ (refused status, system)
  unfolding guarded
  guarded-refused idempotency_key status h = ground arith

  guarded-unkeyed :
      require_partner_token expected token ≡ none
      → guarded expected token none route system ≡ (refused 422, system)
  unfolding guarded
  guarded-unkeyed h = ground arith

  guarded-malformed :
      (key : String)
      → require_partner_token expected token ≡ none
      → is_idempotency_key key ≡ false
      → guarded expected token (some key) route system ≡ (refused 422, system)
  unfolding guarded
  guarded-malformed key h k = ground arith

  guarded-passes :
      (key : String)
      → require_partner_token expected token ≡ none
      → is_idempotency_key key ≡ true
      → guarded expected token (some key) route system ≡ route key system
  unfolding guarded
  guarded-passes key h k = ground arith

  -- What holds of every refusal of the guards and of the route holds of the guarded route.
  pub guarded_end :
      (P : Option String → Response ImportJob × System O Q → Type ℓ)
      (idempotency_key : Option String)
      → ((key : Option String) (status : ℕ)
          → is_refusal status ≡ true
          → P key (refused status, system))
      → ((key : String)
          → token ≡ some expected
          → is_idempotency_key key ≡ true
          → P (some key) (route key system))
      → P idempotency_key (guarded expected token idempotency_key route system)
  guarded_end P idempotency_key declined agreed =
      elim (Option-cases (require_partner_token expected token)) [
        | inr (status, h) ↦
            subst (P idempotency_key) (sym (guarded-refused idempotency_key status h)) (
              declined idempotency_key status
                (require_partner_token-refuses expected token status h))
        | inl h ↦ with_token idempotency_key h
      ]
    where
      with_token :
          (idempotency_key : Option String)
          → require_partner_token expected token ≡ none
          → P idempotency_key (guarded expected token idempotency_key route system)
      with_token none h = subst (P none) (sym (guarded-unkeyed h)) (declined none 422 refl)
      with_token (some key) h = elim (Bool-cases (is_idempotency_key key)) [
        | inr bad ↦
            subst (P (some key)) (sym (guarded-malformed key h bad)) (declined (some key) 422 refl)
        | inl good ↦
            subst (P (some key)) (sym (guarded-passes key h good))
              (agreed key (require_partner_token-accepts expected token h) good)
      ]

  pub guarded-Answers :
      (idempotency_key : Option String)
      → ((key : String)
          → Refuses system (route key system) ⊎ Accepts system (request key) (route key system))
      → Answers system expected token idempotency_key request
          (guarded expected token idempotency_key route system)
  guarded-Answers idempotency_key answers =
      guarded_end (λ key. Answers system expected token key request) idempotency_key
        (λ key status h. inl (status, refl, h, refl, refl))
        (λ key right good. elim (answers key) [
          | inl declined ↦ inl declined
          | inr accepted ↦ inr (key, refl, right, good, accepted)
        ])
