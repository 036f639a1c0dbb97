-- ===== src/Api/Routes.antt =====
-- What the routes of the two suppliers answer.
use supply_chain_integration.Base.{
  ◌≡◌, refl, sym, ap, subst, true, false, Bool-cases, ◌⊎◌, inl, inr, Option, String, take, length,
  zero, suc, ltb, ℕ, ◌<◌, ◌∙◌, [], ◌∷◌, arith,
}
use supply_chain_integration.Settings.{Settings, InRange}
use supply_chain_integration.Objects.{S3Client}
use supply_chain_integration.Store.Rows.{Time, Bytes}
use supply_chain_integration.Store.Rows.Imports.{ImportJob}
use supply_chain_integration.Imports.Queue.{submit_inventory_import}
use supply_chain_integration.Imports.Payload.{Externals}
use supply_chain_integration.Imports.Steps.Preservation.{IsValid}
use supply_chain_integration.Worker.Broker.{Broker}
use supply_chain_integration.Api.Errors.{Response, refused}
use supply_chain_integration.Api.Imports.{
  System, Upload, max_csv_bytes, supplier_a_request, supplier_b_request, after_submission,
  import_supplier_a_inventory, import_supplier_b_inventory, guarded,
}
use supply_chain_integration.Api.Answers.{submit_inventory_import-Submits}
use supply_chain_integration.Api.Publication.{Refuses, Accepts, Answers, after_submission-Answers}
use supply_chain_integration.Api.Guards.{guarded-Answers, guarded_end}

take_short : (n : ℕ) (xs : Bytes) → ltb n (length (take (suc n) xs)) ≡ false → take (suc n) xs ≡ xs
take_short n [] h = refl
take_short zero (x ∷ []) h = ground arith
take_short zero (x ∷ y ∷ xs) h = ground arith
take_short (suc n) (x ∷ xs) h = ap (λ ys. x ∷ ys) (take_short n xs (ground arith))

take_long : (n : ℕ) (xs : Bytes) → n < length xs → ltb n (length (take (suc n) xs)) ≡ true
take_long n [] h = ground arith
take_long zero (x ∷ xs) h = ground arith
take_long (suc n) (x ∷ xs) h = ground (arith, take_long n xs (ground arith))

module _ {ℓ} {O Q : Type ℓ} (settings : Settings) (ext : Externals) (client : S3Client O)
    (isoformat : Time → String) (broker : Broker Q) (expected : String)
    (token idempotency_key : Option String) (correlation_id : Option String) (now at : Time)
    (system : System O Q) where
  -- In a valid database, with settings in their ranges, the route of supplier A refuses a request
  -- with a status of its errors, and then the database and the broker are as they were, or answers
  -- 202 with a job of this content and key that the database has under its id, and leaves a valid
  -- database; it accepts only the partner token and a well-formed key.
  pub import_supplier_a_inventory-Answers :
      (content : Bytes)
      → InRange settings
      → IsValid system.database
      → Answers system expected token idempotency_key
          (λ key. supplier_a_request ext content key correlation_id)
          (guarded expected token idempotency_key
            (λ key.
              import_supplier_a_inventory settings ext client isoformat broker content key
                correlation_id now at)
            system)
  unfolding import_supplier_a_inventory
  import_supplier_a_inventory-Answers content range v =
      guarded-Answers expected token (λ key. supplier_a_request ext content key correlation_id)
        (λ key.
          import_supplier_a_inventory settings ext client isoformat broker content key
            correlation_id now at)
        system idempotency_key
        (λ key.
          let request = supplier_a_request ext content key correlation_id in
          after_submission-Answers broker at request
            (submit_inventory_import settings client isoformat request now system.database
              system.objects).0
            (submit_inventory_import settings client isoformat request now system.database
              system.objects).1
            system
            (submit_inventory_import-Submits settings client isoformat range request now
              system.database system.objects v))

  accepted_file :
      (file : Upload) (key : String)
      → ltb max_csv_bytes (length (take (suc max_csv_bytes) file.content)) ≡ false
      → import_supplier_b_inventory settings ext client isoformat broker file key correlation_id now
          at system
        ≡ after_submission broker
            (submit_inventory_import settings client isoformat
              (supplier_b_request ext
                (take (suc max_csv_bytes) file.content)
                file
                key
                correlation_id)
              now
              system.database
              system.objects)
            at
            system
  unfolding import_supplier_b_inventory
  accepted_file file key small = rw small refl

  refused_file :
      (file : Upload) (key : String)
      → ltb max_csv_bytes (length (take (suc max_csv_bytes) file.content)) ≡ true
      → import_supplier_b_inventory settings ext client isoformat broker file key correlation_id now
          at system
        ≡ (refused 422, system)
  unfolding import_supplier_b_inventory
  refused_file file key large = rw large refl

  abbrev route_b : Upload → String → System O Q → Response ImportJob × System O Q
  route_b file key =
      import_supplier_b_inventory settings ext client isoformat broker file key correlation_id now
        at

  route_b-Answers :
      (file : Upload) (key : String)
      → InRange settings
      → IsValid system.database
      → Refuses system (route_b file key system)
        ⊎ Accepts system
            (supplier_b_request ext file.content file key correlation_id)
            (route_b file key system)
  route_b-Answers file key range v =
      elim (Bool-cases (ltb max_csv_bytes (length (take (suc max_csv_bytes) file.content)))) [
        | inl large ↦ inl (
            subst (Refuses system) (sym (refused_file file key large))
              (422, refl, refl, refl, refl))
        | inr small ↦
            let request = supplier_b_request ext file.content file key correlation_id in
            let submitted =
              submit_inventory_import settings client isoformat request now system.database
                system.objects in
            subst (λ end. Refuses system end ⊎ Accepts system request end)
              (sym (
                accepted_file file key small
                ∙ ap
                    (λ content.
                      after_submission broker
                        (submit_inventory_import settings client isoformat
                          (supplier_b_request ext content file key correlation_id) now
                          system.database system.objects)
                        at system)
                    (take_short max_csv_bytes file.content small)))
              (after_submission-Answers broker at request submitted.0 submitted.1 system (
                submit_inventory_import-Submits settings client isoformat range request now
                  system.database system.objects v))
      ]

  -- In a valid database, with settings in their ranges, the route of supplier B refuses a request
  -- with a status of its errors, and then the database and the broker are as they were, or answers
  -- 202 with a job of the whole file and of this key that the database has under its id, and leaves
  -- a valid database; it accepts only the partner token and a well-formed key, and no file of more
  -- than 10 MiB.
  pub import_supplier_b_inventory-Answers :
      (file : Upload)
      → InRange settings
      → IsValid system.database
      → Answers system expected token idempotency_key
          (λ key. supplier_b_request ext file.content file key correlation_id)
          (guarded expected token idempotency_key (route_b file) system)
        × (max_csv_bytes < length file.content
            → Refuses system (guarded expected token idempotency_key (route_b file) system))
  import_supplier_b_inventory-Answers file range v = (
    guarded-Answers expected token
        (λ key. supplier_b_request ext file.content file key correlation_id) (route_b file) system
        idempotency_key (λ key. route_b-Answers file key range v),
    λ large.
        guarded_end expected token
          (λ key. supplier_b_request ext file.content file key correlation_id) (route_b file) system
          (λ key. Refuses system) idempotency_key (λ key status h. (status, refl, h, refl, refl))
          (λ key right good.
            subst (Refuses system)
              (sym (refused_file file key (take_long max_csv_bytes file.content large)))
              (422, refl, refl, refl, refl)),
  )
