-- ===== src/Api/Replays.antt =====
-- What the route of a replay answers.
use supply_chain_integration.Base.{
  ◌≡◌, refl, ap, subst, Bool, true, ◌⊎◌, inl, inr, some, String, ◌==◌, find,
}
use supply_chain_integration.Domain.Enums.{is_failed}
use supply_chain_integration.Domain.Errors.{Result, ok, err}
use supply_chain_integration.Settings.{Settings, InRange}
use supply_chain_integration.Objects.{S3Client}
use supply_chain_integration.Store.Rows.{Uuid, Time, Bytes}
use supply_chain_integration.Store.Rows.Catalog.{Supplier}
use supply_chain_integration.Store.Rows.Imports.{ImportJob}
use supply_chain_integration.Store.Db.{Db}
use supply_chain_integration.Imports.Jobs.{find_job}
use supply_chain_integration.Imports.Payload.{Externals, load_import_payload}
use supply_chain_integration.Imports.Replay.{replay_request, replay_failed_import}
use supply_chain_integration.Imports.Replay.Laws.{replay-guards, resubmit-parts}
use supply_chain_integration.Imports.Steps.Preservation.{IsValid}
use supply_chain_integration.Worker.Broker.{Broker}
use supply_chain_integration.Api.Errors.{Response}
use supply_chain_integration.Api.Imports.{System, after_submission, replay_failed}
use supply_chain_integration.Api.Answers.{Submits, submit_inventory_import-Submits}
use supply_chain_integration.Api.Publication.{
  Refuses, Accepts, after_submission-Refuses, after_submission-Answers,
}

module _ {ℓ} {O Q : Type ℓ} (settings : Settings) (ext : Externals) (client : S3Client O)
    (isoformat : Time → String) (broker : Broker Q) (id : Uuid) (key : String) (now at : Time)
    (system : System O Q) where
  -- A replay is refused, or it is a submission of the payload of a failed import.
  abbrev pub Replays : Response ImportJob × System O Q → Type ℓ
  Replays end =
      Refuses system end
      ⊎ ((original : ImportJob) × (content : Bytes) × (supplier : Supplier) × (find_job id
              system.database
            ≡ some original)
          × (is_failed original.status ≡ true)
          × (load_import_payload ext client original system.objects ≡ ok content)
          × Accepts system (replay_request original supplier content key) end)

  abbrev replayed : Result ((ImportJob × Bool) × Db) × O
  replayed =
      replay_failed_import settings ext client isoformat id key now system.database system.objects

  replayed-Replays :
      InRange settings
      → IsValid system.database
      → (answer : Result ((ImportJob × Bool) × Db)) → replayed.0 ≡ answer
      → Replays (after_submission broker (answer, replayed.1) at system)
  replayed-Replays range v (err e) h = inl (after_submission-Refuses broker at e replayed.1 system)
  replayed-Replays range v (ok (answer, db')) h =
      let (original, found, failed, again) =
        replay-guards settings ext client isoformat id key now system.database db' system.objects
          replayed.1 answer (ap (λ r. (r, replayed.1)) h) in
      let (content, supplier, loaded, submitted) =
        resubmit-parts settings ext client isoformat original key
          (load_import_payload ext client original system.objects)
          (find (λ s. s.id == original.supplier_id) system.database.suppliers) now system.database
          db' system.objects replayed.1 answer again in
      let request = replay_request original supplier content key in
      elim (after_submission-Answers broker at request (ok (answer, db')) replayed.1 system (
        subst (λ end. Submits request end.0) submitted
          (submit_inventory_import-Submits settings client isoformat range request now
            system.database system.objects v))) [
              | inl declined ↦ inl declined
              | inr accepted ↦ inr (original, content, supplier, found, failed, loaded, accepted)
            ]

  -- In a valid database, with settings in their ranges, the route of a replay refuses the request
  -- with a status of its errors, and then the database and the broker are as they were, or the job
  -- under the id had failed, its payload could be loaded, and the route answers 202 with a job of
  -- the same content and of the new key that the database has under its id, and leaves a valid
  -- database.
  pub replay_failed-Replays :
      InRange settings
      → IsValid system.database
      → Replays (replay_failed settings ext client isoformat broker id key now at system)
  unfolding replay_failed
  replay_failed-Replays range v = replayed-Replays range v replayed.0 refl
