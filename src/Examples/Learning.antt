-- ===== src/Examples/Learning.antt =====
-- The stream of a job's events at the small database.
use supply_chain_integration.Base.{◌≡◌, refl, true, false, List, [], ◌∷◌, ◌++◌, map, find}
use supply_chain_integration.Domain.Errors.{ok}
use supply_chain_integration.Store.Rows.Imports.{OperationEvent}
use supply_chain_integration.Imports.Jobs.{find_job}
use supply_chain_integration.Learning.Stream.{Chunk, operation, Round, sleeps, stream_import_events}
use supply_chain_integration.Learning.Delivery.{Delivers, stream_import_events-Delivers}
use supply_chain_integration.Examples.Steps.{claimed_db}
use supply_chain_integration.Examples.{queued_db, queued}

-- The job is claimed between two reads of the database.
abbrev rounds : List Round
rounds =
    record { disconnected = false; events_db = queued_db; job_db = claimed_db }
    ∷ record { disconnected = false; events_db = claimed_db; job_db = claimed_db }
    ∷ record { disconnected = true; events_db = claimed_db; job_db = claimed_db }
    ∷ []

stream_import_events-Delivers_example :
    (es : List OperationEvent) × (last : List Chunk) × (stream_import_events true 1 queued_db rounds
      ≡ ok (map operation es ++ last))
    × Delivers sleeps true 1 [] rounds es last
unfolding find_job find
stream_import_events-Delivers_example =
    stream_import_events-Delivers true 1 queued queued_db rounds refl
