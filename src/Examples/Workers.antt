-- ===== src/Examples/Workers.antt =====
-- The tasks of the workers at the small database.
use supply_chain_integration.Base.{
  ℕ, ◌+◌, ◌≤◌, ◌≡◌, refl, true, String, none, List, [], ◌∷◌, find, length, map, arith,
}
use supply_chain_integration.Domain.Errors.{Exn, ok}
use supply_chain_integration.Settings.{default_settings}
use supply_chain_integration.Objects.{S3Client, botocore_error}
use supply_chain_integration.Store.Rows.{Uuid}
use supply_chain_integration.Imports.Jobs.{find_job}
use supply_chain_integration.Imports.Soundness.Sweep.{requeued_ids}
use supply_chain_integration.Imports.Soundness.Stale.{stale_jobs}
use supply_chain_integration.Store.Db.{Db}
use supply_chain_integration.Imports.Queue.{jobs_due_for_dispatch}
use supply_chain_integration.Imports.Recovery.{recover_stale_imports}
use supply_chain_integration.Worker.Broker.{Broker, accepted}
use supply_chain_integration.Worker.Tasks.{
  Run, deliver, dispatch_queued_imports_task, recover_stale_imports_task,
}
use supply_chain_integration.Worker.Retries.{Ends, deliver-Ends}
use supply_chain_integration.Worker.Publication.{
  Sweeps, dispatch_queued_imports_task-Sweeps, recover_stale_imports_task-Sweeps,
}
use supply_chain_integration.Examples.Steps.{
  claimed_db, claimed_db-IsConsistent, claimed_db-IsSound,
}
use supply_chain_integration.Examples.{
  Objects, client, ext, queued_db, queued, queued_db-IsConsistent, queued_db-IsSound,
}

-- An object store that cannot be reached.
abbrev down : S3Client Objects
down = record client { get_object = λ key o. botocore_error }

abbrev describe : Exn → String
describe error = "failed"

abbrev run_at : ℕ → Run Objects
run_at now = record {
  now = now;
  done = now + 1;
  failed_at = now + 2;
  objects = [];
  reachable = true;
  reachable_again = true;
}

abbrev runs : List (Run Objects)
runs = run_at 200 ∷ run_at 10000000 ∷ run_at 20000000 ∷ run_at 30000000 ∷ run_at 40000000 ∷ []

deliver-Ends_example :
    Ends default_settings ext down describe "worker" none 1
      (deliver default_settings ext down describe "worker" none 1 runs queued_db)
unfolding find_job find
deliver-Ends_example =
    deliver-Ends default_settings ext down describe "worker" none 1 runs queued_db queued
      queued_db-IsConsistent queued_db-IsSound refl (refl, (refl, (refl, (refl, (refl, tt)))))
      (omega arith)

abbrev broker : Broker (List Uuid)
broker = record { apply_async = λ id countdown queue. (accepted "task", id ∷ queue) }

dispatch_queued_imports_task-Sweeps_example :
    Sweeps broker
      (λ id. 160)
      (map (λ j. j.id) (jobs_due_for_dispatch default_settings 150 100 queued_db))
      []
      queued_db
      (dispatch_queued_imports_task broker (λ id. 160) default_settings 150 [] queued_db)
    × (length (map (λ j. j.id) (jobs_due_for_dispatch default_settings 150 100 queued_db)) ≤ 100)
dispatch_queued_imports_task-Sweeps_example =
    dispatch_queued_imports_task-Sweeps broker (λ id. 160) 150 default_settings [] queued_db
      queued_db-IsConsistent queued_db-IsSound

recover_stale_imports_task-Sweeps_example :
    (mid : Db) × (recover_stale_imports 400000000 claimed_db
      ≡ ok (requeued_ids (stale_jobs 400000000 claimed_db), mid))
    × Sweeps broker
        (λ id. 400000001)
        (requeued_ids (stale_jobs 400000000 claimed_db))
        []
        mid
        (recover_stale_imports_task broker (λ id. 400000001) 400000000 [] claimed_db)
recover_stale_imports_task-Sweeps_example =
    recover_stale_imports_task-Sweeps broker (λ id. 400000001) 400000000 [] claimed_db
      claimed_db-IsConsistent claimed_db-IsSound
