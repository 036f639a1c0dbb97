-- ===== src/Examples/Imports.antt =====
-- The theorems on import jobs, at a job that was just queued.
use supply_chain_integration.Base.{
  String, some, none, [], ◌∷◌, ◌≡◌, refl, true, false, find, str_eq, if◌then◌else◌, length, update,
  unique, any, every,
}
use supply_chain_integration.Domain.Enums.{is_queued}
use supply_chain_integration.Domain.Errors.{Exn, ok, err, resource_conflict, permanent_import}
use supply_chain_integration.Settings.{default_settings}
use supply_chain_integration.Objects.{get, put}
use supply_chain_integration.Objects.Keys.{build_raw_object_key}
use supply_chain_integration.Store.Db.{Db}
use supply_chain_integration.Store.Constraints.{IsConsistent, constraints_hold}
use supply_chain_integration.Imports.Jobs.{
  find_job, get_import_job, set_job, add_attempt, record_import_event, get_supplier_by_code,
}
use supply_chain_integration.Imports.Queue.{
  submit_for, queue_job, submit_inventory_import, find_submission,
}
use supply_chain_integration.Store.Rows.Imports.{ImportJob}
use supply_chain_integration.Imports.Execute.{
  process_job, execute_import_job, claimed_job, claimed, claim_job,
}
use supply_chain_integration.Imports.Soundness.{IsSound}
use supply_chain_integration.Imports.Soundness.Claim.{claim_db, claim_job-IsSound}
use supply_chain_integration.Imports.Runs.{execute_import_job-keeps_claim}
use supply_chain_integration.Imports.Payload.{adapt_retained_payload, load_import_payload}
use supply_chain_integration.Store.Session.{flush, commit_or_conflict}
use supply_chain_integration.Store.Rows.{Time}
use supply_chain_integration.Imports.Soundness.Submit.{put_payload, submit_inventory_import-IsSound}
use supply_chain_integration.Imports.Submission.{submit_inventory_import-twice}
use supply_chain_integration.Examples.{
  ext, client, isoformat, request, stored, acme, default_range, one_supplier,
  one_supplier-IsConsistent, one_supplier-IsSound, queued_db, queued, queued_db-IsConsistent,
  queued_db-IsSound,
}

claim_job-IsSound_example :
    (db' : Db) × (claim_job default_settings 200 "worker" none 1 queued_db
      ≡ ok (claimed (claimed_job default_settings 200 "worker" queued), db'))
    × (find_job 1 db' ≡ some (claimed_job default_settings 200 "worker" queued))
    × IsConsistent db'
    × IsSound db'
unfolding find_job find
claim_job-IsSound_example =
    claim_job-IsSound default_settings 200 "worker" none 1 queued queued_db queued_db-IsConsistent
      queued_db-IsSound refl refl

abbrev claimed_db : Db
claimed_db = claim_db default_settings 200 "worker" none queued queued_db

abbrev describe : Exn → String
describe error = "failed"

submit_inventory_import-IsSound_example :
    (job : ImportJob) × (db' : Db) × (submit_inventory_import default_settings client isoformat
        request 100 one_supplier []
      ≡ (ok ((job, true), db'), (put_payload default_settings client isoformat request 100 []).1))
    × (find_job job.id db' ≡ some job)
    × (is_queued job.status ≡ true)
    × (job.attempt_count ≡ 0)
    × (job.payload_object_key
        ≡ some (build_raw_object_key isoformat request.source_type request.content_sha256 none 100))
    × (job.payload_size_bytes ≡ some (length request.content))
    × IsConsistent db'
    × IsSound db'
unfolding get_supplier_by_code find_submission find put build_raw_object_key
submit_inventory_import-IsSound_example =
    submit_inventory_import-IsSound default_settings client isoformat request acme stored 100
      one_supplier [] default_range one_supplier-IsConsistent one_supplier-IsSound refl refl refl
      refl

submit_inventory_import-twice_example :
    submit_inventory_import default_settings client isoformat request 300 queued_db [] ≡ (
      (if str_eq request.content_sha256 request.content_sha256
          then ok ((queued, false), queued_db)
          else err resource_conflict),
      [],
    )
unfolding submit_inventory_import get_supplier_by_code find_submission find put build_raw_object_key
    constraints_hold unique any every queue_job record_import_event commit_or_conflict submit_for
submit_inventory_import-twice_example =
    submit_inventory_import-twice default_settings client isoformat request request 100 300
      one_supplier queued_db [] ((stored.key, request.content) ∷ []) [] queued refl refl refl refl

-- The object of the payload is gone.
execute_import_job-keeps_claim_example :
    (execute_import_job default_settings ext client "worker" none 1 200 300 [] queued_db
      ≡ (err permanent_import, claimed_db))
    × (find_job 1 claimed_db ≡ some (claimed_job default_settings 200 "worker" queued))
    × IsConsistent claimed_db
    × IsSound claimed_db
    × ((later end : Time)
        → execute_import_job default_settings ext client "worker" none 1 later end [] claimed_db
          ≡ (ok (claimed_job default_settings 200 "worker" queued), claimed_db))
unfolding claim_job find_job find set_job update add_attempt record_import_event flush
    constraints_hold unique any every process_job get_import_job adapt_retained_payload
    load_import_payload get
execute_import_job-keeps_claim_example =
    execute_import_job-keeps_claim default_settings ext client "worker" none 1 200 300 [] queued_db
      claimed_db queued permanent_import queued_db-IsConsistent queued_db-IsSound refl refl refl
      refl
