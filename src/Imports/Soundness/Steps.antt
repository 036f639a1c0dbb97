-- ===== src/Imports/Soundness/Steps.antt =====
-- What a job satisfies between two operations, and that each change of a job keeps it.
use supply_chain_integration.Base.{ℕ, ◌+◌, ◌≤◌, ◌<◌, ◌≡◌, true, String, ltb, arith}
use supply_chain_integration.Domain.Errors.{Exn}
use supply_chain_integration.Settings.{Settings}
use supply_chain_integration.Store.Rows.{Time}
use supply_chain_integration.Store.Rows.Imports.{ImportJob}
use supply_chain_integration.Imports.Queue.{dispatched}
use supply_chain_integration.Imports.Execute.{can_claim, claimed_job, completed_job}
use supply_chain_integration.Imports.Totals.{with_totals}
use supply_chain_integration.Imports.Failure.Record.{
  can_retry, failed_job, retried_job, stopped_job,
}
use supply_chain_integration.Imports.Soundness.{JobIsSound}
use supply_chain_integration.Imports.Recovery.{requeued_job, exhausted_job}

pub claimed_job-JobIsSound :
    (settings : Settings) (now : Time) (worker_id : String) (j : ImportJob)
    → can_claim now j ≡ true
    → JobIsSound j
    → JobIsSound (claimed_job settings now worker_id j)
claimed_job-JobIsSound settings now w j free s = ground arith

pub dispatched-JobIsSound :
    (now : Time) (j : ImportJob) → JobIsSound j → JobIsSound (dispatched now j)
dispatched-JobIsSound now j s = ground arith

pub completed_job-JobIsSound :
    (accepted_records rejected_records : ℕ) (done : Time) (j : ImportJob)
    → JobIsSound j
    → JobIsSound
        (completed_job rejected_records done (with_totals accepted_records rejected_records j))
completed_job-JobIsSound a r done j s = ground arith

pub requeued_job-JobIsSound :
    (now : Time) (j : ImportJob)
    → ltb j.attempt_count j.max_attempts ≡ true
    → JobIsSound j
    → JobIsSound (requeued_job now j)
requeued_job-JobIsSound now j left s = ground arith

pub exhausted_job-JobIsSound :
    (now : Time) (j : ImportJob) → JobIsSound j → JobIsSound (exhausted_job now j)
exhausted_job-JobIsSound now j s = ground arith

-- What is left of the invariant while a failure is being recorded.
pub record HasBudget (j : ImportJob) : Type 0 where
  pub allowed : 0 < j.max_attempts
  pub budget : j.attempt_count ≤ j.max_attempts
  pub totals : j.total_records ≡ j.accepted_records + j.rejected_records

pub retried_job-JobIsSound :
    (describe : Exn → String) (error : Exn) (now delay : Time) (j : ImportJob)
    → can_retry j error ≡ true
    → HasBudget j
    → JobIsSound (retried_job now delay (failed_job describe error j))
retried_job-JobIsSound describe error now delay j left s = ground arith

pub stopped_job-JobIsSound :
    (describe : Exn → String) (error : Exn) (now : Time) (j : ImportJob)
    → HasBudget j
    → JobIsSound (stopped_job now (failed_job describe error j))
stopped_job-JobIsSound describe error now j s = ground arith
