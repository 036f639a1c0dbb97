-- ===== src/Imports/Dispatch.antt =====
-- When a job is handed to the queue of the workers.
use supply_chain_integration.Base.{
  ℕ, ◌+◌, ◌<◌, ◌≤◌, ◌≡◌, refl, ap, ◌∙◌, Option, some, none, true, false, any, All, All-mono, length,
  select, All-take, All-sort_by, All-select_test, All-selected, any-sort_by, take_whole,
  length-take_le, arith,
}
use supply_chain_integration.Domain.Enums.{ImportStatus, is_queued}
use supply_chain_integration.Settings.{Settings}
use supply_chain_integration.Store.Rows.{Time, seconds}
use supply_chain_integration.Store.Rows.Imports.{ImportJob}
use supply_chain_integration.Store.Db.{Db}
use supply_chain_integration.Imports.Queue.{
  is_due, none_or_older, dispatched, jobs_due_for_dispatch,
}
use supply_chain_integration.Imports.Soundness.{same_job_id}

-- A queued job whose retry, if it waits for one, is due, and whose last dispatch, if there was one,
-- is old enough.
abbrev pub IsReady : Settings → Time → ImportJob → Type 0
IsReady settings now job =
    (job.status ≡ ImportStatus.queued)
    × ((t : Time) → job.next_retry_at ≡ some t → t ≤ now)
    × ((t : Time)
        → job.dispatched_at ≡ some t
        → t + seconds settings.import_redispatch_seconds ≤ now)

older_than :
    (o : Option Time) (age now t : Time)
    → none_or_older o age now ≡ true
    → o ≡ some t
    → t + age ≤ now
older_than none age now t h e = ground arith
older_than (some u) age now t h e = ground arith

older_of :
    (o : Option Time) (age now : Time)
    → ((t : Time) → o ≡ some t → t + age ≤ now)
    → none_or_older o age now ≡ true
older_of none age now h = refl
older_of (some t) age now h = ground (arith, h t refl)

queued_of : (s : ImportStatus) → is_queued s ≡ true → s ≡ ImportStatus.queued
queued_of s h = ground arith

due-IsReady :
    (settings : Settings) (now : Time) (job : ImportJob)
    → is_due settings now job ≡ true
    → IsReady settings now job
due-IsReady settings now job h = (
  queued_of job.status (ground arith),
  λ t e. omega (arith, older_than job.next_retry_at 0 now t (ground arith) e),
  λ t e.
      older_than job.dispatched_at (seconds settings.import_redispatch_seconds) now t (ground arith)
        e,
)

IsReady-due :
    (settings : Settings) (now : Time) (job : ImportJob)
    → IsReady settings now job
    → is_due settings now job ≡ true
IsReady-due settings now job (queued, retry, again) = rw queued (
    ground (
      arith,
      older_of job.next_retry_at 0 now (λ t e. omega (arith, retry t e)),
      older_of job.dispatched_at (seconds settings.import_redispatch_seconds) now again,
    ))

-- A job that was just handed over is not due again before the time for a new dispatch has passed.
dispatched-not_due :
    (settings : Settings) (at now : Time) (job : ImportJob)
    → now < at + seconds settings.import_redispatch_seconds
    → is_due settings now (dispatched at job) ≡ false
dispatched-not_due settings at now job h = ground arith

-- A selection that is not full has every row that is due.
picked_whole :
    (settings : Settings) (now : Time) (limit : ℕ) (db : Db) (job : ImportJob)
    → length (jobs_due_for_dispatch settings now limit db) < limit
    → any (same_job_id job) (select (is_due settings now) db.jobs) ≡ true
    → any (same_job_id job) (jobs_due_for_dispatch settings now limit db) ≡ true
unfolding jobs_due_for_dispatch
picked_whole settings now limit db job short h =
    ap (any (same_job_id job)) (take_whole limit _ short)
    ∙ any-sort_by (same_job_id job) (λ j. j.created_at) (select (is_due settings now) db.jobs)
    ∙ h

picked-IsReady :
    (settings : Settings) (now : Time) (limit : ℕ) (db : Db)
    → All (IsReady settings now) (jobs_due_for_dispatch settings now limit db)
      × (length (jobs_due_for_dispatch settings now limit db) ≤ limit)
unfolding jobs_due_for_dispatch
picked-IsReady settings now limit db = (
  All-take _ limit _ (
      All-sort_by _ (λ j. j.created_at) (select (is_due settings now) db.jobs)
        (All-mono _ _ _ (λ job h. due-IsReady settings now job h)
          (All-select_test (is_due settings now) db.jobs))),
  length-take_le limit _,
)

-- Every job that is picked for dispatch is queued, its retry is due and its last dispatch is as old
-- as the settings ask for; there are at most `limit`, and where there are fewer every job of the
-- database that is so is picked. A job that is dispatched at an instant is not due before the time
-- for a new dispatch has passed.
pub jobs_due_for_dispatch_lem :
    (settings : Settings) (now : Time) (limit : ℕ) (db : Db)
    → All (IsReady settings now) (jobs_due_for_dispatch settings now limit db)
      × (length (jobs_due_for_dispatch settings now limit db) ≤ limit)
      × (length (jobs_due_for_dispatch settings now limit db) < limit
          → All
              (λ job.
                IsReady settings now job
                → any (same_job_id job) (jobs_due_for_dispatch settings now limit db) ≡ true)
              db.jobs)
      × ((job : ImportJob) (later : Time)
          → later < now + seconds settings.import_redispatch_seconds
          → is_due settings later (dispatched now job) ≡ false)
jobs_due_for_dispatch_lem settings now limit db = (
  (picked-IsReady settings now limit db).0,
  (picked-IsReady settings now limit db).1,
  λ short.
      All-mono _ _ db.jobs
        (λ job f ready.
          picked_whole settings now limit db job short (f (IsReady-due settings now job ready)))
        (All-selected same_job_id (is_due settings now) db.jobs (λ job. ground arith)),
  λ job later h. dispatched-not_due settings now later job h,
)
