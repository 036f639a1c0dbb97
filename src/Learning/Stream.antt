-- ===== src/Learning/Stream.antt =====
-- `stream_import_events` of api/routes/learning.py: the events of a job as they come, until it ends.
use supply_chain_integration.Base.{
  ℕ, zero, suc, Bool, true, false, not, ◌||◌, Option, none, some, List, [], ◌∷◌, ◌++◌, map, ◌==◌,
  any, if◌then◌else◌,
}
use supply_chain_integration.Domain.Enums.{ImportStatus}
use supply_chain_integration.Domain.Errors.{Result, ok, err}
use supply_chain_integration.Store.Rows.{Uuid}
use supply_chain_integration.Store.Rows.Imports.{ImportJob, OperationEvent}
use supply_chain_integration.Store.Db.{Db}
use supply_chain_integration.Imports.Jobs.{find_job, get_import_job}
use supply_chain_integration.Learning.Events.{list_import_events}

-- What the client reads: an event, the end of the job, or the end of the waiting.
pub data Chunk : Type 0 where
  operation : OperationEvent → Chunk
  complete : ImportStatus → Chunk
  timeout : Chunk

-- What one round of the loop meets: whether the client has gone, the database when the events are
-- read, and the database when the job is read. Other transactions may commit in between.
pub record Round : Type 0 where
  pub disconnected : Bool
  pub events_db : Db
  pub job_db : Db

abbrev pub is_seen : List Uuid → OperationEvent → Bool
is_seen seen e = any (λ id. id == e.id) seen

-- The loop over the events: those that were not sent before.
unfoldable pub unseen : List Uuid → List OperationEvent → List OperationEvent
unfolding any
unseen seen [] = []
unseen seen (e ∷ es) =
    let rest = unseen (e.id ∷ seen) es in
    let known = unseen seen es in if is_seen seen e then known else e ∷ rest

abbrev pub sent_ids : List OperationEvent → List Uuid
sent_ids es = map (λ e. e.id) es

abbrev pub has_stopped : ImportStatus → Bool
has_stopped ImportStatus.queued = false
has_stopped ImportStatus.processing = false
has_stopped status = true

-- What a round does after its events: it ends the stream with a last chunk or without one, or it
-- sleeps and goes on.
pub data Next : Type 0 where
  stop : List Chunk → Next
  sleep : Next

abbrev pub after_events : Bool → Option ImportJob → Next
after_events follow none = stop []
after_events follow (some job) =
    if not follow || has_stopped job.status then stop (complete job.status ∷ []) else sleep

-- `left` is the number of sleeps until `waited_seconds` reaches 120. A client that has gone, and a
-- job that is not found, end the stream without a last chunk.
unfoldable pub event_stream : ℕ → Bool → Uuid → List Uuid → List Round → List Chunk
unfolding unseen list_import_events find_job
event_stream left follow id seen [] = []
event_stream left follow id seen (round ∷ rounds) = elim round.disconnected [
  | true ↦ []
  | false ↦
      let fresh = unseen seen (list_import_events id none round.events_db) in
      map operation fresh ++ elim (after_events follow (find_job id round.job_db)) [
        | stop last ↦ last
        | sleep ↦ elim left [
          | zero ↦ timeout ∷ []
          | suc zero ↦ timeout ∷ []
          | suc (suc n) ↦ event_stream (suc n) follow id (sent_ids fresh ++ seen) rounds
        ]
      ]
]

-- `waited_seconds` is a sum of floating-point steps of 0.6: after 200 of them it is a little less
-- than 120.
abbrev pub sleeps : ℕ
sleeps = 201

-- An unknown job is an error before the stream starts.
unfoldable pub stream_import_events : Bool → Uuid → Db → List Round → Result (List Chunk)
unfolding event_stream get_import_job
stream_import_events follow id db rounds = elim (get_import_job id db) [
  | err e ↦ err e
  | ok answer ↦ ok (event_stream sleeps follow id [] rounds)
]
