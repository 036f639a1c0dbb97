-- ===== src/Learning/Events.antt =====
-- `list_import_events` of application/learning_services.py.
use supply_chain_integration.Base.{
  Bool, true, not, ◌&&◌, Option, none, some, List, ◌==◌, leb, find, select, sort_by,
}
use supply_chain_integration.Store.Rows.{Uuid}
use supply_chain_integration.Store.Rows.Imports.{OperationEvent}
use supply_chain_integration.Store.Db.{Db}

abbrev pub is_event_id : Uuid → OperationEvent → Bool
is_event_id id e = e.id == id

-- The condition that an `after_id` adds; an unknown id adds none.
abbrev is_after : Option OperationEvent → OperationEvent → Bool
is_after none e = true
is_after (some prior) e = leb prior.occurred_at e.occurred_at && not (e.id == prior.id)

abbrev prior_event : Option Uuid → Db → Option OperationEvent
prior_event none db = none
prior_event (some id) db = find (is_event_id id) db.events

-- Ordered by `occurred_at`, then by `id`: the sort is stable.
unfoldable pub list_import_events : Uuid → Option Uuid → Db → List OperationEvent
unfolding select sort_by find
list_import_events import_job_id after_id db =
    sort_by (λ e. e.occurred_at)
      (sort_by (λ e. e.id)
        (select (λ e. e.import_job_id == import_job_id && is_after (prior_event after_id db) e)
          db.events))
