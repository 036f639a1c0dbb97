-- ===== src/Worker/Broker.antt =====
-- worker/queueing.py: the publication of a durable job reference. Celery's `apply_async` and the
-- broker behind it are a parameter.
use supply_chain_integration.Base.{ℕ, String, Option, none, some}
use supply_chain_integration.Store.Rows.{Uuid}

-- The outcome of `apply_async`: the id of the message, or kombu's `OperationalError`.
pub data Delivery : Type 0 where
  accepted : String → Delivery
  broker_unreachable : Delivery

-- The state of the broker is a `Q`; the countdown is in thousandths of a second.
pub record Broker {ℓ} (Q : Type ℓ) : Type ℓ where
  pub apply_async : Uuid → ℕ → Q → Delivery × Q

abbrev receipt : Delivery → Option String
receipt (accepted task_id) = some task_id
receipt broker_unreachable = none

unfoldable pub publish_import_job {ℓ} : {Q : Type ℓ} → Broker Q → Uuid → Q → Option String × Q
publish_import_job broker id queue =
    let (delivery, queue') = broker.apply_async id 500 queue in (receipt delivery, queue')
