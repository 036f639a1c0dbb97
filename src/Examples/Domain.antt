-- ===== src/Examples/Domain.antt =====
-- The theorems on the policies, the shipments and the reference data, at small values.
use supply_chain_integration.Base.{
  any, ◌*◌, ◌+◌, ◌<◌, ◌≤◌, ◌≡◌, refl, min, true, false, List, [], ◌∷◌, All, length, if◌then◌else◌,
  arith,
}
use supply_chain_integration.Base.Int.{pos}
use supply_chain_integration.Domain.Decimal.{thousandths}
use supply_chain_integration.Domain.Enums.{
  ShipmentStatus, ShipmentEventType, UnitOfMeasure, is_picked_up,
}
use supply_chain_integration.Domain.Errors.{ok, err, resource_conflict}
use supply_chain_integration.Domain.Shipments.{status_after_event}
use supply_chain_integration.Domain.Inventory.{
  calculate_available_quantity, calculate_available_quantity_lem,
}
use supply_chain_integration.Domain.Shipments.Histories.{
  named_status, replay, replay-picked_up_first, replay-terminal_last, replay-last,
}
use supply_chain_integration.Settings.{default_settings}
use supply_chain_integration.Store.Rows.{Time, seconds}
use supply_chain_integration.Store.Rows.Catalog.{SupplierProductMapping}
use supply_chain_integration.Store.Rows.Imports.{ImportJob}
use supply_chain_integration.Store.Constraints.{IsConsistent}
use supply_chain_integration.Imports.Failure.Policy.{calculate_retry_delay}
use supply_chain_integration.Imports.Failure.Backoff.{calculate_retry_delay_lem}
use supply_chain_integration.Imports.Queue.{is_due, dispatched, jobs_due_for_dispatch}
use supply_chain_integration.Imports.Soundness.{same_job_id}
use supply_chain_integration.Imports.Dispatch.{IsReady, jobs_due_for_dispatch_lem}
use supply_chain_integration.Services.Catalog.{SupplierCreate, new_supplier, create_supplier}
use supply_chain_integration.Services.Laws.Registration.{
  is_taken, registered_db, create_supplier_lem,
}
use supply_chain_integration.Services.Mappings.{ProductMappingUpsert, revise_product_mapping}
use supply_chain_integration.Services.Laws.Revisions.{AgreesWith, revise_product_mapping_lem}
use supply_chain_integration.Examples.{
  default_range, one_supplier, one_supplier-IsConsistent, queued_db,
}

calculate_retry_delay_lem_example :
    (1 ≤ calculate_retry_delay default_settings 4)
    × (calculate_retry_delay default_settings 4 ≤ 60)
    × (calculate_retry_delay default_settings 1 ≡ min 2 60)
    × (calculate_retry_delay default_settings 6
        ≡ min (2 * calculate_retry_delay default_settings 5) 60)
calculate_retry_delay_lem_example = calculate_retry_delay_lem default_settings 4 default_range

jobs_due_for_dispatch_lem_example :
    All (IsReady default_settings 200) (jobs_due_for_dispatch default_settings 200 5 queued_db)
    × (length (jobs_due_for_dispatch default_settings 200 5 queued_db) ≤ 5)
    × (length (jobs_due_for_dispatch default_settings 200 5 queued_db) < 5
        → All
            (λ job.
              IsReady default_settings 200 job
              → any (same_job_id job) (jobs_due_for_dispatch default_settings 200 5 queued_db)
                ≡ true)
            queued_db.jobs)
    × ((job : ImportJob) (later : Time)
        → later < 200 + seconds 60
        → is_due default_settings later (dispatched 200 job) ≡ false)
jobs_due_for_dispatch_lem_example = jobs_due_for_dispatch_lem default_settings 200 5 queued_db

abbrev history : List ShipmentEventType
history = ShipmentEventType.in_transit ∷ ShipmentEventType.delivered ∷ []

replay-picked_up_first_example : All (λ x. is_picked_up x ≡ false) history
unfolding replay status_after_event
replay-picked_up_first_example =
    replay-picked_up_first ShipmentStatus.planned ShipmentStatus.delivered
      ShipmentEventType.picked_up history refl

replay-last_example : ShipmentStatus.delivered ≡ named_status ShipmentEventType.delivered
unfolding replay status_after_event
replay-last_example =
    replay-last ShipmentStatus.picked_up ShipmentStatus.delivered
      (ShipmentEventType.in_transit ∷ []) ShipmentEventType.delivered refl

abbrev no_events : List ShipmentEventType
no_events = []

replay-terminal_last_example : no_events ≡ []
unfolding replay status_after_event
replay-terminal_last_example =
    replay-terminal_last ShipmentStatus.picked_up ShipmentStatus.delivered
      (ShipmentEventType.in_transit ∷ []) ShipmentEventType.delivered [] refl (ground arith)

calculate_available_quantity_lem_example :
    calculate_available_quantity (thousandths 5000) (thousandths 7000) ≡ ok (pos 0)
calculate_available_quantity_lem_example =
    calculate_available_quantity_lem (thousandths 5000) (thousandths 7000)

abbrev globex : SupplierCreate
globex = record { code = "GLOBEX"; name = "Globex" }

create_supplier_lem_example :
    (create_supplier globex one_supplier ≡ (
      if is_taken globex one_supplier
      then err resource_conflict
      else ok (new_supplier 1 globex, registered_db globex one_supplier)))
    × (is_taken globex one_supplier ≡ false → IsConsistent (registered_db globex one_supplier))
create_supplier_lem_example = create_supplier_lem globex one_supplier one_supplier-IsConsistent

abbrev upsert : ProductMappingUpsert
upsert = record {
  supplier_id = 0;
  external_sku = "SKU";
  product_id = 4;
  source_unit = UnitOfMeasure.case;
  units_per_source_unit = thousandths 12000;
  active = true;
}

abbrev mapping : SupplierProductMapping
mapping = record {
  id = 9;
  supplier_id = 0;
  external_sku = "SKU";
  product_id = 4;
  source_unit = UnitOfMeasure.case;
  units_per_source_unit = thousandths 6000;
  version = 3;
  active = true;
}

revise_product_mapping_lem_example :
    AgreesWith upsert (revise_product_mapping upsert mapping)
    × (AgreesWith upsert mapping → revise_product_mapping upsert mapping ≡ mapping)
    × (¬ AgreesWith upsert mapping → (revise_product_mapping upsert mapping).version ≡ 4)
    × (revise_product_mapping upsert (revise_product_mapping upsert mapping)
        ≡ revise_product_mapping upsert mapping)
revise_product_mapping_lem_example = revise_product_mapping_lem upsert mapping
