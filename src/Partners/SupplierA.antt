-- ===== src/Partners/SupplierA.antt =====
-- integrations/supplier_a.py: the payload of Supplier A and its adapter. Pydantic has validated the
-- payload; an instant is already in UTC.
use supply_chain_integration.Base.{ℕ, suc, String, List, [], ◌∷◌, none}
use supply_chain_integration.Domain.Enums.{UnitOfMeasure}
use supply_chain_integration.Domain.Decimal.{Decimal}
use supply_chain_integration.Partners.Canonical.{CanonicalInventoryRecord, InventoryAdapterResult}

pub record SupplierAInventoryItem : Type 0 where
  pub item_number : String
  pub location : String
  pub on_hand : Decimal
  pub allocated : Decimal
  pub unit : UnitOfMeasure

pub record SupplierAInventoryPayload : Type 0 where
  pub snapshot_id : String
  pub captured_at : ℕ
  pub items : List SupplierAInventoryItem

-- `model_dump(mode="json")` of Pydantic writes an item out as a JSON object.
module _ (model_dump : SupplierAInventoryItem → List (String × String)) where
  pub item_record :
      SupplierAInventoryPayload → ℕ → SupplierAInventoryItem → CanonicalInventoryRecord
  item_record payload source_row item = record {
    source_reference = payload.snapshot_id;
    source_row = source_row;
    external_sku = item.item_number;
    external_location = item.location;
    observed_at = payload.captured_at;
    source_unit = item.unit;
    on_hand_quantity = item.on_hand;
    reserved_quantity = item.allocated;
    units_per_source_unit = none;
    raw_fragment = model_dump item;
  }

  -- `enumerate(payload.items, start=1)`
  pub item_records :
      SupplierAInventoryPayload → ℕ → List SupplierAInventoryItem → List CanonicalInventoryRecord
  unfolding item_record
  item_records payload source_row [] = []
  item_records payload source_row (item ∷ items) =
      item_record payload source_row item ∷ item_records payload (suc source_row) items

  unfoldable pub adapt : SupplierAInventoryPayload → InventoryAdapterResult
  unfolding item_records
  adapt payload = record { records = item_records payload 1 payload.items; errors = [] }
