-- ===== src/Examples/Api.antt =====
-- The routes of the suppliers at a small database.
use supply_chain_integration.Base.{
  ◌<◌, refl, none, some, List, [], ◌∷◌, find, any, every, unique, length, arith,
}
use supply_chain_integration.Domain.Enums.{RecordStatus}
use supply_chain_integration.Settings.{default_settings}
use supply_chain_integration.Store.Rows.{Uuid}
use supply_chain_integration.Store.Db.{Db, empty}
use supply_chain_integration.Store.Constraints.{constraints_hold, constraints_hold-IsConsistent}
use supply_chain_integration.Imports.Jobs.{find_job}
use supply_chain_integration.Imports.Steps.Preservation.{IsValid}
use supply_chain_integration.Worker.Broker.{Broker, accepted}
use supply_chain_integration.Api.Imports.{
  System, Upload, max_csv_bytes, supplier_a_request, supplier_b_request,
  import_supplier_a_inventory, import_supplier_b_inventory, guarded,
}
use supply_chain_integration.Api.Publication.{Refuses, Answers}
use supply_chain_integration.Api.Routes.{
  import_supplier_a_inventory-Answers, import_supplier_b_inventory-Answers,
}
use supply_chain_integration.Examples.{Objects, client, ext, isoformat, default_range}

abbrev inbox : Broker (List Uuid)
inbox = record { apply_async = λ id countdown queue. (accepted "task", id ∷ queue) }

abbrev known_suppliers : Db
known_suppliers = record empty {
  next_id = 2;
  suppliers =
      record { id = 0; code = "SUPPLIER_A"; name = "Supplier A"; status = RecordStatus.active }
      ∷ record { id = 1; code = "SUPPLIER_B"; name = "Supplier B"; status = RecordStatus.active }
      ∷ [];
}

known_suppliers-IsValid : IsValid known_suppliers
unfolding constraints_hold unique every any find_job find
known_suppliers-IsValid = (
  constraints_hold-IsConsistent known_suppliers refl,
  record {
    keyed = record { keys = refl; fresh = refl; owners = refl };
    at = λ id j found. ground arith;
  },
)

abbrev system : System Objects (List Uuid)
system = record { database = known_suppliers; objects = []; queue = [] }

abbrev upload : Upload
upload = record { content = 1 ∷ 2 ∷ []; content_type = none; filename = some "stock.csv" }

import_supplier_a_inventory-Answers_example :
    Answers system "secret"
      (some "secret")
      (some "key-0001")
      (λ key. supplier_a_request ext (1 ∷ []) key none)
      (guarded "secret"
        (some "secret")
        (some "key-0001")
        (λ key.
          import_supplier_a_inventory default_settings ext client isoformat inbox
            (1 ∷ [])
            key
            none
            100
            200)
        system)
import_supplier_a_inventory-Answers_example =
    import_supplier_a_inventory-Answers default_settings ext client isoformat inbox "secret"
      (some "secret") (some "key-0001") none 100 200 system (1 ∷ []) default_range
      known_suppliers-IsValid

import_supplier_b_inventory-Answers_example :
    Answers system "secret"
      (some "secret")
      (some "key-0001")
      (λ key. supplier_b_request ext (1 ∷ 2 ∷ []) upload key none)
      (guarded "secret"
        (some "secret")
        (some "key-0001")
        (λ key.
          import_supplier_b_inventory default_settings ext client isoformat inbox upload key none
            100 200)
        system)
    × (max_csv_bytes < length upload.content
        → Refuses system (
            guarded "secret"
              (some "secret")
              (some "key-0001")
              (λ key.
                import_supplier_b_inventory default_settings ext client isoformat inbox upload key
                  none 100 200)
              system))
import_supplier_b_inventory-Answers_example =
    import_supplier_b_inventory-Answers default_settings ext client isoformat inbox "secret"
      (some "secret") (some "key-0001") none 100 200 system upload default_range
      known_suppliers-IsValid
