-- ===== src/Services/Laws/Registration.antt =====
-- The registration of suppliers: a code is taken once.
use supply_chain_integration.Base.{
  suc, ◌≡◌, refl, ◌∙◌, Bool, false, not, [], ◌∷◌, ◌++◌, str_eq, any, unique-append, if◌then◌else◌,
  arith,
}
use supply_chain_integration.Domain.Errors.{ok, err, resource_conflict}
use supply_chain_integration.Store.Db.{Db}
use supply_chain_integration.Store.Session.{commit_or_conflict}
use supply_chain_integration.Store.Constraints.{
  IsConsistent, constraints_hold, constraints_hold-IsConsistent, same_supplier_code,
}
use supply_chain_integration.Services.Catalog.{SupplierCreate, new_supplier, create_supplier}

abbrev pub is_taken : SupplierCreate → Db → Bool
is_taken request db = any (λ s. str_eq s.code request.code) db.suppliers

abbrev pub registered_db : SupplierCreate → Db → Db
registered_db request db = record db {
  next_id = suc db.next_id;
  suppliers = db.suppliers ++ new_supplier db.next_id request ∷ [];
}

registered_db-constraints_hold :
    (request : SupplierCreate) (db : Db)
    → IsConsistent db
    → constraints_hold (registered_db request db) ≡ not (is_taken request db)
unfolding constraints_hold
registered_db-constraints_hold request db c =
    ground (arith, unique-append same_supplier_code (new_supplier db.next_id request) db.suppliers)

-- In a consistent database a supplier is created exactly when no supplier has its code: then its row
-- is added with an id of its own, active, and the database stays consistent; else it is a conflict.
pub create_supplier_lem :
    (request : SupplierCreate) (db : Db)
    → IsConsistent db
    → (create_supplier request db ≡ (
        if is_taken request db
        then err resource_conflict
        else ok (new_supplier db.next_id request, registered_db request db)))
      × (is_taken request db ≡ false → IsConsistent (registered_db request db))
unfolding create_supplier commit_or_conflict
create_supplier_lem request db c = (
  ground (arith, registered_db-constraints_hold request db c),
  λ free.
      constraints_hold-IsConsistent (registered_db request db)
        (registered_db-constraints_hold request db c ∙ rw free refl),
)
