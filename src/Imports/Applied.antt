-- ===== src/Imports/Applied.antt =====
-- What one record of a partner does to the inventory.
use supply_chain_integration.Base.{
  ◌≡◌, refl, sym, subst, true, false, ◌&&◌, Bool-cases, inl, inr, Option, some, none, List, [], ◌∷◌,
  ◌++◌, ◌==◌, eq_iff, is_none, find, any, update, find-append, find-append_last, find-update_self,
  find-update_other, arith,
}
use supply_chain_integration.Domain.Decimal.{Decimal, times, stored}
use supply_chain_integration.Domain.Enums.{same_unit}
use supply_chain_integration.Domain.Errors.{ok}
use supply_chain_integration.Partners.Canonical.{CanonicalInventoryRecord, AdapterError}
use supply_chain_integration.Store.Rows.{Uuid}
use supply_chain_integration.Store.Rows.Catalog.{
  InventoryPosition, SupplierProductMapping, SupplierWarehouseMapping,
}
use supply_chain_integration.Store.Rows.Imports.{ImportJob}
use supply_chain_integration.Store.Db.{Db}
use supply_chain_integration.Store.Session.{flush, pure}
use supply_chain_integration.Imports.Apply.{
  is_product_mapping, is_warehouse_mapping, check_units, SourceKey, source_key, is_position,
  is_snapshot_of, record_error, snapshot_of, repositioned, upsert_position, apply_record,
  already_imported, Check, rejected, accepted, check_mappings,
}
use supply_chain_integration.Imports.Soundness.Frames.{both_return}
use supply_chain_integration.Imports.Totals.{apply_check, validate_and_apply_record}

-- The position of a product in a warehouse.
abbrev pub position_of : Uuid → Uuid → Db → Option InventoryPosition
position_of warehouse_id product_id db = find (is_position warehouse_id product_id) db.positions

-- A position has these quantities.
abbrev pub HasQuantities : Decimal → Decimal → Option InventoryPosition → Type 0
HasQuantities on_hand reserved p =
    (q : InventoryPosition) × (p ≡ some q)
    × (q.on_hand_quantity ≡ on_hand)
    × (q.reserved_quantity ≡ reserved)

abbrev first_position : Uuid → Uuid → Uuid → Decimal → Decimal → InventoryPosition
first_position id w p on_hand reserved = record {
  id = id;
  warehouse_id = w;
  product_id = p;
  on_hand_quantity = on_hand;
  reserved_quantity = reserved;
  version = 1;
}

upsert_position_lem :
    (w p : Uuid) (on_hand reserved : Decimal) (found : Option InventoryPosition) (db db' : Db)
    (done : Unit {0})
    → position_of w p db ≡ found
    → upsert_position w p on_hand reserved found db ≡ ok (done, db')
    → HasQuantities on_hand reserved (position_of w p db')
      × ((w' p' : Uuid)
          → (w' == w && p' == p) ≡ false
          → position_of w' p' db' ≡ position_of w' p' db)
      × (db'.snapshots ≡ db.snapshots)
unfolding upsert_position find
upsert_position_lem w p a b none db db' done missing h =
    let new = first_position db.next_id w p a b in
    let e : db'.positions ≡ db.positions ++ new ∷ [] = ground arith in
    (
      (new, ground (arith, find-append (is_position w p) db.positions (new ∷ [])), refl, refl),
      λ w' p' other. ground (arith, find-append (is_position w' p') db.positions (new ∷ [])),
      ground arith,
    )
upsert_position_lem w p a b (some q) db db' done there h =
    let change = repositioned a b in
    let e : db'.positions ≡ update (is_position w p) change db.positions = ground arith in
    (
      (
        change q,
        rw e (find-update_self (is_position w p) change (λ x. refl) db.positions q there),
        refl,
        refl,
      ),
      λ w' p' other. rw e (
          find-update_other (is_position w p) change (is_position w' p') (λ x. refl)
            (λ x h. ground arith) db.positions),
      ground arith,
    )

own_snapshot :
    (id : Uuid) (job : ImportJob) (supplier_id : Uuid) (r : CanonicalInventoryRecord)
    (pm : SupplierProductMapping) (wm : SupplierWarehouseMapping)
    → is_snapshot_of supplier_id (source_key r) (snapshot_of id job supplier_id r pm wm) ≡ true
own_snapshot id job supplier_id r pm wm = ground (
  arith,
  eq_iff r.source_reference r.source_reference,
  eq_iff r.external_sku r.external_sku,
  eq_iff r.external_location r.external_location,
)

-- The writes for a record that passed every test.
apply_record_lem :
    (job : ImportJob) (supplier_id : Uuid) (r : CanonicalInventoryRecord)
    (pm : SupplierProductMapping) (wm : SupplierWarehouseMapping) (db db' : Db) (done : Unit {0})
    → apply_record job supplier_id r pm wm db ≡ ok (done, db')
    → HasQuantities
        (stored (times r.on_hand_quantity pm.units_per_source_unit))
        (stored (times r.reserved_quantity pm.units_per_source_unit))
        (position_of wm.warehouse_id pm.product_id db')
      × ((w' p' : Uuid)
          → (w' == wm.warehouse_id && p' == pm.product_id) ≡ false
          → position_of w' p' db' ≡ position_of w' p' db)
      × (already_imported supplier_id r [] db' ≡ true)
unfolding apply_record flush already_imported any
apply_record_lem job supplier_id r pm wm db db' done h =
    let on_hand = stored (times r.on_hand_quantity pm.units_per_source_unit) in
    let reserved = stored (times r.reserved_quantity pm.units_per_source_unit) in
    let found = position_of wm.warehouse_id pm.product_id db in
    let (u, mid, put, rest) =
      both_return (upsert_position wm.warehouse_id pm.product_id on_hand reserved found db) _ db db'
        done h in
    let positions : db'.positions ≡ mid.positions = ground arith in
    let snapshots : db'.snapshots
        ≡ mid.snapshots ++ snapshot_of mid.next_id job supplier_id r pm wm ∷ [] =
      ground arith in
    let ((q, at, a, b), others, same) =
      upsert_position_lem wm.warehouse_id pm.product_id on_hand reserved found db mid u refl put in
    (
      (q, rw positions at, a, b),
      λ w' p' other. rw positions (others w' p' other),
      rw snapshots (
          ground (
            arith,
            find-append_last (is_snapshot_of supplier_id (source_key r)) mid.snapshots
                (snapshot_of mid.next_id job supplier_id r pm wm)
                (own_snapshot mid.next_id job supplier_id r pm wm),
          )),
    )

accepted-units :
    (supplier_id : Uuid) (r : CanonicalInventoryRecord) (db : Db) (pm : SupplierProductMapping)
    (wm : SupplierWarehouseMapping)
    → check_mappings supplier_id r db ≡ accepted pm wm
    → (find (is_product_mapping supplier_id r.external_sku) db.product_mappings ≡ some pm)
      × (find (is_warehouse_mapping supplier_id r.external_location) db.warehouse_mappings
          ≡ some wm)
      × (same_unit pm.source_unit r.source_unit ≡ true)
unfolding check_mappings check_units
accepted-units supplier_id r db pm wm h = ground arith

-- What a record does, by the decision on it: it is imported under the two mappings, or the inventory
-- is left as it is.
abbrev Imported : Uuid → CanonicalInventoryRecord → Db → Db → Type 0
Imported supplier_id r db db' =
    (pm : SupplierProductMapping) × (wm : SupplierWarehouseMapping) × (find
        (is_product_mapping supplier_id r.external_sku) db.product_mappings
      ≡ some pm)
    × (find (is_warehouse_mapping supplier_id r.external_location) db.warehouse_mappings ≡ some wm)
    × HasQuantities (stored (times r.on_hand_quantity pm.units_per_source_unit))
        (stored (times r.reserved_quantity pm.units_per_source_unit))
        (position_of wm.warehouse_id pm.product_id db')
    × ((w' p' : Uuid)
        → (w' == wm.warehouse_id && p' == pm.product_id) ≡ false
        → position_of w' p' db' ≡ position_of w' p' db)
    × (already_imported supplier_id r [] db' ≡ true)

abbrev pub Effect : Uuid → CanonicalInventoryRecord → Option AdapterError → Db → Db → Type 0
Effect supplier_id r none db db' = Imported supplier_id r db db'
Effect supplier_id r (some e) db db' = db' ≡ db

apply_check-Effect :
    (job : ImportJob) (supplier_id : Uuid) (r : CanonicalInventoryRecord) (check : Check)
    (e : Option AdapterError) (db db' : Db)
    → check_mappings supplier_id r db ≡ check
    → apply_check job supplier_id r check db ≡ ok (e, db')
    → Effect supplier_id r e db db'
unfolding apply_check
apply_check-Effect job supplier_id r (rejected e') e db db' decided h =
    let same : some e' ≡ e = cc in
    let kept : db' ≡ db = sym (cc) in subst (λ o. Effect supplier_id r o db db') same kept
apply_check-Effect job supplier_id r (accepted pm wm) e db db' decided h =
    let (u, mid, did, rest) = both_return (apply_record job supplier_id r pm wm db) _ db db' e h in
    let none_now : none ≡ e = cc in
    let end : mid ≡ db' = cc in
    let (product, warehouse, units) = accepted-units supplier_id r db pm wm decided in
    let (quantities, others, again) = apply_record_lem job supplier_id r pm wm db mid u did in
    subst (λ o. Effect supplier_id r o db db') none_now
      (subst (λ d. Imported supplier_id r db d) end
        (pm, wm, product, warehouse, quantities, others, again))

-- The record of a partner, whatever keys were seen before it: with an error the database is as it
-- was. Without one the record was not imported before, an active mapping of its product and one of
-- its warehouse were found, the position of the two has the quantities of the record times the
-- factor of the product mapping as their columns round them, every other position is as it was, and
-- the record counts as imported from then on.
pub validate_and_apply_record_lem :
    (job : ImportJob) (supplier_id : Uuid) (r : CanonicalInventoryRecord)
    (seen seen' : List SourceKey) (e : Option AdapterError) (db db' : Db)
    → validate_and_apply_record job supplier_id r seen db ≡ ok ((e, seen'), db')
    → Effect supplier_id r e db db'
      × (is_none e ≡ true → already_imported supplier_id r seen db ≡ false)
unfolding validate_and_apply_record
validate_and_apply_record_lem job supplier_id r seen seen' e db db' h =
    elim (Bool-cases (already_imported supplier_id r seen db)) [
      | inl seen_before ↦
          let h' = (rw seen_before at h) in
          let same : some (record_error r "duplicate_source_record" none) ≡ e = cc in
          let kept : db' ≡ db = sym cc in
          (
            subst (λ o. Effect supplier_id r o db db') same kept,
            λ accepted_now. absurd (ground arith),
          )
      | inr fresh ↦
          let (e1, mid, did, rest) =
            both_return (apply_check job supplier_id r (check_mappings supplier_id r db) db)
              (λ e. pure (e, source_key r ∷ seen)) db db' (e, seen') (rw fresh at h) in
          let same : e1 ≡ e = cc in
          let end : mid ≡ db' = cc in
          (
            subst (λ o. Effect supplier_id r o db db') same
                (subst (λ d. Effect supplier_id r e1 db d) end
                  (apply_check-Effect job supplier_id r (check_mappings supplier_id r db) e1 db mid
                    refl did)),
            λ accepted_now. fresh,
          )
    ]
