-- ===== src/Services/Laws/Revisions.antt =====
-- Mappings are revised: the version counts the changes, and a repeated request changes nothing.
use supply_chain_integration.Base.{
  suc, ◌≡◌, refl, Bool, true, false, Bool-cases, inl, inr, same_bool, arith,
}
use supply_chain_integration.Base.Int.{ℤ, eq_ℤ}
use supply_chain_integration.Domain.Enums.{same_unit-eq}
use supply_chain_integration.Store.Rows.Catalog.{SupplierProductMapping}
use supply_chain_integration.Services.Mappings.{
  ProductMappingUpsert, product_mapping_changed, revise_product_mapping,
}

-- The mapping has the product, the unit, the factor and the activity of the request.
abbrev pub AgreesWith : ProductMappingUpsert → SupplierProductMapping → Type 0
AgreesWith request m =
    (m.product_id ≡ request.product_id)
    × (m.source_unit ≡ request.source_unit)
    × (m.units_per_source_unit ≡ request.units_per_source_unit)
    × (m.active ≡ request.active)

eq_ℤ-eq : (a b : ℤ) → eq_ℤ a b ≡ true → a ≡ b
eq_ℤ-eq a b h = ground arith

same_bool-eq : (a b : Bool) → same_bool a b ≡ true → a ≡ b
same_bool-eq a b h = ground arith

unchanged-AgreesWith :
    (request : ProductMappingUpsert) (m : SupplierProductMapping)
    → product_mapping_changed request m ≡ false
    → AgreesWith request m
unchanged-AgreesWith request m h = (
  ground arith,
  same_unit-eq m.source_unit request.source_unit (ground arith),
  eq_ℤ-eq m.units_per_source_unit request.units_per_source_unit (ground arith),
  same_bool-eq m.active request.active (ground arith),
)

AgreesWith-unchanged :
    (request : ProductMappingUpsert) (m : SupplierProductMapping)
    → AgreesWith request m
    → product_mapping_changed request m ≡ false
AgreesWith-unchanged request m (p, u, f, a) = rw (p, u, f, a) (ground arith)

-- After a request the mapping has the product, the unit, the factor and the activity of the request.
-- A mapping that had them before is left as it is, and any other gets the next version; so the same
-- request once more changes nothing.
pub revise_product_mapping_lem :
    (request : ProductMappingUpsert) (m : SupplierProductMapping)
    → AgreesWith request (revise_product_mapping request m)
      × (AgreesWith request m → revise_product_mapping request m ≡ m)
      × (¬ AgreesWith request m → (revise_product_mapping request m).version ≡ suc m.version)
      × (revise_product_mapping request (revise_product_mapping request m)
          ≡ revise_product_mapping request m)
unfolding revise_product_mapping
revise_product_mapping_lem request m = (
  elim (Bool-cases (product_mapping_changed request m)) [
    | inl changed ↦ rw changed (refl, refl, refl, refl)
    | inr same ↦ rw same (unchanged-AgreesWith request m same)
  ],
  λ agrees. rw (AgreesWith-unchanged request m agrees) refl,
  λ differs. elim (Bool-cases (product_mapping_changed request m)) [
    | inl changed ↦ rw changed refl
    | inr same ↦ absurd (differs (unchanged-AgreesWith request m same))
  ],
  ground arith,
)
