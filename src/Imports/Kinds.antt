-- ===== src/Imports/Kinds.antt =====
-- The five kinds of master data that can be imported: the configurations at the top of
-- src/modules/master/master.service.ts. A cell of the trading store is written as PostgreSQL keeps it.
use ceoma_api.Prelude.{ℤ, pos, Bool, true, false, Option, none, some, List, [], ◌∷◌, String, refl}
use ceoma_api.Store.{Supplier, SupplierType, Reference, supplier_row, reference_row}
use ceoma_api.Quantity.{numeric_3}
use ceoma_api.Imports.{Cell, Column, Parse, ImportConfig}
use ceoma_api.Imports.Keys.{KeepsKeys}

-- The inputs of src/modules/master/master.validation.ts
pub record SupplierInput : Type 0 where
  pub name : String
  pub supplier_type : SupplierType
  pub country : Option String

pub record BuyerInput : Type 0 where
  pub name : String
  pub country : Option String

pub record WarehouseInput : Type 0 where
  pub name : String
  pub location : Option String

pub record GradeInput : Type 0 where
  pub code : String
  pub description : Option String

pub record BagTypeInput : Type 0 where
  pub name : String
  pub weight_kg : ℤ

-- A column whose field has the name of its header
abbrev column : String → (required is_number : Bool) → (example : String) → Column
column name required is_number example = record {
  header = name;
  field = name;
  required = required;
  is_number = is_number;
  example = some example;
}

-- The schemas are those of zod.
module _ {Number : Type 0} where
  unfoldable pub supplier_import :
      (List (String × Cell Number) → Parse SupplierInput)
      → ImportConfig Number SupplierInput Supplier
  supplier_import schema = record {
    entity_label = "Supplier";
    columns =
        column "name" true false "Kilimanjaro Farmers Cooperative"
        ∷ column "type" false false "mill"
        ∷ column "country" false false "Kenya"
        ∷ [];
    schema = schema;
    key_text = λ input. input.name;
    existing_key = λ r. r.name;
    to_row = λ input id organization_id. record {
      id = id;
      organization_id = organization_id;
      name = input.name;
      supplier_type = input.supplier_type;
      country = input.country;
    };
  }

  pub supplier_import-KeepsKeys :
      (schema : List (String × Cell Number) → Parse SupplierInput)
      → KeepsKeys (supplier_import schema)
  unfolding supplier_import
  supplier_import-KeepsKeys schema = record {
    same_key = λ input id org. refl;
    same_org = λ input id org. refl;
  }

  unfoldable pub buyer_import :
      (List (String × Cell Number) → Parse BuyerInput) → ImportConfig Number BuyerInput Reference
  buyer_import schema = record {
    entity_label = "Buyer";
    columns =
        column "name" true false "Blue Bottle Coffee"
        ∷ column "country" false false "United States"
        ∷ [];
    schema = schema;
    key_text = λ input. input.name;
    existing_key = λ r. r.name;
    to_row = λ input id organization_id. record {
      id = id;
      organization_id = organization_id;
      name = input.name;
      detail = input.country;
      weight_kg = pos 0;
    };
  }

  pub buyer_import-KeepsKeys :
      (schema : List (String × Cell Number) → Parse BuyerInput) → KeepsKeys (buyer_import schema)
  unfolding buyer_import
  buyer_import-KeepsKeys schema = record {
    same_key = λ input id org. refl;
    same_org = λ input id org. refl;
  }

  unfoldable pub warehouse_import :
      (List (String × Cell Number) → Parse WarehouseInput)
      → ImportConfig Number WarehouseInput Reference
  warehouse_import schema = record {
    entity_label = "Warehouse";
    columns =
        column "name" true false "Mombasa Central Warehouse"
        ∷ column "location" false false "Mombasa"
        ∷ [];
    schema = schema;
    key_text = λ input. input.name;
    existing_key = λ r. r.name;
    to_row = λ input id organization_id. record {
      id = id;
      organization_id = organization_id;
      name = input.name;
      detail = input.location;
      weight_kg = pos 0;
    };
  }

  pub warehouse_import-KeepsKeys :
      (schema : List (String × Cell Number) → Parse WarehouseInput)
      → KeepsKeys (warehouse_import schema)
  unfolding warehouse_import
  warehouse_import-KeepsKeys schema = record {
    same_key = λ input id org. refl;
    same_org = λ input id org. refl;
  }

  unfoldable pub grade_import :
      (List (String × Cell Number) → Parse GradeInput) → ImportConfig Number GradeInput Reference
  grade_import schema = record {
    entity_label = "Grade";
    columns =
        column "code" true false "AA"
        ∷ column "description" false false "Large bean, top grade"
        ∷ [];
    schema = schema;
    key_text = λ input. input.code;
    existing_key = λ r. r.name;
    to_row = λ input id organization_id. record {
      id = id;
      organization_id = organization_id;
      name = input.code;
      detail = input.description;
      weight_kg = pos 0;
    };
  }

  pub grade_import-KeepsKeys :
      (schema : List (String × Cell Number) → Parse GradeInput) → KeepsKeys (grade_import schema)
  unfolding grade_import
  grade_import-KeepsKeys schema = record {
    same_key = λ input id org. refl;
    same_org = λ input id org. refl;
  }

  unfoldable pub bag_type_import :
      (List (String × Cell Number) → Parse BagTypeInput)
      → ImportConfig Number BagTypeInput Reference
  bag_type_import schema = record {
    entity_label = "Bag type";
    columns = column "name" true false "60kg Jute Bag" ∷ column "weight_kg" true true "60" ∷ [];
    schema = schema;
    key_text = λ input. input.name;
    existing_key = λ r. r.name;
    to_row = λ input id organization_id. record {
      id = id;
      organization_id = organization_id;
      name = input.name;
      detail = none;
      weight_kg = numeric_3 input.weight_kg;
    };
  }

  pub bag_type_import-KeepsKeys :
      (schema : List (String × Cell Number) → Parse BagTypeInput)
      → KeepsKeys (bag_type_import schema)
  unfolding bag_type_import
  bag_type_import-KeepsKeys schema = record {
    same_key = λ input id org. refl;
    same_org = λ input id org. refl;
  }
