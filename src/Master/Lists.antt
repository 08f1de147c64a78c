-- ===== src/Master/Lists.antt =====
-- The listings of master data (src/modules/master/master.service.ts). `same` is equality of
-- characters but for their case, and `order` is what `ORDER BY` makes of the rows.
use Prim.Native.Char.{Char}
use Prim.Native.String
use ceoma_api.Prelude.{
  Bool, true, false, ◌&&◌, ◌||◌, Option, none, some, List, [], ◌∷◌, String, ◌==◌, str_eq,
  if◌then◌else◌,
}
use ceoma_api.Errors.{Result, ok, err, pg_error}
use ceoma_api.Store.{Store, Supplier, SupplierType, Reference, AuthContext}
use ceoma_api.Pagination.{ListQuery, SortOrder, Page, escape_like_query}
use ceoma_api.Pagination.Like.{ilike}
use ceoma_api.Pagination.Pages.{list_rows}

-- `listQuery.filters.name`, if it is there and not empty
unfoldable pub filter_of : String → List (String × String) → Option String
filter_of name [] = none
filter_of name ((n, v) ∷ fs) =
    if str_eq n name then (if str_eq v "" then none else some v) else filter_of name fs

-- `column = $n`, of a column that can be null
abbrev pub equals : Option String → Option String → Bool
equals wanted none = elim wanted [ none ↦ true | some v ↦ false ]
equals wanted (some t) = elim wanted [ none ↦ true | some v ↦ str_eq t v ]

-- A text that PostgreSQL takes for a value of the type of the column
abbrev pub supplier_type_of : String → Option SupplierType
supplier_type_of t =
    if str_eq t "auction_agent"
    then some SupplierType.auction_agent
    else if str_eq t "mill"
    then some SupplierType.mill
    else if str_eq t "farmer"
    then some SupplierType.farmer
    else if str_eq t "other"
    then some SupplierType.other
    else none

abbrev pub same_type : SupplierType → SupplierType → Bool
same_type SupplierType.auction_agent SupplierType.auction_agent = true
same_type SupplierType.mill SupplierType.mill = true
same_type SupplierType.farmer SupplierType.farmer = true
same_type SupplierType.other SupplierType.other = true
same_type _ _ = false

abbrev pub has_type : Option SupplierType → Supplier → Bool
has_type none r = true
has_type (some t) r = same_type r.supplier_type t

module _ (same : Char → Char → Bool) where
  -- `column ILIKE '%' || search || '%' ESCAPE '\'`
  abbrev pub like : Option String → String → Bool
  like none text = true
  like (some term) text =
      ilike same text (String.◌++◌ "%" (String.◌++◌ (escape_like_query term) "%"))

  -- The same of a column that can be null
  abbrev pub like_null : Option String → Option String → Bool
  like_null term none = false
  like_null term (some t) = like term t

  unfoldable pub fits_supplier : ListQuery → Option SupplierType → AuthContext → Supplier → Bool
  unfolding filter_of
  fits_supplier q wanted actor r =
      r.organization_id == actor.organization_id
      && like q.search r.name
      && has_type wanted r
      && equals (filter_of "country" q.filters) r.country

  -- Buyers by their country, warehouses by their location
  unfoldable pub fits_detail : String → ListQuery → AuthContext → Reference → Bool
  unfolding filter_of
  fits_detail column q actor r =
      r.organization_id == actor.organization_id
      && like q.search r.name
      && equals (filter_of column q.filters) r.detail

  unfoldable pub fits_grade : ListQuery → AuthContext → Reference → Bool
  unfolding filter_of
  fits_grade q actor r =
      r.organization_id == actor.organization_id
      && (like q.search r.name || like_null q.search r.detail)
      && equals (filter_of "code" q.filters) (some r.name)

  unfoldable pub fits_bag_type : ListQuery → AuthContext → Reference → Bool
  fits_bag_type q actor r = r.organization_id == actor.organization_id && like q.search r.name

  -- A filter that names no type of suppliers is an error of the database.
  unfoldable pub list_suppliers :
      (order : String → SortOrder → List Supplier → List Supplier)
      → ListQuery
      → AuthContext
      → Store
      → Result (Page Supplier)
  unfolding fits_supplier
  list_suppliers order q actor s = elim (filter_of "type" q.filters) [
    | none ↦ ok (list_rows order (fits_supplier q none actor) s.suppliers q)
    | some t ↦ elim (supplier_type_of t) [
      | none ↦ err (pg_error "22P02")
      | some wanted ↦ ok (list_rows order (fits_supplier q (some wanted) actor) s.suppliers q)
    ]
  ]

  module _ (order : String → SortOrder → List Reference → List Reference) where
    unfoldable pub list_buyers : ListQuery → AuthContext → Store → Page Reference
    unfolding fits_detail
    list_buyers q actor s = list_rows order (fits_detail "country" q actor) s.buyers q

    unfoldable pub list_warehouses : ListQuery → AuthContext → Store → Page Reference
    unfolding fits_detail
    list_warehouses q actor s = list_rows order (fits_detail "location" q actor) s.warehouses q

    unfoldable pub list_grades : ListQuery → AuthContext → Store → Page Reference
    unfolding fits_grade
    list_grades q actor s = list_rows order (fits_grade q actor) s.grades q

    unfoldable pub list_bag_types : ListQuery → AuthContext → Store → Page Reference
    unfolding fits_bag_type
    list_bag_types q actor s = list_rows order (fits_bag_type q actor) s.bag_types q
