-- ===== src/Tests/Pages.antt =====
-- Queries, pages and search terms at concrete inputs.
use Prim.Native.String
use ceoma_api.Prelude.{◌≡◌, refl, ℕ, Bool, none, some, Option, List, [], ◌∷◌, String, ltb, arith}
use ceoma_api.Sql.{select}
use ceoma_api.Texts.{same_letter}
use ceoma_api.Pagination.{
  RawQuery, QueryValue, ListQuery, ListOptions, SortOrder, escape_like_query,
}
use ceoma_api.Pagination.Pages.{list_rows, walk, walk-all}
use ceoma_api.Pagination.Like.{ilike, occurs, ilike-escape}

abbrev raw : RawQuery
raw =
    ("page", QueryValue.one "2")
    ∷ ("sort_by", QueryValue.one "name")
    ∷ ("filter_country", QueryValue.one " Kenya ")
    ∷ []

abbrev options : ListOptions
options = record {
  allowed_sort_by = "created_at" ∷ "name" ∷ [];
  default_sort_by = "created_at";
  default_sort_order = none;
  max_page_size = none;
}

abbrev two : String → Option ℕ
two _ = some 2

abbrev pairs : ListQuery
pairs = record {
  page = 1;
  page_size = 2;
  offset = 0;
  sort_by = "id";
  sort_order = SortOrder.asc;
  search = none;
  filters = [];
}

abbrev as_is : String → SortOrder → List ℕ → List ℕ
as_is _ _ rows = rows

abbrev small : ℕ → Bool
small n = ltb n 50

abbrev numbers : List ℕ
numbers = 3 ∷ 60 ∷ 4 ∷ 5 ∷ []

walk-all_example :
    walk as_is small numbers pairs (list_rows as_is small numbers pairs).total_pages 1
    ≡ select small numbers
walk-all_example = walk-all as_is small numbers pairs (omega arith) refl

ilike-escape_example :
    ilike same_letter "50% off" (String.◌++◌ "%" (String.◌++◌ (escape_like_query "0%") "%"))
    ≡ occurs same_letter "0%" "50% off"
ilike-escape_example = ilike-escape same_letter "0%" "50% off"
