-- ===== src/Pagination.antt =====
-- src/common/pagination.ts: the query parameters of the list endpoints, their filters, the escaping of
-- search terms, and the description of a page. Numbers are exact, as JavaScript's are below 2^53.
pub mod Queries
pub mod Pages
pub mod Like
use Prim.Native.Char.{Char, code}
use Prim.Native.String
use package.text.Mathlib.Text.{starts_with}
use ceoma_api.Prelude.{
  ℕ, zero, suc, ◌+◌, ◌-◌, ◌*◌, ◌/◌, Bool, true, false, not, ◌&&◌, ◌||◌, Option, none, some, List,
  [], ◌∷◌, any, String, ltb, leb, ◌==◌, str_eq, if◌then◌else◌, or_default,
}
use ceoma_api.Errors.{Message, text, about, api_error, Result, ok, err, ◌>>=◌, ◌>>◌, guard}
use ceoma_api.Texts.{trim, same_lower, slice_from}

pub data SortOrder : Type 0 where
  asc desc : SortOrder

-- A value of `rawQuery`: a text, an array, whose elements are texts or not, or an object.
pub data QueryValue : Type 0 where
  one : String → QueryValue
  many : List (Option String) → QueryValue
  object : QueryValue

-- The parsed query of a request: each key once
abbrev pub RawQuery : Type 0
RawQuery = List (String × QueryValue)

-- `Record<string, string>`
abbrev pub Filters : Type 0
Filters = List (String × String)

-- `ListQueryParams`
pub record ListQuery : Type 0 where
  pub page : ℕ
  pub page_size : ℕ
  pub offset : ℕ
  pub sort_by : String
  pub sort_order : SortOrder
  pub search : Option String
  pub filters : Filters

-- `ListQueryOptions`
pub record ListOptions : Type 0 where
  pub allowed_sort_by : List String
  pub default_sort_by : String
  pub default_sort_order : Option SortOrder
  pub max_page_size : Option ℕ

-- A property of an object
unfoldable pub property : {V : Type 0} → String → List (String × V) → Option V
property key [] = none
property key ((k, v) ∷ rest) = if str_eq k key then some v else property key rest

-- `pickFirst`, of a property that may be missing
unfoldable pub pick_first : Option QueryValue → Option String
pick_first (some (one t)) = some t
pick_first (some (many (some t ∷ _))) = some t
pick_first _ = none

-- `pickFirst(value)?.trim()`, where the empty text counts as missing
unfoldable pub trimmed : Option String → Option String
unfolding trim
trimmed none = none
trimmed (some t) = let s = trim t in if str_eq s "" then none else some s

-- `allowedSortBy.join(", ")`
unfoldable pub join : List String → String
join [] = ""
join (t ∷ []) = t
join (t ∷ rest) = String.◌++◌ t (String.◌++◌ ", " (join rest))

abbrev pub order_of : String → Option SortOrder
order_of t =
    if same_lower t "asc"
    then some SortOrder.asc
    else if same_lower t "desc"
    then some SortOrder.desc
    else none

-- The order from the query, or by default, or `desc`
unfoldable pub parse_sort_order : Option String → ListOptions → Result SortOrder
parse_sort_order none options = ok (or_default options.default_sort_order SortOrder.desc)
parse_sort_order (some t) options = elim (order_of t) [
  | none ↦ err (api_error 400 (text "sort_order must be 'asc' or 'desc'"))
  | some order ↦ ok order
]

-- The loop over `Object.entries(rawQuery)`
unfoldable pub collect_filters : RawQuery → Filters
unfolding pick_first trimmed slice_from
collect_filters [] = []
collect_filters ((key, value) ∷ rest) =
    let later = collect_filters rest in
    if not (starts_with key "filter_") then later else elim (trimmed (pick_first (some value))) [
      | none ↦ later
      | some t ↦ (slice_from 7 key, t) ∷ later
    ]

-- The object that `parseListQuery` returns
unfoldable pub list_query_of :
    RawQuery → (page page_size : ℕ) → (sort_by : String) → SortOrder → ListQuery
unfolding property pick_first trimmed collect_filters
list_query_of raw page page_size sort_by sort_order = record {
  page = page;
  page_size = page_size;
  offset = (page - 1) * page_size;
  sort_by = sort_by;
  sort_order = sort_order;
  search = trimmed (pick_first (property "search" raw));
  filters = collect_filters raw;
}

-- `number` is `Number(text)` where that is a whole number that is not negative, else `none`.
module _ (number : String → Option ℕ) where
  -- `Number.isInteger(parsed) && parsed > 0`, else 400
  unfoldable pub positive_int : String → Message → Result ℕ
  positive_int t refusal = elim (number t) [
    | none ↦ err (api_error 400 refusal)
    | some n ↦ if n == 0 then err (api_error 400 refusal) else ok n
  ]

  -- `parsePositiveInt`
  unfoldable pub parse_positive_int : Option String → String → ℕ → Result ℕ
  unfolding positive_int
  parse_positive_int none field fallback = ok fallback
  parse_positive_int (some t) field fallback =
      positive_int t (text (String.◌++◌ field " must be a positive integer"))

  unfoldable pub parse_list_query : RawQuery → ListOptions → Result ListQuery
  unfolding join parse_sort_order parse_positive_int list_query_of
  parse_list_query raw options = do
    let max_page_size = or_default options.max_page_size 100
    page ← parse_positive_int (pick_first (property "page" raw)) "page" 1
    page_size ← parse_positive_int (pick_first (property "page_size" raw)) "page_size" 20
    guard (leb page_size max_page_size)
        (api_error 400 (about "page_size must be <= " max_page_size))
    let sort_by = or_default (pick_first (property "sort_by" raw)) options.default_sort_by
    guard (any (str_eq sort_by) options.allowed_sort_by) (
        api_error 400
          (text (String.◌++◌ "sort_by must be one of: " (join options.allowed_sort_by))))
    sort_order ← parse_sort_order (pick_first (property "sort_order" raw)) options
    ok (list_query_of raw page page_size sort_by sort_order)

  -- `toIntFilter`
  unfoldable pub to_int_filter : Filters → String → Result (Option ℕ)
  unfolding property positive_int
  to_int_filter filters key = elim (property key filters) [
    | none ↦ ok none
    | some t ↦ do
      n ←
          positive_int t
            (text (String.◌++◌ "filter_" (String.◌++◌ key " must be a positive integer")))
      ok (some n)
  ]

-- `/^[0-9a-f-]$/i`
abbrev is_uuid_char : Char → Bool
is_uuid_char c =
    let n = code c in
    (leb b'0' n && leb n b'9')
    || (leb b'a' n && leb n b'f')
    || (leb b'A' n && leb n b'F')
    || n == b'-'

-- Whether all characters of a text are such, and it has that many.
unfoldable pub is_uuid_text : ℕ → String → Bool
is_uuid_text zero String.[] = true
is_uuid_text (suc n) (String.◌∷◌ c t) = is_uuid_char c && is_uuid_text n t
is_uuid_text _ _ = false

-- `toUuidFilter`
unfoldable pub to_uuid_filter : Filters → String → Result (Option String)
unfolding property trim is_uuid_text
to_uuid_filter filters key = elim (property key filters) [
  | none ↦ ok none
  | some value ↦
      let normalized = trim value in
      if is_uuid_text 36 normalized
      then ok (some normalized)
      else err
          (api_error 400 (text (String.◌++◌ "filter_" (String.◌++◌ key " must be a valid UUID"))))
]

-- `toBooleanFilter`
unfoldable pub to_boolean_filter : Filters → String → Result (Option Bool)
unfolding property
to_boolean_filter filters key = elim (property key filters) [
  | none ↦ ok none
  | some value ↦
      if same_lower value "true"
      then ok (some true)
      else if same_lower value "false"
      then ok (some false)
      else err (
          api_error 400
            (text (String.◌++◌ "filter_" (String.◌++◌ key " must be 'true' or 'false'"))))
]

-- `/[\\%_]/`
abbrev pub is_special : Char → Bool
is_special c = code c == 92 || code c == b'%' || code c == b'_'

-- `escapeLikeQuery`
unfoldable pub escape_like_query : String → String
escape_like_query String.[] = ""
escape_like_query (String.◌∷◌ c t) =
    if is_special c
    then String.◌∷◌ "\\" (String.◌∷◌ c (escape_like_query t))
    else String.◌∷◌ c (escape_like_query t)

-- What `buildPaginatedResult` returns; `rows` is `data`, and the query's own fields are in `query`.
pub record Page (R : Type 0) : Type 0 where
  pub rows : List R
  pub query : ListQuery
  pub total : ℕ
  pub total_pages : ℕ
  pub has_next : Bool
  pub has_prev : Bool

-- `Math.ceil(total / pageSize)`
abbrev pub div_ceil : ℕ → ℕ → ℕ
div_ceil total size = (total + size - 1) / size

-- `Math.max(1, n)`
abbrev pub at_least_one : ℕ → ℕ
at_least_one n = if n == 0 then 1 else n

-- `buildPaginatedResult`
unfoldable pub build_paginated_result : {R : Type 0} → List R → ℕ → ListQuery → Page R
build_paginated_result rows total query =
    let total_pages = at_least_one (div_ceil total query.page_size) in
    record {
      rows = rows;
      query = query;
      total = total;
      total_pages = total_pages;
      has_next = ltb query.page total_pages;
      has_prev = ltb 1 query.page;
    }
