-- ===== src/Pagination/Queries.antt =====
-- What a parsed list query is held to.
use ceoma_api.Prelude.{
  ◌≡◌, refl, ap, ◌⊎◌, inl, inr, ℕ, zero, suc, ◌-◌, ◌*◌, ◌≤◌, Bool, true, false, Option, none, some,
  String, any, All, ◌≢◌, eq_iff, [], ◌∷◌, ◌∙◌, leb, ◌==◌, str_eq, if◌then◌else◌, or_default, arith,
  Bool-cases, Option-cases,
}
use package.text.Mathlib.Text.{starts_with}
use ceoma_api.Texts.{trim}
use ceoma_api.Errors.{Failure, Message, Result, ok, err, ◌>>=◌, guard, error_status, Result-cases}
use ceoma_api.Pagination.{
  RawQuery, ListQuery, ListOptions, positive_int, parse_positive_int, parse_list_query,
  parse_sort_order, order_of, list_query_of, trimmed, collect_filters, pick_first, property,
  SortOrder,
}

-- What a result says on either side.
Outcome : {A : Type 0} → (A → Type 0) → Result A → Type 0
Outcome P (ok a) = P a
Outcome P (err e) = error_status e ≡ 400

ok-Outcome : {A : Type 0} (P : A → Type 0) (a : A) → P a → Outcome P (ok a)
unfolding Outcome
ok-Outcome P a h = h

module _ {A B : Type 0} (P : A → Type 0) (Q : B → Type 0) where
  Outcome->>= :
      (r : Result A) (f : A → Result B)
      → Outcome P r
      → ((a : A) → P a → Outcome Q (f a))
      → Outcome Q (r >>= f)
  unfolding Outcome
  Outcome->>= (ok a) f h k = k a h
  Outcome->>= (err e) f h k = h

guard-Outcome :
    (b : Bool) (m : Message) → Outcome (λ _. b ≡ true) (guard b (Failure.api_error 400 m))
unfolding Outcome error_status
guard-Outcome true m = refl
guard-Outcome false m = refl

trimmed-ne-empty : (o : Option String) → trimmed o ≢ some ""
unfolding trimmed
trimmed-ne-empty none h = cc
trimmed-ne-empty (some t) h = elim (Bool-cases (str_eq (trim t) "")) [
  | inl empty ↦ let e : ◌≡◌ {A = Option String} none (some "") = rw empty at h in cc
  | inr more ↦
      let e : some (trim t) ≡ some "" = rw more at h in
      let same : trim t ≡ "" = cc in
      let equal : str_eq (trim t) "" ≡ true = (eq_iff (trim t) "").1 same in cc
]

filters_some : (raw : RawQuery) → All (λ f. f.1 ≢ "") (collect_filters raw)
unfolding collect_filters
filters_some [] = tt
filters_some ((key, value) ∷ rest) = elim (Bool-cases (starts_with key "filter_")) [
  | inr other ↦ rw other (filters_some rest)
  | inl filter ↦ elim (Option-cases (trimmed (pick_first (some value)))) [
    | inl missing ↦ rw filter (rw (missing, collect_filters) (filters_some rest))
    | inr (t, there) ↦ rw filter (
        rw there
          (λ h. trimmed-ne-empty (pick_first (some value)) (there ∙ ap some h), filters_some rest))
  ]
]

-- The bounds on what the list endpoints work with
pub record IsBounded (options : ListOptions) (q : ListQuery) : Type 0 where
  pub first_page : 1 ≤ q.page
  pub some_rows : 1 ≤ q.page_size
  pub few_rows : q.page_size ≤ or_default options.max_page_size 100
  pub offset : q.offset ≡ (q.page - 1) * q.page_size
  pub sortable : any (str_eq q.sort_by) options.allowed_sort_by ≡ true
  pub searched : q.search ≢ some ""
  pub filtered : All (λ f. f.1 ≢ "") q.filters

list_query_of-IsBounded :
    (raw : RawQuery) (options : ListOptions) (page page_size : ℕ) (sort_by : String)
    (order : SortOrder)
    → 1 ≤ page
    → 1 ≤ page_size
    → leb page_size (or_default options.max_page_size 100) ≡ true
    → any (str_eq sort_by) options.allowed_sort_by ≡ true
    → IsBounded options (list_query_of raw page page_size sort_by order)
unfolding list_query_of
list_query_of-IsBounded raw options page page_size sort_by order positive some_rows few sortable =
    record {
      first_page = positive;
      some_rows = some_rows;
      few_rows = ground arith;
      offset = refl;
      sortable = sortable;
      searched = trimmed-ne-empty (pick_first (property "search" raw));
      filtered = filters_some raw;
    }

module _ (number : String → Option ℕ) where
  positive_int-Outcome : (t : String) (m : Message) → Outcome (λ n. 1 ≤ n) (positive_int number t m)
  unfolding Outcome positive_int error_status
  positive_int-Outcome t m = go (number t)
    where
      go :
          (o : Option ℕ)
          → Outcome
              (λ n. 1 ≤ n)
              (elim o [
                | none ↦ err (Failure.api_error 400 m)
                | some n ↦ if n == 0 then err (Failure.api_error 400 m) else ok n
              ])
      go none = refl
      go (some zero) = refl
      go (some (suc n)) = ground arith

  parse_positive_int-Outcome :
      (o : Option String) (field : String) (fallback : ℕ)
      → 1 ≤ fallback
      → Outcome (λ n. 1 ≤ n) (parse_positive_int number o field fallback)
  unfolding Outcome parse_positive_int
  parse_positive_int-Outcome none field fallback h = h
  parse_positive_int-Outcome (some t) field fallback h = positive_int-Outcome t _

  parse_sort_order-Outcome :
      (o : Option String) (options : ListOptions)
      → Outcome (λ _. Unit {0}) (parse_sort_order o options)
  unfolding Outcome parse_sort_order error_status
  parse_sort_order-Outcome none options = tt
  parse_sort_order-Outcome (some t) options = go (order_of t)
    where
      go :
          (o : Option SortOrder)
          → Outcome
              (λ _. Unit {0})
              (elim o [
                | none ↦
                    err (Failure.api_error 400 (Message.text "sort_order must be 'asc' or 'desc'"))
                | some order ↦ ok order
              ])
      go none = refl
      go (some order) = tt

  parse_list_query-Outcome :
      (raw : RawQuery) (options : ListOptions)
      → Outcome (IsBounded options) (parse_list_query number raw options)
  unfolding parse_list_query
  parse_list_query-Outcome raw options =
      let sort_by = or_default (pick_first (property "sort_by" raw)) options.default_sort_by in
      let then_bounded = λ (A : Type 0) (P : A → Type 0). Outcome->>= P (IsBounded options) in
      then_bounded ℕ (λ n. 1 ≤ n) _ _
        (parse_positive_int-Outcome (pick_first (property "page" raw)) "page" 1 (omega arith))
        (λ page positive.
          then_bounded ℕ (λ n. 1 ≤ n) _ _
            (parse_positive_int-Outcome (pick_first (property "page_size" raw)) "page_size" 20
              (omega arith))
            (λ page_size some_rows. then_bounded (Unit {0}) _ _ _ (guard-Outcome _ _) (λ _ few.
              then_bounded (Unit {0}) _ _ _ (guard-Outcome _ _) (λ _ sortable.
                then_bounded SortOrder (λ _. Unit {0}) _
                  (λ order. ok (list_query_of raw page page_size sort_by order))
                  (parse_sort_order-Outcome (pick_first (property "sort_order" raw)) options)
                  (λ order _.
                    ok-Outcome (IsBounded options) (list_query_of raw page page_size sort_by order)
                      (list_query_of-IsBounded raw options page page_size sort_by order positive
                        some_rows few sortable))))))

  -- A list query is refused with 400, or is parsed into one with a page and a page size of at
  -- least one, a page size within the maximum, the offset of that page, an allowed column to
  -- sort by, and no empty search term or filter.
  pub parse_list_query_lem :
      (raw : RawQuery) (options : ListOptions)
      → ((e : Failure) × (parse_list_query number raw options ≡ err e) × (error_status e ≡ 400))
        ⊎ ((q : ListQuery) × (parse_list_query number raw options ≡ ok q) × IsBounded options q)
  unfolding Outcome
  parse_list_query_lem raw options = elim (Result-cases (parse_list_query number raw options)) [
    | inl (e, failed) ↦ inl (e, failed, rw failed at (parse_list_query-Outcome raw options))
    | inr (q, parsed) ↦ inr (q, parsed, rw parsed at (parse_list_query-Outcome raw options))
  ]
