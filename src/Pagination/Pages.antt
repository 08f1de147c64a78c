-- ===== src/Pagination/Pages.antt =====
-- A listing behind its pages.
use ceoma_api.Prelude.{
  ◌≡◌, refl, ap, ◌∙◌, sym, ℕ, zero, suc, ◌+◌, ◌-◌, ◌*◌, ◌≤◌, ◌<◌, Bool, true, ◌↔◌, List, [], ◌∷◌,
  ◌++◌, length, String, arith, Bool-cases, inl, inr, ◌==◌,
}
use mathlib.Core.List.{append_assoc, append-nil}
use ceoma_api.Sql.{select, count, offset, limit}
use ceoma_api.Pagination.{
  ListQuery, SortOrder, Page, build_paginated_result, div_ceil, at_least_one,
}

module _ {R : Type 0} where
  length-select : (p : R → Bool) (rs : List R) → length (select p rs) ≡ count p rs
  unfolding select count
  length-select p [] = refl
  length-select p (r ∷ rs) = ground (arith, length-select p rs)

  -- The rows of so many pages in turn, from an offset on.
  abbrev pub chunks : (number size start : ℕ) → List R → List R
  chunks zero size start rs = []
  chunks (suc n) size start rs = limit size (offset start rs) ++ chunks n size (start + size) rs

  offset_nil : (n : ℕ) → offset {R = R} n [] ≡ []
  unfolding offset
  offset_nil zero = refl
  offset_nil (suc n) = refl

  offset-add : (m n : ℕ) (rs : List R) → offset (m + n) rs ≡ offset n (offset m rs)
  unfolding offset
  offset-add zero n rs = ap (λ k. offset k rs) (omega arith)
  offset-add (suc m) n [] = offset_nil (suc m + n) ∙ sym (offset_nil n)
  offset-add (suc m) n (r ∷ rs) =
      let shift : suc m + n ≡ suc (m + n) = omega arith in rw shift (offset-add m n rs)

  limit-offset : (n : ℕ) (rs : List R) → limit n rs ++ offset n rs ≡ rs
  unfolding limit offset
  limit-offset zero rs = refl
  limit-offset (suc n) [] = refl
  limit-offset (suc n) (r ∷ rs) = ap (λ l. r ∷ l) (limit-offset n rs)

  -- So many pages, and what they leave.
  chunks-offset :
      (k size start : ℕ) (rs : List R)
      → chunks k size start rs ++ offset (start + k * size) rs ≡ offset start rs
  chunks-offset zero size start rs = ap (λ n. offset n rs) (omega arith)
  chunks-offset (suc k) size start rs =
      let ends : start + suc k * size ≡ start + size + k * size = grind arith in
      append_assoc (limit size (offset start rs)) (chunks k size (start + size) rs) _
      ∙ ap (λ l. limit size (offset start rs) ++ l)
          (rw ends (chunks-offset k size (start + size) rs) ∙ offset-add start size rs)
      ∙ limit-offset size (offset start rs)

  offset_all : (n : ℕ) (rs : List R) → length rs ≤ n → offset n rs ≡ []
  unfolding offset
  offset_all n [] h = offset_nil n
  offset_all zero (r ∷ rs) h = absurd (omega arith)
  offset_all (suc n) (r ∷ rs) h = offset_all n rs (omega arith)

div_ceil-enough : (total size : ℕ) → 1 ≤ size → total ≤ div_ceil total size * size
div_ceil-enough total size h = grind arith

at_least_one-enough :
    (total size : ℕ) → 1 ≤ size → total ≤ at_least_one (div_ceil total size) * size
at_least_one-enough total size h = elim (Bool-cases (div_ceil total size == 0)) [
  | inl none_needed ↦
      let e : div_ceil total size ≡ 0 = ground arith in
      let enough = div_ceil-enough total size h in
      let empty : total ≤ 0 * size = rw e at enough in grind arith
  | inr some_needed ↦ rw some_needed (div_ceil-enough total size h)
]

div_ceil-needed : (total size p : ℕ) → 1 ≤ size → 1 ≤ p → p * size < total ↔ p < div_ceil total size
div_ceil-needed total size p h k = (λ a. grind arith, λ a. grind arith)

-- The query with these parameters and another page.
abbrev pub with_page : ℕ → ListQuery → ListQuery
with_page page q = record q { page = page; offset = (page - 1) * q.page_size }

-- `ORDER BY` is a function of its column, its direction and the rows: two queries with the same rows
-- give the same order, which holds where the column, or the index used, leaves no ties.
module _ {R : Type 0} (order : String → SortOrder → List R → List R) (fits : R → Bool)
    (rows : List R) where
  -- The two statements of a list method, of which `fits` is the `WHERE` clause
  unfoldable pub list_rows : ListQuery → Page R
  unfolding select count limit offset build_paginated_result
  list_rows q =
      let ordered = order q.sort_by q.sort_order (select fits rows) in
      build_paginated_result (limit q.page_size (offset q.offset ordered)) (count fits rows) q

  -- What so many pages show from one on, one after the other.
  unfoldable pub walk : ListQuery → (number page : ℕ) → List R
  unfolding list_rows
  walk q zero page = []
  walk q (suc n) page = (list_rows (with_page page q)).rows ++ walk q n (suc page)

  walk-chunks :
      (q : ListQuery) (n page : ℕ)
      → walk q n (suc page)
        ≡ chunks n q.page_size
            (page * q.page_size)
            (order q.sort_by q.sort_order (select fits rows))
  unfolding walk list_rows build_paginated_result
  walk-chunks q zero page = refl
  walk-chunks q (suc n) page =
      let shift : (suc page - 1) * q.page_size ≡ page * q.page_size =
        ap (λ k. k * q.page_size) (omega arith) in
      let next : suc page * q.page_size ≡ page * q.page_size + q.page_size = grind arith in
      rw shift (
        ap
          (λ l.
            limit q.page_size
              (offset (page * q.page_size) (order q.sort_by q.sort_order (select fits rows)))
            ++ l)
          (walk-chunks q n (suc page)
            ∙ ap (λ k. chunks n q.page_size k (order q.sort_by q.sort_order (select fits rows)))
                next))

  -- A listing whose order is a function of the rows and keeps their number shows, on its pages
  -- from the first to the last that it counts, one after the other, each row that fits exactly
  -- as the ordered listing has them, for any positive page size.
  pub walk-all :
      (q : ListQuery)
      → 1 ≤ q.page_size
      → length (order q.sort_by q.sort_order (select fits rows)) ≡ length (select fits rows)
      → walk q (list_rows q).total_pages 1 ≡ order q.sort_by q.sort_order (select fits rows)
  unfolding list_rows build_paginated_result
  walk-all q some_rows same_length =
      let pages = at_least_one (div_ceil (count fits rows) q.page_size) in
      let ordered = order q.sort_by q.sort_order (select fits rows) in
      let start : 0 * q.page_size ≡ 0 = grind arith in
      let enough : count fits rows ≤ pages * q.page_size =
        at_least_one-enough (count fits rows) q.page_size some_rows in
      let all : length ordered ≤ 0 + pages * q.page_size =
        omega (arith, enough, same_length, length-select fits rows) in
      walk-chunks q pages 0
      ∙ ap (λ k. chunks pages q.page_size k ordered) start
      ∙ sym (append-nil (chunks pages q.page_size 0 ordered))
      ∙ ap (λ l. chunks pages q.page_size 0 ordered ++ l)
          (sym (offset_all (0 + pages * q.page_size) ordered all))
      ∙ chunks-offset pages q.page_size 0 ordered

  pub has_next_iff :
      (q : ListQuery)
      → 1 ≤ q.page_size
      → 1 ≤ q.page
      → ((list_rows q).has_next ≡ true) ↔ (q.page * q.page_size < count fits rows)
  unfolding list_rows build_paginated_result
  has_next_iff q some_rows first_page =
      let needed = div_ceil-needed (count fits rows) q.page_size q.page some_rows first_page in
      (λ h. needed.1 (ground arith), λ h. let below = needed.0 h in ground arith)
