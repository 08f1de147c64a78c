-- ===== src/Imports/Accounts.antt =====
-- What an import reports of the rows of the file.
use ceoma_api.Prelude.{
  ◌≡◌, refl, ap, ◌∙◌, ℕ, suc, ◌+◌, List, [], ◌∷◌, ◌++◌, map, length, String, Option, arith,
}
use mathlib.Core.List.Perm
use mathlib.Core.List.{Perm, perm_middle}
use ceoma_api.Imports.{
  Cell, ImportConfig, Sorted, Queued, Verdict, sort_rows, map_row, judge, seen_after, place,
}

-- The rows of the file, of which the header is row 1
abbrev pub numbers_from {ℓ} : {A : Type ℓ} → ℕ → List A → List ℕ
numbers_from n [] = []
numbers_from n (_ ∷ rest) = n ∷ numbers_from (n + 1) rest

-- The numbers of all rows that are reported
abbrev pub reported : {Input : Type 0} → Sorted Input → List ℕ
reported s = map (λ q. q.row) s.queued ++ (map (λ e. e.0) s.skipped ++ map (λ e. e.0) s.errors)

abbrev pub sorted_count : {Input : Type 0} → Sorted Input → ℕ
sorted_count s = length s.queued + length s.skipped + length s.errors

module _ {Input : Type 0} (new_id : ℕ → ℕ) where
  place-reported :
      (row : ℕ) (v : Verdict Input) (s : Sorted Input)
      → Perm (reported (place new_id row v s)) (row ∷ reported s)
  place-reported row (Verdict.failed why) s =
      let done = map (λ q. q.row) s.queued in
      Perm.trans
        (Perm.append_left done (perm_middle (map (λ e. e.0) s.skipped) (map (λ e. e.0) s.errors)))
        (perm_middle done (map (λ e. e.0) s.skipped ++ map (λ e. e.0) s.errors))
  place-reported row Verdict.known s = perm_middle (map (λ q. q.row) s.queued) _
  place-reported row Verdict.repeated s = perm_middle (map (λ q. q.row) s.queued) _
  place-reported row (Verdict.fresh input) s = Perm.refl _

  place-count :
      (row : ℕ) (v : Verdict Input) (s : Sorted Input)
      → sorted_count (place new_id row v s) ≡ suc (sorted_count s)
  place-count row (Verdict.failed why) s = omega arith
  place-count row Verdict.known s = omega arith
  place-count row Verdict.repeated s = omega arith
  place-count row (Verdict.fresh input) s = omega arith

module _ {Number Input R : Type 0} (lower : String → String) (number : String → Option Number)
    (config : ImportConfig Number Input R) (new_id : ℕ → ℕ) where
  pub sort_rows-reported :
      (fields : List (String × String)) (existing_keys seen : List String) (row : ℕ)
      (rows : List (List (String × Cell Number)))
      → Perm
          (reported (sort_rows lower number config new_id fields existing_keys seen row rows))
          (numbers_from row rows)
  unfolding sort_rows
  sort_rows-reported fields existing_keys seen row [] = Perm.refl []
  sort_rows-reported fields existing_keys seen row (raw ∷ rest) =
      let v =
        judge lower config existing_keys seen
          (config.schema (map_row lower number raw config.columns fields)) in
      Perm.trans (place-reported new_id row v _) (
        Perm.cons' refl
          (sort_rows-reported fields existing_keys (seen_after lower config v seen) (row + 1) rest))

  pub sort_rows-count :
      (fields : List (String × String)) (existing_keys seen : List String) (row : ℕ)
      (rows : List (List (String × Cell Number)))
      → sorted_count (sort_rows lower number config new_id fields existing_keys seen row rows)
        ≡ length rows
  unfolding sort_rows
  sort_rows-count fields existing_keys seen row [] = refl
  sort_rows-count fields existing_keys seen row (raw ∷ rest) =
      let v =
        judge lower config existing_keys seen
          (config.schema (map_row lower number raw config.columns fields)) in
      place-count new_id row v _
      ∙ ap suc
          (sort_rows-count fields existing_keys (seen_after lower config v seen) (row + 1) rest)

pub inserted_rows :
    {Input : Type 0} (queued : List (Queued Input))
    → map (λ (x : ℕ × ℕ). x.0) (map (λ q. (q.row, q.id)) queued) ≡ map (λ q. q.row) queued
inserted_rows [] = refl
inserted_rows (q ∷ queued) = ap (λ l. q.row ∷ l) (inserted_rows queued)
