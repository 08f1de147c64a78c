-- ===== src/Documents/Weights.antt =====
-- The weights that the documents of a shipment name (`generateDocuments` of
-- src/modules/shipments/shipments.service.ts).
use ceoma_api.Prelude.{
  ◌≡◌, refl, ap, ◌∙◌, ℕ, ℤ, pos, ◌+ℤ◌, Bool, List, [], ◌∷◌, map, leb, Bool-cases, inl, inr,
  int_laws,
}
use ceoma_api.Sql.{select, sum_where}
use ceoma_api.Store.{Store, Allocation}
use ceoma_api.Documents.{
  PackedItem, add_by_id, sort_by_id, is_shipped_by, total_weight, packed, shipped_allocations,
}

-- The sum of the weights, whatever the allocations
abbrev pub sum_kg : List Allocation → ℤ
sum_kg [] = pos 0
sum_kg (a ∷ rest) = a.allocated_kg +ℤ sum_kg rest

abbrev pub sum_items : List PackedItem → ℤ
sum_items [] = pos 0
sum_items (i ∷ rest) = i.weight_kg +ℤ sum_items rest

sum_items-packed : (xs : List Allocation) → sum_items (map packed xs) ≡ sum_kg xs
sum_items-packed [] = refl
sum_items-packed (a ∷ rest) = ap (λ n. a.allocated_kg +ℤ n) (sum_items-packed rest)

total_weight-sum_kg : (sum : ℤ) (xs : List Allocation) → total_weight sum xs ≡ sum +ℤ sum_kg xs
unfolding total_weight
total_weight-sum_kg sum [] = omega int_laws
total_weight-sum_kg sum (a ∷ rest) =
    total_weight-sum_kg (sum +ℤ a.allocated_kg) rest ∙ omega int_laws

sum_kg-add_by_id :
    (a : Allocation) (xs : List Allocation)
    → sum_kg (add_by_id (λ x. x.id) a xs) ≡ a.allocated_kg +ℤ sum_kg xs
unfolding add_by_id
sum_kg-add_by_id a [] = refl
sum_kg-add_by_id a (x ∷ xs) = elim (Bool-cases (leb a.id x.id)) [
  | inl e ↦ rw e
  | inr e ↦ rw (e, sum_kg-add_by_id a xs) (omega int_laws)
]

sum_kg-sort_by_id : (xs : List Allocation) → sum_kg (sort_by_id (λ x. x.id) xs) ≡ sum_kg xs
unfolding sort_by_id
sum_kg-sort_by_id [] = refl
sum_kg-sort_by_id (a ∷ rest) =
    sum_kg-add_by_id a (sort_by_id (λ x. x.id) rest)
    ∙ ap (λ n. a.allocated_kg +ℤ n) (sum_kg-sort_by_id rest)

sum_kg-select :
    (p : Allocation → Bool) (xs : List Allocation)
    → sum_kg (select p xs) ≡ sum_where p (λ a. a.allocated_kg) xs
unfolding select sum_where
sum_kg-select p [] = refl
sum_kg-select p (a ∷ rest) = elim (Bool-cases (p a)) [
  | inl e ↦ rw e (ap (λ n. a.allocated_kg +ℤ n) (sum_kg-select p rest))
  | inr e ↦ rw (e, sum_kg-select p rest) (omega int_laws)
]

-- The weight of a shipment: the sum over its allocations in the table
abbrev pub shipped_kg : (shipment_id org : ℕ) → Store → ℤ
shipped_kg shipment_id org s =
    sum_where (is_shipped_by shipment_id org) (λ a. a.allocated_kg) s.allocations

pub sum_kg-shipped_allocations :
    (shipment_id org : ℕ) (s : Store)
    → sum_kg (shipped_allocations shipment_id org s) ≡ shipped_kg shipment_id org s
unfolding shipped_allocations
sum_kg-shipped_allocations shipment_id org s =
    sum_kg-sort_by_id (select (is_shipped_by shipment_id org) s.allocations)
    ∙ sum_kg-select (is_shipped_by shipment_id org) s.allocations

pub total_weight-shipped_allocations :
    (shipment_id org : ℕ) (s : Store)
    → total_weight (pos 0) (shipped_allocations shipment_id org s) ≡ shipped_kg shipment_id org s
total_weight-shipped_allocations shipment_id org s =
    total_weight-sum_kg (pos 0) (shipped_allocations shipment_id org s)
    ∙ rw (sum_kg-shipped_allocations shipment_id org s) (omega int_laws)

pub sum_items-shipped_allocations :
    (shipment_id org : ℕ) (s : Store)
    → sum_items (map packed (shipped_allocations shipment_id org s)) ≡ shipped_kg shipment_id org s
sum_items-shipped_allocations shipment_id org s =
    sum_items-packed (shipped_allocations shipment_id org s)
    ∙ sum_kg-shipped_allocations shipment_id org s
