-- ===== src/Documents/Traced.antt =====
-- The trace of a lot is complete, and names nothing else
-- (src/modules/traceability/traceability.service.ts).
use ceoma_api.Prelude.{
  ◌≡◌, refl, ap, ◌∙◌, ℕ, Bool, false, ◌&&◌, ◌||◌, none, some, List, [], ◌∷◌, ◌==◌, leb, any, arith,
  Bool-cases, inl, inr,
}
use ceoma_api.Sql.{select}
use ceoma_api.Store.{Store, Allocation, lot_row}
use ceoma_api.Documents.{Archive, add_by_id, sort_by_id}
use ceoma_api.Documents.Trace.{Trace, lot_allocations}

module _ {R : Type 0} (id_of : R → ℕ) (p : R → Bool) where
  any-add_by_id : (r : R) (xs : List R) → any p (add_by_id id_of r xs) ≡ (p r || any p xs)
  unfolding add_by_id
  any-add_by_id r [] = refl
  any-add_by_id r (x ∷ xs) = elim (Bool-cases (leb (id_of r) (id_of x))) [
    | inl e ↦ rw e
    | inr e ↦ rw (e, any-add_by_id r xs) (ground arith)
  ]

  pub any-sort_by_id : (xs : List R) → any p (sort_by_id id_of xs) ≡ any p xs
  unfolding sort_by_id
  any-sort_by_id [] = refl
  any-sort_by_id (x ∷ xs) =
      any-add_by_id x (sort_by_id id_of xs) ∙ ap (λ b. p x || b) (any-sort_by_id xs)

abbrev member : ℕ → List ℕ → Bool
member x ids = any (λ id. x == id) ids

-- An allocation that the shipment carries
abbrev pub names : ℕ → Allocation → Bool
names x a = elim a.shipment_id [ none ↦ false | some id ↦ x == id ]

-- Whether some allocation of the lot, in the organization, goes with the shipment.
abbrev pub carries : (lot_id org : ℕ) → Store → ℕ → Bool
carries lot_id org s x =
    any (λ a. (a.lot_id == lot_id && a.organization_id == org) && names x a) s.allocations

-- The shipments and the documents of a trace, described without the list of identifiers
abbrev pub IsComplete : (lot_id org : ℕ) → Archive → Trace → Type 0
IsComplete lot_id org a t =
    (t.allocations ≡ lot_allocations lot_id org a.store)
    × (t.shipments
        ≡ sort_by_id (λ x. x.id)
            (select (λ x. carries lot_id org a.store x.id && x.organization_id == org)
              a.store.shipments))
    × (t.documents
        ≡ sort_by_id (λ x. x.id)
            (select (λ x. carries lot_id org a.store x.shipment_id && x.organization_id == org)
              a.documents))
