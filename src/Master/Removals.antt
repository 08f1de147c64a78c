-- ===== src/Master/Removals.antt =====
-- A row of master data that no row needs can be deleted (src/modules/master/master.service.ts).
use ceoma_api.Prelude.{
  ℕ, ◌≡◌, Bool, true, false, not, ◌||◌, Option, none, some, List, [], ◌∷◌, ◌==◌, any, All, All-map2,
  arith, Bool-cases, inl, inr, ||-eq-false,
}
use ceoma_api.Sql.{Row, owned, select, update}
use ceoma_api.Store.{Store, supplier_row, reference_row}
use ceoma_api.Books.Links.{HasRow}
use ceoma_api.Master.{
  drop_grade, unset_grade, suppliers_table, buyers_table, warehouses_table, grades_table,
  bag_types_table,
}
use ceoma_api.Master.Anchors.{IsAnchored, HasGrade}

module _ {R : Type 0} ⦃k : Row R⦄ where
  select-HasRow :
      (id org j : ℕ) (rs : List R)
      → (j == id) ≡ false
      → HasRow j rs
      → HasRow j (select (λ x. not (owned id org x)) rs)
  unfolding select
  select-HasRow id org j [] e h = h
  select-HasRow id org j (x ∷ xs) e h = ground (arith, select-HasRow id org j xs)

module _ {A : Type 0} where
  any-false-All : (q : A → Bool) (xs : List A) → any q xs ≡ false → All (λ x. q x ≡ false) xs
  any-false-All q [] h = tt
  any-false-All q (x ∷ xs) h =
      let (front, back) = ||-eq-false (q x) (any q xs) h in (front, any-false-All q xs back)

  All-update :
      (P Q : A → Type 0) (f : A → A) (xs : List A)
      → ((x : A) → P x → Q (f x))
      → All P xs
      → All Q (update (λ _. true) f xs)
  unfolding update
  All-update P Q f [] k h = tt
  All-update P Q f (x ∷ xs) k (p, h) = (k x p, All-update P Q f xs k h)

module _ (s : Store) (h : IsAnchored s) where
  -- A row that no row of another table needs is removed.
  module _ (id org : ℕ) where
    pub supplier-removed :
        suppliers_table.in_use id s ≡ false
        → IsAnchored (record s { suppliers = select (λ x. not (owned id org x)) s.suppliers })
    supplier-removed free =
        let by_lot = any (λ l. l.supplier_id == id) s.lots in
        let by_agreement = any (λ a. a.supplier_id == id) s.direct_agreements in
        let by_auction = any (λ p. p.marketing_agent_id == id) s.auction_procurements in
        let (earlier, no_auction) = ||-eq-false (by_lot || by_agreement) by_auction free in
        let (no_lot, no_agreement) = ||-eq-false by_lot by_agreement earlier in
        record {
          lots_anchored =
              All-map2 _ (λ l. (l.supplier_id == id) ≡ false) _ s.lots
                (λ l p n. (select-HasRow id org l.supplier_id s.suppliers n p.0, p.1, p.2, p.3))
                h.lots_anchored (any-false-All (λ l. l.supplier_id == id) s.lots no_lot);
          contracts_anchored = h.contracts_anchored;
          agreements_anchored =
              All-map2 _ (λ a. (a.supplier_id == id) ≡ false) _ s.direct_agreements
                (λ a p n. select-HasRow id org a.supplier_id s.suppliers n p) h.agreements_anchored
                (any-false-All (λ a. a.supplier_id == id) s.direct_agreements no_agreement);
          auctions_anchored =
              All-map2 _ (λ p. (p.marketing_agent_id == id) ≡ false) _ s.auction_procurements
                (λ a p n. select-HasRow id org a.marketing_agent_id s.suppliers n p)
                h.auctions_anchored
                (any-false-All (λ p. p.marketing_agent_id == id) s.auction_procurements no_auction);
        }

    pub buyer-removed :
        buyers_table.in_use id s ≡ false
        → IsAnchored (record s { buyers = select (λ x. not (owned id org x)) s.buyers })
    buyer-removed free = record {
      lots_anchored = h.lots_anchored;
      contracts_anchored =
          All-map2 _ (λ c. (c.buyer_id == id) ≡ false) _ s.contracts
            (λ c p n. (select-HasRow id org c.buyer_id s.buyers n p.0, p.1)) h.contracts_anchored
            (any-false-All (λ c. c.buyer_id == id) s.contracts free);
      agreements_anchored = h.agreements_anchored;
      auctions_anchored = h.auctions_anchored;
    }

    pub warehouse-removed :
        warehouses_table.in_use id s ≡ false
        → IsAnchored (record s { warehouses = select (λ x. not (owned id org x)) s.warehouses })
    warehouse-removed free = record {
      lots_anchored =
          All-map2 _ (λ l. (l.warehouse_id == id) ≡ false) _ s.lots
            (λ l p n. (p.0, p.1, select-HasRow id org l.warehouse_id s.warehouses n p.2, p.3))
            h.lots_anchored (any-false-All (λ l. l.warehouse_id == id) s.lots free);
      contracts_anchored = h.contracts_anchored;
      agreements_anchored = h.agreements_anchored;
      auctions_anchored = h.auctions_anchored;
    }

    pub bag_type-removed :
        bag_types_table.in_use id s ≡ false
        → IsAnchored (record s { bag_types = select (λ x. not (owned id org x)) s.bag_types })
    bag_type-removed free = record {
      lots_anchored =
          All-map2 _ (λ l. (l.bag_type_id == id) ≡ false) _ s.lots
            (λ l p n. (p.0, p.1, p.2, select-HasRow id org l.bag_type_id s.bag_types n p.3))
            h.lots_anchored (any-false-All (λ l. l.bag_type_id == id) s.lots free);
      contracts_anchored = h.contracts_anchored;
      agreements_anchored = h.agreements_anchored;
      auctions_anchored = h.auctions_anchored;
    }

    kept_grade :
        (g : Option ℕ)
        → HasGrade g s.grades
        → HasGrade (drop_grade id g) (select (λ x. not (owned id org x)) s.grades)
    kept_grade none p = p
    kept_grade (some g) p = elim (Bool-cases (g == id)) [
      | inl e ↦ rw e tt
      | inr e ↦ rw e (select-HasRow id org g s.grades e p)
    ]

    pub grade-removed :
        grades_table.in_use id s ≡ false
        → IsAnchored
            (unset_grade id (record s { grades = select (λ x. not (owned id org x)) s.grades }))
    grade-removed free = record {
      lots_anchored =
          All-map2 _ (λ l. (l.grade_id == id) ≡ false) _ s.lots
            (λ l p n. (p.0, select-HasRow id org l.grade_id s.grades n p.1, p.2, p.3))
            h.lots_anchored (any-false-All (λ l. l.grade_id == id) s.lots free);
      contracts_anchored =
          All-update _ _ (λ c. record c { grade_id = drop_grade id c.grade_id }) s.contracts
            (λ c p. (p.0, kept_grade c.grade_id p.1)) h.contracts_anchored;
      agreements_anchored = h.agreements_anchored;
      auctions_anchored = h.auctions_anchored;
    }
