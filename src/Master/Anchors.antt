-- ===== src/Master/Anchors.antt =====
-- Foreign keys to the master data (prisma/migrations), and changes that keep the identifiers of a table.
use ceoma_api.Prelude.{ℕ, ◌≡◌, refl, Option, none, some, List, All, All-map}
use ceoma_api.Store.{Store, Supplier, Reference, supplier_row, reference_row}
use ceoma_api.Books.Links.{HasRow}

abbrev pub HasGrade : Option ℕ → List Reference → Type 0
HasGrade none rs = Unit {0}
HasGrade (some g) rs = HasRow g rs

-- Every lot names a supplier, grade, warehouse and bag type that are there, every contract a buyer
-- and, if any, a grade, and every agreement and auction record a supplier.
pub record IsAnchored (s : Store) : Type 0 where
  pub lots_anchored :
      All
        (λ l.
          HasRow l.supplier_id s.suppliers
          × HasRow l.grade_id s.grades
          × HasRow l.warehouse_id s.warehouses
          × HasRow l.bag_type_id s.bag_types)
        s.lots
  pub contracts_anchored :
      All (λ c. HasRow c.buyer_id s.buyers × HasGrade c.grade_id s.grades) s.contracts
  pub agreements_anchored : All (λ a. HasRow a.supplier_id s.suppliers) s.direct_agreements
  pub auctions_anchored : All (λ p. HasRow p.marketing_agent_id s.suppliers) s.auction_procurements

module _ (s : Store) (h : IsAnchored s) where
  -- More rows, or other columns of the same rows, in the five tables
  grown-IsAnchored :
      (s' : Store)
      → ((id : ℕ) → HasRow id s.suppliers → HasRow id s'.suppliers)
      → ((id : ℕ) → HasRow id s.buyers → HasRow id s'.buyers)
      → ((id : ℕ) → HasRow id s.warehouses → HasRow id s'.warehouses)
      → ((id : ℕ) → HasRow id s.grades → HasRow id s'.grades)
      → ((id : ℕ) → HasRow id s.bag_types → HasRow id s'.bag_types)
      → s'.lots ≡ s.lots
      → s'.contracts ≡ s.contracts
      → s'.direct_agreements ≡ s.direct_agreements
      → s'.auction_procurements ≡ s.auction_procurements
      → IsAnchored s'
  grown-IsAnchored s' hs hb hw hg ht lots contracts agreements auctions = record {
    lots_anchored = rw lots (
        All-map _ _ s.lots
          (λ l p.
            (hs l.supplier_id p.0, hg l.grade_id p.1, hw l.warehouse_id p.2, ht l.bag_type_id p.3))
          h.lots_anchored);
    contracts_anchored = rw contracts (
        All-map _ _ s.contracts (λ c p. (hb c.buyer_id p.0, has_grade c.grade_id p.1))
          h.contracts_anchored);
    agreements_anchored =
        rw agreements
          (All-map _ _ s.direct_agreements (λ a p. hs a.supplier_id p) h.agreements_anchored);
    auctions_anchored =
        rw auctions (
          All-map _ _ s.auction_procurements (λ a p. hs a.marketing_agent_id p)
            h.auctions_anchored);
  }
    where
      has_grade : (g : Option ℕ) → HasGrade g s.grades → HasGrade g s'.grades
      has_grade none p = p
      has_grade (some g) p = hg g p

  -- One table is replaced by one with the same identifiers, or more of them.
  pub suppliers-IsAnchored :
      (rows : List Supplier)
      → ((id : ℕ) → HasRow id s.suppliers → HasRow id rows)
      → IsAnchored (record s { suppliers = rows })
  suppliers-IsAnchored rows more =
      grown-IsAnchored (record s { suppliers = rows }) more (λ _ r. r) (λ _ r. r) (λ _ r. r)
        (λ _ r. r) refl refl refl refl

  pub buyers-IsAnchored :
      (rows : List Reference)
      → ((id : ℕ) → HasRow id s.buyers → HasRow id rows)
      → IsAnchored (record s { buyers = rows })
  buyers-IsAnchored rows more =
      grown-IsAnchored (record s { buyers = rows }) (λ _ r. r) more (λ _ r. r) (λ _ r. r) (λ _ r. r)
        refl refl refl refl

  pub warehouses-IsAnchored :
      (rows : List Reference)
      → ((id : ℕ) → HasRow id s.warehouses → HasRow id rows)
      → IsAnchored (record s { warehouses = rows })
  warehouses-IsAnchored rows more =
      grown-IsAnchored (record s { warehouses = rows }) (λ _ r. r) (λ _ r. r) more (λ _ r. r)
        (λ _ r. r) refl refl refl refl

  pub grades-IsAnchored :
      (rows : List Reference)
      → ((id : ℕ) → HasRow id s.grades → HasRow id rows)
      → IsAnchored (record s { grades = rows })
  grades-IsAnchored rows more =
      grown-IsAnchored (record s { grades = rows }) (λ _ r. r) (λ _ r. r) (λ _ r. r) more (λ _ r. r)
        refl refl refl refl

  pub bag_types-IsAnchored :
      (rows : List Reference)
      → ((id : ℕ) → HasRow id s.bag_types → HasRow id rows)
      → IsAnchored (record s { bag_types = rows })
  bag_types-IsAnchored rows more =
      grown-IsAnchored (record s { bag_types = rows }) (λ _ r. r) (λ _ r. r) (λ _ r. r) (λ _ r. r)
        more refl refl refl refl
