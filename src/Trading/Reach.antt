-- ===== src/Trading/Reach.antt =====
-- What holds of the database after any sequence of calls.
use ceoma_api.Prelude.{
  ◌≡◌, ap, ℤ, pos, pos_part, neg_part, ◌+ℤ◌, ◌≤ℤ◌, int_laws, ◌&&◌, List, [], ◌∷◌, All, All-map2,
  ◌==◌,
}
use ceoma_api.Store.{Store, supplier_row, shipment_row, lot_row, contract_row, is_shipped}
use ceoma_api.Books.{
  IsSound, LotIsSound, ContractIsSound, LotIsBalanced, ContractIsBalanced, allocated_where,
}
use ceoma_api.Trading.Calls.{Call, perform, perform_all, IsValidated, IsInGrams}
use ceoma_api.Trading.Steps.{IsConsistent, perform-IsSound, perform-IsLinked, perform-IsBalanced}

-- Any sequence of calls of the trading services with positive weights of contracts, lots and
-- allocations, accepted or refused, keeps the weights of lots, contracts and allocations sound.
pub perform_all-IsSound :
    (cs : List Call) (s : Store) → All IsValidated cs → IsSound s → IsSound (perform_all cs s)
unfolding perform_all
perform_all-IsSound [] s v h = h
perform_all-IsSound (c ∷ cs) s v h =
    perform_all-IsSound cs (perform c s) v.1 (perform-IsSound c s v.0 h)

perform_all-IsConsistent :
    (cs : List Call) (s : Store)
    → All IsValidated cs
    → All IsInGrams cs
    → IsConsistent s
    → IsConsistent (perform_all cs s)
unfolding perform_all
perform_all-IsConsistent [] s v g h = h
perform_all-IsConsistent (c ∷ cs) s v g h =
    perform_all-IsConsistent cs (perform c s) v.1 g.1 (record {
      sound = perform-IsSound c s v.0 h.sound;
      balanced = perform-IsBalanced c s g.0 h;
      linked = perform-IsLinked c s h.linked;
    })

-- No lot has more allocated from it than there is of it, no contract more allocated or shipped to it
-- than was sold: counted over the allocations themselves.
pub record IsCovered (s : Store) : Type 0 where
  pub lots :
      All (λ l. allocated_where (λ a. a.lot_id == l.id) s.allocations ≤ℤ l.weight_total_kg) s.lots
  pub contracts :
      All
        (λ c.
          (allocated_where (λ a. a.contract_id == c.id) s.allocations ≤ℤ c.quantity_kg)
          × (allocated_where (λ a. a.contract_id == c.id && is_shipped a) s.allocations
              ≤ℤ c.quantity_kg))
        s.contracts

part_le :
    (total available part : ℤ) → total ≡ available +ℤ part → pos 0 ≤ℤ available → part ≤ℤ total
part_le total available part e h = omega (int_laws, ap pos_part e, ap neg_part e)

IsConsistent-IsCovered : (s : Store) → IsConsistent s → IsCovered s
IsConsistent-IsCovered s h = record {
  lots =
      All-map2 LotIsSound (LotIsBalanced s.allocations) _ s.lots
        (λ l fine even. part_le l.weight_total_kg l.weight_available_kg _ even fine.2) h.sound.lots
        h.balanced.lots;
  contracts =
      All-map2 ContractIsSound (ContractIsBalanced s.allocations) _ s.contracts
        (λ c fine even. (rw (← even.0) fine.4, rw (← even.1) fine.6)) h.sound.contracts
        h.balanced.contracts;
}

-- From a database with no lot, contract or allocation, after any sequence of calls of the
-- trading services, accepted or refused, by any users, with positive weights of contracts, lots
-- and allocations and with allocations and stock adjustments in whole grams: no lot has more
-- allocated from it than its total weight, and no contract more allocated or shipped to it than
-- was sold, counted over the allocations themselves.
pub perform_all-IsCovered :
    (cs : List Call) (s : Store)
    → (s.lots ≡ []) × (s.contracts ≡ []) × (s.allocations ≡ [])
    → All IsValidated cs
    → All IsInGrams cs
    → IsCovered (perform_all cs s)
perform_all-IsCovered cs s (no_lots, no_contracts, no_allocations) v g =
    IsConsistent-IsCovered (perform_all cs s) (
      perform_all-IsConsistent cs s v g (record {
        sound = record {
          lot_keys = rw no_lots tt;
          contract_keys = rw no_contracts tt;
          allocation_keys = rw no_allocations tt;
          lots = rw no_lots tt;
          contracts = rw no_contracts tt;
          allocations = rw no_allocations tt;
        };
        balanced = record { lots = rw no_lots tt; contracts = rw no_contracts tt };
        linked = rw no_allocations tt;
      }))
