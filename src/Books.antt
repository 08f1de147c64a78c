-- ===== src/Books.antt =====
-- The invariants that the trading services keep.
-- `IsSound`: keys are unique, weights are whole grams, no lot has less than nothing or more than all
-- of its weight available, no contract is allocated or shipped beyond its quantity.
-- `IsBalanced`: the totals that lots and contracts carry are the sums over their allocations.
pub mod Updates
pub mod Sums
pub mod Links
use ceoma_api.Prelude.{ℕ, ◌≡◌, ℤ, pos, ◌+ℤ◌, ◌≤ℤ◌, Bool, true, ◌&&◌, List, All, ◌==◌}
use ceoma_api.Sql.{sum_where}
use ceoma_api.Sql.Laws.{Unique}
use ceoma_api.Quantity.{IsGrams}
use ceoma_api.Store.{
  Store, Lot, Contract, Allocation, lot_row, contract_row, allocation_row, is_shipped,
}

abbrev pub LotIsSound : Lot → Type 0
LotIsSound l =
    IsGrams l.weight_total_kg
    × IsGrams l.weight_available_kg
    × (pos 0 ≤ℤ l.weight_available_kg)
    × (l.weight_available_kg ≤ℤ l.weight_total_kg)

abbrev pub ContractIsSound : Contract → Type 0
ContractIsSound c =
    IsGrams c.quantity_kg
    × IsGrams c.allocated_kg
    × IsGrams c.shipped_kg
    × (pos 0 ≤ℤ c.allocated_kg)
    × (c.allocated_kg ≤ℤ c.quantity_kg)
    × (pos 0 ≤ℤ c.shipped_kg)
    × (c.shipped_kg ≤ℤ c.quantity_kg)

abbrev pub AllocationIsSound : Allocation → Type 0
AllocationIsSound a = IsGrams a.allocated_kg × (pos 0 ≤ℤ a.allocated_kg)

pub record IsSound (s : Store) : Type 0 where
  pub lot_keys : Unique s.lots
  pub contract_keys : Unique s.contracts
  pub allocation_keys : Unique s.allocations
  pub lots : All LotIsSound s.lots
  pub contracts : All ContractIsSound s.contracts
  pub allocations : All AllocationIsSound s.allocations

-- Σ allocated_kg over the allocations that fit
abbrev pub allocated_where : (Allocation → Bool) → List Allocation → ℤ
allocated_where q = sum_where q (λ a. a.allocated_kg)

abbrev pub LotIsBalanced : List Allocation → Lot → Type 0
LotIsBalanced as' l =
    l.weight_total_kg ≡ l.weight_available_kg +ℤ allocated_where (λ a. a.lot_id == l.id) as'

abbrev pub ContractIsBalanced : List Allocation → Contract → Type 0
ContractIsBalanced as' c =
    (c.allocated_kg ≡ allocated_where (λ a. a.contract_id == c.id) as')
    × (c.shipped_kg ≡ allocated_where (λ a. a.contract_id == c.id && is_shipped a) as')

pub record IsBalanced (s : Store) : Type 0 where
  pub lots : All (LotIsBalanced s.allocations) s.lots
  pub contracts : All (ContractIsBalanced s.allocations) s.contracts
