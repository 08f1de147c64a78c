-- ===== src/Contracts/Notices.antt =====
-- When `allocateLot` announces that a contract is fully allocated.
use ceoma_api.Prelude.{
  ℕ, ◌≡◌, ◌↔◌, ℤ, ◌+ℤ◌, ◌≤ℤ◌, leb_ℤ, eq_of_parts, +ℤ_parts, true, false, some, arith, is_some,
}
use ceoma_api.Sql.Laws.{find-All}
use ceoma_api.Quantity.{IsGrams, epsilon, numeric_3, numeric_3-IsGrams, numeric_3-le_grams}
use ceoma_api.Store.{Store, Contract, contract_row, AuthContext}
use ceoma_api.Books.{IsSound, ContractIsSound}
use ceoma_api.Contracts.{AllocationInput, full_notice}
use ceoma_api.Contracts.Outcomes.{exceeds_contract, read_contract}
use ceoma_api.Contracts.Soundness.{within_contract}

-- Two weights in whole grams that differ by the tolerance at most are equal.
grams_meet : (x q : ℤ) → IsGrams x → IsGrams q → x ≤ℤ q → (leb_ℤ q (x +ℤ epsilon) ≡ true) ↔ (x ≡ q)
grams_meet x q g k h = (
  λ e. eq_of_parts x q (ground (arith, +ℤ_parts x epsilon)),
  λ e. ground (arith, +ℤ_parts x epsilon),
)

-- When an allocation in sound books passes the guard of its contract, the notification of a
-- fully allocated contract is sent exactly when the weight that is written to the contract is
-- its whole quantity.
pub full_notice_iff :
    (allocation_id contract_id : ℕ) (input : AllocationInput) (actor : AuthContext) (s : Store)
    (c : Contract)
    → IsSound s
    → read_contract allocation_id contract_id input actor s ≡ some c
    → exceeds_contract allocation_id contract_id input actor s c ≡ false
    → (is_some (full_notice allocation_id contract_id input actor c) ≡ true)
      ↔ (numeric_3 (c.allocated_kg +ℤ input.allocated_kg) ≡ c.quantity_kg)
full_notice_iff allocation_id contract_id input actor s c h found fits =
    let old : ContractIsSound c = (find-All _ ContractIsSound s.contracts found h.contracts).1 in
    let total : ℤ = c.allocated_kg +ℤ input.allocated_kg in
    let meet : (leb_ℤ c.quantity_kg (numeric_3 total +ℤ epsilon) ≡ true)
        ↔ (numeric_3 total ≡ c.quantity_kg) =
      grams_meet (numeric_3 total) c.quantity_kg (numeric_3-IsGrams total) old.0 (
        numeric_3-le_grams total c.quantity_kg old.0
          (within_contract input.allocated_kg c.quantity_kg c.allocated_kg fits)) in
    (λ e. meet.0 (ground arith), λ e. rw (meet.1 e))
