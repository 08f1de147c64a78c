-- ===== src/Shipments/Sums.antt =====
-- The check of the listed allocations, and what shipping them does to the sums of a contract.
use ceoma_api.Prelude.{
  ℕ, ◌≡◌, refl, ◌≢◌, ap, ℤ, pos, pos_part, neg_part, ◌+ℤ◌, ◌≤ℤ◌, int_laws, Bool, true, false, ◌&&◌,
  List, [], ◌∷◌, All, arith, inl, inr, Bool-cases, ◌==◌,
}
use ceoma_api.Errors.{ok}
use ceoma_api.Sql.{select, update, sum_where}
use ceoma_api.Quantity.{IsGrams, +ℤ-IsGrams}
use ceoma_api.Store.{Allocation, is_allocated, is_shipped}
use ceoma_api.Books.{AllocationIsSound, allocated_where}
use ceoma_api.Shipments.{check_allocations}

-- An allocation of the contract that is not shipped yet.
abbrev pub IsOpenFor : ℕ → Allocation → Type 0
IsOpenFor contract_id a = (a.contract_id ≡ contract_id) × (is_allocated a ≡ true)

-- The check accepts only open allocations of the contract.
pub check_allocations_open :
    (contract_id : ℕ) (acc kg : ℤ) (rows : List Allocation)
    → check_allocations contract_id acc rows ≡ ok kg
    → All (IsOpenFor contract_id) rows
unfolding check_allocations
check_allocations_open contract_id acc kg [] e = tt
check_allocations_open contract_id acc kg (a ∷ rows) e =
    ground (arith, check_allocations_open contract_id (acc +ℤ a.allocated_kg) kg rows)

sum_nonneg : (x y : ℤ) → pos 0 ≤ℤ x → pos 0 ≤ℤ y → pos 0 ≤ℤ x +ℤ y
sum_nonneg x y h k = omega int_laws

pub check_allocations_nonneg :
    (contract_id : ℕ) (acc kg : ℤ) (rows : List Allocation)
    → pos 0 ≤ℤ acc
    → All AllocationIsSound rows
    → check_allocations contract_id acc rows ≡ ok kg
    → pos 0 ≤ℤ kg
unfolding check_allocations
check_allocations_nonneg contract_id acc kg [] h s e = ground arith
check_allocations_nonneg contract_id acc kg (a ∷ rows) h s e = ground (
  arith,
  check_allocations_nonneg contract_id (acc +ℤ a.allocated_kg) kg rows
      (sum_nonneg acc a.allocated_kg h s.0.1) s.1,
)

pub check_allocations-IsGrams :
    (contract_id : ℕ) (acc kg : ℤ) (rows : List Allocation)
    → IsGrams acc
    → All AllocationIsSound rows
    → check_allocations contract_id acc rows ≡ ok kg
    → IsGrams kg
unfolding check_allocations
check_allocations-IsGrams contract_id acc kg [] h s e = let same : acc ≡ kg = cc in rw (← same) h
check_allocations-IsGrams contract_id acc kg (a ∷ rows) h s e =
    check_allocations-IsGrams contract_id (acc +ℤ a.allocated_kg) kg rows
      (+ℤ-IsGrams acc a.allocated_kg h s.0.0) s.1 (ground arith)

-- The shipped allocations of a contract
abbrev pub shipped_for : ℕ → Allocation → Bool
shipped_for contract_id a = a.contract_id == contract_id && is_shipped a

moved_over :
    (acc kg t after before : ℤ)
    → acc +ℤ t +ℤ after ≡ kg +ℤ before
    → acc +ℤ (t +ℤ after) ≡ kg +ℤ (pos 0 +ℤ before)
moved_over acc kg t after before e = omega (int_laws, ap pos_part e, ap neg_part e)

kept_between :
    (acc kg t after before : ℤ)
    → acc +ℤ after ≡ kg +ℤ before
    → acc +ℤ (t +ℤ after) ≡ kg +ℤ (t +ℤ before)
kept_between acc kg t after before e = omega (int_laws, ap pos_part e, ap neg_part e)

module _ (p : Allocation → Bool) (ship : Allocation → Allocation)
    (keeps_contract : (a : Allocation) → (ship a).contract_id ≡ a.contract_id)
    (keeps_weight : (a : Allocation) → (ship a).allocated_kg ≡ a.allocated_kg)
    (ships : (a : Allocation) → is_shipped (ship a) ≡ true) where
  -- The shipped weight of the contract grows by the weight that the check adds up.
  pub shipped_sum :
      (contract_id : ℕ) (acc kg : ℤ) (rows : List Allocation)
      → check_allocations contract_id acc (select p rows) ≡ ok kg
      → acc +ℤ allocated_where (shipped_for contract_id) (update p ship rows)
        ≡ kg +ℤ allocated_where (shipped_for contract_id) rows
  unfolding check_allocations select update sum_where
  shipped_sum contract_id acc kg [] e = let same : acc ≡ kg = cc in rw same
  shipped_sum contract_id acc kg (a ∷ rows) e = elim (Bool-cases (p a)) [
    | inl hit ↦
        let ours : IsOpenFor contract_id a = ground arith in
        let rest : check_allocations contract_id (acc +ℤ a.allocated_kg) (select p rows) ≡ ok kg =
          ground arith in
        let counted : shipped_for contract_id (ship a) ≡ true =
          ground (arith, keeps_contract a, ships a) in
        let not_before : shipped_for contract_id a ≡ false = ground arith in
        rw (hit, counted, not_before, keeps_weight a)
          (moved_over acc kg a.allocated_kg _ _
            (shipped_sum contract_id (acc +ℤ a.allocated_kg) kg rows rest))
    | inr miss ↦
        rw miss (kept_between acc kg _ _ _ (shipped_sum contract_id acc kg rows (rw miss at e)))
  ]

  -- That of any other contract stays.
  pub shipped_sum_other :
      (contract_id other : ℕ) (rows : List Allocation)
      → other ≢ contract_id
      → All (λ a. p a ≡ true → IsOpenFor contract_id a) rows
      → allocated_where (shipped_for other) (update p ship rows)
        ≡ allocated_where (shipped_for other) rows
  unfolding update sum_where
  shipped_sum_other contract_id other [] ne h = refl
  shipped_sum_other contract_id other (a ∷ rows) ne h = elim (Bool-cases (p a)) [
    | inl hit ↦
        let ours : IsOpenFor contract_id a = h.0 hit in
        let not_after : shipped_for other (ship a) ≡ false = ground (arith, keeps_contract a) in
        let not_before : shipped_for other a ≡ false = ground arith in
        rw (hit, not_after, not_before, shipped_sum_other contract_id other rows ne h.1) refl
    | inr miss ↦ rw (miss, shipped_sum_other contract_id other rows ne h.1) refl
  ]
