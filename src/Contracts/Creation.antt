-- ===== src/Contracts/Creation.antt =====
-- `createContract`: every outcome, and that the books stay sound and balanced.
use ceoma_api.Prelude.{
  ℕ, ◌≡◌, refl, ◌≢◌, pos, ◌<ℤ◌, Bool, true, false, ◌&&◌, Option, none, some, ◌∷◌, All, All-map, sym,
  String, arith, inl, inr, Bool-cases, ◌==◌, if◌then◌else◌,
}
use mathlib.Core.Option
use ceoma_api.Errors.{Result, ok, err, api_error, pg_error, not_found}
use ceoma_api.Sql.{owned, find}
use ceoma_api.Sql.Laws.{any-Absent}
use ceoma_api.Quantity.{numeric_3-IsGrams, numeric_3_nonneg}
use ceoma_api.Store.{
  Store, Contract, reference_row, contract_row, AuthContext, with_transaction, is_shipped,
}
use ceoma_api.DbHelpers.{ensure_reference, has_row, table_has}
use ceoma_api.DbHelpers.Laws.{ensure_reference_lem}
use ceoma_api.Books.Sums.{allocated_where-none}
use ceoma_api.Books.{IsSound, IsBalanced}
use ceoma_api.Contracts.{ContractInput, new_contract, contract_clash, check_grade, create_contract}

module _ (contract_id : ℕ) (input : ContractInput) (actor : AuthContext) (s : Store) where
  abbrev pub has_buyer : Bool
  has_buyer = has_row input.buyer_id (some actor.organization_id) s.buyers

  abbrev pub has_grade : Option ℕ → Bool
  has_grade none = true
  has_grade (some grade_id) = has_row grade_id (some actor.organization_id) s.grades

  abbrev pub grade_or_zero : Option ℕ → ℕ
  grade_or_zero none = 0
  grade_or_zero (some grade_id) = grade_id

  abbrev pub created : Store
  created = record s { contracts = new_contract contract_id input actor ∷ s.contracts }

  abbrev pub buyer_name : Option String
  buyer_name = Option.map (λ b. b.name) (find (owned input.buyer_id actor.organization_id) s.buyers)

  abbrev pub create_outcome : Result (Contract × Option String) × Store
  create_outcome =
      if has_buyer
      then (if has_grade input.grade_id
          then (if contract_clash contract_id input actor s
              then (err (pg_error "23505"), s)
              else (ok (new_contract contract_id input actor, buyer_name), created))
          else (err (api_error 404 (not_found "Grade" (grade_or_zero input.grade_id))), s))
      else (err (api_error 404 (not_found "Buyer" input.buyer_id)), s)

  buyers_reference :
      ensure_reference "buyers" input.buyer_id "Buyer" (some actor.organization_id) s
      ≡ ((if has_buyer then ok tt else err (api_error 404 (not_found "Buyer" input.buyer_id))), s)
  unfolding table_has
  buyers_reference = ensure_reference_lem "buyers" input.buyer_id "Buyer" _ s has_buyer refl refl

  grade_reference :
      (g : Option ℕ)
      → input.grade_id ≡ g
      → check_grade contract_id input actor s ≡ (
        (if has_grade g then ok tt else err (api_error 404 (not_found "Grade" (grade_or_zero g)))),
        s,
      )
  unfolding table_has
  grade_reference none e = rw e refl
  grade_reference (some g) e =
      rw e (ensure_reference_lem "grades" g "Grade" _ s (has_grade (some g)) refl refl)

  -- A contract is created only for a buyer of the organization, with a grade of the
  -- organization if one is given (404 otherwise), and with a number that the organization has
  -- not used (a unique violation otherwise); a refusal writes nothing. The contract starts
  -- open, with nothing allocated and nothing shipped.
  pub create_contract_lem : create_contract contract_id input actor s ≡ create_outcome
  unfolding create_contract with_transaction
  create_contract_lem = elim (Bool-cases has_buyer) [
    | inr stranger ↦ rw (buyers_reference, stranger) refl
    | inl known ↦
        rw (buyers_reference, known)
          (elim (Bool-cases (has_grade input.grade_id)) [
            | inr stranger ↦ rw (grade_reference input.grade_id refl, stranger) refl
            | inl graded ↦
                rw (grade_reference input.grade_id refl, graded)
                  (elim (Bool-cases (contract_clash contract_id input actor s)) [
                    | inl old ↦ rw old refl
                    | inr new ↦ rw new refl
                  ])
          ])
  ]

  pub create_contract_keeps :
      (P : Store → Type 0)
      → P s
      → (contract_clash contract_id input actor s ≡ false → P created)
      → P (create_contract contract_id input actor s).1
  create_contract_keeps P before after = rw create_contract_lem (ground (arith, before, after))

  -- Creating a contract for a positive quantity in sound books, whatever the outcome, keeps
  -- the weights sound: the quantity is stored in whole grams, and nothing is allocated or
  -- shipped beyond it.
  pub create_contract-IsSound :
      pos 0 <ℤ input.quantity_kg → IsSound s → IsSound (create_contract contract_id input actor s).1
  create_contract-IsSound positive h = create_contract_keeps IsSound h (λ new. record {
    lot_keys = h.lot_keys;
    contract_keys =
        (any-Absent _ contract_id s.contracts (λ c e. ground arith) new, h.contract_keys);
    allocation_keys = h.allocation_keys;
    lots = h.lots;
    contracts = (
      (
        numeric_3-IsGrams input.quantity_kg,
        (refl, refl),
        (refl, refl),
        omega arith,
        numeric_3_nonneg input.quantity_kg (omega arith),
        omega arith,
        numeric_3_nonneg input.quantity_kg (omega arith),
      ),
      h.contracts,
    );
    allocations = h.allocations;
  })

  -- A contract under an identifier that no allocation names starts balanced, and disturbs no
  -- other in balanced books.
  pub create_contract-IsBalanced :
      All (λ a. a.contract_id ≢ contract_id) s.allocations
      → IsBalanced s
      → IsBalanced (create_contract contract_id input actor s).1
  create_contract-IsBalanced unnamed b = create_contract_keeps IsBalanced b (λ new. record {
    lots = b.lots;
    contracts = (
      (
        sym (
            allocated_where-none (λ a. a.contract_id == contract_id) s.allocations
              (All-map (λ a. a.contract_id ≢ contract_id) _ s.allocations (λ a e. ground arith)
                unnamed)),
        sym (
            allocated_where-none (λ a. a.contract_id == contract_id && is_shipped a) s.allocations
              (All-map (λ a. a.contract_id ≢ contract_id) _ s.allocations (λ a e. ground arith)
                unnamed)),
      ),
      b.contracts,
    );
  })
