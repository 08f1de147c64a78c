-- ===== src/Shipments/Progress.antt =====
-- The status of a shipment: `updateStatus` moves it forward along `SHIPMENT_PROGRESSION`.
use ceoma_api.Prelude.{
  ℕ, ◌≡◌, refl, ◌≤◌, All-unit, ◌∙◌, Bool, true, false, Option, none, some, List, [], ◌∷◌, String,
  arith, Option-cases, inl, inr, Bool-cases, ltb, if◌then◌else◌,
}
use mathlib.Core.Option
use ceoma_api.Errors.{Result, ok, err, api_error, text, not_found}
use ceoma_api.Sql.{owned, find, update}
use ceoma_api.Sql.Laws.{find-update_where, find-All}
use ceoma_api.Store.{Store, Shipment, shipment_row, contract_row, AuthContext, with_transaction}
use ceoma_api.DbHelpers.{progression_index}
use ceoma_api.Shipments.{ShipmentStatusInput, advance, update_status}

module _ (shipment_id : ℕ) (input : ShipmentStatusInput) (actor : AuthContext) (s : Store) where
  abbrev pub is_backward : Shipment → Bool
  is_backward r = ltb (progression_index input.status) (progression_index r.status)

  abbrev pub advanced : Store
  advanced = record s {
    shipments =
        update (owned shipment_id actor.organization_id) (advance shipment_id input actor)
          s.shipments;
  }

  abbrev pub number_of : Shipment → Option String
  number_of r =
      Option.map (λ c. c.contract_number)
        (find (owned r.contract_id actor.organization_id) s.contracts)

  abbrev pub status_outcome : Option Shipment → Result (Shipment × Option String) × Store
  status_outcome none = (err (api_error 404 (not_found "Shipment" shipment_id)), s)
  status_outcome (some r) =
      if is_backward r
      then (err (api_error 409 (text "Shipment status cannot move backwards")), s)
      else (ok (advance shipment_id input actor r, number_of r), advanced)

  abbrev pub read_shipment : Option Shipment
  read_shipment = find (owned shipment_id actor.organization_id) s.shipments

  -- A status change is refused, with nothing written, if the organization has no such shipment
  -- (404) or the new status stands before the current one (409). Otherwise the status is
  -- written, with the departure date if one is given, and no other table changes.
  pub update_status_lem : update_status shipment_id input actor s ≡ status_outcome read_shipment
  unfolding update_status with_transaction
  update_status_lem = elim (Option-cases read_shipment) [
    | inl missing ↦ rw missing refl
    | inr (r, found) ↦
        rw found
          (elim (Bool-cases (is_backward r)) [ inl back ↦ rw back refl | inr on ↦ rw on refl ])
  ]

  -- What a status change may do to a shipment.
  pub record Follows (r r' : Shipment) : Type 0 where
    pub forward : progression_index r.status ≤ progression_index r'.status
    pub contract : r'.contract_id ≡ r.contract_id
    pub number : r'.shipment_number ≡ r.shipment_number
    pub snapshot : r'.traceability_snapshot ≡ r.traceability_snapshot

  advance-Follows :
      (r : Shipment) (b : Bool)
      → (b ≡ true → is_backward r ≡ false)
      → Follows r (if b then advance shipment_id input actor r else r)
  advance-Follows r true on = let fine = on refl in ground arith
  advance-Follows r false on = ground arith

  Follows-same : (r : Shipment) → Follows r r
  Follows-same r = ground arith

  advanced-Follows :
      (id org : ℕ) {r : Shipment}
      → (read_shipment ≡ some r → is_backward r ≡ false)
      → find (owned id org) s.shipments ≡ some r
      → (r' : Shipment) × (find (owned id org) advanced.shipments ≡ some r') × Follows r r'
  advanced-Follows id org {r} on found =
      let keys : owned id org r ≡ true =
        (find-All (owned id org) (λ _. Unit) s.shipments found (All-unit s.shipments)).0 in
      (
        (if owned shipment_id actor.organization_id r
            then advance shipment_id input actor r
            else r),
        find-update_where (owned shipment_id actor.organization_id) (owned id org)
            (advance shipment_id input actor) s.shipments (λ x. refl) found,
        advance-Follows r (owned shipment_id actor.organization_id r) (λ hit.
            let same_id : id ≡ shipment_id = ground arith in
            let same_org : org ≡ actor.organization_id = ground arith in
            on (rw (← same_id, ← same_org) found)),
      )

  -- A status change, whatever its outcome, moves no shipment of any organization backwards, and
  -- leaves every shipment's contract, number and traceability snapshot as they are.
  pub update_status-Follows :
      (id org : ℕ) {r : Shipment}
      → find (owned id org) s.shipments ≡ some r
      → (r' : Shipment) × (find (owned id org) (update_status shipment_id input actor s).1.shipments
          ≡ some r')
        × Follows r r'
  update_status-Follows id org {r} found = rw update_status_lem (elim (Option-cases read_shipment) [
    | inl missing ↦ rw missing (r, found, Follows-same r)
    | inr (r₀, read) ↦ rw read (elim (Bool-cases (is_backward r₀)) [
      | inl back ↦ rw back (r, found, Follows-same r)
      | inr on ↦
          rw on (advanced-Follows id org (λ e. let same : r₀ ≡ r = cc in rw (← same) on) found)
    ])
  ])

-- A sequence of status changes, by any users, each on its own shipment.
pub record StatusRequest : Type 0 where
  pub shipment_id : ℕ
  pub input : ShipmentStatusInput
  pub actor : AuthContext

pub run_requests : List StatusRequest → Store → Store
run_requests [] s = s
run_requests (q ∷ qs) s = run_requests qs (update_status q.shipment_id q.input q.actor s).1

-- Over any sequence of status changes, accepted or refused, a shipment only moves forward, and
-- its frozen snapshot stays what it was.
pub run_requests_forward :
    (qs : List StatusRequest) (s : Store) (id org : ℕ) {r : Shipment}
    → find (owned id org) s.shipments ≡ some r
    → (r' : Shipment) × (find (owned id org) (run_requests qs s).shipments ≡ some r')
      × (progression_index r.status ≤ progression_index r'.status)
      × (r'.traceability_snapshot ≡ r.traceability_snapshot)
unfolding run_requests
run_requests_forward [] s id org {r} found = (r, found, omega arith, refl)
run_requests_forward (q ∷ qs) s id org {r} found =
    let (mid, there, step) = update_status-Follows q.shipment_id q.input q.actor s id org found in
    let (end, found', ahead, frozen) =
      run_requests_forward qs (update_status q.shipment_id q.input q.actor s).1 id org there in
    (end, found', omega arith, frozen ∙ step.snapshot)
