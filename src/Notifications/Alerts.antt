-- ===== src/Notifications/Alerts.antt =====
-- What the daily alerts say, and to whom (src/modules/notifications/notifications.cron.ts).
use ceoma_api.Prelude.{
  ◌≡◌, refl, ℕ, ◌+◌, ◌-◌, ◌*◌, ◌/◌, ◌≤◌, ℤ, pos, ◌-ℤ◌, max_ℤ, ltb_ℤ, leb_ℤ, ltb, leb, Bool, true,
  false, ◌&&◌, ◌||◌, not, ◌==◌, str_eq, some, List, [], ◌∷◌, String, arith, any, Bool-cases,
  Option-cases, inl, inr, All, All-map,
}
use ceoma_api.Errors.{ok}
use ceoma_api.Quantity.{epsilon}
use ceoma_api.Store.{Contract, ContractStatus, UserRole}
use ceoma_api.Access.{same_role}
use ceoma_api.Sessions.{UserRow}
use ceoma_api.Sessions.Keys.{ApiKeyRow}
use ceoma_api.Notifications.{Mailer, is_email_configured, normalized}
use ceoma_api.Notifications.Templates.{Format, ContractRiskPayload}
use ceoma_api.Notifications.Events.{contract_risk_notice}
use ceoma_api.Notifications.Recipients.{contains, addresses, is_recipient, notify_by_roles_lem}
use ceoma_api.Notifications.Cron.{
  ceil_days, floor_days, days_until, is_open, is_at_risk, risk_payload, ExpiringKey, expiring_key,
  add_by_expiry, expiring_keys, expiry_payload, send_contract_risk_alerts,
}

-- A contract that is open or partially fulfilled, of which more than the tolerance is left, and whose
-- window closes before so many whole days and one more have passed.
abbrev pub is_due : (midnight : ℕ → ℕ) (window_days now : ℕ) → Contract → Bool
is_due midnight window_days now c =
    elim c.status [
      | ContractStatus.open_for_allocation ↦ true
      | ContractStatus.partially_fulfilled ↦ true
      | _ ↦ false
    ]
    && ltb_ℤ (pos 1) (c.quantity_kg -ℤ c.allocated_kg)
    && ltb (midnight c.shipment_window_end) (now + (window_days + 1) * 86400000)

days_until_within :
    (midnight : ℕ → ℕ) (date now window_days : ℕ)
    → leb_ℤ (days_until midnight date now) (pos window_days)
      ≡ ltb (midnight date) (now + (window_days + 1) * 86400000)
unfolding days_until floor_days ◌-ℤ◌
days_until_within midnight date now window_days = ground arith

more_than_epsilon : (x : ℤ) → ltb_ℤ epsilon (max_ℤ x (pos 0)) ≡ ltb_ℤ epsilon x
more_than_epsilon x = ground arith

is_due_lem :
    (midnight : ℕ → ℕ) (window_days now : ℕ) (c : Contract)
    → (is_open c.status && is_at_risk midnight (pos window_days) now c)
      ≡ is_due midnight window_days now c
is_due_lem midnight window_days now c =
    rw
      (
        days_until_within midnight c.shipment_window_end now window_days,
        more_than_epsilon (c.quantity_kg -ℤ c.allocated_kg),
      )
      (by_status c.status)
  where
    by_status :
        (st : ContractStatus)
        → (is_open st
            && (ltb_ℤ epsilon (c.quantity_kg -ℤ c.allocated_kg)
                && ltb (midnight c.shipment_window_end) (now + (window_days + 1) * 86400000)))
          ≡ (elim st [
            | ContractStatus.open_for_allocation ↦ true
            | ContractStatus.partially_fulfilled ↦ true
            | _ ↦ false
          ]
              && ltb_ℤ (pos 1) (c.quantity_kg -ℤ c.allocated_kg)
              && ltb (midnight c.shipment_window_end) (now + (window_days + 1) * 86400000))
    by_status ContractStatus.open_for_allocation = ground arith
    by_status ContractStatus.partially_fulfilled = ground arith
    by_status ContractStatus.fulfilled = ground arith
    by_status ContractStatus.closed = ground arith

-- The address, which is not empty, is that of a system administrator, or of an active user of the
-- organization who is an administrator or a trader there.
abbrev pub is_warned : (String → String) → Mailer → ℕ → List UserRow → String → Bool
is_warned lower mailer org users e =
    not (str_eq e "")
    && (any (λ a. str_eq e (normalized lower a)) mailer.system_admin_emails
        || any
            (λ u.
              u.is_active
              && (same_role u.role UserRole.admin || same_role u.role UserRole.trader)
              && u.organization_id == org
              && str_eq e (normalized lower u.email))
            users)

is_warned_lem :
    (lower : String → String) (mailer : Mailer) (f : Format) (p : ContractRiskPayload)
    (users : List UserRow) (e : String)
    → is_recipient lower mailer (contract_risk_notice f p) users e
      ≡ is_warned lower mailer p.organization_id users e
unfolding contract_risk_notice
is_warned_lem lower mailer f p users e =
    rw
      (any_alike
        (λ u.
          (u.is_active
            && (same_role u.role UserRole.admin || (same_role u.role UserRole.trader || false))
            && u.organization_id == p.organization_id)
          && str_eq e (normalized lower u.email))
        (λ u.
          u.is_active
          && (same_role u.role UserRole.admin || same_role u.role UserRole.trader)
          && u.organization_id == p.organization_id
          && str_eq e (normalized lower u.email))
        (λ u. ground arith) users)
      (ground arith)
  where
    any_alike :
        (p q : UserRow → Bool)
        → ((u : UserRow) → p u ≡ q u)
        → (us : List UserRow) → any p us ≡ any q us
    any_alike p q h [] = refl
    any_alike p q h (u ∷ us) = rw (h u, any_alike p q h us) refl

module _ (lower : String → String)
    (twice : (t : String) → normalized lower (normalized lower t) ≡ normalized lower t) (f : Format)
    (mailer : Mailer) (configured : is_email_configured mailer ≡ true) (midnight : ℕ → ℕ) where
  -- Where mail is configured and the users can be read for each contract, for a normalization
  -- of addresses that is the identity on its results and a window of a whole number of days,
  -- an address gets a risk alert of a run exactly if some contract is open or partially
  -- fulfilled, has more than the tolerance left to allocate, has a window that ends, at
  -- midnight where the process runs, less than the days of the window and one more from the
  -- time at which the contract is reached, and the address, which is not empty, is in normal
  -- form that of a system administrator or of an active administrator or trader of the
  -- contract's organization.
  pub send_contract_risk_alerts_lem :
      (window_days : ℕ) (now : Contract → ℕ) (users : Contract → List UserRow)
      (contracts : List Contract) (e : String)
      → any
          (λ r. contains e (addresses r.1))
          (send_contract_risk_alerts f lower mailer midnight
            (pos window_days)
            now
            (λ c. ok (users c))
            contracts)
        ≡ any
            (λ c.
              is_due midnight window_days (now c) c
              && is_warned lower mailer c.organization_id (users c) e)
            contracts
  unfolding send_contract_risk_alerts
  send_contract_risk_alerts_lem window_days now users [] e = refl
  send_contract_risk_alerts_lem window_days now users (c ∷ cs) e =
      let ih = send_contract_risk_alerts_lem window_days now users cs e in
      let notice = contract_risk_notice f (risk_payload midnight (now c) c) in
      let due = is_due_lem midnight window_days (now c) c in
      let warned = is_warned_lem lower mailer f (risk_payload midnight (now c) c) (users c) e in
      elim (Bool-cases (is_open c.status && is_at_risk midnight (pos window_days) (now c) c)) [
        | inl alert ↦
            rw
              (
                alert,
                (notify_by_roles_lem lower twice mailer notice configured (users c)).1 e,
                warned,
                ← due,
                alert,
                ih,
              )
              refl
        | inr quiet ↦ rw (quiet, ← due, quiet, ih) refl
      ]

-- A key that expires after the time of the statement, and within the window.
abbrev pub ExpiresWithin : (window_days now : ℕ) → ExpiringKey → Type 0
ExpiresWithin window_days now k =
    (now + 1 ≤ k.expires_at) × (k.expires_at ≤ now + window_days * 86400000)

expiring_key-ExpiresWithin :
    (window_days now : ℕ) (users : List UserRow) (k : ApiKeyRow) {row : ExpiringKey}
    → expiring_key window_days now users k ≡ some row
    → ExpiresWithin window_days now row
expiring_key-ExpiresWithin window_days now users k h = ground arith

add_by_expiry-All :
    (P : ExpiringKey → Type 0) (k : ExpiringKey) (ks : List ExpiringKey)
    → P k
    → All P ks
    → All P (add_by_expiry k ks)
unfolding add_by_expiry
add_by_expiry-All P k [] p _ = (p, tt)
add_by_expiry-All P k (j ∷ ks) p (q, qs) = elim (Bool-cases (leb k.expires_at j.expires_at)) [
  | inl e ↦ rw e (p, (q, qs))
  | inr e ↦ rw e (q, add_by_expiry-All P k ks p qs)
]

expiring_keys-ExpiresWithin :
    (window_days now : ℕ) (users : List UserRow) (keys : List ApiKeyRow)
    → All (ExpiresWithin window_days now) (expiring_keys window_days now users keys)
unfolding expiring_keys
expiring_keys-ExpiresWithin window_days now users [] = tt
expiring_keys-ExpiresWithin window_days now users (k ∷ ks) =
    let ih = expiring_keys-ExpiresWithin window_days now users ks in
    elim (Option-cases (expiring_key window_days now users k)) [
      | inl e ↦ rw (e, expiring_keys) ih
      | inr (row, e) ↦
          rw (e, expiring_keys)
            (add_by_expiry-All (ExpiresWithin window_days now) row _
              (expiring_key-ExpiresWithin window_days now users k e) ih)
    ]

-- The number of days that a mail names, written at a time from the statement to the expiry
abbrev pub DaysWithin : (window_days : ℕ) (later : ExpiringKey → ℕ) → ExpiringKey → Type 0
DaysWithin window_days later k =
    (days : ℕ) × ((expiry_payload (later k) k).days_to_expiry ≡ pos days)
    × (days ≤ window_days)
    × (later k + 1 ≤ k.expires_at → 1 ≤ days)

days_within :
    (window_days now t e : ℕ)
    → now ≤ t
    → e ≤ now + window_days * 86400000
    → (days : ℕ) × (max_ℤ (ceil_days (pos e -ℤ pos t)) (pos 0) ≡ pos days)
      × (days ≤ window_days)
      × (t + 1 ≤ e → 1 ≤ days)
unfolding ceil_days ◌-ℤ◌
days_within window_days now t e h k =
    ((e - t + 86399999) / 86400000, ground arith, omega arith, λ later. omega arith)

-- For every API key that the daily statement finds, and a mail written after the statement was
-- made, the mail names at most as many days to the expiry as the window has, and at least one if
-- the key has not expired by then.
pub expiring_keys-DaysWithin :
    (window_days now : ℕ) (later : ExpiringKey → ℕ) (users : List UserRow) (keys : List ApiKeyRow)
    → ((k : ExpiringKey) → now ≤ later k)
    → All (DaysWithin window_days later) (expiring_keys window_days now users keys)
expiring_keys-DaysWithin window_days now later users keys h =
    All-map (ExpiresWithin window_days now) (DaysWithin window_days later)
      (expiring_keys window_days now users keys)
      (λ k w. days_within window_days now (later k) k.expires_at (h k) w.1)
      (expiring_keys-ExpiresWithin window_days now users keys)
