-- ===== src/Tenants/Slugs.antt =====
-- The attempts at a slug, and what creating an organization keeps true of the directory.
use ceoma_api.Prelude.{
  ◌≡◌, refl, ◌∙◌, ◌⊎◌, inl, inr, ℕ, zero, suc, ◌+◌, ◌≤◌, ◌<◌, true, false, ◌||◌, none, some, List,
  [], ◌∷◌, any, String, ◌==◌, str_eq, arith, Bool-cases, Option-cases, if◌then◌else◌,
}
use ceoma_api.Errors.{Result, ok, err, api_error, pg_error, text}
use ceoma_api.Store.{continue, settle, pure}
use ceoma_api.Sessions.{UserRow}
use ceoma_api.Tenants.{
  Tenant, TenantPlan, Directory, Draws, slug_at, slug_taken, insert_tenant, insert_user, add_plan,
  lacks_onboarder,
}
use ceoma_api.Tenants.Creation.{
  TenantInput, base_slug, create_organization, new_tenant, new_plan, new_admin,
}

-- The unique indexes of the directory.
abbrev pub SlugsDiffer : List Tenant → Type 0
SlugsDiffer [] = Unit
SlugsDiffer (t ∷ rest) =
    (any (λ u. str_eq u.slug t.slug) rest ≡ false)
    × (any (λ u. u.id == t.id) rest ≡ false)
    × SlugsDiffer rest

abbrev pub PlansDiffer : List TenantPlan → Type 0
PlansDiffer [] = Unit
PlansDiffer (p ∷ rest) =
    (any (λ q. q.organization_id == p.organization_id) rest ≡ false) × PlansDiffer rest

abbrev pub UsersDiffer : List UserRow → Type 0
UsersDiffer [] = Unit
UsersDiffer (u ∷ rest) =
    (any (λ v. v.id == u.id || str_eq v.email u.email) rest ≡ false) × UsersDiffer rest

-- One organization to a slug, one subscription to an organization, one user to an email.
pub record IsTidy (s : Directory) : Type 0 where
  pub tenants : SlugsDiffer s.tenants
  pub plans : PlansDiffer s.plans
  pub users : UsersDiffer s.users

-- The rows that `make` makes have the identifier and the slug that it is given.
pub record Makes (make : ℕ → String → Tenant) : Type 0 where
  pub same_id : (id : ℕ) (slug : String) → (make id slug).id ≡ id
  pub same_slug : (id : ℕ) (slug : String) → (make id slug).slug ≡ slug

module _ (draws : Draws) (make : ℕ → String → Tenant) (base : String) where
  -- The insert of attempt `n`, whose slug is free: its UUID is in use, or the super administrator that
  -- the row names is not there, or the organization is made.
  abbrev pub EndsAt : ℕ → Directory → Result ℕ × Directory → Type 0
  EndsAt n s r =
      let id = draws.tenant_id n in
      let row = make id (slug_at draws base n) in
      (slug_taken (slug_at draws base n) s ≡ false)
      × (((any (λ t. t.id == id) s.tenants ≡ true) × (r ≡ (err (pg_error "23505"), s)))
          ⊎ (((author : ℕ) × (row.onboarded_by ≡ some author)
                × (any (λ a. a.id == author) s.super_admins ≡ false)
                × (r ≡ (err (pg_error "23503"), s)))
              ⊎ ((any (λ t. t.id == id) s.tenants ≡ false)
                  × ((row.onboarded_by ≡ none)
                      ⊎ ((author : ℕ) × (row.onboarded_by ≡ some author)
                          × (any (λ a. a.id == author) s.super_admins ≡ true)))
                  × (r ≡ (ok id, record s { tenants = row ∷ s.tenants })))))

  -- The slugs of these attempts are taken.
  abbrev pub TakenFrom : (from below : ℕ) → Directory → Type 0
  TakenFrom from below s =
      (n : ℕ) → from ≤ n → n < below → slug_taken (slug_at draws base n) s ≡ true

  TakenFrom-step :
      (from below : ℕ) (s : Directory)
      → slug_taken (slug_at draws base from) s ≡ true
      → TakenFrom (from + 1) below s
      → TakenFrom from below s
  TakenFrom-step from below s first later n lo hi = elim (Bool-cases (n == from)) [
    | inl same ↦ let e : n ≡ from = ground arith in rw e first
    | inr other ↦ later n (ground arith) hi
  ]

  out_of_attempts :
      (attempt : ℕ) (s : Directory)
      → insert_tenant draws make base zero attempt s
        ≡ (err (api_error 409 (text "Unable to create organization. Try a different name.")), s)
  unfolding insert_tenant
  out_of_attempts attempt s = refl

  insert_tenant_taken :
      (left attempt : ℕ) (s : Directory)
      → slug_taken (slug_at draws base attempt) s ≡ true
      → insert_tenant draws make base (suc left) attempt s
        ≡ insert_tenant draws make base left (attempt + 1) s
  unfolding insert_tenant
  insert_tenant_taken left attempt s taken = rw taken refl

  EndsAt-insert_tenant :
      (left attempt : ℕ) (s : Directory)
      → slug_taken (slug_at draws base attempt) s ≡ false
      → EndsAt attempt s (insert_tenant draws make base (suc left) attempt s)
  unfolding insert_tenant lacks_onboarder
  EndsAt-insert_tenant left attempt s free =
      let id = draws.tenant_id attempt in
      elim (Bool-cases (any (λ t. t.id == id) s.tenants)) [
        | inl clash ↦ (free, inl (clash, rw free (rw clash refl)))
        | inr fresh ↦ elim (Option-cases (make id (slug_at draws base attempt)).onboarded_by) [
          | inl nobody ↦ (free, inr (inr (fresh, inl nobody, rw free (rw fresh (rw nobody refl)))))
          | inr (author, named) ↦ elim (Bool-cases (any (λ a. a.id == author) s.super_admins)) [
            | inl known ↦ (
              free,
              inr (
                  inr (
                    fresh,
                    inr (author, named, known),
                    rw free (rw fresh (rw named (rw known refl))),
                  )),
            )
            | inr unknown ↦ (
              free,
              inr (inl (author, named, unknown, rw free (rw fresh (rw named (rw unknown refl))))),
            )
          ]
        ]
      ]

  -- The loop over the slugs ends within the attempts that it is given: either all the slugs it
  -- tried are taken, and it answers 409 and writes nothing, or it ends at the first slug that
  -- is free. There the UUID of that attempt is in use, and it is a unique violation and writes
  -- nothing; or the super administrator that the row names is not in the table, and it is a
  -- violation of the foreign key and writes nothing; or that UUID is in use by no
  -- organization, the super administrator that the row names, if it names one, is in the
  -- table, and it adds one organization with that UUID and that slug.
  pub insert_tenant_lem :
      (left attempt : ℕ) (s : Directory)
      → (TakenFrom attempt (attempt + left) s
          × (insert_tenant draws make base left attempt s ≡ (
            err (api_error 409 (text "Unable to create organization. Try a different name.")),
            s,
          )))
        ⊎ ((n : ℕ) × (attempt ≤ n)
            × (n < attempt + left)
            × TakenFrom attempt n s
            × EndsAt n s (insert_tenant draws make base left attempt s))
  insert_tenant_lem zero attempt s =
      inl (λ n from below. absurd (omega arith), out_of_attempts attempt s)
  insert_tenant_lem (suc left) attempt s =
      elim (Bool-cases (slug_taken (slug_at draws base attempt) s)) [
        | inl taken ↦
            let next = insert_tenant_taken left attempt s taken in
            elim (insert_tenant_lem left (attempt + 1) s) [
              | inl (all, failed) ↦ inl (
                λ n from below.
                    TakenFrom-step attempt (attempt + 1 + left) s taken all n from (omega arith),
                next ∙ failed,
              )
              | inr (n, from, below, before, ends) ↦ inr (
                n,
                omega arith,
                omega arith,
                TakenFrom-step attempt n s taken before,
                rw next ends,
              )
            ]
        | inr free ↦ inr (
          attempt,
          omega arith,
          omega arith,
          λ n from below. absurd (omega arith),
          EndsAt-insert_tenant left attempt s free,
        )
      ]

-- The organization that an attempt makes, with its subscription and its first user.
abbrev pub with_tenant : Tenant → Directory → Directory
with_tenant t s = record s { tenants = t ∷ s.tenants }

abbrev pub with_plan : TenantPlan → Directory → Directory
with_plan p s = record s {
  plans =
      if any (λ q. q.organization_id == p.organization_id) s.plans then s.plans else p ∷ s.plans;
}

pub add_plan-cases :
    (p : TenantPlan) (s : Directory)
    → (add_plan p s ≡ (err (pg_error "23505"), s)) ⊎ (add_plan p s ≡ (ok tt, with_plan p s))
unfolding add_plan
add_plan-cases p s = elim (Bool-cases (any (λ q. q.organization_id == p.organization_id) s.plans)) [
  | inl there ↦ inr (rw there refl)
  | inr new ↦ elim (Bool-cases (any (λ q. q.id == p.id) s.plans)) [
    | inl clash ↦ inl (rw new (rw clash refl))
    | inr fresh ↦ inr (rw new (rw fresh refl))
  ]
]

module _ (s : Directory) (tidy : IsTidy s) where
  pub with_tenant-IsTidy :
      (t : Tenant)
      → slug_taken t.slug s ≡ false
      → any (λ u. u.id == t.id) s.tenants ≡ false
      → IsTidy (with_tenant t s)
  with_tenant-IsTidy t free fresh = record {
    tenants = (free, fresh, tidy.tenants);
    plans = tidy.plans;
    users = tidy.users;
  }

  pub with_plan-IsTidy : (p : TenantPlan) → IsTidy (with_plan p s)
  with_plan-IsTidy p =
      elim (Bool-cases (any (λ q. q.organization_id == p.organization_id) s.plans)) [
        | inl there ↦ rw there tidy
        | inr new ↦
            rw new
              (record { tenants = tidy.tenants; plans = (new, tidy.plans); users = tidy.users })
      ]

  insert_user-IsTidy : (u : UserRow) → IsTidy (insert_user u s).1
  unfolding insert_user
  insert_user-IsTidy u =
      elim (Bool-cases (any (λ v. v.id == u.id || str_eq v.email u.email) s.users)) [
        | inl clash ↦ rw clash tidy
        | inr new ↦
            rw new
              (record { tenants = tidy.tenants; plans = tidy.plans; users = (new, tidy.users) })
      ]

-- A transaction that ends in adding a user.
pub settle_user :
    {A : Type 0} (s s' : Directory) (u : UserRow) (a : A)
    → IsTidy s
    → IsTidy s'
    → IsTidy (settle s (continue (insert_user u s') (λ _. pure a))).1
unfolding insert_user
settle_user s s' u a tidy tidy' =
    elim (Bool-cases (any (λ v. v.id == u.id || str_eq v.email u.email) s'.users)) [
      | inl clash ↦ rw clash tidy
      | inr new ↦
          rw new
            (record { tenants = tidy'.tenants; plans = tidy'.plans; users = (new, tidy'.users) })
    ]

module _ (lower hash_password : String → String) where
  -- Creating an organization, whatever its outcome, keeps slugs and identifiers of
  -- organizations, emails and identifiers of users, and the organizations of subscriptions
  -- distinct.
  pub create_organization-IsTidy :
      (now : ℕ) (draws : Draws) (input : TenantInput) (s : Directory)
      → IsTidy s
      → IsTidy (create_organization lower hash_password now draws input s).1
  unfolding create_organization
  create_organization-IsTidy now draws input s tidy =
      elim (Bool-cases (str_eq (base_slug lower input) "")) [
        | inl empty ↦ rw empty tidy
        | inr named ↦
            rw named
              (elim (insert_tenant_lem draws (new_tenant lower hash_password input)
                (base_slug lower input) 6 0 s) [
                  | inl (all, failed) ↦ rw failed tidy
                  | inr (n, from, below, before, (free, ends)) ↦ elim ends [
                    | inl (clash, failed) ↦ rw failed tidy
                    | inr (inl (author, named, unknown, failed)) ↦ rw failed tidy
                    | inr (inr (fresh, known_or_none, made)) ↦
                        let id = draws.tenant_id n in
                        let t =
                          new_tenant lower hash_password input id
                            (slug_at draws (base_slug lower input) n) in
                        let p = new_plan lower hash_password now draws input id in
                        rw made (elim (add_plan-cases p (with_tenant t s)) [
                          | inl in_use ↦ rw in_use tidy
                          | inr added ↦ rw added (
                              settle_user s (with_plan p (with_tenant t s))
                                (new_admin lower hash_password draws input id) id tidy
                                (with_plan-IsTidy (with_tenant t s)
                                  (with_tenant-IsTidy s tidy t free fresh) p))
                        ])
                  ]
                ])
      ]
