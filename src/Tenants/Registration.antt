-- ===== src/Tenants/Registration.antt =====
-- What registering a user keeps true of the directory.
use ceoma_api.Prelude.{
  ◌≡◌, refl, ◌⊎◌, inl, inr, ℕ, Option, String, length, ◌==◌, str_eq, or_default, Bool-cases,
  Option-cases,
}
use ceoma_api.Errors.{Failure, ok, err, api_error, pg_error, text, Result-cases}
use ceoma_api.Store.{AuthContext, UserRole}
use ceoma_api.Http.{truthy}
use ceoma_api.Tenants.{Directory, Draws, slug_at, slugify_organization}
use ceoma_api.Tenants.Creation.{
  RegisterInput, register, bootstrap, registered_tenant, registered_plan, registered_user,
  registrar,
}
use ceoma_api.Tenants.Slugs.{
  IsTidy, insert_tenant_lem, with_tenant, with_tenant-IsTidy, with_plan, add_plan-cases,
  with_plan-IsTidy, settle_user,
}

module _ (lower hash_password : String → String) where
  bootstrap-cases :
      (now : ℕ) (draws : Draws) (name : Option String) (s : Directory)
      → IsTidy s
      → ((e : Failure) × (s' : Directory) × (bootstrap lower hash_password now draws name s
            ≡ (err e, s')))
        ⊎ ((id : ℕ) × (s' : Directory) × IsTidy s'
            × (bootstrap lower hash_password now draws name s ≡ (ok id, s')))
  unfolding bootstrap
  bootstrap-cases now draws name s tidy = elim (Option-cases (truthy name)) [
    | inl missing ↦ inl (
      api_error 400 (text "organization_name is required for initial registration"),
      s,
      rw missing refl,
    )
    | inr (n, given) ↦ rw given (elim (Bool-cases (str_eq (slugify_organization lower n) "")) [
      | inl empty ↦ inl (api_error 400 (text "Invalid organization_name"), s, rw empty refl)
      | inr named ↦
          rw named
            (elim (insert_tenant_lem draws (registered_tenant lower hash_password n)
              (slugify_organization lower n) 6 0 s) [
                | inl (all, failed) ↦ inl (
                  api_error 409 (text "Unable to create organization. Try a different name."),
                  s,
                  rw failed refl,
                )
                | inr (k, from, below, before, (free, ends)) ↦ elim ends [
                  | inl (in_use, failed) ↦ inl (pg_error "23505", s, rw failed refl)
                  | inr (inl (author, called, unknown, failed)) ↦ cc
                  | inr (inr (fresh, known_or_none, made)) ↦
                      let id = draws.tenant_id k in
                      let t =
                        registered_tenant lower hash_password n id
                          (slug_at draws (slugify_organization lower n) k) in
                      let p = registered_plan lower hash_password now draws id in
                      elim (add_plan-cases p (with_tenant t s)) [
                        | inl clash ↦
                            inl (pg_error "23505", with_tenant t s, rw made (rw clash refl))
                        | inr added ↦ inr (
                          id,
                          with_plan p (with_tenant t s),
                          with_plan-IsTidy (with_tenant t s)
                              (with_tenant-IsTidy s tidy t free fresh) p,
                          rw made (rw added refl),
                        )
                      ]
                ]
              ])
    ])
  ]

  pub register-IsTidy :
      (now : ℕ) (draws : Draws) (input : RegisterInput) (actor : Option AuthContext) (s : Directory)
      → IsTidy s
      → IsTidy (register lower hash_password now draws input actor s).1
  unfolding register
  register-IsTidy now draws input actor s tidy = elim (Bool-cases (length s.users == 0)) [
    | inl first ↦
        rw (first, register)
          (elim (bootstrap-cases now draws input.organization_name s tidy) [
            | inl (e, s', failed) ↦ rw failed tidy
            | inr (id, s', tidy', made) ↦ rw made (
                settle_user s s' (registered_user lower hash_password draws input UserRole.admin id)
                  _ tidy tidy')
          ])
    | inr more ↦
        rw (more, register)
          (elim (Result-cases (registrar lower hash_password actor)) [
            | inl (e, refused) ↦ rw refused tidy
            | inr (admin, allowed) ↦ rw allowed (
                settle_user s s
                  (registered_user lower hash_password draws input
                    (or_default input.role UserRole.trader) admin.organization_id)
                  _ tidy tidy)
          ])
  ]
