-- ===== src/Tenants/Outcomes.antt =====
-- What comes of creating an organization, and of the other operations on one.
use ceoma_api.Prelude.{
  ◌≡◌, refl, ◌⊎◌, inl, inr, ℕ, ◌<◌, false, ◌||◌, List, ◌∷◌, any, String, ◌==◌, str_eq, arith,
  Bool-cases,
}
use mathlib.Core.List.{Memᴰ}
use mathlib.Core.List.Memᴰ
use ceoma_api.Errors.{Failure, ok, err, api_error, pg_error, text}
use ceoma_api.Tenants.{Directory, Draws, slug_at, slug_taken, insert_user}
use ceoma_api.Tenants.Creation.{
  TenantInput, base_slug, create_organization, new_tenant, new_plan, new_admin,
}
use ceoma_api.Tenants.Slugs.{TakenFrom, insert_tenant_lem, with_tenant, with_plan, add_plan-cases}

module _ (lower hash_password : String → String) where
  -- The directory with what attempt `n` makes.
  abbrev pub created : (now : ℕ) → Draws → TenantInput → ℕ → Directory → Directory
  created now draws input n s =
      let id = draws.tenant_id n in
      let t = new_tenant lower hash_password input id (slug_at draws (base_slug lower input) n) in
      let s' = with_plan (new_plan lower hash_password now draws input id) (with_tenant t s) in
      record s' { users = new_admin lower hash_password draws input id ∷ s'.users }

  pub create_organization_lem :
      (now : ℕ) (draws : Draws) (input : TenantInput) (s : Directory)
      → ((e : Failure) × (create_organization lower hash_password now draws input s ≡ (err e, s)))
        ⊎ ((n : ℕ) × (n < 6)
            × TakenFrom draws (new_tenant lower hash_password input) (base_slug lower input) 0 n s
            × (slug_taken (slug_at draws (base_slug lower input) n) s ≡ false)
            × (create_organization lower hash_password now draws input s
                ≡ (ok (draws.tenant_id n), created now draws input n s)))
  unfolding create_organization insert_user
  create_organization_lem now draws input s =
      elim (Bool-cases (str_eq (base_slug lower input) "")) [
        | inl empty ↦ inl (api_error 400 (text "Invalid organization name"), rw empty refl)
        | inr named ↦
            rw named
              (elim (insert_tenant_lem draws (new_tenant lower hash_password input)
                (base_slug lower input) 6 0 s) [
                  | inl (all, failed) ↦ inl (
                    api_error 409 (text "Unable to create organization. Try a different name."),
                    rw failed refl,
                  )
                  | inr (n, from, below, before, (free, ends)) ↦ elim ends [
                    | inl (in_use, failed) ↦ inl (pg_error "23505", rw failed refl)
                    | inr (inl (author, called, unknown, failed)) ↦
                        inl (pg_error "23503", rw failed refl)
                    | inr (inr (fresh, known_or_none, made)) ↦
                        let id = draws.tenant_id n in
                        let t =
                          new_tenant lower hash_password input id
                            (slug_at draws (base_slug lower input) n) in
                        let p = new_plan lower hash_password now draws input id in
                        elim (add_plan-cases p (with_tenant t s)) [
                          | inl in_use ↦ inl (pg_error "23505", rw made (rw in_use refl))
                          | inr added ↦
                              elim (Bool-cases (
                                any
                                  (λ v.
                                    v.id == draws.user_id
                                    || str_eq v.email (lower input.admin_email))
                                  s.users)) [
                                    | inl clash ↦
                                        inl (pg_error "23505", rw made (rw added (rw clash refl)))
                                    | inr new ↦ inr (
                                      n,
                                      omega arith,
                                      before,
                                      free,
                                      rw made (rw added (rw new refl)),
                                    )
                                  ]
                        ]
                  ]
                ])
      ]
