-- ===== src/Access/Identity.antt =====
-- Who a request acts for.
use ceoma_api.Prelude.{
  ℕ, ◌≡◌, refl, sym, ap, ◌∙◌, Bool, true, ◌&&◌, some, List, [], ◌∷◌, All-unit, String, arith,
  Option-cases, Bool-cases, inl, inr, ◌==◌,
}
use ceoma_api.Errors.{Result, ok, Result-cases}
use ceoma_api.Sql.{find}
use ceoma_api.Sql.Laws.{find-All}
use ceoma_api.Store.{AuthContext}
use ceoma_api.Http.{Request, first, truthy}
use ceoma_api.Access.{
  Accounts, User, ApiKey, Claims, user_by_id, is_usable, parse_bearer_token, by_token, by_key,
  resolve_auth_context, token_context, key_context,
}

-- The context is that of an active user of the database, with the user's present role and organization.
abbrev pub IsOfUser : Accounts → AuthContext → Type 0
IsOfUser s auth =
    (u : User) × (find (λ x. x.id == auth.user_id && x.is_active) s.users ≡ some u)
    × (auth.role ≡ u.role)
    × (auth.organization_id ≡ u.organization_id)

-- A row that is found and fits a second condition is found by both.
find_both :
    (p q : User → Bool) (rs : List User) {u : User}
    → find p rs ≡ some u
    → q u ≡ true
    → find (λ x. p x && q x) rs ≡ some u
unfolding find
find_both p q [] e h = cc
find_both p q (x ∷ xs) {u} e h = elim (Bool-cases (p x)) [
  | inl hit ↦ ground arith
  | inr miss ↦ ground (arith, find_both p q xs {u = u})
]

ok_some : {A : Type 0} (x y : A) → ok (some x) ≡ ok (some y) → x ≡ y
ok_some x y h = cc

module _ (verify : String → Result Claims) (hash : String → String) (now : ℕ) (s : Accounts)
    (auth : AuthContext) where
  token_user :
      (u : User) (claims : Claims)
      → user_by_id claims.sub s ≡ some u
      → u.is_active ≡ true
      → IsOfUser s (token_context u claims)
  token_user u claims found active =
      let named : claims.sub ≡ u.id =
        ground (arith, (find-All _ (λ x. Unit {0}) s.users found (All-unit s.users)).0) in
      (
        u,
        ap (λ n. find (λ x. x.id == n && x.is_active) s.users) (sym named)
            ∙ find_both _ (λ x. x.is_active) s.users found active,
        refl,
        refl,
      )

  by_token-IsOfUser :
      (bearer : String) → (by_token verify hash now bearer s).0 ≡ ok (some auth) → IsOfUser s auth
  unfolding by_token
  by_token-IsOfUser bearer = elim (Result-cases (verify bearer)) [
    | inl (e, bad) ↦ rw bad (λ h. cc)
    | inr (claims, good) ↦ elim (Option-cases (user_by_id claims.sub s)) [
      | inl missing ↦ rw (good, missing) (λ h. cc)
      | inr (u, found) ↦ elim (Bool-cases u.is_active) [
        | inr idle ↦ rw (good, found, idle) (λ h. cc)
        | inl active ↦ elim (Bool-cases (u.organization_id == claims.organization_id)) [
          | inr elsewhere ↦ rw (good, found, active, elsewhere) (λ h. cc)
          | inl home ↦
              rw (good, found, active, home)
                (λ h. rw (← ok_some _ auth h) (token_user u claims found active))
        ]
      ]
    ]
  ]

  by_key-IsOfUser :
      (api_key : String) → (by_key verify hash now api_key s).0 ≡ ok (some auth) → IsOfUser s auth
  unfolding by_key
  by_key-IsOfUser api_key =
      elim (Option-cases (find (is_usable now (hash api_key) s.users) s.api_keys)) [
        | inl missing ↦ rw missing (λ h. cc)
        | inr (key, found) ↦
            elim (Option-cases (find (λ u. u.id == key.user_id && u.is_active) s.users)) [
              | inl gone ↦ rw (found, gone) (λ h. cc)
              | inr (u, hit) ↦ rw (found, hit) (λ h. rw (← ok_some _ auth h) (key_user u key hit))
            ]
      ]
    where
      key_user :
          (u : User) (key : ApiKey)
          → find (λ x. x.id == key.user_id && x.is_active) s.users ≡ some u
          → IsOfUser s (key_context u key)
      key_user u key hit =
          let named : key.user_id ≡ u.id =
            ground (arith, (find-All _ (λ x. Unit {0}) s.users hit (All-unit s.users)).0) in
          (u, ap (λ n. find (λ x. x.id == n && x.is_active) s.users) (sym named) ∙ hit, refl, refl)

  -- Whatever a request carries, a context that it is given is that of an active user of the
  -- database, with the role and the organization that the database has for that user now.
  pub resolve_auth_context-IsOfUser :
      (req : Request)
      → (resolve_auth_context verify hash now req s).0 ≡ ok (some auth)
      → IsOfUser s auth
  unfolding resolve_auth_context
  resolve_auth_context-IsOfUser req = elim (Option-cases (parse_bearer_token req.authorization)) [
    | inr (bearer, given) ↦ rw (resolve_auth_context, given) (by_token-IsOfUser bearer)
    | inl none_given ↦ elim (Option-cases (truthy (first req.x_api_key))) [
      | inr (api_key, given) ↦
          rw (resolve_auth_context, none_given, given) (by_key-IsOfUser api_key)
      | inl bare ↦ rw (resolve_auth_context, none_given, bare) (λ h. cc)
    ]
  ]
