-- ===== src/Sessions/Keys.antt =====
-- `createApiKey` and `revokeApiKey` of src/modules/auth/auth.service.ts, under the policy
-- `api_keys_all`: `bypass` is as in Sessions/Users.antt.
use ceoma_api.Prelude.{
  ◌≡◌, ◌⊎◌, refl, ℕ, ◌+◌, ◌*◌, Bool, true, false, not, ◌&&◌, ◌||◌, Option, none, some, List, ◌∷◌,
  any, String, ◌==◌, str_eq, if◌then◌else◌, or_default, is_some, arith, Bool-cases, Option-cases,
  inl, inr,
}
use mathlib.Core.Option
use ceoma_api.Errors.{Failure, ok, err, api_error, pg_error, text}
use ceoma_api.Sql.{find, update}
use ceoma_api.Sql.Laws.{find-update}
use ceoma_api.Store.{AuthContext, Tx, ◌>>=◌, ◌>>◌, pure, throw_if, modify, gets}
use ceoma_api.Sessions.{UserRow}
use ceoma_api.Sessions.Users.{is_admin_role}

-- A row of api_keys
pub record ApiKeyRow : Type 0 where
  pub id : ℕ
  pub user_id : ℕ
  pub name : String
  pub key_hash : String
  pub key_prefix : String
  pub is_active : Bool
  pub expires_at : Option ℕ
  pub revoked_at : Option ℕ

pub record ApiKeyStore : Type 0 where
  pub users : List UserRow
  pub keys : List ApiKeyRow

-- `CreateApiKeyInput`
pub record ApiKeyInput : Type 0 where
  pub user_id : Option ℕ
  pub name : String
  pub expires_in_days : Option ℕ

-- What `createApiKey` draws: the identifier, the prefix and the whole key
pub record ApiKeyDraws : Type 0 where
  pub id : ℕ
  pub prefix : String
  pub api_key : String

-- The answer of `createApiKey`: the row, and the key in clear
pub record CreatedKey : Type 0 where
  pub row : ApiKeyRow
  pub api_key : String

-- `user_id = current_setting('app.user_id')`
unfoldable pub may_use_key : Bool → AuthContext → ℕ → Bool
may_use_key bypass actor owner = bypass || owner == actor.user_id

abbrev pub target_of : AuthContext → ApiKeyInput → ℕ
target_of actor input = or_default input.user_id actor.user_id

abbrev pub new_key :
    (String → String) → (now : ℕ) → ApiKeyDraws → AuthContext → ApiKeyInput → ApiKeyRow
new_key hash now draws actor input = record {
  id = draws.id;
  user_id = target_of actor input;
  name = input.name;
  key_hash = hash draws.api_key;
  key_prefix = draws.prefix;
  is_active = true;
  expires_at = Option.map (λ days. now + days * 86400000) input.expires_in_days;
  revoked_at = none;
}

-- `SELECT id, is_active FROM users WHERE id = $1 AND organization_id = $2`
unfoldable pub target_user : AuthContext → ApiKeyInput → ApiKeyStore → Option UserRow
target_user actor input s =
    find (λ u. u.id == target_of actor input && u.organization_id == actor.organization_id) s.users

abbrev pub is_missing : Option UserRow → Bool
is_missing none = true
is_missing (some u) = not u.is_active

-- `createApiKey`; `hash` is `hashSha256`, and the hash of a key is unique.
unfoldable pub create_api_key :
    Bool
    → (hash : String → String) → (now : ℕ) → ApiKeyDraws
    → AuthContext
    → ApiKeyInput
    → Tx ApiKeyStore CreatedKey
create_api_key bypass hash now draws actor input = do
  throw_if (not (target_of actor input == actor.user_id) && not (is_admin_role actor))
      (api_error 403 (text "Only admin can create API keys for another user"))
  user ← gets (target_user actor input)
  throw_if (is_missing user) (api_error 404 (text "Target user is not active or missing"))
  throw_if (not (may_use_key bypass actor (target_of actor input))) (pg_error "42501")
  clash ← gets (λ s. any (λ k. k.id == draws.id || str_eq k.key_hash (hash draws.api_key)) s.keys)
  throw_if clash (pg_error "23505")
  modify (λ s. record s { keys = new_key hash now draws actor input ∷ s.keys })
  pure (record { row = new_key hash now draws actor input; api_key = draws.api_key })

abbrev pub is_revoked_key : ApiKeyRow → Bool
is_revoked_key k = is_some k.revoked_at || not k.is_active

-- `SET is_active = FALSE, revoked_at = NOW()`
abbrev pub revoke_key : ℕ → ApiKeyRow → ApiKeyRow
revoke_key now k = record k { is_active = false; revoked_at = some now }

-- What follows the `SELECT` of `revokeApiKey`
unfoldable pub revoke_found :
    (now : ℕ) → (ApiKeyRow → Bool) → Option ApiKeyRow → Tx ApiKeyStore ApiKeyRow
unfolding update
revoke_found now mine none s = (err (api_error 404 (text "API key not found")), s)
revoke_found now mine (some k) s =
    if is_revoked_key k
    then (ok (record k { is_active = false }), s)
    else (ok (revoke_key now k), record s { keys = update mine (revoke_key now) s.keys })

-- `revokeApiKey`
unfoldable pub revoke_api_key : Bool → (now : ℕ) → AuthContext → ℕ → Tx ApiKeyStore ApiKeyRow
unfolding find revoke_found
revoke_api_key bypass now actor key_id = do
  throw_if (not (is_admin_role actor)) (api_error 403 (text "Only admin users can revoke API keys"))
  λ s.
      let mine = λ (k : ApiKeyRow). k.id == key_id && may_use_key bypass actor k.user_id in
      revoke_found now mine (find mine s.keys) s

-- The user of the actor's organization that a key belongs to.
abbrev pub active_owner : AuthContext → ApiKeyRow → ApiKeyStore → Option UserRow
active_owner actor k s =
    find (λ v. v.id == k.user_id && v.organization_id == actor.organization_id) s.users

-- A key is its owner's, or an administrator's to give, and the owner is an active user.
abbrev pub IsRightful : AuthContext → ApiKeyRow → ApiKeyStore → Type 0
IsRightful actor k s =
    ((k.user_id ≡ actor.user_id) ⊎ (is_admin_role actor ≡ true))
    × ((u : UserRow) × (active_owner actor k s ≡ some u) × (u.is_active ≡ true))

own_or_admin :
    (actor : AuthContext) (target : ℕ)
    → (not (target == actor.user_id) && not (is_admin_role actor)) ≡ false
    → (target ≡ actor.user_id) ⊎ (is_admin_role actor ≡ true)
own_or_admin actor target h = elim (Bool-cases (target == actor.user_id)) [
  | inl own ↦ inl (ground arith)
  | inr other ↦ elim (Bool-cases (is_admin_role actor)) [
    | inl admin ↦ inr admin
    | inr no_admin ↦ let no : true ≡ false = rw no_admin at (rw other at h) in cc
  ]
]

present_user :
    (o : Option UserRow)
    → is_missing o ≡ false
    → (u : UserRow) × (o ≡ some u) × (u.is_active ≡ true)
present_user none h = cc
present_user (some u) h = (u, refl, ground arith)

-- Creating an API key either fails and writes nothing, or adds one key, which is for the actor
-- or was given by an administrator, and whose owner is an active user of the actor's
-- organization.
pub create_api_key_lem :
    (bypass : Bool) (hash : String → String) (now : ℕ) (draws : ApiKeyDraws) (actor : AuthContext)
    (input : ApiKeyInput) (s : ApiKeyStore)
    → ((e : Failure) × (create_api_key bypass hash now draws actor input s ≡ (err e, s)))
      ⊎ ((create_api_key bypass hash now draws actor input s ≡ (
        ok (record { row = new_key hash now draws actor input; api_key = draws.api_key }),
        record s { keys = new_key hash now draws actor input ∷ s.keys },
      ))
          × IsRightful actor (new_key hash now draws actor input) s)
unfolding create_api_key find target_user
create_api_key_lem bypass hash now draws actor input s =
    elim (Bool-cases (not (target_of actor input == actor.user_id) && not (is_admin_role actor))) [
      | inl other ↦
          inl
            (api_error 403 (text "Only admin can create API keys for another user"), rw other refl)
      | inr allowed ↦ rw allowed (elim (Bool-cases (is_missing (target_user actor input s))) [
        | inl missing ↦
            inl (api_error 404 (text "Target user is not active or missing"), rw missing refl)
        | inr present ↦
            rw present (elim (Bool-cases (may_use_key bypass actor (target_of actor input))) [
              | inr hidden ↦ inl (pg_error "42501", rw hidden refl)
              | inl seen ↦
                  rw seen
                    (elim (Bool-cases (
                      any (λ k. k.id == draws.id || str_eq k.key_hash (hash draws.api_key))
                        s.keys)) [
                          | inl clash ↦ inl (pg_error "23505", rw clash refl)
                          | inr fresh ↦ inr (
                            rw fresh refl,
                            (
                              own_or_admin actor (target_of actor input) allowed,
                              present_user (target_user actor input s) present,
                            ),
                          )
                        ])
            ])
      ])
    ]

-- Revoking a key again changes nothing.
pub revoke_api_key-again :
    (bypass : Bool) (now later : ℕ) (actor : AuthContext) (key_id : ℕ) (s : ApiKeyStore)
    → (revoke_api_key bypass later actor key_id (revoke_api_key bypass now actor key_id s).1).1
      ≡ (revoke_api_key bypass now actor key_id s).1
unfolding revoke_api_key
revoke_api_key-again bypass now later actor key_id s =
    let mine = λ (k : ApiKeyRow). k.id == key_id && may_use_key bypass actor k.user_id in
    elim (Bool-cases (is_admin_role actor)) [
      | inr no_admin ↦ rw no_admin refl
      | inl admin ↦ rw admin (elim (Option-cases (find mine s.keys)) [
        | inl missing ↦ rw (missing, revoke_found) (rw (missing, revoke_found) refl)
        | inr (k, found) ↦ elim (Bool-cases (is_revoked_key k)) [
          | inl before ↦ rw (found, revoke_found, before) (rw (found, revoke_found, before) refl)
          | inr live ↦
              let again : find mine (update mine (revoke_key now) s.keys)
                  ≡ some (revoke_key now k) =
                find-update mine (revoke_key now) s.keys (λ r. refl) found in
              rw (found, revoke_found, live) (rw (again, revoke_found) refl)
        ]
      ])
    ]
