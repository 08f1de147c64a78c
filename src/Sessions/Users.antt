-- ===== src/Sessions/Users.antt =====
-- `updateUserStatus`, `createApiKey` and `revokeApiKey` of src/modules/auth/auth.service.ts, under the
-- row level security of prisma/migrations/20260316120000_enable_rls: `bypass` is whether the role that
-- the application connects with has BYPASSRLS. Each statement is a transaction of its own.
use ceoma_api.Prelude.{
  ◌≡◌, ◌≢◌, refl, ap, sym, ◌∙◌, ℕ, Bool, true, false, not, ◌&&◌, ◌||◌, Option, none, some, List, [],
  ◌∷◌, All, ◌==◌, if◌then◌else◌, is_some, arith, Bool-cases, Option-cases, inl, inr,
}
use mathlib.Core.Path.{fun_ext}
use ceoma_api.Errors.{Result, ok, err, api_error, text}
use ceoma_api.Sql.{find, update}
use ceoma_api.Store.{AuthContext, UserRole, Tx, ◌>>◌, throw_if}
use ceoma_api.Access.{same_role}
use ceoma_api.Sessions.{AuthStore, Session, UserRow, revoke, write_sessions}

abbrev pub is_admin_role : AuthContext → Bool
is_admin_role actor = same_role actor.role UserRole.admin

-- The policies `users_update` and `user_sessions_all`
unfoldable pub may_update_user : Bool → AuthContext → UserRow → Bool
may_update_user bypass actor u =
    bypass
    || (u.organization_id == actor.organization_id
        && (is_admin_role actor || u.id == actor.user_id))

abbrev pub may_see_session : Bool → AuthContext → Session → Bool
may_see_session bypass actor x = bypass || x.user_id == actor.user_id

-- The first statement of `updateUserStatus`
unfoldable pub set_active : Bool → AuthContext → ℕ → Bool → AuthStore → Option UserRow × AuthStore
unfolding find update
set_active bypass actor user_id active s =
    let mine = λ (u : UserRow). u.id == user_id && may_update_user bypass actor u in
    (
      find mine s.users,
      record s { users = update mine (λ u. record u { is_active = active }) s.users },
    )

-- Its second: the sessions of a user who is disabled
unfoldable pub close_sessions : Bool → (now : ℕ) → AuthContext → ℕ → AuthStore → AuthStore
unfolding update
close_sessions bypass now actor user_id =
    write_sessions
      (λ x. x.user_id == user_id && not (is_some x.revoked_at) && may_see_session bypass actor x)
      (revoke now)

-- `rowCount === 0`, else the second statement where the account is disabled
unfoldable pub after_set_active :
    Bool
    → (now : ℕ) → AuthContext
    → ℕ
    → Bool
    → Option UserRow × AuthStore
    → Result UserRow × AuthStore
unfolding close_sessions
after_set_active bypass now actor user_id active (none, s) =
    (err (api_error 404 (text "User not found")), s)
after_set_active bypass now actor user_id active (some u, s) = (
  ok (record u { is_active = active }),
  (if active then s else close_sessions bypass now actor user_id s),
)

-- `updateUserStatus`
unfoldable pub update_user_status :
    Bool → (now : ℕ) → AuthContext → (user_id : ℕ) → (active : Bool) → Tx AuthStore UserRow
unfolding set_active after_set_active
update_user_status bypass now actor user_id active = do
  throw_if (not (is_admin_role actor))
      (api_error 403 (text "Only admin users can update account status"))
  throw_if (not active && actor.user_id == user_id)
      (api_error 400 (text "You cannot disable your own account"))
  λ s. after_set_active bypass now actor user_id active (set_active bypass actor user_id active s)

and_true : (b : Bool) → (b && true) ≡ b
and_true true = refl
and_true false = refl

module _ (now : ℕ) (actor : AuthContext) (user_id : ℕ) (s : AuthStore) where
  closes_each :
      (xs : List Session)
      → All
          (λ x. x.user_id ≡ user_id → is_some x.revoked_at ≡ true)
          (update
            (λ x.
              x.user_id == user_id && not (is_some x.revoked_at) && may_see_session true actor x)
            (revoke now)
            xs)
  unfolding update
  closes_each [] = tt
  closes_each (x ∷ xs) = (λ h. ground arith, closes_each xs)

  -- Where the database role bypasses row level security, after a user was disabled every
  -- session of that user is revoked, and the user is answered as inactive.
  pub disable_user-sessions :
      {u : UserRow}
      → (update_user_status true now actor user_id false s).0 ≡ ok u
      → (u.is_active ≡ false)
        × All
            (λ x. x.user_id ≡ user_id → is_some x.revoked_at ≡ true)
            (update_user_status true now actor user_id false s).1.sessions
  unfolding update_user_status
  disable_user-sessions {u} done = elim (Bool-cases (is_admin_role actor)) [
    | inr no_admin ↦
        let e : err (api_error 403 (text "Only admin users can update account status")) ≡ ok u =
          rw no_admin at done in
        cc
    | inl admin ↦ elim (Bool-cases (actor.user_id == user_id)) [
      | inl own ↦
          let e : err (api_error 400 (text "You cannot disable your own account")) ≡ ok u =
            rw own at (rw admin at done) in
          cc
      | inr other ↦
          elim (Option-cases
            (find (λ u. u.id == user_id && may_update_user true actor u) s.users)) [
              | inl missing ↦
                  let e : err (api_error 404 (text "User not found")) ≡ ok u =
                    rw (missing, after_set_active) at (rw other at (rw admin at done)) in
                  cc
              | inr (v, found) ↦
                  let e : ok (record v { is_active = false }) ≡ ok u =
                    rw (found, after_set_active) at (rw other at (rw admin at done)) in
                  let same : record v { is_active = false } ≡ u = cc in
                  (
                    ap (λ w. w.is_active) (sym same),
                    rw admin (rw other (rw (found, after_set_active) (closes_each s.sessions))),
                  )
            ]
    ]
  ]

  keeps_each :
      (actor.user_id == user_id) ≡ false
      → (xs : List Session)
      → update
          (λ x. x.user_id == user_id && not (is_some x.revoked_at) && may_see_session false actor x)
          (revoke now)
          xs
        ≡ xs
  unfolding update
  keeps_each other [] = refl
  keeps_each other (x ∷ xs) =
      let unseen : (x.user_id == user_id
            && not (is_some x.revoked_at)
            && may_see_session false actor x)
          ≡ false =
        ground arith in
      rw unseen (ap (λ l. x ∷ l) (keeps_each other xs))

  -- Where it does not, only the actor's own sessions are seen, and the actor is someone else.
  disable_user_keeps_sessions :
      (update_user_status false now actor user_id false s).1.sessions ≡ s.sessions
  unfolding update_user_status
  disable_user_keeps_sessions = elim (Bool-cases (is_admin_role actor)) [
    | inr no_admin ↦ rw no_admin refl
    | inl admin ↦ elim (Bool-cases (actor.user_id == user_id)) [
      | inl own ↦ rw admin (rw own refl)
      | inr other ↦
          elim (Option-cases
            (find (λ u. u.id == user_id && may_update_user false actor u) s.users)) [
              | inl missing ↦ rw admin (rw other (rw (missing, after_set_active) refl))
              | inr (v, found) ↦
                  rw admin (rw other (rw (found, after_set_active) (keeps_each other s.sessions)))
            ]
    ]
  ]

  -- Where the role bypasses the policies, the organization of the user is not looked at.
  update_user_status_any_org :
      (active : Bool) {u : UserRow}
      → is_admin_role actor ≡ true
      → actor.user_id ≢ user_id
      → find (λ v. v.id == user_id) s.users ≡ some u
      → (update_user_status true now actor user_id active s).0
        ≡ ok (record u { is_active = active })
  unfolding update_user_status may_update_user
  update_user_status_any_org active {u} admin other found =
      let differ' : (not active && actor.user_id == user_id) ≡ false = ground arith in
      let open_to_all : find (λ v. v.id == user_id && may_update_user true actor v) s.users
          ≡ some u =
        ap (λ p. find p s.users) (fun_ext (λ v. and_true (v.id == user_id))) ∙ found in
      rw admin (rw differ' (rw (open_to_all, after_set_active) refl))

  disables_each :
      (us : List UserRow)
      → All
          (λ v. v.id ≡ user_id → v.is_active ≡ false)
          (update
            (λ v. v.id == user_id && may_update_user true actor v)
            (λ v. record v { is_active = false })
            us)
  unfolding update may_update_user
  disables_each [] = tt
  disables_each (v ∷ us) = elim (Bool-cases (v.id == user_id)) [
    | inl same ↦ rw same (λ h. refl, disables_each us)
    | inr other ↦ rw other (λ h. absurd (ground arith), disables_each us)
  ]

  -- Every row of a user with the identifier is inactive after the call.
  disable_user_writes :
      {u : UserRow}
      → is_admin_role actor ≡ true
      → actor.user_id ≢ user_id
      → find (λ v. v.id == user_id) s.users ≡ some u
      → All
          (λ v. v.id ≡ user_id → v.is_active ≡ false)
          (update_user_status true now actor user_id false s).1.users
  unfolding update_user_status may_update_user
  disable_user_writes {u} admin other found =
      let differ' : (actor.user_id == user_id) ≡ false = ground arith in
      let open_to_all : find (λ v. v.id == user_id && may_update_user true actor v) s.users
          ≡ some u =
        ap (λ p. find p s.users) (fun_ext (λ v. and_true (v.id == user_id))) ∙ found in
      rw admin (rw differ' (rw (open_to_all, after_set_active) (disables_each s.users)))

  -- For an administrator, and another user whose identifier is in the table, of any
  -- organization: where the database role bypasses row level security the user is answered as
  -- disabled and every row of the table of users with that identifier is inactive afterwards,
  -- whichever the organization; where it does not, disabling leaves the sessions as they were.
  pub update_user_status_bypass :
      {u : UserRow}
      → is_admin_role actor ≡ true
      → actor.user_id ≢ user_id
      → find (λ v. v.id == user_id) s.users ≡ some u
      → ((update_user_status true now actor user_id false s).0
          ≡ ok (record u { is_active = false }))
        × All
            (λ v. v.id ≡ user_id → v.is_active ≡ false)
            (update_user_status true now actor user_id false s).1.users
        × ((update_user_status false now actor user_id false s).1.sessions ≡ s.sessions)
  update_user_status_bypass admin other found = (
    update_user_status_any_org false admin other found,
    disable_user_writes admin other found,
    disable_user_keeps_sessions,
  )
