-- ===== src/Tests/Users.antt =====
-- An administrator disables users, and gives out a key.
use ceoma_api.Prelude.{
  ◌≡◌, ◌⊎◌, refl, true, false, none, some, [], ◌∷◌, String, All, is_some, arith,
}
use ceoma_api.Errors.{Failure, ok, err}
use ceoma_api.Sql.{find}
use ceoma_api.Store.{AuthContext, UserRole}
use ceoma_api.Sessions.{AuthStore, Session, UserRow}
use ceoma_api.Sessions.Users.{
  update_user_status, disable_user-sessions, update_user_status_bypass, may_update_user,
}
use ceoma_api.Sessions.Keys.{
  ApiKeyStore, ApiKeyInput, ApiKeyDraws, create_api_key, new_key, IsRightful, create_api_key_lem,
}
use ceoma_api.Tests.Data.{trader_a}

abbrev admin_c : AuthContext
admin_c = record trader_a { user_id = 8; role = UserRole.admin }

-- A user of another organization
abbrev user_c : UserRow
user_c = record {
  id = 9;
  email = "o@example.org";
  password_hash = "h";
  full_name = "O";
  role = UserRole.trader;
  is_active = true;
  organization_id = 2;
  last_login_at = none;
}

abbrev session_c : Session
session_c = record {
  id = 95;
  user_id = 9;
  refresh_token_hash = "r";
  expires_at = 900;
  revoked_at = none;
}

abbrev sessions_c : AuthStore
sessions_c = record { users = user_c ∷ []; sessions = session_c ∷ [] }

disabled_c :
    (update_user_status true 500 admin_c 9 false sessions_c).0
    ≡ ok (record user_c { is_active = false })
unfolding update_user_status may_update_user
disabled_c = refl

disable_user-sessions_example :
    (false ≡ false)
    × All
        (λ x. x.user_id ≡ 9 → is_some x.revoked_at ≡ true)
        (update_user_status true 500 admin_c 9 false sessions_c).1.sessions
disable_user-sessions_example = disable_user-sessions 500 admin_c 9 sessions_c disabled_c

update_user_status_bypass_example :
    ((update_user_status true 500 admin_c 9 false sessions_c).0
      ≡ ok (record user_c { is_active = false }))
    × All
        (λ v. v.id ≡ 9 → v.is_active ≡ false)
        (update_user_status true 500 admin_c 9 false sessions_c).1.users
    × ((update_user_status false 500 admin_c 9 false sessions_c).1.sessions ≡ sessions_c.sessions)
unfolding find
update_user_status_bypass_example =
    update_user_status_bypass 500 admin_c 9 sessions_c refl (omega arith) refl

abbrev key_input : ApiKeyInput
key_input = record { user_id = none; name = "K"; expires_in_days = some 30 }

abbrev key_draws : ApiKeyDraws
key_draws = record { id = 70; prefix = "kahawatrade_a"; api_key = "kahawatrade_a.b" }

abbrev keys_c : ApiKeyStore
keys_c = record { users = record user_c { id = 8; organization_id = 1 } ∷ []; keys = [] }

abbrev as_is : String → String
as_is t = t

create_api_key_lem_example :
    ((e : Failure) × (create_api_key true as_is 500 key_draws admin_c key_input keys_c
        ≡ (err e, keys_c)))
    ⊎ ((create_api_key true as_is 500 key_draws admin_c key_input keys_c ≡ (
      ok (record {
        row = new_key as_is 500 key_draws admin_c key_input;
        api_key = "kahawatrade_a.b";
      }),
      record keys_c { keys = new_key as_is 500 key_draws admin_c key_input ∷ [] },
    ))
        × IsRightful admin_c (new_key as_is 500 key_draws admin_c key_input) keys_c)
create_api_key_lem_example = create_api_key_lem true as_is 500 key_draws admin_c key_input keys_c
