-- ===== src/Tests/Sessions.antt =====
-- A replaced refresh token at a concrete session. Tokens are one text each and are their own hashes.
use ceoma_api.Prelude.{◌≡◌, refl, false, true, none, some, [], ◌∷◌, arith, eq_iff}
use mathlib.Core.Bool.{false≢true}
use ceoma_api.Errors.{ok, is_ok}
use ceoma_api.Sql.{find}
use ceoma_api.Store.{UserRole}
use ceoma_api.Sessions.{AuthStore, Session, UserRow, TokenClaims, Crypto, refresh}
use ceoma_api.Sessions.Revocation.{refresh_reuse}

abbrev claims_b : TokenClaims
claims_b = record { sub = 7; role = UserRole.trader; organization_id = 1; session_id = 90 }

abbrev crypto_b : Crypto
crypto_b = record {
  sign_access = λ c. "a";
  sign_refresh = λ c. "r";
  verify_refresh = λ t. ok claims_b;
  hash = λ t. t;
  verify_password = λ h t. true;
  lower = λ t. t;
  decode_exp = λ t. some (some 500);
}

abbrev user_b : UserRow
user_b = record {
  id = 7;
  email = "t@example.org";
  password_hash = "h";
  full_name = "T";
  role = UserRole.trader;
  is_active = true;
  organization_id = 1;
  last_login_at = none;
}

abbrev session_b : Session
session_b = record {
  id = 90;
  user_id = 7;
  refresh_token_hash = "r";
  expires_at = 500;
  revoked_at = none;
}

abbrev sessions_b : AuthStore
sessions_b = record { users = user_b ∷ []; sessions = session_b ∷ [] }

refresh_reuse_example :
    let after = (refresh crypto_b 10 "old" sessions_b).1 in
    (is_ok (refresh crypto_b 10 "old" sessions_b).0 ≡ false)
    × (is_ok (refresh crypto_b 20 "r" after).0 ≡ false)
    × ((refresh crypto_b 20 "r" after).1 ≡ after)
unfolding find
refresh_reuse_example =
    refresh_reuse crypto_b 10 20 "old" "r" claims_b claims_b sessions_b session_b user_b refl refl
      refl (refl, refl) (omega arith) (refl, refl) (λ e. false≢true ((eq_iff "old" "r").1 e)) refl
      refl
