-- ===== src/Tests/Web.antt =====
-- Idempotent requests, identities, plan limits and CSRF tokens at concrete values. JSON bodies are
-- numbers here, and the HMAC is a constant.
use ceoma_api.Prelude.{
  ℕ, ◌≡◌, refl, ◌≤◌, true, false, Option, none, some, List, [], ◌∷◌, String, arith,
}
use ceoma_api.Errors.{Result, ok, err, other_error}
use ceoma_api.Sql.{find, count}
use ceoma_api.Store.{UserRole}
use ceoma_api.Texts.{cut}
use ceoma_api.Http.{Request, Method}
use ceoma_api.Idempotency.{KeyRow, KeyStatus, replay, resolve, finish}
use ceoma_api.Idempotency.Claims.{Event, handler_runs, runs_once}
use ceoma_api.Idempotency.Replay.{replay_recorded}
use ceoma_api.Access.{
  Accounts, Claims, PlanTier, PlanResource, plan_limit, resolve_plan, count_resource, plan_guard,
  resolve_auth_context, by_token, parse_bearer_token, build_token, verify_csrf_token,
}
use ceoma_api.Access.Identity.{IsOfUser, resolve_auth_context-IsOfUser}
use ceoma_api.Access.Plans.{plan_guard-create_auction_lot}
use ceoma_api.Access.Checks.{verify-build_token, verify_short_signature}
use ceoma_api.Procurement.{create_auction_lot}
use ceoma_api.Tests.Data.{trader_a, store_a}
use ceoma_api.Tests.Stock.{auctioned}

-- Every body is a JSON object.
abbrev as_it_is : Option ℕ → Option (Option ℕ)
as_it_is body = some body

abbrev row_a : KeyRow ℕ
row_a = record {
  id = 100;
  idempotency_key = "k-1";
  actor_scope = "org:1:user:7";
  request_method = "POST";
  request_path = "/api/v1/contracts";
  request_fingerprint = "f";
  status = KeyStatus.processing;
  response_status = none;
  response_body = none;
  response_content_type = none;
  expires_at = 900;
}

abbrev other_payload : KeyRow ℕ
other_payload = record row_a { id = 101; request_fingerprint = "g" }

abbrev events : List (Event ℕ)
events =
    Event.arrive 10 row_a
    ∷ Event.arrive 11 (record row_a { id = 102 })
    ∷ Event.respond as_it_is 100 201 (some 5) none
    ∷ Event.arrive 12 other_payload
    ∷ []

runs_once_example : handler_runs "k-1" "org:1:user:7" events [] ≤ 1
runs_once_example = runs_once "k-1" "org:1:user:7" 900 events [] (
  (omega arith, omega arith),
  ((omega arith, omega arith), (tt, ((omega arith, omega arith), tt))),
)

replay_recorded_example :
    resolve 20 row_a (finish as_it_is 100 201 (some 5) none (row_a ∷ []))
    ≡ (replay 201 (some 5) none, finish as_it_is 100 201 (some 5) none (row_a ∷ []))
unfolding find
replay_recorded_example =
    replay_recorded as_it_is 20 201 (some 5) none row_a row_a (row_a ∷ []) refl refl refl
      (omega arith)

abbrev accounts_a : Accounts
accounts_a = record {
  users = record { id = 7; role = UserRole.trader; is_active = true; organization_id = 1 } ∷ [];
  api_keys = [];
  organizations = record { id = 1; is_active = true } ∷ [];
  subscriptions = record { organization_id = 1; plan = PlanTier.starter } ∷ [];
}

abbrev claims_a : Claims
claims_a = record { sub = 7; organization_id = 1; session_id = 90; impersonated = false }

abbrev verify_all : String → Result Claims
verify_all _ = ok claims_a

abbrev hash_all : String → String
hash_all t = t

abbrev request_a : Request
request_a = record {
  method = Method.get;
  path = "/api/v1/contracts";
  original_url = "/api/v1/contracts";
  ip = "10.0.0.1";
  body_text = "null";
  auth = none;
  content_type = none;
  idempotency_key = [];
  authorization = some "Bearer abc";
  x_api_key = [];
  origin = none;
  x_csrf_token = [];
  csrf_cookie = none;
}

resolve_auth_context-IsOfUser_example : IsOfUser accounts_a trader_a
unfolding resolve_auth_context by_token parse_bearer_token cut find
resolve_auth_context-IsOfUser_example =
    resolve_auth_context-IsOfUser verify_all hash_all 5 accounts_a trader_a request_a refl

plan_guard-create_auction_lot_example :
    count_resource PlanResource.lots 1 accounts_a
      (create_auction_lot 11 70 auctioned trader_a store_a).1
    ≤ 50
unfolding plan_guard plan_limit resolve_plan find count_resource count
plan_guard-create_auction_lot_example =
    plan_guard-create_auction_lot trader_a accounts_a store_a 50 11 70 auctioned refl refl

abbrev hmac_a : String → String
hmac_a _ = "sig"

verify-build_token_example : verify_csrf_token hmac_a (some "raw.sig") (some "raw.sig") ≡ ok tt
unfolding build_token
verify-build_token_example =
    verify-build_token hmac_a "raw" refl (λ e. cc) "raw.sig" refl (λ e. cc) refl (λ e. cc)

verify_short_signature_example :
    verify_csrf_token hmac_a (some "raw.s") (some "raw.sig") ≡ err other_error
verify_short_signature_example =
    verify_short_signature hmac_a "raw" refl (λ e. cc) "raw.s" "raw.sig" "s" refl (λ e. cc)
      (λ e. cc) refl (λ e. cc) (λ e. omega (arith, e))
