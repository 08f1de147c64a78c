-- ===== src/Access/AccountRows.antt =====
-- The tables of users, API keys, organizations and subscriptions, as far as the middleware reads them,
-- and the claims of an access token. Times are milliseconds.
use ceoma_api.Prelude.{ℕ, Bool, Option, List, String}
use ceoma_api.Store.{UserRole}

pub record User : Type 0 where
  pub id : ℕ
  pub role : UserRole
  pub is_active : Bool
  pub organization_id : ℕ

pub record ApiKey : Type 0 where
  pub id : ℕ
  pub user_id : ℕ
  pub key_hash : String
  pub is_active : Bool
  pub revoked_at : Option ℕ
  pub expires_at : Option ℕ
  pub last_used_at : Option ℕ

-- An organization is active or suspended.
pub record Organization : Type 0 where
  pub id : ℕ
  pub is_active : Bool

pub data PlanTier : Type 0 where
  starter growth enterprise : PlanTier

pub record Subscription : Type 0 where
  pub organization_id : ℕ
  pub plan : PlanTier

pub record Claims : Type 0 where
  pub sub : ℕ
  pub organization_id : ℕ
  pub session_id : ℕ
  pub impersonated : Bool

pub record Accounts : Type 0 where
  pub users : List User
  pub api_keys : List ApiKey
  pub organizations : List Organization
  pub subscriptions : List Subscription
