-- ===== src/Storage/Sqlite.antt =====
-- The SQLite control plane (crates/slg-adapter-storage-sqlite/src/lib.rs): the rows of its tables, and
-- its operations, each of which is the effect of its SQL statements on the tables. What SQLite itself
-- may report (a poisoned lock, a full disk) is not modelled.
pub mod Attempts
pub mod Health
pub mod Accounting
pub mod Administration
use smart_llm_gateway.Prelude.{ℕ, String, Bool, Option}
use smart_llm_gateway.Prelude.Int.{ℤ}

-- `gateway_keys`
pub record GatewayKey : Type 0 where
  pub key_hash : String
  pub enabled : Bool

-- `provider_accounts`
pub record ProviderAccount : Type 0 where
  pub id : String
  pub provider : String
  pub credential_ref : String
  pub base_url : String
  pub enabled : Bool

-- `provider_routes`
pub record ProviderRoute : Type 0 where
  pub id : String
  pub logical_model : String
  pub provider_account_id : String
  pub upstream_model : String
  pub priority : ℕ
  pub enabled : Bool

-- `provider_route_state` and `provider_account_state`; `owner` is the key, `route_id` or `account_id`.
pub record HealthRow : Type 0 where
  pub owner : String
  pub state : String
  pub reason : Option String
  pub retry_at : Option ℤ

-- `usage_attempts`
pub record UsageAttempt : Type 0 where
  pub id : String
  pub request_id : String
  pub route_id : String
  pub outcome : String
  pub failure_category : Option String
