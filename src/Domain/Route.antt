-- ===== src/Domain/Route.antt =====
-- A configured route to one upstream model (crates/slg-domain/src/lib.rs, `RouteCandidate`).
use smart_llm_gateway.Prelude.{ℕ, String}
use smart_llm_gateway.Domain.Credential.{CredentialReference}

-- `priority` is a `u32`, which is only compared.
pub record RouteCandidate : Type 0 where
  pub route_id : String
  pub logical_model : String
  pub provider_account_id : String
  pub provider : String
  pub credential_ref : CredentialReference
  pub base_url : String
  pub upstream_model : String
  pub priority : ℕ
