-- ===== src/Domain/Failure.antt =====
-- Failure categories and what each one does to the state of routes and accounts
-- (crates/slg-domain/src/lib.rs, `ErrorCategory`, `ProviderFailure`).
use smart_llm_gateway.Prelude.{ℕ, String, ◌≡◌, Bool, true, false, Option, arith, not}
use smart_llm_gateway.Prelude.Int.{ℤ}

pub data ErrorCategory : Type 0 where
  quota_exhausted credit_exhausted spend_limit_exceeded rate_limited concurrency_limited
        authentication_failed model_unavailable provider_unavailable unknown :
      ErrorCategory

unfoldable pub blocks_account : ErrorCategory → Bool
blocks_account ErrorCategory.quota_exhausted = true
blocks_account ErrorCategory.credit_exhausted = true
blocks_account ErrorCategory.spend_limit_exceeded = true
blocks_account ErrorCategory.authentication_failed = true
blocks_account _ = false

unfoldable pub opens_route : ErrorCategory → Bool
opens_route ErrorCategory.rate_limited = true
opens_route ErrorCategory.concurrency_limited = true
opens_route ErrorCategory.model_unavailable = true
opens_route ErrorCategory.provider_unavailable = true
opens_route ErrorCategory.unknown = true
opens_route _ = false

-- `status` is an HTTP status (`u16`), `retry_at_unix` an `i64`.
pub record ProviderFailure : Type 0 where
  pub category : ErrorCategory
  pub message : String
  pub status : Option ℕ
  pub retry_at_unix : Option ℤ

-- A category blocks the account exactly when it does not open the route.
pub blocks_account-opens_route : (c : ErrorCategory) → blocks_account c ≡ not (opens_route c)
unfolding blocks_account opens_route
blocks_account-opens_route c = ground arith
