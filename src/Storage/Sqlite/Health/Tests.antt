-- ===== src/Storage/Sqlite/Health/Tests.antt =====
-- Routing in SQLite at a concrete control plane.
use smart_llm_gateway.Prelude.{◌≡◌, ◌≢◌, refl, true, false, none, some, [], ◌∷◌}
use smart_llm_gateway.Prelude.Int.{pos}
use smart_llm_gateway.Domain.Failure.{ErrorCategory, ProviderFailure, opens_route}
use smart_llm_gateway.Ports.{Call}
use smart_llm_gateway.Storage.Sqlite.Health.{
  Control, authenticate, apply_all, mark_account_failure, mark_route_failure, candidates,
}
use smart_llm_gateway.Storage.Sqlite.Health.Routing.{AllOffered}
use smart_llm_gateway.Storage.Sqlite.Health.Rows.{HasRow, candidates_HasRow}
use smart_llm_gateway.Storage.Sqlite.Health.Exclusion.{
  blocked_account_not_offered, opened_route_not_offered,
}

abbrev control : Control
control = record {
  gateway_keys =
      record { key_hash = "key"; enabled = true }
      ∷ record { key_hash = "old"; enabled = false }
      ∷ [];
  accounts =
      record {
        id = "account";
        provider = "provider";
        credential_ref = "env:KEY";
        base_url = "https://example.test";
        enabled = true;
      }
      ∷ [];
  routes =
      record {
        id = "route";
        logical_model = "main";
        provider_account_id = "account";
        upstream_model = "model";
        priority = 1;
        enabled = true;
      }
      ∷ [];
  fallbacks = [];
  route_states = record { owner = "route"; state = "closed"; reason = none; retry_at = none } ∷ [];
  account_states =
      record { owner = "account"; state = "unknown"; reason = none; retry_at = none } ∷ [];
}

abbrev limited : ProviderFailure
limited = record {
  category = ErrorCategory.rate_limited;
  message = "limited";
  status = some 429;
  retry_at_unix = some (pos 20);
}

-- A disabled key does not authenticate.
disabled_key : authenticate (λ raw. raw) "old" control.gateway_keys ≡ false
unfolding authenticate
disabled_key = refl

candidates_HasRow_example :
    AllOffered (HasRow (pos 10) control) (candidates (pos 10) "main" control)
candidates_HasRow_example = candidates_HasRow (pos 10) "main" control

blocked_account_not_offered_example :
    AllOffered
      (λ r. r.provider_account_id ≢ "account")
      (candidates (pos 10) "main" (
        apply_all
          (Call.mark_route_success "route" ∷ [])
          (mark_account_failure "account" limited control)))
blocked_account_not_offered_example =
    blocked_account_not_offered "account" limited (Call.mark_route_success "route" ∷ []) (pos 10)
      "main" control

opened_route_not_offered_example :
    AllOffered
      (λ r. r.route_id ≢ "route")
      (candidates (pos 10) "main" (mark_route_failure "route" limited control))
unfolding opens_route
opened_route_not_offered_example =
    opened_route_not_offered "route" limited (pos 10) "main" control refl refl
