-- ===== src/Storage/Postgres/Export.antt =====
-- `control_snapshot_data` of the PostgreSQL control plane (crates/slg-adapter-storage-postgres/src/lib.rs).
use smart_llm_gateway.Prelude.{
  String, ◌&&◌, Option, List, [], ◌∷◌, ◌==◌, map, filter, Result, ok, ◌>>=◌,
}
use smart_llm_gateway.Prelude.Int.{ℤ}
use smart_llm_gateway.Domain.Route.{RouteCandidate}
use smart_llm_gateway.Domain.Plan.{Dict}
use smart_llm_gateway.Storage.Sqlite.{ProviderAccount, ProviderRoute, HealthRow}
use smart_llm_gateway.Storage.Sqlite.Health.{Control, flat_map, sort_fallbacks, group_fallbacks}
use smart_llm_gateway.Storage.Postgres.Candidates.{credential_reference}

pub record ControlSnapshotData : Type 0 where
  pub gateway_key_hashes : List String
  pub routes : List RouteCandidate
  pub fallbacks : Dict (List String)
  pub route_states : Dict (String × Option ℤ)
  pub account_states : Dict (String × Option ℤ)

-- `JOIN … WHERE r.enabled = TRUE AND a.enabled = TRUE`
unfoldable pub enabled_rows : Control → List (ProviderRoute × ProviderAccount)
enabled_rows c =
    filter (λ p. (p.1.id == p.0.provider_account_id) && (p.0.enabled && p.1.enabled))
      (flat_map (λ r. map (λ a. (r, a)) c.accounts) c.routes)

unfoldable pub exported_route : ProviderRoute → ProviderAccount → Result RouteCandidate String
exported_route route account = credential_reference account.credential_ref >>= λ reference.
    ok (record {
      route_id = route.id;
      logical_model = route.logical_model;
      provider_account_id = account.id;
      provider = account.provider;
      credential_ref = reference;
      base_url = account.base_url;
      upstream_model = route.upstream_model;
      priority = route.priority;
    })

unfoldable pub exported_routes :
    List (ProviderRoute × ProviderAccount) → Result (List RouteCandidate) String
exported_routes [] = ok []
exported_routes ((r, a) ∷ rows) =
    exported_route r a >>= λ route. exported_routes rows >>= λ routes. ok (route ∷ routes)

-- `(row.get(0), (row.get(1), row.get(2)))`
unfoldable pub exported_states : List HealthRow → Dict (String × Option ℤ)
exported_states = map (λ s. (s.owner, (s.state, s.retry_at)))

unfoldable pub control_snapshot_data : Control → Result ControlSnapshotData String
control_snapshot_data c = exported_routes (enabled_rows c) >>= λ routes. ok (record {
  gateway_key_hashes = map (λ k. k.key_hash) (filter (λ k. k.enabled) c.gateway_keys);
  routes = routes;
  fallbacks = group_fallbacks [] (sort_fallbacks c.fallbacks);
  route_states = exported_states c.route_states;
  account_states = exported_states c.account_states;
})
