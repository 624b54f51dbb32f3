-- ===== src/Storage/Postgres/Candidates/Tests.antt =====
-- Candidates on concrete tables (crates/slg-adapter-storage-postgres/src/lib.rs).
use smart_llm_gateway.Prelude.{◌≡◌, ◌≢◌, refl, true, none, some, [], ◌∷◌}
use smart_llm_gateway.Prelude.Int.{pos}
use smart_llm_gateway.Storage.Sqlite.Health.{Control, joined, flat_map}
use smart_llm_gateway.Storage.Postgres.{PostgresStore, owned, can_probe, reached}
use smart_llm_gateway.Storage.Postgres.Candidates.{
  candidates, candidate_rows, state_of, reachable_models, reach, reach_step, available,
}
use smart_llm_gateway.Storage.Postgres.Candidates.Probes.{
  Owns, Without, AnswersIf, candidates-Without,
}
use smart_llm_gateway.Storage.Postgres.Candidates.Eligible.{FirstProbed, candidates-FirstProbed}

-- One route, half-open since a probe of this process, with 40 as the time to retry.
abbrev tables : Control
tables = record {
  gateway_keys = [];
  accounts =
      record {
        id = "account";
        provider = "provider";
        credential_ref = "env:KEY";
        base_url = "https://provider.example.test";
        enabled = true;
      }
      ∷ [];
  routes =
      record {
        id = "route";
        logical_model = "model";
        provider_account_id = "account";
        upstream_model = "upstream";
        priority = 1;
        enabled = true;
      }
      ∷ [];
  fallbacks = record { source_model = "model"; target_model = "other"; priority = 1 } ∷ [];
  route_states =
      record { owner = "route"; state = "half_open"; reason = none; retry_at = some (pos 40) } ∷ [];
  account_states =
      record { owner = "account"; state = "unknown"; reason = none; retry_at = none } ∷ [];
}

-- The probe's lease has expired and been deleted by nobody.
abbrev store : PostgresStore
store = record {
  control = tables;
  leases = record { route_id = "route"; lease_id = "ours"; expires_at = pos 110 } ∷ [];
  probe_leases = ("route", "ours") ∷ [];
}

reached_models : reachable_models "model" tables.fallbacks ≡ "other" ∷ "model" ∷ []
unfolding reachable_models reach reach_step
reached_models = refl

owns : Owns "route" store
unfolding owned
owns e = cc

half_open_row : state_of "route" (candidate_rows (pos 5000) "model" tables) ≡ some "half_open"
unfolding state_of candidate_rows available can_probe reached reachable_models reach reach_step
    joined flat_map
half_open_row = refl

not_closed : state_of "route" (candidate_rows (pos 5000) "model" tables) ≢ some "closed"
unfolding state_of candidate_rows available can_probe reached reachable_models reach reach_step
    joined flat_map
not_closed e = cc

candidates-Without_example :
    AnswersIf (Without "route") (candidates (pos 5000) (λ id. "new") "model" store)
candidates-Without_example =
    candidates-Without (pos 5000) (λ id. "new") "model" "route" store owns not_closed

-- No process holds a lease.
abbrev released : PostgresStore
released = record { control = tables; leases = []; probe_leases = [] }

candidates-FirstProbed_example :
    AnswersIf
      (FirstProbed (pos 5000) (candidate_rows (pos 5000) "model" tables))
      (candidates (pos 5000) (λ id. "new") "model" released)
candidates-FirstProbed_example = candidates-FirstProbed (pos 5000) (λ id. "new") "model" released
