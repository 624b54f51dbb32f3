-- ===== src/Storage/Sqlite/Administration/Tests.antt =====
-- Commands of the administration on concrete tables (crates/slg-adapter-storage-sqlite/src/lib.rs).
use smart_llm_gateway.Prelude.{◌≡◌, refl, [], ◌∷◌, none, err}
use smart_llm_gateway.Storage.Sqlite.{HealthRow}
use smart_llm_gateway.Storage.Postgres.Administration.{Tables, has_priority}
use smart_llm_gateway.Storage.Postgres.Administration.Integrity.{
  model, account, route, perform, perform_all, perform_all-IsIntact,
}
use smart_llm_gateway.Storage.Sqlite.Administration.{
  insert_or_ignore, create_route, foreign_key_failed,
}
use smart_llm_gateway.Storage.Sqlite.Administration.Parity.{stored, perform_sqlite, perform_parity}

abbrev opened : Tables
opened = record {
  logical_models = [];
  control = record {
    gateway_keys = [];
    accounts = [];
    routes = [];
    fallbacks = [];
    route_states = [];
    account_states = [];
  };
}

abbrev blocked_row : HealthRow
blocked_row = record { owner = "account"; state = "blocked"; reason = none; retry_at = none }

state_kept :
    insert_or_ignore (record blocked_row { state = "unknown" }) (blocked_row ∷ [])
    ≡ blocked_row ∷ []
unfolding insert_or_ignore
state_kept = refl

no_such_model :
    create_route "route" "model" "account" "upstream" 2147483648 opened ≡ err foreign_key_failed
unfolding create_route has_priority
no_such_model = refl

abbrev seeded : Tables
seeded =
    perform_all
      (model "model" ∷ account "account" "provider" "env:KEY" "https://provider.example.test" ∷ [])
      opened

perform_parity_example :
    stored (perform (route "route" "model" "account" "upstream" 1) seeded)
    ≡ stored (perform_sqlite (route "route" "model" "account" "upstream" 1) seeded)
perform_parity_example = perform_parity (route "route" "model" "account" "upstream" 1) seeded refl (
    perform_all-IsIntact
      (model "model" ∷ account "account" "provider" "env:KEY" "https://provider.example.test" ∷ [])
      opened (tt, tt, refl, refl, tt, tt, tt))
