-- ===== src/Storage/Postgres/Administration/Tests.antt =====
-- Commands of the administration on concrete tables (crates/slg-adapter-storage-postgres/src/lib.rs).
use smart_llm_gateway.Prelude.{◌≡◌, refl, [], ◌∷◌, err}
use smart_llm_gateway.Storage.Postgres.Administration.{
  Tables, create_route, trim_slashes, reference_violation, has_priority,
}
use smart_llm_gateway.Storage.Postgres.Administration.Integrity.{
  IsIntact, model, account, route, fallback, perform_all, perform_all-IsIntact,
}

abbrev none_yet : Tables
none_yet = record {
  logical_models = [];
  control = record {
    gateway_keys = [];
    accounts = [];
    routes = [];
    fallbacks = [];
    route_states = [];
    account_states = [];
  };
}

trimmed : trim_slashes "https://provider.example.test/v1//" ≡ "https://provider.example.test/v1"
unfolding trim_slashes
trimmed = refl

no_such_model :
    create_route "route" "model" "account" "upstream" 1 none_yet ≡ err reference_violation
unfolding create_route has_priority
no_such_model = refl

too_large :
    create_route "route" "model" "account" "upstream" 2147483648 none_yet
    ≡ err "route priority exceeds PostgreSQL INTEGER"
unfolding create_route
too_large = refl

perform_all-IsIntact_example : IsIntact (
    perform_all
      (model "model"
        ∷ account "account" "provider" "env:KEY" "https://provider.example.test"
        ∷ route "route" "model" "account" "upstream" 1
        ∷ fallback "model" "model" 1
        ∷ [])
      none_yet)
perform_all-IsIntact_example =
    perform_all-IsIntact
      (model "model"
        ∷ account "account" "provider" "env:KEY" "https://provider.example.test"
        ∷ route "route" "model" "account" "upstream" 1
        ∷ fallback "model" "model" 1
        ∷ [])
      none_yet (tt, tt, refl, refl, tt, tt, tt)
