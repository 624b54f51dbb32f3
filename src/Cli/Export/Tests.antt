-- ===== src/Cli/Export/Tests.antt =====
-- Snapshots of concrete tables (crates/smart-llm-gateway/src/main.rs).
use smart_llm_gateway.Prelude.{◌≡◌, ◌≢◌, refl, true, false, none, some, [], ◌∷◌, ok}
use smart_llm_gateway.Prelude.Int.{pos}
use smart_llm_gateway.Storage.Sqlite.{HealthRow}
use smart_llm_gateway.Storage.Sqlite.Health.{Control, flat_map, sort_fallbacks, group_fallbacks}
use smart_llm_gateway.Runtime.Snapshot.{candidates}
use smart_llm_gateway.Runtime.Snapshot.Probes.{Answers, HalfOpen}
use smart_llm_gateway.Storage.Postgres.Export.{
  ControlSnapshotData, control_snapshot_data, enabled_rows, exported_routes, exported_states,
}
use smart_llm_gateway.Cli.Export.{control_snapshot, is_postgres_database}
use smart_llm_gateway.Cli.Export.HalfOpen.{exported-not_offered}

abbrev probing : HealthRow
probing = record { owner = "route"; state = "half_open"; reason = none; retry_at = some (pos 40) }

abbrev tables : Control
tables = record {
  gateway_keys =
      record { key_hash = "hash"; enabled = true }
      ∷ record { key_hash = "old"; enabled = false }
      ∷ [];
  accounts = [];
  routes = [];
  fallbacks = [];
  route_states = probing ∷ [];
  account_states = [];
}

abbrev exported : ControlSnapshotData
exported = record {
  gateway_key_hashes = "hash" ∷ [];
  routes = [];
  fallbacks = [];
  route_states = ("route", ("half_open", some (pos 40))) ∷ [];
  account_states = [];
}

is_exported : control_snapshot_data tables ≡ ok exported
unfolding control_snapshot_data enabled_rows exported_routes exported_states flat_map sort_fallbacks
    group_fallbacks
is_exported = refl

postgres : is_postgres_database "postgresql://localhost/gateway" ≡ true
unfolding is_postgres_database
postgres = refl

exported-not_offered_example :
    Answers
      (λ r. r.route_id ≢ "route")
      (HalfOpen "route")
      (candidates (pos 5000) "model" (control_snapshot exported).0 (control_snapshot exported).1)
exported-not_offered_example =
    exported-not_offered tables exported "route" probing is_exported refl refl (pos 5000) "model"
