-- ===== src/Cli/Export.antt =====
-- The snapshot that a PostgreSQL gateway keeps for an outage (`control_snapshot`,
-- crates/smart-llm-gateway/src/main.rs).
pub mod HalfOpen
pub mod Tests
use smart_llm_gateway.Prelude.{String, Bool, ◌||◌, Option, List, map}
use smart_llm_gateway.Prelude.Int.{ℤ}
use smart_llm_gateway.Prelude.Texts.{starts_with}
use smart_llm_gateway.Domain.Plan.{Dict}
use smart_llm_gateway.Runtime.Snapshot.{SnapshotState, ControlSnapshot, SnapshotRuntimeState}
use smart_llm_gateway.Storage.Postgres.Export.{ControlSnapshotData}

unfoldable pub is_postgres_database : String → Bool
is_postgres_database database =
    starts_with database "postgres://" || starts_with database "postgresql://"

unfoldable pub snapshot_states : Dict (String × Option ℤ) → Dict SnapshotState
snapshot_states = map (λ e. (e.0, record { state = e.1.0; retry_at_unix = e.1.1 }))

-- The snapshot, as what stays and what the marks of the snapshot's repository change.
unfoldable pub control_snapshot : ControlSnapshotData → ControlSnapshot × SnapshotRuntimeState
control_snapshot exported = (
  record {
    gateway_key_hashes = exported.gateway_key_hashes;
    routes = exported.routes;
    fallbacks = exported.fallbacks;
  },
  record {
    route_states = snapshot_states exported.route_states;
    account_states = snapshot_states exported.account_states;
  },
)
