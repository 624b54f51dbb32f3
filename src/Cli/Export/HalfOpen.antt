-- ===== src/Cli/Export/HalfOpen.antt =====
-- A probe that is under way when the snapshot is taken (crates/smart-llm-gateway/src/main.rs,
-- crates/slg-adapter-storage-postgres/src/lib.rs, crates/slg-runtime/src/lib.rs).
use smart_llm_gateway.Prelude.{
  String, ◌≡◌, ◌≢◌, refl, sym, ap, ◌∙◌, Bool, true, false, Option, none, some, List, [], ◌∷◌, ◌==◌,
  if◌then◌else◌, ok, >>=-eq-ok, ok_injective,
}
use smart_llm_gateway.Prelude.Int.{ℤ}
use smart_llm_gateway.Domain.Plan.{get}
use smart_llm_gateway.Storage.Sqlite.{HealthRow}
use smart_llm_gateway.Storage.Sqlite.Health.{Control}
use smart_llm_gateway.Runtime.Snapshot.{SnapshotState, candidates}
use smart_llm_gateway.Runtime.Snapshot.Probes.{Answers, HalfOpen, HalfOpen-not_offered}
use smart_llm_gateway.Storage.Postgres.Export.{
  ControlSnapshotData, enabled_rows, exported_routes, exported_states, control_snapshot_data,
}
use smart_llm_gateway.Cli.Export.{snapshot_states, control_snapshot}

-- The row of a route.
abbrev pub row_of : String → List HealthRow → Option HealthRow
row_of id [] = none
row_of id (x ∷ xs) = if id == x.owner then some x else row_of id xs

-- The state that is exported of a row.
abbrev state_of_row : Option HealthRow → Option SnapshotState
state_of_row none = none
state_of_row (some x) = some (record { state = x.state; retry_at_unix = x.retry_at })

get-snapshot_states :
    (id : String) (rows : List HealthRow)
    → get id (snapshot_states (exported_states rows)) ≡ state_of_row (row_of id rows)
unfolding snapshot_states exported_states
get-snapshot_states id [] = refl
get-snapshot_states id (y ∷ ys) = by_test (id == y.owner) (get-snapshot_states id ys)
  where
    by_test :
        (b : Bool)
        → get id (snapshot_states (exported_states ys)) ≡ state_of_row (row_of id ys)
        → (if b
            then some (record { state = y.state; retry_at_unix = y.retry_at })
            else get id (snapshot_states (exported_states ys)))
          ≡ state_of_row (if b then some y else row_of id ys)
    by_test true k = refl
    by_test false k = k

route_states_exported :
    (c : Control) (exported : ControlSnapshotData)
    → control_snapshot_data c ≡ ok exported
    → exported_states c.route_states ≡ exported.route_states
unfolding control_snapshot_data
route_states_exported c exported h =
    let (routes, _, e) = >>=-eq-ok (exported_routes (enabled_rows c)) _ h in
    ap (λ d. d.route_states) (ok_injective e)

-- A route that is half-open in PostgreSQL when a gateway takes its snapshot, because some process probes
-- it, is in no answer of the snapshot's candidates, at any time and for any model, and stays half-open
-- there after the call.
pub exported-not_offered :
    (c : Control) (exported : ControlSnapshotData) (id : String) (x : HealthRow)
    → control_snapshot_data c ≡ ok exported
    → row_of id c.route_states ≡ some x
    → x.state ≡ "half_open"
    → (now : ℤ) (model : String)
    → Answers
        (λ r. r.route_id ≢ id)
        (HalfOpen id)
        (candidates now model (control_snapshot exported).0 (control_snapshot exported).1)
unfolding control_snapshot
exported-not_offered c exported id x h e s now model = HalfOpen-not_offered id now model _ _ (
  record { state = x.state; retry_at_unix = x.retry_at },
  ap (λ d. get id (snapshot_states d)) (sym (route_states_exported c exported h))
      ∙ get-snapshot_states id c.route_states
      ∙ ap state_of_row e,
  s,
)
