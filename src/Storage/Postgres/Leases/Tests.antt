-- ===== src/Storage/Postgres/Leases/Tests.antt =====
-- Probe leases on concrete tables (crates/slg-adapter-storage-postgres/src/lib.rs).
use smart_llm_gateway.Prelude.{◌≡◌, refl, true, false, none, some, [], ◌∷◌, ok, ne_of_test}
use smart_llm_gateway.Prelude.Int.{pos}
use smart_llm_gateway.Storage.Sqlite.Health.{Control}
use smart_llm_gateway.Storage.Postgres.{
  ProbeLease, PostgresStore, owned, upsert_lease, transition, probed_rows, can_probe, reached,
  has_route, acquire_with, acquire_half_open_probe,
}
use smart_llm_gateway.Storage.Postgres.Leases.{
  acquire, release, Excluded, NeverAcquires, steps, steps-NeverAcquires,
}

-- One route, open since its failure, with 40 as the time to retry.
abbrev tables : Control
tables = record {
  gateway_keys = [];
  accounts = [];
  routes =
      record {
        id = "route";
        logical_model = "model";
        provider_account_id = "account";
        upstream_model = "upstream";
        priority = 1;
        enabled = true;
      }
      ∷ [];
  fallbacks = [];
  route_states =
      record { owner = "route"; state = "open"; reason = none; retry_at = some (pos 40) } ∷ [];
  account_states = [];
}

abbrev fresh_store : PostgresStore
fresh_store = record { control = tables; leases = []; probe_leases = [] }

abbrev lease : ProbeLease
lease = record { route_id = "route"; lease_id = "theirs"; expires_at = pos 110 }

-- Another process took the lease at 50.
abbrev taken : PostgresStore
taken = record { control = tables; leases = lease ∷ []; probe_leases = [] }

too_early : (acquire_half_open_probe (pos 30) "route" "ours" fresh_store) ≡ (ok false, fresh_store)
unfolding acquire_half_open_probe acquire_with transition upsert_lease probed_rows can_probe reached
    has_route owned
too_early = refl

acquired_lease :
    (acquire_half_open_probe (pos 50) "route" "theirs" fresh_store).1.leases ≡ lease ∷ []
unfolding acquire_half_open_probe acquire_with transition upsert_lease probed_rows can_probe reached
    has_route owned
acquired_lease = refl

expired : (acquire_half_open_probe (pos 110) "route" "ours" taken).0 ≡ ok true
unfolding acquire_half_open_probe acquire_with transition upsert_lease probed_rows can_probe reached
    has_route owned
expired = refl

not_ours : Excluded lease taken
unfolding owned
not_ours = (refl, λ e. cc)

steps-NeverAcquires_example :
    NeverAcquires "route"
      (acquire (pos 60) "route" "ours" ∷ release "route" ∷ acquire (pos 109) "route" "ours" ∷ [])
      taken
    × Excluded lease (
        steps
          (acquire (pos 60) "route" "ours"
            ∷ release "route"
            ∷ acquire (pos 109) "route" "ours"
            ∷ [])
          taken)
steps-NeverAcquires_example =
    steps-NeverAcquires lease
      (acquire (pos 60) "route" "ours" ∷ release "route" ∷ acquire (pos 109) "route" "ours" ∷ [])
      taken not_ours
      ((refl, ne_of_test "ours" "theirs" refl), (tt, ((refl, ne_of_test "ours" "theirs" refl), tt)))
