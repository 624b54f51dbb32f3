-- ===== src/Storage/Postgres.antt =====
-- The PostgreSQL control plane (crates/slg-adapter-storage-postgres/src/lib.rs): the tables that
-- processes share, and the probe leases that one process holds. The rows are those of SQLite's tables. A
-- statement or a transaction is one step; errors of the connection are not modelled.
pub mod Leases
pub mod Candidates
pub mod Attempts
pub mod Export
pub mod Administration
pub mod Accounting
use smart_llm_gateway.Prelude.{
  ℕ, suc, String, Bool, true, false, ◌&&◌, ◌||◌, not, eqb, Option, none, some, List, [], ◌∷◌, ◌==◌,
  if◌then◌else◌, Result, ok, err, length, filter, contains, map,
}
use smart_llm_gateway.Prelude.Int.{ℤ, leb_ℤ, plus}
use smart_llm_gateway.Domain.Failure.{ProviderFailure}
use smart_llm_gateway.Application.Attempt.{debug_name}
use smart_llm_gateway.Storage.Sqlite.{ProviderRoute, HealthRow}
use smart_llm_gateway.Storage.Sqlite.Health.{Control, update}

abbrev pub half_open_lease_seconds : ℕ
half_open_lease_seconds = 60

-- `provider_route_probe_leases`
pub record ProbeLease : Type 0 where
  pub route_id : String
  pub lease_id : String
  pub expires_at : ℤ

-- The tables, and `probe_leases` of this process: the lease of each route that it probes.
pub record PostgresStore : Type 0 where
  pub control : Control
  pub leases : List ProbeLease
  pub probe_leases : List (String × String)

-- `owned_leases.get(route_id)`
unfoldable pub owned : String → List (String × String) → Option String
owned id [] = none
owned id ((r, l) ∷ ls) = if r == id then some l else owned id ls

-- `owned_leases.remove(route_id)`
unfoldable pub disown : String → List (String × String) → List (String × String)
disown id [] = []
disown id ((r, l) ∷ ls) = if r == id then disown id ls else (r, l) ∷ disown id ls

unfoldable pub has_route : String → List ProviderRoute → Bool
has_route id [] = false
has_route id (r ∷ rs) = if r.id == id then true else has_route id rs

abbrev pub consed : ProbeLease → Option (List ProbeLease) → Option (List ProbeLease)
consed x none = none
consed x (some xs) = some (x ∷ xs)

-- `INSERT … ON CONFLICT (route_id) DO UPDATE … WHERE expires_at <= now RETURNING lease_id`; `none` when no
-- row is returned.
unfoldable pub upsert_lease : ℤ → ProbeLease → List ProbeLease → Option (List ProbeLease)
upsert_lease now y [] = some (y ∷ [])
upsert_lease now y (x ∷ xs) =
    if x.route_id == y.route_id
    then (if leb_ℤ x.expires_at now then some (y ∷ xs) else none)
    else consed x (upsert_lease now y xs)

unfoldable pub reached : ℤ → Option ℤ → Bool
reached now none = false
reached now (some t) = leb_ℤ t now

-- `state IN ('open', 'half_open') AND retry_at IS NOT NULL AND retry_at <= now`
unfoldable pub can_probe : ℤ → HealthRow → Bool
can_probe now s = ((s.state == "open") || (s.state == "half_open")) && reached now s.retry_at

-- The rows that the `UPDATE` changes; `route_id` is their key.
unfoldable pub probed_rows : ℤ → String → List HealthRow → List HealthRow
probed_rows now id states = filter (λ s. (s.owner == id) && can_probe now s) states

unfoldable pub half_open : ℤ → HealthRow → HealthRow
half_open now s = if can_probe now s then record s { state = "half_open" } else s

-- With the lease written and whether the `UPDATE` changed one row; otherwise the transaction is rolled
-- back, which leaves the tables.
abbrev pub finish_probe :
    ℤ → String → String → PostgresStore → List ProbeLease → Bool → Bool × PostgresStore
finish_probe now id lease_id store leases false = (false, store)
finish_probe now id lease_id store leases true = (
  true,
  record {
    control = record store.control {
      route_states = update id (half_open now) store.control.route_states;
    };
    leases = leases;
    probe_leases = (id, lease_id) ∷ store.probe_leases;
  },
)

-- With the answer of the lease's statement.
unfoldable pub transition :
    ℤ → String → String → PostgresStore → Option (List ProbeLease) → Bool × PostgresStore
transition now id lease_id store none = (false, store)
transition now id lease_id store (some leases) =
    finish_probe now id lease_id store leases
      (eqb (length (probed_rows now id store.control.route_states)) 1)

abbrev pub probe_lease : ℤ → String → String → ProbeLease
probe_lease now id lease_id = record {
  route_id = id;
  lease_id = lease_id;
  expires_at = plus now half_open_lease_seconds;
}

abbrev pub acquired : Bool × PostgresStore → Result Bool String × PostgresStore
acquired (b, store) = (ok b, store)

-- Whether this process holds the route's lease, and whether there is the route, which a row of a lease
-- references.
unfoldable pub acquire_with :
    ℤ → String → String → PostgresStore → Option String → Bool → Result Bool String × PostgresStore
acquire_with now id lease_id store (some _) b = (ok false, store)
acquire_with now id lease_id store none false =
    (err "insert or update on table violates foreign key constraint", store)
acquire_with now id lease_id store none true =
    acquired (
      transition now id lease_id store
        (upsert_lease now (probe_lease now id lease_id) store.leases))

-- `acquire_half_open_probe`, with the fresh `lease_id`, at the time `now` of the database.
unfoldable pub acquire_half_open_probe :
    ℤ → String → String → PostgresStore → Result Bool String × PostgresStore
acquire_half_open_probe now id lease_id store =
    acquire_with now id lease_id store (owned id store.probe_leases)
      (has_route id store.control.routes)

-- `DELETE … WHERE route_id = … AND lease_id = …`
unfoldable pub delete_lease : String → String → List ProbeLease → List ProbeLease
delete_lease id lease_id [] = []
delete_lease id lease_id (x ∷ xs) =
    let rest = delete_lease id lease_id xs in
    if (x.route_id == id) && (x.lease_id == lease_id) then rest else x ∷ rest

unfoldable pub release_half_open_probe : String → PostgresStore → PostgresStore
release_half_open_probe id store = elim (owned id store.probe_leases) [
  | none ↦ store
  | some lease_id ↦ record store {
    leases = delete_lease id lease_id store.leases;
    probe_leases = disown id store.probe_leases;
  }
]

unfoldable pub release_all : List String → PostgresStore → PostgresStore
release_all [] store = store
release_all (id ∷ ids) store = release_all ids (release_half_open_probe id store)

unfoldable pub mark_route_success : String → PostgresStore → PostgresStore
mark_route_success id store = release_half_open_probe id (record store {
  control = record store.control {
    route_states =
        update id (λ s. record s { state = "closed"; reason = none; retry_at = none })
          store.control.route_states;
  };
})

unfoldable pub mark_route_failure : String → ProviderFailure → PostgresStore → PostgresStore
mark_route_failure id failure store = release_half_open_probe id (record store {
  control = record store.control {
    route_states =
        update id
          (λ s. record s {
            state = "open";
            reason = some (debug_name failure.category);
            retry_at = failure.retry_at_unix;
          })
          store.control.route_states;
  };
})

-- `SELECT id FROM provider_routes WHERE provider_account_id = …`
unfoldable pub routes_of : String → List ProviderRoute → List String
routes_of account [] = []
routes_of account (r ∷ rs) =
    let rest = routes_of account rs in
    if r.provider_account_id == account then r.id ∷ rest else rest

unfoldable pub mark_account_failure : String → ProviderFailure → PostgresStore → PostgresStore
mark_account_failure account failure store =
    release_all (routes_of account store.control.routes) (record store {
      control = record store.control {
        account_states =
            update account
              (λ s. record s {
                state = "blocked";
                reason = some (debug_name failure.category);
                retry_at = failure.retry_at_unix;
              })
              store.control.account_states;
      };
    })
