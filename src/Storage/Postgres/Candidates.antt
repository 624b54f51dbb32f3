-- ===== src/Storage/Postgres/Candidates.antt =====
-- `candidates` and `control_snapshot_data` of the PostgreSQL control plane
-- (crates/slg-adapter-storage-postgres/src/lib.rs).
pub mod Probes
pub mod Eligible
pub mod Tests
use Prim.Native.String.{String, ◌++◌ as append}
use smart_llm_gateway.Prelude.{
  ℕ, zero, suc, Bool, true, false, ◌&&◌, ◌||◌, not, Option, none, some, List, [], ◌∷◌, ◌==◌,
  contains, filter, length, if◌then◌else◌, Result, ok, err, map_err, ◌>>=◌,
}
use smart_llm_gateway.Prelude.Int.{ℤ}
use smart_llm_gateway.Domain.Credential.{CredentialReference, CredentialReferenceError, parse}
use smart_llm_gateway.Domain.Route.{RouteCandidate}
use smart_llm_gateway.Domain.Plan.{Dict}
use smart_llm_gateway.Storage.Sqlite.Health.{
  Control, ModelFallback, Joined, joined, sort_fallbacks, group_fallbacks, plan_routes,
}
use smart_llm_gateway.Storage.Postgres.{PostgresStore, acquire_half_open_probe, can_probe}

-- One round of the recursive query: the targets of the fallbacks from a model that is reached.
unfoldable pub reach_step : List ModelFallback → List String → List String
reach_step [] models = models
reach_step (f ∷ fs) models =
    let rest = reach_step fs models in
    if contains f.source_model models && not (contains f.target_model rest)
    then f.target_model ∷ rest
    else rest

unfoldable pub reach : ℕ → List ModelFallback → List String → List String
reach zero fs models = models
reach (suc n) fs models = reach n fs (reach_step fs models)

-- `reachable_models`: a round that adds no model is the last, and there are no more targets than fallbacks.
unfoldable pub reachable_models : String → List ModelFallback → List String
reachable_models model fs = reach (length fs) fs (model ∷ [])

-- The conditions of the join and of its `WHERE`.
unfoldable pub available : ℤ → List String → Joined → Bool
available now models j =
    ((j.account.id == j.route.provider_account_id)
      && ((j.route_state.owner == j.route.id) && (j.account_state.owner == j.account.id)))
    && (contains j.route.logical_model models
        && ((j.route.enabled && j.account.enabled)
            && (not (j.account_state.state == "blocked")
                && ((j.route_state.state == "closed") || can_probe now j.route_state))))

unfoldable pub credential_reference : String → Result CredentialReference String
credential_reference value =
    map_err (λ _. "invalid credential reference in PostgreSQL configuration") (parse value)

-- The closure of `map`; a priority is not negative (`CHECK (priority >= 0)`).
unfoldable pub route_of_row : Joined → Result RouteCandidate String
route_of_row j = credential_reference j.account.credential_ref >>= λ reference. ok (record {
  route_id = j.route.id;
  logical_model = j.route.logical_model;
  provider_account_id = j.account.id;
  provider = j.account.provider;
  credential_ref = reference;
  base_url = j.account.base_url;
  upstream_model = j.route.upstream_model;
  priority = j.route.priority;
})

unfoldable pub routes_of_rows : List Joined → Result (List RouteCandidate) String
routes_of_rows [] = ok []
routes_of_rows (j ∷ js) = route_of_row j >>= λ r. routes_of_rows js >>= λ rs. ok (r ∷ rs)

-- `route_states`: the state of each route, where the last row counts; the rows of a route agree, since the
-- tables' keys leave one.
unfoldable pub state_of : String → List Joined → Option String
state_of id [] = none
state_of id (j ∷ js) = if j.route.id == id then some j.route_state.state else state_of id js

-- The rest of the loop, behind a candidate that was offered.
abbrev pub offered :
    RouteCandidate
    → Result (List RouteCandidate) String × PostgresStore
    → Result (List RouteCandidate) String × PostgresStore
offered c (err e, store) = (err e, store)
offered c (ok cs, store) = (ok (c ∷ cs), store)

-- The loop over the plan, with `lease_of` the fresh identifier of the lease of a route and `none_yet` that
-- nothing is eligible so far.
module _ (now : ℤ) (fresh : String → String) (rows : List Joined) where
  -- What the probe answered decides; `rest` is the loop behind the candidate.
  unfoldable pub after_probe :
      RouteCandidate
      → (Bool → PostgresStore → Result (List RouteCandidate) String × PostgresStore)
      → Result Bool String × PostgresStore
      → Result (List RouteCandidate) String × PostgresStore
  after_probe c rest (err e, store) = (err e, store)
  after_probe c rest (ok true, store) = offered c (rest false store)
  after_probe c rest (ok false, store) = rest true store

  unfoldable pub at_candidate :
      RouteCandidate
      → (Bool → PostgresStore → Result (List RouteCandidate) String × PostgresStore)
      → Option String
      → Bool
      → PostgresStore
      → Result (List RouteCandidate) String × PostgresStore
  at_candidate c rest none none_yet store = rest none_yet store
  at_candidate c rest (some state) none_yet store =
      if state == "closed"
      then offered c (rest false store)
      else if none_yet
      then after_probe c rest (acquire_half_open_probe now c.route_id (fresh c.route_id) store)
      else rest none_yet store

  unfoldable pub eligible :
      List RouteCandidate
      → Bool
      → PostgresStore
      → Result (List RouteCandidate) String × PostgresStore
  eligible [] none_yet store = (ok [], store)
  eligible (c ∷ plan) none_yet store =
      at_candidate c (eligible plan) (state_of c.route_id rows) none_yet store

-- The error when nothing is eligible.
unfoldable pub or_unavailable :
    String
    → Result (List RouteCandidate) String × PostgresStore
    → Result (List RouteCandidate) String × PostgresStore
or_unavailable model (ok [], store) =
    (err (append "no eligible route exists for `" (append model "`")), store)
or_unavailable model (r, store) = (r, store)

unfoldable pub with_plan :
    ℤ
    → (String → String)
    → String
    → List Joined
    → PostgresStore
    → Option (Result (List RouteCandidate) String)
    → Option (Result (List RouteCandidate) String × PostgresStore)
with_plan now fresh model rows store none = none
with_plan now fresh model rows store (some (err e)) = some (err e, store)
with_plan now fresh model rows store (some (ok plan)) =
    some (or_unavailable model (eligible now fresh rows plan true store))

-- The rows of the first statement.
unfoldable pub candidate_rows : ℤ → String → Control → List Joined
candidate_rows now model c = filter (available now (reachable_models model c.fallbacks)) (joined c)

-- `candidates`, at the time `now` of the database; `none` would be a lack of fuel in the plan.
unfoldable pub candidates :
    ℤ
    → (String → String)
    → String
    → PostgresStore
    → Option (Result (List RouteCandidate) String × PostgresStore)
candidates now fresh model store =
    let rows = candidate_rows now model store.control in
    with_plan now fresh model rows store (
      plan_routes model (group_fallbacks [] (sort_fallbacks store.control.fallbacks))
        (routes_of_rows rows))
