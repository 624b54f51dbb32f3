-- ===== src/Domain/Plan/Tests.antt =====
-- Runs of `candidate_plan`, after the tests of crates/slg-domain/src/lib.rs, and its theorems at
-- concrete configurations.
use smart_llm_gateway.Prelude.{ℕ, String, ◌≡◌, refl, some, List, [], ◌∷◌, Result, ok, err}
use smart_llm_gateway.Domain.Route.{RouteCandidate}
use smart_llm_gateway.Domain.Plan.{
  Dict, DomainError, fallback_cycle, candidate_plan, routes_by_model, sort_entries,
  sort_by_priority, insert_by_priority, group_from, push_route, visit, enter, expand, visit_all,
}
use smart_llm_gateway.Domain.Plan.Total.{plan_fuel}
use smart_llm_gateway.Domain.Plan.Laws.{Planned, candidate_plan-Planned}

abbrev route : String → String → ℕ → RouteCandidate
route model id priority = record {
  route_id = id;
  logical_model = model;
  provider_account_id = "account";
  provider = "test";
  credential_ref = record { text = "env:KEY" };
  base_url = "https://example.test";
  upstream_model = model;
  priority = priority;
}

abbrev routes : List RouteCandidate
routes = route "primary" "a" 2 ∷ route "primary" "b" 1 ∷ route "backup" "c" 1 ∷ []

abbrev chain : Dict (List String)
chain = ("primary", "backup" ∷ []) ∷ []

abbrev ring : Dict (List String)
ring = ("primary", "backup" ∷ []) ∷ ("backup", "primary" ∷ []) ∷ []

-- The test `expands_routes_then_fallbacks`.
expands :
    candidate_plan (plan_fuel "primary" chain) "primary" routes chain
    ≡ some (ok (route "primary" "b" 1 ∷ route "primary" "a" 2 ∷ route "backup" "c" 1 ∷ []))
unfolding candidate_plan plan_fuel routes_by_model sort_entries sort_by_priority insert_by_priority
    group_from push_route visit enter expand visit_all
expands = refl

-- The test `rejects_fallback_cycles`.
rejects :
    candidate_plan (plan_fuel "primary" ring) "primary" routes ring
    ≡ some (err (fallback_cycle "primary"))
unfolding candidate_plan plan_fuel routes_by_model sort_entries sort_by_priority insert_by_priority
    group_from push_route visit enter expand visit_all
rejects = refl

candidate_plan-Planned_example :
    (p : Result (List RouteCandidate) DomainError) × (candidate_plan
        (plan_fuel "primary" chain)
        "primary"
        routes
        chain
      ≡ some p)
    × Planned routes chain "primary" p
candidate_plan-Planned_example = candidate_plan-Planned routes chain "primary"

-- Only the fallback of "primary" has a route.
abbrev only_backup : List RouteCandidate
only_backup = route "backup" "c" 1 ∷ []
