-- ===== src/Runtime/Snapshot/Tests.antt =====
-- A snapshot at concrete states.
use smart_llm_gateway.Prelude.{◌≢◌, refl, some, [], ◌∷◌}
use smart_llm_gateway.Prelude.Int.{pos}
use smart_llm_gateway.Domain.Route.{RouteCandidate}
use smart_llm_gateway.Runtime.Snapshot.{ControlSnapshot, SnapshotRuntimeState, candidates}
use smart_llm_gateway.Runtime.Snapshot.Probes.{
  Answers, Available, candidates_Available, HalfOpen, HalfOpen-not_offered,
}

abbrev route : RouteCandidate
route = record {
  route_id = "route";
  logical_model = "main";
  provider_account_id = "account";
  provider = "provider";
  credential_ref = record { text = "env:KEY" };
  base_url = "https://example.test";
  upstream_model = "model";
  priority = 1;
}

abbrev snapshot : ControlSnapshot
snapshot = record { gateway_key_hashes = []; routes = route ∷ []; fallbacks = [] }

-- The route is half-open since a probe.
abbrev probing : SnapshotRuntimeState
probing = record {
  route_states = ("route", record { state = "half_open"; retry_at_unix = some (pos 5) }) ∷ [];
  account_states = [];
}

-- The route is open, and its time to retry has come at 10.
abbrev opened : SnapshotRuntimeState
opened = record {
  route_states = ("route", record { state = "open"; retry_at_unix = some (pos 5) }) ∷ [];
  account_states = [];
}

candidates_Available_example :
    Answers (Available (pos 10) opened) (λ _. Unit) (candidates (pos 10) "main" snapshot opened)
candidates_Available_example = candidates_Available (pos 10) "main" snapshot opened

HalfOpen-not_offered_example :
    Answers
      (λ r. r.route_id ≢ "route")
      (HalfOpen "route")
      (candidates (pos 10) "main" snapshot probing)
HalfOpen-not_offered_example =
    HalfOpen-not_offered "route" (pos 10) "main" snapshot probing
      (record { state = "half_open"; retry_at_unix = some (pos 5) }, refl, refl)
