-- ===== src/Runtime/Snapshot.antt =====
-- `SnapshotRepository` and `SnapshotFallback`: the last known configuration in place of the primary
-- store (crates/slg-runtime/src/lib.rs).
pub mod Probes
pub mod Tests
use smart_llm_gateway.Prelude.{
  String, Bool, true, false, ◌&&◌, not, Option, none, some, List, [], ◌∷◌, ◌==◌, contains, filter,
  Result, ok, err, if◌then◌else◌,
}
use smart_llm_gateway.Prelude.Int.{ℤ, leb_ℤ}
use smart_llm_gateway.Domain.Failure.{ProviderFailure, blocks_account, opens_route}
use smart_llm_gateway.Domain.Route.{RouteCandidate}
use smart_llm_gateway.Ports.{ConfigurationRepository}
use smart_llm_gateway.Domain.Plan.{Dict, get, DomainError, domain_error, candidate_plan}
use smart_llm_gateway.Domain.Plan.Total.{plan_fuel}

-- `SnapshotRouteState`, `SnapshotAccountState`
pub record SnapshotState : Type 0 where
  pub state : String
  pub retry_at_unix : Option ℤ

-- The part of `ControlSnapshot` that stays as it is.
pub record ControlSnapshot : Type 0 where
  pub gateway_key_hashes : List String
  pub routes : List RouteCandidate
  pub fallbacks : Dict (List String)

pub record SnapshotRuntimeState : Type 0 where
  pub route_states : Dict SnapshotState
  pub account_states : Dict SnapshotState

-- `if let Some(x) = map.get_mut(key) { … }`
pub alter : String → (SnapshotState → SnapshotState) → Dict SnapshotState → Dict SnapshotState
alter k f [] = []
alter k f ((j, x) ∷ d) = if k == j then (j, f x) ∷ d else (j, x) ∷ alter k f d

-- `authenticate`; `digest` is SHA-256 in hexadecimal.
pub authenticate : (String → String) → String → ControlSnapshot → Bool
authenticate digest raw_key s = contains (digest raw_key) s.gateway_key_hashes

-- `is_none_or(|account| account.state != "blocked")`
abbrev pub not_blocked : Option SnapshotState → Bool
not_blocked none = true
not_blocked (some x) = not (x.state == "blocked")

-- `is_none_or(|route_state| route_state.state == "closed")`
abbrev pub closed : Option SnapshotState → Bool
closed none = true
closed (some x) = x.state == "closed"

abbrev pub reached : ℤ → Option ℤ → Bool
reached now none = false
reached now (some t) = leb_ℤ t now

-- `is_some_and(|route_state| …)`
abbrev pub retryable : ℤ → Option SnapshotState → Bool
retryable now none = false
retryable now (some x) = (x.state == "open") && reached now x.retry_at_unix

pub is_closed : SnapshotRuntimeState → RouteCandidate → Bool
is_closed st r =
    not_blocked (get r.provider_account_id st.account_states)
    && closed (get r.route_id st.route_states)

pub is_retryable : ℤ → SnapshotRuntimeState → RouteCandidate → Bool
is_retryable now st r =
    not_blocked (get r.provider_account_id st.account_states)
    && retryable now (get r.route_id st.route_states)

abbrev pub half_open : SnapshotState → SnapshotState
half_open x = record x { state = "half_open" }

-- The end of `candidates`, over the plan of the retryable routes.
pub probe :
    SnapshotRuntimeState
    → Option (Result (List RouteCandidate) DomainError)
    → Option (Result (List RouteCandidate) String × SnapshotRuntimeState)
probe st none = none
probe st (some (err e)) = some (err (domain_error e), st)
probe st (some (ok [])) = some (err "no route eligible for half-open probe", st)
probe st (some (ok (r ∷ rs))) =
    some (ok (r ∷ []), record st { route_states = alter r.route_id half_open st.route_states })

-- `candidates` over the plan of the closed routes; the second plan is made only if there is no first.
pub prefer :
    SnapshotRuntimeState
    → Option (Result (List RouteCandidate) DomainError)
    → Option (Result (List RouteCandidate) DomainError)
    → Option (Result (List RouteCandidate) String × SnapshotRuntimeState)
prefer st none second = none
prefer st (some (ok routes)) second = some (ok routes, st)
prefer st (some (err _)) second = probe st second

-- `candidates` at the time `now`; `none` would be a lack of fuel.
pub candidates :
    ℤ
    → String
    → ControlSnapshot
    → SnapshotRuntimeState
    → Option (Result (List RouteCandidate) String × SnapshotRuntimeState)
candidates now model s st =
    let plan = λ (rs : List RouteCandidate).
      candidate_plan (plan_fuel model s.fallbacks) model rs s.fallbacks in
    prefer st (plan (filter (is_closed st) s.routes)) (plan (filter (is_retryable now st) s.routes))

pub mark_route_success : String → SnapshotRuntimeState → SnapshotRuntimeState
mark_route_success id st = record st {
  route_states = alter id (λ x. record { state = "closed"; retry_at_unix = none }) st.route_states;
}

pub mark_route_failure : String → ProviderFailure → SnapshotRuntimeState → SnapshotRuntimeState
mark_route_failure id f st = if not (opens_route f.category) then st else record st {
  route_states =
      alter id (λ x. record { state = "open"; retry_at_unix = f.retry_at_unix }) st.route_states;
}

pub mark_account_failure : String → ProviderFailure → SnapshotRuntimeState → SnapshotRuntimeState
mark_account_failure id f st = if not (blocks_account f.category) then st else record st {
  account_states =
      alter id (λ x. record { state = "blocked"; retry_at_unix = f.retry_at_unix })
        st.account_states;
}

-- `match primary { Ok(value) => Ok(value), Err(_) => fallback }`
abbrev pub or_else : {A : Type 0} → Result A String → Result A String → Result A String
or_else (ok a) r = ok a
or_else (err e) r = r

-- `SnapshotFallback`: each method of the primary, and on any error that of the fallback.
pub snapshot_fallback : ConfigurationRepository → ConfigurationRepository → ConfigurationRepository
snapshot_fallback p f = record {
  authenticate = λ l key. or_else (p.authenticate l key) (f.authenticate l key);
  candidates = λ l model. or_else (p.candidates l model) (f.candidates l model);
  record_attempt = λ l r. or_else (p.record_attempt l r) (f.record_attempt l r);
  mark_route_success = λ l id. or_else (p.mark_route_success l id) (f.mark_route_success l id);
  mark_route_failure =
      λ l id e. or_else (p.mark_route_failure l id e) (f.mark_route_failure l id e);
  mark_account_failure =
      λ l id e. or_else (p.mark_account_failure l id e) (f.mark_account_failure l id e);
}
