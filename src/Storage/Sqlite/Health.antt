-- ===== src/Storage/Sqlite/Health.antt =====
-- Route and account health, authentication and candidates of the SQLite control plane
-- (crates/slg-adapter-storage-sqlite/src/lib.rs).
pub mod Routing
pub mod Rows
pub mod Exclusion
pub mod Tests
use smart_llm_gateway.Prelude.{
  ℕ, String, Bool, true, false, ◌&&◌, ◌||◌, not, leb, map, ◌>>=◌, Option, none, some, List, [], ◌∷◌,
  ◌++◌, ◌==◌, filter, Result, ok, err, map_err, if◌then◌else◌,
}
use smart_llm_gateway.Prelude.Int.{ℤ, leb_ℤ}
use smart_llm_gateway.Domain.Failure.{ProviderFailure, blocks_account, opens_route}
use smart_llm_gateway.Domain.Credential.{
  CredentialReference, CredentialReferenceError, invalid_format, invalid_environment_name, parse,
}
use smart_llm_gateway.Domain.Route.{RouteCandidate}
use smart_llm_gateway.Domain.Plan.{Dict, DomainError, domain_error, candidate_plan}
use smart_llm_gateway.Domain.Plan.Total.{plan_fuel}
use smart_llm_gateway.Ports.{Call}
use smart_llm_gateway.Application.Attempt.{debug_name}
use smart_llm_gateway.Storage.Sqlite.{GatewayKey, ProviderAccount, ProviderRoute, HealthRow}

-- `model_fallbacks`
pub record ModelFallback : Type 0 where
  pub source_model : String
  pub target_model : String
  pub priority : ℕ

-- The tables that routing reads, of which the marks write the last two.
pub record Control : Type 0 where
  pub gateway_keys : List GatewayKey
  pub accounts : List ProviderAccount
  pub routes : List ProviderRoute
  pub fallbacks : List ModelFallback
  pub route_states : List HealthRow
  pub account_states : List HealthRow

-- `UPDATE … WHERE owner = …`
pub update : String → (HealthRow → HealthRow) → List HealthRow → List HealthRow
update owner f [] = []
update owner f (x ∷ xs) =
    if x.owner == owner then f x ∷ update owner f xs else x ∷ update owner f xs

-- `mark_route_success_internal`
pub mark_route_success : String → Control → Control
mark_route_success id c = record c {
  route_states =
      update id (λ x. record x { state = "closed"; reason = none; retry_at = none }) c.route_states;
}

-- `mark_route_failure_internal`
pub mark_route_failure : String → ProviderFailure → Control → Control
mark_route_failure id f c =
    let state = if blocks_account f.category || opens_route f.category then "open" else "closed" in
    record c {
      route_states =
          update id
            (λ x. record x {
              state = state;
              reason = some (debug_name f.category);
              retry_at = f.retry_at_unix;
            })
            c.route_states;
    }

-- `mark_account_failure_internal`
pub mark_account_failure : String → ProviderFailure → Control → Control
mark_account_failure id f c = record c {
  account_states =
      update id
        (λ x. record x {
          state = "blocked";
          reason = some (debug_name f.category);
          retry_at = f.retry_at_unix;
        })
        c.account_states;
}

-- A writing call of the port, on these tables; attempts are stored in another.
pub apply : Call → Control → Control
apply (Call.mark_route_success id) c = mark_route_success id c
apply (Call.mark_route_failure id f) c = mark_route_failure id f c
apply (Call.mark_account_failure id f) c = mark_account_failure id f c
apply _ c = c

pub apply_all : List Call → Control → Control
apply_all [] c = c
apply_all (m ∷ ms) c = apply_all ms (apply m c)

-- `authenticate_internal`; `digest` is SHA-256 in hexadecimal.
pub authenticate : (String → String) → String → List GatewayKey → Bool
authenticate digest raw_key [] = false
authenticate digest raw_key (k ∷ ks) =
    if (k.key_hash == digest raw_key) && k.enabled then true else authenticate digest raw_key ks

-- `state = 'closed' OR (retry_at IS NOT NULL AND retry_at <= unixepoch())`
pub open_until : ℤ → HealthRow → Bool
open_until now s = (s.state == "closed") || retry_reached s.retry_at
  where
    retry_reached : Option ℤ → Bool
    retry_reached none = false
    retry_reached (some t) = leb_ℤ t now

-- A row of the join.
pub record Joined : Type 0 where
  pub route : ProviderRoute
  pub account : ProviderAccount
  pub route_state : HealthRow
  pub account_state : HealthRow

-- The conditions of the join and of its `WHERE`.
pub selected : ℤ → Joined → Bool
selected now j =
    ((j.account.id == j.route.provider_account_id)
      && ((j.route_state.owner == j.route.id) && (j.account_state.owner == j.account.id)))
    && ((j.route.enabled && j.account.enabled)
        && (not (j.account_state.state == "blocked") && open_until now j.route_state))

unfoldable pub flat_map : {A B : Type 0} → (A → List B) → List A → List B
flat_map f [] = []
flat_map f (x ∷ xs) = f x ++ flat_map f xs

-- The rows that the statement joins. The order of its result is open, and does not matter: the plan
-- sorts the routes of a model by their priorities, which are distinct (`UNIQUE(logical_model, priority)`).
unfoldable pub joined : Control → List Joined
joined c =
    flat_map
      (λ r.
        flat_map
          (λ a.
            flat_map
              (λ s.
                map (λ t. record { route = r; account = a; route_state = s; account_state = t })
                  c.account_states)
              c.route_states)
          c.accounts)
      c.routes

abbrev pub reference_error : CredentialReferenceError → String
reference_error invalid_format = "credential reference must use the explicit env:NAME format"
reference_error invalid_environment_name =
    "credential reference must use env:NAME with a valid environment variable name"

-- The closure of `query_map`.
pub candidate_of : Joined → Result RouteCandidate String
candidate_of j = map_err reference_error (parse j.account.credential_ref) >>= λ reference.
    ok (record {
      route_id = j.route.id;
      logical_model = j.route.logical_model;
      provider_account_id = j.account.id;
      provider = j.account.provider;
      credential_ref = reference;
      base_url = j.account.base_url;
      upstream_model = j.route.upstream_model;
      priority = j.route.priority;
    })

-- `collect::<Result<Vec<_>, _>>()`
pub collect : List Joined → Result (List RouteCandidate) String
collect [] = ok []
collect (j ∷ js) = candidate_of j >>= λ r. collect js >>= λ rs. ok (r ∷ rs)

-- `ORDER BY source_model, priority`; for what follows only the order of the priorities matters.
pub insert_fallback : ModelFallback → List ModelFallback → List ModelFallback
insert_fallback f [] = f ∷ []
insert_fallback f (g ∷ gs) =
    if leb f.priority g.priority then f ∷ g ∷ gs else g ∷ insert_fallback f gs

unfoldable pub sort_fallbacks : List ModelFallback → List ModelFallback
sort_fallbacks [] = []
sort_fallbacks (f ∷ fs) = insert_fallback f (sort_fallbacks fs)

-- `fallbacks.entry(source).or_default().push(target)`
pub push_fallback : ModelFallback → Dict (List String) → Dict (List String)
push_fallback f [] = (f.source_model, f.target_model ∷ []) ∷ []
push_fallback f ((m, ts) ∷ d) =
    if f.source_model == m then (m, ts ++ f.target_model ∷ []) ∷ d else (m, ts) ∷ push_fallback f d

unfoldable pub group_fallbacks : Dict (List String) → List ModelFallback → Dict (List String)
group_fallbacks d [] = d
group_fallbacks d (f ∷ fs) = group_fallbacks (push_fallback f d) fs

-- The rest of `candidates_internal`, once the routes are read; `none` would be a lack of fuel.
pub plan_routes :
    String
    → Dict (List String)
    → Result (List RouteCandidate) String
    → Option (Result (List RouteCandidate) String)
plan_routes model d (err e) = some (err e)
plan_routes model d (ok rs) = answered (candidate_plan (plan_fuel model d) model rs d)
  where
    answered :
        Option (Result (List RouteCandidate) DomainError)
        → Option (Result (List RouteCandidate) String)
    answered none = none
    answered (some p) = some (map_err domain_error p)

-- `candidates_internal`, at the time `now`.
pub candidates : ℤ → String → Control → Option (Result (List RouteCandidate) String)
candidates now model c =
    plan_routes model (group_fallbacks [] (sort_fallbacks c.fallbacks))
      (collect (filter (selected now) (joined c)))
