-- ===== src/Storage/Postgres/Administration.antt =====
-- The administration of the PostgreSQL control plane (`create_*`, `add_fallback`,
-- crates/slg-adapter-storage-postgres/src/lib.rs), with the keys and references of its tables.
pub mod Integrity
pub mod Tests
use Prim.Native.Char.{Char, code}
use smart_llm_gateway.Prelude.{
  ℕ, String, Bool, true, false, ◌&&◌, not, leb, eqb, Option, none, some, List, [], ◌∷◌, ◌==◌, map,
  contains, if◌then◌else◌, Result, ok, err, guard, ◌>>=◌, ◌>>◌,
}
use smart_llm_gateway.Domain.Credential.{CredentialReference, as_str}
use smart_llm_gateway.Storage.Sqlite.{GatewayKey, ProviderAccount, ProviderRoute, HealthRow}
use smart_llm_gateway.Storage.Sqlite.Health.{Control, ModelFallback}
use smart_llm_gateway.Storage.Postgres.Candidates.{credential_reference}

-- `logical_models`, by their names, and the tables of routing.
pub record Tables : Type 0 where
  pub logical_models : List String
  pub control : Control

abbrev pub i32_max : ℕ
i32_max = 2147483647

-- `value.trim_end_matches('/')`
unfoldable pub trim_slashes : String → String
trim_slashes String.[] = String.[]
trim_slashes (String.◌∷◌ c s) =
    let rest = trim_slashes s in
    if eqb (code c) b'/' && (rest == "") then String.[] else String.◌∷◌ c rest

abbrev pub account_ids : List ProviderAccount → List String
account_ids = map (λ a. a.id)

abbrev pub route_ids : List ProviderRoute → List String
route_ids = map (λ r. r.id)

abbrev pub owners : List HealthRow → List String
owners = map (λ s. s.owner)

-- The key (logical_model, priority) is taken.
unfoldable pub has_priority : String → ℕ → List ProviderRoute → Bool
has_priority model priority [] = false
has_priority model priority (r ∷ rs) =
    if (r.logical_model == model) && eqb r.priority priority
    then true
    else has_priority model priority rs

-- The key (source_model, priority) is taken.
unfoldable pub has_fallback : String → ℕ → List ModelFallback → Bool
has_fallback source priority [] = false
has_fallback source priority (f ∷ fs) =
    if (f.source_model == source) && eqb f.priority priority
    then true
    else has_fallback source priority fs

abbrev pub unique_violation : String
unique_violation = "duplicate key value violates unique constraint"

abbrev pub reference_violation : String
reference_violation = "insert or update on table violates foreign key constraint"

-- `create_gateway_key`, whose fresh key is `raw_key`; `digest` is SHA-256 in hexadecimal.
unfoldable pub create_gateway_key :
    (String → String) → String → Tables → Result (String × Tables) String
create_gateway_key digest raw_key t = do
  guard (not (contains (digest raw_key) (map (λ k. k.key_hash) t.control.gateway_keys)))
      unique_violation
  ok (
    raw_key,
    record t {
      control = record t.control {
        gateway_keys =
            record { key_hash = digest raw_key; enabled = true } ∷ t.control.gateway_keys;
      };
    },
  )

unfoldable pub create_model : String → Tables → Result Tables String
create_model name t = do
  guard (not (contains name t.logical_models)) unique_violation
  ok (record t { logical_models = name ∷ t.logical_models })

abbrev pub new_state : String → String → HealthRow
new_state owner state = record { owner = owner; state = state; reason = none; retry_at = none }

-- An account and its row of state.
abbrev pub with_account : ProviderAccount → Tables → Tables
with_account a t = record t {
  control = record t.control {
    accounts = a ∷ t.control.accounts;
    account_states = new_state a.id "unknown" ∷ t.control.account_states;
  };
}

-- A route and its row of state.
abbrev pub with_route : ProviderRoute → Tables → Tables
with_route r t = record t {
  control = record t.control {
    routes = r ∷ t.control.routes;
    route_states = new_state r.id "closed" ∷ t.control.route_states;
  };
}

abbrev pub with_fallback : ModelFallback → Tables → Tables
with_fallback f t = record t { control = record t.control { fallbacks = f ∷ t.control.fallbacks } }

unfoldable pub create_account : String → String → String → String → Tables → Result Tables String
create_account id provider credential_ref base_url t =
    credential_reference credential_ref >>= λ reference.
    guard (not (contains id (account_ids t.control.accounts))) unique_violation
    >> (guard (not (contains id (owners t.control.account_states))) unique_violation
        >> ok (
            with_account
              (record {
                id = id;
                provider = provider;
                credential_ref = as_str reference;
                base_url = trim_slashes base_url;
                enabled = true;
              })
              t))

unfoldable pub create_route : String → String → String → String → ℕ → Tables → Result Tables String
create_route id model account upstream_model priority t =
    guard (leb priority i32_max) "route priority exceeds PostgreSQL INTEGER"
    >> (guard (not (contains id (route_ids t.control.routes))) unique_violation
        >> (guard (not (has_priority model priority t.control.routes)) unique_violation
            >> (guard (contains model t.logical_models) reference_violation
                >> (guard (contains account (account_ids t.control.accounts)) reference_violation
                    >> (guard (not (contains id (owners t.control.route_states))) unique_violation
                        >> ok (
                            with_route
                              (record {
                                id = id;
                                logical_model = model;
                                provider_account_id = account;
                                upstream_model = upstream_model;
                                priority = priority;
                                enabled = true;
                              })
                              t))))))

unfoldable pub add_fallback : String → String → ℕ → Tables → Result Tables String
add_fallback source target priority t =
    guard (leb priority i32_max) "fallback priority exceeds PostgreSQL INTEGER"
    >> (guard (not (has_fallback source priority t.control.fallbacks)) unique_violation
        >> (guard (contains source t.logical_models) reference_violation
            >> (guard (contains target t.logical_models) reference_violation
                >> ok (
                    with_fallback
                      (record { source_model = source; target_model = target; priority = priority })
                      t))))
