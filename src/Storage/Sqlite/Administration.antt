-- ===== src/Storage/Sqlite/Administration.antt =====
-- The administration of the SQLite control plane (`create_*`, `add_fallback`,
-- crates/slg-adapter-storage-sqlite/src/lib.rs) on a store that was opened, which enforces the references.
-- An account or a route and its row of state are two statements, of which the second cannot fail.
pub mod Parity
pub mod Tests
use smart_llm_gateway.Prelude.{
  ℕ, String, true, not, List, ◌∷◌, map, contains, if◌then◌else◌, Result, ok, map_err, guard, ◌>>=◌,
  ◌>>◌,
}
use smart_llm_gateway.Domain.Credential.{CredentialReference, parse, as_str}
use smart_llm_gateway.Storage.Sqlite.{HealthRow}
use smart_llm_gateway.Storage.Sqlite.Health.{reference_error}
use smart_llm_gateway.Storage.Postgres.Administration.{
  Tables, account_ids, route_ids, owners, new_state, trim_slashes, has_priority, has_fallback,
}

abbrev pub unique_failed : String
unique_failed = "UNIQUE constraint failed"

abbrev pub foreign_key_failed : String
foreign_key_failed = "FOREIGN KEY constraint failed"

-- `INSERT OR IGNORE`
unfoldable pub insert_or_ignore : HealthRow → List HealthRow → List HealthRow
insert_or_ignore s states = if contains s.owner (owners states) then states else s ∷ states

-- `create_gateway_key`, whose fresh key is `raw_key`; `digest` is SHA-256 in hexadecimal.
unfoldable pub create_gateway_key :
    (String → String) → String → Tables → Result (String × Tables) String
create_gateway_key digest raw_key t = do
  guard (not (contains (digest raw_key) (map (λ k. k.key_hash) t.control.gateway_keys)))
      unique_failed
  ok (
    raw_key,
    record t {
      control = record t.control {
        gateway_keys =
            record { key_hash = digest raw_key; enabled = true } ∷ t.control.gateway_keys;
      };
    },
  )

unfoldable pub create_model : String → Tables → Result Tables String
create_model name t = do
  guard (not (contains name t.logical_models)) unique_failed
  ok (record t { logical_models = name ∷ t.logical_models })

unfoldable pub create_account_with_reference :
    String → String → CredentialReference → String → Tables → Result Tables String
create_account_with_reference id provider reference base_url t = do
  guard (not (contains id (account_ids t.control.accounts))) unique_failed
  ok (record t {
    control = record t.control {
      accounts =
          record {
            id = id;
            provider = provider;
            credential_ref = as_str reference;
            base_url = trim_slashes base_url;
            enabled = true;
          }
          ∷ t.control.accounts;
      account_states = insert_or_ignore (new_state id "unknown") t.control.account_states;
    };
  })

unfoldable pub create_account : String → String → String → String → Tables → Result Tables String
create_account id provider credential_ref base_url t =
    map_err reference_error (parse credential_ref) >>= λ reference.
    create_account_with_reference id provider reference base_url t

unfoldable pub create_route : String → String → String → String → ℕ → Tables → Result Tables String
create_route id model account upstream_model priority t = do
  guard (not (contains id (route_ids t.control.routes))) unique_failed
  guard (not (has_priority model priority t.control.routes)) unique_failed
  guard (contains model t.logical_models) foreign_key_failed
  guard (contains account (account_ids t.control.accounts)) foreign_key_failed
  ok (record t {
    control = record t.control {
      routes =
          record {
            id = id;
            logical_model = model;
            provider_account_id = account;
            upstream_model = upstream_model;
            priority = priority;
            enabled = true;
          }
          ∷ t.control.routes;
      route_states = insert_or_ignore (new_state id "closed") t.control.route_states;
    };
  })

unfoldable pub add_fallback : String → String → ℕ → Tables → Result Tables String
add_fallback source target priority t = do
  guard (not (has_fallback source priority t.control.fallbacks)) unique_failed
  guard (contains source t.logical_models) foreign_key_failed
  guard (contains target t.logical_models) foreign_key_failed
  ok (record t {
    control = record t.control {
      fallbacks =
          record { source_model = source; target_model = target; priority = priority }
          ∷ t.control.fallbacks;
    };
  })
