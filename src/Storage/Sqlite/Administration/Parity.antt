-- ===== src/Storage/Sqlite/Administration/Parity.antt =====
-- The administration of the two control planes does the same to the tables
-- (crates/slg-adapter-storage-sqlite/src/lib.rs, crates/slg-adapter-storage-postgres/src/lib.rs).
use smart_llm_gateway.Prelude.{
  ℕ, String, ◌≡◌, refl, ap, ◌∙◌, sym, Bool, true, false, not, leb, Option, none, some, List, ◌∷◌,
  map, contains, if◌then◌else◌, Result, ok, err, map_err, guard, ◌>>=◌, ◌>>◌,
}
use smart_llm_gateway.Domain.Credential.{
  CredentialReference, CredentialReferenceError, parse, as_str,
}
use smart_llm_gateway.Storage.Sqlite.{HealthRow}
use smart_llm_gateway.Storage.Sqlite.Health.{reference_error}
use smart_llm_gateway.Storage.Postgres.Candidates.{credential_reference}
use smart_llm_gateway.Storage.Postgres.Administration.{
  Tables, account_ids, route_ids, owners, new_state, trim_slashes, unique_violation,
  reference_violation, i32_max, with_account, with_fallback, has_priority, has_fallback,
}
use smart_llm_gateway.Storage.Postgres.Administration as Postgres
use smart_llm_gateway.Storage.Postgres.Administration.Integrity.{
  IsIntact, Command, key, model, account, route, fallback, perform, without_key,
}
use smart_llm_gateway.Storage.Sqlite.Administration.{
  unique_failed, foreign_key_failed, insert_or_ignore, create_account_with_reference,
}
use smart_llm_gateway.Storage.Sqlite.Administration as Sqlite

-- The tables, when the command was accepted.
abbrev pub stored : Result Tables String → Option Tables
stored (ok t) = some t
stored (err e) = none

-- A row of state is written where there is none.
insert_or_ignore-absent :
    (s : HealthRow) (states : List HealthRow)
    → contains s.owner (owners states) ≡ false
    → insert_or_ignore s states ≡ s ∷ states
unfolding insert_or_ignore
insert_or_ignore-absent s states h = ap (λ b. if b then states else s ∷ states) h

-- One constraint that both check, each with a message of its own.
same_guard :
    (b : Bool) (e f : String) (x y : Result Tables String)
    → (b ≡ true → stored x ≡ stored y)
    → stored (guard b e >> x) ≡ stored (guard b f >> y)
same_guard true e f x y k = k refl
same_guard false e f x y k = refl

-- A constraint that only PostgreSQL can break, and does not.
only_guard :
    (b : Bool) (e : String) (x : Result Tables String)
    → b ≡ true
    → stored (guard b e >> x) ≡ stored x
only_guard true e x h = refl
only_guard false e x h = cc

not-false : (b : Bool) → not b ≡ true → b ≡ false
not-false true h = cc
not-false false h = refl

-- The row of state of a new owner: PostgreSQL demands that it is new, SQLite keeps one that is there.
same_state :
    (s : HealthRow) (states : List HealthRow) (ids : List String) (f : List HealthRow → Tables)
    → owners states ≡ ids
    → not (contains s.owner ids) ≡ true
    → stored
        (guard (not (contains s.owner (owners states))) unique_violation >> ok (f (s ∷ states)))
      ≡ stored (ok (f (insert_or_ignore s states)))
same_state s states ids f h g =
    let absent : contains s.owner (owners states) ≡ false =
      ap (contains s.owner) h ∙ not-false (contains s.owner ids) g in
    only_guard _ unique_violation _ (ap not absent)
    ∙ ap (λ rows. some (f rows)) (sym (insert_or_ignore-absent s states absent))

-- A write after one unique key and two references.
abbrev checked :
    (unique model_there target_there : Bool) (duplicate missing : String)
    → Result Tables String
    → Result Tables String
checked a b c duplicate missing x = guard a duplicate >> (guard b missing >> (guard c missing >> x))

same_checked :
    (a b c : Bool) (x y : Result Tables String)
    → stored x ≡ stored y
    → stored (checked a b c unique_violation reference_violation x)
      ≡ stored (checked a b c unique_failed foreign_key_failed y)
same_checked true true true x y h = h
same_checked true true false x y h = refl
same_checked true false c x y h = refl
same_checked false b c x y h = refl

create_account_parity :
    (id provider credential_ref base_url : String) (t : Tables)
    → owners t.control.account_states ≡ account_ids t.control.accounts
    → stored (Postgres.create_account id provider credential_ref base_url t)
      ≡ stored (Sqlite.create_account id provider credential_ref base_url t)
unfolding Postgres.create_account Sqlite.create_account create_account_with_reference
    credential_reference
create_account_parity id provider credential_ref base_url t h = by_parse (parse credential_ref)
  where
    by_parse :
        (p : Result CredentialReference CredentialReferenceError)
        → stored (
            map_err {F = String} (λ _. "invalid credential reference in PostgreSQL configuration") p
            >>= λ reference.
                guard (not (contains id (account_ids t.control.accounts))) unique_violation
                >> (guard (not (contains id (owners t.control.account_states))) unique_violation
                    >> ok (
                        with_account
                          (record {
                            id = id;
                            provider = provider;
                            credential_ref = as_str reference;
                            base_url = trim_slashes base_url;
                            enabled = true;
                          })
                          t)))
          ≡ stored (
              map_err reference_error p >>= λ reference.
              create_account_with_reference id provider reference base_url t)
    by_parse (err x) = refl
    by_parse (ok r) =
        let f : List HealthRow → Tables = λ rows. record t {
          control = record t.control {
            accounts =
                record {
                  id = id;
                  provider = provider;
                  credential_ref = as_str r;
                  base_url = trim_slashes base_url;
                  enabled = true;
                }
                ∷ t.control.accounts;
            account_states = rows;
          };
        } in
        same_guard (not (contains id (account_ids t.control.accounts))) unique_violation
          unique_failed
          (guard (not (contains id (owners t.control.account_states))) unique_violation
            >> ok (f (new_state id "unknown" ∷ t.control.account_states)))
          (ok (f (insert_or_ignore (new_state id "unknown") t.control.account_states)))
          (same_state (new_state id "unknown") t.control.account_states
            (account_ids t.control.accounts) f h)

create_route_parity :
    (id m account_id upstream_model : String) (priority : ℕ) (t : Tables)
    → leb priority i32_max ≡ true
    → owners t.control.route_states ≡ route_ids t.control.routes
    → stored (Postgres.create_route id m account_id upstream_model priority t)
      ≡ stored (Sqlite.create_route id m account_id upstream_model priority t)
unfolding Postgres.create_route Sqlite.create_route
create_route_parity id m account_id upstream_model priority t l h =
    let f : List HealthRow → Tables = λ rows. record t {
      control = record t.control {
        routes =
            record {
              id = id;
              logical_model = m;
              provider_account_id = account_id;
              upstream_model = upstream_model;
              priority = priority;
              enabled = true;
            }
            ∷ t.control.routes;
        route_states = rows;
      };
    } in
    let fresh : Bool = not (contains id (route_ids t.control.routes)) in
    let unique : Bool = not (has_priority m priority t.control.routes) in
    let model_there : Bool = contains m t.logical_models in
    let account_there : Bool = contains account_id (account_ids t.control.accounts) in
    let x : Result Tables String =
      guard (not (contains id (owners t.control.route_states))) unique_violation
      >> ok (f (new_state id "closed" ∷ t.control.route_states)) in
    let y : Result Tables String =
      ok (f (insert_or_ignore (new_state id "closed") t.control.route_states)) in
    only_guard (leb priority i32_max) "route priority exceeds PostgreSQL INTEGER"
      (guard fresh unique_violation
        >> checked unique model_there account_there unique_violation reference_violation x)
      l
    ∙ same_guard fresh unique_violation unique_failed
        (checked unique model_there account_there unique_violation reference_violation x)
        (checked unique model_there account_there unique_failed foreign_key_failed y)
        (λ g. same_checked unique model_there account_there x y (
          same_state (new_state id "closed") t.control.route_states (route_ids t.control.routes) f h
            g))

add_fallback_parity :
    (source target : String) (priority : ℕ) (t : Tables)
    → leb priority i32_max ≡ true
    → stored (Postgres.add_fallback source target priority t)
      ≡ stored (Sqlite.add_fallback source target priority t)
unfolding Postgres.add_fallback Sqlite.add_fallback
add_fallback_parity source target priority t l =
    let x : Result Tables String = ok (
      with_fallback (record { source_model = source; target_model = target; priority = priority })
        t) in
    let unique : Bool = not (has_fallback source priority t.control.fallbacks) in
    let source_there : Bool = contains source t.logical_models in
    let target_there : Bool = contains target t.logical_models in
    only_guard (leb priority i32_max) "fallback priority exceeds PostgreSQL INTEGER"
      (checked unique source_there target_there unique_violation reference_violation x) l
    ∙ same_checked unique source_there target_there x x refl

create_gateway_key_parity :
    (digest : String → String) (raw_key : String) (t : Tables)
    → stored (without_key (Postgres.create_gateway_key digest raw_key t))
      ≡ stored (without_key (Sqlite.create_gateway_key digest raw_key t))
unfolding Postgres.create_gateway_key Sqlite.create_gateway_key
create_gateway_key_parity digest raw_key t =
    by_guard (not (contains (digest raw_key) (map (λ k. k.key_hash) t.control.gateway_keys))) _
  where
    by_guard :
        (b : Bool) (x : String × Tables)
        → stored (without_key (guard b unique_violation >> ok x))
          ≡ stored (without_key (guard b unique_failed >> ok x))
    by_guard true x = refl
    by_guard false x = refl

-- The same command on SQLite.
abbrev pub perform_sqlite : Command → Tables → Result Tables String
perform_sqlite (key digest raw_key) t = without_key (Sqlite.create_gateway_key digest raw_key t)
perform_sqlite (model name) t = Sqlite.create_model name t
perform_sqlite (account id provider credential_ref base_url) t =
    Sqlite.create_account id provider credential_ref base_url t
perform_sqlite (route id m a upstream_model priority) t =
    Sqlite.create_route id m a upstream_model priority t
perform_sqlite (fallback source target priority) t = Sqlite.add_fallback source target priority t

-- The priority of a command is an INTEGER of PostgreSQL.
abbrev pub IsInteger : Command → Type 0
IsInteger (route id m a upstream_model priority) = leb priority i32_max ≡ true
IsInteger (fallback source target priority) = leb priority i32_max ≡ true
IsInteger (key digest raw_key) = Unit
IsInteger (model name) = Unit
IsInteger (account id provider credential_ref base_url) = Unit

create_model_parity :
    (name : String) (t : Tables)
    → stored (Postgres.create_model name t) ≡ stored (Sqlite.create_model name t)
unfolding Postgres.create_model Sqlite.create_model
create_model_parity name t =
    let x : Result Tables String = ok (record t { logical_models = name ∷ t.logical_models }) in
    same_guard (not (contains name t.logical_models)) unique_violation unique_failed x x (λ _. refl)

-- On tables that are intact, a command of the administration whose priority is at most 2,147,483,647 is
-- accepted by PostgreSQL exactly if it is by SQLite, and both then have the same tables.
pub perform_parity :
    (c : Command) (t : Tables)
    → IsInteger c
    → IsIntact t
    → stored (perform c t) ≡ stored (perform_sqlite c t)
perform_parity (key digest raw_key) t l h = create_gateway_key_parity digest raw_key t
perform_parity (model name) t l h = create_model_parity name t
perform_parity (account id provider credential_ref base_url) t l (_, _, h, _, _, _, _) =
    create_account_parity id provider credential_ref base_url t h
perform_parity (route id m a upstream_model priority) t l (_, _, _, h, _, _, _) =
    create_route_parity id m a upstream_model priority t l h
perform_parity (fallback source target priority) t l h =
    add_fallback_parity source target priority t l
