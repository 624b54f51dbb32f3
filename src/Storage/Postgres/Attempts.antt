-- ===== src/Storage/Postgres/Attempts.antt =====
-- `record_attempt` and authentication of the PostgreSQL control plane
-- (crates/slg-adapter-storage-postgres/src/lib.rs).
pub mod Parity
pub mod Tests
use smart_llm_gateway.Prelude.{
  String, Bool, true, false, ◌&&◌, ◌||◌, Option, none, some, List, [], ◌∷◌, ◌++◌, ◌==◌, map, filter,
  is_empty, not, Result, ok, err, if◌then◌else◌,
}
use smart_llm_gateway.Ports.{AttemptRecord, as_str}
use smart_llm_gateway.Storage.Sqlite.{UsageAttempt, GatewayKey}

-- `VALUES ($1, $2, $3, $4, $5)`
abbrev pub values : AttemptRecord → UsageAttempt
values r = record {
  id = r.attempt_id;
  request_id = r.request_id;
  route_id = r.route_id;
  outcome = as_str r.outcome;
  failure_category = r.failure_category;
}

-- The `WHERE` of the `DO UPDATE`.
unfoldable pub updates : UsageAttempt → UsageAttempt → Bool
updates excluded x =
    (x.request_id == excluded.request_id)
    && ((x.route_id == excluded.route_id)
        && ((x.outcome == "committed")
            && ((excluded.outcome == "succeeded")
                || ((excluded.outcome == "partial_failed") || (excluded.outcome == "cancelled")))))

unfoldable pub do_update : UsageAttempt → UsageAttempt → UsageAttempt
do_update excluded x =
    if (x.id == excluded.id) && updates excluded x
    then record x { outcome = excluded.outcome; failure_category = excluded.failure_category }
    else x

unfoldable pub conflicts : String → List UsageAttempt → Bool
conflicts id [] = false
conflicts id (x ∷ xs) = if x.id == id then true else conflicts id xs

-- `INSERT … ON CONFLICT (id) DO UPDATE SET … WHERE …`
unfoldable pub insert_or_update : UsageAttempt → List UsageAttempt → List UsageAttempt
insert_or_update excluded t =
    if conflicts excluded.id t then map (do_update excluded) t else t ++ excluded ∷ []

-- `SELECT request_id = $2 AND route_id = $3 … WHERE id = $1`, which must have a row.
unfoldable pub identity_matches : UsageAttempt → List UsageAttempt → Option Bool
identity_matches y [] = none
identity_matches y (x ∷ xs) =
    if x.id == y.id
    then some ((x.request_id == y.request_id) && (x.route_id == y.route_id))
    else identity_matches y xs

unfoldable pub recorded : Option Bool → Result (Unit {0}) String
recorded none = err "Query returned no rows"
recorded (some false) = err "attempt identity does not match the persisted attempt"
recorded (some true) = ok tt

-- `record_attempt`
unfoldable pub record_attempt :
    AttemptRecord → List UsageAttempt → Result (Unit {0}) String × List UsageAttempt
record_attempt attempt t =
    let t' = insert_or_update (values attempt) t in
    (recorded (identity_matches (values attempt) t'), t')

-- `authenticate`: whether the query has a row; `digest` is SHA-256 in hexadecimal.
unfoldable pub authenticate : (String → String) → String → List GatewayKey → Bool
authenticate digest raw_key keys =
    not (is_empty (filter (λ k. (k.key_hash == digest raw_key) && k.enabled) keys))
