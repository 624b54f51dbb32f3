-- ===== src/Storage/Sqlite/Attempts.antt =====
-- `record_attempt_internal`: the monotonic life of an attempt (crates/slg-adapter-storage-sqlite/src/lib.rs).
pub mod Lifecycle
pub mod Tests
use smart_llm_gateway.Prelude.{
  String, Bool, true, false, ◌&&◌, ◌||◌, Option, none, some, List, [], ◌∷◌, ◌==◌, Result, ok, err,
  if◌then◌else◌,
}
use smart_llm_gateway.Ports.{AttemptRecord, as_str}
use smart_llm_gateway.Storage.Sqlite.{UsageAttempt}

-- The row that the statement inserts.
abbrev pub row : AttemptRecord → UsageAttempt
row r = record {
  id = r.attempt_id;
  request_id = r.request_id;
  route_id = r.route_id;
  outcome = as_str r.outcome;
  failure_category = r.failure_category;
}

-- `IN ('succeeded', 'partial_failed', 'cancelled')`
unfoldable pub is_terminal : String → Bool
is_terminal o = (o == "succeeded") || ((o == "partial_failed") || (o == "cancelled"))

-- `request_id = … AND route_id = …`
unfoldable pub same_identity : UsageAttempt → UsageAttempt → Bool
same_identity x y = (x.request_id == y.request_id) && (x.route_id == y.route_id)

-- `ON CONFLICT(id) DO UPDATE … WHERE …`: the row `x` stands, and `y` is to be inserted.
unfoldable pub resolve_conflict : UsageAttempt → UsageAttempt → UsageAttempt
resolve_conflict x y =
    if same_identity x y && ((x.outcome == "committed") && is_terminal y.outcome)
    then record x { outcome = y.outcome; failure_category = y.failure_category }
    else x

unfoldable pub upsert : UsageAttempt → List UsageAttempt → List UsageAttempt
upsert y [] = y ∷ []
upsert y (x ∷ xs) = if x.id == y.id then resolve_conflict x y ∷ xs else x ∷ upsert y xs

-- `WHERE id = …`
unfoldable pub find : String → List UsageAttempt → Option UsageAttempt
find id [] = none
find id (x ∷ xs) = if x.id == id then some x else find id xs

-- What the second statement decides; it finds a row.
unfoldable pub check_identity : UsageAttempt → Option UsageAttempt → Result (Unit {0}) String
check_identity y none = err "Query returned no rows"
check_identity y (some x) =
    if same_identity x y then ok tt else err "attempt identity does not match the persisted attempt"

-- `record_attempt_internal`
unfoldable pub record_attempt :
    AttemptRecord → List UsageAttempt → Result (Unit {0}) String × List UsageAttempt
record_attempt r t =
    let t' = upsert (row r) t in (check_identity (row r) (find r.attempt_id t'), t')

-- A series of writes, whatever they answer.
pub record_attempts : List AttemptRecord → List UsageAttempt → List UsageAttempt
record_attempts [] t = t
record_attempts (r ∷ rs) t = record_attempts rs (record_attempt r t).1
