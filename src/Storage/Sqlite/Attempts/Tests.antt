-- ===== src/Storage/Sqlite/Attempts/Tests.antt =====
-- Attempts in SQLite at concrete rows.
use smart_llm_gateway.Prelude.{◌≡◌, refl, ap, ◌==◌, true, false, none, some, List, [], ◌∷◌}
use smart_llm_gateway.Ports.{AttemptOutcome, AttemptRecord, as_str}
use smart_llm_gateway.Storage.Sqlite.{UsageAttempt}
use smart_llm_gateway.Storage.Sqlite.Attempts.{
  row, is_terminal, same_identity, resolve_conflict, upsert, find, record_attempt, record_attempts,
}
use smart_llm_gateway.Storage.Sqlite.Attempts.Lifecycle.{
  Kept, record_attempt-Kept, record_attempts_final,
}

abbrev attempt : AttemptOutcome → AttemptRecord
attempt o = record {
  attempt_id = "attempt";
  request_id = "request";
  route_id = "route";
  outcome = o;
  failure_category = none;
}

abbrev foreign : AttemptRecord
foreign = record (attempt AttemptOutcome.succeeded) { route_id = "other" }

abbrev committed_rows : List UsageAttempt
committed_rows = row (attempt AttemptOutcome.committed) ∷ []

abbrev ended_rows : List UsageAttempt
ended_rows = row (attempt AttemptOutcome.cancelled) ∷ []

-- Committed, then succeeded; a later cancellation changes nothing.
first_end_stays :
    record_attempts
      (attempt AttemptOutcome.committed
        ∷ attempt AttemptOutcome.succeeded
        ∷ attempt AttemptOutcome.cancelled
        ∷ [])
      []
    ≡ row (attempt AttemptOutcome.succeeded) ∷ []
unfolding record_attempts record_attempt upsert resolve_conflict same_identity is_terminal as_str
first_end_stays = refl

record_attempt-Kept_example :
    Kept
      (find "attempt" committed_rows)
      (find "attempt" (record_attempt (attempt AttemptOutcome.succeeded) committed_rows).1)
record_attempt-Kept_example =
    record_attempt-Kept "attempt" (attempt AttemptOutcome.succeeded) committed_rows

record_attempts_final_example :
    find "attempt" (record_attempts (attempt AttemptOutcome.succeeded ∷ foreign ∷ []) ended_rows)
    ≡ some (row (attempt AttemptOutcome.cancelled))
unfolding find as_str
record_attempts_final_example =
    record_attempts_final (attempt AttemptOutcome.succeeded ∷ foreign ∷ []) ended_rows "attempt"
      (row (attempt AttemptOutcome.cancelled)) refl
      (λ e. let q : false ≡ true = ap (λ s. s == "committed") e in cc)
