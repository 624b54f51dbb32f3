-- ===== src/Storage/Postgres/Attempts/Tests.antt =====
-- Attempts written to both control planes (crates/slg-adapter-storage-postgres/src/lib.rs).
use smart_llm_gateway.Prelude.{◌≡◌, refl, true, none, [], ◌∷◌}
use smart_llm_gateway.Ports.{AttemptOutcome, AttemptRecord}
use smart_llm_gateway.Storage.Sqlite.{UsageAttempt}
use smart_llm_gateway.Storage.Sqlite.Attempts as Sqlite
use smart_llm_gateway.Storage.Postgres.Attempts.{record_attempt, authenticate}
use smart_llm_gateway.Storage.Postgres.Attempts.Parity.{record_attempt_parity}

abbrev committed : UsageAttempt
committed = record {
  id = "attempt";
  request_id = "request";
  route_id = "route";
  outcome = "committed";
  failure_category = none;
}

abbrev cancelled : AttemptRecord
cancelled = record {
  attempt_id = "attempt";
  request_id = "request";
  route_id = "route";
  outcome = AttemptOutcome.cancelled;
  failure_category = none;
}

valid_key : authenticate (λ k. k) "key" (record { key_hash = "key"; enabled = true } ∷ []) ≡ true
unfolding authenticate
valid_key = refl

record_attempt_parity_example :
    record_attempt cancelled (committed ∷ []) ≡ Sqlite.record_attempt cancelled (committed ∷ [])
record_attempt_parity_example = record_attempt_parity cancelled (committed ∷ []) (refl, tt)
