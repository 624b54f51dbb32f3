-- ===== src/Runtime/Spool/Tests.antt =====
-- The spool at concrete entries.
use smart_llm_gateway.Prelude.{String, ◌≡◌, Bool, ◌==◌, not, none, List, [], ◌∷◌, ◌++◌, length}
use smart_llm_gateway.Prelude.Int.{pos}
use smart_llm_gateway.Ports.{AttemptOutcome, AttemptRecord}
use smart_llm_gateway.Runtime.Spool.{SpoolEntry, pending, flush_usage_spool}
use smart_llm_gateway.Runtime.Spool.Delivery.{Accepts, ids_of, Removed, flush_Delivered}

abbrev attempt : String → AttemptRecord
attempt id = record {
  attempt_id = id;
  request_id = "request";
  route_id = "route";
  outcome = AttemptOutcome.committed;
  failure_category = none;
}

abbrev entry : String → SpoolEntry
entry id = record { id = id; attempt = attempt id; queued_at = pos 1 }

-- A primary that takes every attempt but "b", and counts nothing.
abbrev store : Unit {0} → AttemptRecord → Bool × Unit {0}
store s r = (not (r.attempt_id == "b"), tt)

flush_Delivered_example :
    (sent : List SpoolEntry) × (rest : List SpoolEntry) × (pending 10 (entry "a" ∷ entry "b" ∷ [])
      ≡ sent ++ rest)
    × Accepts store tt sent
    × ((flush_usage_spool store 10 tt (entry "a" ∷ entry "b" ∷ [])).0 ≡ length sent)
    × Removed store
        (ids_of store sent)
        (entry "a" ∷ entry "b" ∷ [])
        (flush_usage_spool store 10 tt (entry "a" ∷ entry "b" ∷ [])).1.0
flush_Delivered_example = flush_Delivered store 10 tt (entry "a" ∷ entry "b" ∷ [])
