-- ===== src/Provider/Classify/Laws.antt =====
-- What a classified failure does to routes (crates/slg-adapter-provider/src/lib.rs).
use smart_llm_gateway.Prelude.{ℕ, ◌+◌, ◌≤◌, String, ◌≡◌, ◌≢◌, ◌↔◌, true, some, arith}
use smart_llm_gateway.Prelude.Int.{pos}
use smart_llm_gateway.Domain.Failure.{ErrorCategory, opens_route}
use smart_llm_gateway.Provider.Classify.{category_of, retries, retry_time, classify, i64_max}

retries_iff :
    (c : ErrorCategory)
    → (retries c ≡ true) ↔ ((opens_route c ≡ true) × (c ≢ ErrorCategory.model_unavailable))
unfolding retries opens_route
retries_iff c = ground arith

-- While the clock is at least a minute before the end of an `i64`, a classified failure has a time to
-- retry, a minute ahead, exactly if its category opens the route and is not that the model is
-- unavailable.
pub classify_retry_iff :
    (now status : ℕ) (code : String)
    → now + 60 ≤ i64_max
    → ((classify now status code).retry_at_unix ≡ some (pos (now + 60))) ↔ (
        (opens_route (classify now status code).category ≡ true)
        × ((classify now status code).category ≢ ErrorCategory.model_unavailable))
unfolding classify retry_time
classify_retry_iff now status code h = ground (arith, retries_iff (category_of status code))
