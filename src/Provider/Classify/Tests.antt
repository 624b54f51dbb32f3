-- ===== src/Provider/Classify/Tests.antt =====
-- Error responses of a provider at concrete values.
use smart_llm_gateway.Prelude.{◌≡◌, ◌≢◌, ◌↔◌, refl, some, true, arith}
use smart_llm_gateway.Prelude.Int.{pos}
use smart_llm_gateway.Domain.Failure.{ErrorCategory, opens_route}
use smart_llm_gateway.Provider.Classify.{classify, category_of, contains_text}
use smart_llm_gateway.Provider.Classify.Laws.{classify_retry_iff}

quota : category_of 400 "my_insufficient_quota" ≡ ErrorCategory.quota_exhausted
unfolding category_of contains_text
quota = refl

classify_retry_iff_example : ((classify 1000 503 "").retry_at_unix ≡ some (pos 1060)) ↔ (
    (opens_route (classify 1000 503 "").category ≡ true)
    × ((classify 1000 503 "").category ≢ ErrorCategory.model_unavailable))
classify_retry_iff_example = classify_retry_iff 1000 503 "" (omega arith)
