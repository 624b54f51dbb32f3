-- ===== src/Provider/Classify.antt =====
-- How an error response of a provider becomes a failure (`classify`, `client_message`,
-- crates/slg-adapter-provider/src/lib.rs).
pub mod Laws
pub mod Tests
use smart_llm_gateway.Prelude.{
  ℕ, ◌+◌, ◌-◌, String, Bool, true, false, ◌||◌, ◌&&◌, Option, none, some, eqb, leb, if◌then◌else◌,
}
use smart_llm_gateway.Prelude.Int.{ℤ, pos, negsuc}
use smart_llm_gateway.Prelude.Texts.{starts_with}
use smart_llm_gateway.Domain.Failure.{ErrorCategory, ProviderFailure}

-- `text.contains(pattern)`
pub contains_text : String → String → Bool
contains_text pattern String.[] = starts_with String.[] pattern
contains_text pattern (String.◌∷◌ c s) =
    starts_with (String.◌∷◌ c s) pattern || contains_text pattern s

-- `code` is the lower-case text at `/error/code` of the body, empty if there is none.
pub category_of : ℕ → String → ErrorCategory
category_of status code =
    if eqb status 401 || eqb status 403
    then ErrorCategory.authentication_failed
    else if contains_text "insufficient_quota" code || contains_text "quota_exceeded" code
    then ErrorCategory.quota_exhausted
    else if contains_text "credit" code
    then ErrorCategory.credit_exhausted
    else if eqb status 429
    then ErrorCategory.rate_limited
    else if eqb status 404 || contains_text "model" code
    then ErrorCategory.model_unavailable
    else if leb 500 status && leb status 599
    then ErrorCategory.provider_unavailable
    else ErrorCategory.unknown

-- The `matches!` on the category.
pub retries : ErrorCategory → Bool
retries ErrorCategory.rate_limited = true
retries ErrorCategory.concurrency_limited = true
retries ErrorCategory.provider_unavailable = true
retries ErrorCategory.unknown = true
retries _ = false

abbrev pub i64_max : ℕ
i64_max = 9223372036854775807

-- `i64::try_from(now).unwrap_or(i64::MAX - 60) + 60`, where the sum wraps around.
pub retry_time : ℕ → ℤ
retry_time now =
    if leb (now + 60) i64_max
    then pos (now + 60)
    else if leb now i64_max
    then negsuc (18446744073709551615 - (now + 60))
    else pos i64_max

pub client_message : ErrorCategory → String
client_message ErrorCategory.quota_exhausted = "provider capacity is currently unavailable"
client_message ErrorCategory.credit_exhausted = "provider capacity is currently unavailable"
client_message ErrorCategory.spend_limit_exceeded = "provider capacity is currently unavailable"
client_message ErrorCategory.rate_limited = "provider is temporarily rate limited"
client_message ErrorCategory.concurrency_limited = "provider is temporarily rate limited"
client_message ErrorCategory.authentication_failed = "provider credential is unavailable"
client_message ErrorCategory.model_unavailable = "requested upstream model is unavailable"
client_message ErrorCategory.provider_unavailable = "provider request could not be completed"
client_message ErrorCategory.unknown = "provider request could not be completed"

-- `classify`, at `now` seconds since the epoch.
pub classify : ℕ → ℕ → String → ProviderFailure
classify now status code =
    let category = category_of status code in
    record {
      category = category;
      message = client_message category;
      status = some status;
      retry_at_unix = if retries category then some (retry_time now) else none;
    }
