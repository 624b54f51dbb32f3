-- ===== src/Provider/Usage.antt =====
-- The usage that a provider reports in a response (`openai_usage_evidence`, `add_usage_quantity`,
-- crates/slg-adapter-provider/src/lib.rs).
pub mod Laws
pub mod Tests
use smart_llm_gateway.Prelude.{
  ℕ, String, Bool, true, false, Option, none, some, List, [], ◌∷◌, ◌++◌, leb, if◌then◌else◌,
  and_then,
}
use smart_llm_gateway.Prelude.Int.{ℤ, pos}
use smart_llm_gateway.Prelude.Json.{Json, get, as_object, as_u64}
use smart_llm_gateway.Domain.Evidence.{
  ProviderUnitKind, ProviderUnit, ProviderReportedQuantity, ProviderBillingEvidence,
  ProviderAuthoritativeEvidence, FixedDecimal, AuthoritativeSource,
}
use smart_llm_gateway.Provider.Classify.{i64_max}

-- `value.get(key)`, of an object alone.
abbrev pub member : {F : Type 0} → String → Json F → Option (Json F)
member key v = and_then (as_object v) (get key)

-- `i64::try_from(value).ok()`
abbrev pub as_i64 : ℕ → Option ℤ
as_i64 n = if leb n i64_max then some (pos n) else none

abbrev quantity : ProviderUnitKind → ℤ → ProviderReportedQuantity
quantity kind unscaled = record {
  unit = record { kind = kind; currency_code = none; custom_name = none };
  value = record { unscaled = unscaled; scale = 0 };
}

abbrev pub pushed :
    List ProviderReportedQuantity → ProviderUnitKind → Option ℤ → List ProviderReportedQuantity
pushed units kind none = units
pushed units kind (some n) = units ++ quantity kind n ∷ []

pub add_usage_quantity :
    {F : Type 0}
    → ProviderUnitKind
    → Option (Json F)
    → List ProviderReportedQuantity
    → List ProviderReportedQuantity
add_usage_quantity kind value units = pushed units kind (and_then (and_then value as_u64) as_i64)

pub billed_units : {F : Type 0} → Json F → List ProviderReportedQuantity
billed_units usage =
    add_usage_quantity ProviderUnitKind.total_tokens (member "total_tokens" usage) (
      add_usage_quantity ProviderUnitKind.reasoning_tokens
        (and_then (member "completion_tokens_details" usage) (member "reasoning_tokens"))
        (add_usage_quantity ProviderUnitKind.output_tokens (member "completion_tokens" usage) (
          add_usage_quantity ProviderUnitKind.cached_input_tokens
            (and_then (member "prompt_tokens_details" usage) (member "cached_tokens"))
            (add_usage_quantity ProviderUnitKind.input_tokens (member "prompt_tokens" usage) []))))

abbrev pub evidence_of : List ProviderReportedQuantity → Option ProviderAuthoritativeEvidence
evidence_of [] = none
evidence_of (u ∷ us) = some (record {
  quota_snapshots = [];
  billing = some (record {
    provider_request_id = none;
    billed_units = u ∷ us;
    charge = none;
    source = record {
      source_id = "openai-compatible.chat-completions.usage";
      evidence_version = none;
    };
  });
})

pub openai_usage_evidence : {F : Type 0} → Json F → Option ProviderAuthoritativeEvidence
openai_usage_evidence body =
    and_then (member "usage" body) (λ usage. evidence_of (billed_units usage))
