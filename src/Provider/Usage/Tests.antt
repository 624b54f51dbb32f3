-- ===== src/Provider/Usage/Tests.antt =====
-- Usage of concrete responses (crates/slg-adapter-provider/src/lib.rs).
use smart_llm_gateway.Prelude.{◌≡◌, refl, Bool, none}
use smart_llm_gateway.Prelude.Json.{Json, number, object, string, natural, field, end}
use smart_llm_gateway.Provider.Usage.{openai_usage_evidence, billed_units, add_usage_quantity}
use smart_llm_gateway.Provider.Usage.Laws.{Accepted, openai_usage_evidence-Accepted}

abbrev response : Json Bool
response = object (
    field "usage"
      (object (
        field "prompt_tokens" (number (natural 12)) (
          field "prompt_tokens_details" (object (field "cached_tokens" (number (natural 3)) end))
            (field "total_tokens" (number (natural 19)) end))))
      end)

no_usage :
    openai_usage_evidence {F = Bool}
      (object (field "usage" (object (field "total_tokens" (string "19") end)) end))
    ≡ none
unfolding openai_usage_evidence billed_units add_usage_quantity
no_usage = refl

openai_usage_evidence-Accepted_example : Accepted (openai_usage_evidence response)
openai_usage_evidence-Accepted_example = openai_usage_evidence-Accepted response
