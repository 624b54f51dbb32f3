-- ===== src/Upstream/Encode.antt =====
-- The payload of a request (`encode_chat_completion`, crates/slg-adapter-upstream-openai/src/lib.rs).
use smart_llm_gateway.Prelude.{ℕ, String, Option, none, some, List, [], ◌∷◌}
use smart_llm_gateway.Prelude.Json.{
  Json, bool, number, string, array, object, natural, float, Items, nil, cons, Fields, end, field,
}
use smart_llm_gateway.Domain.Message.{ChatMessage, InferenceRequest}
use smart_llm_gateway.Domain.Message.Decode.{content_to_json}

module _ {F : Type 0} where
  abbrev message_to_json : ChatMessage → Json F
  message_to_json m =
      object (field "role" (string m.role) (field "content" (content_to_json m.content) end))

  abbrev messages_to_items : List ChatMessage → Items F
  messages_to_items [] = nil
  messages_to_items (m ∷ ms) = cons (message_to_json m) (messages_to_items ms)

  -- `payload["max_tokens"] = …`
  abbrev with_max_tokens : Option ℕ → Fields F
  with_max_tokens none = end
  with_max_tokens (some n) = field "max_tokens" (number (natural n)) end

  abbrev with_temperature : Option F → Fields F → Fields F
  with_temperature none rest = rest
  with_temperature (some t) rest = field "temperature" (number (float t)) rest

  unfoldable pub encode_chat_completion : InferenceRequest F → String → Json F
  encode_chat_completion request upstream_model = object (
      field "model" (string upstream_model) (
        field "messages" (array (messages_to_items request.messages)) (
          field "stream" (bool request.stream)
            (with_temperature request.temperature (with_max_tokens request.max_tokens)))))
