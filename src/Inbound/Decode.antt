-- ===== src/Inbound/Decode.antt =====
-- The body of a request (`decode_request`, crates/slg-adapter-inbound-openai/src/lib.rs).
pub mod Laws
use smart_llm_gateway.Prelude.{
  ℕ, String, Bool, Option, List, [], ◌∷◌, Result, ok, err, ok_or, map_err, ◌>>=◌,
}
use smart_llm_gateway.Prelude.Json.{Json}
use smart_llm_gateway.Domain.Message.{
  ChatMessage, MessageContent, MessageContentError, malformed_content, malformed_part,
  unsupported_part_type,
}
use smart_llm_gateway.Domain.Message.Decode.{content_of_json}

pub record ChatCompletionRequest (F : Type 0) : Type 0 where
  pub model : String
  pub messages : List ChatMessage
  pub stream : Bool
  pub temperature : Option F
  pub max_tokens : Option ℕ

pub record WireChatMessage (F : Type 0) : Type 0 where
  pub role : String
  pub content : Json F

pub record WireChatCompletionRequest (F : Type 0) : Type 0 where
  pub model : String
  pub messages : List (WireChatMessage F)
  pub stream : Bool
  pub temperature : Option F
  pub max_tokens : Option ℕ

pub record RequestError : Type 0 where
  pub code : String
  pub message : String

-- The derived `Deserialize` of the wire types.
abbrev pub Serde : Type 0 → Type 0
Serde F = Json F → Option (WireChatCompletionRequest F)

unfoldable pub content_error : MessageContentError → RequestError
content_error unsupported_part_type = record {
  code = "unsupported_content_part";
  message = "Message content contains an unsupported part type";
}
content_error _ = record {
  code = "invalid_content_part";
  message = "Message content contains a malformed part";
}

unfoldable pub schema_error : RequestError
schema_error = record {
  code = "invalid_request_error";
  message = "Request body does not match the chat completions schema";
}

module _ {F : Type 0} where
  unfoldable pub decode_message : WireChatMessage F → Result ChatMessage RequestError
  decode_message m = map_err content_error (content_of_json m.content) >>= λ content.
      ok (record { role = m.role; content = content })

  -- `collect::<Result<_, _>>()`
  unfoldable pub decode_messages : List (WireChatMessage F) → Result (List ChatMessage) RequestError
  decode_messages [] = ok []
  decode_messages (m ∷ ms) = decode_message m >>= λ c. decode_messages ms >>= λ cs. ok (c ∷ cs)

  unfoldable pub decode_request : Serde F → Json F → Result (ChatCompletionRequest F) RequestError
  decode_request from_value value = do
    request ← ok_or (from_value value) schema_error
    messages ← decode_messages request.messages
    ok (record {
      model = request.model;
      messages = messages;
      stream = request.stream;
      temperature = request.temperature;
      max_tokens = request.max_tokens;
    })
