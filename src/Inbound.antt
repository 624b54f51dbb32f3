-- ===== src/Inbound.antt =====
-- The public HTTP surface (crates/slg-adapter-inbound-openai/src/lib.rs): a request is read, the gateway
-- asked, and its answer rendered.
pub mod Decode
pub mod Render
pub mod Laws
pub mod Tests
use smart_llm_gateway.Prelude.{String, Bool, Option, none, some, List, Result, ok, err, and_then}
use smart_llm_gateway.Prelude.Texts.{strip_prefix}
use smart_llm_gateway.Prelude.Json.{Json}
use smart_llm_gateway.Domain.Message.{InferenceRequest}
use smart_llm_gateway.Ports.{Call, Log, InferenceStreamEvent}
use smart_llm_gateway.Application.Stream.Reading.{emitted}
use smart_llm_gateway.Application.Gateway.{Gateway, InferenceResponse, infer}
use smart_llm_gateway.Application.Monad.{ApplicationError}
use smart_llm_gateway.Inbound.Decode.{Serde, ChatCompletionRequest, RequestError, decode_request}
use smart_llm_gateway.Inbound.Render.{Response, error, application_error_response, HeaderValue}

-- `authorization` is the header's value as text, if there is one and it is visible ASCII.
unfoldable pub bearer : HeaderValue → Option String
bearer authorization = and_then authorization (strip_prefix "Bearer ")

unfoldable pub inference_request :
    {F : Type 0} → String → ChatCompletionRequest F → InferenceRequest F
inference_request request_id input = record {
  request_id = request_id;
  model = input.model;
  messages = input.messages;
  stream = input.stream;
  temperature = input.temperature;
  max_tokens = input.max_tokens;
}

-- The events that are read from the response's stream, which `handle_execution` has put around the
-- upstream's; `answer` is how the ports answer while it is read.
unfoldable pub read_body :
    {F C : Type 0}
    → (Log → Call → Bool)
    → Result (InferenceResponse (Json F) (List (InferenceStreamEvent C))) ApplicationError
    → Log
    → Result (InferenceResponse (Json F) (List (InferenceStreamEvent C))) ApplicationError
read_body answer (ok (InferenceResponse.streaming body attempt)) l =
    ok (InferenceResponse.streaming (emitted answer body attempt l) attempt)
read_body answer r l = r

-- A gateway whose complete answers are JSON and whose upstream streams are their events. `request_id` is the
-- fresh identifier, `encode` what `serde_json::to_vec` makes of a chunk.
module _ {F C : Type 0} (serde : Serde F) (encode : C → Option String) (answer : Log → Call → Bool)
    (g : Gateway F (Json F) (List (InferenceStreamEvent C))) (request_id : String) where
  -- The response, with all that its body comes to, and the log before the body is read.
  unfoldable pub answered :
      Result (InferenceResponse (Json F) (List (InferenceStreamEvent C))) ApplicationError × Log
      → Response F × Log
  answered (r, l) = (application_error_response encode (read_body answer r l), l)

  unfoldable pub with_input :
      String → Result (ChatCompletionRequest F) RequestError → Log → Response F × Log
  with_input key (ok input) l = answered (infer g key (inference_request request_id input) l)
  with_input key (err failure) l = (error 400 failure.code failure.message, l)

  unfoldable pub with_key : String → Option (Json F) → Log → Response F × Log
  with_key key (some value) l = with_input key (decode_request serde value) l
  with_key key none l = (error 400 "invalid_request_error" "Malformed JSON request body", l)

  unfoldable pub with_bearer : Option String → Option (Json F) → Log → Response F × Log
  with_bearer none payload l = (error 401 "invalid_api_key" "Missing Bearer gateway key", l)
  with_bearer (some key) payload l = with_key key payload l

  -- `payload` is the body as JSON, if it is JSON.
  unfoldable pub chat_completion : HeaderValue → Option (Json F) → Log → Response F × Log
  chat_completion authorization payload l = with_bearer (bearer authorization) payload l
