-- ===== src/Inbound/Render.antt =====
-- The response to a request (`application_error_response`, `public_sse_stream`, `error`,
-- crates/slg-adapter-inbound-openai/src/lib.rs).
pub mod Laws
use Prim.Native.String.{String, ◌++◌ as append}
use smart_llm_gateway.Prelude.{ℕ, Option, none, some, List, [], ◌∷◌, map, Result, ok, err}
use smart_llm_gateway.Prelude.Json.{Json, string, object, field, end}
use smart_llm_gateway.Ports.{InferenceStreamEvent, frame, completed, failed}
use smart_llm_gateway.Application.Gateway.{InferenceResponse}
use smart_llm_gateway.Application.Monad.{
  ApplicationError, unauthorized, configuration, upstream_unavailable, upstream,
}

abbrev pub HeaderValue : Type 0
HeaderValue = Option String

pub data Body (F : Type 0) : Type 0 where
  json : Json F → Body F
  events : List String → Body F

-- `headers` are those that the code sets.
pub record Response (F : Type 0) : Type 0 where
  pub status : ℕ
  pub headers : List (String × String)
  pub body : Body F

unfoldable pub error : {F : Type 0} → ℕ → String → String → Response F
error status code message = record {
  status = status;
  headers = [];
  body = json (
      object (
        field "error"
          (object (
            field "message" (string message)
              (field "type" (string code) (field "code" (string code) end))))
          end));
}

unfoldable pub sanitized_upstream_message : String → String
sanitized_upstream_message _ = "The configured upstream provider could not complete the request"

-- `unwrap_or_else(|_| b"{}".to_vec())`
unfoldable pub encoded_or_empty : Option String → String
encoded_or_empty none = "{}"
encoded_or_empty (some s) = s

-- `encode` is `serde_json::to_vec`; bytes are written as text.
module _ {C : Type 0} (encode : C → Option String) where
  unfoldable pub public_event : InferenceStreamEvent C → String
  public_event (frame c) = append "data: " (append (encoded_or_empty (encode c)) "\n\n")
  public_event completed = "data: [DONE]\n\n"
  public_event (failed _) =
      "data: {\"error\":{\"message\":\"The configured upstream provider could not complete the stream\",\"type\":\"upstream_error\",\"code\":\"upstream_error\"}}\n\n"

  unfoldable pub public_sse_stream : List (InferenceStreamEvent C) → List String
  public_sse_stream = map public_event

  unfoldable pub application_error_response :
      {F : Type 0}
      → Result (InferenceResponse (Json F) (List (InferenceStreamEvent C))) ApplicationError
      → Response F
  application_error_response (ok (InferenceResponse.complete response)) = record {
    status = 200;
    headers = [];
    body = json response;
  }
  application_error_response (ok (InferenceResponse.streaming body attempt)) = record {
    status = 200;
    headers =
        ("content-type", "text/event-stream")
        ∷ ("cache-control", "no-cache")
        ∷ ("x-accel-buffering", "no")
        ∷ [];
    body = events (public_sse_stream body);
  }
  application_error_response (err unauthorized) = error 401 "invalid_api_key" "Invalid gateway key"
  application_error_response (err (configuration message)) = error 400 "configuration_error" message
  application_error_response (err upstream_unavailable) =
      error 503 "upstream_unavailable" "No upstream route is currently available"
  application_error_response (err (upstream message)) =
      error 502 "upstream_error" (sanitized_upstream_message message)
