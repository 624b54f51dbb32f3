-- ===== src/Inbound/Tests.antt =====
-- Requests and responses on concrete values (crates/slg-adapter-inbound-openai/src/lib.rs).
use smart_llm_gateway.Prelude.{
  String, ◌≡◌, ◌↔◌, refl, Bool, true, false, Option, none, some, List, [], ◌∷◌, ok, err, ◌==◌,
}
use smart_llm_gateway.Prelude.Int.{pos}
use smart_llm_gateway.Prelude.Json.{Json, string, object, end}
use smart_llm_gateway.Domain.Failure.{ErrorCategory, ProviderFailure}
use smart_llm_gateway.Domain.Message.{MessageContent}
use smart_llm_gateway.Domain.Route.{RouteCandidate}
use smart_llm_gateway.Ports.{
  Call, Log, InferenceStreamEvent, InferenceExecution, frame, completed, failed,
}
use smart_llm_gateway.Application.Monad.{upstream}
use smart_llm_gateway.Application.Gateway.{Gateway}
use smart_llm_gateway.Inbound.Decode.{
  Serde, ChatCompletionRequest, WireChatCompletionRequest, decode_request, decode_messages,
  decode_message, schema_error,
}
use smart_llm_gateway.Inbound.Decode.Laws.{Decodes, decode_request_iff}
use smart_llm_gateway.Inbound.Render.{
  application_error_response, public_sse_stream, public_event, error,
}
use smart_llm_gateway.Inbound.{chat_completion, with_bearer, bearer}
use smart_llm_gateway.Inbound.Laws.{application_error_response_same}

abbrev wire : WireChatCompletionRequest Bool
wire = record {
  model = "logical-model";
  messages = record { role = "user"; content = string "hello" } ∷ [];
  stream = false;
  temperature = none;
  max_tokens = some 128;
}

-- A decoder that reads one body.
abbrev serde : Serde Bool
serde (object end) = some wire
serde _ = none

abbrev request : ChatCompletionRequest Bool
request = record {
  model = "logical-model";
  messages = record { role = "user"; content = MessageContent.text "hello" } ∷ [];
  stream = false;
  temperature = none;
  max_tokens = some 128;
}

abbrev leak : ProviderFailure
leak = record {
  category = ErrorCategory.provider_unavailable;
  message = "sk-live-must-not-leak";
  status = some 500;
  retry_at_unix = none;
}

abbrev other : ProviderFailure
other = record {
  category = ErrorCategory.unknown;
  message = "";
  status = none;
  retry_at_unix = none;
}

abbrev encode : Bool → Option String
encode b = some "{}"

abbrev route : RouteCandidate
route = record {
  route_id = "route";
  logical_model = "logical-model";
  provider_account_id = "account";
  provider = "provider";
  credential_ref = record { text = "env:KEY" };
  base_url = "https://provider.example.test";
  upstream_model = "model";
  priority = 1;
}

-- The upstream goes on behind its end.
abbrev gateway : Gateway Bool (Json Bool) (List (InferenceStreamEvent Bool))
gateway = record {
  config = record {
    authenticate = λ l key. ok (key == "key");
    candidates = λ l model. ok (route ∷ []);
    record_attempt = λ l r. ok tt;
    mark_route_success = λ l r. ok tt;
    mark_route_failure = λ l r f. ok tt;
    mark_account_failure = λ l a f. ok tt;
  };
  executor = record {
    execute =
        λ l r q c. ok (InferenceExecution.streaming (frame true ∷ completed ∷ frame false ∷ []));
  };
  secrets = record { resolve = λ l r. ok "secret" };
  usage_spool = none;
  accounting = none;
  host = record { new_attempt_id = λ l. "attempt"; now = λ l. pos 0 };
}

decoded : decode_request serde (object end) ≡ ok request
unfolding decode_request decode_messages decode_message
decoded =
    (decode_request_iff serde (object end) request).1
      (wire, refl, (refl, ((refl, refl), tt), refl, refl, refl))

not_a_schema : decode_request serde (string "hello") ≡ err schema_error
unfolding decode_request
not_a_schema = refl

streamed :
    public_sse_stream encode (frame true ∷ failed leak ∷ [])
    ≡ public_sse_stream encode (frame false ∷ failed other ∷ [])
unfolding public_sse_stream public_event
streamed = refl

abbrev answers : Log → Call → Bool
answers l c = true

no_key :
    (chat_completion serde encode answers gateway "id" (some "Basic key") (some (object end)) []).0
    ≡ error 401 "invalid_api_key" "Missing Bearer gateway key"
unfolding chat_completion bearer with_bearer
no_key = refl

decode_request_iff_example :
    (decode_request serde (object end) ≡ ok request)
    ↔ ((w : WireChatCompletionRequest Bool) × (serde (object end) ≡ some w) × Decodes request w)
decode_request_iff_example = decode_request_iff serde (object end) request

application_error_response_same_example :
    application_error_response encode {F = Bool} (err (upstream "sk-live-must-not-leak"))
    ≡ application_error_response encode (err (upstream ""))
application_error_response_same_example =
    application_error_response_same encode (err (upstream "sk-live-must-not-leak"))
      (err (upstream "")) tt
