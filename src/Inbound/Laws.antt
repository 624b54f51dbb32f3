-- ===== src/Inbound/Laws.antt =====
-- When the gateway is asked, and what its answer becomes (crates/slg-adapter-inbound-openai/src/lib.rs).
use smart_llm_gateway.Prelude.{
  String, Bool, ◌≡◌, ◌≢◌, ◌⊎◌, refl, ap, ap₂, Option, none, some, List, [], ◌∷◌, Result, ok, err,
}
use smart_llm_gateway.Prelude.Json.{Json}
use smart_llm_gateway.Ports.{Call, Log, InferenceStreamEvent, frame, completed, failed}
use smart_llm_gateway.Application.Gateway.{Gateway, InferenceResponse, infer}
use smart_llm_gateway.Application.Monad.{
  ApplicationError, unauthorized, configuration, upstream_unavailable, upstream,
}
use smart_llm_gateway.Application.Stream.Reading.{received}
use smart_llm_gateway.Inbound.Decode.{Serde, ChatCompletionRequest, decode_request}
use smart_llm_gateway.Inbound.Render.{
  Response, json, events, HeaderValue, error, public_event, public_sse_stream,
  sanitized_upstream_message, application_error_response,
}
use smart_llm_gateway.Inbound.{bearer, inference_request}

-- The streams have the same events, but for what is in their failures.
abbrev pub SameEvents :
    {C : Type 0} → List (InferenceStreamEvent C) → List (InferenceStreamEvent C) → Type 0
SameEvents [] [] = Unit
SameEvents (frame c ∷ es) (frame c' ∷ es') = (c ≡ c') × SameEvents es es'
SameEvents (completed ∷ es) (completed ∷ es') = SameEvents es es'
SameEvents (failed _ ∷ es) (failed _ ∷ es') = SameEvents es es'
SameEvents _ _ = ⊥

-- The answers of the gateway agree, but for what providers said of their failures and the attempt's fields.
abbrev pub SameAnswer :
    {V C : Type 0}
    → Result (InferenceResponse V (List (InferenceStreamEvent C))) ApplicationError
    → Result (InferenceResponse V (List (InferenceStreamEvent C))) ApplicationError
    → Type 0
SameAnswer (ok (InferenceResponse.complete v)) (ok (InferenceResponse.complete v')) = v ≡ v'
SameAnswer (ok (InferenceResponse.streaming b a)) (ok (InferenceResponse.streaming b' a')) =
    SameEvents b b'
SameAnswer (err unauthorized) (err unauthorized) = Unit
SameAnswer (err (configuration m)) (err (configuration m')) = m ≡ m'
SameAnswer (err upstream_unavailable) (err upstream_unavailable) = Unit
SameAnswer (err (upstream m)) (err (upstream m')) = Unit
SameAnswer _ _ = ⊥

module _ {C : Type 0} (encode : C → Option String) where
  public_sse_stream_same :
      (es es' : List (InferenceStreamEvent C))
      → SameEvents es es'
      → public_sse_stream encode es ≡ public_sse_stream encode es'
  unfolding public_sse_stream public_event
  public_sse_stream_same [] [] h = refl
  public_sse_stream_same [] (e ∷ es) h = absurd h
  public_sse_stream_same (frame c ∷ es) [] h = absurd h
  public_sse_stream_same (completed ∷ es) [] h = absurd h
  public_sse_stream_same (failed f ∷ es) [] h = absurd h
  public_sse_stream_same (frame c ∷ es) (frame c' ∷ es') (h, hs) =
      ap₂ (λ c ls. public_event encode (frame c) ∷ ls) h (public_sse_stream_same es es' hs)
  public_sse_stream_same (frame c ∷ es) (completed ∷ es') h = absurd h
  public_sse_stream_same (frame c ∷ es) (failed f ∷ es') h = absurd h
  public_sse_stream_same (completed ∷ es) (frame c ∷ es') h = absurd h
  public_sse_stream_same (completed ∷ es) (completed ∷ es') h =
      ap (λ ls. public_event encode completed ∷ ls) (public_sse_stream_same es es' h)
  public_sse_stream_same (completed ∷ es) (failed f ∷ es') h = absurd h
  public_sse_stream_same (failed f ∷ es) (frame c ∷ es') h = absurd h
  public_sse_stream_same (failed f ∷ es) (completed ∷ es') h = absurd h
  public_sse_stream_same (failed f ∷ es) (failed f' ∷ es') h =
      ap (λ ls. public_event encode (failed f) ∷ ls) (public_sse_stream_same es es' h)

-- What is said of a provider's failure does not reach the client: answers of the gateway that differ only
-- in the texts of failed providers and in the failures of their streams have the same response, with the
-- same status, headers and bytes.
pub application_error_response_same :
    {F C : Type 0} (encode : C → Option String)
    (r r' : Result (InferenceResponse (Json F) (List (InferenceStreamEvent C))) ApplicationError)
    → SameAnswer r r'
    → application_error_response encode r ≡ application_error_response encode r'
unfolding application_error_response sanitized_upstream_message
application_error_response_same encode (ok (InferenceResponse.complete v))
      (ok (InferenceResponse.complete v')) h =
    ap (λ v. record { status = 200; headers = []; body = json v }) h
application_error_response_same encode (ok (InferenceResponse.streaming b a))
      (ok (InferenceResponse.streaming b' a')) h =
    ap
      (λ es. record {
        status = 200;
        headers =
            ("content-type", "text/event-stream")
            ∷ ("cache-control", "no-cache")
            ∷ ("x-accel-buffering", "no")
            ∷ [];
        body = events es;
      })
      (public_sse_stream_same encode b b' h)
application_error_response_same encode (err (configuration m)) (err (configuration m')) h =
    ap (error 400 "configuration_error") h
application_error_response_same encode (err unauthorized) (err unauthorized) h = refl
application_error_response_same encode (err upstream_unavailable) (err upstream_unavailable) h =
    refl
application_error_response_same encode (err (upstream m)) (err (upstream m')) h = refl
application_error_response_same encode (ok (InferenceResponse.complete v))
      (ok (InferenceResponse.streaming b a)) h =
    absurd h
application_error_response_same encode (ok (InferenceResponse.complete v)) (err e) h = absurd h
application_error_response_same encode (ok (InferenceResponse.streaming b a))
      (ok (InferenceResponse.complete v)) h =
    absurd h
application_error_response_same encode (ok (InferenceResponse.streaming b a)) (err e) h = absurd h
application_error_response_same encode (err unauthorized) (ok r) h = absurd h
application_error_response_same encode (err (configuration m)) (ok r) h = absurd h
application_error_response_same encode (err upstream_unavailable) (ok r) h = absurd h
application_error_response_same encode (err (upstream m)) (ok r) h = absurd h
application_error_response_same encode (err unauthorized) (err (configuration m)) h = absurd h
application_error_response_same encode (err unauthorized) (err upstream_unavailable) h = absurd h
application_error_response_same encode (err unauthorized) (err (upstream m)) h = absurd h
application_error_response_same encode (err (configuration m)) (err unauthorized) h = absurd h
application_error_response_same encode (err (configuration m)) (err upstream_unavailable) h =
    absurd h
application_error_response_same encode (err (configuration m)) (err (upstream m')) h = absurd h
application_error_response_same encode (err upstream_unavailable) (err unauthorized) h = absurd h
application_error_response_same encode (err upstream_unavailable) (err (configuration m)) h =
    absurd h
application_error_response_same encode (err upstream_unavailable) (err (upstream m)) h = absurd h
application_error_response_same encode (err (upstream m)) (err unauthorized) h = absurd h
application_error_response_same encode (err (upstream m)) (err (configuration m')) h = absurd h
application_error_response_same encode (err (upstream m)) (err upstream_unavailable) h = absurd h

-- A stream has the frames of the upstream's up to its first end, and that end, or the fixed failure where
-- there is none.
abbrev pub with_received :
    {F C : Type 0}
    → Result (InferenceResponse (Json F) (List (InferenceStreamEvent C))) ApplicationError
    → Result (InferenceResponse (Json F) (List (InferenceStreamEvent C))) ApplicationError
with_received (ok (InferenceResponse.streaming body attempt)) =
    ok (InferenceResponse.streaming (received body) attempt)
with_received r = r

module _ {F C : Type 0} (serde : Serde F) (encode : C → Option String) (answer : Log → Call → Bool)
    (g : Gateway F (Json F) (List (InferenceStreamEvent C))) (request_id : String) where
  -- The gateway's answer, its stream as it is received, as a response.
  abbrev pub rendered :
      Result (InferenceResponse (Json F) (List (InferenceStreamEvent C))) ApplicationError × Log
      → Response F × Log
  rendered (r, l) = (application_error_response encode (with_received r), l)

  -- The request was asked of the gateway, and its answer rendered.
  abbrev pub Asked : HeaderValue → Option (Json F) → Log → Response F × Log → Type 0
  Asked authorization payload l (response, l') =
      (key : String) × (v : Json F) × (input : ChatCompletionRequest F) × (bearer authorization
        ≡ some key)
      × (payload ≡ some v)
      × (decode_request serde v ≡ ok input)
      × ((response, l') ≡ rendered (infer g key (inference_request request_id input) l))

  -- The request was refused before the gateway.
  abbrev pub Refused : HeaderValue → Option (Json F) → Log → Response F × Log → Type 0
  Refused authorization payload l (response, l') =
      (l' ≡ l)
      × ((bearer authorization ≡ none) × (response.status ≡ 401)
          ⊎ ((key : String) × (bearer authorization ≡ some key)
              × ((v : Json F) (input : ChatCompletionRequest F)
                  → payload ≡ some v
                  → decode_request serde v ≢ ok input)
              × (response.status ≡ 400)))
