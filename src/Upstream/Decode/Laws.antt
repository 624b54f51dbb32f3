-- ===== src/Upstream/Decode/Laws.antt =====
-- The failures that a frame stands for (crates/slg-adapter-upstream-openai/src/lib.rs).
use smart_llm_gateway.Prelude.{
  ℕ, String, ◌≡◌, ◌⊎◌, inl, inr, refl, Bool, true, false, Option, none, some, List, [], ◌∷◌,
  if◌then◌else◌, Result, ok, err, ok_or, ◌>>=◌,
}
use smart_llm_gateway.Prelude.Json.{Json, Fields, get, as_object}
use smart_llm_gateway.Domain.Failure.{ErrorCategory, ProviderFailure}
use smart_llm_gateway.Ports.{InferenceStreamEvent, frame, failed}
use smart_llm_gateway.Provider.Classify.{retries, retry_time}
use smart_llm_gateway.Upstream.Decode.{
  Codec, stream_message, decode_frame, sanitized_failure, sanitized_openai_error, event_of_object,
  event_of_data, event_of_lines, is_done, join, data_of_lines, lines,
}

-- The texts of the adapter itself.
abbrev pub IsOwnMessage : String → Type 0
IsOwnMessage m =
    (m ≡ "provider capacity is currently unavailable")
    ⊎ (m ≡ "provider is temporarily rate limited")
    ⊎ (m ≡ "provider credential is unavailable")
    ⊎ (m ≡ "requested upstream model is unavailable")
    ⊎ (m ≡ "provider stream could not be completed")

-- A failure that only its category and the time determine, with a text of the adapter's own, no status,
-- and no time to retry but a minute from now.
abbrev pub SafeFailure : ℕ → ProviderFailure → Type 0
SafeFailure now e =
    IsOwnMessage e.message
    × (e.status ≡ none)
    × ((e.retry_at_unix ≡ none) ⊎ (e.retry_at_unix ≡ some (retry_time now)))
    × (e ≡ sanitized_failure now e.category)

pub sanitized_failure-SafeFailure :
    (now : ℕ) (k : ErrorCategory) → SafeFailure now (sanitized_failure now k)
unfolding sanitized_failure stream_message
sanitized_failure-SafeFailure now k = (own k, refl, retried (retries k), refl)
  where
    own : (k : ErrorCategory) → IsOwnMessage (stream_message k)
    own ErrorCategory.quota_exhausted = inl refl
    own ErrorCategory.credit_exhausted = inl refl
    own ErrorCategory.spend_limit_exceeded = inl refl
    own ErrorCategory.rate_limited = inr (inl refl)
    own ErrorCategory.concurrency_limited = inr (inl refl)
    own ErrorCategory.authentication_failed = inr (inr (inl refl))
    own ErrorCategory.model_unavailable = inr (inr (inr (inl refl)))
    own ErrorCategory.provider_unavailable = inr (inr (inr (inr refl)))
    own ErrorCategory.unknown = inr (inr (inr (inr refl)))

    retried :
        (b : Bool)
        → ((if b then some (retry_time now) else none) ≡ none)
          ⊎ ((if b then some (retry_time now) else none) ≡ some (retry_time now))
    retried true = inr refl
    retried false = inl refl

-- A failure is a safe one.
abbrev pub SafeEvent : {C : Type 0} → ℕ → InferenceStreamEvent C → Type 0
SafeEvent now (failed e) = SafeFailure now e
SafeEvent now _ = Unit

abbrev pub SafeResult :
    {C : Type 0} → ℕ → Result (Option (InferenceStreamEvent C)) ErrorCategory → Type 0
SafeResult now (ok (some e)) = SafeEvent now e
SafeResult now _ = Unit

module _ {F C : Type 0} (codec : Codec F C) (now : ℕ) where
  SafeResult-if :
      (t : Bool) (a b : Result (Option (InferenceStreamEvent C)) ErrorCategory)
      → SafeResult now a
      → SafeResult now b
      → SafeResult now (if t then a else b)
  SafeResult-if true a b h k = h
  SafeResult-if false a b h k = k

  SafeResult-bind :
      {A : Type 0} (r : Result A ErrorCategory)
      (next : A → Result (Option (InferenceStreamEvent C)) ErrorCategory)
      → ((a : A) → SafeResult now (next a))
      → SafeResult now (r >>= next)
  SafeResult-bind (ok a) next h = h a
  SafeResult-bind (err k) next h = tt

  event_of_object-SafeResult :
      (v : Json F) (o : Fields F) → SafeResult now (event_of_object codec now v o)
  unfolding event_of_object sanitized_openai_error
  event_of_object-SafeResult v o = by_error (get "error" o)
    where
      by_error :
          (e : Option (Json F))
          → SafeResult now (elim e [
            | some error ↦ ok (some (failed (sanitized_openai_error now error)))
            | none ↦ ok_or (codec.from_value v) ErrorCategory.provider_unavailable >>= λ chunk.
                ok (some (frame chunk))
          ])
      by_error (some error) = sanitized_failure-SafeFailure now _
      by_error none =
          SafeResult-bind (ok_or (codec.from_value v) ErrorCategory.provider_unavailable)
            (λ chunk. ok (some (frame chunk))) (λ c. tt)

  event_of_data-SafeResult : (t : String) → SafeResult now (event_of_data codec now t)
  unfolding event_of_data
  event_of_data-SafeResult t = SafeResult-if (is_done t) _ _ tt (
      SafeResult-bind (ok_or (codec.from_str t) ErrorCategory.provider_unavailable) _ (λ v.
        SafeResult-bind (ok_or (as_object v) ErrorCategory.provider_unavailable) _
          (λ o. event_of_object-SafeResult v o)))

  event_of_lines-SafeResult : (ls : List String) → SafeResult now (event_of_lines codec now ls)
  unfolding event_of_lines
  event_of_lines-SafeResult [] = tt
  event_of_lines-SafeResult (d ∷ ds) = event_of_data-SafeResult (join (d ∷ ds))

  pub decode_frame-SafeResult : (bytes : List ℕ) → SafeResult now (decode_frame codec now bytes)
  unfolding decode_frame
  decode_frame-SafeResult bytes =
      SafeResult-bind _ _ (λ t. event_of_lines-SafeResult (data_of_lines (lines t)))
