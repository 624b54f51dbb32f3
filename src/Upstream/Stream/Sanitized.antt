-- ===== src/Upstream/Stream/Sanitized.antt =====
-- No text of a provider reaches the client in a failure (crates/slg-adapter-upstream-openai/src/lib.rs).
use smart_llm_gateway.Prelude.{
  ℕ, zero, suc, ◌≡◌, ap, subst, Bool, true, false, Option, none, some, [], ◌∷◌, ltb, if◌then◌else◌,
  Result, ok, err, take, drop, length, ◌-◌,
}
use smart_llm_gateway.Domain.Failure.{ErrorCategory}
use smart_llm_gateway.Ports.{InferenceStreamEvent, frame, completed, failed}
use smart_llm_gateway.Application.Stream.{Poll, ready, pending}
use smart_llm_gateway.Upstream.Frame.{complete_frame}
use smart_llm_gateway.Upstream.Decode.{Codec}
use smart_llm_gateway.Upstream.Decode.Laws.{
  SafeEvent, SafeResult, sanitized_failure-SafeFailure, decode_frame-SafeResult,
}
use smart_llm_gateway.Upstream.Stream.{
  OpenAiByteStream, OpenAiSseDecoder, max_sse_frame_bytes, Round, returned, continue, fail,
  on_frame, on_source, poll_source, on_buffer, round, settle, poll_next,
}

-- What a poll returns.
abbrev pub SafePoll : {C : Type 0} → ℕ → Poll (Option (InferenceStreamEvent C)) → Type 0
SafePoll now (ready (some e)) = SafeEvent now e
SafePoll now _ = Unit

abbrev SafeRound : {C : Type 0} → ℕ → Round C → Type 0
SafeRound now (continue d) = Unit
SafeRound now (returned p d) = SafePoll now p

first_of :
    {A : Type 0} {B : Type 0} {a a' : A} {b b' : B}
    → ◌≡◌ {A = Option (A × B)} (some (a, b)) (some (a', b'))
    → a ≡ a'
first_of {a = a} h = ap (λ o. elim o [ none ↦ a | some p ↦ p.0 ]) h

module _ (C : Type 0) (now : ℕ) where
  SafeRound-if :
      (t : Bool) (a b : Round C)
      → SafeRound now a
      → SafeRound now b
      → SafeRound now (if t then a else b)
  SafeRound-if true a b h k = h
  SafeRound-if false a b h k = k

  on_frame-SafeRound :
      (d : OpenAiSseDecoder) (r : Result (Option (InferenceStreamEvent C)) ErrorCategory)
      → SafeResult now r
      → SafeRound now (on_frame now d r)
  unfolding on_frame fail
  on_frame-SafeRound d (ok none) h = h
  on_frame-SafeRound d (ok (some (frame c))) h = h
  on_frame-SafeRound d (ok (some completed)) h = h
  on_frame-SafeRound d (ok (some (failed e))) h = h
  on_frame-SafeRound d (err k) h = sanitized_failure-SafeFailure now k

  poll_source-SafeRound :
      (d : OpenAiSseDecoder) (s : OpenAiByteStream) → SafeRound {C = C} now (poll_source now d s)
  unfolding poll_source on_source fail
  poll_source-SafeRound d [] = sanitized_failure-SafeFailure now _
  poll_source-SafeRound d (ready (some (ok chunk)) ∷ s) =
      SafeRound-if (ltb (max_sse_frame_bytes - length d.buffer) (length chunk)) _ _
        (sanitized_failure-SafeFailure now _) tt
  poll_source-SafeRound d (ready (some (err _)) ∷ s) = sanitized_failure-SafeFailure now _
  poll_source-SafeRound d (ready none ∷ s) = sanitized_failure-SafeFailure now _
  poll_source-SafeRound d (pending ∷ s) = tt

module _ {F C : Type 0} (codec : Codec F C) (now : ℕ) where
  on_buffer-SafeRound :
      (d : OpenAiSseDecoder) (o : Option (ℕ × ℕ)) → SafeRound now (on_buffer codec now d o)
  unfolding on_buffer fail
  on_buffer-SafeRound d (some (e, c)) =
      on_frame-SafeRound C now (record d { buffer = drop c d.buffer }) _
        (decode_frame-SafeResult codec now (take e d.buffer))
  on_buffer-SafeRound d none =
      SafeRound-if C now (ltb max_sse_frame_bytes (length d.buffer)) _ _
        (sanitized_failure-SafeFailure now _) (poll_source-SafeRound C now d d.source)

  round-SafeRound : (d : OpenAiSseDecoder) → SafeRound now (round codec now d)
  unfolding round
  round-SafeRound d =
      SafeRound-if C now d.terminal _ _ tt (on_buffer-SafeRound d (complete_frame d.buffer))

  -- A failure that a poll returns is determined by its category and the time: its message is one of the
  -- adapter's five own texts, it has no status, and no time to retry but that of a minute from now, whatever
  -- the source and the parsers answered.
  pub poll_next-SafePoll :
      (n : ℕ) (d d' : OpenAiSseDecoder) (p : Poll (Option (InferenceStreamEvent C)))
      → poll_next codec now n d ≡ some (p, d')
      → SafePoll now p
  unfolding poll_next
  poll_next-SafePoll zero d d' p e = cc
  poll_next-SafePoll (suc n) d d' p e =
      by_round (round codec now d) (round-SafeRound d) e (λ x. poll_next-SafePoll n x d' p)
    where
      by_round :
          (r : Round C)
          → SafeRound now r
          → settle (poll_next codec now n) r ≡ some (p, d')
          → ((x : OpenAiSseDecoder) → poll_next codec now n x ≡ some (p, d') → SafePoll now p)
          → SafePoll now p
      by_round (continue x) k e ih = ih x e
      by_round (returned q x) k e ih = subst (λ p. SafePoll now p) (first_of e) k
