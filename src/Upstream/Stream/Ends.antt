-- ===== src/Upstream/Stream/Ends.antt =====
-- A decoded stream ends exactly once (crates/slg-adapter-upstream-openai/src/lib.rs).
use smart_llm_gateway.Prelude.{
  ℕ, zero, suc, ◌<◌, ◌≡◌, refl, ap, Bool, true, false, Option, none, some, List, [], ◌∷◌, ltb,
  if◌then◌else◌, Result, ok, err, take, drop, length, ◌-◌, arith,
}
use smart_llm_gateway.Domain.Failure.{ErrorCategory}
use smart_llm_gateway.Ports.{InferenceStreamEvent, frame, completed, failed}
use smart_llm_gateway.Application.Stream.{ready, pending}
use smart_llm_gateway.Upstream.Frame.{complete_frame}
use smart_llm_gateway.Upstream.Decode.{Codec, decode_frame}
use smart_llm_gateway.Upstream.Stream.{
  OpenAiByteStream, OpenAiSseDecoder, decode_chat_completion_stream, max_sse_frame_bytes, Round,
  returned, continue, fail, on_frame, on_source, poll_source, on_buffer, round, emit, advance,
  events,
}
use smart_llm_gateway.Upstream.Stream.Termination.{weight, size, Smaller, round-Smaller}

-- Frames, and then one event that ends the stream.
abbrev pub EndsOnce : {C : Type 0} → List (InferenceStreamEvent C) → Type 0
EndsOnce [] = ⊥
EndsOnce (frame c ∷ es) = EndsOnce es
EndsOnce (_ ∷ []) = Unit
EndsOnce (_ ∷ e ∷ es) = ⊥

-- A round of an open decoder: a frame leaves it open, another event closes it, and it does not end silently.
abbrev pub Orderly : {C : Type 0} → Round C → Type 0
Orderly (continue d) = d.terminal ≡ false
Orderly (returned pending d) = d.terminal ≡ false
Orderly (returned (ready none) d) = ⊥
Orderly (returned (ready (some (frame c))) d) = d.terminal ≡ false
Orderly (returned (ready (some completed)) d) = d.terminal ≡ true
Orderly (returned (ready (some (failed e))) d) = d.terminal ≡ true

module _ (C : Type 0) (now : ℕ) where
  Orderly-if : (t : Bool) (a b : Round C) → Orderly a → Orderly b → Orderly (if t then a else b)
  Orderly-if true a b h k = h
  Orderly-if false a b h k = k

  on_frame-Orderly :
      (d : OpenAiSseDecoder) (r : Result (Option (InferenceStreamEvent C)) ErrorCategory)
      → d.terminal ≡ false
      → Orderly (on_frame now d r)
  unfolding on_frame fail
  on_frame-Orderly d (ok none) h = h
  on_frame-Orderly d (ok (some (frame c))) h = h
  on_frame-Orderly d (ok (some completed)) h = refl
  on_frame-Orderly d (ok (some (failed e))) h = refl
  on_frame-Orderly d (err k) h = refl

  poll_source-Orderly :
      (d : OpenAiSseDecoder) (s : OpenAiByteStream)
      → d.terminal ≡ false
      → Orderly (poll_source {C = C} now d s)
  unfolding poll_source on_source fail
  poll_source-Orderly d [] h = refl
  poll_source-Orderly d (ready (some (ok chunk)) ∷ s) h =
      Orderly-if (ltb (max_sse_frame_bytes - length d.buffer) (length chunk)) _ _ refl h
  poll_source-Orderly d (ready (some (err _)) ∷ s) h = refl
  poll_source-Orderly d (ready none ∷ s) h = refl
  poll_source-Orderly d (pending ∷ s) h = h

module _ {F C : Type 0} (codec : Codec F C) (now : ℕ) where
  on_buffer-Orderly :
      (d : OpenAiSseDecoder) (o : Option (ℕ × ℕ))
      → d.terminal ≡ false
      → Orderly (on_buffer codec now d o)
  unfolding on_buffer fail
  on_buffer-Orderly d (some (e, c)) h =
      on_frame-Orderly C now (record d { buffer = drop c d.buffer })
        (decode_frame codec now (take e d.buffer)) h
  on_buffer-Orderly d none h =
      Orderly-if C now (ltb max_sse_frame_bytes (length d.buffer)) _ _ refl
        (poll_source-Orderly C now d d.source h)

  round-Orderly : (d : OpenAiSseDecoder) → d.terminal ≡ false → Orderly (round codec now d)
  unfolding round
  round-Orderly d h = ground (arith, on_buffer-Orderly d (complete_frame d.buffer) h)

  events-ended :
      (n : ℕ) (d : OpenAiSseDecoder) → d.terminal ≡ true → 0 < n → events codec now n d ≡ some []
  unfolding events round
  events-ended zero d h z = absurd (omega (arith, z))
  events-ended (suc n) d h z =
      ap
        (λ t.
          advance (events codec now n) (
            if t then returned (ready none) d else on_buffer codec now d (complete_frame d.buffer)))
        h

  -- All events of a decoder that is open.
  abbrev EndsWith : Option (List (InferenceStreamEvent C)) → Type 0
  EndsWith o = (es : List (InferenceStreamEvent C)) × (o ≡ some es) × EndsOnce es

  emit-EndsWith :
      (c : C) (o : Option (List (InferenceStreamEvent C)))
      → EndsWith o
      → EndsWith (emit (ready (some (frame c))) o)
  emit-EndsWith c o (es, e, h) = (frame c ∷ es, ap (emit (ready (some (frame c)))) e, h)

  advance-EndsWith :
      (n k : ℕ) (r : Round C)
      → Orderly r
      → Smaller k r
      → k < suc n
      → 0 < k
      → ((d : OpenAiSseDecoder) → d.terminal ≡ false → size d < n → EndsWith (events codec now n d))
      → EndsWith (advance (events codec now n) r)
  advance-EndsWith n k (continue d) o s hk z ih = ih d o (omega (arith, s, hk))
  advance-EndsWith n k (returned pending d) o s hk z ih = ih d o (omega (arith, s, hk))
  advance-EndsWith n k (returned (ready none) d) o s hk z ih = absurd o
  advance-EndsWith n k (returned (ready (some (frame c))) d) o s hk z ih =
      emit-EndsWith c _ (ih d o (omega (arith, s, hk)))
  advance-EndsWith n k (returned (ready (some completed)) d) o s hk z ih = (
    completed ∷ [],
    ap (emit (ready (some completed))) (events-ended n d o (omega (arith, hk, z))),
    tt,
  )
  advance-EndsWith n k (returned (ready (some (failed e))) d) o s hk z ih = (
    failed e ∷ [],
    ap (emit (ready (some (failed e)))) (events-ended n d o (omega (arith, hk, z))),
    tt,
  )

  size-open : (d : OpenAiSseDecoder) → d.terminal ≡ false → 0 < size d
  size-open d h = ground arith

  events-open :
      (n : ℕ) (d : OpenAiSseDecoder)
      → d.terminal ≡ false
      → size d < n
      → EndsWith (events codec now n d)
  unfolding events
  events-open zero d o h = absurd (omega (arith, h))
  events-open (suc n) d o h =
      advance-EndsWith n (size d) (round codec now d) (round-Orderly d o)
        (round-Smaller codec now d) h (size-open d o) (events-open n)

  -- Whatever the source answers, failures included, the decoder that is polled on ends: within more rounds
  -- than the source's answers and bytes there are all its events, which are frames and then exactly one
  -- event that ends the stream.
  pub events-EndsOnce :
      (s : OpenAiByteStream) (n : ℕ)
      → suc (weight s) < n
      → (es : List (InferenceStreamEvent C)) × (events codec now n (decode_chat_completion_stream s)
          ≡ some es)
        × EndsOnce es
  events-EndsOnce s n h = events-open n (decode_chat_completion_stream s) refl (omega (arith, h))
