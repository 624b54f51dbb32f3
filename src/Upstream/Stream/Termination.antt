-- ===== src/Upstream/Stream/Termination.antt =====
-- Every poll of the decoder returns, and a decoder that is polled on ends
-- (crates/slg-adapter-upstream-openai/src/lib.rs).
use smart_llm_gateway.Prelude.{
  ℕ, zero, suc, ◌+◌, ◌-◌, ◌<◌, ◌≡◌, refl, Bool, true, false, Option, none, some, List, [], ◌∷◌, ltb,
  if◌then◌else◌, Result, ok, err, length, take, drop, length-append, arith,
}
use smart_llm_gateway.Domain.Failure.{ErrorCategory}
use smart_llm_gateway.Ports.{InferenceStreamEvent, frame, completed, failed}
use smart_llm_gateway.Application.Stream.{Poll, ready, pending}
use smart_llm_gateway.Upstream.Frame.{complete_frame}
use smart_llm_gateway.Upstream.Frame.Laws.{complete_frame-Within}
use smart_llm_gateway.Upstream.Decode.{Codec, decode_frame}
use smart_llm_gateway.Upstream.Stream.{
  OpenAiByteStream, OpenAiSseDecoder, max_sse_frame_bytes, Round, returned, continue, fail,
  on_frame, on_source, poll_source, on_buffer, round, settle, poll_next,
}

-- The answers that a source has left, and the bytes in them.
abbrev pub weight : OpenAiByteStream → ℕ
weight [] = 0
weight (ready (some (ok chunk)) ∷ s) = suc (length chunk + weight s)
weight (_ ∷ s) = suc (weight s)

-- More than the rounds that a decoder has left.
abbrev pub size : OpenAiSseDecoder → ℕ
size d = if d.terminal then 0 else suc (length d.buffer + weight d.source)

abbrev pub start_size : OpenAiByteStream → ℕ
start_size s = suc (weight s)

-- A round that does not end the stream leaves a decoder of a size below `n`.
abbrev pub Smaller : {C : Type 0} → ℕ → Round C → Type 0
Smaller n (continue d) = size d < n
Smaller n (returned (ready none) d) = Unit
Smaller n (returned (ready (some e)) d) = size d < n
Smaller n (returned pending d) = size d < n

pub length-drop {ℓ} : {A : Type ℓ} (n : ℕ) (xs : List A) → length (drop n xs) ≡ length xs - n
length-drop zero xs = omega arith
length-drop (suc n) [] = omega arith
length-drop (suc n) (x ∷ xs) = omega (arith, length-drop n xs)

module _ (C : Type 0) (now : ℕ) where
  Smaller-if :
      (t : Bool) (a b : Round C) (n : ℕ)
      → Smaller n a
      → Smaller n b
      → Smaller n (if t then a else b)
  Smaller-if true a b n h k = h
  Smaller-if false a b n h k = k

  fail-Smaller :
      (d : OpenAiSseDecoder) (k : ErrorCategory) (n : ℕ) → 0 < n → Smaller n (fail {C = C} now d k)
  unfolding fail
  fail-Smaller d k n h = h

  on_frame-Smaller :
      (d : OpenAiSseDecoder) (r : Result (Option (InferenceStreamEvent C)) ErrorCategory) (n : ℕ)
      → size d < n
      → 0 < n
      → Smaller n (on_frame now d r)
  unfolding on_frame
  on_frame-Smaller d (ok none) n h z = h
  on_frame-Smaller d (ok (some (frame c))) n h z = h
  on_frame-Smaller d (ok (some completed)) n h z = z
  on_frame-Smaller d (ok (some (failed e))) n h z = z
  on_frame-Smaller d (err k) n h z = fail-Smaller d k n z

  chunk-Smaller :
      (b chunk : List ℕ) (s : OpenAiByteStream)
      → Smaller {C = C} (suc (length b + suc (length chunk + weight s))) (
          on_source now
            (record { source = s; buffer = b; terminal = false })
            (ready (some (ok chunk))))
  unfolding on_source
  chunk-Smaller b chunk s =
      Smaller-if (ltb (max_sse_frame_bytes - length b) (length chunk)) _ _ _
        (fail-Smaller (record { source = s; buffer = b; terminal = false })
          ErrorCategory.provider_unavailable _ (omega arith))
        (omega (arith, length-append b chunk))

  poll_source-Smaller :
      (b : List ℕ) (s : OpenAiByteStream)
      → Smaller {C = C}
          (suc (length b + weight s))
          (poll_source now (record { source = s; buffer = b; terminal = false }) s)
  unfolding poll_source on_source
  poll_source-Smaller b [] = fail-Smaller _ _ _ (omega arith)
  poll_source-Smaller b (ready (some (ok chunk)) ∷ s) = chunk-Smaller b chunk s
  poll_source-Smaller b (ready (some (err _)) ∷ s) = fail-Smaller _ _ _ (omega arith)
  poll_source-Smaller b (ready none ∷ s) = fail-Smaller _ _ _ (omega arith)
  poll_source-Smaller b (pending ∷ s) = omega arith

module _ {F C : Type 0} (codec : Codec F C) (now : ℕ) where
  on_buffer-Smaller :
      (b : List ℕ) (s : OpenAiByteStream) (o : Option (ℕ × ℕ))
      → complete_frame b ≡ o
      → Smaller
          (suc (length b + weight s))
          (on_buffer codec now (record { source = s; buffer = b; terminal = false }) o)
  unfolding on_buffer
  on_buffer-Smaller b s none h =
      Smaller-if C now (ltb max_sse_frame_bytes (length b)) _ _ _
        (fail-Smaller C now (record { source = s; buffer = b; terminal = false })
          ErrorCategory.provider_unavailable _ (omega arith))
        (poll_source-Smaller C now b s)
  on_buffer-Smaller b s (some (e, c)) h =
      let (_, z, w) = complete_frame-Within b (e, c) h in
      on_frame-Smaller C now _ (decode_frame codec now (take e b)) _
        (omega (arith, z, w, length-drop c b)) (omega arith)

  round-Smaller_at :
      (s : OpenAiByteStream) (b : List ℕ) (t : Bool)
      → Smaller
          (size (record { source = s; buffer = b; terminal = t }))
          (round codec now (record { source = s; buffer = b; terminal = t }))
  unfolding round
  round-Smaller_at s b true = tt
  round-Smaller_at s b false = on_buffer-Smaller b s (complete_frame b) refl

  pub round-Smaller : (d : OpenAiSseDecoder) → Smaller (size d) (round codec now d)
  round-Smaller d = round-Smaller_at d.source d.buffer d.terminal

  settle-returns :
      (n : ℕ) (r : Round C)
      → Smaller n r
      → (rest : OpenAiSseDecoder
          → Option (Poll (Option (InferenceStreamEvent C)) × OpenAiSseDecoder))
      → ((d : OpenAiSseDecoder)
          → size d < n
          → (q : Poll (Option (InferenceStreamEvent C)) × OpenAiSseDecoder) × (rest d ≡ some q))
      → (q : Poll (Option (InferenceStreamEvent C)) × OpenAiSseDecoder) × (settle rest r ≡ some q)
  settle-returns n (returned p d) h rest k = ((p, d), refl)
  settle-returns n (continue d) h rest k = k d h

  -- A poll returns within more rounds than the decoder's size: one for each byte it holds, and one for
  -- each answer and each byte that the source has left.
  pub poll_next-returns :
      (n : ℕ) (d : OpenAiSseDecoder)
      → size d < n
      → (r : Poll (Option (InferenceStreamEvent C)) × OpenAiSseDecoder) × (poll_next codec now n d
          ≡ some r)
  unfolding poll_next
  poll_next-returns zero d h = absurd (omega (arith, h))
  poll_next-returns (suc n) d h =
      settle-returns (size d) (round codec now d) (round-Smaller d) (poll_next codec now n)
        (λ d' k. poll_next-returns n d' (omega (arith, h, k)))
