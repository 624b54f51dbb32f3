-- ===== src/Upstream/Stream/Bounds.antt =====
-- The decoder's buffer is bounded (crates/slg-adapter-upstream-openai/src/lib.rs).
use smart_llm_gateway.Prelude.{
  ℕ, zero, suc, ◌≤◌, ◌≡◌, refl, ap, sym, subst, Bool, true, false, Option, none, some, List, [],
  ◌∷◌, ltb, if◌then◌else◌, Result, ok, err, take, drop, length, length-append, ◌++◌, ◌-◌, arith,
}
use smart_llm_gateway.Domain.Failure.{ErrorCategory}
use smart_llm_gateway.Ports.{InferenceStreamEvent, frame, completed, failed}
use smart_llm_gateway.Application.Stream.{Poll, ready, pending}
use smart_llm_gateway.Upstream.Frame.{complete_frame}
use smart_llm_gateway.Upstream.Decode.{Codec, decode_frame}
use smart_llm_gateway.Upstream.Stream.{
  OpenAiByteStream, OpenAiSseDecoder, max_sse_frame_bytes, Round, returned, continue, fail,
  on_frame, on_source, poll_source, on_buffer, round, settle, poll_next,
}
use smart_llm_gateway.Upstream.Stream.Termination.{length-drop}

-- No more bytes than one frame may have; and a decoder that has ended holds none.
abbrev pub IsBounded : OpenAiSseDecoder → Type 0
IsBounded d = length d.buffer ≤ (if d.terminal then 0 else max_sse_frame_bytes)

ltb-le : (m n : ℕ) → ltb m n ≡ false → n ≤ m
ltb-le m n h = ground arith

le-ltb : (m n : ℕ) → n ≤ m → ltb m n ≡ false
le-ltb m n h = ground arith

second_of :
    {A : Type 0} {B : Type 0} {a a' : A} {b b' : B}
    → ◌≡◌ {A = Option (A × B)} (some (a, b)) (some (a', b'))
    → b ≡ b'
second_of {b = b} h = ap (λ o. elim o [ none ↦ b | some p ↦ p.1 ]) h

abbrev pub BoundedRound : {C : Type 0} → Round C → Type 0
BoundedRound (continue d) = IsBounded d
BoundedRound (returned p d) = IsBounded d

module _ (C : Type 0) (now : ℕ) where
  fail-Bounded : (d : OpenAiSseDecoder) (k : ErrorCategory) → BoundedRound (fail {C = C} now d k)
  unfolding fail
  fail-Bounded d k = omega arith

  on_frame-Bounded :
      (d : OpenAiSseDecoder) (r : Result (Option (InferenceStreamEvent C)) ErrorCategory)
      → IsBounded d
      → BoundedRound (on_frame now d r)
  unfolding on_frame
  on_frame-Bounded d (ok none) h = h
  on_frame-Bounded d (ok (some (frame c))) h = h
  on_frame-Bounded d (ok (some completed)) h = omega arith
  on_frame-Bounded d (ok (some (failed e))) h = omega arith
  on_frame-Bounded d (err k) h = fail-Bounded d k

  chunk-Bounded :
      (b chunk : List ℕ) (s : OpenAiByteStream)
      → length b ≤ max_sse_frame_bytes
      → BoundedRound (
          on_source {C = C} now
            (record { source = s; buffer = b; terminal = false })
            (ready (some (ok chunk))))
  unfolding on_source
  chunk-Bounded b chunk s h = by_test (ltb (max_sse_frame_bytes - length b) (length chunk)) refl
    where
      by_test :
          (t : Bool)
          → ltb (max_sse_frame_bytes - length b) (length chunk) ≡ t
          → BoundedRound (
              if t
              then fail {C = C} now
                  (record { source = s; buffer = b; terminal = false })
                  ErrorCategory.provider_unavailable
              else continue (record { source = s; buffer = b ++ chunk; terminal = false }))
      by_test true e =
          fail-Bounded (record { source = s; buffer = b; terminal = false })
            ErrorCategory.provider_unavailable
      by_test false e = omega (arith, h, ltb-le _ _ e, length-append b chunk)

  poll_source-Bounded :
      (b : List ℕ) (s : OpenAiByteStream)
      → length b ≤ max_sse_frame_bytes
      → BoundedRound
          (poll_source {C = C} now (record { source = s; buffer = b; terminal = false }) s)
  unfolding poll_source on_source
  poll_source-Bounded b [] h =
      fail-Bounded (record { source = []; buffer = b; terminal = false })
        ErrorCategory.provider_unavailable
  poll_source-Bounded b (ready (some (ok chunk)) ∷ s) h = chunk-Bounded b chunk s h
  poll_source-Bounded b (ready (some (err _)) ∷ s) h =
      fail-Bounded (record { source = s; buffer = b; terminal = false })
        ErrorCategory.provider_unavailable
  poll_source-Bounded b (ready none ∷ s) h =
      fail-Bounded (record { source = s; buffer = b; terminal = false })
        ErrorCategory.provider_unavailable
  poll_source-Bounded b (pending ∷ s) h = h

module _ {F C : Type 0} (codec : Codec F C) (now : ℕ) where
  on_buffer-Bounded :
      (b : List ℕ) (s : OpenAiByteStream) (o : Option (ℕ × ℕ))
      → length b ≤ max_sse_frame_bytes
      → BoundedRound (on_buffer codec now (record { source = s; buffer = b; terminal = false }) o)
  unfolding on_buffer
  on_buffer-Bounded b s (some (e, c)) h =
      on_frame-Bounded C now (record { source = s; buffer = drop c b; terminal = false })
        (decode_frame codec now (take e b)) (omega (arith, h, length-drop c b))
  on_buffer-Bounded b s none h =
      subst
        (λ t. BoundedRound {C = C} (
          if t
          then fail now (record { source = s; buffer = b; terminal = false })
              ErrorCategory.provider_unavailable
          else poll_source now (record { source = s; buffer = b; terminal = false }) s))
        (sym (le-ltb _ _ h)) (poll_source-Bounded C now b s h)

  round-Bounded_at :
      (s : OpenAiByteStream) (b : List ℕ) (t : Bool)
      → IsBounded (record { source = s; buffer = b; terminal = t })
      → BoundedRound (round codec now (record { source = s; buffer = b; terminal = t }))
  unfolding round
  round-Bounded_at s b true h = h
  round-Bounded_at s b false h = on_buffer-Bounded b s (complete_frame b) h

  -- A poll that begins with a decoder of at most 262,144 bytes leaves one of at most 262,144 bytes, and
  -- of none when the stream has ended.
  pub poll_next-IsBounded :
      (n : ℕ) (d d' : OpenAiSseDecoder) (p : Poll (Option (InferenceStreamEvent C)))
      → IsBounded d
      → poll_next codec now n d ≡ some (p, d')
      → IsBounded d'
  unfolding poll_next
  poll_next-IsBounded zero d d' p h e = cc
  poll_next-IsBounded (suc n) d d' p h e =
      by_round (round codec now d) (round-Bounded_at d.source d.buffer d.terminal h) e
        (λ x k. poll_next-IsBounded n x d' p k)
    where
      by_round :
          (r : Round C)
          → BoundedRound r
          → settle (poll_next codec now n) r ≡ some (p, d')
          → ((x : OpenAiSseDecoder)
              → IsBounded x
              → poll_next codec now n x ≡ some (p, d')
              → IsBounded d')
          → IsBounded d'
      by_round (continue x) k e ih = ih x k e
      by_round (returned q x) k e ih = subst IsBounded (second_of e) k
