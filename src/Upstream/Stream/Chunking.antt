-- ===== src/Upstream/Stream/Chunking.antt =====
-- What the decoder emits depends on the bytes, not on how they arrive
-- (crates/slg-adapter-upstream-openai/src/lib.rs).
use smart_llm_gateway.Prelude.{
  ℕ, zero, suc, ◌+◌, ◌≤◌, ◌<◌, ◌≡◌, refl, sym, ap, ap₂, ◌∙◌, true, false, Option, none, some, List,
  [], ◌∷◌, ◌++◌, append_assoc, append-nil, ltb, if◌then◌else◌, Result, ok, err, length, take, drop,
  length-append, arith,
}
use smart_llm_gateway.Domain.Failure.{ErrorCategory}
use smart_llm_gateway.Ports.{InferenceStreamEvent, frame, completed, failed}
use smart_llm_gateway.Application.Stream.{ready, pending}
use smart_llm_gateway.Upstream.Frame.{complete_frame}
use smart_llm_gateway.Upstream.Frame.Laws.{complete_frame-Within, complete_frame-append}
use smart_llm_gateway.Upstream.Decode.{Codec, decode_frame, sanitized_failure}
use smart_llm_gateway.Upstream.Stream.{
  OpenAiByteStream, decode_chat_completion_stream, max_sse_frame_bytes, continue, fail, on_frame,
  on_source, poll_source, on_buffer, round, emit, advance, events,
}
use smart_llm_gateway.Upstream.Stream.Termination.{weight, length-drop}

-- A source without transport failures, which ends by itself.
abbrev pub Healthy : OpenAiByteStream → Type 0
Healthy [] = Unit
Healthy (ready (some (ok chunk)) ∷ s) = Healthy s
Healthy (ready (some (err _)) ∷ s) = ⊥
Healthy (ready none ∷ s) = ⊥
Healthy (pending ∷ s) = Healthy s

-- All bytes of a source.
abbrev pub bytes : OpenAiByteStream → List ℕ
bytes [] = []
bytes (ready (some (ok chunk)) ∷ s) = chunk ++ bytes s
bytes (_ ∷ s) = bytes s

-- Decoding a whole response at once, within so many frames.
module _ {F C : Type 0} (codec : Codec F C) (now : ℕ) where
  abbrev pub failure : List (InferenceStreamEvent C)
  failure = failed (sanitized_failure now ErrorCategory.provider_unavailable) ∷ []

  abbrev pub before :
      InferenceStreamEvent C
      → Option (List (InferenceStreamEvent C))
      → Option (List (InferenceStreamEvent C))
  before e none = none
  before e (some es) = some (e ∷ es)

  -- With a frame decoded and the events behind it.
  unfoldable pub whole_frame :
      Result (Option (InferenceStreamEvent C)) ErrorCategory
      → Option (List (InferenceStreamEvent C))
      → Option (List (InferenceStreamEvent C))
  whole_frame (ok none) rest = rest
  whole_frame (ok (some (frame c))) rest = before (frame c) rest
  whole_frame (ok (some completed)) rest = some (completed ∷ [])
  whole_frame (ok (some (failed e))) rest = some (failed e ∷ [])
  whole_frame (err k) rest = some (failed (sanitized_failure now k) ∷ [])

  unfoldable pub whole_from :
      (List ℕ → Option (List (InferenceStreamEvent C)))
      → List ℕ
      → Option (ℕ × ℕ)
      → Option (List (InferenceStreamEvent C))
  whole_from rest bs none = some failure
  whole_from rest bs (some (frame_end, consumed)) =
      whole_frame (decode_frame codec now (take frame_end bs)) (rest (drop consumed bs))

  unfoldable pub whole : ℕ → List ℕ → Option (List (InferenceStreamEvent C))
  whole zero bs = none
  whole (suc n) bs = whole_from (whole n) bs (complete_frame bs)

ltb-false : (m n : ℕ) → n ≤ m → ltb m n ≡ false
ltb-false m n h = ground arith

take-append : {A : Type 0} (n : ℕ) (xs ys : List A) → n ≤ length xs → take n (xs ++ ys) ≡ take n xs
take-append zero xs ys h = refl
take-append (suc n) [] ys h = absurd (omega (arith, h))
take-append (suc n) (x ∷ xs) ys h = ap (λ t. x ∷ t) (take-append n xs ys (omega (arith, h)))

drop-append :
    {A : Type 0} (n : ℕ) (xs ys : List A) → n ≤ length xs → drop n (xs ++ ys) ≡ drop n xs ++ ys
drop-append zero xs ys h = refl
drop-append (suc n) [] ys h = absurd (omega (arith, h))
drop-append (suc n) (x ∷ xs) ys h = drop-append n xs ys (omega (arith, h))

module _ {F C : Type 0} (codec : Codec F C) (now : ℕ) where
  -- A decoder that has ended.
  events-closed :
      (n : ℕ) (s : OpenAiByteStream)
      → 0 < n
      → events codec now n (record { source = s; buffer = []; terminal = true }) ≡ some []
  unfolding events round
  events-closed zero s h = absurd (omega (arith, h))
  events-closed (suc n) s h = refl

  -- What a decoder with the buffer `b` and the source `s` has to emit, for a source of less than `k`
  -- bytes and answers.
  abbrev Agrees : ℕ → Type 0
  Agrees n =
      (b : List ℕ) (s : OpenAiByteStream) (m : ℕ)
      → Healthy s
      → length (b ++ bytes s) ≤ max_sse_frame_bytes
      → length (b ++ bytes s) < m
      → suc (length b + weight s) < n
      → events codec now n (record { source = s; buffer = b; terminal = false })
        ≡ whole codec now m (b ++ bytes s)

  emit-before :
      (e : InferenceStreamEvent C) (es : Option (List (InferenceStreamEvent C)))
      → emit (ready (some e)) es ≡ before codec now e es
  emit-before e none = refl
  emit-before e (some es) = refl

  last_agrees :
      (n : ℕ) (s : OpenAiByteStream) (e : InferenceStreamEvent C)
      → 0 < n
      → emit
          (ready (some e))
          (events codec now n (record { source = s; buffer = []; terminal = true }))
        ≡ some (e ∷ [])
  last_agrees n s e z = ap (emit (ready (some e))) (events-closed n s z)

  frame_agrees :
      (n m : ℕ) (s : OpenAiByteStream) (b : List ℕ)
      (r : Result (Option (InferenceStreamEvent C)) ErrorCategory)
      → 0 < n
      → events codec now n (record { source = s; buffer = b; terminal = false })
        ≡ whole codec now m (b ++ bytes s)
      → advance
          (events codec now n)
          (on_frame now (record { source = s; buffer = b; terminal = false }) r)
        ≡ whole_frame codec now r (whole codec now m (b ++ bytes s))
  unfolding on_frame whole_frame fail
  frame_agrees n m s b (ok none) z h = h
  frame_agrees n m s b (ok (some (frame c))) z h =
      emit-before (frame c) _ ∙ ap (before codec now (frame c)) h
  frame_agrees n m s b (ok (some completed)) z h = last_agrees n s completed z
  frame_agrees n m s b (ok (some (failed e))) z h = last_agrees n s (failed e) z
  frame_agrees n m s b (err k) z h = last_agrees n s (failed (sanitized_failure now k)) z

  with_frame :
      (n m : ℕ) (b : List ℕ) (s : OpenAiByteStream) (e c : ℕ)
      → Agrees n
      → Healthy s
      → length (b ++ bytes s) ≤ max_sse_frame_bytes
      → length (b ++ bytes s) < suc m
      → suc (length b + weight s) < suc n
      → complete_frame b ≡ some (e, c)
      → advance
          (events codec now n)
          (on_buffer codec now (record { source = s; buffer = b; terminal = false }) (some (e, c)))
        ≡ whole codec now (suc m) (b ++ bytes s)
  unfolding on_buffer whole whole_from
  with_frame n m b s e c agrees hs hm hf hn h =
      let (ec, z, w) = complete_frame-Within b (e, c) h in
      let shorter = length-drop c b in
      frame_agrees n m s (drop c b) (decode_frame codec now (take e b)) (omega (arith, hn)) (
        agrees (drop c b) s m hs
          (omega (
            arith,
            z,
            w,
            hm,
            shorter,
            length-append b (bytes s),
            length-append (drop c b) (bytes s),
          ))
          (omega (
            arith,
            z,
            w,
            hf,
            shorter,
            length-append b (bytes s),
            length-append (drop c b) (bytes s),
          ))
          (omega (arith, z, w, hn, shorter)))
      ∙ sym (
          ap₂ (λ t u. whole_frame codec now (decode_frame codec now t) (whole codec now m u))
            (take-append e b (bytes s) (omega (arith, ec, w))) (drop-append c b (bytes s) w))
      ∙ sym (
          ap (whole_from codec now (whole codec now m) (b ++ bytes s))
            (complete_frame-append b (bytes s) (e, c) h))

  within :
      (n : ℕ) (b : List ℕ) (s : OpenAiByteStream)
      → length (b ++ bytes s) ≤ max_sse_frame_bytes
      → advance
          (events codec now n)
          (on_buffer codec now (record { source = s; buffer = b; terminal = false }) none)
        ≡ advance
            (events codec now n)
            (poll_source now (record { source = s; buffer = b; terminal = false }) s)
  unfolding on_buffer
  within n b s hm =
      ap
        (λ t. advance (events codec now n) (
          if t
          then fail now (record { source = s; buffer = b; terminal = false })
              ErrorCategory.provider_unavailable
          else poll_source now (record { source = s; buffer = b; terminal = false }) s))
        (ltb-false _ _ (omega (arith, hm, length-append b (bytes s))))

  without_frame :
      (n m : ℕ) (b : List ℕ) (s : OpenAiByteStream)
      → Agrees n
      → Healthy s
      → length (b ++ bytes s) ≤ max_sse_frame_bytes
      → length (b ++ bytes s) < suc m
      → suc (length b + weight s) < suc n
      → complete_frame b ≡ none
      → advance
          (events codec now n)
          (poll_source now (record { source = s; buffer = b; terminal = false }) s)
        ≡ whole codec now (suc m) (b ++ bytes s)
  unfolding poll_source on_source whole whole_from fail
  without_frame n m b [] agrees hs hm hf hn h =
      last_agrees n [] (failed (sanitized_failure now ErrorCategory.provider_unavailable))
        (omega (arith, hn))
      ∙ sym (
          ap (whole codec now (suc m)) (append-nil b)
          ∙ ap (whole_from codec now (whole codec now m) b) h)
  without_frame n m b (ready (some (ok chunk)) ∷ s) agrees hs hm hf hn h =
      let joined = append_assoc b chunk (bytes s) in
      let lengths = length-append b chunk in
      ap
        (λ t. advance (events codec now n) (
          if t
          then fail now (record { source = s; buffer = b; terminal = false })
              ErrorCategory.provider_unavailable
          else continue (record { source = s; buffer = b ++ chunk; terminal = false })))
        (ltb-false _ _
          (omega (arith, hm, length-append b (chunk ++ bytes s), length-append chunk (bytes s))))
      ∙ agrees (b ++ chunk) s (suc m) hs (omega (arith, hm, ap length joined))
          (omega (arith, hf, ap length joined)) (omega (arith, hn, lengths))
      ∙ ap (whole codec now (suc m)) joined
  without_frame n m b (ready (some (err _)) ∷ s) agrees hs hm hf hn h = absurd hs
  without_frame n m b (ready none ∷ s) agrees hs hm hf hn h = absurd hs
  without_frame n m b (pending ∷ s) agrees hs hm hf hn h =
      agrees b s (suc m) hs hm hf (omega (arith, hn))

  by_frame :
      (n m : ℕ) (b : List ℕ) (s : OpenAiByteStream)
      → Agrees n
      → Healthy s
      → length (b ++ bytes s) ≤ max_sse_frame_bytes
      → length (b ++ bytes s) < suc m
      → suc (length b + weight s) < suc n
      → (o : Option (ℕ × ℕ)) → complete_frame b ≡ o
      → advance
          (events codec now n)
          (on_buffer codec now (record { source = s; buffer = b; terminal = false }) o)
        ≡ whole codec now (suc m) (b ++ bytes s)
  by_frame n m b s agrees hs hm hf hn (some (e, c)) h = with_frame n m b s e c agrees hs hm hf hn h
  by_frame n m b s agrees hs hm hf hn none h =
      within n b s hm ∙ without_frame n m b s agrees hs hm hf hn h

  Agrees-all : (n : ℕ) → Agrees n
  unfolding events round
  Agrees-all zero b s m hs hm hf hn = absurd (omega (arith, hn))
  Agrees-all (suc n) b s zero hs hm hf hn = absurd (omega (arith, hf))
  Agrees-all (suc n) b s (suc m) hs hm hf hn =
      by_frame n m b s (Agrees-all n) hs hm hf hn (complete_frame b) refl

  -- From a source without transport failures and of at most 262,144 bytes, the decoder emits what the
  -- response as a whole says, however it is cut into chunks and however often the source has to be waited
  -- for: within more rounds than the source's answers and bytes the events are those of the frames of the
  -- bytes, one after the other, up to the first that ends the stream, and a failure when none does.
  pub events-whole :
      (s : OpenAiByteStream) (n m : ℕ)
      → Healthy s
      → length (bytes s) ≤ max_sse_frame_bytes
      → length (bytes s) < m
      → suc (weight s) < n
      → events codec now n (decode_chat_completion_stream s) ≡ whole codec now m (bytes s)
  events-whole s n m hs hm hf hn = Agrees-all n [] s m hs hm hf (omega (arith, hn))
