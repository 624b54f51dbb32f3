-- ===== src/Upstream/Stream.antt =====
-- `OpenAiSseDecoder`: server-sent events out of a stream of bytes
-- (crates/slg-adapter-upstream-openai/src/lib.rs).
pub mod Termination
pub mod Ends
pub mod Bounds
pub mod Sanitized
pub mod Chunking
pub mod Tests
use smart_llm_gateway.Prelude.{
  ℕ, zero, suc, ◌+◌, ◌-◌, Bool, true, false, Option, none, some, List, [], ◌∷◌, ◌++◌, ltb,
  if◌then◌else◌, Result, ok, err, length, take, drop,
}
use smart_llm_gateway.Domain.Failure.{ErrorCategory}
use smart_llm_gateway.Ports.{InferenceStreamEvent, frame, completed, failed}
use smart_llm_gateway.Application.Stream.{Poll, ready, pending}
use smart_llm_gateway.Upstream.Frame.{complete_frame}
use smart_llm_gateway.Upstream.Decode.{Codec, decode_frame, sanitized_failure}

abbrev pub max_sse_frame_bytes : ℕ
max_sse_frame_bytes = 262144

-- A stream of bytes is what it answers when it is polled, one answer after the other; past the last it has
-- ended. `err tt` is a transport failure.
abbrev pub OpenAiByteStream : Type 0
OpenAiByteStream = List (Poll (Option (Result (List ℕ) (Unit {0}))))

pub record OpenAiSseDecoder : Type 0 where
  pub source : OpenAiByteStream
  pub buffer : List ℕ
  pub terminal : Bool

-- `OpenAiSseDecoder::new`, which `decode_chat_completion_stream` boxes.
abbrev pub decode_chat_completion_stream : OpenAiByteStream → OpenAiSseDecoder
decode_chat_completion_stream source = record { source = source; buffer = []; terminal = false }

-- How a round of the loop of `poll_next` ends.
pub data Round (C : Type 0) : Type 0 where
  returned : Poll (Option (InferenceStreamEvent C)) → OpenAiSseDecoder → Round C
  continue : OpenAiSseDecoder → Round C

-- The decoder after its last event.
abbrev pub closed : OpenAiSseDecoder → OpenAiSseDecoder
closed d = record d { buffer = []; terminal = true }

module _ {C : Type 0} (now : ℕ) where
  unfoldable pub fail : OpenAiSseDecoder → ErrorCategory → Round C
  fail d category = returned (ready (some (failed (sanitized_failure now category)))) (closed d)

  -- With a frame decoded and `d` the decoder without it.
  unfoldable pub on_frame :
      OpenAiSseDecoder → Result (Option (InferenceStreamEvent C)) ErrorCategory → Round C
  on_frame d (ok none) = continue d
  on_frame d (ok (some (frame c))) = returned (ready (some (frame c))) d
  on_frame d (ok (some completed)) = returned (ready (some completed)) (closed d)
  on_frame d (ok (some (failed e))) = returned (ready (some (failed e))) (closed d)
  on_frame d (err category) = fail d category

  -- With the source polled and `d` the decoder whose source was polled.
  unfoldable pub on_source : OpenAiSseDecoder → Poll (Option (Result (List ℕ) (Unit {0}))) → Round C
  on_source d (ready (some (ok chunk))) =
      if ltb (max_sse_frame_bytes - length d.buffer) (length chunk)
      then fail d ErrorCategory.provider_unavailable
      else continue (record d { buffer = d.buffer ++ chunk })
  on_source d (ready (some (err _))) = fail d ErrorCategory.provider_unavailable
  on_source d (ready none) = fail d ErrorCategory.provider_unavailable
  on_source d pending = returned pending d

  unfoldable pub poll_source : OpenAiSseDecoder → OpenAiByteStream → Round C
  poll_source d [] = on_source d (ready none)
  poll_source d (answer ∷ answers) = on_source (record d { source = answers }) answer

module _ {F C : Type 0} (codec : Codec F C) (now : ℕ) where
  unfoldable pub on_buffer : OpenAiSseDecoder → Option (ℕ × ℕ) → Round C
  on_buffer d (some (frame_end, consumed)) =
      on_frame now (record d { buffer = drop consumed d.buffer })
        (decode_frame codec now (take frame_end d.buffer))
  on_buffer d none =
      if ltb max_sse_frame_bytes (length d.buffer)
      then fail now d ErrorCategory.provider_unavailable
      else poll_source now d d.source

  -- One round of the loop.
  unfoldable pub round : OpenAiSseDecoder → Round C
  round d = if d.terminal then returned (ready none) d else on_buffer d (complete_frame d.buffer)

module _ {C : Type 0} where
  abbrev pub settle :
      (OpenAiSseDecoder → Option (Poll (Option (InferenceStreamEvent C)) × OpenAiSseDecoder))
      → Round C
      → Option (Poll (Option (InferenceStreamEvent C)) × OpenAiSseDecoder)
  settle rest (returned p d) = some (p, d)
  settle rest (continue d) = rest d

  -- An event that was returned, put before the later ones.
  abbrev pub emit :
      Poll (Option (InferenceStreamEvent C))
      → Option (List (InferenceStreamEvent C))
      → Option (List (InferenceStreamEvent C))
  emit pending es = es
  emit (ready none) es = some []
  emit (ready (some e)) none = none
  emit (ready (some e)) (some es) = some (e ∷ es)

  abbrev pub advance :
      (OpenAiSseDecoder → Option (List (InferenceStreamEvent C)))
      → Round C
      → Option (List (InferenceStreamEvent C))
  advance rest (returned p d) = emit p (rest d)
  advance rest (continue d) = rest d

module _ {F C : Type 0} (codec : Codec F C) (now : ℕ) where
  -- `poll_next`, for so many rounds of its loop.
  unfoldable pub poll_next :
      ℕ → OpenAiSseDecoder → Option (Poll (Option (InferenceStreamEvent C)) × OpenAiSseDecoder)
  poll_next zero d = none
  poll_next (suc n) d = settle (poll_next n) (round codec now d)

  -- The events of a decoder that is polled until it ends, within so many rounds of its polls.
  unfoldable pub events : ℕ → OpenAiSseDecoder → Option (List (InferenceStreamEvent C))
  events zero d = none
  events (suc n) d = advance (events n) (round codec now d)
