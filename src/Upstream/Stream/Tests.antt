-- ===== src/Upstream/Stream/Tests.antt =====
-- The decoder on concrete streams (crates/slg-adapter-upstream-openai/src/lib.rs).
use smart_llm_gateway.Prelude.{
  ℕ, String, ◌≡◌, refl, Bool, true, false, Option, none, some, List, [], ◌∷◌, ok, arith,
  if◌then◌else◌, eqb,
}
use smart_llm_gateway.Prelude.Texts.{is_whitespace}
use smart_llm_gateway.Prelude.Json.{object, end}
use smart_llm_gateway.Domain.Failure.{ErrorCategory}
use smart_llm_gateway.Ports.{InferenceStreamEvent, frame, completed, failed}
use smart_llm_gateway.Application.Stream.{Poll, ready, pending}
use smart_llm_gateway.Upstream.Frame.{complete_frame, frame_from}
use smart_llm_gateway.Upstream.Decode.{
  Codec, decode_frame, event_of_lines, event_of_data, event_of_object, data_of_lines, data_of_line,
  lines, strip_return, join, is_done, sanitized_failure,
}
use smart_llm_gateway.Upstream.Stream.{
  OpenAiByteStream, OpenAiSseDecoder, decode_chat_completion_stream, poll_next, round, on_buffer,
  on_frame, on_source, poll_source, fail, events,
}
use smart_llm_gateway.Upstream.Stream.Termination.{poll_next-returns}
use smart_llm_gateway.Upstream.Stream.Ends.{EndsOnce, events-EndsOnce}
use smart_llm_gateway.Upstream.Stream.Bounds.{IsBounded, poll_next-IsBounded}
use smart_llm_gateway.Upstream.Stream.Sanitized.{SafePoll, poll_next-SafePoll}
use smart_llm_gateway.Upstream.Stream.Chunking.{whole, bytes, events-whole}

-- A codec that reads the frame `data:x` as a chunk, `d` as the end and anything else as malformed.
abbrev text_of : List ℕ → Option String
text_of (b ∷ _) =
    if eqb b 120 then some "data:x" else if eqb b 100 then some "data: [DONE]" else none
text_of _ = none

abbrev letters : Codec Bool Bool
letters = record {
  from_utf8 = text_of;
  from_str = λ s. some (object end);
  from_value = λ v. some true;
}

-- A chunk in two pieces, and the end.
abbrev pieces : OpenAiByteStream
pieces =
    ready (some (ok (120 ∷ [])))
    ∷ pending
    ∷ ready (some (ok (10 ∷ 13 ∷ 10 ∷ 100 ∷ 10 ∷ 10 ∷ [])))
    ∷ []

two_events :
    events letters 0 20 (decode_chat_completion_stream pieces) ≡ some (frame true ∷ completed ∷ [])
unfolding events round on_buffer on_frame on_source poll_source complete_frame frame_from
    decode_frame event_of_lines event_of_data event_of_object data_of_lines data_of_line lines
    strip_return join is_done is_whitespace
two_events = refl

-- The source ends before the marker.
cut_off :
    events letters 0 20
      (decode_chat_completion_stream (ready (some (ok (120 ∷ 10 ∷ 10 ∷ []))) ∷ []))
    ≡ some (frame true ∷ failed (sanitized_failure 0 ErrorCategory.provider_unavailable) ∷ [])
unfolding events round on_buffer on_frame on_source poll_source fail complete_frame frame_from
    decode_frame event_of_lines event_of_data event_of_object data_of_lines data_of_line lines
    strip_return join is_done is_whitespace
cut_off = refl

abbrev started : OpenAiSseDecoder
started = decode_chat_completion_stream pieces

abbrev after_first : OpenAiSseDecoder
after_first = record {
  source = ready (some (ok (10 ∷ 13 ∷ 10 ∷ 100 ∷ 10 ∷ 10 ∷ []))) ∷ [];
  buffer = 120 ∷ [];
  terminal = false;
}

first_poll : poll_next letters 0 20 started ≡ some (pending, after_first)
unfolding poll_next round on_buffer on_source poll_source complete_frame frame_from
first_poll = refl

abbrev after_frame : OpenAiSseDecoder
after_frame = record { source = []; buffer = 100 ∷ 10 ∷ 10 ∷ []; terminal = false }

second_poll : poll_next letters 0 20 after_first ≡ some (ready (some (frame true)), after_frame)
unfolding poll_next round on_buffer on_frame on_source poll_source complete_frame frame_from
    decode_frame event_of_lines event_of_data event_of_object data_of_lines data_of_line lines
    strip_return join is_done is_whitespace
second_poll = refl

abbrev after_failure : OpenAiSseDecoder
after_failure = record { source = []; buffer = []; terminal = true }

failed_poll :
    poll_next letters 0 20 (record { source = []; buffer = 100 ∷ []; terminal = false })
    ≡ some (
      ready (some (failed (sanitized_failure 0 ErrorCategory.provider_unavailable))),
      after_failure,
    )
unfolding poll_next round on_buffer on_source poll_source fail complete_frame frame_from
failed_poll = refl

poll_next-returns_example :
    (r : Poll (Option (InferenceStreamEvent Bool)) × OpenAiSseDecoder) × (poll_next letters 0 20
        started
      ≡ some r)
poll_next-returns_example = poll_next-returns letters 0 20 started (omega arith)

events-EndsOnce_example :
    (es : List (InferenceStreamEvent Bool)) × (events letters 0 20
        (decode_chat_completion_stream pieces)
      ≡ some es)
    × EndsOnce es
events-EndsOnce_example = events-EndsOnce letters 0 pieces 20 (omega arith)

poll_next-IsBounded_example : IsBounded after_frame
poll_next-IsBounded_example =
    poll_next-IsBounded letters 0 20 after_first after_frame (ready (some (frame true)))
      (omega arith) second_poll

poll_next-SafePoll_example :
    SafePoll {C = Bool} 0
      (ready (some (failed (sanitized_failure 0 ErrorCategory.provider_unavailable))))
poll_next-SafePoll_example =
    poll_next-SafePoll letters 0 20 (record { source = []; buffer = 100 ∷ []; terminal = false })
      after_failure (ready (some (failed (sanitized_failure 0 ErrorCategory.provider_unavailable))))
      failed_poll

events-whole_example :
    events letters 0 20 (decode_chat_completion_stream pieces) ≡ whole letters 0 8 (bytes pieces)
events-whole_example =
    events-whole letters 0 pieces 20 8 tt (omega arith) (omega arith) (omega arith)
