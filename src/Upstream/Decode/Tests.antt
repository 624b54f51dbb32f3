-- ===== src/Upstream/Decode/Tests.antt =====
-- Frames and requests decoded and encoded on concrete values (crates/slg-adapter-upstream-openai/src/lib.rs).
use smart_llm_gateway.Prelude.{◌≡◌, refl, true, false, [], ◌∷◌}
use smart_llm_gateway.Prelude.Texts.{is_whitespace}
use smart_llm_gateway.Upstream.Decode.{
  lines, strip_return, data_of_line, data_of_lines, join, is_done, to_ascii_lowercase,
}

split_lines : lines "data: a\r\n: note\n\ndata:b" ≡ "data: a" ∷ ": note" ∷ "" ∷ "data:b" ∷ []
unfolding lines
split_lines = refl

read_data :
    data_of_lines ("data: a" ∷ ": note" ∷ "" ∷ "event: x" ∷ "data:  b\r" ∷ []) ≡ "a" ∷ " b" ∷ []
unfolding data_of_lines data_of_line strip_return
read_data = refl

joined : join ("a" ∷ "b" ∷ "c" ∷ []) ≡ "a\nb\nc"
unfolding join
joined = refl

done : is_done " [DONE]\n" ≡ true
unfolding is_done is_whitespace
done = refl

not_done : is_done "[DONE] x" ≡ false
unfolding is_done is_whitespace
not_done = refl

lower : to_ascii_lowercase "Rate_LIMIT_9" ≡ "rate_limit_9"
lower = refl
