-- ===== src/Upstream/Frame.antt =====
-- Where a server-sent event ends in the buffer (`complete_frame`,
-- crates/slg-adapter-upstream-openai/src/lib.rs). Bytes are numbers below 256.
pub mod Laws
use smart_llm_gateway.Prelude.{
  ℕ, suc, Bool, true, false, ◌&&◌, Option, none, some, List, [], ◌∷◌, eqb, if◌then◌else◌, is_empty,
}

-- The line without a last `\r`; `line` holds its bytes backwards.
abbrev pub strip_cr : List ℕ → List ℕ
strip_cr [] = []
strip_cr (b ∷ bs) = if eqb b 13 then bs else b ∷ bs

-- The loop: at `index`, with the line that begins at `line_start` read so far, backwards.
unfoldable pub frame_from : ℕ → ℕ → List ℕ → List ℕ → Option (ℕ × ℕ)
frame_from index line_start line [] = none
frame_from index line_start line (b ∷ bs) =
    let newline = eqb b 10 in
    let rest =
      frame_from (suc index) (if newline then suc index else line_start)
        (if newline then [] else b ∷ line) bs in
    if newline && is_empty (strip_cr line) then some (line_start, suc index) else rest

-- `Some((frame_end, consumed))`
unfoldable pub complete_frame : List ℕ → Option (ℕ × ℕ)
complete_frame buffer = frame_from 0 0 [] buffer
