-- ===== src/Upstream/Frame/Laws.antt =====
-- A frame lies within the buffer, and more bytes behind it do not change it
-- (crates/slg-adapter-upstream-openai/src/lib.rs).
use smart_llm_gateway.Prelude.{ℕ, suc, ◌+◌, ◌≤◌, ◌<◌, ◌≡◌, some, List, [], ◌∷◌, ◌++◌, length, arith}
use smart_llm_gateway.Upstream.Frame.{frame_from, complete_frame}

-- Within `n` bytes.
abbrev pub Within : ℕ → ℕ → ℕ × ℕ → Type 0
Within lo n (frame_end, consumed) = (frame_end < consumed) × (lo < consumed) × (consumed ≤ n)

frame_from-Within :
    (bs line : List ℕ) (index line_start : ℕ) (r : ℕ × ℕ)
    → line_start ≤ index
    → frame_from index line_start line bs ≡ some r
    → Within index (index + length bs) r
unfolding frame_from
frame_from-Within [] line index line_start r hs h = cc
frame_from-Within (b ∷ bs) line index line_start r hs h = ground (
  arith,
  frame_from-Within bs [] (suc index) (suc index) r,
  frame_from-Within bs (b ∷ line) (suc index) line_start r,
)

frame_from-append :
    (bs more line : List ℕ) (index line_start : ℕ) (r : ℕ × ℕ)
    → frame_from index line_start line bs ≡ some r
    → frame_from index line_start line (bs ++ more) ≡ some r
unfolding frame_from
frame_from-append [] more line index line_start r h = cc
frame_from-append (b ∷ bs) more line index line_start r h = ground (
  arith,
  frame_from-append bs more [] (suc index) (suc index) r,
  frame_from-append bs more (b ∷ line) (suc index) line_start r,
)

-- A frame ends before what is consumed, and some of the buffer is consumed, but no more than there is.
pub complete_frame-Within :
    (buffer : List ℕ) (r : ℕ × ℕ) → complete_frame buffer ≡ some r → Within 0 (length buffer) r
unfolding complete_frame
complete_frame-Within buffer r h = ground (arith, frame_from-Within buffer [] 0 0 r)

pub complete_frame-append :
    (buffer more : List ℕ) (r : ℕ × ℕ)
    → complete_frame buffer ≡ some r
    → complete_frame (buffer ++ more) ≡ some r
unfolding complete_frame
complete_frame-append buffer more r h = frame_from-append buffer more [] 0 0 r h
