-- ===== src/Upstream.antt =====
-- The OpenAI-compatible codec towards providers (crates/slg-adapter-upstream-openai/src/lib.rs): the
-- decoder of response streams and the encoder of requests.
pub mod Frame
pub mod Decode
pub mod Stream
pub mod Encode
