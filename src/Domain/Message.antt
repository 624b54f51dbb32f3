-- ===== src/Domain/Message.antt =====
-- Chat messages and the inference request (crates/slg-domain/src/lib.rs). `F` stands for `f64`.
pub mod Decode
use smart_llm_gateway.Prelude.{ℕ, String, Bool, Option, List}

pub data ImageDetail : Type 0 where
  auto low high : ImageDetail

pub record ImageUrlContent : Type 0 where
  pub url : String
  pub detail : Option ImageDetail

pub data AudioFormat : Type 0 where
  wav mp3 : AudioFormat

-- The field `data` of the source.
pub record InputAudioContent : Type 0 where
  pub audio_data : String
  pub format : AudioFormat

pub data MessageContentPart : Type 0 where
  text : String → MessageContentPart
  image_url : ImageUrlContent → MessageContentPart
  input_audio : InputAudioContent → MessageContentPart

pub data MessageContent : Type 0 where
  text : String → MessageContent
  parts : List MessageContentPart → MessageContent

pub data MessageContentError : Type 0 where
  malformed_content malformed_part unsupported_part_type : MessageContentError

pub record ChatMessage : Type 0 where
  pub role : String
  pub content : MessageContent

-- `request_id` holds the text of the `Uuid`.
pub record InferenceRequest (F : Type 0) : Type 0 where
  pub request_id : String
  pub model : String
  pub messages : List ChatMessage
  pub stream : Bool
  pub temperature : Option F
  pub max_tokens : Option ℕ
