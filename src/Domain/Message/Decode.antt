-- ===== src/Domain/Message/Decode.antt =====
-- Message content from JSON and back (`try_from_json`, `exact_keys`, `non_empty_string` and the derived
-- `Serialize`, crates/slg-domain/src/lib.rs).
pub mod Shape
pub mod Laws
pub mod Accepts
pub mod RoundTrip
pub mod Tests
use smart_llm_gateway.Prelude.{
  String, Bool, true, false, not, Option, none, some, List, [], ◌∷◌, ◌==◌, if◌then◌else◌, all,
  contains, Result, ok, err, ok_or, and_then, guard, ◌>>=◌, ◌>>◌,
}
use smart_llm_gateway.Prelude.Texts.{is_empty_text}
use smart_llm_gateway.Prelude.Json.{
  Json, string, array, object, Items, nil, cons, Fields, end, field, get, as_str, as_object, keys,
}
use smart_llm_gateway.Domain.Message.{
  ImageDetail, ImageUrlContent, AudioFormat, InputAudioContent, MessageContentPart, MessageContent,
  MessageContentError, malformed_content, malformed_part, unsupported_part_type,
}

-- `filter(|value| !value.is_empty())`
abbrev pub non_empty : String → Option String
non_empty s = if is_empty_text s then none else some s

pub detail_of : String → Result ImageDetail MessageContentError
detail_of d =
    if d == "auto"
    then ok ImageDetail.auto
    else if d == "low"
    then ok ImageDetail.low
    else if d == "high"
    then ok ImageDetail.high
    else err malformed_part

pub format_of : Option String → Result AudioFormat MessageContentError
format_of none = err malformed_part
format_of (some s) =
    if s == "wav"
    then ok AudioFormat.wav
    else if s == "mp3"
    then ok AudioFormat.mp3
    else err malformed_part

-- `rename_all = "snake_case"`
abbrev pub detail_name : ImageDetail → String
detail_name ImageDetail.auto = "auto"
detail_name ImageDetail.low = "low"
detail_name ImageDetail.high = "high"

abbrev pub format_name : AudioFormat → String
format_name AudioFormat.wav = "wav"
format_name AudioFormat.mp3 = "mp3"

module _ {F : Type 0} where
  pub exact_keys : Fields F → List String → Result (Unit {0}) MessageContentError
  exact_keys o allowed = guard (all (λ k. contains k allowed) (keys o)) malformed_part

  pub non_empty_string : Fields F → String → Result String MessageContentError
  non_empty_string o key = ok_or (and_then (and_then (get key o) as_str) non_empty) malformed_part

  pub text_part : Fields F → Result MessageContentPart MessageContentError
  text_part o = do
    exact_keys o ("type" ∷ "text" ∷ [])
    t ← ok_or (and_then (get "text" o) as_str) malformed_part
    ok (MessageContentPart.text t)

  -- `.map(…).transpose()`
  pub optional_detail : Option (Json F) → Result (Option ImageDetail) MessageContentError
  optional_detail none = ok none
  optional_detail (some v) =
      ok_or (as_str v) malformed_part >>= λ d. detail_of d >>= λ k. ok (some k)

  pub image_part : Fields F → Result MessageContentPart MessageContentError
  image_part o = do
    exact_keys o ("type" ∷ "image_url" ∷ [])
    image ← ok_or (and_then (get "image_url" o) as_object) malformed_part
    exact_keys image ("url" ∷ "detail" ∷ [])
    url ← non_empty_string image "url"
    detail ← optional_detail (get "detail" image)
    ok (MessageContentPart.image_url (record { url = url; detail = detail }))

  pub audio_part : Fields F → Result MessageContentPart MessageContentError
  audio_part o = do
    exact_keys o ("type" ∷ "input_audio" ∷ [])
    audio ← ok_or (and_then (get "input_audio" o) as_object) malformed_part
    exact_keys audio ("data" ∷ "format" ∷ [])
    audio_data ← non_empty_string audio "data"
    format ← format_of (and_then (get "format" audio) as_str)
    ok (MessageContentPart.input_audio (record { audio_data = audio_data; format = format }))

  -- The `match` on the type.
  pub part_of_type : String → Fields F → Result MessageContentPart MessageContentError
  part_of_type t o =
      if t == "text"
      then text_part o
      else if t == "image_url"
      then image_part o
      else if t == "input_audio"
      then audio_part o
      else err unsupported_part_type

  -- `MessageContentPart::try_from_json`
  pub part_of_json : Json F → Result MessageContentPart MessageContentError
  part_of_json v = do
    o ← ok_or (as_object v) malformed_part
    t ← ok_or (and_then (get "type" o) as_str) malformed_part
    part_of_type t o

  pub parts_of_items : Items F → Result (List MessageContentPart) MessageContentError
  parts_of_items nil = ok []
  parts_of_items (cons v vs) = part_of_json v >>= λ p. parts_of_items vs >>= λ ps. ok (p ∷ ps)

  -- `MessageContent::try_from_json`, which `Deserialize` is, too.
  pub content_of_json : Json F → Result MessageContent MessageContentError
  content_of_json (string t) = ok (MessageContent.text t)
  content_of_json (array (cons v vs)) =
      parts_of_items (cons v vs) >>= λ ps. ok (MessageContent.parts ps)
  content_of_json _ = err malformed_content

  -- The derived `Serialize`: the tag first, an absent detail left out.
  abbrev pub detail_fields : Option ImageDetail → Fields F
  detail_fields none = end
  detail_fields (some d) = field "detail" (string (detail_name d)) end

  abbrev pub part_to_json : MessageContentPart → Json F
  part_to_json (MessageContentPart.text t) =
      object (field "type" (string "text") (field "text" (string t) end))
  part_to_json (MessageContentPart.image_url i) = object (
      field "type" (string "image_url")
        (field "image_url" (object (field "url" (string i.url) (detail_fields i.detail))) end))
  part_to_json (MessageContentPart.input_audio a) = object (
      field "type" (string "input_audio") (
        field "input_audio"
          (object (
            field "data" (string a.audio_data)
              (field "format" (string (format_name a.format)) end)))
          end))

  abbrev pub parts_to_items : List MessageContentPart → Items F
  parts_to_items [] = nil
  parts_to_items (p ∷ ps) = cons (part_to_json p) (parts_to_items ps)

  abbrev pub content_to_json : MessageContent → Json F
  content_to_json (MessageContent.text t) = string t
  content_to_json (MessageContent.parts ps) = array (parts_to_items ps)
