-- ===== src/Domain/Message/Decode/RoundTrip.antt =====
-- A content that is encoded decodes to itself (crates/slg-domain/src/lib.rs).
use smart_llm_gateway.Prelude.{◌≡◌, refl, false, Option, none, some, List, [], ◌∷◌, All, ok}
use smart_llm_gateway.Prelude.Texts.{is_empty_text}
use smart_llm_gateway.Prelude.Json.{string, field}
use smart_llm_gateway.Domain.Message.{ImageDetail, MessageContentPart, MessageContent}
use smart_llm_gateway.Domain.Message.Decode.{
  content_of_json, part_to_json, parts_to_items, content_to_json, detail_fields,
}
use smart_llm_gateway.Domain.Message.Decode.Shape.{IsImage, IsPart, AreParts, IsContent}
use smart_llm_gateway.Domain.Message.Decode.Accepts.{content_of_json_complete}

-- The URL or the audio data is there.
abbrev pub Filled : MessageContentPart → Type 0
Filled (MessageContentPart.text t) = Unit
Filled (MessageContentPart.image_url i) = is_empty_text i.url ≡ false
Filled (MessageContentPart.input_audio a) = is_empty_text a.audio_data ≡ false

-- A content that the API's types can hold and a decoder yields.
abbrev pub WellFormed : MessageContent → Type 0
WellFormed (MessageContent.text t) = Unit
WellFormed (MessageContent.parts []) = ⊥
WellFormed (MessageContent.parts (p ∷ ps)) = All Filled (p ∷ ps)

module _ (F : Type 0) where
  IsPart-part_to_json : (p : MessageContentPart) → Filled p → IsPart {F = F} p (part_to_json p)
  IsPart-part_to_json (MessageContentPart.text t) h = (refl, (refl, (refl, tt)), refl)
  IsPart-part_to_json (MessageContentPart.image_url i) h =
      (refl, (refl, (refl, tt)), (_, refl, by_detail i.detail))
    where
      by_detail :
          (d : Option ImageDetail)
          → IsImage {F = F}
              (record { url = i.url; detail = d })
              (field "url" (string i.url) (detail_fields d))
      by_detail none = ((refl, tt), refl, h, refl)
      by_detail (some d) = ((refl, (refl, tt)), refl, h, refl)
  IsPart-part_to_json (MessageContentPart.input_audio a) h =
      (refl, (refl, (refl, tt)), (_, refl, ((refl, (refl, tt)), refl, h, refl)))

  AreParts-parts_to_items :
      (ps : List MessageContentPart) → All Filled ps → AreParts {F = F} ps (parts_to_items ps)
  AreParts-parts_to_items [] h = tt
  AreParts-parts_to_items (p ∷ ps) (h, hs) =
      (IsPart-part_to_json p h, AreParts-parts_to_items ps hs)

  IsContent-content_to_json :
      (c : MessageContent) → WellFormed c → IsContent {F = F} c (content_to_json c)
  IsContent-content_to_json (MessageContent.text t) h = refl
  IsContent-content_to_json (MessageContent.parts []) h = absurd h
  IsContent-content_to_json (MessageContent.parts (p ∷ ps)) h =
      (_, refl, AreParts-parts_to_items (p ∷ ps) h)

  -- A content with one part or more, whose URLs and audio data are non-empty, or a text, is read back from
  -- the JSON it is encoded to.
  pub content_of_json-content_to_json :
      (c : MessageContent) → WellFormed c → content_of_json {F = F} (content_to_json c) ≡ ok c
  content_of_json-content_to_json c h =
      content_of_json_complete (content_to_json c) c (IsContent-content_to_json c h)
