-- ===== src/Domain/Message/Decode/Tests.antt =====
-- Message contents decoded and encoded on concrete values (crates/slg-domain/src/lib.rs).
use smart_llm_gateway.Prelude.{◌≡◌, refl, ◌↔◌, Bool, some, [], ◌∷◌, ok, err}
use smart_llm_gateway.Prelude.Json.{Json, null, string, array, object, cons, nil, field, end}
use smart_llm_gateway.Domain.Message.{
  ImageDetail, MessageContentPart, MessageContent, malformed_part, malformed_content,
  unsupported_part_type,
}
use smart_llm_gateway.Domain.Message.Decode.{
  content_of_json, content_to_json, part_of_json, parts_of_items, part_of_type, text_part,
  image_part, exact_keys, non_empty_string, optional_detail, detail_of,
}
use smart_llm_gateway.Domain.Message.Decode.Shape.{IsContent}
use smart_llm_gateway.Domain.Message.Decode.Accepts.{content_of_json_iff}
use smart_llm_gateway.Domain.Message.Decode.RoundTrip.{content_of_json-content_to_json}

abbrev picture : MessageContent
picture = MessageContent.parts (
    MessageContentPart.text "what is this?"
    ∷ MessageContentPart.image_url
        (record { url = "data:image/png;base64,aW1hZ2U="; detail = some ImageDetail.low })
    ∷ [])

abbrev picture_json : Json Bool
picture_json = content_to_json picture

-- A text part with one key too many.
abbrev extra_json : Json Bool
extra_json = array (
    cons
      (object (field "type" (string "text") (field "text" (string "hi") (field "note" null end))))
      nil)

decoded_picture : content_of_json picture_json ≡ ok picture
unfolding content_of_json parts_of_items part_of_json part_of_type text_part image_part exact_keys
    non_empty_string optional_detail detail_of
decoded_picture = refl

refused_key : content_of_json extra_json ≡ err malformed_part
unfolding content_of_json parts_of_items part_of_json part_of_type text_part exact_keys
refused_key = refl

refused_type :
    content_of_json {F = Bool} (array (cons (object (field "type" (string "video") end)) nil))
    ≡ err unsupported_part_type
unfolding content_of_json parts_of_items part_of_json part_of_type
refused_type = refl

refused_empty : content_of_json {F = Bool} (array nil) ≡ err malformed_content
unfolding content_of_json
refused_empty = refl

content_of_json_iff_example :
    (content_of_json picture_json ≡ ok picture) ↔ IsContent picture picture_json
content_of_json_iff_example = content_of_json_iff picture_json picture

content_of_json-content_to_json_example :
    content_of_json (content_to_json {F = Bool} picture) ≡ ok picture
content_of_json-content_to_json_example =
    content_of_json-content_to_json Bool picture (tt, (refl, tt))
