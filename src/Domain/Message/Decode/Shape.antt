-- ===== src/Domain/Message/Decode/Shape.antt =====
-- The JSON that stands for a message content, said of the fields alone (crates/slg-domain/src/lib.rs).
use smart_llm_gateway.Prelude.{
  String, ◌≡◌, true, false, Option, none, some, List, [], ◌∷◌, All, contains,
}
use smart_llm_gateway.Prelude.Texts.{is_empty_text}
use smart_llm_gateway.Prelude.Json.{
  Json, string, array, object, Items, nil, cons, Fields, get, keys,
}
use smart_llm_gateway.Domain.Message.{
  ImageDetail, ImageUrlContent, InputAudioContent, MessageContentPart, MessageContent,
}
use smart_llm_gateway.Domain.Message.Decode.{detail_name, format_name}

module _ {F : Type 0} where
  -- No other keys.
  abbrev pub OnlyKeys : List String → Fields F → Type 0
  OnlyKeys allowed o = All (λ k. contains k allowed ≡ true) (keys o)

  -- The key holds this text.
  abbrev pub Holds : String → String → Fields F → Type 0
  Holds key t o = get key o ≡ some (string t)

  abbrev pub HoldsDetail : Option ImageDetail → Fields F → Type 0
  HoldsDetail none o = get "detail" o ≡ none
  HoldsDetail (some d) o = Holds "detail" (detail_name d) o

  abbrev pub IsImage : ImageUrlContent → Fields F → Type 0
  IsImage i o =
      OnlyKeys ("url" ∷ "detail" ∷ []) o
      × Holds "url" i.url o
      × (is_empty_text i.url ≡ false)
      × HoldsDetail i.detail o

  abbrev pub IsAudio : InputAudioContent → Fields F → Type 0
  IsAudio a o =
      OnlyKeys ("data" ∷ "format" ∷ []) o
      × Holds "data" a.audio_data o
      × (is_empty_text a.audio_data ≡ false)
      × Holds "format" (format_name a.format) o

  abbrev pub IsPartAt : MessageContentPart → Fields F → Type 0
  IsPartAt (MessageContentPart.text t) o =
      Holds "type" "text" o × OnlyKeys ("type" ∷ "text" ∷ []) o × Holds "text" t o
  IsPartAt (MessageContentPart.image_url i) o =
      Holds "type" "image_url" o
      × OnlyKeys ("type" ∷ "image_url" ∷ []) o
      × ((image : Fields F) × (get "image_url" o ≡ some (object image)) × IsImage i image)
  IsPartAt (MessageContentPart.input_audio a) o =
      Holds "type" "input_audio" o
      × OnlyKeys ("type" ∷ "input_audio" ∷ []) o
      × ((audio : Fields F) × (get "input_audio" o ≡ some (object audio)) × IsAudio a audio)

  abbrev pub IsPart : MessageContentPart → Json F → Type 0
  IsPart p (object o) = IsPartAt p o
  IsPart p _ = ⊥

  abbrev pub AreParts : List MessageContentPart → Items F → Type 0
  AreParts [] nil = Unit
  AreParts [] (cons v vs) = ⊥
  AreParts (p ∷ ps) nil = ⊥
  AreParts (p ∷ ps) (cons v vs) = IsPart p v × AreParts ps vs

  -- A text, or the list of one part or more.
  abbrev pub IsContent : MessageContent → Json F → Type 0
  IsContent (MessageContent.text t) v = v ≡ string t
  IsContent (MessageContent.parts []) v = ⊥
  IsContent (MessageContent.parts (p ∷ ps)) v =
      (vs : Items F) × (v ≡ array vs) × AreParts (p ∷ ps) vs
