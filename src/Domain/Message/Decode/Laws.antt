-- ===== src/Domain/Message/Decode/Laws.antt =====
-- Decoding accepts exactly the JSON of message contents (crates/slg-domain/src/lib.rs).
use smart_llm_gateway.Prelude.{
  String, ◌≡◌, refl, ◌↔◌, Bool, true, false, Option, none, some, List, [], ◌∷◌, eq_iff, All, all,
  contains, ok, ok_or, and_then, >>=-eq-ok, >>-eq-ok, >>=-at-ok, >>-at-ok, ok_injective, arith, sym,
  ap, ◌∙◌, subst, ne_of_test,
}
use smart_llm_gateway.Prelude.Texts.{is_empty_text}
use smart_llm_gateway.Prelude.Json.{
  Json, null, bool, number, string, array, object, Fields, get, as_str, as_object, keys,
}
use smart_llm_gateway.Domain.Message.{
  ImageDetail, ImageUrlContent, AudioFormat, InputAudioContent, MessageContentPart, malformed_part,
}
use smart_llm_gateway.Domain.Message.Decode.{
  detail_name, format_name, exact_keys, non_empty_string, text_part, detail_of, optional_detail,
  image_part, format_of, audio_part, part_of_type,
}
use smart_llm_gateway.Domain.Message.Decode.Shape.{
  OnlyKeys, Holds, HoldsDetail, IsImage, IsAudio, IsPartAt,
}

all_iff : (p : String → Bool) (ks : List String) → (all p ks ≡ true) ↔ All (λ k. p k ≡ true) ks
all_iff p [] = ground arith
all_iff p (k ∷ ks) = ground (arith, all_iff p ks)

detail_of_iff : (s : String) (d : ImageDetail) → (detail_of s ≡ ok d) ↔ (s ≡ detail_name d)
unfolding detail_of
detail_of_iff s ImageDetail.auto = ground (arith, eq_iff s "auto", eq_iff s "low", eq_iff s "high")
detail_of_iff s ImageDetail.low =
    ground (arith, eq_iff s "auto", eq_iff s "low", eq_iff s "high", ne_of_test "low" "auto" refl)
detail_of_iff s ImageDetail.high = ground (
  arith,
  eq_iff s "auto",
  eq_iff s "low",
  eq_iff s "high",
  ne_of_test "high" "auto" refl,
  ne_of_test "high" "low" refl,
)

format_of_iff :
    (o : Option String) (f : AudioFormat) → (format_of o ≡ ok f) ↔ (o ≡ some (format_name f))
unfolding format_of
format_of_iff none f = ground arith
format_of_iff (some s) AudioFormat.wav = ground (arith, eq_iff s "wav", eq_iff s "mp3")
format_of_iff (some s) AudioFormat.mp3 =
    ground (arith, eq_iff s "wav", eq_iff s "mp3", ne_of_test "mp3" "wav" refl)

module _ {F : Type 0} where
  exact_keys_iff :
      (o : Fields F) (allowed : List String) → (exact_keys o allowed ≡ ok tt) ↔ OnlyKeys allowed o
  unfolding exact_keys
  exact_keys_iff o allowed = ground (arith, all_iff (λ k. contains k allowed) (keys o))

  non_empty_string_iff :
      (o : Fields F) (key s : String)
      → (non_empty_string o key ≡ ok s) ↔ (Holds key s o × (is_empty_text s ≡ false))
  unfolding non_empty_string
  non_empty_string_iff o key s = ground arith

  optional_detail_iff :
      (o : Fields F) (d : Option ImageDetail)
      → (optional_detail (get "detail" o) ≡ ok d) ↔ HoldsDetail d o
  unfolding optional_detail
  optional_detail_iff o none = ground arith
  optional_detail_iff o (some d) = by_value (get "detail" o)
    where
      by_value :
          (v : Option (Json F))
          → (optional_detail v ≡ ok (some d)) ↔ (v ≡ some (string (detail_name d)))
      by_value none = ground arith
      by_value (some (string s)) = ground (arith, detail_of_iff s d)
      by_value (some null) = ground arith
      by_value (some (bool b)) = ground arith
      by_value (some (number n)) = ground arith
      by_value (some (array vs)) = ground arith
      by_value (some (object vs)) = ground arith

  -- Each kind of part, read from its fields.
  pub text_part_iff :
      (o : Fields F) (p : MessageContentPart)
      → (text_part o ≡ ok p) ↔ (
          (t : String) × (p ≡ MessageContentPart.text t)
          × OnlyKeys ("type" ∷ "text" ∷ []) o
          × Holds "text" t o)
  unfolding text_part
  text_part_iff o p = ground (arith, exact_keys_iff o ("type" ∷ "text" ∷ []))

  object_at :
      (v : Option (Json F)) {o : Fields F}
      → ok_or (and_then v as_object) malformed_part ≡ ok o
      → v ≡ some (object o)
  object_at (some (object o')) h = ap (λ x. some (object x)) (ok_injective h)
  object_at none h = cc
  object_at (some null) h = cc
  object_at (some (bool b)) h = cc
  object_at (some (number n)) h = cc
  object_at (some (string s)) h = cc
  object_at (some (array vs)) h = cc

  pub string_at :
      (v : Option (Json F)) {t : String} → and_then v as_str ≡ some t → v ≡ some (string t)
  string_at v h = ground arith

  image_part_sound :
      (o : Fields F) (p : MessageContentPart)
      → image_part o ≡ ok p
      → (i : ImageUrlContent) × (p ≡ MessageContentPart.image_url i)
        × OnlyKeys ("type" ∷ "image_url" ∷ []) o
        × ((image : Fields F) × (get "image_url" o ≡ some (object image)) × IsImage i image)
  unfolding image_part
  image_part_sound o p h =
      let (hk, h1) = >>-eq-ok (exact_keys o ("type" ∷ "image_url" ∷ [])) _ h in
      let (image, hi, h2) =
        >>=-eq-ok (ok_or (and_then (get "image_url" o) as_object) malformed_part) _ h1 in
      let (hj, h3) = >>-eq-ok (exact_keys image ("url" ∷ "detail" ∷ [])) _ h2 in
      let (url, hu, h4) = >>=-eq-ok (non_empty_string image "url") _ h3 in
      let (detail, hd, h5) = >>=-eq-ok (optional_detail (get "detail" image)) _ h4 in
      let (hs, hne) = (non_empty_string_iff image "url" url).0 hu in
      let is_image : IsImage (record { url = url; detail = detail }) image =
        ((exact_keys_iff image _).0 hj, hs, hne, (optional_detail_iff image detail).0 hd) in
      (
        record { url = url; detail = detail },
        sym (ok_injective h5),
        (exact_keys_iff o _).0 hk,
        (image, object_at _ hi, is_image),
      )

  pub image_part_complete :
      (o image : Fields F) (i : ImageUrlContent)
      → OnlyKeys ("type" ∷ "image_url" ∷ []) o
      → get "image_url" o ≡ some (object image)
      → IsImage i image
      → image_part o ≡ ok (MessageContentPart.image_url i)
  unfolding image_part
  image_part_complete o image i hk hi (hj, hu, hne, hd) =
      >>-at-ok _ ((exact_keys_iff o _).1 hk)
      ∙ >>=-at-ok _ (ap (λ v. ok_or (and_then v as_object) malformed_part) hi)
      ∙ >>-at-ok _ ((exact_keys_iff image _).1 hj)
      ∙ >>=-at-ok _ ((non_empty_string_iff image "url" i.url).1 (hu, hne))
      ∙ >>=-at-ok _ ((optional_detail_iff image i.detail).1 hd)

  audio_part_sound :
      (o : Fields F) (p : MessageContentPart)
      → audio_part o ≡ ok p
      → (a : InputAudioContent) × (p ≡ MessageContentPart.input_audio a)
        × OnlyKeys ("type" ∷ "input_audio" ∷ []) o
        × ((audio : Fields F) × (get "input_audio" o ≡ some (object audio)) × IsAudio a audio)
  unfolding audio_part
  audio_part_sound o p h =
      let (hk, h1) = >>-eq-ok (exact_keys o ("type" ∷ "input_audio" ∷ [])) _ h in
      let (audio, hi, h2) =
        >>=-eq-ok (ok_or (and_then (get "input_audio" o) as_object) malformed_part) _ h1 in
      let (hj, h3) = >>-eq-ok (exact_keys audio ("data" ∷ "format" ∷ [])) _ h2 in
      let (bytes, hu, h4) = >>=-eq-ok (non_empty_string audio "data") _ h3 in
      let (format, hf, h5) = >>=-eq-ok (format_of (and_then (get "format" audio) as_str)) _ h4 in
      let (hs, hne) = (non_empty_string_iff audio "data" bytes).0 hu in
      let is_audio : IsAudio (record { audio_data = bytes; format = format }) audio =
        ((exact_keys_iff audio _).0 hj, hs, hne, string_at _ ((format_of_iff _ format).0 hf)) in
      (
        record { audio_data = bytes; format = format },
        sym (ok_injective h5),
        (exact_keys_iff o _).0 hk,
        (audio, object_at _ hi, is_audio),
      )

  pub audio_part_complete :
      (o audio : Fields F) (a : InputAudioContent)
      → OnlyKeys ("type" ∷ "input_audio" ∷ []) o
      → get "input_audio" o ≡ some (object audio)
      → IsAudio a audio
      → audio_part o ≡ ok (MessageContentPart.input_audio a)
  unfolding audio_part
  audio_part_complete o audio a hk hi (hj, hu, hne, hf) =
      >>-at-ok _ ((exact_keys_iff o _).1 hk)
      ∙ >>=-at-ok _ (ap (λ v. ok_or (and_then v as_object) malformed_part) hi)
      ∙ >>-at-ok _ ((exact_keys_iff audio _).1 hj)
      ∙ >>=-at-ok _ ((non_empty_string_iff audio "data" a.audio_data).1 (hu, hne))
      ∙ >>=-at-ok _ ((format_of_iff _ a.format).1 (ap (λ v. and_then v as_str) hf))

  text_at :
      (o : Fields F) (p : MessageContentPart)
      → Holds "type" "text" o
      → text_part o ≡ ok p
      → IsPartAt p o
  text_at o p ht h =
      let (t, e, hk, hv) = (text_part_iff o p).0 h in subst (λ p. IsPartAt p o) (sym e) (ht, hk, hv)

  image_at :
      (o : Fields F) (p : MessageContentPart)
      → Holds "type" "image_url" o
      → image_part o ≡ ok p
      → IsPartAt p o
  image_at o p ht h =
      let (i, e, hk, hv) = image_part_sound o p h in subst (λ p. IsPartAt p o) (sym e) (ht, hk, hv)

  audio_at :
      (o : Fields F) (p : MessageContentPart)
      → Holds "type" "input_audio" o
      → audio_part o ≡ ok p
      → IsPartAt p o
  audio_at o p ht h =
      let (i, e, hk, hv) = audio_part_sound o p h in subst (λ p. IsPartAt p o) (sym e) (ht, hk, hv)

  pub part_of_type_sound :
      (t : String) (o : Fields F) (p : MessageContentPart)
      → Holds "type" t o
      → part_of_type t o ≡ ok p
      → IsPartAt p o
  unfolding part_of_type
  part_of_type_sound t o p ht h = ground (
    arith,
    eq_iff t "text",
    eq_iff t "image_url",
    eq_iff t "input_audio",
    text_at o p,
    image_at o p,
    audio_at o p,
  )
