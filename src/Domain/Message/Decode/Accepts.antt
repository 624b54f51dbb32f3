-- ===== src/Domain/Message/Decode/Accepts.antt =====
-- The JSON that decodes is exactly that of a message content (crates/slg-domain/src/lib.rs).
use smart_llm_gateway.Prelude.{
  String, ◌≡◌, refl, ◌↔◌, some, List, [], ◌∷◌, ok, ok_or, and_then, >>=-eq-ok, >>=-at-ok,
  ok_injective, ok_or-eq-ok, ap, ◌∙◌, subst,
}
use smart_llm_gateway.Prelude.Json.{
  Json, null, bool, number, string, array, object, Items, nil, cons, Fields, get, as_str,
}
use smart_llm_gateway.Domain.Message.{MessageContentPart, MessageContent, malformed_part}
use smart_llm_gateway.Domain.Message.Decode.{
  part_of_type, part_of_json, parts_of_items, content_of_json,
}
use smart_llm_gateway.Domain.Message.Decode.Shape.{IsPartAt, IsPart, AreParts, IsContent}
use smart_llm_gateway.Domain.Message.Decode.Laws.{
  string_at, part_of_type_sound, text_part_iff, image_part_complete, audio_part_complete,
}

module _ {F : Type 0} where
  part_of_json_sound : (v : Json F) (p : MessageContentPart) → part_of_json v ≡ ok p → IsPart p v
  unfolding part_of_json
  part_of_json_sound (object o) p h =
      let (t, ht, h1) = >>=-eq-ok (ok_or (and_then (get "type" o) as_str) malformed_part) _ h in
      part_of_type_sound t o p (string_at _ (ok_or-eq-ok _ _ ht)) h1
  part_of_json_sound null p h = cc
  part_of_json_sound (bool b) p h = cc
  part_of_json_sound (number n) p h = cc
  part_of_json_sound (string s) p h = cc
  part_of_json_sound (array vs) p h = cc

  typed :
      (o : Fields F) {t : String} {p : MessageContentPart}
      → get "type" o ≡ some (string t)
      → part_of_type t o ≡ ok p
      → part_of_json (object o) ≡ ok p
  unfolding part_of_json
  typed o {t} ht h =
      >>=-at-ok (λ t. part_of_type t o) (ap (λ v. ok_or (and_then v as_str) malformed_part) ht) ∙ h

  part_of_fields_complete :
      (o : Fields F) (p : MessageContentPart) → IsPartAt p o → part_of_json (object o) ≡ ok p
  unfolding part_of_type
  part_of_fields_complete o (MessageContentPart.text t) (ht, hk, hv) =
      typed o ht ((text_part_iff o _).1 (t, refl, hk, hv))
  part_of_fields_complete o (MessageContentPart.image_url i) (ht, hk, (image, hi, h)) =
      typed o ht (image_part_complete o image i hk hi h)
  part_of_fields_complete o (MessageContentPart.input_audio a) (ht, hk, (audio, ha, h)) =
      typed o ht (audio_part_complete o audio a hk ha h)

  pub part_of_json_complete :
      (v : Json F) (p : MessageContentPart) → IsPart p v → part_of_json v ≡ ok p
  part_of_json_complete (object o) p h = part_of_fields_complete o p h
  part_of_json_complete null p h = absurd h
  part_of_json_complete (bool b) p h = absurd h
  part_of_json_complete (number n) p h = absurd h
  part_of_json_complete (string s) p h = absurd h
  part_of_json_complete (array vs) p h = absurd h

  parts_of_items_sound :
      (vs : Items F) (ps : List MessageContentPart) → parts_of_items vs ≡ ok ps → AreParts ps vs
  unfolding parts_of_items
  parts_of_items_sound nil ps h = subst (λ ps. AreParts {F = F} ps nil) (ok_injective h) tt
  parts_of_items_sound (cons v vs) ps h =
      let (p, hp, h1) = >>=-eq-ok (part_of_json v) _ h in
      let (qs, hq, h2) = >>=-eq-ok (parts_of_items vs) _ h1 in
      subst (λ ps. AreParts {F = F} ps (cons v vs)) (ok_injective h2)
        (part_of_json_sound v p hp, parts_of_items_sound vs qs hq)

  pub parts_of_items_complete :
      (vs : Items F) (ps : List MessageContentPart) → AreParts ps vs → parts_of_items vs ≡ ok ps
  unfolding parts_of_items
  parts_of_items_complete nil [] h = refl
  parts_of_items_complete nil (p ∷ ps) h = absurd h
  parts_of_items_complete (cons v vs) [] h = absurd h
  parts_of_items_complete (cons v vs) (p ∷ ps) (hp, hs) =
      >>=-at-ok _ (part_of_json_complete v p hp) ∙ >>=-at-ok _ (parts_of_items_complete vs ps hs)

  content_of_json_sound :
      (v : Json F) (c : MessageContent) → content_of_json v ≡ ok c → IsContent c v
  unfolding content_of_json
  content_of_json_sound (string t) c h =
      subst (λ c. IsContent {F = F} c (string t)) (ok_injective h) refl
  content_of_json_sound (array (cons v vs)) c h =
      let (ps, hs, h1) = >>=-eq-ok (parts_of_items (cons v vs)) _ h in
      subst (λ c. IsContent {F = F} c (array (cons v vs))) (ok_injective h1)
        (are_parts ps (parts_of_items_sound _ ps hs))
    where
      are_parts :
          (ps : List MessageContentPart)
          → AreParts ps (cons v vs)
          → IsContent (MessageContent.parts ps) (array (cons v vs))
      are_parts [] h = absurd h
      are_parts (p ∷ ps) h = (cons v vs, refl, h)
  content_of_json_sound (array nil) c h = cc
  content_of_json_sound null c h = cc
  content_of_json_sound (bool b) c h = cc
  content_of_json_sound (number n) c h = cc
  content_of_json_sound (object o) c h = cc

  parts_at :
      (vs : Items F) (p : MessageContentPart) (ps : List MessageContentPart)
      → AreParts (p ∷ ps) vs
      → content_of_json (array vs) ≡ ok (MessageContent.parts (p ∷ ps))
  unfolding content_of_json
  parts_at nil p ps h = absurd h
  parts_at (cons v vs) p ps h = >>=-at-ok _ (parts_of_items_complete (cons v vs) (p ∷ ps) h)

  pub content_of_json_complete :
      (v : Json F) (c : MessageContent) → IsContent c v → content_of_json v ≡ ok c
  unfolding content_of_json
  content_of_json_complete v (MessageContent.text t) h = ap content_of_json h
  content_of_json_complete v (MessageContent.parts []) h = absurd h
  content_of_json_complete v (MessageContent.parts (p ∷ ps)) (vs, e, h) =
      ap content_of_json e ∙ parts_at vs p ps h

  -- A JSON value decodes to a content exactly if it is a text, or a non-empty list of objects that are the
  -- content's parts in order: the type names the kind, no object has a key beyond its kind's, URL and audio
  -- data are non-empty texts, and detail and format are among the names.
  pub content_of_json_iff :
      (v : Json F) (c : MessageContent) → (content_of_json v ≡ ok c) ↔ IsContent c v
  content_of_json_iff v c = (content_of_json_sound v c, content_of_json_complete v c)
