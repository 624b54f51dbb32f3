-- ===== src/Inbound/Decode/Laws.antt =====
-- The requests that decode (crates/slg-adapter-inbound-openai/src/lib.rs).
use smart_llm_gateway.Prelude.{
  ◌≡◌, refl, ap, sym, subst, ◌∙◌, ◌↔◌, some, List, [], ◌∷◌, Result, ok, err, ok_or, map_err,
  >>=-eq-ok, >>=-at-ok, ok_injective, ok_or-eq-ok,
}
use smart_llm_gateway.Prelude.Json.{Json}
use smart_llm_gateway.Domain.Message.{ChatMessage, MessageContent, MessageContentError}
use smart_llm_gateway.Domain.Message.Decode.{content_of_json}
use smart_llm_gateway.Domain.Message.Decode.Shape.{IsContent}
use smart_llm_gateway.Domain.Message.Decode.Accepts.{content_of_json_iff}
use smart_llm_gateway.Inbound.Decode.{
  ChatCompletionRequest, WireChatMessage, WireChatCompletionRequest, Serde, content_error,
  schema_error, decode_message, decode_messages, decode_request,
}

map_err-eq-ok :
    (r : Result MessageContent MessageContentError) (c : MessageContent)
    → map_err content_error r ≡ ok c
    → r ≡ ok c
map_err-eq-ok (ok d) c h = ap ok (ok_injective h)
map_err-eq-ok (err e) c h = cc

module _ {F : Type 0} where
  abbrev pub IsMessage : ChatMessage → WireChatMessage F → Type 0
  IsMessage c m = (c.role ≡ m.role) × IsContent c.content m.content

  -- The messages, in order.
  abbrev pub AreMessages : List ChatMessage → List (WireChatMessage F) → Type 0
  AreMessages [] [] = Unit
  AreMessages [] (m ∷ ms) = ⊥
  AreMessages (c ∷ cs) [] = ⊥
  AreMessages (c ∷ cs) (m ∷ ms) = IsMessage c m × AreMessages cs ms

  -- What the gateway is asked, in terms of the body as the derived decoder reads it.
  abbrev pub Decodes : ChatCompletionRequest F → WireChatCompletionRequest F → Type 0
  Decodes r w =
      (r.model ≡ w.model)
      × AreMessages r.messages w.messages
      × (r.stream ≡ w.stream)
      × (r.temperature ≡ w.temperature)
      × (r.max_tokens ≡ w.max_tokens)

  decode_message_sound :
      (m : WireChatMessage F) (c : ChatMessage) → decode_message m ≡ ok c → IsMessage c m
  unfolding decode_message
  decode_message_sound m c h =
      let (d, hd, h1) = >>=-eq-ok (map_err content_error (content_of_json m.content)) _ h in
      let e = ok_injective h1 in
      subst (λ c. IsMessage c m) e
        (refl, (content_of_json_iff m.content d).0 (map_err-eq-ok _ _ hd))

  decode_message_complete :
      (m : WireChatMessage F) (c : ChatMessage) → IsMessage c m → decode_message m ≡ ok c
  unfolding decode_message
  decode_message_complete m c (hr, hc) =
      >>=-at-ok (λ d. ok (record { role = m.role; content = d }))
        (ap (map_err content_error) ((content_of_json_iff m.content c.content).1 hc))
      ∙ λ i. ok (record { role = sym hr i; content = c.content })

  decode_messages_sound :
      (ms : List (WireChatMessage F)) (cs : List ChatMessage)
      → decode_messages ms ≡ ok cs
      → AreMessages cs ms
  unfolding decode_messages
  decode_messages_sound [] cs h = subst (λ cs. AreMessages cs []) (ok_injective h) tt
  decode_messages_sound (m ∷ ms) cs h =
      let (c, hc, h1) = >>=-eq-ok (decode_message m) _ h in
      let (ds, hs, h2) = >>=-eq-ok (decode_messages ms) _ h1 in
      subst (λ cs. AreMessages cs (m ∷ ms)) (ok_injective h2)
        (decode_message_sound m c hc, decode_messages_sound ms ds hs)

  decode_messages_complete :
      (ms : List (WireChatMessage F)) (cs : List ChatMessage)
      → AreMessages cs ms
      → decode_messages ms ≡ ok cs
  unfolding decode_messages
  decode_messages_complete [] [] h = refl
  decode_messages_complete [] (c ∷ cs) h = absurd h
  decode_messages_complete (m ∷ ms) [] h = absurd h
  decode_messages_complete (m ∷ ms) (c ∷ cs) (hc, hs) =
      >>=-at-ok _ (decode_message_complete m c hc) ∙ >>=-at-ok _ (decode_messages_complete ms cs hs)

  decode_request_sound :
      (serde : Serde F) (v : Json F) (r : ChatCompletionRequest F)
      → decode_request serde v ≡ ok r
      → (w : WireChatCompletionRequest F) × (serde v ≡ some w) × Decodes r w
  unfolding decode_request
  decode_request_sound serde v r h =
      let (w, hw, h1) = >>=-eq-ok (ok_or (serde v) schema_error) _ h in
      let (ms, hm, h2) = >>=-eq-ok (decode_messages w.messages) _ h1 in
      (
        w,
        ok_or-eq-ok _ _ hw,
        subst (λ r. Decodes r w) (ok_injective h2)
            (refl, decode_messages_sound w.messages ms hm, refl, refl, refl),
      )

  decode_request_complete :
      (serde : Serde F) (v : Json F) (r : ChatCompletionRequest F) (w : WireChatCompletionRequest F)
      → serde v ≡ some w
      → Decodes r w
      → decode_request serde v ≡ ok r
  unfolding decode_request
  decode_request_complete serde v r w hw (h1, hm, h2, h3, h4) =
      >>=-at-ok _ (ap (λ o. ok_or o schema_error) hw)
      ∙ >>=-at-ok _ (decode_messages_complete w.messages r.messages hm)
      ∙ λ i. ok (record {
        model = sym h1 i;
        messages = r.messages;
        stream = sym h2 i;
        temperature = sym h3 i;
        max_tokens = sym h4 i;
      })

  -- A body decodes exactly if the derived decoder reads it and each message's content is a message content;
  -- the request then has the body's fields and messages, in order.
  pub decode_request_iff :
      (serde : Serde F) (v : Json F) (r : ChatCompletionRequest F)
      → (decode_request serde v ≡ ok r)
        ↔ ((w : WireChatCompletionRequest F) × (serde v ≡ some w) × Decodes r w)
  decode_request_iff serde v r =
      (decode_request_sound serde v r, λ (w, hw, h). decode_request_complete serde v r w hw h)
