-- ===== src/Runtime/Store/Laws.antt =====
-- What is saved and loaded (crates/slg-runtime/src/lib.rs).
use smart_llm_gateway.Prelude.{
  String, ◌≡◌, ◌≢◌, ◌↔◌, sym, ap, ◌∙◌, subst, Bool, true, false, some, eq_iff, eq_refl, ok, ok_or,
  guard, ◌>>=◌, >>-eq-ok, >>=-at-ok, >>-at-ok, ok_injective, contains, arith,
}
use smart_llm_gateway.Prelude.Json.{
  Json, null, bool, number, string, array, object, Items, nil, cons, Fields, end, field, get, keys,
}
use smart_llm_gateway.Runtime.Store.{
  is_sensitive, reject_sensitive_fields, reject_items, reject_fields, SnapshotEnvelope, Format,
  save, checked, load,
}

-- No object in the value has a sensitive key, at any depth.
unfoldable mutual
  pub IsClean : {F : Type 0} → Json F → Type 0
  IsClean (object o) = AreFieldsClean o
  IsClean (array vs) = AreItemsClean vs
  IsClean null = Unit
  IsClean (bool b) = Unit
  IsClean (number n) = Unit
  IsClean (string s) = Unit

  pub AreItemsClean : {F : Type 0} → Items F → Type 0
  AreItemsClean nil = Unit
  AreItemsClean (cons v vs) = IsClean v × AreItemsClean vs

  pub AreFieldsClean : {F : Type 0} → Fields F → Type 0
  AreFieldsClean end = Unit
  AreFieldsClean (field k v o) = (is_sensitive k ≡ false) × (IsClean v × AreFieldsClean o)

true_false : ◌≢◌ {A = Bool} true false
true_false h = cc

mutual
  unfolding reject_sensitive_fields reject_items reject_fields IsClean AreItemsClean AreFieldsClean

  reject_iff : {F : Type 0} (v : Json F) → (reject_sensitive_fields v ≡ ok tt) ↔ IsClean v
  reject_iff (object o) = reject_fields_iff o
  reject_iff (array vs) = reject_items_iff vs
  reject_iff null = ground arith
  reject_iff (bool b) = ground arith
  reject_iff (number n) = ground arith
  reject_iff (string s) = ground arith

  reject_items_iff : {F : Type 0} (vs : Items F) → (reject_items vs ≡ ok tt) ↔ AreItemsClean vs
  reject_items_iff nil = ground arith
  reject_items_iff (cons v vs) = ground (arith, reject_iff v, reject_items_iff vs)

  reject_fields_iff : {F : Type 0} (o : Fields F) → (reject_fields o ≡ ok tt) ↔ AreFieldsClean o
  reject_fields_iff end = ground arith
  reject_fields_iff (field k v o) = ground (arith, reject_iff v, reject_fields_iff o)

AreFieldsClean-get :
    {F : Type 0} (k : String) (v : Json F) (o : Fields F)
    → AreFieldsClean o
    → get k o ≡ some v
    → IsClean v
unfolding AreFieldsClean
AreFieldsClean-get k v end h e = cc
AreFieldsClean-get k v (field j w o) (n, (c, h)) e =
    ground (arith, eq_iff j k, AreFieldsClean-get k v o h)

AreFieldsClean-keys :
    {F : Type 0} (k : String) (o : Fields F)
    → AreFieldsClean o
    → contains k (keys o) ≡ true
    → is_sensitive k ≡ false
unfolding AreFieldsClean
AreFieldsClean-keys k end h e = cc
AreFieldsClean-keys k (field j w o) (n, (c, h)) e =
    ground (arith, eq_iff j k, eq_iff k j, AreFieldsClean-keys k o h)

module _ {F T W : Type 0} (format : Format F T W) where
  saved_text : T → W
  saved_text t = format.envelope_to_text (record {
    schema = 1;
    payload = format.to_value t;
    digest = format.sha256 (format.to_text (format.to_value t));
  })

  -- A value is saved exactly if its JSON has no sensitive key, at any depth.
  save-IsClean :
      (t : T) (text : W)
      → save format t ≡ ok text
      → IsClean (format.to_value t) × (text ≡ saved_text t)
  unfolding save saved_text
  save-IsClean t text h =
      let (c, e) = >>-eq-ok (reject_sensitive_fields (format.to_value t)) _ h in
      ((reject_iff (format.to_value t)).0 c, sym (ok_injective e))

  checked_saved :
      (t : T)
      → IsClean (format.to_value t)
      → format.from_value (format.to_value t) ≡ some t
      → checked format (record {
        schema = 1;
        payload = format.to_value t;
        digest = format.sha256 (format.to_text (format.to_value t));
      })
        ≡ ok t
  unfolding checked
  checked_saved t c e =
      >>-at-ok _ (
        ap (λ b. guard b "snapshot integrity check failed")
          (eq_refl (format.sha256 (format.to_text (format.to_value t)))))
      ∙ >>-at-ok _ ((reject_iff (format.to_value t)).1 c)
      ∙ ap (λ o. ok_or o "invalid snapshot") e

  -- What was saved is loaded again, where the encoders of the snapshot and of the envelope are undone by
  -- their decoders.
  pub load-save :
      (t : T) (text : W)
      → ((e : SnapshotEnvelope F) → format.envelope_of_text (format.envelope_to_text e) ≡ some e)
      → format.from_value (format.to_value t) ≡ some t
      → save format t ≡ ok text
      → load format text ≡ ok t
  unfolding load saved_text
  load-save t text he ht h =
      let (c, e) = save-IsClean t text h in
      ap (λ s. ok_or (format.envelope_of_text s) "invalid envelope" >>= checked format) e
      ∙ >>=-at-ok (checked format) (ap (λ o. ok_or o "invalid envelope") (he _))
      ∙ checked_saved t c ht

  -- A snapshot is never saved when one of its maps has a sensitive name as a key, whatever the name stands
  -- for: a map is encoded as an object whose keys are the map's.
  pub save_named :
      (t : T) (text : W) (map key : String) (o entries : Fields F)
      → format.to_value t ≡ object o
      → get map o ≡ some (object entries)
      → contains key (keys entries) ≡ true
      → is_sensitive key ≡ true
      → save format t ≢ ok text
  unfolding IsClean
  save_named t text map key o entries ht hm hk hs h =
      let clean : IsClean (object o) = subst IsClean ht (save-IsClean t text h).0 in
      true_false (
        sym hs
        ∙ AreFieldsClean-keys key entries (AreFieldsClean-get map (object entries) o clean hm) hk)
