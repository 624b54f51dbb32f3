-- ===== src/Runtime/Store.antt =====
-- The saved snapshot (`LastKnownGoodSnapshot`, crates/slg-runtime/src/lib.rs): the content of its file,
-- and the refusal of sensitive fields.
pub mod Laws
pub mod Tests
use Prim.Native.String.{String, ◌++◌ as append}
use smart_llm_gateway.Prelude.{
  ℕ, Bool, true, false, ◌||◌, Option, none, some, List, [], ◌∷◌, ◌==◌, eqb, if◌then◌else◌, Result,
  ok, err, ok_or, guard, ◌>>=◌, ◌>>◌,
}
use smart_llm_gateway.Prelude.Json.{
  Json, null, bool, number, string, array, object, Items, nil, cons, Fields, end, field,
}

-- The `matches!` on the key.
unfoldable pub is_sensitive : String → Bool
is_sensitive key =
    (key == "api_key")
    || ((key == "credential")
        || ((key == "prompt")
            || ((key == "content") || ((key == "response") || (key == "secret")))))

unfoldable pub sensitive_error : String → String
sensitive_error key = append "snapshot contains forbidden sensitive field `" (append key "`")

-- `reject_sensitive_fields`, and its loops over the fields of an object and the values of an array.
unfoldable mutual
  pub reject_sensitive_fields : {F : Type 0} → Json F → Result (Unit {0}) String
  reject_sensitive_fields (object o) = reject_fields o
  reject_sensitive_fields (array vs) = reject_items vs
  reject_sensitive_fields null = ok tt
  reject_sensitive_fields (bool b) = ok tt
  reject_sensitive_fields (number n) = ok tt
  reject_sensitive_fields (string s) = ok tt

  pub reject_items : {F : Type 0} → Items F → Result (Unit {0}) String
  reject_items nil = ok tt
  reject_items (cons v vs) = reject_sensitive_fields v >> reject_items vs

  pub reject_fields : {F : Type 0} → Fields F → Result (Unit {0}) String
  reject_fields end = ok tt
  reject_fields (field k v o) =
      if is_sensitive k
      then err (sensitive_error k)
      else (reject_sensitive_fields v >> reject_fields o)

pub record SnapshotEnvelope (F : Type 0) : Type 0 where
  pub schema : ℕ
  pub payload : Json F
  pub digest : String

-- The libraries' part: the derived encoder and decoder of the snapshot, JSON text, and SHA-256. `W` stands
-- for the bytes of a file.
pub record Format (F T W : Type 0) : Type 0 where
  pub to_value : T → Json F
  pub from_value : Json F → Option T
  pub to_text : Json F → String
  pub envelope_to_text : SnapshotEnvelope F → W
  pub envelope_of_text : W → Option (SnapshotEnvelope F)
  pub sha256 : String → String

module _ {F T W : Type 0} (format : Format F T W) where
  -- `save`: the text that the file then holds. It is written aside and renamed, in one step.
  unfoldable pub save : T → Result W String
  save snapshot =
      let payload = format.to_value snapshot in
      reject_sensitive_fields payload
      >> ok (
          format.envelope_to_text (record {
            schema = 1;
            payload = payload;
            digest = format.sha256 (format.to_text payload);
          }))

  unfoldable pub checked : SnapshotEnvelope F → Result T String
  checked e =
      guard (eqb e.schema 1) "unsupported snapshot schema"
      >> (guard (format.sha256 (format.to_text e.payload) == e.digest)
            "snapshot integrity check failed"
          >> (reject_sensitive_fields e.payload
              >> ok_or (format.from_value e.payload) "invalid snapshot"))

  -- `load`, of the text that the file holds; the messages of the decoders are fixed here.
  unfoldable pub load : W → Result T String
  load text = ok_or (format.envelope_of_text text) "invalid envelope" >>= checked
