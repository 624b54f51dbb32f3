-- ===== src/Runtime/Store/Tests.antt =====
-- Snapshots saved and loaded on concrete values (crates/slg-runtime/src/lib.rs).
use smart_llm_gateway.Prelude.{String, ◌≡◌, ◌≢◌, refl, Bool, Option, none, some, ok, err}
use smart_llm_gateway.Prelude.Json.{Json, null, object, field, end}
use smart_llm_gateway.Runtime.Store.{
  checked, SnapshotEnvelope, Format, save, load, reject_sensitive_fields, reject_fields,
  is_sensitive,
}
use smart_llm_gateway.Runtime.Store.Laws.{load-save, save_named}

-- A snapshot is the name of its one route, and a file is an envelope.
abbrev name_of : Json Bool → Option String
name_of (object (field _ (object (field name _ _)) _)) = some name
name_of _ = none

abbrev format : Format Bool String (SnapshotEnvelope Bool)
format = record {
  to_value = λ name. object (field "route_states" (object (field name null end)) end);
  from_value = name_of;
  to_text = λ v. "payload";
  envelope_to_text = λ e. e;
  envelope_of_text = λ e. some e;
  sha256 = λ s. "digest";
}

abbrev file : SnapshotEnvelope Bool
file = record {
  schema = 1;
  payload = object (field "route_states" (object (field "east" null end)) end);
  digest = "digest";
}

saved : save format "east" ≡ ok file
unfolding save reject_sensitive_fields reject_fields is_sensitive
saved = refl

tampered : load format (record file { digest = "other" }) ≡ err "snapshot integrity check failed"
unfolding load checked
tampered = refl

load-save_example : load format file ≡ ok "east"
load-save_example = load-save format "east" file (λ e. refl) refl saved

save_named_example : save format "content" ≢ ok file
unfolding is_sensitive
save_named_example =
    save_named format "content" file "route_states" "content"
      (field "route_states" (object (field "content" null end)) end) (field "content" null end) refl
      refl refl refl
