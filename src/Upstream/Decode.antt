-- ===== src/Upstream/Decode.antt =====
-- One server-sent event (`decode_frame`, `sanitized_openai_error`, `sanitized_failure`,
-- crates/slg-adapter-upstream-openai/src/lib.rs).
pub mod Laws
pub mod Tests
use Prim.Native.Char.{Char, code}
use Prim.Native.String.{String, ◌++◌ as append}
use smart_llm_gateway.Prelude.{
  ℕ, Bool, true, false, ◌||◌, ◌&&◌, Option, none, some, List, [], ◌∷◌, ◌==◌, eqb, if◌then◌else◌,
  Result, ok, err, ok_or, and_then, map_err, ◌>>=◌,
}
use smart_llm_gateway.Prelude.Texts.{starts_with, strip_prefix, is_whitespace, is_blank}
use smart_llm_gateway.Prelude.Json.{Json, Fields, get, as_str, as_object}
use smart_llm_gateway.Domain.Failure.{ErrorCategory, ProviderFailure}
use smart_llm_gateway.Ports.{InferenceStreamEvent, frame, completed, failed}
use smart_llm_gateway.Provider.Classify.{contains_text, retries, retry_time}

-- `c` put before the first line.
abbrev extend_line : Char → List String → List String
extend_line c [] = String.◌∷◌ c String.[] ∷ []
extend_line c (l ∷ ls) = String.◌∷◌ c l ∷ ls

-- `text.lines()`: each line without its `\n` or `\r\n`.
unfoldable pub lines : String → List String
lines String.[] = []
lines (String.◌∷◌ c s) =
    let rest = lines s in
    if eqb (code c) b'\n'
    then String.[] ∷ rest
    else if eqb (code c) b'\r' && starts_with s "\n"
    then rest
    else extend_line c rest

-- `raw_line.strip_suffix('\r').unwrap_or(raw_line)`
unfoldable pub strip_return : String → String
strip_return String.[] = String.[]
strip_return (String.◌∷◌ c s) =
    if eqb (code c) b'\r' && (s == "") then String.[] else String.◌∷◌ c (strip_return s)

-- `value.strip_prefix(p).unwrap_or(value)`
abbrev without_prefix : String → String → String
without_prefix p s = elim (strip_prefix p s) [ none ↦ s | some t ↦ t ]

-- What one line adds to the data.
unfoldable pub data_of_line : String → Option String
data_of_line line = if starts_with line ":" then none else elim (strip_prefix "data:" line) [
  | none ↦ none
  | some value ↦ some (without_prefix " " value)
]

unfoldable pub data_of_lines : List String → List String
data_of_lines [] = []
data_of_lines (l ∷ ls) =
    let rest = data_of_lines ls in
    elim (data_of_line (strip_return l)) [ none ↦ rest | some d ↦ d ∷ rest ]

-- `data.join("\n")`
unfoldable pub join : List String → String
join [] = ""
join (d ∷ []) = d
join (d ∷ e ∷ ds) = append d (append "\n" (join (e ∷ ds)))

-- Whether the trimmed data is the marker: white space, the marker and white space.
unfoldable pub is_done : String → Bool
is_done String.[] = false
is_done (String.◌∷◌ c s) =
    let rest = is_done s in
    if is_whitespace (code c)
    then rest
    else elim (strip_prefix "[DONE]" (String.◌∷◌ c s)) [ none ↦ false | some t ↦ is_blank t ]

-- `to_ascii_lowercase`, by the letters at the same places.
abbrev lower_char : String → String → Char → Char
lower_char (String.◌∷◌ u us) (String.◌∷◌ l ls) c =
    if eqb (code u) (code c) then l else lower_char us ls c
lower_char _ _ c = c

abbrev pub to_ascii_lowercase : String → String
to_ascii_lowercase String.[] = String.[]
to_ascii_lowercase (String.◌∷◌ c s) =
    String.◌∷◌ (lower_char "ABCDEFGHIJKLMNOPQRSTUVWXYZ" "abcdefghijklmnopqrstuvwxyz" c)
      (to_ascii_lowercase s)

abbrev unwrap_or_default : Option String → String
unwrap_or_default none = ""
unwrap_or_default (some s) = s

pub category_of_code : String → ErrorCategory
category_of_code code =
    if contains_text "insufficient_quota" code || contains_text "quota_exceeded" code
    then ErrorCategory.quota_exhausted
    else if contains_text "credit" code
    then ErrorCategory.credit_exhausted
    else if contains_text "rate" code
    then ErrorCategory.rate_limited
    else if contains_text "model" code
    then ErrorCategory.model_unavailable
    else if contains_text "auth" code || contains_text "key" code
    then ErrorCategory.authentication_failed
    else ErrorCategory.provider_unavailable

pub stream_message : ErrorCategory → String
stream_message ErrorCategory.quota_exhausted = "provider capacity is currently unavailable"
stream_message ErrorCategory.credit_exhausted = "provider capacity is currently unavailable"
stream_message ErrorCategory.spend_limit_exceeded = "provider capacity is currently unavailable"
stream_message ErrorCategory.rate_limited = "provider is temporarily rate limited"
stream_message ErrorCategory.concurrency_limited = "provider is temporarily rate limited"
stream_message ErrorCategory.authentication_failed = "provider credential is unavailable"
stream_message ErrorCategory.model_unavailable = "requested upstream model is unavailable"
stream_message ErrorCategory.provider_unavailable = "provider stream could not be completed"
stream_message ErrorCategory.unknown = "provider stream could not be completed"

-- At `now` seconds since the epoch.
pub sanitized_failure : ℕ → ErrorCategory → ProviderFailure
sanitized_failure now category = record {
  category = category;
  message = stream_message category;
  status = none;
  retry_at_unix = if retries category then some (retry_time now) else none;
}

-- `error` is a JSON value: only an object has a code.
abbrev code_of : {F : Type 0} → Json F → String
code_of error =
    to_ascii_lowercase
      (unwrap_or_default (and_then (and_then (as_object error) (get "code")) as_str))

pub sanitized_openai_error : {F : Type 0} → ℕ → Json F → ProviderFailure
sanitized_openai_error now error = sanitized_failure now (category_of_code (code_of error))

-- The libraries' part: UTF-8, JSON, and the chunk that a JSON value is (`OpenAiChatCompletionChunk`).
pub record Codec (F C : Type 0) : Type 0 where
  pub from_utf8 : List ℕ → Option String
  pub from_str : String → Option (Json F)
  pub from_value : Json F → Option C

module _ {F C : Type 0} (codec : Codec F C) (now : ℕ) where
  -- With the value parsed.
  unfoldable pub event_of_object :
      Json F → Fields F → Result (Option (InferenceStreamEvent C)) ErrorCategory
  event_of_object value object = elim (get "error" object) [
    | some error ↦ ok (some (failed (sanitized_openai_error now error)))
    | none ↦ ok_or (codec.from_value value) ErrorCategory.provider_unavailable >>= λ chunk.
        ok (some (frame chunk))
  ]

  unfoldable pub event_of_data : String → Result (Option (InferenceStreamEvent C)) ErrorCategory
  event_of_data text =
      if is_done text
      then ok (some completed)
      else (ok_or (codec.from_str text) ErrorCategory.provider_unavailable >>= λ value.
          ok_or (as_object value) ErrorCategory.provider_unavailable >>= λ object.
          event_of_object value object)

  unfoldable pub event_of_lines :
      List String → Result (Option (InferenceStreamEvent C)) ErrorCategory
  event_of_lines [] = ok none
  event_of_lines (d ∷ ds) = event_of_data (join (d ∷ ds))

  unfoldable pub decode_frame : List ℕ → Result (Option (InferenceStreamEvent C)) ErrorCategory
  decode_frame bytes = do
    text ← ok_or (codec.from_utf8 bytes) ErrorCategory.provider_unavailable
    event_of_lines (data_of_lines (lines text))
