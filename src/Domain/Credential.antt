-- ===== src/Domain/Credential.antt =====
-- References to environment variables (crates/slg-domain/src/lib.rs, `CredentialReference`), and the
-- resolver over the environment (crates/slg-adapter-secrets/src/lib.rs).
pub mod Laws
pub mod Tests
use Prim.Native.Char.{code}
use Prim.Native.String.{◌++◌}
use smart_llm_gateway.Prelude.{
  ℕ, String, Bool, ◌&&◌, ◌||◌, not, Option, none, some, eqb, Result, ok, err, map_err, ok_or,
  if◌then◌else◌,
}
use smart_llm_gateway.Prelude.Texts.{
  all_chars, is_ascii_alphabetic, is_ascii_alphanumeric, strip_prefix,
}

pub data CredentialReferenceError : Type 0 where
  invalid_format invalid_environment_name : CredentialReferenceError

-- The newtype's text; its field is private to the crate, so values come from `parse`.
pub record CredentialReference : Type 0 where
  pub text : String

unfoldable pub is_first : ℕ → Bool
is_first c = eqb c b'_' || is_ascii_alphabetic c

unfoldable pub is_later : ℕ → Bool
is_later c = eqb c b'_' || is_ascii_alphanumeric c

-- The part of `parse` behind the prefix.
unfoldable pub parse_name : String → Result CredentialReference CredentialReferenceError
parse_name String.[] = err invalid_format
parse_name (String.◌∷◌ c rest) =
    if not (is_first (code c)) || not (all_chars is_later rest)
    then err invalid_environment_name
    else ok (record { text = "env:" ++ String.◌∷◌ c rest })

unfoldable pub parse_stripped : Option String → Result CredentialReference CredentialReferenceError
parse_stripped none = err invalid_format
parse_stripped (some name) = parse_name name

unfoldable pub parse : String → Result CredentialReference CredentialReferenceError
parse value = parse_stripped (strip_prefix "env:" value)

-- `as_str`
unfoldable pub as_str : CredentialReference → String
as_str r = r.text

-- `unwrap_or_default`
abbrev pub or_default : Option String → String
or_default none = ""
or_default (some s) = s

-- `environment_name`: `strip_prefix("env:").unwrap_or_default()`
unfoldable pub environment_name : CredentialReference → String
environment_name r = or_default (strip_prefix "env:" r.text)

-- `EnvironmentSecretResolver::resolve`, over the variables of the process.
unfoldable pub resolve : (String → Option String) → CredentialReference → Result String String
resolve variable r =
    ok_or (variable (environment_name r)) "configured credential environment variable is not set"
