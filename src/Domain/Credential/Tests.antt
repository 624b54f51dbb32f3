-- ===== src/Domain/Credential/Tests.antt =====
-- Credential references at concrete texts.
use Prim.Native.String.{◌++◌}
use smart_llm_gateway.Prelude.{◌≡◌, refl, ok, err}
use smart_llm_gateway.Domain.Credential.{
  CredentialReference, invalid_environment_name, parse, parse_stripped, parse_name, is_first,
  is_later, as_str, environment_name,
}
use smart_llm_gateway.Domain.Credential.Laws.{is_first_iff, all_later_iff, parse_complete}

rejects_digit : parse "env:9KEY" ≡ err invalid_environment_name
unfolding parse parse_stripped parse_name is_first
rejects_digit = refl

parse_complete_example :
    (r : CredentialReference) × (parse ("env:" ++ "API_KEY_2") ≡ ok r)
    × (as_str r ≡ "env:" ++ "API_KEY_2")
    × (environment_name r ≡ "API_KEY_2")
unfolding is_first is_later
parse_complete_example =
    parse_complete "API_KEY_2" ((is_first_iff b'A').0 refl, (all_later_iff "PI_KEY_2").0 refl)
