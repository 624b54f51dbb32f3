-- ===== src/Domain/Evidence/Tests.antt =====
-- Evidence at concrete quantities.
use smart_llm_gateway.Prelude.{◌≡◌, String, Option, none, some, [], ◌∷◌, ok, All, ◌↔◌}
use smart_llm_gateway.Prelude.Int.{pos}
use smart_llm_gateway.Domain.Evidence.{
  ProviderUnit, ProviderUnitKind, ProviderAuthoritativeEvidence, validate_for_account,
}
use smart_llm_gateway.Domain.Evidence.Laws.{IsSnapshot, IsBillingIfAny, validate_for_account_iff}

abbrev currency : Option String → ProviderUnit
currency code = record {
  kind = ProviderUnitKind.currency;
  currency_code = code;
  custom_name = none;
}

abbrev evidence : ProviderAuthoritativeEvidence
evidence = record {
  quota_snapshots = [];
  billing = some (record {
    provider_request_id = none;
    billed_units =
        record { unit = currency (some "USD"); value = record { unscaled = pos 125; scale = 2 } }
        ∷ [];
    charge = none;
    source = record { source_id = "provider.usage"; evidence_version = none };
  });
}

validate_for_account_iff_example : (validate_for_account evidence "account" ≡ ok tt) ↔ (
    All (λ s. IsSnapshot s × (s.provider_account_id ≡ "account")) evidence.quota_snapshots
    × IsBillingIfAny evidence.billing)
validate_for_account_iff_example = validate_for_account_iff evidence "account"
