-- ===== src/Storage/Sqlite/Accounting/Tests.antt =====
-- Provider evidence in SQLite at concrete values.
use smart_llm_gateway.Prelude.{◌≡◌, refl, some, none, [], ◌∷◌, ok, arith}
use smart_llm_gateway.Prelude.Int.{pos}
use smart_llm_gateway.Prelude.Texts.{is_whitespace}
use smart_llm_gateway.Domain.Evidence.{
  ProviderUnitKind, ProviderReportedQuantity, ProviderQuotaSnapshot, ProviderBillingRecord,
  validate_snapshot, validate_record, validate_values, validate_quantities, validate_quantity,
  validate_charge, non_empty_identifiers, validate_unit, validate_kind, validate_source,
}
use smart_llm_gateway.Storage.Sqlite.Accounting.Rows.{
  quota_row, snapshot_of, billing_row, billing_of,
}
use smart_llm_gateway.Storage.Sqlite.Accounting.Laws.{snapshot_of-quota_row, billing_of-billing_row}

abbrev snapshot : ProviderQuotaSnapshot
snapshot = record {
  snapshot_id = "snapshot";
  provider_account_id = "account";
  constraint_id = "daily";
  unit = record { kind = ProviderUnitKind.requests; currency_code = none; custom_name = none };
  allowance = some (record { unscaled = pos 100; scale = 0 });
  consumed = none;
  remaining = none;
  reset_at_unix = none;
  observed_at_unix = pos 10;
  fresh_until_unix = pos 20;
  source = record { source_id = "provider.headers"; evidence_version = none };
}

snapshot_of-quota_row_example : snapshot_of (quota_row snapshot) ≡ ok snapshot
unfolding validate_snapshot non_empty_identifiers validate_unit validate_kind validate_source
    is_whitespace
snapshot_of-quota_row_example = snapshot_of-quota_row snapshot refl (omega arith) tt tt

abbrev tokens : ProviderReportedQuantity
tokens = record {
  unit = record { kind = ProviderUnitKind.total_tokens; currency_code = none; custom_name = none };
  value = record { unscaled = pos 8; scale = 0 };
}

abbrev cost : ProviderReportedQuantity
cost = record {
  unit = record {
    kind = ProviderUnitKind.currency;
    currency_code = some "USD";
    custom_name = none;
  };
  value = record { unscaled = pos 125; scale = 2 };
}

abbrev billing : ProviderBillingRecord
billing = record {
  record_id = "record";
  attempt_id = "attempt";
  provider_account_id = "account";
  provider_request_id = none;
  billed_units = tokens ∷ [];
  charge = some cost;
  observed_at_unix = pos 10;
  fresh_until_unix = pos 10;
  source = record { source_id = "provider.usage"; evidence_version = none };
}

billing_of-billing_row_example : billing_of some (billing_row billing) (tokens ∷ []) ≡ ok billing
unfolding validate_record validate_values validate_quantities validate_quantity validate_charge
    non_empty_identifiers validate_unit validate_kind validate_source is_whitespace
billing_of-billing_row_example = billing_of-billing_row some billing refl (omega arith) refl
