-- ===== src/Storage/Postgres/Accounting/Tests.antt =====
-- A billing record written to both control planes (crates/slg-adapter-storage-postgres/src/lib.rs).
use smart_llm_gateway.Prelude.{◌≡◌, refl, none, [], ◌∷◌, arith}
use smart_llm_gateway.Prelude.Int.{pos}
use smart_llm_gateway.Domain.Evidence.{ProviderUnitKind, ProviderBillingRecord}
use smart_llm_gateway.Storage.Sqlite.Accounting.{Accounting}
use smart_llm_gateway.Storage.Sqlite.Accounting as Sqlite
use smart_llm_gateway.Storage.Postgres.Accounting.Columns.{
  is_billing_text, is_unit_text, billing_columns, unit_columns, is_text, is_text_if_any,
}
use smart_llm_gateway.Storage.Postgres.Accounting.{record_billing_record}
use smart_llm_gateway.Storage.Postgres.Accounting.Parity.{accepted, record_billing_record_parity}

abbrev billing : ProviderBillingRecord
billing = record {
  record_id = "record";
  attempt_id = "attempt";
  provider_account_id = "account";
  provider_request_id = none;
  billed_units =
      record {
        unit = record {
          kind = ProviderUnitKind.total_tokens;
          currency_code = none;
          custom_name = none;
        };
        value = record { unscaled = pos 19; scale = 0 };
      }
      ∷ [];
  charge = none;
  observed_at_unix = pos 10;
  fresh_until_unix = pos 10;
  source = record { source_id = "provider.usage"; evidence_version = none };
}

abbrev tables : Accounting
tables = record {
  accounts = "account" ∷ [];
  attempts = "attempt" ∷ [];
  quotas = [];
  billings = [];
  units = [];
}

record_billing_record_parity_example :
    accepted (record_billing_record billing tables)
    ≡ accepted (Sqlite.record_billing_record billing tables)
unfolding is_billing_text is_unit_text billing_columns unit_columns is_text is_text_if_any
record_billing_record_parity_example =
    record_billing_record_parity billing tables (omega arith) (refl, (refl, tt))
