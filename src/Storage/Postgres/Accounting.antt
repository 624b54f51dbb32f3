-- ===== src/Storage/Postgres/Accounting.antt =====
-- Provider evidence in PostgreSQL (crates/slg-adapter-storage-postgres/src/lib.rs). Its tables have the
-- columns of SQLite's, and it reads rows as SQLite does (`provider_unit`, `fixed_decimal`), with the same
-- texts; errors of the database get a fixed text.
pub mod Columns
pub mod Parity
pub mod Tests
use smart_llm_gateway.Prelude.{
  ℕ, suc, String, leb, Option, List, [], ◌∷◌, ◌==◌, filter, Result, ok, map_err, guard, ◌>>=◌, ◌>>◌,
}
use smart_llm_gateway.Domain.Evidence.{
  ProviderReportedQuantity, ProviderQuotaSnapshot, ProviderBillingRecord, validate_snapshot,
  validate_record,
}
use smart_llm_gateway.Storage.Sqlite.Accounting.Rows.{data_error, BillingRow, UnitRow}
use smart_llm_gateway.Storage.Sqlite.Accounting.{
  Accounting, newest_first, collect_snapshots, oldest_first, collect_billings,
}
use smart_llm_gateway.Storage.Postgres.Administration.{i32_max}
use smart_llm_gateway.Storage.Postgres.Accounting.Columns.{
  quota_columns, billing_columns, unit_columns, insert_snapshot, insert_record, insert_billed_unit,
}

unfoldable pub record_quota_snapshot : ProviderQuotaSnapshot → Accounting → Result Accounting String
record_quota_snapshot s a =
    map_err data_error (validate_snapshot s) >> insert_snapshot (quota_columns s) a

-- The loop over `billed_units.iter().enumerate()`, whose index has to fit an INTEGER.
unfoldable pub insert_billed_units :
    List BillingRow
    → String
    → ℕ
    → List ProviderReportedQuantity
    → List UnitRow
    → Result (List UnitRow) String
insert_billed_units billings id i [] rows = ok rows
insert_billed_units billings id i (q ∷ qs) rows =
    guard (leb i i32_max) "too many provider-reported billing units"
    >> (insert_billed_unit (unit_columns id i q) billings rows >>= λ rows'.
        insert_billed_units billings id (suc i) qs rows')

-- One transaction, so that an error leaves the tables as they were.
unfoldable pub record_billing_record : ProviderBillingRecord → Accounting → Result Accounting String
record_billing_record r a =
    map_err data_error (validate_record r)
    >> (insert_record (billing_columns r) a >>= λ a'.
        insert_billed_units a'.billings r.record_id 0 r.billed_units a'.units >>= λ rows.
        ok (record a' { units = rows }))

unfoldable pub quota_snapshots : String → Accounting → Result (List ProviderQuotaSnapshot) String
quota_snapshots account a =
    collect_snapshots (newest_first (filter (λ x. x.provider_account_id == account) a.quotas))

unfoldable pub billing_records :
    (String → Option String) → String → Accounting → Result (List ProviderBillingRecord) String
billing_records parse_attempt_id attempt a =
    collect_billings parse_attempt_id a.units
      (oldest_first (filter (λ x. x.attempt_id == attempt) a.billings))
