-- ===== src/Storage/Postgres/Accounting/Columns.antt =====
-- The statements that write provider evidence to PostgreSQL
-- (crates/slg-adapter-storage-postgres/src/lib.rs): their parameters, and their effect on the rows. TEXT
-- holds no U+0000; a SMALLINT holds every `u8`.
use smart_llm_gateway.Prelude.{
  ℕ, String, Bool, true, false, ◌&&◌, not, Option, none, some, List, [], ◌∷◌, ◌==◌, eqb, map,
  contains, and_then, Result, ok, guard, ◌>>◌, if◌then◌else◌,
}
use smart_llm_gateway.Prelude.Texts.{all_chars}
use smart_llm_gateway.Prelude.Int.{ℤ, pos}
use smart_llm_gateway.Domain.Evidence.{
  FixedDecimal, ProviderReportedQuantity, ProviderQuotaSnapshot, ProviderBillingRecord,
}
use smart_llm_gateway.Storage.Sqlite.Accounting.Rows.{unit_kind_name, QuotaRow, BillingRow, UnitRow}
use smart_llm_gateway.Storage.Sqlite.Accounting.{Accounting}

-- Whether the text is one that a TEXT column holds.
unfoldable pub is_text : String → Bool
is_text s = all_chars (λ c. not (eqb c 0)) s

unfoldable pub is_text_if_any : Option String → Bool
is_text_if_any none = true
is_text_if_any (some s) = is_text s

-- `value.map(|value| value.unscaled)` and `value.map(|value| i16::from(value.scale))`
abbrev pub unscaled_column : Option FixedDecimal → Option ℤ
unscaled_column value = and_then value (λ d. some d.unscaled)

abbrev pub scale_column : Option FixedDecimal → Option ℤ
scale_column value = and_then value (λ d. some (pos d.scale))

-- The parameters of `INSERT INTO provider_quota_snapshots`.
unfoldable pub quota_columns : ProviderQuotaSnapshot → QuotaRow
quota_columns snapshot = record {
  id = snapshot.snapshot_id;
  provider_account_id = snapshot.provider_account_id;
  constraint_id = snapshot.constraint_id;
  unit_kind = unit_kind_name snapshot.unit.kind;
  currency_code = snapshot.unit.currency_code;
  custom_name = snapshot.unit.custom_name;
  allowance_unscaled = unscaled_column snapshot.allowance;
  allowance_scale = scale_column snapshot.allowance;
  consumed_unscaled = unscaled_column snapshot.consumed;
  consumed_scale = scale_column snapshot.consumed;
  remaining_unscaled = unscaled_column snapshot.remaining;
  remaining_scale = scale_column snapshot.remaining;
  reset_at = snapshot.reset_at_unix;
  observed_at = snapshot.observed_at_unix;
  fresh_until = snapshot.fresh_until_unix;
  source_id = snapshot.source.source_id;
  evidence_version = snapshot.source.evidence_version;
}

-- The parameters of `INSERT INTO provider_billing_records`.
unfoldable pub billing_columns : ProviderBillingRecord → BillingRow
billing_columns r = record {
  id = r.record_id;
  attempt_id = r.attempt_id;
  provider_account_id = r.provider_account_id;
  provider_request_id = r.provider_request_id;
  charge_unit_kind = and_then r.charge (λ value. some (unit_kind_name value.unit.kind));
  charge_currency_code = and_then r.charge (λ value. value.unit.currency_code);
  charge_custom_name = and_then r.charge (λ value. value.unit.custom_name);
  charge_unscaled = and_then r.charge (λ value. some value.value.unscaled);
  charge_scale = and_then r.charge (λ value. some (pos value.value.scale));
  observed_at = r.observed_at_unix;
  fresh_until = r.fresh_until_unix;
  source_id = r.source.source_id;
  evidence_version = r.source.evidence_version;
}

-- The parameters of `INSERT INTO provider_billing_units`.
unfoldable pub unit_columns : String → ℕ → ProviderReportedQuantity → UnitRow
unit_columns record_id index quantity = record {
  billing_record_id = record_id;
  unit_index = index;
  unit_kind = unit_kind_name quantity.unit.kind;
  currency_code = quantity.unit.currency_code;
  custom_name = quantity.unit.custom_name;
  value_unscaled = quantity.value.unscaled;
  value_scale = pos quantity.value.scale;
}

unfoldable pub is_quota_text : QuotaRow → Bool
is_quota_text x =
    is_text x.id
    && (is_text x.provider_account_id
        && (is_text x.constraint_id
            && (is_text_if_any x.currency_code
                && (is_text_if_any x.custom_name
                    && (is_text x.source_id && is_text_if_any x.evidence_version)))))

unfoldable pub is_billing_text : BillingRow → Bool
is_billing_text x =
    is_text x.id
    && (is_text x.attempt_id
        && (is_text x.provider_account_id
            && (is_text_if_any x.provider_request_id
                && (is_text_if_any x.charge_currency_code
                    && (is_text_if_any x.charge_custom_name
                        && (is_text x.source_id && is_text_if_any x.evidence_version))))))

unfoldable pub is_unit_text : UnitRow → Bool
is_unit_text x =
    is_text x.billing_record_id && (is_text_if_any x.currency_code && is_text_if_any x.custom_name)

abbrev pub quota_failed : String
quota_failed = "PostgreSQL authoritative quota persistence failed"

abbrev pub billing_failed : String
billing_failed = "PostgreSQL authoritative billing persistence failed"

abbrev pub unit_failed : String
unit_failed = "PostgreSQL authoritative billing unit persistence failed"

-- `ON CONFLICT (id) DO NOTHING`; a new row refers to an account.
unfoldable pub insert_snapshot : QuotaRow → Accounting → Result Accounting String
insert_snapshot x a =
    guard (is_quota_text x) quota_failed
    >> (if contains x.id (map (λ y. y.id) a.quotas)
        then ok a
        else (guard (contains x.provider_account_id a.accounts) quota_failed
            >> ok (record a { quotas = x ∷ a.quotas })))

-- `ON CONFLICT (id) DO NOTHING`; a new row refers to an attempt and an account.
unfoldable pub insert_record : BillingRow → Accounting → Result Accounting String
insert_record x a =
    guard (is_billing_text x) billing_failed
    >> (if contains x.id (map (λ y. y.id) a.billings)
        then ok a
        else (guard (contains x.attempt_id a.attempts) billing_failed
            >> (guard (contains x.provider_account_id a.accounts) billing_failed
                >> ok (record a { billings = x ∷ a.billings }))))

-- Whether a row has the primary key.
unfoldable pub has_key : String → ℕ → List UnitRow → Bool
has_key record_id index [] = false
has_key record_id index (x ∷ xs) =
    if eqb x.unit_index index && (x.billing_record_id == record_id)
    then true
    else has_key record_id index xs

-- `ON CONFLICT (billing_record_id, unit_index) DO NOTHING`; a new row refers to a billing record.
unfoldable pub insert_billed_unit :
    UnitRow → List BillingRow → List UnitRow → Result (List UnitRow) String
insert_billed_unit x billings rows =
    guard (is_unit_text x) unit_failed
    >> (if has_key x.billing_record_id x.unit_index rows
        then ok rows
        else (guard (contains x.billing_record_id (map (λ y. y.id) billings)) unit_failed
            >> ok (x ∷ rows)))
