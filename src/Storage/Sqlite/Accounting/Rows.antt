-- ===== src/Storage/Sqlite/Accounting/Rows.antt =====
-- Provider evidence as the columns of SQLite and back (`unit_kind_name`, `provider_unit`,
-- `fixed_decimal` and the row closures, crates/slg-adapter-storage-sqlite/src/lib.rs).
use smart_llm_gateway.Prelude.{
  ℕ, String, leb, Option, none, some, List, ◌==◌, Result, ok, err, map_err, ok_or, ◌>>=◌, ◌>>◌,
  if◌then◌else◌,
}
use smart_llm_gateway.Prelude.Int.{ℤ, pos, negsuc}
use smart_llm_gateway.Domain.Evidence.{
  FixedDecimal, ProviderUnitKind, ProviderUnit, ProviderReportedQuantity, ProviderQuotaSnapshot,
  ProviderBillingRecord, AuthoritativeDataError, missing_identifier, missing_source, invalid_unit,
  missing_reported_value, invalid_freshness, charge_must_use_currency, mismatched_provider_account,
  validate_unit, validate_snapshot, validate_record,
}

-- `to_string` of the error.
abbrev pub data_error : AuthoritativeDataError → String
data_error missing_identifier = "authoritative provider data requires a non-empty identifier"
data_error missing_source = "authoritative provider data requires a source identifier"
data_error invalid_unit = "provider-reported unit metadata is invalid"
data_error missing_reported_value =
    "authoritative provider data requires at least one reported value"
data_error invalid_freshness = "authoritative provider data has an invalid freshness window"
data_error charge_must_use_currency =
    "a provider-reported charge must use an explicit currency unit"
data_error mismatched_provider_account =
    "provider-authoritative evidence belongs to a different provider account"

unfoldable pub unit_kind_name : ProviderUnitKind → String
unit_kind_name ProviderUnitKind.requests = "requests"
unit_kind_name ProviderUnitKind.input_tokens = "input_tokens"
unit_kind_name ProviderUnitKind.cached_input_tokens = "cached_input_tokens"
unit_kind_name ProviderUnitKind.output_tokens = "output_tokens"
unit_kind_name ProviderUnitKind.reasoning_tokens = "reasoning_tokens"
unit_kind_name ProviderUnitKind.total_tokens = "total_tokens"
unit_kind_name ProviderUnitKind.concurrent_requests = "concurrent_requests"
unit_kind_name ProviderUnitKind.currency = "currency"
unit_kind_name ProviderUnitKind.custom = "custom"

-- The `match` of `provider_unit`.
unfoldable pub unit_kind_of : String → Option ProviderUnitKind
unit_kind_of k =
    if k == "requests"
    then some ProviderUnitKind.requests
    else if k == "input_tokens"
    then some ProviderUnitKind.input_tokens
    else if k == "cached_input_tokens"
    then some ProviderUnitKind.cached_input_tokens
    else if k == "output_tokens"
    then some ProviderUnitKind.output_tokens
    else if k == "reasoning_tokens"
    then some ProviderUnitKind.reasoning_tokens
    else if k == "total_tokens"
    then some ProviderUnitKind.total_tokens
    else if k == "concurrent_requests"
    then some ProviderUnitKind.concurrent_requests
    else if k == "currency"
    then some ProviderUnitKind.currency
    else if k == "custom"
    then some ProviderUnitKind.custom
    else none

unfoldable pub provider_unit : String → Option String → Option String → Result ProviderUnit String
provider_unit k code name = ok_or (unit_kind_of k) "invalid stored provider unit" >>= λ kind.
    map_err data_error
      (validate_unit (record { kind = kind; currency_code = code; custom_name = name }))
    >> ok (record { kind = kind; currency_code = code; custom_name = name })

-- `u8::try_from`
unfoldable pub scale_of : ℤ → Result ℕ String
scale_of (pos n) = if leb n 255 then ok n else err "invalid stored decimal scale"
scale_of (negsuc n) = err "invalid stored decimal scale"

unfoldable pub fixed_decimal : Option ℤ → Option ℤ → Result (Option FixedDecimal) String
fixed_decimal none none = ok none
fixed_decimal (some u) (some s) = scale_of s >>= λ n. ok (some (record { unscaled = u; scale = n }))
fixed_decimal _ _ = err "invalid stored decimal value"

-- `value.map(|value| value.unscaled)` and `value.map(|value| i64::from(value.scale))`
abbrev pub unscaled_of : Option FixedDecimal → Option ℤ
unscaled_of none = none
unscaled_of (some d) = some d.unscaled

abbrev pub scale_column : Option FixedDecimal → Option ℤ
scale_column none = none
scale_column (some d) = some (pos d.scale)

-- `provider_quota_snapshots`
pub record QuotaRow : Type 0 where
  pub id : String
  pub provider_account_id : String
  pub constraint_id : String
  pub unit_kind : String
  pub currency_code : Option String
  pub custom_name : Option String
  pub allowance_unscaled : Option ℤ
  pub allowance_scale : Option ℤ
  pub consumed_unscaled : Option ℤ
  pub consumed_scale : Option ℤ
  pub remaining_unscaled : Option ℤ
  pub remaining_scale : Option ℤ
  pub reset_at : Option ℤ
  pub observed_at : ℤ
  pub fresh_until : ℤ
  pub source_id : String
  pub evidence_version : Option String

-- The parameters of the insertion.
unfoldable pub quota_row : ProviderQuotaSnapshot → QuotaRow
quota_row s = record {
  id = s.snapshot_id;
  provider_account_id = s.provider_account_id;
  constraint_id = s.constraint_id;
  unit_kind = unit_kind_name s.unit.kind;
  currency_code = s.unit.currency_code;
  custom_name = s.unit.custom_name;
  allowance_unscaled = unscaled_of s.allowance;
  allowance_scale = scale_column s.allowance;
  consumed_unscaled = unscaled_of s.consumed;
  consumed_scale = scale_column s.consumed;
  remaining_unscaled = unscaled_of s.remaining;
  remaining_scale = scale_column s.remaining;
  reset_at = s.reset_at_unix;
  observed_at = s.observed_at_unix;
  fresh_until = s.fresh_until_unix;
  source_id = s.source.source_id;
  evidence_version = s.source.evidence_version;
}

-- `snapshot.validate()…; Ok(snapshot)`
unfoldable pub validated : ProviderQuotaSnapshot → Result ProviderQuotaSnapshot String
validated s = map_err data_error (validate_snapshot s) >> ok s

-- The closure of `quota_snapshots_internal`.
unfoldable pub snapshot_of : QuotaRow → Result ProviderQuotaSnapshot String
snapshot_of x = do
  unit ← provider_unit x.unit_kind x.currency_code x.custom_name
  allowance ← fixed_decimal x.allowance_unscaled x.allowance_scale
  consumed ← fixed_decimal x.consumed_unscaled x.consumed_scale
  remaining ← fixed_decimal x.remaining_unscaled x.remaining_scale
  validated (record {
    snapshot_id = x.id;
    provider_account_id = x.provider_account_id;
    constraint_id = x.constraint_id;
    unit = unit;
    allowance = allowance;
    consumed = consumed;
    remaining = remaining;
    reset_at_unix = x.reset_at;
    observed_at_unix = x.observed_at;
    fresh_until_unix = x.fresh_until;
    source = record { source_id = x.source_id; evidence_version = x.evidence_version };
  })

-- `provider_billing_units`
pub record UnitRow : Type 0 where
  pub billing_record_id : String
  pub unit_index : ℕ
  pub unit_kind : String
  pub currency_code : Option String
  pub custom_name : Option String
  pub value_unscaled : ℤ
  pub value_scale : ℤ

unfoldable pub unit_row : String → ℕ → ProviderReportedQuantity → UnitRow
unit_row id i q = record {
  billing_record_id = id;
  unit_index = i;
  unit_kind = unit_kind_name q.unit.kind;
  currency_code = q.unit.currency_code;
  custom_name = q.unit.custom_name;
  value_unscaled = q.value.unscaled;
  value_scale = pos q.value.scale;
}

-- The closure of `load_billed_units`.
unfoldable pub unit_of : UnitRow → Result ProviderReportedQuantity String
unit_of x = do
  unit ← provider_unit x.unit_kind x.currency_code x.custom_name
  decimal ← fixed_decimal (some x.value_unscaled) (some x.value_scale)
  value ← ok_or decimal "missing billing unit value"
  ok (record { unit = unit; value = value })

-- `provider_billing_records`
pub record BillingRow : Type 0 where
  pub id : String
  pub attempt_id : String
  pub provider_account_id : String
  pub provider_request_id : Option String
  pub charge_unit_kind : Option String
  pub charge_currency_code : Option String
  pub charge_custom_name : Option String
  pub charge_unscaled : Option ℤ
  pub charge_scale : Option ℤ
  pub observed_at : ℤ
  pub fresh_until : ℤ
  pub source_id : String
  pub evidence_version : Option String

abbrev pub charge_column :
    {A : Type 0}
    → (ProviderReportedQuantity → Option A)
    → Option ProviderReportedQuantity
    → Option A
charge_column f none = none
charge_column f (some q) = f q

unfoldable pub billing_row : ProviderBillingRecord → BillingRow
billing_row r = record {
  id = r.record_id;
  attempt_id = r.attempt_id;
  provider_account_id = r.provider_account_id;
  provider_request_id = r.provider_request_id;
  charge_unit_kind = charge_column (λ q. some (unit_kind_name q.unit.kind)) r.charge;
  charge_currency_code = charge_column (λ q. q.unit.currency_code) r.charge;
  charge_custom_name = charge_column (λ q. q.unit.custom_name) r.charge;
  charge_unscaled = charge_column (λ q. some q.value.unscaled) r.charge;
  charge_scale = charge_column (λ q. some (pos q.value.scale)) r.charge;
  observed_at = r.observed_at_unix;
  fresh_until = r.fresh_until_unix;
  source_id = r.source.source_id;
  evidence_version = r.source.evidence_version;
}

-- The `charge` of `billing_records_internal`.
unfoldable pub charge_of :
    BillingRow → Option String → Result (Option ProviderReportedQuantity) String
charge_of x none = ok none
charge_of x (some kind) = do
  unit ← provider_unit kind x.charge_currency_code x.charge_custom_name
  decimal ← fixed_decimal x.charge_unscaled x.charge_scale
  value ← ok_or decimal "missing provider-reported charge"
  ok (some (record { unit = unit; value = value }))

-- The rest of a round of `billing_records_internal`, once the units are loaded. `parse_attempt_id` is
-- `AttemptId::parse`, with the identifier as the text that it prints as.
unfoldable pub billing_of :
    (String → Option String)
    → BillingRow
    → List ProviderReportedQuantity
    → Result ProviderBillingRecord String
billing_of parse_attempt_id x units = charge_of x x.charge_unit_kind >>= λ charge.
    ok_or (parse_attempt_id x.attempt_id) "invalid stored attempt identifier" >>= λ attempt_id.
    let r : ProviderBillingRecord = record {
      record_id = x.id;
      attempt_id = attempt_id;
      provider_account_id = x.provider_account_id;
      provider_request_id = x.provider_request_id;
      billed_units = units;
      charge = charge;
      observed_at_unix = x.observed_at;
      fresh_until_unix = x.fresh_until;
      source = record { source_id = x.source_id; evidence_version = x.evidence_version };
    } in
    map_err data_error (validate_record r) >> ok r
