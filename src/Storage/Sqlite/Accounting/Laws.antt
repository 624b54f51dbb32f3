-- ===== src/Storage/Sqlite/Accounting/Laws.antt =====
-- Provider evidence survives storage (crates/slg-adapter-storage-sqlite/src/lib.rs).
use smart_llm_gateway.Prelude.{
  ℕ, ◌≤◌, String, ◌≡◌, refl, Option, none, some, ok, map_err, ◌>>◌, arith,
}
use smart_llm_gateway.Domain.Evidence.{
  FixedDecimal, ProviderUnitKind, ProviderUnit, ProviderReportedQuantity, ProviderQuotaSnapshot,
  ProviderBillingRecord, validate_unit, validate_quantity, validate_charge, validate_values,
  validate_snapshot, validate_record,
}
use smart_llm_gateway.Storage.Sqlite.Accounting.Rows.{
  data_error, unit_kind_name, unit_kind_of, provider_unit, scale_of, fixed_decimal, unscaled_of,
  scale_column, quota_row, snapshot_of, validated, billing_row, charge_of, billing_of, unit_row,
  unit_of,
}

-- A scale is a `u8`.
abbrev pub IsScale : Option FixedDecimal → Type 0
IsScale none = Unit
IsScale (some d) = d.scale ≤ 255

unit_kind_of-name : (k : ProviderUnitKind) → unit_kind_of (unit_kind_name k) ≡ some k
unfolding unit_kind_of unit_kind_name
unit_kind_of-name ProviderUnitKind.requests = refl
unit_kind_of-name ProviderUnitKind.input_tokens = refl
unit_kind_of-name ProviderUnitKind.cached_input_tokens = refl
unit_kind_of-name ProviderUnitKind.output_tokens = refl
unit_kind_of-name ProviderUnitKind.reasoning_tokens = refl
unit_kind_of-name ProviderUnitKind.total_tokens = refl
unit_kind_of-name ProviderUnitKind.concurrent_requests = refl
unit_kind_of-name ProviderUnitKind.currency = refl
unit_kind_of-name ProviderUnitKind.custom = refl

-- A valid unit is read back as it was written.
pub provider_unit-name :
    (u : ProviderUnit)
    → validate_unit u ≡ ok tt
    → provider_unit (unit_kind_name u.kind) u.currency_code u.custom_name ≡ ok u
unfolding provider_unit
provider_unit-name u h = rw (unit_kind_of-name u.kind, h) refl

-- So is a decimal, given or not, whose scale is a `u8`.
fixed_decimal-columns :
    (o : Option FixedDecimal) → IsScale o → fixed_decimal (unscaled_of o) (scale_column o) ≡ ok o
unfolding fixed_decimal scale_of
fixed_decimal-columns none h = refl
fixed_decimal-columns (some d) h = ground arith

unit_valid :
    (s : ProviderQuotaSnapshot) → validate_snapshot s ≡ ok tt → validate_unit s.unit ≡ ok tt
unfolding validate_snapshot
unit_valid s h = ground arith

-- A valid snapshot whose scales are `u8` is read back from its row as it was written.
pub snapshot_of-quota_row :
    (s : ProviderQuotaSnapshot)
    → validate_snapshot s ≡ ok tt
    → IsScale s.allowance
    → IsScale s.consumed
    → IsScale s.remaining
    → snapshot_of (quota_row s) ≡ ok s
unfolding snapshot_of quota_row validated
snapshot_of-quota_row s h a c r =
    rw
      (
        provider_unit-name s.unit (unit_valid s h),
        fixed_decimal-columns s.allowance a,
        fixed_decimal-columns s.consumed c,
        fixed_decimal-columns s.remaining r,
        h,
      )
      refl

-- The scale of a charge, if there is one, is a `u8`.
abbrev pub IsChargeScale : Option ProviderReportedQuantity → Type 0
IsChargeScale none = Unit
IsChargeScale (some q) = q.value.scale ≤ 255

abbrev ChargeValid : Option ProviderReportedQuantity → Type 0
ChargeValid none = Unit
ChargeValid (some q) = validate_unit q.unit ≡ ok tt

validate_charge_valid :
    (c : Option ProviderReportedQuantity) → validate_charge c ≡ ok tt → ChargeValid c
unfolding validate_charge validate_quantity
validate_charge_valid none h = tt
validate_charge_valid (some q) h = ground arith

charge_valid :
    (r : ProviderBillingRecord) → validate_record r ≡ ok tt → validate_charge r.charge ≡ ok tt
unfolding validate_record validate_values
charge_valid r h = ground arith

charge_of-billing_row :
    (r : ProviderBillingRecord)
    → (c : Option ProviderReportedQuantity) → r.charge ≡ c
    → ChargeValid c
    → IsChargeScale c
    → charge_of (billing_row r) (billing_row r).charge_unit_kind ≡ ok r.charge
unfolding charge_of billing_row
charge_of-billing_row r none e v s = rw e refl
charge_of-billing_row r (some q) e v s =
    rw e (rw (provider_unit-name q.unit v, fixed_decimal-columns (some q.value) s) refl)

-- A valid billing record, the scale of whose charge is a `u8` and whose attempt's identifier parses to
-- itself, is read back from its row and its units as it was written.
pub billing_of-billing_row :
    (parse_attempt_id : String → Option String) (r : ProviderBillingRecord)
    → validate_record r ≡ ok tt
    → IsChargeScale r.charge
    → parse_attempt_id r.attempt_id ≡ some r.attempt_id
    → billing_of parse_attempt_id (billing_row r) r.billed_units ≡ ok r
unfolding billing_of billing_row
billing_of-billing_row parse_attempt_id r h s i =
    rw
      (
        charge_of-billing_row r r.charge refl (validate_charge_valid r.charge (charge_valid r h)) s,
        i,
      )
      (rest)
  where
    rest : (map_err data_error (validate_record r) >> ok r) ≡ ok r
    rest = rw h refl

-- A valid unit of a billing record, whose scale is a `u8`, is read back from its row as it was written.
pub unit_of-unit_row :
    (id : String) (i : ℕ) (q : ProviderReportedQuantity)
    → validate_unit q.unit ≡ ok tt
    → q.value.scale ≤ 255
    → unit_of (unit_row id i q) ≡ ok q
unfolding unit_of unit_row
unit_of-unit_row id i q v s =
    rw (provider_unit-name q.unit v, fixed_decimal-columns (some q.value) s) refl
