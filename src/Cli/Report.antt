-- ===== src/Cli/Report.antt =====
-- The accounting reports (`inspect_quota`, `inspect_billing`, crates/smart-llm-gateway/src/main.rs).
pub mod Laws
use smart_llm_gateway.Prelude.{
  ℕ, String, Bool, true, false, Option, none, some, List, [], ◌∷◌, ◌==◌, map, filter, if◌then◌else◌,
}
use smart_llm_gateway.Prelude.Int.{ℤ, pos, negsuc, leb_ℤ}
use smart_llm_gateway.Prelude.Json.{
  Json, null, number, string, array, object, natural, negative, Items, nil, cons, field, end,
}
use smart_llm_gateway.Domain.Evidence.{
  FixedDecimal, ProviderUnit, AuthoritativeSource, ProviderReportedQuantity, ProviderQuotaSnapshot,
  ProviderBillingRecord,
}
use smart_llm_gateway.Storage.Sqlite.Accounting.Rows.{unit_kind_name}

-- The rest of the loop of `accounting_status`, which has met evidence or not.
unfoldable pub status_from : Bool → List ℤ → ℤ → String
status_from any_evidence [] evaluated_at = if any_evidence then "expired" else "absent"
status_from any_evidence (fresh_until ∷ later) evaluated_at =
    let rest = status_from true later evaluated_at in
    if leb_ℤ evaluated_at fresh_until then "current" else rest

unfoldable pub accounting_status : List ℤ → ℤ → String
accounting_status = status_from false

unfoldable pub evidence_status : ℤ → ℤ → String
evidence_status fresh_until evaluated_at =
    if leb_ℤ evaluated_at fresh_until then "current" else "expired"

module _ {F : Type 0} where
  abbrev integer : ℤ → Json F
  integer (pos n) = number (natural n)
  integer (negsuc n) = number (negative n)

  abbrev nullable : {A : Type 0} → (A → Json F) → Option A → Json F
  nullable f none = null
  nullable f (some a) = f a

  abbrev items : {A : Type 0} → (A → Json F) → List A → Items F
  items f [] = nil
  items f (a ∷ rest) = cons (f a) (items f rest)

  unfoldable pub status_semantics : Json F
  status_semantics = object (
      field "absent" (string "no persisted provider-authoritative evidence matched this query") (
        field "expired"
          (string
            "persisted evidence exists, but every fresh_until_unix timestamp precedes evaluated_at_unix")
          (field "current"
            (string
              "at least one persisted fresh_until_unix timestamp is at or after evaluated_at_unix")
            end)))

  -- `rename_all = "snake_case"` gives the kind the name that the tables have.
  unfoldable pub unit_json : ProviderUnit → Json F
  unit_json unit = object (
      field "kind" (string (unit_kind_name unit.kind)) (
        field "currency_code" (nullable string unit.currency_code)
          (field "custom_name" (nullable string unit.custom_name) end)))

  abbrev decimal_object : FixedDecimal → Json F
  decimal_object value =
      object (
        field "unscaled" (integer value.unscaled)
          (field "scale" (number (natural value.scale)) end))

  unfoldable pub decimal_json : Option FixedDecimal → Json F
  decimal_json = nullable decimal_object

  unfoldable pub quantity_json : ProviderReportedQuantity → Json F
  quantity_json quantity = object (
      field "unit" (unit_json quantity.unit)
        (field "value" (decimal_json (some quantity.value)) end))

  unfoldable pub source_json : AuthoritativeSource → Json F
  source_json source = object (
      field "source_id" (string source.source_id)
        (field "evidence_version" (nullable string source.evidence_version) end))

  unfoldable pub quota_snapshot_json : ℤ → ProviderQuotaSnapshot → Json F
  quota_snapshot_json evaluated_at snapshot = object (
      field "constraint_id" (string snapshot.constraint_id) (
        field "evidence_status" (string (evidence_status snapshot.fresh_until_unix evaluated_at)) (
          field "unit" (unit_json snapshot.unit) (
            field "allowance" (decimal_json snapshot.allowance) (
              field "consumed" (decimal_json snapshot.consumed) (
                field "remaining" (decimal_json snapshot.remaining) (
                  field "reset_at_unix" (nullable integer snapshot.reset_at_unix) (
                    field "observed_at_unix" (integer snapshot.observed_at_unix) (
                      field "fresh_until_unix" (integer snapshot.fresh_until_unix)
                        (field "source" (source_json snapshot.source) end))))))))))

  unfoldable pub billing_record_json : ℤ → ProviderBillingRecord → Json F
  billing_record_json evaluated_at billing = object (
      field "evidence_status" (string (evidence_status billing.fresh_until_unix evaluated_at)) (
        field "billed_units" (array (items quantity_json billing.billed_units)) (
          field "charge" (nullable quantity_json billing.charge) (
            field "observed_at_unix" (integer billing.observed_at_unix) (
              field "fresh_until_unix" (integer billing.fresh_until_unix)
                (field "source" (source_json billing.source) end))))))

  -- What both reports begin with; `last` is the field with the evidence.
  abbrev report : String → List ℤ → ℤ → String → Items F → Json F
  report provider_account fresh_until evaluated_at last evidence = object (
      field "provider_account_id" (string provider_account) (
        field "evidence_status" (string (accounting_status fresh_until evaluated_at)) (
          field "evaluated_at_unix" (integer evaluated_at)
            (field "status_semantics" status_semantics (field last (array evidence) end)))))

  -- `inspect_quota`, of the snapshots that the store returned.
  unfoldable pub inspect_quota : String → ℤ → List ProviderQuotaSnapshot → Json F
  inspect_quota provider_account evaluated_at snapshots =
      report provider_account (map (λ s. s.fresh_until_unix) snapshots) evaluated_at "snapshots"
        (items (quota_snapshot_json evaluated_at) snapshots)

  -- `inspect_billing`, of the attempt's records that the store returned.
  unfoldable pub inspect_billing : String → ℤ → List ProviderBillingRecord → Json F
  inspect_billing provider_account evaluated_at stored =
      let records = filter (λ r. r.provider_account_id == provider_account) stored in
      report provider_account (map (λ r. r.fresh_until_unix) records) evaluated_at "records"
        (items (billing_record_json evaluated_at) records)
