-- ===== src/Domain/Evidence/Laws.antt =====
-- What validated provider evidence guarantees (crates/slg-domain/src/lib.rs), as a predicate that
-- does not follow the order of the checks.
use Prim.Native.String.{len}
use smart_llm_gateway.Prelude.{
  String, ◌≡◌, ◌≢◌, ◌↔◌, ◌⊎◌, true, false, Option, none, some, List, [], ◌∷◌, arith, eq_iff, ok,
  All,
}
use smart_llm_gateway.Prelude.Int.{◌≤ℤ◌}
use smart_llm_gateway.Prelude.Texts.{is_blank, all_chars, is_ascii_uppercase}
use smart_llm_gateway.Domain.Evidence.{
  ProviderUnitKind, ProviderUnit, ProviderReportedQuantity, ProviderQuotaSnapshot,
  ProviderBillingEvidence, ProviderAuthoritativeEvidence, validate_unit, validate_source,
  validate_quantity, validate_quantities, validate_charge, validate_values, validate_snapshot,
  validate_billing, validate_snapshots, validate_billing_if_any, validate_for_account,
  non_empty_identifiers,
}

-- A currency has a code of three upper-case letters, a custom unit a name, any other unit neither.
abbrev pub Shape : ProviderUnitKind → Option String → Option String → Type 0
Shape ProviderUnitKind.currency (some code) none =
    (len code ≡ 3) × (all_chars is_ascii_uppercase code ≡ true)
Shape ProviderUnitKind.currency code name = ⊥
Shape ProviderUnitKind.custom none (some name) = is_blank name ≡ false
Shape ProviderUnitKind.custom code name = ⊥
Shape _ none none = Unit
Shape _ code name = ⊥

abbrev pub IsUnit : ProviderUnit → Type 0
IsUnit u = Shape u.kind u.currency_code u.custom_name

abbrev pub IsSnapshot : ProviderQuotaSnapshot → Type 0
IsSnapshot s =
    (is_blank s.snapshot_id ≡ false)
    × (is_blank s.provider_account_id ≡ false)
    × (is_blank s.constraint_id ≡ false)
    × IsUnit s.unit
    × (is_blank s.source.source_id ≡ false)
    × ((s.allowance ≢ none) ⊎ ((s.consumed ≢ none) ⊎ (s.remaining ≢ none)))
    × (s.observed_at_unix ≤ℤ s.fresh_until_unix)

-- A charge, where there is one, is an amount of money.
abbrev pub IsCharge : Option ProviderReportedQuantity → Type 0
IsCharge none = Unit
IsCharge (some q) = IsUnit q.unit × (q.unit.kind ≡ ProviderUnitKind.currency)

abbrev pub IsBilling : ProviderBillingEvidence → Type 0
IsBilling b =
    (is_blank b.source.source_id ≡ false)
    × ((b.billed_units ≢ []) ⊎ (b.charge ≢ none))
    × All (λ q. IsUnit q.unit) b.billed_units
    × IsCharge b.charge

abbrev pub IsBillingIfAny : Option ProviderBillingEvidence → Type 0
IsBillingIfAny none = Unit
IsBillingIfAny (some b) = IsBilling b

pub validate_unit_iff : (u : ProviderUnit) → (validate_unit u ≡ ok tt) ↔ IsUnit u
unfolding validate_unit
validate_unit_iff u = ground arith

validate_quantities_iff :
    (qs : List ProviderReportedQuantity)
    → (validate_quantities qs ≡ ok tt) ↔ All (λ q. IsUnit q.unit) qs
unfolding validate_quantities validate_quantity
validate_quantities_iff [] = ground arith
validate_quantities_iff (q ∷ qs) =
    ground (arith, validate_unit_iff q.unit, validate_quantities_iff qs)

validate_charge_iff :
    (c : Option ProviderReportedQuantity) → (validate_charge c ≡ ok tt) ↔ IsCharge c
unfolding validate_charge validate_quantity
validate_charge_iff none = ground arith
validate_charge_iff (some q) = ground (arith, validate_unit_iff q.unit)

validate_billing_iff : (b : ProviderBillingEvidence) → (validate_billing b ≡ ok tt) ↔ IsBilling b
unfolding validate_billing validate_source validate_values
validate_billing_iff b =
    ground (arith, validate_quantities_iff b.billed_units, validate_charge_iff b.charge)

validate_snapshot_iff : (s : ProviderQuotaSnapshot) → (validate_snapshot s ≡ ok tt) ↔ IsSnapshot s
unfolding validate_snapshot validate_source non_empty_identifiers
validate_snapshot_iff s = ground (arith, validate_unit_iff s.unit)

validate_snapshots_iff :
    (account : String) (ss : List ProviderQuotaSnapshot)
    → (validate_snapshots account ss ≡ ok tt)
      ↔ All (λ s. IsSnapshot s × (s.provider_account_id ≡ account)) ss
unfolding validate_snapshots
validate_snapshots_iff account [] = ground arith
validate_snapshots_iff account (s ∷ ss) = ground (
  arith,
  validate_snapshot_iff s,
  eq_iff s.provider_account_id account,
  validate_snapshots_iff account ss,
)

validate_billing_if_any_iff :
    (b : Option ProviderBillingEvidence) → (validate_billing_if_any b ≡ ok tt) ↔ IsBillingIfAny b
unfolding validate_billing_if_any
validate_billing_if_any_iff none = ground arith
validate_billing_if_any_iff (some b) = validate_billing_iff b

-- Evidence is accepted for an account exactly when every quota snapshot is well formed and belongs to
-- that account, and the billing facts, if there are any, are well formed.
pub validate_for_account_iff :
    (e : ProviderAuthoritativeEvidence) (account : String)
    → (validate_for_account e account ≡ ok tt) ↔ (
        All (λ s. IsSnapshot s × (s.provider_account_id ≡ account)) e.quota_snapshots
        × IsBillingIfAny e.billing)
unfolding validate_for_account
validate_for_account_iff e account =
    ground (
      arith,
      validate_snapshots_iff account e.quota_snapshots,
      validate_billing_if_any_iff e.billing,
    )
