-- ===== src/Domain/Evidence.antt =====
-- Provider-reported quantities, quota snapshots and billing facts, and their validation
-- (crates/slg-domain/src/lib.rs). An `i64` is an integer, a `u8` scale a number.
pub mod Laws
pub mod Tests
use Prim.Native.String.{len}
use smart_llm_gateway.Prelude.{
  ℕ, String, Bool, true, false, ◌&&◌, ◌||◌, not, Option, none, some, List, [], ◌∷◌, ◌==◌, eqb, all,
  is_empty, Result, ok, err, ◌>>=◌, ◌>>◌, guard, if◌then◌else◌,
}
use smart_llm_gateway.Prelude.Int.{ℤ, leb_ℤ}
use smart_llm_gateway.Prelude.Texts.{all_chars, is_ascii_uppercase, is_blank}

pub record FixedDecimal : Type 0 where
  pub unscaled : ℤ
  pub scale : ℕ

pub data ProviderUnitKind : Type 0 where
  requests input_tokens cached_input_tokens output_tokens reasoning_tokens total_tokens
        concurrent_requests currency custom :
      ProviderUnitKind

pub record ProviderUnit : Type 0 where
  pub kind : ProviderUnitKind
  pub currency_code : Option String
  pub custom_name : Option String

pub record AuthoritativeSource : Type 0 where
  pub source_id : String
  pub evidence_version : Option String

pub record ProviderReportedQuantity : Type 0 where
  pub unit : ProviderUnit
  pub value : FixedDecimal

pub record ProviderQuotaSnapshot : Type 0 where
  pub snapshot_id : String
  pub provider_account_id : String
  pub constraint_id : String
  pub unit : ProviderUnit
  pub allowance : Option FixedDecimal
  pub consumed : Option FixedDecimal
  pub remaining : Option FixedDecimal
  pub reset_at_unix : Option ℤ
  pub observed_at_unix : ℤ
  pub fresh_until_unix : ℤ
  pub source : AuthoritativeSource

-- `attempt_id` holds the text of an `AttemptId`.
pub record ProviderBillingRecord : Type 0 where
  pub record_id : String
  pub attempt_id : String
  pub provider_account_id : String
  pub provider_request_id : Option String
  pub billed_units : List ProviderReportedQuantity
  pub charge : Option ProviderReportedQuantity
  pub observed_at_unix : ℤ
  pub fresh_until_unix : ℤ
  pub source : AuthoritativeSource

pub record ProviderBillingEvidence : Type 0 where
  pub provider_request_id : Option String
  pub billed_units : List ProviderReportedQuantity
  pub charge : Option ProviderReportedQuantity
  pub source : AuthoritativeSource

pub record ProviderAuthoritativeEvidence : Type 0 where
  pub quota_snapshots : List ProviderQuotaSnapshot
  pub billing : Option ProviderBillingEvidence

pub data AuthoritativeDataError : Type 0 where
  missing_identifier missing_source invalid_unit missing_reported_value invalid_freshness
        charge_must_use_currency mismatched_provider_account :
      AuthoritativeDataError

abbrev pub Checked : Type 0
Checked = Result (Unit {0}) AuthoritativeDataError

abbrev pub is_none : {A : Type 0} → Option A → Bool
is_none none = true
is_none (some a) = false

-- `is_some_and(|code| code.len() == 3 && code.bytes().all(…))`; a character outside ASCII has no
-- byte that is an upper-case letter.
unfoldable pub valid_currency : Option String → Bool
valid_currency none = false
valid_currency (some code) = eqb (len code) 3 && all_chars is_ascii_uppercase code

unfoldable pub valid_custom_name : Option String → Bool
valid_custom_name none = false
valid_custom_name (some name) = not (is_blank name)

-- `ProviderUnit::validate`; the arms of its `match` on the kind, in order.
unfoldable pub validate_kind : ProviderUnitKind → Option String → Option String → Checked
unfolding valid_currency valid_custom_name
validate_kind ProviderUnitKind.currency code name =
    if not (valid_currency code) || not (is_none name) then err invalid_unit else ok tt
validate_kind ProviderUnitKind.custom code name =
    if not (valid_custom_name name) || not (is_none code) then err invalid_unit else ok tt
validate_kind _ code name = if is_none code && is_none name then ok tt else err invalid_unit

unfoldable pub validate_unit : ProviderUnit → Checked
unfolding validate_kind
validate_unit u = validate_kind u.kind u.currency_code u.custom_name

unfoldable pub validate_source : AuthoritativeSource → Checked
validate_source s = guard (not (is_blank s.source_id)) missing_source

unfoldable pub validate_quantity : ProviderReportedQuantity → Checked
validate_quantity q = validate_unit q.unit

unfoldable pub non_empty_identifiers : List String → Checked
non_empty_identifiers ids = guard (all (λ id. not (is_blank id)) ids) missing_identifier

unfoldable pub validate_snapshot : ProviderQuotaSnapshot → Checked
unfolding non_empty_identifiers
validate_snapshot s = do
  non_empty_identifiers (s.snapshot_id ∷ s.provider_account_id ∷ s.constraint_id ∷ [])
  validate_unit s.unit
  validate_source s.source
  guard (not (is_none s.allowance && is_none s.consumed && is_none s.remaining))
      missing_reported_value
  guard (leb_ℤ s.observed_at_unix s.fresh_until_unix) invalid_freshness

-- `for quantity in &self.billed_units { quantity.validate()?; }`
unfoldable pub validate_quantities : List ProviderReportedQuantity → Checked
validate_quantities [] = ok tt
validate_quantities (q ∷ qs) = validate_quantity q >> validate_quantities qs

abbrev pub is_currency : ProviderUnitKind → Bool
is_currency ProviderUnitKind.currency = true
is_currency _ = false

-- `if let Some(charge) = &self.charge { … }`
unfoldable pub validate_charge : Option ProviderReportedQuantity → Checked
validate_charge none = ok tt
validate_charge (some q) =
    validate_quantity q >> guard (is_currency q.unit.kind) charge_must_use_currency

-- What `ProviderBillingRecord::validate` and `ProviderBillingEvidence::validate` share.
unfoldable pub validate_values :
    List ProviderReportedQuantity → Option ProviderReportedQuantity → Checked
validate_values units charge = do
  guard (not (is_empty units && is_none charge)) missing_reported_value
  validate_quantities units
  validate_charge charge

unfoldable pub validate_record : ProviderBillingRecord → Checked
validate_record r = do
  non_empty_identifiers (r.record_id ∷ r.provider_account_id ∷ [])
  validate_source r.source
  validate_values r.billed_units r.charge
  guard (leb_ℤ r.observed_at_unix r.fresh_until_unix) invalid_freshness

unfoldable pub validate_billing : ProviderBillingEvidence → Checked
validate_billing b = do validate_source b.source; validate_values b.billed_units b.charge

-- `if let Some(billing) = &self.billing { billing.validate()?; }`
unfoldable pub validate_billing_if_any : Option ProviderBillingEvidence → Checked
validate_billing_if_any none = ok tt
validate_billing_if_any (some b) = validate_billing b

unfoldable pub validate_snapshots : String → List ProviderQuotaSnapshot → Checked
validate_snapshots account [] = ok tt
validate_snapshots account (s ∷ ss) = do
  validate_snapshot s
  guard (s.provider_account_id == account) mismatched_provider_account
  validate_snapshots account ss

unfoldable pub validate_for_account : ProviderAuthoritativeEvidence → String → Checked
validate_for_account e account = do
  validate_snapshots account e.quota_snapshots
  validate_billing_if_any e.billing

-- `ProviderAuthoritativeEvidence::is_empty`
unfoldable pub is_empty_evidence : ProviderAuthoritativeEvidence → Bool
is_empty_evidence e = is_empty e.quota_snapshots && is_none e.billing
