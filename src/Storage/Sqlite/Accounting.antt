-- ===== src/Storage/Sqlite/Accounting.antt =====
-- Provider evidence in SQLite (crates/slg-adapter-storage-sqlite/src/lib.rs): quota snapshots, billing
-- records and their units, as rows.
pub mod Rows
pub mod Laws
pub mod Tests
use Prim.Native.Nat.{Ordering}
use Prim.Native.String.{compare}
use smart_llm_gateway.Prelude.{
  ℕ, suc, String, Bool, true, false, ◌&&◌, ◌||◌, not, Option, none, some, List, [], ◌∷◌, ◌++◌, ◌==◌,
  eqb, leb, filter, Result, ok, err, map_err, ok_or, ◌>>=◌, ◌>>◌, guard, if◌then◌else◌,
}
use smart_llm_gateway.Prelude.Int.{ℤ, leb_ℤ}
use smart_llm_gateway.Domain.Evidence.{
  FixedDecimal, ProviderUnit, ProviderReportedQuantity, ProviderQuotaSnapshot,
  ProviderBillingRecord, validate_snapshot, validate_record,
}
use smart_llm_gateway.Storage.Sqlite.Accounting.Rows.{
  data_error, QuotaRow, quota_row, snapshot_of, BillingRow, billing_row, UnitRow, unit_row, unit_of,
  billing_of,
}

-- The tables of accounting, and the keys that they refer to.
pub record Accounting : Type 0 where
  pub accounts : List String
  pub attempts : List String
  pub quotas : List QuotaRow
  pub billings : List BillingRow
  pub units : List UnitRow

unfoldable pub is_member : String → List String → Bool
is_member a [] = false
is_member a (x ∷ xs) = if x == a then true else is_member a xs

pub has_quota : String → List QuotaRow → Bool
has_quota id [] = false
has_quota id (x ∷ xs) = if x.id == id then true else has_quota id xs

unfoldable pub has_billing : String → List BillingRow → Bool
has_billing id [] = false
has_billing id (x ∷ xs) = if x.id == id then true else has_billing id xs

abbrev pub foreign_key_failed : String
foreign_key_failed = "FOREIGN KEY constraint failed"

-- `INSERT … ON CONFLICT(id) DO NOTHING`, with the table's reference to an account.
pub insert_quota : QuotaRow → Accounting → Result Accounting String
insert_quota x a =
    if has_quota x.id a.quotas
    then ok a
    else if is_member x.provider_account_id a.accounts
    then ok (record a { quotas = x ∷ a.quotas })
    else err foreign_key_failed

-- `record_quota_snapshot_internal`
pub record_quota_snapshot : ProviderQuotaSnapshot → Accounting → Result Accounting String
record_quota_snapshot s a = map_err data_error (validate_snapshot s) >> insert_quota (quota_row s) a

unfoldable pub insert_billing : BillingRow → Accounting → Result Accounting String
insert_billing x a =
    if has_billing x.id a.billings
    then ok a
    else if is_member x.attempt_id a.attempts && is_member x.provider_account_id a.accounts
    then ok (record a { billings = x ∷ a.billings })
    else err foreign_key_failed

unfoldable pub has_unit : String → ℕ → List UnitRow → Bool
has_unit id i [] = false
has_unit id i (x ∷ xs) = if same_key x then true else has_unit id i xs
  where
    same_key : UnitRow → Bool
    same_key x = (x.billing_record_id == id) && eqb x.unit_index i

-- `ON CONFLICT(billing_record_id, unit_index) DO NOTHING`
unfoldable pub insert_unit : UnitRow → List UnitRow → List UnitRow
insert_unit x xs = if has_unit x.billing_record_id x.unit_index xs then xs else x ∷ xs

-- The loop over `billed_units.iter().enumerate()`.
unfoldable pub insert_units :
    String → ℕ → List ProviderReportedQuantity → List UnitRow → List UnitRow
insert_units id i [] xs = xs
insert_units id i (q ∷ qs) xs = insert_units id (suc i) qs (insert_unit (unit_row id i q) xs)

-- `record_billing_record_internal`: one transaction, so that an error leaves the tables as they were.
unfoldable pub record_billing_record : ProviderBillingRecord → Accounting → Result Accounting String
record_billing_record r a = do
  map_err data_error (validate_record r)
  a' ← insert_billing (billing_row r) a
  ok (record a' { units = insert_units r.record_id 0 r.billed_units a'.units })

abbrev is_after : Ordering → Bool
is_after Ordering.gt = true
is_after _ = false

-- `ORDER BY observed_at DESC, id DESC`: whether `x` comes before `y`.
pub is_newer : QuotaRow → QuotaRow → Bool
is_newer x y =
    not (leb_ℤ x.observed_at y.observed_at)
    || (leb_ℤ y.observed_at x.observed_at && is_after (compare x.id y.id))

pub insert_newest : QuotaRow → List QuotaRow → List QuotaRow
insert_newest x [] = x ∷ []
insert_newest x (y ∷ ys) = if is_newer x y then x ∷ y ∷ ys else y ∷ insert_newest x ys

pub newest_first : List QuotaRow → List QuotaRow
newest_first [] = []
newest_first (x ∷ xs) = insert_newest x (newest_first xs)

-- `rows.map(…).collect()`
pub collect_snapshots : List QuotaRow → Result (List ProviderQuotaSnapshot) String
collect_snapshots [] = ok []
collect_snapshots (x ∷ xs) = snapshot_of x >>= λ s. collect_snapshots xs >>= λ ss. ok (s ∷ ss)

-- `quota_snapshots_internal`
pub quota_snapshots : String → Accounting → Result (List ProviderQuotaSnapshot) String
quota_snapshots account a =
    collect_snapshots (newest_first (filter (λ x. x.provider_account_id == account) a.quotas))

-- `WHERE billing_record_id = … ORDER BY unit_index`
pub insert_by_index : UnitRow → List UnitRow → List UnitRow
insert_by_index x [] = x ∷ []
insert_by_index x (y ∷ ys) =
    if leb x.unit_index y.unit_index then x ∷ y ∷ ys else y ∷ insert_by_index x ys

pub units_in_order : List UnitRow → List UnitRow
units_in_order [] = []
units_in_order (x ∷ xs) = insert_by_index x (units_in_order xs)

pub collect_units : List UnitRow → Result (List ProviderReportedQuantity) String
collect_units [] = ok []
collect_units (x ∷ xs) = unit_of x >>= λ q. collect_units xs >>= λ qs. ok (q ∷ qs)

-- `load_billed_units`
pub load_billed_units : String → List UnitRow → Result (List ProviderReportedQuantity) String
load_billed_units id xs =
    collect_units (units_in_order (filter (λ x. x.billing_record_id == id) xs))

-- `ORDER BY observed_at, id`: whether `y` comes before `x`.
pub is_older : BillingRow → BillingRow → Bool
is_older y x =
    not (leb_ℤ x.observed_at y.observed_at)
    || (leb_ℤ y.observed_at x.observed_at && is_after (compare x.id y.id))

pub insert_oldest : BillingRow → List BillingRow → List BillingRow
insert_oldest x [] = x ∷ []
insert_oldest x (y ∷ ys) = if is_older y x then y ∷ insert_oldest x ys else x ∷ y ∷ ys

pub oldest_first : List BillingRow → List BillingRow
oldest_first [] = []
oldest_first (x ∷ xs) = insert_oldest x (oldest_first xs)

-- The loop of `billing_records_internal`.
pub collect_billings :
    (String → Option String)
    → List UnitRow
    → List BillingRow
    → Result (List ProviderBillingRecord) String
collect_billings parse_attempt_id units [] = ok []
collect_billings parse_attempt_id units (x ∷ xs) = do
  billed ← load_billed_units x.id units
  r ← billing_of parse_attempt_id x billed
  rs ← collect_billings parse_attempt_id units xs
  ok (r ∷ rs)

-- `billing_records_internal`
pub billing_records :
    (String → Option String) → String → Accounting → Result (List ProviderBillingRecord) String
billing_records parse_attempt_id attempt a =
    collect_billings parse_attempt_id a.units
      (oldest_first (filter (λ x. x.attempt_id == attempt) a.billings))
