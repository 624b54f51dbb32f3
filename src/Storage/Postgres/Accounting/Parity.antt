-- ===== src/Storage/Postgres/Accounting/Parity.antt =====
-- The two control planes keep the same evidence (crates/slg-adapter-storage-postgres/src/lib.rs,
-- crates/slg-adapter-storage-sqlite/src/lib.rs).
use smart_llm_gateway.Prelude.{
  ℕ, suc, ◌+◌, ◌≤◌, String, ◌≡◌, refl, ap, ◌∙◌, Bool, true, false, ◌&&◌, leb, Option, none, some,
  List, [], ◌∷◌, length, All, map, contains, contains-cons_self, and_then, Result, ok, err, map_err,
  guard, ◌>>=◌, ◌>>◌, if◌then◌else◌, eq_iff, arith,
}
use smart_llm_gateway.Prelude.Int.{pos}
use smart_llm_gateway.Domain.Evidence.{
  ProviderReportedQuantity, ProviderBillingRecord, validate_record,
}
use smart_llm_gateway.Storage.Sqlite.Accounting.Rows.{
  data_error, unit_kind_name, BillingRow, billing_row, charge_column, UnitRow, unit_row,
}
use smart_llm_gateway.Storage.Sqlite.Accounting.{
  Accounting, is_member, has_billing, insert_billing, has_unit, insert_unit, insert_units,
  foreign_key_failed,
}
use smart_llm_gateway.Storage.Sqlite.Accounting as Sqlite
use smart_llm_gateway.Storage.Postgres.Administration.{i32_max}
use smart_llm_gateway.Storage.Postgres.Accounting.Columns.{
  billing_columns, unit_columns, is_billing_text, is_unit_text, billing_failed, unit_failed,
  insert_record, has_key, insert_billed_unit,
}
use smart_llm_gateway.Storage.Postgres.Accounting.{insert_billed_units, record_billing_record}

-- The tables, when the write was accepted.
abbrev pub accepted : Result Accounting String → Option Accounting
accepted (ok a) = some a
accepted (err e) = none

-- The ids of billing records.
abbrev ids : List BillingRow → List String
ids rows = map (λ y. y.id) rows

-- No text of the record has U+0000.
abbrev pub IsText : ProviderBillingRecord → Type 0
IsText r =
    (is_billing_text (billing_columns r) ≡ true)
    × All (λ q. is_unit_text (unit_columns r.record_id 0 q) ≡ true) r.billed_units

is_member-contains : (a : String) (xs : List String) → is_member a xs ≡ contains a xs
unfolding is_member
is_member-contains a [] = refl
is_member-contains a (x ∷ xs) = ground (arith, is_member-contains a xs, eq_iff a x, eq_iff x a)

has_billing-contains :
    (id : String) (xs : List BillingRow) → has_billing id xs ≡ contains id (ids xs)
unfolding has_billing
has_billing-contains id [] = refl
has_billing-contains id (x ∷ xs) =
    ground (arith, has_billing-contains id xs, eq_iff id x.id, eq_iff x.id id)

has_unit-has_key : (id : String) (i : ℕ) (xs : List UnitRow) → has_unit id i xs ≡ has_key id i xs
unfolding has_unit has_key
has_unit-has_key id i [] = refl
has_unit-has_key id i (x ∷ xs) = ground (arith, has_unit-has_key id i xs)

and_then-charge_column :
    {A : Type 0} (f : ProviderReportedQuantity → Option A)
    (charge : Option ProviderReportedQuantity)
    → and_then charge f ≡ charge_column f charge
and_then-charge_column f none = refl
and_then-charge_column f (some q) = refl

billing_columns-billing_row : (r : ProviderBillingRecord) → billing_columns r ≡ billing_row r
unfolding billing_columns billing_row
billing_columns-billing_row r =
    rw
      (
        and_then-charge_column (λ q. some (unit_kind_name q.unit.kind)) r.charge,
        and_then-charge_column (λ q. q.unit.currency_code) r.charge,
        and_then-charge_column (λ q. q.unit.custom_name) r.charge,
        and_then-charge_column (λ q. some q.value.unscaled) r.charge,
        and_then-charge_column (λ q. some (pos q.value.scale)) r.charge,
      )
      refl

-- The rows of the units are written as SQLite writes them.
insert_billed_unit-insert_unit :
    (id : String) (i : ℕ) (q : ProviderReportedQuantity) (billings : List BillingRow)
    (rows : List UnitRow)
    → contains id (ids billings) ≡ true
    → is_unit_text (unit_columns id 0 q) ≡ true
    → insert_billed_unit (unit_columns id i q) billings rows
      ≡ ok (insert_unit (unit_row id i q) rows)
unfolding insert_billed_unit insert_unit unit_columns unit_row is_unit_text
insert_billed_unit-insert_unit id i q billings rows h k =
    rw (has_unit-has_key id i rows) (by_tests _ (has_key id i rows) _ k h)
  where
    by_tests :
        (t b c : Bool)
        → t ≡ true
        → c ≡ true
        → (guard t unit_failed
            >> (if b then ok rows else (guard c unit_failed >> ok (unit_row id i q ∷ rows))))
          ≡ ok (if b then rows else unit_row id i q ∷ rows)
    by_tests true true true e f = refl
    by_tests true false true e f = refl
    by_tests true b false e f = cc
    by_tests false b c e f = cc

le-leb : (m n : ℕ) → m ≤ n → leb m n ≡ true
le-leb m n h = ground arith

insert_billed_units-insert_units :
    (billings : List BillingRow) (id : String) (i : ℕ) (qs : List ProviderReportedQuantity)
    (rows : List UnitRow)
    → contains id (ids billings) ≡ true
    → All (λ q. is_unit_text (unit_columns id 0 q) ≡ true) qs
    → i + length qs ≤ suc i32_max
    → insert_billed_units billings id i qs rows ≡ ok (insert_units id i qs rows)
unfolding insert_billed_units insert_units
insert_billed_units-insert_units billings id i [] rows k t h = refl
insert_billed_units-insert_units billings id i (q ∷ qs) rows k t h =
    ap
      (λ b.
        guard b "too many provider-reported billing units"
        >> (insert_billed_unit (unit_columns id i q) billings rows >>= λ rows'.
            insert_billed_units billings id (suc i) qs rows'))
      (le-leb i i32_max (omega (arith, h)))
    ∙ ap (λ x. x >>= λ rows'. insert_billed_units billings id (suc i) qs rows')
        (insert_billed_unit-insert_unit id i q billings rows k t.0)
    ∙ insert_billed_units-insert_units billings id (suc i) qs (insert_unit (unit_row id i q) rows) k
        t.1 (omega (arith, h))

-- Both statements refuse the same records, and leave the same tables, which hold the record.
module _ (x : BillingRow) (a : Accounting)
    (next next' : Accounting → Result Accounting String) where
  by_tests :
      (t h m n : Bool)
      → t ≡ true
      → (h ≡ true → contains x.id (ids a.billings) ≡ true)
      → ((a' : Accounting)
          → contains x.id (ids a'.billings) ≡ true
          → accepted (next a') ≡ accepted (next' a'))
      → accepted (
          (guard t billing_failed
            >> (if h
                then ok a
                else (guard m billing_failed
                    >> (guard n billing_failed >> ok (record a { billings = x ∷ a.billings })))))
          >>= next)
        ≡ accepted (
            (if h
              then ok a
              else if m && n
              then ok (record a { billings = x ∷ a.billings })
              else err foreign_key_failed)
            >>= next')
  by_tests true true m n e f k = k a (f refl)
  by_tests true false true true e f k =
      k (record a { billings = x ∷ a.billings }) (contains-cons_self x.id (ids a.billings))
  by_tests true false true false e f k = refl
  by_tests true false false n e f k = refl
  by_tests false h m n e f k = cc

  insert_record-insert_billing :
      is_billing_text x ≡ true
      → ((a' : Accounting)
          → contains x.id (ids a'.billings) ≡ true
          → accepted (next a') ≡ accepted (next' a'))
      → accepted (insert_record x a >>= next) ≡ accepted (insert_billing x a >>= next')
  unfolding insert_record insert_billing
  insert_record-insert_billing e k =
      rw
        (
          has_billing-contains x.id a.billings,
          is_member-contains x.attempt_id a.attempts,
          is_member-contains x.provider_account_id a.accounts,
        )
        (by_tests _ _ _ _ e (λ h. h) k)

-- The rest of a write, once the record is in its table.
abbrev with_units : ProviderBillingRecord → Accounting → Result Accounting String
with_units r a = insert_billed_units a.billings r.record_id 0 r.billed_units a.units >>= λ rows.
    ok (record a { units = rows })

abbrev with_units_sqlite : ProviderBillingRecord → Accounting → Result Accounting String
with_units_sqlite r a = ok (record a { units = insert_units r.record_id 0 r.billed_units a.units })

-- A billing record of at most 2,147,483,648 units, no text of which has U+0000, is accepted by PostgreSQL
-- exactly if it is by SQLite, and both then have the same tables.
pub record_billing_record_parity :
    (r : ProviderBillingRecord) (a : Accounting)
    → length r.billed_units ≤ suc i32_max
    → IsText r
    → accepted (record_billing_record r a) ≡ accepted (Sqlite.record_billing_record r a)
unfolding record_billing_record Sqlite.record_billing_record billing_columns
record_billing_record_parity r a h t = by_validity (map_err data_error (validate_record r))
  where
    written :
        accepted (insert_record (billing_columns r) a >>= with_units r)
        ≡ accepted (insert_billing (billing_row r) a >>= with_units_sqlite r)
    written =
        insert_record-insert_billing (billing_columns r) a (with_units r) (with_units_sqlite r) t.0
          (λ a' k.
            ap (λ x. accepted (x >>= λ rows. ok (record a' { units = rows })))
              (insert_billed_units-insert_units a'.billings r.record_id 0 r.billed_units a'.units k
                t.1 (omega (arith, h))))
        ∙ ap (λ x. accepted (insert_billing x a >>= with_units_sqlite r))
            (billing_columns-billing_row r)

    by_validity :
        (v : Result (Unit {0}) String)
        → accepted (v >> (insert_record (billing_columns r) a >>= with_units r))
          ≡ accepted (v >> (insert_billing (billing_row r) a >>= with_units_sqlite r))
    by_validity (err e) = refl
    by_validity (ok _) = written
