-- ===== src/Storage/Postgres/Attempts/Parity.antt =====
-- The two control planes record attempts alike (crates/slg-adapter-storage-postgres/src/lib.rs,
-- crates/slg-adapter-storage-sqlite/src/lib.rs).
use smart_llm_gateway.Prelude.{
  String, ◌≡◌, ◌≢◌, refl, ap, ap₂, ◌∙◌, subst, false, List, [], ◌∷◌, map, eq_iff, arith, contains,
  Distinct,
}
use smart_llm_gateway.Ports.{AttemptRecord}
use smart_llm_gateway.Storage.Sqlite.{UsageAttempt}
use smart_llm_gateway.Storage.Sqlite.Attempts.{
  upsert, resolve_conflict, find, check_identity, is_terminal, same_identity,
}
use smart_llm_gateway.Storage.Sqlite.Attempts as Sqlite
use smart_llm_gateway.Storage.Postgres.Attempts.{
  values, updates, do_update, conflicts, insert_or_update, identity_matches, recorded,
  record_attempt,
}

-- `id` is the primary key.
abbrev pub ids : List UsageAttempt → List String
ids [] = []
ids (x ∷ xs) = x.id ∷ ids xs

-- No other row has the identifier.
do_update_absent :
    (y : UsageAttempt) (xs : List UsageAttempt)
    → contains y.id (ids xs) ≡ false
    → map (do_update y) xs ≡ xs
unfolding do_update
do_update_absent y [] h = refl
do_update_absent y (x ∷ xs) h =
    ground (arith, eq_iff x.id y.id, eq_iff y.id x.id, do_update_absent y xs)

do_update_at : (y x : UsageAttempt) → x.id ≡ y.id → do_update y x ≡ resolve_conflict x y
unfolding do_update updates resolve_conflict same_identity is_terminal
do_update_at y x h = ground (arith, eq_iff x.id y.id)

do_update_other : (y x : UsageAttempt) → x.id ≢ y.id → do_update y x ≡ x
unfolding do_update
do_update_other y x h = ground (arith, eq_iff x.id y.id)

insert_or_update-upsert :
    (y : UsageAttempt) (t : List UsageAttempt)
    → Distinct (ids t)
    → insert_or_update y t ≡ upsert y t
unfolding insert_or_update conflicts upsert
insert_or_update-upsert y [] h = refl
insert_or_update-upsert y (x ∷ xs) (h, hs) = ground (
  arith,
  eq_iff x.id y.id,
  eq_iff y.id x.id,
  do_update_at y x,
  do_update_other y x,
  do_update_absent y xs,
  insert_or_update-upsert y xs hs,
  λ (e : x.id ≡ y.id). subst (λ i. contains i (ids xs) ≡ false) e h,
)

identity_matches-find :
    (y : UsageAttempt) (t : List UsageAttempt)
    → recorded (identity_matches y t) ≡ check_identity y (find y.id t)
unfolding identity_matches recorded check_identity find same_identity
identity_matches-find y [] = refl
identity_matches-find y (x ∷ xs) = ground (arith, identity_matches-find y xs)

-- On a table whose identifiers are distinct, PostgreSQL and SQLite answer a write of an attempt alike and
-- leave the same table.
pub record_attempt_parity :
    (attempt : AttemptRecord) (t : List UsageAttempt)
    → Distinct (ids t)
    → record_attempt attempt t ≡ Sqlite.record_attempt attempt t
unfolding record_attempt Sqlite.record_attempt
record_attempt_parity attempt t h =
    let same = insert_or_update-upsert (values attempt) t h in
    ap₂ (λ u v. (u, v))
      (ap (λ t'. recorded (identity_matches (values attempt) t')) same
        ∙ identity_matches-find (values attempt) (upsert (values attempt) t))
      same
