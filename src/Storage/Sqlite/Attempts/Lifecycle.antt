-- ===== src/Storage/Sqlite/Attempts/Lifecycle.antt =====
-- What `record_attempt_internal` promises (crates/slg-adapter-storage-sqlite/src/lib.rs).
use text.Mathlib.TextEquality.{eq_iff}
use text.Mathlib.TextPositions.{eq_refl}
use smart_llm_gateway.Prelude.{
  String, ◌≡◌, ◌≢◌, refl, sym, ap, ◌∙◌, subst, ◌⊎◌, inl, inr, ◌↔◌, Bool, true, false, Option, none,
  some, List, [], ◌∷◌, ◌==◌, is_ok, if◌then◌else◌, arith,
}
use smart_llm_gateway.Ports.{AttemptOutcome, AttemptRecord, as_str, is_stream_terminal}
use smart_llm_gateway.Storage.Sqlite.{UsageAttempt}
use smart_llm_gateway.Storage.Sqlite.Attempts.{
  row, is_terminal, same_identity, resolve_conflict, upsert, find, check_identity, record_attempt,
  record_attempts,
}

abbrev pub Same : UsageAttempt → UsageAttempt → Type 0
Same x y = (x.request_id ≡ y.request_id) × (x.route_id ≡ y.route_id)

same_identity_iff : (x y : UsageAttempt) → (same_identity x y ≡ true) ↔ Same x y
unfolding same_identity
same_identity_iff x y =
    ground (arith, eq_iff x.request_id y.request_id, eq_iff x.route_id y.route_id)

-- How a row may change: not at all, or from committed to a terminal outcome of the same attempt.
abbrev pub Moves : UsageAttempt → UsageAttempt → Type 0
Moves x y = (x ≡ y) ⊎ (Same x y × (x.outcome ≡ "committed") × (is_terminal y.outcome ≡ true))

resolve_conflict-Moves : (x y : UsageAttempt) → Moves x (resolve_conflict x y)
unfolding resolve_conflict
resolve_conflict-Moves x y = ground (arith, same_identity_iff x y, eq_iff x.outcome "committed")

abbrev pub Kept : Option UsageAttempt → Option UsageAttempt → Type 0
Kept none y = Unit
Kept (some x) none = ⊥
Kept (some x) (some y) = Moves x y

Kept-refl : (o : Option UsageAttempt) → Kept o o
Kept-refl none = tt
Kept-refl (some x) = inl refl

id-resolve_conflict : (x y : UsageAttempt) → (resolve_conflict x y).id ≡ x.id
unfolding resolve_conflict
id-resolve_conflict x y = ground arith

upsert-Kept :
    (id : String) (y : UsageAttempt) (t : List UsageAttempt)
    → Kept (find id t) (find id (upsert y t))
unfolding upsert find
upsert-Kept id y [] = tt
upsert-Kept id y (x ∷ t) = by_tests (x.id == y.id) (upsert-Kept id y t)
  where
    kept_tail :
        (b : Bool) (o o' : Option UsageAttempt)
        → Kept o o'
        → Kept (if b then some x else o) (if b then some x else o')
    kept_tail true o o' h = inl refl
    kept_tail false o o' h = h

    kept_head :
        (z : UsageAttempt) (o : Option UsageAttempt)
        → z.id ≡ x.id
        → Moves x z
        → Kept (if x.id == id then some x else o) (if z.id == id then some z else o)
    kept_head z o e m =
        subst (λ a. Kept (if x.id == id then some x else o) (if a == id then some z else o)) (sym e)
          (kept_if (x.id == id))
      where
        kept_if : (b : Bool) → Kept (if b then some x else o) (if b then some z else o)
        kept_if true = m
        kept_if false = Kept-refl o

    by_tests :
        (b : Bool)
        → Kept (find id t) (find id (upsert y t))
        → Kept
            (if x.id == id then some x else find id t)
            (find id (if b then resolve_conflict x y ∷ t else x ∷ upsert y t))
    by_tests true h =
        kept_head (resolve_conflict x y) (find id t) (id-resolve_conflict x y)
          (resolve_conflict-Moves x y)
    by_tests false h = kept_tail (x.id == id) _ _ h

-- A write keeps every recorded attempt, or moves it from committed to a terminal outcome of the same
-- request and route.
pub record_attempt-Kept :
    (id : String) (r : AttemptRecord) (t : List UsageAttempt)
    → Kept (find id t) (find id (record_attempt r t).1)
unfolding record_attempt
record_attempt-Kept id r t = upsert-Kept id (row r) t

Kept-final :
    (x : UsageAttempt) (o : Option UsageAttempt)
    → x.outcome ≢ "committed"
    → Kept (some x) o
    → o ≡ some x
Kept-final x none n h = absurd h
Kept-final x (some y) n (inl e) = ap some (sym e)
Kept-final x (some y) n (inr (_, e, _)) = absurd (n e)

-- Once an attempt is recorded with an outcome other than committed, no further writes, in any number
-- and order, of this or of other attempts, change what is recorded for it.
pub record_attempts_final :
    (rs : List AttemptRecord) (t : List UsageAttempt) (id : String) (x : UsageAttempt)
    → find id t ≡ some x
    → x.outcome ≢ "committed"
    → find id (record_attempts rs t) ≡ some x
unfolding record_attempts
record_attempts_final [] t id x h n = h
record_attempts_final (r ∷ rs) t id x h n =
    record_attempts_final rs (record_attempt r t).1 id x
      (Kept-final x _ n
        (subst (λ o. Kept o (find id (record_attempt r t).1)) h (record_attempt-Kept id r t)))
      n

-- The row found under an identifier has it.
find-upsert :
    (y : UsageAttempt) (t : List UsageAttempt)
    → ((find y.id t ≡ none) × (find y.id (upsert y t) ≡ some y))
      ⊎ ((x : UsageAttempt) × (find y.id t ≡ some x)
          × (find y.id (upsert y t) ≡ some (resolve_conflict x y)))
unfolding find upsert
find-upsert y [] = inl (refl, ground (arith, eq_refl y.id))
find-upsert y (x ∷ t) = by_test (x.id == y.id) refl (find-upsert y t)
  where
    by_test :
        (b : Bool)
        → (x.id == y.id) ≡ b
        → ((find y.id t ≡ none) × (find y.id (upsert y t) ≡ some y))
          ⊎ ((x : UsageAttempt) × (find y.id t ≡ some x)
              × (find y.id (upsert y t) ≡ some (resolve_conflict x y)))
        → ((if b then some x else find y.id t) ≡ none)
            × (find y.id (if b then resolve_conflict x y ∷ t else x ∷ upsert y t) ≡ some y)
          ⊎ ((z : UsageAttempt) × ((if b then some x else find y.id t) ≡ some z)
              × (find y.id (if b then resolve_conflict x y ∷ t else x ∷ upsert y t)
                  ≡ some (resolve_conflict z y)))
    by_test true h k = inr (x, refl, ground (arith, id-resolve_conflict x y))
    by_test false h (inl (a, b)) = inl (a, ground arith)
    by_test false h (inr (z, a, b)) = inr (z, a, ground arith)

same_identity-resolve_conflict :
    (x y : UsageAttempt) → same_identity (resolve_conflict x y) y ≡ same_identity x y
unfolding resolve_conflict same_identity
same_identity-resolve_conflict x y = ground arith

-- What a recorded attempt owes to a write.
abbrev pub Owned : AttemptRecord → Option UsageAttempt → Type 0
Owned r none = Unit
Owned r (some x) = Same x (row r)

checked :
    (x : UsageAttempt) (y : UsageAttempt)
    → (is_ok (check_identity y (some (resolve_conflict x y))) ≡ true) ↔ Same x y
unfolding check_identity
checked x y = ground (arith, same_identity_iff x y, same_identity-resolve_conflict x y)

checked_new : (y : UsageAttempt) → is_ok (check_identity y (some y)) ≡ true
unfolding check_identity same_identity
checked_new y = ground (arith, eq_refl y.request_id, eq_refl y.route_id)

is_terminal-as_str :
    (o : AttemptOutcome) → is_stream_terminal o ≡ true → is_terminal (as_str o) ≡ true
unfolding is_terminal as_str is_stream_terminal
is_terminal-as_str AttemptOutcome.failed h = cc
is_terminal-as_str AttemptOutcome.committed h = cc
is_terminal-as_str AttemptOutcome.succeeded h = refl
is_terminal-as_str AttemptOutcome.partial_failed h = refl
is_terminal-as_str AttemptOutcome.cancelled h = refl

resolved :
    (x : UsageAttempt) (r : AttemptRecord)
    → x.outcome ≡ "committed"
    → Same x (row r)
    → is_stream_terminal r.outcome ≡ true
    → resolve_conflict x (row r)
      ≡ record x { outcome = as_str r.outcome; failure_category = r.failure_category }
unfolding resolve_conflict
resolved x r c s o = ground (
  arith,
  same_identity_iff x (row r),
  eq_iff x.outcome "committed",
  is_terminal-as_str r.outcome o,
)

resolve_conflict_unowned :
    (x y : UsageAttempt) → same_identity x y ≡ false → resolve_conflict x y ≡ x
unfolding resolve_conflict
resolve_conflict_unowned x y h = ground arith

checked-unowned :
    (x y : UsageAttempt)
    → is_ok (check_identity y (some (resolve_conflict x y))) ≡ false
    → same_identity x y ≡ false
unfolding check_identity
checked-unowned x y h = ground (arith, same_identity-resolve_conflict x y)

resolve_conflict_self : (y : UsageAttempt) → resolve_conflict y y ≡ y
unfolding resolve_conflict
resolve_conflict_self y = ground arith

resolve_conflict_idempotent :
    (x y : UsageAttempt) → resolve_conflict (resolve_conflict x y) y ≡ resolve_conflict x y
unfolding resolve_conflict same_identity
resolve_conflict_idempotent x y = ground arith

upsert_unowned :
    (y : UsageAttempt) (t : List UsageAttempt)
    → is_ok (check_identity y (find y.id (upsert y t))) ≡ false
    → upsert y t ≡ t
unfolding upsert find
upsert_unowned y [] h = ground (arith, checked_new y, eq_refl y.id)
upsert_unowned y (x ∷ t) h = ground (
  arith,
  upsert_unowned y t,
  id-resolve_conflict x y,
  checked-unowned x y,
  resolve_conflict_unowned x y,
)

upsert_idempotent : (y : UsageAttempt) (t : List UsageAttempt) → upsert y (upsert y t) ≡ upsert y t
unfolding upsert
upsert_idempotent y [] = ground (arith, eq_refl y.id, resolve_conflict_self y)
upsert_idempotent y (x ∷ t) =
    ground (arith, upsert_idempotent y t, id-resolve_conflict x y, resolve_conflict_idempotent x y)

-- A write is accepted exactly if its attempt is new or recorded for the same request and route.
pub record_attempt_iff :
    (r : AttemptRecord) (t : List UsageAttempt)
    → (is_ok (record_attempt r t).0 ≡ true) ↔ Owned r (find r.attempt_id t)
unfolding record_attempt
record_attempt_iff r t = by_row (find-upsert (row r) t)
  where
    by_row :
        ((find r.attempt_id t ≡ none) × (find r.attempt_id (upsert (row r) t) ≡ some (row r)))
          ⊎ ((x : UsageAttempt) × (find r.attempt_id t ≡ some x)
              × (find r.attempt_id (upsert (row r) t) ≡ some (resolve_conflict x (row r))))
        → (is_ok (check_identity (row r) (find r.attempt_id (upsert (row r) t))) ≡ true)
          ↔ Owned r (find r.attempt_id t)
    by_row (inl (a, b)) = rw (a, b) ((λ _. tt), λ _. checked_new (row r))
    by_row (inr (x, a, b)) = rw (a, b) (checked x (row r))

-- A terminal outcome is recorded for an attempt that stands committed for the same request and route.
pub record_attempt_terminal :
    (r : AttemptRecord) (t : List UsageAttempt) (x : UsageAttempt)
    → find r.attempt_id t ≡ some x
    → x.outcome ≡ "committed"
    → Same x (row r)
    → is_stream_terminal r.outcome ≡ true
    → find r.attempt_id (record_attempt r t).1
      ≡ some (record x { outcome = as_str r.outcome; failure_category = r.failure_category })
unfolding record_attempt
record_attempt_terminal r t x h c s o = by_row (find-upsert (row r) t)
  where
    by_row :
        ((find r.attempt_id t ≡ none) × (find r.attempt_id (upsert (row r) t) ≡ some (row r)))
          ⊎ ((z : UsageAttempt) × (find r.attempt_id t ≡ some z)
              × (find r.attempt_id (upsert (row r) t) ≡ some (resolve_conflict z (row r))))
        → find r.attempt_id (upsert (row r) t)
          ≡ some (record x { outcome = as_str r.outcome; failure_category = r.failure_category })
    by_row (inl (a, b)) = cc
    by_row (inr (z, a, b)) =
        let e : z ≡ x = cc in
        b ∙ ap some (ap (λ z. resolve_conflict z (row r)) e ∙ resolved x r c s o)

-- A write that is refused changes no row.
pub record_attempt_refused :
    (r : AttemptRecord) (t : List UsageAttempt)
    → is_ok (record_attempt r t).0 ≡ false
    → (record_attempt r t).1 ≡ t
unfolding record_attempt
record_attempt_refused r t h = upsert_unowned (row r) t h

-- The same write again changes no row.
pub record_attempt_idempotent :
    (r : AttemptRecord) (t : List UsageAttempt)
    → (record_attempt r (record_attempt r t).1).1 ≡ (record_attempt r t).1
unfolding record_attempt
record_attempt_idempotent r t = upsert_idempotent (row r) t
