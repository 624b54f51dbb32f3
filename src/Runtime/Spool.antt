-- ===== src/Runtime/Spool.antt =====
-- `DurableUsageSpool` and `flush_usage_spool`: attempts that wait for the primary store
-- (crates/slg-runtime/src/lib.rs).
pub mod Delivery
pub mod Tests
use Prim.Native.Nat.{Ordering}
use Prim.Native.String.{◌++◌, compare}
use smart_llm_gateway.Prelude.{
  ℕ, String, Bool, true, false, ◌||◌, ◌&&◌, not, List, [], ◌∷◌, ◌==◌, contains, filter, map, take,
  length, if◌then◌else◌,
}
use smart_llm_gateway.Prelude.Int.{ℤ, leb_ℤ}
use smart_llm_gateway.Ports.{AttemptRecord, as_str}

-- A row of `usage_spool`; the payload is the entry, which holds the attempt.
pub record SpoolEntry : Type 0 where
  pub id : String
  pub attempt : AttemptRecord
  pub queued_at : ℤ

-- `format!("{}:{transition}", attempt.attempt_id)`
abbrev pub entry_id : AttemptRecord → String
entry_id r = r.attempt_id ++ (":" ++ as_str r.outcome)

pub has_entry : String → List SpoolEntry → Bool
has_entry id [] = false
has_entry id (x ∷ xs) = if x.id == id then true else has_entry id xs

-- `append`, at the time `now`: `ON CONFLICT(id) DO NOTHING`
pub append : ℤ → AttemptRecord → List SpoolEntry → List SpoolEntry
append now r xs =
    if has_entry (entry_id r) xs
    then xs
    else record { id = entry_id r; attempt = r; queued_at = now } ∷ xs

abbrev is_after : Ordering → Bool
is_after Ordering.gt = true
is_after _ = false

-- `ORDER BY queued_at, id`: whether `y` comes before `x`.
pub is_earlier : SpoolEntry → SpoolEntry → Bool
is_earlier y x =
    not (leb_ℤ x.queued_at y.queued_at)
    || (leb_ℤ y.queued_at x.queued_at && is_after (compare x.id y.id))

pub insert_entry : SpoolEntry → List SpoolEntry → List SpoolEntry
insert_entry x [] = x ∷ []
insert_entry x (y ∷ ys) = if is_earlier y x then y ∷ insert_entry x ys else x ∷ y ∷ ys

pub in_order : List SpoolEntry → List SpoolEntry
in_order [] = []
in_order (x ∷ xs) = insert_entry x (in_order xs)

-- `pending`
pub pending : ℕ → List SpoolEntry → List SpoolEntry
pending limit xs = take limit (in_order xs)

-- `acknowledge`, one transaction that deletes by identifier.
pub acknowledge : List String → List SpoolEntry → List SpoolEntry
acknowledge ids xs = filter (λ x. not (contains x.id ids)) xs

-- The loop of `flush_usage_spool`; `store` is the primary, with a state of any kind, and says whether
-- `record_attempt` returned `Ok`.
pub deliver : {S : Type 0} → (S → AttemptRecord → Bool × S) → S → List SpoolEntry → List String × S
deliver store s [] = ([], s)
deliver store s (x ∷ xs) =
    let (accepted, s') = store s x.attempt in
    let (ids, t) = deliver store s' xs in if accepted then (x.id ∷ ids, t) else ([], s')

-- `flush_usage_spool`: how many were delivered, and the spool and the primary afterwards.
pub flush_usage_spool :
    {S : Type 0}
    → (S → AttemptRecord → Bool × S)
    → ℕ
    → S
    → List SpoolEntry
    → ℕ × (List SpoolEntry × S)
flush_usage_spool store limit s xs =
    let (ids, t) = deliver store s (pending limit xs) in (length ids, (acknowledge ids xs, t))
