-- ===== src/Cli/Report/Laws.antt =====
-- The status of a report sums up that of its evidence (crates/smart-llm-gateway/src/main.rs).
use smart_llm_gateway.Prelude.{
  ◌≡◌, ◌↔◌, ◌⊎◌, refl, Bool, true, false, List, [], ◌∷◌, ne_of_test, arith,
}
use smart_llm_gateway.Prelude.Int.{ℤ}
use smart_llm_gateway.Cli.Report.{status_from, accounting_status, evidence_status}

-- Some of the evidence is current.
abbrev pub AnyCurrent : List ℤ → ℤ → Type 0
AnyCurrent [] now = ⊥
AnyCurrent (t ∷ ts) now = (evidence_status t now ≡ "current") ⊎ AnyCurrent ts now

status_from_iff :
    (b : Bool) (ts : List ℤ) (now : ℤ) → (status_from b ts now ≡ "current") ↔ AnyCurrent ts now
unfolding status_from evidence_status
status_from_iff true [] now = ground (arith, ne_of_test "expired" "current" refl)
status_from_iff false [] now = ground (arith, ne_of_test "absent" "current" refl)
status_from_iff b (t ∷ ts) now =
    ground (arith, status_from_iff true ts now, ne_of_test "expired" "current" refl)

-- A report is current exactly if some of its evidence is.
pub accounting_status_iff :
    (ts : List ℤ) (now : ℤ) → (accounting_status ts now ≡ "current") ↔ AnyCurrent ts now
unfolding accounting_status
accounting_status_iff ts now = status_from_iff false ts now
