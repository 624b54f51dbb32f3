-- ===== src/Provider/Usage/Laws.antt =====
-- Reported usage is well formed evidence (crates/slg-adapter-provider/src/lib.rs).
use smart_llm_gateway.Prelude.{
  ℕ, ◌≤◌, String, ◌≡◌, ◌≢◌, inl, refl, Bool, true, false, Option, none, some, List, [], ◌∷◌, ◌++◌,
  leb, leb→le, if◌then◌else◌, and_then, All, ok,
}
use smart_llm_gateway.Prelude.Int.{pos}
use smart_llm_gateway.Prelude.Texts.{is_whitespace}
use smart_llm_gateway.Prelude.Json.{Json, as_u64}
use smart_llm_gateway.Domain.Evidence.{
  ProviderUnitKind, ProviderReportedQuantity, ProviderAuthoritativeEvidence, validate_for_account,
}
use smart_llm_gateway.Domain.Evidence.Laws.{Shape, IsUnit, validate_for_account_iff}
use smart_llm_gateway.Provider.Classify.{i64_max}
use smart_llm_gateway.Provider.Usage.{
  member, as_i64, pushed, add_usage_quantity, billed_units, evidence_of, openai_usage_evidence,
}

-- A whole number of units that an `i64` can hold.
abbrev pub IsCount : ProviderReportedQuantity → Type 0
IsCount q =
    IsUnit q.unit × ((n : ℕ) × (q.value ≡ record { unscaled = pos n; scale = 0 }) × (n ≤ i64_max))

All-append :
    (P : ProviderReportedQuantity → Type 0) (us : List ProviderReportedQuantity)
    (u : ProviderReportedQuantity)
    → All P us
    → P u
    → All P (us ++ u ∷ [])
All-append P [] u h k = (k, tt)
All-append P (v ∷ us) u (hv, h) k = (hv, All-append P us u h k)

pushed-IsCount :
    (units : List ProviderReportedQuantity) (kind : ProviderUnitKind) (o : Option ℕ)
    → Shape kind none none
    → All IsCount units
    → All IsCount (pushed units kind (and_then o as_i64))
pushed-IsCount units kind none s h = h
pushed-IsCount units kind (some n) s h = by_size (leb n i64_max) refl
  where
    by_size :
        (b : Bool)
        → leb n i64_max ≡ b
        → All IsCount (pushed units kind (if b then some (pos n) else none))
    by_size false e = h
    by_size true e = All-append IsCount units _ h (s, (n, refl, leb→le n i64_max e))

add_usage_quantity-IsCount :
    {F : Type 0} (kind : ProviderUnitKind) (v : Option (Json F))
    (units : List ProviderReportedQuantity)
    → Shape kind none none
    → All IsCount units
    → All IsCount (add_usage_quantity kind v units)
unfolding add_usage_quantity
add_usage_quantity-IsCount kind v units s h = pushed-IsCount units kind (and_then v as_u64) s h

billed_units-IsCount : {F : Type 0} (usage : Json F) → All IsCount (billed_units usage)
unfolding billed_units
billed_units-IsCount usage = add_usage_quantity-IsCount ProviderUnitKind.total_tokens _ _ tt (
    add_usage_quantity-IsCount ProviderUnitKind.reasoning_tokens _ _ tt (
      add_usage_quantity-IsCount ProviderUnitKind.output_tokens _ _ tt (
        add_usage_quantity-IsCount ProviderUnitKind.cached_input_tokens _ _ tt
          (add_usage_quantity-IsCount ProviderUnitKind.input_tokens _ _ tt tt))))

All-IsUnit : (us : List ProviderReportedQuantity) → All IsCount us → All (λ q. IsUnit q.unit) us
All-IsUnit [] h = tt
All-IsUnit (u ∷ us) ((k, _), h) = (k, All-IsUnit us h)

cons_ne_nil : (u : ProviderReportedQuantity) (us : List ProviderReportedQuantity) → u ∷ us ≢ []
cons_ne_nil u us h = cc

-- What is accepted for every account.
abbrev pub Accepted : Option ProviderAuthoritativeEvidence → Type 0
Accepted none = Unit
Accepted (some e) = (account : String) → validate_for_account e account ≡ ok tt

evidence_of-Accepted :
    (us : List ProviderReportedQuantity) → All IsCount us → Accepted (evidence_of us)
unfolding is_whitespace
evidence_of-Accepted [] h = tt
evidence_of-Accepted (u ∷ us) h = λ account.
    (validate_for_account_iff _ account).1
      (tt, (refl, inl (cons_ne_nil u us), All-IsUnit (u ∷ us) h, tt))

-- Whatever a provider's response holds, the evidence that is extracted from it, if any, is accepted for
-- every account.
pub openai_usage_evidence-Accepted :
    {F : Type 0} (body : Json F) → Accepted (openai_usage_evidence body)
unfolding openai_usage_evidence
openai_usage_evidence-Accepted {F = F} body = by_usage (member "usage" body)
  where
    by_usage :
        (o : Option (Json F)) → Accepted (and_then o (λ usage. evidence_of (billed_units usage)))
    by_usage none = tt
    by_usage (some usage) = evidence_of-Accepted (billed_units usage) (billed_units-IsCount usage)
