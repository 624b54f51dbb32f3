-- ===== src/Domain/Plan/Graph.antt =====
-- The fallback graph as a specification of `candidate_plan`, independent of its traversal.
use smart_llm_gateway.Prelude.{String, ◌≡◌, refl, sym, subst, ◌⊎◌, inl, inr, true, contains, List}
use smart_llm_gateway.Domain.Plan.{Dict, entries}

module _ (fallbacks : Dict (List String)) where
  -- `n` is one of the configured fallbacks of `m`.
  abbrev pub Edge : String → String → Type 0
  Edge m n = contains n (entries m fallbacks) ≡ true

  -- A path of fallbacks, possibly empty.
  pub data Reach (m : String) : String → Type 0 where
    here : Reach m m
    step : {n k : String} → Reach m n → Edge n k → Reach m k

  -- No chain of fallbacks from `m` goes on for ever: no cycle can be reached.
  pub data Safe : String → Type 0 where
    safe : (m : String) → ((n : String) → Edge m n → Safe n) → Safe m

  -- A cycle through `m`: a fallback of `m` leads back to it.
  pub record Cycle (m : String) : Type 0 where
    pub first : String
    pub leaves : Edge m first
    pub returns : Reach first m

  pub Reach-cons : {m n k : String} → Edge m n → Reach n k → Reach m k
  Reach-cons e here = step here e
  Reach-cons e (step r f) = step (Reach-cons e r) f

  pub Reach-trans : {m n k : String} → Reach m n → Reach n k → Reach m k
  Reach-trans r here = r
  Reach-trans r (step q f) = step (Reach-trans r q) f

  pub Safe-reach : {m n : String} → Safe m → Reach m n → Safe n
  Safe-reach s here = s
  Safe-reach s (step {n} {k} r e) = below (Safe-reach s r) e
    where
      below : {a b : String} → Safe a → Edge a b → Safe b
      below {a} {b} (safe _ f) e = f b e

  Reach-uncons : {m k : String} → Reach m k → (m ≡ k) ⊎ ((n : String) × Edge m n × Reach n k)
  Reach-uncons here = inl refl
  Reach-uncons (step {n} {k} r e) = elim (Reach-uncons r) [
    | inl q ↦ inr (k, subst (λ a. Edge a k) (sym q) e, here)
    | inr (a, f, q) ↦ inr (a, f, step q e)
  ]

  Cycle-next : {m : String} (c : Cycle m) → Cycle c.first
  Cycle-next {m} c = elim (Reach-uncons c.returns) [
    | inl q ↦ subst Cycle (sym q) c
    | inr (n, e, r) ↦ record { first = n; leaves = e; returns = step r c.leaves }
  ]

  -- On a cycle there is no last model: what is safe lies on none.
  pub Safe-Cycle : {m : String} → Safe m → ¬ Cycle m
  Safe-Cycle (safe m f) c = Safe-Cycle (f c.first c.leaves) (Cycle-next c)
