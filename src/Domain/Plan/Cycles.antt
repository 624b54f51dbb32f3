-- ===== src/Domain/Plan/Cycles.antt =====
-- What a `visit` that reports a cycle has found (`candidate_plan`, `DomainError::FallbackCycle`).
use smart_llm_gateway.Prelude.{
  ℕ, zero, suc, String, ◌≡◌, refl, sym, ◌∙◌, subst, ◌⊎◌, inl, inr, true, none, some, List, [], ◌∷◌,
  ok, err, Bool-cases, contains, contains-cons_cases, contains-cons_self, contains-cons,
}
use smart_llm_gateway.Domain.Route.{RouteCandidate}
use smart_llm_gateway.Domain.Plan.{
  Dict, DomainError, fallback_cycle, Visit, Outcome, next, entries, visit_all, enter, visit,
}
use smart_llm_gateway.Domain.Plan.Graph.{Edge, Reach, here, step, Cycle}
use smart_llm_gateway.Domain.Plan.Visits.{
  Inv, start, start-Inv, Visited, visit-Visited, enter_stacked, enter_again, enter_first,
}

next-eq-err :
    {A B : Type 0} (o : Outcome A) (f : A → Outcome B) {e : DomainError}
    → next o f ≡ some (err e)
    → (o ≡ some (err e)) ⊎ ((a : A) × (o ≡ some (ok a)) × (f a ≡ some (err e)))
next-eq-err none f h = cc
next-eq-err (some (err d)) f h = inl (cc)
next-eq-err (some (ok a)) f h = inr (a, refl, h)

module _ (routes : Dict (List RouteCandidate)) (fallbacks : Dict (List String)) where
  -- The stack is a path of fallbacks that leads to `m`.
  abbrev pub Stacked : String → List String → Type 0
  Stacked m [] = Unit
  Stacked m (p ∷ ps) = Edge fallbacks p m × Stacked p ps

  Stacked-returns :
      (c m : String) (ps : List String)
      → Stacked m ps
      → contains c ps ≡ true
      → (f : String) × Edge fallbacks c f × Reach fallbacks f m
  Stacked-returns c m [] k h = cc
  Stacked-returns c m (p ∷ ps) k h = elim (contains-cons_cases c p ps h) [
    | inl q ↦ (m, subst (λ x. Edge fallbacks x m) (sym q) k.0, here)
    | inr r ↦ let (f, e, w) = Stacked-returns c p ps k.1 r in (f, e, step w k.0)
  ]

  -- The error names a model on a cycle that can be reached from `root`.
  abbrev pub Fault : String → DomainError → Type 0
  Fault root e = (c : String) × (e ≡ fallback_cycle c) × Reach fallbacks root c × Cycle fallbacks c

  module _ (root : String) where
    abbrev pub Blames : (String → Visit → Outcome Visit) → Type 0
    Blames go =
        (m : String) (s : Visit) (e : DomainError)
        → Inv routes fallbacks s
        → Stacked m s.visiting
        → Reach fallbacks root m
        → go m s ≡ some (err e)
        → Fault root e

    visit_all-Fault :
        (fuel : ℕ)
        → Blames (visit routes fallbacks fuel)
        → (p : String) (ms : List String) (s : Visit) (e : DomainError)
        → ((n : String) → contains n ms ≡ true → Edge fallbacks p n)
        → Inv routes fallbacks s
        → ((n : String) → Edge fallbacks p n → Stacked n s.visiting)
        → Reach fallbacks root p
        → visit_all (visit routes fallbacks fuel) ms s ≡ some (err e)
        → Fault root e
    unfolding visit_all
    visit_all-Fault fuel blames p [] s e edges i k r h = cc
    visit_all-Fault fuel blames p (m ∷ ms) s e edges i k r h =
        elim (next-eq-err (visit routes fallbacks fuel m s) _ h) [
          | inl now ↦ blames m s e i (k m edge) (step r edge) now
          | inr (t, o, later) ↦
              visit_all-Fault fuel blames p ms t e (λ n c. edges n (contains-cons n m ms c))
                (done t o).inv (λ n c. subst (Stacked n) (sym (done t o).stack) (k n c)) r later
        ]
      where
        edge : Edge fallbacks p m
        edge = edges m (contains-cons_self m ms)

        done :
            (t : Visit)
            → visit routes fallbacks fuel m s ≡ some (ok t)
            → Visited routes fallbacks (m ∷ []) s t
        done t o = visit-Visited routes fallbacks fuel m s t i o

    enter-Fault :
        (fuel : ℕ)
        → Blames (visit routes fallbacks fuel)
        → Blames (enter routes fallbacks (visit routes fallbacks fuel))
    enter-Fault fuel blames m s e i k r h = elim (Bool-cases (contains m s.visiting)) [
      | inl on ↦
          let (f, edge, w) = Stacked-returns m m s.visiting k on in
          (
            m,
            cc (enter_stacked routes fallbacks go m s on),
            r,
            record { first = f; leaves = edge; returns = w },
          )
      | inr off ↦ elim (Bool-cases (contains m s.visited)) [
        | inl old ↦ absurd (cc (enter_again routes fallbacks go m s off old))
        | inr new ↦ elim (next-eq-err _ _ (sym (enter_first routes fallbacks go m s off new) ∙ h)) [
          | inl below ↦
              visit_all-Fault fuel blames m (entries m fallbacks) (start routes fallbacks m s) e
                (λ n c. c) (start-Inv routes fallbacks m s new i) (λ n c. (c, k)) r below
          | inr (t, _, q) ↦ absurd (cc q)
        ]
      ]
    ]
      where
        go : String → Visit → Outcome Visit
        go = visit routes fallbacks fuel

    pub visit-Fault : (fuel : ℕ) → Blames (visit routes fallbacks fuel)
    unfolding visit
    visit-Fault zero m s e i k r h = cc
    visit-Fault (suc fuel) m s e i k r h = enter-Fault fuel (visit-Fault fuel) m s e i k r h
