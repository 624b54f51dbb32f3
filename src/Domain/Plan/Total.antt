-- ===== src/Domain/Plan/Total.antt =====
-- The recursion of `visit` ends: its depth is bounded by the models that are not on the stack.
use smart_llm_gateway.Prelude.{
  ℕ, zero, suc, ◌≤◌, ◌<◌, String, ◌≡◌, refl, inl, inr, true, false, none, some, List, [], ◌∷◌, ◌++◌,
  arith, ok, err, Result, Bool-cases, if◌then◌else◌, eq_iff, contains, contains-cons_self,
  contains-cons, contains-append_left, contains-append_right, length,
}
use smart_llm_gateway.Domain.Route.{RouteCandidate}
use smart_llm_gateway.Domain.Plan.{
  Dict, DomainError, Visit, Outcome, next, entries, visit_all, visit, leave, unvisited,
}
use smart_llm_gateway.Domain.Plan.Graph.{Edge}
use smart_llm_gateway.Domain.Plan.Visits.{
  Inv, start, start-Inv, visit-Visited, enter_stacked, enter_again, enter_first, unvisited-Inv,
}

-- How many of `us` are not among `vs`.
remaining : List String → List String → ℕ
remaining [] vs = 0
remaining (u ∷ us) vs = if contains u vs then remaining us vs else suc (remaining us vs)

remaining-le : (m : String) (us vs : List String) → remaining us (m ∷ vs) ≤ remaining us vs
unfolding remaining
remaining-le m [] vs = omega arith
remaining-le m (u ∷ us) vs = ground (arith, remaining-le m us vs)

remaining-lt :
    (m : String) (us vs : List String)
    → contains m us ≡ true
    → contains m vs ≡ false
    → remaining us (m ∷ vs) < remaining us vs
unfolding remaining
remaining-lt m [] vs h k = cc
remaining-lt m (u ∷ us) vs h k =
    ground (arith, remaining-le m us vs, remaining-lt m us vs, eq_iff m u, eq_iff u m)

remaining-nil : (us : List String) → remaining us [] ≡ length us
unfolding remaining
remaining-nil [] = refl
remaining-nil (u ∷ us) = ground (arith, remaining-nil us)

-- Every model that some entry names as a fallback.
unfoldable pub targets : Dict (List String) → List String
targets [] = []
targets ((m, ns) ∷ d) = ns ++ targets d

Edge-targets :
    (m n : String) (fallbacks : Dict (List String))
    → Edge fallbacks m n
    → contains n (targets fallbacks) ≡ true
unfolding targets
Edge-targets m n [] h = cc
Edge-targets m n ((k, ns) ∷ d) h = ground (
  arith,
  contains-append_left n ns (targets d),
  contains-append_right n ns (targets d),
  Edge-targets m n d,
)

-- Enough fuel for the expansion of `requested`.
unfoldable pub plan_fuel : String → Dict (List String) → ℕ
unfolding targets
plan_fuel requested fallbacks = suc (length (requested ∷ targets fallbacks))

module _ (routes : Dict (List RouteCandidate)) (fallbacks : Dict (List String)) (us : List String)
    (closed : (m n : String) → Edge fallbacks m n → contains n us ≡ true) where
  abbrev Ends : Outcome Visit → Type 0
  Ends o = (r : Result Visit DomainError) × (o ≡ some r)

  Ends-next :
      (o : Outcome Visit) (f : Visit → Outcome Visit)
      → Ends o
      → ((t : Visit) → o ≡ some (ok t) → Ends (f t))
      → Ends (next o f)
  Ends-next none f (r, e) k = cc
  Ends-next (some (ok t)) f h k = k t refl
  Ends-next (some (err d)) f h k = (err d, refl)

  abbrev EndsBelow : ℕ → Type 0
  EndsBelow fuel =
      (m : String) (s : Visit)
      → contains m us ≡ true
      → Inv routes fallbacks s
      → remaining us s.visiting < fuel
      → Ends (visit routes fallbacks fuel m s)

  visit_all-Ends :
      (fuel : ℕ)
      → EndsBelow fuel
      → (ms : List String) (s : Visit)
      → ((n : String) → contains n ms ≡ true → contains n us ≡ true)
      → Inv routes fallbacks s
      → remaining us s.visiting < fuel
      → Ends (visit_all (visit routes fallbacks fuel) ms s)
  unfolding visit_all
  visit_all-Ends fuel ends [] s known i h = (ok s, refl)
  visit_all-Ends fuel ends (m ∷ ms) s known i h =
      Ends-next (visit routes fallbacks fuel m s) (visit_all (visit routes fallbacks fuel) ms)
        (ends m s (known m (contains-cons_self m ms)) i h)
        λ t o.
          let done = visit-Visited routes fallbacks fuel m s t i o in
          visit_all-Ends fuel ends ms t (λ n c. known n (contains-cons n m ms c)) done.inv
            (rw done.stack h)

  visit-Ends : (fuel : ℕ) → EndsBelow fuel
  unfolding visit
  visit-Ends zero m s known i h = elim h [ ]
  visit-Ends (suc fuel) m s known i h = elim (Bool-cases (contains m s.visiting)) [
    | inl on ↦ (_, enter_stacked routes fallbacks go m s on)
    | inr off ↦ elim (Bool-cases (contains m s.visited)) [
      | inl old ↦ (ok s, enter_again routes fallbacks go m s off old)
      | inr new ↦ rw (enter_first routes fallbacks go m s off new) (
          Ends-next _ (λ t. some (ok (leave m t)))
            (visit_all-Ends fuel (visit-Ends fuel) (entries m fallbacks)
              (start routes fallbacks m s) (λ n c. closed m n c)
              (start-Inv routes fallbacks m s new i)
              (omega (arith, remaining-lt m us s.visiting known off)))
            (λ t o. (ok (leave m t), refl)))
    ]
  ]
    where
      go : String → Visit → Outcome Visit
      go = visit routes fallbacks fuel

-- With `plan_fuel` the expansion of a model ends, normally or by an error.
pub visit_Ends :
    (routes : Dict (List RouteCandidate)) (fallbacks : Dict (List String)) (requested : String)
    → (r : Result Visit DomainError) × (visit routes fallbacks
          (plan_fuel requested fallbacks)
          requested
          unvisited
        ≡ some r)
unfolding plan_fuel
visit_Ends routes fallbacks requested =
    visit-Ends routes fallbacks us
      (λ m n e. contains-cons n requested (targets fallbacks) (Edge-targets m n fallbacks e))
      (suc (length us)) requested unvisited (contains-cons_self requested (targets fallbacks))
      (unvisited-Inv routes fallbacks) (omega (arith, remaining-nil us))
  where
    us : List String
    us = requested ∷ targets fallbacks
