-- ===== src/Domain/Plan/Laws.antt =====
-- `candidate_plan` against the fallback graph (crates/slg-domain/src/lib.rs).
use smart_llm_gateway.Prelude.{
  ℕ, String, ◌≡◌, ◌≢◌, refl, sym, ap, ap₂, ◌∙◌, subst, ◌↔◌, inl, inr, true, some, List, [], ◌∷◌,
  ◌++◌, arith, Result, ok, err, contains, contains-cons_self, contains-singleton, Distinct,
}
use smart_llm_gateway.Domain.Route.{RouteCandidate}
use smart_llm_gateway.Domain.Plan.{
  Dict, DomainError, unknown_model, fallback_cycle, no_eligible_route, Visit, next, visit,
  routes_by_model, finish, unvisited, candidate_plan, sort_by_priority,
}
use smart_llm_gateway.Domain.Plan.Graph
use smart_llm_gateway.Domain.Plan.Graph.{Edge, Reach, here, Safe, Cycle}
use smart_llm_gateway.Domain.Plan.Group.{
  routes_of, get-routes_by_model, entries-routes_by_model, sort_by_priority-ne-nil,
}
use smart_llm_gateway.Domain.Plan.Visits.{
  output_of, Visited, visit-Visited, visit_suffix, unvisited-Inv,
}
use smart_llm_gateway.Domain.Plan.Cycles.{visit-Fault}
use smart_llm_gateway.Domain.Plan.Total.{plan_fuel, visit_Ends}

-- The routes of `models`, the last model first, each model's routes in the order of their priorities.
abbrev pub plan_of : List RouteCandidate → List String → List RouteCandidate
plan_of routes [] = []
plan_of routes (m ∷ ms) = plan_of routes ms ++ sort_by_priority (routes_of m routes)

module _ (routes : List RouteCandidate) (fallbacks : Dict (List String)) where
  output_of-eq-plan_of :
      (ms : List String) → output_of (routes_by_model routes) fallbacks ms ≡ plan_of routes ms
  output_of-eq-plan_of [] = refl
  output_of-eq-plan_of (m ∷ ms) =
      ap₂ ◌++◌ (output_of-eq-plan_of ms) (entries-routes_by_model m routes)

  candidate_plan_unknown :
      (fuel : ℕ) (requested : String)
      → routes_of requested routes ≡ []
      → candidate_plan fuel requested routes fallbacks ≡ some (err (unknown_model requested))
  unfolding candidate_plan
  candidate_plan_unknown fuel requested h = ground (arith, get-routes_by_model requested routes)

  candidate_plan_known :
      (fuel : ℕ) (requested : String) (r : RouteCandidate) (rs : List RouteCandidate)
      → routes_of requested routes ≡ r ∷ rs
      → candidate_plan fuel requested routes fallbacks
        ≡ next
            (visit (routes_by_model routes) fallbacks fuel requested unvisited)
            (λ s. some (finish requested s))
  unfolding candidate_plan
  candidate_plan_known fuel requested r rs h = ground (arith, get-routes_by_model requested routes)

  plan_of-ne-nil :
      (later : List String) (m : String) (r : RouteCandidate) (rs : List RouteCandidate)
      → routes_of m routes ≡ r ∷ rs
      → plan_of routes (later ++ m ∷ []) ≢ []
  plan_of-ne-nil [] m r rs h e = sort_by_priority-ne-nil r rs (rw h at e)
  plan_of-ne-nil (k ∷ ks) m r rs h e = plan_of-ne-nil ks m r rs h (ground arith)

  module _ (fuel : ℕ) (requested : String) (t : Visit)
      (ended : visit (routes_by_model routes) fallbacks fuel requested unvisited
        ≡ some (ok t)) where
    done : Visited (routes_by_model routes) fallbacks (requested ∷ []) unvisited t
    done =
        visit-Visited (routes_by_model routes) fallbacks fuel requested unvisited t
          (unvisited-Inv (routes_by_model routes) fallbacks) ended

    visited-Reach : (m : String) → contains m t.visited ≡ true → Reach fallbacks requested m
    visited-Reach m h = elim (done.reached m h) [
      | inl old ↦ cc
      | inr (n, k, r) ↦ subst (λ x. Reach fallbacks x m) (contains-singleton n requested k) r
    ]

    Reach-visited : {m : String} → Reach fallbacks requested m → contains m t.visited ≡ true
    Reach-visited here = done.entered requested (contains-cons_self requested [])
    Reach-visited (Graph.step {n} {k} r e) =
        done.inv.closed n k (Reach-visited r) (rw done.stack refl) e

    visited-Safe : Safe fallbacks requested
    visited-Safe = done.inv.settled requested (Reach-visited here) (rw done.stack refl)

    output-eq-plan_of : t.output ≡ plan_of routes t.visited
    output-eq-plan_of = done.inv.output ∙ output_of-eq-plan_of t.visited

    visited_suffix : (later : List String) × (t.visited ≡ later ++ requested ∷ [])
    visited_suffix =
        visit_suffix (routes_by_model routes) fallbacks fuel requested unvisited t
          (unvisited-Inv (routes_by_model routes) fallbacks) refl refl ended

    output-ne-nil :
        (r : RouteCandidate) (rs : List RouteCandidate)
        → routes_of requested routes ≡ r ∷ rs
        → t.output ≢ []
    output-ne-nil r rs h e =
        plan_of-ne-nil visited_suffix.0 requested r rs h
          (sym (output-eq-plan_of ∙ ap (plan_of routes) visited_suffix.1) ∙ e)

    finish_lem :
        (r : RouteCandidate) (rs : List RouteCandidate)
        → routes_of requested routes ≡ r ∷ rs
        → finish requested t ≡ ok t.output
    finish_lem r rs h = ground (arith, output-ne-nil r rs h)

    finished-ok :
        (r : RouteCandidate) (rs : List RouteCandidate)
        → routes_of requested routes ≡ r ∷ rs
        → candidate_plan fuel requested routes fallbacks ≡ some (ok t.output)
    finished-ok r rs h =
        candidate_plan_known fuel requested r rs h ∙ rw ended (ap some (finish_lem r rs h))

  -- A plan is the concatenation, in the order of the expansion, of the routes of each model that can
  -- be reached by fallbacks from the requested one, which comes first, every model once and its
  -- routes sorted by priority; and no fallback cycle can be reached.
  unfoldable pub PlanFor : String → List RouteCandidate → Type 0
  PlanFor requested plan =
      (later : List String) × (plan ≡ plan_of routes (later ++ requested ∷ []))
      × Distinct (later ++ requested ∷ [])
      × ((m : String) → (contains m (later ++ requested ∷ []) ≡ true) ↔ Reach fallbacks requested m)
      × Safe fallbacks requested

  visit-PlanFor :
      (fuel : ℕ) (requested : String) (t : Visit)
      → visit (routes_by_model routes) fallbacks fuel requested unvisited ≡ some (ok t)
      → PlanFor requested t.output
  unfolding PlanFor
  visit-PlanFor fuel requested t e =
      let (later, q) = visited_suffix fuel requested t e in
      (
        later,
        output-eq-plan_of fuel requested t e ∙ ap (plan_of routes) q,
        subst Distinct q (done fuel requested t e).inv.distinct,
        (λ m. (
          λ h. visited-Reach fuel requested t e m (rw q h),
          λ r. rw q at (Reach-visited fuel requested t e r),
        )),
        visited-Safe fuel requested t e,
      )

  -- The outcome of `candidate_plan` for a requested model.
  pub data Planned (requested : String) : Result (List RouteCandidate) DomainError → Type 0 where
    unknown : routes_of requested routes ≡ [] → Planned requested (err (unknown_model requested))
    cyclic :
        (c : String)
        → routes_of requested routes ≢ []
        → Reach fallbacks requested c
        → Cycle fallbacks c
        → Planned requested (err (fallback_cycle c))
    planned :
        (plan : List RouteCandidate)
        → routes_of requested routes ≢ []
        → plan ≢ []
        → PlanFor requested plan
        → Planned requested (ok plan)

  Planned-known :
      (requested : String) (r : RouteCandidate) (rs : List RouteCandidate)
      → routes_of requested routes ≡ r ∷ rs
      → (o : Result Visit DomainError)
      → visit (routes_by_model routes) fallbacks (plan_fuel requested fallbacks) requested unvisited
        ≡ some o
      → (p : Result (List RouteCandidate) DomainError) × (candidate_plan
            (plan_fuel requested fallbacks)
            requested
            routes
            fallbacks
          ≡ some p)
        × Planned requested p
  Planned-known requested r rs h (ok t) e = (
    ok t.output,
    finished-ok (plan_fuel requested fallbacks) requested t e r rs h,
    planned t.output (λ n. cc) (output-ne-nil (plan_fuel requested fallbacks) requested t e r rs h)
        (visit-PlanFor (plan_fuel requested fallbacks) requested t e),
  )
  Planned-known requested r rs h (err d) e =
      let (c, q, w, k) =
        visit-Fault (routes_by_model routes) fallbacks requested (plan_fuel requested fallbacks)
          requested unvisited d (unvisited-Inv (routes_by_model routes) fallbacks) tt here e in
      (
        err (fallback_cycle c),
        candidate_plan_known (plan_fuel requested fallbacks) requested r rs h ∙ rw (e, q),
        cyclic c (λ n. cc) w k,
      )

  -- With `plan_fuel` the plan is computed, whatever the graph: it is an unknown model when no route
  -- is configured for it, the report of a model on a fallback cycle that can be reached, or a
  -- non-empty plan that has exactly the routes of the models that can be reached.
  pub candidate_plan-Planned :
      (requested : String)
      → (p : Result (List RouteCandidate) DomainError) × (candidate_plan
            (plan_fuel requested fallbacks)
            requested
            routes
            fallbacks
          ≡ some p)
        × Planned requested p
  candidate_plan-Planned requested = by_routes (routes_of requested routes) refl
    where
      by_routes :
          (l : List RouteCandidate)
          → routes_of requested routes ≡ l
          → (p : Result (List RouteCandidate) DomainError) × (candidate_plan
                (plan_fuel requested fallbacks)
                requested
                routes
                fallbacks
              ≡ some p)
            × Planned requested p
      by_routes [] h = (
        err (unknown_model requested),
        candidate_plan_unknown (plan_fuel requested fallbacks) requested h,
        unknown h,
      )
      by_routes (r ∷ rs) h =
          let (o, e) = visit_Ends (routes_by_model routes) fallbacks requested in
          Planned-known requested r rs h o e

  -- With `plan_fuel` the plan is never refused for the lack of an eligible route, whatever the configuration: where
  -- the requested model has no route the refusal is that it is unknown.
  pub candidate_plan-ne-no_eligible_route :
      (requested m : String)
      → candidate_plan (plan_fuel requested fallbacks) requested routes fallbacks
        ≢ some (err (no_eligible_route m))
  candidate_plan-ne-no_eligible_route requested m h =
      let (p, e, k) = candidate_plan-Planned requested in not_refused p k (cc)
    where
      not_refused :
          (p : Result (List RouteCandidate) DomainError)
          → Planned requested p
          → p ≢ err (no_eligible_route m)
      not_refused p (unknown n) q = cc
      not_refused p (cyclic c n r k) q = cc
      not_refused p (planned plan n k s) q = cc
