-- ===== src/Domain/Plan/Keeps.antt =====
-- What holds of every configured route holds of every route of a plan (crates/slg-domain/src/lib.rs).
use smart_llm_gateway.Prelude.{
  String, ◌≡◌, sym, subst, some, List, [], ◌∷◌, ◌++◌, Bool, true, false, Result, ok, err, All, leb,
  if◌then◌else◌, ◌==◌,
}
use smart_llm_gateway.Domain.Route.{RouteCandidate}
use smart_llm_gateway.Domain.Plan.{
  Dict, DomainError, candidate_plan, sort_by_priority, insert_by_priority,
}
use smart_llm_gateway.Domain.Plan.Total.{plan_fuel}
use smart_llm_gateway.Domain.Plan.Group.{routes_of}
use smart_llm_gateway.Domain.Plan.Laws.{
  plan_of, PlanFor, Planned, unknown, cyclic, planned, candidate_plan-Planned,
}

module _ (P : RouteCandidate → Type 0) where
  All-append : (xs ys : List RouteCandidate) → All P xs → All P ys → All P (xs ++ ys)
  All-append [] ys h k = k
  All-append (x ∷ xs) ys h k = (h.0, All-append xs ys h.1 k)

  All-routes_of : (m : String) (rs : List RouteCandidate) → All P rs → All P (routes_of m rs)
  All-routes_of m [] h = tt
  All-routes_of m (r ∷ rs) h = chosen (r.logical_model == m) (All-routes_of m rs h.1)
    where
      chosen :
          (b : Bool)
          → All P (routes_of m rs)
          → All P (if b then r ∷ routes_of m rs else routes_of m rs)
      chosen true k = (h.0, k)
      chosen false k = k

  All-insert :
      (r : RouteCandidate) (rs : List RouteCandidate)
      → P r
      → All P rs
      → All P (insert_by_priority r rs)
  unfolding insert_by_priority
  All-insert r [] p h = (p, tt)
  All-insert r (s ∷ ss) p h = placed (leb r.priority s.priority) (All-insert r ss p h.1)
    where
      placed :
          (b : Bool)
          → All P (insert_by_priority r ss)
          → All P (if b then r ∷ s ∷ ss else s ∷ insert_by_priority r ss)
      placed true k = (p, (h.0, h.1))
      placed false k = (h.0, k)

  All-sort : (rs : List RouteCandidate) → All P rs → All P (sort_by_priority rs)
  unfolding sort_by_priority
  All-sort [] h = tt
  All-sort (r ∷ rs) h = All-insert r (sort_by_priority rs) h.0 (All-sort rs h.1)

  All-plan_of : (rs : List RouteCandidate) (ms : List String) → All P rs → All P (plan_of rs ms)
  All-plan_of rs [] h = tt
  All-plan_of rs (m ∷ ms) h =
      All-append (plan_of rs ms) (sort_by_priority (routes_of m rs)) (All-plan_of rs ms h)
        (All-sort (routes_of m rs) (All-routes_of m rs h))

  abbrev pub AllPlanned : Result (List RouteCandidate) DomainError → Type 0
  AllPlanned (ok plan) = All P plan
  AllPlanned (err e) = Unit

  Planned-All :
      (rs : List RouteCandidate) (d : Dict (List String)) (m : String)
      (p : Result (List RouteCandidate) DomainError)
      → All P rs
      → Planned rs d m p
      → AllPlanned p
  unfolding PlanFor
  Planned-All rs d m p h (unknown e) = tt
  Planned-All rs d m p h (cyclic c n r k) = tt
  Planned-All rs d m p h (planned plan n k s) =
      subst (All P) (sym s.1) (All-plan_of rs (s.0 ++ m ∷ []) h)

  -- Whatever holds of every route holds of every route of a plan.
  pub candidate_plan-All :
      (rs : List RouteCandidate) (d : Dict (List String)) (m : String)
      → All P rs
      → (p : Result (List RouteCandidate) DomainError) × (candidate_plan (plan_fuel m d) m rs d
          ≡ some p)
        × AllPlanned p
  candidate_plan-All rs d m h =
      let (p, e, k) = candidate_plan-Planned rs d m in (p, e, Planned-All rs d m p h k)
