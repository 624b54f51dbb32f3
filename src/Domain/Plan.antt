-- ===== src/Domain/Plan.antt =====
-- `candidate_plan` (crates/slg-domain/src/lib.rs): the depth-first expansion of a logical model and
-- its fallbacks into an ordered list of routes.
pub mod Graph
pub mod Group
pub mod Total
pub mod Visits
pub mod Cycles
pub mod Laws
pub mod Keeps
mod Tests
use Prim.Native.String.{◌++◌ as append}
use smart_llm_gateway.Prelude.{
  ℕ, zero, suc, String, Bool, true, false, Option, none, some, List, [], ◌∷◌, ◌++◌, ◌==◌, leb,
  if◌then◌else◌, Result, ok, err, contains, remove, is_empty,
}
use smart_llm_gateway.Domain.Route.{RouteCandidate}

pub data DomainError : Type 0 where
  unknown_model fallback_cycle no_eligible_route : String → DomainError

-- `to_string` of the error.
abbrev pub domain_error : DomainError → String
domain_error (unknown_model m) = append "requested logical model `" (append m "` is not configured")
domain_error (fallback_cycle m) = append "fallback graph contains a cycle at `" (append m "`")
domain_error (no_eligible_route m) = append "no eligible route exists for `" (append m "`")

-- A map from texts: `HashMap<&str, Vec<&RouteCandidate>>`, `BTreeMap<String, Vec<String>>`. The code
-- only looks keys up, so the order of the entries does not matter.
abbrev pub Dict : Type 0 → Type 0
Dict V = List (String × V)

abbrev pub get : {V : Type 0} → String → Dict V → Option V
get k [] = none
get k ((j, v) ∷ d) = if k == j then some v else get k d

-- `routes_by_model.entry(&route.logical_model).or_default().push(route)`
pub push_route : RouteCandidate → Dict (List RouteCandidate) → Dict (List RouteCandidate)
push_route r [] = (r.logical_model, r ∷ []) ∷ []
push_route r ((m, rs) ∷ d) =
    if r.logical_model == m then (m, rs ++ r ∷ []) ∷ d else (m, rs) ∷ push_route r d

pub group_from : Dict (List RouteCandidate) → List RouteCandidate → Dict (List RouteCandidate)
group_from d [] = d
group_from d (r ∷ rs) = group_from (push_route r d) rs

-- `sort_by_key(|route| route.priority)`, which is stable: by insertion.
pub insert_by_priority : RouteCandidate → List RouteCandidate → List RouteCandidate
insert_by_priority r [] = r ∷ []
insert_by_priority r (s ∷ ss) =
    if leb r.priority s.priority then r ∷ s ∷ ss else s ∷ insert_by_priority r ss

pub sort_by_priority : List RouteCandidate → List RouteCandidate
sort_by_priority [] = []
sort_by_priority (r ∷ rs) = insert_by_priority r (sort_by_priority rs)

pub sort_entries : Dict (List RouteCandidate) → Dict (List RouteCandidate)
sort_entries [] = []
sort_entries ((m, rs) ∷ d) = (m, sort_by_priority rs) ∷ sort_entries d

-- The local `routes_by_model` of `candidate_plan`, after both of its loops.
unfoldable pub routes_by_model : List RouteCandidate → Dict (List RouteCandidate)
unfolding sort_entries group_from
routes_by_model routes = sort_entries (group_from [] routes)

-- The three mutable arguments of `visit`.
pub record Visit : Type 0 where
  pub visiting : List String
  pub visited : List String
  pub output : List RouteCandidate

-- `none` stands for a recursion that was cut off by its fuel.
abbrev pub Outcome : Type 0 → Type 0
Outcome A = Option (Result A DomainError)

abbrev pub next : {A B : Type 0} → Outcome A → (A → Outcome B) → Outcome B
next none f = none
next (some (err e)) f = some (err e)
next (some (ok a)) f = f a

-- `get(model)` as the code uses it: a missing key is an empty list.
abbrev pub entries : {A : Type 0} → String → Dict (List A) → List A
entries m d = elim (get m d) [ none ↦ [] | some xs ↦ xs ]

-- `for next in next_models { visit(next, …)?; }`
pub visit_all : (String → Visit → Outcome Visit) → List String → Visit → Outcome Visit
visit_all go [] s = some (ok s)
visit_all go (m ∷ ms) s = next (go m s) (visit_all go ms)

-- `visiting.remove(model)`
abbrev pub leave : String → Visit → Visit
leave m s = record s { visiting = remove m s.visiting }

module _ (routes : Dict (List RouteCandidate)) (fallbacks : Dict (List String)) where
  -- The routes of a model that is seen for the first time, then its fallbacks.
  pub expand : (String → Visit → Outcome Visit) → String → Visit → Outcome Visit
  expand go m s =
      next
        (visit_all go (entries m fallbacks)
          (record s { visited = m ∷ s.visited; output = s.output ++ entries m routes }))
        (λ s'. some (ok (leave m s')))

  -- The body of `visit`, over the recursive call.
  pub enter : (String → Visit → Outcome Visit) → String → Visit → Outcome Visit
  enter go m s =
      if contains m s.visiting
      then some (err (fallback_cycle m))
      else if contains m s.visited
      then some (ok (leave m (record s { visiting = m ∷ s.visiting })))
      else expand go m (record s { visiting = m ∷ s.visiting })

  pub visit : ℕ → String → Visit → Outcome Visit
  visit zero m s = none
  visit (suc fuel) m s = enter (visit fuel) m s

-- What follows the expansion.
abbrev pub finish : String → Visit → Result (List RouteCandidate) DomainError
finish requested s = if is_empty s.output then err (no_eligible_route requested) else ok s.output

abbrev pub unvisited : Visit
unvisited = record { visiting = []; visited = []; output = [] }

-- `candidate_plan`, with fuel for the depth of the recursion.
unfoldable pub candidate_plan :
    ℕ → String → List RouteCandidate → Dict (List String) → Outcome (List RouteCandidate)
candidate_plan fuel requested routes fallbacks = elim (get requested (routes_by_model routes)) [
  | none ↦ some (err (unknown_model requested))
  | some rs ↦
      next (visit (routes_by_model routes) fallbacks fuel requested unvisited)
        (λ s. some (finish requested s))
]
