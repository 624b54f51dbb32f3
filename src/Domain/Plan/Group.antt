-- ===== src/Domain/Plan/Group.antt =====
-- What `routes_by_model` holds for each model (`candidate_plan`): its routes, in a stable order by
-- priority.
use mathlib.Core.List.{Perm}
use mathlib.Core.List.Perm
use mathlib.Core.Option
use smart_llm_gateway.Prelude.{
  ℕ, String, ◌≡◌, refl, ap, ◌∙◌, ◌≤◌, Option, none, some, List, [], ◌∷◌, ◌++◌, append_assoc, arith,
  ◌==◌, eq_iff, eqb, leb, if◌then◌else◌, filter, All, inl, inr, ◌≢◌, Bool-cases,
}
use smart_llm_gateway.Domain.Route.{RouteCandidate}
use smart_llm_gateway.Domain.Plan.{
  Dict, get, entries, push_route, group_from, insert_by_priority, sort_by_priority, sort_entries,
  routes_by_model,
}

-- The routes that are configured for a model, in the order of the input.
abbrev pub routes_of : String → List RouteCandidate → List RouteCandidate
routes_of m routes = filter (λ r. r.logical_model == m) routes

abbrev from_entry : Option (List RouteCandidate) → List RouteCandidate
from_entry none = []
from_entry (some rs) = rs

-- The entry of a model after the routes `rs` are pushed to the entry `o`.
abbrev merge : Option (List RouteCandidate) → List RouteCandidate → Option (List RouteCandidate)
merge o [] = o
merge o (r ∷ rs) = some (from_entry o ++ r ∷ rs)

get-push_route :
    (m : String) (r : RouteCandidate) (d : Dict (List RouteCandidate))
    → get m (push_route r d)
      ≡ (if r.logical_model == m then some (from_entry (get m d) ++ r ∷ []) else get m d)
unfolding push_route
get-push_route m r [] = ground (arith, eq_iff m r.logical_model, eq_iff r.logical_model m)
get-push_route m r ((k, rs) ∷ d) = ground (
  arith,
  eq_iff m r.logical_model,
  eq_iff r.logical_model m,
  eq_iff r.logical_model k,
  eq_iff m k,
  get-push_route m r d,
)

merge-step :
    (o : Option (List RouteCandidate)) (r : RouteCandidate) (rs : List RouteCandidate)
    → merge (some (from_entry o ++ r ∷ [])) rs ≡ merge o (r ∷ rs)
merge-step o r [] = refl
merge-step o r (x ∷ rs) = ap some (append_assoc (from_entry o) (r ∷ []) (x ∷ rs))

get-group_from :
    (m : String) (d : Dict (List RouteCandidate)) (routes : List RouteCandidate)
    → get m (group_from d routes) ≡ merge (get m d) (routes_of m routes)
unfolding group_from
get-group_from m d [] = refl
get-group_from m d (r ∷ rs) =
    get-group_from m (push_route r d) rs
    ∙ ap (λ o. merge o (routes_of m rs)) (get-push_route m r d)
    ∙ last
  where
    last :
        merge
          (if r.logical_model == m then some (from_entry (get m d) ++ r ∷ []) else get m d)
          (routes_of m rs)
        ≡ merge (get m d) (routes_of m (r ∷ rs))
    last = ground (arith, merge-step (get m d) r (routes_of m rs))

get-sort_entries :
    (m : String) (d : Dict (List RouteCandidate))
    → get m (sort_entries d) ≡ Option.map sort_by_priority (get m d)
unfolding sort_entries
get-sort_entries m [] = refl
get-sort_entries m ((k, rs) ∷ d) = ground (arith, get-sort_entries m d)

-- A model without routes has no entry, any other the sorted list of its routes.
pub get-routes_by_model :
    (m : String) (routes : List RouteCandidate)
    → get m (routes_by_model routes)
      ≡ elim (routes_of m routes) [ [] ↦ none | r ∷ rs ↦ some (sort_by_priority (r ∷ rs)) ]
unfolding routes_by_model
get-routes_by_model m routes =
    get-sort_entries m (group_from [] routes)
    ∙ rw (get-group_from m [] routes) (last (routes_of m routes))
  where
    last :
        (l : List RouteCandidate)
        → Option.map sort_by_priority (merge none l)
          ≡ elim l [ [] ↦ none | r ∷ rs ↦ some (sort_by_priority (r ∷ rs)) ]
    last [] = refl
    last (r ∷ rs) = refl

pub entries-routes_by_model :
    (m : String) (routes : List RouteCandidate)
    → entries m (routes_by_model routes) ≡ sort_by_priority (routes_of m routes)
unfolding sort_by_priority
entries-routes_by_model m routes = ground (arith, get-routes_by_model m routes)

abbrev pub IsSorted : List RouteCandidate → Type 0
IsSorted [] = Unit
IsSorted (r ∷ rs) = All (λ s. r.priority ≤ s.priority) rs × IsSorted rs

All-insert :
    (n : ℕ) (r : RouteCandidate) (rs : List RouteCandidate)
    → n ≤ r.priority
    → All (λ s. n ≤ s.priority) rs
    → All (λ s. n ≤ s.priority) (insert_by_priority r rs)
unfolding insert_by_priority
All-insert n r [] h k = (h, tt)
All-insert n r (s ∷ ss) h k = ground (arith, All-insert n r ss h k.1)

All-weaken :
    (m n : ℕ) (rs : List RouteCandidate)
    → m ≤ n
    → All (λ s. n ≤ s.priority) rs
    → All (λ s. m ≤ s.priority) rs
All-weaken m n [] h k = tt
All-weaken m n (s ∷ ss) h k = (omega arith, All-weaken m n ss h k.1)

insert-IsSorted :
    (r : RouteCandidate) (rs : List RouteCandidate)
    → IsSorted rs
    → IsSorted (insert_by_priority r rs)
unfolding insert_by_priority
insert-IsSorted r [] h = (tt, tt)
insert-IsSorted r (s ∷ ss) h = ground (
  arith,
  insert-IsSorted r ss h.1,
  All-insert s.priority r ss,
  All-weaken r.priority s.priority ss,
)

insert-perm :
    (r : RouteCandidate) (rs : List RouteCandidate) → Perm (insert_by_priority r rs) (r ∷ rs)
unfolding insert_by_priority
insert-perm r [] = Perm.refl (r ∷ [])
insert-perm r (s ∷ ss) = elim (Bool-cases (leb r.priority s.priority)) [
  | inl le ↦ rw le (Perm.refl (r ∷ s ∷ ss))
  | inr gt ↦ rw gt (Perm.trans (Perm.cons s (insert-perm r ss)) (Perm.swap r s ss))
]

insert-stable :
    (p : ℕ) (r : RouteCandidate) (rs : List RouteCandidate)
    → filter (λ s. eqb s.priority p) (insert_by_priority r rs)
      ≡ filter (λ s. eqb s.priority p) (r ∷ rs)
unfolding insert_by_priority
insert-stable p r [] = refl
insert-stable p r (s ∷ ss) = ground (arith, insert-stable p r ss)

-- The sort puts the routes in the order of their priorities, and loses and adds none.
pub sort_by_priority-IsSorted :
    (rs : List RouteCandidate) → IsSorted (sort_by_priority rs) × Perm (sort_by_priority rs) rs
unfolding sort_by_priority
sort_by_priority-IsSorted [] = (tt, Perm.refl [])
sort_by_priority-IsSorted (r ∷ rs) =
    let (s, p) = sort_by_priority-IsSorted rs in
    (
      insert-IsSorted r (sort_by_priority rs) s,
      Perm.trans (insert-perm r (sort_by_priority rs)) (Perm.cons r p),
    )

-- Routes of one priority keep their order.
pub sort_by_priority_stable :
    (p : ℕ) (rs : List RouteCandidate)
    → filter (λ s. eqb s.priority p) (sort_by_priority rs) ≡ filter (λ s. eqb s.priority p) rs
unfolding sort_by_priority
sort_by_priority_stable p [] = refl
sort_by_priority_stable p (r ∷ rs) =
    insert-stable p r (sort_by_priority rs)
    ∙ ap (λ l. if eqb r.priority p then r ∷ l else l) (sort_by_priority_stable p rs)

-- A model that has a route has one in its entry.
pub sort_by_priority-ne-nil :
    (r : RouteCandidate) (rs : List RouteCandidate) → sort_by_priority (r ∷ rs) ≢ []
unfolding sort_by_priority insert_by_priority
sort_by_priority-ne-nil r rs h = ground (arith, insert_ne r (sort_by_priority rs) h)
  where
    insert_ne : (r : RouteCandidate) (l : List RouteCandidate) → insert_by_priority r l ≢ []
    insert_ne r [] h = cc
    insert_ne r (s ∷ ss) h = ground arith
