-- ===== src/Storage/Postgres/Candidates/Probes.antt =====
-- Which candidates a process probes (crates/slg-adapter-storage-postgres/src/lib.rs).
use smart_llm_gateway.Prelude.{
  String, ◌≡◌, ◌≢◌, refl, sym, ap, ◌∙◌, subst, Bool, true, false, Option, none, some, List, [], ◌∷◌,
  ◌==◌, if◌then◌else◌, Result, ok, err, All, eq_of_test, eq_iff, arith,
}
use smart_llm_gateway.Prelude.Int.{ℤ}
use smart_llm_gateway.Domain.Route.{RouteCandidate}
use smart_llm_gateway.Storage.Sqlite.Health.{Joined, plan_routes, group_fallbacks, sort_fallbacks}
use smart_llm_gateway.Storage.Sqlite.Health.Routing.{plan_routes-ne-none}
use smart_llm_gateway.Storage.Postgres.{
  ProbeLease, PostgresStore, finish_probe, probe_lease, acquire_with, owned, upsert_lease,
  transition, acquire_half_open_probe,
}
use smart_llm_gateway.Storage.Postgres.Candidates.{
  state_of, offered, after_probe, at_candidate, eligible, or_unavailable, with_plan, candidate_rows,
  candidates, routes_of_rows,
}

-- The process keeps a lease of `r`.
abbrev pub Owns : String → PostgresStore → Type 0
Owns r store = owned r store.probe_leases ≢ none

-- The candidates that are answered have the property.
abbrev pub Answers :
    (List RouteCandidate → PostgresStore → Type 0)
    → Result (List RouteCandidate) String × PostgresStore
    → Type 0
Answers P (err e, store) = Unit
Answers P (ok cs, store) = P cs store

abbrev pub Without : String → List RouteCandidate → PostgresStore → Type 0
Without r cs store = All (λ c. c.route_id ≢ r) cs

pub true_false : ◌≢◌ {A = Result Bool String} (ok true) (ok false)
true_false h = cc

owned-cons :
    (r id l : String) (ls : List (String × String))
    → owned r ls ≢ none
    → owned r ((id, l) ∷ ls) ≢ none
unfolding owned
owned-cons r id l ls n = ground (arith, eq_iff id r)

module _ (now : ℤ) where
  finish-Owns :
      (r id l : String) (store : PostgresStore) (ls : List ProbeLease) (b : Bool)
      → Owns r store
      → Owns r (finish_probe now id l store ls b).1
  finish-Owns r id l store ls false h = h
  finish-Owns r id l store ls true h = owned-cons r id l store.probe_leases h

  transition-Owns :
      (r id l : String) (store : PostgresStore) (o : Option (List ProbeLease))
      → Owns r store
      → Owns r (transition now id l store o).1
  unfolding transition
  transition-Owns r id l store none h = h
  transition-Owns r id l store (some ls) h = finish-Owns r id l store ls _ h

  acquire_with-Owns :
      (r id l : String) (store : PostgresStore) (o : Option String) (b : Bool)
      → Owns r store
      → Owns r (acquire_with now id l store o b).1
  unfolding acquire_with
  acquire_with-Owns r id l store (some _) b h = h
  acquire_with-Owns r id l store none false h = h
  acquire_with-Owns r id l store none true h =
      transition-Owns r id l store (upsert_lease now (probe_lease now id l) store.leases) h

  acquire-Owns :
      (r id l : String) (store : PostgresStore)
      → Owns r store
      → Owns r (acquire_half_open_probe now id l store).1
  unfolding acquire_half_open_probe
  acquire-Owns r id l store h = acquire_with-Owns r id l store _ _ h

  owned_with :
      (id l : String) (store : PostgresStore) (o : Option String) (b : Bool)
      → o ≢ none
      → acquire_with now id l store o b ≡ (ok false, store)
  unfolding acquire_with
  owned_with id l store none b h = absurd (h refl)
  owned_with id l store (some _) b h = refl

  acquire_owned :
      (id l : String) (store : PostgresStore)
      → Owns id store
      → acquire_half_open_probe now id l store ≡ (ok false, store)
  unfolding acquire_half_open_probe
  acquire_owned id l store h = owned_with id l store _ _ h

module _ (now : ℤ) (fresh : String → String) (rows : List Joined) (r : String) where
  offered-Without :
      (c : RouteCandidate) (x : Result (List RouteCandidate) String × PostgresStore)
      → c.route_id ≢ r
      → Answers (Without r) x
      → Answers (Without r) (offered c x)
  offered-Without c (err e, store) n h = tt
  offered-Without c (ok cs, store) n h = (n, h)

  -- The rest of the loop, from a store where the process owns the lease.
  abbrev Rest :
      (Bool → PostgresStore → Result (List RouteCandidate) String × PostgresStore) → Type 0
  Rest rest = (b : Bool) (store : PostgresStore) → Owns r store → Answers (Without r) (rest b store)

  after_probe-Without :
      (c : RouteCandidate)
      (rest : Bool → PostgresStore → Result (List RouteCandidate) String × PostgresStore)
      (x : Result Bool String × PostgresStore)
      → Rest rest
      → Owns r x.1
      → (c.route_id ≡ r → x.0 ≡ ok false)
      → Answers (Without r) (after_probe now fresh rows c rest x)
  unfolding after_probe
  after_probe-Without c rest (err e, store) k h n = tt
  after_probe-Without c rest (ok true, store) k h n =
      offered-Without c (rest false store) (λ e. true_false (n e)) (k false store h)
  after_probe-Without c rest (ok false, store) k h n = k true store h

  at_candidate-Without :
      (c : RouteCandidate)
      (rest : Bool → PostgresStore → Result (List RouteCandidate) String × PostgresStore)
      (o : Option String) (b : Bool) (store : PostgresStore)
      → Rest rest
      → Owns r store
      → (c.route_id ≡ r → o ≢ some "closed")
      → Answers (Without r) (at_candidate now fresh rows c rest o b store)
  unfolding at_candidate
  at_candidate-Without c rest none b store k h n = k b store h
  at_candidate-Without c rest (some state) b store k h n = by_state (state == "closed") refl b
    where
      by_state :
          (t : Bool)
          → (state == "closed") ≡ t
          → (b : Bool)
          → Answers (Without r) (
              if t
              then offered c (rest false store)
              else if b
              then after_probe now fresh rows c rest
                  (acquire_half_open_probe now c.route_id (fresh c.route_id) store)
              else rest b store)
      by_state true e b =
          offered-Without c (rest false store) (λ i. n i (ap some (eq_of_test state "closed" e)))
            (k false store h)
      by_state false e false = k false store h
      by_state false e true =
          after_probe-Without c rest
            (acquire_half_open_probe now c.route_id (fresh c.route_id) store) k
            (acquire-Owns now r c.route_id (fresh c.route_id) store h)
            (λ i.
              ap (λ x. x.0)
                (acquire_owned now c.route_id (fresh c.route_id) store
                  (subst (λ id. Owns id store) (sym i) h)))

  eligible-Without :
      (plan : List RouteCandidate) (b : Bool) (store : PostgresStore)
      → Owns r store
      → state_of r rows ≢ some "closed"
      → Answers (Without r) (eligible now fresh rows plan b store)
  unfolding eligible
  eligible-Without [] b store h n = tt
  eligible-Without (c ∷ plan) b store h n =
      at_candidate-Without c (eligible now fresh rows plan) (state_of c.route_id rows) b store
        (λ b' store' h'. eligible-Without plan b' store' h' n) h
        (λ i e. n (ap (λ id. state_of id rows) (sym i) ∙ e))

or_unavailable-Answers :
    (P : List RouteCandidate → PostgresStore → Type 0) (model : String)
    (x : Result (List RouteCandidate) String × PostgresStore)
    → Answers P x
    → Answers P (or_unavailable model x)
unfolding or_unavailable
or_unavailable-Answers P model (err e, store) h = tt
or_unavailable-Answers P model (ok [], store) h = tt
or_unavailable-Answers P model (ok (c ∷ cs), store) h = h

-- What `candidates` answers; the plan has fuel.
abbrev pub AnswersIf :
    (List RouteCandidate → PostgresStore → Type 0)
    → Option (Result (List RouteCandidate) String × PostgresStore)
    → Type 0
AnswersIf P none = ⊥
AnswersIf P (some x) = Answers P x

pub with_plan-Answers :
    (P : List RouteCandidate → PostgresStore → Type 0) (now : ℤ) (fresh : String → String)
    (model : String) (rows : List Joined) (store : PostgresStore)
    (o : Option (Result (List RouteCandidate) String))
    → o ≢ none
    → ((plan : List RouteCandidate) → Answers P (eligible now fresh rows plan true store))
    → AnswersIf P (with_plan now fresh model rows store o)
unfolding with_plan
with_plan-Answers P now fresh model rows store none n h = absurd (n refl)
with_plan-Answers P now fresh model rows store (some (err e)) n h = tt
with_plan-Answers P now fresh model rows store (some (ok plan)) n h =
    or_unavailable-Answers P model _ (h plan)

-- A process that holds the lease of a route never offers that route while it is not closed: at no time, not
-- even after the lease has expired, and for no model.
pub candidates-Without :
    (now : ℤ) (fresh : String → String) (model r : String) (store : PostgresStore)
    → Owns r store
    → state_of r (candidate_rows now model store.control) ≢ some "closed"
    → AnswersIf (Without r) (candidates now fresh model store)
unfolding candidates
candidates-Without now fresh model r store h n =
    with_plan-Answers (Without r) now fresh model (candidate_rows now model store.control) store
      (plan_routes model (group_fallbacks [] (sort_fallbacks store.control.fallbacks))
        (routes_of_rows (candidate_rows now model store.control)))
      (plan_routes-ne-none model (group_fallbacks [] (sort_fallbacks store.control.fallbacks))
        (routes_of_rows (candidate_rows now model store.control)))
      (λ plan.
        eligible-Without now fresh (candidate_rows now model store.control) r plan true store h n)
