-- ===== src/Storage/Postgres/Candidates/Eligible.antt =====
-- At most the first candidate is a probe (crates/slg-adapter-storage-postgres/src/lib.rs).
use smart_llm_gateway.Prelude.{
  String, ◌≡◌, ◌⊎◌, inl, inr, refl, sym, ap, ◌∙◌, subst, Bool, true, false, Option, none, some,
  List, [], ◌∷◌, ◌==◌, if◌then◌else◌, Result, ok, err, All, In, eq_of_test, eq_refl, arith,
}
use smart_llm_gateway.Prelude.Int.{ℤ, leb_ℤ, plus}
use smart_llm_gateway.Domain.Route.{RouteCandidate}
use smart_llm_gateway.Storage.Sqlite.Health.{Joined, plan_routes, group_fallbacks, sort_fallbacks}
use smart_llm_gateway.Storage.Sqlite.Health.Routing.{plan_routes-ne-none}
use smart_llm_gateway.Storage.Postgres.{
  ProbeLease, PostgresStore, finish_probe, probe_lease, acquire_with, acquired, owned, upsert_lease,
  consed, transition, acquire_half_open_probe,
}
use smart_llm_gateway.Storage.Postgres.Candidates.{
  state_of, offered, after_probe, at_candidate, eligible, candidate_rows, candidates,
  routes_of_rows,
}
use smart_llm_gateway.Storage.Postgres.Candidates.Probes.{
  Answers, AnswersIf, with_plan-Answers, true_false,
}

-- The rows say that the route is closed.
abbrev pub IsClosed : List Joined → RouteCandidate → Type 0
IsClosed rows c = state_of c.route_id rows ≡ some "closed"

-- The process holds the lease of a route since `now`: it remembers it, and its row is in the table and
-- expires a minute after `now`.
abbrev pub Leased : ℤ → String → PostgresStore → Type 0
Leased now id store =
    (l : String) × (owned id store.probe_leases ≡ some l)
    × In (record { route_id = id; lease_id = l; expires_at = plus now 60 }) store.leases

-- The first candidate is closed, or the process holds its lease; the others are closed.
abbrev pub FirstProbed : ℤ → List Joined → List RouteCandidate → PostgresStore → Type 0
FirstProbed now rows [] store = Unit
FirstProbed now rows (c ∷ cs) store =
    (IsClosed rows c ⊎ Leased now c.route_id store) × All (IsClosed rows) cs

-- An acquisition that succeeds leaves the lease with the process.
abbrev Granted : ℤ → String → Result Bool String × PostgresStore → Type 0
Granted now id x = x.0 ≡ ok true → Leased now id x.1

-- The row is among those that a statement leaves.
abbrev InSome : ProbeLease → Option (List ProbeLease) → Type 0
InSome y none = Unit
InSome y (some ys) = In y ys

upsert_lease-InSome :
    (now : ℤ) (y : ProbeLease) (xs : List ProbeLease) → InSome y (upsert_lease now y xs)
unfolding upsert_lease
upsert_lease-InSome now y [] = inl refl
upsert_lease-InSome now y (x ∷ xs) =
    by_key (x.route_id == y.route_id) (leb_ℤ x.expires_at now) (upsert_lease now y xs)
      (upsert_lease-InSome now y xs)
  where
    by_key :
        (b c : Bool) (o : Option (List ProbeLease))
        → InSome y o
        → InSome y (if b then (if c then some (y ∷ xs) else none) else consed x o)
    by_key true true o k = inl refl
    by_key true false o k = tt
    by_key false c none k = tt
    by_key false c (some ys) k = inr k

module _ (now : ℤ) where
  owns_head : (id l : String) (ls : List (String × String)) → owned id ((id, l) ∷ ls) ≡ some l
  unfolding owned
  owns_head id l ls = ground (arith, eq_refl id)

  finish-Granted :
      (id l : String) (store : PostgresStore) (ls : List ProbeLease) (b : Bool)
      → In (probe_lease now id l) ls
      → Granted now id (acquired (finish_probe now id l store ls b))
  finish-Granted id l store ls false h e = absurd (true_false (sym e))
  finish-Granted id l store ls true h e = (l, owns_head id l store.probe_leases, h)

  transition-Granted :
      (id l : String) (store : PostgresStore) (o : Option (List ProbeLease))
      → InSome (probe_lease now id l) o
      → Granted now id (acquired (transition now id l store o))
  unfolding transition
  transition-Granted id l store none h e = absurd (true_false (sym e))
  transition-Granted id l store (some ls) h e = finish-Granted id l store ls _ h e

  acquire_with-Granted :
      (id l : String) (store : PostgresStore) (o : Option String) (b : Bool)
      → Granted now id (acquire_with now id l store o b)
  unfolding acquire_with
  acquire_with-Granted id l store (some _) b e = absurd (true_false (sym e))
  acquire_with-Granted id l store none false e = cc
  acquire_with-Granted id l store none true e =
      transition-Granted id l store (upsert_lease now (probe_lease now id l) store.leases)
        (upsert_lease-InSome now (probe_lease now id l) store.leases) e

  acquire-Granted :
      (id l : String) (store : PostgresStore)
      → Granted now id (acquire_half_open_probe now id l store)
  unfolding acquire_half_open_probe
  acquire-Granted id l store = acquire_with-Granted id l store _ _

module _ (now : ℤ) (fresh : String → String) (rows : List Joined) where
  -- Behind an eligible candidate: closed routes alone, and the store as it was.
  abbrev Quiet : PostgresStore → List RouteCandidate → PostgresStore → Type 0
  Quiet store cs store' = All (IsClosed rows) cs × (store' ≡ store)

  offered-Quiet :
      (c : RouteCandidate) (store : PostgresStore)
      (x : Result (List RouteCandidate) String × PostgresStore)
      → IsClosed rows c
      → Answers (Quiet store) x
      → Answers (Quiet store) (offered c x)
  offered-Quiet c store (err e, s) h k = tt
  offered-Quiet c store (ok cs, s) h (k, e) = ((h, k), e)

  at_candidate-Quiet :
      (c : RouteCandidate)
      (rest : Bool → PostgresStore → Result (List RouteCandidate) String × PostgresStore)
      (o : Option String) (store : PostgresStore)
      → Answers (Quiet store) (rest false store)
      → state_of c.route_id rows ≡ o
      → Answers (Quiet store) (at_candidate now fresh rows c rest o false store)
  unfolding at_candidate
  at_candidate-Quiet c rest none store k e = k
  at_candidate-Quiet c rest (some state) store k e = by_state (state == "closed") refl
    where
      by_state :
          (t : Bool)
          → (state == "closed") ≡ t
          → Answers (Quiet store) (if t then offered c (rest false store) else rest false store)
      by_state true t =
          offered-Quiet c store (rest false store) (e ∙ ap some (eq_of_test state "closed" t)) k
      by_state false t = k

  eligible-Quiet :
      (plan : List RouteCandidate) (store : PostgresStore)
      → Answers (Quiet store) (eligible now fresh rows plan false store)
  unfolding eligible
  eligible-Quiet [] store = (tt, refl)
  eligible-Quiet (c ∷ plan) store =
      at_candidate-Quiet c (eligible now fresh rows plan) (state_of c.route_id rows) store
        (eligible-Quiet plan store) refl

  offered-FirstProbed :
      (c : RouteCandidate) (store : PostgresStore)
      (x : Result (List RouteCandidate) String × PostgresStore)
      → IsClosed rows c ⊎ Leased now c.route_id store
      → Answers (Quiet store) x
      → Answers (FirstProbed now rows) (offered c x)
  offered-FirstProbed c store (err e, s) h k = tt
  offered-FirstProbed c store (ok cs, s) (inl h) (k, e) = (inl h, k)
  offered-FirstProbed c store (ok cs, s) (inr h) (k, e) =
      (inr (subst (Leased now c.route_id) (sym e) h), k)

  after_probe-FirstProbed :
      (c : RouteCandidate)
      (rest : Bool → PostgresStore → Result (List RouteCandidate) String × PostgresStore)
      (x : Result Bool String × PostgresStore)
      → ((store : PostgresStore) → Answers (FirstProbed now rows) (rest true store))
      → ((store : PostgresStore) → Answers (Quiet store) (rest false store))
      → Granted now c.route_id x
      → Answers (FirstProbed now rows) (after_probe now fresh rows c rest x)
  unfolding after_probe
  after_probe-FirstProbed c rest (err e, store) k q g = tt
  after_probe-FirstProbed c rest (ok true, store) k q g =
      offered-FirstProbed c store (rest false store) (inr (g refl)) (q store)
  after_probe-FirstProbed c rest (ok false, store) k q g = k store

  at_candidate-FirstProbed :
      (c : RouteCandidate)
      (rest : Bool → PostgresStore → Result (List RouteCandidate) String × PostgresStore)
      (o : Option String) (store : PostgresStore)
      → ((store : PostgresStore) → Answers (FirstProbed now rows) (rest true store))
      → ((store : PostgresStore) → Answers (Quiet store) (rest false store))
      → state_of c.route_id rows ≡ o
      → Answers (FirstProbed now rows) (at_candidate now fresh rows c rest o true store)
  unfolding at_candidate
  at_candidate-FirstProbed c rest none store k q e = k store
  at_candidate-FirstProbed c rest (some state) store k q e = by_state (state == "closed") refl
    where
      by_state :
          (t : Bool)
          → (state == "closed") ≡ t
          → Answers (FirstProbed now rows) (
              if t
              then offered c (rest false store)
              else after_probe now fresh rows c rest
                  (acquire_half_open_probe now c.route_id (fresh c.route_id) store))
      by_state true t =
          offered-FirstProbed c store (rest false store)
            (inl (e ∙ ap some (eq_of_test state "closed" t))) (q store)
      by_state false t =
          after_probe-FirstProbed c rest
            (acquire_half_open_probe now c.route_id (fresh c.route_id) store) k q
            (acquire-Granted now c.route_id (fresh c.route_id) store)

  eligible-FirstProbed :
      (plan : List RouteCandidate) (store : PostgresStore)
      → Answers (FirstProbed now rows) (eligible now fresh rows plan true store)
  unfolding eligible
  eligible-FirstProbed [] store = tt
  eligible-FirstProbed (c ∷ plan) store =
      at_candidate-FirstProbed c (eligible now fresh rows plan) (state_of c.route_id rows) store
        (eligible-FirstProbed plan) (eligible-Quiet plan) refl

-- A call returns, and of the candidates that it answers, the first is a closed route, or one whose probe
-- lease the process then holds, with a row in the table that expires a minute later; all others are closed
-- routes.
pub candidates-FirstProbed :
    (now : ℤ) (fresh : String → String) (model : String) (store : PostgresStore)
    → AnswersIf
        (FirstProbed now (candidate_rows now model store.control))
        (candidates now fresh model store)
unfolding candidates
candidates-FirstProbed now fresh model store =
    let rows = candidate_rows now model store.control in
    with_plan-Answers (FirstProbed now rows) now fresh model rows store
      (plan_routes model (group_fallbacks [] (sort_fallbacks store.control.fallbacks))
        (routes_of_rows rows))
      (plan_routes-ne-none model (group_fallbacks [] (sort_fallbacks store.control.fallbacks))
        (routes_of_rows rows))
      (λ plan. eligible-FirstProbed now fresh rows plan store)
