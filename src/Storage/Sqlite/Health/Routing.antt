-- ===== src/Storage/Sqlite/Health/Routing.antt =====
-- Which routes SQLite offers (crates/slg-adapter-storage-sqlite/src/lib.rs).
use smart_llm_gateway.Prelude.{
  String, ◌≡◌, ◌≢◌, refl, subst, Bool, true, false, map, Option, none, some, List, [], ◌∷◌, ◌++◌,
  Result, ok, err, map_err, ◌>>=◌, All, All-imp, filter, if◌then◌else◌,
}
use smart_llm_gateway.Prelude.Int.{ℤ}
use smart_llm_gateway.Domain.Route.{RouteCandidate}
use smart_llm_gateway.Domain.Plan.{Dict, DomainError, domain_error}
use smart_llm_gateway.Domain.Plan.Keeps.{candidate_plan-All, AllPlanned}
use smart_llm_gateway.Storage.Sqlite.{HealthRow}
use smart_llm_gateway.Storage.Sqlite.Health.{
  Control, Joined, selected, flat_map, joined, candidate_of, collect, plan_routes, candidates,
}

All-append : {A : Type 0} (P : A → Type 0) (xs ys : List A) → All P xs → All P ys → All P (xs ++ ys)
All-append P [] ys h k = k
All-append P (x ∷ xs) ys h k = (h.0, All-append P xs ys h.1 k)

pub All-flat_map :
    {A C : Type 0} (Q : A → Type 0) (P : C → Type 0) (f : A → List C) (xs : List A)
    → ((x : A) → Q x → All P (f x))
    → All Q xs
    → All P (flat_map f xs)
unfolding flat_map
All-flat_map Q P f [] h k = tt
All-flat_map Q P f (x ∷ xs) h k =
    All-append P (f x) (flat_map f xs) (h x k.0) (All-flat_map Q P f xs h k.1)

pub All-map :
    {A C : Type 0} (Q : A → Type 0) (P : C → Type 0) (f : A → C) (xs : List A)
    → ((x : A) → Q x → P (f x))
    → All Q xs
    → All P (map f xs)
All-map Q P f [] h k = tt
All-map Q P f (x ∷ xs) h k = (h x k.0, All-map Q P f xs h k.1)

All-any : {A : Type 0} (xs : List A) → All (λ _. Unit {0}) xs
All-any [] = tt
All-any (x ∷ xs) = (tt, All-any xs)

-- What holds of the health rows holds of the joined rows.
All-joined :
    (Q R : HealthRow → Type 0) (c : Control)
    → All Q c.route_states
    → All R c.account_states
    → All (λ j. Q j.route_state × R j.account_state) (joined c)
unfolding joined
All-joined Q R c h k =
    All-flat_map (λ _. Unit {0}) _ _ c.routes
      (λ r _.
        All-flat_map (λ _. Unit {0}) _ _ c.accounts
          (λ a _.
            All-flat_map Q _ _ c.route_states
              (λ s q. All-map R _ _ c.account_states (λ t p. (q, p)) k) h)
          (All-any c.accounts))
      (All-any c.routes)

All-filter :
    {A : Type 0} (P : A → Type 0) (p : A → Bool) (xs : List A)
    → All P xs
    → All (λ x. P x × (p x ≡ true)) (filter p xs)
All-filter P p [] h = tt
All-filter {A = A} P p (x ∷ xs) h = kept (p x) refl (All-filter P p xs h.1)
  where
    kept :
        (b : Bool)
        → p x ≡ b
        → All (λ x. P x × (p x ≡ true)) (filter p xs)
        → All (λ x. P x × (p x ≡ true)) (if b then x ∷ filter p xs else filter p xs)
    kept true e k = ((h.0, e), k)
    kept false e k = k

-- The joined row that a route comes from, which is offered at `now`.
abbrev pub OfferedBy : (Joined → Type 0) → ℤ → RouteCandidate → Type 0
OfferedBy P now r = (j : Joined) × (candidate_of j ≡ ok r) × P j × (selected now j ≡ true)

abbrev pub Offered : (HealthRow → Type 0) → (HealthRow → Type 0) → ℤ → RouteCandidate → Type 0
Offered Q R now r = OfferedBy (λ j. Q j.route_state × R j.account_state) now r

abbrev AllOk : (RouteCandidate → Type 0) → Result (List RouteCandidate) String → Type 0
AllOk P (ok rs) = All P rs
AllOk P (err e) = Unit

AllOk-collect :
    (P : Joined → Type 0) (now : ℤ) (js : List Joined)
    → All (λ j. P j × (selected now j ≡ true)) js
    → AllOk (OfferedBy P now) (collect js)
unfolding collect
AllOk-collect P now [] h = tt
AllOk-collect P now (j ∷ js) h =
    joined_to (candidate_of j) refl (collect js) (AllOk-collect P now js h.1)
  where
    joined_to :
        (x : Result RouteCandidate String)
        → candidate_of j ≡ x
        → (y : Result (List RouteCandidate) String) → AllOk (OfferedBy P now) y
        → AllOk (OfferedBy P now) (x >>= λ r. y >>= λ rs. ok (r ∷ rs))
    joined_to (err e) q y k = tt
    joined_to (ok r) q (err e) k = tt
    joined_to (ok r) q (ok rs) k = ((j, q, h.0.0, h.0.1), k)

abbrev pub AllOffered :
    (RouteCandidate → Type 0) → Option (Result (List RouteCandidate) String) → Type 0
AllOffered P none = ⊥
AllOffered P (some x) = AllOk P x

plan_routes-All :
    (P : RouteCandidate → Type 0) (model : String) (d : Dict (List String))
    (x : Result (List RouteCandidate) String)
    → AllOk P x
    → AllOffered P (plan_routes model d x)
unfolding plan_routes
plan_routes-All P model d (err e) h = tt
plan_routes-All P model d (ok rs) h =
    let (p, e, k) = candidate_plan-All P rs d model h in rw e (answered p k)
  where
    answered :
        (p : Result (List RouteCandidate) DomainError)
        → AllPlanned P p
        → AllOk P (map_err domain_error p)
    answered (ok plan) k = k
    answered (err e) k = tt

-- The plan has fuel.
pub plan_routes-ne-none :
    (model : String) (d : Dict (List String)) (x : Result (List RouteCandidate) String)
    → plan_routes model d x ≢ none
plan_routes-ne-none model d x e =
    subst (AllOffered (λ _. Unit {0})) e (plan_routes-All (λ _. Unit {0}) model d x (any x))
  where
    any : (x : Result (List RouteCandidate) String) → AllOk (λ _. Unit {0}) x
    any (ok rs) = All-any rs
    any (err e) = tt

pub AllOffered-imp :
    (P P' : RouteCandidate → Type 0) (x : Option (Result (List RouteCandidate) String))
    → ((r : RouteCandidate) → P r → P' r)
    → AllOffered P x
    → AllOffered P' x
AllOffered-imp P P' none h k = k
AllOffered-imp P P' (some (err e)) h k = tt
AllOffered-imp P P' (some (ok rs)) h k = All-imp P P' rs h k

-- What holds of the joined rows holds of those of the candidates.
pub candidates_OfferedBy :
    (P : Joined → Type 0) (now : ℤ) (model : String) (c : Control)
    → All P (joined c)
    → AllOffered (OfferedBy P now) (candidates now model c)
unfolding candidates
candidates_OfferedBy P now model c h =
    plan_routes-All (OfferedBy P now) model _ _
      (AllOk-collect P now _ (All-filter _ (selected now) (joined c) h))

-- What holds of all route or account states holds of those of the candidates.
pub candidates_Offered :
    (Q R : HealthRow → Type 0) (now : ℤ) (model : String) (c : Control)
    → All Q c.route_states
    → All R c.account_states
    → AllOffered (Offered Q R now) (candidates now model c)
candidates_Offered Q R now model c h k =
    candidates_OfferedBy (λ j. Q j.route_state × R j.account_state) now model c
      (All-joined Q R c h k)
