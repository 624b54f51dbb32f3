-- ===== src/Runtime/Snapshot/Probes.antt =====
-- Which routes a snapshot offers (crates/slg-runtime/src/lib.rs).
use smart_llm_gateway.Prelude.{
  String, ◌≡◌, ◌≢◌, refl, sym, ap, ◌∙◌, subst, ◌⊎◌, inl, inr, Bool, true, false, Option, none, some,
  List, [], ◌∷◌, eq_iff, All, filter, Result, ok, err, if◌then◌else◌, arith,
}
use mathlib.Core.Option.{some-injective}
use smart_llm_gateway.Prelude.Int.{ℤ, ◌≤ℤ◌, leb_ℤ}
use smart_llm_gateway.Domain.Route.{RouteCandidate}
use smart_llm_gateway.Domain.Plan.{Dict, get, DomainError}
use smart_llm_gateway.Domain.Plan.Keeps.{candidate_plan-All, AllPlanned}
use smart_llm_gateway.Runtime.Snapshot.{
  SnapshotState, ControlSnapshot, SnapshotRuntimeState, alter, not_blocked, closed, reached,
  retryable, is_closed, is_retryable, half_open, probe, prefer, candidates,
}

-- What a call of `candidates` answers, with `P` of every route, and leaves, with `S` of the state.
abbrev pub Answers :
    (RouteCandidate → Type 0)
    → (SnapshotRuntimeState → Type 0)
    → Option (Result (List RouteCandidate) String × SnapshotRuntimeState)
    → Type 0
Answers P S none = ⊥
Answers P S (some (ok rs, st)) = All P rs × S st
Answers P S (some (err e, st)) = S st

All-filter :
    (p : RouteCandidate → Bool) (rs : List RouteCandidate) → All (λ r. p r ≡ true) (filter p rs)
All-filter p [] = tt
All-filter p (r ∷ rs) = kept (p r) refl (All-filter p rs)
  where
    kept :
        (b : Bool)
        → p r ≡ b
        → All (λ r. p r ≡ true) (filter p rs)
        → All (λ r. p r ≡ true) (if b then r ∷ filter p rs else filter p rs)
    kept true e k = (e, k)
    kept false e k = k

All-imp :
    (P P' : RouteCandidate → Type 0) (rs : List RouteCandidate)
    → ((r : RouteCandidate) → P r → P' r)
    → All P rs
    → All P' rs
All-imp P P' [] h k = tt
All-imp P P' (r ∷ rs) h k = (h r k.0, All-imp P P' rs h k.1)

-- It is enough to look at a closed route, at a retryable one, and at the state after its probe.
candidates-Answers :
    (P : RouteCandidate → Type 0) (S : SnapshotRuntimeState → Type 0) (now : ℤ) (model : String)
    → (s : ControlSnapshot) (st : SnapshotRuntimeState)
    → ((r : RouteCandidate) → is_closed st r ≡ true → P r)
    → ((r : RouteCandidate) → is_retryable now st r ≡ true → P r)
    → S st
    → ((r : RouteCandidate)
        → P r
        → S (record st { route_states = alter r.route_id half_open st.route_states }))
    → Answers P S (candidates now model s st)
unfolding candidates prefer probe
candidates-Answers P S now model s st c t u v =
    let (p, e, k) =
      candidate_plan-All P (filter (is_closed st) s.routes) s.fallbacks model
        (All-imp _ P _ c (All-filter (is_closed st) s.routes)) in
    let (q, f, m) =
      candidate_plan-All P (filter (is_retryable now st) s.routes) s.fallbacks model
        (All-imp _ P _ t (All-filter (is_retryable now st) s.routes)) in
    rw (e, f) (preferred p q k m)
  where
    probed :
        (q : Result (List RouteCandidate) DomainError)
        → AllPlanned P q
        → Answers P S (probe st (some q))
    probed (err e) m = u
    probed (ok []) m = u
    probed (ok (r ∷ rs)) m = ((m.0, tt), v r m.0)

    preferred :
        (p q : Result (List RouteCandidate) DomainError)
        → AllPlanned P p
        → AllPlanned P q
        → Answers P S (prefer st (some p) (some q))
    preferred (ok rs) q k m = (k, u)
    preferred (err e) q k m = probed q m

-- The state that is kept of an account, if any, is not the blocked one.
abbrev pub NotBlocked : Option SnapshotState → Type 0
NotBlocked o = (x : SnapshotState) → o ≡ some x → x.state ≢ "blocked"

-- No state is kept of a route, or the closed one, or the open one with a time to retry that is not after now.
abbrev pub Usable : ℤ → Option SnapshotState → Type 0
Usable now o =
    (o ≡ none)
    ⊎ ((x : SnapshotState) × (o ≡ some x) × (x.state ≡ "closed"))
    ⊎ ((x : SnapshotState) × (t : ℤ) × (o ≡ some x)
        × (x.state ≡ "open")
        × (x.retry_at_unix ≡ some t)
        × (t ≤ℤ now))

abbrev pub Available : ℤ → SnapshotRuntimeState → RouteCandidate → Type 0
Available now st r =
    NotBlocked (get r.provider_account_id st.account_states)
    × Usable now (get r.route_id st.route_states)

not_blocked-NotBlocked : (o : Option SnapshotState) → not_blocked o ≡ true → NotBlocked o
not_blocked-NotBlocked none h x e b = cc
not_blocked-NotBlocked (some y) h x e b =
    let k : y.state ≡ "blocked" = ap (λ s. s.state) (some-injective _ _ e) ∙ b in
    ground (arith, eq_iff y.state "blocked")

closed-Usable : (now : ℤ) (o : Option SnapshotState) → closed o ≡ true → Usable now o
closed-Usable now none h = inl refl
closed-Usable now (some x) h = inr (inl (x, refl, (eq_iff x.state "closed").0 h))

retryable-Usable : (now : ℤ) (o : Option SnapshotState) → retryable now o ≡ true → Usable now o
retryable-Usable now none h = cc
retryable-Usable now (some x) h = by_time x.retry_at_unix refl
  where
    by_time : (o : Option ℤ) → x.retry_at_unix ≡ o → Usable now (some x)
    by_time none e =
        let k : reached now x.retry_at_unix ≡ false = ap (reached now) e in ground arith
    by_time (some t) e =
        let k : reached now x.retry_at_unix ≡ leb_ℤ t now = ap (reached now) e in
        inr (inr (x, t, refl, ground (arith, eq_iff x.state "open"), e, ground arith))

Available-closed :
    (now : ℤ) (st : SnapshotRuntimeState) (r : RouteCandidate)
    → is_closed st r ≡ true
    → Available now st r
unfolding is_closed
Available-closed now st r h =
    let b : not_blocked (get r.provider_account_id st.account_states) ≡ true = ground arith in
    let c : closed (get r.route_id st.route_states) ≡ true = ground arith in
    (not_blocked-NotBlocked _ b, closed-Usable now _ c)

Available-open :
    (now : ℤ) (st : SnapshotRuntimeState) (r : RouteCandidate)
    → is_retryable now st r ≡ true
    → Available now st r
unfolding is_retryable
Available-open now st r h =
    let b : not_blocked (get r.provider_account_id st.account_states) ≡ true = ground arith in
    let c : retryable now (get r.route_id st.route_states) ≡ true = ground arith in
    (not_blocked-NotBlocked _ b, retryable-Usable now _ c)

-- Whatever the snapshot holds, a call returns, and of every route that it offers, the account was not
-- blocked, and the route had no state, was closed, or was open with its time to retry reached.
pub candidates_Available :
    (now : ℤ) (model : String) (s : ControlSnapshot) (st : SnapshotRuntimeState)
    → Answers (Available now st) (λ _. Unit) (candidates now model s st)
candidates_Available now model s st =
    candidates-Answers (Available now st) (λ _. Unit {0}) now model s st (Available-closed now st)
      (Available-open now st) tt (λ r h. tt)

-- The route is in the half-open state.
abbrev pub HalfOpen : String → SnapshotRuntimeState → Type 0
HalfOpen id st = (x : SnapshotState) × (get id st.route_states ≡ some x) × (x.state ≡ "half_open")

get-alter_ne :
    (id k : String) (f : SnapshotState → SnapshotState) (d : Dict SnapshotState)
    → k ≢ id
    → get id (alter k f d) ≡ get id d
unfolding alter
get-alter_ne id k f [] n = refl
get-alter_ne id k f ((j, x) ∷ d) n = ground (arith, get-alter_ne id k f d, eq_iff k j, eq_iff id j)

closed_half_open : (x : SnapshotState) → x.state ≡ "half_open" → closed (some x) ≡ false
closed_half_open x h = rw h refl

retryable_half_open :
    (now : ℤ) (x : SnapshotState) → x.state ≡ "half_open" → retryable now (some x) ≡ false
retryable_half_open now x h = rw h refl

not_closed :
    (st : SnapshotRuntimeState) (r : RouteCandidate)
    → HalfOpen r.route_id st
    → is_closed st r ≡ true
    → ⊥
unfolding is_closed
not_closed st r (x, e, h) c =
    let q : closed (get r.route_id st.route_states) ≡ false = ap closed e ∙ closed_half_open x h in
    ground arith

not_retryable :
    (now : ℤ) (st : SnapshotRuntimeState) (r : RouteCandidate)
    → HalfOpen r.route_id st
    → is_retryable now st r ≡ true
    → ⊥
unfolding is_retryable
not_retryable now st r (x, e, h) c =
    let q : retryable now (get r.route_id st.route_states) ≡ false =
      ap (retryable now) e ∙ retryable_half_open now x h in
    ground arith

-- A route that a probe has left half-open is not offered again: no call offers it, at whatever time,
-- and every call leaves it half-open.
pub HalfOpen-not_offered :
    (id : String) (now : ℤ) (model : String) (s : ControlSnapshot) (st : SnapshotRuntimeState)
    → HalfOpen id st
    → Answers (λ r. r.route_id ≢ id) (HalfOpen id) (candidates now model s st)
HalfOpen-not_offered id now model s st h =
    candidates-Answers (λ r. r.route_id ≢ id) (HalfOpen id) now model s st
      (λ r c e. not_closed st r (subst (λ i. HalfOpen i st) (sym e) h) c)
      (λ r c e. not_retryable now st r (subst (λ i. HalfOpen i st) (sym e) h) c) h
      (λ r n. (h.0, get-alter_ne id r.route_id half_open st.route_states n ∙ h.1, h.2))
