-- ===== src/Domain/Plan/Visits.antt =====
-- What a `visit` that returns normally has done (the local function `visit` of `candidate_plan`).
use smart_llm_gateway.Prelude.{
  ℕ, zero, suc, String, ◌≡◌, ◌≢◌, refl, sym, ap, ◌∙◌, subst, ◌⊎◌, inl, inr, true, false, none, some,
  List, [], ◌∷◌, ◌++◌, append_assoc, ok, err, Bool-cases, contains, remove, Distinct,
  contains-cons_self, contains-cons, contains-cons_cases, contains-cons_head, contains-singleton,
  contains-cons_ne, contains-tail_ne, remove-cons_self, ◌==◌, eq_of_test, ne_of_test,
}
use smart_llm_gateway.Domain.Route.{RouteCandidate}
use smart_llm_gateway.Domain.Plan.{
  Dict, Visit, Outcome, next, entries, visit_all, leave, expand, enter, visit, unvisited,
  fallback_cycle,
}
use smart_llm_gateway.Domain.Plan.Graph
use smart_llm_gateway.Domain.Plan.Graph.{Edge, Reach, Safe, here, safe}

pub next-eq-ok :
    {A B : Type 0} (o : Outcome A) (f : A → Outcome B) {b : B}
    → next o f ≡ some (ok b)
    → (a : A) × (o ≡ some (ok a)) × (f a ≡ some (ok b))
next-eq-ok none f h = cc
next-eq-ok (some (err e)) f h = cc
next-eq-ok (some (ok a)) f h = (a, refl, h)

module _ (routes : Dict (List RouteCandidate)) (fallbacks : Dict (List String)) where
  -- The output that a list of visited models, the latest first, stands for.
  abbrev pub output_of : List String → List RouteCandidate
  output_of [] = []
  output_of (m ∷ ms) = output_of ms ++ entries m routes

  -- Whatever was visited and is no longer on the stack is complete.
  pub record Inv (s : Visit) : Type 0 where
    pub closed :
        (v n : String)
        → contains v s.visited ≡ true
        → contains v s.visiting ≡ false
        → Edge fallbacks v n
        → contains n s.visited ≡ true
    pub settled :
        (v : String)
        → contains v s.visited ≡ true
        → contains v s.visiting ≡ false
        → Safe fallbacks v
    pub output : s.output ≡ output_of s.visited
    pub distinct : Distinct s.visited

  -- The models of `ms` were expanded, on the way from `s` to `t`.
  pub record Visited (ms : List String) (s t : Visit) : Type 0 where
    pub stack : t.visiting ≡ s.visiting
    pub grows : (v : String) → contains v s.visited ≡ true → contains v t.visited ≡ true
    pub entered : (n : String) → contains n ms ≡ true → contains n t.visited ≡ true
    pub fresh : (n : String) → contains n ms ≡ true → contains n s.visiting ≡ false
    pub reached :
        (v : String)
        → contains v t.visited ≡ true
        → (contains v s.visited ≡ true)
          ⊎ ((n : String) × (contains n ms ≡ true) × Reach fallbacks n v)
    pub suffix : (later : List String) × (t.visited ≡ later ++ s.visited)
    pub inv : Inv t

  abbrev Good : (String → Visit → Outcome Visit) → Type 0
  Good go = (m : String) (s t : Visit) → Inv s → go m s ≡ some (ok t) → Visited (m ∷ []) s t

  Visited-nil : (s : Visit) → Inv s → Visited [] s s
  Visited-nil s i = record {
    stack = refl;
    grows = λ v h. h;
    entered = λ n h. cc;
    fresh = λ n h. cc;
    reached = λ v h. inl h;
    suffix = ([], refl);
    inv = i;
  }

  Visited-cons :
      (m : String) (ms : List String) (s t u : Visit)
      → Visited (m ∷ []) s t
      → Visited ms t u
      → Visited (m ∷ ms) s u
  Visited-cons m ms s t u a b = record {
    stack = b.stack ∙ a.stack;
    grows = λ v h. b.grows v (a.grows v h);
    entered = λ n h. elim (contains-cons_cases n m ms h) [
      | inl e ↦ b.grows n (a.entered n (contains-cons_head n m [] e))
      | inr r ↦ b.entered n r
    ];
    fresh = λ n h. elim (contains-cons_cases n m ms h) [
      | inl e ↦ a.fresh n (contains-cons_head n m [] e)
      | inr r ↦ subst (λ x. contains n x ≡ false) a.stack (b.fresh n r)
    ];
    reached = λ v h. elim (b.reached v h) [
      | inr (n, k, r) ↦ inr (n, contains-cons n m ms k, r)
      | inl old ↦ elim (a.reached v old) [
        | inl o ↦ inl o
        | inr (n, k, r) ↦ inr (n, contains-cons_head n m ms (contains-singleton n m k), r)
      ]
    ];
    suffix = (
      b.suffix.0 ++ a.suffix.0,
      b.suffix.1
          ∙ ap (λ l. b.suffix.0 ++ l) a.suffix.1
          ∙ sym (append_assoc b.suffix.0 a.suffix.0 s.visited),
    );
    inv = b.inv;
  }

  visit_all-Visited :
      (go : String → Visit → Outcome Visit)
      → Good go
      → (ms : List String) (s u : Visit) → Inv s
      → visit_all go ms s ≡ some (ok u)
      → Visited ms s u
  unfolding visit_all
  visit_all-Visited go good [] s u i h = subst (Visited [] s) (cc h) (Visited-nil s i)
  visit_all-Visited go good (m ∷ ms) s u i h =
      let (t, e, k) = next-eq-ok (go m s) (visit_all go ms) h in
      let a = good m s t i e in Visited-cons m ms s t u a (visit_all-Visited go good ms t u a.inv k)

  -- A model that is entered for the first time, its routes written down.
  abbrev pub start : String → Visit → Visit
  start m s = record s {
    visiting = m ∷ s.visiting;
    visited = m ∷ s.visited;
    output = s.output ++ entries m routes;
  }

  pub start-Inv : (m : String) (s : Visit) → contains m s.visited ≡ false → Inv s → Inv (start m s)
  start-Inv m s f i = record {
    closed = λ v n h k e. elim (contains-cons_cases v m s.visited h) [
      | inl q ↦ absurd (head_stacked v q k)
      | inr r ↦ contains-cons n m s.visited (i.closed v n r (contains-tail_ne v m s.visiting k) e)
    ];
    settled = λ v h k. elim (contains-cons_cases v m s.visited h) [
      | inl q ↦ absurd (head_stacked v q k)
      | inr r ↦ i.settled v r (contains-tail_ne v m s.visiting k)
    ];
    output = ap (λ o. o ++ entries m routes) i.output;
    distinct = (f, i.distinct);
  }
    where
      head_stacked : (v : String) → v ≡ m → contains v (m ∷ s.visiting) ≡ false → ⊥
      head_stacked v q k = cc (contains-cons_head v m s.visiting q)

  -- Leaving a model once its fallbacks have been expanded.
  leave-Visited :
      (m : String) (s t : Visit)
      → contains m s.visiting ≡ false
      → Inv s
      → Visited (entries m fallbacks) (start m s) t
      → Visited (m ∷ []) s (leave m t)
  leave-Visited m s t off i b = record {
    stack = restored;
    grows = λ v h. b.grows v (contains-cons v m s.visited h);
    entered = λ n h. rw (contains-singleton n m h) entered_m;
    fresh = λ n h. rw (contains-singleton n m h) off;
    reached = λ v h. elim (b.reached v h) [
      | inl old ↦ elim (contains-cons_cases v m s.visited old) [
        | inl q ↦ inr (m, contains-cons_self m [], subst (Reach fallbacks m) (sym q) here)
        | inr o ↦ inl o
      ]
      | inr (n, k, r) ↦ inr (m, contains-cons_self m [], Graph.Reach-cons fallbacks k r)
    ];
    suffix = (b.suffix.0 ++ m ∷ [], b.suffix.1 ∙ sym (append_assoc b.suffix.0 (m ∷ []) s.visited));
    inv = record {
      closed = λ v n h k e. elim (Bool-cases (v == m)) [
        | inl q ↦ b.entered n (subst (λ x. Edge fallbacks x n) (eq_of_test v m q) e)
        | inr q ↦ b.inv.closed v n h (still_off v (ne_of_test v m q) k) e
      ];
      settled = λ v h k. elim (Bool-cases (v == m)) [
        | inl q ↦ subst (Safe fallbacks) (sym (eq_of_test v m q)) (safe m below)
        | inr q ↦ b.inv.settled v h (still_off v (ne_of_test v m q) k)
      ];
      output = b.inv.output;
      distinct = b.inv.distinct;
    };
  }
    where
      restored : remove m t.visiting ≡ s.visiting
      restored = rw b.stack (remove-cons_self m s.visiting off)

      entered_m : contains m t.visited ≡ true
      entered_m = b.grows m (contains-cons_self m s.visited)

      below : (n : String) → Edge fallbacks m n → Safe fallbacks n
      below n e = b.inv.settled n (b.entered n e) (rw b.stack (b.fresh n e))

      still_off :
          (v : String)
          → v ≢ m
          → contains v (remove m t.visiting) ≡ false
          → contains v t.visiting ≡ false
      still_off v q k = rw b.stack (contains-cons_ne v m s.visiting q (rw restored at k))

  -- The three branches of the body of `visit`.
  pub enter_stacked :
      (go : String → Visit → Outcome Visit) (m : String) (s : Visit)
      → contains m s.visiting ≡ true
      → enter routes fallbacks go m s ≡ some (err (fallback_cycle m))
  unfolding enter
  enter_stacked go m s on = rw on

  pub enter_again :
      (go : String → Visit → Outcome Visit) (m : String) (s : Visit)
      → contains m s.visiting ≡ false
      → contains m s.visited ≡ true
      → enter routes fallbacks go m s ≡ some (ok s)
  unfolding enter
  enter_again go m s off old =
      rw (off, old)
        (ap (λ l. some (ok (record s { visiting = l }))) (remove-cons_self m s.visiting off))

  pub enter_first :
      (go : String → Visit → Outcome Visit) (m : String) (s : Visit)
      → contains m s.visiting ≡ false
      → contains m s.visited ≡ false
      → enter routes fallbacks go m s
        ≡ next (visit_all go (entries m fallbacks) (start m s)) (λ t. some (ok (leave m t)))
  unfolding enter expand
  enter_first go m s off new = rw (off, new)

  enter-Good : (go : String → Visit → Outcome Visit) → Good go → Good (enter routes fallbacks go)
  enter-Good go good m s t i h = elim (Bool-cases (contains m s.visiting)) [
    | inl on ↦ absurd (cc (enter_stacked go m s on))
    | inr off ↦ elim (Bool-cases (contains m s.visited)) [
      | inl old ↦ subst (Visited (m ∷ []) s) (cc (enter_again go m s off old)) (stay off old)
      | inr new ↦
          let (u, e, k) = next-eq-ok _ _ (sym (enter_first go m s off new) ∙ h) in
          subst (Visited (m ∷ []) s) (cc k) (
            leave-Visited m s u off i (
              visit_all-Visited go good (entries m fallbacks) (start m s) u (start-Inv m s new i)
                e))
    ]
  ]
    where
      stay : contains m s.visiting ≡ false → contains m s.visited ≡ true → Visited (m ∷ []) s s
      stay off old = record {
        stack = refl;
        grows = λ v k. k;
        entered = λ n k. rw (contains-singleton n m k) old;
        fresh = λ n k. rw (contains-singleton n m k) off;
        reached = λ v k. inl k;
        suffix = ([], refl);
        inv = i;
      }

  -- A visit that returns has expanded its model, and has put the stack back.
  pub visit-Visited :
      (fuel : ℕ) (m : String) (s t : Visit)
      → Inv s
      → visit routes fallbacks fuel m s ≡ some (ok t)
      → Visited (m ∷ []) s t
  unfolding visit
  visit-Visited zero m s t i h = cc
  visit-Visited (suc fuel) m s t i h =
      enter-Good (visit routes fallbacks fuel) (visit-Visited fuel) m s t i h

  -- A model that is visited for the first time comes before all that its expansion adds.
  pub visit_suffix :
      (fuel : ℕ) (m : String) (s t : Visit)
      → Inv s
      → contains m s.visiting ≡ false
      → contains m s.visited ≡ false
      → visit routes fallbacks fuel m s ≡ some (ok t)
      → (later : List String) × (t.visited ≡ later ++ m ∷ s.visited)
  unfolding visit
  visit_suffix zero m s t i off new h = cc
  visit_suffix (suc fuel) m s t i off new h =
      let (u, e, k) =
        next-eq-ok _ _ (sym (enter_first (visit routes fallbacks fuel) m s off new) ∙ h) in
      let b =
        visit_all-Visited (visit routes fallbacks fuel) (visit-Visited fuel) (entries m fallbacks)
          (start m s) u (start-Inv m s new i) e in
      let q : leave m u ≡ t = cc k in
      (b.suffix.0, ap (λ (v : Visit). v.visited) (sym q) ∙ b.suffix.1)

  pub unvisited-Inv : Inv unvisited
  unvisited-Inv = record { closed = λ v n h. cc; settled = λ v h. cc; output = refl; distinct = tt }
