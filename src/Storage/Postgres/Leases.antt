-- ===== src/Storage/Postgres/Leases.antt =====
-- A probe lease excludes the other processes until it expires
-- (crates/slg-adapter-storage-postgres/src/lib.rs).
pub mod Tests
use smart_llm_gateway.Prelude.{
  ℕ, String, ◌≡◌, ◌≢◌, refl, sym, ap, ◌∙◌, subst, Bool, true, false, ◌&&◌, Option, none, some, List,
  [], ◌∷◌, ◌==◌, if◌then◌else◌, Result, ok, err, All, eqb, length, eq_iff, eq_of_test, ne_of_test,
  arith, Option-cases, Bool-cases,
}
use smart_llm_gateway.Prelude.Int.{ℤ, leb_ℤ, plus}
use smart_llm_gateway.Domain.Failure.{ProviderFailure}
use smart_llm_gateway.Storage.Sqlite.{HealthRow}
use smart_llm_gateway.Storage.Sqlite.Health.{update}
use smart_llm_gateway.Storage.Postgres.{
  ProbeLease, PostgresStore, finish_probe, probe_lease, acquire_with, acquired, owned, disown,
  consed, upsert_lease, transition, probed_rows, has_route, acquire_half_open_probe, delete_lease,
  release_half_open_probe, release_all, routes_of, mark_route_success, mark_route_failure,
  mark_account_failure,
}

-- What a process does with the leases, each acquisition at its time and with its fresh identifier.
pub data Operation : Type 0 where
  acquire : ℤ → String → String → Operation
  release succeed : String → Operation
  fail block : String → ProviderFailure → Operation

abbrev pub step : Operation → PostgresStore → PostgresStore
step (acquire now id lease_id) store = (acquire_half_open_probe now id lease_id store).1
step (release id) store = release_half_open_probe id store
step (succeed id) store = mark_route_success id store
step (fail id f) store = mark_route_failure id f store
step (block account f) store = mark_account_failure account f store

abbrev pub steps : List Operation → PostgresStore → PostgresStore
steps [] store = store
steps (o ∷ os) store = steps os (step o store)

-- The lease row of a route.
abbrev pub lease_of : String → List ProbeLease → Option ProbeLease
lease_of id [] = none
lease_of id (x ∷ xs) = if x.route_id == id then some x else lease_of id xs

-- No acquisition of the route succeeds in the course of the operations.
abbrev pub NeverAcquires : String → List Operation → PostgresStore → Type 0
NeverAcquires r [] store = Unit
NeverAcquires r (acquire now id lease_id ∷ os) store =
    (id ≡ r → (acquire_half_open_probe now id lease_id store).0 ≢ ok true)
    × NeverAcquires r os (step (acquire now id lease_id) store)
NeverAcquires r (o ∷ os) store = NeverAcquires r os (step o store)

-- The operation acts before the lease expires, and its own identifier is another.
abbrev pub Before : ProbeLease → Operation → Type 0
Before x (acquire now id lease_id) = (leb_ℤ x.expires_at now ≡ false) × (lease_id ≢ x.lease_id)
Before x _ = Unit

-- The lease stands in the table, and this process does not hold it.
abbrev pub Excluded : ProbeLease → PostgresStore → Type 0
Excluded x store =
    (lease_of x.route_id store.leases ≡ some x)
    × (owned x.route_id store.probe_leases ≢ some x.lease_id)

upsert-refused :
    (now : ℤ) (y x : ProbeLease) (ls : List ProbeLease)
    → lease_of y.route_id ls ≡ some x
    → leb_ℤ x.expires_at now ≡ false
    → upsert_lease now y ls ≡ none
unfolding upsert_lease
upsert-refused now y x [] h e = cc
upsert-refused now y x (z ∷ zs) h e = ground (arith, upsert-refused now y x zs)

-- The row of the route in the table that a statement leaves, when it changes it.
abbrev KeptIn : String → ProbeLease → Option (List ProbeLease) → Type 0
KeptIn r x none = Unit
KeptIn r x (some ls) = lease_of r ls ≡ some x

consed-KeptIn :
    (r : String) (x z : ProbeLease) (zs : List ProbeLease) (o : Option (List ProbeLease))
    → lease_of r (z ∷ zs) ≡ some x
    → (lease_of r zs ≡ some x → KeptIn r x o)
    → KeptIn r x (consed z o)
consed-KeptIn r x z zs none h k = tt
consed-KeptIn r x z zs (some ls) h k = ground (arith, k)

upsert-KeptIn :
    (now : ℤ) (y x : ProbeLease) (r : String) (ls : List ProbeLease)
    → y.route_id ≢ r
    → lease_of r ls ≡ some x
    → KeptIn r x (upsert_lease now y ls)
unfolding upsert_lease
upsert-KeptIn now y x r [] n h = cc
upsert-KeptIn now y x r (z ∷ zs) n h = ground (
  arith,
  eq_iff z.route_id r,
  eq_iff z.route_id y.route_id,
  consed-KeptIn r x z zs (upsert_lease now y zs) h (upsert-KeptIn now y x r zs n),
)

delete-kept :
    (id lease_id r : String) (x : ProbeLease) (ls : List ProbeLease)
    → lease_of r ls ≡ some x
    → (id ≡ r → lease_id ≢ x.lease_id)
    → lease_of r (delete_lease id lease_id ls) ≡ some x
unfolding delete_lease
delete-kept id lease_id r x [] h n = cc
delete-kept id lease_id r x (z ∷ zs) h n = ground (
  arith,
  eq_iff z.route_id r,
  eq_iff z.route_id id,
  eq_iff z.lease_id lease_id,
  delete-kept id lease_id r x zs,
)

owned-disown_self : (id : String) (ls : List (String × String)) → owned id (disown id ls) ≡ none
unfolding owned disown
owned-disown_self id [] = refl
owned-disown_self id ((k, m) ∷ ls) = ground (arith, eq_iff k id, owned-disown_self id ls)

owned-disown_other :
    (id r : String) (ls : List (String × String)) → id ≢ r → owned r (disown id ls) ≡ owned r ls
unfolding owned disown
owned-disown_other id r [] n = refl
owned-disown_other id r ((k, m) ∷ ls) n =
    ground (arith, eq_iff k id, eq_iff k r, owned-disown_other id r ls n)

disown-kept :
    (id r l : String) (ls : List (String × String))
    → owned r ls ≢ some l
    → owned r (disown id ls) ≢ some l
disown-kept id r l ls n =
    ground (arith, eq_iff id r, owned-disown_self id ls, owned-disown_other id r ls)

owned_other :
    (r m id l : String) (ls : List (String × String))
    → owned r ls ≢ some m
    → l ≢ m
    → owned r ((id, l) ∷ ls) ≢ some m
unfolding owned
owned_other r m id l ls n k = ground (arith, eq_iff id r)

-- What each operation leaves of the lease `x`.
module _ (x : ProbeLease) where
  release-Excluded :
      (id : String) (store : PostgresStore)
      → Excluded x store
      → Excluded x (release_half_open_probe id store)
  unfolding release_half_open_probe
  release-Excluded id store (h, n) = by_owned (owned id store.probe_leases) refl
    where
      by_owned :
          (o : Option String)
          → owned id store.probe_leases ≡ o
          → Excluded x (elim o [
            | none ↦ store
            | some l ↦ record store {
              leases = delete_lease id l store.leases;
              probe_leases = disown id store.probe_leases;
            }
          ])
      by_owned none e = (h, n)
      by_owned (some l) e = (
        delete-kept id l x.route_id x store.leases h
            (λ i j. n (ap (λ k. owned k store.probe_leases) (sym i) ∙ e ∙ ap some j)),
        disown-kept id x.route_id x.lease_id store.probe_leases n,
      )

  release_all-Excluded :
      (ids : List String) (store : PostgresStore)
      → Excluded x store
      → Excluded x (release_all ids store)
  unfolding release_all
  release_all-Excluded [] store h = h
  release_all-Excluded (id ∷ ids) store h = release_all-Excluded ids _ (release-Excluded id store h)

  finish-Excluded :
      (now : ℤ) (id l : String) (store : PostgresStore) (ls : List ProbeLease) (b : Bool)
      → Excluded x store
      → l ≢ x.lease_id
      → lease_of x.route_id ls ≡ some x
      → Excluded x (finish_probe now id l store ls b).1
  finish-Excluded now id l store ls false h n k = h
  finish-Excluded now id l store ls true (h, m) n k =
      (k, owned_other x.route_id x.lease_id id l store.probe_leases m n)

  transition-Excluded :
      (now : ℤ) (id l : String) (store : PostgresStore) (o : Option (List ProbeLease))
      → Excluded x store
      → l ≢ x.lease_id
      → KeptIn x.route_id x o
      → Excluded x (transition now id l store o).1
  unfolding transition
  transition-Excluded now id l store none h n k = h
  transition-Excluded now id l store (some ls) h n k = finish-Excluded now id l store ls _ h n k

  written-KeptIn :
      (now : ℤ) (id l : String) (ls : List ProbeLease)
      → lease_of x.route_id ls ≡ some x
      → leb_ℤ x.expires_at now ≡ false
      → KeptIn x.route_id x (upsert_lease now (probe_lease now id l) ls)
  written-KeptIn now id l ls h e = by_test (id == x.route_id) refl
    where
      by_test :
          (b : Bool)
          → (id == x.route_id) ≡ b
          → KeptIn x.route_id x (upsert_lease now (probe_lease now id l) ls)
      by_test true t =
          subst (KeptIn x.route_id x)
            (sym (
              upsert-refused now (probe_lease now id l) x ls
                (subst (λ r. lease_of r ls ≡ some x) (sym (eq_of_test id x.route_id t)) h) e))
            tt
      by_test false t =
          upsert-KeptIn now (probe_lease now id l) x x.route_id ls (ne_of_test id x.route_id t) h

  acquire_with-Excluded :
      (now : ℤ) (id l : String) (store : PostgresStore) (o : Option String) (b : Bool)
      → Excluded x store
      → leb_ℤ x.expires_at now ≡ false
      → l ≢ x.lease_id
      → Excluded x (acquire_with now id l store o b).1
  unfolding acquire_with
  acquire_with-Excluded now id l store (some _) b h e n = h
  acquire_with-Excluded now id l store none false h e n = h
  acquire_with-Excluded now id l store none true (h, m) e n =
      transition-Excluded now id l store (upsert_lease now (probe_lease now id l) store.leases)
        (h, m) n (written-KeptIn now id l store.leases h e)

  refused_with :
      (now : ℤ) (id l : String) (store : PostgresStore) (o : Option String) (b : Bool)
      → upsert_lease now (probe_lease now id l) store.leases ≡ none
      → (acquire_with now id l store o b).0 ≢ ok true
  unfolding acquire_with transition
  refused_with now id l store (some _) b h = λ e. cc
  refused_with now id l store none false h = λ e. cc
  refused_with now id l store none true h =
      subst (λ u. (acquired (transition now id l store u)).0 ≢ ok true) (sym h) (λ e. cc)

  -- This route is not acquired.
  refused :
      (now : ℤ) (id l : String) (store : PostgresStore)
      → Excluded x store
      → leb_ℤ x.expires_at now ≡ false
      → id ≡ x.route_id
      → (acquire_half_open_probe now id l store).0 ≢ ok true
  unfolding acquire_half_open_probe
  refused now id l store (h, m) e i = refused_with now id l store _ _ (
      upsert-refused now (probe_lease now id l) x store.leases
        (subst (λ r. lease_of r store.leases ≡ some x) (sym i) h) e)

  step-Excluded :
      (o : Operation) (store : PostgresStore)
      → Excluded x store
      → Before x o
      → Excluded x (step o store)
  unfolding acquire_half_open_probe mark_route_success mark_route_failure mark_account_failure
  step-Excluded (acquire now id l) store h (e, n) = acquire_with-Excluded now id l store _ _ h e n
  step-Excluded (release id) store h b = release-Excluded id store h
  step-Excluded (succeed id) store h b = release-Excluded id _ h
  step-Excluded (fail id f) store h b = release-Excluded id _ h
  step-Excluded (block account f) store h b =
      release_all-Excluded (routes_of account store.control.routes) _ h

  -- While a lease stands that another process holds, whatever this process acquires, releases and marks
  -- before the lease expires, under fresh identifiers of its own: it never acquires the lease's route, and
  -- the lease stands as it was.
  pub steps-NeverAcquires :
      (os : List Operation) (store : PostgresStore)
      → Excluded x store
      → All (Before x) os
      → NeverAcquires x.route_id os store × Excluded x (steps os store)
  steps-NeverAcquires [] store h b = (tt, h)
  steps-NeverAcquires (acquire now id l ∷ os) store h ((e, n), bs) =
      let (never, after) =
        steps-NeverAcquires os _ (step-Excluded (acquire now id l) store h (e, n)) bs in
      ((refused now id l store h e, never), after)
  steps-NeverAcquires (release id ∷ os) store h (b, bs) =
      steps-NeverAcquires os _ (step-Excluded (release id) store h b) bs
  steps-NeverAcquires (succeed id ∷ os) store h (b, bs) =
      steps-NeverAcquires os _ (step-Excluded (succeed id) store h b) bs
  steps-NeverAcquires (fail id f ∷ os) store h (b, bs) =
      steps-NeverAcquires os _ (step-Excluded (fail id f) store h b) bs
  steps-NeverAcquires (block account f ∷ os) store h (b, bs) =
      steps-NeverAcquires os _ (step-Excluded (block account f) store h b) bs
