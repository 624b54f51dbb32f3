-- ===== src/Storage/Sqlite/Health/Exclusion.antt =====
-- Which routes SQLite never offers (crates/slg-adapter-storage-sqlite/src/lib.rs).
use smart_llm_gateway.Prelude.{
  String, ◌≡◌, ◌≢◌, refl, sym, ◌∙◌, Bool, true, false, ◌||◌, Option, none, some, List, [], ◌∷◌,
  ◌==◌, eq_iff, Result, ok, err, map_err, ◌>>=◌, All, if◌then◌else◌, arith,
}
use smart_llm_gateway.Prelude.Int.{ℤ, leb_ℤ}
use smart_llm_gateway.Domain.Failure.{ProviderFailure, blocks_account, opens_route}
use smart_llm_gateway.Domain.Credential.{CredentialReferenceError, CredentialReference, parse}
use smart_llm_gateway.Domain.Route.{RouteCandidate}
use smart_llm_gateway.Ports.{Call}
use smart_llm_gateway.Storage.Sqlite.{HealthRow}
use smart_llm_gateway.Storage.Sqlite.Health.{
  Control, update, mark_route_success, mark_route_failure, mark_account_failure, apply, apply_all,
  Joined, selected, open_until, candidate_of, candidates, reference_error,
}
use smart_llm_gateway.Storage.Sqlite.Health.Routing.{
  Offered, AllOffered, AllOffered-imp, candidates_Offered,
}

All-update :
    (P : HealthRow → Type 0) (owner : String) (f : HealthRow → HealthRow) (xs : List HealthRow)
    → ((x : HealthRow) → x.owner ≡ owner → P (f x))
    → ((x : HealthRow) → x.owner ≢ owner → P x)
    → All P (update owner f xs)
unfolding update
All-update P owner f [] h k = tt
All-update P owner f (x ∷ xs) h k = placed (x.owner == owner) refl (All-update P owner f xs h k)
  where
    placed :
        (b : Bool)
        → (x.owner == owner) ≡ b
        → All P (update owner f xs)
        → All P (if b then f x ∷ update owner f xs else x ∷ update owner f xs)
    placed true e r = (h x (ground (arith, eq_iff x.owner owner)), r)
    placed false e r = (k x (λ q. ground (arith, eq_iff x.owner owner)), r)

All-update_kept :
    (P : HealthRow → Type 0) (owner : String) (f : HealthRow → HealthRow) (xs : List HealthRow)
    → ((x : HealthRow) → P x → P (f x))
    → All P xs
    → All P (update owner f xs)
unfolding update
All-update_kept P owner f [] h k = tt
All-update_kept P owner f (x ∷ xs) h k =
    placed (x.owner == owner) (All-update_kept P owner f xs h k.1)
  where
    placed :
        (b : Bool)
        → All P (update owner f xs)
        → All P (if b then f x ∷ update owner f xs else x ∷ update owner f xs)
    placed true r = (h x k.0, r)
    placed false r = (k.0, r)

All-any : {A : Type 0} (xs : List A) → All (λ _. Unit {0}) xs
All-any [] = tt
All-any (x ∷ xs) = (tt, All-any xs)

-- The state of the account is blocked.
abbrev Blocked : String → HealthRow → Type 0
Blocked a s = s.owner ≡ a → s.state ≡ "blocked"

apply-Blocked :
    (a : String) (m : Call) (c : Control)
    → All (Blocked a) c.account_states
    → All (Blocked a) (apply m c).account_states
unfolding apply mark_route_success mark_route_failure mark_account_failure
apply-Blocked a (Call.record_attempt r) c h = h
apply-Blocked a (Call.append_attempt r) c h = h
apply-Blocked a (Call.mark_route_success id) c h = h
apply-Blocked a (Call.mark_route_failure id f) c h = h
apply-Blocked a (Call.mark_account_failure id f) c h =
    All-update_kept (Blocked a) id _ c.account_states (λ x k e. refl) h

apply_all-Blocked :
    (a : String) (ms : List Call) (c : Control)
    → All (Blocked a) c.account_states
    → All (Blocked a) (apply_all ms c).account_states
unfolding apply_all
apply_all-Blocked a [] c h = h
apply_all-Blocked a (m ∷ ms) c h = apply_all-Blocked a ms (apply m c) (apply-Blocked a m c h)

candidate_of-ids :
    (j : Joined) (r : RouteCandidate)
    → candidate_of j ≡ ok r
    → (r.provider_account_id ≡ j.account.id) × (r.route_id ≡ j.route.id)
unfolding candidate_of
candidate_of-ids j r h = by_parse (parse j.account.credential_ref) h
  where
    by_parse :
        (x : Result CredentialReference CredentialReferenceError)
        → (map_err reference_error x >>= λ reference. ok (record {
          route_id = j.route.id;
          logical_model = j.route.logical_model;
          provider_account_id = j.account.id;
          provider = j.account.provider;
          credential_ref = reference;
          base_url = j.account.base_url;
          upstream_model = j.route.upstream_model;
          priority = j.route.priority;
        }))
          ≡ ok r
        → (r.provider_account_id ≡ j.account.id) × (r.route_id ≡ j.route.id)
    by_parse (ok reference) h = (cc, cc)
    by_parse (err e) h = cc

selected-facts :
    (now : ℤ) (j : Joined)
    → selected now j ≡ true
    → (j.account_state.owner ≡ j.account.id)
      × (j.account_state.state ≢ "blocked")
      × (j.route_state.owner ≡ j.route.id)
      × (open_until now j.route_state ≡ true)
unfolding selected
selected-facts now j h = ground (
  arith,
  eq_iff j.account_state.owner j.account.id,
  eq_iff j.account_state.state "blocked",
  eq_iff j.route_state.owner j.route.id,
)

-- Once a failure of an account has been marked, no candidates ever hold a route of the account,
-- whatever calls follow and at whatever time.
pub blocked_account_not_offered :
    (a : String) (f : ProviderFailure) (ms : List Call) (now : ℤ) (model : String) (c : Control)
    → AllOffered
        (λ r. r.provider_account_id ≢ a)
        (candidates now model (apply_all ms (mark_account_failure a f c)))
unfolding mark_account_failure
blocked_account_not_offered a f ms now model c = AllOffered-imp _ _ _ refused (
    candidates_Offered (λ _. Unit {0}) (Blocked a) now model
      (apply_all ms (mark_account_failure a f c)) (All-any _)
      (apply_all-Blocked a ms (mark_account_failure a f c)
        (All-update (Blocked a) a _ c.account_states (λ x e k. refl) (λ x n e. absurd (n e)))))
  where
    refused :
        (r : RouteCandidate) → Offered (λ _. Unit {0}) (Blocked a) now r → r.provider_account_id ≢ a
    refused r (j, e, h, s) q =
        let (o, n, _, _) = selected-facts now j s in
        n (h.1 (o ∙ sym (candidate_of-ids j r e).0 ∙ q))

-- `retry_at` lies after `now`, or there is none.
abbrev pub Later : ℤ → Option ℤ → Type 0
Later now none = Unit
Later now (some t) = leb_ℤ t now ≡ false

open_until_open :
    (now : ℤ) (x : HealthRow) → x.state ≡ "open" → Later now x.retry_at → open_until now x ≡ false
unfolding open_until
open_until_open now x h l = rw h (by_time x.retry_at l)
  where
    by_time :
        (t : Option ℤ) → Later now t → (elim t [ none ↦ false | some u ↦ leb_ℤ u now ]) ≡ false
    by_time none l = refl
    by_time (some t) l = l

abbrev state_of : Bool → Bool → String
state_of b o = if b || o then "open" else "closed"

opened_state : (b o : Bool) → o ≡ true → state_of b o ≡ "open"
opened_state b o h = ground arith

abbrev Opened : String → ℤ → HealthRow → Type 0
Opened id now s = s.owner ≡ id → open_until now s ≡ false

-- Right after a failure that opens a route is marked, the route is not offered before its time to retry, and without such a time not
-- at all.
pub opened_route_not_offered :
    (id : String) (f : ProviderFailure) (now : ℤ) (model : String) (c : Control)
    → opens_route f.category ≡ true
    → Later now f.retry_at_unix
    → AllOffered (λ r. r.route_id ≢ id) (candidates now model (mark_route_failure id f c))
unfolding mark_route_failure
opened_route_not_offered id f now model c o l = AllOffered-imp _ _ _ refused (
    candidates_Offered (Opened id now) (λ _. Unit {0}) now model (mark_route_failure id f c)
      (All-update (Opened id now) id _ c.route_states
        (λ x e k.
          open_until_open now _
            (opened_state (blocks_account f.category) (opens_route f.category) o) l)
        (λ x n e. absurd (n e)))
      (All-any _))
  where
    refused : (r : RouteCandidate) → Offered (Opened id now) (λ _. Unit {0}) now r → r.route_id ≢ id
    refused r (j, e, h, s) q =
        let (_, _, o, n) = selected-facts now j s in
        let shut = h.0 (o ∙ sym (candidate_of-ids j r e).1 ∙ q) in cc
