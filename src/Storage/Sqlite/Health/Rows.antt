-- ===== src/Storage/Sqlite/Health/Rows.antt =====
-- The rows that the candidates of SQLite stand for (crates/slg-adapter-storage-sqlite/src/lib.rs).
use smart_llm_gateway.Prelude.{
  String, ◌≡◌, ◌≢◌, ◌⊎◌, inl, inr, refl, Bool, true, false, ◌||◌, ◌==◌, ap, Option, none, some,
  Result, ok, err, map_err, ◌>>=◌, All, All-In, In, eq_iff, arith,
}
use smart_llm_gateway.Prelude.Int.{ℤ, ◌≤ℤ◌, leb_ℤ}
use smart_llm_gateway.Domain.Credential.{CredentialReference, CredentialReferenceError, parse}
use smart_llm_gateway.Domain.Route.{RouteCandidate}
use smart_llm_gateway.Storage.Sqlite.{HealthRow}
use smart_llm_gateway.Storage.Sqlite.Health.{
  Control, Joined, reference_error, open_until, selected, joined, candidate_of, candidates,
}
use smart_llm_gateway.Storage.Sqlite.Health.Routing.{
  All-flat_map, All-map, OfferedBy, AllOffered, AllOffered-imp, candidates_OfferedBy,
}

-- Each part is a row of its table.
abbrev pub IsRow : Control → Joined → Type 0
IsRow c j =
    In j.route c.routes
    × In j.account c.accounts
    × In j.route_state c.route_states
    × In j.account_state c.account_states

-- The parts belong together.
abbrev pub BelongTogether : Joined → Type 0
BelongTogether j =
    (j.account.id ≡ j.route.provider_account_id)
    × (j.route_state.owner ≡ j.route.id)
    × (j.account_state.owner ≡ j.account.id)

-- The route is closed, or has a time to retry that is not after `now`.
abbrev pub IsOpenAt : ℤ → HealthRow → Type 0
IsOpenAt now s = (s.state ≡ "closed") ⊎ ((t : ℤ) × (s.retry_at ≡ some t) × (t ≤ℤ now))

abbrev pub IsEligible : ℤ → Joined → Type 0
IsEligible now j =
    (j.route.enabled ≡ true)
    × (j.account.enabled ≡ true)
    × (j.account_state.state ≢ "blocked")
    × IsOpenAt now j.route_state

-- The candidate has the columns of the row.
abbrev pub IsCandidateOf : Joined → RouteCandidate → Type 0
IsCandidateOf j r =
    (r.route_id ≡ j.route.id)
    × (r.logical_model ≡ j.route.logical_model)
    × (r.provider_account_id ≡ j.account.id)
    × (r.provider ≡ j.account.provider)
    × (parse j.account.credential_ref ≡ ok r.credential_ref)
    × (r.base_url ≡ j.account.base_url)
    × (r.upstream_model ≡ j.route.upstream_model)
    × (r.priority ≡ j.route.priority)

abbrev pub HasRow : ℤ → Control → RouteCandidate → Type 0
HasRow now c r = (j : Joined) × IsRow c j × BelongTogether j × IsEligible now j × IsCandidateOf j r

joined-IsRow : (c : Control) → All (IsRow c) (joined c)
unfolding joined
joined-IsRow c =
    All-flat_map (λ r. In r c.routes) (IsRow c) _ c.routes
      (λ r hr.
        All-flat_map (λ a. In a c.accounts) (IsRow c) _ c.accounts
          (λ a ha.
            All-flat_map (λ s. In s c.route_states) (IsRow c) _ c.route_states
              (λ s hs.
                All-map (λ t. In t c.account_states) (IsRow c) _ c.account_states
                  (λ t ht. (hr, ha, hs, ht)) (All-In c.account_states))
              (All-In c.route_states))
          (All-In c.accounts))
      (All-In c.routes)

abbrev is_reached : ℤ → Option ℤ → Bool
is_reached now o = elim o [ none ↦ false | some t ↦ leb_ℤ t now ]

open_until-IsOpenAt : (now : ℤ) (s : HealthRow) → open_until now s ≡ true → IsOpenAt now s
unfolding open_until
open_until-IsOpenAt now s h = by_state (s.state == "closed") refl (by_time s.retry_at refl) h
  where
    by_time : (o : Option ℤ) → s.retry_at ≡ o → is_reached now s.retry_at ≡ true → IsOpenAt now s
    by_time none e k = let n : is_reached now s.retry_at ≡ false = ap (is_reached now) e in cc
    by_time (some t) e k =
        let n : is_reached now s.retry_at ≡ leb_ℤ t now = ap (is_reached now) e in
        inr (t, e, ground arith)

    by_state :
        (b : Bool)
        → (s.state == "closed") ≡ b
        → (is_reached now s.retry_at ≡ true → IsOpenAt now s)
        → (b || is_reached now s.retry_at) ≡ true
        → IsOpenAt now s
    by_state true e k q = inl ((eq_iff s.state "closed").0 e)
    by_state false e k q = k q

selected-IsEligible :
    (now : ℤ) (j : Joined) → selected now j ≡ true → BelongTogether j × IsEligible now j
unfolding selected
selected-IsEligible now j h =
    let reached : open_until now j.route_state ≡ true = ground arith in
    (
      (
        ground (arith, eq_iff j.account.id j.route.provider_account_id),
        ground (arith, eq_iff j.route_state.owner j.route.id),
        ground (arith, eq_iff j.account_state.owner j.account.id),
      ),
      (
        ground arith,
        ground arith,
        (λ e. ground (arith, eq_iff j.account_state.state "blocked")),
        open_until-IsOpenAt now j.route_state reached,
      ),
    )

candidate_of-IsCandidateOf :
    (j : Joined) (r : RouteCandidate) → candidate_of j ≡ ok r → IsCandidateOf j r
unfolding candidate_of
candidate_of-IsCandidateOf j r h = by_parse (parse j.account.credential_ref) refl h
  where
    by_parse :
        (p : Result CredentialReference CredentialReferenceError)
        → parse j.account.credential_ref ≡ p
        → (map_err reference_error p >>= λ reference. ok (record {
          route_id = j.route.id;
          logical_model = j.route.logical_model;
          provider_account_id = j.account.id;
          provider = j.account.provider;
          credential_ref = reference;
          base_url = j.account.base_url;
          upstream_model = j.route.upstream_model;
          priority = j.route.priority;
        }))
          ≡ ok r
        → IsCandidateOf j r
    by_parse (err x) e k = cc
    by_parse (ok q) e k = (cc, cc, cc, cc, cc, cc, cc, cc)

-- The candidates of a model are computed whatever the tables hold, and every candidate is a row of each of
-- the four tables: a route and an account that are enabled and belong together, the account's state not
-- blocked, and the route's state closed or with its time to retry reached; the candidate has their columns,
-- and the reference that the account's column parses to.
pub candidates_HasRow :
    (now : ℤ) (model : String) (c : Control) → AllOffered (HasRow now c) (candidates now model c)
candidates_HasRow now model c =
    AllOffered-imp (OfferedBy (IsRow c) now) (HasRow now c) (candidates now model c)
      (λ r o.
        let (b, e) = selected-IsEligible now o.0 o.3 in
        (o.0, o.2, b, e, candidate_of-IsCandidateOf o.0 r o.1))
      (candidates_OfferedBy (IsRow c) now model c (joined-IsRow c))
