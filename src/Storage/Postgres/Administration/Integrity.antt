-- ===== src/Storage/Postgres/Administration/Integrity.antt =====
-- What the administration keeps of the tables (crates/slg-adapter-storage-postgres/src/lib.rs).
use smart_llm_gateway.Prelude.{
  ℕ, String, ◌≡◌, refl, ap, ◌∙◌, subst, Bool, true, false, not, List, [], ◌∷◌, contains,
  contains-cons, Distinct, All, Result, ok, err, guard, map_err, >>-eq-ok, >>=-eq-ok, ok_injective,
}
use smart_llm_gateway.Domain.Credential.{
  CredentialReference, CredentialReferenceError, parse, as_str,
}
use smart_llm_gateway.Domain.Credential.Laws.{parse_sound}
use smart_llm_gateway.Storage.Sqlite.{ProviderAccount, ProviderRoute}
use smart_llm_gateway.Storage.Sqlite.Health.{ModelFallback}
use smart_llm_gateway.Storage.Postgres.Candidates.{credential_reference}
use smart_llm_gateway.Storage.Postgres.Administration.{
  Tables, account_ids, route_ids, owners, unique_violation, reference_violation, create_gateway_key,
  create_model, with_account, with_route, with_fallback, trim_slashes, create_account, create_route,
  add_fallback,
}

-- The stored reference of an account is one.
abbrev pub HasCredential : ProviderAccount → Type 0
HasCredential a = (reference : CredentialReference) × (parse a.credential_ref ≡ ok reference)

-- The model and the account of a route are there.
abbrev pub RefersTo : List String → List String → ProviderRoute → Type 0
RefersTo models accounts r =
    (contains r.logical_model models ≡ true) × (contains r.provider_account_id accounts ≡ true)

abbrev pub FallsBackTo : List String → ModelFallback → Type 0
FallsBackTo models f =
    (contains f.source_model models ≡ true) × (contains f.target_model models ≡ true)

-- Identifiers are distinct; every account and every route has its one row of state, and there are no others;
-- every reference leads to a row, and every stored credential reference is one.
abbrev pub IsIntact : Tables → Type 0
IsIntact t =
    Distinct (account_ids t.control.accounts)
    × Distinct (route_ids t.control.routes)
    × (owners t.control.account_states ≡ account_ids t.control.accounts)
    × (owners t.control.route_states ≡ route_ids t.control.routes)
    × All HasCredential t.control.accounts
    × All (RefersTo t.logical_models (account_ids t.control.accounts)) t.control.routes
    × All (FallsBackTo t.logical_models) t.control.fallbacks

All-map {ℓ} :
    {A : Type ℓ} (P Q : A → Type 0) (xs : List A) → ((a : A) → P a → Q a) → All P xs → All Q xs
All-map P Q [] f h = tt
All-map P Q (x ∷ xs) f (p, h) = (f x p, All-map P Q xs f h)

guard-eq-ok : (b : Bool) (e : String) → guard b e ≡ ok tt → b ≡ true
guard-eq-ok true e h = refl
guard-eq-ok false e h = cc

absent : (b : Bool) (e : String) → guard (not b) e ≡ ok tt → b ≡ false
absent true e h = cc
absent false e h = refl

reference_kept :
    (value : String) (r : CredentialReference)
    → credential_reference value ≡ ok r
    → parse (as_str r) ≡ ok r
unfolding credential_reference
reference_kept value r h = by_parse (parse value) refl h
  where
    by_parse :
        (p : Result CredentialReference CredentialReferenceError)
        → parse value ≡ p
        → map_err {F = String} (λ _. "invalid credential reference in PostgreSQL configuration") p
          ≡ ok r
        → parse (as_str r) ≡ ok r
    by_parse (ok q) e k =
        let same : parse value ≡ ok r = e ∙ ap ok (ok_injective k) in
        ap parse (parse_sound value r same).2 ∙ same
    by_parse (err x) e k = cc

create_gateway_key-IsIntact :
    (digest : String → String) (raw_key key : String) (t t' : Tables)
    → create_gateway_key digest raw_key t ≡ ok (key, t')
    → IsIntact t
    → IsIntact t'
unfolding create_gateway_key
create_gateway_key-IsIntact digest raw_key key t t' e h =
    let (_, e1) = >>-eq-ok (guard _ unique_violation) _ e in
    subst IsIntact (ap (λ p. p.1) (ok_injective e1)) h

create_model-IsIntact :
    (name : String) (t t' : Tables) → create_model name t ≡ ok t' → IsIntact t → IsIntact t'
unfolding create_model
create_model-IsIntact name t t' e (h1, h2, h3, h4, h5, h6, h7) =
    let (_, e1) = >>-eq-ok (guard _ unique_violation) _ e in
    subst IsIntact (ok_injective e1) (
      h1,
      h2,
      h3,
      h4,
      h5,
      All-map _ _ t.control.routes
          (λ r p. (contains-cons r.logical_model name t.logical_models p.0, p.1)) h6,
      All-map _ _ t.control.fallbacks
          (λ f p. (
            contains-cons f.source_model name t.logical_models p.0,
            contains-cons f.target_model name t.logical_models p.1,
          ))
          h7,
    )

create_account-IsIntact :
    (id provider credential_ref base_url : String) (t t' : Tables)
    → create_account id provider credential_ref base_url t ≡ ok t'
    → IsIntact t
    → IsIntact t'
unfolding create_account
create_account-IsIntact id provider credential_ref base_url t t' e (h1, h2, h3, h4, h5, h6, h7) =
    let (reference, er, e1) = >>=-eq-ok (credential_reference credential_ref) _ e in
    let (g1, e2) = >>-eq-ok (guard _ unique_violation) _ e1 in
    let (g2, e3) = >>-eq-ok (guard _ unique_violation) _ e2 in
    let intact : IsIntact (
        with_account
          (record {
            id = id;
            provider = provider;
            credential_ref = as_str reference;
            base_url = trim_slashes base_url;
            enabled = true;
          })
          t) =
      (
        (absent _ _ g1, h1),
        h2,
        ap (λ xs. id ∷ xs) h3,
        h4,
        ((reference, reference_kept credential_ref reference er), h5),
        All-map _ _ t.control.routes
            (λ r p.
              (p.0, contains-cons r.provider_account_id id (account_ids t.control.accounts) p.1))
            h6,
        h7,
      ) in
    subst IsIntact (ok_injective e3) intact

create_route-IsIntact :
    (id model account upstream_model : String) (priority : ℕ) (t t' : Tables)
    → create_route id model account upstream_model priority t ≡ ok t'
    → IsIntact t
    → IsIntact t'
unfolding create_route
create_route-IsIntact id model account upstream_model priority t t' e (h1, h2, h3, h4, h5, h6, h7) =
    let (_, e1) = >>-eq-ok (guard _ "route priority exceeds PostgreSQL INTEGER") _ e in
    let (g2, e2) = >>-eq-ok (guard _ unique_violation) _ e1 in
    let (_, e3) = >>-eq-ok (guard _ unique_violation) _ e2 in
    let (g4, e4) = >>-eq-ok (guard _ reference_violation) _ e3 in
    let (g5, e5) = >>-eq-ok (guard _ reference_violation) _ e4 in
    let (_, e6) = >>-eq-ok (guard _ unique_violation) _ e5 in
    let intact : IsIntact (
        with_route
          (record {
            id = id;
            logical_model = model;
            provider_account_id = account;
            upstream_model = upstream_model;
            priority = priority;
            enabled = true;
          })
          t) =
      (
        h1,
        (absent _ _ g2, h2),
        h3,
        ap (λ xs. id ∷ xs) h4,
        h5,
        ((guard-eq-ok _ _ g4, guard-eq-ok _ _ g5), h6),
        h7,
      ) in
    subst IsIntact (ok_injective e6) intact

add_fallback-IsIntact :
    (source target : String) (priority : ℕ) (t t' : Tables)
    → add_fallback source target priority t ≡ ok t'
    → IsIntact t
    → IsIntact t'
unfolding add_fallback
add_fallback-IsIntact source target priority t t' e (h1, h2, h3, h4, h5, h6, h7) =
    let (_, e1) = >>-eq-ok (guard _ "fallback priority exceeds PostgreSQL INTEGER") _ e in
    let (_, e2) = >>-eq-ok (guard _ unique_violation) _ e1 in
    let (g3, e3) = >>-eq-ok (guard _ reference_violation) _ e2 in
    let (g4, e4) = >>-eq-ok (guard _ reference_violation) _ e3 in
    let intact : IsIntact (
        with_fallback (record { source_model = source; target_model = target; priority = priority })
          t) =
      (h1, h2, h3, h4, h5, h6, ((guard-eq-ok _ _ g3, guard-eq-ok _ _ g4), h7)) in
    subst IsIntact (ok_injective e4) intact

-- A command of the administration, with what it needs.
pub data Command : Type 0 where
  key : (String → String) → String → Command
  model : String → Command
  account : String → String → String → String → Command
  route : String → String → String → String → ℕ → Command
  fallback : String → String → ℕ → Command

-- The tables after a command: as they were, when it is refused.
abbrev pub or_kept : Tables → Result Tables String → Tables
or_kept t (ok t') = t'
or_kept t (err e) = t

abbrev pub without_key : Result (String × Tables) String → Result Tables String
without_key (ok (_, t)) = ok t
without_key (err e) = err e

abbrev pub perform : Command → Tables → Result Tables String
perform (key digest raw_key) t = without_key (create_gateway_key digest raw_key t)
perform (model name) t = create_model name t
perform (account id provider credential_ref base_url) t =
    create_account id provider credential_ref base_url t
perform (route id m a upstream_model priority) t = create_route id m a upstream_model priority t
perform (fallback source target priority) t = add_fallback source target priority t

abbrev pub perform_all : List Command → Tables → Tables
perform_all [] t = t
perform_all (c ∷ cs) t = perform_all cs (or_kept t (perform c t))

or_kept-IsIntact :
    (t : Tables) (r : Result Tables String)
    → IsIntact t
    → ((t' : Tables) → r ≡ ok t' → IsIntact t')
    → IsIntact (or_kept t r)
or_kept-IsIntact t (ok t') h k = k t' refl
or_kept-IsIntact t (err e) h k = h

without_key-eq-ok :
    (r : Result (String × Tables) String) (t : Tables)
    → without_key r ≡ ok t
    → (k : String) × (r ≡ ok (k, t))
without_key-eq-ok (ok (k, t')) t h = (k, ap (λ x. ok (k, x)) (ok_injective h))
without_key-eq-ok (err e) t h = cc

perform-IsIntact : (c : Command) (t t' : Tables) → perform c t ≡ ok t' → IsIntact t → IsIntact t'
perform-IsIntact (key digest raw_key) t t' e h =
    let (k, e') = without_key-eq-ok (create_gateway_key digest raw_key t) t' e in
    create_gateway_key-IsIntact digest raw_key k t t' e' h
perform-IsIntact (model name) t t' e h = create_model-IsIntact name t t' e h
perform-IsIntact (account id provider credential_ref base_url) t t' e h =
    create_account-IsIntact id provider credential_ref base_url t t' e h
perform-IsIntact (route id m a upstream_model priority) t t' e h =
    create_route-IsIntact id m a upstream_model priority t t' e h
perform-IsIntact (fallback source target priority) t t' e h =
    add_fallback-IsIntact source target priority t t' e h

-- Tables with distinct identifiers, one row of state for each account and each route, references that lead
-- to rows and valid credential references have all this after any commands of the administration, whether
-- they are accepted or refused.
pub perform_all-IsIntact :
    (cs : List Command) (t : Tables) → IsIntact t → IsIntact (perform_all cs t)
perform_all-IsIntact [] t h = h
perform_all-IsIntact (c ∷ cs) t h =
    perform_all-IsIntact cs (or_kept t (perform c t))
      (or_kept-IsIntact t (perform c t) h (λ t' e. perform-IsIntact c t t' e h))
