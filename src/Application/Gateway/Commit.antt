-- ===== src/Application/Gateway/Commit.antt =====
-- Fallback stops at the first route that commits (`Gateway::infer`, crates/slg-application/src/lib.rs).
use smart_llm_gateway.Prelude.{
  String, ◌≡◌, refl, sym, ap, ◌∙◌, Bool, true, false, Option, none, some, List, [], ◌∷◌, ◌++◌,
  append_assoc, arith, Result, ok, err, is_ok, All,
}
use smart_llm_gateway.Domain.Failure.{ProviderFailure, blocks_account, opens_route}
use smart_llm_gateway.Domain.Route.{RouteCandidate}
use smart_llm_gateway.Domain.Message.{InferenceRequest}
use smart_llm_gateway.Domain.Evidence.{ProviderQuotaSnapshot, ProviderAuthoritativeEvidence}
use smart_llm_gateway.Ports.{
  AttemptRecord, Call, authenticated, candidates_of, executed, resolved, Log, InferenceExecution,
}
use smart_llm_gateway.Application.Attempt.{Task, done, await, run, persist, StreamAttempt}
use smart_llm_gateway.Application.Monad.{
  ApplicationError, unauthorized, upstream, configuration, Action, ask, and_then, ◌>>=◌, ◌>>◌,
}
use smart_llm_gateway.Application.Gateway.{
  Gateway, InferenceResponse, fresh_id, spool_attempt, persist_attempt, record_snapshots,
  record_billing, persist_evidence, handle_pre_commit_failure, when, mark_account, mark_route,
  mark_success, respond, commit, handle_committed, handle_execution, attempt_route, try_routes,
  infer_authenticated, infer, candidates_error,
}

-- The routes that were tried, the latest first, and whether each one committed.
abbrev pub executes : Log → List (String × Bool)
executes [] = []
executes (executed id b ∷ l) = (id, b) ∷ executes l
executes (_ ∷ l) = executes l

executes-run :
    {A : Type 0} (answer : Log → Call → Bool) (t : Task A) (l : Log)
    → executes (run answer t l).1 ≡ executes l
unfolding run
executes-run answer (done a) l = refl
executes-run answer (await c k) l = executes-run answer (k (answer l c)) _

-- `m` tries no route.
abbrev Quiet : {A : Type 0} → Action A → Type 0
Quiet m = (l : Log) → executes (m l).1 ≡ executes l

Quiet-bind :
    {A B : Type 0} (m : Action A) (f : A → Action B)
    → Quiet m
    → ((a : A) → Quiet (f a))
    → Quiet (m >>= f)
Quiet-bind {A} {B} m f hm hf l = by_result (m l) (hm l)
  where
    by_result :
        (r : Result A ApplicationError × Log)
        → executes r.1 ≡ executes l
        → executes (and_then r f).1 ≡ executes l
    by_result (ok a, l') e = hf a l' ∙ e
    by_result (err x, l') e = e

-- The tries of one run, the latest first: only the latest may have committed.
abbrev pub OnlyLast : List (String × Bool) → Type 0
OnlyLast [] = Unit
OnlyLast ((_, b) ∷ earlier) = All (λ t. t.1 ≡ false) earlier

-- Whether the latest try committed.
abbrev pub ends_committed : List (String × Bool) → Bool
ends_committed [] = false
ends_committed ((_, b) ∷ earlier) = b

-- What a run of the loop adds to the tries: at most the last one commits, and only then is there a
-- response. `before` are the tries that had failed when it began.
abbrev pub Tried : {A : Type 0} → Log → Result A ApplicationError × Log → Type 0
Tried l (r, l') =
    (tries : List (String × Bool)) × (executes l' ≡ tries ++ executes l)
    × OnlyLast tries
    × (is_ok r ≡ true → ends_committed tries ≡ true)

module _ {F V B : Type 0} (g : Gateway F V B) where
  Quiet-persist_attempt : (r : AttemptRecord) → Quiet (persist_attempt g r)
  unfolding persist_attempt spool_attempt
  Quiet-persist_attempt r l = ground arith

  executes-record_snapshots :
      (ss : List ProviderQuotaSnapshot) (l : Log) → executes (record_snapshots g ss l) ≡ executes l
  unfolding record_snapshots
  executes-record_snapshots [] l = refl
  executes-record_snapshots (s ∷ ss) l = executes-record_snapshots ss _

  executes-persist_evidence :
      (account attempt : String) (e : ProviderAuthoritativeEvidence) (l : Log)
      → executes (persist_evidence g account attempt e l) ≡ executes l
  unfolding persist_evidence record_billing
  executes-persist_evidence account attempt e l =
      ground (arith, executes-record_snapshots e.quota_snapshots l)

  Quiet-when : (b : Bool) (m : Action (Unit {0})) → Quiet m → Quiet (when b m)
  Quiet-when true m h l = h l
  Quiet-when false m h l = refl

  Quiet-mark_account :
      (route : RouteCandidate) (f : ProviderFailure) → Quiet (mark_account g route f)
  unfolding mark_account
  Quiet-mark_account route f l = refl

  Quiet-mark_route : (route : RouteCandidate) (f : ProviderFailure) → Quiet (mark_route g route f)
  unfolding mark_route
  Quiet-mark_route route f l = refl

  Quiet-mark_success : (route : RouteCandidate) → Quiet (mark_success g route)
  unfolding mark_success
  Quiet-mark_success route l = refl

  Quiet-handle_pre_commit_failure :
      (request : InferenceRequest F) (route : RouteCandidate) (failure : ProviderFailure)
      → Quiet (handle_pre_commit_failure g request route failure)
  unfolding handle_pre_commit_failure fresh_id
  Quiet-handle_pre_commit_failure request route failure l =
      Quiet-bind (persist_attempt g _) _ (Quiet-persist_attempt _)
        (λ _.
          Quiet-bind (when (blocks_account failure.category) (mark_account g route failure))
            (λ _. when (opens_route failure.category) (mark_route g route failure))
            (Quiet-when (blocks_account failure.category) (mark_account g route failure)
              (Quiet-mark_account route failure))
            (λ _.
              Quiet-when (opens_route failure.category) (mark_route g route failure)
                (Quiet-mark_route route failure)))
        _

  Quiet-commit : (s : StreamAttempt) → Quiet (commit g s)
  unfolding commit
  Quiet-commit s l = executes-run _ (persist s _) l

  Quiet-respond :
      (response : V) (account attempt : String) (e : Option ProviderAuthoritativeEvidence)
      → Quiet (respond g response account attempt e)
  unfolding respond
  Quiet-respond response account attempt none l = refl
  Quiet-respond response account attempt (some e) l = executes-persist_evidence account attempt e l

  Quiet-handle_execution :
      (request : InferenceRequest F) (route : RouteCandidate) (x : InferenceExecution V B)
      → Quiet (handle_execution g request route x)
  unfolding handle_execution handle_committed fresh_id
  Quiet-handle_execution request route (InferenceExecution.complete response e) l =
      Quiet-bind (persist_attempt g _) _ (Quiet-persist_attempt _)
        (λ _.
          Quiet-bind (mark_success g route)
            (λ _. respond g response route.provider_account_id (g.host.new_attempt_id l) e)
            (Quiet-mark_success route) (λ _. Quiet-respond response _ _ e))
        _
  Quiet-handle_execution request route (InferenceExecution.streaming body) l =
      Quiet-bind (commit g _) _ (Quiet-commit _) (λ _ l'. refl) _

  -- One failed try before a run.
  Tried-failed :
      (id : String) (l l' : Log) (r : Result (InferenceResponse V B) ApplicationError × Log)
      → executes l' ≡ (id, false) ∷ executes l
      → Tried l' r
      → Tried l r
  Tried-failed id l l' r e (tries, q, last, c) = (
    tries ++ (id, false) ∷ [],
    q ∙ ap (λ t. tries ++ t) e ∙ sym (append_assoc tries ((id, false) ∷ []) (executes l)),
    append_last tries last,
    λ k. append_ends tries (c k),
  )
    where
      append_all :
          (ts : List (String × Bool))
          → All (λ t. t.1 ≡ false) ts
          → All (λ t. t.1 ≡ false) (ts ++ (id, false) ∷ [])
      append_all [] h = (refl, tt)
      append_all (t ∷ ts) h = (h.0, append_all ts h.1)

      append_last : (ts : List (String × Bool)) → OnlyLast ts → OnlyLast (ts ++ (id, false) ∷ [])
      append_last [] h = tt
      append_last (t ∷ ts) h = append_all ts h

      append_ends :
          (ts : List (String × Bool))
          → ends_committed ts ≡ true
          → ends_committed (ts ++ (id, false) ∷ []) ≡ true
      append_ends [] h = cc
      append_ends (t ∷ ts) h = h

  -- A run that tries nothing more and gives no response.
  Tried-none :
      (e : ApplicationError) (l l' : Log)
      → executes l' ≡ executes l
      → Tried {A = InferenceResponse V B} l (err e, l')
  Tried-none e l l' q = ([], q, tt, λ h. cc)

  abbrev pub Tries : Action (InferenceResponse V B) → Type 0
  Tries m = (l : Log) → Tried l (m l)

  Tries-attempt_route :
      (request : InferenceRequest F) (route : RouteCandidate) (credential : String)
      → (go : Option String → Action (InferenceResponse V B))
      → ((last : Option String) → Tries (go last))
      → Tries (attempt_route g request route credential go)
  unfolding attempt_route
  Tries-attempt_route request route credential go tries l =
      by_answer (g.executor.execute l route request credential)
    where
      after :
          (failure : ProviderFailure) (r : Result (Unit {0}) ApplicationError × Log)
          → executes r.1 ≡ (route.route_id, false) ∷ executes l
          → Tried l (and_then r (λ _. go (some failure.message)))
      after failure (ok _, l') e =
          Tried-failed route.route_id l l' (go (some failure.message) l') e
            (tries (some failure.message) l')
      after failure (err x, l') e = ((route.route_id, false) ∷ [], e, tt, λ h. cc)

      by_answer :
          (x : Result (InferenceExecution V B) ProviderFailure)
          → Tried {A = InferenceResponse V B} l (elim x [
            | ok execution ↦
                handle_execution g request route execution (executed route.route_id true ∷ l)
            | err failure ↦
                (handle_pre_commit_failure g request route failure >> go (some failure.message))
                  (executed route.route_id false ∷ l)
          ])
      by_answer (ok execution) = (
        (route.route_id, true) ∷ [],
        Quiet-handle_execution request route execution _,
        tt,
        λ h. refl,
      )
      by_answer (err failure) =
          after failure
            (handle_pre_commit_failure g request route failure (executed route.route_id false ∷ l))
            (Quiet-handle_pre_commit_failure request route failure _)

  Tries-try_routes :
      (request : InferenceRequest F) (routes : List RouteCandidate) (last : Option String)
      → Tries (try_routes g request routes last)
  unfolding try_routes
  Tries-try_routes request [] none l = Tried-none (upstream "no eligible route") l l refl
  Tries-try_routes request [] (some e) l = Tried-none (upstream e) l l refl
  Tries-try_routes request (route ∷ routes) last l =
      by_secret (Tries-try_routes request routes) (g.secrets.resolve l route.credential_ref)
    where
      by_secret :
          ((last : Option String) → Tries (try_routes g request routes last))
          → (x : Result String String)
          → Tried {A = InferenceResponse V B} l (elim x [
            | ok credential ↦
                attempt_route g request route credential
                  (try_routes g request routes)
                  (resolved route.credential_ref ∷ l)
            | err e ↦ try_routes g request routes (some e) (resolved route.credential_ref ∷ l)
          ])
      by_secret rest (ok credential) =
          Tries-attempt_route request route credential (try_routes g request routes) rest
            (resolved route.credential_ref ∷ l)
      by_secret rest (err e) = rest (some e) (resolved route.credential_ref ∷ l)

  Tries-then :
      {A : Type 0} (m : Action A) (f : A → Action (InferenceResponse V B))
      → Quiet m
      → ((a : A) → Tries (f a))
      → Tries (m >>= f)
  Tries-then {A} m f hm hf l = by_result (m l) (hm l)
    where
      by_result :
          (r : Result A ApplicationError × Log) → executes r.1 ≡ executes l → Tried l (and_then r f)
      by_result (ok a, l') e =
          let (tries, q, last, c) = hf a l' in (tries, q ∙ ap (λ t. tries ++ t) e, last, c)
      by_result (err x, l') e = Tried-none x l l' e

  Tries-infer_authenticated :
      (request : InferenceRequest F) (valid : Bool) → Tries (infer_authenticated g request valid)
  unfolding infer_authenticated
  Tries-infer_authenticated request false l = Tried-none unauthorized l l refl
  Tries-infer_authenticated request true l =
      Tries-then
        (ask (candidates_of request.model) (λ l. g.config.candidates l request.model)
          candidates_error)
        (λ routes. try_routes g request routes none) (λ l. refl)
        (λ routes. Tries-try_routes request routes none) l

  -- Whatever the ports answer, `infer` tries no route after one that committed, and returns a response
  -- only if the last route that it tried did.
  pub infer-Tried :
      (raw_key : String) (request : InferenceRequest F) (l : Log)
      → Tried l (infer g raw_key request l)
  unfolding infer
  infer-Tried raw_key request =
      Tries-then (ask (authenticated raw_key) (λ l. g.config.authenticate l raw_key) configuration)
        (infer_authenticated g request) (λ l. refl) (Tries-infer_authenticated request)
