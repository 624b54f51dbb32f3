-- ===== src/Application/Gateway/Recorded.antt =====
-- What `Gateway::infer` has written by the time it falls back or answers
-- (`handle_pre_commit_failure`, `handle_execution`, crates/slg-application/src/lib.rs).
use smart_llm_gateway.Prelude.{
  String, ◌≡◌, refl, sym, subst, ◌++◌, ◌⊎◌, inl, inr, true, Option, none, some, [], ◌∷◌, arith,
  Result, ok, err,
}
use smart_llm_gateway.Domain.Failure.{ProviderFailure, blocks_account, opens_route}
use smart_llm_gateway.Domain.Route.{RouteCandidate}
use smart_llm_gateway.Domain.Message.{InferenceRequest}
use smart_llm_gateway.Domain.Evidence.{ProviderAuthoritativeEvidence}
use smart_llm_gateway.Ports.{
  AttemptOutcome, AttemptRecord, record_attempt, append_attempt, mark_route_failure,
  mark_account_failure, mark_route_success, called, Entry, Log, InferenceExecution,
}
use smart_llm_gateway.Application.Attempt.{
  debug_name, StreamAttempt, attempt_record, persist, answer_of, run,
}
use smart_llm_gateway.Application.Monad.{ApplicationError, and_then}
use smart_llm_gateway.Application.Gateway.Evidence.{Added, persist_evidence-Added}
use smart_llm_gateway.Application.Gateway.{
  Gateway, InferenceResponse, complete, streaming, commit, fresh_id, when, mark_account, mark_route,
  mark_success, spool_attempt, persist_attempt, handle_pre_commit_failure, respond,
  handle_committed, handle_execution,
}

-- The entry `e` stands in the log.
abbrev pub Logged : Entry → Log → Type 0
Logged e [] = ⊥
Logged e (x ∷ l) = (x ≡ e) ⊎ Logged e l

-- The primary store or the spool has accepted the attempt.
abbrev pub Accepted : AttemptRecord → Log → Type 0
Accepted r l = Logged (called (record_attempt r) true) l ⊎ Logged (called (append_attempt r) true) l

module _ {F V B : Type 0} (g : Gateway F V B) where
  -- An attempt that persists has been accepted by the primary store, or else by the spool.
  persist_attempt-Accepted :
      (r : AttemptRecord) (l l' : Log) → persist_attempt g r l ≡ (ok tt, l') → Accepted r l'
  unfolding persist_attempt spool_attempt
  persist_attempt-Accepted r l l' h = ground arith

  pub failed_attempt :
      String → InferenceRequest F → RouteCandidate → ProviderFailure → AttemptRecord
  failed_attempt id request route failure = record {
    attempt_id = id;
    request_id = request.request_id;
    route_id = route.route_id;
    outcome = AttemptOutcome.failed;
    failure_category = some (debug_name failure.category);
  }

  and_then-eq-ok :
      {A C : Type 0} (r : Result A ApplicationError × Log)
      (f : A → Log → Result C ApplicationError × Log) {c : C} {l' : Log}
      → and_then r f ≡ (ok c, l')
      → (a : A) × (m : Log) × (r ≡ (ok a, m)) × (f a m ≡ (ok c, l'))
  and_then-eq-ok (ok a, m) f h = (a, m, refl, h)
  and_then-eq-ok (err e, m) f h = cc

  -- The marks that follow a failure of the category `c`.
  abbrev pub Marked : RouteCandidate → ProviderFailure → Log → Type 0
  Marked route failure l =
      (blocks_account failure.category ≡ true
        → Logged (called (mark_account_failure route.provider_account_id failure) true) l)
      × (opens_route failure.category ≡ true
          → Logged (called (mark_route_failure route.route_id failure) true) l)

  mark_failure-Marked :
      (route : RouteCandidate) (failure : ProviderFailure) (l l' : Log)
      → and_then
          (when (blocks_account failure.category) (mark_account g route failure) l)
          (λ _. when (opens_route failure.category) (mark_route g route failure))
        ≡ (ok tt, l')
      → Marked route failure l' × ((e : Entry) → Logged e l → Logged e l')
  unfolding mark_account mark_route
  mark_failure-Marked route failure l l' h = (ground arith, λ e k. ground arith)

  Accepted-mono :
      (r : AttemptRecord) (l l' : Log)
      → ((e : Entry) → Logged e l → Logged e l')
      → Accepted r l
      → Accepted r l'
  Accepted-mono r l l' kept (inl h) = inl (kept _ h)
  Accepted-mono r l l' kept (inr h) = inr (kept _ h)

  -- If the loop goes on after a failed try, the primary store or the spool has accepted the failed
  -- attempt, and the mark that its category asks for has been accepted.
  pub failure_recorded :
      (request : InferenceRequest F) (route : RouteCandidate) (failure : ProviderFailure)
      (l l' : Log)
      → handle_pre_commit_failure g request route failure l ≡ (ok tt, l')
      → Accepted (failed_attempt (g.host.new_attempt_id l) request route failure) l'
        × Marked route failure l'
  unfolding handle_pre_commit_failure fresh_id failed_attempt
  failure_recorded request route failure l l' h =
      let (u, m, e, k) = and_then-eq-ok (persist_attempt g _ _) _ h in
      let a = persist_attempt-Accepted _ _ m e in
      let (marked, kept) = mark_failure-Marked route failure m l' k in
      (Accepted-mono _ m l' kept a, marked)

  -- What has been written when a route that committed is answered.
  abbrev pub Answered :
      String → InferenceRequest F → RouteCandidate → InferenceResponse V B → Log → Type 0
  Answered id request route (complete v) l =
      Accepted
        (record {
          attempt_id = id;
          request_id = request.request_id;
          route_id = route.route_id;
          outcome = AttemptOutcome.succeeded;
          failure_category = none;
        })
        l
      × Logged (called (mark_route_success route.route_id) true) l
  Answered id request route (streaming body attempt) l =
      (attempt.attempt_id ≡ id)
      × (attempt.route_id ≡ route.route_id)
      × Accepted (attempt_record attempt AttemptOutcome.committed none) l

  persist-Accepted :
      (s : StreamAttempt) (r : AttemptRecord) (l l' : Log)
      → run (answer_of g.config g.usage_spool) (persist s r) l ≡ (true, l')
      → Accepted r l'
  unfolding run persist
  persist-Accepted s r l l' h = ground arith

  Logged-append : (e : Entry) (new l : Log) → Logged e l → Logged e (new ++ l)
  Logged-append e [] l h = h
  Logged-append e (x ∷ new) l h = inr (Logged-append e new l h)

  Logged-Added : (e : Entry) (l l' : Log) → Added g l l' → Logged e l → Logged e l'
  Logged-Added e l l' (new, q, _) h = subst (Logged e) (sym q) (Logged-append e new l h)

  mark_success-Logged :
      (route : RouteCandidate) (l l' : Log)
      → mark_success g route l ≡ (ok tt, l')
      → Logged (called (mark_route_success route.route_id) true) l'
        × ((e : Entry) → Logged e l → Logged e l')
  unfolding mark_success
  mark_success-Logged route l l' h = (ground arith, λ e k. ground arith)

  respond-Added :
      (v : V) (account attempt : String) (e : Option ProviderAuthoritativeEvidence) (l l' : Log)
      (r : InferenceResponse V B)
      → respond g v account attempt e l ≡ (ok r, l')
      → (r ≡ complete v) × Added g l l'
  unfolding respond
  respond-Added v account attempt none l l' r h = (cc, subst (Added g l) (cc) ([], refl, tt))
  respond-Added v account attempt (some e) l l' r h =
      (cc, subst (Added g l) (cc) (persist_evidence-Added g account attempt e l))

  commit-Accepted :
      (s : StreamAttempt) (l l' : Log)
      → commit g s l ≡ (ok tt, l')
      → Accepted (attempt_record s AttemptOutcome.committed none) l'
  unfolding commit run persist
  commit-Accepted s l l' h = ground arith

  streaming_recorded :
      (request : InferenceRequest F) (route : RouteCandidate) (id : String) (body : B)
      → (l l' : Log) (r : InferenceResponse V B)
      → handle_committed g request route (InferenceExecution.streaming body) id l ≡ (ok r, l')
      → Answered id request route r l'
  unfolding handle_committed
  streaming_recorded request route id body l l' r h =
      let attempt : StreamAttempt = record {
        usage_spool = g.usage_spool;
        attempt_id = id;
        request_id = request.request_id;
        route_id = route.route_id;
        provider_account_id = route.provider_account_id;
      } in
      let (u, m, p, k) =
        and_then-eq-ok (commit g attempt l) (λ _ l. (ok (streaming body attempt), l)) h in
      let q : streaming body attempt ≡ r = cc in
      let a = commit-Accepted attempt l m p in
      let e : m ≡ l' = cc in
      subst (λ x. Answered id request route x l') q
        (refl, refl, subst (Accepted (attempt_record attempt AttemptOutcome.committed none)) e a)

  -- When a route that committed is answered, the store or the spool has accepted the attempt, as
  -- succeeded for a complete response, whose route has also been marked, or as committed for a stream.
  pub answer_recorded :
      (request : InferenceRequest F) (route : RouteCandidate) (x : InferenceExecution V B)
      → (l l' : Log) (r : InferenceResponse V B) → handle_execution g request route x l ≡ (ok r, l')
      → Answered (g.host.new_attempt_id l) request route r l'
  unfolding handle_execution handle_committed fresh_id
  answer_recorded request route (InferenceExecution.complete v e) l l' r h =
      let (u, m, p, k) = and_then-eq-ok (persist_attempt g _ _) _ h in
      let (w, n, q, s) = and_then-eq-ok (mark_success g route m) _ k in
      let (marked, kept) = mark_success-Logged route m n q in
      let (c, added) = respond-Added v _ _ e n l' r s in
      subst (λ x. Answered (g.host.new_attempt_id l) request route x l') (sym c)
        (
          Accepted-mono _ n l' (λ x. Logged-Added x n l' added)
              (Accepted-mono _ m n kept (persist_attempt-Accepted _ _ m p)),
          Logged-Added _ n l' added marked,
        )
  answer_recorded request route (InferenceExecution.streaming body) l l' r h =
      streaming_recorded request route (g.host.new_attempt_id l) body _ l' r h
