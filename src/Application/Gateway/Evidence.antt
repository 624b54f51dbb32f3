-- ===== src/Application/Gateway/Evidence.antt =====
-- Accounting touches neither routing nor the response (`with_accounting_repository`,
-- crates/slg-application/src/lib.rs).
use smart_llm_gateway.Prelude.{
  String, ◌≡◌, refl, sym, ap, ◌∙◌, Bool, true, false, none, some, List, [], ◌∷◌, ◌++◌, Option,
  Result, ok, err, All, append_assoc, ◌||◌, not, is_ok, if◌then◌else◌,
}
use smart_llm_gateway.Domain.Failure.{ProviderFailure}
use smart_llm_gateway.Domain.Route.{RouteCandidate}
use smart_llm_gateway.Domain.Message.{InferenceRequest}
use smart_llm_gateway.Domain.Evidence.{
  ProviderQuotaSnapshot, ProviderBillingEvidence, ProviderAuthoritativeEvidence,
  validate_for_account, is_empty_evidence,
}
use smart_llm_gateway.Ports.{
  AttemptRecord, Entry, quota_recorded, billing_recorded, observed, authenticated, candidates_of,
  executed, resolved, Log, AuthoritativeAccountingRepository, InferenceExecution,
}
use smart_llm_gateway.Application.Monad.{
  ApplicationError, configuration, Action, ask, and_then, ◌>>◌,
}
use smart_llm_gateway.Application.Gateway.{
  Gateway, InferenceResponse, fresh_id, spool_attempt, persist_attempt, record_snapshots,
  billing_record, record_billing, persist_evidence, mark_account, mark_route, mark_success,
  handle_pre_commit_failure, respond, commit, handle_committed, handle_execution, attempt_route,
  try_routes, infer_authenticated, infer, candidates_error,
}

-- The entries that accounting leaves in a log.
abbrev pub IsAccounting : Entry → Type 0
IsAccounting (quota_recorded _) = Unit
IsAccounting (billing_recorded _) = Unit
IsAccounting observed = Unit
IsAccounting _ = ⊥

-- The same result, and a log that differs by accounting entries at its end.
abbrev pub SameBut : {A : Type 0} → A × Log → A × Log → Type 0
SameBut (r, l) (r', l') = (r ≡ r') × ((new : Log) × (l ≡ new ++ l') × All IsAccounting new)

abbrev pub without_accounting : {F V B : Type 0} → Gateway F V B → Gateway F V B
without_accounting g = record g { accounting = none }

module _ {F V B : Type 0} (g : Gateway F V B) where
  record_snapshots_added :
      (ss : List ProviderQuotaSnapshot) (l : Log)
      → (new : Log) × (record_snapshots g ss l ≡ new ++ l) × All IsAccounting new
  unfolding record_snapshots
  record_snapshots_added [] l = ([], refl, tt)
  record_snapshots_added (s ∷ ss) l =
      let (new, e, a) = record_snapshots_added ss (quota_recorded s ∷ l) in
      (
        new ++ quota_recorded s ∷ [],
        e ∙ sym (append_assoc new (quota_recorded s ∷ []) l),
        append_accounting new a,
      )
    where
      append_accounting :
          (l : Log) → All IsAccounting l → All IsAccounting (l ++ quota_recorded s ∷ [])
      append_accounting [] h = (tt, tt)
      append_accounting (x ∷ l) h = (h.0, append_accounting l h.1)

  -- A log with accounting entries at its end.
  abbrev pub Added : Log → Log → Type 0
  Added l l' = (new : Log) × (l' ≡ new ++ l) × All IsAccounting new

  record_billing-Added :
      (account attempt : String) (b : Option ProviderBillingEvidence) (l l' : Log)
      → Added l l'
      → Added l (record_billing g account attempt b l')
  unfolding record_billing
  record_billing-Added account attempt none l l' h = h
  record_billing-Added account attempt (some b) l l' (new, e, a) =
      let entry = billing_recorded (billing_record g account attempt b (g.host.now l')) in
      (entry ∷ observed ∷ new, ap (λ x. entry ∷ observed ∷ x) e, (tt, (tt, a)))

  pub persist_evidence-Added :
      (account attempt : String) (e : ProviderAuthoritativeEvidence) (l : Log)
      → Added l (persist_evidence g account attempt e l)
  unfolding persist_evidence
  persist_evidence-Added account attempt e l = by_port g.accounting
    where
      recorded : Log
      recorded = record_billing g account attempt e.billing (record_snapshots g e.quota_snapshots l)

      by_test : (b : Bool) → Added l (if b then l else recorded)
      by_test true = ([], refl, tt)
      by_test false =
          record_billing-Added account attempt e.billing l _
            (record_snapshots_added e.quota_snapshots l)

      by_port :
          (o : Option AuthoritativeAccountingRepository)
          → Added l (elim o [
            | none ↦ l
            | some _ ↦
                if is_empty_evidence e || not (is_ok (validate_for_account e account))
                then l
                else recorded
          ])
      by_port none = ([], refl, tt)
      by_port (some a) =
          by_test (is_empty_evidence e || not (is_ok (validate_for_account e account)))

  persist_attempt_same :
      (r : AttemptRecord) (l : Log)
      → persist_attempt g r l ≡ persist_attempt (without_accounting g) r l
  unfolding persist_attempt spool_attempt
  persist_attempt_same r l = refl

  handle_pre_commit_failure_same :
      (request : InferenceRequest F) (route : RouteCandidate) (failure : ProviderFailure) (l : Log)
      → handle_pre_commit_failure g request route failure l
        ≡ handle_pre_commit_failure (without_accounting g) request route failure l
  unfolding handle_pre_commit_failure persist_attempt spool_attempt fresh_id mark_account mark_route
  handle_pre_commit_failure_same request route failure l = refl

  same : {A : Type 0} (r : A × Log) → SameBut r r
  same r = (refl, ([], refl, tt))

  respond_same :
      (response : V) (account attempt : String) (e : Option ProviderAuthoritativeEvidence) (l : Log)
      → SameBut
          (respond g response account attempt e l)
          (respond (without_accounting g) response account attempt e l)
  unfolding respond persist_evidence
  respond_same response account attempt none l = (refl, ([], refl, tt))
  respond_same response account attempt (some e) l =
      (refl, persist_evidence-Added account attempt e l)

  and_then_same :
      {A C : Type 0} (r : Result A ApplicationError × Log) (f f' : A → Action C)
      → ((a : A) (l : Log) → SameBut (f a l) (f' a l))
      → SameBut (and_then r f) (and_then r f')
  and_then_same (ok a, l) f f' h = h a l
  and_then_same (err e, l) f f' h = (refl, ([], refl, tt))

  handle_execution_same :
      (request : InferenceRequest F) (route : RouteCandidate) (x : InferenceExecution V B) (l : Log)
      → SameBut
          (handle_execution g request route x l)
          (handle_execution (without_accounting g) request route x l)
  unfolding handle_execution handle_committed fresh_id mark_success commit persist_attempt
      spool_attempt
  handle_execution_same request route (InferenceExecution.complete response e) l =
      and_then_same (persist_attempt g _ _) _ _
        (λ _ l'. and_then_same (mark_success g route l') _ _ (λ _. respond_same response _ _ e))
  handle_execution_same request route (InferenceExecution.streaming body) l = same _

  attempt_route_same :
      (request : InferenceRequest F) (route : RouteCandidate) (credential : String)
      → (go go' : Option String → Action (InferenceResponse V B))
      → ((last : Option String) (l : Log) → SameBut (go last l) (go' last l))
      → (l : Log)
      → SameBut
          (attempt_route g request route credential go l)
          (attempt_route (without_accounting g) request route credential go' l)
  unfolding attempt_route handle_pre_commit_failure persist_attempt spool_attempt fresh_id
      mark_account mark_route
  attempt_route_same request route credential go go' h l =
      by_answer (g.executor.execute l route request credential)
    where
      by_answer :
          (x : Result (InferenceExecution V B) ProviderFailure)
          → SameBut {A = Result (InferenceResponse V B) ApplicationError}
              (elim x [
                | ok execution ↦
                    handle_execution g request route execution (executed route.route_id true ∷ l)
                | err failure ↦
                    (handle_pre_commit_failure g request route failure >> go (some failure.message))
                      (executed route.route_id false ∷ l)
              ])
              (elim x [
                | ok execution ↦
                    handle_execution
                      (without_accounting g)
                      request
                      route
                      execution
                      (executed route.route_id true ∷ l)
                | err failure ↦
                    (handle_pre_commit_failure (without_accounting g) request route failure
                        >> go' (some failure.message))
                      (executed route.route_id false ∷ l)
              ])
      by_answer (ok execution) = handle_execution_same request route execution _
      by_answer (err failure) =
          and_then_same (handle_pre_commit_failure g request route failure _) _ _
            (λ _. h (some failure.message))

  try_routes_same :
      (request : InferenceRequest F) (routes : List RouteCandidate) (last : Option String) (l : Log)
      → SameBut
          (try_routes g request routes last l)
          (try_routes (without_accounting g) request routes last l)
  unfolding try_routes
  try_routes_same request [] none l = same _
  try_routes_same request [] (some e) l = same _
  try_routes_same request (route ∷ routes) last l =
      by_secret (try_routes_same request routes) (g.secrets.resolve l route.credential_ref)
    where
      by_secret :
          ((last : Option String) (l : Log)
            → SameBut
                (try_routes g request routes last l)
                (try_routes (without_accounting g) request routes last l))
          → (x : Result String String)
          → SameBut {A = Result (InferenceResponse V B) ApplicationError}
              (elim x [
                | ok credential ↦
                    attempt_route g request route credential
                      (try_routes g request routes)
                      (resolved route.credential_ref ∷ l)
                | err e ↦ try_routes g request routes (some e) (resolved route.credential_ref ∷ l)
              ])
              (elim x [
                | ok credential ↦
                    attempt_route
                      (without_accounting g)
                      request
                      route
                      credential
                      (try_routes (without_accounting g) request routes)
                      (resolved route.credential_ref ∷ l)
                | err e ↦
                    try_routes
                      (without_accounting g)
                      request
                      routes
                      (some e)
                      (resolved route.credential_ref ∷ l)
              ])
      by_secret rest (ok credential) =
          attempt_route_same request route credential (try_routes g request routes)
            (try_routes (without_accounting g) request routes) rest _
      by_secret rest (err e) = rest (some e) _

  infer_authenticated_same :
      (request : InferenceRequest F) (valid : Bool) (l : Log)
      → SameBut
          (infer_authenticated g request valid l)
          (infer_authenticated (without_accounting g) request valid l)
  unfolding infer_authenticated
  infer_authenticated_same request false l = same _
  infer_authenticated_same request true l =
      and_then_same
        (ask (candidates_of request.model) (λ l. g.config.candidates l request.model)
          candidates_error l)
        (λ routes. try_routes g request routes none)
        (λ routes. try_routes (without_accounting g) request routes none)
        (λ routes. try_routes_same request routes none)

  -- With or without an accounting repository, and whatever evidence a provider sends, `infer` makes the
  -- same other calls in the same order and returns the same result; what accounting adds to the calls
  -- comes last.
  pub infer_same :
      (raw_key : String) (request : InferenceRequest F) (l : Log)
      → SameBut (infer g raw_key request l) (infer (without_accounting g) raw_key request l)
  unfolding infer
  infer_same raw_key request l =
      and_then_same
        (ask (authenticated raw_key) (λ l. g.config.authenticate l raw_key) configuration l)
        (infer_authenticated g request) (infer_authenticated (without_accounting g) request)
        (infer_authenticated_same request)
