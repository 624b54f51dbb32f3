-- ===== src/Application/Gateway.antt =====
-- `Gateway` and `Gateway::infer` (crates/slg-application/src/lib.rs).
pub mod Commit
pub mod Refusals
pub mod Recorded
pub mod Evidence
pub mod Tests
use smart_llm_gateway.Prelude.{
  String, Bool, true, false, ◌||◌, Option, none, some, List, [], ◌∷◌, Result, ok, err, is_ok, not,
  guard, if◌then◌else◌,
}
use smart_llm_gateway.Prelude.Int.{ℤ}
use smart_llm_gateway.Prelude.Texts.{starts_with}
use smart_llm_gateway.Domain.Failure.{ProviderFailure, blocks_account, opens_route}
use smart_llm_gateway.Domain.Route.{RouteCandidate}
use smart_llm_gateway.Domain.Message.{InferenceRequest}
use smart_llm_gateway.Domain.Evidence.{
  ProviderQuotaSnapshot, ProviderBillingEvidence, ProviderBillingRecord,
  ProviderAuthoritativeEvidence, validate_for_account, is_empty_evidence,
}
use smart_llm_gateway.Ports.{
  AttemptOutcome, AttemptRecord, record_attempt, append_attempt, mark_route_success,
  mark_route_failure, mark_account_failure, called, authenticated, candidates_of, resolved,
  executed, identified, observed, quota_recorded, billing_recorded, Log, UsageSpool,
  ConfigurationRepository, AuthoritativeAccountingRepository, SecretResolver, InferenceExecution,
  InferenceExecutor, Host,
}
use smart_llm_gateway.Application.Attempt.{
  debug_name, StreamAttempt, attempt_record, persist, answer_of, run,
}
use smart_llm_gateway.Application.Monad.{
  ApplicationError, unauthorized, configuration, upstream_unavailable, upstream, Action, pure,
  raise, ask, write, succeeded, ◌>>=◌, ◌>>◌,
}

pub record Gateway (F V B : Type 0) : Type 0 where
  pub config : ConfigurationRepository
  pub executor : InferenceExecutor F V B
  pub secrets : SecretResolver
  pub usage_spool : Option UsageSpool
  pub accounting : Option AuthoritativeAccountingRepository
  pub host : Host

-- A streaming response is the committed attempt and the body that it forwards.
pub data InferenceResponse (V B : Type 0) : Type 0 where
  complete : V → InferenceResponse V B
  streaming : B → StreamAttempt → InferenceResponse V B

-- `route_unavailable`
pub route_unavailable : String → Bool
route_unavailable e =
    starts_with e "no eligible route exists for" || starts_with e "requested logical model"

abbrev candidates_error : String → ApplicationError
candidates_error e = if route_unavailable e then upstream_unavailable else configuration e

-- `if test { call.await?; }`
abbrev pub when : Bool → Action (Unit {0}) → Action (Unit {0})
when true m = m
when false m = pure tt

module _ {F V B : Type 0} (g : Gateway F V B) where
  fresh_id : Action String
  fresh_id l = (ok (g.host.new_attempt_id l), identified (g.host.new_attempt_id l) ∷ l)

  -- The spool of `persist_attempt`, once the primary store has failed.
  spool_attempt : AttemptRecord → Option UsageSpool → Action (Unit {0})
  spool_attempt r none = raise (
      configuration
        "control plane unavailable while persisting usage attempt; no durable local spool is configured")
  spool_attempt r (some s) =
      write (append_attempt r) (λ l. s.append_attempt l r)
        λ _.
          configuration
            "control plane unavailable while persisting usage attempt; durable local spool is unavailable"

  persist_attempt : AttemptRecord → Action (Unit {0})
  persist_attempt r l =
      let l' = called (record_attempt r) (succeeded (g.config.record_attempt l r)) ∷ l in
      if succeeded (g.config.record_attempt l r)
      then (ok tt, l')
      else spool_attempt r g.usage_spool l'

  record_snapshots : List ProviderQuotaSnapshot → Log → Log
  record_snapshots [] l = l
  record_snapshots (s ∷ ss) l = record_snapshots ss (quota_recorded s ∷ l)

  -- One observation of the clock serves both bounds.
  abbrev pub billing_record : String → String → ProviderBillingEvidence → ℤ → ProviderBillingRecord
  billing_record account attempt b now = record {
    record_id = attempt;
    attempt_id = attempt;
    provider_account_id = account;
    provider_request_id = b.provider_request_id;
    billed_units = b.billed_units;
    charge = b.charge;
    observed_at_unix = now;
    fresh_until_unix = now;
    source = b.source;
  }

  record_billing : String → String → Option ProviderBillingEvidence → Log → Log
  record_billing account attempt none l = l
  record_billing account attempt (some b) l =
      billing_recorded (billing_record account attempt b (g.host.now l)) ∷ observed ∷ l

  -- `persist_authoritative_evidence`; what the writes answer is dropped.
  pub persist_evidence : String → String → ProviderAuthoritativeEvidence → Log → Log
  persist_evidence account attempt e l = elim g.accounting [
    | none ↦ l
    | some _ ↦
        if is_empty_evidence e || not (is_ok (validate_for_account e account))
        then l
        else record_billing account attempt e.billing (record_snapshots e.quota_snapshots l)
  ]

  -- `mark_account_failure(…).await.map_err(Configuration)?`, and so for the route.
  mark_account : RouteCandidate → ProviderFailure → Action (Unit {0})
  mark_account route failure =
      write (mark_account_failure route.provider_account_id failure)
        (λ l. g.config.mark_account_failure l route.provider_account_id failure) configuration

  mark_route : RouteCandidate → ProviderFailure → Action (Unit {0})
  mark_route route failure =
      write (mark_route_failure route.route_id failure)
        (λ l. g.config.mark_route_failure l route.route_id failure) configuration

  mark_success : RouteCandidate → Action (Unit {0})
  mark_success route =
      write (mark_route_success route.route_id) (λ l. g.config.mark_route_success l route.route_id)
        configuration

  pub handle_pre_commit_failure :
      InferenceRequest F → RouteCandidate → ProviderFailure → Action (Unit {0})
  handle_pre_commit_failure request route failure = do
    attempt_id ← fresh_id
    persist_attempt (record {
      attempt_id = attempt_id;
      request_id = request.request_id;
      route_id = route.route_id;
      outcome = AttemptOutcome.failed;
      failure_category = some (debug_name failure.category);
    })
    when (blocks_account failure.category) (mark_account route failure)
    when (opens_route failure.category) (mark_route route failure)

  -- The evidence, if any, is persisted; the response does not depend on it.
  respond :
      V → String → String → Option ProviderAuthoritativeEvidence → Action (InferenceResponse V B)
  respond response account attempt none l = (ok (complete response), l)
  respond response account attempt (some e) l =
      (ok (complete response), persist_evidence account attempt e l)

  -- `attempt.persist(attempt.record(Committed, None)).await.map_err(…)?`
  commit : StreamAttempt → Action (Unit {0})
  commit attempt l =
      let (stored, l') =
        run (answer_of g.config g.usage_spool)
          (persist attempt (attempt_record attempt AttemptOutcome.committed none)) l in
      (
        guard stored (configuration "control plane unavailable while persisting committed attempt"),
        l',
      )

  -- The two arms of `handle_execution`, after the fresh identifier.
  handle_committed :
      InferenceRequest F
      → RouteCandidate
      → InferenceExecution V B
      → String
      → Action (InferenceResponse V B)
  handle_committed request route (InferenceExecution.complete response evidence) attempt_id = do
    persist_attempt (record {
      attempt_id = attempt_id;
      request_id = request.request_id;
      route_id = route.route_id;
      outcome = AttemptOutcome.succeeded;
      failure_category = none;
    })
    mark_success route
    respond response route.provider_account_id attempt_id evidence
  handle_committed request route (InferenceExecution.streaming body) attempt_id =
      let attempt : StreamAttempt = record {
        usage_spool = g.usage_spool;
        attempt_id = attempt_id;
        request_id = request.request_id;
        route_id = route.route_id;
        provider_account_id = route.provider_account_id;
      } in
      commit attempt >> pure (streaming body attempt)

  pub handle_execution :
      InferenceRequest F → RouteCandidate → InferenceExecution V B → Action (InferenceResponse V B)
  handle_execution request route execution = fresh_id >>= handle_committed request route execution

  -- One round of the loop of `infer`, after the credential was resolved; `go` is the rest of the loop,
  -- over `last_failure`.
  attempt_route :
      InferenceRequest F
      → RouteCandidate
      → String
      → (Option String → Action (InferenceResponse V B))
      → Action (InferenceResponse V B)
  attempt_route request route credential go l =
      elim (g.executor.execute l route request credential) [
        | ok execution ↦ handle_execution request route execution (executed route.route_id true ∷ l)
        | err failure ↦
            (handle_pre_commit_failure request route failure >> go (some failure.message))
              (executed route.route_id false ∷ l)
      ]

  try_routes :
      InferenceRequest F → List RouteCandidate → Option String → Action (InferenceResponse V B)
  try_routes request [] none l = raise (upstream "no eligible route") l
  try_routes request [] (some e) l = raise (upstream e) l
  try_routes request (route ∷ routes) last l = elim (g.secrets.resolve l route.credential_ref) [
    | ok credential ↦
        attempt_route request route credential (try_routes request routes)
          (resolved route.credential_ref ∷ l)
    | err e ↦ try_routes request routes (some e) (resolved route.credential_ref ∷ l)
  ]

  infer_authenticated : InferenceRequest F → Bool → Action (InferenceResponse V B)
  infer_authenticated request false = raise unauthorized
  infer_authenticated request true = do
    routes ←
        ask (candidates_of request.model) (λ l. g.config.candidates l request.model)
          candidates_error
    try_routes request routes none

  pub infer : String → InferenceRequest F → Action (InferenceResponse V B)
  infer raw_key request =
      ask (authenticated raw_key) (λ l. g.config.authenticate l raw_key) configuration
      >>= infer_authenticated request
