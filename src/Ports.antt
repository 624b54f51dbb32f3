-- ===== src/Ports.antt =====
-- The boundary of the application (crates/slg-ports/src/lib.rs): attempts, and the ports through which
-- it reaches storage, credentials and providers.
--
-- A port is a record of functions. What is behind a port may keep any state: a method is given the log
-- of all calls so far, the latest first, and answers. The entries of the log are the calls.
use smart_llm_gateway.Prelude.{String, Bool, true, false, Option, List, Result}
use smart_llm_gateway.Prelude.Int.{ℤ}
use smart_llm_gateway.Domain.Failure.{ProviderFailure}
use smart_llm_gateway.Domain.Route.{RouteCandidate}
use smart_llm_gateway.Domain.Message.{InferenceRequest}
use smart_llm_gateway.Domain.Credential.{CredentialReference}
use smart_llm_gateway.Domain.Evidence.{
  ProviderQuotaSnapshot, ProviderBillingRecord, ProviderAuthoritativeEvidence,
}

pub data AttemptOutcome : Type 0 where
  failed committed succeeded partial_failed cancelled : AttemptOutcome

unfoldable pub as_str : AttemptOutcome → String
as_str AttemptOutcome.failed = "failed"
as_str AttemptOutcome.committed = "committed"
as_str AttemptOutcome.succeeded = "succeeded"
as_str AttemptOutcome.partial_failed = "partial_failed"
as_str AttemptOutcome.cancelled = "cancelled"

unfoldable pub is_stream_terminal : AttemptOutcome → Bool
is_stream_terminal AttemptOutcome.succeeded = true
is_stream_terminal AttemptOutcome.partial_failed = true
is_stream_terminal AttemptOutcome.cancelled = true
is_stream_terminal _ = false

-- `attempt_id` holds the text of an `AttemptId`.
pub record AttemptRecord : Type 0 where
  pub attempt_id : String
  pub request_id : String
  pub route_id : String
  pub outcome : AttemptOutcome
  pub failure_category : Option String

-- The calls that write attempts and the state of routes and accounts.
pub data Call : Type 0 where
  record_attempt append_attempt : AttemptRecord → Call
  mark_route_success : String → Call
  mark_route_failure mark_account_failure : String → ProviderFailure → Call

-- `called c b`: the call `c` was made, and `b` says whether it returned `Ok`. `executed id b`: the route
-- `id` was tried, and `b` says whether the provider committed to an answer.
pub data Entry : Type 0 where
  called : Call → Bool → Entry
  authenticated candidates_of : String → Entry
  resolved : CredentialReference → Entry
  executed : String → Bool → Entry
  identified : String → Entry
  observed : Entry
  quota_recorded : ProviderQuotaSnapshot → Entry
  billing_recorded : ProviderBillingRecord → Entry

abbrev pub Log : Type 0
Log = List Entry

abbrev pub Written : Type 0
Written = Result (Unit {0}) String

pub record UsageSpool : Type 0 where
  pub append_attempt : Log → AttemptRecord → Written

pub record ConfigurationRepository : Type 0 where
  pub authenticate : Log → String → Result Bool String
  pub candidates : Log → String → Result (List RouteCandidate) String
  pub record_attempt : Log → AttemptRecord → Written
  pub mark_route_success : Log → String → Written
  pub mark_route_failure : Log → String → ProviderFailure → Written
  pub mark_account_failure : Log → String → ProviderFailure → Written

-- The application only writes through this port, and ignores what the writes answer.
pub record AuthoritativeAccountingRepository : Type 0 where
  pub record_quota_snapshot : Log → ProviderQuotaSnapshot → Written
  pub record_billing_record : Log → ProviderBillingRecord → Written

pub record SecretResolver : Type 0 where
  pub resolve : Log → CredentialReference → Result String String

-- `V` stands for a client response (`serde_json::Value`), `B` for the body of a streaming one
-- (`InferenceStream`); neither is looked into here.
pub data InferenceExecution (V B : Type 0) : Type 0 where
  complete : V → Option ProviderAuthoritativeEvidence → InferenceExecution V B
  streaming : B → InferenceExecution V B

-- `F` stands for `f64`.
pub record InferenceExecutor (F V B : Type 0) : Type 0 where
  pub execute :
      Log
      → RouteCandidate
      → InferenceRequest F
      → String
      → Result (InferenceExecution V B) ProviderFailure

-- What is not the program's own: fresh identifiers (`Uuid::new_v4`) and the clock.
pub record Host : Type 0 where
  pub new_attempt_id : Log → String
  pub now : Log → ℤ

-- One event of a response stream; `C` stands for a chunk (`OpenAiChatCompletionChunk`).
pub data InferenceStreamEvent (C : Type 0) : Type 0 where
  frame : C → InferenceStreamEvent C
  completed : InferenceStreamEvent C
  failed : ProviderFailure → InferenceStreamEvent C
