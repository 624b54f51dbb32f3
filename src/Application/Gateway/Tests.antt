-- ===== src/Application/Gateway/Tests.antt =====
-- The use cases at a concrete gateway, after the tests of crates/slg-application/src/lib.rs.
use smart_llm_gateway.Prelude.{
  String, ◌≡◌, refl, false, none, some, [], ◌∷◌, ok, err, ◌==◌, if◌then◌else◌,
}
use smart_llm_gateway.Prelude.Int.{pos}
use smart_llm_gateway.Domain.Failure.{ErrorCategory, ProviderFailure, blocks_account, opens_route}
use smart_llm_gateway.Domain.Route.{RouteCandidate}
use smart_llm_gateway.Domain.Message.{InferenceRequest}
use smart_llm_gateway.Ports.{InferenceExecution}
use smart_llm_gateway.Application.Attempt.{debug_name}
use smart_llm_gateway.Application.Gateway.{
  Gateway, InferenceResponse, fresh_id, persist_attempt, mark_account, mark_route, mark_success,
  respond, handle_pre_commit_failure, handle_committed, handle_execution, attempt_route, try_routes,
  infer_authenticated, infer,
}
use smart_llm_gateway.Application.Gateway.Commit.{Tried, infer-Tried}
use smart_llm_gateway.Application.Gateway.Evidence.{SameBut, without_accounting, infer_same}
use smart_llm_gateway.Application.Gateway.Recorded.{
  Accepted, Marked, failed_attempt, failure_recorded, Answered, answer_recorded,
}

abbrev route : String → RouteCandidate
route id = record {
  route_id = id;
  logical_model = "logical-model";
  provider_account_id = "account";
  provider = "provider";
  credential_ref = record { text = "env:TEST_CREDENTIAL" };
  base_url = "https://provider.example.test";
  upstream_model = "upstream-model";
  priority = 1;
}

abbrev request : InferenceRequest (Unit {0})
request = record {
  request_id = "request";
  model = "logical-model";
  messages = [];
  stream = false;
  temperature = none;
  max_tokens = none;
}

abbrev unavailable : ProviderFailure
unavailable = record {
  category = ErrorCategory.provider_unavailable;
  message = "provider unavailable";
  status = some 503;
  retry_at_unix = none;
}

-- Two routes, of which the first fails. A key is valid if it is "key"; the model "logical-model" alone
-- has routes.
abbrev gateway : Gateway (Unit {0}) String String
gateway = record {
  config = record {
    authenticate = λ l key. ok (key == "key");
    candidates = λ l model.
        if model == "logical-model"
        then ok (route "failing-route" ∷ route "working-route" ∷ [])
        else err "requested logical model `other` is not configured";
    record_attempt = λ l r. ok tt;
    mark_route_success = λ l id. ok tt;
    mark_route_failure = λ l id f. ok tt;
    mark_account_failure = λ l id f. ok tt;
  };
  executor = record {
    execute = λ l r q c.
        if r.route_id == "failing-route"
        then err unavailable
        else ok (InferenceExecution.complete "response" none);
  };
  secrets = record { resolve = λ l c. ok "secret" };
  usage_spool = none;
  accounting =
      some (record { record_quota_snapshot = λ l s. ok tt; record_billing_record = λ l r. ok tt });
  host = record { new_attempt_id = λ l. "attempt"; now = λ l. pos 7 };
}

-- The first route fails, is recorded and opened; the second answers.
falls_back : (infer gateway "key" request []).0 ≡ ok (InferenceResponse.complete "response")
unfolding infer infer_authenticated try_routes attempt_route handle_execution handle_committed
    handle_pre_commit_failure fresh_id persist_attempt mark_account mark_route mark_success respond
    debug_name blocks_account opens_route
falls_back = refl

infer-Tried_example : Tried [] (infer gateway "key" request [])
infer-Tried_example = infer-Tried gateway "key" request []

infer_same_example :
    SameBut (infer gateway "key" request []) (infer (without_accounting gateway) "key" request [])
infer_same_example = infer_same gateway "key" request []

abbrev other : InferenceRequest (Unit {0})
other = record request { model = "other" }

failure_recorded_example :
    Accepted
      (failed_attempt gateway "attempt" request (route "failing-route") unavailable)
      (handle_pre_commit_failure gateway request (route "failing-route") unavailable []).1
    × Marked gateway
        (route "failing-route")
        unavailable
        (handle_pre_commit_failure gateway request (route "failing-route") unavailable []).1
unfolding handle_pre_commit_failure fresh_id persist_attempt mark_account mark_route blocks_account
    opens_route debug_name
failure_recorded_example =
    failure_recorded gateway request (route "failing-route") unavailable []
      (handle_pre_commit_failure gateway request (route "failing-route") unavailable []).1 refl

answer_recorded_example :
    Answered gateway "attempt" request
      (route "working-route")
      (InferenceResponse.complete "response")
      (handle_execution gateway request
        (route "working-route")
        (InferenceExecution.complete "response" none)
        []).1
unfolding handle_execution handle_committed fresh_id persist_attempt mark_success respond
answer_recorded_example =
    answer_recorded gateway request (route "working-route")
      (InferenceExecution.complete "response" none) []
      (handle_execution gateway request (route "working-route")
        (InferenceExecution.complete "response" none) []).1
      (InferenceResponse.complete "response") refl
