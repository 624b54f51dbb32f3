-- ===== src/Application/Attempt.antt =====
-- The attempt behind a response stream (`StreamAttempt`, crates/slg-application/src/lib.rs).
use smart_llm_gateway.Prelude.{
  String, Bool, true, false, Option, none, some, ◌∷◌, is_ok, if◌then◌else◌,
}
use smart_llm_gateway.Domain.Failure.{ErrorCategory, ProviderFailure, blocks_account, opens_route}
use smart_llm_gateway.Ports.{
  AttemptOutcome, AttemptRecord, Call, record_attempt, append_attempt, mark_route_success,
  mark_route_failure, mark_account_failure, called, Log, UsageSpool, ConfigurationRepository,
}

-- `format!("{:?}", category)`
unfoldable pub debug_name : ErrorCategory → String
debug_name ErrorCategory.quota_exhausted = "QuotaExhausted"
debug_name ErrorCategory.credit_exhausted = "CreditExhausted"
debug_name ErrorCategory.spend_limit_exceeded = "SpendLimitExceeded"
debug_name ErrorCategory.rate_limited = "RateLimited"
debug_name ErrorCategory.concurrency_limited = "ConcurrencyLimited"
debug_name ErrorCategory.authentication_failed = "AuthenticationFailed"
debug_name ErrorCategory.model_unavailable = "ModelUnavailable"
debug_name ErrorCategory.provider_unavailable = "ProviderUnavailable"
debug_name ErrorCategory.unknown = "Unknown"

-- An `async` block over the writing ports: it ends, or waits for a call. Of an answer the code only
-- uses whether it is `Ok`.
pub data Task (A : Type 0) : Type 0 where
  done : A → Task A
  await : Call → (Bool → Task A) → Task A

infixl 5 ◌>>=◌ ◌>>◌
unfoldable pub ◌>>=◌ : {A B : Type 0} → Task A → (A → Task B) → Task B
◌>>=◌ (done a) f = f a
◌>>=◌ (await c k) f = await c (λ b. k b >>= f)

abbrev pub ◌>>◌ : {A B : Type 0} → Task A → Task B → Task B
t >> u = t >>= λ _. u

-- Run to its end, every call answered at once by `answer`.
unfoldable pub run : {A : Type 0} → (Log → Call → Bool) → Task A → Log → A × Log
run answer (done a) l = (a, l)
run answer (await c k) l = run answer (k (answer l c)) (called c (answer l c) ∷ l)

-- Polled: a call that `answer` leaves open suspends the task, which keeps its place.
unfoldable pub poll : {A : Type 0} → (Log → Call → Option Bool) → Task A → Log → Task A × Log
poll answer (done a) l = (done a, l)
poll answer (await c k) l =
    let next = λ (b : Bool). poll answer (k b) (called c b ∷ l) in
    elim (answer l c) [ none ↦ (await c k, l) | some b ↦ next b ]

pub record StreamAttempt : Type 0 where
  pub usage_spool : Option UsageSpool
  pub attempt_id : String
  pub request_id : String
  pub route_id : String
  pub provider_account_id : String

-- `StreamAttempt::record`
unfoldable pub attempt_record : StreamAttempt → AttemptOutcome → Option String → AttemptRecord
attempt_record s outcome category = record {
  attempt_id = s.attempt_id;
  request_id = s.request_id;
  route_id = s.route_id;
  outcome = outcome;
  failure_category = category;
}

-- `true` for `Ok(())`.
unfoldable pub persist : StreamAttempt → AttemptRecord → Task Bool
persist s r = await (record_attempt r) λ stored.
    if stored
    then done true
    else elim s.usage_spool [ none ↦ done false | some _ ↦ await (append_attempt r) done ]

unfoldable pub succeed : StreamAttempt → Task (Unit {0})
succeed s = do
  stored ← persist s (attempt_record s AttemptOutcome.succeeded none)
  if stored then await (mark_route_success s.route_id) (λ _. done tt) else done tt

-- `if test { let _ = call.await; }`
abbrev when : Bool → Call → Task (Unit {0})
when test c = if test then await c (λ _. done tt) else done tt

unfoldable pub fail : StreamAttempt → ProviderFailure → Task (Unit {0})
fail s failure = do
  persist s (attempt_record s AttemptOutcome.partial_failed (some (debug_name failure.category)))
  when (blocks_account failure.category) (mark_account_failure s.provider_account_id failure)
  when (opens_route failure.category) (mark_route_failure s.route_id failure)

unfoldable pub cancel : StreamAttempt → Task (Unit {0})
cancel s = persist s (attempt_record s AttemptOutcome.cancelled none) >> done tt

-- How the ports of a gateway answer a call.
unfoldable pub answer_of : ConfigurationRepository → Option UsageSpool → Log → Call → Bool
answer_of c spool l (record_attempt r) = is_ok (c.record_attempt l r)
answer_of c spool l (append_attempt r) = elim spool [
  | none ↦ false
  | some s ↦ is_ok (s.append_attempt l r)
]
answer_of c spool l (mark_route_success id) = is_ok (c.mark_route_success l id)
answer_of c spool l (mark_route_failure id f) = is_ok (c.mark_route_failure l id f)
answer_of c spool l (mark_account_failure id f) = is_ok (c.mark_account_failure l id f)
