-- ===== src/Application/Stream.antt =====
-- `ManagedInferenceStream`: the body of a committed streaming response, which persists how the attempt
-- ended before it forwards that end (crates/slg-application/src/lib.rs).
pub mod Lifetime
pub mod Reading
pub mod Tests
use smart_llm_gateway.Prelude.{
  ℕ, zero, suc, String, Bool, true, false, Option, none, some, List, [], ◌∷◌, if◌then◌else◌,
}
use smart_llm_gateway.Domain.Failure.{ErrorCategory, ProviderFailure}
use smart_llm_gateway.Ports.{Call, Log, InferenceStreamEvent, frame, completed, failed}
use smart_llm_gateway.Application.Attempt.{
  Task, done, await, StreamAttempt, succeed, fail, cancel, poll, run,
}

-- `std::task::Poll`
pub data Poll {ℓ} (A : Type ℓ) : Type ℓ where
  ready : A → Poll A
  pending : Poll A

pub sanitized_post_commit_failure : ProviderFailure
sanitized_post_commit_failure = record {
  category = ErrorCategory.provider_unavailable;
  message = "provider stream could not be completed";
  status = none;
  retry_at_unix = none;
}

-- `C` stands for a chunk of the response, `U` for the upstream stream.
pub record ManagedInferenceStream (U C : Type 0) : Type 0 where
  pub upstream : U
  pub attempt : StreamAttempt
  pub pending_terminal : Option (InferenceStreamEvent C × Task (Unit {0}))
  pub terminal_emitted : Bool

-- The stream that `handle_execution` returns.
abbrev pub managed : {U C : Type 0} → U → StreamAttempt → ManagedInferenceStream U C
managed body attempt = record {
  upstream = body;
  attempt = attempt;
  pending_terminal = none;
  terminal_emitted = false;
}

-- How a round of the loop of `poll_next` ends.
pub data Round (U C : Type 0) : Type 0 where
  returned : Poll (Option (InferenceStreamEvent C)) → ManagedInferenceStream U C → Log → Round U C
  again : ManagedInferenceStream U C → Log → Round U C

module _ {U C : Type 0} where
  -- After the terminal future was polled.
  finish : ManagedInferenceStream U C → InferenceStreamEvent C → Task (Unit {0}) × Log → Round U C
  finish s event (done _, l) =
      returned (ready (some event)) (record s { pending_terminal = none; terminal_emitted = true })
        l
  finish s event (await c k, l) =
      returned pending (record s { pending_terminal = some (event, await c k) }) l

  -- After the upstream was polled.
  receive :
      ManagedInferenceStream U C → Log → Poll (Option (InferenceStreamEvent C)) × U → Round U C
  receive s l (ready (some (frame c)), u) =
      returned (ready (some (frame c))) (record s { upstream = u }) l
  receive s l (ready (some completed), u) =
      again (record s { upstream = u; pending_terminal = some (completed, succeed s.attempt) }) l
  receive s l (ready (some (failed e)), u) =
      again (record s { upstream = u; pending_terminal = some (failed e, fail s.attempt e) }) l
  receive s l (ready none, u) =
      let e = sanitized_post_commit_failure in
      again (record s { upstream = u; pending_terminal = some (failed e, fail s.attempt e) }) l
  receive s l (pending, u) = returned pending (record s { upstream = u }) l

-- `next` polls the upstream; `answer` says how the ports answer during one poll, `none` while a call is
-- under way.
module _ {U C : Type 0} (next : U → Poll (Option (InferenceStreamEvent C)) × U)
    (answer : Log → Call → Option Bool) where
  round_pending :
      ManagedInferenceStream U C
      → Log
      → Option (InferenceStreamEvent C × Task (Unit {0}))
      → Round U C
  round_pending s l (some (event, future)) = finish s event (poll answer future l)
  round_pending s l none = receive s l (next s.upstream)

  round : ManagedInferenceStream U C → Log → Round U C
  round s l =
      if s.terminal_emitted then returned (ready none) s l else round_pending s l s.pending_terminal

-- `poll_next`, for so many rounds of its loop.
module _ {U C : Type 0} where
  settle :
      (ManagedInferenceStream U C
        → Log
        → Option (Poll (Option (InferenceStreamEvent C)) × (ManagedInferenceStream U C × Log)))
      → Round U C
      → Option (Poll (Option (InferenceStreamEvent C)) × (ManagedInferenceStream U C × Log))
  settle rest (returned p s l) = some (p, (s, l))
  settle rest (again s l) = rest s l

  pub rounds :
      (U → Poll (Option (InferenceStreamEvent C)) × U)
      → (Log → Call → Option Bool)
      → ℕ
      → ManagedInferenceStream U C
      → Log
      → Option (Poll (Option (InferenceStreamEvent C)) × (ManagedInferenceStream U C × Log))
  rounds next answer zero s l = none
  rounds next answer (suc n) s l = settle (rounds next answer n) (round next answer s l)

-- `Drop::drop` under a runtime, and the spawned task run to its end.
pub drop : {U C : Type 0} → (Log → Call → Bool) → ManagedInferenceStream U C → Log → Log
drop answer s l = if s.terminal_emitted then l else (run answer (cancel s.attempt) l).1

-- Polled once for each way the ports answer: what the polls return, and what is left.
module _ {U C : Type 0} where
  add_poll :
      Poll (Option (InferenceStreamEvent C))
      → Option (List (Poll (Option (InferenceStreamEvent C))) × (ManagedInferenceStream U C × Log))
      → Option (List (Poll (Option (InferenceStreamEvent C))) × (ManagedInferenceStream U C × Log))
  add_poll p none = none
  add_poll p (some (ps, end)) = some (p ∷ ps, end)

  poll_on :
      (ManagedInferenceStream U C
        → Log
        → Option
            (List (Poll (Option (InferenceStreamEvent C))) × (ManagedInferenceStream U C × Log)))
      → Option (Poll (Option (InferenceStreamEvent C)) × (ManagedInferenceStream U C × Log))
      → Option (List (Poll (Option (InferenceStreamEvent C))) × (ManagedInferenceStream U C × Log))
  poll_on rest none = none
  poll_on rest (some (p, (s, l))) = add_poll p (rest s l)

  pub polls :
      (U → Poll (Option (InferenceStreamEvent C)) × U)
      → List (Log → Call → Option Bool)
      → ManagedInferenceStream U C
      → Log
      → Option (List (Poll (Option (InferenceStreamEvent C))) × (ManagedInferenceStream U C × Log))
  polls next [] s l = some ([], (s, l))
  polls next (answer ∷ answers) s l = poll_on (polls next answers) (rounds next answer 2 s l)
