-- ===== src/Application/Stream/Tests.antt =====
-- Runs of a response stream, and its theorem at a concrete one.
use smart_llm_gateway.Prelude.{String, ◌≡◌, refl, Bool, true, Option, none, some, List, [], ◌∷◌}
use smart_llm_gateway.Ports.{
  AttemptOutcome, Call, record_attempt, mark_route_success, called, Log, InferenceStreamEvent,
  frame, completed,
}
use smart_llm_gateway.Application.Attempt.{
  StreamAttempt, attempt_record, persist, succeed, cancel, poll, run, ◌>>=◌,
}
use smart_llm_gateway.Application.Stream.{
  Poll, ready, pending, managed, finish, receive, round_pending, round, settle, rounds, add_poll,
  poll_on, polls, drop,
}
use smart_llm_gateway.Application.Stream.Lifetime.{Lived, polls_Life}

abbrev attempt : StreamAttempt
attempt = record {
  usage_spool = none;
  attempt_id = "attempt";
  request_id = "request";
  route_id = "route";
  provider_account_id = "account";
}

abbrev Events : Type 0
Events = List (InferenceStreamEvent String)

-- An upstream that yields these events and ends.
abbrev next : Events → Poll (Option (InferenceStreamEvent String)) × Events
next [] = (ready none, [])
next (e ∷ es) = (ready (some e), es)

abbrev busy : Log → Call → Option Bool
busy l c = none

abbrev at_once : Log → Call → Option Bool
at_once l c = some true

-- The success is persisted over two polls, and then the end is yielded, once.
yields_once :
    polls next
      (at_once ∷ busy ∷ at_once ∷ at_once ∷ [])
      (managed (frame "one" ∷ completed ∷ []) attempt)
      []
    ≡ some (
      ready (some (frame "one")) ∷ pending ∷ ready (some completed) ∷ ready none ∷ [],
      (
        record {
          upstream = [];
          attempt = attempt;
          pending_terminal = none;
          terminal_emitted = true;
        },
        called (mark_route_success "route") true
            ∷ called (record_attempt (attempt_record attempt AttemptOutcome.succeeded none)) true
            ∷ [],
      ),
    )
unfolding polls poll_on add_poll rounds round round_pending settle finish receive poll succeed
    persist attempt_record ◌>>=◌
yields_once = refl

-- Dropped before its end, the attempt is cancelled.
cancelled :
    drop {U = Events} {C = String} (λ l c. true) (managed (frame "one" ∷ []) attempt) []
    ≡ called (record_attempt (attempt_record attempt AttemptOutcome.cancelled none)) true ∷ []
unfolding drop run cancel persist attempt_record ◌>>=◌
cancelled = refl

polls_Life_example : Lived {U = Events} {C = String} attempt [] [] (
    polls next
      (at_once ∷ busy ∷ at_once ∷ at_once ∷ [])
      (managed (frame "one" ∷ completed ∷ []) attempt)
      [])
polls_Life_example =
    polls_Life next (at_once ∷ busy ∷ at_once ∷ at_once ∷ []) (frame "one" ∷ completed ∷ []) attempt
      []
