-- ===== src/Application/Stream/Reading.antt =====
-- A managed stream that is read to its end (crates/slg-application/src/lib.rs): its upstream is the list of
-- the events that it answers, and then ends, and the ports answer every call.
use smart_llm_gateway.Prelude.{
  ℕ, zero, suc, ◌≡◌, refl, ap, Bool, true, Option, none, some, List, [], ◌∷◌, length,
}
use smart_llm_gateway.Ports.{Call, called, Log, InferenceStreamEvent, frame, completed, failed}
use smart_llm_gateway.Application.Attempt.{Task, done, await, StreamAttempt, succeed, fail, poll}
use smart_llm_gateway.Application.Stream.{
  Poll, ready, pending, ManagedInferenceStream, managed, finish, receive, round_pending, round,
  settle, rounds, sanitized_post_commit_failure,
}

-- `poll_next` of the upstream
abbrev pub next_event :
    {C : Type 0}
    → List (InferenceStreamEvent C)
    → Poll (Option (InferenceStreamEvent C)) × List (InferenceStreamEvent C)
next_event [] = (ready none, [])
next_event (e ∷ es) = (ready (some e), es)

abbrev pub Managed : Type 0 → Type 0
Managed C = ManagedInferenceStream (List (InferenceStreamEvent C)) C

abbrev on_polled :
    {C : Type 0}
    → (Managed C → Log → List (InferenceStreamEvent C))
    → Option (Poll (Option (InferenceStreamEvent C)) × (Managed C × Log))
    → List (InferenceStreamEvent C)
on_polled rest none = []
on_polled rest (some (ready none, (s, l))) = []
on_polled rest (some (ready (some e), (s, l))) = e ∷ rest s l
on_polled rest (some (pending, (s, l))) = rest s l

module _ {C : Type 0} (answer : Log → Call → Bool) where
  -- So many polls.
  unfoldable pub drain : ℕ → Managed C → Log → List (InferenceStreamEvent C)
  drain zero s l = []
  drain (suc n) s l = on_polled (drain n) (rounds next_event (λ l c. some (answer l c)) 2 s l)

  -- What a reader of the response of `handle_execution` receives: an event for each of the upstream, at most,
  -- and an end.
  unfoldable pub emitted :
      List (InferenceStreamEvent C) → StreamAttempt → Log → List (InferenceStreamEvent C)
  emitted body attempt l = drain (suc (length body)) (managed body attempt) l

-- The frames up to the first end, and that end; where there is none, the fixed failure.
abbrev pub received : {C : Type 0} → List (InferenceStreamEvent C) → List (InferenceStreamEvent C)
received [] = failed sanitized_post_commit_failure ∷ []
received (frame c ∷ es) = frame c ∷ received es
received (completed ∷ es) = completed ∷ []
received (failed e ∷ es) = failed e ∷ []

abbrev IsDone : {A : Type 0} → Task A × Log → Type 0
IsDone (done a, l) = Unit
IsDone (await c k, l) = ⊥

poll-IsDone :
    {A : Type 0} (answer : Log → Call → Bool) (t : Task A) (l : Log)
    → IsDone (poll (λ l c. some (answer l c)) t l)
unfolding poll
poll-IsDone answer (done a) l = tt
poll-IsDone answer (await c k) l = poll-IsDone answer (k (answer l c)) (called c (answer l c) ∷ l)

module _ {C : Type 0} (answer : Log → Call → Bool) where
  ended : (n : ℕ) (s : Managed C) (l : Log) → s.terminal_emitted ≡ true → drain answer n s l ≡ []
  unfolding drain rounds settle round
  ended zero s l h = refl
  ended (suc n) s l h = rw h refl

  -- The end comes with its task done, and nothing behind it.
  finished :
      (n m : ℕ) (s : Managed C) (e : InferenceStreamEvent C) (x : Task (Unit {0}) × Log)
      → IsDone x
      → on_polled
          (drain answer n)
          (settle (rounds next_event (λ l c. some (answer l c)) m) (finish s e x))
        ≡ e ∷ []
  unfolding settle finish
  finished n m s e (done a, l) h = ap (λ es. e ∷ es) (ended n _ l refl)
  finished n m s e (await c k, l) h = absurd h

  drain-received :
      (body : List (InferenceStreamEvent C)) (a : StreamAttempt) (l : Log)
      → drain answer (suc (length body)) (managed body a) l ≡ received body
  unfolding drain rounds settle round round_pending receive
  drain-received [] a l =
      finished 0 0 _ (failed sanitized_post_commit_failure) _
        (poll-IsDone answer (fail a sanitized_post_commit_failure) l)
  drain-received (frame c ∷ es) a l = ap (λ es. frame c ∷ es) (drain-received es a l)
  drain-received (completed ∷ es) a l =
      finished (suc (length es)) 0 _ completed _ (poll-IsDone answer (succeed a) l)
  drain-received (failed e ∷ es) a l =
      finished (suc (length es)) 0 _ (failed e) _ (poll-IsDone answer (fail a e) l)

  -- A reader receives the frames of the upstream up to its first end, and that end; of an upstream without
  -- one, the fixed failure.
  pub emitted-received :
      (body : List (InferenceStreamEvent C)) (a : StreamAttempt) (l : Log)
      → emitted answer body a l ≡ received body
  unfolding emitted
  emitted-received body a l = drain-received body a l
