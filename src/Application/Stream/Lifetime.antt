-- ===== src/Application/Stream/Lifetime.antt =====
-- A response stream ends once, and only after its end is persisted
-- (crates/slg-application/src/lib.rs).
use smart_llm_gateway.Prelude.{
  ℕ, suc, ◌≡◌, refl, sym, ap, ◌∙◌, subst, Bool, true, false, Option, none, some, List, [], ◌∷◌,
  ◌++◌, append_assoc, All,
}
use smart_llm_gateway.Ports.{Call, called, Log, InferenceStreamEvent, frame, completed, failed}
use smart_llm_gateway.Application.Attempt.{Task, done, await, StreamAttempt, succeed, fail, poll}
use smart_llm_gateway.Application.Stream.{
  Poll, ready, pending, ManagedInferenceStream, managed, finish, receive, add_poll, poll_on,
  round_pending, round, settle, rounds, polls, sanitized_post_commit_failure,
}

-- The task `t` has made the calls `made`, with those answers, and is left as `u`.
abbrev pub Resumes : {A : Type 0} → Task A → List (Call × Bool) → Task A → Type 0
Resumes t [] u = t ≡ u
Resumes (done _) (_ ∷ _) u = ⊥
Resumes (await c k) ((c', b) ∷ made) u = (c ≡ c') × Resumes (k b) made u

-- The log after those calls.
abbrev pub logged : List (Call × Bool) → Log → Log
logged [] l = l
logged ((c, b) ∷ made) l = logged made (called c b ∷ l)

abbrev pub Advanced : {A : Type 0} → Task A → Log → Task A × Log → Type 0
Advanced t l (u, l') = (made : List (Call × Bool)) × (l' ≡ logged made l) × Resumes t made u

poll-Advanced :
    {A : Type 0} (answer : Log → Call → Option Bool) (t : Task A) (l : Log)
    → Advanced t l (poll answer t l)
unfolding poll
poll-Advanced answer (done a) l = ([], refl, refl)
poll-Advanced {A = A} answer (await c k) l =
    by_answer (λ b. poll-Advanced answer (k b) (called c b ∷ l)) (answer l c)
  where
    by_answer :
        ((b : Bool) → Advanced (k b) (called c b ∷ l) (poll answer (k b) (called c b ∷ l)))
        → (o : Option Bool)
        → Advanced {A = A}
            (await c k)
            l
            (elim o [ none ↦ (await c k, l) | some b ↦ poll answer (k b) (called c b ∷ l) ])
    by_answer rest none = ([], refl, refl)
    by_answer rest (some b) = let (made, e, r) = rest b in ((c, b) ∷ made, e, (refl, r))

Resumes-trans :
    {A : Type 0} (t u v : Task A) (m m' : List (Call × Bool))
    → Resumes t m u
    → Resumes u m' v
    → Resumes t (m ++ m') v
Resumes-trans t u v [] m' h k = subst (λ x. Resumes x m' v) (sym h) k
Resumes-trans (done a) u v (_ ∷ m) m' h j = absurd h
Resumes-trans (await c k) u v ((c', b) ∷ m) m' h j = (h.0, Resumes-trans (k b) u v m m' h.1 j)

logged-append : (m m' : List (Call × Bool)) (l : Log) → logged (m ++ m') l ≡ logged m' (logged m l)
logged-append [] m' l = refl
logged-append (x ∷ m) m' l = logged-append m m' _

-- What persists the end of an attempt.
abbrev pub terminal_task : {C : Type 0} → StreamAttempt → InferenceStreamEvent C → Task (Unit {0})
terminal_task a (frame _) = done tt
terminal_task a completed = succeed a
terminal_task a (failed e) = fail a e

abbrev IsTerminal : {C : Type 0} → InferenceStreamEvent C → Type 0
IsTerminal (frame _) = ⊥
IsTerminal _ = Unit

-- Before the end: the calls that its task has made so far.
abbrev Staged :
    {C : Type 0}
    → StreamAttempt
    → Option (InferenceStreamEvent C × Task (Unit {0}))
    → List (Call × Bool)
    → Type 0
Staged a none made = made ≡ []
Staged a (some (e, t)) made = IsTerminal e × Resumes (terminal_task a e) made t

-- What a poll returns and leaves, with all calls made so far.
abbrev After :
    {U C : Type 0}
    → StreamAttempt
    → Poll (Option (InferenceStreamEvent C))
    → ManagedInferenceStream U C
    → List (Call × Bool)
    → Type 0
After a (ready none) s made = ⊥
After a (ready (some (frame _))) s made =
    (s.terminal_emitted ≡ false) × Staged a s.pending_terminal made
After a (ready (some e)) s made =
    (s.terminal_emitted ≡ true) × Resumes (terminal_task a e) made (done tt)
After a pending s made = (s.terminal_emitted ≡ false) × Staged a s.pending_terminal made

abbrev OnePoll :
    {U C : Type 0}
    → StreamAttempt
    → List (Call × Bool)
    → Log
    → Option (Poll (Option (InferenceStreamEvent C)) × (ManagedInferenceStream U C × Log))
    → Type 0
OnePoll a made l none = ⊥
OnePoll a made l (some (p, (s, l'))) =
    (s.attempt ≡ a)
    × ((more : List (Call × Bool)) × (l' ≡ logged more l) × After a p s (made ++ more))

abbrev stream_of :
    {U C : Type 0}
    → U
    → StreamAttempt
    → Option (InferenceStreamEvent C × Task (Unit {0}))
    → ManagedInferenceStream U C
stream_of u a p = record {
  upstream = u;
  attempt = a;
  pending_terminal = p;
  terminal_emitted = false;
}

module _ {U C : Type 0} (next : U → Poll (Option (InferenceStreamEvent C)) × U)
    (answer : Log → Call → Option Bool) where
  finish-OnePoll :
      (n : ℕ) (u : U) (a : StreamAttempt) (e : InferenceStreamEvent C) (t : Task (Unit {0}))
      (made : List (Call × Bool)) (l : Log)
      → IsTerminal e
      → Resumes (terminal_task a e) made t
      → (x : Task (Unit {0}) × Log) → Advanced t l x
      → OnePoll a made l (settle (rounds next answer n) (finish (stream_of u a (some (e, t))) e x))
  unfolding settle finish
  finish-OnePoll n u a completed t made l i h (done w, l') (more, q, r) =
      (refl, (more, q, (refl, Resumes-trans _ t (done tt) made more h r)))
  finish-OnePoll n u a (failed f) t made l i h (done w, l') (more, q, r) =
      (refl, (more, q, (refl, Resumes-trans _ t (done tt) made more h r)))
  finish-OnePoll n u a (frame _) t made l i h (done w, l') _ = absurd i
  finish-OnePoll n u a e t made l i h (await c k, l') (more, q, r) =
      (refl, (more, q, (refl, (i, Resumes-trans _ t (await c k) made more h r))))

  pending-OnePoll :
      (n : ℕ) (u : U) (a : StreamAttempt) (e : InferenceStreamEvent C) (t : Task (Unit {0}))
      (made : List (Call × Bool)) (l : Log)
      → IsTerminal e
      → Resumes (terminal_task a e) made t
      → OnePoll a made l (rounds next answer (suc n) (stream_of u a (some (e, t))) l)
  unfolding rounds round round_pending
  pending-OnePoll n u a e t made l i h =
      finish-OnePoll n u a e t made l i h (poll answer t l) (poll-Advanced answer t l)

  receive-OnePoll :
      (u : U) (a : StreamAttempt) (l : Log) (x : Poll (Option (InferenceStreamEvent C)) × U)
      → OnePoll a [] l (settle (rounds next answer 1) (receive (stream_of u a none) l x))
  unfolding settle receive
  receive-OnePoll u a l (ready (some (frame c)), v) = (refl, ([], refl, (refl, refl)))
  receive-OnePoll u a l (ready (some completed), v) =
      pending-OnePoll 0 v a completed (succeed a) [] l tt refl
  receive-OnePoll u a l (ready (some (failed e)), v) =
      pending-OnePoll 0 v a (failed e) (fail a e) [] l tt refl
  receive-OnePoll u a l (ready none, v) =
      pending-OnePoll 0 v a (failed sanitized_post_commit_failure)
        (fail a sanitized_post_commit_failure) [] l tt refl
  receive-OnePoll u a l (pending, v) = (refl, ([], refl, (refl, refl)))

  -- A poll of a stream that has not ended returns within two rounds of the loop.
  rounds-OnePoll :
      (u : U) (a : StreamAttempt) (p : Option (InferenceStreamEvent C × Task (Unit {0})))
      (made : List (Call × Bool)) (l : Log)
      → Staged a p made
      → OnePoll a made l (rounds next answer 2 (stream_of u a p) l)
  unfolding rounds round round_pending
  rounds-OnePoll u a none made l h =
      subst (λ m. OnePoll a m l (rounds next answer 2 (stream_of u a none) l)) (sym h)
        (receive-OnePoll u a l (next u))
  rounds-OnePoll u a (some (e, t)) made l h = pending-OnePoll 1 u a e t made l h.0 h.1

-- What the polls of a stream return over its life, whose calls were `made`: frames, then one end, whose
-- task is exactly those calls, then nothing.
abbrev pub Life :
    {C : Type 0}
    → StreamAttempt
    → List (Call × Bool)
    → List (Poll (Option (InferenceStreamEvent C)))
    → Type 0
Life a made [] = Unit
Life a made (pending ∷ ps) = Life a made ps
Life a made (ready none ∷ ps) = ⊥
Life a made (ready (some (frame _)) ∷ ps) = Life a made ps
Life a made (ready (some e) ∷ ps) =
    Resumes (terminal_task a e) made (done tt) × All (λ p. p ≡ ready none) ps

abbrev pub Lived :
    {U C : Type 0}
    → StreamAttempt
    → List (Call × Bool)
    → Log
    → Option (List (Poll (Option (InferenceStreamEvent C))) × (ManagedInferenceStream U C × Log))
    → Type 0
Lived a made l none = ⊥
Lived a made l (some (ps, (s, l'))) =
    (more : List (Call × Bool)) × (l' ≡ logged more l) × Life a (made ++ more) ps

abbrev Over :
    {U C : Type 0}
    → Log
    → Option (List (Poll (Option (InferenceStreamEvent C))) × (ManagedInferenceStream U C × Log))
    → Type 0
Over l none = ⊥
Over l (some (ps, (s, l'))) = (l' ≡ l) × All (λ p. p ≡ ready none) ps

module _ {U C : Type 0} (next : U → Poll (Option (InferenceStreamEvent C)) × U) where
  ended-Over :
      (answers : List (Log → Call → Option Bool)) (u : U) (a : StreamAttempt)
      → (p : Option (InferenceStreamEvent C × Task (Unit {0}))) (l : Log)
      → Over l (
          polls next answers
            (record { upstream = u; attempt = a; pending_terminal = p; terminal_emitted = true })
            l)
  unfolding polls poll_on rounds round settle add_poll
  ended-Over [] u a p l = (refl, tt)
  ended-Over (answer ∷ answers) u a p l = after _ (ended-Over answers u a p l)
    where
      after :
          (x : Option
            (List (Poll (Option (InferenceStreamEvent C))) × (ManagedInferenceStream U C × Log)))
          → Over l x
          → Over l (add_poll (ready none) x)
      after none h = absurd h
      after (some (ps, (s', l'))) (e, a) = (e, (refl, a))

  polls-Over :
      (answers : List (Log → Call → Option Bool)) (s : ManagedInferenceStream U C) (l : Log)
      → s.terminal_emitted ≡ true
      → Over l (polls next answers s l)
  polls-Over answers s l h =
      subst (λ s. Over l (polls next answers s l))
        (λ i. record {
          upstream = s.upstream;
          attempt = s.attempt;
          pending_terminal = s.pending_terminal;
          terminal_emitted = sym h i;
        })
        (ended-Over answers s.upstream s.attempt s.pending_terminal l)

  stream_of-eq :
      (s : ManagedInferenceStream U C) (a : StreamAttempt)
      → s.attempt ≡ a
      → s.terminal_emitted ≡ false
      → stream_of s.upstream a s.pending_terminal ≡ s
  stream_of-eq s a h k i = record {
    upstream = s.upstream;
    attempt = sym h i;
    pending_terminal = s.pending_terminal;
    terminal_emitted = sym k i;
  }

  -- The calls of one poll come before those of the polls after it.
  add-Lived :
      (q : Poll (Option (InferenceStreamEvent C))) (a : StreamAttempt)
      (made more : List (Call × Bool)) (l l' : Log)
      → (l' ≡ logged more l)
      → ((ps : List (Poll (Option (InferenceStreamEvent C)))) (m : List (Call × Bool))
          → Life a m ps
          → Life a m (q ∷ ps))
      → (x : Option
          (List (Poll (Option (InferenceStreamEvent C))) × (ManagedInferenceStream U C × Log)))
      → Lived a (made ++ more) l' x
      → Lived a made l (add_poll q x)
  unfolding add_poll
  add-Lived q a made more l l' e k none h = absurd h
  add-Lived q a made more l l' e k (some (ps, (s, l''))) (more', e', life) = (
    more ++ more',
    e' ∙ ap (logged more') e ∙ sym (logged-append more more' l),
    k ps _ (subst (λ m. Life a m ps) (append_assoc made more more') life),
  )

  end-Lived :
      (a : StreamAttempt) (e : InferenceStreamEvent C) (made more : List (Call × Bool)) (l l' : Log)
      → l' ≡ logged more l
      → ((ps : List (Poll (Option (InferenceStreamEvent C))))
          → All (λ p. p ≡ ready none) ps
          → Life a (made ++ more) (ready (some e) ∷ ps))
      → (x : Option
          (List (Poll (Option (InferenceStreamEvent C))) × (ManagedInferenceStream U C × Log)))
      → Over l' x
      → Lived a made l (add_poll (ready (some e)) x)
  unfolding add_poll
  end-Lived a e made more l l' q k none h = absurd h
  end-Lived a e made more l l' q k (some (ps, (s, l''))) (o, all) = (more, o ∙ q, k ps all)

  -- The polls that follow a poll.
  poll_on-Lived :
      (answers : List (Log → Call → Option Bool)) (a : StreamAttempt) (made : List (Call × Bool))
      (l : Log)
      → ((s : ManagedInferenceStream U C) (l' : Log) (m : List (Call × Bool))
          → s.attempt ≡ a
          → s.terminal_emitted ≡ false
          → Staged a s.pending_terminal m
          → Lived a m l' (polls next answers s l'))
      → (x : Option (Poll (Option (InferenceStreamEvent C)) × (ManagedInferenceStream U C × Log)))
      → OnePoll a made l x
      → Lived a made l (poll_on (polls next answers) x)
  unfolding poll_on
  poll_on-Lived answers a made l rest none h = absurd h
  poll_on-Lived answers a made l rest (some (ready none, (s, l'))) (ea, (more, e, h)) = absurd h
  poll_on-Lived answers a made l rest (some (ready (some (frame c)), (s, l'))) (ea, (more, e, h)) =
      add-Lived _ a made more l l' e (λ _ _ k. k) _ (rest s l' (made ++ more) ea h.0 h.1)
  poll_on-Lived answers a made l rest (some (ready (some completed), (s, l'))) (ea, (more, e, h)) =
      end-Lived a completed made more l l' e (λ ps all. (h.1, all)) _ (polls-Over answers s l' h.0)
  poll_on-Lived answers a made l rest (some (ready (some (failed f)), (s, l'))) (ea, (more, e, h)) =
      end-Lived a (failed f) made more l l' e (λ ps all. (h.1, all)) _ (polls-Over answers s l' h.0)
  poll_on-Lived answers a made l rest (some (pending, (s, l'))) (ea, (more, e, h)) =
      add-Lived _ a made more l l' e (λ _ _ k. k) _ (rest s l' (made ++ more) ea h.0 h.1)

  polls-Lived :
      (answers : List (Log → Call → Option Bool)) (u : U) (a : StreamAttempt)
      → (p : Option (InferenceStreamEvent C × Task (Unit {0}))) (made : List (Call × Bool))
        (l : Log)
      → Staged a p made
      → Lived a made l (polls next answers (stream_of u a p) l)
  unfolding polls
  polls-Lived [] u a p made l h = ([], refl, tt)
  polls-Lived (answer ∷ answers) u a p made l h =
      poll_on-Lived answers a made l
        (λ s l' m ea em st.
          subst (λ s. Lived a m l' (polls next answers s l')) (stream_of-eq s a ea em)
            (polls-Lived answers s.upstream a s.pending_terminal m l' st))
        (rounds next answer 2 (stream_of u a p) l) (rounds-OnePoll next answer u a p made l h)

  -- However often the stream of a committed attempt is polled, whatever the upstream yields and however
  -- long the ports take, every poll returns, and the polls yield frames, then at most one end, then
  -- nothing; there is no nothing before an end; and when there is an end, the calls made over the whole
  -- life are exactly those of the task that persists it, run to its end before the end was yielded.
  pub polls_Life :
      (answers : List (Log → Call → Option Bool)) (body : U) (attempt : StreamAttempt) (l : Log)
      → Lived attempt [] l (polls next answers (managed body attempt) l)
  polls_Life answers body attempt l = polls-Lived answers body attempt none [] l refl
