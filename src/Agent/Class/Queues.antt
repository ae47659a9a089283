-- ===== src/Agent/Class/Queues.antt =====
-- The queues of class `Agent` lose nothing (packages/agent/src/agent.ts).
use co_mono.Base.{
  ℕ, zero, suc, ◌≡◌, ◌∙◌, refl, Bool-cases, inl, inr, arith, ap, sym, subst, Bool, true, false,
  List, [], ◌∷◌, ◌++◌, append-nil, append_assoc, length, Option, none, some, last?, if◌then◌else◌,
}
use co_mono.Message.{AgentMessage, assistant}
use co_mono.Agent.Loop.{some_messages}
use co_mono.Agent.Class.{
  QueueMode, all, one_at_a_time, Agent, has_queued_messages, dequeue, dequeue_steering_messages,
  dequeue_follow_up_messages, Start, refused, run_prompts, run_continue, continue_queued,
  continue_after, continue,
}

-- Some polls of a queue: all that they take, and what they leave.
pub poll : QueueMode → ℕ → List AgentMessage → List AgentMessage × List AgentMessage
unfolding dequeue
poll mode zero ms = ([], ms)
poll mode (suc n) ms =
    let (taken, left) = dequeue mode ms in
    let (later, rest) = poll mode n left in (taken ++ later, rest)

poll-nil : (n : ℕ) → poll all n [] ≡ ([], [])
unfolding poll dequeue
poll-nil zero = refl
poll-nil (suc n) = poll-nil n

-- In either mode, as many polls as there are messages take them all, in order, each once.
pub poll-all : (mode : QueueMode) (ms : List AgentMessage) → poll mode (length ms) ms ≡ (ms, [])
unfolding poll dequeue
poll-all one_at_a_time [] = refl
poll-all one_at_a_time (m ∷ ms) =
    ap (λ (r : List AgentMessage × List AgentMessage). (m ∷ r.0, r.1)) (poll-all one_at_a_time ms)
poll-all all [] = refl
poll-all all (m ∷ ms) = rw (poll-nil (length ms)) (ap (λ xs. (m ∷ xs, [])) (append-nil ms))

dequeue-keeps :
    (mode : QueueMode) (ms : List AgentMessage)
    → ((dequeue mode ms).0 ++ (dequeue mode ms).1 ≡ ms)
      × (some_messages ((dequeue mode ms).0) ≡ some_messages ms)
unfolding dequeue
dequeue-keeps one_at_a_time [] = (refl, refl)
dequeue-keeps one_at_a_time (m ∷ ms) = (refl, ground arith)
dequeue-keeps all ms = (append-nil ms, refl)

empty : (ms : List AgentMessage) → some_messages ms ≡ false → ms ≡ []
empty [] h = refl
empty (m ∷ ms) h = absurd (ground (arith, h))

-- Behind an assistant's message: a refusal where nothing is queued. Else a run with at least one queued
-- message, without its first poll for steering if it is a steering message. The messages of the run and
-- the queues that it leaves, steering before follow-up, are the queues as they were.
abbrev QueuedOutcome : (queued : Bool) → Agent → Start → Type 0
QueuedOutcome false a s = s ≡ refused "Cannot continue from message role: assistant"
QueuedOutcome true a s =
    (prompts : List AgentMessage) × (b : Agent) × (s
      ≡ run_prompts prompts (some_messages (a.steering_queue)) b)
    × (some_messages prompts ≡ true)
    × (prompts ++ (b.steering_queue ++ b.follow_up_queue) ≡ a.steering_queue ++ a.follow_up_queue)

-- What `continue` does, by whether a run goes on, the last message, and whether messages are queued.
abbrev pub Outcome :
    (is_streaming : Bool) → Option AgentMessage → (queued : Bool) → Agent → Start → Type 0
Outcome true last queued a s =
    s ≡ refused "Agent is already processing. Wait for completion before continuing."
Outcome false none queued a s = s ≡ refused "No messages to continue from"
Outcome false (some (assistant m)) queued a s = QueuedOutcome queued a s
Outcome false (some _) queued a s = s ≡ run_continue a

continue_queued-QueuedOutcome :
    (a : Agent) (queued : Bool)
    → has_queued_messages a ≡ queued
    → QueuedOutcome queued a (continue_queued a)
unfolding continue_queued dequeue_steering_messages dequeue_follow_up_messages
continue_queued-QueuedOutcome a false idle =
    let s_kept = dequeue-keeps (a.steering_mode) (a.steering_queue) in
    let f_kept = dequeue-keeps (a.follow_up_mode) (a.follow_up_queue) in
    ground (arith, s_kept.1, f_kept.1, idle)
continue_queued-QueuedOutcome a true queued =
    let s = dequeue (a.steering_mode) (a.steering_queue) in
    let f = dequeue (a.follow_up_mode) (a.follow_up_queue) in
    let s_kept = dequeue-keeps (a.steering_mode) (a.steering_queue) in
    let f_kept = dequeue-keeps (a.follow_up_mode) (a.follow_up_queue) in
    let steered = record a { steering_queue = s.1 } in
    elim (Bool-cases (some_messages (s.0))) [
      | inl e ↦ (
        s.0,
        steered,
        rw (e, sym (s_kept.1) ∙ e) refl,
        e,
        sym (append_assoc (s.0) (s.1) (a.follow_up_queue))
            ∙ ap (λ q. q ++ a.follow_up_queue) (s_kept.0),
      )
      | inr e ↦
          let waiting : some_messages (f.0) ≡ true =
            ground (arith, s_kept.1, f_kept.1, queued, e) in
          let none_steered : a.steering_queue ≡ [] =
            empty (a.steering_queue) (sym (s_kept.1) ∙ e) in
          let untouched : s.1 ≡ [] =
            subst (λ q. q ++ s.1 ≡ []) (empty (s.0) e) (s_kept.0 ∙ none_steered) in
          (
            f.0,
            record steered { follow_up_queue = f.1 },
            rw (e, waiting, sym (s_kept.1) ∙ e) refl,
            waiting,
            ap (λ q. f.0 ++ (q ++ f.1)) untouched
                ∙ f_kept.0
                ∙ ap (λ q. q ++ a.follow_up_queue) (sym none_steered),
          )
    ]

continue-decided :
    (is_streaming : Bool) (last : Option AgentMessage) (a : Agent)
    → Outcome is_streaming last (has_queued_messages a) a (
        if is_streaming
        then refused "Agent is already processing. Wait for completion before continuing."
        else continue_after last a)
unfolding continue_after
continue-decided true last a = refl
continue-decided false none a = refl
continue-decided false (some (assistant m)) a =
    continue_queued-QueuedOutcome a (has_queued_messages a) refl
continue-decided false (some _) a = refl

-- `continue` refuses while a run goes on, and where there is no message. Where the last message is not an
-- assistant's, a run goes on from the messages, with the queues untouched. Where it is an assistant's,
-- `continue` refuses if both queues are empty; else it runs with at least one queued message, skips the
-- first poll for steering messages exactly if a steering message was queued, and the messages that it
-- runs with and the queues that it leaves, steering before follow-up, are together the queues as they
-- were.
pub continue-Outcome :
    (a : Agent)
    → Outcome (a.is_streaming) (last? (a.messages)) (has_queued_messages a) a (continue a)
unfolding continue
continue-Outcome a = continue-decided (a.is_streaming) (last? (a.messages)) a
