-- ===== src/Agent/Class/Follow.antt =====
-- The messages of class `Agent` are those of the loop (packages/agent/src/agent.ts).
use co_mono.Base.{
  ℕ, ◌+◌, ◌*◌, ◌<◌, ◌≡◌, ◌∙◌, refl, ap, sym, false, none, some, List, [], ◌∷◌, ◌++◌, some_inj,
  append-nil, append_assoc, last?,
}
use co_mono.Message.{AgentMessage}
use co_mono.Agent.Event.{AgentEvent, agent_end, message_end, AgentLoopConfig, ended}
use co_mono.Agent.Loop.{LoopState, agent_loop}
use co_mono.Agent.Loop.Account.{KeepsProtocol}
use co_mono.Agent.Loop.Termination.{IsPatient, agent_loop-Closed}
use co_mono.Agent.Class.{Agent, handle_event, handle_events, begin_run}

-- Whatever the events, the agent appends exactly the messages that end, in order.
handle_events-ended :
    (es : List AgentEvent) (a : Agent) → (handle_events es a).messages ≡ a.messages ++ ended es
unfolding handle_events handle_event
handle_events-ended [] a = sym (append-nil (a.messages))
handle_events-ended (message_end m ∷ es) a =
    handle_events-ended es (handle_event (message_end m) a)
    ∙ append_assoc (a.messages) (m ∷ []) (ended es)
handle_events-ended (e ∷ es) a = handle_events-ended es (handle_event e a)

handle_events-last :
    (es : List AgentEvent) (a : Agent) (ms : List AgentMessage)
    → last? es ≡ some (agent_end ms)
    → ((handle_events es a).is_streaming ≡ false) × ((handle_events es a).stream_message ≡ none)
unfolding handle_events handle_event
handle_events-last [] a ms h = absurd (cc (h))
handle_events-last (e ∷ []) a ms h = rw (some_inj h) (refl, refl)
handle_events-last (e ∷ f ∷ es) a ms h = handle_events-last (f ∷ es) (handle_event e a) ms h

-- Suppose the provider's streams start at most once and end by `done` or `error`, and the patience of the
-- surroundings never grows and shrinks with every answer that calls tools and every steering or follow-up
-- message, and there is fuel for two rounds for each unit of patience. An agent that follows the events of
-- a run from its own messages has afterwards exactly the messages of the loop's context, which begin with
-- the old ones and the prompts, and it no longer streams.
pub handle_events-agent_loop :
    (config : AgentLoopConfig) (patience : config.World → ℕ)
    → IsPatient config patience
    → KeepsProtocol config
    → (fuel : ℕ) (prompts : List AgentMessage) (w : config.World) (a : Agent)
    → 2 * patience w + 1 < fuel
    → (r : LoopState (config.World)) × (agent_loop config fuel prompts (a.messages) w ≡ some r)
      × ((handle_events (r.events) (begin_run a)).messages ≡ r.messages)
      × ((later : List AgentMessage) × (r.messages ≡ a.messages ++ (prompts ++ later)))
      × ((handle_events (r.events) (begin_run a)).is_streaming ≡ false)
unfolding begin_run
handle_events-agent_loop config patience h protocol fuel prompts w a enough =
    let (r, returned, closed) =
      agent_loop-Closed config patience h protocol fuel prompts (a.messages) w enough in
    let account = closed.0 in
    let (later, new) = account.2 in
    (
      r,
      returned,
      handle_events-ended (r.events) (begin_run a)
          ∙ ap (a.messages ++◌) (account.1)
          ∙ sym (account.0),
      (later, account.0 ∙ ap (a.messages ++◌) new),
      (handle_events-last (r.events) (begin_run a) (r.new_messages) (closed.1)).0,
    )
