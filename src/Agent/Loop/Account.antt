-- ===== src/Agent/Loop/Account.antt =====
-- What a run of the agent loop leaves: the context, the new messages and the events agree
-- (packages/agent/src/agent-loop.ts).
use co_mono.Base.{
  ℕ, zero, suc, ◌≡◌, ◌∙◌, refl, ap, sym, Bool, true, false, Option, none, some, List, [], ◌∷◌, ◌++◌,
  map, append-nil, append_assoc, last?, last?-append-one, ltb, length, if-both, ◌||◌,
}
use co_mono.Message.{AssistantMessage, AgentMessage, assistant, tool_result}
use co_mono.Agent.Event.{
  AgentEvent, agent_end, turn_start, turn_end, AgentLoopConfig, ended, ended-append,
}
use co_mono.Agent.Response.{IsProtocol, stream_response, stream_response-final}
use co_mono.Agent.Tools.{execute_tool_calls, execute_tool_calls-Answers}
use co_mono.Agent.Loop.{
  LoopState, some_messages, announce, extend, start_turn, inject_pending, end_loop, respond,
  is_stopped, poll_steering, use_tools, tool_calls, turn, run_loop, enter_loop,
}

-- The context is the old one and the new messages, the new messages are those that have ended, and they
-- begin with the prompts.
abbrev IsAccounted : {World : Type 0} (base prompts : List AgentMessage) → LoopState World → Type 0
IsAccounted base prompts st =
    (st.messages ≡ base ++ st.new_messages)
    × (ended (st.events) ≡ st.new_messages)
    × ((later : List AgentMessage) × (st.new_messages ≡ prompts ++ later))

-- The model's stream ends properly whatever it is asked.
abbrev pub KeepsProtocol : AgentLoopConfig → Type 0
KeepsProtocol config =
    (ms : List AgentMessage) (w : config.World) → IsProtocol false ((config.stream ms w).0.events)

pub ended-announce : (ms : List AgentMessage) → ended (announce ms) ≡ ms
unfolding announce
ended-announce [] = refl
ended-announce (m ∷ ms) = ap (m ∷◌) (ended-announce ms)

module _ {World : Type 0} (base prompts : List AgentMessage) where
  extend-IsAccounted :
      (ms : List AgentMessage) (es : List AgentEvent) (st : LoopState World)
      → ended es ≡ ms
      → IsAccounted base prompts st
      → IsAccounted base prompts (extend ms es st)
  extend-IsAccounted ms es st h acc = (
    ap (λ xs. xs ++ ms) (acc.0) ∙ append_assoc base (st.new_messages) ms,
    ended-append (st.events) es ∙ ap (λ xs. xs ++ ended es) (acc.1) ∙ ap (st.new_messages ++◌) h,
    ((acc.2).0 ++ ms, ap (λ xs. xs ++ ms) ((acc.2).1) ∙ append_assoc prompts ((acc.2).0) ms),
  )

  -- An event that ends no message.
  add_event-ended :
      (e : AgentEvent) (st : LoopState World)
      → ended (e ∷ []) ≡ []
      → IsAccounted base prompts st
      → ended (st.events ++ e ∷ []) ≡ st.new_messages
  add_event-ended e st h acc =
      ended-append (st.events) (e ∷ [])
      ∙ ap (ended (st.events) ++◌) h
      ∙ append-nil (ended (st.events))
      ∙ acc.1

  start_turn-IsAccounted :
      (st : LoopState World)
      → IsAccounted base prompts st
      → IsAccounted base prompts (start_turn st)
  unfolding start_turn
  start_turn-IsAccounted st acc =
      if-both (IsAccounted base prompts) (st.first_turn) (λ _. acc)
        (λ _. (acc.0, add_event-ended turn_start st refl acc, acc.2))

  inject_pending-IsAccounted :
      (st : LoopState World)
      → IsAccounted base prompts st
      → IsAccounted base prompts (inject_pending st)
  unfolding inject_pending
  inject_pending-IsAccounted st acc =
      extend-IsAccounted (st.pending_messages) (announce (st.pending_messages)) st
        (ended-announce (st.pending_messages)) acc

-- The run is over: its last event hands over the new messages.
abbrev pub Closed : {World : Type 0} (base prompts : List AgentMessage) → LoopState World → Type 0
Closed base prompts r =
    IsAccounted base prompts r × (last? (r.events) ≡ some (agent_end (r.new_messages)))

abbrev pub Closes :
    {World : Type 0} (base prompts : List AgentMessage) → Option (LoopState World) → Type 0
Closes base prompts none = Unit
Closes base prompts (some r) = Closed base prompts r

module _ (config : AgentLoopConfig) (base prompts : List AgentMessage)
    (protocol : KeepsProtocol config) where
  respond-IsAccounted :
      (st : LoopState (config.World))
      → IsAccounted base prompts st
      → IsAccounted base prompts (respond config st).1
  unfolding respond
  respond-IsAccounted st acc =
      let (response, w) = config.stream (st.messages) (st.world) in
      let (messages, streamed) =
        stream_response (response.result) (st.messages) none (response.events) in
      let final =
        stream_response-final (response.result) (st.messages) (response.events)
          (protocol (st.messages) (st.world)) in
      let acc' =
        extend-IsAccounted base prompts (assistant (response.result) ∷ []) streamed st (final.1)
          acc in
      (final.0 ∙ acc'.0, acc'.1, acc'.2)

  poll_steering-IsAccounted :
      (after_tools : List AgentMessage) (st : LoopState (config.World))
      → IsAccounted base prompts st
      → IsAccounted base prompts (poll_steering config after_tools st)
  unfolding poll_steering
  poll_steering-IsAccounted after_tools st acc =
      if-both (IsAccounted base prompts) (some_messages after_tools) (λ _. acc) (λ _. acc)

  use_tools-IsAccounted :
      (message : AssistantMessage) (st : LoopState (config.World))
      → IsAccounted base prompts st
      → IsAccounted base prompts (use_tools config message st)
  unfolding use_tools
  use_tools-IsAccounted message st acc =
      let execution = execute_tool_calls config (tool_calls (message.content)) (st.world) in
      let answers = execute_tool_calls-Answers config (tool_calls (message.content)) (st.world) in
      let results = execution.tool_results in
      let all : ended (execution.events ++ turn_end message results ∷ [])
          ≡ map tool_result results =
        ended-append (execution.events) (turn_end message results ∷ [])
        ∙ append-nil (ended (execution.events))
        ∙ answers.1 in
      let told =
        extend (map tool_result results) (execution.events ++ turn_end message results ∷ []) st in
      poll_steering-IsAccounted (execution.steering_messages)
        (record told {
          has_more_tool_calls = ltb 0 (length (tool_calls (message.content)));
          world = execution.world;
        })
        (extend-IsAccounted base prompts (map tool_result results) _ st all acc)

  turn-IsAccounted :
      (st : LoopState (config.World))
      → IsAccounted base prompts st
      → IsAccounted base prompts (turn config st).1
  unfolding turn
  turn-IsAccounted st acc =
      let begun = inject_pending (start_turn st) in
      let (message, st') = respond config begun in
      let acc' = respond-IsAccounted begun (
        inject_pending-IsAccounted base prompts (start_turn st)
          (start_turn-IsAccounted base prompts st acc)) in
      if-both (λ (r : Bool × LoopState (config.World)). IsAccounted base prompts (r.1))
        (is_stopped (message.stop_reason))
        (λ _. (acc'.0, add_event-ended base prompts (turn_end message []) st' refl acc', acc'.2))
        (λ _. use_tools-IsAccounted message st' acc')

  end_loop-Closed :
      (st : LoopState (config.World))
      → IsAccounted base prompts st
      → Closed base prompts (end_loop st)
  unfolding end_loop
  end_loop-Closed st acc = (
    (acc.0, add_event-ended base prompts (agent_end (st.new_messages)) st refl acc, acc.2),
    last?-append-one (st.events) (agent_end (st.new_messages)),
  )

  pub run_loop-Closes :
      (fuel : ℕ) (st : LoopState (config.World))
      → IsAccounted base prompts st
      → Closes base prompts (run_loop config fuel st)
  unfolding run_loop
  run_loop-Closes zero st acc = tt
  run_loop-Closes (suc fuel) st acc =
      let (stopped, st') = turn config st in
      let acc' = turn-IsAccounted st acc in
      let (follow_up, w) = config.get_follow_up_messages (st.world) in
      if-both (Closes base prompts) (st.has_more_tool_calls || some_messages (st.pending_messages))
        (λ _.
          if-both (Closes base prompts) stopped (λ _. end_loop-Closed st' acc')
            (λ _. run_loop-Closes fuel st' acc'))
        (λ _.
          if-both (Closes base prompts) (some_messages follow_up)
            (λ _.
              run_loop-Closes fuel
                (record st { pending_messages = follow_up; has_more_tool_calls = true; world = w })
                acc)
            (λ _. end_loop-Closed (record st { world = w }) acc))

  pub enter_loop-IsAccounted :
      (messages : List AgentMessage) (es : List AgentEvent) (w : config.World)
      → messages ≡ base ++ prompts
      → ended es ≡ prompts
      → IsAccounted base prompts (enter_loop config messages prompts es w)
  unfolding enter_loop
  enter_loop-IsAccounted messages es w h k = (h, k, ([], sym (append-nil prompts)))
