-- ===== src/Agent/Loop.antt =====
-- `agentLoop`, `agentLoopContinue` and `runLoop` of packages/agent/src/agent-loop.ts.
pub mod Account
pub mod Termination
use co_mono.Base.{
  ℕ, zero, suc, String, Bool, true, false, not, ◌||◌, Option, none, some, List, [], ◌∷◌, ◌++◌, map,
  length, ltb, last?, if◌then◌else◌,
}
use co_mono.Message.{
  ToolCall, AssistantBlock, tool_call, StopReason, error, aborted, AssistantMessage, AgentMessage,
  assistant, tool_result,
}
use co_mono.Agent.Event.{
  AgentEvent, agent_start, agent_end, turn_start, turn_end, message_start, message_end,
  AgentLoopConfig,
}
use co_mono.Agent.Response.{stream_response}
use co_mono.Agent.Tools.{Execution, execute_tool_calls}

-- What `runLoop` keeps: `currentContext.messages`, `newMessages`, its variables and the events that it
-- has pushed. `steeringAfterTools` is null between two turns.
pub record LoopState (World : Type 0) : Type 0 where
  pub messages : List AgentMessage
  pub new_messages : List AgentMessage
  pub pending_messages : List AgentMessage
  pub first_turn : Bool
  pub has_more_tool_calls : Bool
  pub events : List AgentEvent
  pub world : World

abbrev pub some_messages : List AgentMessage → Bool
some_messages ms = ltb 0 (length ms)

-- A message that is there at once: a prompt or a pending message.
pub announce : List AgentMessage → List AgentEvent
announce [] = []
announce (m ∷ ms) = message_start m ∷ message_end m ∷ announce ms

-- `content.filter((c) => c.type === "toolCall")`
unfoldable pub tool_calls : List AssistantBlock → List ToolCall
tool_calls [] = []
tool_calls (tool_call c ∷ bs) = c ∷ tool_calls bs
tool_calls (_ ∷ bs) = tool_calls bs

pub is_stopped : StopReason → Bool
is_stopped error = true
is_stopped aborted = true
is_stopped _ = false

module _ {World : Type 0} where
  -- Messages that enter the context and the new messages, with the events around them.
  abbrev pub extend : List AgentMessage → List AgentEvent → LoopState World → LoopState World
  extend ms es st = record st {
    messages = st.messages ++ ms;
    new_messages = st.new_messages ++ ms;
    events = st.events ++ es;
  }

  pub start_turn : LoopState World → LoopState World
  start_turn st =
      if st.first_turn
      then record st { first_turn = false }
      else record st { events = st.events ++ turn_start ∷ [] }

  pub inject_pending : LoopState World → LoopState World
  unfolding announce
  inject_pending st = record (extend (st.pending_messages) (announce (st.pending_messages)) st) {
    pending_messages = [];
  }

  pub end_loop : LoopState World → LoopState World
  end_loop st = record st { events = st.events ++ agent_end (st.new_messages) ∷ [] }

module _ (config : AgentLoopConfig) where
  -- The call of `streamAssistantResponse`, and the push of its message.
  pub respond : LoopState (config.World) → AssistantMessage × LoopState (config.World)
  unfolding stream_response
  respond st =
      let (response, w) = config.stream (st.messages) (st.world) in
      let (messages, streamed) =
        stream_response (response.result) (st.messages) none (response.events) in
      (
        response.result,
        record st {
          messages = messages;
          new_messages = st.new_messages ++ assistant (response.result) ∷ [];
          events = st.events ++ streamed;
          world = w;
        },
      )

  -- The messages that wait for the next turn.
  pub poll_steering : List AgentMessage → LoopState (config.World) → LoopState (config.World)
  poll_steering after_tools st =
      let (steering, w) = config.get_steering_messages (st.world) in
      if some_messages after_tools
      then record st { pending_messages = after_tools }
      else record st { pending_messages = steering; world = w }

  -- The turn from the response on, when it did not fail; with no tool call `execute_tool_calls` does
  -- nothing.
  pub use_tools : AssistantMessage → LoopState (config.World) → LoopState (config.World)
  unfolding execute_tool_calls tool_calls poll_steering
  use_tools message st =
      let calls = tool_calls (message.content) in
      let execution = execute_tool_calls config calls (st.world) in
      let results = execution.tool_results in
      poll_steering (execution.steering_messages)
        (record (extend (map tool_result results)
          (execution.events ++ turn_end message results ∷ []) st) {
            has_more_tool_calls = ltb 0 (length calls);
            world = execution.world;
          })

  -- The body of the inner loop, and whether the run ends with it.
  pub turn : LoopState (config.World) → Bool × LoopState (config.World)
  unfolding start_turn inject_pending respond use_tools is_stopped
  turn st =
      let (message, st') = respond (inject_pending (start_turn st)) in
      if is_stopped (message.stop_reason)
      then (true, record st' { events = st'.events ++ turn_end message [] ∷ [] })
      else (false, use_tools message st')

  -- Both loops; `none` means that the fuel ran out.
  pub run_loop : ℕ → LoopState (config.World) → Option (LoopState (config.World))
  unfolding turn end_loop
  run_loop zero st = none
  run_loop (suc fuel) st =
      let (stopped, st') = turn st in
      let rest = run_loop fuel st' in
      let (follow_up, w) = config.get_follow_up_messages (st.world) in
      let resumed =
        run_loop fuel
          (record st { pending_messages = follow_up; has_more_tool_calls = true; world = w }) in
      if st.has_more_tool_calls || some_messages (st.pending_messages)
      then (if stopped then some (end_loop st') else rest)
      else if some_messages follow_up
      then resumed
      else some (end_loop (record st { world = w }))

  -- The state in which `runLoop` enters its loops.
  pub enter_loop :
      (messages new_messages : List AgentMessage) (events : List AgentEvent)
      → config.World
      → LoopState (config.World)
  enter_loop messages new_messages events w =
      let (steering, w') = config.get_steering_messages w in
      record {
        messages = messages;
        new_messages = new_messages;
        pending_messages = steering;
        first_turn = true;
        has_more_tool_calls = true;
        events = events;
        world = w';
      }

  pub agent_loop :
      ℕ → (prompts messages : List AgentMessage) → config.World → Option (LoopState (config.World))
  unfolding enter_loop run_loop announce
  agent_loop fuel prompts messages w =
      run_loop fuel
        (enter_loop (messages ++ prompts) prompts (agent_start ∷ turn_start ∷ announce prompts) w)

-- `agentLoopContinue` throws before it makes a stream, or runs.
pub data Continued (World : Type 0) : Type 0 where
  refused : String → Continued World
  running : Option (LoopState World) → Continued World

pub continue_from :
    (config : AgentLoopConfig)
    → ℕ
    → List AgentMessage
    → config.World
    → Option AgentMessage
    → Continued (config.World)
unfolding enter_loop run_loop
continue_from config fuel messages w none = refused "Cannot continue: no messages in context"
continue_from config fuel messages w (some (assistant _)) =
    refused "Cannot continue from message role: assistant"
continue_from config fuel messages w (some _) =
    running (run_loop config fuel (enter_loop config messages [] (agent_start ∷ turn_start ∷ []) w))

pub agent_loop_continue :
    (config : AgentLoopConfig) → ℕ → List AgentMessage → config.World → Continued (config.World)
unfolding continue_from
agent_loop_continue config fuel messages w = continue_from config fuel messages w (last? messages)
