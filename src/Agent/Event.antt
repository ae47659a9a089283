-- ===== src/Agent/Event.antt =====
-- The events of the agent loop and what the loop asks of its surroundings
-- (packages/agent/src/types.ts, packages/agent/src/agent-loop.ts).
use co_mono.Base.{ℕ, ◌≡◌, refl, ap, String, Bool, Option, List, [], ◌∷◌, ◌++◌}
use co_mono.Message.{Json, ToolCall, AssistantMessage, ToolResultMessage, UserContent, AgentMessage}

-- `AgentToolResult`
pub record ToolResult : Type 0 where
  pub content : UserContent
  pub details : Option Json

pub data AgentEvent : Type 0 where
  agent_start turn_start : AgentEvent
  agent_end : List AgentMessage → AgentEvent
  turn_end : AssistantMessage → List ToolResultMessage → AgentEvent
  message_start message_update message_end : AgentMessage → AgentEvent
  tool_execution_start : (id name : String) (args : Json) → AgentEvent
  tool_execution_update : (id name : String) (args : Json) (partial : ToolResult) → AgentEvent
  tool_execution_end : (id name : String) (result : ToolResult) (is_error : Bool) → AgentEvent

-- `AssistantMessageEvent`: `delta` stands for the nine kinds that carry a partial message. The message
-- of `done` and `error` is what `response.result()` returns.
pub data StreamEvent : Type 0 where
  start delta : AssistantMessage → StreamEvent
  done error : StreamEvent

-- How a tool that was found ends: `validateToolArguments` and `execute`, with the partial results that
-- it reports on the way.
pub data ToolEnd : Type 0 where
  returned : ToolResult → ToolEnd
  threw : String → ToolEnd

pub record ToolRun : Type 0 where
  pub updates : List ToolResult
  pub ending : ToolEnd

pub record ModelResponse : Type 0 where
  pub events : List StreamEvent
  pub result : AssistantMessage

-- The user, the model provider, the tools and the clock. A poll that the configuration leaves out
-- answers with no messages.
pub record AgentLoopConfig : Type 1 where
  pub World : Type 0
  pub get_steering_messages : World → List AgentMessage × World
  pub get_follow_up_messages : World → List AgentMessage × World
  pub stream : List AgentMessage → World → ModelResponse × World
  pub has_tool : String → Bool
  pub run_tool : ToolCall → World → ToolRun × World
  pub date_now : World → ℕ

-- The messages that have ended, in order.
abbrev pub ended : List AgentEvent → List AgentMessage
ended [] = []
ended (message_end m ∷ es) = m ∷ ended es
ended (_ ∷ es) = ended es

pub ended-append : (es fs : List AgentEvent) → ended (es ++ fs) ≡ ended es ++ ended fs
ended-append [] fs = refl
ended-append (message_end m ∷ es) fs = ap (m ∷◌) (ended-append es fs)
ended-append (_ ∷ es) fs = ended-append es fs
