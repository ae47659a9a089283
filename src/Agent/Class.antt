-- ===== src/Agent/Class.antt =====
-- Class `Agent` of packages/agent/src/agent.ts: its queues, what starts a run, and how it follows the
-- events of a run. The model, the tools and the options that it only passes on are left out.
pub mod Queues
pub mod Follow
use co_mono.Base.{
  ℕ, String, Bool, true, false, not, ◌&&◌, ◌||◌, Option, none, some, List, [], ◌∷◌, ◌++◌, length,
  ltb, last?, any, if◌then◌else◌, str_eq, to_chars, trim,
}
use co_mono.Message.{
  unsigned, AssistantBlock, text, thinking, tool_call, UserBlock, UserContent, blocks,
  AssistantMessage, AgentMessage, user, assistant, StopReason, error, aborted,
}
use co_mono.Agent.Event.{
  AgentEvent, agent_end, turn_end, message_start, message_update, message_end, tool_execution_start,
  tool_execution_end,
}
use co_mono.Agent.Loop.{some_messages}

pub data QueueMode : Type 0 where
  all one_at_a_time : QueueMode

-- `partial` is a variable of `_runLoop`.
pub record Agent : Type 0 where
  pub messages : List AgentMessage
  pub is_streaming : Bool
  pub stream_message : Option AgentMessage
  pub pending_tool_calls : List String
  pub error : Option String
  pub partial : Option AgentMessage
  pub steering_queue : List AgentMessage
  pub follow_up_queue : List AgentMessage
  pub steering_mode : QueueMode
  pub follow_up_mode : QueueMode

abbrev pub append_message : AgentMessage → Agent → Agent
append_message m a = record a { messages = a.messages ++ m ∷ [] }

abbrev pub steer : AgentMessage → Agent → Agent
steer m a = record a { steering_queue = a.steering_queue ++ m ∷ [] }

abbrev pub follow_up : AgentMessage → Agent → Agent
follow_up m a = record a { follow_up_queue = a.follow_up_queue ++ m ∷ [] }

abbrev clear_all_queues : Agent → Agent
clear_all_queues a = record a { steering_queue = []; follow_up_queue = [] }

abbrev pub has_queued_messages : Agent → Bool
has_queued_messages a = some_messages (a.steering_queue) || some_messages (a.follow_up_queue)

-- What a poll takes from a queue, and what it leaves.
pub dequeue : QueueMode → List AgentMessage → List AgentMessage × List AgentMessage
dequeue one_at_a_time [] = ([], [])
dequeue one_at_a_time (m ∷ ms) = (m ∷ [], ms)
dequeue all ms = (ms, [])

pub dequeue_steering_messages : Agent → List AgentMessage × Agent
unfolding dequeue
dequeue_steering_messages a =
    let (taken, left) = dequeue (a.steering_mode) (a.steering_queue) in
    (taken, record a { steering_queue = left })

pub dequeue_follow_up_messages : Agent → List AgentMessage × Agent
unfolding dequeue
dequeue_follow_up_messages a =
    let (taken, left) = dequeue (a.follow_up_mode) (a.follow_up_queue) in
    (taken, record a { follow_up_queue = left })

pub reset : Agent → Agent
reset a = record a {
  messages = [];
  is_streaming = false;
  stream_message = none;
  pending_tool_calls = [];
  error = none;
  steering_queue = [];
  follow_up_queue = [];
}

-- How a call that starts a run ends: it throws, or calls `_runLoop` with messages or without; `skip` is
-- `skipInitialSteeringPoll`.
pub data Start : Type 0 where
  refused : String → Start
  run_prompts : (prompts : List AgentMessage) (skip : Bool) (a : Agent) → Start
  run_continue : Agent → Start

-- `string | AgentMessage | AgentMessage[]`, a string with its images
pub data PromptInput : Type 0 where
  messages : List AgentMessage → PromptInput
  typed : String → (images : List UserBlock) → PromptInput
  message : AgentMessage → PromptInput

prompt_messages : (now : ℕ) → PromptInput → List AgentMessage
prompt_messages now (messages ms) = ms
prompt_messages now (typed s images) = user (blocks (UserBlock.text (unsigned s) ∷ images)) now ∷ []
prompt_messages now (message m) = m ∷ []

-- A model is configured.
pub prompt : (now : ℕ) → PromptInput → Agent → Start
unfolding prompt_messages
prompt now input a =
    if a.is_streaming
    then refused
        "Agent is already processing a prompt. Use steer() or followUp() to queue messages, or wait for completion."
    else run_prompts (prompt_messages now input) false a

-- The branch of `continue` where the last message is an assistant's.
pub continue_queued : Agent → Start
unfolding dequeue_steering_messages dequeue_follow_up_messages
continue_queued a =
    let (steering, a1) = dequeue_steering_messages a in
    let (following, a2) = dequeue_follow_up_messages a1 in
    if some_messages steering
    then run_prompts steering true a1
    else if some_messages following
    then run_prompts following false a2
    else refused "Cannot continue from message role: assistant"

continue_after : Option AgentMessage → Agent → Start
unfolding continue_queued
continue_after none a = refused "No messages to continue from"
continue_after (some (assistant _)) a = continue_queued a
continue_after (some _) a = run_continue a

unfoldable pub continue : Agent → Start
unfolding continue_after
continue a =
    if a.is_streaming
    then refused "Agent is already processing. Wait for completion before continuing."
    else continue_after (last? (a.messages)) a

-- The state in which `_runLoop` reads the stream.
pub begin_run : Agent → Agent
begin_run a = record a { is_streaming = true; stream_message = none; error = none; partial = none }

-- A JavaScript set of texts, in the order of insertion.
abbrev set_add : String → List String → List String
set_add s ss = if any (str_eq s) ss then ss else ss ++ s ∷ []

abbrev set_delete : String → List String → List String
set_delete s [] = []
set_delete s (t ∷ ts) = let rest = set_delete s ts in if str_eq s t then rest else t ∷ rest

-- `if (errorMessage) this._state.error = errorMessage`: the empty text is no error.
turn_error : Option String → Option String → Option String
turn_error none old = old
turn_error (some e) old = if str_eq e "" then old else some e

-- The `switch` over one event.
pub handle_event : AgentEvent → Agent → Agent
unfolding turn_error
handle_event (message_start m) a = record a { partial = some m; stream_message = some m }
handle_event (message_update m) a = record a { partial = some m; stream_message = some m }
handle_event (message_end m) a =
    append_message m (record a { partial = none; stream_message = none })
handle_event (tool_execution_start id _ _) a = record a {
  pending_tool_calls = set_add id (a.pending_tool_calls);
}
handle_event (tool_execution_end id _ _ _) a = record a {
  pending_tool_calls = set_delete id (a.pending_tool_calls);
}
handle_event (turn_end m _) a = record a { error = turn_error (m.error_message) (a.error) }
handle_event (agent_end _) a = record a { is_streaming = false; stream_message = none }
handle_event _ a = a

pub handle_events : List AgentEvent → Agent → Agent
unfolding handle_event
handle_events [] a = a
handle_events (e ∷ es) a = handle_events es (handle_event e a)

abbrev has_content : AssistantBlock → Bool
has_content (thinking c) = ltb 0 (length (to_chars (trim (c.thinking))))
has_content (text c) = ltb 0 (length (to_chars (trim (c.text))))
has_content (tool_call c) = ltb 0 (length (to_chars (trim (c.name))))

-- A partial message that is left over; `some` holds the error that is thrown.
handle_rest : (is_aborted : Bool) → Option AgentMessage → Agent → Option String × Agent
handle_rest is_aborted (some (assistant m)) a =
    if any has_content (m.content)
    then (none, append_message (assistant m) a)
    else if ltb 0 (length (m.content)) && is_aborted
    then (some "Request was aborted", a)
    else (none, a)
handle_rest is_aborted _ a = (none, a)

-- The `finally` block.
finish_run : Agent → Agent
finish_run a = record a { is_streaming = false; stream_message = none; pending_tool_calls = [] }

-- The `catch` block: `api`, `provider` and `id` are the model's.
fail_run :
    (api provider id : String) (now : ℕ) (is_aborted : Bool) (reason : String) → Agent → Agent
fail_run api provider id now is_aborted reason a =
    record (append_message
      (assistant (record {
        content = text (unsigned "") ∷ [];
        api = api;
        provider = provider;
        model = id;
        usage =
            some
              (record { input = 0; output = 0; cache_read = 0; cache_write = 0; total_tokens = 0 });
        stop_reason = if is_aborted then aborted else error;
        error_message = some reason;
        timestamp = now;
      }))
      a) { error = some reason }
