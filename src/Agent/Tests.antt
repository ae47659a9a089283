-- ===== src/Agent/Tests.antt =====
-- The agent loop against a model that calls two tools until its budget is spent
-- (packages/agent/src/agent-loop.ts).
use co_mono.Base.{
  ℕ, zero, suc, ◌≤◌, ◌<◌, ◌≡◌, refl, String, str_eq, true, false, none, some, List, [], ◌∷◌, ◌++◌,
  map, length, last?, ltb, arith,
}
use co_mono.Message.{
  unsigned, AssistantBlock, UserBlock, plain, blocks, ToolCall, tool_call, StopReason, stop,
  tool_use, AssistantMessage, ToolResultMessage, AgentMessage, user, assistant,
}
use co_mono.Agent.Event.{
  returned, ToolRun, start, delta, done, ModelResponse, AgentLoopConfig, ended,
}
use co_mono.Agent.Response.{stream_response, stream_response-final}
use co_mono.Agent.Tools.{Answered, execute_tool_calls, execute_tool_calls-Answers}
use co_mono.Agent.Loop.{
  LoopState, running, some_messages, tool_calls, agent_loop, agent_loop_continue,
}
use co_mono.Agent.Loop.Account.{KeepsProtocol, Closed}
use co_mono.Agent.Loop.Termination.{IsPatient, agent_loop-Closed, agent_loop_continue-Continues}
use co_mono.Agent.Class.{
  Agent, all, one_at_a_time, has_queued_messages, continue, handle_events, begin_run,
}
use co_mono.Agent.Class.Queues.{poll, poll-all, Outcome, continue-Outcome}
use co_mono.Agent.Class.Follow.{handle_events-agent_loop}

abbrev read_call : ToolCall
read_call = record { id = "c1"; name = "read"; arguments = "{}"; thought_signature = none }

-- Its tool is not there.
abbrev fly_call : ToolCall
fly_call = record { id = "c2"; name = "fly"; arguments = "{}"; thought_signature = none }

abbrev answer : List AssistantBlock → StopReason → AssistantMessage
answer content stop_reason = record {
  content = content;
  api = "messages";
  provider = "p";
  model = "m";
  usage = none;
  stop_reason = stop_reason;
  error_message = none;
  timestamp = 1;
}

abbrev partial : AssistantMessage
partial = answer [] stop

abbrev calling : AssistantMessage
calling = answer (tool_call read_call ∷ tool_call fly_call ∷ []) tool_use

abbrev finished : AssistantMessage
finished = answer (AssistantBlock.text (unsigned "done") ∷ []) stop

-- The world is how many answers with tool calls are left.
abbrev model : List AgentMessage → ℕ → ModelResponse × ℕ
model ms zero = (record { events = done ∷ []; result = finished }, 0)
model ms (suc n) =
    (record { events = start partial ∷ delta partial ∷ done ∷ []; result = calling }, n)

-- The user steers once.
abbrev steer : ℕ → List AgentMessage × ℕ
steer (suc (suc (suc zero))) = (user (plain "wait") 2 ∷ [], 2)
steer n = ([], n)

abbrev read_file : ToolCall → ℕ → ToolRun × ℕ
read_file call n = (
  record {
    updates = [];
    ending =
        returned
          (record { content = blocks (UserBlock.text (unsigned "text") ∷ []); details = none });
  },
  n,
)

abbrev config : AgentLoopConfig
config = record {
  World = ℕ;
  get_steering_messages = steer;
  get_follow_up_messages = λ (n : ℕ). ([], n);
  stream = model;
  has_tool = λ (name : String). str_eq name "read";
  run_tool = read_file;
  date_now = λ (n : ℕ). 3;
}

config-KeepsProtocol : KeepsProtocol config
config-KeepsProtocol ms zero = tt
config-KeepsProtocol ms (suc n) = (refl, tt)

model_le : (ms : List AgentMessage) (n : ℕ) → (model ms n).1 ≤ n
model_le ms zero = omega arith
model_le ms (suc n) = omega arith

model_lt :
    (ms : List AgentMessage) (n : ℕ)
    → ltb 0 (length (tool_calls ((model ms n).0.result.content))) ≡ true
    → (model ms n).1 < n
unfolding tool_calls
model_lt ms zero h = absurd (cc (h))
model_lt ms (suc n) h = omega arith

steer_le : (n : ℕ) → (steer n).1 ≤ n
steer_le zero = omega arith
steer_le (suc zero) = omega arith
steer_le (suc (suc zero)) = omega arith
steer_le (suc (suc (suc zero))) = omega arith
steer_le (suc (suc (suc (suc n)))) = omega arith

steer_lt : (n : ℕ) → some_messages ((steer n).0) ≡ true → (steer n).1 < n
steer_lt zero h = absurd (cc (h))
steer_lt (suc zero) h = absurd (cc (h))
steer_lt (suc (suc zero)) h = absurd (cc (h))
steer_lt (suc (suc (suc zero))) h = omega arith
steer_lt (suc (suc (suc (suc n)))) h = absurd (cc (h))

config-IsPatient : IsPatient config (λ (n : ℕ). n)
config-IsPatient = record {
  stream = model_le;
  tools = model_lt;
  run = λ call (n : ℕ). omega arith;
  poll = steer_le;
  steering = steer_lt;
  follow_up = λ (n : ℕ) h. absurd (cc (h));
}

abbrev prompt : AgentMessage
prompt = user (plain "read it") 1

stream_response-final_example :
    ((stream_response calling (prompt ∷ []) none (start partial ∷ delta partial ∷ done ∷ [])).0
      ≡ prompt ∷ assistant calling ∷ [])
    × (ended
          (stream_response calling (prompt ∷ []) none (start partial ∷ delta partial ∷ done ∷ [])).1
        ≡ assistant calling ∷ [])
stream_response-final_example =
    stream_response-final calling (prompt ∷ []) (start partial ∷ delta partial ∷ done ∷ [])
      (refl, tt)

execute_tool_calls-Answers_example :
    Answered (read_call ∷ fly_call ∷ []) (execute_tool_calls config (read_call ∷ fly_call ∷ []) 3)
execute_tool_calls-Answers_example = execute_tool_calls-Answers config (read_call ∷ fly_call ∷ []) 3

-- The second call is skipped, since a message came.
steered :
    map ToolResultMessage.is_error
      (execute_tool_calls config (read_call ∷ fly_call ∷ []) 3).tool_results
    ≡ false ∷ true ∷ []
unfolding execute_tool_calls
steered = refl

agent_loop-Closed_example :
    (r : LoopState ℕ) × (agent_loop config 10 (prompt ∷ []) [] 4 ≡ some r)
    × Closed [] (prompt ∷ []) r
agent_loop-Closed_example =
    agent_loop-Closed config (λ (n : ℕ). n) config-IsPatient config-KeepsProtocol 10 (prompt ∷ [])
      [] 4 (omega arith)

agent_loop_continue-Continues_example :
    (r : LoopState ℕ) × (agent_loop_continue config 10 (prompt ∷ []) 4 ≡ running (some r))
    × Closed (prompt ∷ []) [] r
agent_loop_continue-Continues_example =
    agent_loop_continue-Continues config (λ (n : ℕ). n) config-IsPatient config-KeepsProtocol 10
      (prompt ∷ []) 4 (omega arith)

abbrev busy : Agent
busy = record {
  messages = assistant finished ∷ [];
  is_streaming = false;
  stream_message = none;
  pending_tool_calls = [];
  error = none;
  partial = none;
  steering_queue = [];
  follow_up_queue = prompt ∷ user (plain "and this") 2 ∷ [];
  steering_mode = all;
  follow_up_mode = one_at_a_time;
}

poll-all_example :
    poll one_at_a_time 2 (busy.follow_up_queue) ≡ (prompt ∷ user (plain "and this") 2 ∷ [], [])
poll-all_example = poll-all one_at_a_time (busy.follow_up_queue)

continue-Outcome_example :
    Outcome
      (busy.is_streaming)
      (last? (busy.messages))
      (has_queued_messages busy)
      busy
      (continue busy)
continue-Outcome_example = continue-Outcome busy

handle_events-agent_loop_example :
    (r : LoopState ℕ) × (agent_loop config 10 (prompt ∷ []) (busy.messages) 4 ≡ some r)
    × ((handle_events (r.events) (begin_run busy)).messages ≡ r.messages)
    × ((later : List AgentMessage) × (r.messages ≡ busy.messages ++ (prompt ∷ [] ++ later)))
    × ((handle_events (r.events) (begin_run busy)).is_streaming ≡ false)
handle_events-agent_loop_example =
    handle_events-agent_loop config (λ (n : ℕ). n) config-IsPatient config-KeepsProtocol 10
      (prompt ∷ []) 4 busy (omega arith)
