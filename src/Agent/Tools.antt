-- ===== src/Agent/Tools.antt =====
-- `executeToolCalls` and `skipToolCall` of packages/agent/src/agent-loop.ts.
use co_mono.Base.{
  ℕ, ◌≡◌, ◌∙◌, refl, ap, String, str_append, Bool, true, false, some, List, [], ◌∷◌, ◌++◌, map,
  length, ltb, if◌then◌else◌,
}
use co_mono.Message.{
  unsigned, UserBlock, blocks, ToolCall, ToolResultMessage, AgentMessage, tool_result,
}
use co_mono.Agent.Event.{
  ToolResult, AgentEvent, message_start, message_end, tool_execution_start, tool_execution_update,
  tool_execution_end, ToolEnd, returned, threw, ToolRun, AgentLoopConfig, ended, ended-append,
}

-- What a tool call leaves in the messages; `{}` is the empty object.
result_message : ToolCall → ToolResult → Bool → ℕ → ToolResultMessage
result_message call result is_error now = record {
  tool_call_id = call.id;
  tool_name = call.name;
  content = result.content;
  details = result.details;
  is_error = is_error;
  timestamp = now;
}

abbrev error_result : String → ToolResult
error_result message = record {
  content = blocks (UserBlock.text (unsigned message) ∷ []);
  details = some "{}";
}

-- The events from `tool_execution_end` to the result message.
report : ToolCall → ToolResult → Bool → ToolResultMessage → List AgentEvent
report call result is_error message =
    tool_execution_end (call.id) (call.name) result is_error
    ∷ message_start (tool_result message)
    ∷ message_end (tool_result message)
    ∷ []

abbrev pub started : ToolCall → AgentEvent
started call = tool_execution_start (call.id) (call.name) (call.arguments)

abbrev updated : ToolCall → ToolResult → AgentEvent
updated call partial = tool_execution_update (call.id) (call.name) (call.arguments) partial

-- The result of a run, and whether it is an error: the `try` and its `catch`.
outcome : ToolEnd → ToolResult × Bool
outcome (returned result) = (result, false)
outcome (threw message) = (error_result message, true)

skip_tool_call : ℕ → ToolCall → ToolResultMessage × List AgentEvent
unfolding result_message report
skip_tool_call now call =
    let result = error_result "Skipped due to queued user message." in
    let message = result_message call result true now in
    (message, started call ∷ report call result true message)

-- The tool calls behind the one after which a steering message came.
skip_tool_calls : ℕ → List ToolCall → List ToolResultMessage × List AgentEvent
unfolding skip_tool_call
skip_tool_calls now [] = ([], [])
skip_tool_calls now (call ∷ calls) =
    let (message, events) = skip_tool_call now call in
    let (messages, later) = skip_tool_calls now calls in (message ∷ messages, events ++ later)

pub record Execution (World : Type 0) : Type 0 where
  pub tool_results : List ToolResultMessage
  pub steering_messages : List AgentMessage
  pub events : List AgentEvent
  pub world : World

module _ (config : AgentLoopConfig) where
  -- A tool that is not there throws before anything runs.
  unfoldable pub run_call : ToolCall → config.World → ToolRun × config.World
  run_call call w =
      let run = config.run_tool call w in
      if config.has_tool (call.name) then run else (
        record {
          updates = [];
          ending = threw (str_append (str_append "Tool " (call.name)) " not found");
        },
        w,
      )

  -- One round of the loop, up to the poll for steering messages.
  unfoldable pub execute_tool_call :
      ToolCall → config.World → ToolResultMessage × List AgentEvent × config.World
  unfolding result_message report outcome run_call
  execute_tool_call call w =
      let (run, w') = run_call call w in
      let (result, is_error) = outcome (run.ending) in
      let message = result_message call result is_error (config.date_now w') in
      (
        message,
        started call ∷ map (updated call) (run.updates) ++ report call result is_error message,
        w',
      )

  -- `steering_messages` is empty where the source has undefined.
  unfoldable pub execute_tool_calls : List ToolCall → config.World → Execution (config.World)
  unfolding execute_tool_call skip_tool_calls
  execute_tool_calls [] w = record {
    tool_results = [];
    steering_messages = [];
    events = [];
    world = w;
  }
  execute_tool_calls (call ∷ calls) w =
      let (message, events, w1) = execute_tool_call call w in
      let (steering, w2) = config.get_steering_messages w1 in
      let (skipped, skip_events) = skip_tool_calls (config.date_now w2) calls in
      let rest = execute_tool_calls calls w2 in
      if ltb 0 (length steering)
      then record {
        tool_results = message ∷ skipped;
        steering_messages = steering;
        events = events ++ skip_events;
        world = w2;
      }
      else record {
        tool_results = message ∷ rest.tool_results;
        steering_messages = rest.steering_messages;
        events = events ++ rest.events;
        world = rest.world;
      }

-- A message answers a tool call.
abbrev Answers : List ToolCall → List ToolResultMessage → Type 0
Answers [] [] = Unit
Answers [] (_ ∷ _) = ⊥
Answers (_ ∷ _) [] = ⊥
Answers (call ∷ calls) (message ∷ messages) =
    (message.tool_call_id ≡ call.id) × (message.tool_name ≡ call.name) × Answers calls messages

ended-updated :
    (call : ToolCall) (updates : List ToolResult) (es : List AgentEvent)
    → ended (map (updated call) updates ++ es) ≡ ended es
ended-updated call [] es = refl
ended-updated call (u ∷ us) es = ended-updated call us es

skip_tool_calls-Answers :
    (now : ℕ) (calls : List ToolCall)
    → Answers calls (skip_tool_calls now calls).0
      × (ended (skip_tool_calls now calls).1 ≡ map tool_result (skip_tool_calls now calls).0)
unfolding skip_tool_calls skip_tool_call result_message report
skip_tool_calls-Answers now [] = (tt, refl)
skip_tool_calls-Answers now (call ∷ calls) =
    let ih = skip_tool_calls-Answers now calls in
    let (message, events) = skip_tool_call now call in
    ((refl, refl, ih.0), ap (tool_result message ∷◌) (ih.1))

-- Every call has one answer, in order, and the events end exactly the answers.
abbrev pub Answered : {World : Type 0} → List ToolCall → Execution World → Type 0
Answered calls x =
    Answers calls (x.tool_results) × (ended (x.events) ≡ map tool_result (x.tool_results))

if-Answered :
    {World : Type 0} (calls : List ToolCall) (b : Bool) (x y : Execution World)
    → Answered calls x
    → Answered calls y
    → Answered calls (if b then x else y)
if-Answered calls true x y h k = h
if-Answered calls false x y h k = k

module _ (config : AgentLoopConfig) where
  execute_tool_call-ended :
      (call : ToolCall) (w : config.World) (es : List AgentEvent)
      → ended ((execute_tool_call config call w).1 ++ es)
        ≡ tool_result ((execute_tool_call config call w).0) ∷ ended es
  unfolding execute_tool_call report
  execute_tool_call-ended call w es =
      let (run, w') = run_call config call w in
      let (result, is_error) = outcome (run.ending) in
      let message = result_message call result is_error (config.date_now w') in
      let told = report call result is_error message in
      ended-append (map (updated call) (run.updates) ++ told) es
      ∙ ap (λ ms. ms ++ ended es) (ended-updated call (run.updates) told)

  execute_tool_call-names :
      (call : ToolCall) (w : config.World)
      → ((execute_tool_call config call w).0.tool_call_id ≡ call.id)
        × ((execute_tool_call config call w).0.tool_name ≡ call.name)
  unfolding execute_tool_call
  execute_tool_call-names call w = (refl, refl)

  -- Every tool call of a message gets exactly one answer, in the order of the calls and under the call's
  -- id and name, whether its tool runs, throws, is missing or is skipped because a steering message came;
  -- and the events that are pushed end exactly these answers, in that order.
  pub execute_tool_calls-Answers :
      (calls : List ToolCall) (w : config.World)
      → Answered calls (execute_tool_calls config calls w)
  unfolding execute_tool_calls
  execute_tool_calls-Answers [] w = (tt, refl)
  execute_tool_calls-Answers (call ∷ calls) w =
      let (message, events, w1) = execute_tool_call config call w in
      let (steering, w2) = config.get_steering_messages w1 in
      let (skipped, skip_events) = skip_tool_calls (config.date_now w2) calls in
      let rest = execute_tool_calls config calls w2 in
      let names = execute_tool_call-names call w in
      let skips = skip_tool_calls-Answers (config.date_now w2) calls in
      let ih = execute_tool_calls-Answers calls w2 in
      if-Answered (call ∷ calls) (ltb 0 (length steering))
        (record {
          tool_results = message ∷ skipped;
          steering_messages = steering;
          events = events ++ skip_events;
          world = w2;
        })
        (record {
          tool_results = message ∷ rest.tool_results;
          steering_messages = rest.steering_messages;
          events = events ++ rest.events;
          world = rest.world;
        })
        (
          (names.0, names.1, skips.0),
          execute_tool_call-ended call w skip_events ∙ ap (tool_result message ∷◌) (skips.1),
        )
        (
          (names.0, names.1, ih.0),
          execute_tool_call-ended call w (rest.events) ∙ ap (tool_result message ∷◌) (ih.1),
        )
