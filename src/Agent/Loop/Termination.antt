-- ===== src/Agent/Loop/Termination.antt =====
-- The agent loop comes to an end when its surroundings are patient only so long
-- (packages/agent/src/agent-loop.ts).
use co_mono.Base.{
  ℕ, zero, suc, ◌+◌, ◌*◌, ◌≤◌, ◌<◌, ◌≡◌, refl, sym, ap, subst, Bool, true, false, Option, none,
  some, List, [], ◌∷◌, ◌++◌, append-nil, last?, length, ltb, if-both, or-cases, inl, inr,
  if◌then◌else◌, ◌||◌, arith,
}
use co_mono.Message.{ToolCall, AssistantMessage, AgentMessage, assistant}
use co_mono.Agent.Event.{AgentEvent, agent_start, turn_start, AgentLoopConfig, ended}
use co_mono.Agent.Tools.{Execution, run_call, execute_tool_call, execute_tool_calls}
use co_mono.Agent.Loop.Account.{
  KeepsProtocol, Closed, Closes, run_loop-Closes, enter_loop-IsAccounted, ended-announce,
}
use co_mono.Agent.Loop.{
  LoopState, some_messages, announce, start_turn, inject_pending, end_loop, respond, is_stopped,
  poll_steering, use_tools, tool_calls, turn, run_loop, enter_loop, agent_loop, Continued, refused,
  running, continue_from, agent_loop_continue,
}

-- `patience` never grows; an answer that calls tools, a steering message and a follow-up message each
-- cost some.
pub record IsPatient (config : AgentLoopConfig) (patience : config.World → ℕ) : Type 0 where
  pub stream :
      (ms : List AgentMessage) (w : config.World) → patience ((config.stream ms w).1) ≤ patience w
  pub tools :
      (ms : List AgentMessage) (w : config.World)
      → ltb 0 (length (tool_calls ((config.stream ms w).0.result.content))) ≡ true
      → patience ((config.stream ms w).1) < patience w
  pub run :
      (call : ToolCall) (w : config.World) → patience ((config.run_tool call w).1) ≤ patience w
  pub poll : (w : config.World) → patience ((config.get_steering_messages w).1) ≤ patience w
  pub steering :
      (w : config.World)
      → some_messages ((config.get_steering_messages w).0) ≡ true
      → patience ((config.get_steering_messages w).1) < patience w
  pub follow_up :
      (w : config.World)
      → some_messages ((config.get_follow_up_messages w).0) ≡ true
      → patience ((config.get_follow_up_messages w).1) < patience w

-- A turn that was due is over, and the next is due only if some patience was spent.
turned :
    (p p' fuel : ℕ) (due next : Bool)
    → due ≡ true
    → 2 * p + (if due then 1 else 0) < suc fuel
    → (p' ≤ p) × (next ≡ true → p' < p)
    → 2 * p' + (if next then 1 else 0) < fuel
turned p p' fuel true true active enough spent = omega (arith, enough, spent.1 refl)
turned p p' fuel true false active enough spent = omega (arith, enough, spent.0)
turned p p' fuel false next active enough spent = absurd (cc (active))

module _ (config : AgentLoopConfig) (patience : config.World → ℕ)
    (h : IsPatient config patience) where
  execute_tool_call-patience :
      (call : ToolCall) (w : config.World)
      → patience ((execute_tool_call config call w).2) ≤ patience w
  unfolding execute_tool_call run_call
  execute_tool_call-patience call w =
      if-both (λ (r : _ × config.World). patience (r.1) ≤ patience w) (config.has_tool (call.name))
        (λ _. h.run call w) (λ _. omega arith)

  -- Where a steering message came, the poll for it cost some.
  abbrev Spends : config.World → config.World → Bool → Type 0
  Spends w w' more = (patience w' ≤ patience w) × (more ≡ true → patience w' < patience w)

  execute_tool_calls-Spends :
      (calls : List ToolCall) (w : config.World)
      → Spends w
          ((execute_tool_calls config calls w).world)
          (some_messages ((execute_tool_calls config calls w).steering_messages))
  unfolding execute_tool_calls
  execute_tool_calls-Spends [] w = (omega arith, λ e. absurd (cc))
  execute_tool_calls-Spends (call ∷ calls) w =
      let (message, events, w1) = execute_tool_call config call w in
      let (steering, w2) = config.get_steering_messages w1 in
      let ran = execute_tool_call-patience call w in
      let polled = h.poll w1 in
      let ih = execute_tool_calls-Spends calls w2 in
      if-both
        (λ (x : Execution (config.World)). Spends w (x.world) (some_messages (x.steering_messages)))
        (ltb 0 (length steering)) (λ e. (omega arith, λ _. omega (arith, h.steering w1 e)))
        (λ _. (omega (arith, ih.0), λ e. omega (arith, ih.1 e)))

  -- What is left of a turn that has been answered: whether it goes on.
  is_active : LoopState (config.World) → Bool
  is_active st = st.has_more_tool_calls || some_messages (st.pending_messages)

  use_tools-Spends :
      (message : AssistantMessage) (st : LoopState (config.World)) (w : config.World)
      → Spends w (st.world) (ltb 0 (length (tool_calls (message.content))))
      → Spends w ((use_tools config message st).world) (is_active (use_tools config message st))
  unfolding use_tools poll_steering is_active
  use_tools-Spends message st w before =
      let calls = tool_calls (message.content) in
      let x = execute_tool_calls config calls (st.world) in
      let spent = execute_tool_calls-Spends calls (st.world) in
      let polled = h.poll (x.world) in
      if-both (λ (s : LoopState (config.World)). Spends w (s.world) (is_active s))
        (some_messages (x.steering_messages))
        (λ e. (omega (arith, before.0, spent.0), λ _. omega (arith, before.0, spent.1 e)))
        (λ _. (
          omega (arith, before.0, spent.0),
          λ active.
              elim (or-cases (ltb 0 (length calls))
                (some_messages ((config.get_steering_messages (x.world)).0)) active) [
                  | inl e ↦ omega (arith, before.1 e, spent.0)
                  | inr e ↦ omega (arith, before.0, spent.0, h.steering (x.world) e)
                ],
        ))

  respond-Spends :
      (st : LoopState (config.World))
      → Spends
          (st.world)
          ((respond config st).1.world)
          (ltb 0 (length (tool_calls ((respond config st).0.content))))
  unfolding respond
  respond-Spends st = (h.stream (st.messages) (st.world), λ e. h.tools (st.messages) (st.world) e)

  start_turn-world :
      (st : LoopState (config.World)) → (inject_pending (start_turn st)).world ≡ st.world
  unfolding start_turn inject_pending
  start_turn-world st =
      if-both (λ (s : LoopState (config.World)). s.world ≡ st.world) (st.first_turn) (λ _. refl)
        (λ _. refl)

  -- A turn that does not stop the run spends; one after which the loop goes on spends something.
  abbrev TurnSpends : LoopState (config.World) → Bool × LoopState (config.World) → Type 0
  TurnSpends st r = r.0 ≡ false → Spends (st.world) (r.1.world) (is_active (r.1))

  turn-Spends : (st : LoopState (config.World)) → TurnSpends st (turn config st)
  unfolding turn
  turn-Spends st =
      let begun = inject_pending (start_turn st) in
      let (message, st') = respond config begun in
      let spent =
        subst
          (λ (w : config.World).
            Spends w (st'.world) (ltb 0 (length (tool_calls (message.content)))))
          (start_turn-world st) (respond-Spends begun) in
      if-both (TurnSpends st) (is_stopped (message.stop_reason)) (λ _ e. absurd (cc (e)))
        (λ _ _. use_tools-Spends message st' (st.world) spent)

  -- Two rounds for each unit of patience, and one for a turn that is due.
  abbrev cost : LoopState (config.World) → ℕ
  cost st = 2 * patience (st.world) + (if is_active st then 1 else 0)

  abbrev Returns : Option (LoopState (config.World)) → Type 0
  Returns o = (r : LoopState (config.World)) × (o ≡ some r)

  run_loop-Returns :
      (fuel : ℕ) (st : LoopState (config.World))
      → cost st < fuel
      → Returns (run_loop config fuel st)
  unfolding run_loop is_active
  run_loop-Returns zero st enough = absurd (omega arith)
  run_loop-Returns (suc fuel) st enough =
      let (stopped, st') = turn config st in
      let spent = turn-Spends st in
      let (follow_up, w) = config.get_follow_up_messages (st.world) in
      let resumed = record st {
        pending_messages = follow_up;
        has_more_tool_calls = true;
        world = w;
      } in
      if-both Returns (st.has_more_tool_calls || some_messages (st.pending_messages))
        (λ active.
          if-both Returns stopped (λ _. (end_loop st', refl))
            (λ going. run_loop-Returns fuel st' (
              turned (patience (st.world)) (patience (st'.world)) fuel _ (is_active st') active
                enough (spent going))))
        (λ idle.
          if-both Returns (some_messages follow_up)
            (λ e. run_loop-Returns fuel resumed (omega (arith, enough, h.follow_up (st.world) e)))
            (λ _. (end_loop (record st { world = w }), refl)))

  -- A run that returns, and leaves what it should.
  abbrev Finishes : (base prompts : List AgentMessage) → Option (LoopState (config.World)) → Type 0
  Finishes base prompts o = (r : LoopState (config.World)) × (o ≡ some r) × Closed base prompts r

  entered-Finishes :
      (protocol : KeepsProtocol config) (fuel : ℕ) (base prompts messages : List AgentMessage)
      (es : List AgentEvent) (w : config.World)
      → messages ≡ base ++ prompts
      → ended es ≡ prompts
      → 2 * patience w + 1 < fuel
      → Finishes base prompts (run_loop config fuel (enter_loop config messages prompts es w))
  unfolding enter_loop is_active
  entered-Finishes protocol fuel base prompts messages es w e k enough =
      let st = enter_loop config messages prompts es w in
      let (r, returned) = run_loop-Returns fuel st (omega (arith, enough, h.poll w)) in
      let closes =
        run_loop-Closes config base prompts protocol fuel st
          (enter_loop-IsAccounted config base prompts protocol messages es w e k) in
      (r, returned, subst (λ o. Closes base prompts o) returned closes)

-- Suppose the provider's streams start at most once and end by `done` or `error`, and the patience of the
-- surroundings never grows and shrinks with every answer that calls tools and every steering or follow-up
-- message. With fuel for two rounds for each unit of patience a run from prompts returns. Then the context
-- is the old one followed by the new messages; the new messages begin with the prompts and are exactly
-- those that have ended, in order; and the last event hands them over.
pub agent_loop-Closed :
    (config : AgentLoopConfig) (patience : config.World → ℕ)
    → IsPatient config patience
    → KeepsProtocol config
    → (fuel : ℕ) (prompts messages : List AgentMessage) (w : config.World)
    → 2 * patience w + 1 < fuel
    → (r : LoopState (config.World)) × (agent_loop config fuel prompts messages w ≡ some r)
      × Closed messages prompts r
unfolding agent_loop
agent_loop-Closed config patience h protocol fuel prompts messages w enough =
    entered-Finishes config patience h protocol fuel messages prompts (messages ++ prompts)
      (agent_start ∷ turn_start ∷ announce prompts) w refl (ended-announce prompts) enough

-- What `agentLoopContinue` does by the last message of the context.
abbrev pub Continues :
    {World : Type 0} → List AgentMessage → Option AgentMessage → Continued World → Type 0
Continues messages none c = c ≡ refused "Cannot continue: no messages in context"
Continues messages (some (assistant _)) c =
    c ≡ refused "Cannot continue from message role: assistant"
Continues {World} messages (some _) c =
    (r : LoopState World) × (c ≡ running (some r)) × Closed messages [] r

continue_from-Continues :
    (config : AgentLoopConfig) (fuel : ℕ) (messages : List AgentMessage) (w : config.World)
    (last : Option AgentMessage) (r : LoopState (config.World))
    → run_loop config fuel (enter_loop config messages [] (agent_start ∷ turn_start ∷ []) w)
      ≡ some r
    → Closed messages [] r
    → Continues messages last (continue_from config fuel messages w last)
unfolding continue_from
continue_from-Continues config fuel messages w none r returned closed = refl
continue_from-Continues config fuel messages w (some (assistant _)) r returned closed = refl
continue_from-Continues config fuel messages w (some _) r returned closed =
    (r, ap running returned, closed)

-- Suppose the provider's streams start at most once and end by `done` or `error`, and the patience of the
-- surroundings never grows and shrinks with every answer that calls tools and every steering or follow-up
-- message, and there is fuel for two rounds for each unit of patience. Continuing refuses a context that is
-- empty or ends in an assistant message, each with its error; from any other context it returns, the
-- context is the old one followed by the new messages, these are exactly those that have ended, in order,
-- and the last event hands them over.
pub agent_loop_continue-Continues :
    (config : AgentLoopConfig) (patience : config.World → ℕ)
    → IsPatient config patience
    → KeepsProtocol config
    → (fuel : ℕ) (messages : List AgentMessage) (w : config.World) → 2 * patience w + 1 < fuel
    → Continues messages (last? messages) (agent_loop_continue config fuel messages w)
unfolding agent_loop_continue continue_from
agent_loop_continue-Continues config patience h protocol fuel messages w enough =
    let (r, returned, closed) =
      entered-Finishes config patience h protocol fuel messages [] messages
        (agent_start ∷ turn_start ∷ []) w (sym (append-nil messages)) refl enough in
    continue_from-Continues config fuel messages w (last? messages) r returned closed
