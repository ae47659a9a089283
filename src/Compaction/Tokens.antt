-- ===== src/Compaction/Tokens.antt =====
-- The estimates of tokens in packages/coding-agent/src/core/compaction/compaction.ts.
use Prim.Native.Char.{Char, code}
use co_mono.Base.{
  ℕ, suc, ◌+◌, ◌/◌, String, Bool, true, false, not, Option, none, some, List, [], ◌∷◌, ltb, ◌==◌,
  if◌then◌else◌, to_chars, drop, reverse, length,
}
use co_mono.Message.{
  UserBlock, image, UserContent, plain, blocks, AssistantBlock, thinking, tool_call, StopReason,
  error, aborted, Usage, AgentMessage, user, assistant, tool_result, bash_execution, custom,
  branch_summary, compaction_summary, hook_message,
}

-- `s.length` counts UTF-16 units: a character above 0xffff has two.
count_units : List Char → ℕ
count_units [] = 0
count_units (c ∷ cs) =
    let rest = count_units cs in if ltb 0xffff (code c) then 2 + rest else 1 + rest

units : String → ℕ
unfolding count_units
units s = count_units (to_chars s)

-- `Math.ceil(chars / 4)`
abbrev to_tokens : ℕ → ℕ
to_tokens chars = (chars + 3) / 4

-- The blocks of a content; `per_image` is what an image counts.
block_chars : (per_image : ℕ) → List UserBlock → ℕ
unfolding units
block_chars per_image [] = 0
block_chars per_image (UserBlock.text c ∷ bs) = units (c.text) + block_chars per_image bs
block_chars per_image (image _ _ ∷ bs) = per_image + block_chars per_image bs

content_chars : (per_image : ℕ) → UserContent → ℕ
unfolding units block_chars
content_chars per_image (plain s) = units s
content_chars per_image (blocks bs) = block_chars per_image bs

-- The arguments of a tool call are kept as the text that `JSON.stringify` makes.
assistant_chars : List AssistantBlock → ℕ
unfolding units
assistant_chars [] = 0
assistant_chars (AssistantBlock.text c ∷ bs) = units (c.text) + assistant_chars bs
assistant_chars (thinking c ∷ bs) = units (c.thinking) + assistant_chars bs
assistant_chars (tool_call c ∷ bs) = units (c.name) + units (c.arguments) + assistant_chars bs

unfoldable pub estimate_tokens : AgentMessage → ℕ
unfolding units content_chars assistant_chars
estimate_tokens (user content _) = to_tokens (content_chars 0 content)
estimate_tokens (assistant m) = to_tokens (assistant_chars (m.content))
estimate_tokens (custom m) = to_tokens (content_chars 4800 (m.content))
estimate_tokens (tool_result m) = to_tokens (content_chars 4800 (m.content))
estimate_tokens (bash_execution m) = to_tokens (units (m.command) + units (m.output))
estimate_tokens (branch_summary m) = to_tokens (units (m.summary))
estimate_tokens (compaction_summary m) = to_tokens (units (m.summary))
estimate_tokens (hook_message _) = 0

-- `usage.totalTokens || …`: 0 is false.
calculate_context_tokens : Usage → ℕ
calculate_context_tokens u =
    if u.total_tokens == 0
    then u.input + u.output + u.cache_read + u.cache_write
    else u.total_tokens

abbrev has_usage : StopReason → Bool
has_usage aborted = false
has_usage error = false
has_usage _ = true

get_assistant_usage : AgentMessage → Option Usage
get_assistant_usage (assistant m) = if has_usage (m.stop_reason) then m.usage else none
get_assistant_usage _ = none

sum_tokens : List AgentMessage → ℕ
unfolding estimate_tokens
sum_tokens [] = 0
sum_tokens (m ∷ ms) = estimate_tokens m + sum_tokens ms

pub record ContextUsageEstimate : Type 0 where
  pub tokens : ℕ
  pub usage_tokens : ℕ
  pub trailing_tokens : ℕ
  pub last_usage_index : Option ℕ

-- The messages from the last back to the first.
get_last_assistant_usage_info : List AgentMessage → Option (Usage × ℕ)
unfolding get_assistant_usage
get_last_assistant_usage_info [] = none
get_last_assistant_usage_info (m ∷ older) =
    let earlier = get_last_assistant_usage_info older in
    elim (get_assistant_usage m) [ none ↦ earlier | some u ↦ some (u, length older) ]

estimate_from : List AgentMessage → Option (Usage × ℕ) → ContextUsageEstimate
unfolding sum_tokens calculate_context_tokens
estimate_from ms none = record {
  tokens = sum_tokens ms;
  usage_tokens = 0;
  trailing_tokens = sum_tokens ms;
  last_usage_index = none;
}
estimate_from ms (some (u, i)) = record {
  tokens = calculate_context_tokens u + sum_tokens (drop (suc i) ms);
  usage_tokens = calculate_context_tokens u;
  trailing_tokens = sum_tokens (drop (suc i) ms);
  last_usage_index = some i;
}

unfoldable pub estimate_context_tokens : List AgentMessage → ContextUsageEstimate
unfolding estimate_from get_last_assistant_usage_info
estimate_context_tokens ms = estimate_from ms (get_last_assistant_usage_info (reverse ms))

pub record CompactionSettings : Type 0 where
  pub enabled : Bool
  pub reserve_tokens : ℕ
  pub keep_recent_tokens : ℕ

-- `contextTokens > contextWindow - reserveTokens`, where the difference may be negative.
should_compact : (context_tokens context_window : ℕ) → CompactionSettings → Bool
should_compact context_tokens context_window settings =
    if not (settings.enabled)
    then false
    else ltb context_window (context_tokens + settings.reserve_tokens)
