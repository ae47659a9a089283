-- ===== src/Message.antt =====
-- The messages of a conversation: packages/ai/src/types.ts, the roles that
-- packages/coding-agent/src/core/messages.ts adds, and the constructors of that file.
-- A value of type `unknown` or `any` is kept as its JSON text, which nothing inspects.
use co_mono.Base.{ℕ, String, Bool, Option, none, List}

abbrev pub Json : Type 0
Json = String

pub record TextContent : Type 0 where
  pub text : String
  pub text_signature : Option String

pub record ThinkingContent : Type 0 where
  pub thinking : String
  pub thinking_signature : Option String
  pub redacted : Option Bool

-- `{ type: "text", text }`
abbrev pub unsigned : String → TextContent
unsigned s = record { text = s; text_signature = none }

-- `TextContent | ImageContent`; an image is its data and its MIME type.
pub data UserBlock : Type 0 where
  text : TextContent → UserBlock
  image : String → String → UserBlock

-- `string | (TextContent | ImageContent)[]`
pub data UserContent : Type 0 where
  plain : String → UserContent
  blocks : List UserBlock → UserContent

pub record ToolCall : Type 0 where
  pub id : String
  pub name : String
  pub arguments : Json
  pub thought_signature : Option String

pub data AssistantBlock : Type 0 where
  text : TextContent → AssistantBlock
  thinking : ThinkingContent → AssistantBlock
  tool_call : ToolCall → AssistantBlock

pub data StopReason : Type 0 where
  stop length tool_use error aborted : StopReason

-- The token counts; the cost in dollars is left out.
pub record Usage : Type 0 where
  pub input : ℕ
  pub output : ℕ
  pub cache_read : ℕ
  pub cache_write : ℕ
  pub total_tokens : ℕ

pub record AssistantMessage : Type 0 where
  pub content : List AssistantBlock
  pub api : String
  pub provider : String
  pub model : String
  pub usage : Option Usage
  pub stop_reason : StopReason
  pub error_message : Option String
  pub timestamp : ℕ

pub record ToolResultMessage : Type 0 where
  pub tool_call_id : String
  pub tool_name : String
  pub content : UserContent
  pub details : Option Json
  pub is_error : Bool
  pub timestamp : ℕ

pub record BashExecutionMessage : Type 0 where
  pub command : String
  pub output : String
  pub exit_code : Option ℕ
  pub cancelled : Bool
  pub truncated : Bool
  pub full_output_path : Option String
  pub timestamp : ℕ
  pub exclude_from_context : Bool

pub record CustomMessage : Type 0 where
  pub custom_type : String
  pub content : UserContent
  pub display : Bool
  pub details : Option Json
  pub timestamp : ℕ

pub record BranchSummaryMessage : Type 0 where
  pub summary : String
  pub from_id : String
  pub timestamp : ℕ

pub record CompactionSummaryMessage : Type 0 where
  pub summary : String
  pub tokens_before : ℕ
  pub timestamp : ℕ

-- `hook_message` is the role that session files of version 2 and older hold in place of `custom`.
pub data AgentMessage : Type 0 where
  user : UserContent → ℕ → AgentMessage
  assistant : AssistantMessage → AgentMessage
  tool_result : ToolResultMessage → AgentMessage
  bash_execution : BashExecutionMessage → AgentMessage
  custom : CustomMessage → AgentMessage
  branch_summary : BranchSummaryMessage → AgentMessage
  compaction_summary : CompactionSummaryMessage → AgentMessage
  hook_message : CustomMessage → AgentMessage

-- `new Date(timestamp).getTime()` is a function of the JavaScript runtime: a parameter.
module _ (get_time : String → ℕ) where
  pub create_branch_summary_message : String → String → String → AgentMessage
  create_branch_summary_message summary from_id timestamp =
      branch_summary
        (record { summary = summary; from_id = from_id; timestamp = get_time timestamp })

  pub create_compaction_summary_message : String → ℕ → String → AgentMessage
  create_compaction_summary_message summary tokens_before timestamp =
      compaction_summary (record {
        summary = summary;
        tokens_before = tokens_before;
        timestamp = get_time timestamp;
      })

  pub create_custom_message : String → UserContent → Bool → Option Json → String → AgentMessage
  create_custom_message custom_type content display details timestamp = custom (record {
    custom_type = custom_type;
    content = content;
    display = display;
    details = details;
    timestamp = get_time timestamp;
  })
