-- ===== src/Compaction/Files.antt =====
-- The files that a conversation read and changed (packages/coding-agent/src/core/compaction/utils.ts and
-- compaction.ts). A set is the list of its members in the order in which they came.
use co_mono.Base.{
  ℕ, Bool, false, Option, none, some, List, [], ◌∷◌, ◌++◌, String, str_eq, any, get_or_else,
  if◌then◌else◌,
}
use co_mono.Message.{Json, AgentMessage, AssistantBlock, assistant}
use co_mono.Session.Entry.{compaction, SessionEntry}

-- What `JSON.parse` made of a value: `args.path` where it is a string, and the arrays `readFiles` and
-- `modifiedFiles` of a summary's details, empty where they are no arrays. `get_time` is
-- `new Date(timestamp).getTime()`.
pub record Runtime : Type 0 where
  pub path_argument : Json → Option String
  pub read_details : Json → List String
  pub modified_details : Json → List String
  pub get_time : String → ℕ

pub record FileOperations : Type 0 where
  pub read : List String
  pub written : List String
  pub edited : List String

abbrev pub create_file_ops : FileOperations
create_file_ops = record { read = []; written = []; edited = [] }

-- `set.add(x)`
abbrev pub set_add : String → List String → List String
set_add x xs = if any (λ y. str_eq y x) xs then xs else xs ++ x ∷ []

abbrev pub set_add_all : List String → List String → List String
set_add_all [] xs = xs
set_add_all (y ∷ ys) xs = set_add_all ys (set_add y xs)

-- The switch over the tool's name.
abbrev record_path : String → Option String → FileOperations → FileOperations
record_path name none ops = ops
record_path name (some path) ops =
    if str_eq path ""
    then ops
    else if str_eq name "read"
    then record ops { read = set_add path (ops.read) }
    else if str_eq name "write"
    then record ops { written = set_add path (ops.written) }
    else if str_eq name "edit"
    then record ops { edited = set_add path (ops.edited) }
    else ops

module _ (runtime : Runtime) where
  abbrev extract_blocks : List AssistantBlock → FileOperations → FileOperations
  extract_blocks [] ops = ops
  extract_blocks (AssistantBlock.tool_call call ∷ blocks) ops =
      extract_blocks blocks (record_path (call.name) (runtime.path_argument (call.arguments)) ops)
  extract_blocks (_ ∷ blocks) ops = extract_blocks blocks ops

  pub extract_file_ops_from_message : AgentMessage → FileOperations → FileOperations
  extract_file_ops_from_message (assistant m) ops = extract_blocks (m.content) ops
  extract_file_ops_from_message _ ops = ops

  abbrev pub extract_all : List AgentMessage → FileOperations → FileOperations
  extract_all [] ops = ops
  extract_all (m ∷ ms) ops = extract_all ms (extract_file_ops_from_message m ops)

  abbrev details_ops : Bool → Option Json → FileOperations
  details_ops false (some details) = record {
    read = set_add_all (runtime.read_details details) [];
    written = [];
    edited = set_add_all (runtime.modified_details details) [];
  }
  details_ops _ _ = create_file_ops

  -- The files of the previous compaction's details, if no hook made them.
  abbrev previous_ops : Option SessionEntry → FileOperations
  previous_ops none = create_file_ops
  previous_ops (some e) = elim (e.body) [
    | compaction summary first tokens details from_hook index ↦
        details_ops (get_or_else from_hook false) details
    | _ ↦ create_file_ops
  ]

  -- `previous` is the entry at `prevCompactionIndex`.
  unfoldable pub extract_file_operations :
      List AgentMessage → (previous : Option SessionEntry) → FileOperations
  unfolding extract_file_ops_from_message
  extract_file_operations messages previous = extract_all messages (previous_ops previous)
