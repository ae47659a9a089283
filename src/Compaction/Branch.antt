-- ===== src/Compaction/Branch.antt =====
-- The messages and the files of a branch that the session leaves: `prepareBranchEntries`
-- (packages/coding-agent/src/core/compaction/branch-summarization.ts).
mod Budget
mod Collect
use co_mono.Base.{
  ℕ, zero, suc, ◌+◌, ◌*◌, Bool, true, false, Option, none, some, List, [], ◌∷◌, ◌++◌, String, ltb,
  get_or_else, if◌then◌else◌, if-both, reverse, arith,
}
use co_mono.Message.{
  Json, AgentMessage, tool_result, create_branch_summary_message, create_compaction_summary_message,
  create_custom_message,
}
use co_mono.Session.Entry.{message, custom_message, branch_summary, compaction, SessionEntry}
use co_mono.Compaction.Tokens.{estimate_tokens}
use co_mono.Compaction.Files.{
  Runtime, FileOperations, create_file_ops, set_add_all, extract_file_ops_from_message,
}

pub record BranchPreparation : Type 0 where
  pub messages : List AgentMessage
  pub file_ops : FileOperations
  pub total_tokens : ℕ

-- Whether an entry is the summary of a compaction or of a branch.
abbrev pub is_summary : SessionEntry → Bool
is_summary e = elim (e.body) [
  | compaction _ _ _ _ _ _ ↦ true
  | branch_summary _ _ _ _ ↦ true
  | _ ↦ false
]

-- The budget is 0 for no limit.
abbrev pub is_over : (token_budget total : ℕ) → Bool
is_over token_budget total = if ltb 0 token_budget then ltb token_budget total else false

-- `messages.unshift(message)` with its tokens.
abbrev pub unshift : AgentMessage → BranchPreparation → BranchPreparation
unshift m p = record p {
  messages = m ∷ p.messages;
  total_tokens = p.total_tokens + estimate_tokens m;
}

-- What one round of the second pass leaves, and whether a round follows.
pub record Round : Type 0 where
  pub preparation : BranchPreparation
  pub goes_on : Bool

-- `totalTokens < tokenBudget * 0.9`, in whole numbers.
abbrev pub fits_summary : ℕ → SessionEntry → BranchPreparation → Bool
fits_summary token_budget e p =
    if is_summary e then ltb (10 * p.total_tokens) (9 * token_budget) else false

abbrev pub add_message : ℕ → SessionEntry → AgentMessage → BranchPreparation → Round
add_message token_budget e m p =
    if is_over token_budget (p.total_tokens + estimate_tokens m)
    then record {
      preparation = if fits_summary token_budget e p then unshift m p else p;
      goes_on = false;
    }
    else record { preparation = unshift m p; goes_on = true }

abbrev said_message : AgentMessage → Option AgentMessage
said_message (tool_result m) = none
said_message m = some m

module _ (runtime : Runtime) where
  -- `getMessageFromEntry` of this file: results of tools are skipped.
  unfoldable pub get_entry_message : SessionEntry → Option AgentMessage
  get_entry_message e = elim (e.body) [
    | message m ↦ said_message m
    | custom_message custom_type content details display ↦
        some (
          create_custom_message (runtime.get_time) custom_type content display details
            (e.timestamp))
    | branch_summary from_id summary details from_hook ↦
        some (create_branch_summary_message (runtime.get_time) summary from_id (e.timestamp))
    | compaction summary first tokens details from_hook index ↦
        some (create_compaction_summary_message (runtime.get_time) summary tokens (e.timestamp))
    | _ ↦ none
  ]

  abbrev add_details : Bool → Option Json → FileOperations → FileOperations
  add_details false (some details) ops = record ops {
    read = set_add_all (runtime.read_details details) (ops.read);
    edited = set_add_all (runtime.modified_details details) (ops.edited);
  }
  add_details _ _ ops = ops

  -- The first pass.
  unfoldable pub collect_details : List SessionEntry → FileOperations → FileOperations
  collect_details [] ops = ops
  collect_details (e ∷ es) ops = collect_details es (elim (e.body) [
    | branch_summary from_id summary details from_hook ↦
        add_details (get_or_else from_hook false) details ops
    | _ ↦ ops
  ])

  abbrev pub record_files : AgentMessage → BranchPreparation → BranchPreparation
  record_files m p = record p { file_ops = extract_file_ops_from_message runtime m (p.file_ops) }

  abbrev pub round : ℕ → SessionEntry → Option AgentMessage → BranchPreparation → Round
  round token_budget e none p = record { preparation = p; goes_on = true }
  round token_budget e (some m) p = add_message token_budget e m (record_files m p)

  -- The second pass, over the entries from the last one back.
  unfoldable pub add_messages : ℕ → List SessionEntry → BranchPreparation → BranchPreparation
  add_messages token_budget [] p = p
  add_messages token_budget (e ∷ older) p =
      let r = round token_budget e (get_entry_message e) p in
      let rest = add_messages token_budget older (r.preparation) in
      if r.goes_on then rest else r.preparation

  unfoldable pub prepare_branch_entries : List SessionEntry → (token_budget : ℕ) → BranchPreparation
  prepare_branch_entries entries token_budget =
      add_messages token_budget (reverse entries) (record {
        messages = [];
        file_ops = collect_details entries create_file_ops;
        total_tokens = 0;
      })
