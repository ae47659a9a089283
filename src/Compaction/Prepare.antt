-- ===== src/Compaction/Prepare.antt =====
-- What a compaction summarizes and what it keeps: `prepareCompaction`
-- (packages/coding-agent/src/core/compaction/compaction.ts).
pub mod Partition
use co_mono.Base.{
  ℕ, zero, suc, ◌+◌, ◌-◌, ◌≤◌, ◌<◌, ◌≡◌, ◌≢◌, ◌∙◌, refl, sym, ap, subst, Bool, true, false, Option,
  none, some, List, [], ◌∷◌, ◌++◌, String, str_eq, get_or_else, if◌then◌else◌, reverse, length,
  get_elem?, take, drop, last?, arith,
}
use co_mono.Message.{
  AgentMessage, create_branch_summary_message, create_compaction_summary_message,
  create_custom_message,
}
use co_mono.Session.Entry.{Body, message, custom_message, branch_summary, compaction, SessionEntry}
use co_mono.Compaction.Tokens.{ContextUsageEstimate, estimate_context_tokens, CompactionSettings}
use co_mono.Compaction.CutPoint.{CutPointResult, history_end, find_cut_point}
use co_mono.Compaction.Files.{Runtime, FileOperations, extract_all, extract_file_operations}

pub record CompactionPreparation : Type 0 where
  pub first_kept_entry_id : String
  pub messages_to_summarize : List AgentMessage
  pub turn_prefix_messages : List AgentMessage
  pub is_split_turn : Bool
  pub tokens_before : ℕ
  pub previous_summary : Option String
  pub file_ops : FileOperations
  pub settings : CompactionSettings

abbrev pub is_compaction : SessionEntry → Bool
is_compaction e = elim (e.body) [ compaction _ _ _ _ _ _ ↦ true | _ ↦ false ]

-- The loop for `prevCompactionIndex`, from the last entry back; none is -1.
abbrev pub previous_compaction : List SessionEntry → Option ℕ
previous_compaction [] = none
previous_compaction (e ∷ older) =
    let further = previous_compaction older in
    if is_compaction e then some (length older) else further

abbrev pub boundary_start : Option ℕ → ℕ
boundary_start none = 0
boundary_start (some i) = suc i

abbrev entry_at : List SessionEntry → Option ℕ → Option SessionEntry
entry_at entries none = none
entry_at entries (some i) = get_elem? entries i

abbrev summary_of : Option SessionEntry → Option String
summary_of none = none
summary_of (some e) = elim (e.body) [ compaction summary _ _ _ _ _ ↦ some summary | _ ↦ none ]

abbrev pub ends_in_compaction : Option SessionEntry → Bool
ends_in_compaction none = false
ends_in_compaction (some e) = is_compaction e

-- The entries from `i` up to `j`.
abbrev pub range : ℕ → ℕ → List SessionEntry → List SessionEntry
range i j entries = take (j - i) (drop i entries)

module _ (runtime : Runtime) where
  pub get_message_from_entry : SessionEntry → Option AgentMessage
  get_message_from_entry e = elim (e.body) [
    | message m ↦ some m
    | custom_message custom_type content details display ↦
        some (
          create_custom_message (runtime.get_time) custom_type content display details
            (e.timestamp))
    | branch_summary from_id summary details from_hook ↦
        some (create_branch_summary_message (runtime.get_time) summary from_id (e.timestamp))
    | compaction summary first tokens details from_hook index ↦
        some (create_compaction_summary_message (runtime.get_time) summary tokens (e.timestamp))
    | _ ↦ none
  ]

  abbrev pub push_message : Option AgentMessage → List AgentMessage → List AgentMessage
  push_message none ms = ms
  push_message (some m) ms = m ∷ ms

  -- The loops that collect messages.
  abbrev pub messages_of : List SessionEntry → List AgentMessage
  messages_of [] = []
  messages_of (e ∷ es) = push_message (get_message_from_entry e) (messages_of es)

  abbrev pub prepared :
      List SessionEntry
      → CompactionSettings
      → Option ℕ
      → CutPointResult
      → SessionEntry
      → CompactionPreparation
  prepared entries settings previous cut kept =
      let summarized = messages_of (range (boundary_start previous) (history_end cut) entries) in
      let prefix =
        if cut.is_split_turn
        then messages_of (range (history_end cut) (cut.first_kept_entry_index) entries)
        else [] in
      let ops = extract_file_operations runtime summarized (entry_at entries previous) in
      record {
        first_kept_entry_id = kept.id;
        messages_to_summarize = summarized;
        turn_prefix_messages = prefix;
        is_split_turn = cut.is_split_turn;
        tokens_before =
            (estimate_context_tokens (messages_of (drop (get_or_else previous 0) entries))).tokens;
        previous_summary = summary_of (entry_at entries previous);
        file_ops = extract_all runtime prefix ops;
        settings = settings;
      }

  abbrev pub prepare_from :
      List SessionEntry
      → CompactionSettings
      → Option ℕ
      → CutPointResult
      → Option SessionEntry
      → Option CompactionPreparation
  prepare_from entries settings previous cut none = none
  prepare_from entries settings previous cut (some kept) =
      if str_eq (kept.id) "" then none else some (prepared entries settings previous cut kept)

  abbrev pub prepare_at :
      List SessionEntry
      → CompactionSettings
      → Option ℕ
      → Option CutPointResult
      → Option CompactionPreparation
  prepare_at entries settings previous none = none
  prepare_at entries settings previous (some cut) =
      prepare_from entries settings previous cut (get_elem? entries (cut.first_kept_entry_index))

  -- `find_cut_point` has no result only past the end of the entries, where this does not look.
  pub prepare_compaction : List SessionEntry → CompactionSettings → Option CompactionPreparation
  unfolding get_message_from_entry estimate_context_tokens find_cut_point extract_file_operations
  prepare_compaction entries settings =
      let previous = previous_compaction (reverse entries) in
      if ends_in_compaction (last? entries)
      then none
      else prepare_at entries settings previous (
          find_cut_point entries (boundary_start previous) (length entries)
            (settings.keep_recent_tokens))
