-- ===== src/Compaction/Tests.antt =====
-- Cuts of two small sessions (packages/coding-agent/src/core/compaction/compaction.ts).
use co_mono.Base.{
  ℕ, ◌≤◌, ◌<◌, ◌≡◌, refl, String, Bool, true, false, none, some, List, [], ◌∷◌, ◌++◌, reverse, drop,
  get_elem?, arith,
}
use co_mono.Message.{
  unsigned, AssistantBlock, plain, AgentMessage, user, assistant, tool_result, stop,
}
use co_mono.Session.Entry.{Body, message, model_change, SessionEntry}
use co_mono.Compaction.Tokens.{estimate_tokens, CompactionSettings}
use co_mono.Compaction.Files.{Runtime}
use co_mono.Compaction.Branch.{
  get_entry_message, collect_details, add_messages, prepare_branch_entries,
}
use co_mono.Compaction.Prepare.{
  CompactionPreparation, previous_compaction, boundary_start, messages_of, prepare_compaction,
}
use co_mono.Compaction.Prepare.Partition.{prepare_compaction-parts}
use co_mono.Compaction.CutPoint.{cut_points, walk_back, find_cut, find_cut_point}
use co_mono.Compaction.CutPoint.Valid.{CutsBefore, find_cut-CutsBefore}
use co_mono.Compaction.CutPoint.Budget.{
  tokens, Reaches, walk_back-Reaches, find_cut-late, find_cut-kept,
}

run : Bool
unfolding estimate_tokens cut_points walk_back find_cut find_cut_point get_entry_message
    collect_details add_messages prepare_branch_entries
run = true

abbrev entry_of : String → Body → SessionEntry
entry_of id body = record { id = id; parent_id = none; timestamp = "t"; body = body }

abbrev said : String → AgentMessage
said s = user (plain s) 1

abbrev answered : String → AgentMessage
answered s = assistant (record {
  content = AssistantBlock.text (unsigned s) ∷ [];
  api = "a";
  provider = "p";
  model = "m";
  usage = none;
  stop_reason = stop;
  error_message = none;
  timestamp = 1;
})

abbrev result_of : String → AgentMessage
result_of s = tool_result (record {
  tool_call_id = "c";
  tool_name = "read";
  content = plain s;
  details = none;
  is_error = false;
  timestamp = 1;
})

-- 10, 1, 0, 2 and 1 tokens
abbrev talk : List SessionEntry
talk =
    entry_of "1" (message (said "0123456789012345678901234567890123456789"))
    ∷ entry_of "2" (message (answered "abcd"))
    ∷ entry_of "3" (model_change "p" "m")
    ∷ entry_of "4" (message (said "abcdefgh"))
    ∷ entry_of "5" (message (answered "abcd"))
    ∷ []

-- It ends in a tool result of 10 tokens.
abbrev ending_in_result : List SessionEntry
ending_in_result =
    entry_of "1" (message (said "abcd"))
    ∷ entry_of "2" (message (answered "abcd"))
    ∷ entry_of "3" (message (said "abcd"))
    ∷ entry_of "4" (message (answered "abcd"))
    ∷ entry_of "5" (message (result_of "0123456789012345678901234567890123456789"))
    ∷ []

-- The change of the model goes with the message behind it.
talk_cut :
    find_cut_point talk 0 5 3
    ≡ some (record { first_kept_entry_index = 2; turn_start_index = some 0; is_split_turn = true })
unfolding run
talk_cut = refl

all_kept :
    find_cut_point ending_in_result 0 5 5
    ≡ some (record { first_kept_entry_index = 0; turn_start_index = none; is_split_turn = false })
unfolding run
all_kept = refl

past_the_end : find_cut_point talk 0 6 3 ≡ none
unfolding run
past_the_end = refl

find_cut-CutsBefore_example : (v : ℕ) × CutsBefore talk v ((find_cut 3 talk).first_kept_entry_index)
unfolding run
find_cut-CutsBefore_example = find_cut-CutsBefore 3 talk 0 (1 ∷ 3 ∷ 4 ∷ []) refl

walk_back-Reaches_example : Reaches 3 0 talk (walk_back 3 0 (reverse talk))
walk_back-Reaches_example = walk_back-Reaches 3 talk (omega arith)

find_cut-kept_example :
    (tokens (drop ((find_cut 3 talk).first_kept_entry_index) talk) ≤ tokens (drop 3 talk))
    × (3 ≤ tokens (drop 3 talk))
    × (tokens (drop 4 talk) < 3)
unfolding run
find_cut-kept_example = find_cut-kept 3 talk 3 3 0 (1 ∷ 3 ∷ 4 ∷ []) (omega arith) refl refl refl

find_cut-late_example : find_cut 5 ending_in_result ≡ find_cut 100 ending_in_result
unfolding run
find_cut-late_example = find_cut-late 5 100 ending_in_result 4 (omega arith) refl refl

-- The runtime's parts are constants; no message has a tool call.
abbrev constant_runtime : Runtime
constant_runtime = record {
  path_argument = λ args. none;
  read_details = λ details. [];
  modified_details = λ details. [];
  get_time = λ timestamp. 0;
}

abbrev small_settings : CompactionSettings
small_settings = record { enabled = true; reserve_tokens = 0; keep_recent_tokens = 2 }

prepare_compaction-parts_example :
    (p : CompactionPreparation) × (n : ℕ) × (kept : SessionEntry) × (prepare_compaction
        constant_runtime talk small_settings
      ≡ some p)
    × (get_elem? talk n ≡ some kept)
    × (p.first_kept_entry_id ≡ kept.id)
    × (boundary_start (previous_compaction (reverse talk)) ≤ n)
    × (p.messages_to_summarize
          ++ (p.turn_prefix_messages ++ messages_of constant_runtime (drop n talk))
        ≡ messages_of constant_runtime
            (drop (boundary_start (previous_compaction (reverse talk))) talk))
prepare_compaction-parts_example =
    prepare_compaction-parts constant_runtime talk small_settings (omega arith) refl refl

-- A budget of 3 leaves out the first messages.
talk_branch :
    (prepare_branch_entries constant_runtime talk 3).messages
    ≡ said "abcdefgh" ∷ answered "abcd" ∷ []
unfolding run
talk_branch = refl

talk_total : (prepare_branch_entries constant_runtime talk 3).total_tokens ≡ 3
unfolding run
talk_total = refl

-- Without a budget nothing is left out.
talk_whole : (prepare_branch_entries constant_runtime talk 0).total_tokens ≡ 14
unfolding run
talk_whole = refl
