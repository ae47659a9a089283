-- ===== src/Session/Tests.antt =====
-- Sessions of a few entries: `getBranch`, labels, compaction, the disk, and the theorems at concrete
-- inputs (packages/coding-agent/src/core/session-manager.ts).
use Prim.Native.String.{String}
use co_mono.Base.{
  ◌≡◌, refl, Bool, true, false, Option, none, some, List, [], ◌∷◌, ◌++◌, map, str_append, arith,
  dict_get, dict_set, dict_has, replace_stamp, eq_iff, last?,
}
use co_mono.Message.{
  AgentMessage, user, assistant, plain, create_compaction_summary_message, StopReason,
}
use co_mono.Session.Entry.{
  SessionEntry, FileEntry, entry, message, compaction, json, Env, generate_id, IsUuidSource,
  generate_id-IsDrawn, IsDrawn, get_entries,
}
use co_mono.Session.Tree.{history, newest_id, IsConsistent}
use co_mono.Session.Walk.{get_branch, walk, get_parent}
use co_mono.Session.Walk.Path.{
  IsPathFrom, get_branch-IsPath, get_branch-append_body, get_branch-append_body_old,
}
use co_mono.Session.Context.{session_context, path_context, all_messages}
use co_mono.Session.Context.Messages.{
  session_context-get_branch, from_entry, path_context-compaction,
}
use co_mono.Session.Load.{set_session_file}
use co_mono.Session.Load.Reopen.{build_index-IsConsistent}
use co_mono.Session.Persist.{IsSynced, new_session-IsSynced, append_entry-twice}
use co_mono.Session.Reach.{Reach, here, next, append, Reach-IsConsistent}
use co_mono.Session.Recovery.{
  Reach-IsSynced, Reach-file_entries, new_session-reopen, new_session-IsConsistent,
}
use mathlib.Core.Option
use co_mono.Session.Manager.{
  build_index, reset_leaf, SessionManager, new_session, append_body, append_entry, new_entry,
}

-- UUIDs that begin with one character or another; their first eight characters make the ids.
abbrev env_of : String → Env
env_of name = record {
  uuid = λ i. str_append name "0000000-1111-2222-3333-444455556666";
  now = "2026-01-01T10:00:00.000Z";
  join = λ dir file. str_append dir (str_append "/" file);
  resolve = λ p. p;
}

abbrev blank : SessionManager
blank = record {
  session_id = "";
  session_file = none;
  session_dir = "/s";
  cwd = "/w";
  persist = true;
  flushed = false;
  file_entries = [];
  by_id = [];
  labels_by_id = [];
  leaf_id = none;
  files = [];
}

abbrev hello : AgentMessage
hello = user (plain "hello") 1

abbrev answer : AgentMessage
answer = assistant (record {
  content = [];
  api = "a";
  provider = "p";
  model = "m";
  usage = none;
  stop_reason = StopReason.stop;
  error_message = none;
  timestamp = 2;
})

abbrev started : SessionManager
started = new_session (env_of "S") none blank

abbrev asked : SessionManager
asked = (append_body (env_of "A") (message hello) started).0

abbrev answered : SessionManager
answered = (append_body (env_of "B") (message answer) asked).0

abbrev file : String
file = "/s/2026-01-01T10-00-00-000Z_S0000000-1111-2222-3333-444455556666.jsonl"

-- What the tests compute with.
run : Bool
unfolding append_body new_entry append_entry generate_id new_session dict_get dict_set replace_stamp
    get_entries get_branch walk get_parent reset_leaf
run = true

-- The ids are the first eight characters of the UUIDs, and each message hangs under the one before.
branch_of_answer :
    Option.map
      (map {B = String × Option String} (λ e. (e.id, e.parent_id)))
      (get_branch none answered)
    ≡ some (("A0000000", none) ∷ ("B0000000", some "A0000000") ∷ [])
unfolding run
branch_of_answer = refl

-- The file does not exist before the assistant has answered.
file_of_asked : dict_get asked.files file ≡ none
unfolding run
file_of_asked = refl

draws_A : IsUuidSource (dict_has started.by_id) (env_of "A")
unfolding run
draws_A = record { nonempty = λ i. ground (arith, eq_iff ((env_of "A").uuid i) ""); unused = refl }

draws_B : IsUuidSource (dict_has asked.by_id) (env_of "B")
unfolding run
draws_B = record { nonempty = λ i. ground (arith, eq_iff ((env_of "B").uuid i) ""); unused = refl }

two_messages : Reach started answered
two_messages =
    next (next here (append (env_of "A") (message hello) draws_A tt))
      (append (env_of "B") (message answer) draws_B tt)

answered-IsConsistent : IsConsistent answered
answered-IsConsistent =
    Reach-IsConsistent (new_session-IsConsistent (env_of "S") none blank) two_messages

new_session-reopen_example :
    ((set_session_file (env_of "C") file answered).file_entries ≡ answered.file_entries)
    × IsConsistent (set_session_file (env_of "C") file answered)
    × ((k : String)
        → dict_get (set_session_file (env_of "C") file answered).by_id k
          ≡ dict_get answered.by_id k)
    × ((k : String)
        → dict_get (set_session_file (env_of "C") file answered).labels_by_id k
          ≡ dict_get answered.labels_by_id k)
    × ((set_session_file (env_of "C") file answered).leaf_id ≡ newest_id (history answered))
unfolding run
new_session-reopen_example =
    new_session-reopen file (env_of "S") none blank answered answered (env_of "C") refl refl refl
      refl two_messages refl refl refl

Reach-IsConsistent_example : IsConsistent answered
Reach-IsConsistent_example =
    Reach-IsConsistent (new_session-IsConsistent (env_of "S") none blank) two_messages

started-IsSynced : IsSynced file started
unfolding run
started-IsSynced = new_session-IsSynced file (env_of "S") none blank refl refl refl refl

Reach-IsSynced_example : IsSynced file answered
Reach-IsSynced_example = Reach-IsSynced file started-IsSynced two_messages

Reach-file_entries_example :
    (added : List FileEntry) × (answered.file_entries ≡ started.file_entries ++ added)
Reach-file_entries_example = Reach-file_entries two_messages

abbrev answer_entry : SessionEntry
answer_entry = new_entry (env_of "B") (message answer) asked

get_branch-IsPath_example :
    (path : List SessionEntry) × (get_branch (some "B0000000") answered ≡ some path)
    × IsPathFrom none path
    × (last? path ≡ some answer_entry)
unfolding run
get_branch-IsPath_example =
    get_branch-IsPath answered answered-IsConsistent "B0000000" answer_entry refl

asked-IsConsistent : IsConsistent asked
asked-IsConsistent =
    Reach-IsConsistent (new_session-IsConsistent (env_of "S") none blank)
      (next here (append (env_of "A") (message hello) draws_A tt))

abbrev hello_entry : SessionEntry
hello_entry = new_entry (env_of "A") (message hello) started

get_branch-append_body_example :
    get_branch none answered ≡ some ((hello_entry ∷ []) ++ answer_entry ∷ [])
unfolding run
get_branch-append_body_example =
    get_branch-append_body asked asked-IsConsistent (env_of "B") draws_B (message answer)
      (hello_entry ∷ []) refl

get_branch-append_body_old_example :
    get_branch (some "A0000000") answered ≡ get_branch (some "A0000000") asked
unfolding run
get_branch-append_body_old_example =
    get_branch-append_body_old asked asked-IsConsistent (env_of "B") draws_B (message answer)
      "A0000000" refl

session_context-get_branch_example :
    (path : List SessionEntry) × (get_branch none answered ≡ some path)
    × (session_context (λ _. 0) answered ≡ some (path_context (λ _. 0) path))
unfolding run
session_context-get_branch_example =
    session_context-get_branch (λ _. 0) answered answered-IsConsistent "B0000000" refl

abbrev compacted : SessionEntry
compacted = record {
  id = "C0000000";
  parent_id = some "B0000000";
  timestamp = "2026-01-01T10:00:00.000Z";
  body = compaction "sum" (some "B0000000") 10 none none none;
}

path_context-compaction_example :
    (path_context (λ _. 0) ((hello_entry ∷ answer_entry ∷ []) ++ compacted ∷ [])).messages
    ≡ create_compaction_summary_message (λ _. 0) "sum" 10 "2026-01-01T10:00:00.000Z"
        ∷ all_messages (λ _. 0) (from_entry (some "B0000000") (hello_entry ∷ answer_entry ∷ []))
      ++ all_messages (λ _. 0) []
unfolding run
path_context-compaction_example =
    path_context-compaction (λ _. 0) (hello_entry ∷ answer_entry ∷ []) compacted [] "sum"
      (some "B0000000") 10 none none none refl refl tt

build_index-IsConsistent_example :
    IsConsistent (build_index answered)
    × ((build_index answered).leaf_id ≡ newest_id (history answered))
build_index-IsConsistent_example = build_index-IsConsistent answered answered-IsConsistent.tree

generate_id-IsDrawn_example :
    IsDrawn (dict_has asked.by_id) (env_of "A") (generate_id (dict_has asked.by_id) (env_of "A"))
generate_id-IsDrawn_example = generate_id-IsDrawn (dict_has asked.by_id) (env_of "A")

-- The short id is taken, so that the whole UUID is returned.
id_of_taken :
    generate_id (dict_has asked.by_id) (env_of "A") ≡ "A0000000-1111-2222-3333-444455556666"
unfolding run
id_of_taken = refl

-- A message behind `resetLeaf` is a second root.
abbrev two_roots : SessionManager
two_roots = (append_body (env_of "B") (message answer) (reset_leaf asked)).0

roots_of_two_roots : map (λ (e : SessionEntry). e.parent_id) (history two_roots) ≡ none ∷ none ∷ []
unfolding run
roots_of_two_roots = refl

-- A file that holds a header alone, opened as `setSessionFile` opens it.
abbrev opened : SessionManager
opened = record started { flushed = true; files = (file, map json started.file_entries) ∷ [] }

append_entry-twice_example :
    dict_get (append_entry answer_entry (append_entry hello_entry opened)).files file
    ≡ some (
        map json opened.file_entries
        ++ map json ((opened.file_entries ++ entry hello_entry ∷ []) ++ entry answer_entry ∷ []))
unfolding run
append_entry-twice_example =
    append_entry-twice file opened hello_entry answer_entry refl refl refl refl refl refl refl refl
