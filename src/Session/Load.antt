-- ===== src/Session/Load.antt =====
-- Reading a session file: `parseSessionEntries`, `loadEntriesFromFile`, the migrations of older
-- versions and `setSessionFile` (packages/coding-agent/src/core/session-manager.ts). In a file of
-- version 1 the entries have no ids: the empty text stands for the id that is missing.
pub mod Reopen
use co_mono.Base.{
  ℕ, zero, suc, ◌+◌, String, Bool, true, false, Option, none, some, List, [], ◌∷◌, ◌++◌,
  if◌then◌else◌, leb, ltb, get_elem?, get_or_else, find, Dict, dict_get,
}
use co_mono.Message.{AgentMessage, custom, hook_message}
use co_mono.Session.Entry.{
  SessionHeader, Body, message, compaction, SessionEntry, FileEntry, header, entry, Line, json,
  malformed, truthy, Env, generate_id, current_session_version,
}
use co_mono.Session.Manager.{SessionManager, new_session, rewrite_file, build_index, is_header}

-- The entries of the lines that parse.
pub parse_session_entries : List Line → List FileEntry
parse_session_entries [] = []
parse_session_entries (json e ∷ lines) = e ∷ parse_session_entries lines
parse_session_entries (malformed _ ∷ lines) = parse_session_entries lines

-- Without a header in front the entries are dropped.
abbrev check_header : List FileEntry → List FileEntry
check_header [] = []
check_header (header h ∷ fs) = header h ∷ fs
check_header (entry e ∷ fs) = []

abbrev load_lines : Option (List Line) → List FileEntry
load_lines none = []
load_lines (some lines) = check_header (parse_session_entries lines)

pub load_entries_from_file : Dict (List Line) → String → List FileEntry
load_entries_from_file files path = load_lines (dict_get files path)

-- The draws that are left after `n`.
abbrev after_draws : ℕ → Env → Env
after_draws n env = record env { uuid = λ i. env.uuid (n + i) }

-- `entries[index]`'s id, if it is an entry and no header; else the id that was there.
abbrev kept_id : Option String → Option FileEntry → Option String
kept_id first (some (entry t)) = if truthy (some t.id) then some t.id else none
kept_id first _ = first

abbrev convert_index : List FileEntry → Body → Body
convert_index all (compaction summary first tokens details hook (some index)) =
    compaction summary (kept_id first (get_elem? all index)) tokens details hook none
convert_index all b = b

-- The loop of `migrateV1ToV2`, with the UUIDs drawn, `prevId`, and the entries behind and ahead.
-- The set of ids that the code hands to `generateId` stays empty, so each id is one draw.
migrate_v1_from : Env → ℕ → Option String → List FileEntry → List FileEntry → List FileEntry
migrate_v1_from env drawn prev done [] = done
migrate_v1_from env drawn prev done (header h ∷ rest) =
    migrate_v1_from env drawn prev (done ++ header (record h { version = some 2 }) ∷ []) rest
migrate_v1_from env drawn prev done (entry e ∷ rest) =
    let id = generate_id (λ _. false) (after_draws drawn env) in
    let e' = record e { id = id; parent_id = prev } in
    let body = convert_index (done ++ entry e' ∷ rest) e.body in
    migrate_v1_from env (suc drawn) (some id) (done ++ entry (record e' { body = body }) ∷ []) rest

migrate_v1_to_v2 : Env → List FileEntry → List FileEntry
migrate_v1_to_v2 env es = migrate_v1_from env 0 none [] es

abbrev rename_hook : Body → Body
rename_hook (message (hook_message m)) = message (custom m)
rename_hook b = b

migrate_v2_to_v3 : List FileEntry → List FileEntry
migrate_v2_to_v3 [] = []
migrate_v2_to_v3 (header h ∷ fs) = header (record h { version = some 3 }) ∷ migrate_v2_to_v3 fs
migrate_v2_to_v3 (entry e ∷ fs) =
    entry (record e { body = rename_hook e.body }) ∷ migrate_v2_to_v3 fs

-- `header?.version ?? 1`
abbrev file_version : Option FileEntry → ℕ
file_version (some (header h)) = get_or_else h.version 1
file_version _ = 1

-- `migrateToCurrentVersion`: the entries, and whether any migration was applied.
pub migrate_to_current_version : Env → List FileEntry → List FileEntry × Bool
migrate_to_current_version env es =
    let version = file_version (find is_header es) in
    if leb current_session_version version
    then (es, false)
    else (let es' = if ltb version 2 then migrate_v1_to_v2 env es else es in
        (if ltb version 3 then migrate_v2_to_v3 es' else es', true))

abbrev pub header_id : Option FileEntry → String → String
header_id (some (header h)) fresh = h.id
header_id _ fresh = fresh

-- The part of `setSessionFile` for a file that does not exist, or has no valid header.
start_at : Env → String → SessionManager → SessionManager
start_at env path m = record (new_session env none m) { session_file = some path }

-- The part for a file with entries.
pub adopt : Env → String → List FileEntry → SessionManager → SessionManager
adopt env path es m =
    let (es', migrated) = migrate_to_current_version env es in
    let m' = record m {
      session_file = some path;
      session_id = header_id (find is_header es) (env.uuid 0);
      file_entries = es';
    } in
    record (build_index (if migrated then rewrite_file m' else m')) { flushed = true }

-- The part for a file that exists: without entries it is written anew.
pub open_entries : Env → String → List FileEntry → SessionManager → SessionManager
open_entries env path [] m = record (rewrite_file (start_at env path m)) { flushed = true }
open_entries env path (e ∷ es) m = adopt env path (e ∷ es) m

pub open_lines : Env → String → Option (List Line) → SessionManager → SessionManager
open_lines env path none m = start_at env path m
open_lines env path (some lines) m = open_entries env path (load_entries_from_file m.files path) m

pub set_session_file : Env → String → SessionManager → SessionManager
set_session_file env file m =
    open_lines env (env.resolve file) (dict_get m.files (env.resolve file)) m
