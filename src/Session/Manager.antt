-- ===== src/Session/Manager.antt =====
-- The state of class `SessionManager` and its methods that add entries and move the leaf
-- (packages/coding-agent/src/core/session-manager.ts). The files on disk stand in the state too.
use co_mono.Base.{
  ℕ, ◌≡◌, String, Bool, true, false, not, ◌&&◌, Option, none, some, List, [], ◌∷◌, ◌++◌, map,
  str_append, if◌then◌else◌, get_or_else, any, find, trim, replace_stamp, Dict, dict_get, dict_set,
  dict_delete, dict_has,
}
use co_mono.Message.{Json, UserContent, AgentMessage}
use co_mono.Session.Entry.{
  SessionHeader, Body, message, thinking_level_change, model_change, compaction, branch_summary,
  custom, custom_message, label, session_info, SessionEntry, FileEntry, header, entry, Line, json,
  truthy, is_assistant_entry, Env, generate_id, current_session_version,
}

pub data Error : Type 0 where
  entry_not_found : String → Error

pub data Result {ℓ} (A : Type ℓ) : Type ℓ where
  ok : A → Result A
  err : Error → Result A

pub ok-injective {ℓ} : {A : Type ℓ} {a b : A} → ok a ≡ ok b → a ≡ b
ok-injective h = cc

pub record SessionManager : Type 0 where
  pub session_id : String
  pub session_file : Option String
  pub session_dir : String
  pub cwd : String
  pub persist : Bool
  pub flushed : Bool
  pub file_entries : List FileEntry
  pub by_id : Dict SessionEntry
  pub labels_by_id : Dict String
  pub leaf_id : Option String
  pub files : Dict (List Line)

-- `appendFileSync`, one line for each entry
unfoldable pub append_file : String → List FileEntry → SessionManager → SessionManager
append_file path es m = record m {
  files = dict_set m.files path (get_or_else (dict_get m.files path) [] ++ map json es);
}

-- `_rewriteFile`
pub rewrite_file : SessionManager → SessionManager
rewrite_file m =
    if m.persist && truthy m.session_file
    then record m {
      files = dict_set m.files (get_or_else m.session_file "") (map json m.file_entries);
    }
    else m

-- `_persist`
unfoldable pub persist_entry : SessionEntry → SessionManager → SessionManager
unfolding append_file
persist_entry e m =
    if not (m.persist && truthy m.session_file)
    then m
    else if not (any is_assistant_entry m.file_entries)
    then record m { flushed = false }
    else if not m.flushed
    then record (append_file (get_or_else m.session_file "") m.file_entries m) { flushed = true }
    else append_file (get_or_else m.session_file "") (entry e ∷ []) m

abbrev pub add_entry : SessionEntry → SessionManager → SessionManager
add_entry e m = record m {
  file_entries = m.file_entries ++ entry e ∷ [];
  by_id = dict_set m.by_id e.id e;
  leaf_id = some e.id;
}

-- `_appendEntry`
unfoldable pub append_entry : SessionEntry → SessionManager → SessionManager
unfolding persist_entry
append_entry e m = persist_entry e (add_entry e m)

-- The entry that each `append` method builds: a child of the leaf with a new id.
unfoldable pub new_entry : Env → Body → SessionManager → SessionEntry
new_entry env body m = record {
  id = generate_id (dict_has m.by_id) env;
  parent_id = m.leaf_id;
  timestamp = env.now;
  body = body;
}

unfoldable pub append_body : Env → Body → SessionManager → SessionManager × String
append_body env body m = let e = new_entry env body m in (append_entry e m, e.id)

pub append_message : Env → AgentMessage → SessionManager → SessionManager × String
append_message env msg = append_body env (message msg)

append_thinking_level_change : Env → String → SessionManager → SessionManager × String
append_thinking_level_change env level = append_body env (thinking_level_change level)

append_model_change : Env → String → String → SessionManager → SessionManager × String
append_model_change env provider model_id = append_body env (model_change provider model_id)

append_compaction :
    Env → String → String → ℕ → Option Json → Option Bool → SessionManager → SessionManager × String
append_compaction env summary first_kept_entry_id tokens_before details from_hook =
    append_body env
      (compaction summary (some first_kept_entry_id) tokens_before details from_hook none)

append_custom_entry : Env → String → Option Json → SessionManager → SessionManager × String
append_custom_entry env custom_type payload = append_body env (custom custom_type payload)

append_session_info : Env → String → SessionManager → SessionManager × String
append_session_info env name = append_body env (session_info (some (trim name)))

append_custom_message_entry :
    Env → String → UserContent → Bool → Option Json → SessionManager → SessionManager × String
append_custom_message_entry env custom_type content display details =
    append_body env (custom_message custom_type content details display)

-- What a label entry does to the labels in force; no text, or the empty text, clears.
unfoldable pub apply_label : Dict String → String → Option String → Dict String
apply_label labels target text =
    if truthy text then dict_set labels target (get_or_else text "") else dict_delete labels target

unfoldable pub append_label_change :
    Env → String → Option String → SessionManager → Result (SessionManager × String)
append_label_change env target_id text m =
    if not (dict_has m.by_id target_id)
    then err (entry_not_found target_id)
    else let (m', id) = append_body env (label target_id text) m in
      ok (record m' { labels_by_id = apply_label m'.labels_by_id target_id text }, id)

unfoldable pub branch : String → SessionManager → Result SessionManager
branch branch_from_id m =
    if not (dict_has m.by_id branch_from_id)
    then err (entry_not_found branch_from_id)
    else ok (record m { leaf_id = some branch_from_id })

unfoldable pub reset_leaf : SessionManager → SessionManager
reset_leaf m = record m { leaf_id = none }

abbrev pub known : Option String → SessionManager → Bool
known none m = true
known (some id) m = dict_has m.by_id id

unfoldable pub branch_with_summary :
    Env
    → Option String
    → String
    → Option Json
    → Option Bool
    → SessionManager
    → Result (SessionManager × String)
branch_with_summary env branch_from_id summary details from_hook m =
    if not (known branch_from_id m)
    then err (entry_not_found (get_or_else branch_from_id ""))
    else ok (
        append_body env
          (branch_summary (get_or_else branch_from_id "root") summary details from_hook)
          (record m { leaf_id = branch_from_id }))

-- `newSession`: the session's id is the first UUID drawn.
unfoldable pub new_session : Env → Option String → SessionManager → SessionManager
new_session env parent_session m =
    let head : SessionHeader = record {
      version = some current_session_version;
      id = env.uuid 0;
      timestamp = env.now;
      cwd = m.cwd;
      parent_session = parent_session;
    } in
    let name =
      str_append (replace_stamp env.now) (str_append "_" (str_append (env.uuid 0) ".jsonl")) in
    record m {
      session_id = env.uuid 0;
      file_entries = header head ∷ [];
      by_id = [];
      labels_by_id = [];
      leaf_id = none;
      flushed = false;
      session_file = if m.persist then some (env.join m.session_dir name) else m.session_file;
    }

unfoldable pub index_label : Dict String → Body → Dict String
index_label labels (label target_id text) = apply_label labels target_id text
index_label labels _ = labels

-- `_buildIndex`, one entry at a time
unfoldable pub index_entry : SessionManager → FileEntry → SessionManager
index_entry m (header _) = m
index_entry m (entry e) = record m {
  by_id = dict_set m.by_id e.id e;
  leaf_id = some e.id;
  labels_by_id = index_label m.labels_by_id e.body;
}

unfoldable pub index_from : SessionManager → List FileEntry → SessionManager
index_from m [] = m
index_from m (f ∷ fs) = index_from (index_entry m f) fs

unfoldable pub build_index : SessionManager → SessionManager
build_index m =
    index_from (record m { by_id = []; labels_by_id = []; leaf_id = none }) m.file_entries

abbrev pub is_header : FileEntry → Bool
is_header (header _) = true
is_header (entry _) = false

abbrev get_header : SessionManager → Option FileEntry
get_header m = find is_header m.file_entries

abbrev get_entry : SessionManager → String → Option SessionEntry
get_entry m id = dict_get m.by_id id

abbrev get_label : SessionManager → String → Option String
get_label m id = dict_get m.labels_by_id id
