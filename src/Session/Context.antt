-- ===== src/Session/Context.antt =====
-- `buildSessionContext` of packages/coding-agent/src/core/session-manager.ts: the messages, the
-- thinking level and the model on the path from the root to the leaf.
pub mod Messages
use co_mono.Base.{
  ℕ, zero, suc, ◌+◌, String, Bool, true, false, ◌||◌, Option, none, some, List, [], ◌∷◌, ◌++◌,
  str_eq, if◌then◌else◌, length, take, drop, last?, Dict, dict_get, dict_set,
}
use co_mono.Message.{
  AgentMessage, assistant, create_branch_summary_message, create_compaction_summary_message,
  create_custom_message,
}
use co_mono.Session.Entry.{
  Body, message, thinking_level_change, model_change, compaction, branch_summary, custom_message,
  SessionEntry, get_entries, truthy,
}
use co_mono.Session.Manager.{SessionManager}
use co_mono.Session.Walk.{walk}

pub record SessionContext : Type 0 where
  pub messages : List AgentMessage
  pub thinking_level : String
  pub model : Option (String × String)

abbrev empty_context : SessionContext
empty_context = record { messages = []; thinking_level = "off"; model = none }

-- The variables of the loop that extracts the settings.
pub record Settings : Type 0 where
  pub thinking_level : String
  pub model : Option (String × String)
  pub compaction : Option SessionEntry

abbrev pub initial : Settings
initial = record { thinking_level = "off"; model = none; compaction = none }

pub scan_entry : Settings → SessionEntry → Settings
scan_entry s e = elim e.body [
  | thinking_level_change level ↦ record s { thinking_level = level }
  | model_change provider model_id ↦ record s { model = some (provider, model_id) }
  | message m ↦ elim m [ assistant a ↦ record s { model = some (a.provider, a.model) } | _ ↦ s ]
  | compaction summary first tokens details hook index ↦ record s { compaction = some e }
  | _ ↦ s
]

pub scan : Settings → List SessionEntry → Settings
scan s [] = s
scan s (e ∷ path) = scan (scan_entry s e) path

abbrev pub is_compaction : Body → Bool
is_compaction (compaction _ _ _ _ _ _) = true
is_compaction _ = false

-- `path.findIndex((e) => e.type === "compaction" && e.id === id)`, `none` for -1
pub find_compaction : String → List SessionEntry → Option ℕ
find_compaction id [] = none
find_compaction id (e ∷ path) =
    let rest = find_compaction id path in
    if is_compaction e.body
    then (if str_eq e.id id then some 0 else elim rest [ none ↦ none | some i ↦ some (suc i) ])
    else elim rest [ none ↦ none | some i ↦ some (suc i) ]

abbrev pub same_id : Option String → String → Bool
same_id none k = false
same_id (some j) k = str_eq k j

module _ (get_time : String → ℕ) where
  -- `appendMessage`: what an entry adds to the messages.
  entry_messages : SessionEntry → List AgentMessage
  entry_messages e = elim e.body [
    | message m ↦ m ∷ []
    | custom_message custom_type content details display ↦
        create_custom_message get_time custom_type content display details e.timestamp ∷ []
    | branch_summary from_id summary details hook ↦
        if truthy (some summary)
        then create_branch_summary_message get_time summary from_id e.timestamp ∷ []
        else []
    | _ ↦ []
  ]

  pub all_messages : List SessionEntry → List AgentMessage
  all_messages [] = []
  all_messages (e ∷ path) = entry_messages e ++ all_messages path

  -- The loop over the entries before the compaction, with `foundFirstKept`.
  pub kept_messages : Option String → Bool → List SessionEntry → List AgentMessage
  kept_messages first found [] = []
  kept_messages first found (e ∷ path) =
      let found' = found || same_id first e.id in
      (if found' then entry_messages e else []) ++ kept_messages first found' path

  -- The summary, the kept messages, and the messages after the compaction.
  pub body_messages : Body → String → String → List SessionEntry → List AgentMessage
  body_messages (compaction summary first tokens details hook index) id timestamp path =
      create_compaction_summary_message get_time summary tokens timestamp
      ∷ elim (find_compaction id path) [
        | none ↦ all_messages path
        | some i ↦ kept_messages first false (take i path) ++ all_messages (drop (suc i) path)
      ]
  body_messages _ id timestamp path = []

  pub compacted_messages : SessionEntry → List SessionEntry → List AgentMessage
  compacted_messages c path = body_messages c.body c.id c.timestamp path

  pub path_messages : Option SessionEntry → List SessionEntry → List AgentMessage
  path_messages none path = all_messages path
  path_messages (some c) path = compacted_messages c path

  pub path_context : List SessionEntry → SessionContext
  path_context path =
      let s = scan initial path in
      record {
        messages = path_messages s.compaction path;
        thinking_level = s.thinking_level;
        model = s.model;
      }

-- The argument `leafId`.
pub data LeafArgument : Type 0 where
  undefined null : LeafArgument
  at : String → LeafArgument

-- `byId`, where the caller gives none
index_entries : Dict SessionEntry → List SessionEntry → Dict SessionEntry
index_entries by_id [] = by_id
index_entries by_id (e ∷ es) = index_entries (dict_set by_id e.id e) es

abbrev given_index : List SessionEntry → Option (Dict SessionEntry) → Dict SessionEntry
given_index es none = index_entries [] es
given_index es (some by_id) = by_id

-- The entry that the id names, and else the last entry.
pub find_leaf : List SessionEntry → LeafArgument → Dict SessionEntry → Option SessionEntry
find_leaf es (at id) by_id =
    if truthy (some id)
    then elim (dict_get by_id id) [ none ↦ last? es | some e ↦ some e ]
    else last? es
find_leaf es _ by_id = last? es

-- `none` stands for a walk that has not ended after as many rounds as there are entries.
pub build_session_context :
    (get_time : String → ℕ)
    → List SessionEntry
    → LeafArgument
    → Option (Dict SessionEntry)
    → Option SessionContext
build_session_context get_time es null by_id = some empty_context
build_session_context get_time es leaf by_id =
    let index = given_index es by_id in
    elim (find_leaf es leaf index) [
      | none ↦ some empty_context
      | some e ↦ elim (walk (length es) index (some e) []) [
        | none ↦ none
        | some path ↦ some (path_context get_time path)
      ]
    ]

abbrev leaf_argument : Option String → LeafArgument
leaf_argument none = null
leaf_argument (some id) = at id

-- The method of `SessionManager`.
pub session_context : (get_time : String → ℕ) → SessionManager → Option SessionContext
session_context get_time m =
    build_session_context get_time (get_entries m.file_entries) (leaf_argument m.leaf_id)
      (some m.by_id)
