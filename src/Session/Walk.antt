-- ===== src/Session/Walk.antt =====
-- `getBranch` of packages/coding-agent/src/core/session-manager.ts: the walk from an entry to its
-- root. The loop takes one round for each entry of the path, on fuel; the number of entries is
-- enough in a consistent session.
pub mod Chain
pub mod Path
use co_mono.Base.{
  ℕ, zero, suc, String, Bool, Option, none, some, List, [], ◌∷◌, str_eq, if◌then◌else◌, length,
  Dict, dict_get,
}
use co_mono.Session.Entry.{SessionEntry, truthy, get_entries}
use co_mono.Session.Manager.{SessionManager}

-- `id ? byId.get(id) : undefined`
unfoldable pub get_parent : Dict SessionEntry → Option String → Option SessionEntry
get_parent by_id none = none
get_parent by_id (some id) = if str_eq id "" then none else dict_get by_id id

-- `none` means that the fuel ran out before the root was reached.
unfoldable pub walk :
    ℕ → Dict SessionEntry → Option SessionEntry → List SessionEntry → Option (List SessionEntry)
walk fuel by_id none path = some path
walk zero by_id (some e) path = none
walk (suc fuel) by_id (some e) path = walk fuel by_id (get_parent by_id e.parent_id) (e ∷ path)

-- `fromId ?? this.leafId`
abbrev pub start_id : Option String → SessionManager → Option String
start_id none m = m.leaf_id
start_id (some id) m = some id

unfoldable pub get_branch : Option String → SessionManager → Option (List SessionEntry)
get_branch from_id m =
    walk (length (get_entries m.file_entries)) m.by_id (get_parent m.by_id (start_id from_id m)) []
