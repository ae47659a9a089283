-- ===== src/Session/Persist.antt =====
-- `_persist` of packages/coding-agent/src/core/session-manager.ts: when the session reaches the disk.
use co_mono.Base.{
  ◌≡◌, String, true, false, Option, none, some, [], ◌∷◌, ◌++◌, map, str_eq, eq_iff, if◌then◌else◌,
  arith, any, any-append, dict_get, get-set,
}
use mathlib.Core.List.{map-append}
use co_mono.Session.Entry.{SessionEntry, entry, json, is_assistant, is_assistant_entry, Env}
use co_mono.Session.Manager.{SessionManager, append_file, persist_entry, append_entry, new_session}

-- The session is in step with its file: nothing is written before the first assistant message,
-- and from then on the file holds every entry, once and in order.
pub record IsSynced (path : String) (m : SessionManager) : Type 0 where
  pub persists : m.persist ≡ true
  pub at_path : m.session_file ≡ some path
  pub named : str_eq path "" ≡ false
  pub flush : m.flushed ≡ any is_assistant_entry m.file_entries
  pub on_disk :
      dict_get m.files path
      ≡ (if any is_assistant_entry m.file_entries then some (map json m.file_entries) else none)

-- `_appendEntry` keeps the session in step with its file.
pub append_entry-IsSynced :
    (path : String) (m : SessionManager) (e : SessionEntry)
    → IsSynced path m
    → IsSynced path (append_entry e m)
unfolding append_entry persist_entry append_file
append_entry-IsSynced path m e s = ground (
  arith,
  any-append is_assistant_entry m.file_entries (entry e ∷ []),
  map-append json m.file_entries (entry e ∷ []),
  get-set m.files path path (map json (m.file_entries ++ entry e ∷ [])),
  get-set m.files path path (map json m.file_entries ++ json (entry e) ∷ []),
  eq_iff path path,
)

-- A new session whose file does not exist yet is in step with it.
pub new_session-IsSynced :
    (path : String) (env : Env) (parent : Option String) (m : SessionManager)
    → m.persist ≡ true
    → (new_session env parent m).session_file ≡ some path
    → str_eq path "" ≡ false
    → dict_get m.files path ≡ none
    → IsSynced path (new_session env parent m)
unfolding new_session
new_session-IsSynced path env parent m p at named absent = ground arith

-- A session that was marked as flushed though its file holds no assistant message (as
-- `setSessionFile` does for an existing file): the next message without an assistant marks it as
-- not flushed, and the first assistant message then appends the whole session to what the file
-- already holds. The header and every old entry are in the file twice.
pub append_entry-twice :
    (path : String) (m : SessionManager) (u a : SessionEntry)
    → m.persist ≡ true
    → m.session_file ≡ some path
    → str_eq path "" ≡ false
    → m.flushed ≡ true
    → any is_assistant_entry m.file_entries ≡ false
    → dict_get m.files path ≡ some (map json m.file_entries)
    → is_assistant u.body ≡ false
    → is_assistant a.body ≡ true
    → dict_get (append_entry a (append_entry u m)).files path
      ≡ some
          (map json m.file_entries ++ map json ((m.file_entries ++ entry u ∷ []) ++ entry a ∷ []))
unfolding append_entry persist_entry append_file
append_entry-twice path m u a p at named fl no_assistant disk hu ha = ground (
  arith,
  any-append is_assistant_entry m.file_entries (entry u ∷ []),
  any-append is_assistant_entry (m.file_entries ++ entry u ∷ []) (entry a ∷ []),
  get-set m.files path path
      (map json m.file_entries ++ map json ((m.file_entries ++ entry u ∷ []) ++ entry a ∷ [])),
  eq_iff path path,
)
