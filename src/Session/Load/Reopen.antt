-- ===== src/Session/Load/Reopen.antt =====
-- Opening a session file again (packages/coding-agent/src/core/session-manager.ts).
use co_mono.Base.{
  ◌≡◌, ◌∙◌, sym, refl, ap, String, true, none, some, List, [], ◌∷◌, map, any, find, Dict, dict_get,
}
use mathlib.Core.List.{reverse_aux}
use co_mono.Session.Entry.{
  SessionHeader, SessionEntry, FileEntry, header, entry, Line, json, get_entries,
  is_assistant_entry, Env, current_session_version,
}
use co_mono.Session.Manager.{
  SessionManager, index_label, index_entry, index_from, build_index, is_header,
}
use co_mono.Session.Tree.{history, newest_id, IsTree, IsSession, IsConsistent}
use co_mono.Session.Persist.{IsSynced}
use co_mono.Session.Load.{
  parse_session_entries, load_entries_from_file, open_lines, open_entries, header_id,
  migrate_to_current_version, adopt, set_session_file,
}
use co_mono.Session.Append.{append-IsSession, index_label-label_of}

IsTree-suffix : (xs es : List SessionEntry) → IsTree (reverse_aux xs es) → IsTree es
IsTree-suffix [] es t = t
IsTree-suffix (x ∷ xs) es t = (IsTree-suffix xs (x ∷ es) t).3

abbrev HasSession : List SessionEntry → SessionManager → Type 0
HasSession es m = IsSession es m.by_id m.labels_by_id m.leaf_id × (m.leaf_id ≡ newest_id es)

index_entry-HasSession :
    (m : SessionManager) (es : List SessionEntry) (e : SessionEntry)
    → HasSession es m
    → IsTree (e ∷ es)
    → HasSession (e ∷ es) (index_entry m (entry e))
unfolding index_entry
index_entry-HasSession m es e w t = (
  append-IsSession (w.0) e (rw (w.0.index e.id, t.0)) t.1 t.2 (index_label m.labels_by_id e.body)
      (index_label-label_of m.labels_by_id es w.0.labelled e),
  refl,
)

index_header :
    (m : SessionManager) (es : List SessionEntry) (h : SessionHeader)
    → HasSession es m
    → HasSession es (index_entry m (header h))
unfolding index_entry
index_header m es h w = w

index_from-HasSession :
    (fs : List FileEntry) (m : SessionManager) (es : List SessionEntry)
    → HasSession es m
    → IsTree (reverse_aux (get_entries fs) es)
    → HasSession (reverse_aux (get_entries fs) es) (index_from m fs)
unfolding index_from get_entries
index_from-HasSession [] m es w t = w
index_from-HasSession (header h ∷ fs) m es w t =
    index_from-HasSession fs (index_entry m (header h)) es (index_header m es h w) t
index_from-HasSession (entry e ∷ fs) m es w t =
    index_from-HasSession fs (index_entry m (entry e)) (e ∷ es)
      (index_entry-HasSession m es e w (IsTree-suffix (get_entries fs) (e ∷ es) t)) t

file_entries-index_from :
    (fs : List FileEntry) (m : SessionManager) → (index_from m fs).file_entries ≡ m.file_entries
unfolding index_from index_entry
file_entries-index_from [] m = refl
file_entries-index_from (header h ∷ fs) m = file_entries-index_from fs m
file_entries-index_from (entry e ∷ fs) m = file_entries-index_from fs (index_entry m (entry e))

file_entries-build_index : (m : SessionManager) → (build_index m).file_entries ≡ m.file_entries
unfolding build_index
file_entries-build_index m = file_entries-index_from m.file_entries _

-- Where every entry has an id that is not empty and that no older entry has, and hangs under an older
-- entry or under none, the index that `_buildIndex` makes of them is in step
-- with them: every lookup by id and every label are those of the entries, and the leaf is the newest
-- entry, or null if there is none.
pub build_index-IsConsistent :
    (m : SessionManager)
    → IsTree (history m)
    → IsConsistent (build_index m) × ((build_index m).leaf_id ≡ newest_id (history m))
unfolding build_index dict_get
build_index-IsConsistent m t =
    let m' = record m { by_id = []; labels_by_id = []; leaf_id = none } in
    rw (file_entries-index_from m.file_entries m') (
      index_from-HasSession m.file_entries m' []
        (record { tree = tt; index = λ k. refl; labelled = λ k. refl; leaf_known = tt }, refl) t)

parse-json : (es : List FileEntry) → parse_session_entries (map json es) ≡ es
unfolding parse_session_entries
parse-json [] = refl
parse-json (e ∷ es) = ap (e ∷◌) (parse-json es)

-- A session whose header has the current version.
abbrev pub IsCurrent : List FileEntry → Type 0
IsCurrent (header h ∷ fs) = h.version ≡ some current_session_version
IsCurrent _ = ⊥

load_entries_from_file-json :
    (files : Dict (List Line)) (path : String) (h : SessionHeader) (fs : List FileEntry)
    → dict_get files path ≡ some (map json (header h ∷ fs))
    → load_entries_from_file files path ≡ header h ∷ fs
unfolding load_entries_from_file parse_session_entries
load_entries_from_file-json files path h fs disk = rw disk (ap (header h ∷◌) (parse-json fs))

adopted : Env → String → List FileEntry → SessionManager → SessionManager
adopted env path es n = record n {
  session_file = some path;
  session_id = header_id (find is_header es) (env.uuid 0);
  file_entries = es;
}

set_session_file-current :
    (env : Env) (path : String) (es : List FileEntry) (n : SessionManager)
    → IsCurrent es
    → env.resolve path ≡ path
    → dict_get n.files path ≡ some (map json es)
    → set_session_file env path n ≡ record (build_index (adopted env path es n)) { flushed = true }
unfolding set_session_file open_lines open_entries adopt migrate_to_current_version adopted
set_session_file-current env path [] n cur res disk = absurd cur
set_session_file-current env path (entry e ∷ fs) n cur res disk = absurd cur
set_session_file-current env path (header h ∷ fs) n cur res disk =
    rw (res, disk, load_entries_from_file-json n.files path h fs disk, cur) refl

reopened :
    (env : Env) (path : String) (m n : SessionManager)
    → IsConsistent m
    → ((build_index (adopted env path m.file_entries n)).file_entries ≡ m.file_entries)
      × IsConsistent (build_index (adopted env path m.file_entries n))
      × ((k : String)
          → dict_get (build_index (adopted env path m.file_entries n)).by_id k ≡ dict_get m.by_id k)
      × ((k : String)
          → dict_get (build_index (adopted env path m.file_entries n)).labels_by_id k
            ≡ dict_get m.labels_by_id k)
      × ((build_index (adopted env path m.file_entries n)).leaf_id ≡ newest_id (history m))
unfolding adopted
reopened env path m n w =
    let b = adopted env path m.file_entries n in
    let same : (build_index b).file_entries ≡ m.file_entries = file_entries-build_index b in
    let (w', leaf) = build_index-IsConsistent b w.tree in
    (
      same,
      w',
      λ k. w'.index k ∙ rw same (sym (w.index k)),
      λ k. w'.labelled k ∙ rw same (sym (w.labelled k)),
      leaf,
    )

-- A session that is in step with its file, opened again from it by any manager: the entries are the
-- same, every id and every label is looked up as before, and the session is consistent, with its
-- leaf at the newest entry.
pub reopen :
    (path : String) (m n : SessionManager) (env : Env)
    → IsSynced path m
    → IsConsistent m
    → any is_assistant_entry m.file_entries ≡ true
    → IsCurrent m.file_entries
    → env.resolve path ≡ path
    → n.files ≡ m.files
    → ((set_session_file env path n).file_entries ≡ m.file_entries)
      × IsConsistent (set_session_file env path n)
      × ((k : String) → dict_get (set_session_file env path n).by_id k ≡ dict_get m.by_id k)
      × ((k : String)
          → dict_get (set_session_file env path n).labels_by_id k ≡ dict_get m.labels_by_id k)
      × ((set_session_file env path n).leaf_id ≡ newest_id (history m))
reopen path m n env sync w has cur res same =
    let disk : dict_get n.files path ≡ some (map json m.file_entries) =
      rw same (sync.on_disk ∙ rw has refl) in
    let e = set_session_file-current env path m.file_entries n cur res disk in
    rw e (reopened env path m n w)
