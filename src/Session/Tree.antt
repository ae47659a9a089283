-- ===== src/Session/Tree.antt =====
-- What a consistent session is: an append-only forest, with the index, the labels and the leaf of
-- class `SessionManager` (packages/coding-agent/src/core/session-manager.ts) in step with it. It may
-- have several roots: `resetLeaf` and `branchWithSummary` without an entry begin new ones.
use co_mono.Base.{
  ◌≡◌, ◌≢◌, refl, String, true, Option, none, some, List, [], ◌∷◌, ◌++◌, reverse, str_eq,
  if◌then◌else◌, is_some, ap, arith, eq_iff, Dict, dict_get,
}
use mathlib.Core.List.{reverse-append}
use co_mono.Session.Entry.{Body, label, SessionEntry, FileEntry, header, entry, truthy, get_entries}
use co_mono.Session.Manager.{SessionManager}

-- The entries, newest first.
abbrev pub history : SessionManager → List SessionEntry
history m = reverse (get_entries m.file_entries)

-- The id of the newest entry.
abbrev pub newest_id : List SessionEntry → Option String
newest_id [] = none
newest_id (e ∷ older) = some e.id

-- The newest entry with an id.
abbrev pub find_id : String → List SessionEntry → Option SessionEntry
find_id k [] = none
find_id k (e ∷ older) = if str_eq e.id k then some e else find_id k older

-- No parent, or the id of one of the entries.
abbrev pub HasParent : Option String → List SessionEntry → Type 0
HasParent none es = Unit
HasParent (some k) es = is_some (find_id k es) ≡ true

-- Every entry has an id that no older one has, and hangs under an older one or under none,
-- as a root.
abbrev pub IsTree : List SessionEntry → Type 0
IsTree [] = Unit
IsTree (e ∷ older) =
    (find_id e.id older ≡ none) × (e.id ≢ "") × HasParent e.parent_id older × IsTree older

-- The text that a label change puts in force.
abbrev label_text : Option String → Option String
label_text text = if truthy text then text else none

-- The newest label change of an entry decides its label.
abbrev pub label_of : String → List SessionEntry → Option String
label_of k [] = none
label_of k (e ∷ older) =
    let rest = label_of k older in
    elim e.body [ label target text ↦ if str_eq target k then label_text text else rest | _ ↦ rest ]

pub record IsSession (es : List SessionEntry) (by_id : Dict SessionEntry) (labels : Dict String)
    (leaf : Option String) : Type 0 where
  pub tree : IsTree es
  pub index : (k : String) → dict_get by_id k ≡ find_id k es
  pub labelled : (k : String) → dict_get labels k ≡ label_of k es
  pub leaf_known : HasParent leaf es

abbrev pub IsConsistent : SessionManager → Type 0
IsConsistent m = IsSession (history m) m.by_id m.labels_by_id m.leaf_id

get_entries-append :
    (fs gs : List FileEntry) → get_entries (fs ++ gs) ≡ get_entries fs ++ get_entries gs
unfolding get_entries
get_entries-append [] gs = refl
get_entries-append (header h ∷ fs) gs = get_entries-append fs gs
get_entries-append (entry e ∷ fs) gs = ap (e ∷◌) (get_entries-append fs gs)

pub reverse-get_entries-append :
    (fs : List FileEntry) (e : SessionEntry)
    → reverse (get_entries (fs ++ entry e ∷ [])) ≡ e ∷ reverse (get_entries fs)
unfolding get_entries
reverse-get_entries-append fs e =
    rw (get_entries-append fs (entry e ∷ [])) (reverse-append (get_entries fs) (e ∷ []))

-- The body of an entry that changes no label.
abbrev pub IsNoLabel : Body → Type 0
IsNoLabel (label target text) = ⊥
IsNoLabel _ = Unit

pub label_of-IsNoLabel :
    (k : String) (e : SessionEntry) (es : List SessionEntry)
    → IsNoLabel e.body
    → label_of k (e ∷ es) ≡ label_of k es
label_of-IsNoLabel k e es h = by_body e.body h
  where
    by_body : (b : Body) → IsNoLabel b → label_of k (record e { body = b } ∷ es) ≡ label_of k es
    by_body (label target text) h = absurd h
    by_body _ h = refl

find_id-cons_self : (e : SessionEntry) (es : List SessionEntry) → find_id e.id (e ∷ es) ≡ some e
find_id-cons_self e es = ground (arith, eq_iff e.id e.id)

pub HasParent-cons_self :
    (e : SessionEntry) (es : List SessionEntry) → HasParent (some e.id) (e ∷ es)
HasParent-cons_self e es = rw (find_id-cons_self e es)
