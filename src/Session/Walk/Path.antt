-- ===== src/Session/Walk/Path.antt =====
-- What `getBranch` promises: a path from a root to the entry asked for, which appends extend and
-- never change (packages/coding-agent/src/core/session-manager.ts).
use co_mono.Base.{
  ◌≡◌, ◌∙◌, sym, refl, String, true, false, Option, none, some, List, [], ◌∷◌, ◌++◌, str_eq, eq_iff,
  arith, Bool-cases, inl, inr, last?, last?-append-cons, Dict, dict_has,
}
use co_mono.Session.Entry.{Body, SessionEntry, Env, generate_id-new}
use co_mono.Session.Manager.{
  SessionManager, add_entry, append_entry, new_entry, append_body, index_label,
}
use co_mono.Session.Tree.{
  history, find_id, HasParent, IsTree, IsConsistent, reverse-get_entries-append,
}
use co_mono.Session.Append.{Draws, append_entry-label, index_label-label_of, persist_entry-SameCore}
use co_mono.Session.Walk.{start_id, get_branch}
use co_mono.Session.Walk.Chain.{
  chain, chain-append, chain-cons_self, chain-cons_ne, get_branch-chain,
}

-- Each entry hangs under the one before it, the first under `parent`.
abbrev pub IsPathFrom : Option String → List SessionEntry → Type 0
IsPathFrom parent [] = Unit
IsPathFrom parent (e ∷ es) = (e.parent_id ≡ parent) × IsPathFrom (some e.id) es

chain-IsPathFrom :
    (es : List SessionEntry) (id : Option String) (path : List SessionEntry)
    → IsTree es
    → HasParent id es
    → IsPathFrom id path
    → IsPathFrom none (chain es id path)
unfolding chain
chain-IsPathFrom [] none path t p h = h
chain-IsPathFrom [] (some k) path t p h = absurd (cc)
chain-IsPathFrom (e ∷ older) none path t p h = chain-IsPathFrom older none path t.3 tt h
chain-IsPathFrom (e ∷ older) (some k) path t p h = elim (Bool-cases (str_eq e.id k)) [
  | inl hit ↦
      let same : e.id ≡ k = (eq_iff e.id k).0 hit in
      rw hit (chain-IsPathFrom older e.parent_id (e ∷ path) t.3 t.2 (refl, rw same h))
  | inr miss ↦ rw miss (chain-IsPathFrom older (some k) path t.3 (rw miss at p) h)
]

last?-chain :
    (es : List SessionEntry) (k : String) (e : SessionEntry)
    → find_id k es ≡ some e
    → last? (chain es (some k) []) ≡ some e
unfolding chain
last?-chain [] k e h = absurd (cc)
last?-chain (x ∷ older) k e h = elim (Bool-cases (str_eq x.id k)) [
  | inl hit ↦
      rw (hit, chain-append older x.parent_id (x ∷ []))
        (last?-append-cons (chain older x.parent_id []) x [] ∙ (rw hit at h))
  | inr miss ↦ rw miss (last?-chain older k e (rw miss at h))
]

-- For each entry of a consistent session `getBranch` ends, and returns a path that begins at a
-- root, follows the parent links, and ends in that entry.
pub get_branch-IsPath :
    (m : SessionManager)
    → IsConsistent m
    → (id : String) (e : SessionEntry) → find_id id (history m) ≡ some e
    → (path : List SessionEntry) × (get_branch (some id) m ≡ some path)
      × IsPathFrom none path
      × (last? path ≡ some e)
get_branch-IsPath m w id e h =
    let p : HasParent (some id) (history m) = rw h refl in
    (
      chain (history m) (some id) [],
      get_branch-chain m w (some id) p,
      chain-IsPathFrom (history m) (some id) [] w.tree p tt,
      last?-chain (history m) id e h,
    )

history-append_entry :
    (m : SessionManager) (e : SessionEntry) → history (append_entry e m) ≡ e ∷ history m
unfolding append_entry
history-append_entry m e =
    rw ((persist_entry-SameCore e (add_entry e m)).file_entries)
      (reverse-get_entries-append m.file_entries e)

leaf-append_entry : (m : SessionManager) (e : SessionEntry) → (append_entry e m).leaf_id ≡ some e.id
unfolding append_entry
leaf-append_entry m e = (persist_entry-SameCore e (add_entry e m)).leaf

-- A branch does not depend on the labels.
get_branch-labels :
    (m : SessionManager) (labels : Dict String) (from_id : Option String)
    → get_branch from_id (record m { labels_by_id = labels }) ≡ get_branch from_id m
unfolding get_branch
get_branch-labels m labels none = refl
get_branch-labels m labels (some id) = refl

module _ (m : SessionManager) (w : IsConsistent m) (env : Env) (src : Draws env m)
    (body : Body) where
  -- The session behind the append, with the labels that a label change sets.
  appended : SessionManager
  appended = record (append_entry (new_entry env body m) m) {
    labels_by_id = index_label m.labels_by_id body;
  }

  appended-IsConsistent : IsConsistent appended
  unfolding appended new_entry
  appended-IsConsistent =
      append_entry-label m w (new_entry env body m) (generate_id-new _ env src).0
        (generate_id-new _ env src).1 w.leaf_known (index_label m.labels_by_id body)
        (index_label-label_of m.labels_by_id (history m) w.labelled (new_entry env body m))

  appended-chain :
      (from_id : Option String)
      → HasParent (start_id from_id appended) (history appended)
      → get_branch from_id (append_entry (new_entry env body m) m)
        ≡ some (chain (history appended) (start_id from_id appended) [])
  unfolding appended
  appended-chain from_id p =
      sym (get_branch-labels (append_entry (new_entry env body m) m) _ from_id)
      ∙ get_branch-chain appended appended-IsConsistent from_id p

  -- In a consistent session, where no UUID is the empty text and the one that follows a hundred collisions
  -- is not the id of an entry: an append, of an entry of any kind, makes the new entry the end of the current branch, and leaves the rest of the
  -- branch alone. (The labels, which a label change sets next, play no part in a branch.)
  pub get_branch-append_body :
      (path : List SessionEntry)
      → get_branch none m ≡ some path
      → get_branch none (append_body env body m).0 ≡ some (path ++ new_entry env body m ∷ [])
  unfolding append_body new_entry appended
  get_branch-append_body path h =
      let e = new_entry env body m in
      let old : path ≡ chain (history m) m.leaf_id [] =
        cc (h, get_branch-chain m w none w.leaf_known) in
      appended-chain none appended-IsConsistent.leaf_known
      ∙ rw (history-append_entry m e, leaf-append_entry m e, chain-cons_self e (history m) [])
          (rw (chain-append (history m) m.leaf_id (e ∷ []), old) refl)

  -- In a consistent session, where no UUID is the empty text and the one that follows a hundred collisions
  -- is not the id of an entry: an append, of an entry of any kind, leaves the branch of each entry as it was.
  pub get_branch-append_body_old :
      (id : String)
      → dict_has m.by_id id ≡ true
      → get_branch (some id) (append_body env body m).0 ≡ get_branch (some id) m
  unfolding append_body new_entry appended
  get_branch-append_body_old id known =
      let e = new_entry env body m in
      let p : HasParent (some id) (history m) = rw (← w.index id) known in
      let new : str_eq e.id id ≡ false =
        ground (arith, known, (generate_id-new _ env src).0, eq_iff e.id id) in
      appended-chain (some id) (rw (history-append_entry m e) (rw new p))
      ∙ rw (history-append_entry m e, chain-cons_ne e (history m) [] id new)
          (sym (get_branch-chain m w (some id) p))
