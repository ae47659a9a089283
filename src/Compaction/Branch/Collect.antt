-- ===== src/Compaction/Branch/Collect.antt =====
-- The entries that a move from one entry of the session to another leaves behind:
-- `collectEntriesForBranchSummary` (packages/coding-agent/src/core/compaction/branch-summarization.ts).
use co_mono.Base.{
  ℕ, zero, suc, ◌≡◌, ◌∙◌, refl, sym, ap, Bool, false, String, str_eq, Option, none, some, some_inj,
  List, [], ◌∷◌, ◌++◌, append_assoc, append-nil, any, find, reverse, length, if◌then◌else◌, if-both,
  Dict,
}
use co_mono.Session.Entry.{SessionEntry, get_entries}
use co_mono.Session.Manager.{SessionManager}
use co_mono.Session.Walk.{get_parent, walk, get_branch}

record CollectEntriesResult : Type 0 where
  pub entries : List SessionEntry
  pub common_ancestor_id : Option String

abbrev id_of : Option SessionEntry → Option String
id_of none = none
id_of (some e) = some e.id

-- The deepest entry of the target's path that is on the old path.
abbrev common_ancestor : (old_path target_path : List SessionEntry) → Option String
common_ancestor old_path target_path =
    id_of (find (λ e. any (λ o. str_eq o.id e.id) old_path) (reverse target_path))

abbrev is_ancestor : (ancestor current : Option String) → Bool
is_ancestor (some a) (some c) = str_eq c a
is_ancestor _ _ = false

-- The entry at `current` unless it is the ancestor.
abbrev next_entry : Dict SessionEntry → (ancestor current : Option String) → Option SessionEntry
next_entry by_id ancestor current =
    if is_ancestor ancestor current then none else get_parent by_id current

-- The loop that collects, a round for each entry; `none` means that the fuel ran out.
collect_entries :
    ℕ
    → Dict SessionEntry
    → (ancestor : Option String) → Option SessionEntry
    → List SessionEntry
    → Option (List SessionEntry)
collect_entries fuel by_id ancestor none es = some es
collect_entries zero by_id ancestor (some e) es = none
collect_entries (suc fuel) by_id ancestor (some e) es =
    collect_entries fuel by_id ancestor (next_entry by_id ancestor e.parent_id) (e ∷ es)

abbrev collected : Option String → Option (List SessionEntry) → Option CollectEntriesResult
collected ancestor none = none
collected ancestor (some es) = some (record { entries = es; common_ancestor_id = ancestor })

abbrev collect_from :
    SessionManager
    → String
    → (old_path target_path : Option (List SessionEntry)) → Option CollectEntriesResult
collect_from m old_leaf (some old_path) (some target_path) =
    let ancestor = common_ancestor old_path target_path in
    collected ancestor (
      collect_entries (length (get_entries m.file_entries)) m.by_id ancestor
        (next_entry m.by_id ancestor (some old_leaf)) [])
collect_from m old_leaf _ _ = none

collect_entries_for_branch_summary :
    SessionManager → (old_leaf_id : Option String) → String → Option CollectEntriesResult
collect_entries_for_branch_summary m none target =
    some (record { entries = []; common_ancestor_id = none })
collect_entries_for_branch_summary m (some old_leaf) target =
    if str_eq old_leaf ""
    then some (record { entries = []; common_ancestor_id = none })
    else collect_from m old_leaf (get_branch (some old_leaf) m) (get_branch (some target) m)

walk-suffix :
    (fuel : ℕ) (by_id : Dict SessionEntry) (o : Option SessionEntry) (es path : List SessionEntry)
    → walk fuel by_id o es ≡ some path
    → (older : List SessionEntry) × (path ≡ older ++ es)
unfolding walk
walk-suffix fuel by_id none es path h = ([], sym (some_inj h))
walk-suffix zero by_id (some e) es path h = absurd (cc (h))
walk-suffix (suc fuel) by_id (some e) es path h =
    let (older, parts) = walk-suffix fuel by_id (get_parent by_id e.parent_id) (e ∷ es) path h in
    (older ++ e ∷ [], parts ∙ sym (append_assoc older (e ∷ []) es))

-- The loop ends where the walk to the root does, or before.
abbrev Collects : List SessionEntry → Option (List SessionEntry) → Type 0
Collects path o =
    (older : List SessionEntry) × (es : List SessionEntry) × (o ≡ some es) × (path ≡ older ++ es)

collect_entries-Collects :
    (fuel : ℕ) (by_id : Dict SessionEntry) (ancestor : Option String) (o : Option SessionEntry)
    (es path : List SessionEntry)
    → walk fuel by_id o es ≡ some path
    → Collects path (collect_entries fuel by_id ancestor o es)
unfolding walk collect_entries
collect_entries-Collects fuel by_id ancestor none es path h = ([], es, refl, sym (some_inj h))
collect_entries-Collects zero by_id ancestor (some e) es path h = absurd (cc (h))
collect_entries-Collects (suc fuel) by_id ancestor (some e) es path h =
    if-both (λ o. Collects path (collect_entries fuel by_id ancestor o (e ∷ es)))
      (is_ancestor ancestor e.parent_id)
      (λ _.
        let (older, parts) =
          walk-suffix fuel by_id (get_parent by_id e.parent_id) (e ∷ es) path h in
        (older, e ∷ es, refl, parts))
      (λ _.
        collect_entries-Collects fuel by_id ancestor (get_parent by_id e.parent_id) (e ∷ es) path h)

-- The result holds the end of a path.
abbrev HoldsEnd : List SessionEntry → Option CollectEntriesResult → Type 0
HoldsEnd path o =
    (r : CollectEntriesResult) × (older : List SessionEntry) × (o ≡ some r)
    × (path ≡ older ++ r.entries)

collected-HoldsEnd :
    (path : List SessionEntry) (ancestor : Option String) (o : Option (List SessionEntry))
    → Collects path o
    → HoldsEnd path (collected ancestor o)
collected-HoldsEnd path ancestor o (older, es, done, parts) = (
  record { entries = es; common_ancestor_id = ancestor },
  older,
  ap (collected ancestor) done,
  parts,
)

collect_from-HoldsEnd :
    (m : SessionManager) (old_leaf : String) (old_path target_path : List SessionEntry)
    → get_branch (some old_leaf) m ≡ some old_path
    → HoldsEnd old_path (collect_from m old_leaf (some old_path) (some target_path))
unfolding get_branch collect_entries
collect_from-HoldsEnd m old_leaf old_path target_path found =
    let ancestor = common_ancestor old_path target_path in
    let fuel = length (get_entries m.file_entries) in
    collected-HoldsEnd old_path ancestor _ (
      if-both (λ o. Collects old_path (collect_entries fuel m.by_id ancestor o []))
        (is_ancestor ancestor (some old_leaf))
        (λ _. (old_path, [], refl, sym (append-nil old_path)))
        (λ _.
          collect_entries-Collects fuel m.by_id ancestor (get_parent m.by_id (some old_leaf)) []
            old_path found))

-- From an entry and to an entry whose branches are found, the collection comes to an end, and what is
-- collected is the end of the old branch, in its order.
collect_entries_for_branch_summary-suffix :
    (m : SessionManager) (old_leaf target : String) (old_path target_path : List SessionEntry)
    → get_branch (some old_leaf) m ≡ some old_path
    → get_branch (some target) m ≡ some target_path
    → HoldsEnd old_path (collect_entries_for_branch_summary m (some old_leaf) target)
unfolding collect_entries_for_branch_summary
collect_entries_for_branch_summary-suffix m old_leaf target old_path target_path found reached =
    if-both (HoldsEnd old_path) (str_eq old_leaf "")
      (λ _. (
        record { entries = []; common_ancestor_id = none },
        old_path,
        refl,
        sym (append-nil old_path),
      ))
      (λ _. rw (found, reached) (collect_from-HoldsEnd m old_leaf old_path target_path found))
