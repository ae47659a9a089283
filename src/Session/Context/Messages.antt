-- ===== src/Session/Context/Messages.antt =====
-- What reaches the model: the messages of the branch, and after a compaction its summary, the
-- messages that it kept and those that followed
-- (packages/coding-agent/src/core/session-manager.ts).
use co_mono.Base.{
  ℕ, suc, ◌≡◌, ◌∙◌, refl, ap, String, Bool, true, false, Option, none, some, List, [], ◌∷◌, ◌++◌,
  append_assoc, str_eq, eq_iff, if◌then◌else◌, arith, Bool-cases, Option-cases, inl, inr, length,
  take, drop, dict_get,
}
use co_mono.Message.{Json, create_compaction_summary_message}
use co_mono.Session.Entry.{compaction, SessionEntry}
use co_mono.Session.Manager.{SessionManager}
use co_mono.Session.Tree.{history, find_id, IsTree, IsConsistent}
use co_mono.Session.Walk.{get_parent, get_branch}
use co_mono.Session.Walk.Chain.{chain, get_branch-chain}
use co_mono.Session.Context.{
  Settings, initial, scan_entry, scan, is_compaction, find_compaction, same_id, all_messages,
  kept_messages, body_messages, compacted_messages, path_messages, path_context, find_leaf,
  build_session_context, session_context,
}

find_id-IsTree :
    (k : String) (es : List SessionEntry) (e : SessionEntry)
    → IsTree es
    → find_id k es ≡ some e
    → str_eq k "" ≡ false
find_id-IsTree k [] e t h = absurd (cc)
find_id-IsTree k (x ∷ older) e t h = elim (Bool-cases (str_eq x.id k)) [
  | inl hit ↦ ground (arith, t.1, eq_iff x.id k, eq_iff k "")
  | inr miss ↦ find_id-IsTree k older e t.3 (rw miss at h)
]

module _ (get_time : String → ℕ) where
  session_context-at :
      (m : SessionManager) (id : String) (e : SessionEntry) (path : List SessionEntry)
      → m.leaf_id ≡ some id
      → str_eq id "" ≡ false
      → dict_get m.by_id id ≡ some e
      → get_branch none m ≡ some path
      → session_context get_time m ≡ some (path_context get_time path)
  unfolding session_context build_session_context get_branch get_parent find_leaf
  session_context-at m id e path leaf named known branch = ground arith

  -- In a consistent session whose leaf is an entry, the context is that of the branch which
  -- `getBranch` returns for the leaf; the fallback to the last entry is not taken.
  pub session_context-get_branch :
      (m : SessionManager)
      → IsConsistent m
      → (id : String) → m.leaf_id ≡ some id
      → (path : List SessionEntry) × (get_branch none m ≡ some path)
        × (session_context get_time m ≡ some (path_context get_time path))
  session_context-get_branch m w id leaf = elim (Option-cases (find_id id (history m))) [
    | inl missing ↦ absurd (cc (rw (leaf, missing) at w.leaf_known))
    | inr (e, there) ↦
        let b = get_branch-chain m w none w.leaf_known in
        (
          chain (history m) m.leaf_id [],
          b,
          session_context-at m id e (chain (history m) m.leaf_id []) leaf
              (find_id-IsTree id (history m) e w.tree there) (w.index id ∙ there) b,
        )
  ]

-- The entries from the one with the id that was kept first.
abbrev pub from_entry : Option String → List SessionEntry → List SessionEntry
from_entry first [] = []
from_entry first (e ∷ es) = if same_id first e.id then e ∷ es else from_entry first es

abbrev HasNoCompaction : List SessionEntry → Type 0
HasNoCompaction [] = Unit
HasNoCompaction (e ∷ es) = (is_compaction e.body ≡ false) × HasNoCompaction es

scan_entry-compaction :
    (s : Settings) (e : SessionEntry)
    → is_compaction e.body ≡ false
    → (scan_entry s e).compaction ≡ s.compaction
unfolding scan_entry
scan_entry-compaction s e h = ground arith

scan-HasNoCompaction :
    (s : Settings) (es : List SessionEntry)
    → HasNoCompaction es
    → (scan s es).compaction ≡ s.compaction
unfolding scan
scan-HasNoCompaction s [] h = refl
scan-HasNoCompaction s (e ∷ es) h =
    scan-HasNoCompaction (scan_entry s e) es h.1 ∙ scan_entry-compaction s e h.0

scan-append : (s : Settings) (xs ys : List SessionEntry) → scan s (xs ++ ys) ≡ scan (scan s xs) ys
unfolding scan
scan-append s [] ys = refl
scan-append s (x ∷ xs) ys = scan-append (scan_entry s x) xs ys

scan_entry-is_compaction :
    (s : Settings) (c : SessionEntry)
    → is_compaction c.body ≡ true
    → (scan_entry s c).compaction ≡ some c
unfolding scan_entry
scan_entry-is_compaction s c h = ground arith

scan-last :
    (s : Settings) (before : List SessionEntry) (c : SessionEntry) (after : List SessionEntry)
    → is_compaction c.body ≡ true
    → HasNoCompaction after
    → (scan s (before ++ c ∷ after)).compaction ≡ some c
unfolding scan
scan-last s before c after h none' = rw (scan-append s before (c ∷ after)) (
    scan-HasNoCompaction (scan_entry (scan s before) c) after none'
    ∙ scan_entry-is_compaction (scan s before) c h)

find_compaction-append :
    (c : SessionEntry) (before after : List SessionEntry)
    → is_compaction c.body ≡ true
    → find_id c.id before ≡ none
    → find_compaction c.id (before ++ c ∷ after) ≡ some (length before)
unfolding find_compaction
find_compaction-append c [] after h fresh = rw (h, (eq_iff c.id c.id).1 refl)
find_compaction-append c (e ∷ before) after h fresh = elim (Bool-cases (str_eq e.id c.id)) [
  | inl hit ↦ absurd (cc (rw hit at fresh))
  | inr miss ↦ rw (miss, find_compaction-append c before after h (rw miss at fresh)) (ground arith)
]

take-length {ℓ} : {A : Type ℓ} (xs ys : List A) → take (length xs) (xs ++ ys) ≡ xs
take-length [] ys = refl
take-length (x ∷ xs) ys = ap (x ∷◌) (take-length xs ys)

drop-length {ℓ} :
    {A : Type ℓ} (xs : List A) (y : A) (ys : List A) → drop (suc (length xs)) (xs ++ y ∷ ys) ≡ ys
drop-length [] y ys = refl
drop-length (x ∷ xs) y ys = drop-length xs y ys

module _ (get_time : String → ℕ) where
  kept_messages-found :
      (first : Option String) (es : List SessionEntry)
      → kept_messages get_time first true es ≡ all_messages get_time es
  unfolding kept_messages all_messages
  kept_messages-found first [] = refl
  kept_messages-found first (e ∷ es) = rw (kept_messages-found first es)

  kept_messages-from_entry :
      (first : Option String) (es : List SessionEntry)
      → kept_messages get_time first false es ≡ all_messages get_time (from_entry first es)
  unfolding kept_messages all_messages
  kept_messages-from_entry first [] = refl
  kept_messages-from_entry first (e ∷ es) = elim (Bool-cases (same_id first e.id)) [
    | inl hit ↦ rw (hit, kept_messages-found first es)
    | inr miss ↦ rw (miss, kept_messages-from_entry first es)
  ]

  all_messages-append :
      (xs ys : List SessionEntry)
      → all_messages get_time (xs ++ ys) ≡ all_messages get_time xs ++ all_messages get_time ys
  unfolding all_messages
  all_messages-append [] ys = refl
  all_messages-append (x ∷ xs) ys = simp (all_messages-append xs ys, append_assoc)

  -- Without a compaction on the path the context has the messages of all its entries, in order.
  path_context-HasNoCompaction :
      (path : List SessionEntry)
      → HasNoCompaction path
      → (path_context get_time path).messages ≡ all_messages get_time path
  unfolding path_context path_messages
  path_context-HasNoCompaction path h = rw (scan-HasNoCompaction initial path h)

  compacted_messages-split :
      (before : List SessionEntry) (c : SessionEntry) (after : List SessionEntry) (summary : String)
      (first : Option String) (tokens : ℕ) (details : Option Json) (hook : Option Bool)
      (index : Option ℕ)
      → c.body ≡ compaction summary first tokens details hook index
      → find_id c.id before ≡ none
      → compacted_messages get_time c (before ++ c ∷ after)
        ≡ create_compaction_summary_message get_time summary tokens c.timestamp
            ∷ all_messages get_time (from_entry first before)
          ++ all_messages get_time after
  unfolding compacted_messages body_messages
  compacted_messages-split before c after summary first tokens details hook index b fresh =
      ap (λ b. body_messages get_time b c.id c.timestamp (before ++ c ∷ after)) b
      ∙ rw (
        find_compaction-append c before after (rw b refl) fresh,
        take-length before (c ∷ after),
        drop-length before c after,
        kept_messages-from_entry first before,
      )

  -- After a compaction that no later one follows on the path, the context has its summary, then
  -- the messages from the entry that was kept first up to the compaction, then those behind it.
  pub path_context-compaction :
      (before : List SessionEntry) (c : SessionEntry) (after : List SessionEntry) (summary : String)
      (first : Option String) (tokens : ℕ) (details : Option Json) (hook : Option Bool)
      (index : Option ℕ)
      → c.body ≡ compaction summary first tokens details hook index
      → find_id c.id before ≡ none
      → HasNoCompaction after
      → (path_context get_time (before ++ c ∷ after)).messages
        ≡ create_compaction_summary_message get_time summary tokens c.timestamp
            ∷ all_messages get_time (from_entry first before)
          ++ all_messages get_time after
  unfolding path_context path_messages
  path_context-compaction before c after summary first tokens details hook index b fresh none' =
      let last : (scan initial (before ++ c ∷ after)).compaction ≡ some c =
        scan-last initial before c after (rw b refl) none' in
      rw last
        (compacted_messages-split before c after summary first tokens details hook index b fresh)
