-- ===== src/Session/Recovery.antt =====
-- The session and its file over every run of the methods of class `SessionManager`
-- (packages/coding-agent/src/core/session-manager.ts): nothing is lost, and the file can be opened
-- again.
use co_mono.Base.{
  ◌≡◌, ◌∙◌, sym, refl, ap, subst, String, true, false, Option, none, some, List, [], ◌∷◌, ◌++◌,
  append_assoc, append-nil, str_eq, get_or_else, any, Bool-cases, inl, inr, dict_get, dict_has,
}
use co_mono.Session.Entry.{
  label, branch_summary, SessionEntry, FileEntry, header, entry, get_entries, is_assistant_entry,
  Env,
}
use co_mono.Session.Manager.{
  SessionManager, ok-injective, add_entry, append_entry, new_entry, append_body,
  append_label_change, branch, reset_leaf, known, branch_with_summary, new_session,
}
use co_mono.Session.Tree.{history, newest_id, IsConsistent}
use co_mono.Session.Append.{persist_entry-SameCore}
use co_mono.Session.Persist.{IsSynced, append_entry-IsSynced, new_session-IsSynced}
use co_mono.Session.Load.{set_session_file}
use co_mono.Session.Load.Reopen.{IsCurrent, reopen}
use co_mono.Session.Reach.{
  Step, append, set_label, move, reset, summarize, Reach, here, next, Reach-IsConsistent,
}

file_entries-append_entry :
    (e : SessionEntry) (m : SessionManager)
    → (append_entry e m).file_entries ≡ m.file_entries ++ entry e ∷ []
unfolding append_entry
file_entries-append_entry e m = (persist_entry-SameCore e (add_entry e m)).file_entries

-- The fields that concern the disk.
pub record SameDisk (m n : SessionManager) : Type 0 where
  pub file_entries : m.file_entries ≡ n.file_entries
  pub persist : m.persist ≡ n.persist
  pub session_file : m.session_file ≡ n.session_file
  pub flushed : m.flushed ≡ n.flushed
  pub files : m.files ≡ n.files

SameDisk-refl : (m : SessionManager) → SameDisk m m
SameDisk-refl m = record {
  file_entries = refl;
  persist = refl;
  session_file = refl;
  flushed = refl;
  files = refl;
}

-- The place of the leaf is not on disk.
SameDisk-leaf :
    (m : SessionManager) (leaf : Option String) → SameDisk (record m { leaf_id = leaf }) m
SameDisk-leaf m leaf = record {
  file_entries = refl;
  persist = refl;
  session_file = refl;
  flushed = refl;
  files = refl;
}

SameDisk-IsSynced :
    (path : String) (m n : SessionManager) → SameDisk m n → IsSynced path n → IsSynced path m
SameDisk-IsSynced path m n same s = record {
  persists = same.persist ∙ s.persists;
  at_path = same.session_file ∙ s.at_path;
  named = s.named;
  flush = same.flushed ∙ rw (same.file_entries) s.flush;
  on_disk = rw (same.files, same.file_entries) s.on_disk;
}

-- What a step does to the entries and to the disk: it appends one entry, or leaves both alone.
data Effect (m n : SessionManager) : Type 0 where
  grows :
      (e : SessionEntry) (k : SessionManager)
      → SameDisk k m
      → SameDisk n (append_entry e k)
      → Effect m n
  stays : SameDisk n m → Effect m n

Step-Effect : {m n : SessionManager} → Step m n → Effect m n
unfolding append_body append_label_change branch reset_leaf branch_with_summary
Step-Effect {m} (append env body src plain) =
    grows (new_entry env body m) m (SameDisk-refl m)
      (SameDisk-refl (append_entry (new_entry env body m) m))
Step-Effect {m} (set_label env target text {n} id src h) =
    elim (Bool-cases (dict_has m.by_id target)) [
      | inl there ↦
          let e = new_entry env (label target text) m in
          grows e m (SameDisk-refl m) (
            subst (λ r. SameDisk r.0 (append_entry e m)) (ok-injective (rw there at h))
              (record {
                file_entries = refl;
                persist = refl;
                session_file = refl;
                flushed = refl;
                files = refl;
              }))
      | inr missing ↦ absurd (cc (rw missing at h))
    ]
Step-Effect {m} (move id {n} h) = elim (Bool-cases (dict_has m.by_id id)) [
  | inl there ↦
      stays (subst (λ k. SameDisk k m) (ok-injective (rw there at h)) (SameDisk-leaf m (some id)))
  | inr missing ↦ absurd (cc (rw missing at h))
]
Step-Effect {m} reset = stays (SameDisk-leaf m none)
Step-Effect {m} (summarize env from summary details hook {n} id src h) =
    elim (Bool-cases (known from m)) [
      | inl there ↦
          let k = record m { leaf_id = from } in
          let e = new_entry env (branch_summary (get_or_else from "root") summary details hook) k in
          grows e k (SameDisk-leaf m from) (
            subst (λ r. SameDisk r.0 (append_entry e k)) (ok-injective (rw there at h))
              (SameDisk-refl (append_entry e k)))
      | inr missing ↦ absurd (cc (rw missing at h))
    ]

Effect-IsSynced :
    (path : String) (m n : SessionManager) → Effect m n → IsSynced path m → IsSynced path n
Effect-IsSynced path m n (grows e k before after) s =
    SameDisk-IsSynced path n (append_entry e k) after
      (append_entry-IsSynced path k e (SameDisk-IsSynced path k m before s))
Effect-IsSynced path m n (stays same) s = SameDisk-IsSynced path n m same s

-- Every run of the methods keeps the session in step with its file.
pub Reach-IsSynced :
    {m n : SessionManager} (path : String) → IsSynced path m → Reach m n → IsSynced path n
Reach-IsSynced path s here = s
Reach-IsSynced path s (next {n} {k} r st) =
    Effect-IsSynced path n k (Step-Effect st) (Reach-IsSynced path s r)

Effect-file_entries :
    (m n : SessionManager)
    → Effect m n
    → (added : List FileEntry) × (n.file_entries ≡ m.file_entries ++ added)
Effect-file_entries m n (grows e k before after) = (
  entry e ∷ [],
  after.file_entries
      ∙ file_entries-append_entry e k
      ∙ ap (λ fs. fs ++ entry e ∷ []) before.file_entries,
)
Effect-file_entries m n (stays same) = ([], same.file_entries ∙ sym (append-nil m.file_entries))

-- The session is append-only: no run of the methods changes, drops or reorders an entry.
pub Reach-file_entries :
    {m n : SessionManager}
    → Reach m n
    → (added : List FileEntry) × (n.file_entries ≡ m.file_entries ++ added)
Reach-file_entries {m} here = ([], sym (append-nil m.file_entries))
Reach-file_entries {m} (next {n} {k} r st) =
    let (first, p) = Reach-file_entries r in
    let (second, q) = Effect-file_entries n k (Step-Effect st) in
    (first ++ second, q ∙ ap (λ fs. fs ++ second) p ∙ append_assoc m.file_entries first second)

IsCurrent-append : (fs gs : List FileEntry) → IsCurrent fs → IsCurrent (fs ++ gs)
IsCurrent-append (header h ∷ fs) gs c = c
IsCurrent-append [] gs c = absurd c
IsCurrent-append (entry e ∷ fs) gs c = absurd c

pub new_session-IsConsistent :
    (env : Env) (parent : Option String) (m : SessionManager)
    → IsConsistent (new_session env parent m)
unfolding new_session get_entries dict_get
new_session-IsConsistent env parent m = record {
  tree = tt;
  index = λ k. refl;
  labelled = λ k. refl;
  leaf_known = tt;
}

new_session-IsCurrent :
    (env : Env) (parent : Option String) (m : SessionManager)
    → IsCurrent (new_session env parent m).file_entries
unfolding new_session
new_session-IsCurrent env parent m = refl

-- Whatever the methods do to a new session whose file did not exist: once an assistant has answered,
-- the session can be opened again from its file with all its entries, by id and in order, with
-- all its labels, and with its leaf at the newest entry.
pub new_session-reopen :
    (path : String) (env : Env) (parent : Option String) (m n other : SessionManager) (env' : Env)
    → m.persist ≡ true
    → (new_session env parent m).session_file ≡ some path
    → str_eq path "" ≡ false
    → dict_get m.files path ≡ none
    → Reach (new_session env parent m) n
    → any is_assistant_entry n.file_entries ≡ true
    → env'.resolve path ≡ path
    → other.files ≡ n.files
    → ((set_session_file env' path other).file_entries ≡ n.file_entries)
      × IsConsistent (set_session_file env' path other)
      × ((k : String) → dict_get (set_session_file env' path other).by_id k ≡ dict_get n.by_id k)
      × ((k : String)
          → dict_get (set_session_file env' path other).labels_by_id k ≡ dict_get n.labels_by_id k)
      × ((set_session_file env' path other).leaf_id ≡ newest_id (history n))
new_session-reopen path env parent m n other env' p at named absent r has res same =
    let (added, grown) = Reach-file_entries r in
    reopen path n other env'
      (Reach-IsSynced path (new_session-IsSynced path env parent m p at named absent) r)
      (Reach-IsConsistent (new_session-IsConsistent env parent m) r) has
      (rw grown (
        IsCurrent-append (new_session env parent m).file_entries added
          (new_session-IsCurrent env parent m)))
      res same
