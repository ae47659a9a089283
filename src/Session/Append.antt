-- ===== src/Session/Append.antt =====
-- Every method of class `SessionManager` that adds an entry or moves the leaf keeps the session
-- consistent (packages/coding-agent/src/core/session-manager.ts).
use co_mono.Base.{
  ◌≡◌, ◌≢◌, ◌∙◌, sym, subst, refl, String, Bool, true, false, Option, none, some, List, ◌∷◌,
  get_or_else, arith, Bool-cases, inl, inr, Dict, dict_get, dict_set, dict_has, get-set, get-delete,
}
use co_mono.Message.{Json}
use co_mono.Session.Entry.{
  Body, label, branch_summary, SessionEntry, Env, generate_id-new, IsUuidSource,
}
use co_mono.Session.Manager.{
  SessionManager, ok, append_file, persist_entry, add_entry, append_entry, ok-injective, new_entry,
  append_body, apply_label, index_label, append_label_change, branch, reset_leaf, known,
  branch_with_summary,
}
use co_mono.Session.Tree.{
  history, find_id, HasParent, label_of, IsSession, IsConsistent, IsNoLabel,
  reverse-get_entries-append, label_of-IsNoLabel, HasParent-cons_self,
}

-- Writing to disk changes none of the fields that a session is made of.
pub record SameCore (m n : SessionManager) : Type 0 where
  pub file_entries : m.file_entries ≡ n.file_entries
  pub by_id : m.by_id ≡ n.by_id
  pub labels : m.labels_by_id ≡ n.labels_by_id
  pub leaf : m.leaf_id ≡ n.leaf_id

pub persist_entry-SameCore :
    (e : SessionEntry) (m : SessionManager) → SameCore (persist_entry e m) m
unfolding persist_entry append_file
persist_entry-SameCore e m = ground arith

SameCore-IsConsistent : (m n : SessionManager) → SameCore m n → IsConsistent n → IsConsistent m
SameCore-IsConsistent m n same w = rw (same.file_entries, same.by_id, same.labels, same.leaf) w

labels-append_entry :
    (e : SessionEntry) (m : SessionManager) → (append_entry e m).labels_by_id ≡ m.labels_by_id
unfolding append_entry
labels-append_entry e m = (persist_entry-SameCore e (add_entry e m)).labels

-- What an append needs: a new id, and a parent among the entries.
module _ {es : List SessionEntry} {by_id : Dict SessionEntry} {labels : Dict String}
    {leaf : Option String} (w : IsSession es by_id labels leaf) (e : SessionEntry)
    (fresh : dict_has by_id e.id ≡ false) (named : e.id ≢ "")
    (child : HasParent e.parent_id es) where
  find_id-fresh : find_id e.id es ≡ none
  find_id-fresh = ground (arith, w.index e.id)

  index-cons : (k : String) → dict_get (dict_set by_id e.id e) k ≡ find_id k (e ∷ es)
  index-cons k = rw (get-set by_id e.id k e) (ground (arith, w.index k))

  pub append-IsSession :
      (labels' : Dict String)
      → ((k : String) → dict_get labels' k ≡ label_of k (e ∷ es))
      → IsSession (e ∷ es) (dict_set by_id e.id e) labels' (some e.id)
  append-IsSession labels' h = record {
    tree = (find_id-fresh, named, child, w.tree);
    index = index-cons;
    labelled = h;
    leaf_known = HasParent-cons_self e es;
  }

-- `_appendEntry`, with the labels that the method leaves behind.
module _ (m : SessionManager) (w : IsConsistent m) (e : SessionEntry)
    (fresh : dict_has m.by_id e.id ≡ false) (named : e.id ≢ "")
    (child : HasParent e.parent_id (history m)) where
  pub append_entry-label :
      (labels' : Dict String)
      → ((k : String) → dict_get labels' k ≡ label_of k (e ∷ history m))
      → IsSession
          (history (append_entry e m))
          (append_entry e m).by_id
          labels'
          (append_entry e m).leaf_id
  unfolding append_entry
  append_entry-label labels' h =
      let same = persist_entry-SameCore e (add_entry e m) in
      rw (same.file_entries, same.by_id, same.leaf, reverse-get_entries-append m.file_entries e)
        (append-IsSession w e fresh named child labels' h)

  append_entry-IsConsistent : IsNoLabel e.body → IsConsistent (append_entry e m)
  append_entry-IsConsistent plain = append_entry-label (append_entry e m).labels_by_id (λ k.
      rw (labels-append_entry e m) (w.labelled k ∙ sym (label_of-IsNoLabel k e (history m) plain)))

apply_label-label_of :
    (labels : Dict String) (es : List SessionEntry)
    → ((k : String) → dict_get labels k ≡ label_of k es)
    → (e : SessionEntry) (target : String) (text : Option String) → e.body ≡ label target text
    → (k : String) → dict_get (apply_label labels target text) k ≡ label_of k (e ∷ es)
unfolding apply_label
apply_label-label_of labels es labelled e target text h k = rw h (
    ground (
      arith,
      get-set labels target k (get_or_else text ""),
      get-delete labels target k,
      labelled k,
    ))

pub index_label-label_of :
    (labels : Dict String) (es : List SessionEntry)
    → ((k : String) → dict_get labels k ≡ label_of k es)
    → (e : SessionEntry) (k : String) → dict_get (index_label labels e.body) k ≡ label_of k (e ∷ es)
unfolding index_label
index_label-label_of labels es labelled e k = by_body e.body refl
  where
    by_body : (b : Body) → e.body ≡ b → dict_get (index_label labels b) k ≡ label_of k (e ∷ es)
    by_body (label target text) h = apply_label-label_of labels es labelled e target text h k
    by_body _ h = labelled k ∙ sym (label_of-IsNoLabel k e es (subst IsNoLabel (sym h) tt))

-- What holds of the ids that a method draws from its environment.
abbrev pub Draws : Env → SessionManager → Type 0
Draws env m = IsUuidSource (dict_has m.by_id) env

module _ (m : SessionManager) (w : IsConsistent m) (env : Env) (src : Draws env m) where
  pub append_body-IsConsistent :
      (body : Body) → IsNoLabel body → IsConsistent (append_body env body m).0
  unfolding append_body new_entry
  append_body-IsConsistent body plain =
      append_entry-IsConsistent m w _ (generate_id-new _ env src).0 (generate_id-new _ env src).1
        w.leaf_known plain

  pub append_label_change-IsConsistent :
      (target : String) (text : Option String) (m' : SessionManager) (id : String)
      → append_label_change env target text m ≡ ok (m', id)
      → IsConsistent m'
  unfolding append_label_change append_body new_entry
  append_label_change-IsConsistent target text m' id h =
      elim (Bool-cases (dict_has m.by_id target)) [
        | inl there ↦
            let e = ok-injective (rw there at h) in
            subst (λ r. IsConsistent r.0) e
              (append_entry-label m w _ (generate_id-new _ env src).0 (generate_id-new _ env src).1
                w.leaf_known _
                (λ k. rw (labels-append_entry (new_entry env (label target text) m) m) (
                  apply_label-label_of m.labels_by_id (history m) w.labelled
                    (new_entry env (label target text) m) target text refl k)))
        | inr missing ↦ absurd (cc (rw missing at h))
      ]

pub branch-IsConsistent :
    (m : SessionManager)
    → IsConsistent m
    → (id : String) (m' : SessionManager) → branch id m ≡ ok m'
    → IsConsistent m'
unfolding branch
branch-IsConsistent m w id m' h = elim (Bool-cases (dict_has m.by_id id)) [
  | inl there ↦ subst IsConsistent (ok-injective (rw there at h)) (record {
    tree = w.tree;
    index = w.index;
    labelled = w.labelled;
    leaf_known = rw (← w.index id) there;
  })
  | inr missing ↦ absurd (cc (rw missing at h))
]

pub reset_leaf-IsConsistent : (m : SessionManager) → IsConsistent m → IsConsistent (reset_leaf m)
unfolding reset_leaf
reset_leaf-IsConsistent m w = record {
  tree = w.tree;
  index = w.index;
  labelled = w.labelled;
  leaf_known = tt;
}

-- `known` reads the index, and the tree agrees with it.
known-HasParent :
    (m : SessionManager)
    → IsConsistent m
    → (id : Option String) → known id m ≡ true
    → HasParent id (history m)
known-HasParent m w none h = tt
known-HasParent m w (some id) h = rw (← w.index id) h

pub branch_with_summary-IsConsistent :
    (m : SessionManager)
    → IsConsistent m
    → (env : Env) → Draws env m
    → (from : Option String) (summary : String) (details : Option Json) (hook : Option Bool)
    → (m' : SessionManager) (id : String)
    → branch_with_summary env from summary details hook m ≡ ok (m', id)
    → IsConsistent m'
unfolding branch_with_summary
branch_with_summary-IsConsistent m w env src from summary details hook m' id h =
    elim (Bool-cases (known from m)) [
      | inl there ↦
          subst (λ r. IsConsistent r.0) (ok-injective (rw there at h))
            (append_body-IsConsistent (record m { leaf_id = from })
              (record {
                tree = w.tree;
                index = w.index;
                labelled = w.labelled;
                leaf_known = known-HasParent m w from there;
              })
              env (record { nonempty = src.nonempty; unused = src.unused })
              (branch_summary (get_or_else from "root") summary details hook) tt)
      | inr missing ↦ absurd (cc (rw missing at h))
    ]
