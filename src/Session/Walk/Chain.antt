-- ===== src/Session/Walk/Chain.antt =====
-- What the walk of `getBranch` returns: the chain of parents, read off in one pass over the
-- entries from the newest to the oldest.
use co_mono.Base.{
  ℕ, zero, suc, ◌≤◌, ◌≡◌, ◌≢◌, ◌∙◌, sym, refl, String, Bool, true, false, Option, none, some, List,
  [], ◌∷◌, ◌++◌, str_eq, eq_iff, if◌then◌else◌, length, arith, Bool-cases, inl, inr, Dict, dict_get,
  length-reverse, append_assoc,
}
use co_mono.Session.Entry.{SessionEntry, get_entries}
use co_mono.Session.Manager.{SessionManager}
use co_mono.Session.Tree.{history, find_id, HasParent, IsTree, IsConsistent}
use co_mono.Session.Walk.{get_parent, walk, start_id, get_branch}

abbrev is_id : Option String → String → Bool
is_id none k = false
is_id (some j) k = str_eq k j

-- The chain that ends in the entry `id`, in front of `path`.
unfoldable pub chain : List SessionEntry → Option String → List SessionEntry → List SessionEntry
chain [] id path = path
chain (e ∷ older) id path =
    chain older (if is_id id e.id then e.parent_id else id)
      (if is_id id e.id then e ∷ path else path)

-- The index knows every entry of a list.
abbrev Knows : Dict SessionEntry → List SessionEntry → Type 0
Knows by_id es = (k : String) (e : SessionEntry) → find_id k es ≡ some e → dict_get by_id k ≡ some e

Knows-tail :
    (by_id : Dict SessionEntry) (e : SessionEntry) (older : List SessionEntry)
    → find_id e.id older ≡ none
    → Knows by_id (e ∷ older)
    → Knows by_id older
Knows-tail by_id e older fresh knows k x h = ground (arith, knows k x, eq_iff e.id k)

chain-none : (es : List SessionEntry) (path : List SessionEntry) → chain es none path ≡ path
unfolding chain
chain-none [] path = refl
chain-none (e ∷ older) path = chain-none older path

get_parent-none : (by_id : Dict SessionEntry) → get_parent by_id none ≡ none
unfolding get_parent
get_parent-none by_id = refl

get_parent-hit :
    (by_id : Dict SessionEntry) (e : SessionEntry) (older : List SessionEntry) (k : String)
    → str_eq e.id k ≡ true
    → e.id ≢ ""
    → Knows by_id (e ∷ older)
    → get_parent by_id (some k) ≡ some e
unfolding get_parent
get_parent-hit by_id e older k hit named knows =
    ground (arith, knows k e, eq_iff e.id k, eq_iff k "")

module _ (by_id : Dict SessionEntry) where
  walk-chain :
      (es : List SessionEntry) (fuel : ℕ) (id : Option String) (path : List SessionEntry)
      → length es ≤ fuel
      → IsTree es
      → Knows by_id es
      → HasParent id es
      → walk fuel by_id (get_parent by_id id) path ≡ some (chain es id path)
  unfolding walk chain
  walk-chain es fuel none path enough t knows p = rw (get_parent-none, chain-none) refl
  walk-chain [] fuel (some k) path enough t knows p = absurd (cc)
  walk-chain (e ∷ older) zero (some k) path enough t knows p = absurd (omega arith)
  walk-chain (e ∷ older) (suc fuel) (some k) path enough t knows p =
      elim (Bool-cases (str_eq e.id k)) [
        | inl hit ↦
            rw (get_parent-hit by_id e older k hit t.1 knows, hit)
              (walk-chain older fuel e.parent_id (e ∷ path) (omega arith) t.3
                (Knows-tail by_id e older t.0 knows) t.2)
        | inr miss ↦ rw miss (
            walk-chain older (suc fuel) (some k) path (omega arith) t.3
              (Knows-tail by_id e older t.0 knows) (rw miss at p))
      ]

-- In a consistent session the walk ends, and returns the chain of the entry that it starts from:
-- the leaf, or any entry of the session.
pub get_branch-chain :
    (m : SessionManager)
    → IsConsistent m
    → (from_id : Option String) → HasParent (start_id from_id m) (history m)
    → get_branch from_id m ≡ some (chain (history m) (start_id from_id m) [])
unfolding get_branch
get_branch-chain m w from_id p =
    walk-chain m.by_id (history m) (length (get_entries m.file_entries)) (start_id from_id m) []
      (omega (arith, length-reverse (get_entries m.file_entries))) w.tree (λ k e h. w.index k ∙ h) p

-- The path in front of which a chain is put stays behind it.
pub chain-append :
    (es : List SessionEntry) (id : Option String) (path : List SessionEntry)
    → chain es id path ≡ chain es id [] ++ path
unfolding chain
chain-append [] id path = refl
chain-append (e ∷ older) id path = elim (Bool-cases (is_id id e.id)) [
  | inl hit ↦ rw hit (
      chain-append older e.parent_id (e ∷ path)
      ∙ rw (chain-append older e.parent_id (e ∷ []))
          (sym (append_assoc (chain older e.parent_id []) (e ∷ []) path)))
  | inr miss ↦ rw miss (chain-append older id path)
]

pub chain-cons_self :
    (e : SessionEntry) (older path : List SessionEntry)
    → chain (e ∷ older) (some e.id) path ≡ chain older e.parent_id (e ∷ path)
unfolding chain
chain-cons_self e older path = rw ((eq_iff e.id e.id).1 refl)

pub chain-cons_ne :
    (e : SessionEntry) (older path : List SessionEntry) (k : String)
    → str_eq e.id k ≡ false
    → chain (e ∷ older) (some k) path ≡ chain older (some k) path
unfolding chain
chain-cons_ne e older path k miss = rw miss
