-- ===== src/Session/Reach.antt =====
-- Every run of the methods of class `SessionManager` from a new session
-- (packages/coding-agent/src/core/session-manager.ts), as a step relation.
use co_mono.Base.{◌≡◌, String, Bool, Option}
use co_mono.Message.{Json}
use co_mono.Session.Entry.{Body, Env}
use co_mono.Session.Manager.{
  SessionManager, ok, append_body, append_label_change, branch, reset_leaf, branch_with_summary,
}
use co_mono.Session.Tree.{IsConsistent, IsNoLabel}
use co_mono.Session.Append.{
  Draws, append_body-IsConsistent, append_label_change-IsConsistent, branch-IsConsistent,
  reset_leaf-IsConsistent, branch_with_summary-IsConsistent,
}

-- One call of a method. `append` stands for the seven methods that append an entry other than a
-- label change, by the body that the method builds. A call that throws is no step.
pub data Step (m : SessionManager) : SessionManager → Type 0 where
  append :
      (env : Env) (body : Body) → Draws env m → IsNoLabel body → Step m (append_body env body m).0
  set_label :
      (env : Env) (target : String) (text : Option String) {n : SessionManager} (id : String)
      → Draws env m
      → append_label_change env target text m ≡ ok (n, id)
      → Step m n
  move : (id : String) {n : SessionManager} → branch id m ≡ ok n → Step m n
  reset : Step m (reset_leaf m)
  summarize :
      (env : Env) (from : Option String) (summary : String) (details : Option Json)
      (hook : Option Bool) {n : SessionManager} (id : String)
      → Draws env m
      → branch_with_summary env from summary details hook m ≡ ok (n, id)
      → Step m n

pub data Reach (m : SessionManager) : SessionManager → Type 0 where
  here : Reach m m
  next : {n k : SessionManager} → Reach m n → Step n k → Reach m k

Step-IsConsistent : {m n : SessionManager} → Step m n → IsConsistent m → IsConsistent n
Step-IsConsistent {m} (append env body src plain) w =
    append_body-IsConsistent m w env src body plain
Step-IsConsistent {m} (set_label env target text {n} id src h) w =
    append_label_change-IsConsistent m w env src target text n id h
Step-IsConsistent {m} (move id {n} h) w = branch-IsConsistent m w id n h
Step-IsConsistent {m} reset w = reset_leaf-IsConsistent m w
Step-IsConsistent {m} (summarize env from summary details hook {n} id src h) w =
    branch_with_summary-IsConsistent m w env src from summary details hook n id h

-- Every run of the methods keeps the session consistent, where each id is drawn from UUIDs none of which
-- is empty and of which the one that follows a hundred collisions is not an entry's id: every entry has
-- an id that is not empty and that no older entry has, and hangs under an older entry or is a root (there
-- may be several roots); every lookup by id finds its entry; the labels are those of the newest label
-- changes; and the leaf is null or an entry.
pub Reach-IsConsistent : {m n : SessionManager} → IsConsistent m → Reach m n → IsConsistent n
Reach-IsConsistent w here = w
Reach-IsConsistent w (next r s) = Step-IsConsistent s (Reach-IsConsistent w r)
