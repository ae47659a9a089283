-- ===== src/Teams/Lock.antt =====
-- `withLock` (packages/pi-teams/src/utils/lock.ts) around the delivery of a message, `appendMessage`
-- (packages/pi-teams/src/utils/messaging.ts): processes that run at once on the files of one mailbox.
pub mod Counts
pub mod Exclusive
pub mod Delivery
use co_mono.Base.{
  ℕ, zero, suc, ◌+◌, ◌-◌, Bool, true, false, Option, none, some, List, [], ◌∷◌, ◌++◌, String, ltb,
  if◌then◌else◌, get_or_else, is_some, get_elem?, set,
}

-- Milliseconds.
abbrev stale_lock_timeout : ℕ
stale_lock_timeout = 30000

pub record InboxMessage : Type 0 where
  pub from : String
  pub text : String
  pub timestamp : String
  pub read : Bool
  pub summary : Option String
  pub color : Option String

-- Where a call is. `retries` counts the rounds that are left. A call makes one access of a file in a
-- step, so others can come between any two of them.
pub data Stage : Type 0 where
  looping looking removing creating waiting : (retries : ℕ) → Stage
  reading : Stage
  writing : (msgs : List InboxMessage) → Stage
  releasing finished failed : Stage

pub record Call : Type 0 where
  pub message : InboxMessage
  pub stage : Stage

-- The lock file is the time at which it was made. The inbox is none before its file exists.
pub record System : Type 0 where
  pub clock : ℕ
  pub lock_file : Option ℕ
  pub inbox : Option (List InboxMessage)
  pub calls : List Call

abbrev pub contents : System → List InboxMessage
contents sys = get_or_else (sys.inbox) []

abbrev pub is_stale : System → Bool
is_stale sys = ltb stale_lock_timeout (sys.clock - get_or_else (sys.lock_file) (sys.clock))

abbrev pub go_to : ℕ → InboxMessage → Stage → System → System
go_to i m stage sys = record sys {
  calls = set (sys.calls) i (record { message = m; stage = stage });
}

-- The next access to a file by the call at `i`.
abbrev pub act : ℕ → InboxMessage → Stage → System → System
act i m (looping zero) sys = go_to i m failed sys
act i m (looping (suc n)) sys =
    if is_some (sys.lock_file)
    then go_to i m (looking (suc n)) sys
    else go_to i m (creating (suc n)) sys
act i m (looking n) sys =
    if is_some (sys.lock_file)
    then if is_stale sys then go_to i m (removing n) sys else go_to i m (creating n) sys
    else go_to i m (waiting (n - 1)) sys
act i m (removing n) sys = record (go_to i m (creating n) sys) { lock_file = none }
act i m (creating n) sys =
    if is_some (sys.lock_file)
    then go_to i m (waiting (n - 1)) sys
    else record (go_to i m reading sys) { lock_file = some (sys.clock) }
act i m (waiting n) sys = go_to i m (looping n) sys
act i m reading sys = go_to i m (writing (contents sys)) sys
act i m (writing msgs) sys = record (go_to i m releasing sys) { inbox = some (msgs ++ m ∷ []) }
act i m releasing sys = record (go_to i m finished sys) { lock_file = none }
act i m finished sys = sys
act i m failed sys = sys

abbrev pub act_at : ℕ → Option Call → System → System
act_at i none sys = sys
act_at i (some call) sys = act i (call.message) (call.stage) sys

pub data Move : Type 0 where
  tick : ℕ → Move
  step : ℕ → Move

unfoldable pub move : Move → System → System
move (tick n) sys = record sys { clock = sys.clock + n }
move (step i) sys = act_at i (get_elem? (sys.calls) i) sys

abbrev pub run : List Move → System → System
run [] sys = sys
run (m ∷ ms) sys = run ms (move m sys)

-- On no way the lock file gets older than the timeout: whoever holds the lock gives it back in time.
abbrev pub stays_fresh : List Move → System → Bool
stays_fresh [] sys = true
stays_fresh (m ∷ ms) sys = if is_stale sys then false else stays_fresh ms (move m sys)
