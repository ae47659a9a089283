-- ===== src/Channels/Bridge.antt =====
-- Class `ChatBridge` (packages/pi-channels/src/bridge/bridge.ts): a queue of prompts for each sender,
-- and a bound on the prompts that run at once.
pub mod Account
pub mod Steps
pub mod Messages
pub mod Runs
use co_mono.Base.{
  ℕ, zero, suc, ◌+◌, ◌-◌, Bool, true, false, not, ◌&&◌, ◌||◌, Option, none, some, List, [], ◌∷◌,
  ◌++◌, ◌==◌, leb, ltb, if◌then◌else◌, get_or_else, length, get_elem?, set, take, drop, String,
  str_eq, is_some, Dict, dict_get, dict_set, trim_units, str_append,
}
use co_mono.Channels.Command.{
  is_command, command_name, find_command, BotCommand, start, help, abort, status, new, unknown,
}

-- A count that can fall below zero.
pub data ℤ : Type 0 where
  pos : ℕ → ℤ
  negsuc : ℕ → ℤ

abbrev pub increment : ℤ → ℤ
increment (pos n) = pos (suc n)
increment (negsuc zero) = pos 0
increment (negsuc (suc n)) = negsuc n

abbrev pub decrement : ℤ → ℤ
decrement (pos zero) = negsuc zero
decrement (pos (suc n)) = pos n
decrement (negsuc n) = negsuc (suc n)

abbrev pub at_least : ℤ → ℕ → Bool
at_least (pos n) m = leb m n
at_least (negsuc n) m = false

pub record IncomingMessage : Type 0 where
  pub adapter : String
  pub sender : String
  pub text : List ℕ
  pub rejected : Bool

pub record QueuedPrompt : Type 0 where
  pub prompt_adapter : String
  pub prompt_sender : String
  pub prompt_text : List ℕ

-- `processing` and the abort controller are set and cleared together.
pub record SenderSession : Type 0 where
  pub session_sender : String
  pub queue : List QueuedPrompt
  pub processing : Bool
  pub message_count : ℕ

-- A call of `processNext` that awaits the gateway: the session object, the key and the prompt it holds.
pub record Flight : Type 0 where
  pub address : ℕ
  pub sender_key : String
  pub prompt : QueuedPrompt

-- `sessions` maps a key to the address of its object in `store`, where objects stay when the map forgets
-- them. `max_queue`, `max_concurrent` and `commands` are those of the configuration.
pub record Bridge : Type 0 where
  pub sessions : Dict ℕ
  pub store : List SenderSession
  pub flights : List Flight
  pub active_count : ℤ
  pub running : Bool
  pub max_queue : ℕ
  pub max_concurrent : ℕ
  pub commands : Bool

abbrev pub no_session : SenderSession
no_session = record { session_sender = ""; queue = []; processing = false; message_count = 0 }

abbrev pub session_at : ℕ → Bridge → SenderSession
session_at a b = get_or_else (get_elem? (b.store) a) no_session

abbrev pub put_session : ℕ → SenderSession → Bridge → Bridge
put_session a s b = record b { store = set (b.store) a s }

abbrev pub is_full : Bridge → Bool
is_full b = at_least (b.active_count) (b.max_concurrent)

-- The prompt goes to the gateway, or is dropped with a reply when there is none.
abbrev pub launch : Bool → String → ℕ → SenderSession → List QueuedPrompt → Bridge → Bridge
launch gateway key a s [] b = b
launch true key a s (prompt ∷ rest) b =
    record (put_session a (record s { queue = rest; processing = true }) b) {
      flights = b.flights ++ record { address = a; sender_key = key; prompt = prompt } ∷ [];
      active_count = increment (b.active_count);
    }
launch false key a s (prompt ∷ rest) b =
    put_session a (record s { queue = rest; processing = false }) b

abbrev pub launch_at : Bool → String → Option ℕ → Bridge → Bridge
launch_at gateway key none b = b
launch_at gateway key (some a) b =
    let s = session_at a b in
    if s.processing then b else if is_full b then b else launch gateway key a s (s.queue) b

-- `processNext` up to the call of the gateway. `gateway` says whether there is an active gateway.
pub process_next : (gateway : Bool) → String → Bridge → Bridge
process_next gateway key b = launch_at gateway key (dict_get (b.sessions) key) b

abbrev pub is_waiting : SenderSession → Bool
is_waiting s = not (s.processing) && ltb 0 (length (s.queue))

pub drain : Bool → Dict ℕ → Bridge → Bridge
unfolding process_next
drain gateway [] b = b
drain gateway ((key, a) ∷ others) b =
    let next = process_next gateway key b in
    let skipped = drain gateway others b in
    let more = drain gateway others next in
    if is_waiting (session_at a b) then if is_full next then next else more else skipped

pub drain_waiting : Bool → Bridge → Bridge
unfolding drain
drain_waiting gateway b = if is_full b then b else drain gateway (b.sessions) b

abbrev pub without_flight : ℕ → Bridge → Bridge
without_flight i b = record b { flights = take i (b.flights) ++ drop (suc i) (b.flights) }

abbrev pub settle_flight : Bool → ℕ → Option Flight → Bridge → Bridge
settle_flight gateway i none b = b
settle_flight gateway i (some flight) b =
    let s = session_at (flight.address) b in
    let idle =
      record (put_session (flight.address) (record s { processing = false }) (without_flight i b)) {
        active_count = decrement (b.active_count);
      } in
    let next =
      if ltb 0 (length (s.queue)) then process_next gateway (flight.sender_key) idle else idle in
    drain_waiting gateway next

-- The `finally` block of the call that `i` stands for, when the gateway has answered it or failed.
unfoldable pub settle : (gateway : Bool) → ℕ → Bridge → Bridge
unfolding process_next drain_waiting
settle gateway i b = settle_flight gateway i (get_elem? (b.flights) i) b

-- The session of `createSession` at a new address.
abbrev add_session : String → IncomingMessage → Bridge → Bridge
add_session key message b = record b {
  sessions = dict_set (b.sessions) key (length (b.store));
  store = b.store ++ record no_session { session_sender = message.sender } ∷ [];
}

abbrev pub ensure_session : String → IncomingMessage → Bridge → Bridge
ensure_session key message b =
    if is_some (dict_get (b.sessions) key) then b else add_session key message b

abbrev pub clear_queue : String → Dict ℕ → Bridge → Bridge
clear_queue sender [] b = b
clear_queue sender ((key, a) ∷ others) b =
    let s = session_at a b in
    let cleared = clear_queue sender others (put_session a (record s { queue = [] }) b) in
    let kept = clear_queue sender others b in
    if str_eq (s.session_sender) sender then cleared else kept

abbrev pub without_sender : String → Bridge → Dict ℕ → Dict ℕ
without_sender sender b [] = []
without_sender sender b ((key, a) ∷ others) =
    let rest = without_sender sender b others in
    if str_eq ((session_at a b).session_sender) sender then rest else (key, a) ∷ rest

pub reset_session : Bool → String → Bridge → Bridge
reset_session gateway sender b =
    if gateway then record b { sessions = without_sender sender b (b.sessions) } else b

-- What a command does to the bridge, none where no command has that name. Aborting asks the gateway.
pub handle_command : Bool → BotCommand → String → Bridge → Option Bridge
unfolding reset_session
handle_command gateway new sender b =
    some (reset_session gateway sender (clear_queue sender (b.sessions) b))
handle_command gateway unknown sender b = none
handle_command gateway _ sender b = some b

abbrev pub enqueue : ℕ → IncomingMessage → List ℕ → Bridge → Bridge
enqueue a message text b =
    let s = session_at a b in
    put_session a
      (record s {
        queue =
            s.queue
            ++ record {
              prompt_adapter = message.adapter;
              prompt_sender = message.sender;
              prompt_text = text;
            }
              ∷ [];
        message_count = suc (s.message_count);
      })
      b

abbrev pub sender_key_of : IncomingMessage → String
sender_key_of message = str_append (message.adapter) (str_append ":" (message.sender))

-- The queue's bound, the prompt put in the queue, and the next prompt of the sender.
pub accept : Bool → IncomingMessage → List ℕ → Bridge → Bridge
unfolding process_next
accept gateway message text b =
    let key = sender_key_of message in
    let a = get_or_else (dict_get (b.sessions) key) 0 in
    if leb (b.max_queue) (length ((session_at a b).queue))
    then b
    else process_next gateway key (enqueue a message text b)

-- A message without attachments. `metadata.rejected` is the field `rejected`; the replies to the sender
-- are left out.
unfoldable pub handle_message : (gateway : Bool) → IncomingMessage → Bridge → Bridge
unfolding accept handle_command is_command command_name find_command
handle_message gateway message b =
    let text = trim_units (message.text) in
    let known = ensure_session (sender_key_of message) message b in
    if not (b.running) || length text == 0 || message.rejected
    then b
    else if b.commands && is_command text
    then get_or_else
        (handle_command gateway (find_command (command_name text)) (message.sender) known)
        (accept gateway message text known)
    else accept gateway message text known

unfoldable pub start_bridge : Bool → Bridge → Bridge
start_bridge gateway b = if b.running then b else if gateway then record b { running = true } else b

unfoldable pub stop_bridge : Bridge → Bridge
stop_bridge b = record b { running = false; sessions = []; active_count = pos 0 }

pub data Event : Type 0 where
  received : (gateway : Bool) → IncomingMessage → Event
  answered : (gateway : Bool) → (flight : ℕ) → Event
  started : (gateway : Bool) → Event
  stopped : Event

abbrev pub handle : Event → Bridge → Bridge
handle (received gateway message) b = handle_message gateway message b
handle (answered gateway i) b = settle gateway i b
handle (started gateway) b = start_bridge gateway b
handle stopped b = stop_bridge b

abbrev pub handle_all : List Event → Bridge → Bridge
handle_all [] b = b
handle_all (event ∷ events) b = handle_all events (handle event b)
