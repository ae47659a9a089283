-- ===== src/Channels/Tests.antt =====
-- A bridge that runs one prompt at a time (packages/pi-channels/src/bridge/bridge.ts).
use Prim.Native.Char.{code}
use co_mono.Base.{
  ℕ, ◌≡◌, refl, String, true, false, List, [], ◌∷◌, map, length, to_chars, trim_units, dict_get,
  dict_set, arith,
}
use co_mono.Channels.Command.{new, find_command, command_name}
use co_mono.Channels.Bridge.{
  pos, Bridge, IncomingMessage, Event, received, answered, started, stopped, handle_all,
  handle_message, settle, start_bridge, stop_bridge,
}
use co_mono.Channels.Bridge.Account.{IsAccounted, difference, no_key}
use co_mono.Channels.Bridge.Runs.{handle_all-IsAccounted, handle_all-stopped}

abbrev text : String → List ℕ
text s = map code (to_chars s)

abbrev message : String → String → IncomingMessage
message sender s = record { adapter = "webhook"; sender = sender; text = text s; rejected = false }

abbrev fresh : Bridge
fresh = record {
  sessions = [];
  store = [];
  flights = [];
  active_count = pos 0;
  running = false;
  max_queue = 5;
  max_concurrent = 1;
  commands = true;
}

fresh-IsAccounted : IsAccounted 0 fresh
unfolding difference
fresh-IsAccounted = record {
  counted = refl;
  bounded = omega arith;
  alone = λ a. refl;
  known = no_key;
}

new_command : find_command (command_name (text " /New@bot now")) ≡ new
unfolding find_command command_name trim_units
new_command = refl

-- Ann's second prompt and Bob's wait for Ann's first.
abbrev events : List Event
events =
    started true
    ∷ received true (message "ann" "one")
    ∷ received true (message "ann" "two")
    ∷ received true (message "bob" "three")
    ∷ []

handle_all-IsAccounted_example : IsAccounted 0 (
    handle_all
      (received true (message "ann" "/new") ∷ answered true 0 ∷ [])
      (handle_all events fresh))
handle_all-IsAccounted_example =
    handle_all-IsAccounted 0 (received true (message "ann" "/new") ∷ answered true 0 ∷ [])
      (handle_all events fresh) refl (handle_all-IsAccounted 0 events fresh refl fresh-IsAccounted)

-- One prompt ran when the bridge was stopped; after it has ended two run at once.
abbrev later : List Event
later =
    answered true 0
    ∷ started true
    ∷ received true (message "ann" "four")
    ∷ received true (message "bob" "five")
    ∷ []

two_at_once : length ((handle_all (stopped ∷ later) (handle_all events fresh)).flights) ≡ 2
unfolding handle_message settle start_bridge stop_bridge trim_units dict_get dict_set
two_at_once = refl

handle_all-stopped_example :
    (handle_all (stopped ∷ later) (handle_all events fresh)).active_count
    ≡ difference
        (length ((handle_all (stopped ∷ later) (handle_all events fresh)).flights))
        (length ((handle_all events fresh).flights))
handle_all-stopped_example =
    handle_all-stopped 0 later (handle_all events fresh) refl
      (handle_all-IsAccounted 0 events fresh refl fresh-IsAccounted)
