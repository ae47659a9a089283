-- ===== src/Teams/Tests.antt =====
-- Two deliveries to one mailbox (packages/pi-teams/src/utils/lock.ts, messaging.ts).
use co_mono.Base.{◌≡◌, ◌≤◌, ◌+◌, refl, String, Bool, true, false, none, some, List, [], ◌∷◌}
use co_mono.Teams.Lock.{InboxMessage, looping, Call, System, contents, Move, tick, step, move, run}
use co_mono.Teams.Lock.Counts.{count}
use co_mono.Teams.Lock.Exclusive.{holds, delivers}
use co_mono.Teams.Lock.Delivery.{run-deliveries}

abbrev note : String → InboxMessage
note text = record {
  from = "lead";
  text = text;
  timestamp = "t";
  read = false;
  summary = none;
  color = none;
}

abbrev calling : String → Call
calling text = record { message = note text; stage = looping 50 }

abbrev any_message : InboxMessage → Bool
any_message m = true

abbrev two_calls : System
two_calls = record {
  clock = 0;
  lock_file = none;
  inbox = none;
  calls = calling "one" ∷ calling "two" ∷ [];
}

-- The second call finds the lock taken, waits, and delivers behind the first.
abbrev in_turn : List Move
in_turn =
    step 0
    ∷ step 1
    ∷ step 0
    ∷ step 1
    ∷ step 0
    ∷ step 0
    ∷ step 0
    ∷ tick 100
    ∷ step 1
    ∷ step 1
    ∷ step 1
    ∷ step 1
    ∷ step 1
    ∷ step 1
    ∷ []

both_arrive : contents (run in_turn two_calls) ≡ note "one" ∷ note "two" ∷ []
unfolding move
both_arrive = refl

run-deliveries_example :
    (count holds ((run in_turn two_calls).calls) ≤ 1)
    × (count any_message (contents (run in_turn two_calls))
        ≡ count any_message (contents two_calls)
          + count (delivers any_message) ((run in_turn two_calls).calls))
unfolding move
run-deliveries_example = run-deliveries in_turn two_calls any_message refl refl refl

-- A lock file is left over. Both calls find it too old; the second removes the lock of the first.
abbrev left_over : System
left_over = record two_calls { clock = 40000; lock_file = some 0 }

abbrev both_remove : List Move
both_remove =
    step 0
    ∷ step 1
    ∷ step 0
    ∷ step 1
    ∷ step 0
    ∷ step 0
    ∷ step 1
    ∷ step 1
    ∷ step 0
    ∷ step 1
    ∷ step 0
    ∷ step 1
    ∷ []

two_holders :
    count holds (
      (run
        (step 0 ∷ step 1 ∷ step 0 ∷ step 1 ∷ step 0 ∷ step 0 ∷ step 1 ∷ step 1 ∷ [])
        left_over).calls)
    ≡ 2
unfolding move
two_holders = refl

first_lost : contents (run both_remove left_over) ≡ note "two" ∷ []
unfolding move
first_lost = refl
