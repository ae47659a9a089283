-- ===== src/Channels/Bridge/Runs.antt =====
-- The bridge's account over any events.
use co_mono.Base.{
  ℕ, ◌≡◌, sym, Bool, true, false, not, List, [], ◌∷◌, length, every, and-split, arith,
}
use co_mono.Channels.Bridge.{
  Bridge, stop_bridge, Event, received, answered, started, stopped, handle, handle_all,
}
use co_mono.Channels.Bridge.Account.{difference, difference-same, no_key, IsAccounted}
use co_mono.Channels.Bridge.Steps.{settle-IsAccounted}
use co_mono.Channels.Bridge.Messages.{handle_message-IsAccounted, start_bridge-IsAccounted}

abbrev is_stop : Event → Bool
is_stop stopped = true
is_stop _ = false

handle-IsAccounted :
    (d : ℕ) (event : Event) (b : Bridge)
    → is_stop event ≡ false
    → IsAccounted d b
    → IsAccounted d (handle event b)
handle-IsAccounted d (received gateway message) b other h =
    handle_message-IsAccounted d gateway message b h
handle-IsAccounted d (answered gateway i) b other h = settle-IsAccounted d gateway i b h
handle-IsAccounted d (started gateway) b other h = start_bridge-IsAccounted d gateway b h
handle-IsAccounted d stopped b other h = absurd (cc (other))

-- While the bridge is not stopped, its count of running prompts stays the number of calls that wait for
-- the gateway less `d`, no more than `d` of them are beyond the configured bound, and a session object is
-- processing exactly while one call holds it, never two, if all this was so before the events. Messages
-- with commands, answers in any order and a missing gateway are among the events. With `d` zero, as for a
-- new bridge, the bound is kept.
pub handle_all-IsAccounted :
    (d : ℕ) (events : List Event) (b : Bridge)
    → every (λ e. not (is_stop e)) events ≡ true
    → IsAccounted d b
    → IsAccounted d (handle_all events b)
handle_all-IsAccounted d [] b others h = h
handle_all-IsAccounted d (event ∷ events) b others h =
    let (first, later) =
      and-split (not (is_stop event)) (every (λ e. not (is_stop e)) events) others in
    handle_all-IsAccounted d events (handle event b) later
      (handle-IsAccounted d event b (ground (arith, first)) h)

stop_bridge-IsAccounted :
    (d : ℕ) (b : Bridge) → IsAccounted d b → IsAccounted (length (b.flights)) (stop_bridge b)
unfolding stop_bridge
stop_bridge-IsAccounted d b h = record {
  counted = sym (difference-same (length (b.flights)));
  bounded = omega arith;
  alone = h.alone;
  known = no_key;
}

-- Stopping the bridge sets its count to zero under the prompts that run, and these take their share off
-- when they end: from then on, until another stop, the count is the number of running prompts less those
-- that ran at the stop, below zero when these end first.
pub handle_all-stopped :
    (d : ℕ) (events : List Event) (b : Bridge)
    → every (λ e. not (is_stop e)) events ≡ true
    → IsAccounted d b
    → (handle_all (stopped ∷ events) b).active_count
      ≡ difference (length ((handle_all (stopped ∷ events) b).flights)) (length (b.flights))
handle_all-stopped d events b others h =
    (handle_all-IsAccounted (length (b.flights)) events (stop_bridge b) others
      (stop_bridge-IsAccounted d b h)).counted
