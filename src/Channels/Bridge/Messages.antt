-- ===== src/Channels/Bridge/Messages.antt =====
-- A message that the bridge gets keeps its account.
use co_mono.Base.{
  ℕ, ◌∙◌, refl, sym, ap, Bool, not, ◌&&◌, ◌||◌, List, [], ◌∷◌, ◌++◌, ◌==◌, leb, if-both,
  get_or_else, is_some, length, length-append, String, str_eq, Dict, dict_get, trim_units, arith,
}
use co_mono.Channels.Command.{
  BotCommand, start, help, abort, status, new, unknown, is_command, command_name, find_command,
}
use co_mono.Channels.Bridge.{
  IncomingMessage, SenderSession, Bridge, no_session, session_at, put_session, ensure_session,
  clear_queue, without_sender, reset_session, handle_command, enqueue, accept, sender_key_of,
  handle_message, start_bridge,
}
use co_mono.Channels.Bridge.Account.{
  bit, KnownAll, no_key, then_key, IsAccounted, is_busy-append, KnownAll-le, KnownAll-set,
}
use co_mono.Channels.Bridge.Steps.{put_session-IsAccounted, process_next-IsAccounted}

module _ (d : ℕ) where
  ensure_session-IsAccounted :
      (key : String) (message : IncomingMessage) (b : Bridge)
      → IsAccounted d b
      → IsAccounted d (ensure_session key message b)
  ensure_session-IsAccounted key message b h =
      let s : SenderSession = record no_session { session_sender = message.sender } in
      if-both (IsAccounted d) (is_some (dict_get (b.sessions) key)) (λ _. h)
        (λ _. record {
          counted = h.counted;
          bounded = h.bounded;
          alone = λ c. h.alone c ∙ ap bit (sym (is_busy-append (b.store) s c refl));
          known =
              KnownAll-set (length (b.store ++ s ∷ [])) (b.sessions) key (length (b.store))
                (omega (arith, length-append (b.store) (s ∷ [])))
                (KnownAll-le (length (b.store)) (length (b.store ++ s ∷ [])) (b.sessions)
                  (omega (arith, length-append (b.store) (s ∷ []))) (h.known));
        })

  clear_queue-IsAccounted :
      (sender : String) (m : Dict ℕ) (b : Bridge)
      → IsAccounted d b
      → IsAccounted d (clear_queue sender m b)
  clear_queue-IsAccounted sender [] b h = h
  clear_queue-IsAccounted sender ((key, a) ∷ m) b h =
      let s : SenderSession = record (session_at a b) { queue = [] } in
      if-both (IsAccounted d) (str_eq ((session_at a b).session_sender) sender)
        (λ _.
          clear_queue-IsAccounted sender m (put_session a s b)
            (put_session-IsAccounted d a s b refl h))
        (λ _. clear_queue-IsAccounted sender m b h)

  KnownAll-without :
      (n : ℕ) (sender : String) (b : Bridge) (m : Dict ℕ)
      → KnownAll n m
      → KnownAll n (without_sender sender b m)
  KnownAll-without n sender b [] no_key = no_key
  KnownAll-without n sender b ((key, a) ∷ m) (then_key first others) =
      if-both (KnownAll n) (str_eq ((session_at a b).session_sender) sender)
        (λ _. KnownAll-without n sender b m others)
        (λ _. then_key first (KnownAll-without n sender b m others))

  reset_session-IsAccounted :
      (gateway : Bool) (sender : String) (b : Bridge)
      → IsAccounted d b
      → IsAccounted d (reset_session gateway sender b)
  unfolding reset_session
  reset_session-IsAccounted gateway sender b h =
      if-both (IsAccounted d) gateway
        (λ _. record {
          counted = h.counted;
          bounded = h.bounded;
          alone = h.alone;
          known = KnownAll-without (length (b.store)) sender b (b.sessions) (h.known);
        })
        (λ _. h)

  accept-IsAccounted :
      (gateway : Bool) (message : IncomingMessage) (text : List ℕ) (b : Bridge)
      → IsAccounted d b
      → IsAccounted d (accept gateway message text b)
  unfolding accept
  accept-IsAccounted gateway message text b h =
      let key = sender_key_of message in
      let a = get_or_else (dict_get (b.sessions) key) 0 in
      if-both (IsAccounted d) (leb (b.max_queue) (length ((session_at a b).queue))) (λ _. h)
        (λ _.
          process_next-IsAccounted d gateway key (enqueue a message text b)
            (put_session-IsAccounted d a _ b refl h))

  command-IsAccounted :
      (gateway : Bool) (command : BotCommand) (message : IncomingMessage) (text : List ℕ)
      (b : Bridge)
      → IsAccounted d b
      → IsAccounted d (
          get_or_else
            (handle_command gateway command (message.sender) b)
            (accept gateway message text b))
  unfolding handle_command
  command-IsAccounted gateway start message text b h = h
  command-IsAccounted gateway help message text b h = h
  command-IsAccounted gateway abort message text b h = h
  command-IsAccounted gateway status message text b h = h
  command-IsAccounted gateway new message text b h =
      reset_session-IsAccounted gateway (message.sender)
        (clear_queue (message.sender) (b.sessions) b)
        (clear_queue-IsAccounted (message.sender) (b.sessions) b h)
  command-IsAccounted gateway unknown message text b h = accept-IsAccounted gateway message text b h

  pub handle_message-IsAccounted :
      (gateway : Bool) (message : IncomingMessage) (b : Bridge)
      → IsAccounted d b
      → IsAccounted d (handle_message gateway message b)
  unfolding handle_message
  handle_message-IsAccounted gateway message b h =
      let text = trim_units (message.text) in
      let known = ensure_session-IsAccounted (sender_key_of message) message b h in
      if-both (IsAccounted d) (not (b.running) || length text == 0 || message.rejected) (λ _. h)
        (λ _.
          if-both (IsAccounted d) (b.commands && is_command text)
            (λ _.
              command-IsAccounted gateway (find_command (command_name text)) message text _ known)
            (λ _. accept-IsAccounted gateway message text _ known))

  pub start_bridge-IsAccounted :
      (gateway : Bool) (b : Bridge) → IsAccounted d b → IsAccounted d (start_bridge gateway b)
  unfolding start_bridge
  start_bridge-IsAccounted gateway b h =
      if-both (IsAccounted d) (b.running) (λ _. h)
        (λ _.
          if-both (IsAccounted d) gateway
            (λ _. record {
              counted = h.counted;
              bounded = h.bounded;
              alone = h.alone;
              known = h.known;
            })
            (λ _. h))
