-- ===== src/Channels/Bridge/Steps.antt =====
-- Every step of the bridge keeps its account.
use co_mono.Base.{
  ℕ, suc, ◌<◌, ◌≡◌, ◌∙◌, refl, sym, ap, subst, Bool, true, false, Option, none, some, List, [], ◌∷◌,
  ◌++◌, ltb, if-both, length, length-append, get_elem?, take, drop, String, Dict, dict_get, arith,
}
use co_mono.Channels.Bridge.{
  increment, decrement, at_least, QueuedPrompt, SenderSession, Flight, Bridge, session_at,
  put_session, is_full, launch, launch_at, process_next, is_waiting, drain, drain_waiting,
  settle_flight, without_flight, settle,
}
use co_mono.Channels.Bridge.Account.{
  difference, increment-difference, decrement-difference, at_least-difference, is_busy, bit,
  KnownAll, IsAccounted, is_busy-set, is_busy-set_same, length-set, is_busy-lt, flights_at-append,
  flights_at-without, length-without, KnownAll-get,
}

module _ (d : ℕ) where
  -- A change of an object that does not start or end a call.
  pub put_session-IsAccounted :
      (a : ℕ) (s : SenderSession) (b : Bridge)
      → s.processing ≡ is_busy (b.store) a
      → IsAccounted d b
      → IsAccounted d (put_session a s b)
  put_session-IsAccounted a s b same h = record {
    counted = h.counted;
    bounded = h.bounded;
    alone = λ c. h.alone c ∙ ap bit (sym (is_busy-set_same (b.store) a c s same));
    known = subst (λ n. KnownAll n (b.sessions)) (sym (length-set (b.store) a s)) (h.known);
  }

  launch-IsAccounted :
      (gateway : Bool) (key : String) (a : ℕ) (queue : List QueuedPrompt) (b : Bridge)
      → a < length (b.store)
      → is_busy (b.store) a ≡ false
      → is_full b ≡ false
      → IsAccounted d b
      → IsAccounted d (launch gateway key a (session_at a b) queue b)
  launch-IsAccounted gateway key a [] b there idle free h = h
  launch-IsAccounted false key a (prompt ∷ rest) b there idle free h =
      put_session-IsAccounted a (record (session_at a b) { queue = rest; processing = false }) b
        (sym idle) h
  launch-IsAccounted true key a (prompt ∷ rest) b there idle free h =
      let s : SenderSession = record (session_at a b) { queue = rest; processing = true } in
      let f : Flight = record { address = a; sender_key = key; prompt = prompt } in
      record {
        counted =
            ap increment (h.counted)
            ∙ increment-difference (length (b.flights)) d
            ∙ ap (λ n. difference n d) (omega (arith, length-append (b.flights) (f ∷ [])));
        bounded =
            let below =
              at_least-difference (length (b.flights)) d (b.max_concurrent)
                (ap (λ n. at_least n (b.max_concurrent)) (sym (h.counted)) ∙ free) in
            omega (arith, below, length-append (b.flights) (f ∷ []));
        alone = λ c.
            flights_at-append c (b.flights) f
            ∙ ground (arith, h.alone c, idle, is_busy-set (b.store) a c s there);
        known = subst (λ n. KnownAll n (b.sessions)) (sym (length-set (b.store) a s)) (h.known);
      }

  launch_at-IsAccounted :
      (gateway : Bool) (key : String) (o : Option ℕ) (b : Bridge)
      → dict_get (b.sessions) key ≡ o
      → IsAccounted d b
      → IsAccounted d (launch_at gateway key o b)
  launch_at-IsAccounted gateway key none b found h = h
  launch_at-IsAccounted gateway key (some a) b found h =
      if-both (IsAccounted d) (is_busy (b.store) a) (λ _. h)
        (λ idle.
          if-both (IsAccounted d) (is_full b) (λ _. h)
            (λ free.
              launch-IsAccounted gateway key a ((session_at a b).queue) b
                (KnownAll-get (length (b.store)) (b.sessions) key a (h.known) found) idle free h))

  pub process_next-IsAccounted :
      (gateway : Bool) (key : String) (b : Bridge)
      → IsAccounted d b
      → IsAccounted d (process_next gateway key b)
  unfolding process_next
  process_next-IsAccounted gateway key b h =
      launch_at-IsAccounted gateway key (dict_get (b.sessions) key) b refl h

  drain-IsAccounted :
      (gateway : Bool) (m : Dict ℕ) (b : Bridge)
      → IsAccounted d b
      → IsAccounted d (drain gateway m b)
  unfolding drain
  drain-IsAccounted gateway [] b h = h
  drain-IsAccounted gateway ((key, a) ∷ m) b h =
      let next = process_next-IsAccounted gateway key b h in
      if-both (IsAccounted d) (is_waiting (session_at a b))
        (λ _.
          if-both (IsAccounted d) (is_full (process_next gateway key b)) (λ _. next)
            (λ _. drain-IsAccounted gateway m (process_next gateway key b) next))
        (λ _. drain-IsAccounted gateway m b h)

  drain_waiting-IsAccounted :
      (gateway : Bool) (b : Bridge) → IsAccounted d b → IsAccounted d (drain_waiting gateway b)
  unfolding drain_waiting
  drain_waiting-IsAccounted gateway b h =
      if-both (IsAccounted d) (is_full b) (λ _. h) (λ _. drain-IsAccounted gateway (b.sessions) b h)

  -- The end of a call: its object is free again and the count falls by one.
  idle-IsAccounted :
      (i : ℕ) (f : Flight) (b : Bridge)
      → get_elem? (b.flights) i ≡ some f
      → IsAccounted d b
      → IsAccounted d
          (record (put_session
            (f.address)
            (record (session_at (f.address) b) { processing = false })
            (without_flight i b)) { active_count = decrement (b.active_count) })
  idle-IsAccounted i f b found h =
      let s : SenderSession = record (session_at (f.address) b) { processing = false } in
      let left = take i (b.flights) ++ drop (suc i) (b.flights) in
      let size = length-without i (b.flights) f found in
      let busy : is_busy (b.store) (f.address) ≡ true =
        ground (arith, h.alone (f.address), flights_at-without (f.address) i (b.flights) f found) in
      record {
        counted =
            ap decrement (h.counted ∙ ap (λ n. difference n d) size)
            ∙ decrement-difference (length left) d;
        bounded = omega (arith, h.bounded, size);
        alone = λ c. ground (
          arith,
          h.alone c,
          flights_at-without c i (b.flights) f found,
          busy,
          is_busy-set (b.store) (f.address) c s (is_busy-lt (b.store) (f.address) busy),
        );
        known =
            subst (λ n. KnownAll n (b.sessions)) (sym (length-set (b.store) (f.address) s))
              (h.known);
      }

  settle_flight-IsAccounted :
      (gateway : Bool) (i : ℕ) (o : Option Flight) (b : Bridge)
      → get_elem? (b.flights) i ≡ o
      → IsAccounted d b
      → IsAccounted d (settle_flight gateway i o b)
  settle_flight-IsAccounted gateway i none b found h = h
  settle_flight-IsAccounted gateway i (some f) b found h =
      let idle = idle-IsAccounted i f b found h in
      drain_waiting-IsAccounted gateway _ (
        if-both (IsAccounted d) (ltb 0 (length ((session_at (f.address) b).queue)))
          (λ _. process_next-IsAccounted gateway (f.sender_key) _ idle) (λ _. idle))

  pub settle-IsAccounted :
      (gateway : Bool) (i : ℕ) (b : Bridge) → IsAccounted d b → IsAccounted d (settle gateway i b)
  unfolding settle
  settle-IsAccounted gateway i b h =
      settle_flight-IsAccounted gateway i (get_elem? (b.flights) i) b refl h
