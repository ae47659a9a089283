-- ===== src/Teams/Lock/Delivery.antt =====
-- While the lock is given back in time, one call at most holds it, and no delivered message is lost.
use co_mono.Base.{
  ℕ, ◌+◌, ◌≤◌, ◌≡◌, ◌∙◌, refl, sym, ap, inl, inr, Bool, true, false, Option, none, some, List, [],
  ◌∷◌, get_elem?, every, every-get, and-split, if-true, if-false, is_some, Bool-cases, arith,
}
use co_mono.Teams.Lock.{
  InboxMessage, Stage, looping, looking, removing, creating, waiting, reading, writing, releasing,
  finished, failed, Call, System, contents, is_stale, act_at, Move, tick, step, move, run,
  stays_fresh,
}
use co_mono.Teams.Lock.Counts.{bit, count}
use co_mono.Teams.Lock.Exclusive.{holds, removes, delivers, IsExclusive, act-IsExclusive, bit-le}

act_at-IsExclusive :
    (initial : List InboxMessage) (i : ℕ) (o : Option Call) (sys : System)
    → get_elem? (sys.calls) i ≡ o
    → is_stale sys ≡ false
    → IsExclusive initial sys
    → IsExclusive initial (act_at i o sys)
act_at-IsExclusive initial i none sys found fresh h = h
act_at-IsExclusive initial i (some call) sys found fresh h =
    act-IsExclusive initial i (call.message) (call.stage) sys found fresh h

move-IsExclusive :
    (initial : List InboxMessage) (mv : Move) (sys : System)
    → is_stale sys ≡ false
    → IsExclusive initial sys
    → IsExclusive initial (move mv sys)
unfolding move
move-IsExclusive initial (tick n) sys fresh h = record {
  held = h.held;
  none_removes = h.none_removes;
  snapshots = h.snapshots;
  delivered = h.delivered;
}
move-IsExclusive initial (step i) sys fresh h =
    act_at-IsExclusive initial i (get_elem? (sys.calls) i) sys refl fresh h

run-IsExclusive :
    (initial : List InboxMessage) (moves : List Move) (sys : System)
    → stays_fresh moves sys ≡ true
    → IsExclusive initial sys
    → IsExclusive initial (run moves sys)
run-IsExclusive initial [] sys fresh h = h
run-IsExclusive initial (mv ∷ moves) sys fresh h = elim (Bool-cases (is_stale sys)) [
  | inl stale ↦
      absurd (cc (fresh, if-true (is_stale sys) false (stays_fresh moves (move mv sys)) stale))
  | inr not_stale ↦
      run-IsExclusive initial moves (move mv sys)
        (sym (if-false (is_stale sys) false (stays_fresh moves (move mv sys)) not_stale) ∙ fresh)
        (move-IsExclusive initial mv sys not_stale h)
]

abbrev is_new : Call → Bool
is_new c = elim (c.stage) [ looping n ↦ true | _ ↦ false ]

-- A new call is at its loop, whose other tests are false.
new_loops :
    (stage : Stage) (m : InboxMessage)
    → is_new (record { message = m; stage = stage }) ≡ true
    → (n : ℕ) × (stage ≡ looping n)
new_loops (looping n) m h = (n, refl)
new_loops (looking n) m h = absurd (cc (h))
new_loops (removing n) m h = absurd (cc (h))
new_loops (creating n) m h = absurd (cc (h))
new_loops (waiting n) m h = absurd (cc (h))
new_loops reading m h = absurd (cc (h))
new_loops (writing msgs) m h = absurd (cc (h))
new_loops releasing m h = absurd (cc (h))
new_loops finished m h = absurd (cc (h))
new_loops failed m h = absurd (cc (h))

new_test :
    (q : Call → Bool) (c : Call)
    → is_new c ≡ true
    → ((n : ℕ) → q (record { message = c.message; stage = looping n }) ≡ false)
    → q c ≡ false
new_test q c h at_loop =
    let (n, loops) = new_loops (c.stage) (c.message) h in
    ap (λ stage. q (record { message = c.message; stage = stage })) loops ∙ at_loop n

new-counts :
    (q : Call → Bool) (calls : List Call)
    → ((c : Call) → is_new c ≡ true → q c ≡ false)
    → every is_new calls ≡ true
    → count q calls ≡ 0
new-counts q [] h all_new = refl
new-counts q (c ∷ calls) h all_new =
    let (here, later) = and-split (is_new c) (every is_new calls) all_new in
    omega (arith, ap bit (h c here), new-counts q calls h later)

start-IsExclusive :
    (sys : System)
    → every is_new (sys.calls) ≡ true
    → is_some (sys.lock_file) ≡ false
    → IsExclusive (contents sys) sys
start-IsExclusive sys all_new free = record {
  held = omega (
    arith,
    new-counts holds (sys.calls) (λ c h. new_test holds c h (λ n. refl)) all_new,
    ap bit free,
  );
  none_removes = new-counts removes (sys.calls) (λ c h. new_test removes c h (λ n. refl)) all_new;
  snapshots = λ j m msgs there. absurd (
      cc (
        every-get is_new (sys.calls) j (record { message = m; stage = writing msgs }) all_new
          there));
  delivered = λ p. omega (
    arith,
    new-counts (delivers p) (sys.calls) (λ c h. new_test (delivers p) c h (λ n. refl)) all_new,
  );
}

-- Calls that deliver messages to one mailbox at once, with the accesses of files in any order and any
-- time passing: as long as no lock file gets older than the timeout, at most one call is inside the lock,
-- and of every kind of message the inbox has as many as it had at first and as the calls that have
-- written theirs. So no delivery overwrites another. At first no call has looked for the lock, and there
-- is no lock file.
pub run-deliveries :
    (moves : List Move) (sys : System) (p : InboxMessage → Bool)
    → stays_fresh moves sys ≡ true
    → every is_new (sys.calls) ≡ true
    → is_some (sys.lock_file) ≡ false
    → (count holds ((run moves sys).calls) ≤ 1)
      × (count p (contents (run moves sys))
          ≡ count p (contents sys) + count (delivers p) ((run moves sys).calls))
run-deliveries moves sys p fresh all_new free =
    let after =
      run-IsExclusive (contents sys) moves sys fresh (start-IsExclusive sys all_new free) in
    (omega (arith, after.held, bit-le (is_some ((run moves sys).lock_file))), after.delivered p)
