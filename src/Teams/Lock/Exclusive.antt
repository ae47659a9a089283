-- ===== src/Teams/Lock/Exclusive.antt =====
-- One access of a file keeps the lock exclusive and the inbox complete.
use co_mono.Base.{
  ℕ, zero, suc, ◌+◌, ◌-◌, ◌≤◌, ◌≡◌, ◌∙◌, refl, sym, ap, inl, inr, Bool, true, false, ◌&&◌, none,
  some, List, [], ◌∷◌, ◌++◌, get_elem?, set, if-both, is_some, arith,
}
use co_mono.Teams.Lock.{
  InboxMessage, Stage, looping, looking, removing, creating, waiting, reading, writing, releasing,
  finished, failed, Call, System, contents, is_stale, go_to, act,
}
use co_mono.Teams.Lock.Counts.{bit, count, count-append, count-set, count-get, get-set, set-get}

abbrev pub holds : Call → Bool
holds c = elim (c.stage) [ reading ↦ true | writing msgs ↦ true | releasing ↦ true | _ ↦ false ]

abbrev pub removes : Call → Bool
removes c = elim (c.stage) [ removing n ↦ true | _ ↦ false ]

abbrev has_written : Call → Bool
has_written c = elim (c.stage) [ releasing ↦ true | finished ↦ true | _ ↦ false ]

abbrev pub delivers : (InboxMessage → Bool) → Call → Bool
delivers p c = has_written c && p (c.message)

-- One call holds the lock while its file is there, none otherwise, and none is about to remove the file of
-- another. A call that has read the inbox has read what is in it. Of each kind of message the inbox has
-- those of `initial` and those that were written.
pub record IsExclusive (initial : List InboxMessage) (sys : System) : Type 0 where
  pub held : count holds (sys.calls) ≡ bit (is_some (sys.lock_file))
  pub none_removes : count removes (sys.calls) ≡ 0
  pub snapshots :
      (j : ℕ) (m : InboxMessage) (msgs : List InboxMessage)
      → get_elem? (sys.calls) j ≡ some (record { message = m; stage = writing msgs })
      → msgs ≡ contents sys
  pub delivered :
      (p : InboxMessage → Bool)
      → count p (contents sys) ≡ count p initial + count (delivers p) (sys.calls)

abbrev no_writing : Stage → Bool
no_writing (writing msgs) = false
no_writing _ = true

abbrev messages_read : Stage → List InboxMessage → List InboxMessage
messages_read (writing msgs) default = msgs
messages_read _ default = default

pub bit-le : (b : Bool) → bit b ≤ 1
bit-le true = omega arith
bit-le false = omega arith

stage_of : Call → Stage
stage_of c = c.stage

module _ (initial : List InboxMessage) (i : ℕ) (m : InboxMessage) where
  -- The snapshots after a change to a stage that has none.
  keep-snapshots :
      (sys : System) (stage : Stage)
      → no_writing stage ≡ true
      → IsExclusive initial sys
      → (old : Stage) → get_elem? (sys.calls) i ≡ some (record { message = m; stage = old })
      → (j : ℕ) (n : InboxMessage) (msgs : List InboxMessage)
      → get_elem? (set (sys.calls) i (record { message = m; stage = stage })) j
        ≡ some (record { message = n; stage = writing msgs })
      → msgs ≡ contents sys
  unfolding stage_of
  keep-snapshots sys stage other h old found j n msgs there =
      elim (get-set (sys.calls) i j (record { message = m; stage = stage })
        (record { message = m; stage = old }) (record { message = n; stage = writing msgs })
        there) [
          | inl same ↦ absurd (cc (other, ap (λ c. no_writing (stage_of c)) same))
          | inr old_place ↦ h.snapshots j n msgs (
              ap (λ calls. get_elem? calls j)
                (sym (set-get (sys.calls) i (record { message = m; stage = old }) found))
              ∙ old_place)
        ]

  -- A step that neither takes nor gives back the lock.
  go_to-IsExclusive :
      (old stage : Stage) (sys : System)
      → get_elem? (sys.calls) i ≡ some (record { message = m; stage = old })
      → holds (record { message = m; stage = old }) ≡ holds (record { message = m; stage = stage })
      → removes (record { message = m; stage = stage }) ≡ false
      → has_written (record { message = m; stage = old })
        ≡ has_written (record { message = m; stage = stage })
      → no_writing stage ≡ true
      → IsExclusive initial sys
      → IsExclusive initial (go_to i m stage sys)
  go_to-IsExclusive old stage sys found same_hold no_remove same_written other h =
      let x : Call = record { message = m; stage = old } in
      let y : Call = record { message = m; stage = stage } in
      record {
        held = omega (arith, count-set holds (sys.calls) i x y found, ap bit same_hold, h.held);
        none_removes =
            omega
              (arith, count-set removes (sys.calls) i x y found, ap bit no_remove, h.none_removes);
        snapshots = keep-snapshots sys stage other h old found;
        delivered = λ p. omega (
          arith,
          count-set (delivers p) (sys.calls) i x y found,
          ap (λ b. bit (b && p m)) same_written,
          h.delivered p,
        );
      }

  -- The lock is taken while its file is not there.
  take-IsExclusive :
      (n : ℕ) (sys : System)
      → get_elem? (sys.calls) i ≡ some (record { message = m; stage = creating n })
      → is_some (sys.lock_file) ≡ false
      → IsExclusive initial sys
      → IsExclusive initial (record (go_to i m reading sys) { lock_file = some (sys.clock) })
  take-IsExclusive n sys found free h =
      let x : Call = record { message = m; stage = creating n } in
      let y : Call = record { message = m; stage = reading } in
      record {
        held = omega (arith, count-set holds (sys.calls) i x y found, ap bit free, h.held);
        none_removes = omega (arith, count-set removes (sys.calls) i x y found, h.none_removes);
        snapshots = keep-snapshots sys reading refl h (creating n) found;
        delivered =
            λ p. omega (arith, count-set (delivers p) (sys.calls) i x y found, h.delivered p);
      }

  read-IsExclusive :
      (sys : System)
      → get_elem? (sys.calls) i ≡ some (record { message = m; stage = reading })
      → IsExclusive initial sys
      → IsExclusive initial (go_to i m (writing (contents sys)) sys)
  unfolding stage_of
  read-IsExclusive sys found h =
      let x : Call = record { message = m; stage = reading } in
      let y : Call = record { message = m; stage = writing (contents sys) } in
      record {
        held = omega (arith, count-set holds (sys.calls) i x y found, h.held);
        none_removes = omega (arith, count-set removes (sys.calls) i x y found, h.none_removes);
        snapshots = λ j n msgs there.
            elim (get-set (sys.calls) i j y x (record { message = n; stage = writing msgs })
              there) [
                | inl same ↦ ap (λ c. messages_read (stage_of c) (contents sys)) same
                | inr old_place ↦ h.snapshots j n msgs (
                    ap (λ calls. get_elem? calls j) (sym (set-get (sys.calls) i x found))
                    ∙ old_place)
              ];
        delivered =
            λ p. omega (arith, count-set (delivers p) (sys.calls) i x y found, h.delivered p);
      }

  -- Only the holder has read the inbox, so what it writes back is the inbox with its message.
  write-IsExclusive :
      (msgs : List InboxMessage) (sys : System)
      → get_elem? (sys.calls) i ≡ some (record { message = m; stage = writing msgs })
      → IsExclusive initial sys
      → IsExclusive initial (record (go_to i m releasing sys) { inbox = some (msgs ++ m ∷ []) })
  unfolding stage_of
  write-IsExclusive msgs sys found h =
      let x : Call = record { message = m; stage = writing msgs } in
      let y : Call = record { message = m; stage = releasing } in
      let gone : Call = record { message = m; stage = finished } in
      let one : bit (is_some (sys.lock_file)) ≤ 1 = bit-le (is_some (sys.lock_file)) in
      let no_other : count holds (set (sys.calls) i gone) ≡ 0 =
        omega (arith, count-set holds (sys.calls) i x gone found, h.held, one) in
      record {
        held = omega (arith, count-set holds (sys.calls) i x y found, h.held);
        none_removes = omega (arith, count-set removes (sys.calls) i x y found, h.none_removes);
        snapshots = λ j n others there.
            elim (get-set (sys.calls) i j y gone (record { message = n; stage = writing others })
              there) [
                | inl same ↦ absurd (cc (same))
                | inr other_call ↦ absurd (
                    omega (
                      arith,
                      no_other,
                      count-get holds (set (sys.calls) i gone) j
                          (record { message = n; stage = writing others }) other_call refl,
                    ))
              ];
        delivered = λ p. omega (
          arith,
          count-append p msgs m,
          ap (count p) (h.snapshots i m msgs found),
          count-set (delivers p) (sys.calls) i x y found,
          h.delivered p,
        );
      }

  give_back-IsExclusive :
      (sys : System)
      → get_elem? (sys.calls) i ≡ some (record { message = m; stage = releasing })
      → IsExclusive initial sys
      → IsExclusive initial (record (go_to i m finished sys) { lock_file = none })
  give_back-IsExclusive sys found h =
      let x : Call = record { message = m; stage = releasing } in
      let y : Call = record { message = m; stage = finished } in
      let one : bit (is_some (sys.lock_file)) ≤ 1 = bit-le (is_some (sys.lock_file)) in
      record {
        held = omega (arith, count-set holds (sys.calls) i x y found, h.held, one);
        none_removes = omega (arith, count-set removes (sys.calls) i x y found, h.none_removes);
        snapshots = keep-snapshots sys finished refl h releasing found;
        delivered =
            λ p. omega (arith, count-set (delivers p) (sys.calls) i x y found, h.delivered p);
      }

  pub act-IsExclusive :
      (stage : Stage) (sys : System)
      → get_elem? (sys.calls) i ≡ some (record { message = m; stage = stage })
      → is_stale sys ≡ false
      → IsExclusive initial sys
      → IsExclusive initial (act i m stage sys)
  act-IsExclusive (looping zero) sys found fresh h =
      go_to-IsExclusive (looping zero) failed sys found refl refl refl refl h
  act-IsExclusive (looping (suc n)) sys found fresh h =
      if-both (IsExclusive initial) (is_some (sys.lock_file))
        (λ _. go_to-IsExclusive (looping (suc n)) (looking (suc n)) sys found refl refl refl refl h)
        (λ _.
          go_to-IsExclusive (looping (suc n)) (creating (suc n)) sys found refl refl refl refl h)
  act-IsExclusive (looking n) sys found fresh h =
      if-both (IsExclusive initial) (is_some (sys.lock_file))
        (λ _.
          if-both (IsExclusive initial) (is_stale sys) (λ stale. absurd (cc (stale, fresh)))
            (λ _. go_to-IsExclusive (looking n) (creating n) sys found refl refl refl refl h))
        (λ _. go_to-IsExclusive (looking n) (waiting (n - 1)) sys found refl refl refl refl h)
  act-IsExclusive (removing n) sys found fresh h = absurd (
      omega (
        arith,
        h.none_removes,
        count-get removes (sys.calls) i (record { message = m; stage = removing n }) found refl,
      ))
  act-IsExclusive (creating n) sys found fresh h =
      if-both (IsExclusive initial) (is_some (sys.lock_file))
        (λ _. go_to-IsExclusive (creating n) (waiting (n - 1)) sys found refl refl refl refl h)
        (λ free. take-IsExclusive n sys found free h)
  act-IsExclusive (waiting n) sys found fresh h =
      go_to-IsExclusive (waiting n) (looping n) sys found refl refl refl refl h
  act-IsExclusive reading sys found fresh h = read-IsExclusive sys found h
  act-IsExclusive (writing msgs) sys found fresh h = write-IsExclusive msgs sys found h
  act-IsExclusive releasing sys found fresh h = give_back-IsExclusive sys found h
  act-IsExclusive finished sys found fresh h = h
  act-IsExclusive failed sys found fresh h = h
