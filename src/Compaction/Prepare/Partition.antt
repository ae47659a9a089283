-- ===== src/Compaction/Prepare/Partition.antt =====
-- A compaction summarizes or keeps every message since the last one
-- (packages/coding-agent/src/core/compaction/compaction.ts).
use mathlib.Core.List.{reverse-append}
use co_mono.Base.{
  get_elem?-lt, every-get, ℕ, suc, ◌+◌, ◌-◌, ◌≤◌, ◌<◌, ◌≡◌, ◌∙◌, refl, sym, ap, inl, inr, true,
  false, not, Option, none, some, some_inj, List, [], ◌∷◌, ◌++◌, str_eq, get_or_else, if◌then◌else◌,
  if-both, if-false, reverse, length, length-append, length-reverse, length-drop, get_elem?, drop,
  drop-add, take-append-drop, last?, last?-append-one, last-cases, every, arith,
}
use co_mono.Message.{AgentMessage}
use co_mono.Session.Entry.{SessionEntry}
use co_mono.Compaction.Tokens.{CompactionSettings}
use co_mono.Compaction.CutPoint.{CutPointResult, history_end, find_cut, find_cut_point, shift}
use co_mono.Compaction.CutPoint.Order.{
  find_cut-history, find_cut-lt, history_end-shift, find_cut_point-all,
}
use co_mono.Compaction.Files.{Runtime}
use co_mono.Compaction.Prepare.{
  CompactionPreparation, is_compaction, previous_compaction, boundary_start, ends_in_compaction,
  range, messages_of, get_message_from_entry, push_message, prepared, prepare_from, prepare_at,
  prepare_compaction,
}

previous_compaction-lt :
    (rs : List SessionEntry) (i : ℕ) → previous_compaction rs ≡ some i → i < length rs
previous_compaction-lt [] i h = absurd (cc (h))
previous_compaction-lt (e ∷ older) i h =
    if-both (λ (o : Option ℕ). o ≡ some i → i < suc (length older)) (is_compaction e)
      (λ _ here. omega (arith, some_inj here))
      (λ _ there. omega (arith, previous_compaction-lt older i there)) h

boundary-le : (rs : List SessionEntry) → boundary_start (previous_compaction rs) ≤ length rs
boundary-le rs = by_option (previous_compaction rs) refl
  where
    by_option : (o : Option ℕ) → previous_compaction rs ≡ o → boundary_start o ≤ length rs
    by_option none h = omega arith
    by_option (some i) h = omega (arith, previous_compaction-lt rs i h)

-- An entry stands behind the last compaction if the session does not end in one.
boundary-lt :
    (entries : List SessionEntry)
    → 0 < length entries
    → ends_in_compaction (last? entries) ≡ false
    → boundary_start (previous_compaction (reverse entries)) < length entries
boundary-lt entries some_entry open_end = elim (last-cases entries) [
  | inl empty ↦ absurd (omega (arith, some_entry, ap length empty))
  | inr (older, last, parts) ↦
      let other : is_compaction last ≡ false =
        ap ends_in_compaction (sym (ap last? parts ∙ last?-append-one older last)) ∙ open_end in
      let turned : reverse entries ≡ last ∷ reverse older =
        ap reverse parts ∙ reverse-append older (last ∷ []) in
      let further : previous_compaction (reverse entries) ≡ previous_compaction (reverse older) =
        ap previous_compaction turned
        ∙ if-false (is_compaction last) (some (length (reverse older)))
            (previous_compaction (reverse older)) other in
      omega (
        arith,
        ap boundary_start further,
        boundary-le (reverse older),
        length-reverse older,
        ap length parts,
        length-append older (last ∷ []),
      )
]

range-drop :
    (i j : ℕ) (entries : List SessionEntry)
    → i ≤ j
    → range i j entries ++ drop j entries ≡ drop i entries
range-drop i j entries h =
    let step : j ≡ i + (j - i) = omega arith in
    ap (λ k. range i j entries ++ drop k entries) step
    ∙ ap (range i j entries ++◌) (drop-add i (j - i) entries)
    ∙ take-append-drop (j - i) (drop i entries)

module _ (runtime : Runtime) where
  push-append :
      (o : Option AgentMessage) (ms ns : List AgentMessage)
      → push_message runtime o (ms ++ ns) ≡ push_message runtime o ms ++ ns
  push-append none ms ns = refl
  push-append (some m) ms ns = refl

  messages_of-append :
      (es fs : List SessionEntry)
      → messages_of runtime (es ++ fs) ≡ messages_of runtime es ++ messages_of runtime fs
  messages_of-append [] fs = refl
  messages_of-append (e ∷ es) fs =
      ap (push_message runtime (get_message_from_entry runtime e)) (messages_of-append es fs)
      ∙ push-append (get_message_from_entry runtime e) (messages_of runtime es)
          (messages_of runtime fs)

  messages_of-range :
      (i j : ℕ) (entries : List SessionEntry)
      → i ≤ j
      → messages_of runtime (range i j entries) ++ messages_of runtime (drop j entries)
        ≡ messages_of runtime (drop i entries)
  messages_of-range i j entries h =
      sym (messages_of-append (range i j entries) (drop j entries))
      ∙ ap (messages_of runtime) (range-drop i j entries h)

  -- The messages that are summarized, those of the turn's start and those that are kept.
  parts :
      (entries : List SessionEntry) (start : ℕ) (cut : CutPointResult)
      → start ≤ history_end cut
      → history_end cut ≤ cut.first_kept_entry_index
      → messages_of runtime (range start (history_end cut) entries)
          ++ ((if cut.is_split_turn
                then messages_of runtime
                    (range (history_end cut) (cut.first_kept_entry_index) entries)
                else [])
              ++ messages_of runtime (drop (cut.first_kept_entry_index) entries))
        ≡ messages_of runtime (drop start entries)
  parts entries start cut h k =
      let kept = messages_of runtime (drop (cut.first_kept_entry_index) entries) in
      ap (messages_of runtime (range start (history_end cut) entries) ++◌) (
        if-both (λ ms. ms ++ kept ≡ messages_of runtime (drop (history_end cut) entries))
          (cut.is_split_turn)
          (λ _. messages_of-range (history_end cut) (cut.first_kept_entry_index) entries k)
          (λ whole.
            ap (λ n. messages_of runtime (drop n entries))
              (sym (
                if-false (cut.is_split_turn)
                  (get_or_else (cut.turn_start_index) (cut.first_kept_entry_index))
                  (cut.first_kept_entry_index) whole))))
      ∙ messages_of-range start (history_end cut) entries h

  -- A session that has entries, all with ids, and does not end in a compaction can be compacted. The
  -- first kept entry is behind the last compaction, and its id is the one that is handed on. The messages
  -- to summarize, those of the split turn and those of the kept entries are, in this order, all messages
  -- behind the last compaction: none is lost and none is both summarized and kept.
  pub prepare_compaction-parts :
      (entries : List SessionEntry) (settings : CompactionSettings)
      → 0 < length entries
      → ends_in_compaction (last? entries) ≡ false
      → every (λ e. not (str_eq (e.id) "")) entries ≡ true
      → (p : CompactionPreparation) × (n : ℕ) × (kept : SessionEntry) × (prepare_compaction runtime
            entries settings
          ≡ some p)
        × (get_elem? entries n ≡ some kept)
        × (p.first_kept_entry_id ≡ kept.id)
        × (boundary_start (previous_compaction (reverse entries)) ≤ n)
        × (p.messages_to_summarize
              ++ (p.turn_prefix_messages ++ messages_of runtime (drop n entries))
            ≡ messages_of runtime
                (drop (boundary_start (previous_compaction (reverse entries))) entries))
  unfolding prepare_compaction
  prepare_compaction-parts entries settings some_entry open_end named =
      let previous = previous_compaction (reverse entries) in
      let start = boundary_start previous in
      let tail = drop start entries in
      let keep = settings.keep_recent_tokens in
      let cut = shift start (find_cut keep tail) in
      let below = boundary-lt entries some_entry open_end in
      let lt = find_cut-lt keep tail (omega (arith, below, length-drop start entries)) in
      let n = cut.first_kept_entry_index in
      let (kept, found) = get_elem?-lt entries n (omega (arith, lt, length-drop start entries)) in
      let has_id =
        every-get (λ (e : SessionEntry). not (str_eq (e.id) "")) entries n kept named found in
      (
        prepared runtime entries settings previous cut kept,
        n,
        kept,
        if-false (ends_in_compaction (last? entries)) none
              (prepare_at runtime entries settings previous
                (find_cut_point entries start (length entries) keep))
              open_end
            ∙ ap (prepare_at runtime entries settings previous)
                (find_cut_point-all entries start keep)
            ∙ ap (prepare_from runtime entries settings previous cut) found
            ∙ if-false (str_eq (kept.id) "") none
                (some (prepared runtime entries settings previous cut kept))
                (ground (arith, has_id)),
        found,
        refl,
        omega arith,
        parts entries start cut (omega (arith, history_end-shift start (find_cut keep tail))) (
            omega
              (arith, history_end-shift start (find_cut keep tail), find_cut-history keep tail)),
      )
