-- ===== src/Editing/Refinement/KillYank.antt =====
-- What a yank restores after a kill.
use co_mono.Base.{
  ℕ, ◌-◌, ◌<◌, ◌≡◌, ◌∙◌, sym, ap, subst, Bool, true, false, List, ◌++◌, ◌==◌, if-both, append_assoc,
  length, length-append, take, drop, take-append-drop, arith,
}
use co_mono.Editing.KillRing
use co_mono.Editing.Editor.{Editor, Segmenter, get_text}
use co_mono.Editing.Editor.Kill.{is_kill}
use co_mono.Editing.Command.{
  Command, insert_text, type_char, set_whole, kill_line_start, kill_line_end, kill_word_left,
  kill_word_right, yank_last, run,
}
use co_mono.Editing.Reference.{
  Text, Reference, respond, yank_put, cut, put, cut_back, cut_forward, reach, column, row,
  kill_back, kill_forward, word_left_size, word_right_size, contents,
}
use co_mono.Editing.Refinement.Graphemes.{IsSegmenter}
use co_mono.Editing.Refinement.Text.{view_text}
use co_mono.Editing.Refinement.View.{view, IsSound}
use co_mono.Editing.Refinement.Commands.{IsTyped, run-Agree, get_text-contents}

abbrev is_kill_command : Command → Bool
is_kill_command kill_line_start = true
is_kill_command kill_line_end = true
is_kill_command kill_word_left = true
is_kill_command kill_word_right = true
is_kill_command _ = false

-- A kill that starts an entry of the ring, and the yank of that entry.
cut-yank :
    (d : List ℕ) (prepend : Bool) (t : Text) (r : Reference)
    → is_kill (r.last_action) ≡ false
    → length d == 0 ≡ false
    → (yank_put (KillRing.peek ((cut d prepend t r).kill_ring)) (cut d prepend t r)).text ≡ put d t
unfolding KillRing.push
cut-yank d prepend t r apart some_text =
    ap (λ o. (yank_put o (cut d prepend t r)).text)
      (ap
          (λ b.
            KillRing.peek
              (KillRing.push d (record { prepend = prepend; accumulate = b }) (r.kill_ring)))
          apart
        ∙ KillRing.peek-push d prepend (r.kill_ring) some_text)

-- The yank after a kill that took something away brings back the whole text.
abbrev Recovers : Reference → Reference → Type 0
Recovers r s =
    length (contents (s.text)) < length (contents (r.text))
    → contents ((yank_put (KillRing.peek (s.kill_ring)) s).text) ≡ contents (r.text)

kill_back-Recovers :
    (size : List ℕ → ℕ) (r : Reference)
    → is_kill (r.last_action) ≡ false
    → Recovers r (kill_back size r)
kill_back-Recovers size r apart =
    let before = r.text.before in
    let after = r.text.after in
    let n = reach size (column before) in
    let k = length before - n in
    let halves = take-append-drop k before in
    if-both (Recovers r) (length before == 0) (λ _ shorter. absurd (omega (arith, shorter)))
      (λ _ shorter.
        let some_text : length (drop k before) == 0 ≡ false = ground (
          arith,
          shorter,
          ap length halves,
          length-append (take k before) (drop k before),
          length-append (take k before) after,
          length-append before after,
        ) in
        ap contents (cut-yank (drop k before) true (cut_back n (r.text)) r apart some_text)
        ∙ ap (λ cs. cs ++ after) halves)

kill_forward-Recovers :
    (size : List ℕ → ℕ) (r : Reference)
    → is_kill (r.last_action) ≡ false
    → Recovers r (kill_forward size r)
kill_forward-Recovers size r apart =
    let before = r.text.before in
    let after = r.text.after in
    let n = reach size (row after) in
    let halves = take-append-drop n after in
    if-both (Recovers r) (length after == 0) (λ _ shorter. absurd (omega (arith, shorter)))
      (λ _ shorter.
        let some_text : length (take n after) == 0 ≡ false = ground (
          arith,
          shorter,
          ap length halves,
          length-append (take n after) (drop n after),
          length-append before (drop n after),
          length-append before after,
        ) in
        ap contents (cut-yank (take n after) false (cut_forward n (r.text)) r apart some_text)
        ∙ append_assoc before (take n after) (drop n after)
        ∙ ap (before ++◌) halves)

kill-Recovers :
    (segmenter : Segmenter) (command : Command) (r : Reference)
    → is_kill_command command ≡ true
    → is_kill (r.last_action) ≡ false
    → Recovers r (respond segmenter command r)
unfolding respond
kill-Recovers segmenter (insert_text _) r h apart = absurd (cc (h))
kill-Recovers segmenter (type_char _) r h apart = absurd (cc (h))
kill-Recovers segmenter (set_whole _) r h apart = absurd (cc (h))
kill-Recovers segmenter kill_line_start r h apart = kill_back-Recovers length r apart
kill-Recovers segmenter kill_line_end r h apart = kill_forward-Recovers length r apart
kill-Recovers segmenter kill_word_left r h apart =
    kill_back-Recovers (word_left_size segmenter) r apart
kill-Recovers segmenter kill_word_right r h apart =
    kill_forward-Recovers (word_right_size segmenter) r apart
kill-Recovers segmenter _ r h apart = absurd (cc (h))

-- When a kill that does not follow a kill took a part of the text away, a yank right after it brings the
-- whole text back, for a segmenter whose segments of a text join to the text and an editor with its
-- cursor in the text.
pub yank_last-kill :
    (segmenter : Segmenter) (command : Command) (ed : Editor)
    → IsSegmenter segmenter
    → IsTyped command
    → IsSound ed
    → is_kill_command command ≡ true
    → is_kill (ed.last_action) ≡ false
    → length (get_text ((run segmenter command ed).state)) < length (get_text (ed.state))
    → get_text ((run segmenter yank_last (run segmenter command ed)).state) ≡ get_text (ed.state)
unfolding view respond IsTyped
yank_last-kill segmenter command ed law typed sound kills apart shorter =
    let next = run segmenter command ed in
    let killed = run-Agree segmenter command ed law typed sound in
    let yanked = run-Agree segmenter yank_last next law tt (killed.sound) in
    let text = get_text-contents (ed.state) (sound.in_text) in
    let text_next =
      get_text-contents (next.state) (killed.sound.in_text)
      ∙ ap (λ (r : Reference). contents (r.text)) (killed.same) in
    get_text-contents ((run segmenter yank_last next).state) (yanked.sound.in_text)
    ∙ ap (λ (r : Reference). contents (r.text))
        (yanked.same ∙ ap (respond segmenter yank_last) (killed.same))
    ∙ kill-Recovers segmenter command (view ed) kills apart (
        subst (λ cs. length cs < length (contents (view_text (ed.state)))) text_next
          (subst (λ cs. length (get_text (next.state)) < length cs) text shorter))
    ∙ sym text
