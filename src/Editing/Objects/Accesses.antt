-- ===== src/Editing/Objects/Accesses.antt =====
-- The undo stack over mutable objects is the undo stack over values
-- (packages/tui/src/undo-stack.ts, packages/tui/src/components/editor.ts).
use mathlib.Core.List.{reverse-cons}
use co_mono.Base.{
  ℕ, ◌<◌, ◌≡◌, ◌≢◌, ◌∙◌, refl, sym, ap, inl, inr, none, some, List, [], ◌∷◌, map, reverse, arith,
}
use co_mono.Editing.UndoStack
use co_mono.Editing.Editor.{EditorState}
use co_mono.Editing.Objects.{
  StateObject, Heap, new_object, structured_clone, Objects, push_object, assign, pop_object, Access,
  save, undo, renew, restored, write, replace, move, write_lines, replace_lines, move_cursor,
  access, access_all, Values, value_access, value_access_all, value, values,
}
use co_mono.Editing.Objects.Detached.{
  All, All-map, IsDetached, Apart-same, IsSeparate, update-same, update-other, IsLocal,
  values-IsLocal, IsSeparate-IsLocal,
}

abbrev pub AreSeparate : Objects → Type 0
AreSeparate m = IsSeparate m.heap m.live m.stack

abbrev Implements : Access → Objects → Type 0
Implements a m = AreSeparate (access a m) × (values (access a m) ≡ value_access a (values m))

abbrev both : EditorState → List EditorState → Values
both s xs = record { state = s; stack = xs }

values-same :
    {s t : EditorState} {xs ys : List EditorState} → s ≡ t → xs ≡ ys → both s xs ≡ both t ys
values-same p q = cc (p, q)

-- A change of the state alone.
module _ (m : Objects) (h : Heap) (l : IsLocal m.heap h m.live) (s : AreSeparate m) where
  local-values :
      (t : EditorState)
      → value h m.live ≡ t
      → values (record m { heap = h })
        ≡ record { state = t; stack = reverse (map (value m.heap) m.stack) }
  local-values t e =
      values-same e (ap reverse (values-IsLocal m.heap h m.live l m.stack s.detached))

write-Implements :
    (f : List (List ℕ) → List (List ℕ)) (m : Objects) → AreSeparate m → Implements (write f) m
unfolding access value_access
write-Implements f m s =
    let h = m.heap in
    let a = (h.objects m.live).lines in
    let l : IsLocal h (write_lines f m.live h) m.live = record {
      objects = λ p known other. refl;
      arrays = λ b known other. update-other h.arrays a (f (h.arrays a)) b other;
      more_objects = omega arith;
      more_arrays = omega arith;
      array_known = s.array_known;
      array_own = inl refl;
    } in
    (
      IsSeparate-IsLocal h _ m.live m.stack l s,
      local-values m _ l s _ (rw (update-same h.arrays a (f (h.arrays a))) refl),
    )

replace-Implements : (ls : List (List ℕ)) (m : Objects) → AreSeparate m → Implements (replace ls) m
unfolding access value_access
replace-Implements ls m s =
    let h = m.heap in
    let o : StateObject = record (h.objects m.live) { lines = h.next_array } in
    let own : (replace_lines ls m.live h).objects m.live ≡ o = update-same h.objects m.live o in
    let address = ap (λ (x : StateObject). x.lines) own in
    let l : IsLocal h (replace_lines ls m.live h) m.live = record {
      objects = λ p known other. update-other h.objects m.live o p other;
      arrays = λ b known other.
          update-other h.arrays h.next_array ls b (λ e. absurd (omega (arith, e, known)));
      more_objects = omega arith;
      more_arrays = omega arith;
      array_known = omega (arith, address);
      array_own = inr (omega (arith, address));
    } in
    (
      IsSeparate-IsLocal h _ m.live m.stack l s,
      local-values m _ l s _ (rw (own, update-same h.arrays h.next_array ls) refl),
    )

move-Implements : (line col : ℕ) (m : Objects) → AreSeparate m → Implements (move line col) m
unfolding access value_access
move-Implements line col m s =
    let h = m.heap in
    let o : StateObject = record (h.objects m.live) { cursor_line = line; cursor_col = col } in
    let own : (move_cursor line col m.live h).objects m.live ≡ o = update-same h.objects m.live o in
    let address = ap (λ (x : StateObject). x.lines) own in
    let l : IsLocal h (move_cursor line col m.live h) m.live = record {
      objects = λ p known other. update-other h.objects m.live o p other;
      arrays = λ b known other. refl;
      more_objects = omega arith;
      more_arrays = omega arith;
      array_known = omega (arith, address, s.array_known);
      array_own = inl address;
    } in
    (IsSeparate-IsLocal h _ m.live m.stack l s, local-values m _ l s _ (rw own refl))

-- A new object leaves the rest of the heap alone.
new_object-IsLocal :
    (ls : List (List ℕ)) (line col : ℕ) (h : Heap) (live : ℕ)
    → live < h.next_object
    → (h.objects live).lines < h.next_array
    → IsLocal h (new_object ls line col h).1 live
new_object-IsLocal ls line col h live known array_known =
    let keeps : (p : ℕ) → p < h.next_object → (new_object ls line col h).1.objects p ≡ h.objects p =
      λ p old. update-other h.objects h.next_object _ p (λ e. absurd (omega (arith, e, old))) in
    let address = ap (λ (x : StateObject). x.lines) (keeps live known) in
    record {
      objects = λ p old other. keeps p old;
      arrays = λ b old other.
          update-other h.arrays h.next_array ls b (λ e. absurd (omega (arith, e, old)));
      more_objects = omega arith;
      more_arrays = omega arith;
      array_known = omega (arith, address, array_known);
      array_own = inl address;
    }

new_object-value :
    (ls : List (List ℕ)) (line col : ℕ) (h : Heap)
    → value (new_object ls line col h).1 h.next_object
      ≡ record { lines = ls; cursor_line = line; cursor_col = col }
new_object-value ls line col h =
    rw
      (
        update-same h.objects h.next_object
            (record { lines = h.next_array; cursor_line = line; cursor_col = col }),
        update-same h.arrays h.next_array ls,
      )
      refl

new_object-lines :
    (ls : List (List ℕ)) (line col : ℕ) (h : Heap)
    → ((new_object ls line col h).1.objects h.next_object).lines ≡ h.next_array
new_object-lines ls line col h =
    ap (λ (x : StateObject). x.lines) (update-same h.objects h.next_object _)

renew-Implements : (m : Objects) → AreSeparate m → Implements renew m
unfolding access value_access
renew-Implements m s = (
  record {
    live_known = omega arith;
    array_known = omega (arith, new_object-lines ([] ∷ []) 0 0 m.heap);
    detached = tt;
    apart = tt;
  },
  values-same (new_object-value ([] ∷ []) 0 0 m.heap) refl,
)

-- The clone is detached, since its address and its array are new.
save-Implements : (m : Objects) → AreSeparate m → Implements save m
unfolding access value_access push_object structured_clone UndoStack.push
save-Implements m s =
    let h = m.heap in
    let o = h.objects m.live in
    let h' = (structured_clone m.live h).1 in
    let l =
      new_object-IsLocal (h.arrays o.lines) o.cursor_line o.cursor_col h m.live s.live_known
        s.array_known in
    let kept = IsSeparate-IsLocal h h' m.live m.stack l s in
    let fresh = new_object-lines (h.arrays o.lines) o.cursor_line o.cursor_col h in
    let live_same : h'.objects m.live ≡ o =
      update-other h.objects h.next_object _ m.live
        (λ e. absurd (omega (arith, e, s.live_known))) in
    let address = ap (λ (x : StateObject). x.lines) live_same in
    let old_array : h'.arrays o.lines ≡ h.arrays o.lines =
      update-other h.arrays h.next_array (h.arrays o.lines) o.lines
        (λ e. absurd (omega (arith, e, s.array_known))) in
    let live_value : value h' m.live ≡ value h m.live = rw (live_same, old_array) refl in
    (
      record {
        live_known = kept.live_known;
        array_known = kept.array_known;
        detached = (
          record {
            known = omega arith;
            other = λ e. absurd (omega (arith, e, s.live_known));
            known_array = omega (arith, fresh);
            other_array = λ e. absurd (omega (arith, e, fresh, address, s.array_known));
          },
          kept.detached,
        );
        apart = (
          All-map m.stack
              (λ p (d : IsDetached h m.live p) e. absurd (
                omega (
                  arith,
                  e,
                  fresh,
                  d.known_array,
                  ap (λ (x : StateObject). x.lines) (l.objects p d.known d.other),
                )))
              s.detached,
          kept.apart,
        );
      },
      values-same live_value (
          reverse-cons (value h' h.next_object) (map (value h') m.stack)
          ∙ rw
              (
                values-IsLocal h h' m.live l m.stack s.detached,
                new_object-value (h.arrays o.lines) o.cursor_line o.cursor_col h,
              )
              refl),
    )

assign-kept :
    (h : Heap) (live source : ℕ) (p : ℕ) → p ≢ live → (assign live source h).objects p ≡ h.objects p
assign-kept h live source p ne = update-other h.objects live (h.objects source) p ne

assign-values :
    (h : Heap) (live source : ℕ) (ps : List ℕ)
    → All (IsDetached h live) ps
    → map (value (assign live source h)) ps ≡ map (value h) ps
assign-values h live source [] ds = refl
assign-values h live source (p ∷ ps) (d, ds) =
    let same : value (assign live source h) p ≡ value h p =
      rw (assign-kept h live source p d.other) refl in
    cc (same, assign-values h live source ps ds)

assign-IsDetached :
    (h : Heap) (live source : ℕ) (ps : List ℕ)
    → All (IsDetached h live) ps
    → All (λ q. (h.objects q).lines ≢ (h.objects source).lines) ps
    → All (IsDetached (assign live source h) live) ps
assign-IsDetached h live source [] ds ns = tt
assign-IsDetached h live source (p ∷ ps) (d, ds) (n, ns) =
    let same = ap (λ (x : StateObject). x.lines) (assign-kept h live source p d.other) in
    let own = ap (λ (x : StateObject). x.lines) (update-same h.objects live (h.objects source)) in
    (
      record {
        known = d.known;
        other = d.other;
        known_array = omega (arith, d.known_array, same);
        other_array = λ e. n (sym same ∙ e ∙ own);
      },
      assign-IsDetached h live source ps ds ns,
    )

pop-nil : UndoStack.pop {S = EditorState} [] ≡ (none, [])
unfolding UndoStack.pop
pop-nil = refl

pop-values :
    (v : EditorState) (vs : List EditorState)
    → UndoStack.pop (reverse (v ∷ vs)) ≡ (some v, reverse vs)
pop-values v vs = ap UndoStack.pop (reverse-cons v vs) ∙ UndoStack.pop-push v (reverse vs)

-- The state takes over the array of the snapshot, which no other snapshot shares.
undo-stack :
    (h : Heap) (live : ℕ) (stack : List ℕ)
    → IsSeparate h live stack
    → Implements undo (record { heap = h; live = live; stack = stack })
unfolding access value_access pop_object
undo-stack h live [] s = (s, ap (λ r. restored r (both (value h live) [])) (sym pop-nil))
undo-stack h live (p ∷ ps) s =
    let own = update-same h.objects live (h.objects p) in
    let address = ap (λ (x : StateObject). x.lines) own in
    (
      record {
        live_known = s.live_known;
        array_known = omega (arith, address, s.detached.0.known_array);
        detached = assign-IsDetached h live p ps (s.detached.1) (s.apart.0);
        apart =
            Apart-same h (assign live p h) ps
              (All-map ps (λ q (d : IsDetached h live q). assign-kept h live p q d.other)
                (s.detached.1))
              (s.apart.1);
      },
      values-same (rw own refl) (ap reverse (assign-values h live p ps (s.detached.1)))
          ∙ ap (λ r. restored r (both (value h live) (reverse (map (value h) (p ∷ ps)))))
              (sym (pop-values (value h p) (map (value h) ps))),
    )

access-Implements : (a : Access) (m : Objects) → AreSeparate m → Implements a m
access-Implements save m s = save-Implements m s
access-Implements undo m s = undo-stack m.heap m.live m.stack s
access-Implements renew m s = renew-Implements m s
access-Implements (write f) m s = write-Implements f m s
access-Implements (replace ls) m s = replace-Implements ls m s
access-Implements (move line col) m s = move-Implements line col m s

-- Whatever the editor does to its state object and its undo stack, in any order: changes of the array of
-- lines in place, new arrays, moves of the cursor, pushes, undos and new states. From a state in which no
-- snapshot is the state's object or shares its array with the state or with another snapshot, and no
-- address in use counts as free, this stays so, and the
-- state and the snapshots hold what they would if every value were copied: no later change of the state
-- reaches a snapshot.
pub access_all-values :
    (accesses : List Access) (m : Objects)
    → AreSeparate m
    → AreSeparate (access_all accesses m)
      × (values (access_all accesses m) ≡ value_access_all accesses (values m))
unfolding access_all value_access_all
access_all-values [] m s = (s, refl)
access_all-values (a ∷ rest) m s =
    let (separate, same) = access-Implements a m s in
    let (later, values_same) = access_all-values rest (access a m) separate in
    (later, values_same ∙ ap (value_access_all rest) same)
