-- ===== src/Compaction/CutPoint/Order.antt =====
-- Where the kept entries and the turn of a cut start
-- (packages/coding-agent/src/core/compaction/compaction.ts).
use co_mono.Base.{
  ℕ, suc, ◌+◌, ◌-◌, ◌≤◌, ◌<◌, ◌≡◌, ◌∙◌, refl, sym, ap, subst, Bool, true, false, ◌&&◌, Option, none,
  some, some_inj, List, [], ◌∷◌, reverse, ltb, if-both, if-false, is_some, length, length-reverse,
  length-take, length-drop, take, drop, drop_all, append-nil, take-append-drop, ◌++◌, get_elem?,
  arith,
}
use co_mono.Session.Entry.{SessionEntry}
use co_mono.Compaction.CutPoint.{
  cut_points, starts_turn, turn_start, find_turn_start_index, is_user, CutPointResult, cut_at,
  find_cut_among, find_cut, find_cut_point, shift, history_end,
}
use co_mono.Compaction.CutPoint.Valid.{find_cut-CutsBefore}

turn_start-lt : (rs : List SessionEntry) (t : ℕ) → turn_start rs ≡ some t → t < length rs
unfolding turn_start
turn_start-lt [] t h = absurd (cc (h))
turn_start-lt (e ∷ older) t h =
    if-both (λ (o : Option ℕ). o ≡ some t → t < suc (length older)) (starts_turn (e.body))
      (λ _ here. omega (arith, some_inj here))
      (λ _ there. omega (arith, turn_start-lt older t there)) h

find_turn_start_index-le :
    (es : List SessionEntry) (cut t : ℕ) → find_turn_start_index es cut ≡ some t → t ≤ cut
unfolding find_turn_start_index
find_turn_start_index-le es cut t h = omega (
  arith,
  turn_start-lt (reverse (take (suc cut) es)) t h,
  length-reverse (take (suc cut) es),
  length-take (suc cut) es,
)

split-le :
    (cut : ℕ) (o : Option ℕ)
    → ((t : ℕ) → o ≡ some t → t ≤ cut)
    → history_end
        (record { first_kept_entry_index = cut; turn_start_index = o; is_split_turn = is_some o })
      ≤ cut
split-le cut none h = omega arith
split-le cut (some t) h = h t refl

IsOrdered : CutPointResult → Type 0
IsOrdered r = history_end r ≤ r.first_kept_entry_index

cut_at-IsOrdered : (cut : ℕ) (es : List SessionEntry) → IsOrdered (cut_at cut es)
unfolding cut_at IsOrdered
cut_at-IsOrdered cut es =
    if-both IsOrdered (is_user (get_elem? es cut)) (λ _. omega arith)
      (λ _. split-le cut (find_turn_start_index es cut) (find_turn_start_index-le es cut))

pub find_cut-history :
    (keep : ℕ) (es : List SessionEntry)
    → history_end (find_cut keep es) ≤ (find_cut keep es).first_kept_entry_index
unfolding find_cut find_cut_among IsOrdered
find_cut-history keep es = among (cut_points 0 es)
  where
    among : (points : List ℕ) → IsOrdered (find_cut_among points keep es)
    among [] = omega arith
    among (first ∷ rest) = cut_at-IsOrdered _ es

-- The first kept entry is one of the entries.
pub find_cut-lt :
    (keep : ℕ) (es : List SessionEntry)
    → 0 < length es
    → (find_cut keep es).first_kept_entry_index < length es
unfolding find_cut find_cut_among
find_cut-lt keep es some_entry = among (cut_points 0 es) refl
  where
    among :
        (points : List ℕ)
        → cut_points 0 es ≡ points
        → (find_cut keep es).first_kept_entry_index < length es
    among [] h =
        subst (λ ps. (find_cut_among ps keep es).first_kept_entry_index < length es) (sym h)
          some_entry
    among (first ∷ rest) h =
        let (v, (bound, point, before, quiet)) = find_cut-CutsBefore keep es first rest h in
        omega (arith, bound, before)

pub history_end-shift :
    (start : ℕ) (r : CutPointResult) → history_end (shift start r) ≡ start + history_end r
history_end-shift start r =
    by_fields (r.first_kept_entry_index) (r.turn_start_index) (r.is_split_turn)
  where
    by_fields :
        (first : ℕ) (o : Option ℕ) (split : Bool)
        → history_end (
            shift start (record {
              first_kept_entry_index = first;
              turn_start_index = o;
              is_split_turn = split;
            }))
          ≡ start
            + history_end (record {
              first_kept_entry_index = first;
              turn_start_index = o;
              is_split_turn = split;
            })
    by_fields first none true = refl
    by_fields first (some t) true = refl
    by_fields first none false = refl
    by_fields first (some t) false = refl

-- A cut of all the entries from `start` on.
pub find_cut_point-all :
    (entries : List SessionEntry) (start keep : ℕ)
    → find_cut_point entries start (length entries) keep
      ≡ some (shift start (find_cut keep (drop start entries)))
unfolding find_cut_point
find_cut_point-all entries start keep =
    let tail = drop start entries in
    let size : length tail ≤ length entries - start = omega (arith, length-drop start entries) in
    let whole : take (length entries - start) tail ≡ tail =
      sym (append-nil (take (length entries - start) tail))
      ∙ ap (take (length entries - start) tail ++◌)
          (sym (drop_all tail (length entries - start) size))
      ∙ take-append-drop (length entries - start) tail in
    if-false (ltb start (length entries) && ltb (length entries) (length entries)) none
      (some (shift start (find_cut keep (take (length entries - start) tail)))) (ground arith)
    ∙ ap (λ es. some (shift start (find_cut keep es))) whole
