-- ===== src/Compaction/CutPoint/Valid.antt =====
-- A cut stands at a valid cut point, or in front of one with nothing between that is kept or dropped
-- on its own (packages/coding-agent/src/core/compaction/compaction.ts).
use mathlib.Core.List.{reverse-cons, reverse-reverse}
use co_mono.Base.{
  ℕ, suc, ◌+◌, ◌≤◌, ◌<◌, ◌≡◌, refl, sym, ap, subst, Bool, true, not, Option, none, some, some_inj,
  List, [], ◌∷◌, ◌++◌, reverse, leb, if-both, get_or_else, Option-cases, inl, inr, length,
  length-reverse, length-take, length-append, take, drop, find, every, every-append, drop_all,
  drop-append_le, get_elem?, arith,
}
use co_mono.Session.Entry.{SessionEntry}
use co_mono.Compaction.CutPoint.{
  is_cut_point, cut_points, is_user, ends_scan, scan_back, walk_back, choose, cut_at,
  find_cut_among, find_cut, CutPointResult,
}

abbrev pub is_quiet : SessionEntry → Bool
is_quiet e = not (ends_scan (e.body))

-- The index of an entry at which a session can be cut.
abbrev IsCutPoint : List SessionEntry → ℕ → Type 0
IsCutPoint es v = (e : SessionEntry) × (get_elem? es v ≡ some e) × (is_cut_point (e.body) ≡ true)

-- `v` is the index, from `i` on, of an entry at which the session can be cut.
abbrev Points : ℕ → List SessionEntry → ℕ → Type 0
Points i es v = (k : ℕ) × (v ≡ i + k) × (k < length es) × IsCutPoint es k

later :
    (i v : ℕ) (es : List SessionEntry) (e : SessionEntry)
    → Points (suc i) es v
    → Points i (e ∷ es) v
later i v es e (k, at, bound, point) = (suc k, omega (arith, at), omega (arith, bound), point)

cut_points-IsCutPoint :
    (p : ℕ → Bool) (i : ℕ) (es : List SessionEntry) (v : ℕ)
    → find p (cut_points i es) ≡ some v
    → Points i es v
unfolding cut_points
cut_points-IsCutPoint p i [] v h = absurd (cc (h))
cut_points-IsCutPoint p i (e ∷ es) v h =
    let rest = cut_points (suc i) es in
    if-both (λ (xs : List ℕ). find p xs ≡ some v → Points i (e ∷ es) v) (is_cut_point (e.body))
      (λ cut.
        if-both (λ (o : Option ℕ). o ≡ some v → Points i (e ∷ es) v) (p i)
          (λ _ here. (0, omega (arith, some_inj here), omega arith, (e, refl, cut)))
          (λ _ there. later i v es e (cut_points-IsCutPoint p (suc i) es v there)))
      (λ _ there. later i v es e (cut_points-IsCutPoint p (suc i) es v there)) h

scan_back_le : (rs : List SessionEntry) → scan_back rs ≤ length rs
unfolding scan_back
scan_back_le [] = omega arith
scan_back_le (e ∷ older) = ground (arith, scan_back_le older)

-- What the scan passes is quiet.
scan_back-quiet :
    (rs : List SessionEntry) → every is_quiet (drop (scan_back rs) (reverse rs)) ≡ true
unfolding scan_back
scan_back-quiet [] = refl
scan_back-quiet (e ∷ older) = rw (reverse-cons e older) (
    if-both (λ (c : ℕ). every is_quiet (drop c (reverse older ++ e ∷ [])) ≡ true)
      (ends_scan (e.body))
      (λ _.
        rw
          (drop_all (reverse older ++ e ∷ []) (suc (length older))
            (omega (arith, length-append (reverse older) (e ∷ []), length-reverse older)))
          refl)
      (λ quiet.
        rw
          (
            drop-append_le (scan_back older) (reverse older) (e ∷ [])
                (omega (arith, scan_back_le older, length-reverse older)),
            every-append is_quiet (drop (scan_back older) (reverse older)) (e ∷ []),
            scan_back-quiet older,
            quiet,
          )
          refl))

cut_at-first : (cut : ℕ) (es : List SessionEntry) → (cut_at cut es).first_kept_entry_index ≡ cut
unfolding cut_at
cut_at-first cut es =
    if-both (λ (r : CutPointResult). r.first_kept_entry_index ≡ cut) (is_user (get_elem? es cut))
      (λ _. refl) (λ _. refl)

-- The cut that is chosen is one of the points.
choose-Points :
    (first : ℕ) (rest : List ℕ) (es : List SessionEntry) (o : Option ℕ)
    → cut_points 0 es ≡ first ∷ rest
    → Points 0 es (choose first (first ∷ rest) o)
unfolding choose
choose-Points first rest es none h = cut_points-IsCutPoint (λ _. true) 0 es first (rw h refl)
choose-Points first rest es (some i) h = elim (Option-cases (find (λ c. leb i c) (first ∷ rest))) [
  | inl no_later ↦
      subst (Points 0 es) (sym (ap (λ o. get_or_else o first) no_later))
        (cut_points-IsCutPoint (λ _. true) 0 es first (rw h refl))
  | inr (v, found) ↦
      subst (Points 0 es) (sym (ap (λ o. get_or_else o first) found))
        (cut_points-IsCutPoint (λ c. leb i c) 0 es v (rw h found))
]

-- What a cut in front of the point `v` is.
abbrev pub CutsBefore : List SessionEntry → ℕ → ℕ → Type 0
CutsBefore es v cut =
    (v < length es) × IsCutPoint es v × (cut ≤ v) × (every is_quiet (drop cut (take v es)) ≡ true)

scan_back-CutsBefore :
    (es : List SessionEntry) (v : ℕ)
    → v < length es
    → IsCutPoint es v
    → CutsBefore es v (scan_back (reverse (take v es)))
scan_back-CutsBefore es v bound point =
    let rs = reverse (take v es) in
    (
      bound,
      point,
      omega (arith, scan_back_le rs, length-reverse (take v es), length-take v es),
      subst (λ xs. every is_quiet (drop (scan_back rs) xs) ≡ true) (reverse-reverse (take v es))
          (scan_back-quiet rs),
    )

-- The cut stands before the point that is chosen.
pub find_cut-choose :
    (keep : ℕ) (es : List SessionEntry) (first : ℕ) (rest : List ℕ)
    → cut_points 0 es ≡ first ∷ rest
    → CutsBefore es
        (choose first (first ∷ rest) (walk_back keep 0 (reverse es)))
        ((find_cut keep es).first_kept_entry_index)
unfolding find_cut find_cut_among
find_cut-choose keep es first rest h =
    let v = choose first (first ∷ rest) (walk_back keep 0 (reverse es)) in
    let (k, at, bound, point) = choose-Points first rest es (walk_back keep 0 (reverse es)) h in
    let same : v ≡ k = omega (arith, at) in
    let cut = scan_back (reverse (take v es)) in
    subst (λ ps. CutsBefore es v ((find_cut_among ps keep es).first_kept_entry_index)) (sym h)
      (subst (CutsBefore es v) (sym (cut_at-first cut es)) (
        scan_back-CutsBefore es v (omega (arith, bound, same))
          (subst (IsCutPoint es) (sym same) point)))

-- If the entries have a valid cut point, then whatever the budget, the first entry that is kept stands at
-- or before an entry that is a valid cut point, and the entries from it up to that one are neither messages
-- nor compactions.
pub find_cut-CutsBefore :
    (keep : ℕ) (es : List SessionEntry) (first : ℕ) (rest : List ℕ)
    → cut_points 0 es ≡ first ∷ rest
    → (v : ℕ) × CutsBefore es v ((find_cut keep es).first_kept_entry_index)
find_cut-CutsBefore keep es first rest h = (
  choose first (first ∷ rest) (walk_back keep 0 (reverse es)),
  find_cut-choose keep es first rest h,
)
