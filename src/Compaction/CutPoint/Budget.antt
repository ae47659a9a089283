-- ===== src/Compaction/CutPoint/Budget.antt =====
-- How much a cut keeps (packages/coding-agent/src/core/compaction/compaction.ts).
use mathlib.Core.List.{reverse-cons, reverse-reverse}
use co_mono.Base.{
  ℕ, zero, suc, ◌+◌, ◌-◌, ◌≤◌, ◌<◌, ◌≡◌, ◌∙◌, refl, sym, ap, subst, Bool, true, not, Option, none,
  some, some_inj, List, [], ◌∷◌, ◌++◌, reverse, leb, if-both, and-split, get_or_else, length,
  length-reverse, length-append, take, drop, find, every, take-append-drop, length-take, drop-add,
  drop_all, drop-append_le, arith,
}
use co_mono.Session.Entry.{Body, message, SessionEntry}
use co_mono.Compaction.CutPoint.Valid.{is_quiet, CutsBefore, find_cut-choose}
use co_mono.Compaction.CutPoint.{
  body_tokens, is_message, cut_points, walk_back, choose, scan_back, cut_at, ends_scan,
  find_cut_among, find_cut,
}

-- The tokens of the messages among some entries.
abbrev pub tokens : List SessionEntry → ℕ
tokens [] = 0
tokens (e ∷ es) = body_tokens (e.body) + tokens es

tokens-append : (es fs : List SessionEntry) → tokens (es ++ fs) ≡ tokens es + tokens fs
tokens-append [] fs = omega arith
tokens-append (e ∷ es) fs = omega (arith, tokens-append es fs)

-- Where the walk stops: with this entry the budget is reached, and without it it is not.
abbrev pub Reaches : (keep accumulated : ℕ) → List SessionEntry → Option ℕ → Type 0
Reaches keep accumulated es none = accumulated + tokens es < keep
Reaches keep accumulated es (some i) =
    (i < length es)
    × (keep ≤ accumulated + tokens (drop i es))
    × (accumulated + tokens (drop (suc i) es) < keep)

no_message : (b : Body) → not (is_message b) ≡ true → body_tokens b ≡ 0
no_message (message m) h = absurd (cc (h))
no_message _ h = refl

-- One more entry at the end, whose tokens have been counted.
grow :
    (keep accumulated : ℕ) (es : List SessionEntry) (e : SessionEntry) (o : Option ℕ)
    → Reaches keep (accumulated + body_tokens (e.body)) es o
    → Reaches keep accumulated (es ++ e ∷ []) o
grow keep accumulated es e none h = omega (arith, h, tokens-append es (e ∷ []))
grow keep accumulated es e (some i) (bound, reached, under) = (
  omega (arith, bound, length-append es (e ∷ [])),
  rw (drop-append_le i es (e ∷ []) (omega (arith, bound)))
      (omega (arith, reached, tokens-append (drop i es) (e ∷ []))),
  rw (drop-append_le (suc i) es (e ∷ []) (omega (arith, bound)))
      (omega (arith, under, tokens-append (drop (suc i) es) (e ∷ []))),
)

-- The entry with which the budget is reached.
stop :
    (keep accumulated : ℕ) (es : List SessionEntry) (e : SessionEntry)
    → accumulated < keep
    → keep ≤ accumulated + body_tokens (e.body)
    → Reaches keep accumulated (es ++ e ∷ []) (some (length es))
stop keep accumulated es e under reached = (
  omega (arith, length-append es (e ∷ [])),
  rw (drop-append_le (length es) es (e ∷ []) (omega arith), drop_all es (length es) (omega arith))
      (omega (arith, reached)),
  rw (drop_all (es ++ e ∷ []) (suc (length es)) (omega (arith, length-append es (e ∷ []))))
      (omega (arith, under)),
)

walk_back-reverse :
    (keep accumulated : ℕ) (rs : List SessionEntry)
    → accumulated < keep
    → Reaches keep accumulated (reverse rs) (walk_back keep accumulated rs)
unfolding walk_back
walk_back-reverse keep accumulated [] under = omega (arith, under)
walk_back-reverse keep accumulated (e ∷ older) under =
    let sum = accumulated + body_tokens (e.body) in
    let further = walk_back keep sum older in
    let P = λ (o : Option ℕ). Reaches keep accumulated (reverse older ++ e ∷ []) o in
    let go : sum < keep → P further = λ less.
      grow keep accumulated (reverse older) e further (walk_back-reverse keep sum older less) in
    rw (reverse-cons e older) (
      if-both P (not (is_message (e.body)))
        (λ other. go (omega (arith, no_message (e.body) other, under)))
        (λ _.
          if-both P (leb keep sum)
            (λ reached.
              subst (λ n. P (some n)) (length-reverse older)
                (stop keep accumulated (reverse older) e under (ground (arith, reached))))
            (λ more. go (ground (arith, more)))))

-- For a budget that is not zero, the walk from the newest entry back stops at the latest entry from which
-- on the messages have as many tokens as the budget, or more; and it does not stop only if all messages
-- together have fewer.
pub walk_back-Reaches :
    (keep : ℕ) (es : List SessionEntry)
    → 0 < keep
    → Reaches keep 0 es (walk_back keep 0 (reverse es))
walk_back-Reaches keep es some_budget =
    subst (λ xs. Reaches keep 0 xs (walk_back keep 0 (reverse es))) (reverse-reverse es)
      (walk_back-reverse keep 0 (reverse es) some_budget)

tokens-drop_le : (n : ℕ) (es : List SessionEntry) → tokens (drop n es) ≤ tokens es
tokens-drop_le zero es = omega arith
tokens-drop_le (suc n) [] = omega arith
tokens-drop_le (suc n) (e ∷ es) = omega (arith, tokens-drop_le n es)

never :
    (keep : ℕ) (es : List SessionEntry) (o : Option ℕ)
    → tokens es < keep
    → Reaches keep 0 es o
    → o ≡ none
never keep es none fewer h = refl
never keep es (some i) fewer h = absurd (omega (arith, fewer, h.1, tokens-drop_le i es))

late_among :
    (keep huge : ℕ) (es : List SessionEntry) (i : ℕ) (points : List ℕ)
    → walk_back keep 0 (reverse es) ≡ some i
    → find (λ c. leb i c) points ≡ none
    → walk_back huge 0 (reverse es) ≡ none
    → find_cut_among points keep es ≡ find_cut_among points huge es
unfolding find_cut_among choose
late_among keep huge es i [] reached none_later unreached = refl
late_among keep huge es i (first ∷ rest) reached none_later unreached =
    ap (λ c. cut_at (scan_back (reverse (take c es))) es)
      (ap (choose first (first ∷ rest)) reached
        ∙ ap (λ o. get_or_else o first) none_later
        ∙ sym (ap (choose first (first ∷ rest)) unreached))

-- When the budget is reached at an entry behind the last valid cut point, the session is cut where it is
-- cut by a budget that all its messages together do not reach.
pub find_cut-late :
    (keep huge : ℕ) (es : List SessionEntry) (i : ℕ)
    → tokens es < huge
    → walk_back keep 0 (reverse es) ≡ some i
    → find (λ c. leb i c) (cut_points 0 es) ≡ none
    → find_cut keep es ≡ find_cut huge es
unfolding find_cut
find_cut-late keep huge es i all_fewer reached none_later =
    late_among keep huge es i (cut_points 0 es) reached none_later
      (never huge es _ all_fewer (walk_back-Reaches huge es (omega (arith, all_fewer))))

quiet_body : (b : Body) → not (ends_scan b) ≡ true → body_tokens b ≡ 0
quiet_body (message m) h = absurd (cc (h))
quiet_body _ h = refl

tokens-quiet : (es : List SessionEntry) → every is_quiet es ≡ true → tokens es ≡ 0
tokens-quiet [] h = refl
tokens-quiet (e ∷ es) h =
    let (quiet, others) = and-split (is_quiet e) (every is_quiet es) h in
    omega (arith, quiet_body (e.body) quiet, tokens-quiet es others)

find-holds : (p : ℕ → Bool) (xs : List ℕ) (v : ℕ) → find p xs ≡ some v → p v ≡ true
find-holds p [] v h = absurd (cc (h))
find-holds p (x ∷ xs) v h =
    if-both (λ (o : Option ℕ). o ≡ some v → p v ≡ true) (p x)
      (λ holds here. subst (λ y. p y ≡ true) (some_inj here) holds)
      (λ _ there. find-holds p xs v there) h

-- What stands from a cut in front of `v` on has the tokens of what stands from `v` on.
tokens-CutsBefore :
    (es : List SessionEntry) (v cut : ℕ)
    → CutsBefore es v cut
    → tokens (drop cut es) ≡ tokens (drop v es)
tokens-CutsBefore es v cut (bound, point, before, quiet) =
    ap (λ xs. tokens (drop cut xs)) (sym (take-append-drop v es))
    ∙ ap tokens (
        drop-append_le cut (take v es) (drop v es) (omega (arith, before, bound, length-take v es)))
    ∙ tokens-append (drop cut (take v es)) (drop v es)
    ∙ ap (λ n. n + tokens (drop v es)) (tokens-quiet (drop cut (take v es)) quiet)
    ∙ omega arith

chosen-point :
    (keep : ℕ) (es : List SessionEntry) (i v first : ℕ) (rest : List ℕ)
    → walk_back keep 0 (reverse es) ≡ some i
    → find (λ c. leb i c) (first ∷ rest) ≡ some v
    → choose first (first ∷ rest) (walk_back keep 0 (reverse es)) ≡ v
unfolding choose
chosen-point keep es i v first rest reached found =
    ap (choose first (first ∷ rest)) reached ∙ ap (λ o. get_or_else o first) found

tokens-behind :
    (es : List SessionEntry) (i v : ℕ)
    → leb i v ≡ true
    → tokens (drop v es) ≡ tokens (drop (v - i) (drop i es))
tokens-behind es i v h =
    let split : v ≡ i + (v - i) = ground (arith, h) in
    ap (λ n. tokens (drop n es)) split ∙ ap tokens (drop-add i (v - i) es)

-- For a budget that is not zero, when the walk reaches it at the entry `i` and a valid cut point stands at
-- or behind that entry: what is kept has no more tokens than what stands from `i` on; that is at least the
-- budget, and what stands behind `i` is less than the budget.
pub find_cut-kept :
    (keep : ℕ) (es : List SessionEntry) (i v first : ℕ) (rest : List ℕ)
    → 0 < keep
    → walk_back keep 0 (reverse es) ≡ some i
    → cut_points 0 es ≡ first ∷ rest
    → find (λ c. leb i c) (cut_points 0 es) ≡ some v
    → (tokens (drop ((find_cut keep es).first_kept_entry_index) es) ≤ tokens (drop i es))
      × (keep ≤ tokens (drop i es))
      × (tokens (drop (suc i) es) < keep)
find_cut-kept keep es i v first rest some_budget reached points found =
    let chosen : choose first (first ∷ rest) (walk_back keep 0 (reverse es)) ≡ v =
      chosen-point keep es i v first rest reached
        (subst (λ ps. find (λ c. leb i c) ps ≡ some v) points found) in
    let cuts =
      subst (λ p. CutsBefore es p ((find_cut keep es).first_kept_entry_index)) chosen
        (find_cut-choose keep es first rest points) in
    let behind : leb i v ≡ true = find-holds (λ c. leb i c) (cut_points 0 es) v found in
    let ends = subst (Reaches keep 0 es) reached (walk_back-Reaches keep es some_budget) in
    (
      omega (
        arith,
        tokens-CutsBefore es v ((find_cut keep es).first_kept_entry_index) cuts,
        tokens-drop_le (v - i) (drop i es),
        tokens-behind es i v behind,
      ),
      omega (arith, ends.1),
      omega (arith, ends.2),
    )
