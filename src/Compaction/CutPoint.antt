-- ===== src/Compaction/CutPoint.antt =====
-- Where a session is cut: `findCutPoint` and what it calls
-- (packages/coding-agent/src/core/compaction/compaction.ts).
pub mod Valid
pub mod Budget
pub mod Order
use co_mono.Base.{
  ℕ, zero, suc, ◌+◌, ◌-◌, Bool, true, false, not, ◌&&◌, ◌||◌, Option, none, some, List, [], ◌∷◌,
  ◌++◌, reverse, ltb, leb, get_or_else, if◌then◌else◌, length, take, drop, find, get_elem?, is_some,
}
use co_mono.Message.{AgentMessage, user, bash_execution, tool_result, hook_message}
use co_mono.Session.Entry.{Body, message, compaction, branch_summary, custom_message, SessionEntry}
use co_mono.Compaction.Tokens.{estimate_tokens}

-- The roles at which a session can be cut.
is_cut_message : AgentMessage → Bool
is_cut_message (tool_result _) = false
is_cut_message (hook_message _) = false
is_cut_message _ = true

pub is_cut_point : Body → Bool
unfolding is_cut_message
is_cut_point (message m) = is_cut_message m
is_cut_point (branch_summary _ _ _ _) = true
is_cut_point (custom_message _ _ _ _) = true
is_cut_point _ = false

-- The loop of `findValidCutPoints`, at the index `i`.
unfoldable pub cut_points : ℕ → List SessionEntry → List ℕ
unfolding is_cut_point
cut_points i [] = []
cut_points i (e ∷ es) =
    let rest = cut_points (suc i) es in if is_cut_point (e.body) then i ∷ rest else rest

abbrev pub body_tokens : Body → ℕ
body_tokens (message m) = estimate_tokens m
body_tokens _ = 0

abbrev pub is_message : Body → Bool
is_message (message _) = true
is_message _ = false

-- The walk from the newest entry back: the index at which the budget is reached.
unfoldable pub walk_back : (keep_recent_tokens accumulated : ℕ) → List SessionEntry → Option ℕ
unfolding estimate_tokens
walk_back keep accumulated [] = none
walk_back keep accumulated (e ∷ older) =
    let sum = accumulated + body_tokens (e.body) in
    let further = walk_back keep sum older in
    if not (is_message (e.body))
    then further
    else if leb keep sum
    then some (length older)
    else further

-- Messages and compactions end the scan for entries that go with the cut.
abbrev pub ends_scan : Body → Bool
ends_scan (message _) = true
ends_scan (compaction _ _ _ _ _ _) = true
ends_scan _ = false

-- The scan from the cut back.
pub scan_back : List SessionEntry → ℕ
scan_back [] = 0
scan_back (e ∷ older) =
    let further = scan_back older in if ends_scan (e.body) then suc (length older) else further

abbrev starts_turn : Body → Bool
starts_turn (message (user _ _)) = true
starts_turn (message (bash_execution _)) = true
starts_turn (branch_summary _ _ _ _) = true
starts_turn (custom_message _ _ _ _) = true
starts_turn _ = false

-- The loop of `findTurnStartIndex`; `none` is -1.
pub turn_start : List SessionEntry → Option ℕ
turn_start [] = none
turn_start (e ∷ older) =
    let further = turn_start older in if starts_turn (e.body) then some (length older) else further

-- The entries from `startIndex` on; the index is in range.
find_turn_start_index : List SessionEntry → (entry_index : ℕ) → Option ℕ
unfolding turn_start
find_turn_start_index es entry_index = turn_start (reverse (take (suc entry_index) es))

abbrev pub is_user : Option SessionEntry → Bool
is_user none = false
is_user (some e) = elim (e.body) [ message (user _ _) ↦ true | _ ↦ false ]

pub record CutPointResult : Type 0 where
  pub first_kept_entry_index : ℕ
  pub turn_start_index : Option ℕ
  pub is_split_turn : Bool

-- The closest cut point at or after the place where the budget is reached; else the first.
pub choose : (first : ℕ) → List ℕ → Option ℕ → ℕ
choose first points none = first
choose first points (some i) = get_or_else (find (λ c. leb i c) points) first

pub cut_at : ℕ → List SessionEntry → CutPointResult
unfolding find_turn_start_index
cut_at cut es =
    let start = find_turn_start_index es cut in
    if is_user (get_elem? es cut)
    then record { first_kept_entry_index = cut; turn_start_index = none; is_split_turn = false }
    else record {
      first_kept_entry_index = cut;
      turn_start_index = start;
      is_split_turn = is_some start;
    }

pub find_cut_among : List ℕ → (keep : ℕ) → List SessionEntry → CutPointResult
unfolding walk_back scan_back choose cut_at
find_cut_among [] keep es = record {
  first_kept_entry_index = 0;
  turn_start_index = none;
  is_split_turn = false;
}
find_cut_among (first ∷ rest) keep es =
    cut_at
      (scan_back (reverse (take (choose first (first ∷ rest) (walk_back keep 0 (reverse es))) es)))
      es

-- The cut among the entries from `startIndex` to `endIndex`, by indices that count from `startIndex`.
unfoldable pub find_cut : (keep : ℕ) → List SessionEntry → CutPointResult
unfolding cut_points find_cut_among
find_cut keep es = find_cut_among (cut_points 0 es) keep es

abbrev pub shift : ℕ → CutPointResult → CutPointResult
shift start r = record {
  first_kept_entry_index = start + r.first_kept_entry_index;
  turn_start_index = elim (r.turn_start_index) [ none ↦ none | some i ↦ some (start + i) ];
  is_split_turn = r.is_split_turn;
}

-- `none`: an index past the end, at which the loop for the cut points throws.
unfoldable pub find_cut_point :
    List SessionEntry → (start_index end_index keep_recent_tokens : ℕ) → Option CutPointResult
unfolding find_cut
find_cut_point entries start_index end_index keep =
    if ltb start_index end_index && ltb (length entries) end_index
    then none
    else some (
        shift start_index
          (find_cut keep (take (end_index - start_index) (drop start_index entries))))

-- `historyEnd` of `prepareCompaction`, where the entries that are summarized on their own end.
abbrev pub history_end : CutPointResult → ℕ
history_end cut =
    if cut.is_split_turn
    then get_or_else (cut.turn_start_index) (cut.first_kept_entry_index)
    else cut.first_kept_entry_index
