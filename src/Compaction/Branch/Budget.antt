-- ===== src/Compaction/Branch/Budget.antt =====
-- What is kept of a branch under a budget of tokens
-- (packages/coding-agent/src/core/compaction/branch-summarization.ts).
use mathlib.Core.List.{reverse-cons, reverse-reverse}
use co_mono.Base.{
  ℕ, ◌+◌, ◌*◌, ◌≤◌, ◌<◌, ◌≡◌, ◌⊎◌, inl, inr, ◌∙◌, refl, ap, subst, true, false, Option, none, some,
  List, [], ◌∷◌, ◌++◌, append_assoc, append-nil, if-both, reverse, arith,
}
use co_mono.Message.{AgentMessage}
use co_mono.Session.Entry.{SessionEntry}
use co_mono.Compaction.Tokens.{estimate_tokens}
use co_mono.Compaction.Files.{Runtime}
use co_mono.Compaction.Branch.{
  BranchPreparation, Round, is_over, is_summary, fits_summary, unshift, add_message,
  get_entry_message, record_files, round, add_messages, prepare_branch_entries,
}

abbrev tokens_of : List AgentMessage → ℕ
tokens_of [] = 0
tokens_of (m ∷ ms) = estimate_tokens m + tokens_of ms

abbrev IsCounted : BranchPreparation → Type 0
IsCounted p = p.total_tokens ≡ tokens_of (p.messages)

-- Within the budget, but for a first message that came when less than nine tenths were used.
abbrev IsWithin : ℕ → BranchPreparation → Type 0
IsWithin budget p =
    (p.total_tokens ≤ budget)
    ⊎ ((m : AgentMessage) × (ms : List AgentMessage) × (p.messages ≡ m ∷ ms)
        × (10 * tokens_of ms < 9 * budget))

abbrev pushed : Option AgentMessage → List AgentMessage → List AgentMessage
pushed none ms = ms
pushed (some m) ms = m ∷ ms

-- What a round does to the messages.
abbrev Adds : Option AgentMessage → BranchPreparation → Round → Type 0
Adds o p r =
    IsCounted (r.preparation)
    × (((r.preparation).messages ≡ pushed o (p.messages))
        ⊎ ((r.goes_on ≡ false) × ((r.preparation).messages ≡ p.messages)))

unshift-IsCounted :
    (m : AgentMessage) (p : BranchPreparation) → IsCounted p → IsCounted (unshift m p)
unshift-IsCounted m p counted = omega (arith, counted)

add_message-Adds :
    (budget : ℕ) (e : SessionEntry) (m : AgentMessage) (p : BranchPreparation)
    → IsCounted p
    → Adds (some m) p (add_message budget e m p)
add_message-Adds budget e m p counted =
    if-both (Adds (some m) p) (is_over budget (p.total_tokens + estimate_tokens m))
      (λ _.
        if-both (λ q. Adds (some m) p (record { preparation = q; goes_on = false }))
          (fits_summary budget e p) (λ _. (unshift-IsCounted m p counted, inl refl))
          (λ _. (counted, inr (refl, refl))))
      (λ _. (unshift-IsCounted m p counted, inl refl))

is_over-le : (budget total : ℕ) → 0 < budget → is_over budget total ≡ false → total ≤ budget
is_over-le budget total some_budget under = ground (arith, some_budget, under)

fits_summary-lt :
    (budget : ℕ) (e : SessionEntry) (p : BranchPreparation)
    → IsCounted p
    → fits_summary budget e p ≡ true
    → 10 * tokens_of (p.messages) < 9 * budget
fits_summary-lt budget e p counted fits =
    if-both (λ b. b ≡ true → 10 * tokens_of (p.messages) < 9 * budget) (is_summary e)
      (λ _ h. ground (arith, counted, h)) (λ _ never. absurd (cc (never))) fits

add_message-IsWithin :
    (budget : ℕ) (e : SessionEntry) (m : AgentMessage) (p : BranchPreparation)
    → 0 < budget
    → IsCounted p
    → p.total_tokens ≤ budget
    → let r = add_message budget e m p in
      IsWithin budget (r.preparation) × (r.goes_on ≡ true → (r.preparation).total_tokens ≤ budget)
add_message-IsWithin budget e m p some_budget counted within =
    if-both
      (λ (r : Round).
        IsWithin budget (r.preparation)
        × (r.goes_on ≡ true → (r.preparation).total_tokens ≤ budget))
      (is_over budget (p.total_tokens + estimate_tokens m))
      (λ _. (
        if-both (IsWithin budget) (fits_summary budget e p)
            (λ fits. inr (m, p.messages, refl, fits_summary-lt budget e p counted fits))
            (λ _. inl within),
        λ never. absurd (cc (never)),
      ))
      (λ under.
        (inl (is_over-le budget _ some_budget under), λ _. is_over-le budget _ some_budget under))

module _ (runtime : Runtime) where
  round-Adds :
      (budget : ℕ) (e : SessionEntry) (o : Option AgentMessage) (p : BranchPreparation)
      → IsCounted p
      → Adds o p (round runtime budget e o p)
  round-Adds budget e none p counted = (counted, inl refl)
  round-Adds budget e (some m) p counted =
      add_message-Adds budget e m (record_files runtime m p) counted

  abbrev entry_messages : List SessionEntry → List AgentMessage
  entry_messages [] = []
  entry_messages (e ∷ es) = pushed (get_entry_message runtime e) (entry_messages es)

  abbrev EndsWith : List SessionEntry → BranchPreparation → Type 0
  EndsWith entries p =
      (older : List SessionEntry) × (newer : List SessionEntry) × (entries ≡ older ++ newer)
      × (p.messages ≡ entry_messages newer)
      × IsCounted p

  one_more :
      (e : SessionEntry) (rs newer : List SessionEntry)
      → reverse (e ∷ rs) ++ newer ≡ reverse rs ++ e ∷ newer
  one_more e rs newer =
      ap (◌++ newer) (reverse-cons e rs) ∙ append_assoc (reverse rs) (e ∷ []) newer

  add_messages-EndsWith :
      (budget : ℕ) (rs newer : List SessionEntry) (p : BranchPreparation)
      → p.messages ≡ entry_messages newer
      → IsCounted p
      → EndsWith (reverse rs ++ newer) (add_messages runtime budget rs p)
  unfolding add_messages
  add_messages-EndsWith budget [] newer p same counted = ([], newer, refl, same, counted)
  add_messages-EndsWith budget (e ∷ rs) newer p same counted =
      let o = get_entry_message runtime e in
      let r = round runtime budget e o p in
      let (after, kind) = round-Adds budget e o p counted in
      if-both (EndsWith (reverse (e ∷ rs) ++ newer)) (r.goes_on)
        (λ going. elim kind [
          | inl added ↦
              let (older, rest, parts, kept, sums) =
                add_messages-EndsWith budget rs (e ∷ newer) (r.preparation)
                  (added ∙ ap (pushed o) same) after in
              (older, rest, one_more e rs newer ∙ parts, kept, sums)
          | inr (stopped, _) ↦ absurd (cc (going, stopped))
        ])
        (λ _. elim kind [
          | inl added ↦
              (reverse rs, e ∷ newer, one_more e rs newer, added ∙ ap (pushed o) same, after)
          | inr (_, kept) ↦ (reverse (e ∷ rs), newer, refl, kept ∙ same, after)
        ])

  -- The messages that are prepared are those of the last entries, all of them from some entry on and in
  -- their order, and the total is the sum of their estimates.
  prepare_branch_entries-EndsWith :
      (entries : List SessionEntry) (budget : ℕ)
      → EndsWith entries (prepare_branch_entries runtime entries budget)
  unfolding prepare_branch_entries
  prepare_branch_entries-EndsWith entries budget =
      subst (λ es. EndsWith es (prepare_branch_entries runtime entries budget))
        (append-nil (reverse (reverse entries)) ∙ reverse-reverse entries)
        (add_messages-EndsWith budget (reverse entries) [] _ refl refl)

  -- A round that goes on is within the budget, and one that stops is within it but for a summary.
  round-IsWithin :
      (budget : ℕ) (e : SessionEntry) (o : Option AgentMessage) (p : BranchPreparation)
      → 0 < budget
      → IsCounted p
      → p.total_tokens ≤ budget
      → let r = round runtime budget e o p in
        IsWithin budget (r.preparation) × (r.goes_on ≡ true → (r.preparation).total_tokens ≤ budget)
  round-IsWithin budget e none p some_budget counted within = (inl within, λ _. within)
  round-IsWithin budget e (some m) p some_budget counted within =
      add_message-IsWithin budget e m (record_files runtime m p) some_budget counted within

  add_messages-IsWithin :
      (budget : ℕ) (rs : List SessionEntry) (p : BranchPreparation)
      → 0 < budget
      → IsCounted p
      → p.total_tokens ≤ budget
      → IsWithin budget (add_messages runtime budget rs p)
  unfolding add_messages
  add_messages-IsWithin budget [] p some_budget counted within = inl within
  add_messages-IsWithin budget (e ∷ rs) p some_budget counted within =
      let o = get_entry_message runtime e in
      let r = round runtime budget e o p in
      let (stopped, going) = round-IsWithin budget e o p some_budget counted within in
      if-both (IsWithin budget) (r.goes_on)
        (λ h.
          add_messages-IsWithin budget rs (r.preparation) some_budget
            ((round-Adds budget e o p counted).0) (going h))
        (λ _. stopped)

  -- Under a budget, what is prepared is within it, or its first message is a summary that came when the
  -- later messages had used less than nine tenths of the budget.
  prepare_branch_entries-IsWithin :
      (entries : List SessionEntry) (budget : ℕ)
      → 0 < budget
      → IsWithin budget (prepare_branch_entries runtime entries budget)
  unfolding prepare_branch_entries
  prepare_branch_entries-IsWithin entries budget some_budget =
      add_messages-IsWithin budget (reverse entries) _ some_budget refl (omega arith)
