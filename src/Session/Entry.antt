-- ===== src/Session/Entry.antt =====
-- The entries of a session file, and how their ids are drawn
-- (packages/coding-agent/src/core/session-manager.ts).
use co_mono.Base.{
  ℕ, zero, suc, ◌+◌, ◌<◌, ◌==◌, ◌⊎◌, ◌≡◌, ◌≢◌, refl, ap, subst, String, Bool, true, false, Option,
  none, some, List, [], ◌∷◌, str_eq, if◌then◌else◌, Bool-cases, inl, inr, arith,
}
use co_mono.Message.{Json, UserContent, AgentMessage}

abbrev pub current_session_version : ℕ
current_session_version = 3

pub record SessionHeader : Type 0 where
  pub version : Option ℕ
  pub id : String
  pub timestamp : String
  pub cwd : String
  pub parent_session : Option String

-- `first_kept_entry_index` is a field that only files of version 1 hold, and they hold it in place of
-- `first_kept_entry_id`.
-- What the entry types have beside the fields of `SessionEntryBase`.
pub data Body : Type 0 where
  message : AgentMessage → Body
  thinking_level_change : (thinking_level : String) → Body
  model_change : (provider model_id : String) → Body
  compaction :
      (summary : String) (first_kept_entry_id : Option String) (tokens_before : ℕ)
      (details : Option Json) (from_hook : Option Bool) (first_kept_entry_index : Option ℕ)
      → Body
  branch_summary :
      (from_id summary : String) (details : Option Json) (from_hook : Option Bool) → Body
  custom : (custom_type : String) (payload : Option Json) → Body
  custom_message :
      (custom_type : String) (content : UserContent) (details : Option Json) (display : Bool) → Body
  label : (target_id : String) (text : Option String) → Body
  session_info : (name : Option String) → Body

pub record SessionEntry : Type 0 where
  pub id : String
  pub parent_id : Option String
  pub timestamp : String
  pub body : Body

pub data FileEntry : Type 0 where
  header : SessionHeader → FileEntry
  entry : SessionEntry → FileEntry

-- A line of a session file: the JSON text of an entry, or text that `JSON.parse` refuses.
pub data Line : Type 0 where
  json : FileEntry → Line
  malformed : String → Line

-- A string in a test: `undefined`, `null` and the empty text are false.
abbrev pub truthy : Option String → Bool
truthy none = false
truthy (some s) = if str_eq s "" then false else true

abbrev is_assistant_message : AgentMessage → Bool
is_assistant_message (AgentMessage.assistant _) = true
is_assistant_message _ = false

-- `e.type === "message" && e.message.role === "assistant"`
abbrev pub is_assistant : Body → Bool
is_assistant (message m) = is_assistant_message m
is_assistant _ = false

abbrev pub is_assistant_entry : FileEntry → Bool
is_assistant_entry (header _) = false
is_assistant_entry (entry e) = is_assistant e.body

-- `getEntries`: the entries without the header.
unfoldable pub get_entries : List FileEntry → List SessionEntry
get_entries [] = []
get_entries (header h ∷ fs) = get_entries fs
get_entries (entry e ∷ fs) = e ∷ get_entries fs

-- What the runtime supplies in one call: the UUIDs in the order in which they are drawn, the current
-- time as text, and Node's `join` and `resolve` on paths.
pub record Env : Type 0 where
  pub uuid : ℕ → String
  pub now : String
  pub join : String → String → String
  pub resolve : String → String

-- `s.slice(0, n)`
abbrev slice_to : ℕ → String → String
slice_to zero s = String.[]
slice_to (suc n) String.[] = String.[]
slice_to (suc n) (String.◌∷◌ c s) = String.◌∷◌ c (slice_to n s)

-- The loop of `generateId`, with the rounds that are left and the next draw; then the fallback.
generate_from : (has : String → Bool) (uuid : ℕ → String) (rounds next : ℕ) → String
generate_from has uuid zero next = uuid next
generate_from has uuid (suc rounds) next =
    let rest = generate_from has uuid rounds (suc next) in
    if has (slice_to 8 (uuid next)) then rest else slice_to 8 (uuid next)

unfoldable pub generate_id : (has : String → Bool) → Env → String
unfolding generate_from
generate_id has env = generate_from has env.uuid 100 0

-- What the program relies on in `randomUUID`: no draw is the empty text, and the draw that follows
-- a hundred collisions is not an id of the session.
pub record IsUuidSource (has : String → Bool) (env : Env) : Type 0 where
  pub nonempty : (i : ℕ) → env.uuid i ≢ ""
  pub unused : has (env.uuid 100) ≡ false

module _ (has : String → Bool) (env : Env) (src : IsUuidSource has env) where
  slice_to-ne-empty : (s : String) → s ≢ "" → slice_to 8 s ≢ ""
  slice_to-ne-empty String.[] h = h
  slice_to-ne-empty (String.◌∷◌ c s) h = λ e. cc

  generate_from-new :
      (rounds next : ℕ)
      → next + rounds ≡ 100
      → (has (generate_from has env.uuid rounds next) ≡ false)
        × (generate_from has env.uuid rounds next ≢ "")
  unfolding generate_from
  generate_from-new zero next h =
      let e : next ≡ 100 = omega arith in (rw e src.unused, src.nonempty next)
  generate_from-new (suc rounds) next h = elim (Bool-cases (has (slice_to 8 (env.uuid next)))) [
    | inl taken ↦ rw taken (generate_from-new rounds (suc next) (omega arith))
    | inr free ↦ rw free (free, slice_to-ne-empty (env.uuid next) (src.nonempty next))
  ]

  -- From such a source the id is new.
  pub generate_id-new : (has (generate_id has env) ≡ false) × (generate_id has env ≢ "")
  unfolding generate_id
  generate_id-new = generate_from-new 100 0 (omega arith)

module _ (has : String → Bool) (env : Env) where
  -- The first `n` draws, cut to eight characters, are all taken.
  abbrev AreTaken : ℕ → Type 0
  AreTaken n = (j : ℕ) → j < n → has (slice_to 8 (env.uuid j)) ≡ true

  -- The first short id that is free, or the whole of the draw behind a hundred that are taken.
  abbrev pub IsDrawn : String → Type 0
  IsDrawn id =
      ((i : ℕ) × (i < 100) × AreTaken i × (has id ≡ false) × (id ≡ slice_to 8 (env.uuid i)))
      ⊎ (AreTaken 100 × (id ≡ env.uuid 100))

  AreTaken-suc : (n : ℕ) → AreTaken n → has (slice_to 8 (env.uuid n)) ≡ true → AreTaken (suc n)
  AreTaken-suc n before here j lt = elim (Bool-cases (j == n)) [
    | inl same ↦
        let e : n ≡ j = ground (arith, same) in
        subst (λ i. has (slice_to 8 (env.uuid i)) ≡ true) e here
    | inr other ↦ before j (ground (arith, other, lt))
  ]

  generate_from-IsDrawn :
      (rounds next : ℕ)
      → next + rounds ≡ 100
      → AreTaken next
      → IsDrawn (generate_from has env.uuid rounds next)
  unfolding generate_from
  generate_from-IsDrawn zero next h before =
      let e : next ≡ 100 = omega arith in inr (subst AreTaken e before, ap env.uuid e)
  generate_from-IsDrawn (suc rounds) next h before =
      elim (Bool-cases (has (slice_to 8 (env.uuid next)))) [
        | inl taken ↦
            rw taken (
              generate_from-IsDrawn rounds (suc next) (omega arith)
                (AreTaken-suc next before taken))
        | inr free ↦ rw free (inl (next, omega arith, before, free, refl))
      ]

  -- Whatever the UUIDs and the ids of the session: `generateId` returns the first eight characters of the
  -- first draw for which no entry has them as its id, if one of the first hundred draws is such; else it
  -- returns the whole of the next draw, without a check.
  pub generate_id-IsDrawn : IsDrawn (generate_id has env)
  unfolding generate_id
  generate_id-IsDrawn = generate_from-IsDrawn 100 0 (omega arith) (λ j lt. absurd (omega arith))
