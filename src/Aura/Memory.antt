-- ===== src/Aura/Memory.antt =====
-- The conversation memory of aura/memory.py. `M` is the type of the metadata, and the times are whole
-- numbers. A write of the file that fails, or a value that JSON has not, is an argument of `save`.
pub mod Window
pub mod Files
pub mod Bounds
mod Tests
use aura_aioscpu.Prelude.{
  if◌then◌else◌, string_eq, nat_eq, ◌==◌, length, drop, ℕ, zero, suc, ◌-◌, String, Bool, true,
  false, Option, none, some, List, [], ◌∷◌, map,
}
use aura_aioscpu.Prelude.Text.{concat}
use aura_aioscpu.Prelude.Deque.{push_bounded}
use aura_aioscpu.Prelude.Json.{Json}

pub data ℤ : Type 0 where
  pos negsuc : ℕ → ℤ

pub record Turn (M : Type 0) : Type 0 where
  pub role : String
  pub content : String
  pub timestamp : ℕ
  pub metadata : M

pub record ConversationMemory (M : Type 0) : Type 0 where
  pub max_turns : ℕ
  pub turns : List (Turn M)
  pub session_start : ℕ

-- An entry of the file, whose keys may be missing.
pub record Entry (M : Type 0) : Type 0 where
  pub role : Option String
  pub content : Option String
  pub timestamp : Option ℕ
  pub metadata : Option M

-- The value of "turns": a list, whose elements need not be objects, something else, or missing.
pub data Listed (M : Type 0) : Type 0 where
  absent not_a_list : Listed M
  listed : List (Option (Entry M)) → Listed M

-- The object in the file: what `load` reads of it.
pub record Document (M : Type 0) : Type 0 where
  pub turns : Listed M
  pub session_start : Option ℕ

abbrev pub disk_turn_cap : ℕ
disk_turn_cap = 500

-- `l[-n:]`: all of the list where `n` is 0, and the list without its first `-n` where it is negative
unfoldable pub slice_back {ℓ} : {A : Type ℓ} → ℤ → List A → List A
slice_back (pos zero) xs = xs
slice_back (pos (suc n)) xs = drop (length xs - suc n) xs
slice_back (negsuc n) xs = drop (suc n) xs

unfoldable pub join_lines : List String → String
join_lines [] = ""
join_lines (l ∷ []) = l
join_lines (l ∷ k ∷ ls) = concat l (concat "\n" (join_lines (k ∷ ls)))

abbrev pub default {ℓ} : {A : Type ℓ} → A → Option A → A
default a none = a
default a (some b) = b

module _ {M : Type 0} where
  unfoldable pub init : ℕ → ℕ → ConversationMemory M
  init max now = record { max_turns = max; turns = []; session_start = now }

  -- `self._turns.append(…)`
  unfoldable pub append_turn : Turn M → ConversationMemory M → ConversationMemory M
  append_turn t m = record m { turns = push_bounded m.max_turns t m.turns }

  -- The metadata are those that `metadata or {}` gives.
  unfoldable pub add_turn : String → ℕ → String → M → ConversationMemory M → ConversationMemory M
  add_turn role now content metadata m =
      append_turn (record { role = role; content = content; timestamp = now; metadata = metadata })
        m

  unfoldable pub add_user : ℕ → String → M → ConversationMemory M → ConversationMemory M
  add_user now content metadata m = add_turn "user" now content metadata m

  unfoldable pub add_aura : ℕ → String → M → ConversationMemory M → ConversationMemory M
  add_aura now content metadata m = add_turn "aura" now content metadata m

  unfoldable pub add_system : ℕ → String → M → ConversationMemory M → ConversationMemory M
  add_system now content metadata m = add_turn "system" now content metadata m

  unfoldable pub clear : ConversationMemory M → ConversationMemory M
  clear m = record m { turns = [] }

  unfoldable pub get_turns : Option ℤ → ConversationMemory M → List (Turn M)
  get_turns none m = m.turns
  get_turns (some n) m = slice_back n m.turns

  unfoldable pub last_user_in : List (Turn M) → Option String
  last_user_in [] = none
  last_user_in (t ∷ ts) = elim (last_user_in ts) [
    | some content ↦ some content
    | none ↦ if t.role == "user" then some t.content else none
  ]

  unfoldable pub last_user_input : ConversationMemory M → Option String
  last_user_input m = last_user_in m.turns

  -- `str.capitalize` is an argument.
  unfoldable pub line_of : (String → String) → Turn M → String
  line_of capitalize t =
      concat
        (if t.role == "user"
          then "User"
          else (if t.role == "aura"
              then "AURA"
              else (if t.role == "system" then "System" else capitalize t.role)))
        (concat ": " t.content)

  unfoldable pub format_for_prompt : (String → String) → ℤ → ConversationMemory M → String
  format_for_prompt capitalize n m = join_lines (map (line_of capitalize) (get_turns (some n) m))

  unfoldable pub turn_count : ConversationMemory M → ℕ
  turn_count m = length m.turns

  -- `to_dict`
  unfoldable pub entry_of : Turn M → Entry M
  entry_of t = record {
    role = some t.role;
    content = some t.content;
    timestamp = some t.timestamp;
    metadata = some t.metadata;
  }

  unfoldable pub document_of : ConversationMemory M → Document M
  document_of m = record {
    turns = listed (slice_back (pos disk_turn_cap) (map (λ t. some (entry_of t)) m.turns));
    session_start = some m.session_start;
  }

  -- The result, and the file that it leaves; `some` fault: the write fails and leaves that file.
  unfoldable pub save :
      {B : Type 0}
      → Json (Document M) B
      → Option (Option B)
      → ConversationMemory M
      → Bool × Option B
  save json none m = (true, some (json.dump (document_of m)))
  save json (some left) m = (false, left)

  unfoldable pub turn_of : M → Entry M → Turn M
  turn_of empty e = record {
    role = default "system" e.role;
    content = default "" e.content;
    timestamp = default 0 e.timestamp;
    metadata = default empty e.metadata;
  }

  -- The loop of `load`; `false` stands for the exception at an entry that is not an object.
  unfoldable pub restore_turns :
      M → List (Option (Entry M)) → ConversationMemory M → Bool × ConversationMemory M
  restore_turns empty [] m = (true, m)
  restore_turns empty (none ∷ es) m = (false, m)
  restore_turns empty (some e ∷ es) m = restore_turns empty es (append_turn (turn_of empty e) m)

  -- The end of `load`, after the loop.
  unfoldable pub finish_load : Option ℕ → Bool × ConversationMemory M → ℕ × ConversationMemory M
  finish_load start (false, m) = (0, m)
  finish_load none (true, m) = (length m.turns, m)
  finish_load (some s) (true, m) = (length m.turns, record m { session_start = s })

  unfoldable pub restore : M → Document M → ConversationMemory M → ℕ × ConversationMemory M
  restore empty d m = elim d.turns [
    | absent ↦ finish_load d.session_start (true, clear m)
    | not_a_list ↦ (0, clear m)
    | listed es ↦
        finish_load d.session_start
          (restore_turns empty (slice_back (pos m.max_turns) es) (clear m))
  ]

  -- `none`: there is no such file. A file that is not a JSON object is left alone.
  unfoldable pub load :
      {B : Type 0}
      → Json (Document M) B
      → M
      → Option B
      → ConversationMemory M
      → ℕ × ConversationMemory M
  load json empty none m = (0, m)
  load json empty (some text) m = elim (json.load text) [
    | none ↦ (0, m)
    | some d ↦ restore empty d m
  ]
