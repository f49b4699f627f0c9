-- ===== src/Aura/Memory/Bounds.antt =====
-- The size of aura/memory.py's memory, for every sequence of calls.
use aura_aioscpu.Prelude.{
  ltb, if_ind, string_eq, nat_eq, length, drop, length-append, length-drop, ℕ, ◌≤◌, String, Bool,
  true, false, Option, none, some, List, [], ◌∷◌, ◌++◌, arith,
}
use aura_aioscpu.Prelude.Json.{Json}
use aura_aioscpu.Aura.Memory.{
  pos, Turn, ConversationMemory, Entry, Listed, absent, not_a_list, listed, Document, slice_back,
  append_turn, add_turn, clear, turn_of, restore_turns, finish_load, restore, load,
}

-- The calls that change a memory: `load` is given what the file holds.
pub data Step (M B : Type 0) : Type 0 where
  add_step : (role : String) → (now : ℕ) → (content : String) → (metadata : M) → Step M B
  clear_step : Step M B
  load_step : Option B → Step M B

module _ {M B : Type 0} (json : Json (Document M) B) (empty : M) where
  unfoldable pub apply : Step M B → ConversationMemory M → ConversationMemory M
  apply (add_step role now content metadata) m = add_turn role now content metadata m
  apply clear_step m = clear m
  apply (load_step file) m = (load json empty file m).1

  unfoldable pub run : List (Step M B) → ConversationMemory M → ConversationMemory M
  run [] m = m
  run (s ∷ ss) m = run ss (apply s m)

  abbrev pub Fits : ConversationMemory M → Type 0
  Fits m = length m.turns ≤ m.max_turns

  append_turn-Fits : (t : Turn M) (m : ConversationMemory M) → Fits m → Fits (append_turn t m)
  unfolding append_turn
  append_turn-Fits t m h =
      let ts = m.turns ++ t ∷ [] in
      let dropped : length (drop 1 ts) ≤ m.max_turns =
        omega (arith, h, length-append m.turns (t ∷ []), length-drop 1 ts) in
      if_ind (λ (l : List (Turn M)). length l ≤ m.max_turns) (ltb m.max_turns (length ts))
        (λ _. dropped) (λ room. let e : length ts ≤ m.max_turns = ground (arith, room) in e)

  clear-Fits : (m : ConversationMemory M) → Fits (clear m)
  unfolding clear
  clear-Fits m = omega arith

  restore_turns-Fits :
      (es : List (Option (Entry M))) (m : ConversationMemory M)
      → Fits m
      → Fits (restore_turns empty es m).1
  unfolding restore_turns
  restore_turns-Fits [] m h = h
  restore_turns-Fits (none ∷ es) m h = h
  restore_turns-Fits (some e ∷ es) m h =
      restore_turns-Fits es (append_turn (turn_of empty e) m) (append_turn-Fits _ m h)

  finish_load-Fits :
      (start : Option ℕ) (z : Bool × ConversationMemory M) → Fits z.1 → Fits (finish_load start z).1
  unfolding finish_load
  finish_load-Fits start (false, m) h = h
  finish_load-Fits none (true, m) h = h
  finish_load-Fits (some s) (true, m) h = h

  listed-Fits :
      (start : Option ℕ) (l : Listed M) (m : ConversationMemory M)
      → Fits (restore empty (record { turns = l; session_start = start }) m).1
  unfolding restore
  listed-Fits start absent m = finish_load-Fits start (true, clear m) (clear-Fits m)
  listed-Fits start not_a_list m = clear-Fits m
  listed-Fits start (listed es) m =
      finish_load-Fits start (restore_turns empty (slice_back (pos m.max_turns) es) (clear m))
        (restore_turns-Fits (slice_back (pos m.max_turns) es) (clear m) (clear-Fits m))

  read-Fits :
      (o : Option (Document M)) (m : ConversationMemory M)
      → Fits m
      → Fits
          (elim o as (λ _. ℕ × ConversationMemory M) [
            | none ↦ (0, m)
            | some d ↦ restore empty d m
          ]).1
  read-Fits none m h = h
  read-Fits (some d) m h = listed-Fits d.session_start d.turns m

  apply-Fits : (s : Step M B) (m : ConversationMemory M) → Fits m → Fits (apply s m)
  unfolding apply add_turn load
  apply-Fits (add_step role now content metadata) m h = append_turn-Fits _ m h
  apply-Fits clear_step m h = clear-Fits m
  apply-Fits (load_step none) m h = h
  apply-Fits (load_step (some text)) m h = read-Fits (json.load text) m h

  -- A memory with no more turns than `max_turns` has no more after any calls, whatever the files that are
  -- loaded hold.
  pub run-Fits :
      (steps : List (Step M B)) (m : ConversationMemory M)
      → length m.turns ≤ m.max_turns
      → length (run steps m).turns ≤ (run steps m).max_turns
  unfolding run
  run-Fits [] m h = h
  run-Fits (s ∷ ss) m h = run-Fits ss (apply s m) (apply-Fits s m h)
