-- ===== src/Aura/Memory/Files.antt =====
-- What `save` of aura/memory.py writes and `load` reads.
use aura_aioscpu.Prelude.Json.{Json, IsFaithful}
use aura_aioscpu.Prelude.{
  string_eq, nat_eq, length, drop, length-drop, ℕ, zero, suc, ◌+◌, ◌-◌, min, ◌≡◌, refl, ap, ◌∙◌,
  true, Option, none, some, List, [], ◌∷◌, map, arith,
}
use aura_aioscpu.Aura.Memory.{
  pos, Turn, ConversationMemory, Entry, Document, disk_turn_cap, slice_back, append_turn, clear,
  entry_of, document_of, save, turn_of, restore_turns, finish_load, restore, load,
}
use aura_aioscpu.Prelude.Deque.{latest, drop-drop}
use aura_aioscpu.Aura.Memory.Window.{append_all, append_all-clear}

module _ {ℓ} {A : Type ℓ} where
  -- The end that is read of a list: all of it where the number is 0.
  latest-slice_back : (n : ℕ) (xs : List A) → latest n (slice_back (pos n) xs) ≡ latest n xs
  unfolding latest slice_back
  latest-slice_back zero xs = refl
  latest-slice_back (suc n) xs =
      let len = length-drop (length xs - suc n) xs in
      let e : length xs - suc n + (length (drop (length xs - suc n) xs) - suc n)
          ≡ length xs - suc n =
        omega (arith, len) in
      drop-drop _ (length xs - suc n) xs ∙ ap (λ i. drop i xs) e

  pub latest-latest : (n k : ℕ) (xs : List A) → latest n (latest k xs) ≡ latest (min n k) xs
  unfolding latest
  latest-latest n k xs =
      let len = length-drop (length xs - k) xs in
      let e : length xs - k + (length (drop (length xs - k) xs) - n) ≡ length xs - min n k =
        omega (arith, len) in
      drop-drop _ (length xs - k) xs ∙ ap (λ i. drop i xs) e

module _ {ℓ κ} {A : Type ℓ} {B : Type κ} (f : A → B) where
  drop-map : (n : ℕ) (xs : List A) → drop n (map f xs) ≡ map f (drop n xs)
  drop-map zero xs = refl
  drop-map (suc n) [] = refl
  drop-map (suc n) (x ∷ xs) = drop-map n xs

  length-map : (xs : List A) → length (map f xs) ≡ length xs
  length-map [] = refl
  length-map (x ∷ xs) = omega (arith, length-map xs)

  slice_back-map :
      (n : ℕ) (xs : List A) → slice_back (pos n) (map f xs) ≡ map f (slice_back (pos n) xs)
  unfolding slice_back
  slice_back-map zero xs = refl
  slice_back-map (suc n) xs =
      ap (λ i. drop (i - suc n) (map f xs)) (length-map xs) ∙ drop-map (length xs - suc n) xs

module _ {M : Type 0} (empty : M) where
  -- The turns of a file that `save` has written are added one by one.
  restore_turns-entry_of :
      (ts : List (Turn M)) (m : ConversationMemory M)
      → restore_turns empty (map (λ t. some (entry_of t)) ts) m ≡ (true, append_all ts m)
  unfolding restore_turns append_all turn_of entry_of
  restore_turns-entry_of [] m = refl
  restore_turns-entry_of (t ∷ ts) m = restore_turns-entry_of ts (append_turn t m)

  append_all_keeps :
      (ts : List (Turn M)) (m : ConversationMemory M)
      → append_all ts m ≡ record m { turns = (append_all ts m).turns }
  unfolding append_all append_turn
  append_all_keeps [] m = refl
  append_all_keeps (t ∷ ts) m = append_all_keeps ts (append_turn t m)

  -- The memory that a load leaves.
  abbrev pub reloaded : ConversationMemory M → ConversationMemory M → ConversationMemory M
  reloaded old m = record m {
    turns = latest (min m.max_turns disk_turn_cap) old.turns;
    session_start = old.session_start;
  }

  restored_turns :
      (max : ℕ) (ts : List (Turn M))
      → latest max (slice_back (pos max) (slice_back (pos disk_turn_cap) ts))
        ≡ latest (min max disk_turn_cap) ts
  unfolding slice_back latest
  restored_turns max ts =
      latest-slice_back max (slice_back (pos disk_turn_cap) ts) ∙ latest-latest max disk_turn_cap ts

  restore_written :
      (ts : List (Turn M)) (m : ConversationMemory M)
      → restore_turns empty
          (slice_back
            (pos m.max_turns)
            (slice_back (pos disk_turn_cap) (map (λ t. some (entry_of t)) ts)))
          (clear m)
        ≡ (true, record m { turns = latest (min m.max_turns disk_turn_cap) ts })
  unfolding clear
  restore_written ts m =
      let us = slice_back (pos m.max_turns) (slice_back (pos disk_turn_cap) ts) in
      let entry : Turn M → Option (Entry M) = λ t. some (entry_of t) in
      ap (λ es. restore_turns empty es (clear m))
        (ap (slice_back (pos m.max_turns)) (slice_back-map entry disk_turn_cap ts)
          ∙ slice_back-map entry m.max_turns (slice_back (pos disk_turn_cap) ts))
      ∙ restore_turns-entry_of us (clear m)
      ∙ ap (λ z. (true, z)) (append_all_keeps us (clear m))
      ∙ ap (λ l. (true, record m { turns = l }))
          (append_all-clear us m ∙ restored_turns m.max_turns ts)

  restore-document_of :
      (old m : ConversationMemory M)
      → restore empty (document_of old) m ≡ (length (reloaded old m).turns, reloaded old m)
  unfolding restore document_of finish_load
  restore-document_of old m =
      ap (finish_load (some old.session_start)) (restore_written old.turns m)

  -- A memory that is saved, and loaded into any memory by a JSON library that reads what it has written,
  -- gives back its last turns, as many as the new window and the cap of 500 allow, unchanged and in
  -- order, and its session start; what the new memory held is gone, and the result is the number of
  -- turns.
  pub load-save :
      {B : Type 0} (json : Json (Document M) B)
      → IsFaithful json
      → (old m : ConversationMemory M)
      → load json empty (save json none old).1 m ≡ (length (reloaded old m).turns, reloaded old m)
  unfolding load save
  load-save json faithful old m =
      ap (λ o. elim o [ none ↦ (0, m) | some d ↦ restore empty d m ])
        (faithful.load_dump (document_of old))
      ∙ restore-document_of old m
