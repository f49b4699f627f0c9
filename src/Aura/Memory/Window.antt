-- ===== src/Aura/Memory/Window.antt =====
-- The rolling window of aura/memory.py: it holds the last turns of all that were added.
use mathlib.Core.List.{append_assoc, append-nil}
use aura_aioscpu.Prelude.{
  ltb, if◌then◌else◌, string_eq, nat_eq, length, drop, ℕ, ◌-◌, String, ◌≡◌, refl, sym, ap, ◌∙◌,
  List, [], ◌∷◌, ◌++◌, map,
}
use aura_aioscpu.Prelude.Deque.{latest, drop_nil, latest-append_one}
use aura_aioscpu.Aura.Memory.{
  Turn, ConversationMemory, init, append_turn, add_turn, add_user, add_aura, add_system, clear,
}

pub data Said (M : Type 0) : Type 0 where
  by_user by_aura by_system : (now : ℕ) (content : String) (metadata : M) → Said M

module _ {M : Type 0} where
  unfoldable pub append_all : List (Turn M) → ConversationMemory M → ConversationMemory M
  append_all [] m = m
  append_all (t ∷ ts) m = append_all ts (append_turn t m)

  append_all_turns :
      (ts history : List (Turn M)) (m : ConversationMemory M)
      → m.turns ≡ latest m.max_turns history
      → (append_all ts m).turns ≡ latest m.max_turns (history ++ ts)
  unfolding append_all append_turn
  append_all_turns [] history m h = h ∙ ap (latest m.max_turns) (sym (append-nil history))
  append_all_turns (t ∷ ts) history m h =
      append_all_turns ts (history ++ t ∷ []) (append_turn t m) (
        ap
          (λ l.
            if ltb m.max_turns (length (l ++ t ∷ [])) then drop 1 (l ++ t ∷ []) else l ++ t ∷ [])
          h
        ∙ latest-append_one m.max_turns t history)
      ∙ ap (latest m.max_turns) (append_assoc history (t ∷ []) ts)

  pub append_all-clear :
      (ts : List (Turn M)) (m : ConversationMemory M)
      → (append_all ts (clear m)).turns ≡ latest m.max_turns ts
  unfolding clear latest
  append_all-clear ts m = append_all_turns ts [] (clear m) (sym (drop_nil (0 - m.max_turns)))

  -- What is said in a conversation: a call of one of the three methods.
  unfoldable pub say : Said M → ConversationMemory M → ConversationMemory M
  say (by_user now content metadata) m = add_user now content metadata m
  say (by_aura now content metadata) m = add_aura now content metadata m
  say (by_system now content metadata) m = add_system now content metadata m

  unfoldable pub say_all : List (Said M) → ConversationMemory M → ConversationMemory M
  say_all [] m = m
  say_all (u ∷ us) m = say_all us (say u m)

  -- The turn that a call is recorded as.
  abbrev pub turn_for : Said M → Turn M
  turn_for (by_user now content metadata) = record {
    role = "user";
    content = content;
    timestamp = now;
    metadata = metadata;
  }
  turn_for (by_aura now content metadata) = record {
    role = "aura";
    content = content;
    timestamp = now;
    metadata = metadata;
  }
  turn_for (by_system now content metadata) = record {
    role = "system";
    content = content;
    timestamp = now;
    metadata = metadata;
  }

  say_lem : (u : Said M) (m : ConversationMemory M) → say u m ≡ append_turn (turn_for u) m
  unfolding say add_user add_aura add_system add_turn
  say_lem (by_user now content metadata) m = refl
  say_lem (by_aura now content metadata) m = refl
  say_lem (by_system now content metadata) m = refl

  say_all-append_all :
      (us : List (Said M)) (m : ConversationMemory M)
      → say_all us m ≡ append_all (map turn_for us) m
  unfolding say_all append_all
  say_all-append_all [] m = refl
  say_all-append_all (u ∷ us) m =
      ap (say_all us) (say_lem u m) ∙ say_all-append_all us (append_turn (turn_for u) m)

  -- After any calls of `add_user`, `add_aura` and `add_system` on a new memory, it holds the last
  -- `max_turns` of them, in order, each as a turn with the role of its method, the content, the time and
  -- the metadata that it was given: no turn is lost that is newer than one that is kept.
  pub say_all-latest :
      (max now : ℕ) (us : List (Said M))
      → (say_all us (init max now)).turns ≡ latest max (map turn_for us)
  unfolding init latest
  say_all-latest max now us =
      ap (λ (m : ConversationMemory M). m.turns) (say_all-append_all us (init max now))
      ∙ append_all_turns (map turn_for us) [] (init max now) (sym (drop_nil (0 - max)))
