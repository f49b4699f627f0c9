-- ===== src/Aura/Memory/Tests.antt =====
-- Runs of aura/memory.py's memory: a window of two turns, saved and loaded.
use aura_aioscpu.Prelude.{
  string_eq, nat_eq, length, ◌≤◌, String, ◌≡◌, refl, none, some, List, [], ◌∷◌, map, arith,
}
use aura_aioscpu.Prelude.Json.{Json, IsFaithful}
use aura_aioscpu.Aura.Memory.{
  pos, Turn, ConversationMemory, listed, Document, slice_back, join_lines, init, append_turn, clear,
  get_turns, line_of, format_for_prompt, save, restore_turns, finish_load, restore, load,
}
use aura_aioscpu.Prelude.Deque.{latest}
use aura_aioscpu.Aura.Memory.Window.{
  Said, by_user, by_aura, by_system, append_all, say_all, turn_for, say_all-latest,
}
use aura_aioscpu.Aura.Memory.Files.{reloaded, load-save}
use aura_aioscpu.Aura.Memory.Bounds.{Step, add_step, clear_step, load_step, run, run-Fits}

abbrev turn : String → String → Turn String
turn role content = record { role = role; content = content; timestamp = 5; metadata = "" }

abbrev three : List (Turn String)
three = turn "user" "hello" ∷ turn "aura" "hi" ∷ turn "user" "status" ∷ []

-- A library whose texts are the documents.
abbrev json : Json (Document String) (Document String)
json = record { dump = λ d. d; load = λ d. some d }

faithful : IsFaithful json
faithful = record { load_dump = λ d. refl }

append_all_two : (append_all three (init 2 0)).turns ≡ turn "aura" "hi" ∷ turn "user" "status" ∷ []
unfolding append_all append_turn init
append_all_two = refl

-- A request for no turns returns all of them.
get_turns_zero :
    get_turns (some (pos 0)) (record { max_turns = 5; turns = three; session_start = 0 }) ≡ three
unfolding get_turns slice_back
get_turns_zero = refl

format_two :
    format_for_prompt (λ r. r) (pos 2) (append_all three (init 5 0)) ≡ "AURA: hi\nUser: status"
unfolding format_for_prompt join_lines get_turns slice_back append_all append_turn init line_of
format_two = refl

abbrev said : List (Said String)
said = by_user 5 "hello" "" ∷ by_aura 5 "hi" "" ∷ by_system 5 "status" "" ∷ []

say_all-latest_example : (say_all said (init 2 0)).turns ≡ latest 2 (map turn_for said)
say_all-latest_example = say_all-latest 2 0 said

abbrev old : ConversationMemory String
old = record { max_turns = 9; turns = three; session_start = 3 }

abbrev new : ConversationMemory String
new = record { max_turns = 2; turns = turn "user" "other" ∷ []; session_start = 8 }

load-save_example :
    load json "" (save json none old).1 new
    ≡ (length (reloaded "" old new).turns, reloaded "" old new)
load-save_example = load-save "" json faithful old new

abbrev damaged : Document String
damaged = record { turns = listed (none ∷ []); session_start = none }

-- A file with a turn that is no object: the old turns are gone, and the result is 0.
load_damaged : load json "" (some damaged) new ≡ (0, record new { turns = [] })
unfolding load restore finish_load restore_turns slice_back clear
load_damaged = refl

abbrev steps : List (Step String (Document String))
steps =
    add_step "user" 1 "a" "" ∷ load_step (some damaged) ∷ add_step "user" 2 "b" "" ∷ clear_step ∷ []

run-Fits_example : length (run json "" steps new).turns ≤ (run json "" steps new).max_turns
run-Fits_example = run-Fits json "" steps new (omega arith)
