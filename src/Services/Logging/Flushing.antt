-- ===== src/Services/Logging/Flushing.antt =====
-- What services/logging_service.py writes to the log file.
use mathlib.Core.List.{append_assoc, append-nil}
use aura_aioscpu.Prelude.{
  ltb, if◌then◌else◌, Bool-cases, string_eq, nat_eq, length, drop, ok, raise, ℕ, zero, suc, ◌≡◌,
  refl, sym, ap, ◌∙◌, inl, inr, Bool, true, false, ◌&&◌, List, [], ◌∷◌, ◌++◌,
}
use aura_aioscpu.Prelude.Deque.{latest, latest-append_one, latest_nil}
use aura_aioscpu.Services.Logging.{
  LogEntry, LoggingService, type_error, init, append_entry, written, all_json, flush_to_disk, start,
  stop, end_round, flush_round,
}

module _ {D : Type 0} where
  unfoldable pub append_all : List (LogEntry D) → LoggingService D → LoggingService D
  append_all [] s = s
  append_all (e ∷ es) s = append_all es (append_entry e s)

  append_all_buffer :
      (es history : List (LogEntry D)) (s : LoggingService D)
      → s.buffer ≡ latest s.buffer_size history
      → (append_all es s).buffer ≡ latest s.buffer_size (history ++ es)
  unfolding append_all append_entry
  append_all_buffer [] history s h = h ∙ ap (latest s.buffer_size) (sym (append-nil history))
  append_all_buffer (e ∷ es) history s h =
      append_all_buffer es (history ++ e ∷ []) (append_entry e s) (
        ap
          (λ l.
            if ltb s.buffer_size (length (l ++ e ∷ [])) then drop 1 (l ++ e ∷ []) else l ++ e ∷ [])
          h
        ∙ latest-append_one s.buffer_size e history)
      ∙ ap (latest s.buffer_size) (append_assoc history (e ∷ []) es)

  append_all_rest :
      (es : List (LogEntry D)) (s : LoggingService D)
      → ((append_all es s).file ≡ s.file) × ((append_all es s).is_running ≡ s.is_running)
  unfolding append_all append_entry
  append_all_rest [] s = (refl, refl)
  append_all_rest (e ∷ es) s = append_all_rest es (append_entry e s)

  append_all_alive :
      (es : List (LogEntry D)) (s : LoggingService D)
      → (append_all es s).flusher_alive ≡ s.flusher_alive
  unfolding append_all append_entry
  append_all_alive [] s = refl
  append_all_alive (e ∷ es) s = append_all_alive es (append_entry e s)

  unfoldable pub times : ℕ → List (LogEntry D) → List (LogEntry D)
  times zero es = []
  times (suc n) es = es ++ times n es

  times_end : (n : ℕ) (es : List (LogEntry D)) → times n es ++ es ≡ es ++ times n es
  unfolding times
  times_end zero es = sym (append-nil es)
  times_end (suc n) es = append_assoc es (times n es) es ∙ ap (λ l. es ++ l) (times_end n es)

-- How many of the rounds write: all, or only the first one where it ends the thread.
abbrev pub rounds : Bool → ℕ → ℕ
rounds true n = n
rounds false zero = zero
rounds false (suc n) = 1

idle_round :
    {A : Type 0} (on alive : Bool) (x y : A) → alive ≡ false → (if on && alive then x else y) ≡ y
idle_round true alive x y dead = ap (λ b. if b then x else y) dead
idle_round false alive x y dead = refl

module _ {D : Type 0} (is_json : D → Bool) where
  -- Rounds of the flush thread, with no entry recorded between them.
  unfoldable pub flush_rounds : ℕ → LoggingService D → LoggingService D
  flush_rounds zero s = s
  flush_rounds (suc n) s = flush_rounds n (flush_round is_json true s)

  -- The service after a round that wrote, of a thread that goes on or does not.
  abbrev flushed : LoggingService D → Bool → LoggingService D
  flushed s good = end_round (
    if good then ok tt else raise type_error,
    record s { file = s.file ++ written is_json s.buffer },
  )

  round_lem :
      (s : LoggingService D)
      → s.is_running ≡ true
      → s.flusher_alive ≡ true
      → flush_round is_json true s ≡ flushed s (all_json is_json s.buffer)
  unfolding flush_round flush_to_disk
  round_lem s on alive =
      let next = flushed s (all_json is_json s.buffer) in
      ap (λ (b : Bool). if b && s.flusher_alive then next else s) on
      ∙ ap (λ (b : Bool). if b then next else s) alive

  idle_rounds : (n : ℕ) (s : LoggingService D) → s.flusher_alive ≡ false → flush_rounds n s ≡ s
  unfolding flush_rounds flush_round
  idle_rounds zero s dead = refl
  idle_rounds (suc n) s dead =
      ap (flush_rounds n) (idle_round s.is_running s.flusher_alive (end_round _) s dead)
      ∙ idle_rounds n s dead

  flush_rounds_good :
      (n : ℕ) (s : LoggingService D)
      → s.is_running ≡ true
      → s.flusher_alive ≡ true
      → all_json is_json s.buffer ≡ true
      → flush_rounds n s ≡ record s { file = s.file ++ times n (written is_json s.buffer) }
  unfolding flush_rounds times end_round
  flush_rounds_good zero s on alive good = ap (λ l. record s { file = l }) (sym (append-nil s.file))
  flush_rounds_good (suc n) s on alive good =
      let w = written is_json s.buffer in
      ap (flush_rounds n) (round_lem s on alive ∙ ap (flushed s) good)
      ∙ flush_rounds_good n (record s { file = s.file ++ w }) on alive good
      ∙ ap (λ l. record s { file = l }) (append_assoc s.file w (times n w))

  flush_rounds_bad :
      (n : ℕ) (s : LoggingService D)
      → s.is_running ≡ true
      → s.flusher_alive ≡ true
      → all_json is_json s.buffer ≡ false
      → flush_rounds (suc n) s
        ≡ record s { file = s.file ++ written is_json s.buffer; flusher_alive = false }
  unfolding flush_rounds end_round
  flush_rounds_bad n s on alive bad =
      ap (flush_rounds n) (round_lem s on alive ∙ ap (flushed s) bad) ∙ idle_rounds n _ refl

  stop_file :
      (s : LoggingService D)
      → s.is_running ≡ true
      → (stop is_json true s).1.file ≡ s.file ++ written is_json s.buffer
  unfolding stop flush_to_disk
  stop_file s on =
      ap
        (λ (b : Bool).
          (if b
            then flush_to_disk is_json true (record s { is_running = false })
            else (ok tt, s)).1.file)
        on

  bad_file :
      (n : ℕ) (s : LoggingService D)
      → s.is_running ≡ true
      → s.flusher_alive ≡ true
      → all_json is_json s.buffer ≡ false
      → (stop is_json true (flush_rounds n s)).1.file
        ≡ s.file ++ times (suc (rounds false n)) (written is_json s.buffer)
  unfolding times flush_rounds
  bad_file zero s on alive bad =
      stop_file s on ∙ ap (λ l. s.file ++ l) (sym (append-nil (written is_json s.buffer)))
  bad_file (suc n) s on alive bad =
      let w = written is_json s.buffer in
      ap (λ (z : LoggingService D). (stop is_json true z).1.file)
        (flush_rounds_bad n s on alive bad)
      ∙ stop_file (record s { file = s.file ++ w; flusher_alive = false }) on
      ∙ append_assoc s.file w w
      ∙ ap (λ l. s.file ++ (w ++ l)) (sym (append-nil w))

  -- The file after the rounds and a stop.
  rounds_file :
      (n : ℕ) (s : LoggingService D)
      → s.is_running ≡ true
      → s.flusher_alive ≡ true
      → (stop is_json true (flush_rounds n s)).1.file
        ≡ s.file ++ times (suc (rounds (all_json is_json s.buffer) n)) (written is_json s.buffer)
  unfolding times flush_rounds
  rounds_file n s on alive = elim (Bool-cases (all_json is_json s.buffer)) [
    | inl good ↦
        let w = written is_json s.buffer in
        ap (λ (z : LoggingService D). (stop is_json true z).1.file)
          (flush_rounds_good n s on alive good)
        ∙ stop_file (record s { file = s.file ++ times n w }) on
        ∙ append_assoc s.file (times n w) w
        ∙ ap (λ l. s.file ++ l) (times_end n w)
        ∙ ap (λ b. s.file ++ times (suc (rounds b n)) w) (sym good)
    | inr bad ↦
        bad_file n s on alive bad
        ∙ ap (λ b. s.file ++ times (suc (rounds b n)) (written is_json s.buffer)) (sym bad)
  ]

  -- A new service is started, records entries, is flushed by its thread any number of times, and is
  -- stopped, and the file can be written. It then holds, behind what it held, the last entries that the
  -- buffer has room for, up to the first one that JSON has not: once for each flush and once for the stop,
  -- or, where there is one that JSON has not, once for the first flush, which ends the thread, and once
  -- for the stop.
  pub stop-flush_rounds :
      (n size : ℕ) (bus : Bool) (file es : List (LogEntry D))
      → (stop is_json true (flush_rounds n (append_all es (start (init size bus file))))).1.file
        ≡ file
          ++ times
              (suc (rounds (all_json is_json (latest size es)) n))
              (written is_json (latest size es))
  unfolding start init
  stop-flush_rounds n size bus file es =
      let begun : LoggingService D = start (init size bus file) in
      let rest = append_all_rest es begun in
      let held : (append_all es begun).buffer ≡ latest size es =
        append_all_buffer es [] begun (sym (latest_nil size)) in
      rounds_file n (append_all es begun) rest.1 (append_all_alive es begun)
      ∙ ap
          (λ l.
            l
            ++ times (suc (rounds (all_json is_json (append_all es begun).buffer) n))
                (written is_json (append_all es begun).buffer))
          rest.0
      ∙ ap (λ b. file ++ times (suc (rounds (all_json is_json b) n)) (written is_json b)) held
