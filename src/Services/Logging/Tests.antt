-- ===== src/Services/Logging/Tests.antt =====
-- Runs of services/logging_service.py's service.
use mathlib.Core.List.{reverse}
use aura_aioscpu.Prelude.Text.{translate, upper_text}
use aura_aioscpu.Prelude.{
  string_eq, nat_eq, length, raise, ℕ, suc, ◌-◌, String, ◌≡◌, refl, Bool, true, false, none, some,
  List, [], ◌∷◌, ◌++◌,
}
use aura_aioscpu.Prelude.Deque.{latest}
use aura_aioscpu.Services.Logging.{
  LogEntry, LoggingService, type_error, event_types, Filter, accepts, is_since, init, written,
  all_json, flush_to_disk, start, stop, end_round, flush_round, matches, query_loop, backwards,
  query,
}
use aura_aioscpu.Services.Logging.Queries.{take, filter, passes, query_lem}
use aura_aioscpu.Services.Logging.Flushing.{
  append_all, times, rounds, flush_rounds, stop-flush_rounds,
}

abbrev entry : String → ℕ → LogEntry ℕ
entry level ts = record {
  ts = ts;
  level = level;
  source = "system";
  event = "LOG";
  msg = "";
  data_of = 0;
}

abbrev entries : List (LogEntry ℕ)
entries = entry "INFO" 1 ∷ entry "ERROR" 2 ∷ entry "ERROR" 3 ∷ []

abbrev service : LoggingService ℕ
service = record {
  buffer = entries;
  buffer_size = 3;
  is_running = false;
  total_written = 3;
  has_bus = true;
  subscribed = [];
  flusher_alive = false;
  file = [];
}

abbrev is_json : ℕ → Bool
is_json n = true

-- The service subscribes again each time that it is started.
start_twice : length (start (stop is_json true (start service)).1).subscribed ≡ 38
unfolding start stop flush_to_disk
start_twice = refl

abbrev errors : Filter
errors = record { level = some "error"; source = none; event_type = some ""; since = some 0 }

query_filtered : query errors 100 service ≡ entry "ERROR" 3 ∷ entry "ERROR" 2 ∷ []
unfolding query query_loop backwards matches accepts upper_text translate is_since
query_filtered = refl

query_zero : query errors 0 service ≡ entry "ERROR" 3 ∷ []
unfolding query query_loop backwards matches accepts upper_text translate is_since
query_zero = refl

query_lem_example :
    query errors 2 service ≡ take (suc (2 - 1)) (filter (passes errors) (reverse service.buffer))
query_lem_example = query_lem errors 2 service

stop-flush_rounds_example :
    (stop is_json true
      (flush_rounds is_json 2 (append_all entries (start (init 2 true []))))).1.file
    ≡ []
      ++ times
          (suc (rounds (all_json is_json (latest 2 entries)) 2))
          (written is_json (latest 2 entries))
stop-flush_rounds_example = stop-flush_rounds is_json 2 2 true [] entries

-- A payload that JSON has not ends the flush thread and leaves `stop`.
stop_raises : (stop (λ n. false) true (flush_round (λ n. false) true (start service))) ≡ (
  raise type_error,
  record service { subscribed = event_types; total_written = 3; flusher_alive = false },
)
unfolding stop flush_round start end_round flush_to_disk all_json written
stop_raises = refl
