-- ===== src/Services/Logging.antt =====
-- The logging service of services/logging_service.py. `D` is the type of the data of an entry, and
-- whether JSON has a value of it is a parameter; the log file is the list of the entries that are written,
-- each as a line.
pub mod Queries
pub mod Flushing
mod Tests
use aura_aioscpu.Prelude.{
  ltb, leb, if◌then◌else◌, string_eq, nat_eq, ◌==◌, length, drop, Outcome, ok, raise, ℕ, ◌+◌, ◌-◌,
  String, Bool, true, false, not, ◌&&◌, ◌||◌, Option, none, some, List, [], ◌∷◌, ◌++◌,
}
use aura_aioscpu.Prelude.Deque.{push_bounded}
use aura_aioscpu.Prelude.Text.{is_empty, upper_text}

pub record LogEntry (D : Type 0) : Type 0 where
  pub ts : ℕ
  pub level : String
  pub source : String
  pub event : String
  pub msg : String
  pub data_of : D

pub record LoggingService (D : Type 0) : Type 0 where
  pub buffer : List (LogEntry D)
  pub buffer_size : ℕ
  pub is_running : Bool
  pub total_written : ℕ
  pub has_bus : Bool
  pub subscribed : List String
  pub flusher_alive : Bool
  pub file : List (LogEntry D)

-- `json.dumps` raises TypeError.
pub data FlushError : Type 0 where
  type_error : FlushError

abbrev pub event_types : List String
event_types =
    "SERVICE_REGISTERED" ∷ "SERVICE_STARTED" ∷ "SERVICE_STOPPED" ∷ "SERVICE_RESTARTING"
    ∷ "MODE_ACTIVATED" ∷ "BOOT_COMPLETE" ∷ "SHUTDOWN" ∷ "BUILD_COMPLETE" ∷ "HEALTH_REPORT"
    ∷ "NETWORK_STATUS" ∷ "STORAGE_EVENT" ∷ "JOB_QUEUED" ∷ "JOB_COMPLETE" ∷ "JOB_FAILED"
    ∷ "INTEGRITY_ALERT" ∷ "CAPABILITY_GRANTED" ∷ "CAPABILITY_REVOKED" ∷ "PERMISSION_REQUEST"
    ∷ "PERMISSION_RESPONSE" ∷ []

-- What `query` is asked for; a text that is empty and a time of 0 do not filter.
pub record Filter : Type 0 where
  pub level : Option String
  pub source : Option String
  pub event_type : Option String
  pub since : Option ℕ

-- `wanted and e.… != wanted` does not hold.
unfoldable pub accepts : Option String → String → Bool
accepts none actual = true
accepts (some wanted) actual = is_empty wanted || actual == wanted

unfoldable pub is_since : Option ℕ → ℕ → Bool
is_since none ts = true
is_since (some since) ts = not (ltb ts since)

abbrev pub upper_option : Option String → Option String
upper_option none = none
upper_option (some s) = some (upper_text s)

module _ {D : Type 0} where
  unfoldable pub init : ℕ → Bool → List (LogEntry D) → LoggingService D
  init size bus file = record {
    buffer = [];
    buffer_size = size;
    is_running = false;
    total_written = 0;
    has_bus = bus;
    subscribed = [];
    flusher_alive = false;
    file = file;
  }

  -- `self._buffer.append(entry)`, and the count
  unfoldable pub append_entry : LogEntry D → LoggingService D → LoggingService D
  append_entry e s = record s {
    buffer = push_bounded s.buffer_size e s.buffer;
    total_written = s.total_written + 1;
  }

  -- The data are those that `data or {}` gives.
  unfoldable pub write :
      ℕ → String → String → String → String → D → LoggingService D → LoggingService D
  write now msg level source event d s =
      append_entry
        (record {
          ts = now;
          level = upper_text level;
          source = source;
          event = event;
          msg = msg;
          data_of = d;
        })
        s

  -- The source and the type of the event, and its payload as a text and as data.
  unfoldable pub on_event : ℕ → String → String → String → D → LoggingService D → LoggingService D
  on_event now source event_type payload d s =
      append_entry
        (record {
          ts = now;
          level = "INFO";
          source = source;
          event = event_type;
          msg = payload;
          data_of = d;
        })
        s

  -- The entries before the first one that JSON has not.
  unfoldable pub written : (D → Bool) → List (LogEntry D) → List (LogEntry D)
  written is_json [] = []
  written is_json (e ∷ es) = if is_json e.data_of then e ∷ written is_json es else []

  unfoldable pub all_json : (D → Bool) → List (LogEntry D) → Bool
  all_json is_json [] = true
  all_json is_json (e ∷ es) = is_json e.data_of && all_json is_json es

  -- `false`: the file cannot be written, which is passed over. A TypeError of `to_json` is not.
  unfoldable pub flush_to_disk :
      (D → Bool) → Bool → LoggingService D → Outcome FlushError (Unit {0}) × LoggingService D
  flush_to_disk is_json false s = (ok tt, s)
  flush_to_disk is_json true s = (
    if all_json is_json s.buffer then ok tt else raise type_error,
    record s { file = s.file ++ written is_json s.buffer },
  )

  unfoldable pub start : LoggingService D → LoggingService D
  start s = if s.is_running then s else record s {
    is_running = true;
    subscribed = if s.has_bus then s.subscribed ++ event_types else s.subscribed;
    flusher_alive = true;
  }

  unfoldable pub stop :
      (D → Bool) → Bool → LoggingService D → Outcome FlushError (Unit {0}) × LoggingService D
  stop is_json writable s =
      if s.is_running
      then flush_to_disk is_json writable (record s { is_running = false })
      else (ok tt, s)

  -- An exception ends the flush thread.
  unfoldable pub end_round : Outcome FlushError (Unit {0}) × LoggingService D → LoggingService D
  end_round (ok _, s) = s
  end_round (raise e, s) = record s { flusher_alive = false }

  -- One round of `_flush_loop`, after its sleep.
  unfoldable pub flush_round : (D → Bool) → Bool → LoggingService D → LoggingService D
  flush_round is_json writable s =
      if s.is_running && s.flusher_alive then end_round (flush_to_disk is_json writable s) else s

  -- `list(buffer)[-n:]`
  unfoldable pub get_recent : ℕ → LoggingService D → List (LogEntry D)
  get_recent n s = if n == 0 then s.buffer else drop (length s.buffer - n) s.buffer

  unfoldable pub matches : Filter → LogEntry D → Bool
  matches f e =
      accepts (upper_option f.level) e.level
      && accepts f.source e.source
      && accepts f.event_type e.event
      && is_since f.since e.ts

  -- The loop over the entries, the newest first, with as many results as there are.
  unfoldable pub query_loop : Filter → ℕ → ℕ → List (LogEntry D) → List (LogEntry D)
  query_loop f limit count [] = []
  query_loop f limit count (e ∷ es) = elim (matches f e) [
    | false ↦ query_loop f limit count es
    | true ↦
        e ∷ elim (leb limit (count + 1)) [ true ↦ [] | false ↦ query_loop f limit (count + 1) es ]
  ]

  unfoldable pub backwards : List (LogEntry D) → List (LogEntry D)
  backwards [] = []
  backwards (e ∷ es) = backwards es ++ e ∷ []

  unfoldable pub query : Filter → ℕ → LoggingService D → List (LogEntry D)
  query f limit s = query_loop f limit 0 (backwards s.buffer)

  unfoldable pub entry_count : LoggingService D → ℕ
  entry_count s = s.total_written
