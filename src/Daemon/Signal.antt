-- ===== src/Daemon/Signal.antt =====
-- internal/signal.go and internal/logger.go: the signals between the routines, the events of the
-- log, and the files that they are written to.
use tftpcpd.Base.{ℕ, Bytes, Bool, ◌||◌, List, [], ◌∷◌, ◌++◌, codes, ◌==◌}
use tftpcpd.Session.Number.{pos, format_int}

pub record Signal : Type 0 where
  pub kind : ℕ  -- uint8
  pub message : ℕ  -- uint8

abbrev pub signal_terminate : ℕ
signal_terminate = 0

abbrev pub signal_restart : ℕ
signal_restart = 1

abbrev pub signal_request : ℕ
signal_request = 0

abbrev pub signal_demand : ℕ
signal_demand = 1

abbrev pub signal_accept : ℕ
signal_accept = 2

abbrev pub signal_deny : ℕ
signal_deny = 3

abbrev pub new_signal : ℕ → ℕ → Signal
new_signal kind message = record { kind = kind; message = message }

-- `IsRequest` and `IsResponse`, which look at the kind.
abbrev pub is_request : Signal → Bool
is_request sig = sig.kind == signal_request || sig.kind == signal_demand

abbrev pub is_response : Signal → Bool
is_response sig = sig.kind == signal_accept || sig.kind == signal_deny

-- `logType`; every event is made by `NewDebugEvent`, `NewNormalEvent` or `NewErrorEvent`.
pub data LogType : Type 0 where
  debug_msg normal_msg error_msg : LogType

pub record LogEvent : Type 0 where
  pub kind : LogType
  pub from : Bytes
  pub message : Bytes

abbrev pub new_normal_event : Bytes → Bytes → LogEvent
new_normal_event from message = record { kind = normal_msg; from = from; message = message }

abbrev pub new_error_event : Bytes → Bytes → LogEvent
new_error_event from message = record { kind = error_msg; from = from; message = message }

-- `logType.String` and `logEvent.String`, at the time `now`
abbrev pub kind_string : LogType → Bytes
kind_string debug_msg = codes "DEBUG"
kind_string normal_msg = codes "NORMAL"
kind_string error_msg = codes "ERROR"

pub event_string : ℕ → LogEvent → Bytes
event_string now e =
    format_int (pos now) ++ (32 ∷ kind_string e.kind) ++ (32 ∷ e.from) ++ (32 ∷ e.message)

-- The three logs, each with the events that were written to it.
pub record Logs : Type 0 where
  pub normal : List LogEvent
  pub debug : List LogEvent
  pub error : List LogEvent

-- `writeEventToLog`
unfoldable pub write_event_to_log : LogEvent → Logs → Logs
write_event_to_log e logs = elim e.kind [
  | normal_msg ↦ record logs { normal = logs.normal ++ (e ∷ []) }
  | debug_msg ↦ record logs { debug = logs.debug ++ (e ∷ []) }
  | error_msg ↦ record logs { error = logs.error ++ (e ∷ []) }
]
