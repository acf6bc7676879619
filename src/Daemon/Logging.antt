-- ===== src/Daemon/Logging.antt =====
-- The log between the goroutines and the files, as a queue of events.
pub mod Steps
use tftpcpd.Base.{
  ℕ, zero, suc, ◌+◌, Bool, true, false, not, ◌&&◌, ◌||◌, List, [], ◌∷◌, ◌++◌, append-nil,
  append_assoc, Option, none, some, ◌≡◌, ◌≢◌, refl, sym, ap, subst, ◌∙◌, ◌⊎◌, inl, inr, arith, ◌==◌,
  ltb, if◌then◌else◌, length, Bool-cases,
}
use tftpcpd.Daemon.Signal.{
  Signal, LogType, debug_msg, normal_msg, error_msg, LogEvent, Logs, write_event_to_log,
}
use tftpcpd.Daemon.State.{
  Routine, server, database, logger, Call, send, receive, log, cancel, wait_sessions, clean_up,
  Child, Command, send_to, receive_from, close_log, Main, selecting, stopping, exited, impossible,
  System, with_child, quiet, on_interrupt, on_signal, on_server, on_database, on_logger, log_room,
  channel_room,
}
use tftpcpd.Daemon.Keeps.{Keeps, if-Keeps, taken-Keeps, act-Keeps}
use tftpcpd.Daemon.Step.{
  Source, from_interrupt, from_child, Read, timed_out, read_failed, datagram_read, Event, interrupt,
  main_steps, database_wakes, logger_looks, logger_peeks, main_selects, server_reads, routine_steps,
  session_steps, push_log, call_next, at_loop, leaves, asking, read_next, wake_next, look_next,
  peek_next, next_event, session_next, select_next, Reach, begin, later, all_ended, command_next,
  main_next, is_selecting, is_over, alive_next, act,
}
use tftpcpd.Daemon.Invariant.{}

abbrev pub is_kind : LogType → LogType → Bool
is_kind debug_msg debug_msg = true
is_kind normal_msg normal_msg = true
is_kind error_msg error_msg = true
is_kind a b = false

-- The events of one kind.
abbrev pub keep : LogType → List LogEvent → List LogEvent
keep k [] = []
keep k (e ∷ l) = if is_kind k e.kind then e ∷ keep k l else keep k l

abbrev pub written : LogType → Logs → List LogEvent
written debug_msg logs = logs.debug
written normal_msg logs = logs.normal
written error_msg logs = logs.error

-- What was written to one file, and what is still to be written to it.
abbrev pub recorded : LogType → System → List LogEvent
recorded k s = written k s.logs ++ keep k s.log

-- What a goroutine logs in its step.
abbrev pub said_next : List Call → List LogEvent
said_next (log e ∷ l) = e ∷ []
said_next _ = []

abbrev pub said_some : Option LogEvent → List LogEvent
said_some none = []
said_some (some e) = e ∷ []

abbrev pub said_by : Event → System → List LogEvent
said_by (routine_steps r) s = said_next (s.child r).todo
said_by (session_steps i) s = said_some (next_event i s.sessions)
said_by _ s = []

-- Everything that was logged on the way.
unfoldable pub said : {first : System} → (s : System) → Reach first s → List LogEvent
said _ begin = []
said _ (later {s = u} ev reached h) = said u reached ++ said_by ev u

pub keep-append : (k : LogType) (l m : List LogEvent) → keep k (l ++ m) ≡ keep k l ++ keep k m
keep-append k [] m = refl
keep-append k (e ∷ l) m = go (is_kind k e.kind) (keep-append k l m)
  where
    go :
        (b : Bool)
        → keep k (l ++ m) ≡ keep k l ++ keep k m
        → (if b then e ∷ keep k (l ++ m) else keep k (l ++ m))
          ≡ (if b then e ∷ keep k l else keep k l) ++ keep k m
    go true h = ap (λ x. e ∷ x) h
    go false h = h

pub written-write_event_to_log :
    (k : LogType) (e : LogEvent) (logs : Logs)
    → written k (write_event_to_log e logs) ≡ written k logs ++ keep k (e ∷ [])
unfolding write_event_to_log
written-write_event_to_log k e logs = go k e.kind
  where
    go :
        (k a : LogType)
        → written k (elim a [
          | normal_msg ↦ record logs { normal = logs.normal ++ (e ∷ []) }
          | debug_msg ↦ record logs { debug = logs.debug ++ (e ∷ []) }
          | error_msg ↦ record logs { error = logs.error ++ (e ∷ []) }
        ])
          ≡ written k logs ++ (if is_kind k a then e ∷ [] else [])
    go debug_msg debug_msg = refl
    go debug_msg normal_msg = sym (append-nil logs.debug)
    go debug_msg error_msg = sym (append-nil logs.debug)
    go normal_msg debug_msg = sym (append-nil logs.normal)
    go normal_msg normal_msg = refl
    go normal_msg error_msg = sym (append-nil logs.normal)
    go error_msg debug_msg = sym (append-nil logs.error)
    go error_msg normal_msg = sym (append-nil logs.error)
    go error_msg error_msg = refl
