-- ===== src/Daemon/State.antt =====
-- cmd/tftpcpd/main.go with the routines of internal/server.go, internal/database.go and
-- internal/logger.go: the goroutines of the daemon and what they share. A goroutine is where it
-- stands: the calls that it makes next, in order, and whether it goes round its loop after them.
use tftpcpd.Base.{ℕ, Bool, true, false, not, List, [], ◌∷◌, ◌==◌, if◌then◌else◌}
use tftpcpd.Daemon.Signal.{
  Signal, new_signal, signal_terminate, signal_restart, signal_request, signal_accept, is_response,
  LogEvent, Logs,
}

pub data Routine : Type 0 where
  server database logger : Routine

-- The next calls of a routine: `childToParent <-`, `<-parentToChild`, `Log <-`, `cancel()`,
-- `sessions.Wait()` and `deleteOutOfDateGlobally()`.
pub data Call : Type 0 where
  send : Signal → Call
  receive : Call
  log : LogEvent → Call
  cancel wait_sessions clean_up : Call

-- A routine with its two channels, `parentToChild` and `childToParent`.
pub record Child : Type 0 where
  pub todo : List Call
  pub loops : Bool
  pub inbox : List Signal
  pub outbox : List Signal

-- The next calls of `main`.
pub data Command : Type 0 where
  send_to : Routine → Signal → Command
  receive_from : Routine → Command
  close_log : Command

-- `main`: in its `select`, after it with an exit code, at the end, or in one of its panics.
pub data Main : Type 0 where
  selecting : Main
  stopping : ℕ → List Command → Main
  exited : ℕ → Main
  impossible : Main

-- `sessions` holds for each session what it will still log; `peeking` says that the logger stands
-- before its second `select`.
pub record System : Type 0 where
  pub main : Main
  pub child : Routine → Child
  pub peeking : Bool
  pub interrupted : Bool
  pub sessions : List (List LogEvent)
  pub log : List LogEvent
  pub log_open : Bool
  pub logs : Logs
  pub crashed : Bool

-- The room of a channel, and of `Log`.
abbrev pub channel_room : ℕ
channel_room = 2

abbrev pub log_room : ℕ
log_room = 150

abbrev pub place : Routine → Child → (Routine → Child) → Routine → Child
place server c f server = c
place server c f database = f database
place server c f logger = f logger
place database c f server = f server
place database c f database = c
place database c f logger = f logger
place logger c f server = f server
place logger c f database = f database
place logger c f logger = c

abbrev pub with_child : Routine → Child → System → System
with_child r c s = record s { child = place r c s.child }

abbrev pub is_ended : Child → Bool
is_ended c = elim c.todo [ [] ↦ not c.loops | ◌∷◌ call later ↦ false ]

abbrev pub quiet : List (List LogEvent) → Bool
quiet [] = true
quiet ([] ∷ l) = quiet l
quiet ((e ∷ es) ∷ l) = false

-- The cases of the `select` in `main`: what is done next, up to `wg.Wait()`.
abbrev pub terminate : ℕ → Signal
terminate message = new_signal signal_terminate message

unfoldable pub on_interrupt : Main
on_interrupt = stopping 0 (
    send_to server (terminate signal_request)
    ∷ receive_from server
    ∷ send_to database (terminate signal_request)
    ∷ receive_from database
    ∷ close_log
    ∷ send_to logger (terminate signal_request)
    ∷ receive_from logger
    ∷ [])

unfoldable pub on_logger : Signal → Main
on_logger sig =
    if is_response sig
    then impossible
    else if sig.kind == signal_restart
    then stopping 11 (send_to logger (new_signal signal_restart signal_accept) ∷ [])
    else if sig.kind == signal_terminate
    then stopping 11 (
        send_to server (terminate signal_request)
        ∷ receive_from server
        ∷ send_to database (terminate signal_request)
        ∷ receive_from database
        ∷ close_log
        ∷ send_to logger (terminate signal_accept)
        ∷ [])
    else impossible

unfoldable pub on_server : Signal → Main
on_server sig =
    if is_response sig
    then impossible
    else if sig.kind == signal_terminate
    then stopping 12 (
        send_to server (new_signal sig.kind signal_accept)
        ∷ send_to database (terminate signal_request)
        ∷ receive_from database
        ∷ close_log
        ∷ send_to logger (terminate signal_request)
        ∷ receive_from logger
        ∷ [])
    else impossible

unfoldable pub on_database : Signal → Main
on_database sig =
    if is_response sig
    then impossible
    else if sig.kind == signal_terminate
    then stopping 0 (
        send_to server (terminate signal_request)
        ∷ receive_from server
        ∷ send_to database (new_signal sig.kind signal_accept)
        ∷ close_log
        ∷ send_to logger (terminate signal_request)
        ∷ receive_from logger
        ∷ [])
    else impossible

abbrev pub on_signal : Routine → Signal → Main
on_signal server sig = on_server sig
on_signal database sig = on_database sig
on_signal logger sig = on_logger sig
