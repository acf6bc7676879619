-- ===== src/Daemon/Step.antt =====
-- What one goroutine of the daemon does next: `act` gives the daemon after an event, or `none` where
-- the goroutine has to wait.
use tftpcpd.Base.{
  ℕ, zero, suc, Bytes, Bool, true, false, not, ◌&&◌, List, [], ◌∷◌, ◌++◌, Option, none, some, codes,
  ltb, ◌≡◌, if◌then◌else◌, length,
}
use tftpcpd.Daemon.Signal.{
  Signal, new_signal, signal_request, signal_accept, LogEvent, new_normal_event, new_error_event,
  write_event_to_log,
}
use tftpcpd.Daemon.State.{
  Routine, server, database, logger, Call, send, receive, log, cancel, wait_sessions, clean_up,
  Child, Command, send_to, receive_from, close_log, Main, selecting, stopping, exited, impossible,
  System, channel_room, log_room, with_child, is_ended, quiet, terminate, on_interrupt, on_signal,
}

-- What `main` finds in its `select`.
pub data Source : Type 0 where
  from_interrupt : Source
  from_child : Routine → Source

-- How `ReadFromUDP` ends: with a timeout, with another error, or with a datagram, whose session will
-- log these events.
pub data Read : Type 0 where
  timed_out read_failed : Read
  datagram_read : List LogEvent → Read

pub data Event : Type 0 where
  interrupt main_steps database_wakes logger_looks logger_peeks : Event
  main_selects : Source → Event
  server_reads : Read → Event
  routine_steps : Routine → Event
  session_steps : ℕ → Event

-- `Log <-`, after which the daemon is `s`; on a closed channel it is a panic.
unfoldable pub push_log : LogEvent → System → Option System
push_log e s =
    if s.log_open
    then if ltb (length s.log) log_room then some (record s { log = s.log ++ (e ∷ []) }) else none
    else some (record s { crashed = true })

unfoldable pub call_next : Routine → Child → List Call → System → Option System
unfolding push_log
call_next r c [] s = none
call_next r c (send sig ∷ later) s =
    if ltb (length c.outbox) channel_room
    then some (with_child r (record c { todo = later; outbox = c.outbox ++ (sig ∷ []) }) s)
    else none
call_next r c (receive ∷ later) s = elim c.inbox [
  | [] ↦ none
  | ◌∷◌ sig rest ↦ some (with_child r (record c { todo = later; inbox = rest }) s)
]
call_next r c (log e ∷ later) s = push_log e (with_child r (record c { todo = later }) s)
call_next r c (cancel ∷ later) s = some (with_child r (record c { todo = later }) s)
call_next r c (wait_sessions ∷ later) s =
    if quiet s.sessions then some (with_child r (record c { todo = later }) s) else none
call_next r c (clean_up ∷ later) s = some (with_child r (record c { todo = later }) s)

-- The calls of a routine that was asked to end, and of one that asks for it.
abbrev pub accepting : Signal → List Call → List Call
accepting sig later = send (new_signal sig.kind signal_accept) ∷ later

abbrev pub asking : List Call → List Call
asking later = send (terminate signal_request) ∷ receive ∷ later

-- A routine stands at the head of its loop.
abbrev pub at_loop : Child → Bool
at_loop c = elim c.todo [ [] ↦ c.loops | ◌∷◌ call later ↦ false ]

-- The routine leaves its loop; the first signal was taken.
abbrev pub leaves : Child → List Call → List Signal → Child
leaves c todo rest = record c { todo = todo; loops = false; inbox = rest }

-- One pass of the loop of `ServerRoutine`.
unfoldable pub read_next : Read → Child → List Signal → System → System
read_next read c (sig ∷ rest) s =
    with_child server (leaves c (accepting sig (cancel ∷ wait_sessions ∷ [])) rest) s
read_next timed_out c [] s = s
read_next read_failed c [] s =
    with_child server (leaves c (asking (cancel ∷ wait_sessions ∷ [])) []) s
read_next (datagram_read events) c [] s = record s { sessions = s.sessions ++ (events ∷ []) }

-- One pass of the loop of `DatabaseRoutine`.
unfoldable pub wake_next : Child → List Signal → System → Option System
wake_next c [] s = none
wake_next c (sig ∷ rest) s =
    some (with_child database (leaves c (accepting sig (clean_up ∷ [])) rest) s)

-- The first and the second `select` of `LoggerRoutine`.
unfoldable pub look_next : List LogEvent → Child → System → System
look_next (e ∷ rest) c s = record s { log = rest; logs = write_event_to_log e s.logs }
look_next [] c s =
    if s.log_open
    then record s { peeking = true }
    else with_child logger (leaves c (asking []) c.inbox) s

unfoldable pub peek_next : Child → List Signal → System → System
peek_next c [] s = record s { peeking = false }
peek_next c (sig ∷ rest) s = record (with_child logger (leaves c (accepting sig []) rest) s) {
  peeking = false;
}

-- The session at a position, and the sessions once it has gone on.
abbrev pub next_event : ℕ → List (List LogEvent) → Option LogEvent
next_event i [] = none
next_event zero ([] ∷ l) = none
next_event zero ((e ∷ es) ∷ l) = some e
next_event (suc i) (x ∷ l) = next_event i l

abbrev pub advance : ℕ → List (List LogEvent) → List (List LogEvent)
advance i [] = []
advance zero ([] ∷ l) = [] ∷ l
advance zero ((e ∷ es) ∷ l) = es ∷ l
advance (suc i) (x ∷ l) = x ∷ advance i l

unfoldable pub session_next : Option LogEvent → ℕ → System → Option System
unfolding push_log
session_next none i s = none
session_next (some e) i s = push_log e (record s { sessions = advance i s.sessions })

-- `main` in its `select`.
unfoldable pub select_next : Source → System → Option System
select_next from_interrupt s =
    if s.interrupted then some (record s { main = on_interrupt; interrupted = false }) else none
select_next (from_child r) s = elim (s.child r).outbox [
  | [] ↦ none
  | ◌∷◌ sig rest ↦
      some
        (record (with_child r (record (s.child r) { outbox = rest }) s) { main = on_signal r sig })
]

unfoldable pub all_ended : System → Bool
all_ended s = is_ended (s.child server) && is_ended (s.child database) && is_ended (s.child logger)

-- The next command of `main`, and its end.
unfoldable pub command_next : ℕ → List Command → System → Option System
unfolding all_ended
command_next code [] s = if all_ended s then some (record s { main = exited code }) else none
command_next code (send_to r sig ∷ later) s =
    let c = s.child r in
    if ltb (length c.inbox) channel_room
    then some (record (with_child r (record c { inbox = c.inbox ++ (sig ∷ []) }) s) {
      main = stopping code later;
    })
    else none
command_next code (receive_from r ∷ later) s =
    let c = s.child r in
    elim c.outbox [
      | [] ↦ none
      | ◌∷◌ sig rest ↦
          some (record (with_child r (record c { outbox = rest }) s) { main = stopping code later })
    ]
command_next code (close_log ∷ later) s =
    if s.log_open
    then some (record s { log_open = false; main = stopping code later })
    else some (record s { crashed = true })

unfoldable pub main_next : Main → System → Option System
unfolding command_next
main_next (stopping code todo) s = command_next code todo s
main_next _ s = none

abbrev pub is_selecting : Main → Bool
is_selecting selecting = true
is_selecting _ = false

-- The process has ended.
abbrev pub is_over : System → Bool
is_over s = elim s.main [ exited code ↦ true | impossible ↦ true | _ ↦ s.crashed ]

unfoldable pub alive_next : Event → System → Option System
unfolding call_next read_next wake_next look_next peek_next session_next select_next main_next
alive_next interrupt s = some (record s { interrupted = true })
alive_next (main_selects source) s = if is_selecting s.main then select_next source s else none
alive_next main_steps s = main_next s.main s
alive_next (server_reads read) s =
    if at_loop (s.child server)
    then some (read_next read (s.child server) (s.child server).inbox s)
    else none
alive_next database_wakes s =
    if at_loop (s.child database)
    then wake_next (s.child database) (s.child database).inbox s
    else none
alive_next logger_looks s =
    if at_loop (s.child logger) && not s.peeking
    then some (look_next s.log (s.child logger) s)
    else none
alive_next logger_peeks s =
    if at_loop (s.child logger) && s.peeking
    then some (peek_next (s.child logger) (s.child logger).inbox s)
    else none
alive_next (routine_steps r) s = call_next r (s.child r) (s.child r).todo s
alive_next (session_steps i) s = session_next (next_event i s.sessions) i s

unfoldable pub act : Event → System → Option System
unfolding alive_next
act ev s = if is_over s then none else alive_next ev s

abbrev fresh : List Call → Bool → Child
fresh todo loops = record { todo = todo; loops = loops; inbox = []; outbox = [] }

-- Whether the server listens on its address: `net.ResolveUDPAddr` and `net.ListenUDP`, with the
-- address as it prints.
pub data Listening : Type 0 where
  bound : Bytes → Listening
  unresolved : Listening
  unbound : Bytes → Listening

abbrev pub first_child : Listening → Bool → Bytes → Routine → Child
first_child (bound address) files_open path server =
    fresh
      (log (new_normal_event (codes "SERVER") (codes "Server successfully bound to: " ++ address))
        ∷ [])
      true
first_child unresolved files_open path server =
    fresh
      (log (new_error_event (codes "SERVER") (codes "Unable to resolve address: <nil>"))
        ∷ asking [])
      false
first_child (unbound address) files_open path server =
    fresh
      (log (new_error_event (codes "SERVER") (codes "Unable to bind to address: " ++ address))
        ∷ asking [])
      false
first_child listens files_open path database =
    fresh
      (log (new_normal_event (codes "DATABASE") (codes "Database ready for access: " ++ path)) ∷ [])
      true
first_child listens true path logger = fresh [] true
first_child listens false path logger = fresh (asking []) false

-- The goroutines as `main` starts them: whether the server listens, and whether the logger
-- opens its files; `path` is that of the database.
unfoldable pub start : Listening → Bool → Bytes → List LogEvent → System
start listens files_open path earlier = record {
  main = selecting;
  child = λ r. first_child listens files_open path r;
  peeking = false;
  interrupted = false;
  sessions = [];
  log = earlier;
  log_open = true;
  logs = record { normal = []; debug = []; error = [] };
  crashed = false;
}

-- The daemon after some events.
pub data Reach (first : System) : System → Type 0 where
  begin : Reach first first
  later : {s t : System} (ev : Event) → Reach first s → act ev s ≡ some t → Reach first t
