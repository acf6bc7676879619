-- ===== src/Daemon/Tests.antt =====
-- Runs of the daemon's goroutines, and the theorems about them at concrete inputs.
use tftpcpd.Base.{
  ℕ, ◌≤◌, ◌+◌, true, false, List, [], ◌∷◌, ◌++◌, Option, none, some, ◌≡◌, ◌⊎◌, refl, codes,
}
use tftpcpd.Daemon.Signal.{
  normal_msg, LogEvent, new_error_event, new_normal_event, write_event_to_log,
}
use tftpcpd.Daemon.State.{
  server, database, logger, exited, System, on_interrupt, on_server, on_logger,
}
use tftpcpd.Daemon.Step.{
  timed_out, datagram_read, from_interrupt, from_child, Event, interrupt, main_steps,
  database_wakes, logger_looks, logger_peeks, main_selects, server_reads, routine_steps,
  session_steps, act, bound, unbound, start, Reach, begin, later, push_log, call_next, read_next,
  wake_next, look_next, peek_next, session_next, select_next, command_next, main_next, alive_next,
  all_ended, is_selecting,
}
use tftpcpd.Daemon.Invariant.{is_possible}
use tftpcpd.Daemon.Weight.{weight}
use tftpcpd.Daemon.Progress.{GoesOn}
use tftpcpd.Daemon.Shutdown.{
  HasStopped, Works, rests, works, Reach-Panics, Works-bounded, Reach-GoesOn, Reach-Stops,
}
use tftpcpd.Daemon.Logging.{keep, recorded, said}
use tftpcpd.Daemon.Logging.Steps.{Reach-recorded}

-- The daemon after a list of events, up to the first one that has to wait.
abbrev after : List Event → System → System
after [] s = s
after (ev ∷ evs) s = elim (act ev s) [ none ↦ s | some t ↦ after evs t ]

after-Reach : (evs : List Event) (first s : System) → Reach first s → Reach first (after evs s)
after-Reach [] first s reached = reached
after-Reach (ev ∷ evs) first s reached = go (act ev s) refl (λ t. after-Reach evs first t)
  where
    go :
        (o : Option System)
        → act ev s ≡ o
        → ((t : System) → Reach first t → Reach first (after evs t))
        → Reach first (elim o [ none ↦ s | some t ↦ after evs t ])
    go none e k = reached
    go (some t) e k = k t (later ev reached e)

abbrev first_daemon : System
first_daemon = start (bound (codes "127.0.0.1:8173")) true (codes "tftpcpd.db") []

abbrev begun : List Event
begun = routine_steps server ∷ routine_steps database ∷ logger_looks ∷ logger_looks ∷ []

abbrev told_events : List Event
told_events = interrupt ∷ main_selects from_interrupt ∷ main_steps ∷ []

-- From the server's answer to the closed log.
abbrev closing_log : List Event
closing_log =
    server_reads timed_out
    ∷ routine_steps server
    ∷ main_steps
    ∷ main_steps
    ∷ database_wakes
    ∷ routine_steps database
    ∷ main_steps
    ∷ main_steps
    ∷ []

abbrev ending : List Event
ending = routine_steps server ∷ routine_steps server ∷ routine_steps database ∷ main_steps ∷ []

abbrev logger_ends : List Event
logger_ends =
    main_steps ∷ logger_looks ∷ routine_steps logger ∷ routine_steps logger ∷ main_steps ∷ []

abbrev interrupted_run : List Event
interrupted_run = begun ++ told_events ++ closing_log ++ logger_ends ++ ending

interrupted_reached : Reach first_daemon (after interrupted_run first_daemon)
interrupted_reached = after-Reach interrupted_run first_daemon first_daemon begin

-- What the two routines logged is in the file for normal messages.
abbrev greetings : List LogEvent
greetings =
    new_normal_event (codes "SERVER") (codes "Server successfully bound to: 127.0.0.1:8173")
    ∷ new_normal_event (codes "DATABASE") (codes "Database ready for access: tftpcpd.db")
    ∷ []

interrupted_logs : recorded normal_msg (after interrupted_run first_daemon) ≡ greetings
unfolding act alive_next push_log call_next read_next wake_next look_next peek_next session_next
    select_next command_next main_next all_ended on_interrupt start write_event_to_log
interrupted_logs = refl

interrupted_alive : (after interrupted_run first_daemon).crashed ≡ false
unfolding act alive_next push_log call_next read_next wake_next look_next peek_next session_next
    select_next command_next main_next all_ended on_interrupt start write_event_to_log
interrupted_alive = refl

Reach-recorded_example :
    recorded normal_msg (after interrupted_run first_daemon)
    ≡ recorded normal_msg first_daemon
      ++ keep normal_msg (said (after interrupted_run first_daemon) interrupted_reached)
Reach-recorded_example =
    Reach-recorded (after interrupted_run first_daemon) interrupted_reached interrupted_alive
      normal_msg

-- Interrupted, and on its way out.
abbrev told_run : List Event
told_run = begun ++ told_events

told_reached : Reach first_daemon (after told_run first_daemon)
told_reached = after-Reach told_run first_daemon first_daemon begin

told_stopping : is_selecting (after told_run first_daemon).main ≡ false
unfolding act alive_next push_log call_next read_next wake_next look_next peek_next session_next
    select_next command_next main_next all_ended on_interrupt start write_event_to_log
told_stopping = refl

Reach-GoesOn_example :
    HasStopped (after told_run first_daemon) ⊎ GoesOn (after told_run first_daemon)
Reach-GoesOn_example =
    Reach-GoesOn (bound (codes "127.0.0.1:8173")) (codes "tftpcpd.db") []
      (after told_run first_daemon) told_reached told_stopping

Reach-Stops_example :
    (n : ℕ) × (u : System) × (n ≤ weight (after told_run first_daemon))
    × Works n (after told_run first_daemon) u
    × HasStopped u
Reach-Stops_example =
    Reach-Stops (bound (codes "127.0.0.1:8173")) (codes "tftpcpd.db") []
      (after told_run first_daemon) told_reached told_stopping

-- The server takes the signal to end.
abbrev taken_run : List Event
taken_run = told_run ++ (server_reads timed_out ∷ [])

first_work : Works 1 (after told_run first_daemon) (after taken_run first_daemon)
unfolding act alive_next push_log call_next read_next wake_next look_next peek_next session_next
    select_next command_next main_next all_ended on_interrupt start write_event_to_log
first_work = works (server_reads timed_out) refl refl rests

Works-bounded_example :
    1 + weight (after taken_run first_daemon) ≤ weight (after told_run first_daemon)
Works-bounded_example =
    Works-bounded (bound (codes "127.0.0.1:8173")) true (codes "tftpcpd.db") [] 1
      (after told_run first_daemon) (after taken_run first_daemon) told_reached first_work

-- A session that still has something to say when `main` closes the log.
abbrev last_words : LogEvent
last_words = new_error_event (codes "SESSION") (codes "Session timed out.")

abbrev session_starts : List Event
session_starts = server_reads (datagram_read (last_words ∷ [])) ∷ []

abbrev crash_run : List Event
crash_run = begun ++ session_starts ++ told_events ++ closing_log ++ (session_steps 0 ∷ [])

crash_run_panics : (after crash_run first_daemon).crashed ≡ true
unfolding act alive_next push_log call_next read_next wake_next look_next peek_next session_next
    select_next command_next main_next all_ended on_interrupt start write_event_to_log
crash_run_panics = refl

Reach-Panics_example :
    (is_possible (after crash_run first_daemon).main ≡ true)
    × ((after crash_run first_daemon).crashed ≡ true
        → ((after crash_run first_daemon).log_open ≡ false)
          × (is_selecting (after crash_run first_daemon).main ≡ false))
Reach-Panics_example =
    Reach-Panics (bound (codes "127.0.0.1:8173")) true (codes "tftpcpd.db") []
      (after crash_run first_daemon) (after-Reach crash_run first_daemon first_daemon begin)

-- A session that logs between the two `select`s of the logger, before the log is closed: the
-- logger takes the signal to end first.
abbrev lost_run : List Event
lost_run =
    begun
    ++ session_starts
    ++ (logger_looks ∷ session_steps 0 ∷ [])
    ++ told_events
    ++ closing_log
    ++ (main_steps ∷ logger_peeks ∷ routine_steps logger ∷ main_steps ∷ [])
    ++ ending

lost_run_exit : (after lost_run first_daemon).main ≡ exited 0
unfolding act alive_next push_log call_next read_next wake_next look_next peek_next session_next
    select_next command_next main_next all_ended on_interrupt start write_event_to_log
lost_run_exit = refl

lost_run_leaves : (after lost_run first_daemon).log ≡ last_words ∷ []
unfolding act alive_next push_log call_next read_next wake_next look_next peek_next session_next
    select_next command_next main_next all_ended on_interrupt start write_event_to_log
lost_run_leaves = refl

-- An address that is in use: exit code 12.
abbrev unbound_run : List Event
unbound_run =
    routine_steps server
      ∷ routine_steps database
      ∷ logger_looks
      ∷ logger_looks
      ∷ routine_steps server
      ∷ main_selects (from_child server)
      ∷ main_steps
      ∷ routine_steps server
      ∷ main_steps
      ∷ database_wakes
      ∷ routine_steps database
      ∷ routine_steps database
      ∷ main_steps
      ∷ main_steps
      ∷ logger_ends
    ++ (main_steps ∷ [])

abbrev boot_unbound : System
boot_unbound = start (unbound (codes "127.0.0.1:8173")) true (codes "tftpcpd.db") []

unbound_exit : (after unbound_run boot_unbound).main ≡ exited 12
unfolding act alive_next push_log call_next read_next wake_next look_next peek_next session_next
    select_next command_next main_next all_ended on_interrupt on_server start write_event_to_log
unbound_exit = refl

-- Log files that cannot be opened: exit code 11.
abbrev unopened_run : List Event
unopened_run =
    routine_steps logger
      ∷ main_selects (from_child logger)
      ∷ routine_steps server
      ∷ routine_steps database
      ∷ main_steps
      ∷ closing_log
    ++ (main_steps ∷ routine_steps logger ∷ ending)

abbrev boot_unopened : System
boot_unopened = start (bound (codes "127.0.0.1:8173")) false (codes "tftpcpd.db") []

unopened_exit : (after unopened_run boot_unopened).main ≡ exited 11
unfolding act alive_next push_log call_next read_next wake_next look_next peek_next session_next
    select_next command_next main_next all_ended on_interrupt on_logger start write_event_to_log
unopened_exit = refl
