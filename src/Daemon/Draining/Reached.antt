-- ===== src/Daemon/Draining/Reached.antt =====
-- Every daemon whose logger opened its files.
use tftpcpd.Base.{ℕ, Bytes, true, not, ◌&&◌, List, Option, none, some, ◌≡◌, refl, subst}
use tftpcpd.Daemon.Signal.{LogEvent}
use tftpcpd.Daemon.State.{
  server, database, logger, Main, selecting, stopping, exited, impossible, System,
}
use tftpcpd.Daemon.Step.{
  Event, interrupt, main_steps, database_wakes, logger_looks, logger_peeks, main_selects,
  server_reads, routine_steps, session_steps, at_loop, next_event, session_next, main_next,
  is_selecting, alive_next, act, Reach, begin, later, Listening, bound, unresolved, unbound, start,
}
use tftpcpd.Daemon.Keeps.{Keeps, if-Keeps, act-Keeps}
use tftpcpd.Daemon.Balance.{bit}
use tftpcpd.Daemon.Invariant.{IsSound, main_closes, is_late_main}
use tftpcpd.Daemon.Invariant.Reached.{act-IsSound, start-IsSound}
use tftpcpd.Daemon.Draining.{
  IsDraining, push_log-IsDraining, call_next-IsDraining, read_next-IsDraining, wake_next-IsDraining,
  look_next-IsDraining, peek_next-IsDraining, select_next-IsDraining, command_next-IsDraining,
}

main_next-IsDraining :
    (m : Main) (s : System)
    → s.main ≡ m
    → IsSound s
    → IsDraining s
    → Keeps IsDraining (main_next m s)
unfolding main_next
main_next-IsDraining selecting s e i d = tt
main_next-IsDraining (stopping code todo) s e i d =
    command_next-IsDraining code todo s (subst (λ m. bit s.log_open ≡ main_closes m) e i.closing)
      (subst (λ m. is_late_main m ≡ true) e i.late) d
main_next-IsDraining (exited code) s e i d = tt
main_next-IsDraining impossible s e i d = tt

session_next-IsDraining :
    (o : Option LogEvent) (i : ℕ) (s : System)
    → IsDraining s
    → Keeps IsDraining (session_next o i s)
unfolding session_next
session_next-IsDraining none i s d = tt
session_next-IsDraining (some e) i s d = push_log-IsDraining e _ (record { reads = d.reads })

alive_next-IsDraining :
    (ev : Event) (s : System) → IsSound s → IsDraining s → Keeps IsDraining (alive_next ev s)
unfolding alive_next
alive_next-IsDraining interrupt s i d = record { reads = d.reads }
alive_next-IsDraining (main_selects source) s i d =
    if-Keeps IsDraining (is_selecting s.main) _ (λ h. select_next-IsDraining source s d)
alive_next-IsDraining main_steps s i d = main_next-IsDraining s.main s refl i d
alive_next-IsDraining (server_reads read) s i d =
    if-Keeps IsDraining (at_loop (s.child server)) _
      (λ h. read_next-IsDraining read (s.child server) (s.child server).inbox s d)
alive_next-IsDraining database_wakes s i d =
    if-Keeps IsDraining (at_loop (s.child database)) _
      (λ h. wake_next-IsDraining (s.child database) (s.child database).inbox s d)
alive_next-IsDraining logger_looks s i d =
    if-Keeps IsDraining (at_loop (s.child logger) && not s.peeking) _
      (λ h. look_next-IsDraining s.log (s.child logger) s d)
alive_next-IsDraining logger_peeks s i d =
    if-Keeps IsDraining (at_loop (s.child logger) && s.peeking) _
      (λ h. peek_next-IsDraining (s.child logger).inbox s refl d)
alive_next-IsDraining (routine_steps r) s i d = call_next-IsDraining r (s.child r).todo s refl d
alive_next-IsDraining (session_steps n) s i d =
    session_next-IsDraining (next_event n s.sessions) n s d

pub act-IsDraining :
    (ev : Event) (s t : System) → IsSound s → IsDraining s → act ev s ≡ some t → IsDraining t
act-IsDraining ev s t i d h = (act-Keeps IsDraining ev s t (alive_next-IsDraining ev s i d) h).0

start-IsDraining :
    (listens : Listening) (path : Bytes) (earlier : List LogEvent)
    → IsDraining (start listens true path earlier)
unfolding start
start-IsDraining (bound address) path earlier = record {
  reads = λ h. record { loops = refl; told_nothing = refl };
}
start-IsDraining unresolved path earlier = record {
  reads = λ h. record { loops = refl; told_nothing = refl };
}
start-IsDraining (unbound address) path earlier = record {
  reads = λ h. record { loops = refl; told_nothing = refl };
}

pub Reach-IsDraining :
    (listens : Listening) (path : Bytes) (earlier : List LogEvent) (s : System)
    → Reach (start listens true path earlier) s
    → IsSound s × IsDraining s
Reach-IsDraining listens path earlier s reached = go s reached
  where
    go : (t : System) → Reach (start listens true path earlier) t → IsSound t × IsDraining t
    go _ begin = (start-IsSound listens true path earlier, start-IsDraining listens path earlier)
    go _ (later {s = u} {t = t} ev r h) =
        let (i, d) = go u r in (act-IsSound ev u t i h, act-IsDraining ev u t i d h)
