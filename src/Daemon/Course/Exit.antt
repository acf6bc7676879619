-- ===== src/Daemon/Course/Exit.antt =====
-- Where `main` can be, how the process exits, and which goroutine can panic.
use tftpcpd.Base.{
  ℕ, suc, Bool, true, false, not, ◌&&◌, List, [], ◌∷◌, Option, none, some, ◌≡◌, ◌≢◌, refl, ap, ◌∙◌,
  inl, inr, arith, ltb, if◌then◌else◌, length,
}
use tftpcpd.Daemon.Signal.{LogEvent}
use tftpcpd.Daemon.State.{
  server, database, logger, Command, send_to, receive_from, close_log, Main, selecting, stopping,
  exited, impossible, System, with_child, channel_room,
}
use tftpcpd.Daemon.Step.{
  Source, Event, interrupt, main_steps, database_wakes, logger_looks, logger_peeks, main_selects,
  server_reads, routine_steps, session_steps, at_loop, next_event, session_next, all_ended,
  command_next, main_next, is_selecting, is_over, alive_next, act,
}
use tftpcpd.Daemon.Keeps.{Keeps, if-Keeps, taken-Keeps, act-Keeps}
use tftpcpd.Daemon.Balance.{bit}
use tftpcpd.Daemon.Invariant.{IsSound, closes, main_closes}
use tftpcpd.Daemon.Course.{
  commanded, ended, Course, same-Course, moved-Course, push_log-Course, call_next-Course,
  read_next-Course, wake_next-Course, look_next-Course, peek_next-Course, select_next-Course,
}

stopping-exited : (code n : ℕ) (l : List Command) → stopping code l ≢ exited n
stopping-exited code n l h = absurd (ground arith)

-- The case of the `select` that an event takes.
abbrev pub source_of : Event → Option Source
source_of (main_selects source) = some source
source_of _ = none

command_next-Course :
    (code : ℕ) (todo : List Command) (s : System)
    → s.main ≡ stopping code todo
    → bit s.log_open ≡ closes todo
    → Keeps (Course none s) (command_next code todo s)
unfolding command_next all_ended
command_next-Course code [] s e o =
    if-Keeps (Course none s) (all_ended s) _
      (λ h. record { main = ended code e refl; exits = λ n k. inr h; panics = λ k. inl k })
command_next-Course code (send_to r sig ∷ l) s e o =
    if-Keeps (Course none s) (ltb (length (s.child r).inbox) channel_room) _ (λ h.
      moved-Course none s _ (commanded code (send_to r sig) l e refl)
        (λ n. stopping-exited code n l) refl)
command_next-Course code (receive_from r ∷ l) s e o =
    taken-Keeps (Course none s) (s.child r).outbox
      (λ sig rest. record (with_child r (record (s.child r) { outbox = rest }) s) {
        main = stopping code l;
      })
      (λ sig rest.
        moved-Course none s _ (commanded code (receive_from r) l e refl)
          (λ n. stopping-exited code n l) refl)
command_next-Course code (close_log ∷ l) s e o = go s.log_open o
  where
    go :
        (b : Bool)
        → bit b ≡ suc (closes l)
        → Keeps (Course none s) (
            if b
            then some (record s { log_open = false; main = stopping code l })
            else some (record s { crashed = true }))
    go true k =
        moved-Course none s (record s { log_open = false; main = stopping code l })
          (commanded code close_log l e refl) (λ n. stopping-exited code n l) refl
    go false k = absurd (omega (arith, k))

main_next-Course :
    (m : Main) (s : System) → s.main ≡ m → IsSound s → Keeps (Course none s) (main_next m s)
unfolding main_next
main_next-Course selecting s e i = tt
main_next-Course (stopping code todo) s e i =
    command_next-Course code todo s e (i.closing ∙ ap main_closes e)
main_next-Course (exited code) s e i = tt
main_next-Course impossible s e i = tt

session_next-Course :
    (o : Option LogEvent) (i : ℕ) (s : System) → Keeps (Course none s) (session_next o i s)
unfolding session_next
session_next-Course none i s = tt
session_next-Course (some e) i s = push_log-Course none e s _ refl refl refl

alive_next-Course :
    (ev : Event) (s : System) → IsSound s → Keeps (Course (source_of ev) s) (alive_next ev s)
unfolding alive_next
alive_next-Course interrupt s i = same-Course none s _ refl refl
alive_next-Course (main_selects source) s i =
    if-Keeps (Course (some source) s) (is_selecting s.main) _ (λ h. select_next-Course source s h)
alive_next-Course main_steps s i = main_next-Course s.main s refl i
alive_next-Course (server_reads read) s i =
    if-Keeps (Course none s) (at_loop (s.child server)) _
      (λ h. read_next-Course none read (s.child server) (s.child server).inbox s)
alive_next-Course database_wakes s i =
    if-Keeps (Course none s) (at_loop (s.child database)) _
      (λ h. wake_next-Course none (s.child database) (s.child database).inbox s)
alive_next-Course logger_looks s i =
    if-Keeps (Course none s) (at_loop (s.child logger) && not s.peeking) _
      (λ h. look_next-Course none s.log (s.child logger) s)
alive_next-Course logger_peeks s i =
    if-Keeps (Course none s) (at_loop (s.child logger) && s.peeking) _
      (λ h. peek_next-Course none (s.child logger) (s.child logger).inbox s)
alive_next-Course (routine_steps r) s i = call_next-Course none r (s.child r) (s.child r).todo s
alive_next-Course (session_steps n) s i = session_next-Course (next_event n s.sessions) n s

pub act-Course :
    (ev : Event) (s t : System)
    → IsSound s
    → act ev s ≡ some t
    → Course (source_of ev) s t × (is_over s ≡ false)
act-Course ev s t i h = act-Keeps (Course (source_of ev) s) ev s t (alive_next-Course ev s i) h
