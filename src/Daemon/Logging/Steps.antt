-- ===== src/Daemon/Logging/Steps.antt =====
-- The events of every step, and of a run of the daemon.
use tftpcpd.Base.{
  ℕ, Bool, true, false, not, ◌&&◌, List, [], ◌∷◌, ◌++◌, append-nil, append_assoc, Option, none,
  some, ◌≡◌, refl, sym, ap, ◌∙◌, arith, ltb, if◌then◌else◌, length,
}
use tftpcpd.Daemon.Signal.{Signal, LogType, LogEvent}
use tftpcpd.Daemon.State.{
  Routine, server, database, logger, Call, send, receive, log, cancel, wait_sessions, clean_up,
  Child, Command, send_to, receive_from, close_log, Main, selecting, stopping, exited, impossible,
  System, with_child, quiet, on_signal, log_room, channel_room,
}
use tftpcpd.Daemon.Keeps.{Keeps, if-Keeps, taken-Keeps, act-Keeps}
use tftpcpd.Daemon.Step.{
  Source, from_interrupt, from_child, Read, timed_out, read_failed, datagram_read, Event, interrupt,
  main_steps, database_wakes, logger_looks, logger_peeks, main_selects, server_reads, routine_steps,
  session_steps, push_log, call_next, at_loop, leaves, asking, read_next, wake_next, look_next,
  peek_next, next_event, session_next, select_next, Reach, begin, later, all_ended, command_next,
  main_next, is_selecting, is_over, alive_next, act,
}
use tftpcpd.Daemon.Shutdown.{over-crashed}
use tftpcpd.Daemon.Logging.{
  keep, written, recorded, said_next, said_some, said_by, said, keep-append,
  written-write_event_to_log,
}

-- The step writes and queues these events, unless it panics.
pub record Told (l : List LogEvent) (s t : System) : Type 0 where
  pub tells : t.crashed ≡ false → (k : LogType) → recorded k t ≡ recorded k s ++ keep k l

silent-Told : (s t : System) → t.log ≡ s.log → t.logs ≡ s.logs → Told [] s t
silent-Told s t l w = record {
  tells = λ h k.
      ap (λ x. written k x ++ keep k t.log) w
      ∙ ap (λ x. written k s.logs ++ keep k x) l
      ∙ sym (append-nil (recorded k s));
}

push_log-Told :
    (e : LogEvent) (s u : System)
    → u.log ≡ s.log
    → u.logs ≡ s.logs
    → Keeps (Told (e ∷ []) s) (push_log e u)
unfolding push_log
push_log-Told e s u l w = go u.log_open (ltb (length u.log) log_room)
  where
    go :
        (b d : Bool)
        → Keeps (Told (e ∷ []) s) (
            if b
            then if d then some (record u { log = u.log ++ (e ∷ []) }) else none
            else some (record u { crashed = true }))
    go true true = record {
      tells = λ h k.
          ap (λ x. written k x ++ keep k (u.log ++ (e ∷ []))) w
          ∙ ap (λ x. written k s.logs ++ keep k (x ++ (e ∷ []))) l
          ∙ ap (λ x. written k s.logs ++ x) (keep-append k s.log (e ∷ []))
          ∙ sym (append_assoc (written k s.logs) (keep k s.log) (keep k (e ∷ [])));
    }
    go true false = tt
    go false d = record { tells = λ h k. absurd (ground arith) }

call_next-Told :
    (r : Routine) (c : Child) (todo : List Call) (s : System)
    → Keeps (Told (said_next todo) s) (call_next r c todo s)
unfolding call_next
call_next-Told r c [] s = tt
call_next-Told r c (send sig ∷ l) s =
    if-Keeps (Told [] s) (ltb (length c.outbox) channel_room) _ (λ h. silent-Told s _ refl refl)
call_next-Told r c (receive ∷ l) s =
    taken-Keeps (Told [] s) c.inbox
      (λ sig rest. with_child r (record c { todo = l; inbox = rest }) s)
      (λ sig rest. silent-Told s (with_child r (record c { todo = l; inbox = rest }) s) refl refl)
call_next-Told r c (log e ∷ l) s = push_log-Told e s _ refl refl
call_next-Told r c (cancel ∷ l) s = silent-Told s _ refl refl
call_next-Told r c (wait_sessions ∷ l) s =
    if-Keeps (Told [] s) (quiet s.sessions) _ (λ h. silent-Told s _ refl refl)
call_next-Told r c (clean_up ∷ l) s = silent-Told s _ refl refl

look_next-Told :
    (events : List LogEvent) (c : Child) (s : System)
    → s.log ≡ events
    → Told [] s (look_next events c s)
unfolding look_next
look_next-Told (e ∷ rest) c s q = record {
  tells = λ h k.
      ap (λ x. x ++ keep k rest) (written-write_event_to_log k e s.logs)
      ∙ append_assoc (written k s.logs) (keep k (e ∷ [])) (keep k rest)
      ∙ ap (λ x. written k s.logs ++ x) (sym (keep-append k (e ∷ []) rest))
      ∙ ap (λ x. written k s.logs ++ keep k x) (sym q)
      ∙ sym (append-nil (recorded k s));
}
look_next-Told [] c s q = go s.log_open
  where
    go :
        (b : Bool)
        → Told [] s (
            if b
            then record s { peeking = true }
            else with_child logger (leaves c (asking []) c.inbox) s)
    go true = silent-Told s (record s { peeking = true }) refl refl
    go false = silent-Told s (with_child logger (leaves c (asking []) c.inbox) s) refl refl

read_next-Told :
    (read : Read) (c : Child) (inbox : List Signal) (s : System)
    → Told [] s (read_next read c inbox s)
unfolding read_next
read_next-Told read c (sig ∷ rest) s = silent-Told s _ refl refl
read_next-Told timed_out c [] s = silent-Told s _ refl refl
read_next-Told read_failed c [] s = silent-Told s _ refl refl
read_next-Told (datagram_read events) c [] s = silent-Told s _ refl refl

wake_next-Told :
    (c : Child) (inbox : List Signal) (s : System) → Keeps (Told [] s) (wake_next c inbox s)
unfolding wake_next
wake_next-Told c [] s = tt
wake_next-Told c (sig ∷ rest) s = silent-Told s _ refl refl

peek_next-Told : (c : Child) (inbox : List Signal) (s : System) → Told [] s (peek_next c inbox s)
unfolding peek_next
peek_next-Told c [] s = silent-Told s _ refl refl
peek_next-Told c (sig ∷ rest) s = silent-Told s _ refl refl

select_next-Told : (source : Source) (s : System) → Keeps (Told [] s) (select_next source s)
unfolding select_next
select_next-Told from_interrupt s =
    if-Keeps (Told [] s) s.interrupted _ (λ h. silent-Told s _ refl refl)
select_next-Told (from_child r) s =
    taken-Keeps (Told [] s) (s.child r).outbox
      (λ sig rest. record (with_child r (record (s.child r) { outbox = rest }) s) {
        main = on_signal r sig;
      })
      (λ sig rest. silent-Told s _ refl refl)

command_next-Told :
    (code : ℕ) (todo : List Command) (s : System) → Keeps (Told [] s) (command_next code todo s)
unfolding command_next
command_next-Told code [] s = if-Keeps (Told [] s) (all_ended s) _ (λ h. silent-Told s _ refl refl)
command_next-Told code (send_to r sig ∷ l) s =
    if-Keeps (Told [] s) (ltb (length (s.child r).inbox) channel_room) _
      (λ h. silent-Told s _ refl refl)
command_next-Told code (receive_from r ∷ l) s =
    taken-Keeps (Told [] s) (s.child r).outbox
      (λ sig rest. record (with_child r (record (s.child r) { outbox = rest }) s) {
        main = stopping code l;
      })
      (λ sig rest. silent-Told s _ refl refl)
command_next-Told code (close_log ∷ l) s = go s.log_open
  where
    go :
        (b : Bool)
        → Keeps (Told [] s) (
            if b
            then some (record s { log_open = false; main = stopping code l })
            else some (record s { crashed = true }))
    go true = silent-Told s _ refl refl
    go false = record { tells = λ h k. absurd (ground arith) }

main_next-Told : (m : Main) (s : System) → Keeps (Told [] s) (main_next m s)
unfolding main_next
main_next-Told selecting s = tt
main_next-Told (stopping code todo) s = command_next-Told code todo s
main_next-Told (exited code) s = tt
main_next-Told impossible s = tt

session_next-Told :
    (o : Option LogEvent) (i : ℕ) (s : System) → Keeps (Told (said_some o) s) (session_next o i s)
unfolding session_next
session_next-Told none i s = tt
session_next-Told (some e) i s = push_log-Told e s _ refl refl

alive_next-Told : (ev : Event) (s : System) → Keeps (Told (said_by ev s) s) (alive_next ev s)
unfolding alive_next
alive_next-Told interrupt s = silent-Told s _ refl refl
alive_next-Told (main_selects source) s =
    if-Keeps (Told [] s) (is_selecting s.main) _ (λ h. select_next-Told source s)
alive_next-Told main_steps s = main_next-Told s.main s
alive_next-Told (server_reads read) s =
    if-Keeps (Told [] s) (at_loop (s.child server)) _
      (λ h. read_next-Told read (s.child server) (s.child server).inbox s)
alive_next-Told database_wakes s =
    if-Keeps (Told [] s) (at_loop (s.child database)) _
      (λ h. wake_next-Told (s.child database) (s.child database).inbox s)
alive_next-Told logger_looks s =
    if-Keeps (Told [] s) (at_loop (s.child logger) && not s.peeking) _
      (λ h. look_next-Told s.log (s.child logger) s refl)
alive_next-Told logger_peeks s =
    if-Keeps (Told [] s) (at_loop (s.child logger) && s.peeking) _
      (λ h. peek_next-Told (s.child logger) (s.child logger).inbox s)
alive_next-Told (routine_steps r) s = call_next-Told r (s.child r) (s.child r).todo s
alive_next-Told (session_steps n) s = session_next-Told (next_event n s.sessions) n s

pub act-Told :
    (ev : Event) (s t : System) → act ev s ≡ some t → Told (said_by ev s) s t × (is_over s ≡ false)
act-Told ev s t h = act-Keeps (Told (said_by ev s) s) ev s t (alive_next-Told ev s) h

-- At any point that the goroutines can reach without a panic, and for each kind of event: what
-- the logger has written to that kind's file, followed by the events of that kind that wait in
-- Log, is what there was at first followed by the events of that kind that the goroutines have
-- logged, in their order.
pub Reach-recorded :
    {first : System} (s : System) (reached : Reach first s)
    → s.crashed ≡ false
    → (k : LogType) → recorded k s ≡ recorded k first ++ keep k (said s reached)
unfolding said
Reach-recorded s begin h k = sym (append-nil (recorded k s))
Reach-recorded {first} _ (later {s = u} {t = t} ev reached step) h k =
    let (told, alive) = act-Told ev u t step in
    let before = Reach-recorded u reached (over-crashed u alive) k in
    told.tells h k
    ∙ ap (λ x. x ++ keep k (said_by ev u)) before
    ∙ append_assoc (recorded k first) (keep k (said u reached)) (keep k (said_by ev u))
    ∙ ap (λ x. recorded k first ++ x) (sym (keep-append k (said u reached) (said_by ev u)))
