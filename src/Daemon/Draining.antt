-- ===== src/Daemon/Draining.antt =====
-- A logger that opened its files reads the log until `main` closes it.
pub mod Reached
use tftpcpd.Base.{
  ℕ, zero, suc, ◌+◌, Bytes, Bool, true, false, not, ◌&&◌, List, [], ◌∷◌, ◌++◌, Option, none, some,
  ◌≡◌, ◌≢◌, refl, sym, ap, subst, ◌∙◌, arith, ◌==◌, ltb, if◌then◌else◌, length,
}
use tftpcpd.Daemon.Signal.{Signal, LogEvent}
use tftpcpd.Daemon.State.{
  Routine, server, database, logger, Call, send, receive, log, cancel, wait_sessions, clean_up,
  Child, Command, send_to, receive_from, close_log, Main, selecting, stopping, exited, impossible,
  System, place, with_child, quiet, on_interrupt, on_signal, log_room, channel_room,
}
use tftpcpd.Daemon.Step.{
  Source, from_interrupt, from_child, Read, timed_out, read_failed, datagram_read, Event, interrupt,
  main_steps, database_wakes, logger_looks, logger_peeks, main_selects, server_reads, routine_steps,
  session_steps, push_log, call_next, at_loop, leaves, accepting, asking, read_next, wake_next,
  look_next, peek_next, next_event, session_next, select_next, all_ended, command_next, main_next,
  is_selecting, is_over, alive_next, act, Reach, begin, later, start,
}
use tftpcpd.Daemon.Keeps.{Keeps, if-Keeps, taken-Keeps, act-Keeps}
use tftpcpd.Daemon.Balance.{bit}
use tftpcpd.Daemon.Invariant.{IsSound, closes, main_closes, is_late, is_late_main}
use tftpcpd.Daemon.Invariant.Reached.{act-IsSound, start-IsSound}

-- The logger stands at its loop, and was told nothing.
pub record Reads (c : Child) : Type 0 where
  pub loops : at_loop c ≡ true
  pub told_nothing : c.inbox ≡ []

pub record IsDraining (s : System) : Type 0 where
  pub reads : s.log_open ≡ true → Reads (s.child logger)

same-IsDraining :
    (s t : System)
    → (t.log_open ≡ true → (s.log_open ≡ true) × (t.child logger ≡ s.child logger))
    → IsDraining s
    → IsDraining t
same-IsDraining s t k d = record {
  reads = λ h. let (still, same) = k h in subst Reads (sym same) (d.reads still);
}

pub push_log-IsDraining :
    (e : LogEvent) (s : System) → IsDraining s → Keeps IsDraining (push_log e s)
unfolding push_log
push_log-IsDraining e s d = go s.log_open (ltb (length s.log) log_room)
  where
    go :
        (b n : Bool)
        → Keeps IsDraining (
            if b
            then if n then some (record s { log = s.log ++ (e ∷ []) }) else none
            else some (record s { crashed = true }))
    go true true = record { reads = d.reads }
    go true false = tt
    go false n = record { reads = d.reads }

-- A routine other than the logger, or a logger that does not stand at its loop.
place-Reads :
    (r : Routine) (c : Child) (f : Routine → Child)
    → (r ≡ logger → Reads c)
    → Reads (f logger)
    → Reads (place r c f logger)
place-Reads server c f k h = h
place-Reads database c f k h = h
place-Reads logger c f k h = k refl

with_child-IsDraining :
    (r : Routine) (c : Child) (s : System)
    → (s.log_open ≡ true → r ≡ logger → Reads c)
    → IsDraining s
    → IsDraining (with_child r c s)
with_child-IsDraining r c s k d = record { reads = λ h. place-Reads r c s.child (k h) (d.reads h) }

-- At its loop a routine has no call to make.
busy_elsewhere :
    (r : Routine) (call : Call) (l : List Call) (c : Child) (s : System)
    → (s.child r).todo ≡ call ∷ l
    → IsDraining s
    → s.log_open ≡ true
    → r ≡ logger
    → Reads c
busy_elsewhere r call l c s e d h is =
    let reads = d.reads h in
    absurd (
      apart (s.child logger).todo (s.child logger).loops (ap (λ q. (s.child q).todo) (sym is) ∙ e)
        reads.loops)
  where
    apart :
        (t : List Call) (b : Bool) → t ≡ call ∷ l → elim t [ [] ↦ b | ◌∷◌ x m ↦ false ] ≡ true → ⊥
    apart [] b k m = ground arith
    apart (x ∷ t) b k m = ground arith

pub call_next-IsDraining :
    (r : Routine) (todo : List Call) (s : System)
    → (s.child r).todo ≡ todo
    → IsDraining s
    → Keeps IsDraining (call_next r (s.child r) todo s)
unfolding call_next
call_next-IsDraining r [] s e d = tt
call_next-IsDraining r (send sig ∷ l) s e d =
    if-Keeps IsDraining (ltb (length (s.child r).outbox) channel_room) _
      (λ h. with_child-IsDraining r _ s (busy_elsewhere r (send sig) l _ s e d) d)
call_next-IsDraining r (receive ∷ l) s e d =
    taken-Keeps IsDraining (s.child r).inbox
      (λ sig rest. with_child r (record (s.child r) { todo = l; inbox = rest }) s)
      (λ sig rest. with_child-IsDraining r _ s (busy_elsewhere r receive l _ s e d) d)
call_next-IsDraining r (log x ∷ l) s e d =
    push_log-IsDraining x _ (with_child-IsDraining r _ s (busy_elsewhere r (log x) l _ s e d) d)
call_next-IsDraining r (cancel ∷ l) s e d =
    with_child-IsDraining r _ s (busy_elsewhere r cancel l _ s e d) d
call_next-IsDraining r (wait_sessions ∷ l) s e d =
    if-Keeps IsDraining (quiet s.sessions) _
      (λ h. with_child-IsDraining r _ s (busy_elsewhere r wait_sessions l _ s e d) d)
call_next-IsDraining r (clean_up ∷ l) s e d =
    with_child-IsDraining r _ s (busy_elsewhere r clean_up l _ s e d) d

pub read_next-IsDraining :
    (read : Read) (c : Child) (inbox : List Signal) (s : System)
    → IsDraining s
    → IsDraining (read_next read c inbox s)
unfolding read_next
read_next-IsDraining read c (sig ∷ rest) s d = record { reads = d.reads }
read_next-IsDraining timed_out c [] s d = d
read_next-IsDraining read_failed c [] s d = record { reads = d.reads }
read_next-IsDraining (datagram_read events) c [] s d = record { reads = d.reads }

pub wake_next-IsDraining :
    (c : Child) (inbox : List Signal) (s : System)
    → IsDraining s
    → Keeps IsDraining (wake_next c inbox s)
unfolding wake_next
wake_next-IsDraining c [] s d = tt
wake_next-IsDraining c (sig ∷ rest) s d = record { reads = d.reads }

pub look_next-IsDraining :
    (events : List LogEvent) (c : Child) (s : System)
    → IsDraining s
    → IsDraining (look_next events c s)
unfolding look_next
look_next-IsDraining (x ∷ rest) c s d = record { reads = d.reads }
look_next-IsDraining [] c s d = go s.log_open refl
  where
    go :
        (b : Bool)
        → s.log_open ≡ b
        → IsDraining (
            if b
            then record s { peeking = true }
            else with_child logger (leaves c (asking []) c.inbox) s)
    go true e = record { reads = d.reads }
    go false e = record { reads = λ h. absurd (ground arith) }

pub peek_next-IsDraining :
    (inbox : List Signal) (s : System)
    → (s.child logger).inbox ≡ inbox
    → IsDraining s
    → IsDraining (peek_next (s.child logger) inbox s)
unfolding peek_next
peek_next-IsDraining [] s e d = record { reads = d.reads }
peek_next-IsDraining (sig ∷ rest) s e d = record {
  reads = λ h. absurd (let reads = d.reads h in apart (sym e ∙ reads.told_nothing));
}
  where
    apart : sig ∷ rest ≡ [] → ⊥
    apart k = ground arith

outbox-Reads :
    (r : Routine)
    → r ≡ logger
    → (out : List Signal) (f : Routine → Child) → Reads (f logger)
    → Reads (record (f r) { outbox = out })
outbox-Reads r is out f k = rw is (record { loops = k.loops; told_nothing = k.told_nothing })

pub select_next-IsDraining :
    (source : Source) (s : System) → IsDraining s → Keeps IsDraining (select_next source s)
unfolding select_next
select_next-IsDraining from_interrupt s d =
    if-Keeps IsDraining s.interrupted _ (λ h. record { reads = d.reads })
select_next-IsDraining (from_child q) s d =
    taken-Keeps IsDraining (s.child q).outbox
      (λ sig rest. record (with_child q (record (s.child q) { outbox = rest }) s) {
        main = on_signal q sig;
      })
      (λ sig rest. record {
        reads = λ h.
            place-Reads q (record (s.child q) { outbox = rest }) s.child
              (λ is. outbox-Reads q is rest s.child (d.reads h)) (d.reads h);
      })

pub command_next-IsDraining :
    (code : ℕ) (todo : List Command) (s : System)
    → bit s.log_open ≡ closes todo
    → is_late todo ≡ true
    → IsDraining s
    → Keeps IsDraining (command_next code todo s)
unfolding command_next
command_next-IsDraining code [] s c l d =
    if-Keeps IsDraining (all_ended s) _ (λ h. record { reads = d.reads })
command_next-IsDraining code (send_to q sig ∷ todo) s c l d =
    if-Keeps IsDraining (ltb (length (s.child q).inbox) channel_room) _ (λ h. record {
      reads = λ still.
          place-Reads q (record (s.child q) { inbox = (s.child q).inbox ++ (sig ∷ []) }) s.child
            (λ is. absurd (early q is still c l)) (d.reads still);
    })
  where
    early :
        (r : Routine)
        → r ≡ logger
        → s.log_open ≡ true
        → bit s.log_open ≡ closes todo
        → is_late (send_to r sig ∷ todo) ≡ true
        → ⊥
    early server is still k m = ground arith
    early database is still k m = ground arith
    early logger is still k m = ground arith
command_next-IsDraining code (receive_from q ∷ todo) s c l d =
    taken-Keeps IsDraining (s.child q).outbox
      (λ sig rest. record (with_child q (record (s.child q) { outbox = rest }) s) {
        main = stopping code todo;
      })
      (λ sig rest. record {
        reads = λ h.
            place-Reads q (record (s.child q) { outbox = rest }) s.child
              (λ is. outbox-Reads q is rest s.child (d.reads h)) (d.reads h);
      })
command_next-IsDraining code (close_log ∷ todo) s c l d = go s.log_open
  where
    go :
        (b : Bool)
        → Keeps IsDraining (
            if b
            then some (record s { log_open = false; main = stopping code todo })
            else some (record s { crashed = true }))
    go true = record { reads = λ h. absurd (ground arith) }
    go false = record { reads = d.reads }
