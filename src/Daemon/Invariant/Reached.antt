-- ===== src/Daemon/Invariant/Reached.antt =====
-- The steps of `main`, and every daemon that is reached.
use tftpcpd.Base.{
  ℕ, suc, ◌+◌, Bytes, Bool, true, false, not, ◌&&◌, List, [], ◌∷◌, ◌++◌, Option, none, some, ◌≡◌,
  refl, sym, ap, subst, ◌∙◌, arith, ◌==◌, ltb, if◌then◌else◌, length,
}
use tftpcpd.Daemon.Signal.{Signal, LogEvent}
use tftpcpd.Daemon.State.{
  Routine, server, database, logger, Call, Command, send_to, receive_from, close_log, Main,
  selecting, stopping, exited, impossible, System, with_child, on_interrupt, on_signal, on_server,
  on_database, on_logger, channel_room,
}
use tftpcpd.Daemon.Step.{
  Source, from_interrupt, from_child, Event, interrupt, main_steps, database_wakes, logger_looks,
  logger_peeks, main_selects, server_reads, routine_steps, session_steps, at_loop, next_event,
  session_next, select_next, all_ended, command_next, main_next, is_selecting, alive_next, act,
  Reach, begin, later, Listening, bound, unresolved, unbound, start, first_child,
}
use tftpcpd.Daemon.Keeps.{Keeps, if-Keeps, act-Keeps}
use tftpcpd.Daemon.Balance.{
  bit, command_sends, sends, receives, is_orderly, IsTerminate, Balanced, SendsTerminate,
}
use tftpcpd.Daemon.Balance.Moves.{
  send_to-Balanced, send_to-Balanced_other, receive_from-Balanced, receive_from-Balanced_other,
  close_log-Balanced, exited-Balanced, on_interrupt-Balanced, on_signal-Balanced,
  on_signal-Balanced_other,
}
use tftpcpd.Daemon.Invariant.{
  closes, main_closes, is_late, is_late_main, is_possible, IsSound, place-All, push_log-IsSound,
  call_next-IsSound, read_next-IsSound, wake_next-IsSound, look_next-IsSound, peek_next-IsSound,
}

is_late-late :
    (q : Routine) (sig : Signal) (l : List Command)
    → is_late (send_to q sig ∷ l) ≡ true
    → is_late l ≡ true
is_late-late server sig l h = h
is_late-late database sig l h = h
is_late-late logger sig l h = ground arith

command_next-IsSound :
    (code : ℕ) (todo : List Command) (s : System)
    → s.main ≡ stopping code todo
    → ((r : Routine) → Balanced r (stopping code todo) (s.child r))
    → bit s.log_open ≡ closes todo
    → is_late todo ≡ true
    → Keeps IsSound (command_next code todo s)
unfolding command_next
command_next-IsSound code [] s m b c l = if-Keeps IsSound (all_ended s) _ (λ h. record {
  books = λ r. exited-Balanced code [] r (s.child r) (b r);
  possible = refl;
  closing = c;
  late = refl;
})
command_next-IsSound code (send_to q sig ∷ todo) s m b c l =
    if-Keeps IsSound (ltb (length (s.child q).inbox) channel_room) _ (λ h. record {
      books =
          place-All (λ r x. Balanced r (stopping code todo) x) q
            (record (s.child q) { inbox = (s.child q).inbox ++ (sig ∷ []) }) s.child
            (λ r e. send_to-Balanced_other code todo r q sig (s.child r) e (b r))
            (send_to-Balanced code todo q sig (s.child q) (b q));
      possible = refl;
      closing = c;
      late = is_late-late q sig todo l;
    })
command_next-IsSound code (receive_from q ∷ todo) s m b c l = go (s.child q).outbox refl
  where
    second : (x y : Bool) → x && y ≡ true → y ≡ true
    second x y h = ground arith

    go :
        (out : List Signal)
        → (s.child q).outbox ≡ out
        → Keeps IsSound (elim out [
          | [] ↦ none
          | ◌∷◌ sig rest ↦ some (record (with_child q (record (s.child q) { outbox = rest }) s) {
            main = stopping code todo;
          })
        ])
    go [] e = tt
    go (sig ∷ rest) e = record {
      books =
          place-All (λ r x. Balanced r (stopping code todo) x) q
            (record (s.child q) { outbox = rest }) s.child
            (λ r k. receive_from-Balanced_other code todo r q (s.child r) k (b r))
            (receive_from-Balanced code todo q sig rest (s.child q) (
              subst
                (λ x.
                  Balanced q (stopping code (receive_from q ∷ todo))
                    (record (s.child q) { outbox = x }))
                e (b q)));
      possible = refl;
      closing = c;
      late = second (command_sends q todo == 0) (is_late todo) l;
    }
command_next-IsSound code (close_log ∷ todo) s m b c l = go s.log_open c
  where
    go :
        (d : Bool)
        → bit d ≡ suc (closes todo)
        → Keeps IsSound (
            if d
            then some (record s { log_open = false; main = stopping code todo })
            else some (record s { crashed = true }))
    go true e = record {
      books = λ r. close_log-Balanced code todo r (s.child r) (b r);
      possible = refl;
      closing = omega (arith, e);
      late = l;
    }
    go false e = absurd (omega (arith, e))

main_next-IsSound : (m : Main) (s : System) → s.main ≡ m → IsSound s → Keeps IsSound (main_next m s)
unfolding main_next
main_next-IsSound selecting s e i = tt
main_next-IsSound (stopping code todo) s e i =
    command_next-IsSound code todo s e
      (subst (λ m. (r : Routine) → Balanced r m (s.child r)) e i.books)
      (subst (λ m. bit s.log_open ≡ main_closes m) e i.closing)
      (subst (λ m. is_late_main m ≡ true) e i.late)
main_next-IsSound (exited code) s e i = tt
main_next-IsSound impossible s e i = tt

selecting-eq : (m : Main) → is_selecting m ≡ true → m ≡ selecting
selecting-eq selecting h = refl
selecting-eq (stopping code l) h = absurd (ground arith)
selecting-eq (exited code) h = absurd (ground arith)
selecting-eq impossible h = absurd (ground arith)

-- Where a routine asks to end, `main` goes on and closes the log before it tells the logger.
record IsFine (m : Main) : Type 0 where
  possible : is_possible m ≡ true
  closing : main_closes m ≡ 1
  late : is_late_main m ≡ true

on_signal-IsFine : (r : Routine) (sig : Signal) → IsTerminate sig → IsFine (on_signal r sig)
unfolding on_server on_database on_logger
on_signal-IsFine server sig e = record {
  possible = ground arith;
  closing = ground arith;
  late = ground arith;
}
on_signal-IsFine database sig e = record {
  possible = ground arith;
  closing = ground arith;
  late = ground arith;
}
on_signal-IsFine logger sig e = record {
  possible = ground arith;
  closing = ground arith;
  late = ground arith;
}

select_next-IsSound :
    (source : Source) (s : System)
    → s.main ≡ selecting
    → IsSound s
    → Keeps IsSound (select_next source s)
unfolding select_next
select_next-IsSound from_interrupt s e i = if-Keeps IsSound s.interrupted _ (λ h. record {
  books = λ r.
      on_interrupt-Balanced r (s.child r) (subst (λ m. Balanced r m (s.child r)) e (i.books r));
  possible = (unfold on_interrupt in refl);
  closing = i.closing ∙ (ap main_closes e ∙ (unfold on_interrupt in refl));
  late = (unfold on_interrupt in refl);
})
select_next-IsSound (from_child q) s e i = go (s.child q).outbox refl
  where
    b : (r : Routine) → Balanced r selecting (s.child r)
    b r = subst (λ m. Balanced r m (s.child r)) e (i.books r)

    go :
        (out : List Signal)
        → (s.child q).outbox ≡ out
        → Keeps IsSound (elim out [
          | [] ↦ none
          | ◌∷◌ sig rest ↦ some (record (with_child q (record (s.child q) { outbox = rest }) s) {
            main = on_signal q sig;
          })
        ])
    go [] k = tt
    go (sig ∷ rest) k =
        let own : Balanced q selecting (record (s.child q) { outbox = sig ∷ rest }) =
          subst (λ x. Balanced q selecting (record (s.child q) { outbox = x })) k (b q) in
        let kind = (own.kinds refl).0.0 in
        let fine = on_signal-IsFine q sig kind in
        record {
          books =
              place-All (λ r x. Balanced r (on_signal q sig) x) q
                (record (s.child q) { outbox = rest }) s.child
                (λ r d. on_signal-Balanced_other r q sig (s.child r) d kind (b r))
                (on_signal-Balanced q sig rest (s.child q) own);
          possible = fine.possible;
          closing = i.closing ∙ (ap main_closes e ∙ sym fine.closing);
          late = fine.late;
        }

session_next-IsSound :
    (o : Option LogEvent) (i : ℕ) (s : System) → IsSound s → Keeps IsSound (session_next o i s)
unfolding session_next
session_next-IsSound none i s k = tt
session_next-IsSound (some e) i s k =
    push_log-IsSound e _
      (record { books = k.books; possible = k.possible; closing = k.closing; late = k.late })

alive_next-IsSound : (ev : Event) (s : System) → IsSound s → Keeps IsSound (alive_next ev s)
unfolding alive_next
alive_next-IsSound interrupt s i = record {
  books = i.books;
  possible = i.possible;
  closing = i.closing;
  late = i.late;
}
alive_next-IsSound (main_selects source) s i =
    if-Keeps IsSound (is_selecting s.main) _
      (λ h. select_next-IsSound source s (selecting-eq s.main h) i)
alive_next-IsSound main_steps s i = main_next-IsSound s.main s refl i
alive_next-IsSound (server_reads read) s i = if-Keeps IsSound (at_loop (s.child server)) _ (λ h.
    read_next-IsSound read (s.child server) (s.child server).inbox s h refl (i.books server) i)
alive_next-IsSound database_wakes s i = if-Keeps IsSound (at_loop (s.child database)) _ (λ h.
    wake_next-IsSound (s.child database) (s.child database).inbox s h refl (i.books database) i)
alive_next-IsSound logger_looks s i =
    if-Keeps IsSound (at_loop (s.child logger) && not s.peeking) _ (λ h.
      look_next-IsSound s.log (s.child logger) s (first (at_loop (s.child logger)) s.peeking h)
        (i.books logger) i)
  where
    first : (a b : Bool) → a && not b ≡ true → a ≡ true
    first a b k = ground arith
alive_next-IsSound logger_peeks s i =
    if-Keeps IsSound (at_loop (s.child logger) && s.peeking) _ (λ h.
      peek_next-IsSound (s.child logger) (s.child logger).inbox s
        (first (at_loop (s.child logger)) s.peeking h) refl (i.books logger) i)
  where
    first : (a b : Bool) → a && b ≡ true → a ≡ true
    first a b k = ground arith
alive_next-IsSound (routine_steps r) s i =
    call_next-IsSound r (s.child r).todo (s.child r).loops (s.child r).inbox (s.child r).outbox s i
      (i.books r)
alive_next-IsSound (session_steps n) s i = session_next-IsSound (next_event n s.sessions) n s i

pub act-IsSound : (ev : Event) (s t : System) → IsSound s → act ev s ≡ some t → IsSound t
act-IsSound ev s t i h = (act-Keeps IsSound ev s t (alive_next-IsSound ev s i) h).0

pub start-IsSound :
    (listens : Listening) (files_open : Bool) (path : Bytes) (earlier : List LogEvent)
    → IsSound (start listens files_open path earlier)
unfolding start
start-IsSound listens files_open path earlier = record {
  books = λ r. books listens files_open r;
  possible = refl;
  closing = refl;
  late = refl;
}
  where
    begins :
        (r : Routine) (todo : List Call) (loops : Bool)
        → 1 ≡ bit loops + receives todo
        → 1 ≡ bit loops + sends todo
        → is_orderly todo ≡ true
        → SendsTerminate todo
        → Balanced r selecting (record { todo = todo; loops = loops; inbox = []; outbox = [] })
    begins r todo loops k n o t = record {
      inbox = k;
      outbox = omega (arith, n);
      once = omega (arith, k);
      asks_once = omega arith;
      order = o;
      kinds = λ h. (tt, t);
    }

    books : (a : Listening) (b : Bool) (r : Routine) → Balanced r selecting (first_child a b path r)
    books (bound address) b server = begins server _ true refl refl refl tt
    books unresolved b server = begins server _ false refl refl refl (refl, tt)
    books (unbound address) b server = begins server _ false refl refl refl (refl, tt)
    books a b database = begins database _ true refl refl refl tt
    books a true logger = begins logger _ true refl refl refl tt
    books a false logger = begins logger _ false refl refl refl (refl, tt)

-- Every daemon that is reached.
pub Reach-IsSound :
    (listens : Listening) (files_open : Bool) (path : Bytes) (earlier : List LogEvent) (s : System)
    → Reach (start listens files_open path earlier) s
    → IsSound s
Reach-IsSound listens files_open path earlier s reached = go s reached
  where
    go : (t : System) → Reach (start listens files_open path earlier) t → IsSound t
    go _ begin = start-IsSound listens files_open path earlier
    go _ (later {s = u} {t = t} ev r h) = act-IsSound ev u t (go u r) h
