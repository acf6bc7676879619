-- ===== src/Daemon/Invariant.antt =====
-- What holds of the daemon at every step.
pub mod Reached
use tftpcpd.Base.{
  ℕ, zero, suc, ◌+◌, ◌≤◌, Bytes, Bool, true, false, not, ◌&&◌, List, [], ◌∷◌, ◌++◌, Option, none,
  some, ◌≡◌, ◌≢◌, refl, sym, ap, subst, ◌∙◌, inl, inr, arith, ◌==◌, ltb, if◌then◌else◌, length, All,
  Bool-cases,
}
use tftpcpd.Daemon.Signal.{Signal, LogEvent}
use tftpcpd.Daemon.State.{
  Routine, server, database, logger, Call, send, receive, log, cancel, wait_sessions, clean_up,
  Child, Command, send_to, receive_from, close_log, Main, selecting, stopping, exited, impossible,
  System, place, with_child, is_ended, quiet, on_interrupt, on_signal, on_server, on_database,
  on_logger, log_room, channel_room,
}
use tftpcpd.Daemon.Step.{
  Source, from_interrupt, from_child, Read, timed_out, read_failed, datagram_read, Event, interrupt,
  main_steps, database_wakes, logger_looks, logger_peeks, main_selects, server_reads, routine_steps,
  session_steps, push_log, call_next, at_loop, leaves, accepting, asking, read_next, wake_next,
  look_next, peek_next, next_event, session_next, select_next, all_ended, command_next, main_next,
  is_selecting, is_over, alive_next, act, Reach, begin, later, start,
}
use tftpcpd.Daemon.Keeps.{Keeps, if-Keeps, taken-Keeps, act-Keeps}
use tftpcpd.Daemon.Balance.{
  bit, command_sends, sends, receives, is_orderly, is_same, IsTerminate, Balanced, send-Balanced,
  receive-Balanced, log-Balanced, cancel-Balanced, clean_up-Balanced, wait-Balanced,
  accepting-Balanced, asking-Balanced,
}
use tftpcpd.Daemon.Balance.Moves.{
  send_to-Balanced, send_to-Balanced_other, receive_from-Balanced, receive_from-Balanced_other,
  close_log-Balanced, exited-Balanced, on_interrupt-Balanced, on_signal-Balanced,
  on_signal-Balanced_other,
}

abbrev pub closes : List Command → ℕ
closes [] = 0
closes (send_to q sig ∷ l) = closes l
closes (receive_from q ∷ l) = closes l
closes (close_log ∷ l) = suc (closes l)

abbrev pub main_closes : Main → ℕ
main_closes selecting = 1
main_closes (stopping code l) = closes l
main_closes (exited code) = 0
main_closes impossible = 0

-- The logger hears of the end only once the log is closed, and a routine hears nothing after its
-- answer.
abbrev pub is_late : List Command → Bool
is_late [] = true
is_late (send_to logger sig ∷ l) = closes l == 0 && is_late l
is_late (send_to server sig ∷ l) = is_late l
is_late (send_to database sig ∷ l) = is_late l
is_late (receive_from q ∷ l) = command_sends q l == 0 && is_late l
is_late (close_log ∷ l) = is_late l

abbrev pub is_late_main : Main → Bool
is_late_main (stopping code l) = is_late l
is_late_main _ = true

abbrev pub is_possible : Main → Bool
is_possible impossible = false
is_possible _ = true

pub record IsSound (s : System) : Type 0 where
  pub books : (r : Routine) → Balanced r s.main (s.child r)
  pub possible : is_possible s.main ≡ true
  pub closing : bit s.log_open ≡ main_closes s.main
  pub late : is_late_main s.main ≡ true

pub place-All :
    (P : Routine → Child → Type 0) (r : Routine) (c : Child) (f : Routine → Child)
    → ((q : Routine) → is_same r q ≡ false → P q (f q))
    → P r c
    → (q : Routine) → P q (place r c f q)
place-All P server c f k h server = h
place-All P server c f k h database = k database refl
place-All P server c f k h logger = k logger refl
place-All P database c f k h server = k server refl
place-All P database c f k h database = h
place-All P database c f k h logger = k logger refl
place-All P logger c f k h server = k server refl
place-All P logger c f k h database = k database refl
place-All P logger c f k h logger = h

pub with_child-IsSound :
    (r : Routine) (c : Child) (s : System)
    → IsSound s
    → Balanced r s.main c
    → IsSound (with_child r c s)
with_child-IsSound r c s i b = record {
  books = place-All (λ q x. Balanced q s.main x) r c s.child (λ q e. i.books q) b;
  possible = i.possible;
  closing = i.closing;
  late = i.late;
}

pub push_log-IsSound : (e : LogEvent) (s : System) → IsSound s → Keeps IsSound (push_log e s)
unfolding push_log
push_log-IsSound e s i = go s.log_open (ltb (length s.log) log_room)
  where
    go :
        (b d : Bool)
        → Keeps IsSound (
            if b
            then if d then some (record s { log = s.log ++ (e ∷ []) }) else none
            else some (record s { crashed = true }))
    go true true = record {
      books = i.books;
      possible = i.possible;
      closing = i.closing;
      late = i.late;
    }
    go true false = tt
    go false d = record {
      books = i.books;
      possible = i.possible;
      closing = i.closing;
      late = i.late;
    }

pub call_next-IsSound :
    (r : Routine) (todo : List Call) (loops : Bool) (inbox outbox : List Signal) (s : System)
    → IsSound s
    → Balanced r s.main (record { todo = todo; loops = loops; inbox = inbox; outbox = outbox })
    → Keeps IsSound
        (call_next r (record { todo = todo; loops = loops; inbox = inbox; outbox = outbox }) todo s)
unfolding call_next
call_next-IsSound r [] loops inbox outbox s i b = tt
call_next-IsSound r (send sig ∷ l) loops inbox outbox s i b =
    if-Keeps IsSound (ltb (length outbox) channel_room) _
      (λ h. with_child-IsSound r _ s i (send-Balanced r s.main loops inbox outbox sig l b))
call_next-IsSound r (receive ∷ l) loops [] outbox s i b = tt
call_next-IsSound r (receive ∷ l) loops (sig ∷ rest) outbox s i b =
    with_child-IsSound r _ s i (receive-Balanced r s.main outbox loops sig rest l b)
call_next-IsSound r (log e ∷ l) loops inbox outbox s i b =
    push_log-IsSound e _
      (with_child-IsSound r _ s i (log-Balanced r s.main loops inbox outbox e l b))
call_next-IsSound r (cancel ∷ l) loops inbox outbox s i b =
    with_child-IsSound r _ s i (cancel-Balanced r s.main loops inbox outbox l b)
call_next-IsSound r (wait_sessions ∷ l) loops inbox outbox s i b =
    if-Keeps IsSound (quiet s.sessions) _
      (λ h. with_child-IsSound r _ s i (wait-Balanced r s.main loops inbox outbox l b))
call_next-IsSound r (clean_up ∷ l) loops inbox outbox s i b =
    with_child-IsSound r _ s i (clean_up-Balanced r s.main loops inbox outbox l b)

-- A routine at its loop.
looping-Balanced :
    (r : Routine) (m : Main) (c : Child)
    → at_loop c ≡ true
    → Balanced r m c
    → Balanced r m (record { todo = []; loops = true; inbox = c.inbox; outbox = c.outbox })
looping-Balanced r m c h b = go c.todo c.loops h b
  where
    go :
        (todo : List Call) (loops : Bool)
        → elim todo [ [] ↦ loops | ◌∷◌ call l ↦ false ] ≡ true
        → Balanced r m (record { todo = todo; loops = loops; inbox = c.inbox; outbox = c.outbox })
        → Balanced r m (record { todo = []; loops = true; inbox = c.inbox; outbox = c.outbox })
    go [] true h b = b
    go [] false h b = absurd (ground arith)
    go (call ∷ l) loops h b = absurd (ground arith)

module _ (r : Routine) (m : Main) (c : Child) (later : List Call) (h : at_loop c ≡ true) where
  pub leaves-Balanced :
      (sig : Signal) (rest : List Signal)
      → sends later ≡ 0
      → receives later ≡ 0
      → is_orderly later ≡ true
      → c.inbox ≡ sig ∷ rest
      → Balanced r m c
      → Balanced r m (leaves c (accepting sig later) rest)
  leaves-Balanced sig rest s k o e b = accepting-Balanced r m c.outbox sig rest later s k o (
      subst (λ x. Balanced r m (record { todo = []; loops = true; inbox = x; outbox = c.outbox })) e
        (looping-Balanced r m c h b))

  pub asks-Balanced :
      (inbox : List Signal)
      → sends later ≡ 0
      → receives later ≡ 0
      → is_orderly later ≡ true
      → c.inbox ≡ inbox
      → Balanced r m c
      → Balanced r m (leaves c (asking later) inbox)
  asks-Balanced inbox s k o e b = asking-Balanced r m c.outbox inbox later s k o (
      subst (λ x. Balanced r m (record { todo = []; loops = true; inbox = x; outbox = c.outbox })) e
        (looping-Balanced r m c h b))

pub read_next-IsSound :
    (read : Read) (c : Child) (inbox : List Signal) (s : System)
    → at_loop c ≡ true
    → c.inbox ≡ inbox
    → Balanced server s.main c
    → IsSound s
    → IsSound (read_next read c inbox s)
unfolding read_next
read_next-IsSound read c (sig ∷ rest) s h e b i =
    with_child-IsSound server _ s i
      (leaves-Balanced server s.main c (cancel ∷ wait_sessions ∷ []) h sig rest refl refl refl e b)
read_next-IsSound timed_out c [] s h e b i = i
read_next-IsSound read_failed c [] s h e b i =
    with_child-IsSound server _ s i
      (asks-Balanced server s.main c (cancel ∷ wait_sessions ∷ []) h [] refl refl refl e b)
read_next-IsSound (datagram_read events) c [] s h e b i = record {
  books = i.books;
  possible = i.possible;
  closing = i.closing;
  late = i.late;
}

pub wake_next-IsSound :
    (c : Child) (inbox : List Signal) (s : System)
    → at_loop c ≡ true
    → c.inbox ≡ inbox
    → Balanced database s.main c
    → IsSound s
    → Keeps IsSound (wake_next c inbox s)
unfolding wake_next
wake_next-IsSound c [] s h e b i = tt
wake_next-IsSound c (sig ∷ rest) s h e b i =
    with_child-IsSound database _ s i
      (leaves-Balanced database s.main c (clean_up ∷ []) h sig rest refl refl refl e b)

pub look_next-IsSound :
    (events : List LogEvent) (c : Child) (s : System)
    → at_loop c ≡ true
    → Balanced logger s.main c
    → IsSound s
    → IsSound (look_next events c s)
unfolding look_next
look_next-IsSound (x ∷ rest) c s h b i = record {
  books = i.books;
  possible = i.possible;
  closing = i.closing;
  late = i.late;
}
look_next-IsSound [] c s h b i = go s.log_open
  where
    go :
        (d : Bool)
        → IsSound (
            if d
            then record s { peeking = true }
            else with_child logger (leaves c (asking []) c.inbox) s)
    go true = record { books = i.books; possible = i.possible; closing = i.closing; late = i.late }
    go false =
        with_child-IsSound logger _ s i
          (asks-Balanced logger s.main c [] h c.inbox refl refl refl refl b)

pub peek_next-IsSound :
    (c : Child) (inbox : List Signal) (s : System)
    → at_loop c ≡ true
    → c.inbox ≡ inbox
    → Balanced logger s.main c
    → IsSound s
    → IsSound (peek_next c inbox s)
unfolding peek_next
peek_next-IsSound c [] s h e b i = record {
  books = i.books;
  possible = i.possible;
  closing = i.closing;
  late = i.late;
}
peek_next-IsSound c (sig ∷ rest) s h e b i =
    let j =
      with_child-IsSound logger _ s i
        (leaves-Balanced logger s.main c [] h sig rest refl refl refl e b) in
    record { books = j.books; possible = j.possible; closing = j.closing; late = j.late }
