-- ===== src/Daemon/Course.antt =====
-- How `main` and the panics of the daemon come about, one step at a time.
pub mod Exit
use tftpcpd.Base.{
  ℕ, zero, suc, ◌+◌, Bool, true, false, not, ◌&&◌, ◌||◌, List, [], ◌∷◌, ◌++◌, Option, none, some,
  ◌≡◌, ◌≢◌, refl, sym, ap, subst, ◌∙◌, ◌⊎◌, inl, inr, arith, ◌==◌, ltb, if◌then◌else◌, length,
  Bool-cases,
}
use tftpcpd.Daemon.Signal.{Signal, signal_terminate, signal_restart, is_response, LogEvent}
use tftpcpd.Daemon.State.{
  Routine, server, database, logger, Call, send, receive, log, cancel, wait_sessions, clean_up,
  Child, Command, send_to, receive_from, close_log, Main, selecting, stopping, exited, impossible,
  System, with_child, quiet, on_interrupt, on_signal, on_server, on_database, on_logger, log_room,
  channel_room,
}
use tftpcpd.Daemon.Step.{
  Source, from_interrupt, from_child, Read, timed_out, read_failed, datagram_read, Event, interrupt,
  main_steps, database_wakes, logger_looks, logger_peeks, main_selects, server_reads, routine_steps,
  session_steps, push_log, call_next, at_loop, leaves, asking, read_next, wake_next, look_next,
  peek_next, next_event, session_next, select_next, all_ended, command_next, main_next,
  is_selecting, is_over, alive_next, act,
}
use tftpcpd.Daemon.Keeps.{Keeps, if-Keeps, taken-Keeps, act-Keeps}
use tftpcpd.Daemon.Balance.{bit}
use tftpcpd.Daemon.Invariant.{IsSound, closes, main_closes}

-- The exit codes of `main`.
abbrev pub is_code : ℕ → Bool
is_code code = code == 0 || code == 11 || code == 12

abbrev pub is_choice : Main → Bool
is_choice (stopping code todo) = is_code code
is_choice impossible = true
is_choice _ = false

-- The exit code that each case of the `select` leads to.
abbrev pub code_for : Source → ℕ
code_for from_interrupt = 0
code_for (from_child logger) = 11
code_for (from_child server) = 12
code_for (from_child database) = 0

-- Where `main` stops, it is with the code of this case.
abbrev pub is_due : Source → Main → Bool
is_due source (stopping code todo) = code == code_for source
is_due source _ = true

-- What `main` does in one step, and the case of the `select` that it takes, if it takes one.
pub data NextMain (o : Option Source) (m n : Main) : Type 0 where
  same : n ≡ m → NextMain o m n
  chosen :
      (source : Source)
      → o ≡ some source
      → is_selecting m ≡ true
      → is_choice n ≡ true
      → is_due source n ≡ true
      → NextMain o m n
  commanded :
      (code : ℕ) (command : Command) (rest : List Command)
      → m ≡ stopping code (command ∷ rest)
      → n ≡ stopping code rest
      → NextMain o m n
  ended : (code : ℕ) → m ≡ stopping code [] → n ≡ exited code → NextMain o m n

pub record Course (o : Option Source) (s t : System) : Type 0 where
  pub main : NextMain o s.main t.main
  pub exits : (code : ℕ) → t.main ≡ exited code → (s.main ≡ exited code) ⊎ (all_ended t ≡ true)
  pub panics : t.crashed ≡ true → (s.crashed ≡ true) ⊎ ((s.log_open ≡ false) × (t.main ≡ s.main))

module _ (o : Option Source) where
  pub same-Course : (s t : System) → t.main ≡ s.main → t.crashed ≡ s.crashed → Course o s t
  same-Course s t m c = record {
    main = same m;
    exits = λ code h. inl (sym m ∙ h);
    panics = λ h. inl (sym c ∙ h);
  }

  -- No exit, but a new place of `main`.
  pub moved-Course :
      (s t : System)
      → NextMain o s.main t.main
      → ((code : ℕ) → t.main ≢ exited code)
      → t.crashed ≡ s.crashed
      → Course o s t
  moved-Course s t m n c = record {
    main = m;
    exits = λ code h. absurd (n code h);
    panics = λ h. inl (sym c ∙ h);
  }

  pub push_log-Course :
      (e : LogEvent) (s u : System)
      → u.main ≡ s.main
      → u.crashed ≡ s.crashed
      → u.log_open ≡ s.log_open
      → Keeps (Course o s) (push_log e u)
  unfolding push_log
  push_log-Course e s u m c same_log = go u.log_open (ltb (length u.log) log_room) refl
    where
      go :
          (b d : Bool)
          → u.log_open ≡ b
          → Keeps (Course o s) (
              if b
              then if d then some (record u { log = u.log ++ (e ∷ []) }) else none
              else some (record u { crashed = true }))
      go true true k = same-Course s (record u { log = u.log ++ (e ∷ []) }) m c
      go true false k = tt
      go false d k = record {
        main = same m;
        exits = λ code h. inl (sym m ∙ h);
        panics = λ h. inr (sym same_log ∙ k, m);
      }

  pub call_next-Course :
      (r : Routine) (c : Child) (todo : List Call) (s : System)
      → Keeps (Course o s) (call_next r c todo s)
  unfolding call_next
  call_next-Course r c [] s = tt
  call_next-Course r c (send sig ∷ l) s =
      if-Keeps (Course o s) (ltb (length c.outbox) channel_room) _ (λ h. same-Course s _ refl refl)
  call_next-Course r c (receive ∷ l) s =
      taken-Keeps (Course o s) c.inbox
        (λ sig rest. with_child r (record c { todo = l; inbox = rest }) s)
        (λ sig rest. same-Course s _ refl refl)
  call_next-Course r c (log e ∷ l) s = push_log-Course e s _ refl refl refl
  call_next-Course r c (cancel ∷ l) s = same-Course s _ refl refl
  call_next-Course r c (wait_sessions ∷ l) s =
      if-Keeps (Course o s) (quiet s.sessions) _ (λ h. same-Course s _ refl refl)
  call_next-Course r c (clean_up ∷ l) s = same-Course s _ refl refl

  pub read_next-Course :
      (read : Read) (c : Child) (inbox : List Signal) (s : System)
      → Course o s (read_next read c inbox s)
  unfolding read_next
  read_next-Course read c (sig ∷ rest) s = same-Course s _ refl refl
  read_next-Course timed_out c [] s = same-Course s _ refl refl
  read_next-Course read_failed c [] s = same-Course s _ refl refl
  read_next-Course (datagram_read events) c [] s = same-Course s _ refl refl

  pub wake_next-Course :
      (c : Child) (inbox : List Signal) (s : System) → Keeps (Course o s) (wake_next c inbox s)
  unfolding wake_next
  wake_next-Course c [] s = tt
  wake_next-Course c (sig ∷ rest) s = same-Course s _ refl refl

  pub look_next-Course :
      (events : List LogEvent) (c : Child) (s : System) → Course o s (look_next events c s)
  unfolding look_next
  look_next-Course (x ∷ rest) c s = same-Course s _ refl refl
  look_next-Course [] c s = go s.log_open
    where
      go :
          (b : Bool)
          → Course o s (
              if b
              then record s { peeking = true }
              else with_child logger (leaves c (asking []) c.inbox) s)
      go true = same-Course s (record s { peeking = true }) refl refl
      go false = same-Course s (with_child logger (leaves c (asking []) c.inbox) s) refl refl

  pub peek_next-Course :
      (c : Child) (inbox : List Signal) (s : System) → Course o s (peek_next c inbox s)
  unfolding peek_next
  peek_next-Course c [] s = same-Course s _ refl refl
  peek_next-Course c (sig ∷ rest) s = same-Course s _ refl refl

-- What a case of the `select` gives.
if-choice :
    (b : Bool) (m n : Main)
    → is_choice m ≡ true
    → is_choice n ≡ true
    → is_choice (if b then m else n) ≡ true
if-choice true m n h k = h
if-choice false m n h k = k

on_signal-choice : (r : Routine) (sig : Signal) → is_choice (on_signal r sig) ≡ true
unfolding on_server on_database on_logger
on_signal-choice server sig =
    if-choice (is_response sig) _ _ refl (if-choice (sig.kind == signal_terminate) _ _ refl refl)
on_signal-choice database sig =
    if-choice (is_response sig) _ _ refl (if-choice (sig.kind == signal_terminate) _ _ refl refl)
on_signal-choice logger sig = if-choice (is_response sig) _ _ refl (
    if-choice (sig.kind == signal_restart) _ _ refl
      (if-choice (sig.kind == signal_terminate) _ _ refl refl))

if-due :
    (source : Source) (b : Bool) (m n : Main)
    → is_due source m ≡ true
    → is_due source n ≡ true
    → is_due source (if b then m else n) ≡ true
if-due source true m n h k = h
if-due source false m n h k = k

on_signal-due : (r : Routine) (sig : Signal) → is_due (from_child r) (on_signal r sig) ≡ true
unfolding on_server on_database on_logger
on_signal-due server sig =
    if-due (from_child server) (is_response sig) _ _ refl
      (if-due (from_child server) (sig.kind == signal_terminate) _ _ refl refl)
on_signal-due database sig =
    if-due (from_child database) (is_response sig) _ _ refl
      (if-due (from_child database) (sig.kind == signal_terminate) _ _ refl refl)
on_signal-due logger sig = if-due (from_child logger) (is_response sig) _ _ refl (
    if-due (from_child logger) (sig.kind == signal_restart) _ _ refl
      (if-due (from_child logger) (sig.kind == signal_terminate) _ _ refl refl))

choice-exited : (m : Main) → is_choice m ≡ true → (code : ℕ) → m ≢ exited code
choice-exited m h code e = absurd (apart (sym h ∙ ap is_choice e))
  where
    apart : true ≡ false → ⊥
    apart k = ground arith

pub select_next-Course :
    (source : Source) (s : System)
    → is_selecting s.main ≡ true
    → Keeps (Course (some source) s) (select_next source s)
unfolding select_next on_interrupt
select_next-Course from_interrupt s h =
    if-Keeps (Course (some from_interrupt) s) s.interrupted _ (λ k.
      moved-Course (some from_interrupt) s _ (chosen from_interrupt refl h refl refl)
        (choice-exited on_interrupt refl) refl)
select_next-Course (from_child r) s h =
    taken-Keeps (Course (some (from_child r)) s) (s.child r).outbox
      (λ sig rest. record (with_child r (record (s.child r) { outbox = rest }) s) {
        main = on_signal r sig;
      })
      (λ sig rest.
        moved-Course (some (from_child r)) s _
          (chosen (from_child r) refl h (on_signal-choice r sig) (on_signal-due r sig))
          (choice-exited (on_signal r sig) (on_signal-choice r sig)) refl)
