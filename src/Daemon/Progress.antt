-- ===== src/Daemon/Progress.antt =====
-- Which goroutine can go on, once `main` has left its `select`.
pub mod Ending
use tftpcpd.Base.{
  ℕ, zero, suc, ◌+◌, ◌≤◌, ◌<◌, Bytes, Bool, true, false, not, ◌&&◌, ◌||◌, List, [], ◌∷◌, ◌++◌,
  Option, none, some, ◌≡◌, ◌≢◌, refl, sym, ap, subst, ◌∙◌, ◌⊎◌, inl, inr, arith, ◌==◌, ltb, lt→ltb,
  if◌then◌else◌, length, Bool-cases,
}
use tftpcpd.Daemon.Signal.{Signal, LogEvent}
use tftpcpd.Daemon.State.{
  Routine, server, database, logger, Call, send, receive, log, cancel, wait_sessions, clean_up,
  Child, Command, send_to, receive_from, close_log, Main, selecting, stopping, exited, impossible,
  System, place, with_child, is_ended, quiet, log_room, channel_room,
}
use tftpcpd.Daemon.Step.{
  Read, timed_out, read_failed, datagram_read, Event, interrupt, main_steps, database_wakes,
  logger_looks, logger_peeks, main_selects, server_reads, routine_steps, session_steps, push_log,
  call_next, at_loop, leaves, accepting, read_next, wake_next, look_next, advance, peek_next,
  next_event, session_next, all_ended, command_next, main_next, is_selecting, is_over, alive_next,
  act,
}
use tftpcpd.Daemon.Balance.{
  bit, sends, receives, is_orderly, command_sends, command_receives, is_same, main_sends,
  main_receives, child_sends, child_receives, Balanced,
}
use tftpcpd.Daemon.Invariant.{IsSound, closes, main_closes, is_late, is_late_main, is_possible}
use tftpcpd.Daemon.Weight.{is_busy, is_empty}
use tftpcpd.Daemon.Draining.{Reads, IsDraining}

-- Some step brings the daemon nearer to its end.
abbrev pub GoesOn : System → Type 0
GoesOn s = (ev : Event) × (t : System) × (is_busy ev s ≡ true) × (act ev s ≡ some t)

pub empty-or-not : {A : Type 0} (l : List A) → (l ≡ []) ⊎ ((x : A) × (m : List A) × (l ≡ x ∷ m))
empty-or-not [] = inl refl
empty-or-not (x ∷ m) = inr (x, m, refl)

quiet-or-event :
    (l : List (List LogEvent))
    → (quiet l ≡ true) ⊎ ((i : ℕ) × (e : LogEvent) × (next_event i l ≡ some e))
quiet-or-event [] = inl refl
quiet-or-event ([] ∷ l) = elim (quiet-or-event l) [
  | inl h ↦ inl h
  | inr (i, e, h) ↦ inr (suc i, e, h)
]
quiet-or-event ((x ∷ xs) ∷ l) = inr (zero, x, refl)

at_loop_todo : (c : Child) → at_loop c ≡ true → (c.todo ≡ []) × (c.loops ≡ true)
at_loop_todo c h = go c.todo c.loops h
  where
    go :
        (l : List Call) (b : Bool)
        → elim l [ [] ↦ b | ◌∷◌ x m ↦ false ] ≡ true
        → (l ≡ []) × (b ≡ true)
    go [] b h = (refl, h)
    go (x ∷ m) b h = absurd (ground arith)

todo-at_loop : (c : Child) → c.todo ≡ [] → c.loops ≡ true → at_loop c ≡ true
todo-at_loop c e h = go c.todo c.loops e h
  where
    go : (l : List Call) (b : Bool) → l ≡ [] → b ≡ true → elim l [ [] ↦ b | ◌∷◌ x m ↦ false ] ≡ true
    go [] b e h = h
    go (x ∷ m) b e h = absurd (ground arith)

module _ (s : System) (alive : is_over s ≡ false) (d : IsDraining s) where
  pub goes : (ev : Event) (t : System) → is_busy ev s ≡ true → alive_next ev s ≡ some t → GoesOn s
  unfolding act
  goes ev t b h = (ev, t, b, rw alive h)

  -- The logger reads an open log.
  log-GoesOn : (e : LogEvent) (l : List LogEvent) → s.log ≡ e ∷ l → s.log_open ≡ true → GoesOn s
  unfolding alive_next
  log-GoesOn e l n h = elim (Bool-cases s.peeking) [
    | inl peeks ↦
        goes logger_peeks (peek_next (s.child logger) (s.child logger).inbox s) refl
          (rw ((d.reads h).loops, peeks) refl)
    | inr looks ↦
        goes logger_looks (look_next s.log (s.child logger) s)
          (ap (λ x. not (is_empty x) || not s.log_open) n) (rw ((d.reads h).loops, looks) refl)
  ]

  -- A goroutine that logs.
  push_log-GoesOn :
      (ev : Event) (e : LogEvent) (u : System)
      → is_busy ev s ≡ true
      → alive_next ev s ≡ push_log e u
      → u.log ≡ s.log
      → u.log_open ≡ s.log_open
      → GoesOn s
  unfolding push_log
  push_log-GoesOn ev e u b h l o = elim (Bool-cases s.log_open) [
    | inr closed ↦ goes ev (record u { crashed = true }) b (h ∙ (rw (o ∙ closed) refl))
    | inl open_log ↦ elim (Bool-cases (ltb (length s.log) log_room)) [
      | inl room ↦
          goes ev (record u { log = u.log ++ (e ∷ []) }) b (h ∙ (rw (o ∙ open_log, l, room) refl))
      | inr full ↦ elim (empty-or-not s.log) [
        | inl empty ↦ absurd (none-full s.log empty full)
        | inr (x, m, some_event) ↦ log-GoesOn x m some_event open_log
      ]
    ]
  ]
    where
      none-full : (q : List LogEvent) → q ≡ [] → ltb (length q) log_room ≡ false → ⊥
      none-full [] k m = ground arith
      none-full (x ∷ q) k m = ground arith

  -- The sessions, while one of them has something to log.
  session-GoesOn : (i : ℕ) (e : LogEvent) → next_event i s.sessions ≡ some e → GoesOn s
  unfolding alive_next session_next
  session-GoesOn i e h =
      push_log-GoesOn (session_steps i) e (record s { sessions = advance i s.sessions }) refl
        (rw h refl) refl refl

  -- A routine that has a call to make.
  pub call-GoesOn :
      (r : Routine) (call : Call) (l : List Call)
      → (s.child r).todo ≡ call ∷ l
      → (s.child r).outbox ≡ []
      → (call ≡ receive → (sig : Signal) × (rest : List Signal) × ((s.child r).inbox ≡ sig ∷ rest))
      → GoesOn s
  unfolding alive_next call_next
  call-GoesOn r (send sig) l e o k =
      goes (routine_steps r)
        (with_child r (record (s.child r) { todo = l; outbox = (s.child r).outbox ++ (sig ∷ []) })
          s)
        refl (next e ∙ (rw o refl))
    where
      next :
          {x : List Call}
          → (s.child r).todo ≡ x
          → call_next r (s.child r) (s.child r).todo s ≡ call_next r (s.child r) x s
      next k = ap (λ x. call_next r (s.child r) x s) k
  call-GoesOn r receive l e o k =
      let (sig, rest, has) = k refl in
      goes (routine_steps r) (with_child r (record (s.child r) { todo = l; inbox = rest }) s) refl
        (ap (λ x. call_next r (s.child r) x s) e ∙ (rw has refl))
  call-GoesOn r (log x) l e o k =
      push_log-GoesOn (routine_steps r) x (with_child r (record (s.child r) { todo = l }) s) refl
        (ap (λ x. call_next r (s.child r) x s) e) refl refl
  call-GoesOn r cancel l e o k =
      goes (routine_steps r) (with_child r (record (s.child r) { todo = l }) s) refl
        (ap (λ x. call_next r (s.child r) x s) e)
  call-GoesOn r wait_sessions l e o k = elim (quiet-or-event s.sessions) [
    | inl h ↦
        goes (routine_steps r) (with_child r (record (s.child r) { todo = l }) s) refl
          (ap (λ x. call_next r (s.child r) x s) e ∙ (rw h refl))
    | inr (i, x, h) ↦ session-GoesOn i x h
  ]
  call-GoesOn r clean_up l e o k =
      goes (routine_steps r) (with_child r (record (s.child r) { todo = l }) s) refl
        (ap (λ x. call_next r (s.child r) x s) e)

  -- A routine at its loop that was told to end.
  pub loop-GoesOn :
      (r : Routine) (sig : Signal) (rest : List Signal)
      → at_loop (s.child r) ≡ true
      → (s.child r).inbox ≡ sig ∷ rest
      → GoesOn s
  unfolding alive_next wake_next
  loop-GoesOn server sig rest h e =
      goes (server_reads timed_out) (read_next timed_out (s.child server) (s.child server).inbox s)
        (ap (λ x. not (is_empty x) || false) e) (rw h refl)
  loop-GoesOn database sig rest h e =
      goes database_wakes
        (with_child database (leaves (s.child database) (accepting sig (clean_up ∷ [])) rest) s)
        refl (rw h (ap (λ x. wake_next (s.child database) x s) e))
  loop-GoesOn logger sig rest h e = elim (Bool-cases s.peeking) [
    | inl peeks ↦
        goes logger_peeks (peek_next (s.child logger) (s.child logger).inbox s) refl
          (rw (h, peeks) refl)
    | inr looks ↦
        goes logger_looks (look_next s.log (s.child logger) s) (told s.log_open refl)
          (rw (h, looks) refl)
  ]
    where
      told : (b : Bool) → s.log_open ≡ b → not (is_empty s.log) || not b ≡ true
      told true k = absurd (full (sym e ∙ (d.reads k).told_nothing))
        where
          full : sig ∷ rest ≡ [] → ⊥
          full m = ground arith
      told false k = ground arith
