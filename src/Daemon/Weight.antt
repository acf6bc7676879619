-- ===== src/Daemon/Weight.antt =====
-- How much the daemon still has to do before it ends, and which steps do some of it.
pub mod Falls
use tftpcpd.Base.{
  ℕ, zero, suc, ◌+◌, ◌*◌, ◌≤◌, ◌<◌, Bool, true, false, not, ◌&&◌, ◌||◌, List, [], ◌∷◌, ◌++◌, Option,
  none, some, ◌≡◌, ◌≢◌, refl, sym, ap, subst, ◌∙◌, arith, ◌==◌, ltb, if◌then◌else◌, length,
  length-append, Bool-cases,
}
use tftpcpd.Daemon.Signal.{Signal, LogEvent}
use tftpcpd.Daemon.State.{
  Routine, server, database, logger, Call, send, receive, log, cancel, wait_sessions, clean_up,
  Child, Command, send_to, receive_from, close_log, Main, selecting, stopping, exited, impossible,
  System, place, with_child, is_ended, quiet, on_interrupt, on_signal, on_server, on_database,
  on_logger, log_room, channel_room,
}
use tftpcpd.Daemon.Step.{
  Source, from_interrupt, from_child, Read, timed_out, read_failed, datagram_read, Event, interrupt,
  main_steps, database_wakes, logger_looks, logger_peeks, main_selects, server_reads, routine_steps,
  session_steps, push_log, call_next, at_loop, leaves, accepting, asking, read_next, wake_next,
  look_next, peek_next, next_event, advance, session_next, select_next, all_ended, command_next,
  main_next, is_selecting, is_over, alive_next, act,
}
use tftpcpd.Daemon.Keeps.{Keeps, if-Keeps, taken-Keeps, act-Keeps}
use tftpcpd.Daemon.Balance.{bit}
use tftpcpd.Daemon.Invariant.{IsSound, closes, main_closes}

abbrev pub is_empty {ℓ} : {A : Type ℓ} → List A → Bool
is_empty [] = true
is_empty (x ∷ l) = false

abbrev pub is_failure : Read → Bool
is_failure read_failed = true
is_failure _ = false

-- The step brings the daemon nearer to its end.
abbrev pub is_busy : Event → System → Bool
is_busy interrupt s = false
is_busy (main_selects source) s = true
is_busy main_steps s = true
is_busy (server_reads read) s = not (is_empty (s.child server).inbox) || is_failure read
is_busy database_wakes s = true
is_busy logger_looks s = not (is_empty s.log) || not s.log_open
is_busy logger_peeks s = true
is_busy (routine_steps r) s = true
is_busy (session_steps i) s = true

abbrev pub main_weight : Main → ℕ
main_weight selecting = 10
main_weight (stopping code l) = suc (length l)
main_weight (exited code) = 0
main_weight impossible = 0

abbrev pub calls_weight : List Call → ℕ
calls_weight [] = 0
calls_weight (send sig ∷ l) = 1 + calls_weight l
calls_weight (receive ∷ l) = 1 + calls_weight l
calls_weight (log e ∷ l) = 2 + calls_weight l
calls_weight (cancel ∷ l) = 1 + calls_weight l
calls_weight (wait_sessions ∷ l) = 1 + calls_weight l
calls_weight (clean_up ∷ l) = 1 + calls_weight l

abbrev pub child_weight : Child → ℕ
child_weight c = 10 * bit c.loops + calls_weight c.todo

abbrev pub sessions_weight : List (List LogEvent) → ℕ
sessions_weight [] = 0
sessions_weight (x ∷ l) = 2 * length x + sessions_weight l

abbrev pub children_weight : (Routine → Child) → ℕ
children_weight f = child_weight (f server) + child_weight (f database) + child_weight (f logger)

abbrev pub weight : System → ℕ
weight s =
    main_weight s.main
    + children_weight s.child
    + sessions_weight s.sessions
    + length s.log
    + bit s.peeking

pub children_weight-place :
    (r : Routine) (c : Child) (f : Routine → Child)
    → children_weight (place r c f) + child_weight (f r) ≡ children_weight f + child_weight c
children_weight-place server c f = omega arith
children_weight-place database c f = omega arith
children_weight-place logger c f = omega arith

-- Another child that has less to do.
abbrev pub Less : System → System → Type 0
Less s t = weight t < weight s

place-Less :
    (r : Routine) (c : Child) (s : System)
    → child_weight c < child_weight (s.child r)
    → Less s (with_child r c s)
place-Less r c s h = let e = children_weight-place r c s.child in omega (arith, e, h)

-- What is logged weighs less than the call.
push_log-Less :
    (e : LogEvent) (s t : System) → weight t + 2 ≤ weight s → Keeps (Less s) (push_log e t)
unfolding push_log
push_log-Less e s t h = go t.log_open (ltb (length t.log) log_room)
  where
    go :
        (b d : Bool)
        → Keeps (Less s) (
            if b
            then if d then some (record t { log = t.log ++ (e ∷ []) }) else none
            else some (record t { crashed = true }))
    go true true = let more = length-append t.log (e ∷ []) in omega (arith, h, more)
    go true false = tt
    go false d = omega (arith, h)

pub call_next-Less :
    (r : Routine) (todo : List Call) (c : Child) (s : System)
    → s.child r ≡ c
    → c.todo ≡ todo
    → Keeps (Less s) (call_next r c todo s)
unfolding call_next
call_next-Less r todo c s e k =
    go todo (ap (λ (x : Child). child_weight x) e ∙ ap (λ l. 10 * bit c.loops + calls_weight l) k)
  where
    go :
        (l : List Call)
        → child_weight (s.child r) ≡ 10 * bit c.loops + calls_weight l
        → Keeps (Less s) (call_next r c l s)
    go [] w = tt
    go (send sig ∷ l) w =
        if-Keeps (Less s) (ltb (length c.outbox) channel_room) _
          (λ h. place-Less r _ s (omega (arith, w)))
    go (receive ∷ l) w =
        elim c.inbox
          as (λ x. Keeps (Less s) (elim x [
            | [] ↦ none
            | ◌∷◌ sig rest ↦ some (with_child r (record c { todo = l; inbox = rest }) s)
          ])) [ [] ↦ tt | ◌∷◌ sig rest ↦ place-Less r _ s (omega (arith, w)) ]
    go (log x ∷ l) w =
        let moved = children_weight-place r (record c { todo = l }) s.child in
        push_log-Less x s (with_child r (record c { todo = l }) s) (omega (arith, w, moved))
    go (cancel ∷ l) w = place-Less r _ s (omega (arith, w))
    go (wait_sessions ∷ l) w =
        if-Keeps (Less s) (quiet s.sessions) _ (λ h. place-Less r _ s (omega (arith, w)))
    go (clean_up ∷ l) w = place-Less r _ s (omega (arith, w))

-- A routine that leaves its loop.
leaves-Less :
    (r : Routine) (todo : List Call) (rest : List Signal) (s : System)
    → at_loop (s.child r) ≡ true
    → calls_weight todo ≤ 5
    → Less s (with_child r (leaves (s.child r) todo rest) s)
leaves-Less r todo rest s h k =
    place-Less r _ s
      (let w = loop_weight (s.child r).todo (s.child r).loops h in omega (arith, w, k))
  where
    loop_weight :
        (l : List Call) (b : Bool)
        → elim l [ [] ↦ b | ◌∷◌ call later ↦ false ] ≡ true
        → 10 * bit b + calls_weight l ≡ 10
    loop_weight [] true h = refl
    loop_weight [] false h = absurd (ground arith)
    loop_weight (call ∷ l) b h = absurd (ground arith)

pub read_next-Less :
    (read : Read) (inbox : List Signal) (s : System)
    → at_loop (s.child server) ≡ true
    → not (is_empty inbox) || is_failure read ≡ true
    → Less s (read_next read (s.child server) inbox s)
unfolding read_next
read_next-Less read (sig ∷ rest) s h b =
    leaves-Less server (accepting sig (cancel ∷ wait_sessions ∷ [])) rest s h (omega arith)
read_next-Less timed_out [] s h b = absurd (ground arith)
read_next-Less read_failed [] s h b =
    leaves-Less server (asking (cancel ∷ wait_sessions ∷ [])) [] s h (omega arith)
read_next-Less (datagram_read events) [] s h b = absurd (ground arith)

pub wake_next-Less :
    (inbox : List Signal) (s : System)
    → at_loop (s.child database) ≡ true
    → Keeps (Less s) (wake_next (s.child database) inbox s)
unfolding wake_next
wake_next-Less [] s h = tt
wake_next-Less (sig ∷ rest) s h =
    leaves-Less database (accepting sig (clean_up ∷ [])) rest s h (omega arith)

pub look_next-Less :
    (events : List LogEvent) (s : System)
    → at_loop (s.child logger) ≡ true
    → s.log ≡ events
    → not (is_empty events) || not s.log_open ≡ true
    → Less s (look_next events (s.child logger) s)
unfolding look_next
look_next-Less (x ∷ rest) s h e b =
    let n : length s.log ≡ suc (length rest) = ap length e in omega (arith, n)
look_next-Less [] s h e b = go s.log_open b
  where
    go :
        (d : Bool)
        → not d ≡ true
        → Less s (
            if d
            then record s { peeking = true }
            else with_child logger (leaves (s.child logger) (asking []) (s.child logger).inbox) s)
    go true k = absurd (ground arith)
    go false k = leaves-Less logger (asking []) (s.child logger).inbox s h (omega arith)

pub peek_next-Less :
    (inbox : List Signal) (s : System)
    → at_loop (s.child logger) ≡ true
    → s.peeking ≡ true
    → Less s (peek_next (s.child logger) inbox s)
unfolding peek_next
peek_next-Less [] s h b = let w : bit s.peeking ≡ 1 = ap bit b in omega (arith, w)
peek_next-Less (sig ∷ rest) s h b =
    let w : bit s.peeking ≡ 1 = ap bit b in
    let less = leaves-Less logger (accepting sig []) rest s h (omega arith) in
    omega (arith, w, less)

advance_weight :
    (i : ℕ) (l : List (List LogEvent)) (e : LogEvent)
    → next_event i l ≡ some e
    → sessions_weight (advance i l) + 2 ≡ sessions_weight l
advance_weight i [] e h = absurd (none-ne-some i e h)
  where
    none-ne-some : (i : ℕ) (e : LogEvent) → next_event i [] ≡ some e → ⊥
    none-ne-some zero e h = ground arith
    none-ne-some (suc i) e h = ground arith
advance_weight zero ([] ∷ l) e h = absurd (ground arith)
advance_weight zero ((x ∷ xs) ∷ l) e h = omega arith
advance_weight (suc i) (x ∷ l) e h = let rest = advance_weight i l e h in omega (arith, rest)

pub session_next-Less :
    (o : Option LogEvent) (i : ℕ) (s : System)
    → next_event i s.sessions ≡ o
    → Keeps (Less s) (session_next o i s)
unfolding session_next
session_next-Less none i s h = tt
session_next-Less (some e) i s h =
    let w = advance_weight i s.sessions e h in
    push_log-Less e s (record s { sessions = advance i s.sessions }) (omega (arith, w))
