-- ===== src/Daemon/Weight/Falls.antt =====
-- The steps of `main`, and every step.
use tftpcpd.Base.{
  ℕ, suc, ◌≤◌, ◌<◌, Bool, true, false, not, ◌&&◌, List, [], ◌∷◌, ◌++◌, some, ◌≡◌, refl, ap, subst,
  arith, ltb, if◌then◌else◌, length,
}
use tftpcpd.Daemon.Signal.{Signal}
use tftpcpd.Daemon.State.{
  Routine, server, database, logger, Child, Command, send_to, receive_from, close_log, Main,
  selecting, stopping, exited, impossible, System, with_child, on_interrupt, on_signal, on_server,
  on_database, on_logger, channel_room,
}
use tftpcpd.Daemon.Step.{
  Source, from_interrupt, from_child, Event, interrupt, main_steps, database_wakes, logger_looks,
  logger_peeks, main_selects, server_reads, routine_steps, session_steps, at_loop, next_event,
  select_next, all_ended, command_next, main_next, is_selecting, alive_next, act,
}
use tftpcpd.Daemon.Keeps.{Keeps, if-Keeps, taken-Keeps, act-Keeps}
use tftpcpd.Daemon.Balance.{bit}
use tftpcpd.Daemon.Invariant.{IsSound, closes, main_closes}
use tftpcpd.Daemon.Weight.{
  is_busy, weight, main_weight, child_weight, children_weight-place, Less, call_next-Less,
  read_next-Less, wake_next-Less, look_next-Less, peek_next-Less, session_next-Less,
}

-- `main` goes on, and a channel of a routine changes.
main-Less :
    (r : Routine) (c : Child) (m : Main) (s : System)
    → child_weight c ≡ child_weight (s.child r)
    → main_weight m < main_weight s.main
    → Less s (record (with_child r c s) { main = m })
main-Less r c m s e h = let p = children_weight-place r c s.child in omega (arith, p, e, h)

command_next-Less :
    (code : ℕ) (todo : List Command) (s : System)
    → s.main ≡ stopping code todo
    → bit s.log_open ≡ closes todo
    → Keeps (Less s) (command_next code todo s)
unfolding command_next
command_next-Less code [] s e k =
    if-Keeps (Less s) (all_ended s) _
      (λ h. let w : main_weight s.main ≡ 1 = ap main_weight e in omega (arith, w))
command_next-Less code (send_to q sig ∷ todo) s e k =
    if-Keeps (Less s) (ltb (length (s.child q).inbox) channel_room) _ (λ h.
      let w : main_weight s.main ≡ suc (suc (length todo)) = ap main_weight e in
      main-Less q (record (s.child q) { inbox = (s.child q).inbox ++ (sig ∷ []) })
        (stopping code todo) s refl (omega (arith, w)))
command_next-Less code (receive_from q ∷ todo) s e k =
    taken-Keeps (Less s) (s.child q).outbox
      (λ sig rest. record (with_child q (record (s.child q) { outbox = rest }) s) {
        main = stopping code todo;
      })
      (λ sig rest.
        main-Less q (record (s.child q) { outbox = rest }) (stopping code todo) s refl
          (omega (arith, w)))
  where
    w : main_weight s.main ≡ suc (suc (length todo))
    w = ap main_weight e
command_next-Less code (close_log ∷ todo) s e k = go s.log_open k
  where
    w : main_weight s.main ≡ suc (suc (length todo))
    w = ap main_weight e

    go :
        (d : Bool)
        → bit d ≡ suc (closes todo)
        → Keeps (Less s) (
            if d
            then some (record s { log_open = false; main = stopping code todo })
            else some (record s { crashed = true }))
    go true h = omega (arith, w)
    go false h = absurd (omega (arith, h))

main_next-Less : (m : Main) (s : System) → s.main ≡ m → IsSound s → Keeps (Less s) (main_next m s)
unfolding main_next
main_next-Less selecting s e i = tt
main_next-Less (stopping code todo) s e i =
    command_next-Less code todo s e (subst (λ m. bit s.log_open ≡ main_closes m) e i.closing)
main_next-Less (exited code) s e i = tt
main_next-Less impossible s e i = tt

on_signal_weight : (r : Routine) (sig : Signal) → main_weight (on_signal r sig) ≤ 8
unfolding on_server on_database on_logger
on_signal_weight server sig = ground arith
on_signal_weight database sig = ground arith
on_signal_weight logger sig = ground arith

select_next-Less :
    (source : Source) (s : System) → main_weight s.main ≡ 10 → Keeps (Less s) (select_next source s)
unfolding select_next on_interrupt
select_next-Less from_interrupt s w = if-Keeps (Less s) s.interrupted _ (λ h. omega (arith, w))
select_next-Less (from_child q) s w =
    taken-Keeps (Less s) (s.child q).outbox
      (λ sig rest. record (with_child q (record (s.child q) { outbox = rest }) s) {
        main = on_signal q sig;
      })
      (λ sig rest.
        let n = on_signal_weight q sig in
        main-Less q (record (s.child q) { outbox = rest }) (on_signal q sig) s refl
          (omega (arith, w, n)))

selecting_weight : (m : Main) → is_selecting m ≡ true → main_weight m ≡ 10
selecting_weight m h = ground arith

first : (a b : Bool) → a && b ≡ true → a ≡ true
first a b k = ground arith

second : (a b : Bool) → a && b ≡ true → b ≡ true
second a b k = ground arith

alive_next-Less :
    (ev : Event) (s : System) → IsSound s → is_busy ev s ≡ true → Keeps (Less s) (alive_next ev s)
unfolding alive_next
alive_next-Less interrupt s i b = absurd (ground arith)
alive_next-Less (main_selects source) s i b =
    if-Keeps (Less s) (is_selecting s.main) _
      (λ h. select_next-Less source s (selecting_weight s.main h))
alive_next-Less main_steps s i b = main_next-Less s.main s refl i
alive_next-Less (server_reads read) s i b =
    if-Keeps (Less s) (at_loop (s.child server)) _
      (λ h. read_next-Less read (s.child server).inbox s h b)
alive_next-Less database_wakes s i b =
    if-Keeps (Less s) (at_loop (s.child database)) _
      (λ h. wake_next-Less (s.child database).inbox s h)
alive_next-Less logger_looks s i b =
    if-Keeps (Less s) (at_loop (s.child logger) && not s.peeking) _
      (λ h. look_next-Less s.log s (first (at_loop (s.child logger)) (not s.peeking) h) refl b)
alive_next-Less logger_peeks s i b =
    if-Keeps (Less s) (at_loop (s.child logger) && s.peeking) _ (λ h.
      peek_next-Less (s.child logger).inbox s (first (at_loop (s.child logger)) s.peeking h)
        (second (at_loop (s.child logger)) s.peeking h))
alive_next-Less (routine_steps r) s i b = call_next-Less r (s.child r).todo (s.child r) s refl refl
alive_next-Less (session_steps n) s i b = session_next-Less (next_event n s.sessions) n s refl

pub act-Less :
    (ev : Event) (s t : System)
    → IsSound s
    → is_busy ev s ≡ true
    → act ev s ≡ some t
    → weight t < weight s
act-Less ev s t i b h = (act-Keeps (Less s) ev s t (alive_next-Less ev s i b) h).0
