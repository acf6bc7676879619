-- ===== src/Daemon/Balance.antt =====
-- What `main` and one routine still have to send to each other and to receive.
pub mod Moves
use tftpcpd.Base.{
  ℕ, zero, suc, ◌+◌, ◌≤◌, Bool, true, false, not, ◌&&◌, List, [], ◌∷◌, ◌++◌, ◌≡◌, ◌≢◌, refl, arith,
  ◌==◌, if◌then◌else◌, length, length-append, All, All-append,
}
use tftpcpd.Daemon.Signal.{
  Signal, new_signal, signal_terminate, signal_request, signal_accept, LogEvent,
}
use tftpcpd.Daemon.State.{
  Routine, server, database, logger, Call, send, receive, log, cancel, wait_sessions, clean_up,
  Child, Command, send_to, receive_from, close_log, Main, selecting, stopping, exited, impossible,
  terminate,
}
use tftpcpd.Daemon.Step.{at_loop, leaves, accepting, asking, is_selecting}

abbrev pub bit : Bool → ℕ
bit true = 1
bit false = 0

abbrev pub sends : List Call → ℕ
sends [] = 0
sends (send sig ∷ l) = suc (sends l)
sends (receive ∷ l) = sends l
sends (log e ∷ l) = sends l
sends (cancel ∷ l) = sends l
sends (wait_sessions ∷ l) = sends l
sends (clean_up ∷ l) = sends l

abbrev pub receives : List Call → ℕ
receives [] = 0
receives (send sig ∷ l) = receives l
receives (receive ∷ l) = suc (receives l)
receives (log e ∷ l) = receives l
receives (cancel ∷ l) = receives l
receives (wait_sessions ∷ l) = receives l
receives (clean_up ∷ l) = receives l

-- After a wait for something nothing more is sent.
abbrev pub is_orderly : List Call → Bool
is_orderly [] = true
is_orderly (send sig ∷ l) = is_orderly l
is_orderly (receive ∷ l) = sends l == 0 && is_orderly l
is_orderly (log e ∷ l) = is_orderly l
is_orderly (cancel ∷ l) = is_orderly l
is_orderly (wait_sessions ∷ l) = (sends l + receives l == 0) && is_orderly l
is_orderly (clean_up ∷ l) = is_orderly l

-- A routine sends and receives one signal before it ends.
abbrev pub child_sends : Child → ℕ
child_sends c = bit c.loops + sends c.todo

abbrev pub child_receives : Child → ℕ
child_receives c = bit c.loops + receives c.todo

abbrev pub is_same : Routine → Routine → Bool
is_same server server = true
is_same database database = true
is_same logger logger = true
is_same q r = false

abbrev pub command_sends : Routine → List Command → ℕ
command_sends r [] = 0
command_sends r (send_to q sig ∷ l) = bit (is_same q r) + command_sends r l
command_sends r (receive_from q ∷ l) = command_sends r l
command_sends r (close_log ∷ l) = command_sends r l

abbrev pub command_receives : Routine → List Command → ℕ
command_receives r [] = 0
command_receives r (send_to q sig ∷ l) = command_receives r l
command_receives r (receive_from q ∷ l) = bit (is_same q r) + command_receives r l
command_receives r (close_log ∷ l) = command_receives r l

abbrev pub main_sends : Routine → Main → ℕ
main_sends r selecting = 1
main_sends r (stopping code l) = command_sends r l
main_sends r (exited code) = 0
main_sends r impossible = 0

abbrev pub main_receives : Routine → Main → ℕ
main_receives r selecting = 1
main_receives r (stopping code l) = command_receives r l
main_receives r (exited code) = 0
main_receives r impossible = 0

abbrev pub IsTerminate : Signal → Type 0
IsTerminate sig = sig.kind ≡ signal_terminate

abbrev pub SendsTerminate : List Call → Type 0
SendsTerminate [] = Unit
SendsTerminate (send sig ∷ l) = IsTerminate sig × SendsTerminate l
SendsTerminate (receive ∷ l) = SendsTerminate l
SendsTerminate (log e ∷ l) = SendsTerminate l
SendsTerminate (cancel ∷ l) = SendsTerminate l
SendsTerminate (wait_sessions ∷ l) = SendsTerminate l
SendsTerminate (clean_up ∷ l) = SendsTerminate l

-- What is sent is received: the books of `main` and the routine `r` agree.
pub record Balanced (r : Routine) (m : Main) (c : Child) : Type 0 where
  pub inbox : main_sends r m + length c.inbox ≡ child_receives c
  pub outbox : child_sends c + length c.outbox ≡ main_receives r m
  pub once : child_receives c ≤ 1
  pub asks_once : main_receives r m ≤ 1
  pub order : is_orderly c.todo ≡ true
  pub kinds : is_selecting m ≡ true → All IsTerminate c.outbox × SendsTerminate c.todo

length_one : (l : List Signal) (sig : Signal) → length (l ++ (sig ∷ [])) ≡ suc (length l)
length_one l sig = omega (arith, length-append l (sig ∷ []))

-- The steps of the routine.
module _ (r : Routine) (m : Main) (loops : Bool) (inbox outbox : List Signal) where
  abbrev stands : List Call → Child
  stands todo = record { todo = todo; loops = loops; inbox = inbox; outbox = outbox }

  pub send-Balanced :
      (sig : Signal) (later : List Call)
      → Balanced r m (stands (send sig ∷ later))
      → Balanced r m (record (stands later) { outbox = outbox ++ (sig ∷ []) })
  send-Balanced sig later b = record {
    inbox = b.inbox;
    outbox = omega (arith, b.outbox, length_one outbox sig);
    once = b.once;
    asks_once = b.asks_once;
    order = b.order;
    kinds = λ h. (
      All-append IsTerminate outbox (sig ∷ []) (b.kinds h).0 ((b.kinds h).1.0, tt),
      (b.kinds h).1.1,
    );
  }

  pub log-Balanced :
      (e : LogEvent) (later : List Call)
      → Balanced r m (stands (log e ∷ later))
      → Balanced r m (stands later)
  log-Balanced e later b = record {
    inbox = b.inbox;
    outbox = b.outbox;
    once = b.once;
    asks_once = b.asks_once;
    order = b.order;
    kinds = b.kinds;
  }

  pub cancel-Balanced :
      (later : List Call) → Balanced r m (stands (cancel ∷ later)) → Balanced r m (stands later)
  cancel-Balanced later b = record {
    inbox = b.inbox;
    outbox = b.outbox;
    once = b.once;
    asks_once = b.asks_once;
    order = b.order;
    kinds = b.kinds;
  }

  pub clean_up-Balanced :
      (later : List Call) → Balanced r m (stands (clean_up ∷ later)) → Balanced r m (stands later)
  clean_up-Balanced later b = record {
    inbox = b.inbox;
    outbox = b.outbox;
    once = b.once;
    asks_once = b.asks_once;
    order = b.order;
    kinds = b.kinds;
  }

  pub wait-Balanced :
      (later : List Call)
      → Balanced r m (stands (wait_sessions ∷ later))
      → Balanced r m (stands later)
  wait-Balanced later b = record {
    inbox = b.inbox;
    outbox = b.outbox;
    once = b.once;
    asks_once = b.asks_once;
    order = second (sends later + receives later == 0) (is_orderly later) b.order;
    kinds = b.kinds;
  }
    where
      second : (x y : Bool) → x && y ≡ true → y ≡ true
      second x y h = ground arith

module _ (r : Routine) (m : Main) (outbox : List Signal) where
  pub receive-Balanced :
      (loops : Bool) (sig : Signal) (rest : List Signal) (later : List Call)
      → Balanced r m
          (record { todo = receive ∷ later; loops = loops; inbox = sig ∷ rest; outbox = outbox })
      → Balanced r m (record { todo = later; loops = loops; inbox = rest; outbox = outbox })
  receive-Balanced loops sig rest later b =
      let count = b.inbox in
      let once = b.once in
      record {
        inbox = omega (arith, count);
        outbox = b.outbox;
        once = omega (arith, once);
        asks_once = b.asks_once;
        order = second (sends later == 0) (is_orderly later) b.order;
        kinds = b.kinds;
      }
    where
      second : (x y : Bool) → x && y ≡ true → y ≡ true
      second x y h = ground arith

  -- The routine takes the signal to end, with the calls that it still makes after its answer.
  pub accepting-Balanced :
      (sig : Signal) (rest : List Signal) (later : List Call)
      → sends later ≡ 0
      → receives later ≡ 0
      → is_orderly later ≡ true
      → Balanced r m (record { todo = []; loops = true; inbox = sig ∷ rest; outbox = outbox })
      → Balanced r m
          (record { todo = accepting sig later; loops = false; inbox = rest; outbox = outbox })
  accepting-Balanced sig rest later s k o b =
      let count = b.inbox in
      let out = b.outbox in
      record {
        inbox = omega (arith, count, k);
        outbox = omega (arith, out, s);
        once = omega (arith, k);
        asks_once = b.asks_once;
        order = o;
        kinds = λ h. absurd (busy m h count);
      }
    where
      busy : (n : Main) → is_selecting n ≡ true → main_sends r n + suc (length rest) ≡ 1 → ⊥
      busy n h count = ground arith

  -- The routine asks to end.
  pub asking-Balanced :
      (inbox : List Signal) (later : List Call)
      → sends later ≡ 0
      → receives later ≡ 0
      → is_orderly later ≡ true
      → Balanced r m (record { todo = []; loops = true; inbox = inbox; outbox = outbox })
      → Balanced r m (record { todo = asking later; loops = false; inbox = inbox; outbox = outbox })
  asking-Balanced inbox later s k o b =
      let count = b.inbox in
      let out = b.outbox in
      record {
        inbox = omega (arith, count, k);
        outbox = omega (arith, out, s);
        once = omega (arith, k);
        asks_once = b.asks_once;
        order = both (sends later) (is_orderly later) s o;
        kinds = λ h. ((b.kinds h).0, (refl, terminates later s));
      }
    where
      both : (n : ℕ) (x : Bool) → n ≡ 0 → x ≡ true → (n == 0) && x ≡ true
      both n x h k = ground arith

      terminates : (l : List Call) → sends l ≡ 0 → SendsTerminate l
      terminates [] h = tt
      terminates (send x ∷ l) h = absurd (omega (arith, h))
      terminates (receive ∷ l) h = terminates l h
      terminates (log e ∷ l) h = terminates l h
      terminates (cancel ∷ l) h = terminates l h
      terminates (wait_sessions ∷ l) h = terminates l h
      terminates (clean_up ∷ l) h = terminates l h
