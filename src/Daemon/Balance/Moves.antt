-- ===== src/Daemon/Balance/Moves.antt =====
-- The books of `main` and a routine at each step of `main`.
use tftpcpd.Base.{ℕ, true, false, List, [], ◌∷◌, ◌++◌, ◌≡◌, refl, arith}
use tftpcpd.Daemon.Signal.{Signal}
use tftpcpd.Daemon.State.{
  Routine, server, database, logger, Child, Command, send_to, receive_from, close_log, Main,
  selecting, stopping, exited, terminate, on_interrupt, on_server, on_database, on_logger,
  on_signal,
}
use tftpcpd.Daemon.Step.{is_selecting}
use tftpcpd.Daemon.Balance.{
  bit, is_same, main_sends, main_receives, IsTerminate, Balanced, length_one,
}

is_same_refl : (r : Routine) → is_same r r ≡ true
is_same_refl server = refl
is_same_refl database = refl
is_same_refl logger = refl

bit_same : (r : Routine) → bit (is_same r r) ≡ 1
bit_same server = refl
bit_same database = refl
bit_same logger = refl

module _ (code : ℕ) (later : List Command) where
  pub send_to-Balanced :
      (r : Routine) (sig : Signal) (c : Child)
      → Balanced r (stopping code (send_to r sig ∷ later)) c
      → Balanced r (stopping code later) (record c { inbox = c.inbox ++ (sig ∷ []) })
  send_to-Balanced r sig c b = record {
    inbox = omega (arith, b.inbox, bit_same r, length_one c.inbox sig);
    outbox = b.outbox;
    once = b.once;
    asks_once = b.asks_once;
    order = b.order;
    kinds = λ h. absurd (ground arith);
  }

  pub send_to-Balanced_other :
      (r q : Routine) (sig : Signal) (c : Child)
      → is_same q r ≡ false
      → Balanced r (stopping code (send_to q sig ∷ later)) c
      → Balanced r (stopping code later) c
  send_to-Balanced_other r q sig c e b = record {
    inbox = let count = b.inbox in ground arith;
    outbox = b.outbox;
    once = b.once;
    asks_once = b.asks_once;
    order = b.order;
    kinds = λ h. absurd (ground arith);
  }

  pub receive_from-Balanced :
      (r : Routine) (sig : Signal) (rest : List Signal) (c : Child)
      → Balanced r (stopping code (receive_from r ∷ later)) (record c { outbox = sig ∷ rest })
      → Balanced r (stopping code later) (record c { outbox = rest })
  receive_from-Balanced r sig rest c b =
      let same = bit_same r in
      let count = b.outbox in
      let once = b.asks_once in
      record {
        inbox = b.inbox;
        outbox = omega (arith, count, same);
        once = b.once;
        asks_once = omega (arith, once);
        order = b.order;
        kinds = λ h. absurd (ground arith);
      }

  pub receive_from-Balanced_other :
      (r q : Routine) (c : Child)
      → is_same q r ≡ false
      → Balanced r (stopping code (receive_from q ∷ later)) c
      → Balanced r (stopping code later) c
  receive_from-Balanced_other r q c e b = record {
    inbox = b.inbox;
    outbox = let count = b.outbox in ground arith;
    once = b.once;
    asks_once = let once = b.asks_once in ground arith;
    order = b.order;
    kinds = λ h. absurd (ground arith);
  }

  pub close_log-Balanced :
      (r : Routine) (c : Child)
      → Balanced r (stopping code (close_log ∷ later)) c
      → Balanced r (stopping code later) c
  close_log-Balanced r c b = record {
    inbox = b.inbox;
    outbox = b.outbox;
    once = b.once;
    asks_once = b.asks_once;
    order = b.order;
    kinds = λ h. absurd (ground arith);
  }

  pub exited-Balanced :
      (r : Routine) (c : Child) → Balanced r (stopping code []) c → Balanced r (exited code) c
  exited-Balanced r c b = record {
    inbox = b.inbox;
    outbox = b.outbox;
    once = b.once;
    asks_once = b.asks_once;
    order = b.order;
    kinds = λ h. absurd (ground arith);
  }

-- Another place of `main` in which it still has as much to send and to receive.
move-Balanced :
    (r : Routine) (m n : Main) (c : Child)
    → main_sends r n ≡ main_sends r m
    → main_receives r n ≡ main_receives r m
    → is_selecting n ≡ false
    → Balanced r m c
    → Balanced r n c
move-Balanced r m n c s k i b =
    let count = b.inbox in
    let out = b.outbox in
    let once = b.asks_once in
    record {
      inbox = omega (arith, count, s);
      outbox = omega (arith, out, k);
      once = b.once;
      asks_once = omega (arith, once, k);
      order = b.order;
      kinds = λ h. absurd (ground arith);
    }

pub on_interrupt-Balanced :
    (r : Routine) (c : Child) → Balanced r selecting c → Balanced r on_interrupt c
unfolding on_interrupt
on_interrupt-Balanced server c b = move-Balanced server selecting on_interrupt c refl refl refl b
on_interrupt-Balanced database c b =
    move-Balanced database selecting on_interrupt c refl refl refl b
on_interrupt-Balanced logger c b = move-Balanced logger selecting on_interrupt c refl refl refl b

terminate-eq : (sig : Signal) → IsTerminate sig → sig ≡ terminate sig.message
terminate-eq sig e = ground arith

-- A routine that asks to end.
asked :
    (r : Routine) (n : Main) (sig : Signal) (rest : List Signal) (c : Child)
    → main_sends r n ≡ 1
    → main_receives r n ≡ 0
    → is_selecting n ≡ false
    → Balanced r selecting (record c { outbox = sig ∷ rest })
    → Balanced r n (record c { outbox = rest })
asked r n sig rest c s k i b =
    let count = b.inbox in
    let out = b.outbox in
    record {
      inbox = omega (arith, count, s);
      outbox = omega (arith, out, k);
      once = b.once;
      asks_once = omega (arith, k);
      order = b.order;
      kinds = λ h. absurd (ground arith);
    }

pub on_signal-Balanced :
    (r : Routine) (sig : Signal) (rest : List Signal) (c : Child)
    → Balanced r selecting (record c { outbox = sig ∷ rest })
    → Balanced r (on_signal r sig) (record c { outbox = rest })
unfolding on_server on_database on_logger
on_signal-Balanced server sig rest c b =
    let e = (b.kinds refl).0.0 in
    let is = terminate-eq sig e in
    asked server (on_server sig) sig rest c (ground arith) (ground arith) (ground arith) b
on_signal-Balanced database sig rest c b =
    let e = (b.kinds refl).0.0 in
    asked database (on_database sig) sig rest c (ground arith) (ground arith) (ground arith) b
on_signal-Balanced logger sig rest c b =
    let e = (b.kinds refl).0.0 in
    asked logger (on_logger sig) sig rest c (ground arith) (ground arith) (ground arith) b

-- The other routines, when one asks to end.
pub on_signal-Balanced_other :
    (r q : Routine) (sig : Signal) (c : Child)
    → is_same q r ≡ false
    → IsTerminate sig
    → Balanced r selecting c
    → Balanced r (on_signal q sig) c
unfolding on_server on_database on_logger
on_signal-Balanced_other r server sig c e k b =
    move-Balanced r selecting (on_server sig) c (ground arith) (ground arith) (ground arith) b
on_signal-Balanced_other r database sig c e k b =
    move-Balanced r selecting (on_database sig) c (ground arith) (ground arith) (ground arith) b
on_signal-Balanced_other r logger sig c e k b =
    move-Balanced r selecting (on_logger sig) c (ground arith) (ground arith) (ground arith) b
