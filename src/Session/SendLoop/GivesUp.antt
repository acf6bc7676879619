-- ===== src/Session/SendLoop/GivesUp.antt =====
-- `SendDataLoop` gives up where a peer keeps acknowledging earlier blocks.
use tftpcpd.Base.{ℕ, zero, suc, ◌+◌, ◌<◌, false, List, ◌∷◌, none, ◌≡◌, refl, ap, ◌∙◌, arith, length}
use tftpcpd.Session.State.{
  Arrival, datagram, File, Session, many_retransmissions, Outcome, failed, Runtime,
}
use tftpcpd.Session.Io.Laws.{send_whole}
use tftpcpd.Session.Io.Blocks.{IsReady, ack_bytes}
use tftpcpd.Session.ReceiveLoop.Complete.{IsListening}
use tftpcpd.Session.SendLoop.{after_send, await_ack, send_round, send_loop, send_data_loop}
use tftpcpd.Session.SendLoop.Read.{LoadsBlock, loaded, read_file-LoadsBlock}
use tftpcpd.Session.SendLoop.Complete.{
  heard_ack, heard_ack-IsListening, await_ack-stale, launched, launched-IsListening,
}

-- The next `k` arrivals acknowledge blocks before number `n`.
pub data AreStale (n : ℕ) : ℕ → List Arrival → Type 0 where
  enough : {arrivals : List Arrival} → AreStale n 0 arrivals
  another :
      {k : ℕ} {a : Arrival} {arrivals : List Arrival} (addr m : ℕ)
      → a ≡ datagram addr (ack_bytes m)
      → m < n
      → AreStale n k arrivals
      → AreStale n (suc k) (a ∷ arrivals)

-- A method that ends with the error about retransmissions.
pub record GivesUp {A : Type 0} (o : Outcome A) : Type 0 where
  pub final : Session
  pub fails : o ≡ failed many_retransmissions final

module _ (rt : Runtime) where
  await_ack-GivesUp :
      (left n : ℕ) (s : Session) (arrivals : List Arrival)
      → AreStale n left arrivals
      → n ≡ s.block_number
      → IsListening rt s
      → s.destination.incoming ≡ arrivals
      → GivesUp (await_ack rt left false s)
  unfolding await_ack
  await_ack-GivesUp zero n s arrivals c e l i = record { final = s; fails = refl }
  await_ack-GivesUp (suc left) n s arrivals (another {arrivals = rest} addr m is less c) e l i =
      let g =
        await_ack-GivesUp left n (heard_ack rt s rest m) rest c e
          (heard_ack-IsListening rt s rest m l) refl in
      record {
        final = g.final;
        fails =
            await_ack-stale rt left s addr m rest l (i ∙ ap (λ a. a ∷ rest) is) (rw e at less)
            ∙ g.fails;
      }

  send_loop-GivesUp :
      (fuel : ℕ) (s : Session) (f : File) (b : LoadsBlock rt s f)
      → IsListening rt s
      → (g : GivesUp (await_ack rt 5 false (launched rt s f b)))
      → send_loop rt (suc fuel) false s ≡ failed many_retransmissions g.final
  unfolding send_loop send_round after_send
  send_loop-GivesUp fuel s f b l g =
      rw (b.result) (rw (send_whole none (loaded s b.buffer f) l.delivers) (rw (g.fails) refl))

  -- Where the next five messages are acknowledgements of earlier blocks, a ready and listening
  -- session ends `SendDataLoop` with the error about retransmissions.
  pub send_data_loop-GivesUp :
      (s : Session) (f : File)
      → IsReady rt s f
      → IsListening rt s
      → AreStale s.block_number 5 s.destination.incoming
      → GivesUp (send_data_loop rt false s)
  unfolding send_data_loop
  send_data_loop-GivesUp s f ready l c =
      let b = read_file-LoadsBlock rt s f ready in
      let g =
        await_ack-GivesUp 5 s.block_number (launched rt s f b) s.destination.incoming c refl
          (launched-IsListening rt s f b l) refl in
      let fuel : 2 + length s.destination.incoming ≡ suc (1 + length s.destination.incoming) =
        omega arith in
      record {
        final = g.final;
        fails =
            ap (λ k. send_loop rt k false s) fuel
            ∙ send_loop-GivesUp (1 + length s.destination.incoming) s f b l g;
      }
