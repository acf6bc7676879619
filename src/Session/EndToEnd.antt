-- ===== src/Session/EndToEnd.antt =====
-- `SendDataLoop` and `ReceiveDataLoop` together: the file that was sent is the file that is
-- received.
use tftpcpd.Base.{
  ℕ, ◌+◌, Bytes, Bool, false, List, [], ◌++◌, ◌≡◌, refl, sym, ap, subst, ◌∙◌, arith, length-take,
}
use tftpcpd.Session.State.{File, Session, u16, done, Runtime}
use tftpcpd.Session.Io.Blocks.{IsReady, IsOpen}
use tftpcpd.Session.SendLoop.{send_data_loop}
use tftpcpd.Session.SendLoop.Sent.{send_data_loop-SendsFile}
use tftpcpd.Session.ReceiveLoop.{receive_data_loop}
use tftpcpd.Session.ReceiveLoop.Complete.{IsListening, Completes, receive_data_loop-Completes}
use tftpcpd.Session.Transfer.{
  Blocks, last, full, packets, unaddressed, Carries, complete, carried, arrivals_of,
}

pub Blocks-Carries :
    {size : ℕ} {bytes : Bytes} {blocks : List Bytes} (addr n : ℕ)
    → Blocks size bytes blocks
    → Carries size n blocks (arrivals_of addr (unaddressed (packets n blocks)))
Blocks-Carries addr n (last short) = carried addr refl (omega (arith, short)) complete
Blocks-Carries {size} {bytes} addr n (full more b) =
    carried addr refl (omega (arith, length-take size bytes)) (Blocks-Carries addr (u16 (n + 1)) b)

module _ (rt : Runtime) where
  -- The whole of a transfer. If a ready session that has sent nothing ends `SendDataLoop` without
  -- error, whatever it heard, and its datagrams reach a listening session with the same block size
  -- and block number, all and in order, then `ReceiveDataLoop` ends there without error and has
  -- added exactly the bytes of the sender's file to the receiver's.
  pub transfer_delivers :
      (holding : Bool) (s t r : Session) (f g : File) (addr : ℕ)
      → IsReady rt s f
      → s.destination.sent ≡ []
      → send_data_loop rt holding s ≡ done tt t
      → IsListening rt r
      → IsOpen r g
      → r.block_size ≡ s.block_size
      → r.block_number ≡ s.block_number
      → r.destination.incoming ≡ arrivals_of addr t.destination.sent
      → Completes rt (receive_data_loop rt false r) g f.unread
  transfer_delivers holding s t r f g addr ready fresh ends listening open_file size number arrive =
      let sf = send_data_loop-SendsFile rt holding s t f ready ends in
      let blocks = sf.blocks in
      let all_sent : t.destination.sent ≡ unaddressed (packets s.block_number blocks) =
        sf.sent ∙ ap (λ l. l ++ unaddressed (packets s.block_number blocks)) fresh in
      let arrived = arrive ∙ ap (arrivals_of addr) all_sent in
      receive_data_loop-Completes rt r g f.unread blocks listening open_file
        (subst (λ z. Blocks z f.unread blocks) (sym size) sf.divides)
        (subst (λ l. Carries r.block_size r.block_number blocks l) (sym arrived)
          (subst
            (λ z.
              Carries z r.block_number blocks
                (arrivals_of addr (unaddressed (packets s.block_number blocks))))
            (sym size)
            (subst
              (λ n.
                Carries s.block_size n blocks
                  (arrivals_of addr (unaddressed (packets s.block_number blocks))))
              (sym number) (Blocks-Carries addr s.block_number sf.divides))))
