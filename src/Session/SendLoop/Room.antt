-- ===== src/Session/SendLoop/Room.antt =====
-- The buffer for acknowledgements in the first pass of `SendDataLoop`.
use tftpcpd.Base.{
  ℕ, zero, suc, ◌+◌, ◌≤◌, Bool, true, false, ◌||◌, none, ◌≡◌, ap, subst, ◌∙◌, arith, ltb,
  if◌then◌else◌, length,
}
use tftpcpd.Session.Slice.{Slice, len, capacity}
use tftpcpd.Session.State.{
  data_preamble_length, Session, u16, Outcome, file_read_error, done, failed, panic, out_of_fuel,
  Runtime,
}
use tftpcpd.Session.Io.{packet_size, read_file, send, receive}
use tftpcpd.Session.Io.Laws.{send-done}
use tftpcpd.Session.Io.Room.{Leaves, SameRoom, read_file-SameRoom, receive-room}
use tftpcpd.Session.SendLoop.{
  is_file_eof, after_read, after_send, next_message, await_ack, send_round, send_loop,
  send_data_loop,
}
use tftpcpd.Session.SendLoop.Heard.{>>=-eq-done}
use tftpcpd.Session.SendLoop.Sent.{after_send-done}

after_read-SameRoom :
    (s : Session) (o : Outcome (Unit {0}))
    → Leaves (SameRoom s) o
    → Leaves (SameRoom s) (after_read o)
unfolding after_read
after_read-SameRoom s (done a t) h = h
after_read-SameRoom s (failed e t) h = go (is_file_eof e || ltb (len t.send_buf) (packet_size t))
  where
    go : (b : Bool) → Leaves (SameRoom s) (if b then done true t else failed file_read_error t)
    go true = h
    go false = h
after_read-SameRoom s panic h = tt
after_read-SameRoom s out_of_fuel h = tt

module _ (rt : Runtime) where
  send_round-room :
      (s t : Session) (everything : Bool)
      → send_round rt false s ≡ done everything t
      → packet_size s ≤ capacity s.receive_buf
  unfolding send_round await_ack next_message
  send_round-room s t everything h =
      let (w, a, read, h1) = >>=-eq-done (after_read (read_file rt s)) _ h in
      let (_, b, went, h2) = >>=-eq-done (after_send (send none a)) _ h1 in
      let (_, c, acked, h3) = >>=-eq-done (await_ack rt 5 false b) _ h2 in
      let (_, d, next, h4) = >>=-eq-done (next_message rt false b) _ acked in
      let (addr, e, got, h5) = >>=-eq-done (receive rt b) _ next in
      let same =
        subst (Leaves (SameRoom s)) read
          (after_read-SameRoom s (read_file rt s) (read_file-SameRoom rt s)) in
      let (later, sent) = send-done none a b (after_send-done rt a b went) in
      let fits = (receive-room rt b e addr got).0 in
      let size = ap (λ (x : Session). x.block_size) sent ∙ same.size in
      let buffer = ap (λ (x : Session). x.receive_buf) sent ∙ same.buffer in
      subst (λ (b : Slice). packet_size s ≤ capacity b) buffer
        (subst (λ n. u16 (n + data_preamble_length) ≤ capacity b.receive_buf) size fits)

  send_loop-room :
      (fuel : ℕ) (s t : Session)
      → send_loop rt fuel false s ≡ done tt t
      → packet_size s ≤ capacity s.receive_buf
  unfolding send_loop
  send_loop-room zero s t h = absurd (ground arith)
  send_loop-room (suc fuel) s t h =
      let (everything, u, round, rest) = >>=-eq-done (send_round rt false s) _ h in
      send_round-room s u everything round

  -- `SendDataLoop` returns no error only where `ReceiveBuf` has the room for a packet.
  pub send_data_loop-room :
      (s t : Session)
      → send_data_loop rt false s ≡ done tt t
      → packet_size s ≤ capacity s.receive_buf
  unfolding send_data_loop
  send_data_loop-room s t h = send_loop-room (2 + length s.destination.incoming) s t h
