-- ===== src/Session/SendLoop/Sent.antt =====
-- Whatever arrives: a `SendDataLoop` that returns no error has sent the whole file, block by block.
use tftpcpd.Base.{
  ℕ, zero, suc, ◌+◌, ◌≤◌, ◌<◌, Bytes, Bool, false, List, [], ◌∷◌, ◌++◌, none, ◌≡◌, refl, sym, ap,
  ◌∙◌, arith, ltb, Bool-cases, inl, inr, length, length-take, take, append_assoc, take_all, ltb→lt,
  ltb→le,
}
use tftpcpd.Wire.{Message}
use tftpcpd.Session.Slice.{Slice}
use tftpcpd.Session.State.{Arrival, Delivery, File, Session, done, ◌>>=◌, Runtime}
use tftpcpd.Session.Io.{send}
use tftpcpd.Session.Io.Laws.{received, written_to, send-done}
use tftpcpd.Session.Io.Blocks.{IsReady}
use tftpcpd.Session.SendLoop.{
  after_send, judge_ack, next_message, await_ack, next_block, send_round, send_loop, send_data_loop,
}
use tftpcpd.Session.SendLoop.Read.{read_from, loaded, LoadsBlock, read_file-LoadsBlock}
use tftpcpd.Session.SendLoop.Heard.{
  >>=-eq-done, done-injective, Heard, Heard-trans, next_message-done,
}
use tftpcpd.Session.Transfer.{Blocks, last, full, packets, unaddressed}

judge_ack-done : (s t : Session) (b : Bool) → judge_ack s ≡ done b t → t ≡ s
unfolding judge_ack
judge_ack-done s t b h = ground arith

module _ (rt : Runtime) where
  await_ack-done :
      (left : ℕ) (holding : Bool) (s t : Session)
      → await_ack rt left holding s ≡ done tt t
      → Heard s t
  unfolding await_ack
  await_ack-done zero holding s t h = absurd (ground arith)
  await_ack-done (suc left) holding s t h =
      let (_, u, next, e) = >>=-eq-done (next_message rt holding s) _ h in
      let (awaiting, v, judged, k) = >>=-eq-done (judge_ack u) _ e in
      let heard = next_message-done rt holding s u next in
      let still = judge_ack-done u v awaiting judged in
      elim (Bool-cases awaiting) [
        | inl more ↦ Heard-trans heard (rw still at (await_ack-done left false v t (ground arith)))
        | inr enough ↦ let ended : v ≡ t = ground arith in rw (← ended) (rw still heard)
      ]

  pub after_send-done :
      (s t : Session) → after_send (send none s) ≡ done tt t → send none s ≡ done tt t
  unfolding after_send
  after_send-done s t h = ground arith

  -- What follows the reading of the block, from the loaded session: the packet was sent, and the
  -- session listened.
  pub record Passes (a t : Session) : Type 0 where
    deliveries : List Delivery
    arrivals : List Arrival
    received_buf : Slice
    message : Message
    pub result :
        t ≡ next_block (received (written_to a none deliveries) arrivals received_buf message)

  Passes-of :
      (holding : Bool) (a b c t : Session)
      → send none a ≡ done tt b
      → await_ack rt 5 holding b ≡ done tt c
      → next_block c ≡ t
      → Passes a t
  Passes-of holding a b c t went acked ended =
      let (deliveries, sent) = send-done none a b went in
      let heard = await_ack-done 5 holding b c acked in
      record {
        deliveries = deliveries;
        arrivals = heard.later;
        received_buf = heard.buffer;
        message = heard.message;
        result =
            sym ended
            ∙ ap next_block heard.result
            ∙ ap (λ x. next_block (received x heard.later heard.buffer heard.message)) sent;
      }

  -- A pass that returns no error.
  pub record SendsBlock (s : Session) (f : File) (everything : Bool) (t : Session) : Type 0 where
    pub loads : LoadsBlock rt s f
    pub ends : everything ≡ ltb (length f.unread) s.block_size
    pub passes : Passes (loaded s loads.buffer f) t

  pub send_round-done :
      (holding everything : Bool) (s t : Session) (f : File)
      → IsReady rt s f
      → send_round rt holding s ≡ done everything t
      → SendsBlock s f everything t
  unfolding send_round
  send_round-done holding everything s t f r h =
      let loads = read_file-LoadsBlock rt s f r in
      let a = loaded s loads.buffer f in
      let whole = ltb (length f.unread) s.block_size in
      let h1 =
        sym (
          ap
            (λ o. o >>= λ w x. after_send (send none x) >>= λ _ u.
              await_ack rt 5 holding u >>= λ _ v. done w (next_block v))
            loads.result)
        ∙ h in
      let (_, b, went, h2) = >>=-eq-done (after_send (send none a)) _ h1 in
      let (_, c, acked, h3) = >>=-eq-done (await_ack rt 5 holding b) _ h2 in
      let fin : (everything ≡ whole) × (next_block c ≡ t) =
        done-injective whole everything (next_block c) t h3 in
      record {
        loads = loads;
        ends = fin.0;
        passes = Passes-of holding a b c t (after_send-done a b went) acked fin.1;
      }

  -- The session after such a pass.
  abbrev passed :
      (s : Session) (f : File) (l : LoadsBlock rt s f) (t : Session)
      → Passes (loaded s l.buffer f) t
      → Session
  passed s f l t p = next_block (
      received (written_to (loaded s l.buffer f) none p.deliveries) p.arrivals p.received_buf
        p.message)

  pub passed-IsReady :
      (s : Session) (f : File) (l : LoadsBlock rt s f) (t : Session)
      (p : Passes (loaded s l.buffer f) t)
      → IsReady rt s f
      → s.block_size ≤ length f.unread
      → IsReady rt (passed s f l t p) (read_from s.block_size f)
  passed-IsReady s f l t p r more = record {
    size_low = r.size_low;
    size_high = r.size_high;
    buffer_used =
        omega (arith, ap (length {A = ℕ}) l.packet, length-take s.block_size f.unread, r.size_low);
    buffer_room = omega (arith, l.room, r.buffer_room);
    opened = refl;
    readable = r.readable;
  }

  -- What a loop that returns no error has sent.
  pub record SendsFile (s : Session) (f : File) (t : Session) : Type 0 where
    pub blocks : List Bytes
    pub divides : Blocks s.block_size f.unread blocks
    pub sent :
        t.destination.sent ≡ s.destination.sent ++ unaddressed (packets s.block_number blocks)
    pub kept_size : t.block_size ≡ s.block_size

  SendsFile-last :
      (s t : Session) (f : File) (l : LoadsBlock rt s f)
      → Passes (loaded s l.buffer f) t
      → length f.unread < s.block_size
      → SendsFile s f t
  SendsFile-last s t f l p short = record {
    blocks = f.unread ∷ [];
    divides = last short;
    sent =
        ap (λ (x : Session). x.destination.sent) p.result
        ∙ rw (l.packet, take_all s.block_size f.unread (omega (arith, short)));
    kept_size = ap (λ (x : Session). x.block_size) p.result;
  }

  SendsFile-full :
      (s t u : Session) (f : File) (l : LoadsBlock rt s f) (p : Passes (loaded s l.buffer f) u)
      → s.block_size ≤ length f.unread
      → SendsFile (passed s f l u p) (read_from s.block_size f) t
      → SendsFile s f t
  SendsFile-full s t u f l p more later = record {
    blocks = take s.block_size f.unread ∷ later.blocks;
    divides = full more later.divides;
    sent = later.sent ∙ rw l.packet (append_assoc s.destination.sent _ _);
    kept_size = later.kept_size;
  }

  send_loop-SendsFile :
      (fuel : ℕ) (holding : Bool) (s t : Session) (f : File)
      → IsReady rt s f
      → send_loop rt fuel holding s ≡ done tt t
      → SendsFile s f t
  unfolding send_loop
  send_loop-SendsFile zero holding s t f r h = absurd (ground arith)
  send_loop-SendsFile (suc fuel) holding s t f r h =
      let (everything, u, round, rest) = >>=-eq-done (send_round rt holding s) _ h in
      let sb = send_round-done holding everything s u f r round in
      elim (Bool-cases everything) [
        | inl whole ↦
            SendsFile-last s t f sb.loads
              (let ended : u ≡ t = ground arith in rw ended at sb.passes)
              (omega (arith, ltb→lt _ _ (sym sb.ends ∙ whole)))
        | inr more ↦
            let left : s.block_size ≤ length f.unread = ltb→le _ _ (sym sb.ends ∙ more) in
            let next : send_loop rt fuel false u ≡ done tt t = ground arith in
            SendsFile-full s t u f sb.loads sb.passes left (
              send_loop-SendsFile fuel false (passed s f sb.loads u sb.passes) t
                (read_from s.block_size f) (passed-IsReady s f sb.loads u sb.passes r left)
                (rw (← sb.passes.result) next))
      ]

  -- Whatever arrives from the network: where a session is ready (its block size is in range, its
  -- buffer holds a packet and the file can be read) and `SendDataLoop` returns no error, it has
  -- sent exactly the blocks of the file, in order and each once, with consecutive uint16 numbers.
  pub send_data_loop-SendsFile :
      (holding : Bool) (s t : Session) (f : File)
      → IsReady rt s f
      → send_data_loop rt holding s ≡ done tt t
      → SendsFile s f t
  unfolding send_data_loop
  send_data_loop-SendsFile holding s t f r h =
      send_loop-SendsFile (2 + length s.destination.incoming) holding s t f r h
