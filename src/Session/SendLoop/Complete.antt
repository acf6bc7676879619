-- ===== src/Session/SendLoop/Complete.antt =====
-- `SendDataLoop` where every block is acknowledged: it ends without error.
use tftpcpd.Base.{
  ℕ, zero, suc, ◌+◌, ◌≤◌, ◌<◌, Bytes, false, List, [], ◌∷◌, none, ◌≡◌, refl, sym, ap, subst, ◌∙◌,
  arith, ltb, length, drop, lt→ltb, le→ltb, take, length-take,
}
use tftpcpd.Wire.{acknowledge_message}
use tftpcpd.Wire.Decode.RoundTrip.{bytes_as_message-layout}
use tftpcpd.Session.Slice.{Slice, copy_front}
use tftpcpd.Session.Slice.Laws.{window, capacity-window, capacity-copy_front}
use tftpcpd.Session.State.{Arrival, datagram, File, Session, u16, Outcome, done, Runtime}
use tftpcpd.Session.Io.{packet_size}
use tftpcpd.Session.Io.Laws.{received, written_to, receive_datagram, send_whole}
use tftpcpd.Session.Io.Blocks.{ack_bytes, IsReady}
use tftpcpd.Session.SendLoop.{
  after_send, next_message, next_block, judge_ack, await_ack, send_round, send_loop, send_data_loop,
}
use tftpcpd.Session.SendLoop.Heard.{next_message-receive}
use tftpcpd.Session.SendLoop.Read.{read_from, loaded, LoadsBlock, read_file-LoadsBlock}
use tftpcpd.Session.ReceiveLoop.Complete.{IsListening}
use tftpcpd.Session.Transfer.{Blocks, last, full, Acknowledged, complete, acked, stale}

module _ (rt : Runtime) where
  -- The session after an acknowledgement was received.
  abbrev pub heard_ack : Session → List Arrival → ℕ → Session
  heard_ack s later n =
      received s later (copy_front (ack_bytes n) (window (packet_size s) s.receive_buf))
        (acknowledge_message (record { block_number = n }))

  next_message-heard_ack :
      (s : Session) (addr n : ℕ) (later : List Arrival)
      → IsListening rt s
      → s.destination.incoming ≡ datagram addr (ack_bytes n) ∷ later
      → n < 65536
      → next_message rt false s ≡ done tt (heard_ack s later n)
  next_message-heard_ack s addr n later l arrives range =
      let message = acknowledge_message (record { block_number = n }) in
      next_message-receive rt s (heard_ack s later n) addr (
        receive_datagram rt s addr (ack_bytes n) later message arrives
          (omega (arith, l.size_high, l.room)) (omega (arith, l.size_high, l.size_low))
          (bytes_as_message-layout rt.map_lower message range))

  pub heard_ack-IsListening :
      (s : Session) (later : List Arrival) (n : ℕ)
      → IsListening rt s
      → IsListening rt (heard_ack s later n)
  heard_ack-IsListening s later n l = record {
    size_low = l.size_low;
    size_high = l.size_high;
    room = omega (
      arith,
      l.room,
      l.size_high,
      capacity-window (packet_size s) s.receive_buf,
      capacity-copy_front (ack_bytes n) (window (packet_size s) s.receive_buf)
          (omega (arith, l.room, capacity-window (packet_size s) s.receive_buf)),
    );
    number_range = l.number_range;
    delivers = l.delivers;
  }

  await_ack-hit :
      (left : ℕ) (s : Session) (addr : ℕ) (later : List Arrival)
      → IsListening rt s
      → s.destination.incoming ≡ datagram addr (ack_bytes s.block_number) ∷ later
      → await_ack rt (suc left) false s ≡ done tt (heard_ack s later s.block_number)
  unfolding await_ack judge_ack
  await_ack-hit left s addr later l arrives =
      rw (next_message-heard_ack s addr s.block_number later l arrives l.number_range, await_ack)
        (ground arith)

  pub await_ack-stale :
      (left : ℕ) (s : Session) (addr m : ℕ) (later : List Arrival)
      → IsListening rt s
      → s.destination.incoming ≡ datagram addr (ack_bytes m) ∷ later
      → m < s.block_number
      → await_ack rt (suc left) false s ≡ await_ack rt left false (heard_ack s later m)
  unfolding await_ack judge_ack
  await_ack-stale left s addr m later l arrives less =
      rw
        (next_message-heard_ack s addr m later l arrives (omega (arith, l.number_range)), await_ack)
        (ground arith)

  -- The inner loop gets the acknowledgement that it awaits.
  record IsAcked (s : Session) (left : ℕ) (later : List Bytes) : Type 0 where
    rest : List Arrival
    buffer : Slice
    got : Session
    same :
        got
        ≡ received s rest buffer (acknowledge_message (record { block_number = s.block_number }))
    result : await_ack rt left false s ≡ done tt got
    listening : IsListening rt got
    more_acks : Acknowledged 5 (u16 (s.block_number + 1)) later rest

  IsAcked-stale :
      (left : ℕ) (s : Session) (later : List Bytes) (addr m : ℕ) (rest : List Arrival)
      → IsListening rt s
      → s.destination.incoming ≡ datagram addr (ack_bytes m) ∷ rest
      → m < s.block_number
      → IsAcked (heard_ack s rest m) left later
      → IsAcked s (suc left) later
  IsAcked-stale left s later addr m rest l arrives less r = record {
    rest = r.rest;
    buffer = r.buffer;
    got = r.got;
    same = r.same;
    result = await_ack-stale left s addr m rest l arrives less ∙ r.result;
    listening = r.listening;
    more_acks = r.more_acks;
  }

  Acknowledged-IsAcked :
      (left n : ℕ) (s : Session) (block : Bytes) (later : List Bytes) (arrivals : List Arrival)
      → Acknowledged left n (block ∷ later) arrivals
      → n ≡ s.block_number
      → IsListening rt s
      → s.destination.incoming ≡ arrivals
      → IsAcked s left later
  Acknowledged-IsAcked zero n s block later arrivals c e l i = elim c [ ]
  Acknowledged-IsAcked (suc left) n s block later arrivals (acked {arrivals = rest} addr is c) e l
        i =
      record {
        rest = rest;
        buffer = copy_front (ack_bytes s.block_number) (window (packet_size s) s.receive_buf);
        got = heard_ack s rest s.block_number;
        same = refl;
        result =
            await_ack-hit left s addr rest l
              (i ∙ ap (λ a. a ∷ rest) (is ∙ ap (λ k. datagram addr (ack_bytes k)) e));
        listening = heard_ack-IsListening s rest s.block_number l;
        more_acks = subst (λ k. Acknowledged 5 (u16 (k + 1)) later rest) e c;
      }
  Acknowledged-IsAcked (suc left) n s block later arrivals
        (stale {arrivals = rest} addr m is less c) e l i =
      IsAcked-stale left s later addr m rest l (i ∙ ap (λ a. a ∷ rest) is) (rw e at less) (
        Acknowledged-IsAcked left n (heard_ack s rest m) block later rest c e
          (heard_ack-IsListening s rest m l) refl)

  -- The session with the next packet sent.
  abbrev pub launched : (s : Session) (f : File) → LoadsBlock rt s f → Session
  launched s f b = written_to (loaded s b.buffer f) none []

  pub launched-IsListening :
      (s : Session) (f : File) (b : LoadsBlock rt s f)
      → IsListening rt s
      → IsListening rt (launched s f b)
  launched-IsListening s f b l = record {
    size_low = l.size_low;
    size_high = l.size_high;
    room = l.room;
    number_range = l.number_range;
    delivers = refl;
  }

  send_round_lem :
      (s : Session) (f : File) (later : List Bytes) (b : LoadsBlock rt s f)
      → IsListening rt s
      → (r : IsAcked (launched s f b) 5 later)
      → send_round rt false s ≡ done (ltb (length f.unread) s.block_size) (next_block r.got)
  unfolding send_round after_send
  send_round_lem s f later b l r =
      rw (b.result) (rw (send_whole none (loaded s b.buffer f) l.delivers) (rw (r.result)))

  -- The next session can go on with the rest of the file.
  next-IsReady :
      (s : Session) (f : File) (later : List Bytes) (b : LoadsBlock rt s f)
      (r : IsAcked (launched s f b) 5 later)
      → IsReady rt s f
      → s.block_size ≤ length f.unread
      → IsReady rt (next_block r.got) (read_from s.block_size f)
  next-IsReady s f later b r ready more =
      subst (λ x. IsReady rt (next_block x) (read_from s.block_size f)) (sym r.same)
        (record {
          size_low = ready.size_low;
          size_high = ready.size_high;
          buffer_used = omega (
            arith,
            ap (length {A = ℕ}) b.packet,
            length-take s.block_size f.unread,
            ready.size_low,
          );
          buffer_room = omega (arith, b.room, ready.buffer_room);
          opened = refl;
          readable = ready.readable;
        })

  next-IsListening : (u : Session) → IsListening rt u → IsListening rt (next_block u)
  next-IsListening u l = record {
    size_low = l.size_low;
    size_high = l.size_high;
    room = l.room;
    number_range = omega arith;
    delivers = l.delivers;
  }

  -- A loop that ends without error.
  pub record Ends (o : Outcome (Unit {0})) : Type 0 where
    pub final : Session
    pub ends : o ≡ done tt final

  Ends-last :
      (fuel : ℕ) (s : Session) (f : File) (b : LoadsBlock rt s f)
      → IsListening rt s
      → IsAcked (launched s f b) 5 []
      → length f.unread < s.block_size
      → Ends (send_loop rt (suc fuel) false s)
  unfolding send_loop
  Ends-last fuel s f b l r short = record {
    final = next_block r.got;
    ends = rw (send_round_lem s f [] b l r, lt→ltb (length f.unread) s.block_size short) refl;
  }

  send_loop_full :
      (fuel : ℕ) (s : Session) (f : File) (later : List Bytes) (b : LoadsBlock rt s f)
      → IsListening rt s
      → (r : IsAcked (launched s f b) 5 later) → s.block_size ≤ length f.unread
      → send_loop rt (suc fuel) false s ≡ send_loop rt fuel false (next_block r.got)
  unfolding send_loop
  send_loop_full fuel s f later b l r more =
      rw (send_round_lem s f later b l r, le→ltb (length f.unread) s.block_size more) refl

  send_loop-Ends :
      (fuel size n : ℕ) (s : Session) (f : File) (bytes : Bytes) (blocks : List Bytes)
      (arrivals : List Arrival)
      → Blocks size bytes blocks
      → f.unread ≡ bytes
      → s.block_size ≡ size
      → Acknowledged 5 n blocks arrivals
      → n ≡ s.block_number
      → IsReady rt s f
      → IsListening rt s
      → s.destination.incoming ≡ arrivals
      → length blocks < fuel
      → Ends (send_loop rt fuel false s)
  send_loop-Ends zero size n s f bytes blocks arrivals d x z c e ready l i lt = elim lt [ ]
  send_loop-Ends (suc fuel) size n s f bytes blocks arrivals (last short) x z c e ready l i lt =
      let b = read_file-LoadsBlock rt s f ready in
      Ends-last fuel s f b l
        (Acknowledged-IsAcked 5 n (launched s f b) bytes [] arrivals c e
          (launched-IsListening s f b l) i)
        (omega (arith, short, z, ap (length {A = ℕ}) x))
  send_loop-Ends (suc fuel) size n s f bytes blocks arrivals (full {later = later} more d) x z c e
        ready l i lt =
      let b = read_file-LoadsBlock rt s f ready in
      let r =
        Acknowledged-IsAcked 5 n (launched s f b) (take size bytes) later arrivals c e
          (launched-IsListening s f b l) i in
      let left : s.block_size ≤ length f.unread = omega (arith, z, more, ap (length {A = ℕ}) x) in
      let rest =
        send_loop-Ends fuel size (u16 (s.block_number + 1)) (next_block r.got)
          (read_from s.block_size f) (drop size bytes) later r.rest d
          (ap (λ k. drop k f.unread) z ∙ ap (drop size) x)
          (ap (λ (y : Session). y.block_size) r.same ∙ z) r.more_acks
          (sym (ap (λ (y : Session). u16 (y.block_number + 1)) r.same))
          (next-IsReady s f later b r ready left) (next-IsListening r.got r.listening)
          (ap (λ (y : Session). y.destination.incoming) r.same) (omega arith) in
      record { final = rest.final; ends = send_loop_full fuel s f later b l r left ∙ rest.ends }

  length-Acknowledged :
      {left n : ℕ} {blocks : List Bytes} {arrivals : List Arrival}
      → Acknowledged left n blocks arrivals
      → length blocks ≤ length arrivals
  length-Acknowledged complete = omega arith
  length-Acknowledged (acked addr is c) = omega (arith, length-Acknowledged c)
  length-Acknowledged (stale addr m is less c) = omega (arith, length-Acknowledged c)

  -- Where every block of the file is acknowledged in order, with at most four acknowledgements of
  -- lesser blocks before each, a ready and listening session ends `SendDataLoop` without error.
  pub send_data_loop-Ends :
      (s : Session) (f : File) (blocks : List Bytes)
      → IsReady rt s f
      → IsListening rt s
      → Blocks s.block_size f.unread blocks
      → Acknowledged 5 s.block_number blocks s.destination.incoming
      → Ends (send_data_loop rt false s)
  unfolding send_data_loop
  send_data_loop-Ends s f blocks ready l d c =
      send_loop-Ends (2 + length s.destination.incoming) s.block_size s.block_number s f f.unread
        blocks s.destination.incoming d refl refl c refl ready l refl
        (omega (arith, length-Acknowledged c))
