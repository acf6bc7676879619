-- ===== src/Session/ReceiveLoop/Complete.antt =====
-- `ReceiveDataLoop` on arrivals that carry a file: it ends without error and has the file.
use tftpcpd.Base.{
  ℕ, zero, suc, ◌+◌, ◌≤◌, ◌<◌, Bytes, false, List, [], ◌∷◌, ◌++◌, none, some, ◌≡◌, refl, sym, ap,
  subst, ◌∙◌, arith, ltb, length, append_assoc, lt→ltb, le→ltb, take, drop, take-append-drop,
  length-take,
}
use tftpcpd.Wire.{DataMessage, data_message}
use tftpcpd.Wire.Decode.RoundTrip.{bytes_as_message-layout}
use tftpcpd.Session.Slice.{Slice, capacity, copy_front, overwrite}
use tftpcpd.Session.Slice.Laws.{window, capacity-window, capacity-copy_front}
use tftpcpd.Session.State.{Arrival, datagram, File, Session, u16, Outcome, done, Runtime}
use tftpcpd.Session.Io.{packet_size}
use tftpcpd.Session.Io.Laws.{received, written_to, receive_datagram}
use tftpcpd.Session.Io.Blocks.{data_header, ack_bytes, IsOpen, acknowledge_whole}
use tftpcpd.Session.SendLoop.{next_message, next_block}
use tftpcpd.Session.SendLoop.Heard.{next_message-receive}
use tftpcpd.Session.ReceiveLoop.{
  judge_data, await_data, receive_round, receive_loop, receive_data_loop,
}
use tftpcpd.Session.ReceiveLoop.Written.{stored, after_write-write_file}
use tftpcpd.Session.Transfer.{Blocks, last, full, Carries, complete, carried, stale}

module _ (rt : Runtime) where
  -- A session that can take part in a transfer: packets fit its buffer and the network takes what
  -- it sends.
  pub record IsListening (s : Session) : Type 0 where
    pub size_low : 8 ≤ s.block_size
    pub size_high : s.block_size ≤ 65464
    pub room : s.block_size + 4 ≤ capacity s.receive_buf
    pub number_range : s.block_number < 65536
    pub delivers : s.destination.deliveries ≡ []

  -- The session after a data message was received.
  abbrev took : Session → List Arrival → ℕ → Bytes → Session
  took s later n body =
      received s later (copy_front (data_header n ++ body) (window (packet_size s) s.receive_buf))
        (data_message (record { block_number = n; body = body }))

  next_message-took :
      (s : Session) (addr n : ℕ) (body : Bytes) (later : List Arrival)
      → IsListening s
      → s.destination.incoming ≡ datagram addr (data_header n ++ body) ∷ later
      → n < 65536
      → length body ≤ s.block_size
      → next_message rt false s ≡ done tt (took s later n body)
  next_message-took s addr n body later l arrives range fits =
      next_message-receive rt s (took s later n body) addr (
        receive_datagram rt s addr (data_header n ++ body) later
          (data_message (record { block_number = n; body = body })) arrives
          (omega (arith, l.size_high, l.room)) (omega (arith, l.size_high))
          (bytes_as_message-layout rt.map_lower
            (data_message (record { block_number = n; body = body })) range))

  took-IsListening :
      (s : Session) (later : List Arrival) (n : ℕ) (body : Bytes)
      → IsListening s
      → length body ≤ s.block_size
      → IsListening (took s later n body)
  took-IsListening s later n body l fits = record {
    size_low = l.size_low;
    size_high = l.size_high;
    room = omega (
      arith,
      l.room,
      l.size_high,
      capacity-window (packet_size s) s.receive_buf,
      capacity-copy_front (data_header n ++ body) (window (packet_size s) s.receive_buf)
          (omega (arith, l.room, capacity-window (packet_size s) s.receive_buf)),
    );
    number_range = l.number_range;
    delivers = l.delivers;
  }

  await_data-hit :
      (fuel : ℕ) (s : Session) (addr : ℕ) (body : Bytes) (later : List Arrival)
      → IsListening s
      → s.destination.incoming ≡ datagram addr (data_header s.block_number ++ body) ∷ later
      → length body ≤ s.block_size
      → await_data rt (suc fuel) false s ≡ done tt (took s later s.block_number body)
  unfolding await_data judge_data
  await_data-hit fuel s addr body later l arrives fits =
      rw
        (
          next_message-took s addr s.block_number body later l arrives l.number_range fits,
          await_data,
        )
        (ground arith)

  await_data-stale :
      (fuel : ℕ) (s : Session) (addr m : ℕ) (old : Bytes) (later : List Arrival)
      → IsListening s
      → s.destination.incoming ≡ datagram addr (data_header m ++ old) ∷ later
      → m < s.block_number
      → length old ≤ s.block_size
      → await_data rt (suc fuel) false s ≡ await_data rt fuel false (took s later m old)
  unfolding await_data judge_data
  await_data-stale fuel s addr m old later l arrives less fits =
      rw
        (
          next_message-took s addr m old later l arrives (omega (arith, l.number_range)) fits,
          await_data,
        )
        (ground arith)

  -- The inner loop gets the block that it awaits.
  record Reaches (s : Session) (fuel : ℕ) (block : Bytes) (later : List Bytes) : Type 0 where
    rest : List Arrival
    buffer : Slice
    got : Session
    same :
        got
        ≡ received s rest buffer
            (data_message (record { block_number = s.block_number; body = block }))
    result : await_data rt fuel false s ≡ done tt got
    listening : IsListening got
    carries : Carries s.block_size (u16 (s.block_number + 1)) later rest

  Reaches-stale :
      (s : Session) (fuel : ℕ) (block : Bytes) (later : List Bytes) (addr m : ℕ) (old : Bytes)
      (arrivals : List Arrival)
      → IsListening s
      → s.destination.incoming ≡ datagram addr (data_header m ++ old) ∷ arrivals
      → m < s.block_number
      → length old ≤ s.block_size
      → Reaches (took s arrivals m old) fuel block later
      → Reaches s (suc fuel) block later
  Reaches-stale s fuel block later addr m old arrivals l arrives less fits r = record {
    rest = r.rest;
    buffer = r.buffer;
    got = r.got;
    same = r.same;
    result = await_data-stale fuel s addr m old arrivals l arrives less fits ∙ r.result;
    listening = r.listening;
    carries = r.carries;
  }

  Carries-Reaches :
      (fuel n : ℕ) (s : Session) (block : Bytes) (later : List Bytes) (arrivals : List Arrival)
      → Carries s.block_size n (block ∷ later) arrivals
      → n ≡ s.block_number
      → IsListening s
      → s.destination.incoming ≡ arrivals
      → length arrivals < fuel
      → Reaches s fuel block later
  Carries-Reaches zero n s block later arrivals c e l i lt = elim lt [ ]
  Carries-Reaches (suc fuel) n s block later arrivals (carried {arrivals = rest} addr is fits c) e l
        i lt =
      let first =
        i ∙ ap (λ a. a ∷ rest) (is ∙ ap (λ k. datagram addr (data_header k ++ block)) e) in
      record {
        rest = rest;
        buffer =
            copy_front (data_header s.block_number ++ block) (window (packet_size s) s.receive_buf);
        got = took s rest s.block_number block;
        same = refl;
        result = await_data-hit fuel s addr block rest l first fits;
        listening = took-IsListening s rest s.block_number block l fits;
        carries = subst (λ k. Carries s.block_size (u16 (k + 1)) later rest) e c;
      }
  Carries-Reaches (suc fuel) n s block later arrivals
        (stale {arrivals = rest} addr m old is less fits c) e l i lt =
      let first = i ∙ ap (λ a. a ∷ rest) is in
      Reaches-stale s fuel block later addr m old rest l first (rw e at less) fits (
        Carries-Reaches fuel n (took s rest m old) block later rest c e
          (took-IsListening s rest m old l fits) refl (omega arith))

  -- The session after the block was written and acknowledged.
  abbrev turned : Session → File → Bytes → Session
  turned s f block = next_block (
      written_to
        (record (stored s f block) {
          send_buf = overwrite rt.spare (ack_bytes s.block_number) s.send_buf;
        })
        none [])

  -- What a pass does when the block arrives.
  receive_round_lem :
      (s : Session) (f : File) (block : Bytes) (later : List Bytes)
      (r : Reaches s (2 + length s.destination.incoming) block later)
      → IsOpen s f
      → receive_round rt false s ≡ done (ltb (length block) s.block_size) (turned r.got f block)
  unfolding receive_round
  receive_round_lem s f block later r o =
      let u = r.got in
      let d : DataMessage = record { block_number = s.block_number; body = block } in
      let open_u : IsOpen u f =
        subst (λ x. IsOpen x f) (sym r.same)
          (record { size_low = o.size_low; opened = o.opened; writable = o.writable }) in
      let message = ap (λ (x : Session). x.most_recent_message) r.same in
      rw (r.result) (
        rw (after_write-write_file u f d open_u message) (
          rw (acknowledge_whole rt (stored u f block) r.listening.delivers) (
            ap (λ (x : Session). done (ltb (length block) x.block_size) (turned u f block))
              r.same)))

  turned-IsListening :
      (u : Session) (f : File) (block : Bytes) → IsListening u → IsListening (turned u f block)
  turned-IsListening u f block l = record {
    size_low = l.size_low;
    size_high = l.size_high;
    room = l.room;
    number_range = omega arith;
    delivers = refl;
  }

  -- A loop that ends without error, with the bytes added to the file.
  pub record Completes (o : Outcome (Unit {0})) (f : File) (bytes : Bytes) : Type 0 where
    pub final : Session
    pub ends : o ≡ done tt final
    pub stored_bytes : final.file ≡ some (record f { written = f.written ++ bytes })

  Completes-last :
      (fuel : ℕ) (s : Session) (f : File) (block : Bytes)
      → Reaches s (2 + length s.destination.incoming) block []
      → IsOpen s f
      → length block < s.block_size
      → Completes (receive_loop rt (suc fuel) false s) f block
  unfolding receive_loop
  Completes-last fuel s f block r o short = record {
    final = turned r.got f block;
    ends = rw (receive_round_lem s f block [] r o, lt→ltb (length block) s.block_size short) refl;
    stored_bytes = refl;
  }

  receive_loop_full :
      (fuel : ℕ) (s : Session) (f : File) (block : Bytes) (later : List Bytes)
      (r : Reaches s (2 + length s.destination.incoming) block later)
      → IsOpen s f
      → s.block_size ≤ length block
      → receive_loop rt (suc fuel) false s ≡ receive_loop rt fuel false (turned r.got f block)
  unfolding receive_loop
  receive_loop_full fuel s f block later r o long =
      rw (receive_round_lem s f block later r o, le→ltb (length block) s.block_size long) refl

  Completes-full :
      (o p : Outcome (Unit {0})) (f : File) (block rest bytes : Bytes)
      → o ≡ p
      → block ++ rest ≡ bytes
      → Completes p (record f { written = f.written ++ block }) rest
      → Completes o f bytes
  Completes-full o p f block rest bytes e parts c = record {
    final = c.final;
    ends = e ∙ c.ends;
    stored_bytes =
        c.stored_bytes
        ∙ ap (λ w. some (record f { written = w }))
            (append_assoc f.written block rest ∙ ap (λ b. f.written ++ b) parts);
  }

  receive_loop-Completes :
      (fuel size n : ℕ) (s : Session) (f : File) (bytes : Bytes) (blocks : List Bytes)
      (arrivals : List Arrival)
      → Blocks size bytes blocks
      → Carries s.block_size n blocks arrivals
      → s.block_size ≡ size
      → n ≡ s.block_number
      → IsListening s
      → IsOpen s f
      → s.destination.incoming ≡ arrivals
      → length blocks < fuel
      → Completes (receive_loop rt fuel false s) f bytes
  receive_loop-Completes zero size n s f bytes blocks arrivals b c z e l o i lt = elim lt [ ]
  receive_loop-Completes (suc fuel) size n s f bytes blocks arrivals (last short) c z e l o i lt =
      Completes-last fuel s f bytes
        (Carries-Reaches (2 + length s.destination.incoming) n s bytes [] arrivals c e l i
          (omega (arith, ap (length {A = Arrival}) i)))
        o (omega (arith, short, z))
  receive_loop-Completes (suc fuel) size n s f bytes blocks arrivals (full {later = later} more b) c
        z e l o i lt =
      let block = take size bytes in
      let r =
        Carries-Reaches (2 + length s.destination.incoming) n s block later arrivals c e l i
          (omega (arith, ap (length {A = Arrival}) i)) in
      let same_size : r.got.block_size ≡ s.block_size = ap (λ (x : Session). x.block_size) r.same in
      let same_number : r.got.block_number ≡ s.block_number =
        ap (λ (x : Session). x.block_number) r.same in
      let next = turned r.got f block in
      Completes-full (receive_loop rt (suc fuel) false s) (receive_loop rt fuel false next) f block
        (drop size bytes) bytes
        (receive_loop_full fuel s f block later r o
          (omega (arith, z, more, length-take size bytes)))
        (take-append-drop size bytes)
        (receive_loop-Completes fuel size (u16 (s.block_number + 1)) next
          (record f { written = f.written ++ block }) (drop size bytes) later r.rest b
          (subst (λ k. Carries k (u16 (s.block_number + 1)) later r.rest) (sym same_size) r.carries)
          (same_size ∙ z) (ap (λ k. u16 (k + 1)) (sym same_number))
          (turned-IsListening r.got f block r.listening)
          (record {
            size_low = omega (arith, o.size_low, same_size);
            opened = refl;
            writable = o.writable;
          })
          (ap (λ (x : Session). x.destination.incoming) r.same) (omega arith))

  length-Carries :
      {size n : ℕ} {blocks : List Bytes} {arrivals : List Arrival}
      → Carries size n blocks arrivals
      → length blocks ≤ length arrivals
  length-Carries complete = omega arith
  length-Carries (carried addr is fits c) = omega (arith, length-Carries c)
  length-Carries (stale addr m old is less fits c) = omega (arith, length-Carries c)

  -- Where the blocks of a file arrive in order, with any number of messages of lesser block numbers
  -- between them, a listening session with an open file ends `ReceiveDataLoop` without error and
  -- has added exactly the bytes of that file to its own.
  pub receive_data_loop-Completes :
      (s : Session) (f : File) (bytes : Bytes) (blocks : List Bytes)
      → IsListening s
      → IsOpen s f
      → Blocks s.block_size bytes blocks
      → Carries s.block_size s.block_number blocks s.destination.incoming
      → Completes (receive_data_loop rt false s) f bytes
  unfolding receive_data_loop
  receive_data_loop-Completes s f bytes blocks l o b c =
      receive_loop-Completes (2 + length s.destination.incoming) s.block_size s.block_number s f
        bytes blocks s.destination.incoming b c refl refl l o refl (omega (arith, length-Carries c))
