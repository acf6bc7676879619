-- ===== src/Session/ReceiveLoop/Written.antt =====
-- Whatever arrives: what a `ReceiveDataLoop` that returns no error has written and acknowledged.
use tftpcpd.Base.{
  ℕ, zero, suc, ◌+◌, ◌≤◌, ◌<◌, Bytes, Bool, false, List, [], ◌∷◌, ◌++◌, none, some, ◌≡◌, refl, sym,
  ap, subst, ◌∙◌, inl, inr, arith, ltb, Bool-cases, true, length, append-nil, append_assoc, ltb→lt,
  ltb→le,
}
use tftpcpd.Wire.{Message, DataMessage, data_message, write_message}
use tftpcpd.Session.Slice.{Slice}
use tftpcpd.Session.State.{Delivery, File, Session, u16, done, ◌>>=◌, Runtime}
use tftpcpd.Session.Io.{packet_size, write_file, acknowledge, receive}
use tftpcpd.Session.Io.Laws.{received, written_to, receive-done}
use tftpcpd.Session.Io.Blocks.{
  ack_bytes, IsOpen, acknowledge-Acknowledges, write_file_end, write_file_more,
}
use tftpcpd.Session.SendLoop.{next_message, next_block}
use tftpcpd.Session.SendLoop.Heard.{>>=-eq-done, done-injective, Heard, Heard-refl, Heard-trans}
use tftpcpd.Session.ReceiveLoop.{
  judge_data, await_data, after_write, receive_round, receive_loop, receive_data_loop,
}
use tftpcpd.Session.Brings.{
  Reads, unread, read, IsStale, Brings, finished, brought, passed, Reads-append, held,
}
use tftpcpd.Session.Transfer.{AreSized, last, full, unaddressed, acks, concat}

judge_data-done : (s t : Session) (b : Bool) → judge_data s ≡ done b t → t ≡ s
unfolding judge_data
judge_data-done s t b h = ground arith

-- The session holds the data message of the block that it awaits.
abbrev Holds : Session → DataMessage → Type 0
Holds s d = (s.most_recent_message ≡ data_message d) × (d.block_number ≡ s.block_number)

judge_data-IsStale :
    (m : Message) (s t : Session)
    → s.most_recent_message ≡ m
    → judge_data s ≡ done true t
    → IsStale s.block_number m
unfolding judge_data
judge_data-IsStale (data_message d) s t e h = ground arith
judge_data-IsStale (write_message m) s t e h = tt
judge_data-IsStale _ s t e h = absurd (ground arith)

judge_data-Holds :
    (m : Message) (s t : Session)
    → s.most_recent_message ≡ m
    → judge_data s ≡ done false t
    → (d : DataMessage) × (s.most_recent_message ≡ data_message d)
      × (d.block_number ≡ s.block_number)
unfolding judge_data
judge_data-Holds (data_message d) s t e h = (d, e, ground arith)
judge_data-Holds _ s t e h = absurd (ground arith)

-- The session after the file took the block and before the acknowledgement.
abbrev pub stored : Session → File → Bytes → Session
stored s f body = record s { file = some (record f { written = f.written ++ body }) }

pub after_write-write_file :
    (s : Session) (f : File) (d : DataMessage)
    → IsOpen s f
    → s.most_recent_message ≡ data_message d
    → after_write (write_file s) ≡ done (ltb (length d.body) s.block_size) (stored s f d.body)
unfolding after_write
after_write-write_file s f d r e = elim (Bool-cases (ltb (length d.body) s.block_size)) [
  | inl short ↦
      rw (write_file_end s f d r e (ltb→lt (length d.body) s.block_size short), after_write)
        (rw short)
  | inr long ↦
      rw (write_file_more s f d r e (ltb→le (length d.body) s.block_size long), after_write)
        (rw long)
]

module _ (rt : Runtime) where
  -- The messages that a session reads from the connection and those that it has read then.
  abbrev ReadsTo : Session → List Message → Session → Type 0
  ReadsTo s messages t =
      Reads rt.map_lower (packet_size s) s.destination.incoming messages t.destination.incoming

  -- The next message: the one that is held, or the first to be read.
  record IsNext (holding : Bool) (s t : Session) : Type 0 where
    heard : Heard s t
    messages : List Message
    reads : ReadsTo s messages t
    first :
        (later : List Message)
        → held holding s.most_recent_message (messages ++ later) ≡ t.most_recent_message ∷ later

  next_message-IsNext :
      (holding : Bool) (s t : Session) → next_message rt holding s ≡ done tt t → IsNext holding s t
  unfolding next_message
  next_message-IsNext true s t h =
      subst (IsNext true s) ended
        (record { heard = Heard-refl s; messages = []; reads = unread; first = λ later. refl })
    where
      ended : s ≡ t
      ended = ground arith
  next_message-IsNext false s t h =
      let (a, u, got, e) = >>=-eq-done (receive rt s) (λ _ v. done tt v) h in
      let r = receive-done rt s u a got in
      let ended : u ≡ t = ground arith in
      subst (IsNext false s) (sym r.result ∙ ended) (record {
        heard = record { later = r.later; buffer = r.buffer; message = r.message; result = refl };
        messages = r.message ∷ [];
        reads =
            subst (λ l. Reads rt.map_lower (packet_size s) l (r.message ∷ []) r.later)
              (sym r.arrived) (read r.addr r.packet refl r.decodes unread);
        first = λ later. refl;
      })

  -- What ends the inner loop.
  record Awaited (holding : Bool) (s t : Session) : Type 0 where
    heard : Heard s t
    block : DataMessage
    holds : Holds t block
    messages : List Message
    reads : ReadsTo s messages t
    brings :
        (blocks : List Bytes) (later : List Message)
        → Brings (u16 (s.block_number + 1)) blocks later
        → Brings s.block_number
            (block.body ∷ blocks)
            (held holding s.most_recent_message (messages ++ later))

  Awaited-hit :
      (holding : Bool) (s u v t : Session)
      → IsNext holding s u
      → judge_data u ≡ done false v
      → v ≡ t
      → Awaited holding s t
  Awaited-hit holding s u v t k judged ended =
      let (d, message, number) = judge_data-Holds u.most_recent_message u v refl judged in
      let same : u ≡ t = sym (judge_data-done u v false judged) ∙ ended in
      subst (Awaited holding s) same (record {
        heard = k.heard;
        block = d;
        holds = (message, number);
        messages = k.messages;
        reads = k.reads;
        brings = λ blocks later b.
            subst (Brings s.block_number (d.body ∷ blocks)) (sym (k.first later))
              (brought d message (number ∙ ap (λ (x : Session). x.block_number) k.heard.result) b);
      })

  Awaited-later :
      (holding : Bool) (s u t : Session)
      → IsNext holding s u
      → IsStale u.block_number u.most_recent_message
      → Awaited false u t
      → Awaited holding s t
  Awaited-later holding s u t k stale later =
      let number = ap (λ (x : Session). x.block_number) k.heard.result in
      let size = ap packet_size k.heard.result in
      record {
        heard = Heard-trans k.heard later.heard;
        block = later.block;
        holds = later.holds;
        messages = k.messages ++ later.messages;
        reads = Reads-append k.reads (
            subst
              (λ n.
                Reads rt.map_lower n u.destination.incoming later.messages t.destination.incoming)
              size later.reads);
        brings = λ blocks l b.
            subst (Brings s.block_number (later.block.body ∷ blocks))
              (sym (k.first (later.messages ++ l))
                ∙ ap (held holding s.most_recent_message)
                    (sym (append_assoc k.messages later.messages l)))
              (passed (subst (λ n. IsStale n u.most_recent_message) number stale) (
                subst (λ n. Brings n (later.block.body ∷ blocks) (later.messages ++ l)) number
                  (later.brings blocks l
                    (subst (λ n. Brings (u16 (n + 1)) blocks l) (sym number) b))));
      }

  await_data-Awaited :
      (fuel : ℕ) (holding : Bool) (s t : Session)
      → await_data rt fuel holding s ≡ done tt t
      → Awaited holding s t
  unfolding await_data
  await_data-Awaited zero holding s t h = absurd (ground arith)
  await_data-Awaited (suc fuel) holding s t h =
      let (_, u, next, e) = >>=-eq-done (next_message rt holding s) _ h in
      let (awaiting, v, judged, k) = >>=-eq-done (judge_data u) _ e in
      let first = next_message-IsNext holding s u next in
      elim (Bool-cases awaiting) [
        | inl more ↦
            let next : await_data rt fuel false v ≡ done tt t = ground arith in
            Awaited-later holding s u t first
              (judge_data-IsStale u.most_recent_message u v refl (rw more at judged))
              (subst (λ x. Awaited false x t) (judge_data-done u v awaiting judged)
                (await_data-Awaited fuel false v t next))
        | inr enough ↦ Awaited-hit holding s u v t first (rw enough at judged) (ground arith)
      ]

  -- What a loop that returns no error has done: the file got the bodies that the messages brought,
  -- one after another, and each block was acknowledged in turn.
  pub record WritesFile (holding : Bool) (s : Session) (f : File) (t : Session) : Type 0 where
    pub messages : List Message
    pub reads : ReadsTo s messages t
    pub blocks : List Bytes
    pub brings : Brings s.block_number blocks (held holding s.most_recent_message messages)
    pub sized : AreSized s.block_size blocks
    pub written : t.file ≡ some (record f { written = f.written ++ concat blocks })
    pub acknowledged :
        t.destination.sent ≡ s.destination.sent ++ unaddressed (acks s.block_number blocks)
    pub filename : t.filename ≡ s.filename

  -- The session after the block `d` was written and acknowledged.
  abbrev settled : Session → File → DataMessage → Slice → List Delivery → Session
  settled s f d b deliveries =
      next_block (written_to (record (stored s f d.body) { send_buf = b }) none deliveries)

  -- A pass that returns no error.
  record TakesBlock (holding : Bool) (s : Session) (f : File) (everything : Bool) (t : Session)
      : Type 0 where
    awaited : Session
    heard : Heard s awaited
    block : DataMessage
    messages : List Message
    reads : ReadsTo s messages t
    brings :
        (blocks : List Bytes) (later : List Message)
        → Brings (u16 (s.block_number + 1)) blocks later
        → Brings s.block_number
            (block.body ∷ blocks)
            (held holding s.most_recent_message (messages ++ later))
    buffer : Slice
    deliveries : List Delivery
    ends : everything ≡ ltb (length block.body) s.block_size
    packet : buffer.shown ≡ ack_bytes s.block_number
    result : t ≡ settled awaited f block buffer deliveries

  TakesBlock-of :
      (holding : Bool) (s a c t : Session) (f : File) (everything : Bool) (w : Awaited holding s a)
      → everything ≡ ltb (length w.block.body) a.block_size
      → acknowledge rt (stored a f w.block.body) ≡ done tt c
      → next_block c ≡ t
      → TakesBlock holding s f everything t
  TakesBlock-of holding s a c t f everything w e acked ended =
      let k = acknowledge-Acknowledges rt (stored a f w.block.body) c acked in
      let same = ap (λ (x : Session). x.block_number) w.heard.result in
      record {
        awaited = a;
        heard = w.heard;
        block = w.block;
        messages = w.messages;
        reads =
            subst (λ (x : Session). ReadsTo s w.messages x)
              (sym (ap (λ (x : Session). next_block x) k.result) ∙ ended) w.reads;
        brings = w.brings;
        buffer = k.buffer;
        deliveries = k.deliveries;
        ends = e ∙ ap (λ (x : Session). ltb (length w.block.body) x.block_size) w.heard.result;
        packet = k.packet ∙ ap (λ n. ack_bytes n) same;
        result = sym ended ∙ ap next_block k.result;
      }

  receive_round-TakesBlock :
      (holding everything : Bool) (s t : Session) (f : File)
      → IsOpen s f
      → receive_round rt holding s ≡ done everything t
      → TakesBlock holding s f everything t
  unfolding receive_round
  receive_round-TakesBlock holding everything s t f r h =
      let (_, a, got, h1) =
        >>=-eq-done (await_data rt (2 + length s.destination.incoming) holding s) _ h in
      let w = await_data-Awaited (2 + length s.destination.incoming) holding s a got in
      let o : IsOpen a f =
        subst (λ x. IsOpen x f) (sym w.heard.result)
          (record { size_low = r.size_low; opened = r.opened; writable = r.writable }) in
      let whole = ltb (length w.block.body) a.block_size in
      let h2 =
        sym (
          ap (λ q. q >>= λ e u. acknowledge rt u >>= λ _ v. done e (next_block v))
            (after_write-write_file a f w.block o w.holds.0))
        ∙ h1 in
      let (_, c, acked, h3) = >>=-eq-done (acknowledge rt (stored a f w.block.body)) _ h2 in
      let fin = done-injective whole everything (next_block c) t h3 in
      TakesBlock-of holding s a c t f everything w fin.0 acked fin.1

  -- The session after such a pass, from the one before it.
  abbrev after_pass :
      (holding : Bool) (s : Session) (f : File) (everything : Bool) (t : Session)
      → TakesBlock holding s f everything t
      → Session
  after_pass holding s f everything t k =
      settled (received s k.heard.later k.heard.buffer k.heard.message) f k.block k.buffer
        k.deliveries

  after_pass-eq :
      (holding : Bool) (s : Session) (f : File) (everything : Bool) (t : Session)
      (k : TakesBlock holding s f everything t)
      → t ≡ after_pass holding s f everything t k
  after_pass-eq holding s f everything t k =
      k.result ∙ ap (λ x. settled x f k.block k.buffer k.deliveries) k.heard.result

  WritesFile-last :
      (holding : Bool) (s t : Session) (f : File) (everything : Bool)
      (k : TakesBlock holding s f everything t)
      → length k.block.body < s.block_size
      → WritesFile holding s f t
  WritesFile-last holding s t f everything k short = record {
    messages = k.messages;
    reads = k.reads;
    blocks = k.block.body ∷ [];
    brings =
        subst
          (λ l. Brings s.block_number (k.block.body ∷ []) (held holding s.most_recent_message l))
          (append-nil k.messages) (k.brings [] [] finished);
    sized = last short;
    written =
        ap (λ (x : Session). x.file) (after_pass-eq holding s f everything t k) ∙ rw append-nil;
    acknowledged =
        ap (λ (x : Session). x.destination.sent) (after_pass-eq holding s f everything t k)
        ∙ rw k.packet;
    filename = ap (λ (x : Session). x.filename) (after_pass-eq holding s f everything t k);
  }

  WritesFile-full :
      (holding : Bool) (s t u : Session) (f : File) (everything : Bool)
      (k : TakesBlock holding s f everything u)
      → s.block_size ≤ length k.block.body
      → WritesFile false
          (after_pass holding s f everything u k)
          (record f { written = f.written ++ k.block.body })
          t
      → WritesFile holding s f t
  WritesFile-full holding s t u f everything k long later = record {
    messages = k.messages ++ later.messages;
    reads = Reads-append k.reads (
        subst
          (λ (x : Session).
            Reads rt.map_lower (packet_size s) x.destination.incoming later.messages
              t.destination.incoming)
          (sym (after_pass-eq holding s f everything u k)) later.reads);
    blocks = k.block.body ∷ later.blocks;
    brings = k.brings later.blocks later.messages later.brings;
    sized = full long later.sized;
    written = later.written ∙ rw (append_assoc f.written k.block.body (concat later.blocks));
    acknowledged = later.acknowledged ∙ rw k.packet (append_assoc s.destination.sent _ _);
    filename = later.filename;
  }

  receive_loop-WritesFile :
      (fuel : ℕ) (holding : Bool) (s t : Session) (f : File)
      → IsOpen s f
      → receive_loop rt fuel holding s ≡ done tt t
      → WritesFile holding s f t
  unfolding receive_loop
  receive_loop-WritesFile zero holding s t f r h = absurd (ground arith)
  receive_loop-WritesFile (suc fuel) holding s t f r h =
      let (everything, u, round, rest) = >>=-eq-done (receive_round rt holding s) _ h in
      let k = receive_round-TakesBlock holding everything s u f r round in
      elim (Bool-cases everything) [
        | inl whole ↦
            let ended : u ≡ t = ground arith in
            subst (WritesFile holding s f) ended
              (WritesFile-last holding s u f everything k (ltb→lt _ _ (sym k.ends ∙ whole)))
        | inr more ↦
            let next : receive_loop rt fuel false u ≡ done tt t = ground arith in
            let after = after_pass holding s f everything u k in
            WritesFile-full holding s t u f everything k (ltb→le _ _ (sym k.ends ∙ more)) (
              receive_loop-WritesFile fuel false after t
                (record f { written = f.written ++ k.block.body })
                (record { size_low = r.size_low; opened = refl; writable = r.writable })
                (subst (λ x. receive_loop rt fuel false x ≡ done tt t)
                  (after_pass-eq holding s f everything u k) next))
      ]

  -- Whatever arrives from the network: where a session has a block size of at least 8 and a file
  -- that can be written, and ReceiveDataLoop returns no error, it has read some messages from the
  -- front of what arrived, after the one that it held if it held one. The file has grown by
  -- exactly the bodies that these messages bring: for each number from the session's block number
  -- on, in order and as uint16, the body of the first data message that has it, where any other
  -- message before it is a block of a lesser number or a write request. All bodies but the last
  -- are full blocks and the last is short, and exactly these blocks were acknowledged, in order
  -- and each once.
  pub receive_data_loop-WritesFile :
      (holding : Bool) (s t : Session) (f : File)
      → IsOpen s f
      → receive_data_loop rt holding s ≡ done tt t
      → WritesFile holding s f t
  unfolding receive_data_loop
  receive_data_loop-WritesFile holding s t f r h =
      receive_loop-WritesFile (2 + length s.destination.incoming) holding s t f r h
