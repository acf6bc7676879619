-- ===== src/Session/Io/Laws.antt =====
-- What the basic methods leave of the session.
use tftpcpd.Base.{
  ℕ, ◌≤◌, ◌<◌, Bytes, List, [], ◌∷◌, ◌++◌, Option, none, some, ◌≡◌, refl, arith, length, take,
  take_all,
}
use tftpcpd.Wire.{Result, ok, err, Message}
use tftpcpd.Wire.Decode.{bytes_as_message}
use tftpcpd.Session.Slice.{Slice, len, capacity, reslice, copy_front}
use tftpcpd.Session.Slice.Laws.{window, reslice_fits, len-window, len-reslice}
use tftpcpd.Session.State.{
  Arrival, cancelled, datagram, Delivery, whole, Session, done, panic, Runtime,
}
use tftpcpd.Session.Io.{
  packet_size, send, send_with, write_to, delivered, receive, receive_from, take_arrival, decoded,
}

-- The session after something was read from the connection.
abbrev pub received : Session → List Arrival → Slice → Message → Session
received s later b m = record s {
  destination = record (s.destination) { incoming = later };
  receive_buf = b;
  most_recent_message = m;
}

-- The session after something was written to the connection.
abbrev pub written_to : Session → Option ℕ → List Delivery → Session
written_to s to later = record s {
  destination = record (s.destination) {
    sent = s.destination.sent ++ ((to, s.send_buf.shown) ∷ []);
    deliveries = later;
  };
}

send_with-done :
    (to : Option ℕ) (s t : Session) (ds : List Delivery)
    → send_with to s ds ≡ done tt t
    → (later : List Delivery) × (t ≡ written_to s to later)
unfolding send_with write_to delivered
send_with-done to s t [] h = ([], ground arith)
send_with-done to s t (whole ∷ later) h = (later, ground arith)
send_with-done to s t (_ ∷ later) h = absurd (ground arith)

-- A send that returns no error adds the whole of `SendBuf` to what was sent.
pub send-done :
    (to : Option ℕ) (s t : Session)
    → send to s ≡ done tt t
    → (later : List Delivery) × (t ≡ written_to s to later)
unfolding send
send-done to s t h = send_with-done to s t s.destination.deliveries h

-- On a connection that refuses nothing a send returns no error.
pub send_whole :
    (to : Option ℕ) (s : Session)
    → s.destination.deliveries ≡ []
    → send to s ≡ done tt (written_to s to [])
unfolding send send_with
send_whole to s h = rw (h, send_with, delivered, write_to)

module _ (rt : Runtime) where
  -- What a read that returns no error leaves: the first arrival was a datagram, and is used up.
  pub record IsReceived (s t : Session) : Type 0 where
    pub later : List Arrival
    pub buffer : Slice
    pub message : Message
    pub result : t ≡ received s later buffer message
    pub shorter : length later < length s.destination.incoming
    pub addr : ℕ
    pub packet : Bytes
    pub arrived : s.destination.incoming ≡ datagram addr packet ∷ later
    pub decodes : bytes_as_message rt.map_lower (take (packet_size s) packet) ≡ ok message

  decoded-done :
      (addr a : ℕ) (r : Result Message) (s t : Session)
      → decoded rt addr r s ≡ done a t
      → (m : Message) × (r ≡ ok m) × (t ≡ record s { most_recent_message = m })
  unfolding decoded
  decoded-done addr a (ok m) s t h = (m, refl, ground arith)
  decoded-done addr a (err e) s t h = absurd (ground arith)

  take_arrival-done :
      (w : Slice) (s t : Session) (l : List Arrival) (a : ℕ)
      → len w ≡ packet_size s
      → s.destination.incoming ≡ l
      → take_arrival rt w s l ≡ done a t
      → IsReceived s t
  unfolding take_arrival
  take_arrival-done w s t [] a size e h = absurd (ground arith)
  take_arrival-done w s t (datagram addr bytes ∷ later) a size e h =
      let (m, got, r) = decoded-done addr a _ _ t h in
      record {
        later = later;
        buffer = copy_front (take (len w) bytes) w;
        message = m;
        result = r;
        shorter = rw e (omega arith);
        addr = addr;
        packet = bytes;
        arrived = e;
        decodes = rw (← size) got;
      }
  take_arrival-done w s t (_ ∷ later) a size e h = absurd (ground arith)

  receive_from-done :
      (s t : Session) (l : List Arrival) (a : ℕ)
      → s.destination.incoming ≡ l
      → receive_from rt s l ≡ done a t
      → IsReceived s t
  unfolding receive_from
  receive_from-done s t (cancelled ∷ later) a e h = absurd (ground arith)
  receive_from-done s t l a e h = windowed (reslice (packet_size s) s.receive_buf) refl h
    where
      windowed :
          (o : Option Slice)
          → reslice (packet_size s) s.receive_buf ≡ o
          → elim o [ none ↦ panic | some w ↦ take_arrival rt w s l ] ≡ done a t
          → IsReceived s t
      windowed none r k = absurd (ground arith)
      windowed (some w) r k =
          take_arrival-done w s t l a (len-reslice (packet_size s) s.receive_buf w r) e k

  pub receive-done : (s t : Session) (a : ℕ) → receive rt s ≡ done a t → IsReceived s t
  unfolding receive
  receive-done s t a h = receive_from-done s t s.destination.incoming a refl h

  -- A datagram that fits a packet and decodes is received.
  pub receive_datagram :
      (s : Session) (addr : ℕ) (bytes : Bytes) (later : List Arrival) (m : Message)
      → s.destination.incoming ≡ datagram addr bytes ∷ later
      → packet_size s ≤ capacity s.receive_buf
      → length bytes ≤ packet_size s
      → bytes_as_message rt.map_lower bytes ≡ ok m
      → receive rt s
        ≡ done addr (received s later (copy_front bytes (window (packet_size s) s.receive_buf)) m)
  unfolding receive receive_from take_arrival decoded
  receive_datagram s addr bytes later m arrives room fits decodes =
      rw (arrives, receive_from)
        (rw (reslice_fits (packet_size s) s.receive_buf room) (
          rw (len-window (packet_size s) s.receive_buf room, take_all (packet_size s) bytes fits)
            (rw (decodes, decoded))))
