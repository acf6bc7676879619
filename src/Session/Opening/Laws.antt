-- ===== src/Session/Opening/Laws.antt =====
-- What `Accept` admits.
use tftpcpd.Base.{Bytes, ◌≡◌, ◌≢◌, refl, subst, arith, codes}
use tftpcpd.Wire.{ReadMessage, WriteMessage, Message, Result, ok, err, read_message, write_message}
use tftpcpd.Wire.Decode.{bytes_as_message}
use tftpcpd.Wire.Decode.Inverse.{IsFileName, IsLocal, bytes_as_message-IsLocal}
use tftpcpd.Session.State.{
  Operation, read_as_server, write_as_server, Session, Outcome, done, failed, Runtime,
}
use tftpcpd.Session.Io.{report_error}
use tftpcpd.Session.Options.Laws.{IsNegotiated}
use tftpcpd.Session.Opening.{
  accept, accept_result, accept_message, refused_opening, error_code_illegal_operation,
}

-- What a first message asks the server for: the operation, the file name and the mode.
pub data Opens : Message → Operation → Bytes → Bytes → Type 0 where
  reading : (m : ReadMessage) → Opens (read_message m) read_as_server m.filename m.mode
  writing : (m : WriteMessage) → Opens (write_message m) write_as_server m.filename m.mode

module _ (rt : Runtime) where
  -- What the server knows of a session that it admitted.
  pub record IsAdmitted (bytes : Bytes) (op : Operation) (s t : Session) : Type 0 where
    pub message : Message
    pub decoded : bytes_as_message rt.map_lower bytes ≡ ok message
    pub name : Bytes
    pub mode : Bytes
    pub opens : Opens message op name mode
    pub result :
        t ≡ record s { most_recent_message = message; operation = op; filename = name; mode = mode }
    pub file_name : IsFileName name

  refused_opening-ne-done :
      (o : Outcome (Unit {0})) (op : Operation) (t : Session) → refused_opening o ≢ done op t
  unfolding refused_opening
  refused_opening-ne-done (done _ s) op t h = ground arith
  refused_opening-ne-done (failed _ s) op t h = ground arith
  refused_opening-ne-done _ op t h = ground arith

  accept_message-IsAdmitted :
      (bytes : Bytes) (m : Message) (op : Operation) (s t : Session)
      → bytes_as_message rt.map_lower bytes ≡ ok m
      → IsLocal m
      → accept_message rt m (record s { most_recent_message = m }) ≡ done op t
      → IsAdmitted bytes op s t
  unfolding accept_message
  accept_message-IsAdmitted bytes (read_message m) op s t e l h = record {
    message = read_message m;
    decoded = e;
    name = m.filename;
    mode = m.mode;
    opens = subst (λ o. Opens (read_message m) o m.filename m.mode) (ground arith) (reading m);
    result = ground arith;
    file_name = l;
  }
  accept_message-IsAdmitted bytes (write_message m) op s t e l h = record {
    message = write_message m;
    decoded = e;
    name = m.filename;
    mode = m.mode;
    opens = subst (λ o. Opens (write_message m) o m.filename m.mode) (ground arith) (writing m);
    result = ground arith;
    file_name = l;
  }
  accept_message-IsAdmitted bytes _ op s t e l h = absurd (
      refused_opening-ne-done
        (report_error rt error_code_illegal_operation
          (codes "Client requested invalid operation when opening connection") _)
        op t h)

  -- Whatever datagram opens a session: where Accept admits it for an operation, the datagram
  -- decodes to a read request and the operation is the server's read, or it decodes to a write
  -- request and the operation is the server's write. The session records the message, the
  -- operation, and the request's file name and mode, and is as before otherwise; the file name
  -- has no separator and no null byte.
  pub accept-IsAdmitted :
      (bytes : Bytes) (op : Operation) (s t : Session)
      → accept rt bytes s ≡ done op t
      → IsAdmitted bytes op s t
  unfolding accept accept_result
  accept-IsAdmitted bytes op s t h = go (bytes_as_message rt.map_lower bytes) refl h
    where
      go :
          (r : Result Message)
          → bytes_as_message rt.map_lower bytes ≡ r
          → accept_result rt r s ≡ done op t
          → IsAdmitted bytes op s t
      go (ok m) e k =
          accept_message-IsAdmitted bytes m op s t e
            (bytes_as_message-IsLocal rt.map_lower bytes m e) k
      go (err x) e k = absurd (ground arith)

  accept_message-IsNegotiated :
      (m : Message) (op : Operation) (s t : Session)
      → IsNegotiated s
      → accept_message rt m s ≡ done op t
      → IsNegotiated t
  unfolding accept_message
  accept_message-IsNegotiated (read_message m) op s t n h = record {
    size_low = ground arith;
    size_high = ground arith;
    timeout_low = ground arith;
    timeout_high = ground arith;
  }
  accept_message-IsNegotiated (write_message m) op s t n h = record {
    size_low = ground arith;
    size_high = ground arith;
    timeout_low = ground arith;
    timeout_high = ground arith;
  }
  accept_message-IsNegotiated _ op s t n h = absurd (
      refused_opening-ne-done
        (report_error rt error_code_illegal_operation
          (codes "Client requested invalid operation when opening connection") s)
        op t h)

  -- `Accept` leaves block size and timeout as they are.
  pub accept-IsNegotiated :
      (bytes : Bytes) (op : Operation) (s t : Session)
      → IsNegotiated s
      → accept rt bytes s ≡ done op t
      → IsNegotiated t
  unfolding accept accept_result
  accept-IsNegotiated bytes op s t n h = go (bytes_as_message rt.map_lower bytes) h
    where
      go : (r : Result Message) → accept_result rt r s ≡ done op t → IsNegotiated t
      go (ok m) k =
          accept_message-IsNegotiated m op (record s { most_recent_message = m }) t
            (record {
              size_low = n.size_low;
              size_high = n.size_high;
              timeout_low = n.timeout_low;
              timeout_high = n.timeout_high;
            })
            k
      go (err x) k = absurd (ground arith)
