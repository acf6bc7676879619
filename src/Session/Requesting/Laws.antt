-- ===== src/Session/Requesting/Laws.antt =====
-- A client's request is what the server admits.
use tftpcpd.Base.{ℕ, Bytes, [], ◌∷◌, ◌++◌, some, ◌≡◌, ◌≢◌, refl, ap, file_of}
use tftpcpd.Wire.{Message, Options, read_message, write_message, other}
use tftpcpd.Wire.Encode.Layout.{layout}
use tftpcpd.Wire.Decode.{new_read_message, new_write_message}
use tftpcpd.Wire.Decode.RoundTrip.{IsRequest, bytes_as_message-layout}
use tftpcpd.Session.Slice.{overwrite}
use tftpcpd.Session.Slice.Laws.{shown-overwrite}
use tftpcpd.Session.State.{
  Operation, read_as_server, write_as_server, Session, Outcome, done, ◌>>=◌, Runtime,
}
use tftpcpd.Session.Io.{store, send}
use tftpcpd.Session.Io.Blocks.{store_lem}
use tftpcpd.Session.Io.Laws.{written_to, send_whole}
use tftpcpd.Session.Opening.{accept}
use tftpcpd.Session.Requesting.{client_mode, request_read, request_write}

module _ (rt : Runtime) where
  -- A request that a client sent to `addr`, and what becomes of the server's session `r` when it
  -- accepts the datagram.
  pub record IsAnswered (o : Outcome (Unit {0})) (s r : Session) (addr : ℕ) (op : Operation)
      (name : Bytes) (m : Message) : Type 0 where
    pub final : Session
    pub ends : o ≡ done tt final
    pub packet : Bytes
    pub sent : final.destination.sent ≡ s.destination.sent ++ ((some addr, packet) ∷ [])
    pub admitted :
        accept rt packet r
        ≡ done op (record r {
          most_recent_message = m;
          operation = op;
          filename = name;
          mode = client_mode;
        })

  -- The session whose buffer holds the request.
  abbrev asking : Session → Message → Bytes → Options → Session
  asking s m filename options = record s {
    send_buf = overwrite rt.spare (layout rt.map_lower m) s.send_buf;
    filename = filename;
    options = options;
  }

  asking-IsAnswered :
      (addr : ℕ) (filename : Bytes) (options : Options) (s r : Session) (op : Operation)
      (name : Bytes) (m : Message)
      → m ≢ other
      → s.destination.deliveries ≡ []
      → accept rt (layout rt.map_lower m) r
        ≡ done op (record r {
          most_recent_message = m;
          operation = op;
          filename = name;
          mode = client_mode;
        })
      → IsAnswered
          (store rt m s >>= λ _ t.
            send (some addr) (record t { filename = filename; options = options }))
          s
          r
          addr
          op
          name
          m
  asking-IsAnswered addr filename options s r op name m h quiet a = record {
    final = written_to (asking s m filename options) (some addr) [];
    ends = rw (store_lem rt m s h) (send_whole (some addr) (asking s m filename options) quiet);
    packet = layout rt.map_lower m;
    sent =
        ap (λ b. s.destination.sent ++ ((some addr, b) ∷ []))
          (shown-overwrite rt.spare (layout rt.map_lower m) s.send_buf);
    admitted = a;
  }

  -- A client's ReadMessage on a connection that refuses nothing returns no error and sends one
  -- datagram; where a server's Accept gets it, it opens a read of the file of that name, with the
  -- options that the client asked for. The file name has no null byte, the options are such as
  -- the wire format can carry, and name, mode and options with their null bytes are the 8 bytes
  -- that the decoder asks for, which an empty name without options is not.
  pub request_read-IsAnswered :
      (addr : ℕ) (filename : Bytes) (options : Options) (s r : Session)
      → IsRequest rt.map_lower (file_of filename) client_mode options
      → s.destination.deliveries ≡ []
      → IsAnswered
          (request_read rt (some addr) filename options s)
          s
          r
          addr
          read_as_server
          (file_of filename)
          (read_message (new_read_message filename client_mode options))
  unfolding request_read
  request_read-IsAnswered addr filename options s r h quiet =
      let m = read_message (new_read_message filename client_mode options) in
      asking-IsAnswered addr filename options s r read_as_server (file_of filename) m (λ e. cc)
        quiet (unfold accept new_read_message in rw (bytes_as_message-layout rt.map_lower m h) refl)

  -- A client's WriteMessage on a connection that refuses nothing returns no error and sends one
  -- datagram; where a server's Accept gets it, it opens a write of the file of that name, with
  -- the options that the client asked for. The file name has no null byte, the options are such
  -- as the wire format can carry, and name, mode and options with their null bytes are the 8
  -- bytes that the decoder asks for, which an empty name without options is not.
  pub request_write-IsAnswered :
      (addr : ℕ) (filename : Bytes) (options : Options) (s r : Session)
      → IsRequest rt.map_lower (file_of filename) client_mode options
      → s.destination.deliveries ≡ []
      → IsAnswered
          (request_write rt (some addr) filename options s)
          s
          r
          addr
          write_as_server
          (file_of filename)
          (write_message (new_write_message filename client_mode options))
  unfolding request_write
  request_write-IsAnswered addr filename options s r h quiet =
      let m = write_message (new_write_message filename client_mode options) in
      asking-IsAnswered addr filename options s r write_as_server (file_of filename) m (λ e. cc)
        quiet
        (unfold accept new_write_message in rw (bytes_as_message-layout rt.map_lower m h) refl)
