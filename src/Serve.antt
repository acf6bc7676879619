-- ===== src/Serve.antt =====
-- internal/session.go: `ReadAsServer` and `WriteAsServer`, and internal/server.go: the routine of
-- one session. What a deferred call does after a panic is done on the session as it was when the
-- call was deferred; the process ends after it.
pub mod Kept
pub mod Downloads
pub mod Uploads
pub mod Served
pub mod Delivery
pub mod Routine
mod Tests
use tftpcpd.Base.{
  ℕ, ◌+◌, Bytes, Bool, true, false, [], ◌∷◌, Option, none, some, codes, ◌==◌, if◌then◌else◌, length,
}
use tftpcpd.Wire.{
  Options, Message, read_message, write_message, acknowledge_message,
  opcode_option_acknowledge_byte,
}
use tftpcpd.Session.Slice.{len, make}
use tftpcpd.Session.State.{
  read_as_server, write_as_server, Operation, Connection, Session, Fault, no_such_file,
  invalid_options, unable_to_acknowledge, not_acknowledged, not_prepared, not_overwritten, Outcome,
  done, failed, panic, out_of_fuel, ◌>>=◌, Runtime,
}
use tftpcpd.Session.Io.{packet_size, receive, report_error, acknowledge, acknowledge_options}
use tftpcpd.Session.SendLoop.{send_data_loop}
use tftpcpd.Session.ReceiveLoop.{receive_data_loop}
use tftpcpd.Session.Options.{Lstat, update_options}
use tftpcpd.Session.Opening.{new_tftp_session, last_sent_message_type, accept}
use tftpcpd.Files.Table.{Engine}
use tftpcpd.Files.World.{World, find_file}
use tftpcpd.Files.Methods.{reserve, release, prepare, overwrite_success, overwrite_failure}

abbrev pub error_code_undefined : ℕ
error_code_undefined = 0

-- `Directory.Lstat`, for the sizes of the files
abbrev pub lstat_of : World → Lstat
lstat_of w path = elim (find_file path w.disk) [ none ↦ none | some bytes ↦ some (length bytes) ]

-- An error of the session's own, whatever became of the message that reports it.
abbrev pub reported : {A : Type 0} → Fault → Outcome (Unit {0}) → Outcome A
reported fault (done _ s) = failed fault s
reported fault (failed _ s) = failed fault s
reported fault panic = panic
reported fault out_of_fuel = out_of_fuel

-- An error that is returned in place of another.
abbrev pub blamed : Fault → Outcome (Unit {0}) → Outcome (Unit {0})
blamed fault (failed _ s) = failed fault s
blamed fault o = o

abbrev is_none : Options → Bool
is_none [] = true
is_none (p ∷ o) = false

-- The buffers, where they have not the length of a packet.
unfoldable pub resized : Session → Session
resized s = record s {
  send_buf = if len s.send_buf == packet_size s then s.send_buf else make (packet_size s);
  receive_buf = if len s.receive_buf == packet_size s then s.receive_buf else make (packet_size s);
}

-- The session that the outcome leaves, or one in its place.
abbrev pub session_of : Outcome (Unit {0}) → Session → Session
session_of (done _ s) t = s
session_of (failed _ s) t = s
session_of _ t = t

module _ (rt : Runtime) where
  -- What both methods do where `UpdateOptions` returns an error.
  pub options_checked : Outcome (Unit {0}) → Outcome (Unit {0})
  options_checked (failed _ s) =
      reported invalid_options (
        report_error rt error_code_undefined (codes "One or more options contain invalid values") s)
  options_checked o = o

  -- The test on the first acknowledgement of a client that asked for options.
  pub judge_option_ack : Session → Outcome (Unit {0})
  judge_option_ack s = elim s.most_recent_message [
    | acknowledge_message a ↦
        if a.block_number == 0
        then done tt (record s { last_valid_message = s.most_recent_message })
        else failed not_acknowledged s
    | _ ↦ failed not_acknowledged s
  ]

  -- `case OpcodeOptionAcknowledgeByte` of `ReadAsServer`
  pub await_option_ack : Session → Outcome (Unit {0})
  await_option_ack s =
      receive rt (record s { last_valid_message = s.most_recent_message }) >>= λ _ t.
      judge_option_ack t

  -- What `ReadAsServer` does with the options of the request, up to the first block.
  pub open_read : Lstat → Options → Session → Outcome (Unit {0})
  open_read lstat options s = options_checked (update_options rt lstat options s) >>= λ _ t.
      (if is_none t.options
        then done tt t
        else blamed unable_to_acknowledge (acknowledge_options rt t))
      >>= λ _ u.
          if last_sent_message_type u == opcode_option_acknowledge_byte
          then await_option_ack u
          else done tt u

  -- `ReadAsServer` once the file was reserved; another message than a read request is none that
  -- the conversion of `MostRecentMessage` takes.
  pub serve_request : Lstat → Message → Session → Outcome (Unit {0})
  serve_request lstat (read_message m) s = open_read lstat m.options s >>= λ _ t.
      send_data_loop rt false (resized (record t { block_number = 1 }))
  serve_request lstat _ s = panic

  unfoldable pub serve_read : Lstat → Session → Outcome (Unit {0})
  unfolding serve_request
  serve_read lstat s = serve_request lstat s.most_recent_message s

  -- `WriteAsServer` up to `Prepare`.
  pub open_write : Lstat → Options → Session → Outcome (Unit {0})
  open_write lstat options s = options_checked (update_options rt lstat options s) >>= λ _ t.
      (let u = record t { block_number = 0 } in
        blamed unable_to_acknowledge
          (if is_none u.options then acknowledge rt u else acknowledge_options rt u))
      >>= λ _ v.
          done tt
            (resized (record v { last_valid_message = v.most_recent_message; block_number = 1 }))

  module _ (e : Engine) where
    -- The deferred `Release`.
    pub released : ℕ → Outcome (Unit {0}) → Session → World → Outcome (Unit {0}) × World
    released started o s w = (o, (release e started (session_of o s) w).1)

    pub read_reserved : Option (ℕ × Session) × World → Session → Outcome (Unit {0}) × World
    unfolding released
    read_reserved (none, w) s = (failed no_such_file (record s { unix_micro = 0 }), w)
    read_reserved (some (started, t), w) s =
        let u = record t { unix_micro = started } in
        released started (serve_read (lstat_of w) u) u w

    -- `ReadAsServer`
    unfoldable pub read_as_server_of : Session → World → Outcome (Unit {0}) × World
    unfolding read_reserved
    read_as_server_of s w = read_reserved (reserve e s w) s

    -- The end of `WriteAsServer` with the deferred `OverwriteFailure`, which finds the file closed
    -- where `OverwriteSuccess` was called.
    pub overwritten : ℕ → Session → Option (Unit {0}) × World → Outcome (Unit {0}) × World
    overwritten started s (none, w) =
        (failed not_overwritten s, (overwrite_failure e true started s w).1)
    overwritten started s (some _, w) = (done tt s, (overwrite_failure e true started s w).1)

    pub write_received : ℕ → ℕ → Outcome (Unit {0}) → Session → World → Outcome (Unit {0}) × World
    unfolding overwritten
    write_received completed started (done _ s) t w =
        overwritten started s (overwrite_success e completed started s w)
    write_received completed started o t w =
        (o, (overwrite_failure e false started (session_of o t) w).1)

    pub write_prepared : ℕ → Option (ℕ × Session) × World → Session → Outcome (Unit {0}) × World
    unfolding write_received
    write_prepared completed (none, w) s = (failed not_prepared s, w)
    write_prepared completed (some (started, t), w) s =
        write_received completed started (receive_data_loop rt false t) t w

    pub write_opened : ℕ → ℕ → Outcome (Unit {0}) → World → Outcome (Unit {0}) × World
    unfolding write_prepared
    write_opened now completed (done _ s) w = write_prepared completed (prepare e now s w) s
    write_opened now completed o w = (o, w)

    pub write_request : ℕ → ℕ → Message → Session → World → Outcome (Unit {0}) × World
    unfolding write_opened
    write_request now completed (write_message m) s w =
        write_opened now completed (open_write (lstat_of w) m.options s) w
    write_request now completed _ s w = (panic, w)

    -- `WriteAsServer`; the times are those of `Prepare` and of `OverwriteSuccess`.
    unfoldable pub write_as_server_of : ℕ → ℕ → Session → World → Outcome (Unit {0}) × World
    unfolding write_request
    write_as_server_of now completed s w = write_request now completed s.most_recent_message s w

    module _ (describe : Fault → Bytes) where
      -- The error that the routine reports to the client; `describe` is the error's text.
      pub told : Outcome (Unit {0}) × World → Outcome (Unit {0}) × World
      told (failed f s, w) = (reported f (report_error rt error_code_undefined (describe f) s), w)
      told (o, w) = (o, w)

      pub routine_accepted : ℕ → ℕ → Outcome Operation → World → Outcome (Unit {0}) × World
      unfolding told
      routine_accepted now completed (done read_as_server s) w = told (read_as_server_of s w)
      routine_accepted now completed (done write_as_server s) w =
          told (write_as_server_of now completed s w)
      routine_accepted now completed (done _ s) w =
          (report_error rt error_code_undefined (codes "Client requested invalid operation") s, w)
      routine_accepted now completed (failed f s) w = told (failed f s, w)
      routine_accepted now completed panic w = (panic, w)
      routine_accepted now completed out_of_fuel w = (out_of_fuel, w)

      -- `sessionRoutine`, once it is connected to the client; `bytes` is the client's datagram.
      unfoldable pub session_routine :
          ℕ → ℕ → Connection → Bytes → World → Outcome (Unit {0}) × World
      unfolding routine_accepted
      session_routine now completed c bytes w =
          routine_accepted now completed (accept rt bytes (new_tftp_session c)) w
