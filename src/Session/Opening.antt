-- ===== src/Session/Opening.antt =====
-- internal/session.go: `NewTftpSession`, `LastSentMessageType` and `Accept`.
pub mod Laws
pub mod Buffers
use tftpcpd.Base.{ℕ, ◌+◌, Bytes, [], ◌∷◌, none, ltb, if◌then◌else◌, codes}
use tftpcpd.Wire.{Message, Result, ok, err, read_message, write_message, other, opcode_invalid}
use tftpcpd.Wire.Decode.{bytes_as_message}
use tftpcpd.Session.Slice.{len, make}
use tftpcpd.Session.State.{
  data_preamble_length, Operation, read_as_client, read_as_server, write_as_server, Connection,
  Session, unknown_opening_message, invalid_opening, Outcome, done, failed, panic, out_of_fuel,
  Runtime,
}
use tftpcpd.Session.Io.{report_error}

-- `NewTftpSession`, which returns no error; fields that it does not set have Go's zero values.
unfoldable pub new_tftp_session : Connection → Session
new_tftp_session destination = record {
  destination = destination;
  send_buf = make (512 + data_preamble_length);
  receive_buf = make (512 + data_preamble_length);
  file = none;
  unix_micro = 0;
  operation = read_as_client;
  filename = [];
  mode = [];
  options = [];
  block_size = 512;
  timeout = 5;
  transfer_size = 0;
  window_size = 512;
  block_number = 0;
  last_valid_message = other;
  most_recent_message = other;
}

abbrev second_byte : Bytes → ℕ
second_byte (a ∷ b ∷ rest) = b
second_byte _ = 0

-- `LastSentMessageType`
unfoldable pub last_sent_message_type : Session → ℕ
last_sent_message_type s =
    if ltb (len s.send_buf) 2 then opcode_invalid else second_byte s.send_buf.shown

-- What is left of `Accept` once the error message was tried: its own error is dropped.
refused_opening : Outcome (Unit {0}) → Outcome Operation
refused_opening (done _ s) = failed invalid_opening s
refused_opening (failed _ s) = failed invalid_opening s
refused_opening panic = panic
refused_opening out_of_fuel = out_of_fuel

abbrev pub error_code_illegal_operation : ℕ
error_code_illegal_operation = 4

-- The `switch` on the message.
accept_message : Runtime → Message → Session → Outcome Operation
unfolding refused_opening
accept_message rt (read_message m) s =
    done read_as_server
      (record s { operation = read_as_server; filename = m.filename; mode = m.mode })
accept_message rt (write_message m) s =
    done write_as_server
      (record s { operation = write_as_server; filename = m.filename; mode = m.mode })
accept_message rt _ s = refused_opening (
    report_error rt error_code_illegal_operation
      (codes "Client requested invalid operation when opening connection") s)

accept_result : Runtime → Result Message → Session → Outcome Operation
unfolding accept_message
accept_result rt (ok m) s = accept_message rt m (record s { most_recent_message = m })
accept_result rt (err e) s =
    failed unknown_opening_message (record s { most_recent_message = other })

-- `Accept`
unfoldable pub accept : Runtime → Bytes → Session → Outcome Operation
unfolding accept_result
accept rt bytes s = accept_result rt (bytes_as_message rt.map_lower bytes) s
