-- ===== src/Session/SendLoop.antt =====
-- internal/session.go: `SendDataLoop`.
pub mod Room
pub mod Read
pub mod Heard
pub mod Sent
pub mod Complete
pub mod GivesUp
pub mod Total
use tftpcpd.Base.{
  ℕ, zero, suc, ◌+◌, Bool, true, false, ◌||◌, ltb, ◌==◌, if◌then◌else◌, length, none,
}
use tftpcpd.Wire.{Message, read_message, acknowledge_message, error_message}
use tftpcpd.Session.Slice.{len}
use tftpcpd.Session.State.{
  data_preamble_length, Session, u16, Fault, file_eof, file_read_error, peer_error,
  unable_to_send_data, many_retransmissions, out_of_sync, invalid_operation, Outcome, done, failed,
  panic, out_of_fuel, ◌>>=◌, Runtime,
}
use tftpcpd.Session.Io.{packet_size, read_file, send, receive}

-- `errors.Is(err, io.EOF)` for the errors of this file
abbrev pub is_file_eof : Fault → Bool
is_file_eof file_eof = true
is_file_eof _ = false

-- The test on `ReadFile`'s result: has the whole file been read?
pub after_read : Outcome (Unit {0}) → Outcome Bool
after_read (done _ s) = done (ltb (len s.send_buf) (packet_size s)) s
after_read (failed e s) =
    if is_file_eof e || ltb (len s.send_buf) (packet_size s)
    then done true s
    else failed file_read_error s
after_read panic = panic
after_read out_of_fuel = out_of_fuel

-- `session.DataMessage`, and what the loop makes of its error
pub after_send : Outcome (Unit {0}) → Outcome (Unit {0})
after_send (failed _ s) = failed unable_to_send_data s
after_send o = o

-- The `switch` on the message: is the acknowledgement still awaited?
pub judge_ack : Session → Outcome Bool
judge_ack s = elim s.most_recent_message [
  | read_message _ ↦ done true s
  | acknowledge_message a ↦
      if a.block_number == s.block_number
      then done false s
      else if ltb s.block_number a.block_number
      then failed out_of_sync s
      else done true s
  | error_message e ↦ failed (peer_error e.explanation) s
  | _ ↦ failed invalid_operation s
]

-- `alreadyHoldingMessage` or a call of `Receive`
unfoldable pub next_message : Runtime → Bool → Session → Outcome (Unit {0})
next_message rt true s = done tt s
next_message rt false s = receive rt s >>= λ _ t. done tt t

-- The inner loop; `left` is how many passes `i > 5` still allows.
pub await_ack : Runtime → ℕ → Bool → Session → Outcome (Unit {0})
await_ack rt zero holding s = failed many_retransmissions s
await_ack rt (suc left) holding s = next_message rt holding s >>= λ _ t.
    judge_ack t >>= λ awaiting u. elim awaiting [
      | true ↦ await_ack rt left false u
      | false ↦ done tt u
    ]

-- The session at the end of a pass of the outer loop.
abbrev pub next_block : Session → Session
next_block s = record s {
  last_valid_message = s.most_recent_message;
  block_number = u16 (s.block_number + 1);
}

-- One pass of the outer loop: was this the last block?
pub send_round : Runtime → Bool → Session → Outcome Bool
send_round rt holding s = after_read (read_file rt s) >>= λ everything t.
    after_send (send none t) >>= λ _ u.
    await_ack rt 5 holding u >>= λ _ v. done everything (next_block v)

pub send_loop : Runtime → ℕ → Bool → Session → Outcome (Unit {0})
send_loop rt zero holding s = out_of_fuel
send_loop rt (suc fuel) holding s = send_round rt holding s >>= λ everything t. elim everything [
  | true ↦ done tt t
  | false ↦ send_loop rt fuel false t
]

-- `SendDataLoop`. Every pass but the first takes a message from the connection.
unfoldable pub send_data_loop : Runtime → Bool → Session → Outcome (Unit {0})
unfolding send_loop send_round after_read after_send await_ack judge_ack next_message
send_data_loop rt holding s = send_loop rt (2 + length s.destination.incoming) holding s
