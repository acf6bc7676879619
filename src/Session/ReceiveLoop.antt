-- ===== src/Session/ReceiveLoop.antt =====
-- internal/session.go: `ReceiveDataLoop`.
pub mod Written
pub mod Complete
use tftpcpd.Base.{ℕ, zero, suc, ◌+◌, Bool, true, false, ltb, ◌==◌, if◌then◌else◌, length}
use tftpcpd.Wire.{Message, write_message, data_message, error_message}
use tftpcpd.Session.State.{
  Session, Fault, peer_error, out_of_sync, invalid_operation, Outcome, done, failed, panic,
  out_of_fuel, ◌>>=◌, Runtime,
}
use tftpcpd.Session.Io.{write_file, acknowledge}
use tftpcpd.Session.SendLoop.{is_file_eof, next_message, next_block}

-- The `switch` on the message: is the data block still awaited?
pub judge_data : Session → Outcome Bool
judge_data s = elim s.most_recent_message [
  | write_message _ ↦ done true s
  | data_message d ↦
      if d.block_number == s.block_number
      then done false s
      else if ltb s.block_number d.block_number
      then failed out_of_sync s
      else done true s
  | error_message e ↦ failed (peer_error e.explanation) s
  | _ ↦ failed invalid_operation s
]

-- The inner loop. Its counter `i` is never advanced, so the test `i > 5` always fails.
pub await_data : Runtime → ℕ → Bool → Session → Outcome (Unit {0})
await_data rt zero holding s = out_of_fuel
await_data rt (suc fuel) holding s = next_message rt holding s >>= λ _ t.
    judge_data t >>= λ awaiting u. elim awaiting [
      | true ↦ await_data rt fuel false u
      | false ↦ done tt u
    ]

-- The test on `WriteFile`'s result: has the whole file been written?
pub after_write : Outcome (Unit {0}) → Outcome Bool
after_write (done _ s) = done false s
after_write (failed e s) = if is_file_eof e then done true s else failed e s
after_write panic = panic
after_write out_of_fuel = out_of_fuel

-- One pass of the outer loop: was this the last block?
pub receive_round : Runtime → Bool → Session → Outcome Bool
receive_round rt holding s = await_data rt (2 + length s.destination.incoming) holding s >>= λ _ t.
    after_write (write_file t) >>= λ everything u.
    acknowledge rt u >>= λ _ v. done everything (next_block v)

pub receive_loop : Runtime → ℕ → Bool → Session → Outcome (Unit {0})
receive_loop rt zero holding s = out_of_fuel
receive_loop rt (suc fuel) holding s = receive_round rt holding s >>= λ everything t.
    elim everything [ true ↦ done tt t | false ↦ receive_loop rt fuel false t ]

-- `ReceiveDataLoop`. Every pass but the first takes a message from the connection.
unfoldable pub receive_data_loop : Runtime → Bool → Session → Outcome (Unit {0})
unfolding receive_loop receive_round await_data judge_data after_write
receive_data_loop rt holding s = receive_loop rt (2 + length s.destination.incoming) holding s
