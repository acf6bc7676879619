-- ===== src/Client.antt =====
-- internal/client.go: the routines of a client. What `net.DialUDP` and `os.Create` or `os.Open`
-- give is an argument, with the connection that the routine first listens on.
pub mod Fetches
pub mod Enclosing
pub mod Sends
pub mod Delivery
mod Tests
use tftpcpd.Base.{
  ℕ, Bytes, Bool, true, false, [], ◌∷◌, ◌++◌, Option, none, some, codes, ◌==◌, if◌then◌else◌,
}
use tftpcpd.Wire.{Options, Message, data_message, acknowledge_message, option_acknowledge_message}
use tftpcpd.Wire.Decode.{insert}
use tftpcpd.Session.State.{
  refused, read_as_client, write_as_client, Connection, Session, Fault, unable_to_acknowledge,
  dial_refused, no_local_file, Outcome, done, failed, panic, out_of_fuel, ◌>>=◌, Runtime,
}
use tftpcpd.Session.Io.{receive, report_error, acknowledge}
use tftpcpd.Session.SendLoop.{send_data_loop}
use tftpcpd.Session.ReceiveLoop.{receive_data_loop}
use tftpcpd.Session.Options.{Lstat, update_options}
use tftpcpd.Session.Opening.{new_tftp_session}
use tftpcpd.Session.Requesting.{request_read, request_write}
use tftpcpd.Files.Methods.{opened}
use tftpcpd.Serve.{error_code_undefined, reported, blamed, options_checked}

-- `net.DialUDP` to the address that the answer came from; `none` is an error.
pub dialled : Option Connection → Session → Outcome (Unit {0})
dialled none s = failed dial_refused s
dialled (some c) s = done tt (record s { destination = c })

-- The routine goes on with a value, whatever became of the message that reports an error.
pub whatever : {A : Type 0} → A → Outcome (Unit {0}) → Outcome A
whatever a (done _ s) = done a s
whatever a (failed _ s) = done a s
whatever a panic = panic
whatever a out_of_fuel = out_of_fuel

-- The session before `net.DialUDP`: its socket has no peer, so the next write without an address is
-- refused.
unconnected : Session → Session
unconnected s = record s {
  destination = record (s.destination) { deliveries = refused ∷ s.destination.deliveries };
}

module _ (rt : Runtime) where
  -- What both routines do where the request returns an error; `describe` is the error's text.
  pub requested : (Fault → Bytes) → Outcome (Unit {0}) → Outcome (Unit {0})
  unfolding unconnected
  requested describe (failed f s) =
      reported f (report_error rt error_code_undefined (describe f) (unconnected s))
  requested describe o = o

  -- What both routines do where the file is not opened.
  pub without_file : Session → Outcome (Unit {0})
  without_file s =
      reported no_local_file
        (report_error rt error_code_undefined (codes "Unable to download to: " ++ s.filename) s)

  -- The `switch` of `DoReadAsClient`: whether the session holds the first block already. Where the
  -- answer is neither of the two, `err` is nil, and so is what the routine returns (`none`).
  pub answer_read : Lstat → Message → Session → Outcome (Option Bool)
  answer_read lstat (option_acknowledge_message m) s =
      options_checked rt (update_options rt lstat m.options s) >>= λ _ t.
      blamed unable_to_acknowledge (acknowledge rt t) >>= λ _ u. done (some false) u
  answer_read lstat (data_message m) s = done (some true) s
  answer_read lstat _ s = whatever none (report_error rt error_code_undefined (codes "<nil>") s)

  -- The rest of `DoReadAsClient`.
  pub fetch : Bool → Option Bool → Session → Outcome (Unit {0})
  fetch creates none s = done tt s
  fetch false (some holding) s =
      without_file (record s { last_valid_message = s.most_recent_message })
  fetch true (some holding) s = receive_data_loop rt holding (record s {
    last_valid_message = s.most_recent_message;
    file = some (opened []);
    block_number = 1;
  })

  -- `DoReadAsClient`, from the session's request on.
  unfoldable pub do_read_as_client :
      Lstat
      → (Fault → Bytes)
      → Connection
      → Option ℕ
      → Bytes
      → Options
      → Option Connection
      → Bool
      → Outcome (Unit {0})
  unfolding dialled fetch answer_read requested
  do_read_as_client lstat describe listening server filename options dial creates =
      requested describe (
        request_read rt server filename options
          (record (new_tftp_session listening) { operation = read_as_client }))
      >>= λ _ s. receive rt s >>= λ _ t. dialled dial t >>= λ _ u.
          answer_read lstat u.most_recent_message u >>= λ a v. fetch creates a v

  -- The `switch` of `DoWriteAsClient`: whether the routine goes on. After an acknowledgement of
  -- another block than 0 it reports an error and goes on.
  pub answer_write : Lstat → Message → Session → Outcome Bool
  answer_write lstat (option_acknowledge_message m) s =
      options_checked rt (update_options rt lstat m.options s) >>= λ _ t. done true t
  answer_write lstat (acknowledge_message m) s =
      if m.block_number == 0
      then done true s
      else whatever true (
          report_error rt error_code_undefined
            (codes "Server did not properly acknowledge client write request") s)
  answer_write lstat _ s = whatever false (report_error rt error_code_undefined (codes "<nil>") s)

  -- The rest of `DoWriteAsClient`; the file's bytes are what `os.Open` gives, `none` an error.
  pub put : Option Bytes → Bool → Session → Outcome (Unit {0})
  put file false s = done tt s
  put none true s = without_file (record s { last_valid_message = s.most_recent_message })
  put (some bytes) true s = send_data_loop rt false (record s {
    last_valid_message = s.most_recent_message;
    file = some (opened bytes);
    block_number = 1;
  })

  -- `DoWriteAsClient`, from the session's request on.
  unfoldable pub do_write_as_client :
      Lstat
      → (Fault → Bytes)
      → Connection
      → Option ℕ
      → Bytes
      → Options
      → Option Connection
      → Option Bytes
      → Outcome (Unit {0})
  unfolding dialled put answer_write requested
  do_write_as_client lstat describe listening server filename options dial file =
      requested describe (
        request_write rt server filename options
          (record (new_tftp_session listening) { operation = write_as_client }))
      >>= λ _ s. receive rt s >>= λ _ t. dialled dial t >>= λ _ u.
          answer_write lstat u.most_recent_message u >>= λ a v. put file a v

  -- `ClientRoutine`: what it asks for, and the code with which the process ends.
  unfoldable pub client_routine :
      Bool
      → Lstat
      → (Fault → Bytes)
      → Connection
      → Option ℕ
      → Bytes
      → Options
      → Option Connection
      → Option Bytes
      → Bool
      → Outcome (Unit {0})
  client_routine true lstat describe listening server filename options dial file creates =
      do_write_as_client lstat describe listening server filename options dial file
  client_routine false lstat describe listening server filename options dial file creates =
      do_read_as_client lstat describe listening server filename
        (insert (codes "tsize") (codes "0") options) dial creates

-- A panic ends a Go process with the code 2.
pub return_code : Bool → Outcome (Unit {0}) → ℕ
return_code writing (done _ s) = 0
return_code true (failed _ s) = 21
return_code false (failed _ s) = 22
return_code writing _ = 2
