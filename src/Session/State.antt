-- ===== src/Session/State.antt =====
-- internal/session.go: `TftpSession`, with the connection, the file and the outcomes of its methods.
use tftpcpd.Base.{ℕ, Bytes, Bool, List, Option, ◌%◌}
use tftpcpd.Wire.{WireError, Options, Message}
use tftpcpd.Session.Slice.{Slice}

abbrev pub data_preamble_length : ℕ
data_preamble_length = 4

pub data Operation : Type 0 where
  read_as_client write_as_client read_as_server write_as_server : Operation

-- What the next read of the connection meets: the session's context is found cancelled, the read
-- fails (a timeout is one way to fail), or a datagram comes from an address.
pub data Arrival : Type 0 where
  cancelled read_failed : Arrival
  datagram : ℕ → Bytes → Arrival

-- How the network takes the next datagram.
pub data Delivery : Type 0 where
  whole cut refused : Delivery

-- `net.UDPConn`: what will be read from it, what was written to it (with the address, if
-- `WriteToUDP` gave one), and how further writes will end. Where `incoming` is used up the read
-- deadline passes; where `deliveries` is used up writes succeed.
pub record Connection : Type 0 where
  pub incoming : List Arrival
  pub sent : List (Option ℕ × Bytes)
  pub deliveries : List Delivery

-- `os.File`: the bytes that are still to be read, those that were written, and whether the
-- operating system refuses further reads and writes.
pub record File : Type 0 where
  pub unread : Bytes
  pub written : Bytes
  pub refuses : Bool

pub record Session : Type 0 where
  pub destination : Connection
  pub send_buf : Slice
  pub receive_buf : Slice
  pub file : Option File
  pub unix_micro : ℕ
  pub operation : Operation
  pub filename : Bytes
  pub mode : Bytes
  pub options : Options
  pub block_size : ℕ  -- uint16
  pub timeout : ℕ  -- in seconds
  pub transfer_size : ℕ  -- uint64
  pub window_size : ℕ  -- uint16
  pub block_number : ℕ  -- uint16
  pub last_valid_message : Message
  pub most_recent_message : Message

abbrev pub u16 : ℕ → ℕ
u16 n = n % 65536

-- The errors that the methods return; those with no name in the source are called by their text.
pub data Fault : Type 0 where
  wire : WireError → Fault
  peer_error : Bytes → Fault
  buffer_too_small file_eof file_refused file_read_error truncated_write : Fault
  send_refused truncated_send context_cancelled receive_failed : Fault
  truncated_acknowledge_message truncated_error_message truncated_option_acknowledge_message : Fault
  unable_to_send_data many_retransmissions out_of_sync invalid_operation : Fault
  unknown_opening_message invalid_opening invalid_blksize invalid_tsize size_unknown : Fault
  address_unresolved no_such_file dial_refused no_local_file invalid_options unable_to_acknowledge
        not_acknowledged :
      Fault
  not_prepared not_overwritten : Fault

-- A method ends with a value, returns an error, or panics; `out_of_fuel` is the model's own. The
-- session is as the method left it.
pub data Outcome {ℓ} (A : Type ℓ) : Type ℓ where
  done : A → Session → Outcome A
  failed : Fault → Session → Outcome A
  panic out_of_fuel : Outcome A

infixl 5 ◌>>=◌
abbrev pub ◌>>=◌ {ℓ κ} :
    {A : Type ℓ} {B : Type κ} → Outcome A → (A → Session → Outcome B) → Outcome B
done a s >>= f = f a s
failed e s >>= f = failed e s
panic >>= f = panic
out_of_fuel >>= f = out_of_fuel

-- What stands for the parts of the Go runtime that the language leaves open: the Unicode tables
-- behind `strings.ToLower`, and the bytes behind a slice that `append` moved to a new array (from
-- the old capacity and the new length).
pub record Runtime : Type 0 where
  pub map_lower : Bytes → Bytes
  pub spare : ℕ → ℕ → Bytes
