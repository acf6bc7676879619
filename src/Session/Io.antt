-- ===== src/Session/Io.antt =====
-- internal/session.go: `ReadFile`, `WriteFile`, `Send`, `Receive` and the methods that send one
-- message. `Receive` makes one attempt: every path through the body of its loop over ten returns.
pub mod Laws
pub mod Blocks
pub mod Total
pub mod Panics
pub mod Room
use tftpcpd.Base.{
  ℕ, ◌+◌, ◌-◌, Bytes, Bool, true, false, not, List, [], ◌∷◌, ◌++◌, Option, none, some, ltb, leb,
  ◌==◌, if◌then◌else◌, length, take, drop,
}
use tftpcpd.Wire.{
  WireError, Result, ok, err, Options, Message, data_message, acknowledge_message, error_message,
  option_acknowledge_message, other,
}
use tftpcpd.Wire.Encode.{message_as_bytes}
use tftpcpd.Wire.Decode.{bytes_as_message}
use tftpcpd.Session.Slice.{Slice, len, reslice, overwrite, copy_front}
use tftpcpd.Session.State.{
  data_preamble_length, Arrival, cancelled, read_failed, datagram, Delivery, whole, cut, refused,
  Connection, File, Session, u16, Fault, wire, buffer_too_small, file_eof, file_refused,
  truncated_write, send_refused, truncated_send, context_cancelled, receive_failed,
  truncated_acknowledge_message, truncated_error_message, truncated_option_acknowledge_message,
  Outcome, done, failed, panic, ◌>>=◌, Runtime,
}

abbrev is_nil : Bytes → Bool
is_nil [] = true
is_nil (c ∷ cs) = false

-- `session.BlockSize+DataPreambleLength` in uint16
abbrev pub packet_size : Session → ℕ
packet_size s = u16 (s.block_size + data_preamble_length)

-- One write to the connection: how it ends, and the connection after it. A datagram that is cut
-- short still leaves.
write_to : Option ℕ → Bytes → Connection → Delivery → List Delivery → Connection
write_to to bytes c refused later = record c { deliveries = later }
write_to to bytes c whole later = record c {
  sent = c.sent ++ ((to, bytes) ∷ []);
  deliveries = later;
}
write_to to bytes c cut later = record c { sent = c.sent ++ ((to, bytes) ∷ []); deliveries = later }

delivered : Delivery → Session → Outcome (Unit {0})
delivered whole s = done tt s
delivered cut s = failed truncated_send s
delivered refused s = failed send_refused s

send_with : Option ℕ → Session → List Delivery → Outcome (Unit {0})
unfolding write_to delivered
send_with to s [] =
    delivered whole (record s { destination = write_to to s.send_buf.shown s.destination whole [] })
send_with to s (d ∷ later) =
    delivered d (record s { destination = write_to to s.send_buf.shown s.destination d later })

-- `Send`; `SendBuf` is never nil once the session is made.
unfoldable pub send : Option ℕ → Session → Outcome (Unit {0})
unfolding send_with
send to s = send_with to s s.destination.deliveries

-- A read of `room` bytes from a file: the bytes, and the file after it. `none` is `io.EOF`.
read_some : ℕ → File → Option (Bytes × File)
read_some room f =
    if room == 0
    then some ([], f)
    else if is_nil f.unread
    then none
    else some (take room f.unread, record f { unread = drop room f.unread })

-- `n, err := session.File.Read(session.SendBuf[4:])` and what follows it, on the window that
-- `SendBuf` has become; the window is as long as a full packet.
pub read_block : Slice → Session → Outcome (Unit {0})
unfolding read_some
read_block w s =
    let t = record s { send_buf = w } in
    let header = take data_preamble_length w.shown in
    if ltb (len w) data_preamble_length then panic else elim s.file [
      | none ↦ failed file_refused t
      | some f ↦
          if f.refuses
          then failed file_refused t
          else elim (read_some (len w - data_preamble_length) f) [
            | none ↦ failed file_eof (record s { send_buf = copy_front header w })
            | some (chunk, g) ↦
                done tt (record s { send_buf = copy_front (header ++ chunk) w; file = some g })
          ]
    ]

-- The end of `WriteFile`, with the file.
write_block : Bytes → File → Session → Outcome (Unit {0})
write_block body f s =
    if f.refuses
    then failed truncated_write s
    else let t = record s { file = some (record f { written = f.written ++ body }) } in
      if ltb (length body) s.block_size then failed file_eof t else done tt t

write_body : Bytes → Session → Outcome (Unit {0})
unfolding write_block
write_body body s =
    if is_nil body
    then failed file_eof s
    else elim s.file [ none ↦ failed truncated_write s | some f ↦ write_block body f s ]

-- `WriteFile`
unfoldable pub write_file : Session → Outcome (Unit {0})
unfolding write_body
write_file s = elim s.most_recent_message [ data_message d ↦ write_body d.body s | _ ↦ panic ]

module _ (rt : Runtime) where
  pub stored : Session → Bytes × Option WireError → Outcome (Unit {0})
  stored s (bytes, none) = done tt (record s { send_buf = overwrite rt.spare bytes s.send_buf })
  stored s (bytes, some e) = failed (wire e) s

  -- `MessageAsBytes(message, &session.SendBuf)`
  unfoldable pub store : Message → Session → Outcome (Unit {0})
  unfolding stored
  store m s = stored s (message_as_bytes rt.map_lower m s.send_buf.shown)

  -- `ReadFile`
  unfoldable pub read_file : Session → Outcome (Unit {0})
  unfolding read_block
  read_file s =
      if leb (len s.send_buf) data_preamble_length
      then failed buffer_too_small s
      else store (data_message (record { block_number = s.block_number; body = [] })) s >>= λ _ t.
          elim (reslice (packet_size t) t.send_buf) [ none ↦ panic | some w ↦ read_block w t ]

  decoded : ℕ → Result Message → Session → Outcome ℕ
  decoded addr (ok m) s = done addr (record s { most_recent_message = m })
  decoded addr (err e) s = failed (wire e) (record s { most_recent_message = other })

  -- `ReadFromUDP` into the window that `ReceiveBuf` has become, and the decoding.
  take_arrival : Slice → Session → List Arrival → Outcome ℕ
  unfolding decoded
  take_arrival w s [] = failed receive_failed (record s { receive_buf = copy_front [] w })
  take_arrival w s (datagram addr bytes ∷ later) =
      let packet = take (len w) bytes in
      decoded addr (bytes_as_message rt.map_lower packet) (record s {
        receive_buf = copy_front packet w;
        destination = record (s.destination) { incoming = later };
      })
  take_arrival w s (_ ∷ later) = failed receive_failed (record s {
    receive_buf = copy_front [] w;
    destination = record (s.destination) { incoming = later };
  })

  receive_from : Session → List Arrival → Outcome ℕ
  unfolding take_arrival
  receive_from s (cancelled ∷ later) = failed context_cancelled s
  receive_from s arrivals = elim (reslice (packet_size s) s.receive_buf) [
    | none ↦ panic
    | some w ↦ take_arrival w s arrivals
  ]

  -- `Receive`, with the sender's address.
  unfoldable pub receive : Session → Outcome ℕ
  unfolding receive_from
  receive s = receive_from s s.destination.incoming

  -- `session.AcknowledgeMessage`
  unfoldable pub acknowledge : Session → Outcome (Unit {0})
  acknowledge s =
      store (acknowledge_message (record { block_number = s.block_number })) s >>= λ _ t.
      if not (len t.send_buf == 2 + 2) then failed truncated_acknowledge_message t else send none t

  -- `session.ErrorMessage`; the code is a uint8
  unfoldable pub report_error : ℕ → Bytes → Session → Outcome (Unit {0})
  report_error code message s =
      store (error_message (record { error_code = u16 code; explanation = message })) s >>= λ _ t.
      if not (len t.send_buf == 2 + 2 + length message + 1)
      then failed truncated_error_message t
      else send none t

  abbrev pub total_length : Options → ℕ
  total_length [] = 0
  total_length ((k, v) ∷ o) = length k + 1 + length v + 1 + total_length o

  -- `session.OptionAcknowledgeMessage`
  unfoldable pub acknowledge_options : Session → Outcome (Unit {0})
  acknowledge_options s =
      store (option_acknowledge_message (record { options = s.options })) s >>= λ _ t.
      if not (len t.send_buf == 2 + total_length s.options)
      then failed truncated_option_acknowledge_message t
      else send none t
