-- ===== src/Client/Tests.antt =====
-- Runs of the client's routines, and the theorem about them at a concrete input.
use tftpcpd.Base.{
  Bytes, Bool, true, false, [], ◌∷◌, ◌++◌, Option, none, some, ◌≡◌, refl, codes, file_of,
}
use tftpcpd.Wire.Encode.{encoding}
use tftpcpd.Wire.Decode.{decoding}
use tftpcpd.Session.Slice.{make, reslice, overwrite, copy_front}
use tftpcpd.Session.State.{datagram, Connection, Session, Outcome, done, Runtime}
use tftpcpd.Session.Io.{write_file, read_file, send, receive, store, acknowledge, report_error}
use tftpcpd.Session.Io.Blocks.{data_header, ack_bytes}
use tftpcpd.Session.SendLoop.{next_message, send_data_loop}
use tftpcpd.Session.ReceiveLoop.{receive_data_loop}
use tftpcpd.Session.Opening.{new_tftp_session}
use tftpcpd.Session.Requesting.{request_read, request_write}
use tftpcpd.Serve.{session_of}
use tftpcpd.Client.{do_read_as_client, do_write_as_client, whatever}
use tftpcpd.Client.Sends.{Sends, do_write_as_client-Sends}
use tftpcpd.Client.Fetches.{Asked, do_read_as_client-Asked}

abbrev plain : Runtime
plain = record { map_lower = λ s. s; spare = λ old new. [] }

-- The connection to the server, and the one on which the client hears its first answer.
abbrev connected : Connection
connected = record { incoming = []; sent = []; deliveries = [] }

abbrev hearing : Bytes → Connection
hearing answer = record { incoming = datagram 5 answer ∷ []; sent = []; deliveries = [] }

abbrev download : Bytes → Outcome (Unit {0})
download answer =
    do_read_as_client plain (λ p. none) (λ f. codes "failed") (hearing answer) (some 5) (codes "a")
      [] (some connected) true

abbrev one_block : Bytes
one_block = data_header 1 ++ codes "hello"

abbrev downloaded : Session
downloaded = session_of (download one_block) (new_tftp_session connected)

download_ends : download one_block ≡ done tt downloaded
unfolding do_read_as_client request_read receive_data_loop next_message new_tftp_session make
    write_file send receive store acknowledge reslice overwrite copy_front encoding decoding file_of
download_ends = refl

do_read_as_client-Asked_example :
    Asked plain (hearing one_block) (some 5) (codes "a") [] (some connected) downloaded
do_read_as_client-Asked_example =
    do_read_as_client-Asked plain (λ p. none) (λ f. codes "failed") (hearing one_block) (some 5)
      (codes "a") [] (some connected) true downloaded download_ends

-- A server that answers with an error message: the routine returns no error and has no file.
abbrev no_such_file_answer : Bytes
no_such_file_answer = 0 ∷ 5 ∷ 0 ∷ 1 ∷ codes "not found" ++ (0 ∷ [])

abbrev file_of_end : Outcome (Unit {0}) → Option Bool
file_of_end (done _ s) = elim s.file [ none ↦ some false | some f ↦ some true ]
file_of_end _ = none

error_answer_run : file_of_end (download no_such_file_answer) ≡ some false
unfolding do_read_as_client request_read receive_data_loop next_message new_tftp_session make
    write_file send receive store acknowledge report_error reslice overwrite copy_front encoding
    decoding whatever file_of
error_answer_run = refl

-- An upload of one block: the request and then the block are acknowledged.
abbrev acknowledging : Connection
acknowledging = record { incoming = datagram 5 (ack_bytes 1) ∷ []; sent = []; deliveries = [] }

abbrev upload : Outcome (Unit {0})
upload =
    do_write_as_client plain (λ p. none) (λ f. codes "failed") (hearing (ack_bytes 0)) (some 5)
      (codes "a") [] (some acknowledging) (some (codes "hello"))

abbrev uploaded : Session
uploaded = session_of upload (new_tftp_session connected)

upload_ends : upload ≡ done tt uploaded
unfolding do_write_as_client request_write send_data_loop next_message new_tftp_session make
    read_file send receive store reslice overwrite copy_front encoding decoding file_of
upload_ends = refl

do_write_as_client-Sends_example :
    Sends plain (hearing (ack_bytes 0)) (some 5) (codes "a") [] (some (codes "hello")) uploaded
do_write_as_client-Sends_example =
    do_write_as_client-Sends plain (λ p. none) (λ f. codes "failed") (hearing (ack_bytes 0))
      (some 5) (codes "a") [] (some acknowledging) (some (codes "hello")) uploaded upload_ends
