-- ===== src/Session/Tests.antt =====
-- Runs of the session's methods, and the theorems about them at concrete inputs.
mod Requests
use tftpcpd.Base.{
  ℕ, Bytes, Bool, true, false, List, [], ◌∷◌, ◌++◌, Option, none, some, ◌≡◌, refl, sym, ap, ◌∙◌,
  arith, codes, to_lower, replicate, take, drop, equal,
}
use tftpcpd.Wire.{Message, data_message, acknowledge_message, other}
use tftpcpd.Wire.Encode.{encoding}
use tftpcpd.Wire.Decode.{decoding}
use tftpcpd.Session.Slice.{make, reslice, overwrite, copy_front}
use tftpcpd.Session.State.{
  Arrival, datagram, Connection, File, Session, Outcome, done, failed, panic, Runtime,
}
use tftpcpd.Session.Io.{read_file, write_file, send, receive, store, acknowledge}
use tftpcpd.Session.Io.Blocks.{IsReady, IsOpen, data_header, ack_bytes}
use tftpcpd.Session.SendLoop.{send_data_loop}
use tftpcpd.Session.SendLoop.Sent.{SendsFile, send_data_loop-SendsFile}
use tftpcpd.Session.SendLoop.Complete.{Ends, send_data_loop-Ends}
use tftpcpd.Session.ReceiveLoop.{receive_data_loop}
use tftpcpd.Session.ReceiveLoop.Complete.{IsListening, Completes, receive_data_loop-Completes}
use tftpcpd.Session.ReceiveLoop.Written.{WritesFile, receive_data_loop-WritesFile}
use tftpcpd.Session.SendLoop.GivesUp.{AreStale, enough, another, GivesUp, send_data_loop-GivesUp}
use tftpcpd.Session.Transfer.{
  Blocks, last, full, Carries, complete, carried, stale, Acknowledged, acked, arrivals_of, packets,
  unaddressed,
}
use tftpcpd.Session.EndToEnd.{transfer_delivers}
use tftpcpd.Session.Opening.{new_tftp_session}

-- Text outside ASCII is not looked at in these runs, and an array that `append` made has no room
-- to spare.
abbrev pub plain : Runtime
plain = record { map_lower = λ s. s; spare = λ old new. [] }

-- A session with blocks of eight bytes that hears `arrivals` from block number 1 on.
abbrev small : List Arrival → Option File → Session
small arrivals file =
    record (new_tftp_session (record { incoming = arrivals; sent = []; deliveries = [] })) {
      send_buf = make 12;
      receive_buf = make 12;
      file = file;
      block_size = 8;
      block_number = 1;
    }

abbrev whole_file : File
whole_file = record { unread = codes "hello world"; written = []; refuses = false }

abbrev empty_file : File
empty_file = record { unread = []; written = []; refuses = false }

-- The acknowledgements of two blocks, with a late one of the block before.
abbrev acknowledgements : List Arrival
acknowledgements =
    datagram 7 (ack_bytes 0) ∷ datagram 7 (ack_bytes 1) ∷ datagram 7 (ack_bytes 2) ∷ []

abbrev sender : Session
sender = small acknowledgements (some whole_file)

abbrev final_of : Outcome (Unit {0}) → Session → Session
final_of (done _ s) t = s
final_of (failed _ s) t = s
final_of _ t = t

abbrev sent_all : Session
sent_all = final_of (send_data_loop plain false sender) sender

sender_ends : send_data_loop plain false sender ≡ done tt sent_all
unfolding send_data_loop read_file send receive store new_tftp_session make reslice overwrite
    copy_front encoding decoding
sender_ends = refl

sender_sent :
    sent_all.destination.sent
    ≡ (none, data_header 1 ++ codes "hello wo") ∷ (none, data_header 2 ++ codes "rld") ∷ []
unfolding send_data_loop read_file send receive store new_tftp_session make reslice overwrite
    copy_front encoding decoding
sender_sent = refl

sender-IsReady : IsReady plain sender whole_file
unfolding new_tftp_session make
sender-IsReady = record {
  size_low = omega arith;
  size_high = omega arith;
  buffer_used = omega arith;
  buffer_room = omega arith;
  opened = refl;
  readable = refl;
}

sender-IsListening : IsListening plain sender
unfolding new_tftp_session make
sender-IsListening = record {
  size_low = omega arith;
  size_high = omega arith;
  room = omega arith;
  number_range = omega arith;
  delivers = refl;
}

abbrev two_blocks : List Bytes
two_blocks = codes "hello wo" ∷ codes "rld" ∷ []

whole_file-Blocks : Blocks 8 (codes "hello world") two_blocks
whole_file-Blocks = full (omega arith) (last (omega arith))

acknowledgements-Acknowledged : Acknowledged 5 1 two_blocks acknowledgements
acknowledgements-Acknowledged = stale 7 0 refl (omega arith) (acked 7 refl (acked 7 refl complete))

send_data_loop-SendsFile_example : SendsFile plain sender whole_file sent_all
send_data_loop-SendsFile_example =
    send_data_loop-SendsFile plain false sender sent_all whole_file sender-IsReady sender_ends

send_data_loop-Ends_example : Ends plain (send_data_loop plain false sender)
send_data_loop-Ends_example =
    send_data_loop-Ends plain sender whole_file two_blocks sender-IsReady sender-IsListening
      (unfold new_tftp_session in whole_file-Blocks)
      (unfold new_tftp_session in acknowledgements-Acknowledged)

-- What the sender sent, with a block that was sent twice before it.
abbrev receiver : Session
receiver =
    small (datagram 9 (data_header 0 ++ codes "again") ∷ arrivals_of 9 sent_all.destination.sent)
      (some empty_file)

receiver-IsListening : IsListening plain receiver
unfolding new_tftp_session make
receiver-IsListening = record {
  size_low = omega arith;
  size_high = omega arith;
  room = omega arith;
  number_range = omega arith;
  delivers = refl;
}

receiver-IsOpen : IsOpen receiver empty_file
unfolding new_tftp_session make
receiver-IsOpen = record { size_low = omega arith; opened = refl; writable = refl }

-- The same without that block.
abbrev prompt_receiver : Session
prompt_receiver = small (arrivals_of 9 sent_all.destination.sent) (some empty_file)

prompt_receiver-IsListening : IsListening plain prompt_receiver
unfolding new_tftp_session make
prompt_receiver-IsListening = record {
  size_low = omega arith;
  size_high = omega arith;
  room = omega arith;
  number_range = omega arith;
  delivers = refl;
}

prompt_receiver-IsOpen : IsOpen prompt_receiver empty_file
unfolding new_tftp_session make
prompt_receiver-IsOpen = record { size_low = omega arith; opened = refl; writable = refl }

transfer_delivers_example :
    Completes plain (receive_data_loop plain false prompt_receiver) empty_file (codes "hello world")
unfolding new_tftp_session
transfer_delivers_example =
    transfer_delivers plain false sender sent_all prompt_receiver whole_file empty_file 9
      sender-IsReady refl sender_ends prompt_receiver-IsListening prompt_receiver-IsOpen refl refl
      refl

arrived-Carries :
    Carries 8 1 two_blocks
      (datagram 9 (data_header 0 ++ codes "again") ∷ arrivals_of 9 sent_all.destination.sent)
arrived-Carries =
    stale 9 0 (codes "again") refl (omega arith) (omega arith)
      (rw sender_sent (carried 9 refl (omega arith) (carried 9 refl (omega arith) complete)))

receive_data_loop-Completes_example :
    Completes plain (receive_data_loop plain false receiver) empty_file (codes "hello world")
unfolding new_tftp_session
receive_data_loop-Completes_example =
    receive_data_loop-Completes plain receiver empty_file (codes "hello world") two_blocks
      receiver-IsListening receiver-IsOpen whole_file-Blocks arrived-Carries

abbrev received_all : Session
received_all = final_of (receive_data_loop plain false receiver) receiver

receiver_ends : receive_data_loop plain false receiver ≡ done tt received_all
receiver_ends =
    receive_data_loop-Completes_example.ends
    ∙ ap (λ o. done tt (final_of o receiver)) (sym receive_data_loop-Completes_example.ends)

receive_data_loop-WritesFile_example : WritesFile plain false receiver empty_file received_all
receive_data_loop-WritesFile_example =
    receive_data_loop-WritesFile plain false receiver received_all empty_file receiver-IsOpen
      receiver_ends

-- A peer that keeps acknowledging block 0.
abbrev late : Arrival
late = datagram 7 (ack_bytes 0)

abbrev deaf_sender : Session
deaf_sender = small (late ∷ late ∷ late ∷ late ∷ late ∷ []) (some whole_file)

deaf_sender-IsReady : IsReady plain deaf_sender whole_file
unfolding new_tftp_session make
deaf_sender-IsReady = record {
  size_low = omega arith;
  size_high = omega arith;
  buffer_used = omega arith;
  buffer_room = omega arith;
  opened = refl;
  readable = refl;
}

deaf_sender-IsListening : IsListening plain deaf_sender
unfolding new_tftp_session make
deaf_sender-IsListening = record {
  size_low = omega arith;
  size_high = omega arith;
  room = omega arith;
  number_range = omega arith;
  delivers = refl;
}

late-AreStale : AreStale 1 5 (late ∷ late ∷ late ∷ late ∷ late ∷ [])
late-AreStale = another 7 0 refl (omega arith) (
    another 7 0 refl (omega arith) (
      another 7 0 refl (omega arith)
        (another 7 0 refl (omega arith) (another 7 0 refl (omega arith) enough))))

send_data_loop-GivesUp_example : GivesUp (send_data_loop plain false deaf_sender)
unfolding new_tftp_session
send_data_loop-GivesUp_example =
    send_data_loop-GivesUp plain deaf_sender whole_file deaf_sender-IsReady deaf_sender-IsListening
      late-AreStale
