-- ===== src/Serve/Tests.antt =====
-- Runs of the server's sessions, and the theorems about them at concrete inputs.
use tftpcpd.Base.{
  ◌<◌, Bytes, List, [], ◌∷◌, ◌++◌, ◌≡◌, ◌≢◌, refl, sym, ap, ◌∙◌, arith, codes, equal, All, file_of,
  length, suc, ◌/◌, true, false, some,
}
use tftpcpd.Wire.{Message, read_message, write_message}
use tftpcpd.Wire.Encode.{encoding}
use tftpcpd.Wire.Decode.{decoding}
use tftpcpd.Session.Number.{format_int}
use tftpcpd.Session.Slice.{make, reslice, overwrite, copy_front}
use tftpcpd.Session.State.{
  Arrival, datagram, Session, Operation, write_as_server, Outcome, done, Runtime,
}
use tftpcpd.Session.Io.{read_file, write_file, send, receive, store, acknowledge}
use tftpcpd.Session.Io.Blocks.{data_header, ack_bytes}
use tftpcpd.Session.SendLoop.{send_data_loop, next_message}
use tftpcpd.Session.ReceiveLoop.{receive_data_loop}
use tftpcpd.Session.Options.{path_of, update_options}
use tftpcpd.Session.Options.Laws.{IsNegotiated}
use tftpcpd.Session.Opening.{new_tftp_session, last_sent_message_type, accept}
use tftpcpd.Session.ReceiveLoop.Complete.{IsListening, Completes}
use tftpcpd.Session.Transfer.{arrivals_of}
use tftpcpd.Files.Methods.{opened}
use tftpcpd.Client.{fetch}
use tftpcpd.Client.Delivery.{download-Delivers}
use tftpcpd.Files.Table.{
  reserve_select, reserve_update, obsolete_select, obsolete_delete, prepare_insert, success_update,
}
use tftpcpd.Files.World.{
  World, remove_file, write_back, call, commit, create_file, open_file, close_file, delete_files,
}
use tftpcpd.Files.Methods.{reserve, prepare, overwrite_success, overwrite_failure, clear_obsolete}
use tftpcpd.Files.Methods.Holds.{Holds}
use tftpcpd.Files.Tests.{sqlite, sqlite-IsEngine, two_versions, two_versions-Holds}
use tftpcpd.Serve.{
  session_of, session_routine, options_checked, resized, open_read, open_write, serve_read,
  read_as_server_of, write_as_server_of,
}
use tftpcpd.Serve.Downloads.{Downloads, read_as_server_of-Downloads}
use tftpcpd.Serve.Uploads.{Uploads, write_as_server_of-Uploads}
use tftpcpd.Serve.Routine.{session_routine-Holds}
use tftpcpd.Serve.Delivery.{Delivers, upload-Delivers}

abbrev plain : Runtime
plain = record { map_lower = λ s. s; spare = λ old new. [] }

-- A session after its request was accepted.
abbrev asked : Message → Bytes → List Arrival → Session
asked request filename arrivals =
    record (new_tftp_session (record { incoming = arrivals; sent = []; deliveries = [] })) {
      filename = filename;
      most_recent_message = request;
    }

abbrev reader : Session
reader =
    asked (read_message (record { filename = codes "a"; mode = codes "octet"; options = [] }))
      (codes "a") (datagram 5 (ack_bytes 1) ∷ [])

abbrev writer : Bytes → Session
writer filename =
    asked (write_message (record { filename = filename; mode = codes "octet"; options = [] }))
      filename (datagram 5 (data_header 1 ++ codes "new") ∷ [])

asked-IsNegotiated : (m : Message) (name : Bytes) (l : List Arrival) → IsNegotiated (asked m name l)
unfolding new_tftp_session
asked-IsNegotiated m name l = record {
  size_low = omega arith;
  size_high = omega arith;
  timeout_low = omega arith;
  timeout_high = omega arith;
}

abbrev read_all : Session
read_all = session_of (read_as_server_of plain sqlite reader two_versions).0 reader

read_ends : (read_as_server_of plain sqlite reader two_versions).0 ≡ done tt read_all
unfolding read_as_server_of reserve call reserve_select reserve_update equal commit open_file
    path_of format_int serve_read open_read update_options new_tftp_session make send_data_loop
    resized read_file send receive store reslice overwrite copy_front encoding decoding
    options_checked last_sent_message_type
read_ends = refl

-- The upload of a file; in `write_all` the session that it leaves.
abbrev write_all : Session
write_all =
    session_of (write_as_server_of plain sqlite 15 20 (writer (codes "a")) two_versions).0 reader

write_ends :
    (write_as_server_of plain sqlite 15 20 (writer (codes "a")) two_versions).0 ≡ done tt write_all
unfolding write_as_server_of prepare prepare_insert overwrite_success success_update clear_obsolete
    obsolete_select obsolete_delete delete_files remove_file write_back close_file create_file call
    equal commit path_of format_int open_write update_options new_tftp_session make
    receive_data_loop resized acknowledge write_file send receive store reslice overwrite copy_front
    encoding decoding options_checked next_message
write_ends = refl

read_as_server_of-Downloads_example : Downloads (codes "hello world") read_all
unfolding new_tftp_session
read_as_server_of-Downloads_example =
    read_as_server_of-Downloads plain sqlite sqlite-IsEngine reader read_all (codes "a")
      (codes "hello world") two_versions (asked-IsNegotiated _ _ _) refl two_versions-Holds
      read_ends

earlier : All (λ q. q.filename ≡ codes "a" → q.time_completed < 20) two_versions.rows
earlier = ((λ n. omega arith), ((λ n. omega arith), ((λ n. omega arith), tt)))

write_as_server_of-Uploads_example :
    Uploads plain
      (codes "a")
      (writer (codes "a")).destination.incoming
      (write_as_server_of plain sqlite 15 20 (writer (codes "a")) two_versions).1
      write_all
unfolding new_tftp_session
write_as_server_of-Uploads_example =
    write_as_server_of-Uploads plain sqlite sqlite-IsEngine 15 20 (writer (codes "a")) write_all
      two_versions (asked-IsNegotiated _ _ _) refl (omega arith) earlier write_ends

apart : codes "a" ≢ codes "b"
apart e = ground arith

-- The uploads of two files, and a download of the first.
abbrev first_upload : World
first_upload = (write_as_server_of plain sqlite 15 20 (writer (codes "a")) two_versions).1

abbrev both_uploads : World
both_uploads = (write_as_server_of plain sqlite 25 30 (writer (codes "b")) first_upload).1

abbrev read_upload : Session
read_upload = session_of (read_as_server_of plain sqlite reader both_uploads).0 reader

upload_read : (read_as_server_of plain sqlite reader both_uploads).0 ≡ done tt read_upload
unfolding read_as_server_of reserve reserve_select reserve_update open_file serve_read open_read
    send_data_loop read_file last_sent_message_type write_as_server_of prepare prepare_insert
    overwrite_success success_update clear_obsolete obsolete_select obsolete_delete delete_files
    remove_file write_back close_file create_file call equal commit path_of format_int open_write
    update_options new_tftp_session make receive_data_loop resized acknowledge write_file send
    receive store reslice overwrite copy_front encoding decoding options_checked next_message
    overwrite_failure
upload_read = refl

upload-Delivers_example :
    Delivers plain
      (codes "a")
      (writer (codes "a")).destination.incoming
      first_upload
      write_all
      read_upload
unfolding new_tftp_session
upload-Delivers_example =
    upload-Delivers plain sqlite sqlite-IsEngine 15 20 25 30 (writer (codes "a")) write_all
      (writer (codes "b")) reader read_upload two_versions (asked-IsNegotiated _ _ _)
      (asked-IsNegotiated _ _ _) (asked-IsNegotiated _ _ _) refl (omega arith) earlier write_ends
      apart refl upload_read

-- A datagram that asks to write another file.
abbrev request : Bytes
request = 0 ∷ 2 ∷ codes "b" ++ (0 ∷ codes "octet") ++ (0 ∷ [])

abbrev asked_name : Outcome Operation → Bytes
asked_name (done _ s) = s.filename
asked_name _ = []

asks_b :
    (s : Session)
    → accept plain request (new_tftp_session (record { incoming = []; sent = []; deliveries = [] }))
      ≡ done write_as_server s
    → codes "a" ≢ s.filename
unfolding accept decoding new_tftp_session file_of
asks_b s h e = apart (e ∙ sym (ap asked_name h))

session_routine-Holds_example :
    Holds
      (session_routine plain sqlite
        (λ f. codes "failed")
        15
        20
        (record { incoming = []; sent = []; deliveries = [] })
        request
        two_versions).1
      (codes "a")
      (codes "hello world")
session_routine-Holds_example =
    session_routine-Holds plain sqlite sqlite-IsEngine (λ f. codes "failed") 15 20
      (record { incoming = []; sent = []; deliveries = [] }) request (codes "a")
      (codes "hello world") two_versions asks_b two_versions-Holds

-- A client that is still to receive the blocks of that read.
abbrev fetcher : Session
fetcher =
    new_tftp_session
      (record { incoming = arrivals_of 5 read_all.destination.sent; sent = []; deliveries = [] })

fetcher-IsListening : IsListening plain fetcher
unfolding new_tftp_session make
fetcher-IsListening = record {
  size_low = omega arith;
  size_high = omega arith;
  room = omega arith;
  number_range = omega arith;
  delivers = refl;
}

read_count :
    length read_all.destination.sent ≡ suc (length (codes "hello world") / read_all.block_size)
unfolding read_as_server_of reserve call reserve_select reserve_update equal commit open_file
    path_of format_int serve_read open_read update_options new_tftp_session make send_data_loop
    resized read_file send receive store reslice overwrite copy_front encoding decoding
    options_checked last_sent_message_type
read_count = refl

read_size : fetcher.block_size ≡ read_all.block_size
unfolding read_as_server_of reserve call reserve_select reserve_update equal commit open_file
    path_of format_int serve_read open_read update_options new_tftp_session make send_data_loop
    resized read_file send receive store reslice overwrite copy_front encoding decoding
    options_checked last_sent_message_type
read_size = refl

download-Delivers_example :
    Completes plain (fetch plain true (some false) fetcher) (opened []) (codes "hello world")
unfolding new_tftp_session
download-Delivers_example =
    download-Delivers plain sqlite sqlite-IsEngine reader read_all fetcher (codes "a")
      (codes "hello world") two_versions 5 [] read_all.destination.sent (asked-IsNegotiated _ _ _)
      refl two_versions-Holds read_ends refl read_count fetcher-IsListening read_size refl
