-- ===== src/Lib.antt =====
-- tftpcpd, a TFTP daemon and its client: the wire format, the transfers, the served files, the
-- server's sessions, and the daemon's goroutines from their start to their end.
--
-- The program. internal/bytes.go turns messages into bytes and back. internal/session.go keeps the
-- state of one transfer (`TftpSession`) and runs it: it opens a session with the first datagram of
-- a client, negotiates the options, and then sends a file block by block or receives one, over a
-- UDP connection, with the messages of internal/bytes.go in its two buffers. A served file has
-- versions: each upload writes a new one, in a file and in a row of the table of
-- internal/database.go, and readers are counted in the row of the version that they read. The
-- methods of internal/session.go that reserve, release and write versions run the statements of
-- internal/server.go, which also starts a routine for each client's first datagram.
-- internal/client.go downloads and uploads with the same loops. cmd/tftpcpd/main.go starts three
-- goroutines, the loops of internal/server.go, internal/database.go and internal/logger.go, and
-- ends them with the signals of internal/signal.go; all of them, and the sessions, log through one
-- channel.
--
-- The files.
--   Base: names of the libraries passed on, Boolean tests, lists over the native numbers, and byte
--     strings with the library calls of the Go code (`strings.ToLower`, `filepath.Base`).
--   Wire: internal/bytes.go. Defs has the constants, errors and message types, Encode has
--     `MessageAsBytes` and the functions under it, Decode has `BytesAsMessage` and the functions
--     under it. A Go function `fooAsBytes` is `foo_as_bytes`, and so on. The modules below Encode and
--     Decode hold the proofs, Wire/Tests runs.
--   Session/Slice: Go slices with the array behind them, for `SendBuf` and `ReceiveBuf`.
--   Session/State: `TftpSession`, the connection, the file, and the outcomes of the methods.
--   Session/Io: `ReadFile`, `WriteFile`, `Send`, `Receive` and the methods that send a message;
--     Session/Io/Room and Session/SendLoop/Room are about the room their buffers have.
--   Session/SendLoop, Session/ReceiveLoop: `SendDataLoop` and `ReceiveDataLoop`, one function for
--     each test, inner loop and pass.
--   Session/Transfer: what a transfer is to do, apart from the code: how a file falls into blocks,
--     the datagrams and the acknowledgements of the blocks, and what may arrive from a peer.
--   Session/Brings: what the arrivals bring to a session that receives, apart from its loop.
--   Session/EndToEnd: the two loops together.
--   Session/Number, Session/Options, Session/Opening, Session/Requesting: `ParseInt` and `FormatInt`,
--     `UpdateOptions`, `NewTftpSession` with `Accept`, and the client's `ReadMessage` and
--     `WriteMessage`.
--   Session/Tests: runs of these methods.
--   Files/Table: the rows and the SQL statements as functions on them; Files/Table/Newest says what
--     the newest complete version of a name is, apart from how SQLite finds it.
--   Files/World: the table, the served directory and the refusals to come, the calls that may be
--     refused, and what a sequence of calls leaves.
--   Files/Methods: `Reserve`, `Release`, `Prepare`, `OverwriteSuccess` and `OverwriteFailure`.
--   Files/Startup: `DatabaseInit` and `deleteOutOfDateGlobally`.
--   Files/Interleaving: these methods in any order, as a step relation.
--   Serve: `ReadAsServer`, `WriteAsServer` and `sessionRoutine`, which join the session's methods with
--     those on the files.
--   Client: `DoReadAsClient`, `DoWriteAsClient` and `ClientRoutine`; Client/Enclosing is
--     `FindEnclosingAddress`. Client/Sends is about an upload and what it has sent, Client/Delivery
--     about a download with the server's side of it.
--   Daemon/Signal: the signals, the events of the log and `writeEventToLog`.
--   Daemon/State: the goroutines, their channels, and the cases of the `select` of `main`.
--   Daemon/Step: what each goroutine does next, and the daemons that are reached from a start.
--   Daemon/Keeps: properties of the daemon after a step.
--   Daemon/Balance, Daemon/Invariant, Daemon/Draining: what holds of every daemon that is reached;
--     Daemon/Weight is what is left to do, Daemon/Progress who can go on, Daemon/Course how `main`
--     and panics come about. Daemon/Shutdown and Daemon/Logging have the results.
--   Daemon/Startup: `main` up to its goroutines, with `ServerInit`.
--   CommandLine: `processFlags` of both programs.
--   Files/Tests, Serve/Tests, Client/Tests, Daemon/Tests, CommandLine/Tests: runs of these.
--
-- The modelling. A method takes the session and returns an `Outcome`: a value, an error or a
-- panic, with the session as it was left. The connection holds what will be read from it
-- (datagrams with their senders, failed reads such as timeouts, and a cancelled context), what was
-- written to it, and how the next writes will end; the file holds what is to be read and what was
-- written. A uint16 is a number whose arithmetic is written with its wrap-around (`u16`). A map of
-- options is a list of pairs in the order in which the code visits it, with keys that are distinct
-- and in lower case, as the decoder makes them.
--
-- The methods on files are tasks on a `World`: the rows, the files of the directory, and for each
-- later call of the database or the file system whether it is refused, so that a theorem for every
-- list of refusals is one for every way to fail. A transaction works on the rows as they were when
-- it began and writes them at its commit, or not at all. Files that are removed in a transaction
-- stay removed where its commit is refused. The times that `time.Now` gives are arguments.
--
-- The daemon is where each of its goroutines stands. A routine is the list of the calls that it
-- makes next (sends, receives, events to log, `cancel`, `sessions.Wait`, the clean-up) and whether
-- it goes round its loop after them; `main` is in its `select` or has a list of sends and receives
-- to do. The channels between them have room for two signals, and `Log` for 150 events; a send on
-- the closed `Log` is a panic that ends the process. A session is the list of the events that it
-- will still log. An event of the model names the goroutine that goes on, and is refused where
-- that goroutine has to wait, so that a theorem for every sequence of events is one for every
-- schedule. `is_busy` tells the steps that do something towards the end, and `weight` counts what
-- is left to do.
--
-- Fuel. The decoder's loop over options gets one more than the bytes that are left, and takes at
-- least one of them in each pass. The loops of a transfer get two more than the messages that are
-- still to arrive, and each pass but the first takes one of them. Where this is used up the result
-- is `out_of_fuel`. What arrives is a finite list, so a peer that sends messages of lesser block
-- numbers for ever, which keeps `ReceiveDataLoop` in its inner loop, is not one of the model's.
--
-- Parameters. `Runtime` holds what the language leaves open: the Unicode tables behind
-- `strings.ToLower` outside ASCII, and the bytes behind a slice that `append` moved to a new
-- array. `Lstat` is the file system's answer for the size of a served file. `Engine` is SQLite:
-- what the column `filename` makes of a text, and from which row of a group `MAX` takes the other
-- columns. `IsEngine` is what SQLite documents of the latter: from a row of the group that has the
-- maximum. `describe` is the text of an error.
--
-- The calls of net/netip are a record `Netip`; what `flag.Parse`, `filepath.Abs`, `os.OpenRoot`,
-- `DB.Prepare`, `net.ListenUDP`, `gateway.DiscoverGateway` and `net.InterfaceAddrs` give are
-- arguments.
--
-- Reads. A read of a file gives as many bytes as there is room for, or all that are left, which is
-- what a regular file gives; `SendDataLoop` takes a shorter one for the file's end.
--
-- Not modelled. Debug events, deadlines in time and addresses of peers other than as numbers; the
-- scheduling of sessions inside one method; the opening of the database and its ping; the branch
-- of `ServerRoutine` for a `copy` between slices of one length that copies less; the usage texts;
-- the opening of the client's sockets (internal/client.go), an argument here, and the error events
-- it logs; the goroutines of cmd/tftpcpc/main.go.
pub mod Base
pub mod Wire
pub mod Session
pub mod Files
pub mod Serve
pub mod Client
pub mod Daemon
pub mod CommandLine
