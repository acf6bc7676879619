-- ===== src/Serve/Routine.antt =====
-- The routine of one session, from the client's first datagram on.
use tftpcpd.Base.{ℕ, Bytes, ◌≡◌, ◌≢◌, refl, arith}
use tftpcpd.Session.State.{
  Operation, read_as_server, write_as_server, read_as_client, write_as_client, Connection, Session,
  Fault, Outcome, done, failed, panic, out_of_fuel, Runtime,
}
use tftpcpd.Session.Options.Laws.{IsNegotiated}
use tftpcpd.Session.Opening.{new_tftp_session, accept}
use tftpcpd.Session.Opening.Laws.{accept-IsNegotiated}
use tftpcpd.Files.Table.{Engine, IsEngine}
use tftpcpd.Files.World.{World}
use tftpcpd.Files.Methods.Holds.{Holds}
use tftpcpd.Serve.{told, routine_accepted, session_routine, read_as_server_of, write_as_server_of}
use tftpcpd.Serve.Served.{read_as_server_of-Holds, write_as_server_of-Holds}

new_tftp_session-IsNegotiated : (c : Connection) → IsNegotiated (new_tftp_session c)
unfolding new_tftp_session
new_tftp_session-IsNegotiated c = record {
  size_low = omega arith;
  size_high = omega arith;
  timeout_low = omega arith;
  timeout_high = omega arith;
}

module _ (rt : Runtime) (e : Engine) (law : IsEngine e) (describe : Fault → Bytes) where
  told-Holds :
      (o : Outcome (Unit {0}) × World) (name text : Bytes)
      → Holds o.1 name text
      → Holds (told rt e describe o).1 name text
  unfolding told
  told-Holds (done a s, w) name text h = h
  told-Holds (failed f s, w) name text h = h
  told-Holds (panic, w) name text h = h
  told-Holds (out_of_fuel, w) name text h = h

  routine_accepted-Holds :
      (now completed : ℕ) (o : Outcome Operation) (name text : Bytes) (w : World)
      → ((s : Session) → o ≡ done write_as_server s → IsNegotiated s × (name ≢ e.column s.filename))
      → Holds w name text
      → Holds (routine_accepted rt e describe now completed o w).1 name text
  unfolding routine_accepted
  routine_accepted-Holds now completed (done read_as_server s) name text w k h =
      told-Holds (read_as_server_of rt e s w) name text
        (read_as_server_of-Holds rt e law s name text w h)
  routine_accepted-Holds now completed (done write_as_server s) name text w k h =
      let (n, apart) = k s refl in
      told-Holds (write_as_server_of rt e now completed s w) name text
        (write_as_server_of-Holds rt e law now completed s name text w n apart h)
  routine_accepted-Holds now completed (done read_as_client s) name text w k h = h
  routine_accepted-Holds now completed (done write_as_client s) name text w k h = h
  routine_accepted-Holds now completed (failed f s) name text w k h = h
  routine_accepted-Holds now completed panic name text w k h = h
  routine_accepted-Holds now completed out_of_fuel name text w k h = h

  -- Where the engine obeys IsEngine: whatever datagram opens a session, whatever arrives and is
  -- refused later, and however the session ends, the newest complete version of a name and its
  -- bytes stay, unless it is the name that the datagram asks to write.
  pub session_routine-Holds :
      (now completed : ℕ) (c : Connection) (bytes name text : Bytes) (w : World)
      → ((s : Session)
          → accept rt bytes (new_tftp_session c) ≡ done write_as_server s
          → name ≢ e.column s.filename)
      → Holds w name text
      → Holds (session_routine rt e describe now completed c bytes w).1 name text
  unfolding session_routine
  session_routine-Holds now completed c bytes name text w apart h =
      routine_accepted-Holds now completed (accept rt bytes (new_tftp_session c)) name text w
        (λ s k. (
          accept-IsNegotiated rt bytes write_as_server (new_tftp_session c) s
              (new_tftp_session-IsNegotiated c) k,
          apart s k,
        ))
        h
