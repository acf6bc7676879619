-- ===== src/Serve/Served.antt =====
-- `ReadAsServer` and `WriteAsServer` and the newest complete version of a name.
use tftpcpd.Base.{ℕ, Bytes, false, [], Option, none, some, ◌≡◌, ◌≢◌, refl, sym, ap, subst, ◌∙◌, All}
use tftpcpd.Wire.{Message, write_message}
use tftpcpd.Session.State.{Session, Outcome, done, failed, panic, out_of_fuel, Runtime}
use tftpcpd.Session.ReceiveLoop.{receive_data_loop}
use tftpcpd.Session.ReceiveLoop.Written.{receive_data_loop-WritesFile}
use tftpcpd.Session.Io.Blocks.{IsOpen}
use tftpcpd.Session.Options.Laws.{IsNegotiated}
use tftpcpd.Serve.Kept.{IsPrepared, open_write-IsPrepared}
use tftpcpd.Files.Table.{Engine, IsEngine}
use tftpcpd.Files.World.{World}
use tftpcpd.Files.Methods.{opened, reserve, prepare, overwrite_success, overwrite_failure}
use tftpcpd.Files.Methods.Holds.{
  Holds, reserve-Holds, release-Holds, prepare-Holds, overwrite_failure-Holds,
  overwrite_success-Holds,
}
use tftpcpd.Files.Methods.Prepared.{prepare-IsPrepared, prepared-incomplete}
use tftpcpd.Serve.{
  session_of, lstat_of, serve_read, read_reserved, read_as_server_of, open_write, overwritten,
  write_received, write_prepared, write_opened, write_request, write_as_server_of, released,
}

module _ (rt : Runtime) (e : Engine) (law : IsEngine e) where
  read_reserved-Holds :
      (s : Session) (name bytes : Bytes) (o : Option (ℕ × Session) × World)
      → Holds o.1 name bytes
      → Holds (read_reserved rt e o s).1 name bytes
  unfolding read_reserved released
  read_reserved-Holds s name bytes (none, v) h = h
  read_reserved-Holds s name bytes (some (started, t), v) h =
      let u = record t { unix_micro = started } in
      release-Holds e law started (session_of (serve_read rt (lstat_of v) u) u) name bytes v h

  -- Where the engine obeys IsEngine: however ReadAsServer ends, and whatever is refused, it
  -- leaves the newest complete version of every name, with its bytes.
  pub read_as_server_of-Holds :
      (s : Session) (name bytes : Bytes) (w : World)
      → Holds w name bytes
      → Holds (read_as_server_of rt e s w).1 name bytes
  unfolding read_as_server_of
  read_as_server_of-Holds s name bytes w h =
      read_reserved-Holds s name bytes (reserve e s w) (reserve-Holds e law s name bytes w h)

  -- What `WriteAsServer` leaves, from the moment that its upload is in the table.
  overwritten-Holds :
      (started : ℕ) (s : Session) (name bytes : Bytes) (o : Option (Unit {0}) × World)
      → Holds o.1 name bytes
      → Holds (overwritten rt e started s o).1 name bytes
  unfolding overwritten overwrite_failure
  overwritten-Holds started s name bytes (none, v) h = h
  overwritten-Holds started s name bytes (some a, v) h = h

  write_received-Holds :
      (completed started : ℕ) (x : Session) (name bytes : Bytes) (v : World)
      (o : Outcome (Unit {0}))
      → ((y : Session) → o ≡ done tt y → name ≢ e.column y.filename)
      → All (λ q. q.time_started ≡ started → q.time_completed ≡ 0) v.rows
      → Holds v name bytes
      → Holds (write_received rt e completed started o x v).1 name bytes
  unfolding write_received
  write_received-Holds completed started x name bytes v (done a y) other incomplete h =
      overwritten-Holds started y name bytes (overwrite_success e completed started y v)
        (overwrite_success-Holds e law completed started y name bytes v (other y refl) incomplete h)
  write_received-Holds completed started x name bytes v (failed f y) other incomplete h =
      overwrite_failure-Holds e law false started y name bytes v incomplete h
  write_received-Holds completed started x name bytes v panic other incomplete h =
      overwrite_failure-Holds e law false started x name bytes v incomplete h
  write_received-Holds completed started x name bytes v out_of_fuel other incomplete h =
      overwrite_failure-Holds e law false started x name bytes v incomplete h

  write_prepared-Holds :
      (now completed : ℕ) (s u : Session) (name bytes : Bytes) (w : World)
      (o : Option (ℕ × Session) × World)
      → name ≢ e.column u.filename
      → IsPrepared rt s u
      → prepare e now u w ≡ o
      → Holds o.1 name bytes
      → Holds (write_prepared rt e completed o u).1 name bytes
  unfolding write_prepared
  write_prepared-Holds now completed s u name bytes w (none, v) other p r h = h
  write_prepared-Holds now completed s u name bytes w (some (started, x), v) other p r h =
      let (is, prepared) = prepare-IsPrepared e now u w v (started, x) r in
      let time : started ≡ now = ap (λ (z : ℕ × Session). z.0) is in
      let session : x ≡ record u { file = some (opened []) } = ap (λ (z : ℕ × Session). z.1) is in
      write_received-Holds completed started x name bytes v (receive_data_loop rt false x)
        (λ y got c. other (
          c
          ∙ ap e.column (
              (receive_data_loop-WritesFile rt false x y (opened [])
                (subst (λ z. IsOpen z (opened [])) (sym session)
                  (record { size_low = p.size_low; opened = refl; writable = refl }))
                got).filename
              ∙ ap (λ (z : Session). z.filename) session)))
        (subst (λ n. All (λ q. q.time_started ≡ n → q.time_completed ≡ 0) v.rows) (sym time)
          (prepared-incomplete e w v u.filename now prepared))
        h

  write_opened-Holds :
      (now completed : ℕ) (s : Session) (name bytes : Bytes) (w : World) (o : Outcome (Unit {0}))
      → name ≢ e.column s.filename
      → ((u : Session) → o ≡ done tt u → IsPrepared rt s u)
      → Holds w name bytes
      → Holds (write_opened rt e now completed o w).1 name bytes
  unfolding write_opened
  write_opened-Holds now completed s name bytes w (done a u) other k h =
      let p = k u refl in
      write_prepared-Holds now completed s u name bytes w (prepare e now u w)
        (λ c. other (c ∙ ap e.column p.filename)) p refl (prepare-Holds e law now u name bytes w h)
  write_opened-Holds now completed s name bytes w (failed f u) other k h = h
  write_opened-Holds now completed s name bytes w panic other k h = h
  write_opened-Holds now completed s name bytes w out_of_fuel other k h = h

  write_request-Holds :
      (now completed : ℕ) (m : Message) (s : Session) (name bytes : Bytes) (w : World)
      → IsNegotiated s
      → name ≢ e.column s.filename
      → Holds w name bytes
      → Holds (write_request rt e now completed m s w).1 name bytes
  unfolding write_request
  write_request-Holds now completed (write_message m) s name bytes w n other h =
      write_opened-Holds now completed s name bytes w (open_write rt (lstat_of w) m.options s) other
        (λ u k. open_write-IsPrepared rt (lstat_of w) m.options s u n k) h
  write_request-Holds now completed _ s name bytes w n other h = h

  -- Where the engine obeys IsEngine: however WriteAsServer ends, and whatever is refused, it
  -- leaves the newest complete version of every other name, with its bytes. The session's block
  -- size and timeout are in range.
  pub write_as_server_of-Holds :
      (now completed : ℕ) (s : Session) (name bytes : Bytes) (w : World)
      → IsNegotiated s
      → name ≢ e.column s.filename
      → Holds w name bytes
      → Holds (write_as_server_of rt e now completed s w).1 name bytes
  unfolding write_as_server_of
  write_as_server_of-Holds now completed s name bytes w n other h =
      write_request-Holds now completed s.most_recent_message s name bytes w n other h
