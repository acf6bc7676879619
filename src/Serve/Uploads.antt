-- ===== src/Serve/Uploads.antt =====
-- What `WriteAsServer` leaves of the file and on the connection.
use tftpcpd.Base.{
  ℕ, ◌+◌, ◌≤◌, ◌<◌, Bytes, Bool, true, false, List, [], ◌++◌, Option, none, some, ◌≡◌, refl, sym,
  ap, subst, ◌∙◌, arith, if◌then◌else◌, All,
}
use tftpcpd.Wire.{Options, Message, write_message}
use tftpcpd.Session.State.{
  Arrival, data_preamble_length, u16, Connection, File, Session, unable_to_acknowledge, Outcome,
  done, failed, panic, out_of_fuel, Runtime,
}
use tftpcpd.Session.Io.{packet_size, acknowledge, acknowledge_options}
use tftpcpd.Session.Io.Blocks.{IsOpen}
use tftpcpd.Session.SendLoop.Heard.{>>=-eq-done}
use tftpcpd.Session.ReceiveLoop.{receive_data_loop}
use tftpcpd.Session.ReceiveLoop.Written.{receive_data_loop-WritesFile}
use tftpcpd.Session.Brings.{Reads, Brings}
use tftpcpd.Session.Transfer.{AreSized, acks, unaddressed, concat}
use tftpcpd.Session.Options.{Lstat, update_options}
use tftpcpd.Session.Options.Buffers.{update_options-SameEnds}
use tftpcpd.Session.Options.Laws.{IsNegotiated}
use tftpcpd.Files.Table.{Engine, IsEngine}
use tftpcpd.Files.World.{World}
use tftpcpd.Files.Methods.{prepare, overwrite_success, overwrite_failure, opened, written_of}
use tftpcpd.Files.Methods.Holds.{Holds}
use tftpcpd.Files.Methods.Serves.{IsUploading, overwrite_success-Serves}
use tftpcpd.Files.Methods.Prepared.{prepare-IsPrepared, prepared-IsUploading}
use tftpcpd.Serve.{
  blamed, is_none, options_checked, resized, lstat_of, open_write, overwritten, write_received,
  write_prepared, write_opened, write_request, write_as_server_of,
}
use tftpcpd.Serve.Kept.{
  IsPrepared, open_write-IsPrepared, options_checked-done, blamed-done, acknowledge-incoming,
  acknowledge_options-incoming,
}

module _ (rt : Runtime) where
  -- What a client that uploaded has got: the messages read from the front of `arrivals` bring the
  -- blocks from number 1 on, these are acknowledged, and the newest complete version of the name
  -- has their bytes.
  pub record Uploads (name : Bytes) (arrivals : List Arrival) (w : World) (t : Session)
      : Type 0 where
    pub size : ℕ
    pub size_low : 8 ≤ size
    pub messages : List Message
    pub reads :
        Reads rt.map_lower
          (u16 (size + data_preamble_length))
          arrivals
          messages
          t.destination.incoming
    pub blocks : List Bytes
    pub brings : Brings 1 blocks messages
    pub sized : AreSized size blocks
    pub holds : Holds w name (concat blocks)
    pub before : List (Option ℕ × Bytes)
    pub acknowledged : t.destination.sent ≡ before ++ unaddressed (acks 1 blocks)

  resized-IsOpen :
      (s t : Session) (f : File)
      → f.refuses ≡ false
      → IsPrepared rt s t
      → IsOpen (record t { file = some f }) f
  resized-IsOpen s t f writable p = record {
    size_low = p.size_low;
    opened = refl;
    writable = writable;
  }

  module _ (e : Engine) (law : IsEngine e) where
    overwritten-done :
        (started : ℕ) (y t : Session) (o : Option (Unit {0}) × World)
        → (overwritten rt e started y o).0 ≡ done tt t
        → (o.0 ≡ some tt) × (t ≡ y) × ((overwritten rt e started y o).1 ≡ o.1)
    unfolding overwritten overwrite_failure
    overwritten-done started y t (none, w) h = absurd (ground arith)
    overwritten-done started y t (some a, w) h = (refl, ground arith, refl)

    -- What `OverwriteSuccess` needs of the session that received the file, and what it leaves.
    received-Uploads :
        (completed started : ℕ) (x y t : Session) (v : World)
        → IsUploading e v x.filename started completed
        → IsOpen x (opened [])
        → x.block_number ≡ 1
        → receive_data_loop rt false x ≡ done tt y
        → (overwritten rt e started y (overwrite_success e completed started y v)).0 ≡ done tt t
        → Uploads x.filename x.destination.incoming
            (overwritten rt e started y (overwrite_success e completed started y v)).1
            t
    received-Uploads completed started x y t v u ready first got h =
        let wrote = receive_data_loop-WritesFile rt false x y (opened []) ready got in
        let (succeeded, same, world) =
          overwritten-done started y t (overwrite_success e completed started y v) h in
        let kept =
          overwrite_success-Serves e law completed started y v
            (subst (λ n. IsUploading e v n started completed) (sym wrote.filename) u) succeeded in
        let bytes : written_of y.file ≡ concat wrote.blocks = ap written_of wrote.written in
        record {
          size = x.block_size;
          size_low = ready.size_low;
          messages = wrote.messages;
          reads =
              subst
                (λ (z : Session).
                  Reads rt.map_lower (packet_size x) x.destination.incoming wrote.messages
                    z.destination.incoming)
                (sym same) wrote.reads;
          blocks = wrote.blocks;
          brings = subst (λ n. Brings n wrote.blocks wrote.messages) first wrote.brings;
          sized = wrote.sized;
          holds =
              subst (λ w. Holds w x.filename (concat wrote.blocks)) (sym world)
                (subst
                  (λ n. Holds (overwrite_success e completed started y v).1 n (concat wrote.blocks))
                  wrote.filename
                  (subst (Holds (overwrite_success e completed started y v).1 y.filename) bytes
                    kept));
          before = x.destination.sent;
          acknowledged =
              ap (λ (z : Session). z.destination.sent) same
              ∙ (wrote.acknowledged
                  ∙ ap (λ n. x.destination.sent ++ unaddressed (acks n wrote.blocks)) first);
        }

    write_received-Uploads :
        (completed started : ℕ) (x t : Session) (v : World) (o : Outcome (Unit {0}))
        → IsUploading e v x.filename started completed
        → IsOpen x (opened [])
        → x.block_number ≡ 1
        → receive_data_loop rt false x ≡ o
        → (write_received rt e completed started o x v).0 ≡ done tt t
        → Uploads x.filename x.destination.incoming
            (write_received rt e completed started o x v).1
            t
    unfolding write_received
    write_received-Uploads completed started x t v (done a y) u ready first got h =
        received-Uploads completed started x y t v u ready first got h
    write_received-Uploads completed started x t v (failed f y) u ready first got h =
        absurd (ground arith)
    write_received-Uploads completed started x t v panic u ready first got h = absurd (ground arith)
    write_received-Uploads completed started x t v out_of_fuel u ready first got h =
        absurd (ground arith)

    write_prepared-Uploads :
        (now completed : ℕ) (s u t : Session) (w : World) (o : Option (ℕ × Session) × World)
        → e.column u.filename ≡ u.filename
        → 0 < completed
        → All (λ q. q.filename ≡ u.filename → q.time_completed < completed) w.rows
        → IsPrepared rt s u
        → u.block_number ≡ 1
        → prepare e now u w ≡ o
        → (write_prepared rt e completed o u).0 ≡ done tt t
        → Uploads u.filename u.destination.incoming (write_prepared rt e completed o u).1 t
    unfolding write_prepared
    write_prepared-Uploads now completed s u t w (none, v) c positive late p first r h =
        absurd (ground arith)
    write_prepared-Uploads now completed s u t w (some (started, x), v) c positive late p first r
          h =
        let (is, prepared) = prepare-IsPrepared e now u w v (started, x) r in
        let time : started ≡ now = ap (λ (z : ℕ × Session). z.0) is in
        let session : x ≡ record u { file = some (opened []) } = ap (λ (z : ℕ × Session). z.1) is in
        let goes = prepared-IsUploading e w v u.filename now completed c positive late prepared in
        rw (time, session)
          (write_received-Uploads completed now (record u { file = some (opened []) }) t v
            (receive_data_loop rt false (record u { file = some (opened []) })) goes
            (resized-IsOpen s u (opened []) refl p) first refl (rw (← time, ← session) h))

    write_opened-Uploads :
        (now completed : ℕ) (s t : Session) (w : World) (o : Outcome (Unit {0}))
        → e.column s.filename ≡ s.filename
        → 0 < completed
        → All (λ q. q.filename ≡ s.filename → q.time_completed < completed) w.rows
        → ((u : Session)
            → o ≡ done tt u
            → IsPrepared rt s u
              × (u.block_number ≡ 1)
              × (u.destination.incoming ≡ s.destination.incoming))
        → (write_opened rt e now completed o w).0 ≡ done tt t
        → Uploads s.filename s.destination.incoming (write_opened rt e now completed o w).1 t
    unfolding write_opened
    write_opened-Uploads now completed s t w (done a u) c positive late k h =
        let (p, first, arrivals) = k u refl in
        let name = p.filename in
        subst (λ l. Uploads s.filename l (write_prepared rt e completed (prepare e now u w) u).1 t)
          arrivals
          (subst
            (λ n.
              Uploads n u.destination.incoming
                (write_prepared rt e completed (prepare e now u w) u).1 t)
            name
            (write_prepared-Uploads now completed s u t w (prepare e now u w)
              (ap e.column name ∙ (c ∙ sym name)) positive
              (subst (λ n. All (λ q. q.filename ≡ n → q.time_completed < completed) w.rows)
                (sym name) late)
              p first refl h))
    write_opened-Uploads now completed s t w (failed f u) c positive late k h =
        absurd (ground arith)
    write_opened-Uploads now completed s t w panic c positive late k h = absurd (ground arith)
    write_opened-Uploads now completed s t w out_of_fuel c positive late k h = absurd (ground arith)

    open_write-first :
        (lstat : Lstat) (o : Options) (s u : Session)
        → open_write rt lstat o s ≡ done tt u
        → u.block_number ≡ 1
    unfolding open_write resized
    open_write-first lstat o s u h =
        let (a, v, checked, k) =
          >>=-eq-done (options_checked rt (update_options rt lstat o s)) _ h in
        let w = record v { block_number = 0 } in
        let (b, x, answered, opens) =
          >>=-eq-done
            (blamed unable_to_acknowledge
              (if is_none v.options then acknowledge rt w else acknowledge_options rt w))
            _ k in
        first_of x u opens
      where
        first_of :
            (x y : Session)
            → ◌≡◌ {A = Outcome (Unit {0})}
                (done tt (
                  resized
                    (record x { last_valid_message = x.most_recent_message; block_number = 1 })))
                (done tt y)
            → y.block_number ≡ 1
        first_of x y i = ground arith

    open_write-incoming :
        (lstat : Lstat) (o : Options) (s u : Session)
        → open_write rt lstat o s ≡ done tt u
        → u.destination.incoming ≡ s.destination.incoming
    unfolding open_write resized
    open_write-incoming lstat o s u h =
        let (_, v, checked, k) =
          >>=-eq-done (options_checked rt (update_options rt lstat o s)) _ h in
        let w = record v { block_number = 0 } in
        let (_, x, answered, opens) = >>=-eq-done _ _ k in
        let ends =
          update_options-SameEnds rt lstat o s v
            (options_checked-done rt (update_options rt lstat o s) v checked) in
        let same : u.destination.incoming ≡ x.destination.incoming = ground arith in
        same
        ∙ (answer (is_none v.options) w x (blamed-done unable_to_acknowledge _ x answered)
            ∙ ap (λ (c : Connection). c.incoming) ends.connection)
      where
        answer :
            (b : Bool) (x y : Session)
            → (if b then acknowledge rt x else acknowledge_options rt x) ≡ done tt y
            → y.destination.incoming ≡ x.destination.incoming
        answer true x y e = acknowledge-incoming rt x y e
        answer false x y e = acknowledge_options-incoming rt x y e

    write_request-Uploads :
        (now completed : ℕ) (m : Message) (s t : Session) (w : World)
        → IsNegotiated s
        → e.column s.filename ≡ s.filename
        → 0 < completed
        → All (λ q. q.filename ≡ s.filename → q.time_completed < completed) w.rows
        → (write_request rt e now completed m s w).0 ≡ done tt t
        → Uploads s.filename s.destination.incoming (write_request rt e now completed m s w).1 t
    unfolding write_request
    write_request-Uploads now completed (write_message m) s t w n c positive late h =
        write_opened-Uploads now completed s t w (open_write rt (lstat_of w) m.options s) c positive
          late
          (λ u k. (
            open_write-IsPrepared rt (lstat_of w) m.options s u n k,
            open_write-first (lstat_of w) m.options s u k,
            open_write-incoming (lstat_of w) m.options s u k,
          ))
          h
    write_request-Uploads now completed _ s t w n c positive late h = absurd (ground arith)

    -- Where the engine obeys IsEngine, and WriteAsServer returns no error, at a time after those
    -- at which the other versions of the file were complete: the newest complete version of the
    -- file has exactly the bytes of the blocks that the messages at the front of what arrived
    -- have brought: for each uint16 number from 1 on the body of the first data message that has
    -- it, where any other message before it is a block of a lesser number or a write request.
    -- These blocks were acknowledged last, in order; all but the last are full and the last is
    -- short. The session's block size and timeout are in range, and the column keeps the name as
    -- it is.
    pub write_as_server_of-Uploads :
        (now completed : ℕ) (s t : Session) (w : World)
        → IsNegotiated s
        → e.column s.filename ≡ s.filename
        → 0 < completed
        → All (λ q. q.filename ≡ s.filename → q.time_completed < completed) w.rows
        → (write_as_server_of rt e now completed s w).0 ≡ done tt t
        → Uploads s.filename s.destination.incoming (write_as_server_of rt e now completed s w).1 t
    unfolding write_as_server_of
    write_as_server_of-Uploads now completed s t w n c positive late h =
        write_request-Uploads now completed s.most_recent_message s t w n c positive late h
