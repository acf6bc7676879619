-- ===== src/Session/Io/Room.antt =====
-- The two buffers of a client's session, from `NewTftpSession` on: `SendBuf` may grow with a
-- message, `ReceiveBuf` keeps its array.
use tftpcpd.Base.{
  ℕ, ◌+◌, ◌-◌, ◌≤◌, ◌<◌, Bytes, Bool, true, false, not, ◌==◌, List, [], ◌∷◌, ◌++◌, Option, none,
  some, ◌≡◌, refl, sym, ap, subst, ◌∙◌, arith, ltb, leb, if◌then◌else◌, length, length-append,
  length-drop, length-take, take,
}
use tftpcpd.Wire.{Message, Result, ok, err, error_message, data_message}
use tftpcpd.Wire.Encode.Layout.{layout}
use tftpcpd.Wire.Decode.{bytes_as_message}
use tftpcpd.Session.Slice.{Slice, len, array, capacity, reslice, overwrite, copy_front}
use tftpcpd.Session.Slice.Laws.{window, capacity-window, capacity-copy_front, shown-overwrite}
use tftpcpd.Session.State.{
  Arrival, Connection, data_preamble_length, File, buffer_too_small, file_refused, file_eof, u16,
  truncated_error_message, cancelled, read_failed, datagram, Delivery, whole, cut, refused, Session,
  Outcome, done, failed, panic, ◌>>=◌, Runtime,
}
use tftpcpd.Session.Io.{
  packet_size, read_file, read_block, read_some, store, send, send_with, write_to, delivered,
  report_error, receive, receive_from, take_arrival, decoded,
}
use tftpcpd.Session.Io.Blocks.{store_lem}

-- What an outcome leaves, but for a panic.
abbrev pub Leaves : {A : Type 0} → (Session → Type 0) → Outcome A → Type 0
Leaves P (done a s) = P s
Leaves P (failed e s) = P s
Leaves P _ = Unit

-- A block size and a timeout in range, and buffers with the room of a new session.
pub record Fits (s : Session) : Type 0 where
  pub size_low : 8 ≤ s.block_size
  pub size_high : s.block_size ≤ 65464
  pub timeout_low : 1 ≤ s.timeout
  pub timeout_high : s.timeout ≤ 255
  pub used : 4 < len s.send_buf
  pub room : 516 ≤ capacity s.send_buf
  pub hears : capacity s.receive_buf ≡ 516

-- The array of a buffer never shrinks.
capacity-overwrite_le :
    (spare : ℕ → ℕ → Bytes) (bytes : Bytes) (b : Slice)
    → capacity b ≤ capacity (overwrite spare bytes b)
unfolding overwrite
capacity-overwrite_le spare bytes b =
    ground (arith, length-drop (length bytes) (array b), length-append b.shown b.behind)

reslice-some : (n : ℕ) (b w : Slice) → reslice n b ≡ some w → (n ≤ capacity b) × (w ≡ window n b)
unfolding reslice
reslice-some n b w h = (ground arith, ground arith)

pub Fits-connection : (s : Session) (c : Connection) → Fits s → Fits (record s { destination = c })
Fits-connection s c f = record {
  size_low = f.size_low;
  size_high = f.size_high;
  timeout_low = f.timeout_low;
  timeout_high = f.timeout_high;
  used = f.used;
  room = f.room;
  hears = f.hears;
}

module _ (rt : Runtime) where
  pub overwrite-Fits :
      (bytes : Bytes) (s : Session)
      → 4 < length bytes
      → Fits s
      → Fits (record s { send_buf = overwrite rt.spare bytes s.send_buf })
  overwrite-Fits bytes s long f =
      let shown = ap (length {A = ℕ}) (shown-overwrite rt.spare bytes s.send_buf) in
      let grows = capacity-overwrite_le rt.spare bytes s.send_buf in
      let room = f.room in
      record {
        size_low = f.size_low;
        size_high = f.size_high;
        timeout_low = f.timeout_low;
        timeout_high = f.timeout_high;
        used = omega (arith, long, shown);
        room = omega (arith, room, grows);
        hears = f.hears;
      }

  pub send-Leaves : (to : Option ℕ) (s : Session) → Fits s → Leaves Fits (send to s)
  unfolding send send_with write_to delivered
  send-Leaves to s f = go s.destination.deliveries
    where
      go : (l : List Delivery) → Leaves Fits (send_with to s l)
      go [] = Fits-connection s _ f
      go (whole ∷ l) = Fits-connection s _ f
      go (cut ∷ l) = Fits-connection s _ f
      go (refused ∷ l) = Fits-connection s _ f

  -- A message that reports an error.
  pub report_error-Leaves :
      (code : ℕ) (text : Bytes) (s : Session) → Fits s → Leaves Fits (report_error rt code text s)
  unfolding report_error
  report_error-Leaves code text s f =
      let m = error_message (record { error_code = u16 code; explanation = text }) in
      let long : 4 < length (layout rt.map_lower m) =
        let n = length-append text (0 ∷ []) in omega (arith, n) in
      subst (Leaves Fits)
        (ap
          (λ o. o >>= λ _ t.
            if not (len t.send_buf == 2 + 2 + length text + 1)
            then failed truncated_error_message t
            else send none t)
          (sym (store_lem rt m s (λ e. cc))))
        (tested (not (_ == _)) _ (overwrite-Fits (layout rt.map_lower m) s long f))
    where
      tested :
          (b : Bool) (t : Session)
          → Fits t
          → Leaves Fits (if b then failed truncated_error_message t else send none t)
      tested true t k = k
      tested false t k = send-Leaves none t k

  -- A `Receive` that returns no error had the room for a packet, and keeps the array.
  pub receive-room :
      (s t : Session) (a : ℕ)
      → receive rt s ≡ done a t
      → (packet_size s ≤ capacity s.receive_buf) × (capacity t.receive_buf ≡ capacity s.receive_buf)
  unfolding receive receive_from take_arrival decoded
  receive-room s t a h = opened s.destination.incoming h
    where
      decoded-room :
          (addr : ℕ) (r : Result Message) (u : Session)
          → decoded rt addr r u ≡ done a t
          → t.receive_buf ≡ u.receive_buf
      decoded-room addr (ok m) u k = ground arith
      decoded-room addr (err e) u k = absurd (ground arith)

      taken :
          (w : Slice) (l : List Arrival)
          → take_arrival rt w s l ≡ done a t
          → capacity t.receive_buf ≡ capacity w
      taken w (datagram addr bytes ∷ later) k =
          let packet = take (len w) bytes in
          ap capacity (decoded-room addr (bytes_as_message rt.map_lower packet) _ k)
          ∙ capacity-copy_front packet w (omega (arith, length-take (len w) bytes))
      taken w [] k = absurd (ground arith)
      taken w (cancelled ∷ later) k = absurd (ground arith)
      taken w (read_failed ∷ later) k = absurd (ground arith)

      windowed :
          (l : List Arrival) (o : Option Slice)
          → reslice (packet_size s) s.receive_buf ≡ o
          → elim o [ none ↦ panic | some w ↦ take_arrival rt w s l ] ≡ done a t
          → (packet_size s ≤ capacity s.receive_buf)
            × (capacity t.receive_buf ≡ capacity s.receive_buf)
      windowed l none e k = absurd (ground arith)
      windowed l (some w) e k =
          let (fits, is) = reslice-some (packet_size s) s.receive_buf w e in
          (fits, taken w l k ∙ ap capacity is ∙ capacity-window (packet_size s) s.receive_buf)

      opened :
          (l : List Arrival)
          → receive_from rt s l ≡ done a t
          → (packet_size s ≤ capacity s.receive_buf)
            × (capacity t.receive_buf ≡ capacity s.receive_buf)
      opened (cancelled ∷ later) k = absurd (ground arith)
      opened [] k = windowed [] (reslice (packet_size s) s.receive_buf) refl k
      opened (datagram addr bytes ∷ later) k =
          windowed (datagram addr bytes ∷ later) (reslice (packet_size s) s.receive_buf) refl k
      opened (read_failed ∷ later) k =
          windowed (read_failed ∷ later) (reslice (packet_size s) s.receive_buf) refl k

-- The same block size, and the same buffer to receive in.
pub record SameRoom (s t : Session) : Type 0 where
  pub size : t.block_size ≡ s.block_size
  pub buffer : t.receive_buf ≡ s.receive_buf

read_block-SameRoom :
    (w : Slice) (s t : Session) → SameRoom s t → Leaves (SameRoom s) (read_block w t)
unfolding read_block
read_block-SameRoom w s t k = started (ltb (len w) data_preamble_length)
  where
    kept : (b : Slice) (f : Option File) → SameRoom s (record t { send_buf = b; file = f })
    kept b f = record { size = k.size; buffer = k.buffer }

    header : Bytes
    header = take data_preamble_length w.shown

    read :
        (o : Option (Bytes × File))
        → Leaves (SameRoom s) (elim o [
          | none ↦ failed file_eof (record t { send_buf = copy_front header w })
          | some (chunk, g) ↦
              done tt (record t { send_buf = copy_front (header ++ chunk) w; file = some g })
        ])
    read none = kept _ t.file
    read (some (chunk, g)) = kept _ (some g)

    refusing :
        (f : File) (b : Bool)
        → Leaves (SameRoom s) (
            if b
            then failed file_refused (record t { send_buf = w })
            else elim (read_some (len w - data_preamble_length) f) [
              | none ↦ failed file_eof (record t { send_buf = copy_front header w })
              | some (chunk, g) ↦
                  done tt (record t { send_buf = copy_front (header ++ chunk) w; file = some g })
            ])
    refusing f true = kept _ t.file
    refusing f false = read (read_some (len w - data_preamble_length) f)

    filed :
        (o : Option File)
        → Leaves (SameRoom s) (elim o [
          | none ↦ failed file_refused (record t { send_buf = w })
          | some f ↦
              if f.refuses
              then failed file_refused (record t { send_buf = w })
              else elim (read_some (len w - data_preamble_length) f) [
                | none ↦ failed file_eof (record t { send_buf = copy_front header w })
                | some (chunk, g) ↦
                    done tt (record t { send_buf = copy_front (header ++ chunk) w; file = some g })
              ]
        ])
    filed none = kept _ t.file
    filed (some f) = refusing f f.refuses

    started :
        (b : Bool)
        → Leaves (SameRoom s) (
            if b then panic else elim t.file [
              | none ↦ failed file_refused (record t { send_buf = w })
              | some f ↦
                  if f.refuses
                  then failed file_refused (record t { send_buf = w })
                  else elim (read_some (len w - data_preamble_length) f) [
                    | none ↦ failed file_eof (record t { send_buf = copy_front header w })
                    | some (chunk, g) ↦
                        done tt
                          (record t { send_buf = copy_front (header ++ chunk) w; file = some g })
                  ]
            ])
    started true = tt
    started false = filed t.file

module _ (rt : Runtime) where
  pub read_file-SameRoom : (s : Session) → Leaves (SameRoom s) (read_file rt s)
  unfolding read_file
  read_file-SameRoom s = go (leb (len s.send_buf) data_preamble_length)
    where
      empty : Message
      empty = data_message (record { block_number = s.block_number; body = [] })

      resliced :
          (t : Session) (o : Option Slice)
          → SameRoom s t
          → Leaves (SameRoom s) (elim o [ none ↦ panic | some w ↦ read_block w t ])
      resliced t none k = tt
      resliced t (some w) k = read_block-SameRoom w s t k

      go :
          (b : Bool)
          → Leaves (SameRoom s) (
              if b
              then failed buffer_too_small s
              else store rt empty s >>= λ _ t. elim (reslice (packet_size t) t.send_buf) [
                | none ↦ panic
                | some w ↦ read_block w t
              ])
      go true = record { size = refl; buffer = refl }
      go false =
          let t = record s {
            send_buf = overwrite rt.spare (layout rt.map_lower empty) s.send_buf;
          } in
          subst (Leaves (SameRoom s))
            (ap
              (λ o. o >>= λ _ t. elim (reslice (packet_size t) t.send_buf) [
                | none ↦ panic
                | some w ↦ read_block w t
              ])
              (sym (store_lem rt empty s (λ e. cc))))
            (resliced t (reslice (packet_size t) t.send_buf)
              (record { size = refl; buffer = refl }))
