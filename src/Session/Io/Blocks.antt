-- ===== src/Session/Io/Blocks.antt =====
-- One block between the file and `SendBuf`: `ReadFile`, `WriteFile` and the messages they serve.
use tftpcpd.Base.{
  ℕ, zero, suc, ◌+◌, ◌-◌, ◌≤◌, ◌<◌, Bytes, false, List, [], ◌∷◌, ◌++◌, none, some, ◌≡◌, ◌≢◌, refl,
  sym, ap, ◌∙◌, arith, length, take, drop, append-nil,
}
use tftpcpd.Wire.{DataMessage, Message, data_message, acknowledge_message, other}
use tftpcpd.Wire.Encode.{big_endian}
use tftpcpd.Wire.Encode.Layout.{layout, message_as_bytes_lem}
use tftpcpd.Session.Slice.{Slice, len, capacity, overwrite, copy_front}
use tftpcpd.Session.Slice.Laws.{
  window, reslice_fits, capacity-window, len-window, capacity-overwrite, shown-overwrite,
}
use tftpcpd.Session.State.{Delivery, File, Session, file_eof, done, failed, Runtime}
use tftpcpd.Session.Io.{
  packet_size, read_file, read_some, read_block, write_file, store, stored, send, acknowledge,
}
use tftpcpd.Session.Io.Laws.{written_to, send-done, send_whole}

-- The four bytes in front of the data.
abbrev pub data_header : ℕ → Bytes
data_header n = 0 ∷ 3 ∷ big_endian n

abbrev pub ack_bytes : ℕ → Bytes
ack_bytes n = 0 ∷ 4 ∷ big_endian n

take-take : (n : ℕ) (xs ys : Bytes) → length xs ≤ n → take (length xs) (take n (xs ++ ys)) ≡ xs
take-take n [] ys h = refl
take-take zero (x ∷ xs) ys h = elim h [ ]
take-take (suc n) (x ∷ xs) ys h = ap (◌∷◌ x) (take-take n xs ys (omega arith))

module _ (rt : Runtime) where
  pub store_lem :
      (m : Message) (s : Session)
      → m ≢ other
      → store rt m s
        ≡ done tt (record s { send_buf = overwrite rt.spare (layout rt.map_lower m) s.send_buf })
  unfolding store stored
  store_lem m s h = ap (stored rt s) (message_as_bytes_lem rt.map_lower m h s.send_buf.shown)

  -- A session that can read its next block.
  pub record IsReady (s : Session) (f : File) : Type 0 where
    pub size_low : 8 ≤ s.block_size
    pub size_high : s.block_size ≤ 65464
    pub buffer_used : 4 < len s.send_buf
    pub buffer_room : s.block_size + 4 ≤ capacity s.send_buf
    pub opened : s.file ≡ some f
    pub readable : f.refuses ≡ false

  -- `SendBuf` at the call of `File.Read`.
  abbrev pub header_window : Session → Slice
  header_window s =
      window (packet_size s) (overwrite rt.spare (data_header s.block_number) s.send_buf)

  pub read_file-read_block :
      (s : Session) (f : File)
      → IsReady s f
      → read_file rt s
        ≡ read_block
            (header_window s)
            (record s { send_buf = overwrite rt.spare (data_header s.block_number) s.send_buf })
  unfolding read_file
  read_file-read_block s f r =
      let header = data_header s.block_number in
      let room : 4 ≤ capacity s.send_buf = omega (arith, r.buffer_room) in
      let message = data_message (record { block_number = s.block_number; body = [] }) in
      ground (
        arith,
        store_lem message s (λ e. cc),
        reslice_fits (packet_size s) (overwrite rt.spare header s.send_buf) (
            omega (
              arith,
              r.buffer_room,
              r.size_high,
              capacity-overwrite rt.spare header s.send_buf room,
            )),
      )

  pub header_window-facts :
      (s : Session) (f : File)
      → IsReady s f
      → (len (header_window s) ≡ 4 + s.block_size)
        × (capacity (header_window s) ≡ capacity s.send_buf)
        × (take 4 (header_window s).shown ≡ data_header s.block_number)
  header_window-facts s f r =
      let header = data_header s.block_number in
      let b = overwrite rt.spare header s.send_buf in
      let kept : capacity b ≡ capacity s.send_buf =
        capacity-overwrite rt.spare header s.send_buf (omega (arith, r.buffer_room)) in
      let full : packet_size s ≡ 4 + s.block_size = omega (arith, r.size_high) in
      let fits : packet_size s ≤ capacity b = omega (arith, r.buffer_room) in
      (
        len-window (packet_size s) b fits ∙ full,
        capacity-window (packet_size s) b ∙ kept,
        rw (shown-overwrite rt.spare header s.send_buf)
            (take-take (packet_size s) header b.behind (omega arith)),
      )

  -- `ReadFile` at the end of the file, and before it, on the window.
  pub read_block_end :
      (w : Slice) (s : Session) (f : File)
      → 4 < len w
      → s.file ≡ some f
      → f.refuses ≡ false
      → f.unread ≡ []
      → read_block w s ≡ failed file_eof (record s { send_buf = copy_front (take 4 w.shown) w })
  unfolding read_block read_some
  read_block_end w s f room opened readable ended = ground arith

  pub read_block_more :
      (w : Slice) (s : Session) (f : File) (c : ℕ) (cs : Bytes)
      → 4 < len w
      → s.file ≡ some f
      → f.refuses ≡ false
      → f.unread ≡ c ∷ cs
      → read_block w s
        ≡ done tt (record s {
          send_buf = copy_front (take 4 w.shown ++ take (len w - 4) f.unread) w;
          file = some (record f { unread = drop (len w - 4) f.unread });
        })
  unfolding read_block read_some
  read_block_more w s f c cs room opened readable more = ground arith

  -- An acknowledgement that is sent without error is the four bytes of its layout.
  pub record Acknowledges (s t : Session) : Type 0 where
    pub buffer : Slice
    pub deliveries : List Delivery
    pub packet : buffer.shown ≡ ack_bytes s.block_number
    pub room : 4 ≤ capacity s.send_buf → capacity buffer ≡ capacity s.send_buf
    pub result : t ≡ written_to (record s { send_buf = buffer }) none deliveries

  acknowledge-send :
      (s : Session)
      → acknowledge rt s
        ≡ send none
            (record s { send_buf = overwrite rt.spare (ack_bytes s.block_number) s.send_buf })
  unfolding acknowledge
  acknowledge-send s =
      let message = acknowledge_message (record { block_number = s.block_number }) in
      ground (
        arith,
        store_lem message s (λ e. cc),
        shown-overwrite rt.spare (ack_bytes s.block_number) s.send_buf,
        ap (length {A = ℕ}) (shown-overwrite rt.spare (ack_bytes s.block_number) s.send_buf),
      )

  pub acknowledge-Acknowledges : (s t : Session) → acknowledge rt s ≡ done tt t → Acknowledges s t
  acknowledge-Acknowledges s t h =
      let bytes = ack_bytes s.block_number in
      let b = overwrite rt.spare bytes s.send_buf in
      let (deliveries, sent) =
        send-done none (record s { send_buf = b }) t (sym (acknowledge-send s) ∙ h) in
      record {
        buffer = b;
        deliveries = deliveries;
        packet = shown-overwrite rt.spare bytes s.send_buf;
        room = λ room. capacity-overwrite rt.spare bytes s.send_buf room;
        result = sent;
      }

  -- On a connection that refuses nothing the acknowledgement is sent.
  pub acknowledge_whole :
      (s : Session)
      → s.destination.deliveries ≡ []
      → acknowledge rt s
        ≡ done tt (
            written_to
              (record s { send_buf = overwrite rt.spare (ack_bytes s.block_number) s.send_buf })
              none
              [])
  acknowledge_whole s h =
      acknowledge-send s
      ∙ send_whole none
          (record s { send_buf = overwrite rt.spare (ack_bytes s.block_number) s.send_buf }) h

-- A session that can write the next block.
pub record IsOpen (s : Session) (f : File) : Type 0 where
  pub size_low : 8 ≤ s.block_size
  pub opened : s.file ≡ some f
  pub writable : f.refuses ≡ false

-- `WriteFile` adds the body of the data message to the file, and returns `io.EOF` exactly if it is
-- shorter than a block.
pub write_file_end :
    (s : Session) (f : File) (d : DataMessage)
    → IsOpen s f
    → s.most_recent_message ≡ data_message d
    → length d.body < s.block_size
    → write_file s
      ≡ failed file_eof (record s { file = some (record f { written = f.written ++ d.body }) })
unfolding write_file
write_file_end s f d r e short = split d.body refl
  where
    split :
        (l : Bytes)
        → d.body ≡ l
        → write_file s
          ≡ failed file_eof (record s { file = some (record f { written = f.written ++ d.body }) })
    split [] b = ground (arith, e, b, r.opened, append-nil f.written)
    split (c ∷ cs) b = ground (arith, e, b, r.opened, r.writable)

pub write_file_more :
    (s : Session) (f : File) (d : DataMessage)
    → IsOpen s f
    → s.most_recent_message ≡ data_message d
    → s.block_size ≤ length d.body
    → write_file s ≡ done tt (record s { file = some (record f { written = f.written ++ d.body }) })
unfolding write_file
write_file_more s f d r e long = split d.body refl
  where
    split :
        (l : Bytes)
        → d.body ≡ l
        → write_file s
          ≡ done tt (record s { file = some (record f { written = f.written ++ d.body }) })
    split [] b = absurd (omega (arith, r.size_low, ap (length {A = ℕ}) b))
    split (c ∷ cs) b = ground (arith, e, b, r.opened, r.writable)
