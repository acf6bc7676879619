-- ===== src/Session/SendLoop/Read.antt =====
-- The first half of a pass of `SendDataLoop`: the next block of the file, behind its header.
use Prim.Native.Nat.{min}
use tftpcpd.Base.{
  ℕ, zero, suc, ◌+◌, ◌-◌, ◌≤◌, Bytes, [], ◌∷◌, ◌++◌, some, ◌≡◌, refl, sym, ap, ◌∙◌, arith, ltb,
  length, length-take, take, drop,
}
use tftpcpd.Session.Slice.{Slice, len, capacity, copy_front}
use tftpcpd.Session.Slice.Laws.{capacity-copy_front}
use tftpcpd.Session.State.{File, Session, u16, done, Runtime}
use tftpcpd.Session.Io.{read_file, read_block}
use tftpcpd.Session.Io.Blocks.{
  data_header, IsReady, header_window, header_window-facts, read_file-read_block, read_block_end,
  read_block_more,
}
use tftpcpd.Session.SendLoop.{after_read}

-- The file after the next block was read from it.
abbrev pub read_from : ℕ → File → File
read_from size f = record f { unread = drop size f.unread }

-- A session with its next packet in `SendBuf`.
abbrev pub loaded : Session → Slice → File → Session
loaded s b f = record s { send_buf = b; file = some (read_from s.block_size f) }

take_nil : (n : ℕ) → take {A = ℕ} n [] ≡ []
take_nil zero = refl
take_nil (suc n) = refl

drop_nil : (n : ℕ) → drop {A = ℕ} n [] ≡ []
drop_nil zero = refl
drop_nil (suc n) = refl

-- A packet is short exactly if the bytes that were left are fewer than a block.
short_packet :
    (size left n : ℕ)
    → size ≤ 65464
    → n ≡ 4 + min size left
    → ltb n (u16 (size + 4)) ≡ ltb left size
short_packet size left n h e = ground arith

module _ (rt : Runtime) where
  -- The next packet, and what the test on `ReadFile` makes of it: the last block is the short one.
  pub record LoadsBlock (s : Session) (f : File) : Type 0 where
    pub buffer : Slice
    pub packet : buffer.shown ≡ data_header s.block_number ++ take s.block_size f.unread
    pub room : capacity buffer ≡ capacity s.send_buf
    pub result :
        after_read (read_file rt s) ≡ done (ltb (length f.unread) s.block_size) (loaded s buffer f)

  -- The window that `SendBuf` is when the file is read, with a header in front.
  record IsWindow (s : Session) (w : Slice) : Type 0 where
    long : len w ≡ 4 + s.block_size
    room : capacity w ≡ capacity s.send_buf
    header : take 4 w.shown ≡ data_header s.block_number

  LoadsBlock-end :
      (s : Session) (f : File) (w o : Slice)
      → IsReady rt s f
      → IsWindow s w
      → read_file rt s ≡ read_block w (record s { send_buf = o })
      → f.unread ≡ []
      → LoadsBlock s f
  unfolding after_read
  LoadsBlock-end s f w o r i e ended = record {
    buffer = copy_front (take 4 w.shown) w;
    packet =
        unfold copy_front in
        i.header
        ∙ ap (λ l. data_header s.block_number ++ l)
            (sym (take_nil s.block_size) ∙ ap (take s.block_size) (sym ended));
    room =
        capacity-copy_front (take 4 w.shown) w (omega (arith, length-take 4 w.shown, i.long))
        ∙ i.room;
    result = ground (
      arith,
      e,
      r.size_low,
      r.opened,
      r.readable,
      i.long,
      ended,
      drop_nil s.block_size,
      ap (length {A = ℕ}) ended,
      read_block_end rt w (record s { send_buf = o }) f (omega (arith, i.long, r.size_low)) r.opened
          r.readable ended,
    );
  }

  LoadsBlock-more :
      (s : Session) (f : File) (w o : Slice) (c : ℕ) (cs : Bytes)
      → IsReady rt s f
      → IsWindow s w
      → read_file rt s ≡ read_block w (record s { send_buf = o })
      → f.unread ≡ c ∷ cs
      → LoadsBlock s f
  unfolding after_read copy_front
  LoadsBlock-more s f w o c cs r i e more =
      let size : len w - 4 ≡ s.block_size = omega (arith, i.long) in
      let bytes = data_header s.block_number ++ take s.block_size f.unread in
      let measure : length (take s.block_size f.unread) ≡ min s.block_size (length f.unread) =
        length-take s.block_size f.unread in
      let got : read_file rt s ≡ done tt (loaded s (copy_front bytes w) f) =
        e
        ∙ read_block_more rt w (record s { send_buf = o }) f c cs
            (omega (arith, i.long, r.size_low)) r.opened r.readable more
        ∙ (λ k. done tt (record s {
          send_buf = copy_front (i.header k ++ take (size k) f.unread) w;
          file = some (record f { unread = drop (size k) f.unread });
        })) in
      record {
        buffer = copy_front bytes w;
        packet = refl;
        room = capacity-copy_front bytes w (omega (arith, measure, i.long)) ∙ i.room;
        result =
            ap after_read got
            ∙ ap (λ b. done b (loaded s (copy_front bytes w) f))
                (short_packet s.block_size (length f.unread) (length bytes) r.size_high
                  (omega (arith, measure)));
      }

  pub read_file-LoadsBlock : (s : Session) (f : File) → IsReady rt s f → LoadsBlock s f
  read_file-LoadsBlock s f r = split f.unread refl
    where
      is_window : IsWindow s (header_window rt s)
      is_window =
          let (long, room, header) = header_window-facts rt s f r in
          record { long = long; room = room; header = header }

      split : (l : Bytes) → f.unread ≡ l → LoadsBlock s f
      split [] e =
          LoadsBlock-end s f (header_window rt s) _ r is_window (read_file-read_block rt s f r) e
      split (c ∷ cs) e =
          LoadsBlock-more s f (header_window rt s) _ c cs r is_window
            (read_file-read_block rt s f r) e
