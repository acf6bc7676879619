-- ===== src/Serve/Downloads.antt =====
-- What `ReadAsServer` sends.
use tftpcpd.Base.{
  ℕ, zero, suc, replicate, ◌≤◌, Bytes, false, List, ◌++◌, Option, none, some, ◌≡◌, refl, ap, ◌∙◌,
  inl, inr, arith, ◌==◌, ==_iff, if◌then◌else◌, length, Bool-cases,
}
use tftpcpd.Wire.{Message, read_message}
use tftpcpd.Session.Slice.{Slice, len, make}
use tftpcpd.Session.State.{File, Session, done, Runtime}
use tftpcpd.Session.Io.{packet_size}
use tftpcpd.Session.Io.Blocks.{IsReady}
use tftpcpd.Session.SendLoop.Heard.{>>=-eq-done}
use tftpcpd.Session.SendLoop.Sent.{send_data_loop-SendsFile}
use tftpcpd.Session.Transfer.{Blocks, packets, unaddressed}
use tftpcpd.Session.Options.{Lstat}
use tftpcpd.Session.Options.Laws.{IsNegotiated}
use tftpcpd.Files.Table.{Engine, IsEngine}
use tftpcpd.Files.World.{World}
use tftpcpd.Files.Methods.{reserve, opened}
use tftpcpd.Files.Methods.Holds.{Holds}
use tftpcpd.Files.Methods.Serves.{reserve-Serves}
use tftpcpd.Serve.{
  resized, lstat_of, open_read, serve_request, serve_read, read_reserved, read_as_server_of,
  released,
}
use tftpcpd.Serve.Kept.{IsPrepared, open_read-IsPrepared}

length-replicate : (n x : ℕ) → length (replicate n x) ≡ n
length-replicate zero x = refl
length-replicate (suc n) x = let rest = length-replicate n x in omega (arith, rest)

resized_len : (b : Slice) (n : ℕ) → len (if len b == n then b else make n) ≡ n
unfolding make
resized_len b n = elim (Bool-cases (len b == n)) [
  | inl same ↦ rw same ((==_iff (len b) n).0 same)
  | inr other ↦ rw other (length-replicate n 0)
]

-- What a client that downloads was sent last: the blocks of these bytes, numbered from 1 on.
pub record Downloads (bytes : Bytes) (t : Session) : Type 0 where
  pub size : ℕ
  pub size_low : 8 ≤ size
  pub blocks : List Bytes
  pub divides : Blocks size bytes blocks
  pub before : List (Option ℕ × Bytes)
  pub sent : t.destination.sent ≡ before ++ unaddressed (packets 1 blocks)
  pub is_size : t.block_size ≡ size

module _ (rt : Runtime) where
  resized-IsReady :
      (s t : Session) (f : File)
      → s.file ≡ some f
      → f.refuses ≡ false
      → IsPrepared rt s t
      → IsReady rt (resized (record t { block_number = 1 })) f
  unfolding resized
  resized-IsReady s t f has_file readable p =
      let size : len (if len t.send_buf == packet_size t then t.send_buf else make (packet_size t))
          ≡ packet_size t =
        resized_len t.send_buf (packet_size t) in
      let low = p.size_low in
      let high = p.size_high in
      record {
        size_low = p.size_low;
        size_high = p.size_high;
        buffer_used = omega (arith, size, low, high);
        buffer_room = omega (arith, size, low, high);
        opened = p.file ∙ has_file;
        readable = readable;
      }

  serve_request-Downloads :
      (lstat : Lstat) (m : Message) (s t : Session) (f : File)
      → IsNegotiated s
      → s.file ≡ some f
      → f.refuses ≡ false
      → serve_request rt lstat m s ≡ done tt t
      → Downloads f.unread t
  unfolding serve_request resized
  serve_request-Downloads lstat (read_message m) s t f n has_file readable h =
      let (a, u, o, k) = >>=-eq-done (open_read rt lstat m.options s) _ h in
      let p = open_read-IsPrepared rt lstat m.options s u n o in
      let sent =
        send_data_loop-SendsFile rt false (resized (record u { block_number = 1 })) t f
          (resized-IsReady s u f has_file readable p) k in
      record {
        size = u.block_size;
        size_low = p.size_low;
        blocks = sent.blocks;
        divides = sent.divides;
        before = u.destination.sent;
        sent = sent.sent;
        is_size = sent.kept_size;
      }
  serve_request-Downloads lstat _ s t f n has_file readable h = absurd (ground arith)

  module _ (e : Engine) (law : IsEngine e) where
    read_reserved-Downloads :
        (s t : Session) (name bytes : Bytes) (w : World) (o : Option (ℕ × Session) × World)
        → IsNegotiated s
        → e.column s.filename ≡ name
        → Holds w name bytes
        → reserve e s w ≡ o
        → (read_reserved rt e o s).0 ≡ done tt t
        → Downloads bytes t
    unfolding read_reserved released serve_read
    read_reserved-Downloads s t name bytes w (none, v) n c h r k = absurd (ground arith)
    read_reserved-Downloads s t name bytes w (some (started, u), v) n c h r k =
        let is = reserve-Serves e law s name bytes w v (started, u) c h r in
        let session : u ≡ record s { file = some (opened bytes) } =
          ap (λ (x : ℕ × Session). x.1) is in
        serve_request-Downloads (lstat_of v) (record u { unix_micro = started }).most_recent_message
          (record u { unix_micro = started }) t (opened bytes)
          (rw session (record {
            size_low = n.size_low;
            size_high = n.size_high;
            timeout_low = n.timeout_low;
            timeout_high = n.timeout_high;
          }))
          (ap (λ (x : Session). x.file) session) refl k

    -- Where the engine obeys IsEngine, a name has a newest complete version with these bytes, and
    -- ReadAsServer returns no error for a session whose file name is that name in the column and
    -- whose block size and timeout are in range: its last datagrams are exactly the blocks of
    -- these bytes, in order and each once, with consecutive uint16 numbers from 1 on.
    pub read_as_server_of-Downloads :
        (s t : Session) (name bytes : Bytes) (w : World)
        → IsNegotiated s
        → e.column s.filename ≡ name
        → Holds w name bytes
        → (read_as_server_of rt e s w).0 ≡ done tt t
        → Downloads bytes t
    unfolding read_as_server_of
    read_as_server_of-Downloads s t name bytes w n c h k =
        read_reserved-Downloads s t name bytes w (reserve e s w) n c h refl k
