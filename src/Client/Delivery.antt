-- ===== src/Client/Delivery.antt =====
-- A download from the server's table to the client's file.
use native.Mathlib.Nat.{div-eq_of_lt, div-eq-sub-div}
use tftpcpd.Base.{
  ℕ, suc, ◌/◌, ◌<◌, Bytes, true, false, List, [], ◌∷◌, ◌++◌, Option, some, ◌≡◌, refl, sym, ap,
  subst, ◌∙◌, arith, length, length-append, length-drop,
}
use tftpcpd.Session.State.{Session, done, Runtime}
use tftpcpd.Session.ReceiveLoop.Complete.{IsListening, Completes, receive_data_loop-Completes}
use tftpcpd.Session.Transfer.{Blocks, last, full, packets, unaddressed, Carries, arrivals_of}
use tftpcpd.Session.EndToEnd.{Blocks-Carries}
use tftpcpd.Session.Options.Laws.{IsNegotiated}
use tftpcpd.Files.Table.{Engine, IsEngine}
use tftpcpd.Files.World.{World}
use tftpcpd.Files.Methods.{opened}
use tftpcpd.Files.Methods.Holds.{Holds}
use tftpcpd.Serve.{read_as_server_of}
use tftpcpd.Serve.Downloads.{read_as_server_of-Downloads}
use tftpcpd.Client.{fetch}

-- How many blocks a file has.
length-Blocks :
    {size : ℕ} {bytes : Bytes} {blocks : List Bytes}
    → 0 < size
    → Blocks size bytes blocks
    → length blocks ≡ suc (length bytes / size)
length-Blocks low (last short) = let none_full = div-eq_of_lt short in omega (arith, none_full)
length-Blocks {size} {bytes} low (full more later) =
    let rest = length-Blocks low later in
    let step = div-eq-sub-div low more in
    let dropped = ap (λ n. n / size) (length-drop size bytes) in omega (arith, rest, step, dropped)

length-unaddressed :
    (blocks : List Bytes) (n : ℕ) → length (unaddressed (packets n blocks)) ≡ length blocks
length-unaddressed [] n = refl
length-unaddressed (block ∷ later) n = ap suc (length-unaddressed later _)

-- The end of a list is known by its length.
append-suffix {ℓ} :
    {A : Type ℓ} (xs ys zs ws : List A) → xs ++ ys ≡ zs ++ ws → length ys ≡ length ws → ys ≡ ws
append-suffix [] ys [] ws e h = e
append-suffix [] ys (z ∷ zs) ws e h =
    absurd
      (let whole = ap length e in let both = length-append zs ws in omega (arith, whole, both, h))
append-suffix (x ∷ xs) ys [] ws e h =
    absurd
      (let whole = ap length e in let both = length-append xs ys in omega (arith, whole, both, h))
append-suffix (x ∷ xs) ys (z ∷ zs) ws e h = append-suffix xs ys zs ws (ground arith) h

module _ (rt : Runtime) where
  fetch-Completes :
      (r : Session) (bytes : Bytes) (blocks : List Bytes) (addr : ℕ)
      → IsListening rt r
      → Blocks r.block_size bytes blocks
      → r.destination.incoming ≡ arrivals_of addr (unaddressed (packets 1 blocks))
      → Completes rt (fetch rt true (some false) r) (opened []) bytes
  unfolding fetch
  fetch-Completes r bytes blocks addr l b arrive =
      let u = record r {
        last_valid_message = r.most_recent_message;
        file = some (opened []);
        block_number = 1;
      } in
      receive_data_loop-Completes rt u (opened []) bytes blocks
        (record {
          size_low = l.size_low;
          size_high = l.size_high;
          room = l.room;
          number_range = omega arith;
          delivers = l.delivers;
        })
        (record { size_low = l.size_low; opened = refl; writable = refl }) b
        (subst (λ x. Carries r.block_size 1 blocks x) (sym arrive) (Blocks-Carries addr 1 b))

  -- Where the engine obeys IsEngine, a name has a newest complete version with these bytes,
  -- ReadAsServer returns no error for a session whose file name is that name in the column, and
  -- the last datagrams that it sent, as many as the file has blocks, reach a client in order:
  -- after the acknowledgement of its options, DoReadAsClient ends there without error, and its
  -- file holds exactly these bytes. The server's session has a block size and a timeout in range;
  -- the client has the same block size and the buffer for it, its file is created, and its
  -- connection refuses no acknowledgement.
  pub download-Delivers :
      (e : Engine) (law : IsEngine e) (s t r : Session) (name bytes : Bytes) (w : World) (addr : ℕ)
      (before later : List (Option ℕ × Bytes))
      → IsNegotiated s
      → e.column s.filename ≡ name
      → Holds w name bytes
      → (read_as_server_of rt e s w).0 ≡ done tt t
      → t.destination.sent ≡ before ++ later
      → length later ≡ suc (length bytes / t.block_size)
      → IsListening rt r
      → r.block_size ≡ t.block_size
      → r.destination.incoming ≡ arrivals_of addr later
      → Completes rt (fetch rt true (some false) r) (opened []) bytes
  download-Delivers e law s t r name bytes w addr before later n c h got sent count l size arrive =
      let d = read_as_server_of-Downloads rt e law s t name bytes w n c h got in
      let low = d.size_low in
      let total =
        length-Blocks (omega (arith, low)) d.divides
        ∙ ap (λ z. suc (length bytes / z)) (sym d.is_size) in
      let measured = length-unaddressed d.blocks 1 in
      let is =
        append-suffix before later d.before (unaddressed (packets 1 d.blocks)) (sym sent ∙ d.sent)
          (count ∙ sym (measured ∙ total)) in
      fetch-Completes r bytes d.blocks addr l
        (subst (λ z. Blocks z bytes d.blocks) (sym (size ∙ d.is_size)) d.divides)
        (arrive ∙ ap (arrivals_of addr) is)
