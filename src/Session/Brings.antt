-- ===== src/Session/Brings.antt =====
-- What the arrivals bring to a session that receives a file, apart from its loop.
use tftpcpd.Base.{ℕ, ◌+◌, ◌<◌, Bytes, Bool, true, false, List, [], ◌∷◌, ◌++◌, ◌≡◌, take}
use tftpcpd.Wire.{ok, Message, DataMessage, data_message, write_message}
use tftpcpd.Wire.Decode.{bytes_as_message}
use tftpcpd.Session.State.{Arrival, datagram, u16}

-- The messages that the first of the arrivals decode to, each cut to `size` bytes, and the arrivals
-- that are left.
pub data Reads (map_lower : Bytes → Bytes) (size : ℕ)
    : List Arrival → List Message → List Arrival → Type 0 where
  unread : {arrivals : List Arrival} → Reads map_lower size arrivals [] arrivals
  read :
      {a : Arrival} {arrivals rest : List Arrival} {m : Message} {later : List Message} (addr : ℕ)
      (packet : Bytes)
      → a ≡ datagram addr packet
      → bytes_as_message map_lower (take size packet) ≡ ok m
      → Reads map_lower size arrivals later rest
      → Reads map_lower size (a ∷ arrivals) (m ∷ later) rest

-- A message that does not count while block `n` is awaited: a block of a lesser number, or the
-- request to write once more.
abbrev pub IsStale : ℕ → Message → Type 0
IsStale n (data_message d) = d.block_number < n
IsStale n (write_message m) = Unit
IsStale n _ = ⊥

-- The messages bring the blocks, from number `n` on: each block is the body of the first data
-- message of its number, and those before it are stale.
pub data Brings : ℕ → List Bytes → List Message → Type 0 where
  finished : {n : ℕ} → Brings n [] []
  brought :
      {n : ℕ} {later : List Bytes} {m : Message} {messages : List Message} (d : DataMessage)
      → m ≡ data_message d
      → d.block_number ≡ n
      → Brings (u16 (n + 1)) later messages
      → Brings n (d.body ∷ later) (m ∷ messages)
  passed :
      {n : ℕ} {blocks : List Bytes} {m : Message} {messages : List Message}
      → IsStale n m
      → Brings n blocks messages
      → Brings n blocks (m ∷ messages)

pub Reads-append :
    {map_lower : Bytes → Bytes} {size : ℕ} {a b c : List Arrival} {m n : List Message}
    → Reads map_lower size a m b
    → Reads map_lower size b n c
    → Reads map_lower size a (m ++ n) c
Reads-append unread k = k
Reads-append (read addr packet is decodes h) k = read addr packet is decodes (Reads-append h k)

-- The message that a session holds already comes before those that it reads.
abbrev pub held : Bool → Message → List Message → List Message
held true m messages = m ∷ messages
held false m messages = messages
