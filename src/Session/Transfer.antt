-- ===== src/Session/Transfer.antt =====
-- What a transfer is to do: the blocks of a file and the datagrams that carry them.
use tftpcpd.Base.{
  ℕ, suc, ◌+◌, ◌≤◌, ◌<◌, ◌≡◌, Bytes, List, [], ◌∷◌, ◌++◌, Option, none, length, take, drop,
}
use tftpcpd.Session.State.{Arrival, datagram, u16}
use tftpcpd.Session.Io.Blocks.{data_header, ack_bytes}

-- How a file falls into blocks: full ones, then one that is short and may be empty.
pub data Blocks (size : ℕ) : Bytes → List Bytes → Type 0 where
  last : {rest : Bytes} → length rest < size → Blocks size rest (rest ∷ [])
  full :
      {rest : Bytes} {later : List Bytes}
      → size ≤ length rest
      → Blocks size (drop size rest) later
      → Blocks size rest (take size rest ∷ later)

-- The data messages of consecutive blocks, the first of number `n`; the number is a uint16.
abbrev pub packets : ℕ → List Bytes → List Bytes
packets n [] = []
packets n (block ∷ later) = (data_header n ++ block) ∷ packets (u16 (n + 1)) later

-- Datagrams written to a connected socket.
abbrev pub unaddressed : List Bytes → List (Option ℕ × Bytes)
unaddressed [] = []
unaddressed (p ∷ later) = (none, p) ∷ unaddressed later

-- The acknowledgements of as many blocks.
abbrev pub acks : ℕ → List Bytes → List Bytes
acks n [] = []
acks n (block ∷ later) = ack_bytes n ∷ acks (u16 (n + 1)) later

abbrev pub concat : List Bytes → Bytes
concat [] = []
concat (block ∷ later) = block ++ concat later

-- The bodies of a finished transfer: full blocks and then one that is short.
pub data AreSized (size : ℕ) : List Bytes → Type 0 where
  last : {block : Bytes} → length block < size → AreSized size (block ∷ [])
  full :
      {block : Bytes} {later : List Bytes}
      → size ≤ length block
      → AreSized size later
      → AreSized size (block ∷ later)

-- Arrivals that carry the blocks from number `n` on, in order; messages of lesser numbers, such as
-- retransmissions, may come between them.
pub data Carries (size : ℕ) : ℕ → List Bytes → List Arrival → Type 0 where
  complete : {n : ℕ} {arrivals : List Arrival} → Carries size n [] arrivals
  carried :
      {n : ℕ} {block : Bytes} {later : List Bytes} {a : Arrival} {arrivals : List Arrival}
      (addr : ℕ)
      → a ≡ datagram addr (data_header n ++ block)
      → length block ≤ size
      → Carries size (u16 (n + 1)) later arrivals
      → Carries size n (block ∷ later) (a ∷ arrivals)
  stale :
      {n : ℕ} {blocks : List Bytes} {a : Arrival} {arrivals : List Arrival} (addr m : ℕ)
      (old : Bytes)
      → a ≡ datagram addr (data_header m ++ old)
      → m < n
      → length old ≤ size
      → Carries size n blocks arrivals
      → Carries size n blocks (a ∷ arrivals)

-- Arrivals that acknowledge the blocks from number `n` on, in order. Acknowledgements of lesser
-- numbers may come between them: `left` is how many more messages the sender waits for.
pub data Acknowledged : ℕ → ℕ → List Bytes → List Arrival → Type 0 where
  complete : {left n : ℕ} {arrivals : List Arrival} → Acknowledged left n [] arrivals
  acked :
      {left n : ℕ} {block : Bytes} {later : List Bytes} {a : Arrival} {arrivals : List Arrival}
      (addr : ℕ)
      → a ≡ datagram addr (ack_bytes n)
      → Acknowledged 5 (u16 (n + 1)) later arrivals
      → Acknowledged (suc left) n (block ∷ later) (a ∷ arrivals)
  stale :
      {left n : ℕ} {blocks : List Bytes} {a : Arrival} {arrivals : List Arrival} (addr m : ℕ)
      → a ≡ datagram addr (ack_bytes m)
      → m < n
      → Acknowledged left n blocks arrivals
      → Acknowledged (suc left) n blocks (a ∷ arrivals)

-- What a peer receives of the datagrams that were sent, if all arrive in order.
abbrev pub arrivals_of : ℕ → List (Option ℕ × Bytes) → List Arrival
arrivals_of addr [] = []
arrivals_of addr ((to, packet) ∷ later) = datagram addr packet ∷ arrivals_of addr later
