-- ===== src/Client/Enclosing.antt =====
-- `FindEnclosingAddress` of internal/client.go: the address that the client listens on.
mod Tests
use mathlib.Core.Logic.{◌↔◌}
use tftpcpd.Base.{
  ℕ, Bytes, Bool, true, false, List, [], ◌∷◌, ◌++◌, append-nil, Option, none, some, ◌≡◌, ◌≢◌, refl,
  sym, ap, ◌∙◌, ◌⊎◌, inl, inr, arith, All, if◌then◌else◌, Bool-cases,
}

-- The calls of `net/netip`: addresses with a port, addresses, and networks with the address that
-- they were written with.
pub record Netip : Type 1 where
  pub AddrPort : Type 0
  pub Addr : Type 0
  pub Prefix : Type 0
  pub parse_addr_port : Bytes → Option AddrPort
  pub addr_string : AddrPort → Bytes
  pub parse_addr : Bytes → Option Addr
  pub parse_prefix : Bytes → Option Prefix
  pub contains : Prefix → Addr → Bool
  pub prefix_addr : Prefix → Bytes

module _ (ip : Netip) where
  -- The loop over the interfaces.
  unfoldable pub enclosing_loop : Bytes → ip.Addr → List Bytes → Option Bytes
  enclosing_loop gateway destination [] = some gateway
  enclosing_loop gateway destination (addr ∷ interfaces) =
      let rest = enclosing_loop gateway destination interfaces in
      elim (ip.parse_prefix addr) [
        | none ↦ none
        | some network ↦
            if ip.contains network destination then some (ip.prefix_addr network) else rest
      ]

  -- The two parsings of the destination.
  unfoldable pub destination_addr : Bytes → Option ip.Addr
  destination_addr destination = elim (ip.parse_addr_port destination) [
    | none ↦ none
    | some port ↦ ip.parse_addr (ip.addr_string port)
  ]

  -- `FindEnclosingAddress`: what `DiscoverGateway` and `InterfaceAddrs` give are arguments, `none`
  -- an error.
  unfoldable pub find_enclosing_address : Option Bytes → Option (List Bytes) → Bytes → Option Bytes
  unfolding enclosing_loop destination_addr
  find_enclosing_address none interfaces destination = none
  find_enclosing_address (some gateway) interfaces destination =
      elim (destination_addr destination) [
        | none ↦ none
        | some addr ↦ elim interfaces [ none ↦ none | some list ↦ enclosing_loop gateway addr list ]
      ]

  -- An interface whose network was read, and does not contain the destination.
  abbrev pub Misses : ip.Addr → Bytes → Type 0
  Misses destination addr =
      (network : ip.Prefix) × (ip.parse_prefix addr ≡ some network)
      × (ip.contains network destination ≡ false)

  -- The address is that of the first network with the destination, or the gateway's where no
  -- network has it.
  abbrev pub Encloses : Bytes → ip.Addr → List Bytes → Bytes → Type 0
  Encloses gateway destination interfaces answer =
      (All (Misses destination) interfaces × (answer ≡ gateway))
      ⊎ ((before : List Bytes) × (addr : Bytes) × (after : List Bytes) × (network : ip.Prefix)
          × (interfaces ≡ before ++ (addr ∷ after))
          × All (Misses destination) before
          × (ip.parse_prefix addr ≡ some network)
          × (ip.contains network destination ≡ true)
          × (answer ≡ ip.prefix_addr network))

  enclosing_loop-Encloses :
      (gateway : Bytes) (destination : ip.Addr) (interfaces : List Bytes) (answer : Bytes)
      → enclosing_loop gateway destination interfaces ≡ some answer
      → Encloses gateway destination interfaces answer
  unfolding enclosing_loop
  enclosing_loop-Encloses gateway destination [] answer h = inl (tt, ground arith)
  enclosing_loop-Encloses gateway destination (addr ∷ l) answer h =
      step (ip.parse_prefix addr) refl h (enclosing_loop-Encloses gateway destination l answer)
    where
      further :
          (network : ip.Prefix)
          → ip.parse_prefix addr ≡ some network
          → ip.contains network destination ≡ false
          → Encloses gateway destination l answer
          → Encloses gateway destination (addr ∷ l) answer
      further network e k (inl (misses, is)) = inl (((network, e, k), misses), is)
      further network e k (inr (before, x, after, found, whole, misses, parsed, has, is)) = inr (
        addr ∷ before,
        x,
        after,
        found,
        ap (λ m. addr ∷ m) whole,
        ((network, e, k), misses),
        parsed,
        has,
        is,
      )

      tested :
          (network : ip.Prefix) (b : Bool)
          → ip.parse_prefix addr ≡ some network
          → ip.contains network destination ≡ b
          → (if b then some (ip.prefix_addr network) else enclosing_loop gateway destination l)
            ≡ some answer
          → (enclosing_loop gateway destination l ≡ some answer
              → Encloses gateway destination l answer)
          → Encloses gateway destination (addr ∷ l) answer
      tested network true e k h ih = inr ([], addr, l, network, refl, tt, e, k, ground arith)
      tested network false e k h ih = further network e k (ih h)

      step :
          (o : Option ip.Prefix)
          → ip.parse_prefix addr ≡ o
          → elim o [
            | none ↦ none
            | some network ↦
                if ip.contains network destination
                then some (ip.prefix_addr network)
                else enclosing_loop gateway destination l
          ]
            ≡ some answer
          → (enclosing_loop gateway destination l ≡ some answer
              → Encloses gateway destination l answer)
          → Encloses gateway destination (addr ∷ l) answer
      step none e h ih = absurd (ground arith)
      step (some network) e h ih = tested network (ip.contains network destination) e refl h ih

  -- The first network with the destination, if it comes.
  Misses-loop :
      (gateway : Bytes) (destination : ip.Addr) (before rest : List Bytes)
      → All (Misses destination) before
      → enclosing_loop gateway destination (before ++ rest)
        ≡ enclosing_loop gateway destination rest
  unfolding enclosing_loop
  Misses-loop gateway destination [] rest h = refl
  Misses-loop gateway destination (addr ∷ before) rest h =
      rw (h.0.1, h.0.2) (Misses-loop gateway destination before rest h.1)

  Encloses-loop :
      (gateway : Bytes) (destination : ip.Addr) (interfaces : List Bytes) (answer : Bytes)
      → Encloses gateway destination interfaces answer
      → enclosing_loop gateway destination interfaces ≡ some answer
  unfolding enclosing_loop
  Encloses-loop gateway destination interfaces answer (inl (misses, is)) =
      ap (λ l. enclosing_loop gateway destination l) (sym (append-nil interfaces))
      ∙ Misses-loop gateway destination interfaces [] misses
      ∙ ap some (sym is)
  Encloses-loop gateway destination interfaces answer
        (inr (before, addr, after, network, whole, misses, parsed, has, is)) =
      ap (λ l. enclosing_loop gateway destination l) whole
      ∙ Misses-loop gateway destination before (addr ∷ after) misses
      ∙ (rw (enclosing_loop, parsed, has) (ap some (sym is)))

  -- Where the destination is read as an address, and the gateway and the interfaces are known:
  -- FindEnclosingAddress returns an address exactly if it is that of the first network with the
  -- destination, where the networks before it were read and do not have it, or the gateway's,
  -- where all networks were read and none has it.
  pub find_enclosing_address-Encloses :
      (gateway destination : Bytes) (addr : ip.Addr) (interfaces : List Bytes) (answer : Bytes)
      → destination_addr destination ≡ some addr
      → (find_enclosing_address (some gateway) (some interfaces) destination ≡ some answer)
        ↔ Encloses gateway addr interfaces answer
  unfolding find_enclosing_address
  find_enclosing_address-Encloses gateway destination addr interfaces answer h =
      rw (find_enclosing_address, h)
        (
          (enclosing_loop-Encloses gateway addr interfaces answer),
          (Encloses-loop gateway addr interfaces answer),
        )
