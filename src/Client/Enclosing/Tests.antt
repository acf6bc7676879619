-- ===== src/Client/Enclosing/Tests.antt =====
-- The search on a client with two interfaces, and the theorem at it.
use mathlib.Core.Logic.{◌↔◌}
use tftpcpd.Base.{ℕ, Bytes, List, [], ◌∷◌, Option, none, some, ◌≡◌, refl, codes, ◌==◌}
use tftpcpd.Client.Enclosing.{
  Netip, Encloses, enclosing_loop, destination_addr, find_enclosing_address,
  find_enclosing_address-Encloses,
}

-- Addresses of one digit: a network has its one address.
abbrev digits : Netip
digits = record {
  AddrPort = ℕ;
  Addr = ℕ;
  Prefix = ℕ;
  parse_addr_port = λ s. elim s [ [] ↦ none | ◌∷◌ c cs ↦ some c ];
  addr_string = λ c. c ∷ [];
  parse_addr = λ s. elim s [ [] ↦ none | ◌∷◌ c cs ↦ some c ];
  parse_prefix = λ s. elim s [ [] ↦ none | ◌∷◌ c cs ↦ some c ];
  contains = λ n a. n == a;
  prefix_addr = λ n. n ∷ [];
}

abbrev interfaces : List Bytes
interfaces = codes "1" ∷ codes "4" ∷ []

abbrev find : Bytes → Option Bytes
find destination = find_enclosing_address digits (some (codes "9")) (some interfaces) destination

find_second : find (codes "4:69") ≡ some (codes "4")
unfolding find_enclosing_address enclosing_loop destination_addr
find_second = refl

-- The gateway's own address, where no network has the destination.
find_gateway : find (codes "7:69") ≡ some (codes "9")
unfolding find_enclosing_address enclosing_loop destination_addr
find_gateway = refl

destination_four : destination_addr digits (codes "4:69") ≡ some b'4'
unfolding destination_addr
destination_four = refl

find_enclosing_address-Encloses_example :
    (find (codes "4:69") ≡ some (codes "4"))
    ↔ Encloses digits (codes "9") b'4' interfaces (codes "4")
find_enclosing_address-Encloses_example =
    find_enclosing_address-Encloses digits (codes "9") (codes "4:69") b'4' interfaces (codes "4")
      destination_four
