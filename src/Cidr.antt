-- ===== src/Cidr.antt =====
-- CidrCalculator.h and CidrCalculator.cpp: the addresses that are given to simulated nodes.
pub mod Sequence
pub mod Mask
pub mod Prefix
pub mod Network
use Prim.Native.Nat.{bit_and}
use ics_trafficgen.Base.{
  ℕ, zero, suc, ◌+◌, ◌-◌, ◌*◌, ◌/◌, ◌%◌, ◌^◌, ◌≤◌, List, [], ◌∷◌, ◌++◌, Option, none, some, ltb,
  leb, ◌==◌, Bool, ◌||◌, ◌&&◌, if◌then◌else◌, ◌>>=◌, get_elem?, map,
}
use ics_trafficgen.Decimal.{print, scan, is_digit}
use ics_trafficgen.StringUtilities.{split}

-- An `int[4]`.
pub record Octets : Type 0 where
  pub a : ℕ
  pub b : ℕ
  pub c : ℕ
  pub d : ℕ

-- `GetNextIpAddress`, on `networkAddr`
unfoldable pub next_address : Octets → Octets
next_address n =
    if ltb n.d 254
    then record n { d = n.d + 1 }
    else if ltb n.c 254
    then record n { d = 1; c = n.c + 1 }
    else if ltb n.b 254
    then record n { d = 1; c = 0; b = n.b + 1 }
    else if ltb n.a 254
    then record n { d = 1; c = 0; b = 0; a = n.a + 1 }
    else record n { d = 1; c = 0; b = 0 }

-- the text that it returns
unfoldable pub print_address : Octets → List ℕ
print_address n = print n.a ++ b'.' ∷ (print n.b ++ b'.' ∷ (print n.c ++ b'.' ∷ print n.d))

unfoldable pub get_next_ip_address : Octets → Octets × List ℕ
get_next_ip_address n = let n' = next_address n in (n', print_address n')

-- `netMask[i] += 1 << (7 - bit % 8)`, at the octet of the bit; `none` is an octet past the fourth
unfoldable pub set_bit : ℕ → Octets → Option Octets
set_bit bit m =
    let v : ℕ = 2 ^ (7 - bit % 8) in
    let octet : ℕ = bit / 8 in
    if octet == 0
    then some (record m { a = m.a + v })
    else if octet == 1
    then some (record m { b = m.b + v })
    else if octet == 2
    then some (record m { c = m.c + v })
    else if octet == 3
    then some (record m { d = m.d + v })
    else none

-- the loop over `cidrRange`, with `n` bits left from `bit` on
unfoldable pub set_bits : ℕ → ℕ → Octets → Option Octets
set_bits zero bit m = some m
set_bits (suc n) bit m = do m' ← set_bit bit m; set_bits n (bit + 1) m'

abbrev pub zeros : Octets
zeros = record { a = 0; b = 0; c = 0; d = 0 }

-- `std::stringstream(value) >> dec` for a text that begins with a digit or with none, where the
-- extraction stores 0. Signs, blanks and values above 2 ^ 31 are left out.
unfoldable pub read_int : List ℕ → ℕ
read_int cs = (scan 0 cs).0

-- The parts of the text on each side of '/': `parts.front()` and `parts.back()`.
unfoldable pub ends : List (List ℕ) → Option (List ℕ × List ℕ)
ends [] = none
ends (p ∷ []) = some (p, p)
ends (p ∷ q ∷ ps) = elim (ends (q ∷ ps)) [ none ↦ none | some (x, y) ↦ some (p, y) ]

-- The constructor: the network address. `none` is an access out of bounds.
unfoldable pub network_address : List ℕ → Option Octets
network_address cidr = do
  (addr_str, bits_str) ← ends (split b'/' cidr)
  let addr = map read_int (split b'.' addr_str)
  m ← set_bits (read_int bits_str) 0 zeros
  a ← get_elem? addr 0
  b ← get_elem? addr 1
  c ← get_elem? addr 2
  d ← get_elem? addr 3
  some (record { a = bit_and a m.a; b = bit_and b m.b; c = bit_and c m.c; d = bit_and d m.d })
