-- ===== src/Cidr/Mask.antt =====
-- The mask of a prefix length, and the range of the addresses.
use ics_trafficgen.Base.{
  ℕ, zero, suc, ◌-◌, ◌^◌, ◌≤◌, ◌<◌, Bool, true, false, ◌&&◌, ◌==◌, Option, none, some, ◌≡◌, refl,
  arith,
}
use Prim.Native.Nat.{min}
use ics_trafficgen.Cidr.{Octets, set_bit, set_bits, zeros, next_address}

-- An octet with its `n` highest bits set, at most 8.
abbrev pub high_bits : ℕ → ℕ
high_bits n = 256 - 2 ^ (8 - min n 8)

abbrev is_mask : ℕ → Option Octets → Bool
is_mask p none = false
is_mask p (some m) =
    m.a == high_bits p
    && m.b == high_bits (p - 8)
    && m.c == high_bits (p - 16)
    && m.d == high_bits (p - 24)

all_masks : ℕ → Bool
all_masks zero = true
all_masks (suc p) = is_mask p (set_bits p 0 zeros) && all_masks p

mask_table : all_masks 33 ≡ true
unfolding all_masks set_bits set_bit
mask_table = refl

all_masks_sound : (n p : ℕ) → all_masks n ≡ true → p < n → is_mask p (set_bits p 0 zeros) ≡ true
unfolding all_masks
all_masks_sound zero p t h = absurd (omega arith)
all_masks_sound (suc n) p t h = ground (arith, all_masks_sound n p)

mask_of :
    (p : ℕ) (o : Option Octets)
    → is_mask p o ≡ true
    → o
      ≡ some (record {
        a = high_bits p;
        b = high_bits (p - 8);
        c = high_bits (p - 16);
        d = high_bits (p - 24);
      })
mask_of p none h = cc
mask_of p (some m) h = ground arith

-- For a prefix length up to 32 the loop stays within the four octets, and sets the bits of the
-- prefix from the highest on.
pub set_bits_lem :
    (p : ℕ)
    → p ≤ 32
    → set_bits p 0 zeros
      ≡ some (record {
        a = high_bits p;
        b = high_bits (p - 8);
        c = high_bits (p - 16);
        d = high_bits (p - 24);
      })
set_bits_lem p h = mask_of p (set_bits p 0 zeros) (all_masks_sound 33 p mask_table (omega arith))

-- From octets of which the first three are at most 254, the next address has the same bound on
-- those, and its last octet lies from 1 to 254.
pub next_address_range :
    (s : Octets)
    → s.a ≤ 254
    → s.b ≤ 254
    → s.c ≤ 254
    → (1 ≤ (next_address s).d)
      × ((next_address s).d ≤ 254)
      × ((next_address s).a ≤ 254)
      × ((next_address s).b ≤ 254)
      × ((next_address s).c ≤ 254)
unfolding next_address
next_address_range s ha hb hc =
    (ground arith, ground arith, ground arith, ground arith, ground arith)
