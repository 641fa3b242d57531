-- ===== src/Cidr/Prefix.antt =====
-- The mask of a prefix length on the 32 bits of an address.
use Prim.Native.Nat.{min, bit_and}
use native.Mathlib.Nat.{pow-suc, div-div-eq-div-mul, add-mul-div_left, div-mul-le_self}
use ics_trafficgen.Base.{
  ℕ, zero, suc, ◌+◌, ◌-◌, ◌*◌, ◌/◌, ◌%◌, ◌^◌, ◌≤◌, ◌<◌, Bool, true, ◌&&◌, ◌==◌, ◌≡◌, refl, sym, ap,
  ◌∙◌, arith, dec_lt,
}
use ics_trafficgen.Cidr.{Octets}
use ics_trafficgen.Cidr.Mask.{high_bits}

-- A number with its `j` lowest bits cleared.
unfoldable pub cleared : ℕ → ℕ → ℕ
cleared j x = x / 2 ^ j * 2 ^ j

-- The 32 bits of an address.
abbrev pub number : Octets → ℕ
number o = ((o.a * 256 + o.b) * 256 + o.c) * 256 + o.d

-- The address of 32 bits.
abbrev pub octets_of : ℕ → Octets
octets_of n = record { a = n / 16777216; b = n / 65536 % 256; c = n / 256 % 256; d = n % 256 }

abbrev clears : ℕ → ℕ → Bool
clears j x = bit_and x (256 - 2 ^ j) == cleared j x

all_octets : ℕ → ℕ → Bool
all_octets j zero = true
all_octets j (suc x) = clears j x && all_octets j x

all_bits : ℕ → Bool
all_bits zero = true
all_bits (suc j) = all_octets j 256 && all_bits j

clear_table : all_bits 9 ≡ true
unfolding all_bits all_octets cleared
clear_table = refl

all_octets_sound : (j n x : ℕ) → all_octets j n ≡ true → x < n → clears j x ≡ true
unfolding all_octets
all_octets_sound j zero x t h = absurd (omega arith)
all_octets_sound j (suc n) x t h = ground (arith, all_octets_sound j n x)

all_bits_sound : (n j : ℕ) → all_bits n ≡ true → j < n → all_octets j 256 ≡ true
unfolding all_bits
all_bits_sound zero j t h = absurd (omega arith)
all_bits_sound (suc n) j t h = ground (arith, all_bits_sound n j)

-- The mask of an octet clears its lower bits.
pub bit_and-high_bits : (x n : ℕ) → x ≤ 255 → bit_and x (high_bits n) ≡ cleared (8 - min n 8) x
bit_and-high_bits x n h = eq_of_== (
    all_octets_sound (8 - min n 8) 256 x (all_bits_sound 9 (8 - min n 8) clear_table (omega arith))
      (omega arith))
  where
    eq_of_== : {a b : ℕ} → (a == b) ≡ true → a ≡ b
    eq_of_== e = ground arith

cleared-le : (j x : ℕ) → cleared j x ≤ x
unfolding cleared
cleared-le j x = div-mul-le_self x (2 ^ j)

cleared_all : (x : ℕ) → x ≤ 255 → cleared 8 x ≡ 0
unfolding cleared
cleared_all x h = omega arith

cleared_none : (x : ℕ) → cleared 0 x ≡ x
unfolding cleared
cleared_none x = omega arith

pow_add : (j w : ℕ) → 2 ^ (j + w) ≡ 2 ^ w * 2 ^ j
pow_add zero w = grind arith
pow_add (suc j) w = grind (arith, pow_add j w, pow-suc 2 (j + w), pow-suc 2 j)

pow_positive : (j : ℕ) → 0 < 2 ^ j
pow_positive zero = omega arith
pow_positive (suc j) = omega (arith, pow_positive j, pow-suc 2 j)

-- Bits below those that are cleared do not matter.
cleared_below :
    (j w h l : ℕ)
    → (h * 2 ^ w + l) / 2 ^ w ≡ h
    → cleared (j + w) (h * 2 ^ w + l) ≡ cleared j h * 2 ^ w
unfolding cleared
cleared_below j w h l e =
    let q : (h * 2 ^ w + l) / 2 ^ (j + w) ≡ h / 2 ^ j =
      ap (◌/◌ (h * 2 ^ w + l)) (pow_add j w)
      ∙ sym (div-div-eq-div-mul (h * 2 ^ w + l) (2 ^ w) (2 ^ j))
      ∙ ap (λ x. x / 2 ^ j) e in
    rw (q, pow_add j w) grind arith

-- Bits above the lowest eight stay as they are.
cleared_above : (j h x : ℕ) → j ≤ 8 → cleared j (h * 256 + x) ≡ h * 256 + cleared j x
unfolding cleared
cleared_above j h x le =
    let m : ℕ = 2 ^ (8 - j) in
    let same : 8 ≡ (8 - j) + j = omega arith in
    let e : 256 ≡ 2 ^ j * 2 ^ (8 - j) = ap (◌^◌ 2) same ∙ pow_add (8 - j) j in
    let n : h * 256 + x ≡ x + 2 ^ j * (2 ^ (8 - j) * h) = grind (arith, e) in
    let q : (h * 256 + x) / 2 ^ j ≡ x / 2 ^ j + 2 ^ (8 - j) * h =
      ap (λ y. y / 2 ^ j) n ∙ add-mul-div_left x (2 ^ (8 - j) * h) (pow_positive j) in
    rw q grind (arith, e)

-- Each of the four octets is a byte.
abbrev pub AreBytes : Octets → Type 0
AreBytes o = (o.a ≤ 255) × (o.b ≤ 255) × (o.c ≤ 255) × (o.d ≤ 255)

-- The octets with the bits cleared that come after the first `p` of the address.
abbrev pub prefix_of : ℕ → Octets → Octets
prefix_of p o = record {
  a = cleared (8 - min p 8) o.a;
  b = cleared (8 - min (p - 8) 8) o.b;
  c = cleared (8 - min (p - 16) 8) o.c;
  d = cleared (8 - min (p - 24) 8) o.d;
}

-- an octet that the prefix covers, or does not reach
covered : (n x : ℕ) → 8 ≤ n → cleared (8 - min n 8) x ≡ x
covered n x h = let z : 8 - min n 8 ≡ 0 = omega arith in ap (λ j. cleared j x) z ∙ cleared_none x

unreached : (n x : ℕ) → n ≡ 0 → x ≤ 255 → cleared (8 - min n 8) x ≡ 0
unreached n x e h =
    let z : 8 - min n 8 ≡ 8 = omega arith in ap (λ j. cleared j x) z ∙ cleared_all x h

-- The bits of four octets.
abbrev number_of : ℕ → ℕ → ℕ → ℕ → ℕ
number_of a b c d = ((a * 256 + b) * 256 + c) * 256 + d

number_cleared :
    (q j w h l n m : ℕ)
    → q ≡ j + w
    → n ≡ h * 2 ^ w + l
    → (h * 2 ^ w + l) / 2 ^ w ≡ h
    → cleared j h * 2 ^ w ≡ m
    → cleared q n ≡ m
number_cleared q j w h l n m e f g r =
    ap (λ k. cleared k n) e ∙ ap (cleared (j + w)) f ∙ cleared_below j w h l g ∙ r

-- Clearing the bits after the prefix clears them in each octet.
module _ (p a b c d : ℕ) (h : p ≤ 32) (ha : a ≤ 255) (hb : b ≤ 255) (hc : c ≤ 255)
    (hd : d ≤ 255) where
  abbrev cleared_octets : ℕ
  cleared_octets =
      number_of (cleared (8 - min p 8) a) (cleared (8 - min (p - 8) 8) b)
        (cleared (8 - min (p - 16) 8) c) (cleared (8 - min (p - 24) 8) d)

  in_first : p ≤ 8 → cleared (32 - p) (number_of a b c d) ≡ cleared_octets
  in_first le =
      number_cleared (32 - p) (8 - min p 8) 24 a ((b * 256 + c) * 256 + d) _ _ (omega arith)
        (omega arith) (omega arith)
        (omega (
          arith,
          unreached (p - 8) b (omega arith) hb,
          unreached (p - 16) c (omega arith) hc,
          unreached (p - 24) d (omega arith) hd,
        ))

  in_second : 8 ≤ p → p ≤ 16 → cleared (32 - p) (number_of a b c d) ≡ cleared_octets
  in_second ge le =
      number_cleared (32 - p) (8 - min (p - 8) 8) 16 (a * 256 + b) (c * 256 + d) _ _ (omega arith)
        (omega arith) (omega arith)
        (omega (
          arith,
          covered p a ge,
          cleared_above (8 - min (p - 8) 8) a b (omega arith),
          unreached (p - 16) c (omega arith) hc,
          unreached (p - 24) d (omega arith) hd,
        ))

  in_third : 16 ≤ p → p ≤ 24 → cleared (32 - p) (number_of a b c d) ≡ cleared_octets
  in_third ge le =
      number_cleared (32 - p) (8 - min (p - 16) 8) 8 ((a * 256 + b) * 256 + c) d _ _ (omega arith)
        (omega arith) (omega arith)
        (omega (
          arith,
          covered p a (omega arith),
          covered (p - 8) b (omega arith),
          cleared_above (8 - min (p - 16) 8) (a * 256 + b) c (omega arith),
          unreached (p - 24) d (omega arith) hd,
        ))

  in_fourth : 24 ≤ p → cleared (32 - p) (number_of a b c d) ≡ cleared_octets
  in_fourth ge =
      number_cleared (32 - p) (8 - min (p - 24) 8) 0 (number_of a b c d) 0 _ _ (omega arith)
        (omega arith) (omega arith)
        (omega (
          arith,
          covered p a (omega arith),
          covered (p - 8) b (omega arith),
          covered (p - 16) c (omega arith),
          cleared_above (8 - min (p - 24) 8) ((a * 256 + b) * 256 + c) d (omega arith),
        ))

  numbers : cleared (32 - p) (number_of a b c d) ≡ cleared_octets
  numbers = elim (dec_lt 8 p) [
    | no small ↦ in_first (omega arith)
    | yes beyond_first ↦ elim (dec_lt 16 p) [
      | no small ↦ in_second (omega arith) (omega arith)
      | yes beyond_second ↦ elim (dec_lt 24 p) [
        | no small ↦ in_third (omega arith) (omega arith)
        | yes beyond_third ↦ in_fourth (omega arith)
      ]
    ]
  ]

octets_of-number :
    (a b c d : ℕ)
    → a ≤ 255
    → b ≤ 255
    → c ≤ 255
    → d ≤ 255
    → octets_of (number_of a b c d) ≡ record { a = a; b = b; c = c; d = d }
octets_of-number a b c d ha hb hc hd = ground arith

-- The prefix of an address, octet by octet, is the address with its lower bits cleared.
pub prefix_of_lem :
    (p : ℕ) (o : Octets)
    → p ≤ 32
    → AreBytes o
    → prefix_of p o ≡ octets_of (cleared (32 - p) (number o))
prefix_of_lem p o h (ha, hb, hc, hd) = sym (
    ap octets_of (numbers p o.a o.b o.c o.d h ha hb hc hd)
    ∙ octets_of-number _ _ _ _ (below _ _ ha) (below _ _ hb) (below _ _ hc) (below _ _ hd))
  where
    below : (j x : ℕ) → x ≤ 255 → cleared j x ≤ 255
    below j x e = omega (arith, cleared-le j x)
