-- ===== src/Cidr/Network.antt =====
-- The network address that the constructor reads from a text in CIDR notation.
use ics_trafficgen.Base.{
  ℕ, ◌-◌, ◌≤◌, ◌==◌, some, List, [], ◌∷◌, ◌++◌, All, All-append, false, ◌≡◌, refl, sym, ap,
  append-nil, ◌∙◌, subst,
}
use ics_trafficgen.Decimal.{is_digit, print, scan, scan-print, digits-cons, print-avoids}
use ics_trafficgen.StringUtilities.{split, joined, Avoids, split-joined}
use ics_trafficgen.Cidr.{Octets, read_int, ends, network_address, print_address}
use ics_trafficgen.Cidr.Mask.{set_bits_lem}
use ics_trafficgen.Cidr.Prefix.{
  cleared, number, octets_of, AreBytes, prefix_of_lem, bit_and-high_bits,
}

print-cons : (n : ℕ) → (c : ℕ) × (cs : List ℕ) × (print n ≡ c ∷ cs)
unfolding print
print-cons n = digits-cons n n

-- Joined tokens, of which the last one is a number.
split-to_number :
    (d n : ℕ) (tokens : List (List ℕ))
    → is_digit d ≡ false
    → All (Avoids d) tokens
    → split d (joined d tokens (print n)) ≡ tokens ++ print n ∷ []
split-to_number d n tokens h a =
    let (c, cs, e) = print-cons n in
    subst (λ l. split d (joined d tokens l) ≡ tokens ++ l ∷ []) (sym e)
      (split-joined d c cs tokens (subst (Avoids d) e (print-avoids d n h)) a)

read_int-print : (n : ℕ) → read_int (print n) ≡ n
unfolding read_int
read_int-print n =
    ap (λ l. (scan 0 l).0) (sym (append-nil (print n))) ∙ ap (λ r. r.0) (scan-print n [] tt)

split-print_address :
    (o : Octets) → split b'.' (print_address o) ≡ print o.a ∷ print o.b ∷ print o.c ∷ print o.d ∷ []
unfolding print_address
split-print_address o =
    split-to_number b'.' o.d (print o.a ∷ print o.b ∷ print o.c ∷ []) refl
      (print-avoids b'.' o.a refl, (print-avoids b'.' o.b refl, (print-avoids b'.' o.c refl, tt)))

Avoids-print_address : (o : Octets) → Avoids b'/' (print_address o)
unfolding print_address
Avoids-print_address o = with_dot (print o.a) _ (print-avoids b'/' o.a refl) (
    with_dot (print o.b) _ (print-avoids b'/' o.b refl)
      (with_dot (print o.c) _ (print-avoids b'/' o.c refl) (print-avoids b'/' o.d refl)))
  where
    with_dot : (l r : List ℕ) → Avoids b'/' l → Avoids b'/' r → Avoids b'/' (l ++ b'.' ∷ r)
    with_dot l r a b = All-append (λ c. (c == b'/') ≡ false) l (b'.' ∷ r) a (refl, b)

-- For an address of four bytes and a prefix length up to 32, the text of the address, a slash and
-- the length gives the address with the bits after the prefix cleared.
pub network_address_lem :
    (o : Octets) (p : ℕ)
    → AreBytes o
    → p ≤ 32
    → network_address (print_address o ++ b'/' ∷ print p)
      ≡ some (octets_of (cleared (32 - p) (number o)))
unfolding network_address ends
network_address_lem o p bytes h =
    let (ha, hb, hc, hd) = bytes in
    rw
      (
        split-to_number b'/' p (print_address o ∷ []) refl (Avoids-print_address o, tt),
        split-print_address o,
        read_int-print p,
        set_bits_lem p h,
        read_int-print o.a,
        read_int-print o.b,
        read_int-print o.c,
        read_int-print o.d,
        bit_and-high_bits o.a p ha,
        bit_and-high_bits o.b (p - 8) hb,
        bit_and-high_bits o.c (p - 16) hc,
        bit_and-high_bits o.d (p - 24) hd,
      )
      (ap some (prefix_of_lem p o h bytes))
