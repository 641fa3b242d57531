-- ===== src/Config/Addresses/Aliases/Distinct.antt =====
-- The generated IP addresses differ, as texts.
use ics_trafficgen.Base.{
  ℕ, zero, suc, ◌+◌, ◌≤◌, ◌<◌, String, List, [], ◌∷◌, ◌++◌, map, ◌≡◌, ◌≢◌, refl, sym, ap, ◌∙◌,
  subst, arith, All-append, append-nil, Distinct, Distinct-snoc, Lacks,
}
use ics_trafficgen.Decimal.{print, scan, scan-print}
use ics_trafficgen.Cidr.{Octets, print_address}
use ics_trafficgen.Cidr.Sequence.{after_calls-distinct, rank, address_count}
use ics_trafficgen.Config.Addresses.Aliases.{alias, aliases, map-snoc}

-- Two texts that begin with a number and a point have the same number and the same rest.
number_then :
    (a b : ℕ) (l r : List ℕ) → print a ++ b'.' ∷ l ≡ print b ++ b'.' ∷ r → (a ≡ b) × (l ≡ r)
number_then a b l r e =
    let both : (a, b'.' ∷ l) ≡ (b, b'.' ∷ r) =
      sym (scan-print a (b'.' ∷ l) refl) ∙ ap (scan 0) e ∙ scan-print b (b'.' ∷ r) refl in
    (ap (λ p. p.0) both, (let tails : b'.' ∷ l ≡ b'.' ∷ r = ap (λ p. p.1) both in cc))

print-injective : (a b : ℕ) → print a ≡ print b → a ≡ b
print-injective a b e =
    let both : (a, []) ≡ (b, []) =
      sym (scan-print a [] tt)
      ∙ ap (scan 0) (append-nil (print a) ∙ e ∙ sym (append-nil (print b)))
      ∙ scan-print b [] tt in
    ap (λ p. p.0) both

print_address-injective : (x y : Octets) → print_address x ≡ print_address y → x ≡ y
unfolding print_address
print_address-injective x y e =
    let (a, e₁) = number_then x.a y.a _ _ e in
    let (b, e₂) = number_then x.b y.b _ _ e₁ in
    let (c, e₃) = number_then x.c y.c _ _ e₂ in
    let d = print-injective x.d y.d e₃ in λ i. record { a = a i; b = b i; c = c i; d = d i }

module _ (nic : String) (s : Octets) (hb : s.b ≤ 254) (hc : s.c ≤ 254) (hd : s.d ≡ 0) where
  lacks :
      (j k : ℕ)
      → rank s + k < address_count
      → j ≤ k
      → Lacks (alias nic s k).0 (map (λ i. i.0) (aliases nic s j))
  lacks zero k room le = tt
  lacks (suc j) k room le =
      subst (Lacks (alias nic s k).0) (sym (map-snoc (λ i. i.0) (aliases nic s j) (alias nic s j)))
        (All-append (λ y. y ≢ (alias nic s k).0) (map (λ i. i.0) (aliases nic s j)) _
          (lacks j k room (omega arith))
          (
            λ e.
                after_calls-distinct s j k hb hc hd room (omega arith)
                  (print_address-injective _ _ e),
            tt,
          ))

  pub aliases-Distinct :
      (k : ℕ) → rank s + k ≤ address_count → Distinct (map (λ i. i.0) (aliases nic s k))
  aliases-Distinct zero room = tt
  aliases-Distinct (suc k) room =
      subst Distinct (sym (map-snoc (λ i. i.0) (aliases nic s k) (alias nic s k))) (
        Distinct-snoc (map (λ i. i.0) (aliases nic s k)) _ (aliases-Distinct k (omega arith))
          (lacks k k (omega arith) (omega arith)))
