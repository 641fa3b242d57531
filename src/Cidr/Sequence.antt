-- ===== src/Cidr/Sequence.antt =====
-- The sequence of addresses that `GetNextIpAddress` gives out.
use ics_trafficgen.Base.{
  ℕ, zero, suc, ◌+◌, ◌-◌, ◌*◌, ◌/◌, ◌%◌, ◌≤◌, ◌<◌, ◌≡◌, ◌≢◌, refl, sym, ap, ◌∙◌, arith,
}
use ics_trafficgen.Cidr.{Octets, next_address}

-- The state after `n` calls.
unfoldable pub after_calls : ℕ → Octets → Octets
after_calls zero s = s
after_calls (suc n) s = next_address (after_calls n s)

-- The usable addresses in order: the last octet runs from 1 to 254, the others from 0 to 254.
abbrev pub address_of : ℕ → Octets
address_of r = record {
  a = r / 254 / 255 / 255;
  b = r / 254 / 255 % 255;
  c = r / 254 % 255;
  d = r % 254 + 1;
}

-- The number of usable addresses.
abbrev pub address_count : ℕ
address_count = 255 * 255 * 255 * 254

next-address_of : (r : ℕ) → r + 1 < address_count → next_address (address_of r) ≡ address_of (r + 1)
unfolding next_address
next-address_of r h = ground arith

-- The place of an address in that order.
abbrev pub rank : Octets → ℕ
rank s = ((s.a * 255 + s.b) * 255 + s.c) * 254 + (s.d - 1)

address_of-rank :
    (s : Octets) → s.b ≤ 254 → s.c ≤ 254 → 1 ≤ s.d → s.d ≤ 254 → address_of (rank s) ≡ s
address_of-rank s hb hc hd hd' = ground arith

after_calls-address_of :
    (n r : ℕ) → r + n < address_count → after_calls n (address_of r) ≡ address_of (r + n)
unfolding after_calls
after_calls-address_of zero r h = ap address_of (omega arith)
after_calls-address_of (suc n) r h =
    ap next_address (after_calls-address_of n r (omega arith))
    ∙ next-address_of (r + n) (omega arith)
    ∙ ap address_of (omega arith)

after_calls-next : (n : ℕ) (s : Octets) → after_calls (suc n) s ≡ after_calls n (next_address s)
unfolding after_calls
after_calls-next zero s = refl
after_calls-next (suc n) s = ap next_address (after_calls-next n s)

next_base : (s : Octets) → s.b ≤ 254 → s.c ≤ 254 → s.d ≡ 0 → next_address s ≡ address_of (rank s)
unfolding next_address
next_base s hb hc hd = ground arith

-- From a network address whose last octet is 0 and whose second and third octets are at most 254,
-- call `n + 1` gives the usable address `n` places after the first one of the network, if that is
-- not past 254.254.254.254.
pub after_calls_lem :
    (s : Octets) (n : ℕ)
    → s.b ≤ 254
    → s.c ≤ 254
    → s.d ≡ 0
    → rank s + n < address_count
    → after_calls (suc n) s ≡ address_of (rank s + n)
after_calls_lem s n hb hc hd h =
    after_calls-next n s
    ∙ ap (after_calls n) (next_base s hb hc hd)
    ∙ after_calls-address_of n (rank s) h

address_of-injective : (r q : ℕ) → address_of r ≡ address_of q → r ≡ q
address_of-injective r q e =
    let a : r / 254 / 255 / 255 ≡ q / 254 / 255 / 255 = ap (λ s. s.a) e in
    let b : r / 254 / 255 % 255 ≡ q / 254 / 255 % 255 = ap (λ s. s.b) e in
    let c : r / 254 % 255 ≡ q / 254 % 255 = ap (λ s. s.c) e in
    let d : r % 254 + 1 ≡ q % 254 + 1 = ap (λ s. s.d) e in omega arith

-- From a network address whose last octet is 0 and whose second and third octets are at most 254,
-- two different calls give different addresses, if the later one is not past 254.254.254.254.
pub after_calls-distinct :
    (s : Octets) (m n : ℕ)
    → s.b ≤ 254
    → s.c ≤ 254
    → s.d ≡ 0
    → rank s + n < address_count
    → m < n
    → after_calls (suc m) s ≢ after_calls (suc n) s
after_calls-distinct s m n hb hc hd h k e =
    let same =
      address_of-injective (rank s + m) (rank s + n)
        (sym (after_calls_lem s m hb hc hd (omega arith)) ∙ e ∙ after_calls_lem s n hb hc hd h) in
    absurd (omega arith)

-- The prefix length is not looked at: from a network a.b.0.0 with a at most 254 and b below 254, the
-- call after its 64770 usable addresses gives a.(b + 1).0.1, which is in the next network.
pub after_calls-leaves :
    (a b : ℕ)
    → b < 254
    → a ≤ 254
    → after_calls 64771 (record { a = a; b = b; c = 0; d = 0 })
      ≡ record { a = a; b = b + 1; c = 0; d = 1 }
after_calls-leaves a b h k =
    after_calls_lem (record { a = a; b = b; c = 0; d = 0 }) 64770 (omega arith) (omega arith) refl
      (omega arith)
    ∙ ground arith
