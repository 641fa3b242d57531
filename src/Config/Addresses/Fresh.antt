-- ===== src/Config/Addresses/Fresh.antt =====
-- The DNP3 addresses that the parser hands out, and how the two nodes of a pair are connected.
use ics_trafficgen.Base.{
  ℕ, ◌+◌, ◌%◌, ◌≤◌, ◌<◌, List, [], ◌∷◌, ◌++◌, none, some, ltb, if◌then◌else◌, ◌≡◌, ◌≢◌, refl, ◌∙◌,
  arith, All, Has, Has-append_right, inl, All-Has, All-append, All-append_left, All-of, sym, to_u16,
  ℤ, pos,
}
use ics_trafficgen.Node.{Node}
use ics_trafficgen.Config.{PropTree, Parser}
use ics_trafficgen.Config.Addresses.{
  max_element, next_free, get_next_dnp3_address, Pair, read_assign_dnp3_addresses,
}

All-le_mono : (m n : ℕ) (xs : List ℕ) → m ≤ n → All (λ x. x ≤ m) xs → All (λ x. x ≤ n) xs
All-le_mono m n [] h a = tt
All-le_mono m n (x ∷ xs) h a = (omega arith, All-le_mono m n xs h a.1)

max_element_bounds :
    (m : ℕ) (xs : List ℕ) → (m ≤ max_element m xs) × All (λ x. x ≤ max_element m xs) xs
max_element_bounds m [] = (omega arith, tt)
max_element_bounds m (x ∷ xs) =
    let (above, rest) = max_element_bounds (if ltb m x then x else m) xs in
    (ground arith, (ground arith, rest))

-- Every address is below the next free one.
pub next_free-above : (xs : List ℕ) → All (λ x. x < next_free xs) xs
next_free-above [] = tt
next_free-above (x ∷ xs) =
    let (above, rest) = max_element_bounds x xs in (omega arith, below (max_element x xs) xs rest)
  where
    below : (m : ℕ) (ys : List ℕ) → All (λ y. y ≤ m) ys → All (λ y. y < m + 1) ys
    below m [] a = tt
    below m (y ∷ ys) a = (omega arith, below m ys a.1)

max_element-lt : (k m : ℕ) (xs : List ℕ) → m < k → All (λ x. x < k) xs → max_element m xs < k
max_element-lt k m [] h a = h
max_element-lt k m (x ∷ xs) h a = max_element-lt k (if ltb m x then x else m) xs (ground arith) a.1

pub next_free-le : (k : ℕ) (xs : List ℕ) → 90 ≤ k → All (λ x. x < k) xs → next_free xs ≤ k
next_free-le k [] h a = h
next_free-le k (x ∷ xs) h a = omega (arith, max_element-lt k x xs a.0 a.1)

module _ {F : Type 0} where
  -- If every known address is below 65535, the address that is handed out is none of them, fits 16
  -- bits, and is known from then on, as are the others.
  get_next_dnp3_address_lem :
      (p : Parser F)
      → All (λ x. x < 65535) p.local_dnp3_addrs
      → let (p', a) = get_next_dnp3_address p in
        (a < 65536)
        × All (λ x. x ≢ a) p.local_dnp3_addrs
        × (p'.local_dnp3_addrs ≡ p.local_dnp3_addrs ++ a ∷ [])
        × (p'.nodes ≡ p.nodes)
  unfolding get_next_dnp3_address
  get_next_dnp3_address_lem p h =
      let a = next_free p.local_dnp3_addrs in
      let small : a < 65536 =
        omega (arith, next_free-le 65535 p.local_dnp3_addrs (omega arith) h) in
      let fits : a % 65536 ≡ a = omega arith in
      (
        small,
        All-of (λ x. x ≢ a) (λ x lt e. absurd (omega arith)) p.local_dnp3_addrs
            (next_free-above p.local_dnp3_addrs),
        rw fits,
        refl,
      )

  -- Where 65535 is known and all known addresses fit 16 bits, the next address is one that a node
  -- stores as 0, and 0 is recorded.
  pub get_next_dnp3_address-wraps :
      (p : Parser F)
      → Has 65535 p.local_dnp3_addrs
      → All (λ x. x < 65536) p.local_dnp3_addrs
      → let (p', a) = get_next_dnp3_address p in
        (to_u16 (pos a) ≡ 0) × (p'.local_dnp3_addrs ≡ p.local_dnp3_addrs ++ 0 ∷ [])
  unfolding get_next_dnp3_address
  get_next_dnp3_address-wraps p full h =
      let a : next_free p.local_dnp3_addrs ≡ 65536 = omega (
        arith,
        All-Has (λ y. y < next_free p.local_dnp3_addrs) 65535 p.local_dnp3_addrs
            (next_free-above p.local_dnp3_addrs) full,
        next_free-le 65536 p.local_dnp3_addrs (omega arith) h,
      ) in
      (rw a, rw a)

record TwoFresh (known : List ℕ) (a b : ℕ) : Type 0 where
  first_fits : a % 65536 ≡ a
  second_fits : b % 65536 ≡ b
  distinct : a ≢ b
  first_above : All (λ x. x < a) known
  second_above : All (λ x. x < b) known

-- Two addresses handed out one after the other.
two_fresh :
    (known : List ℕ)
    → All (λ x. x < 65534) known
    → TwoFresh known (next_free known) (next_free (known ++ (next_free known % 65536) ∷ []))
two_fresh known h =
    let a = next_free known in
    let a_le = next_free-le 65534 known (omega arith) h in
    let fits : a % 65536 ≡ a = omega arith in
    let known₁ = known ++ (a % 65536) ∷ [] in
    let bound : All (λ x. x < 65535) known₁ =
      All-append (λ x. x < 65535) known _ (All-of (λ x. x < 65535) (λ x l. omega arith) known h)
        (omega arith, tt) in
    let b_le = next_free-le 65535 known₁ (omega arith) bound in
    let above = next_free-above known₁ in
    let a_lt =
      All-Has (λ x. x < next_free known₁) (a % 65536) known₁ above
        (Has-append_right _ known _ (inl refl)) in
    record {
      first_fits = fits;
      second_fits = omega arith;
      distinct = λ e. absurd (omega arith);
      first_above = next_free-above known;
      second_above = All-append_left (λ x. x < next_free known₁) known _ above;
    }

-- Addresses below `a` differ from what `a` is stored as, if it fits 16 bits.
none_equal :
    (a : ℕ) (known : List ℕ)
    → a % 65536 ≡ a
    → All (λ y. y < a) known
    → All (λ x. x ≢ a % 65536) known
none_equal a known fits above =
    All-of (λ x. x ≢ a % 65536) (λ x lt e. absurd (omega arith)) known above

module _ (pt : PropTree) where
  open pt use {Tree, Float, get_int, get_string}

  -- A master and an outstation that have each other's DNP3 addresses, which differ.
  abbrev pub Linked : Pair pt → Type 0
  Linked (some m, some o) =
      (m.local_dnp3_addr ≡ o.remote_dnp3_addr)
      × (m.remote_dnp3_addr ≡ o.local_dnp3_addr)
      × (m.local_dnp3_addr ≢ o.local_dnp3_addr)
  Linked (some m, none) = ⊥
  Linked (none, o) = ⊥

  -- The master's address is none of the known ones.
  abbrev pub MasterFresh : List ℕ → Pair pt → Type 0
  MasterFresh known (some m, o) = All (λ x. x ≢ m.local_dnp3_addr) known
  MasterFresh known (none, o) = ⊥

  abbrev pub OutstationFresh : List ℕ → Pair pt → Type 0
  OutstationFresh known (m, some o) = All (λ x. x ≢ o.local_dnp3_addr) known
  OutstationFresh known (m, none) = ⊥

  -- Let a file name a master and an outstation, give no DNP3 address for either, and let the known
  -- addresses be below 65534. Then the two have each other's addresses, which differ from one
  -- another and from all known ones.
  pub read_assign_dnp3_addresses_lem :
      (t : Tree) (p : Parser Float) (m o : Node Float)
      → get_int t "DNP3 Address.Master" ≡ none
      → get_int t "DNP3 Address.Outstation" ≡ none
      → All (λ x. x < 65534) p.local_dnp3_addrs
      → let (p', pair) = read_assign_dnp3_addresses pt t (p, (some m, some o)) in
        Linked pair × MasterFresh p.local_dnp3_addrs pair × OutstationFresh p.local_dnp3_addrs pair
  unfolding read_assign_dnp3_addresses get_next_dnp3_address
  read_assign_dnp3_addresses_lem t p m o no_master no_outstation h =
      let known = p.local_dnp3_addrs in
      let f = two_fresh known h in
      rw (no_master, no_outstation)
        (
          (refl, refl, λ e. f.distinct (sym f.first_fits ∙ e ∙ f.second_fits)),
          none_equal (next_free known) known f.first_fits f.first_above,
          none_equal _ known f.second_fits f.second_above,
        )

  -- Let a file name a master and an outstation, give no DNP3 address for the master and a known one
  -- for the outstation, and let the known addresses be below 65534. Then the two have each other's
  -- addresses, which differ from one another, and the master's is none of the known ones.
  pub read_assign_dnp3_addresses-given :
      (t : Tree) (p : Parser Float) (m o : Node Float) (z : ℤ)
      → get_int t "DNP3 Address.Master" ≡ none
      → get_int t "DNP3 Address.Outstation" ≡ some z
      → Has (to_u16 z) p.local_dnp3_addrs
      → All (λ x. x < 65534) p.local_dnp3_addrs
      → let (p', pair) = read_assign_dnp3_addresses pt t (p, (some m, some o)) in
        Linked pair × MasterFresh p.local_dnp3_addrs pair
  unfolding read_assign_dnp3_addresses get_next_dnp3_address
  read_assign_dnp3_addresses-given t p m o z no_master given is_known h =
      let known = p.local_dnp3_addrs in
      let f = two_fresh known h in
      let fresh = none_equal (next_free known) known f.first_fits f.first_above in
      rw (no_master, given)
        (
          (
            refl,
            refl,
            λ e. All-Has (λ x. x ≢ next_free known % 65536) (to_u16 z) known fresh is_known (sym e),
          ),
          fresh,
        )
