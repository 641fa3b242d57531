-- ===== src/Config/Addresses/Apart.antt =====
-- The DNP3 addresses that a file gives, and those that the parser hands out, stay apart.
use ics_trafficgen.Base.{
  ℕ, suc, ◌+◌, ◌-◌, ◌%◌, ◌≤◌, ◌<◌, List, [], ◌∷◌, ◌++◌, Option, none, some, ℤ, to_u16, ◌≡◌, ◌≢◌,
  refl, sym, ap, ◌∙◌, subst, arith, All, All-Has, All-append, All-append_left, All-of, Has,
  Has-append_left, Has-append_right, inl, append_assoc, append-nil, Lacks, Distinct, Distinct-snoc,
  Distinct-append_left,
}
use ics_trafficgen.Config.{PropTree, Parser}
use ics_trafficgen.Config.Addresses.{
  next_free, get_next_dnp3_address, choose_address, push_address, Pair, on_node, read_addresses,
  read_assign_dnp3_addresses,
}
use ics_trafficgen.Config.Addresses.Fresh.{next_free-above, next_free-le}

-- The addresses `used` by nodes and those `given` for nodes to come are different from one another,
-- and all of them are known; `k` more addresses can be handed out.
pub record AreApart (k : ℕ) (used given known : List ℕ) : Type 0 where
  pub used_once : Distinct used
  pub given_once : Distinct given
  pub apart : All (λ n. Lacks n given) used
  pub used_known : All (λ n. Has n known) used
  pub given_known : All (λ g. Has g known) given
  pub small : All (λ x. x + k < 65536) known

drop_last :
    (k a : ℕ) (used given known : List ℕ)
    → AreApart k (used ++ a ∷ []) given known
    → AreApart k used given known
drop_last k a used given known h = record {
  used_once = Distinct-append_left used (a ∷ []) h.used_once;
  given_once = h.given_once;
  apart = All-append_left (λ n. Lacks n given) used (a ∷ []) h.apart;
  used_known = All-append_left (λ n. Has n known) used (a ∷ []) h.used_known;
  given_known = h.given_known;
  small = h.small;
}

-- The next address given is used.
use_given :
    (k a : ℕ) (used given known : List ℕ)
    → AreApart (suc k) used (a ∷ given) known
    → AreApart k (used ++ a ∷ []) given known
use_given k a used given known h = record {
  used_once =
      Distinct-snoc used a h.used_once (All-of (λ y. y ≢ a) (λ n l e. l.0 (sym e)) used h.apart);
  given_once = h.given_once.1;
  apart =
      All-append (λ n. Lacks n given) used (a ∷ [])
        (All-of (λ n. Lacks n given) (λ n l. l.1) used h.apart) (h.given_once.0, tt);
  used_known = All-append (λ n. Has n known) used (a ∷ []) h.used_known (h.given_known.0, tt);
  given_known = h.given_known.1;
  small = All-of (λ x. x + k < 65536) (λ x l. omega arith) known h.small;
}

-- A new address is handed out.
hand_out :
    (k : ℕ) (used given known : List ℕ)
    → k ≤ 65000
    → AreApart (suc k) used given known
    → AreApart k
        (used ++ (next_free known % 65536) ∷ [])
        given
        (known ++ (next_free known % 65536) ∷ [])
hand_out k used given known room h =
    let below : All (λ x. x < 65535 - k) known =
      All-of (λ x. x < 65535 - k) (λ x l. omega arith) known h.small in
    let le : next_free known ≤ 65535 - k = next_free-le (65535 - k) known (omega arith) below in
    let fits : next_free known % 65536 ≡ next_free known = omega arith in
    let lacks : (xs : List ℕ) → All (λ n. Has n known) xs → Lacks (next_free known) xs = λ xs.
      All-of (λ y. y ≢ next_free known)
        (λ n m e. absurd (
          let lt = All-Has (λ x. x < next_free known) n known (next_free-above known) m in
          omega arith))
        xs in
    let still : (xs : List ℕ)
        → All (λ n. Has n known) xs
        → All (λ n. Has n (known ++ next_free known ∷ [])) xs =
      λ xs.
        All-of (λ n. Has n (known ++ next_free known ∷ [])) (λ n m. Has-append_left n known _ m)
          xs in
    rw fits (record {
      used_once = Distinct-snoc used (next_free known) h.used_once (lacks used h.used_known);
      given_once = h.given_once;
      apart =
          All-append (λ n. Lacks n given) used (next_free known ∷ []) h.apart
            (lacks given h.given_known, tt);
      used_known =
          All-append (λ n. Has n (known ++ next_free known ∷ [])) used (next_free known ∷ [])
            (still used h.used_known) (Has-append_right _ known _ (inl refl), tt);
      given_known = still given h.given_known;
      small =
          All-append (λ x. x + k < 65536) known (next_free known ∷ [])
            (All-of (λ x. x + k < 65536) (λ x l. omega arith) known h.small) (omega arith, tt);
    })

module _ (pt : PropTree) where
  open pt use {Tree, Float, get_int}

  choose_address-AreApart :
      (a : Option ℤ) (p : Parser Float) (k : ℕ) (used given : List ℕ)
      → k ≤ 65000
      → AreApart (suc k) used (push_address pt a [] ++ given) p.local_dnp3_addrs
      → let (p', z) = choose_address pt a p in
        AreApart k (used ++ to_u16 z ∷ []) given p'.local_dnp3_addrs
  unfolding choose_address get_next_dnp3_address
  choose_address-AreApart (some a) p k used given room h =
      use_given k (to_u16 a) used given p.local_dnp3_addrs h
  choose_address-AreApart none p k used given room h =
      hand_out k used given p.local_dnp3_addrs room h

  -- The addresses that an entry gives.
  abbrev pub given_by : Tree → List ℕ
  given_by t =
      push_address pt (get_int t "DNP3 Address.Master") []
      ++ push_address pt (get_int t "DNP3 Address.Outstation") []

  push_address-append :
      (a : Option ℤ) (known : List ℕ) → push_address pt a known ≡ known ++ push_address pt a []
  push_address-append none known = sym (append-nil known)
  push_address-append (some a) known = refl

  both_pushed :
      (t : Tree) (known : List ℕ)
      → push_address pt
          (get_int t "DNP3 Address.Outstation")
          (push_address pt (get_int t "DNP3 Address.Master") known)
        ≡ known ++ given_by t
  both_pushed t known =
      let m = get_int t "DNP3 Address.Master" in
      let o = get_int t "DNP3 Address.Outstation" in
      push_address-append o (push_address pt m known)
      ∙ ap (λ l. l ++ push_address pt o []) (push_address-append m known)
      ∙ append_assoc known (push_address pt m []) (push_address pt o [])

  read_addresses-append :
      (ts : List Tree) (known : List ℕ)
      → read_addresses pt ts known ≡ known ++ read_addresses pt ts []
  unfolding read_addresses
  read_addresses-append [] known = sym (append-nil known)
  read_addresses-append (t ∷ ts) known =
      let rest = read_addresses pt ts [] in
      read_addresses-append ts _
      ∙ ap (λ l. l ++ rest) (both_pushed t known)
      ∙ append_assoc known (given_by t) rest
      ∙ ap (λ l. known ++ l)
          (sym (read_addresses-append ts _ ∙ ap (λ l. l ++ rest) (both_pushed t [])))

  -- The addresses given are those of the first entry, and then those of the others.
  pub read_addresses-cons :
      (t : Tree) (ts : List Tree)
      → read_addresses pt (t ∷ ts) [] ≡ given_by t ++ read_addresses pt ts []
  unfolding read_addresses
  read_addresses-cons t ts =
      read_addresses-append ts _ ∙ ap (λ l. l ++ read_addresses pt ts []) (both_pushed t [])

  abbrev pub addresses_of : Pair pt → List ℕ
  addresses_of (some m, some o) = m.local_dnp3_addr ∷ o.local_dnp3_addr ∷ []
  addresses_of (some m, none) = m.local_dnp3_addr ∷ []
  addresses_of (none, some o) = o.local_dnp3_addr ∷ []
  addresses_of (none, none) = []

  -- The addresses that are chosen for an entry's master and outstation, used by both of them, by one
  -- or by none.
  record AreChosen (k : ℕ) (used given known : List ℕ) (m o : ℕ) : Type 0 where
    by_both : AreApart k (used ++ m ∷ o ∷ []) given known
    by_master : AreApart k (used ++ m ∷ []) given known
    by_outstation : AreApart k (used ++ o ∷ []) given known
    by_none : AreApart k used given known

  choose-AreChosen :
      (ma oa : Option ℤ) (p : Parser Float) (k : ℕ) (used given : List ℕ)
      → k + 1 ≤ 65000
      → AreApart
          (suc (suc k))
          used
          (push_address pt ma [] ++ (push_address pt oa [] ++ given))
          p.local_dnp3_addrs
      → let (p₁, a) = choose_address pt ma p in
        let (p₂, b) = choose_address pt oa p₁ in
        AreChosen k used given p₂.local_dnp3_addrs (to_u16 a) (to_u16 b)
  choose-AreChosen ma oa p k used given room h =
      let (p₁, a) = choose_address pt ma p in
      let (p₂, b) = choose_address pt oa p₁ in
      let first =
        choose_address-AreApart ma p (suc k) used (push_address pt oa [] ++ given) (omega arith)
          h in
      let second =
        choose_address-AreApart oa p₁ k (used ++ to_u16 a ∷ []) given (omega arith) first in
      let alone =
        choose_address-AreApart oa p₁ k used given (omega arith)
          (drop_last (suc k) (to_u16 a) used _ p₁.local_dnp3_addrs first) in
      record {
        by_both =
            subst (λ l. AreApart k l given p₂.local_dnp3_addrs)
              (append_assoc used (to_u16 a ∷ []) (to_u16 b ∷ [])) second;
        by_master = drop_last k (to_u16 b) (used ++ to_u16 a ∷ []) given p₂.local_dnp3_addrs second;
        by_outstation = alone;
        by_none = drop_last k (to_u16 b) used given p₂.local_dnp3_addrs alone;
      }

  -- An entry's nodes have addresses that stay apart from all others.
  pub read_assign_dnp3_addresses-AreApart :
      (t : Tree) (p : Parser Float) (pair : Pair pt) (k : ℕ) (used given : List ℕ)
      → k + 1 ≤ 65000
      → AreApart (suc (suc k)) used (given_by t ++ given) p.local_dnp3_addrs
      → let (p', pair') = read_assign_dnp3_addresses pt t (p, pair) in
        AreApart k (used ++ addresses_of pair') given p'.local_dnp3_addrs
  unfolding read_assign_dnp3_addresses
  read_assign_dnp3_addresses-AreApart t p pair k used given room h =
      let ma = get_int t "DNP3 Address.Master" in
      let oa = get_int t "DNP3 Address.Outstation" in
      let c = choose-AreChosen ma oa p k used given room (
        subst (λ l. AreApart (suc (suc k)) used l p.local_dnp3_addrs)
          (append_assoc (push_address pt ma []) (push_address pt oa []) given) h) in
      taken pair _ _ c
    where
      taken :
          (pair : Pair pt) (mr or : ℕ) {known : List ℕ} {m o : ℕ}
          → AreChosen k used given known m o
          → AreApart k
              (used
                ++ addresses_of (
                  on_node pt (λ n. record n { local_dnp3_addr = m; remote_dnp3_addr = mr }) pair.0,
                  on_node pt (λ n. record n { local_dnp3_addr = o; remote_dnp3_addr = or }) pair.1,
                ))
              given
              known
      taken (some m, some o) mr or c = c.by_both
      taken (some m, none) mr or c = c.by_master
      taken (none, some o) mr or c = c.by_outstation
      taken (none, none) mr or {known = known} c =
          subst (λ l. AreApart k l given known) (sym (append-nil used)) c.by_none
