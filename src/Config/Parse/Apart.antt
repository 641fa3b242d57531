-- ===== src/Config/Parse/Apart.antt =====
-- The DNP3 addresses of the nodes of a whole file.
use ics_trafficgen.Base.{
  ℕ, suc, ◌+◌, ◌*◌, ◌≤◌, ◌<◌, List, [], ◌∷◌, ◌++◌, map, length, none, some, ◌≡◌, refl, sym, ap, ap₂,
  ◌∙◌, subst, arith, All, All-of, Has, inl, inr, Distinct,
}
use ics_trafficgen.Node.{Node}
use ics_trafficgen.Config.{PropTree, Parser}
use ics_trafficgen.Config.Addresses.{
  Pair, read_addresses, read_assign_ip_addresses, read_assign_dnp3_addresses,
}
use ics_trafficgen.Config.Addresses.Kept.{
  read_assign_ip_addresses-part, read_assign_dnp3_addresses-part,
}
use ics_trafficgen.Config.Addresses.Apart.{
  AreApart, read_addresses-cons, addresses_of, read_assign_dnp3_addresses-AreApart,
}
use ics_trafficgen.Config.Parse.{node_named, read_nodes, parse_config}
use ics_trafficgen.Config.Parse.Identity.{identity, Entered, nodes_of, assigned}
use ics_trafficgen.Config.Parse.Identity.Whole.{
  beginning, text_or_empty, parse_config-Begins, read_nodes-kept,
}

module _ {F : Type 0} where
  abbrev dnp3_addrs : List (Node F) → List ℕ
  dnp3_addrs ns = map (λ n. n.local_dnp3_addr) ns

  map-identity : (ns : List (Node F)) → map (λ i. i.0) (map identity ns) ≡ dnp3_addrs ns
  map-identity [] = refl
  map-identity (n ∷ ns) = ap (◌∷◌ n.local_dnp3_addr) (map-identity ns)

  -- Nodes with the same identities have the same addresses.
  same_addrs :
      (ns ms : List (Node F)) → map identity ns ≡ map identity ms → dnp3_addrs ns ≡ dnp3_addrs ms
  same_addrs ns ms e = sym (map-identity ns) ∙ ap (map (λ i. i.0)) e ∙ map-identity ms

  dnp3_addrs-append :
      (ns ms : List (Node F)) → dnp3_addrs (ns ++ ms) ≡ dnp3_addrs ns ++ dnp3_addrs ms
  dnp3_addrs-append [] ms = refl
  dnp3_addrs-append (n ∷ ns) ms = ap (◌∷◌ n.local_dnp3_addr) (dnp3_addrs-append ns ms)

module _ (pt : PropTree) where
  open pt use {Tree, Float, children, get_string}

  addresses_of-nodes : (pair : Pair pt) → addresses_of pt pair ≡ dnp3_addrs (nodes_of pt pair)
  addresses_of-nodes (some m, some o) = refl
  addresses_of-nodes (some m, none) = refl
  addresses_of-nodes (none, some o) = refl
  addresses_of-nodes (none, none) = refl

  -- With the entries `ts` still to read.
  abbrev Apart : List Tree → Parser Float → Type 0
  Apart ts p =
      AreApart (2 * length ts) (dnp3_addrs p.nodes) (read_addresses pt ts []) p.local_dnp3_addrs
      × (2 * length ts ≤ 65000)

  entry-Apart :
      (t : Tree) (ts : List Tree) (p p' : Parser Float)
      → Apart (t ∷ ts) p
      → Entered pt (assigned pt t p) p'
      → Apart ts p'
  unfolding assigned
  entry-Apart t ts p p' (h, room) (ns, same, ids) =
      let named : Pair pt = (
        node_named pt (get_string t "Name.Master") "Master",
        node_named pt (get_string t "Name.Outstation") "Outstation",
      ) in
      let (p₁, pair₁) = read_assign_ip_addresses pt t (p, named) in
      let (p₂, pair₂) = read_assign_dnp3_addresses pt t (p₁, pair₁) in
      let known =
        read_assign_ip_addresses-part pt (λ q. q.local_dnp3_addrs) (λ q g k cs. refl) t p named in
      let more : 2 * length (t ∷ ts) ≡ suc (suc (2 * length ts)) = omega arith in
      let given =
        subst (λ l. AreApart (suc (suc (2 * length ts))) (dnp3_addrs p.nodes) l p₁.local_dnp3_addrs)
          (read_addresses-cons pt t ts)
          (subst
            (λ k.
              AreApart k (dnp3_addrs p.nodes) (read_addresses pt (t ∷ ts) []) p₁.local_dnp3_addrs)
            more
            (subst
              (λ l.
                AreApart (2 * length (t ∷ ts)) (dnp3_addrs p.nodes) (read_addresses pt (t ∷ ts) [])
                  l)
              (sym known) h)) in
      let assigned_apart =
        read_assign_dnp3_addresses-AreApart pt t p₁ pair₁ (2 * length ts) (dnp3_addrs p.nodes)
          (read_addresses pt ts []) (omega arith) given in
      let nodes : p₂.nodes ≡ p.nodes =
        read_assign_dnp3_addresses-part pt (λ q. q.nodes) (λ q known. refl) t p₁ pair₁
        ∙ read_assign_ip_addresses-part pt (λ q. q.nodes) (λ q g k cs. refl) t p named in
      let used : dnp3_addrs p'.nodes ≡ dnp3_addrs p.nodes ++ addresses_of pt pair₂ =
        ap (λ q. dnp3_addrs q.nodes) same
        ∙ dnp3_addrs-append p₂.nodes ns
        ∙ ap₂ (λ a b. a ++ b) (ap dnp3_addrs nodes)
            (same_addrs ns (nodes_of pt pair₂) ids ∙ sym (addresses_of-nodes pair₂)) in
      (
        subst (λ l. AreApart (2 * length ts) l (read_addresses pt ts []) p'.local_dnp3_addrs)
            (sym used)
            (subst
              (λ l.
                AreApart (2 * length ts) (dnp3_addrs p.nodes ++ addresses_of pt pair₂)
                  (read_addresses pt ts []) l)
              (sym (ap (λ q. q.local_dnp3_addrs) same)) assigned_apart),
        omega arith,
      )

  All-Has_self : (xs : List ℕ) → All (λ g. Has g xs) xs
  All-Has_self [] = tt
  All-Has_self (x ∷ xs) =
      (inl refl, All-of (λ g. Has g (x ∷ xs)) (λ g h. inr h) xs (All-Has_self xs))

  -- Let a file with at most 32500 entries give no DNP3 address twice, and none that is larger than
  -- 65535 less two for each entry. If it is read without an exception, the nodes have different DNP3
  -- addresses, those with an address from the file and those with one that the parser hands out.
  pub parse_config-Distinct :
      (t : Tree) (ts : List Tree) (p : Parser Float)
      → children t "Nodes" ≡ some ts
      → Distinct (read_addresses pt ts [])
      → All (λ x. x + 2 * length ts < 65536) (read_addresses pt ts [])
      → 2 * length ts ≤ 65000
      → parse_config pt t ≡ some p
      → Distinct (map (λ n. n.local_dnp3_addr) p.nodes)
  parse_config-Distinct t ts p listed once small room parsed =
      let nic = text_or_empty (get_string t "Virtual Interface") in
      let b = parse_config-Begins pt t p parsed in
      let same : b.entries ≡ ts = let e = b.listed in cc in
      let start : Apart ts (beginning pt nic b.generator (read_addresses pt ts [])) = (
        record {
          used_once = tt;
          given_once = once;
          apart = tt;
          used_known = tt;
          given_known = All-Has_self (read_addresses pt ts []);
          small = small;
        },
        room,
      ) in
      let (h, rest) =
        read_nodes-kept pt Apart entry-Apart ts
          (beginning pt nic b.generator (read_addresses pt ts [])) p start
          (subst
            (λ us.
              read_nodes pt us (beginning pt nic b.generator (read_addresses pt us [])) ≡ some p)
            same b.run) in
      h.used_once
