-- ===== src/Config/Parse/Plan.antt =====
-- The addresses and interfaces that a file plans for its nodes, entry by entry, and that an entry's
-- nodes are assigned them.
use ics_trafficgen.Base.{
  ℕ, ◌+◌, String, List, [], ◌∷◌, ◌++◌, Option, none, some, codes, ◌≡◌, refl, sym, ap, ap₂, ◌∙◌,
  subst, Returns,
}
use ics_trafficgen.Node.{Node, new_node}
use ics_trafficgen.Cidr.{Octets, get_next_ip_address}
use ics_trafficgen.Cidr.Sequence.{after_calls}
use ics_trafficgen.Config.{PropTree, Parser}
use ics_trafficgen.Config.Addresses.{
  Pair, read_assign_ip_addresses, assign_master_ip, assign_outstation_ip, connect_ip,
  generate_ip_address, generate_from, allocate_ip_address,
}
use ics_trafficgen.Config.Addresses.Aliases.{
  Net, net, nets, alias, HasAliases, nets-on_node, assign_master_ip-HasAliases,
}
use ics_trafficgen.Config.Parse.{node_named}

module _ (nic : String) (s : Octets) where
  -- What a node gets when `k` interfaces are given out, if the file names it, and how many are given
  -- out then: the file's address and no interface, or the next interface.
  abbrev pub planned : Option String → Option String → ℕ → List Net × ℕ
  planned none ip k = ([], k)
  planned (some name) (some a) k = ((codes a, []) ∷ [], k)
  planned (some name) none k = (alias nic s k ∷ [], k + 1)

  module _ (pt : PropTree) where
    open pt use {Tree, get_string}

    -- The same for the two nodes of an entry.
    abbrev pub entry_nets : Tree → ℕ → List Net × ℕ
    entry_nets t k =
        let m = planned (get_string t "Name.Master") (get_string t "IP Address.Master") k in
        let o =
          planned (get_string t "Name.Outstation") (get_string t "IP Address.Outstation") m.1 in
        (m.0 ++ o.0, o.1)

    -- The same for the nodes of all entries.
    abbrev pub file_nets : List Tree → ℕ → List Net
    file_nets [] k = []
    file_nets (t ∷ ts) k = (entry_nets t k).0 ++ file_nets ts (entry_nets t k).1

module _ {F : Type 0} (nic : String) (s : Octets) where
  abbrev Next : Parser F → Parser F × Node F → Type 0
  Next p r = (net r.1 ≡ alias nic s p.vnictrack) × (r.0.vnictrack ≡ p.vnictrack + 1)

  generate_ip_address-Next :
      (n : Node F) (p : Parser F) (ns : List Net)
      → HasAliases nic s p ns
      → Next p (generate_ip_address n p)
  unfolding generate_ip_address generate_from allocate_ip_address get_next_ip_address after_calls
  generate_ip_address-Next n p ns h =
      subst (λ g. Next p (generate_from g n p)) (sym h.generator) (rw h.card refl, refl)

module _ (pt : PropTree) (nic : String) (s : Octets) where
  open pt use {Tree, Float, get_string}

  pub node_named-bare :
      (o : Option String) (role : String) → Returns (λ n. n.vnic ≡ []) (node_named pt o role)
  unfolding new_node
  node_named-bare none role = tt
  node_named-bare (some name) role = refl

  assign_master_ip-planned :
      (name ip : Option String) (p : Parser Float) (ns : List Net)
      → HasAliases nic s p ns
      → let r = assign_master_ip pt ip p (node_named pt name "Master") in
        (nets r.1 ≡ (planned nic s name ip p.vnictrack).0)
        × (r.0.vnictrack ≡ (planned nic s name ip p.vnictrack).1)
  unfolding assign_master_ip new_node
  assign_master_ip-planned none ip p ns h = (refl, refl)
  assign_master_ip-planned (some name) (some a) p ns h = (refl, refl)
  assign_master_ip-planned (some name) none p ns h =
      let g = generate_ip_address-Next nic s (new_node name "Master") p ns h in
      (ap (λ i. i ∷ []) g.0, g.1)

  assign_outstation_ip-planned :
      (name ip : Option String) (p : Parser Float) (m : Option (Node Float)) (ns : List Net)
      → HasAliases nic s p ns
      → let r = assign_outstation_ip pt ip (p, (m, node_named pt name "Outstation")) in
        (nets r.1.0 ≡ nets m)
        × (nets r.1.1 ≡ (planned nic s name ip p.vnictrack).0)
        × (r.0.vnictrack ≡ (planned nic s name ip p.vnictrack).1)
  unfolding assign_outstation_ip new_node
  assign_outstation_ip-planned none (some a) p m ns h =
      (nets-on_node pt nic s _ m (λ n. refl), refl, refl)
  assign_outstation_ip-planned none none p m ns h = (refl, refl, refl)
  assign_outstation_ip-planned (some name) (some a) p m ns h =
      (nets-on_node pt nic s _ m (λ n. refl), refl, refl)
  assign_outstation_ip-planned (some name) none p m ns h =
      let g = generate_ip_address-Next nic s (new_node name "Outstation") p ns h in
      (refl, ap (λ i. i ∷ []) g.0, g.1)

  connect_ip-planned :
      (pair : Pair pt)
      → nets (connect_ip pt pair).0 ++ nets (connect_ip pt pair).1 ≡ nets pair.0 ++ nets pair.1
  connect_ip-planned (some m, some o) = refl
  connect_ip-planned (some m, none) = refl
  connect_ip-planned (none, o) = refl

  -- An entry's nodes are assigned what it plans for them.
  pub read_assign_ip_addresses-planned :
      (t : Tree) (p : Parser Float) (ns : List Net)
      → HasAliases nic s p ns
      → let r = read_assign_ip_addresses pt t (
        p,
        (
          node_named pt (get_string t "Name.Master") "Master",
          node_named pt (get_string t "Name.Outstation") "Outstation",
        ),
      ) in
        (nets r.1.0 ++ nets r.1.1 ≡ (entry_nets nic s pt t p.vnictrack).0)
        × (r.0.vnictrack ≡ (entry_nets nic s pt t p.vnictrack).1)
  unfolding read_assign_ip_addresses
  read_assign_ip_addresses-planned t p ns h =
      let name = get_string t "Name.Master" in
      let named = node_named pt name "Master" in
      let ip = get_string t "IP Address.Master" in
      let name' = get_string t "Name.Outstation" in
      let ip' = get_string t "IP Address.Outstation" in
      let (p₁, m) = assign_master_ip pt ip p named in
      let first = assign_master_ip-planned name ip p ns h in
      let h₁ : HasAliases nic s p₁ (ns ++ nets m) =
        assign_master_ip-HasAliases pt nic s ip p named ns (node_named-bare name "Master") h in
      let second = assign_outstation_ip-planned name' ip' p₁ m _ h₁ in
      let pair = (assign_outstation_ip pt ip' (p₁, (m, node_named pt name' "Outstation"))).1 in
      (
        connect_ip-planned pair
            ∙ ap₂ (λ a b. a ++ b) (second.0 ∙ first.0)
                (second.1 ∙ ap (λ k. (planned nic s name' ip' k).0) first.1),
        second.2 ∙ ap (λ k. (planned nic s name' ip' k).1) first.1,
      )
