-- ===== src/Config/Parse/Aliases.antt =====
-- The network interfaces and generated IP addresses of the nodes of a whole file.
use ics_trafficgen.Base.{
  ℕ, ◌+◌, ◌≤◌, String, List, [], ◌∷◌, ◌++◌, map, Option, none, some, is_empty, filterb, ◌≡◌, refl,
  sym, ap, ap₂, ◌∙◌, subst, Bool-cases, inl, inr, append_assoc, append-nil, Distinct,
}
use ics_trafficgen.Node.{Node, destroy_command}
use ics_trafficgen.Cidr.{Octets}
use ics_trafficgen.Cidr.Sequence.{after_calls, rank, address_count}
use ics_trafficgen.Config.{PropTree, Parser}
use ics_trafficgen.Config.Addresses.{
  Pair, read_addresses, read_assign_ip_addresses, read_assign_dnp3_addresses,
}
use ics_trafficgen.Config.Addresses.Aliases.{
  net, nets, has_vnic, up, down, aliases, HasAliases, same_parts, read_assign_dnp3_addresses-nets,
  read_assign_ip_addresses-HasAliases, read_assign_dnp3_addresses-HasAliases,
}
use ics_trafficgen.Config.Addresses.Aliases.Distinct.{aliases-Distinct}
use ics_trafficgen.Config.Addresses.Kept.{
  read_assign_ip_addresses-part, read_assign_dnp3_addresses-part,
}
use ics_trafficgen.Config.Parse.Plan.{
  entry_nets, file_nets, node_named-bare, read_assign_ip_addresses-planned,
}
use ics_trafficgen.Config.Parse.{node_named, read_nodes, parse_config}
use ics_trafficgen.Config.Parse.Identity.{identity, Entered, nodes_of, assigned}
use ics_trafficgen.Config.Parse.Identity.Whole.{
  beginning, generator_of, text_or_empty, parse_config-Begins, read_nodes-kept,
}

abbrev pub if_up : Option (List ℕ) → List (List ℕ) → List (List ℕ)
if_up none cs = cs
if_up (some c) cs = c ∷ cs

module _ {F : Type 0} where
  map-identity : (ns : List (Node F)) → map (λ i. (i.1, i.2)) (map identity ns) ≡ map net ns
  map-identity [] = refl
  map-identity (n ∷ ns) = ap (◌∷◌ (net n)) (map-identity ns)

  map-net-append : (ns ms : List (Node F)) → map net (ns ++ ms) ≡ map net ns ++ map net ms
  map-net-append [] ms = refl
  map-net-append (n ∷ ns) ms = ap (◌∷◌ (net n)) (map-net-append ns ms)

  -- The commands of the destructors of the nodes, in the order of the nodes.
  abbrev pub destroy_all : List (Node F) → List (List ℕ)
  destroy_all [] = []
  destroy_all (n ∷ ns) = if_up (destroy_command n) (destroy_all ns)

  -- The interfaces of the nodes are those that the destructors bring down.
  destroy_all-down :
      (ns : List (Node F)) → destroy_all ns ≡ map down (filterb has_vnic (map net ns))
  unfolding destroy_command
  destroy_all-down [] = refl
  destroy_all-down (n ∷ ns) = elim (Bool-cases (is_empty n.vnic)) [
    | inl bare ↦ rw bare (destroy_all-down ns)
    | inr named ↦ rw named (ap (◌∷◌ (down (net n))) (destroy_all-down ns))
  ]

module _ (pt : PropTree) where
  open pt use {Tree, Float, children, get_string}

  nets_of-nodes : (pair : Pair pt) → map net (nodes_of pt pair) ≡ nets pair.0 ++ nets pair.1
  nets_of-nodes (some m, some o) = refl
  nets_of-nodes (some m, none) = refl
  nets_of-nodes (none, some o) = refl
  nets_of-nodes (none, none) = refl

  module _ (nic : String) (s : Octets) (all : List Tree) where
    -- The nodes so far have the interfaces given out so far; and with what is planned for the entries
    -- still to read, they have what the file plans.
    abbrev AllAliased : List Tree → Parser Float → Type 0
    AllAliased ts p =
        HasAliases nic s p (map net p.nodes)
        × (map net p.nodes ++ file_nets nic s pt ts p.vnictrack ≡ file_nets nic s pt all 0)

    entry-AllAliased :
        (t : Tree) (ts : List Tree) (p p' : Parser Float)
        → AllAliased (t ∷ ts) p
        → Entered pt (assigned pt t p) p'
        → AllAliased ts p'
    unfolding assigned
    entry-AllAliased t ts p p' (h, plan) (ns, same, ids) =
        let named : Pair pt = (
          node_named pt (get_string t "Name.Master") "Master",
          node_named pt (get_string t "Name.Outstation") "Outstation",
        ) in
        let (p₁, pair₁) = read_assign_ip_addresses pt t (p, named) in
        let (p₂, pair₂) = read_assign_dnp3_addresses pt t (p₁, pair₁) in
        let given = read_assign_dnp3_addresses-HasAliases pt nic s t p₁ pair₁ (map net p.nodes) (
          read_assign_ip_addresses-HasAliases pt nic s t p named.0 named.1 (map net p.nodes)
            (node_named-bare pt nic s (get_string t "Name.Master") "Master")
            (node_named-bare pt nic s (get_string t "Name.Outstation") "Outstation") h) in
        let nodes : p₂.nodes ≡ p.nodes =
          read_assign_dnp3_addresses-part pt (λ q. q.nodes) (λ q known. refl) t p₁ pair₁
          ∙ read_assign_ip_addresses-part pt (λ q. q.nodes) (λ q g k cs. refl) t p named in
        let new : map net ns ≡ nets pair₂.0 ++ nets pair₂.1 =
          sym (map-identity ns)
          ∙ ap (map (λ i. (i.1, i.2))) ids
          ∙ map-identity (nodes_of pt pair₂)
          ∙ nets_of-nodes pair₂ in
        let assigned_nets = read_assign_ip_addresses-planned pt nic s t p (map net p.nodes) h in
        let as_planned : nets pair₂.0 ++ nets pair₂.1 ≡ (entry_nets nic s pt t p.vnictrack).0 =
          read_assign_dnp3_addresses-nets pt nic s t p₁ pair₁ ∙ assigned_nets.0 in
        let count : p'.vnictrack ≡ (entry_nets nic s pt t p.vnictrack).1 =
          ap (λ q. q.vnictrack) same
          ∙ read_assign_dnp3_addresses-part pt (λ q. q.vnictrack) (λ q k. refl) t p₁ pair₁
          ∙ assigned_nets.1 in
        let after : map net p'.nodes ≡ (map net p.nodes ++ nets pair₂.0) ++ nets pair₂.1 =
          ap (λ q. map net q.nodes) same
          ∙ map-net-append p₂.nodes ns
          ∙ ap₂ (λ a b. map net a ++ b) nodes new
          ∙ sym (append_assoc (map net p.nodes) (nets pair₂.0) (nets pair₂.1)) in
        (
          same_parts pt nic s p₂ p' _ _ (ap (λ q. q.virtual_network_interface_card) same)
              (ap (λ q. q.cidr_generator) same) (ap (λ q. q.vnictrack) same)
              (ap (λ q. q.commands) same) after given,
          ap₂ (λ a k. a ++ file_nets nic s pt ts k) after count
              ∙ ap (λ a. a ++ file_nets nic s pt ts (entry_nets nic s pt t p.vnictrack).1)
                  (append_assoc (map net p.nodes) (nets pair₂.0) (nets pair₂.1)
                    ∙ ap (λ a. map net p.nodes ++ a) as_planned)
              ∙ append_assoc (map net p.nodes) (entry_nets nic s pt t p.vnictrack).0 _
              ∙ plan,
        )

  pub parse_config-aliases :
      (t : Tree) (ts : List Tree) (p : Parser Float) (nic : String) (s : Octets)
      → children t "Nodes" ≡ some ts
      → get_string t "Virtual Interface" ≡ some nic
      → generator_of (get_string t "CIDR Notation") ≡ some (some s)
      → parse_config pt t ≡ some p
      → (map net p.nodes ≡ file_nets nic s pt ts 0)
        × (filterb has_vnic (map net p.nodes) ≡ aliases nic s p.vnictrack)
        × (p.commands ≡ map up (aliases nic s p.vnictrack))
        × (destroy_all p.nodes ≡ map down (aliases nic s p.vnictrack))
  parse_config-aliases t ts p nic s given card network parsed =
      let b = parse_config-Begins pt t p parsed in
      let named : text_or_empty (get_string t "Virtual Interface") ≡ nic = ap text_or_empty card in
      let same : b.generator ≡ some s = let e = b.generates in cc in
      let start : HasAliases nic s (beginning pt nic (some s) (read_addresses pt b.entries [])) [] =
        record {
          card = refl;
          generator = unfold after_calls in refl;
          interfaces = refl;
          brought_up = refl;
        } in
      let listed : b.entries ≡ ts = let e = b.listed in cc in
      let (h, plan) =
        read_nodes-kept pt (AllAliased nic s b.entries) (entry-AllAliased nic s b.entries) b.entries
          (beginning pt nic (some s) (read_addresses pt b.entries [])) p (start, refl)
          (subst
            (λ g.
              read_nodes pt b.entries (beginning pt nic g (read_addresses pt b.entries []))
              ≡ some p)
            same
            (subst
              (λ c.
                read_nodes pt b.entries
                  (beginning pt c b.generator (read_addresses pt b.entries []))
                ≡ some p)
              named b.run)) in
      (
        sym (append-nil (map net p.nodes)) ∙ plan ∙ ap (λ us. file_nets nic s pt us 0) listed,
        h.interfaces,
        h.brought_up,
        destroy_all-down p.nodes ∙ ap (map down) h.interfaces,
      )

  -- Let a file name an interface card and a network whose last octet is 0 and whose second and third
  -- octets are at most 254. If it is read without an exception, and the addresses generated do not go
  -- past 254.254.254.254, then they differ from one another.
  pub parse_config-ips_differ :
      (t : Tree) (p : Parser Float) (nic : String) (s : Octets)
      → get_string t "Virtual Interface" ≡ some nic
      → generator_of (get_string t "CIDR Notation") ≡ some (some s)
      → s.b ≤ 254
      → s.c ≤ 254
      → s.d ≡ 0
      → rank s + p.vnictrack ≤ address_count
      → parse_config pt t ≡ some p
      → Distinct (map (λ i. i.0) (filterb has_vnic (map net p.nodes)))
  parse_config-ips_differ t p nic s card network hb hc hd room parsed =
      let b = parse_config-Begins pt t p parsed in
      subst (λ l. Distinct (map (λ i. i.0) l))
        (sym (parse_config-aliases t b.entries p nic s b.listed card network parsed).1)
        (aliases-Distinct nic s hb hc hd p.vnictrack room)
