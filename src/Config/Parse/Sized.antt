-- ===== src/Config/Parse/Sized.antt =====
-- The nodes that the parser makes: their databases have room for all of their points.
use ics_trafficgen.Base.{
  String, List, [], ◌∷◌, Option, none, some, codes, ℤ, ◌≡◌, subst, All, All-append, Returns,
  Returns-any, Returns-then,
}
use ics_trafficgen.Node.{Node}
use ics_trafficgen.Cidr.{Octets, network_address}
use ics_trafficgen.Config.{PropTree, Parser}
use ics_trafficgen.Config.Addresses.{
  Pair, read_all_dnp3_addresses, read_assign_dnp3_addresses, read_assign_ip_addresses,
  assign_master_ip, assign_outstation_ip, connect_ip, generate_ip_address, generate_from,
  allocate_ip_address, choose_address, get_next_dnp3_address,
}
use ics_trafficgen.Config.DataSpecs.Sizes.{Covers}
use ics_trafficgen.Config.DataSpecs.Coverage.{Covers-IsKept}
use ics_trafficgen.Config.Parse.{
  node_named, push_node, finish_master, finish_outstation, read_node, read_nodes, with_generator,
  with_interface, parse_config, read_settings,
}
use ics_trafficgen.Config.Parse.Finishing.{finish_master-Still, finish_outstation-Still}
use ics_trafficgen.Config.Parse.Settings.{
  BothKeep, Still, Still-Returns, Returns-AreSet, Covers-IsSetting, new_node-Covers,
  on_node-Returns, read_settings-BothKeep,
}

module _ (pt : PropTree) where
  open pt use {Tree, Float, children, get_int, get_string}

  -- All nodes of the parser so far cover their points.
  abbrev Sized : Parser Float → Type 0
  Sized p = All Covers p.nodes

  generate_from_keeps :
      (g : Option Octets) (n : Node Float) (p : Parser Float)
      → Covers n
      → Sized p
      → Sized (generate_from g n p).0 × Covers (generate_from g n p).1
  unfolding generate_from allocate_ip_address
  generate_from_keeps none n p c s = (s, c)
  generate_from_keeps (some g) n p c s = (s, c)

  generate_ip_address_keeps :
      (n : Node Float) (p : Parser Float)
      → Covers n
      → Sized p
      → Sized (generate_ip_address n p).0 × Covers (generate_ip_address n p).1
  unfolding generate_ip_address
  generate_ip_address_keeps n p c s = generate_from_keeps p.cidr_generator n p c s

  assign_master_ip-Keeps :
      (ip : Option String) (p : Parser Float) (n : Option (Node Float))
      → Returns Covers n
      → Sized p
      → Sized (assign_master_ip pt ip p n).0 × Returns Covers (assign_master_ip pt ip p n).1
  unfolding assign_master_ip
  assign_master_ip-Keeps ip p none k s = (s, tt)
  assign_master_ip-Keeps (some a) p (some n) k s = (s, k)
  assign_master_ip-Keeps none p (some n) k s = generate_ip_address_keeps n p k s

  assign_outstation_ip_keeps :
      (ip : Option String) (p : Parser Float) (pair : Pair pt)
      → BothKeep pt (Returns Covers) (Returns Covers) pair
      → Sized p
      → Sized (assign_outstation_ip pt ip (p, pair)).0
        × BothKeep pt (Returns Covers) (Returns Covers) (assign_outstation_ip pt ip (p, pair)).1
  unfolding assign_outstation_ip
  assign_outstation_ip_keeps (some a) p (master, outstation) k s = (
    s,
    (
      on_node-Returns pt Covers _ master (λ n c. c) k.0,
      on_node-Returns pt Covers _ outstation (λ n c. c) k.1,
    ),
  )
  assign_outstation_ip_keeps none p (master, none) k s = (s, k)
  assign_outstation_ip_keeps none p (master, some n) k s =
      let r = generate_ip_address_keeps n p k.1 s in (r.0, (k.0, r.1))

  connect_ip-BothKeep :
      (pair : Pair pt)
      → BothKeep pt (Returns Covers) (Returns Covers) pair
      → BothKeep pt (Returns Covers) (Returns Covers) (connect_ip pt pair)
  connect_ip-BothKeep (some m, some o) k = k
  connect_ip-BothKeep (some m, none) k = k
  connect_ip-BothKeep (none, o) k = k

  read_assign_ip_addresses_keeps :
      (t : Tree) (p : Parser Float) (pair : Pair pt)
      → BothKeep pt (Returns Covers) (Returns Covers) pair
      → Sized p
      → Sized (read_assign_ip_addresses pt t (p, pair)).0
        × BothKeep pt (Returns Covers) (Returns Covers) (read_assign_ip_addresses pt t (p, pair)).1
  unfolding read_assign_ip_addresses
  read_assign_ip_addresses_keeps t p (master, outstation) k s =
      let m = assign_master_ip-Keeps (get_string t "IP Address.Master") p master k.0 s in
      let o =
        assign_outstation_ip_keeps (get_string t "IP Address.Outstation") _ (_, outstation)
          (m.1, k.1) m.0 in
      (o.0, connect_ip-BothKeep _ o.1)

  choose_address-Sized :
      (o : Option ℤ) (p : Parser Float) → Sized p → Sized (choose_address pt o p).0
  unfolding choose_address get_next_dnp3_address
  choose_address-Sized none p s = s
  choose_address-Sized (some a) p s = s

  read_assign_dnp3_addresses_keeps :
      (t : Tree) (p : Parser Float) (pair : Pair pt)
      → BothKeep pt (Returns Covers) (Returns Covers) pair
      → Sized p
      → Sized (read_assign_dnp3_addresses pt t (p, pair)).0
        × BothKeep pt
            (Returns Covers)
            (Returns Covers)
            (read_assign_dnp3_addresses pt t (p, pair)).1
  unfolding read_assign_dnp3_addresses
  read_assign_dnp3_addresses_keeps t p (master, outstation) k s = (
    choose_address-Sized (get_int t "DNP3 Address.Outstation") _
        (choose_address-Sized (get_int t "DNP3 Address.Master") p s),
    (
      on_node-Returns pt Covers _ master (λ n c. c) k.0,
      on_node-Returns pt Covers _ outstation (λ n c. c) k.1,
    ),
  )

  push_node-Sized :
      (n : Option (Node Float)) (p : Parser Float)
      → Returns Covers n
      → Sized p
      → Sized (push_node pt n p)
  push_node-Sized none p k s = s
  push_node-Sized (some n) p k s = All-append Covers p.nodes (n ∷ []) s (k, tt)

  node_named-Keeps : (o : Option String) (role : String) → Returns Covers (node_named pt o role)
  node_named-Keeps none role = tt
  node_named-Keeps (some name) role = new_node-Covers pt name role

  read_node-Sized : (t : Tree) (p : Parser Float) → Sized p → Returns Sized (read_node pt t p)
  unfolding read_node
  read_node-Sized t p s =
      let named : BothKeep pt (Returns Covers) (Returns Covers) (_, _) = (
        node_named-Keeps (get_string t "Name.Master") "Master",
        node_named-Keeps (get_string t "Name.Outstation") "Outstation",
      ) in
      let a = read_assign_ip_addresses_keeps t p _ named s in
      let d = read_assign_dnp3_addresses_keeps t _ _ a.1 a.0 in
      let set = Returns-AreSet pt Covers Covers-IsSetting in
      let k = read_settings-BothKeep pt (Returns Covers) (Returns Covers) set set t _ d.1 in
      let pair = read_settings pt t _ in
      Returns-then (Still pt Covers pair.0) Sized (finish_master pt t pair.0) _
        (finish_master-Still pt Covers (Covers-IsKept pt) t pair.0 k.0)
        (λ m km.
          Returns-then (Still pt Covers pair.1) Sized (finish_outstation pt t pair.1) _
            (finish_outstation-Still pt Covers (Covers-IsKept pt) t pair.1 k.1)
            (λ o ko.
              push_node-Sized o _ (Still-Returns pt Covers pair.1 o ko)
                (push_node-Sized m _ (Still-Returns pt Covers pair.0 m km) d.0)))

  read_nodes-Sized :
      (ts : List Tree) (p : Parser Float) → Sized p → Returns Sized (read_nodes pt ts p)
  unfolding read_nodes
  read_nodes-Sized [] p s = s
  read_nodes-Sized (t ∷ ts) p s =
      Returns-then Sized Sized (read_node pt t p) _ (read_node-Sized t p s)
        (λ p' s'. read_nodes-Sized ts p' s')

  network-Sized :
      (o : Option String) (p : Parser Float) → Sized p → Returns Sized (with_generator pt o p)
  network-Sized none p s = s
  network-Sized (some cidr) p s =
      Returns-then (λ a. Unit) Sized (network_address (codes cidr)) _ (Returns-any _) (λ a u. s)

  interface-Sized : (o : Option String) (p : Parser Float) → Sized p → Sized (with_interface pt o p)
  interface-Sized none p s = s
  interface-Sized (some nic) p s = s

  addresses-Sized :
      (t : Tree) (p : Parser Float) → Sized p → Returns Sized (read_all_dnp3_addresses pt t p)
  unfolding read_all_dnp3_addresses
  addresses-Sized t p s =
      Returns-then (λ ts. Unit) Sized (children t "Nodes") _ (Returns-any _) (λ ts u. s)

  parse_config-Returns : (t : Tree) → Returns Sized (parse_config pt t)
  unfolding parse_config
  parse_config-Returns t =
      Returns-then Sized Sized (with_generator pt _ _) _
        (network-Sized _ _ (interface-Sized (get_string t "Virtual Interface") _ tt))
        (λ p s.
          Returns-then Sized Sized (read_all_dnp3_addresses pt t p) _ (addresses-Sized t p s)
            (λ p' s'.
              Returns-then (λ ts. Unit) Sized (children t "Nodes") _ (Returns-any _)
                (λ ts u. read_nodes-Sized ts p' s')))

  -- Let a configuration be parsed without an exception, and without an index of 2147483647, at which
  -- `index + 1` overflows. In every node, each point of `data_points` and each mapped point of
  -- `data_sources` has an index that is negative or below the database size of its type, and the
  -- keys of `data_sources` ascend.
  pub parse_config-Covers :
      (t : Tree) (p : Parser Float) → parse_config pt t ≡ some p → All Covers p.nodes
  parse_config-Covers t p parsed = subst (Returns Sized) parsed (parse_config-Returns t)
