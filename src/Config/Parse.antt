-- ===== src/Config/Parse.antt =====
-- CfgJsonParser.cpp: the constructor, which makes the nodes of a whole configuration.
pub mod Settings
pub mod Finishing
pub mod Identity
pub mod Apart
pub mod Plan
pub mod Aliases
pub mod Sized
pub mod Pairs
use ics_trafficgen.Base.{String, List, [], ◌∷◌, ◌++◌, Option, none, some, codes, ◌>>=◌}
use ics_trafficgen.Node.{Node, new_node}
use ics_trafficgen.Cidr.{network_address}
use ics_trafficgen.Config.{PropTree, Parser}
use ics_trafficgen.Config.Addresses.{
  Pair, read_all_dnp3_addresses, read_assign_dnp3_addresses, read_assign_ip_addresses,
}
use ics_trafficgen.Config.Readers.{
  read_unsolicited, read_ip_ports, read_sleep_times, read_lua_file_names, read_lua_file_key_switch,
  read_polling_specs, read_bound_outstations, read_event_buffer_specs,
}
use ics_trafficgen.Config.DataSpecs.{read_data_generation_specs, read_mapped_data_generation_specs}

module _ (pt : PropTree) where
  open pt use {Tree, Float, children, get_string}

  abbrev pub node_named : Option String → String → Option (Node Float)
  node_named none role = none
  node_named (some name) role = some (new_node name role)

  abbrev pub push_node : Option (Node Float) → Parser Float → Parser Float
  push_node none p = p
  push_node (some n) p = record p { nodes = p.nodes ++ n ∷ [] }

  -- what only a master has
  unfoldable pub finish_master : Tree → Option (Node Float) → Option (Option (Node Float))
  finish_master t none = some none
  finish_master t (some n) = do
    n' ← read_polling_specs pt t n
    some (some (read_bound_outstations pt t n'))

  -- what only an outstation has
  unfoldable pub finish_outstation : Tree → Option (Node Float) → Option (Option (Node Float))
  finish_outstation t none = some none
  finish_outstation t (some n) = do
    n₁ ← read_data_generation_specs pt t n
    n₂ ← read_mapped_data_generation_specs pt t n₁
    n₃ ← read_event_buffer_specs pt t n₂
    some (some n₃)

  -- the settings that the two nodes share a tree for
  unfoldable pub read_settings : Tree → Pair pt → Pair pt
  read_settings t pair = read_lua_file_key_switch pt t (
      read_lua_file_names pt t
        (read_sleep_times pt t (read_unsolicited pt t (read_ip_ports pt t pair))))

  -- one round of the loop over "Nodes"
  unfoldable pub read_node : Tree → Parser Float → Option (Parser Float)
  read_node t p =
      let master = node_named (get_string t "Name.Master") "Master" in
      let outstation = node_named (get_string t "Name.Outstation") "Outstation" in
      let (p₁, pair) =
        read_assign_dnp3_addresses pt t (read_assign_ip_addresses pt t (p, (master, outstation))) in
      let (master₁, outstation₁) = read_settings t pair in
      finish_master t master₁ >>= λ m.
      finish_outstation t outstation₁ >>= λ o. some (push_node o (push_node m p₁))

  unfoldable pub read_nodes : List Tree → Parser Float → Option (Parser Float)
  read_nodes [] p = some p
  read_nodes (t ∷ ts) p = do p' ← read_node t p; read_nodes ts p'

  abbrev pub no_nodes : Parser Float
  no_nodes = record {
    nodes = [];
    virtual_network_interface_card = "";
    cidr_generator = none;
    local_dnp3_addrs = [];
    vnictrack = 0;
    commands = [];
  }

  abbrev pub with_interface : Option String → Parser Float → Parser Float
  with_interface none p = p
  with_interface (some nic) p = record p { virtual_network_interface_card = nic }

  abbrev pub with_generator : Option String → Parser Float → Option (Parser Float)
  with_generator none p = some p
  with_generator (some cidr) p = do
    a ← network_address (codes cidr)
    some (record p { cidr_generator = some a })

  -- the constructor, on the tree of the file
  unfoldable pub parse_config : Tree → Option (Parser Float)
  parse_config t = do
    p ←
        with_generator (get_string t "CIDR Notation")
          (with_interface (get_string t "Virtual Interface") no_nodes)
    p' ← read_all_dnp3_addresses pt t p
    nodes ← children t "Nodes"
    read_nodes nodes p'
