-- ===== src/Tests/Networks.antt =====
-- Theorems on the addresses of a configuration, at a file with two pairs of a master and an
-- outstation, of which one outstation has its addresses from the file.
use ics_trafficgen.Base.{
  ℕ, ◌==◌, ◌&&◌, String, [], ◌∷◌, map, Option, none, some, pos, str_eq, if◌then◌else◌, filterb,
  refl, arith, Distinct,
}
use ics_trafficgen.Cidr.{
  Octets, network_address, get_next_ip_address, set_bits, set_bit, read_int, ends,
}
use ics_trafficgen.Decimal.{scan}
use ics_trafficgen.StringUtilities.{split}
use ics_trafficgen.Config.{PropTree, Parser}
use ics_trafficgen.Config.Addresses.{
  read_all_dnp3_addresses, read_assign_ip_addresses, read_assign_dnp3_addresses, read_addresses,
  choose_address, assign_master_ip, assign_outstation_ip, allocate_ip_address, generate_from,
  generate_ip_address, get_next_dnp3_address,
}
use ics_trafficgen.Config.Addresses.Aliases.{net, has_vnic}
use ics_trafficgen.Config.Parse.{
  no_nodes, parse_config, read_nodes, read_node, finish_master, read_settings, finish_outstation,
}
use ics_trafficgen.Config.Parse.Apart.{parse_config-Distinct}
use ics_trafficgen.Config.Parse.Aliases.{parse_config-ips_differ}
use ics_trafficgen.Config.Readers.{
  read_lua_file_key_switch, read_lua_file_names, read_sleep_times, read_unsolicited, read_ip_ports,
  read_polling_specs, read_bound_outstations, read_event_buffer_specs,
}
use ics_trafficgen.Config.DataSpecs.{read_data_generation_specs, read_mapped_data_generation_specs}

abbrev pub string_at : ℕ → String → Option String
string_at t path =
    if t == 0 && str_eq path "CIDR Notation"
    then some "10.0.0.0/24"
    else if t == 0 && str_eq path "Virtual Interface"
    then some "eth0"
    else if str_eq path "Name.Master"
    then some "master"
    else if str_eq path "Name.Outstation"
    then some "outstation"
    else if t == 2 && str_eq path "IP Address.Outstation"
    then some "10.1.1.1"
    else none

-- Tree 0 is the file, and 1 and 2 are its entries of "Nodes".
abbrev pub file : PropTree
file = record {
  Tree = ℕ;
  Float = ℕ;
  zero_float = 0;
  children = λ t path. if t == 0 && str_eq path "Nodes" then some (1 ∷ 2 ∷ []) else none;
  get_int =
      λ t path. if t == 2 && str_eq path "DNP3 Address.Outstation" then some (pos 100) else none;
  get_bool = λ t path. none;
  get_string = string_at;
  get_float = λ t path. none;
  own_string = λ t. "";
  micros_of = λ f. pos f;
}

-- The parser that reads the file.
abbrev parsed : Parser ℕ
parsed = elim (parse_config file 0) [ none ↦ no_nodes file | some p ↦ p ]

abbrev network : Octets
network = record { a = 10; b = 0; c = 0; d = 0 }

parse_config-Distinct_example : Distinct (map (λ n. n.local_dnp3_addr) parsed.nodes)
unfolding parse_config read_all_dnp3_addresses read_addresses network_address ends split read_int
    scan set_bits set_bit read_nodes read_node read_assign_ip_addresses assign_master_ip
    assign_outstation_ip generate_ip_address generate_from get_next_ip_address allocate_ip_address
    read_assign_dnp3_addresses choose_address get_next_dnp3_address read_settings read_ip_ports
    read_unsolicited read_sleep_times read_lua_file_names read_lua_file_key_switch finish_master
    finish_outstation read_polling_specs read_bound_outstations read_data_generation_specs
    read_mapped_data_generation_specs read_event_buffer_specs
parse_config-Distinct_example =
    parse_config-Distinct file 0 (1 ∷ 2 ∷ []) parsed refl (tt, tt) (omega arith, tt) (omega arith)
      refl

parse_config-ips_differ_example :
    Distinct (map (λ i. i.0) (filterb has_vnic (map net parsed.nodes)))
unfolding parse_config read_all_dnp3_addresses read_addresses network_address ends split read_int
    scan set_bits set_bit read_nodes read_node read_assign_ip_addresses assign_master_ip
    assign_outstation_ip generate_ip_address generate_from get_next_ip_address allocate_ip_address
    read_assign_dnp3_addresses choose_address get_next_dnp3_address read_settings read_ip_ports
    read_unsolicited read_sleep_times read_lua_file_names read_lua_file_key_switch finish_master
    finish_outstation read_polling_specs read_bound_outstations read_data_generation_specs
    read_mapped_data_generation_specs read_event_buffer_specs
parse_config-ips_differ_example =
    parse_config-ips_differ file 0 parsed "eth0" network refl refl (omega arith) (omega arith) refl
      (omega arith) refl
