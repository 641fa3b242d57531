-- ===== src/Tests/Parsed.antt =====
-- Theorems on the whole program, at a file with one mapping outstation.
use ics_trafficgen.Base.{false}
use ics_trafficgen.Station.{no_class}
use ics_trafficgen.Station.Database.{Database, PointConfig, configure_database}
use ics_trafficgen.Base.{
  ℕ, ◌==◌, ◌&&◌, String, List, [], ◌∷◌, Option, some, none, ℤ, pos, str_eq, if◌then◌else◌, set,
  refl, ◌≡◌, arith,
}
use ics_trafficgen.Points.{grow}
use ics_trafficgen.Node.{Node, new_node, new_data_point}
use ics_trafficgen.Mapping.{MappingOutstation}
use ics_trafficgen.Mapping.Arrays.{source_sizes, start}
use ics_trafficgen.Mapping.Passing.{pass_thru_data_changes}
use ics_trafficgen.Mapping.Emission.{report}
use ics_trafficgen.Config.{PropTree, Parser}
use ics_trafficgen.Config.Parse.{no_nodes, parse_config}
use ics_trafficgen.Config.Addresses.{
  read_all_dnp3_addresses, read_assign_ip_addresses, read_addresses, choose_address,
  assign_master_ip, assign_outstation_ip, allocate_ip_address, generate_from, generate_ip_address,
  get_next_dnp3_address, read_assign_dnp3_addresses,
}
use ics_trafficgen.Config.Parse.{
  read_nodes, read_node, finish_master, read_settings, finish_outstation,
}
use ics_trafficgen.Config.Readers.{
  read_lua_file_key_switch, read_lua_file_names, read_sleep_times, read_unsolicited, read_ip_ports,
  read_polling_specs, read_bound_outstations, read_event_buffer_specs,
}
use ics_trafficgen.Config.DataSpecs.{
  read_data_generation_specs, read_points, read_data_point, read_mapped_data_generation_specs,
  set_buffers, push_point, add_point, read_sources, read_mapped_points,
}
use ics_trafficgen.App.{launch_master}
use ics_trafficgen.App.{launch_all, no_stations, mapping_station, launch, launch_outstation}
use ics_trafficgen.System.{System, Step, starts, launched, next}
use ics_trafficgen.System.Configured.{configured-is_safe}
use ics_trafficgen.Tests.Numbers.{doubles}
use ics_trafficgen.Tests.Stations.{station}

abbrev pub string_at : ℕ → String → Option String
string_at t path =
    if t == 1 && str_eq path "Name.Outstation"
    then some "station"
    else if t == 2 && str_eq path "Source"
    then some "plc"
    else if t == 3 && str_eq path "Type"
    then some "Analog Input"
    else none

abbrev pub int_at : ℕ → String → Option ℤ
int_at t path =
    if t == 3 && str_eq path "InputIndex"
    then some (pos 0)
    else if t == 3
    then some (pos 1)
    else none

abbrev pub children_at : ℕ → String → Option (List ℕ)
children_at t path =
    if t == 0 && str_eq path "Nodes"
    then some (1 ∷ [])
    else if t == 1 && str_eq path "Data Sources"
    then some (2 ∷ [])
    else if t == 2 && str_eq path "Mapped Data"
    then some (3 ∷ [])
    else none

-- A file with one outstation, which takes input 0 of "plc" for its point 1.
abbrev pub file : PropTree
file = record {
  Tree = ℕ;
  Float = ℕ;
  zero_float = 0;
  children = children_at;
  get_int = int_at;
  get_bool = λ t path. none;
  get_string = string_at;
  get_float = λ t path. none;
  own_string = λ t. "";
  micros_of = λ f. pos f;
}

abbrev pub parsed : Parser ℕ
parsed = elim (parse_config file 0) [ none ↦ no_nodes file | some p ↦ p ]

-- The outstation of the file, as it is launched.
abbrev pub first_station : MappingOutstation ℕ
first_station = elim (launch_all {D = ℕ} parsed.nodes no_stations).mapped_out_stations [
  | [] ↦ station
  | m ∷ ms ↦ m
]

abbrev up : System ℕ
up = record { outstations = start doubles first_station ∷ []; running = 0 ∷ [] }

configured-is_safe_example :
    (m : MappingOutstation ℕ) × (pass_thru_data_changes doubles (start doubles first_station)
      ≡ some (
        m,
        report doubles (start doubles first_station) (start doubles first_station).data_sources,
      ))
    × Step doubles up (record up { outstations = set up.outstations 0 m })
unfolding parse_config read_all_dnp3_addresses read_assign_ip_addresses read_addresses
    choose_address assign_master_ip assign_outstation_ip allocate_ip_address generate_from
    generate_ip_address read_nodes read_node finish_master read_settings finish_outstation
    read_lua_file_key_switch read_lua_file_names read_sleep_times read_unsolicited read_ip_ports
    read_polling_specs read_bound_outstations read_event_buffer_specs read_data_generation_specs
    read_points read_data_point read_mapped_data_generation_specs set_buffers new_data_point grow
    read_assign_dnp3_addresses get_next_dnp3_address push_point add_point new_node read_sources
    read_mapped_points launch_all launch launch_outstation launch_master mapping_station
    source_sizes
configured-is_safe_example =
    configured-is_safe doubles file 0 parsed up 0 (start doubles first_station) refl
      (((omega arith, tt), tt), tt) (next launched (starts 0 first_station refl refl)) refl refl

-- The node of the file.
abbrev pub first_node : Node ℕ
first_node = elim parsed.nodes [ [] ↦ new_node "station" "Outstation" | n ∷ ns ↦ n ]

abbrev pub unset : PointConfig
unset = record {
  svariation = record { group = 30; number = 1 };
  clazz = no_class;
  evariation = record { group = 32; number = 1 };
}

abbrev pub database : Database ℕ
database = record {
  analog = unset ∷ unset ∷ [];
  deadband = 0 ∷ 0 ∷ [];
  binary = [];
  double_binary = [];
  counter = [];
  frozen_counter = [];
  dp_type_index_map = [];
}

abbrev pub database_set : Database ℕ
database_set = elim (configure_database (λ x. false) first_node.data_points database) [
  | none ↦ database
  | some db ↦ db
]
