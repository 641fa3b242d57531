-- ===== src/Tests/Files.antt =====
-- Theorems on configurations, at a file with a master and an outstation that has one point.
use ics_trafficgen.Base.{get_elem?, ltb}
use ics_trafficgen.Config.Parse.Pairs.File.{ArePairs, parse_config-ArePairs}
use ics_trafficgen.Base.{true}
use ics_trafficgen.Tests.Numbers.{doubles}
use ics_trafficgen.OutStation.{GeneratedData, stack_config}
use ics_trafficgen.OutStation.Generation.{IsSmall, IsView, Reports, run-Reports}
use ics_trafficgen.Base.{
  ℕ, ◌==◌, ◌&&◌, String, List, [], ◌∷◌, Option, some, none, false, ℤ, pos, str_eq, if◌then◌else◌,
  refl, ◌≡◌, inl, All, arith, to_u16, Succeeds, replicate,
}
use ics_trafficgen.Node.{Node, new_node}
use ics_trafficgen.Config.{PropTree, Parser}
use ics_trafficgen.Config.Addresses.{get_next_dnp3_address, read_assign_dnp3_addresses}
use ics_trafficgen.Config.Addresses.Fresh.{get_next_dnp3_address-wraps}
use ics_trafficgen.Config.DataSpecs.Sizes.{Covers}
use ics_trafficgen.Config.Parse.{no_nodes, parse_config}
use ics_trafficgen.Points.{DataPoint}
use ics_trafficgen.Config.Parse.Settings.{new_node-Covers}
use ics_trafficgen.Config.DataSpecs.{push_point, add_point}
use ics_trafficgen.Config.DataSpecs.Sizes.{add_point-Covers}
use ics_trafficgen.Station.{no_class}
use ics_trafficgen.Config.Parse.Sized.{parse_config-Covers}
use ics_trafficgen.Station.Database.{
  Database, PointConfig, configure_database, configure_as, input_type, note_index,
}
use ics_trafficgen.Station.Database.Entries.{entry_in, vectors, configure_database_lem}
use ics_trafficgen.Station.{class2, variation, point_class}
use ics_trafficgen.Station.Database.Total.{HasSizes, configure_database-HasSizes}
use ics_trafficgen.Config.Addresses.{
  read_all_dnp3_addresses, read_assign_ip_addresses, read_addresses, choose_address,
  assign_master_ip, assign_outstation_ip, allocate_ip_address, generate_from, generate_ip_address,
}
use ics_trafficgen.Config.Parse.{
  read_nodes, read_node, finish_master, read_settings, finish_outstation,
}
use ics_trafficgen.Config.Readers.{
  read_lua_file_key_switch, read_lua_file_names, read_sleep_times, read_unsolicited, read_ip_ports,
  read_polling_specs, read_bound_outstations, read_event_buffer_specs,
}
use ics_trafficgen.Config.DataSpecs.{
  read_data_generation_specs, read_points, read_data_point, read_mapped_data_generation_specs,
  set_buffers,
}
use ics_trafficgen.Node.{new_data_point}
use ics_trafficgen.Points.{grow}

abbrev string_at : ℕ → String → Option String
string_at t path =
    if t == 1 && str_eq path "Name.Master"
    then some "master"
    else if t == 1 && str_eq path "Name.Outstation"
    then some "outstation"
    else if t == 2 && str_eq path "Type"
    then some "Analog Input"
    else none

abbrev int_at : ℕ → String → Option ℤ
int_at t path =
    if t == 2 && (str_eq path "Index") then some (pos 4) else if t == 2 then some (pos 1) else none

abbrev children_at : ℕ → String → Option (List ℕ)
children_at t path =
    if t == 0 && str_eq path "Nodes"
    then some (1 ∷ [])
    else if t == 1 && str_eq path "Data"
    then some (2 ∷ [])
    else none

-- Tree 0 is the file, 1 its one entry of "Nodes", and 2 the one point of that entry.
abbrev file : PropTree
file = record {
  Tree = ℕ;
  Float = ℕ;
  zero_float = 0;
  children = children_at;
  get_int = int_at;
  get_bool = λ t path. none;
  get_string = string_at;
  get_float = λ t path. none;
  own_string = λ t. "";
  micros_of = λ f. pos f;
}

abbrev known : List ℕ → Parser ℕ
known addrs = record (no_nodes file) { local_dnp3_addrs = addrs }

get_next_dnp3_address-wraps_example :
    let (p, a) = get_next_dnp3_address (known (65535 ∷ [])) in
    (to_u16 (pos a) ≡ 0) × (p.local_dnp3_addrs ≡ 65535 ∷ 0 ∷ [])
get_next_dnp3_address-wraps_example =
    get_next_dnp3_address-wraps (known (65535 ∷ [])) (inl refl) (omega arith, tt)

abbrev master : Node ℕ
master = new_node "master" "Master"

abbrev outstation : Node ℕ
outstation = new_node "outstation" "Outstation"

-- The parser that reads the file.
abbrev parsed : Parser ℕ
parsed = elim (parse_config file 0) [ none ↦ no_nodes file | some p ↦ p ]

parse_config-Covers_example : All Covers parsed.nodes
unfolding parse_config read_all_dnp3_addresses read_assign_ip_addresses read_addresses
    choose_address assign_master_ip assign_outstation_ip allocate_ip_address generate_from
    generate_ip_address read_nodes read_node finish_master read_settings finish_outstation
    read_lua_file_key_switch read_lua_file_names read_sleep_times read_unsolicited read_ip_ports
    read_polling_specs read_bound_outstations read_event_buffer_specs read_data_generation_specs
    read_points read_data_point read_mapped_data_generation_specs set_buffers new_data_point grow
    read_assign_dnp3_addresses get_next_dnp3_address push_point add_point new_node
parse_config-Covers_example = parse_config-Covers file 0 parsed refl

abbrev fifth : DataPoint ℕ
fifth = record {
  index = pos 4;
  s_variation = pos 9;
  e_variation = pos 3;
  event_class = pos 2;
  point_type = "Counter";
  deadband = 0;
}

-- The outstation with a counter of index 4.
abbrev counting : Node ℕ
counting = add_point fifth outstation

abbrev unset : PointConfig
unset = record {
  svariation = record { group = 20; number = 1 };
  clazz = no_class;
  evariation = record { group = 22; number = 1 };
}

abbrev database : Database ℕ
database = record {
  analog = [];
  deadband = [];
  binary = [];
  double_binary = [];
  counter = replicate 5 unset;
  frozen_counter = [];
  dp_type_index_map = [];
}

database-HasSizes : HasSizes counting.db_size database
unfolding add_point grow new_node
database-HasSizes = (refl, refl, refl, refl, refl, refl)

configure_database-HasSizes_example :
    Succeeds
      (HasSizes counting.db_size)
      (configure_database (λ x. false) counting.data_points database)
unfolding add_point new_node
configure_database-HasSizes_example =
    configure_database-HasSizes (λ x. false) counting database
      (add_point-Covers fifth outstation refl (new_node-Covers file "outstation" "Outstation"))
      (tt, tt) database-HasSizes

abbrev view : Database ℕ
view = record {
  analog = [];
  deadband = [];
  binary = [];
  double_binary = [];
  counter = replicate 5 unset;
  frozen_counter = [];
  dp_type_index_map = [];
}

-- A script that gives values for points 4 and 8.
abbrev values : GeneratedData ℕ
values = record {
  has_entry = true;
  analog_inputs = none;
  counters = some ((pos 5, 7) ∷ (pos 9, 8) ∷ []);
  binary_inputs = none;
}

view-IsSmall : IsSmall (stack_config counting).sizes
unfolding add_point grow new_node stack_config
view-IsSmall = record {
  analog_small = omega arith;
  binary_small = omega arith;
  double_binary_small = omega arith;
  counter_small = omega arith;
  frozen_counter_small = omega arith;
}

view-IsView : IsView (stack_config counting).sizes view
unfolding add_point grow new_node stack_config
view-IsView = record {
  analog_size = refl;
  deadband_size = refl;
  binary_size = refl;
  double_binary_size = refl;
  counter_size = refl;
  frozen_counter_size = refl;
  none_noted = refl;
}

run-Reports_example :
    Succeeds
      (Reports doubles (λ x. false) counting 1000 values)
      (configure_database (λ x. false) counting.data_points view)
unfolding add_point new_node
run-Reports_example =
    run-Reports doubles (λ x. false) counting view 1000 values
      (add_point-Covers fifth outstation refl (new_node-Covers file "outstation" "Outstation"))
      (tt, tt) view-IsSmall view-IsView

parse_config-ArePairs_example : ArePairs file (1 ∷ []) parsed.nodes
unfolding parse_config read_all_dnp3_addresses read_assign_ip_addresses read_addresses
    choose_address assign_master_ip assign_outstation_ip allocate_ip_address generate_from
    generate_ip_address read_nodes read_node finish_master read_settings finish_outstation
    read_lua_file_key_switch read_lua_file_names read_sleep_times read_unsolicited read_ip_ports
    read_polling_specs read_bound_outstations read_event_buffer_specs read_data_generation_specs
    read_points read_data_point read_mapped_data_generation_specs set_buffers new_data_point grow
    read_assign_dnp3_addresses get_next_dnp3_address push_point add_point new_node
parse_config-ArePairs_example =
    parse_config-ArePairs file 0 (1 ∷ []) parsed refl ((("master", refl), ("outstation", refl)), tt)
      refl

-- Two analog points of the same index, the second one without a deadband.
abbrev analog_point : DataPoint ℕ
analog_point = record fifth { index = pos 0; point_type = "Analog Input"; deadband = 3 }

abbrev two_points : List (DataPoint ℕ)
two_points = analog_point ∷ record analog_point { s_variation = pos 2; deadband = 0 } ∷ []

abbrev analogs_only : Database ℕ
analogs_only = record database { analog = unset ∷ []; deadband = 0 ∷ [] }

abbrev twice_set : Database ℕ
twice_set = elim (configure_database (λ x. ltb 0 x) two_points analogs_only) [
  | none ↦ database
  | some db ↦ db
]

configure_database_lem_example :
    (entry_in (vectors twice_set) 0 0
      ≡ some (record {
        svariation = record { group = 30; number = 2 };
        clazz = class2;
        evariation = record { group = 32; number = 3 };
      }))
    × (get_elem? twice_set.deadband 0 ≡ some 3)
unfolding configure_database configure_as input_type variation point_class note_index
configure_database_lem_example =
    configure_database_lem (λ x. ltb 0 x) two_points analogs_only twice_set 0 0 refl
