-- ===== src/Tests/Threads.antt =====
-- The theorem on the program with scripts and the user, at a file with one outstation that has a
-- script, after its set-up and an input of the user.
use ics_trafficgen.Base.{ℕ, [], ◌∷◌, some, true, false, filterb, set, refl, ◌≡◌, arith}
use ics_trafficgen.Base.{◌+◌}
use ics_trafficgen.Points.{grow}
use ics_trafficgen.Node.{new_node, new_data_point}
use ics_trafficgen.Mapping.{MappingOutstation}
use ics_trafficgen.Mapping.Arrays.{source_sizes}
use ics_trafficgen.Mapping.Loop.{Loop}
use ics_trafficgen.Config.Addresses.{
  read_all_dnp3_addresses, read_assign_ip_addresses, read_addresses, choose_address,
  assign_master_ip, assign_outstation_ip, allocate_ip_address, generate_from, generate_ip_address,
  get_next_dnp3_address, read_assign_dnp3_addresses,
}
use ics_trafficgen.Config.Parse.{
  parse_config, read_nodes, read_node, finish_master, read_settings, finish_outstation,
}
use ics_trafficgen.Config.Readers.{
  read_lua_file_key_switch, read_lua_file_names, read_sleep_times, read_unsolicited, read_ip_ports,
  read_polling_specs, read_bound_outstations, read_event_buffer_specs,
}
use ics_trafficgen.Config.DataSpecs.{
  read_data_generation_specs, read_points, read_data_point, read_mapped_data_generation_specs,
  set_buffers, push_point, add_point, read_sources, read_mapped_points,
}
use ics_trafficgen.Station.{variation, point_class}
use ics_trafficgen.Station.Database.{configure_database, configure_as, input_type, note_index}
use ics_trafficgen.Station.Starting.{new_scripts, script_exists, load_script}
use ics_trafficgen.App.{mapping_station, launch_all, launch, launch_outstation, launch_master}
use ics_trafficgen.App.Launching.{is_mapping}
use ics_trafficgen.System.Scripted.{begun}
use ics_trafficgen.System.Threads.{
  Thread, Program, new_thread, thread_of, next_round, Step, begins, types, launched, next,
}
use ics_trafficgen.System.Threads.FromFile.{configured-runs}
use ics_trafficgen.Tests.Numbers.{doubles}
use ics_trafficgen.Tests.Stations.{script, IsLoaded, script-Answers}
use ics_trafficgen.Tests.Parsed.{file, parsed, first_station, first_node, database, database_set}

abbrev thread : Thread script
thread = new_thread script (λ f. true) (λ f n. n + 1) 0 ("station.lua" ∷ [], "k")

abbrev first_begun : MappingOutstation ℕ
first_begun = begun doubles first_station database_set

-- The program when the loop has begun and the user has given an input.
abbrev program : Program script
program = record {
  outstations = first_begun ∷ [];
  threads = thread ∷ [];
  running = 0 ∷ [];
  inputs = "k" ∷ [];
}

configured-runs_example :
    (l : Loop script) × (next_round doubles script
        (λ f n. n + 1)
        (λ x. false)
        (filterb is_mapping parsed.nodes)
        program
        first_begun
        thread
      ≡ some l)
    × Step doubles script
        (λ f n. n + 1)
        (λ x. false)
        (filterb is_mapping parsed.nodes)
        program
        (record program {
          outstations = set program.outstations 0 l.station;
          threads = set program.threads 0 (thread_of true l);
        })
unfolding script_exists new_scripts load_script parse_config read_all_dnp3_addresses
    read_assign_ip_addresses read_addresses choose_address assign_master_ip assign_outstation_ip
    allocate_ip_address generate_from generate_ip_address read_nodes read_node finish_master
    read_settings finish_outstation read_lua_file_key_switch read_lua_file_names read_sleep_times
    read_unsolicited read_ip_ports read_polling_specs read_bound_outstations read_event_buffer_specs
    read_data_generation_specs read_points read_data_point read_mapped_data_generation_specs
    set_buffers new_data_point grow read_assign_dnp3_addresses get_next_dnp3_address push_point
    add_point new_node read_sources read_mapped_points launch_all launch launch_outstation
    launch_master mapping_station source_sizes configure_database configure_as input_type note_index
    variation point_class
configured-runs_example =
    configured-runs doubles script (λ f n. n + 1) IsLoaded file (λ x. false) 0 parsed (λ f. true) 0
      (("station.lua" ∷ [], "k") ∷ []) program 0 first_begun thread script-Answers
      (λ file s f. omega arith) ((λ e. omega arith), tt) refl ((tt, tt), tt)
      (((omega arith, tt), tt), tt)
      (next
        (next launched
          (begins 0 first_node first_station database database_set refl refl refl refl refl))
        (types "k"))
      refl refl refl (λ e. omega arith)
