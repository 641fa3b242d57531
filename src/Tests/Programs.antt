-- ===== src/Tests/Programs.antt =====
-- Theorems on the whole program, at a master that is bound to one mapping outstation.
use ics_trafficgen.Base.{ℕ, List, [], ◌∷◌, some, get_elem?, refl, ◌≡◌}
use ics_trafficgen.Node.{Node, new_node}
use ics_trafficgen.Soe.{MappingSoeHandler, analogs, process, process_at}
use ics_trafficgen.Soe.Destinations.{repeated}
use ics_trafficgen.UserInput.{no_input, write_all}
use ics_trafficgen.App.{MasterStation, launch_all, no_stations, connect_all, exited, read_commands}
use ics_trafficgen.App.Launching.{Launched, launch_all_lem}
use ics_trafficgen.App.Binding.{connected_lem}
use ics_trafficgen.App.Commands.{read_commands_lem}
use ics_trafficgen.Tests.Numbers.{doubles}
use ics_trafficgen.Tests.Stations.{point, event, station}

abbrev master : Node ℕ
master = record (new_node "plc" "Master") { bound_outstations = "station" ∷ "other" ∷ [] }

abbrev outstation : Node ℕ
outstation = record (new_node "station" "Outstation") {
  data_sources = ("plc", point ∷ []) ∷ [];
  db_size = ("Analog Input", 2) ∷ [];
}

abbrev nodes : List (Node ℕ)
nodes = master ∷ outstation ∷ []

launch_all_lem_example : Launched nodes no_stations (launch_all {D = ℕ} nodes no_stations)
launch_all_lem_example = launch_all_lem nodes

connected_lem_example :
    (m : MasterStation ℕ) × (h : MappingSoeHandler) × (get_elem?
        (connect_all (launch_all {D = ℕ} nodes no_stations)).src_master_stations
        0
      ≡ some m)
    × (m.custom_data_callback ≡ some h)
    × (get_elem? (process doubles h (analogs (event ∷ [])) (station ∷ [])) 0
        ≡ repeated (process_at doubles "plc" (analogs (event ∷ []))) 1 (some station))
unfolding new_node
connected_lem_example =
    connected_lem doubles nodes 0 0 master outstation (analogs (event ∷ [])) (station ∷ []) refl
      refl

read_commands_lem_example :
    read_commands ("n" ∷ "k" ∷ []) ("k" ∷ "y" ∷ "n" ∷ "x" ∷ "k" ∷ []) no_input
    ≡ exited (write_all ("k" ∷ "n" ∷ []) no_input)
read_commands_lem_example =
    read_commands_lem ("n" ∷ "k" ∷ []) ("k" ∷ "y" ∷ "n" ∷ "x" ∷ "k" ∷ []) no_input
