-- ===== src/App.antt =====
-- dnp3app.cpp: the entry of the program, and `initialize` and `UpdateDestinations` of
-- MasterStation.cpp. Shared pointers are places in the lists of the objects they point to. The
-- threads are the list of the stations that are run, in the order of their creation.
pub mod Launching
pub mod Binding
pub mod Commands
pub mod Entry
use ics_trafficgen.Base.{
  ℕ, ◌+◌, String, List, [], ◌∷◌, ◌++◌, Option, none, some, Bool, length, any, is_empty, map, str_eq,
  if◌then◌else◌,
}
use ics_trafficgen.Node.{Node}
use ics_trafficgen.Mapping.{Channel, MappingOutstation}
use ics_trafficgen.Soe.{MappingSoeHandler}
use ics_trafficgen.UserInput.{ThreadSafeUserInput, unconditional_writer}

-- A master, with the null pointer as `none`.
pub record MasterStation (F : Type 0) : Type 0 where
  pub node : Node F
  pub custom_data_callback : Option MappingSoeHandler
  pub dest_stations : List ℕ

-- What a thread runs: a master that is bound to outstations and a mapping outstation are shared, and
-- stand in a list of the program's.
pub data Runner (F : Type 0) : Type 0 where
  bound_master : ℕ → Runner F
  free_master : MasterStation F → Runner F
  mapping_outstation : ℕ → Runner F
  out_station : Node F → Runner F

-- The local variables of `main`.
pub record App (F D : Type 0) : Type 0 where
  pub lua_triggers : List String
  pub threads : List (Runner F)
  pub src_master_stations : List (MasterStation F)
  pub mapped_out_stations : List (MappingOutstation D)

-- `luaTriggers.insert`
abbrev pub add_trigger : String → List String → List String
add_trigger k ks = if any (str_eq k) ks then ks else ks ++ k ∷ []

abbrev pub with_list : List ℕ → Option MappingSoeHandler → Option MappingSoeHandler
with_list rs none = none
with_list rs (some h) = some (record h { destination_list = rs })

module _ {D : Type 0} where
  abbrev pub no_points : Channel D
  no_points = record { values = []; flag = []; out = [] }

  -- the loop over `mappedOutStations`, for one name; the number is the place of the first
  unfoldable pub places_named : String → ℕ → List (MappingOutstation D) → List ℕ
  places_named name i [] = []
  places_named name i (o ∷ os) =
      let rest = places_named name (i + 1) os in if str_eq o.node_name name then i ∷ rest else rest

  -- the loop over `boundOutstations`
  unfoldable pub destinations : List String → List (MappingOutstation D) → List ℕ
  destinations [] os = []
  destinations (name ∷ names) os = places_named name 0 os ++ destinations names os

module _ {F : Type 0} where
  -- `MasterStation(node)` and `initialize`
  unfoldable pub initialize : Node F → MasterStation F
  initialize n = record {
    node = n;
    custom_data_callback =
        if is_empty n.bound_outstations
        then none
        else some (record { src_name = n.name; destination_list = [] });
    dest_stations = [];
  }

  -- `UpdateDestinations`
  unfoldable pub update_destinations : MasterStation F → MasterStation F
  update_destinations m = record m {
    custom_data_callback = with_list m.dest_stations m.custom_data_callback;
  }

module _ {F D : Type 0} where
  -- `MappingOutstation(node)`
  unfoldable pub mapping_station : Node F → MappingOutstation D
  mapping_station n = record {
    node_name = n.name;
    data_sources = n.data_sources;
    db_size = n.db_size;
    dp_type_index_map = [];
    analog = no_points;
    binary = no_points;
    counter = no_points;
  }

  unfoldable pub launch_master : Node F → App F D → App F D
  launch_master n a =
      if is_empty n.bound_outstations
      then record a { threads = a.threads ++ free_master (initialize n) ∷ [] }
      else record a {
        src_master_stations = a.src_master_stations ++ initialize n ∷ [];
        threads = a.threads ++ bound_master (length a.src_master_stations) ∷ [];
      }

  unfoldable pub launch_outstation : Node F → App F D → App F D
  launch_outstation n a =
      if is_empty n.data_sources
      then record a { threads = a.threads ++ out_station n ∷ [] }
      else record a {
        mapped_out_stations = a.mapped_out_stations ++ mapping_station n ∷ [];
        threads = a.threads ++ mapping_outstation (length a.mapped_out_stations) ∷ [];
      }

  -- one round of the loop over the nodes
  unfoldable pub launch : Node F → App F D → App F D
  launch n a =
      let a₁ : App F D =
        if str_eq n.lua_key_switch ""
        then a
        else record a { lua_triggers = add_trigger n.lua_key_switch a.lua_triggers } in
      if str_eq n.role "Master"
      then launch_master n a₁
      else if str_eq n.role "Outstation"
      then launch_outstation n a₁
      else a₁

  unfoldable pub launch_all : List (Node F) → App F D → App F D
  launch_all [] a = a
  launch_all (n ∷ ns) a = launch_all ns (launch n a)

  abbrev pub no_stations : App F D
  no_stations = record {
    lua_triggers = [];
    threads = [];
    src_master_stations = [];
    mapped_out_stations = [];
  }

  -- one round of the loop over `srcMasterStations`
  unfoldable pub connect_master : List (MappingOutstation D) → MasterStation F → MasterStation F
  connect_master os m =
      update_destinations
        (record m { dest_stations = m.dest_stations ++ destinations m.node.bound_outstations os })

  -- the loop over `srcMasterStations`
  unfoldable pub connect_all : App F D → App F D
  connect_all a = record a {
    src_master_stations = map (connect_master a.mapped_out_stations) a.src_master_stations;
  }

-- What the loop of `main` comes to on the lines that `getline` reads from the pipe: it has returned,
-- or it waits for the next line.
pub data Outcome : Type 0 where
  exited : ThreadSafeUserInput → Outcome
  waits : ThreadSafeUserInput → Outcome

-- the loop of `main`
unfoldable pub read_commands : List String → List String → ThreadSafeUserInput → Outcome
read_commands triggers [] u = waits u
read_commands triggers (l ∷ ls) u =
    if str_eq l "x"
    then exited u
    else read_commands triggers ls (if any (str_eq l) triggers then unconditional_writer l u else u)
