-- ===== src/System/Threads.antt =====
-- The run of the whole program with scripts and the user: the threads of the mapping outstations, the
-- callbacks of the masters and the loop of `main`, as steps on what they share (dnp3app.cpp,
-- MappingOutstation.cpp, MappingSoeHandler.cpp and dnp3app.h). A round of a station's loop is one
-- step; other threads come in between rounds.
pub mod Sound
pub mod Runs
pub mod FromFile
use ics_trafficgen.Base.{
  ℕ, String, List, [], ◌∷◌, ◌++◌, Option, some, Bool, true, false, get_elem?, set, map, ◌≡◌,
}
use ics_trafficgen.Points.{Doubles}
use ics_trafficgen.Node.{Node}
use ics_trafficgen.Mapping.{MappingOutstation, Update}
use ics_trafficgen.Mapping.Inject.{LuaScript}
use ics_trafficgen.Mapping.Loop.{Loop, loop_round}
use ics_trafficgen.Soe.{MappingSoeHandler, Collection, process}
use ics_trafficgen.UserInput.{Scripts, no_input, write_all}
use ics_trafficgen.Station.Starting.{new_scripts, script_exists, load_script}
use ics_trafficgen.Station.Database.{Database, configure_database}
use ics_trafficgen.App.{mapping_station}
use ics_trafficgen.System.{is_running}
use ics_trafficgen.System.Scripted.{begun}

-- What the thread of a mapping outstation keeps to itself: whether its script exists, the state of
-- Lua, the change of scripts, and the arguments of its calls of `Apply`.
pub record Thread {D : Type 0} (lua : LuaScript D) : Type 0 where
  pub exists : Bool
  pub state : lua.State
  pub scripts : Scripts
  pub applied : List (List (Update D))

-- The mapping outstations with their threads, the places of those that have begun their loops, and
-- the user's inputs so far.
pub record Program {D : Type 0} (lua : LuaScript D) : Type 0 where
  pub outstations : List (MappingOutstation D)
  pub threads : List (Thread lua)
  pub running : List ℕ
  pub inputs : List String

-- The thread of an outstation with these script names and this key, as its loop begins.
abbrev pub new_thread :
    {D : Type 0} (lua : LuaScript D) (file_exists : String → Bool)
    (load_file : String → lua.State → lua.State) (initial : lua.State)
    → List String × String
    → Thread lua
new_thread lua file_exists load_file initial (names, key) = record {
  exists = script_exists file_exists names;
  state = load_script file_exists load_file names initial;
  scripts = new_scripts names key;
  applied = [];
}

module _ {D : Type 0} {lua : LuaScript D} where
  -- The outstation and its thread, as the loop of `run` has them.
  abbrev pub loop_of : MappingOutstation D → Thread lua → Loop lua
  loop_of m t = record { station = m; state = t.state; scripts = t.scripts; applied = t.applied }

  -- The thread after a round.
  abbrev pub thread_of : Bool → Loop lua → Thread lua
  thread_of exists l = record {
    exists = exists;
    state = l.state;
    scripts = l.scripts;
    applied = l.applied;
  }

module _ {D F : Type 0} (ops : Doubles D) (lua : LuaScript D)
    (load_file : String → lua.State → lua.State) (positive : F → Bool) (nodes : List (Node F)) where
  -- One round of the loop of an outstation, with the inputs so far.
  abbrev pub next_round : Program lua → MappingOutstation D → Thread lua → Option (Loop lua)
  next_round s m t =
      loop_round ops lua load_file t.exists (write_all s.inputs no_input) (loop_of m t)

  -- A step: a thread sets up its outstation and begins its loop, a master hands a batch of
  -- measurements to its destinations, an outstation makes a round, or the user gives an input.
  pub data Step (s : Program lua) : Program lua → Type 0 where
    begins :
        (r : ℕ) (n : Node F) (m : MappingOutstation D) (db db' : Database F)
        → is_running r s.running ≡ false
        → get_elem? nodes r ≡ some n
        → get_elem? s.outstations r ≡ some m
        → db.dp_type_index_map ≡ []
        → configure_database positive n.data_points db ≡ some db'
        → Step s (record s {
          outstations = set s.outstations r (begun ops m db');
          running = r ∷ s.running;
        })
    receives :
        (h : MappingSoeHandler) (c : Collection D)
        → Step s (record s { outstations = process ops h c s.outstations })
    goes_round :
        (r : ℕ) (m : MappingOutstation D) (t : Thread lua) (l : Loop lua)
        → is_running r s.running ≡ true
        → get_elem? s.outstations r ≡ some m
        → get_elem? s.threads r ≡ some t
        → next_round s m t ≡ some l
        → Step s (record s {
          outstations = set s.outstations r l.station;
          threads = set s.threads r (thread_of t.exists l);
        })
    types : (line : String) → Step s (record s { inputs = s.inputs ++ line ∷ [] })

  -- The states that the program comes to, from the launch of the nodes on.
  pub data Reachable (ts : List (Thread lua)) : Program lua → Type 0 where
    launched : Reachable ts (record {
      outstations = map mapping_station nodes;
      threads = ts;
      running = [];
      inputs = [];
    })
    next : {s s' : Program lua} → Reachable ts s → Step s s' → Reachable ts s'
