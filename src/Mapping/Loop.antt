-- ===== src/Mapping/Loop.antt =====
-- MappingOutstation.cpp: the loop of `run`. What `luaL_dofile` does to the state of Lua is a
-- parameter, as the script is.
pub mod Soundness
use ics_trafficgen.Base.{String, List, [], ◌∷◌, ◌++◌, Option, some, Bool, true, false, ◌>>=◌}
use ics_trafficgen.Points.{Doubles}
use ics_trafficgen.Mapping.{MappingOutstation, Update}
use ics_trafficgen.Mapping.Passing.{pass_thru_data_changes}
use ics_trafficgen.Mapping.Inject.{LuaScript, inject_data_changes}
use ics_trafficgen.Soe.{Collection, process_at}
use ics_trafficgen.UserInput.{ThreadSafeUserInput, Scripts, switch_scripts, load_files}

-- What the loop changes, and the arguments of the calls of `Apply` so far.
pub record Loop {D : Type 0} (lua : LuaScript D) : Type 0 where
  pub station : MappingOutstation D
  pub state : lua.State
  pub scripts : Scripts
  pub applied : List (List (Update D))

module _ {D : Type 0} (ops : Doubles D) (lua : LuaScript D)
    (load_file : String → lua.State → lua.State) where
  -- One round of `while (true)`, for an outstation with a script or without.
  unfoldable pub loop_round : Bool → ThreadSafeUserInput → Loop lua → Option (Loop lua)
  loop_round true u l = switch_scripts u l.scripts >>= λ r.
      inject_data_changes lua l.station (load_files load_file r.1 l.state) >>= λ i. some (record {
        station = i.station;
        state = i.state;
        scripts = r.0;
        applied = l.applied ++ i.applied;
      })
  loop_round false u l = pass_thru_data_changes ops l.station >>= λ r.
      some (record l { station = r.0; applied = l.applied ++ r.1 ∷ [] })
