-- ===== src/Station/Starting.antt =====
-- How a station comes by its script: the constructor of Station (Station.cpp), and what the `run`
-- functions do between the set-up of the stack and the loop. Whether `FileExists` finds a file good
-- and what `luaL_dofile` does are parameters.
use ics_trafficgen.Base.{
  ◌<◌, String, List, [], ◌∷◌, Option, none, some, Bool, true, false, length, if◌then◌else◌, ◌≡◌,
  arith,
}
use ics_trafficgen.UserInput.{ThreadSafeUserInput, Scripts}
use ics_trafficgen.Station.Rounds.{LoopState, loop_round}

-- `Station(node)`: what it keeps for the change of scripts
unfoldable pub new_scripts : List String → String → Scripts
new_scripts names key = record {
  lua_file_names = names;
  lua_key_switch = key;
  current_lua_file_index = 0;
  local_lua_flag = 0;
}

-- `lua_script_exists` of a master and of a mapping outstation
unfoldable pub script_exists : (String → Bool) → List String → Bool
script_exists file_exists [] = false
script_exists file_exists (f ∷ fs) = file_exists f

-- `if (lua_script_exists) luaL_dofile(L, node->luaFileNames[0])`
unfoldable pub load_script : {L : Type 0} → (String → Bool) → (String → L → L) → List String → L → L
load_script file_exists load_file [] s = s
load_script file_exists load_file (f ∷ fs) s = if file_exists f then load_file f s else s

-- The same in an outstation of generated points, which takes the script to exist if it has a name, and
-- loads the first name in any case: `none` is an access out of the bounds of an empty list.
unfoldable pub outstation_script :
    {L : Type 0} → (String → L → L) → List String → L → Option (Bool × L)
outstation_script load_file [] s = none
outstation_script load_file (f ∷ fs) s = some (true, load_file f s)

module _ {L E : Type 0} (load_file : String → L → L) (invoke : L → Option (L × List E)) where
  -- One round of `while (!this->quitFlag)` of a master, with a script or without, and what it sends.
  unfoldable pub master_round :
      Bool → ThreadSafeUserInput → LoopState L → Option (LoopState L × List E)
  master_round true u l = loop_round load_file invoke u l
  master_round false u l = some (l, [])

  -- One round of the loop of an outstation of generated points.
  unfoldable pub outstation_round :
      Bool → ThreadSafeUserInput → LoopState L → Option (LoopState L × List E)
  outstation_round true u l = loop_round load_file invoke u l
  outstation_round false u l = some (l, [])

-- A script that exists has a name, which the index of a new station is that of.
pub new_scripts-named :
    (file_exists : String → Bool) (names : List String) (key : String)
    → script_exists file_exists names ≡ true
    → (new_scripts names key).current_lua_file_index < length (new_scripts names key).lua_file_names
unfolding new_scripts script_exists
new_scripts-named file_exists [] key e = cc
new_scripts-named file_exists (f ∷ fs) key e = omega arith
