-- ===== src/Station/Rounds.antt =====
-- The loop of `run` that a master and an outstation of generated points share (MasterStation.cpp and
-- OutStation.cpp), for a station with a script. What `luaL_dofile` does to the state of Lua is a
-- parameter, and so is what a call of the script's function does.
use ics_trafficgen.Base.{
  ℕ, ◌+◌, ◌-◌, ◌%◌, ◌≤◌, ◌<◌, String, List, Map, Option, some, ℤ, length, ◌>>=◌, ◌≡◌, refl, ap,
}
use ics_trafficgen.Points.{Doubles}
use ics_trafficgen.Mapping.{Update}
use ics_trafficgen.UserInput.{
  ThreadSafeUserInput, Scripts, no_input, write_all, switch_scripts, load_files,
}
use ics_trafficgen.UserInput.Switching.{presses, switch_scripts_lem}
use ics_trafficgen.Master.{Sent}
use ics_trafficgen.Master.Script.{TableOrOther, lua_invoke_script as master_invoke_script}
use ics_trafficgen.OutStation.{GeneratedData, lua_invoke_script as outstation_invoke_script}

-- What the loop of a station keeps, with the state of Lua.
pub record LoopState (L : Type 0) : Type 0 where
  pub state : L
  pub scripts : Scripts

module _ {L E : Type 0} (load_file : String → L → L) (invoke : L → Option (L × List E)) where
  -- One round of `while (!this->quitFlag)`, and what it sends.
  unfoldable pub loop_round : ThreadSafeUserInput → LoopState L → Option (LoopState L × List E)
  loop_round u l = switch_scripts u l.scripts >>= λ r.
      invoke (load_files load_file r.1 l.state) >>= λ a.
      some (record { state = a.0; scripts = r.0 }, a.1)

  -- Let a station have scripts and an index that names one, and at most ten inputs still to see.
  -- Then a round sees them all, and does what the script does after the files that it has changed to.
  pub loop_round_lem :
      (xs : List String) (l : LoopState L)
      → l.scripts.current_lua_file_index < length l.scripts.lua_file_names
      → l.scripts.local_lua_flag ≤ length xs
      → length xs ≤ l.scripts.local_lua_flag + 10
      → (files : List String) × (s : Scripts) × (loop_round (write_all xs no_input) l ≡ (
          invoke (load_files load_file files l.state) >>= λ a.
          some (record { state = a.0; scripts = s }, a.1)))
        × (s.local_lua_flag ≡ length xs)
        × (s.current_lua_file_index
            ≡ (l.scripts.current_lua_file_index
                + presses l.scripts.lua_key_switch xs l.scripts.local_lua_flag
                    (length xs - l.scripts.local_lua_flag))
              % length l.scripts.lua_file_names)
  unfolding loop_round
  loop_round_lem xs l named seen near =
      let (files, e) = switch_scripts_lem xs l.scripts named seen near in
      (
        files,
        _,
        ap
            (λ o. o >>= λ r. invoke (load_files load_file r.1 l.state) >>= λ a.
              some (record { state = a.0; scripts = r.0 }, a.1))
            e,
        refl,
        refl,
      )

module _ {D L : Type 0} (doubles : Doubles D) where
  -- `LuaInvokeScript` of an outstation, on what `generate_data` leaves in `data`
  unfoldable pub invoke_generator :
      (L → L × GeneratedData D) → Map (List ℤ) → ℕ → L → Option (L × List (List (Update D)))
  invoke_generator generate_data indexes now s =
      let (s', d) = generate_data s in some (s', outstation_invoke_script doubles indexes now d)

  -- `LuaInvokeScript` of a master, on what `operate_outstation` leaves in `data`
  unfoldable pub invoke_operator : (L → L × List (TableOrOther D)) → L → Option (L × List (Sent D))
  invoke_operator operate_outstation s =
      let (s', vs) = operate_outstation s in
      master_invoke_script doubles vs >>= λ calls. some (s', calls)
