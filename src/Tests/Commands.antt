-- ===== src/Tests/Commands.antt =====
-- Theorems on the commands of a master, at a list of three.
use ics_trafficgen.Base.{String, none, refl}
use ics_trafficgen.Master.Script.{LuaValue, TableOrOther, lua_invoke_script}
use ics_trafficgen.Master.Script.Reading.{commands_of, lua_invoke_script_lem}
use ics_trafficgen.Base.{ℕ, List, [], ◌∷◌, some, pos, ◌>>=◌, ◌≡◌}
use ics_trafficgen.Master.{CmdStruct, fire_off_master_command}
use ics_trafficgen.Tests.Numbers.{doubles}
use ics_trafficgen.Master.Fire.{scans_of, requested, fire_off_master_command_lem}

abbrev commands : List (CmdStruct ℕ)
commands =
    record { f_name = "CROB"; f_type = "SBO"; index = pos 3; value = 1 }
    ∷ record { f_name = "Group30Var5"; f_type = "Scan"; index = pos 0; value = 9 }
    ∷ record { f_name = "AnalogOutputInt16"; f_type = "DO"; index = pos 2; value = 70 }
    ∷ []

fire_off_master_command_lem_example :
    fire_off_master_command doubles commands
    ≡ (scans_of doubles commands >>= λ scans. some (requested doubles commands scans))
fire_off_master_command_lem_example = fire_off_master_command_lem doubles commands

abbrev text : String → LuaValue ℕ
text s = record { as_string = some s; as_number = 0; as_int = pos 0 }

abbrev number : ℕ → LuaValue ℕ
number n = record { as_string = none; as_number = n; as_int = pos n }

-- One table, with its fields out of order, and a value that is no table.
abbrev tables : List (TableOrOther ℕ)
tables =
    some ((pos 4, number 2) ∷ (pos 2, text "CROB") ∷ (pos 1, text "DO") ∷ (pos 3, number 6) ∷ [])
    ∷ none
    ∷ []

lua_invoke_script_lem_example : lua_invoke_script doubles tables ≡ (
    scans_of doubles (commands_of doubles tables) >>= λ scans.
    some (requested doubles (commands_of doubles tables) scans))
lua_invoke_script_lem_example =
    lua_invoke_script_lem doubles tables
      ((λ e. cc, (λ e. ("CROB", refl), (λ e. ("DO", refl), (λ e. cc, tt)))), tt)
