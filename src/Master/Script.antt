-- ===== src/Master/Script.antt =====
-- MasterStation.cpp: `LuaInvokeScript`, which reads the commands of a Lua script. The table `data` is
-- an argument: its values, in the order of `lua_next`. A result `none` is that of a `std::string`
-- made of a null pointer, or an exception of `FireOffMasterCommand`.
pub mod Reading
use ics_trafficgen.Base.{
  String, List, [], ◌∷◌, Option, none, some, ℤ, pos, index_of, int_eq, if◌then◌else◌, ◌>>=◌,
}
use ics_trafficgen.Points.{Doubles}
use ics_trafficgen.Master.{CmdStruct, Sent, fire_off_master_command}

-- A value by `lua_tostring`, which may give a null pointer, by `lua_tonumber`, and that as an `int`.
pub record LuaValue (D : Type 0) : Type 0 where
  pub as_string : Option String
  pub as_number : D
  pub as_int : ℤ

-- A value of `data`: the entries if it is a table, with their keys by `lua_tointeger`.
abbrev pub TableOrOther : Type 0 → Type 0
TableOrOther D = Option (List (ℤ × LuaValue D))

module _ {D : Type 0} where
  abbrev pub with_type : Option String → CmdStruct D → Option (CmdStruct D)
  with_type none c = none
  with_type (some s) c = some (record c { f_type = s })

  abbrev pub with_name : Option String → CmdStruct D → Option (CmdStruct D)
  with_name none c = none
  with_name (some s) c = some (record c { f_name = s })

  -- the `switch`
  unfoldable pub set_field : ℤ → LuaValue D → CmdStruct D → Option (CmdStruct D)
  set_field i v c =
      if int_eq i (pos 0)
      then with_type v.as_string c
      else if int_eq i (pos 1)
      then with_name v.as_string c
      else if int_eq i (pos 2)
      then some (record c { index = v.as_int })
      else if int_eq i (pos 3)
      then some (record c { value = v.as_number })
      else some c

  -- the inner loop
  unfoldable pub read_fields : List (ℤ × LuaValue D) → CmdStruct D → Option (CmdStruct D)
  read_fields [] c = some c
  read_fields ((k, v) ∷ es) c = set_field (index_of k) v c >>= λ c'. read_fields es c'

  -- `new cmdStruct()`
  unfoldable pub new_command : Doubles D → CmdStruct D
  new_command doubles = record {
    f_name = "";
    f_type = "";
    index = pos 0;
    value = doubles.zero_value;
  }

  -- the outer loop
  unfoldable pub read_table : Doubles D → List (TableOrOther D) → Option (List (CmdStruct D))
  read_table doubles [] = some []
  read_table doubles (none ∷ vs) = read_table doubles vs
  read_table doubles (some es ∷ vs) = do
    c ← read_fields es (new_command doubles)
    cs ← read_table doubles vs
    some (c ∷ cs)

  -- `LuaInvokeScript`: the calls of the master
  unfoldable pub lua_invoke_script : Doubles D → List (TableOrOther D) → Option (List (Sent D))
  lua_invoke_script doubles [] = some []
  lua_invoke_script doubles (v ∷ vs) =
      read_table doubles (v ∷ vs) >>= λ cs. fire_off_master_command doubles cs
