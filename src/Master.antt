-- ===== src/Master.antt =====
-- MasterStation.h and MasterStation.cpp: `FireOffMasterCommand`, which sends the commands of a Lua
-- script. The calls of `opendnp3` that it makes are a list of values. A result `none` is an exception
-- of `std::stoi`.
pub mod Fire
pub mod Script
pub mod Setup
use ics_trafficgen.Base.{int_max}
use ics_trafficgen.Base.{
  ℕ, ◌-◌, String, List, [], ◌∷◌, ◌++◌, Option, none, some, Bool, true, false, ℤ, pos, codes, ◌==◌,
  ◌&&◌, str_eq, if◌then◌else◌, ◌>>=◌, leb,
}
use ics_trafficgen.Points.{Doubles}
use ics_trafficgen.Decimal.{is_digit, scan}
use ics_trafficgen.Config.IndexList.{begins_with_digit}

-- `cmdStruct`
pub record CmdStruct (D : Type 0) : Type 0 where
  pub f_name : String
  pub f_type : String
  pub index : ℤ
  pub value : D

pub data ControlCode : Type 0 where
  pulse_on : ControlCode
  pulse_off : ControlCode
  latch_on : ControlCode
  latch_off : ControlCode

-- A header of a command set, with what is added to it. The values are the arguments as the code has
-- them, here and in `Sent`: the parameters of opendnp3 convert them (`uint8_t` for a group and a
-- variation, `uint16_t` for an index, `int16_t` for the value of an AnalogOutputInt16).
pub data Header (D : Type 0) : Type 0 where
  control_relay_output_block : List (ControlCode × ℤ) → Header D
  analog_output_int16 : D → ℤ → Header D
  analog_output_int32 : D → ℤ → Header D
  analog_output_float32 : D → ℤ → Header D
  analog_output_double64 : D → ℤ → Header D

-- The calls of the master that send something. A scan has a group, a variation and a range.
pub data Sent (D : Type 0) : Type 0 where
  scan_range : ℕ → ℕ → ℤ → ℤ → Sent D
  select_and_operate : List (Header D) → Sent D
  direct_operate : List (Header D) → Sent D

-- The local variables of the function, and the calls so far.
pub record Batch (D : Type 0) : Type 0 where
  pub sbo_commands : List (Header D)
  pub do_commands : List (Header D)
  pub sbo_func_codes : Bool
  pub do_func_codes : Bool
  pub sent : List (Sent D)

-- the text behind a prefix
abbrev pub after_prefix : List ℕ → List ℕ → Option (List ℕ)
after_prefix [] cs = some cs
after_prefix (p ∷ ps) [] = none
after_prefix (p ∷ ps) (c ∷ cs) = let rest = after_prefix ps cs in if p == c then rest else none

-- `([0-9])` and the end
abbrev pub one_digit : List ℕ → Option ℕ
one_digit (c ∷ []) = if is_digit c then some (c - 48) else none
one_digit [] = none
one_digit (c ∷ c' ∷ cs) = none

-- `Group([0-9]+)Var([0-9])`, matched on the whole text
unfoldable pub match_group_var : List ℕ → Option (ℕ × ℕ)
match_group_var cs = do
  rest ← after_prefix (codes "Group") cs
  let (group, after) = scan 0 rest
  rest' ← (if begins_with_digit rest then after_prefix (codes "Var") after else none)
  var ← one_digit rest'
  some (group, var)

module _ {D : Type 0} (doubles : Doubles D) where
  -- the chain on `value` for a CROB
  abbrev pub crob_entries : D → ℤ → List (ControlCode × ℤ)
  crob_entries value index =
      if doubles.eq value (doubles.of_int (pos 1))
      then (pulse_on, index) ∷ []
      else if doubles.eq value (doubles.of_int (pos 2))
      then (pulse_off, index) ∷ []
      else if doubles.eq value (doubles.of_int (pos 3))
      then (latch_on, index) ∷ []
      else if doubles.eq value (doubles.of_int (pos 4))
      then (latch_off, index) ∷ []
      else []

  -- the chain on `funcName`: the headers that a command starts
  unfoldable pub headers : CmdStruct D → List (Header D)
  headers c =
      if str_eq c.f_name "CROB"
      then control_relay_output_block (crob_entries c.value c.index) ∷ []
      else if str_eq c.f_name "AnalogOutputInt16"
      then analog_output_int16 c.value c.index ∷ []
      else if str_eq c.f_name "AnalogOutputInt32"
      then analog_output_int32 c.value c.index ∷ []
      else if str_eq c.f_name "AnalogOutputFloat32"
      then analog_output_float32 c.value c.index ∷ []
      else if str_eq c.f_name "AnalogOutputDouble64"
      then analog_output_double64 c.value c.index ∷ []
      else []

  -- what a match of the name of a scan sends
  unfoldable pub scan_matched : Option (ℕ × ℕ) → CmdStruct D → Option (List (Sent D))
  scan_matched none c = some []
  scan_matched (some (group, var)) c =
      if leb group int_max
      then some (scan_range group var c.index (doubles.round_int c.value) ∷ [])
      else none

  abbrev pub scan_sent : CmdStruct D → Option (List (Sent D))
  scan_sent c = scan_matched (match_group_var (codes c.f_name)) c

  -- one round of the loop
  unfoldable pub fire_one : CmdStruct D → Batch D → Option (Batch D)
  fire_one c b =
      if str_eq c.f_type "SBO"
      then some (record b { sbo_func_codes = true; sbo_commands = b.sbo_commands ++ headers c })
      else if str_eq c.f_type "DO"
      then some (record b { do_func_codes = true; do_commands = b.do_commands ++ headers c })
      else if str_eq c.f_type "Scan"
      then (scan_sent c >>= λ calls. some (record b { sent = b.sent ++ calls }))
      else some b

  unfoldable pub fire_all : List (CmdStruct D) → Batch D → Option (Batch D)
  fire_all [] b = some b
  fire_all (c ∷ cs) b = fire_one c b >>= λ b'. fire_all cs b'

  abbrev pub no_commands : Batch D
  no_commands = record {
    sbo_commands = [];
    do_commands = [];
    sbo_func_codes = false;
    do_func_codes = false;
    sent = [];
  }

  -- the calls behind the loop
  unfoldable pub finish : Batch D → List (Sent D)
  finish b =
      b.sent
      ++ ((if b.sbo_func_codes then select_and_operate b.sbo_commands ∷ [] else [])
          ++ (if b.do_func_codes then direct_operate b.do_commands ∷ [] else []))

  -- `FireOffMasterCommand`: the calls, in their order
  unfoldable pub fire_off_master_command : List (CmdStruct D) → Option (List (Sent D))
  fire_off_master_command cs = fire_all cs no_commands >>= λ b. some (finish b)
