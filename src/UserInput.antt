-- ===== src/UserInput.antt =====
-- dnp3app.h: `ThreadSafeUserInput`, the inputs of the user that stations look for. Each method holds
-- the mutex, so a run is a sequence of calls. Station.cpp and the `run` of each station: the loop
-- that changes scripts on an input.
pub mod Keys
pub mod Cache
pub mod Switching
pub mod Schedule
use ics_trafficgen.Base.{
  ℕ, zero, suc, ◌+◌, ◌-◌, ◌^◌, String, List, [], ◌∷◌, ◌++◌, Option, none, some, Bool, true, false,
  ◌&&◌, ltb, leb, ◌==◌, str_eq, length, get_elem?, if◌then◌else◌, ◌>>=◌, not,
}
use Keys.{lookup, has_key, erase, put}

pub record ThreadSafeUserInput : Type 0 where
  pub current_count : ℕ
  pub key_presses : List (ℕ × String)

abbrev pub no_input : ThreadSafeUserInput
no_input = record { current_count = 0; key_presses = [] }

-- `none` at a missing key: the code returns '\0' as a `std::string`, a null pointer.
unfoldable pub read_input_str : ℕ → ThreadSafeUserInput → Option String
read_input_str k u = lookup k u.key_presses

-- `currentCount + 1 - 10` is negative for a count below 9, and then no key.
unfoldable pub unconditional_writer : String → ThreadSafeUserInput → ThreadSafeUserInput
unconditional_writer s u =
    let c = u.current_count in
    let kept =
      if ltb 10 (length u.key_presses) && leb 10 (c + 1) && has_key (c + 1 - 10) u.key_presses
      then erase (c + 1 - 10) u.key_presses
      else u.key_presses in
    record { current_count = c + 1; key_presses = put (c + 1) s kept }

-- the inputs, in their order
unfoldable pub write_all : List String → ThreadSafeUserInput → ThreadSafeUserInput
write_all [] u = u
write_all (s ∷ ss) u = write_all ss (unconditional_writer s u)

-- What a station keeps for the change of scripts.
pub record Scripts : Type 0 where
  pub lua_file_names : List String
  pub lua_key_switch : String
  pub current_lua_file_index : ℕ
  pub local_lua_flag : ℕ

-- `size() - 1`, of the 64-bit type of `size()`
abbrev pub last_index : ℕ → ℕ
last_index zero = 2 ^ 64 - 1
last_index (suc n) = n

-- `GetNextLuaFile`: the new state, and the name at the new index, if there is one
unfoldable pub get_next_lua_file : Scripts → Scripts × Option String
get_next_lua_file s =
    let i =
      if ltb s.current_lua_file_index (last_index (length s.lua_file_names))
      then s.current_lua_file_index + 1
      else 0 in
    (record s { current_lua_file_index = i }, get_elem? s.lua_file_names i)

-- the branch of an input that is the station's key
unfoldable pub load_next : Scripts → List String → Option (Scripts × List String)
load_next s loaded =
    let (s', file) = get_next_lua_file s in file >>= λ f. some (s', loaded ++ f ∷ [])

-- One round of `while (luaSwitchObj.readCount() > localLuaFlag)`; the list is that of the scripts
-- that are loaded.
unfoldable pub switch_round :
    ThreadSafeUserInput → Scripts × List String → Option (Scripts × List String)
switch_round u (s, loaded) =
    let s₁ = record s { local_lua_flag = s.local_lua_flag + 1 } in
    if str_eq s.lua_key_switch "" then some (s₁, loaded) else (do
      pressed ← read_input_str s₁.local_lua_flag u
      if str_eq pressed s.lua_key_switch then load_next s₁ loaded else some (s₁, loaded))

-- The loop, for an input that does not grow meanwhile: a round for each input not yet seen.
unfoldable pub switch_rounds :
    ℕ → ThreadSafeUserInput → Scripts × List String → Option (Scripts × List String)
switch_rounds zero u s = some s
switch_rounds (suc n) u s = do s' ← switch_round u s; switch_rounds n u s'

unfoldable pub switch_scripts : ThreadSafeUserInput → Scripts → Option (Scripts × List String)
switch_scripts u s = switch_rounds (u.current_count - s.local_lua_flag) u (s, [])

-- `luaL_dofile` on the scripts that the loop has loaded. What it does to the state of Lua is a
-- parameter.
unfoldable pub load_files : {L : Type 0} → (String → L → L) → List String → L → L
load_files load [] s = s
load_files load (f ∷ fs) s = load_files load fs (load f s)
