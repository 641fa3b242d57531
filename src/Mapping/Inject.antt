-- ===== src/Mapping/Inject.antt =====
-- MappingOutstation.cpp: `injectDataChanges`, which runs with the station's mutex held, and the three
-- functions that hand the output arrays to a Lua script. Lua is not part of the repository: what the
-- code uses of the state `L` is a parameter, `LuaScript`.
pub mod Safe
pub mod Total
pub mod Sources
pub mod Failing
use ics_trafficgen.Base.{
  ℕ, String, List, [], ◌∷◌, ◌++◌, Map, Option, none, some, Bool, true, false, ℤ, pos, negsuc,
  int_eq, index_of, any, not, ◌==◌, ◌%◌, ◌-◌, insert, lookup, str_eq, read_at, to_u16, map, ◌>>=◌,
  if◌then◌else◌,
}
use ics_trafficgen.Points.{MappedDataPoint, Dnp3Point}
use ics_trafficgen.Mapping.{
  Channel, MappingOutstation, Update, analog_update, binary_update, counter_update, is_flagged,
  copy_point,
}

-- A call of one of the script's functions with a table of the values from index 1 on, and then the
-- entries of the global table that the code reads, in the order of `lua_next`: the key by
-- `lua_tointeger`, the value by `lua_tonumber` or `lua_tointeger`. The calls are not protected: `none`
-- is an error that the call raises, as for a function that is missing, or a global that is no table;
-- either ends the program. `integer_of` is the conversion of the argument of `lua_pushinteger`.
pub record LuaScript (D : Type 0) : Type 1 where
  pub State : Type 0
  pub modify_analog : List D → State → Option (State × List (ℤ × D))
  pub modify_binary : List ℤ → State → Option (State × List (ℤ × ℤ))
  pub modify_counter : List ℤ → State → Option (State × List (ℤ × ℤ))
  pub integer_of : D → ℤ

module _ {D V : Type 0} (mk : V → ℕ → ℕ → Update D) where
  -- The loop over the table: `break` if the type has no points, `continue` if the index is none of
  -- them. The timestamp is that of the output array at the index.
  unfoldable pub accept :
      Option (List ℤ) → List (Dnp3Point D) → List (ℤ × V) → Option (List (Update D))
  accept none out es = some []
  accept (some is) out [] = some []
  accept (some is) out ((k, v) ∷ es) =
      let rest = accept (some is) out es in
      if any (int_eq (index_of k)) is
      then (do
        p ← read_at out (index_of k)
        us ← rest
        some (mk v p.timestamp (to_u16 (index_of k)) ∷ us))
      else rest

  -- What `Apply` is called with: not called at all for an empty table.
  unfoldable pub applied_of :
      Option (List ℤ) → List (Dnp3Point D) → List (ℤ × V) → Option (List (List (Update D)))
  applied_of is out [] = some []
  applied_of is out (e ∷ es) = do us ← accept is out (e ∷ es); some (us ∷ [])

-- the conversion to `bool`
abbrev pub bool_of : ℤ → Bool
bool_of (pos n) = not (n == 0)
bool_of (negsuc n) = true

-- the conversion to `uint32_t`
abbrev pub to_u32 : ℤ → ℕ
to_u32 (pos n) = n % 4294967296
to_u32 (negsuc n) = 4294967295 - n % 4294967296

module _ {D : Type 0} (t src : String) where
  -- the loop over `mdpList`
  unfoldable pub copy_points : List MappedDataPoint → Channel D → Option (Channel D)
  copy_points [] ch = some ch
  copy_points (dp ∷ dps) ch =
      (if str_eq dp.point_type t then copy_point src dp ch else some ch) >>= λ ch'.
      copy_points dps ch'

  -- the flag goes down, and the points are copied
  unfoldable pub load : List MappedDataPoint → Channel D → Option (Channel D)
  load dps ch = copy_points dps (record ch { flag = insert src false ch.flag })

module _ {D : Type 0} (lua : LuaScript D) where
  open lua use {State, modify_analog, modify_binary, modify_counter, integer_of}

  -- The station, the Lua state, and the arguments of the calls of `Apply`.
  pub record Injection : Type 0 where
    pub station : MappingOutstation D
    pub state : State
    pub applied : List (List (Update D))

  -- `LuaInvokeAnalogScript`
  unfoldable pub invoke_analog_script : Injection → Option Injection
  invoke_analog_script s =
      let m = s.station in
      modify_analog (map (λ p. p.value) m.analog.out) s.state >>= λ r.
      applied_of (λ v ts i. analog_update v ts i) (lookup "Analog Input" m.dp_type_index_map)
        m.analog.out r.1
      >>= λ us. some (record s { state = r.0; applied = s.applied ++ us })

  -- `LuaInvokeBinaryScript`
  unfoldable pub invoke_binary_script : Injection → Option Injection
  invoke_binary_script s =
      let m = s.station in
      modify_binary (map (λ p. integer_of p.value) m.binary.out) s.state >>= λ r.
      applied_of (λ v ts i. binary_update (bool_of v) ts i)
        (lookup "Binary Input" m.dp_type_index_map) m.binary.out r.1
      >>= λ us. some (record s { state = r.0; applied = s.applied ++ us })

  -- `LuaInvokeCounterScript`
  unfoldable pub invoke_counter_script : Injection → Option Injection
  invoke_counter_script s =
      let m = s.station in
      modify_counter (map (λ p. integer_of p.value) m.counter.out) s.state >>= λ r.
      applied_of (λ v ts i. counter_update (to_u32 v) ts i) (lookup "Counter" m.dp_type_index_map)
        m.counter.out r.1
      >>= λ us. some (record s { state = r.0; applied = s.applied ++ us })

  unfoldable pub inject_analog : String → List MappedDataPoint → Injection → Option Injection
  inject_analog src dps s =
      if is_flagged src s.station.analog
      then (load "Analog Input" src dps s.station.analog >>= λ ch.
          invoke_analog_script (record s { station = record s.station { analog = ch } }))
      else some s

  unfoldable pub inject_binary : String → List MappedDataPoint → Injection → Option Injection
  inject_binary src dps s =
      if is_flagged src s.station.binary
      then (load "Binary Input" src dps s.station.binary >>= λ ch.
          invoke_binary_script (record s { station = record s.station { binary = ch } }))
      else some s

  unfoldable pub load_counter : String → List MappedDataPoint → Injection → Option Injection
  load_counter src dps s =
      if is_flagged src s.station.counter
      then (load "Counter" src dps s.station.counter >>= λ ch.
          some (record s { station = record s.station { counter = ch } }))
      else some s

  -- One round of the loop over `node->dataSources`. The counter script runs whatever the flag was.
  unfoldable pub inject_source : String → List MappedDataPoint → Injection → Option Injection
  inject_source src dps s = do
    s₁ ← inject_analog src dps s
    s₂ ← inject_binary src dps s₁
    s₃ ← load_counter src dps s₂
    invoke_counter_script s₃

  unfoldable pub inject_sources : Map (List MappedDataPoint) → Injection → Option Injection
  inject_sources [] s = some s
  inject_sources ((src, dps) ∷ rest) s = inject_source src dps s >>= λ s'. inject_sources rest s'

  -- `injectDataChanges`
  unfoldable pub inject_data_changes : MappingOutstation D → State → Option Injection
  inject_data_changes m state =
      inject_sources m.data_sources (record { station = m; state = state; applied = [] })
