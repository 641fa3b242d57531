-- ===== src/OutStation.antt =====
-- OutStation.cpp: an outstation whose points are generated by a Lua script. Lua, opendnp3 and
-- asiodnp3 are not part of the repository: what the script leaves in the global table `data` is an
-- argument, and so are the sizes and buffers that the stack is made with.
pub mod Generation
use ics_trafficgen.Base.{
  ℕ, String, List, [], ◌∷◌, ◌++◌, Map, Option, none, some, Bool, ℤ, pos, index_of, int_eq, any,
  lookup, lookup_or, to_u16, if◌then◌else◌,
}
use ics_trafficgen.Points.{Doubles}
use ics_trafficgen.Node.{Node}
use ics_trafficgen.Mapping.{Update, analog_update, binary_update, counter_update}
use ics_trafficgen.Mapping.Inject.{bool_of}

-- The table `data` after a call of `generate_data`: whether `lua_next` finds an entry at all, and for
-- each of the three names the entries, in the order of `lua_next`, if it is a table. A key is by
-- `lua_tointeger`, a value by `lua_tonumber` or `lua_tointeger`.
pub record GeneratedData (D : Type 0) : Type 0 where
  pub has_entry : Bool
  pub analog_inputs : Option (List (ℤ × D))
  pub counters : Option (List (ℤ × D))
  pub binary_inputs : Option (List (ℤ × ℤ))

module _ {D V : Type 0} (mk : V → ℕ → Update D) where
  -- The loop over a table: `break` if the type has no points, `continue` if the index is none of
  -- them.
  unfoldable pub take_points : Option (List ℤ) → List (ℤ × V) → List (Update D)
  take_points none [] = []
  take_points none (e ∷ es) = []
  take_points (some is) [] = []
  take_points (some is) ((k, v) ∷ es) =
      let rest = take_points (some is) es in
      if any (int_eq (index_of k)) is then mk v (to_u16 (index_of k)) ∷ rest else rest

  -- the loop, if the entry of `data` is a table
  abbrev pub take_table : Option (List ℤ) → Option (List (ℤ × V)) → List (Update D)
  take_table is none = []
  take_table is (some es) = take_points is es

module _ {D : Type 0} (ops : Doubles D) where
  -- `LuaInvokeScript`, with the time of the clock: the arguments of its calls of `Apply`
  unfoldable pub lua_invoke_script : Map (List ℤ) → ℕ → GeneratedData D → List (List (Update D))
  lua_invoke_script indexes now d =
      let analog =
        take_table (λ v i. analog_update v now i) (lookup "Analog Input" indexes) d.analog_inputs in
      let counter =
        take_table (λ v i. counter_update (ops.to_uint32 v) now i) (lookup "Counter" indexes)
          d.counters in
      let binary =
        take_table (λ v i. binary_update (bool_of v) now i) (lookup "Binary Input" indexes)
          d.binary_inputs in
      if d.has_entry then (analog ++ (counter ++ binary)) ∷ [] else []

-- The arguments of `opendnp3::DatabaseSizes`, in their order.
pub record DatabaseSizes : Type 0 where
  pub binary : ℕ
  pub double_binary : ℕ
  pub analog : ℕ
  pub counter : ℕ
  pub frozen_counter : ℕ
  pub binary_output : ℕ
  pub analog_output : ℕ
  pub time_interval : ℕ

-- The arguments of `opendnp3::EventBufferConfig`, in their order.
pub record EventBufferConfig : Type 0 where
  pub binary : ℤ
  pub double_binary : ℤ
  pub analog : ℤ
  pub counter : ℤ
  pub frozen_counter : ℤ
  pub binary_output : ℤ
  pub analog_output : ℤ
  pub security_statistic : ℤ

-- What `run` sets of the stack before ConfigureDatabase.
pub record OutstationStackConfig : Type 0 where
  pub sizes : DatabaseSizes
  pub event_buffers : EventBufferConfig
  pub allow_unsolicited : Bool
  pub local_addr : ℕ
  pub remote_addr : ℕ

-- The first part of `run`, the same for both kinds of outstations.
unfoldable pub stack_config : {F : Type 0} → Node F → OutstationStackConfig
stack_config n = record {
  sizes = record {
    binary = lookup_or 0 "Binary Input" n.db_size;
    double_binary = lookup_or 0 "Double Binary Input" n.db_size;
    analog = lookup_or 0 "Analog Input" n.db_size;
    counter = lookup_or 0 "Counter" n.db_size;
    frozen_counter = lookup_or 0 "Frozen Counter" n.db_size;
    binary_output = lookup_or 0 "Binary Output" n.db_size;
    analog_output = lookup_or 0 "Analog Output" n.db_size;
    time_interval = lookup_or 0 "Time Interval" n.db_size;
  };
  event_buffers = record {
    binary = lookup_or (pos 0) "Binary Input" n.evt_buffer_size;
    double_binary = lookup_or (pos 0) "Double Binary Input" n.evt_buffer_size;
    analog = lookup_or (pos 0) "Analog Input" n.evt_buffer_size;
    counter = lookup_or (pos 0) "Counter" n.evt_buffer_size;
    frozen_counter = lookup_or (pos 0) "Frozen Counter" n.evt_buffer_size;
    binary_output = lookup_or (pos 0) "Binary Output" n.evt_buffer_size;
    analog_output = lookup_or (pos 0) "Analog Output" n.evt_buffer_size;
    security_statistic = pos 10;
  };
  allow_unsolicited = n.allow_unsolicited;
  local_addr = n.local_dnp3_addr;
  remote_addr = n.remote_dnp3_addr;
}
