-- ===== src/Tests/Stations.antt =====
-- Theorems on mapping outstations at an outstation that takes input 0 of one source for its point 1.
use ics_trafficgen.Base.{Option, ◌≤◌, zero, suc, Succeeds}
use ics_trafficgen.Mapping.Loop.{Loop, loop_round}
use ics_trafficgen.Mapping.Loop.Soundness.{IsSound, loop_round-IsSound}
use ics_trafficgen.UserInput.{Scripts, no_input, write_all}
use ics_trafficgen.Mapping.{copy_point}
use ics_trafficgen.Soe.{update_array, update_arrays}
use ics_trafficgen.Mapping.Passing.{
  pass_sources, pass_source, pass_channel, pass_points, pass_point,
}
use ics_trafficgen.Mapping.Once.{pass-once}
use ics_trafficgen.Soe.Delivery.{process_at-IsReady}
use ics_trafficgen.Base.{
  arith, ◌+◌, get_elem?, ℕ, List, [], ◌∷◌, ◌++◌, some, none, true, false, pos, refl, ◌≡◌, inl, Has,
}
use ics_trafficgen.Points.{MappedDataPoint, grow}
use ics_trafficgen.Mapping.{Channel, MappingOutstation, source_values}
use ics_trafficgen.Mapping.Arrays.{source_sizes, start}
use ics_trafficgen.Mapping.Passing.{pass_thru_data_changes}
use ics_trafficgen.Mapping.Emission.{report}
use ics_trafficgen.Mapping.Pass.{Swept, pass_thru_data_changes_lem}
use ics_trafficgen.Mapping.Start.{AreConfigured}
use ics_trafficgen.Mapping.Ready.{IsReady, start-IsReady}
use ics_trafficgen.Mapping.{Update, analog_update, is_flagged}
use ics_trafficgen.Mapping.Arrays.{
  resize, clear_source, resize_source, configure_source, configure_sources, clear_flags,
  configure_input_multiplexing_arrays,
}
use ics_trafficgen.Mapping.Inject.Safe.{Answers}
use ics_trafficgen.Mapping.Inject.Failing.{inject_data_changes-fails}
use ics_trafficgen.Mapping.Inject.{LuaScript, inject_data_changes}
use ics_trafficgen.Mapping.Inject.Total.{IsInjected, HasRoom, inject_data_changes-IsInjected}
use ics_trafficgen.Base.{Succeeds}
use ics_trafficgen.Tests.Numbers.{doubles}
use ics_trafficgen.Soe.{Indexed, analogs, process_at, receive}
use ics_trafficgen.Soe.{MappingSoeHandler, process}
use ics_trafficgen.Soe.Destinations.{repeated, process_lem}
use ics_trafficgen.Soe.Arrays.{receive_lem}
use ics_trafficgen.Soe.Arrival.{analog_arrives}
use ics_trafficgen.Soe.OutOfReach.{input_above_index}
use ics_trafficgen.Soe.Delivery.{begin, receives, History-is_safe}

abbrev pub point : MappedDataPoint
point = record { index = pos 1; input_index = pos 0; point_type = "Analog Input" }

abbrev idle : Channel ℕ
idle = record { values = []; flag = []; out = [] }

abbrev pub station : MappingOutstation ℕ
station = record {
  node_name = "station";
  data_sources = ("plc", point ∷ []) ∷ [];
  db_size = ("Analog Input", 2) ∷ [];
  dp_type_index_map = ("Analog Input", pos 1 ∷ []) ∷ [];
  analog = idle;
  binary = idle;
  counter = idle;
}

pub station-AreConfigured : AreConfigured station.db_size station.data_sources
unfolding source_sizes grow
station-AreConfigured = (
  record {
    analog_lies = (λ e. (omega arith, omega arith), tt);
    binary_lies = (λ e. cc, tt);
    counter_lies = (λ e. cc, tt);
  },
  tt,
)

start-IsReady_example : IsReady (start doubles station)
start-IsReady_example = start-IsReady doubles station (tt, tt) station-AreConfigured

abbrev started : MappingOutstation ℕ
started = start doubles station

started-IsReady : IsReady started
started-IsReady = start-IsReady doubles station (tt, tt) station-AreConfigured

started-HasRoom : HasRoom started
unfolding start configure_input_multiplexing_arrays configure_sources configure_source clear_source
    resize_source source_sizes resize clear_flags grow
started-HasRoom = ((omega arith, tt), tt, tt)

abbrev pub event : Indexed ℕ
event = record { value = 7; time = 9; index = 0 }

History-is_safe_example :
    (m : MappingOutstation ℕ) × (pass_thru_data_changes doubles
        (process_at doubles "plc" (analogs (event ∷ [])) started)
      ≡ some (
        m,
        report doubles
            (process_at doubles "plc" (analogs (event ∷ [])) started)
            (process_at doubles "plc" (analogs (event ∷ [])) started).data_sources,
      ))
History-is_safe_example =
    History-is_safe doubles station (tt, tt) station-AreConfigured
      (receives "plc" (analogs (event ∷ [])) begin)

pass_thru_data_changes_lem_example :
    (m : MappingOutstation ℕ) × (pass_thru_data_changes doubles started
      ≡ some (m, report doubles started started.data_sources))
    × Swept started.data_sources started m
pass_thru_data_changes_lem_example =
    pass_thru_data_changes_lem doubles started started-IsReady.keys started-IsReady.fits

analog_arrives_example :
    (m : MappingOutstation ℕ) × (ups : List (Update ℕ)) × (pass_thru_data_changes doubles
        (process_at doubles "plc" (analogs ([] ++ event ∷ [])) started)
      ≡ some (m, ups))
    × Has (analog_update 7 9 1) ups
unfolding start configure_input_multiplexing_arrays configure_sources configure_source clear_source
    resize_source source_sizes resize clear_flags grow
analog_arrives_example =
    analog_arrives doubles started "plc" (point ∷ []) point 0 [] [] event started-IsReady refl
      (inl refl) refl refl (omega arith) refl (λ e. cc) tt

abbrev holding : Channel ℕ
holding = record {
  values = ("plc", record { value = 1; timestamp = 2 } ∷ []) ∷ [];
  flag = [];
  out = [];
}

receive_lem_example :
    (get_elem? (source_values "plc" (receive doubles (λ v. v) "plc" (event ∷ []) holding)) 0
      ≡ some (record { value = 7; timestamp = 9 }))
    × (is_flagged "plc" (receive doubles (λ v. v) "plc" (event ∷ []) holding) ≡ true)
    × ((receive doubles (λ v. v) "plc" (event ∷ []) holding).out ≡ [])
    × (source_values "hmi" (receive doubles (λ v. v) "plc" (event ∷ []) holding) ≡ [])
    × (is_flagged "hmi" (receive doubles (λ v. v) "plc" (event ∷ []) holding) ≡ false)
receive_lem_example =
    receive_lem doubles (λ v. v) "plc" (event ∷ []) holding 0 (record { value = 1; timestamp = 2 })
      "hmi" refl refl

abbrev crossed : MappedDataPoint
crossed = record { index = pos 0; input_index = pos 5; point_type = "Analog Input" }

input_above_index_example :
    pass_thru_data_changes doubles (
      process_at doubles "plc"
        (analogs (event ∷ []))
        (start doubles (record station { data_sources = ("plc", crossed ∷ []) ∷ [] })))
    ≡ none
input_above_index_example =
    input_above_index doubles (record station { data_sources = ("plc", crossed ∷ []) ∷ [] }) "plc"
      crossed 0 5 (event ∷ []) refl refl refl refl (omega arith)

-- A call of a script with this many files loaded: without one the function is missing.
abbrev pub called : {A : Type 0} → A → ℕ → Option (ℕ × A)
called a zero = none
called a (suc n) = some (suc n, a)

-- A script that answers point 2 of the table, which is point 1 of the outstation, and point 9.
abbrev pub script : LuaScript ℕ
script = record {
  State = ℕ;
  modify_analog = λ vs. called ((pos 2, 40) ∷ (pos 9, 41) ∷ []);
  modify_binary = λ vs. called [];
  modify_counter = λ vs. called [];
  integer_of = λ v. pos v;
}

-- A file has been loaded.
abbrev pub IsLoaded : ℕ → Type 0
IsLoaded n = 1 ≤ n

called_lem : {A : Type 0} (a : A) (n : ℕ) → IsLoaded n → Succeeds (λ r. IsLoaded r.0) (called a n)
called_lem a zero h = absurd (omega arith)
called_lem a (suc n) h = h

pub script-Answers : Answers script IsLoaded
script-Answers = record {
  analog = λ vs. called_lem _;
  binary = λ vs. called_lem _;
  counter = λ vs. called_lem _;
}

inject_data_changes-IsInjected_example :
    Succeeds (IsInjected script IsLoaded started) (inject_data_changes script started 1)
inject_data_changes-IsInjected_example =
    inject_data_changes-IsInjected script IsLoaded script-Answers started 1 started-IsReady
      started-HasRoom (omega arith)

-- A script without functions.
abbrev empty_script : LuaScript ℕ
empty_script = record {
  State = ℕ;
  modify_analog = λ vs n. none;
  modify_binary = λ vs n. none;
  modify_counter = λ vs n. none;
  integer_of = λ v. pos v;
}

inject_data_changes-fails_example : inject_data_changes empty_script station 0 ≡ none
inject_data_changes-fails_example =
    inject_data_changes-fails empty_script station 0 "plc" (point ∷ []) [] refl (λ vs s. refl)

-- A handler that names the second outstation twice.
abbrev handler : MappingSoeHandler
handler = record { src_name = "plc"; destination_list = 1 ∷ 1 ∷ [] }

process_lem_example :
    get_elem? (process doubles handler (analogs (event ∷ [])) (station ∷ started ∷ [])) 1
    ≡ repeated (process_at doubles "plc" (analogs (event ∷ []))) 2 (some started)
process_lem_example = process_lem doubles handler (analogs (event ∷ [])) (station ∷ started ∷ []) 1

abbrev awaiting : MappingOutstation ℕ
awaiting = process_at doubles "plc" (analogs (event ∷ [])) started

-- The outstation after the pass that follows.
abbrev passed : MappingOutstation ℕ × List (Update ℕ)
passed = elim (pass_thru_data_changes doubles awaiting) [ none ↦ (awaiting, []) | some r ↦ r ]

pass-once_example :
    (m : MappingOutstation ℕ) × (pass_thru_data_changes doubles passed.0 ≡ some (m, []))
unfolding start configure_input_multiplexing_arrays configure_sources configure_source clear_source
    resize_source source_sizes resize clear_flags grow process_at receive update_arrays update_array
    pass_thru_data_changes pass_sources pass_source pass_channel pass_points pass_point copy_point
pass-once_example =
    pass-once doubles awaiting passed.0 passed.1
      (process_at-IsReady doubles "plc" (analogs (event ∷ [])) started started-IsReady) refl

abbrev two_scripts : Scripts
two_scripts = record {
  lua_file_names = "one.lua" ∷ "two.lua" ∷ [];
  lua_key_switch = "n";
  current_lua_file_index = 1;
  local_lua_flag = 0;
}

-- The script counts the files that are loaded, too.
abbrev loop : Loop script
loop = record { station = started; state = 1; scripts = two_scripts; applied = [] }

loop_round-IsSound_example :
    Succeeds
      (IsSound IsLoaded true ("n" ∷ []))
      (loop_round doubles script (λ file n. n + 1) true (write_all ("n" ∷ []) no_input) loop)
loop_round-IsSound_example =
    loop_round-IsSound doubles script (λ file n. n + 1) IsLoaded script-Answers
      (λ file s f. omega arith) true ("n" ∷ []) loop
      (
        (started-IsReady, started-HasRoom, omega arith),
        record { named = omega arith; seen = omega arith },
      )
      (omega arith)
