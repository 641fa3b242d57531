-- ===== src/Tests/Inputs.antt =====
-- Theorems on the user's inputs, on addresses and on text, at concrete ones.
use ics_trafficgen.UserInput.Schedule.Log.{station_of, run_log, run_events-refines}
use ics_trafficgen.Base.{replicate}
use ics_trafficgen.UserInput.{ThreadSafeUserInput}
use ics_trafficgen.UserInput.Schedule.{Event, writes, looks, run_events}
use ics_trafficgen.UserInput.Schedule.Progress.{run_events-catches_up}
use ics_trafficgen.Base.{◌≤◌, String, List, [], ◌∷◌, ◌++◌, some, none, refl, ◌≡◌, arith}
use ics_trafficgen.UserInput.{Scripts, no_input, write_all, switch_scripts}
use ics_trafficgen.UserInput.Cache.{Remembers, write_all_lem}
use ics_trafficgen.UserInput.Switching.{switch_scripts_lem, switch_scripts-behind}
use ics_trafficgen.Cidr.{Octets, next_address, network_address, print_address}
use ics_trafficgen.Cidr.Prefix.{cleared}
use ics_trafficgen.Cidr.Network.{network_address_lem}
use ics_trafficgen.Decimal.{print}
use ics_trafficgen.Cidr.Sequence.{after_calls, after_calls_lem, after_calls-leaves}
use ics_trafficgen.Cidr.Mask.{next_address_range}
use ics_trafficgen.Config.IndexList.{index_ranges}
use ics_trafficgen.Config.IndexList.RoundTrip.{text_of, index_ranges-text_of}
use ics_trafficgen.StringUtilities.Trim.{trim, trim_lem}

abbrev twelve : List String
twelve = "a" ∷ "b" ∷ "n" ∷ "d" ∷ "e" ∷ "f" ∷ "g" ∷ "h" ∷ "i" ∷ "j" ∷ "k" ∷ "n" ∷ []

write_all_lem_example : Remembers twelve (write_all twelve no_input)
write_all_lem_example = write_all_lem twelve

abbrev scripts : Scripts
scripts = record {
  lua_file_names = "one.lua" ∷ "two.lua" ∷ [];
  lua_key_switch = "n";
  current_lua_file_index = 1;
  local_lua_flag = 2;
}

switch_scripts_lem_example :
    (loaded : List String) × (switch_scripts (write_all twelve no_input) scripts
      ≡ some (record scripts { current_lua_file_index = 1; local_lua_flag = 12 }, loaded))
switch_scripts_lem_example =
    switch_scripts_lem twelve scripts (omega arith) (omega arith) (omega arith)

switch_scripts-behind_example :
    switch_scripts (write_all twelve no_input) (record scripts { local_lua_flag = 1 }) ≡ none
switch_scripts-behind_example =
    switch_scripts-behind twelve (record scripts { local_lua_flag = 1 }) refl (omega arith)
      (omega arith)

abbrev network : Octets
network = record { a = 192; b = 168; c = 7; d = 0 }

after_calls_lem_example : after_calls 300 network ≡ record { a = 192; b = 168; c = 8; d = 46 }
after_calls_lem_example = after_calls_lem network 299 (omega arith) (omega arith) refl (omega arith)

after_calls-leaves_example :
    after_calls 64771 (record { a = 192; b = 12; c = 0; d = 0 })
    ≡ record { a = 192; b = 13; c = 0; d = 1 }
after_calls-leaves_example = after_calls-leaves 192 12 (omega arith) (omega arith)

next_address_range_example :
    (1 ≤ (next_address network).d)
    × ((next_address network).d ≤ 254)
    × ((next_address network).a ≤ 254)
    × ((next_address network).b ≤ 254)
    × ((next_address network).c ≤ 254)
next_address_range_example = next_address_range network (omega arith) (omega arith) (omega arith)

trim_lem_example :
    (trim (b' ' ∷ []) ((b' ' ∷ []) ++ b'a' ∷ ((b'b' ∷ []) ++ b'c' ∷ [])) ≡ b'a' ∷ b'b' ∷ [])
    × (trim (b' ' ∷ []) (b' ' ∷ []) ≡ b' ' ∷ [])
trim_lem_example = trim_lem (b' ' ∷ []) (b' ' ∷ []) (b'b' ∷ []) [] b'a' b'c' (refl, tt) tt refl refl

index_ranges-text_of_example :
    index_ranges (text_of ((3, 7) ∷ (10, 10) ∷ [])) ≡ some ((3, 7) ∷ (10, 10) ∷ [])
index_ranges-text_of_example =
    index_ranges-text_of ((3, 7) ∷ (10, 10) ∷ [])
      ((omega arith, omega arith), ((omega arith, omega arith), tt))

abbrev schedule : List Event
schedule = writes "n" ∷ writes "k" ∷ looks ∷ writes "n" ∷ []

run_events-catches_up_example :
    (u : ThreadSafeUserInput) × (loaded : List String) × (run_events
        (schedule ++ replicate 10 looks)
        no_input
        (record scripts { local_lua_flag = 0 }, [])
      ≡ some (u, (record scripts { current_lua_file_index = 1; local_lua_flag = 3 }, loaded)))
run_events-catches_up_example =
    run_events-catches_up schedule (record scripts { local_lua_flag = 0 }) (omega arith) refl
      (omega arith, (omega arith, (omega arith, tt)))

run_events-refines_example :
    station_of (run_events schedule no_input (record scripts { local_lua_flag = 0 }, []))
    ≡ run_log schedule [] (record scripts { local_lua_flag = 0 }, [])
run_events-refines_example =
    run_events-refines schedule (record scripts { local_lua_flag = 0 }) refl
      (omega arith, (omega arith, (omega arith, tt)))

network_address_lem_example :
    network_address (print_address (record { a = 192; b = 168; c = 77; d = 9 }) ++ b'/' ∷ print 20)
    ≡ some (record { a = 192; b = 168; c = 64; d = 0 })
unfolding cleared
network_address_lem_example =
    network_address_lem (record { a = 192; b = 168; c = 77; d = 9 }) 20
      (omega arith, omega arith, omega arith, omega arith) (omega arith)
