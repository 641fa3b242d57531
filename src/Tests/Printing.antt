-- ===== src/Tests/Printing.antt =====
-- Theorems on the callbacks that print, at two command events.
use ics_trafficgen.Base.{ℕ, List, [], ◌∷◌, Bool, true, false, ◌≡◌, map}
use ics_trafficgen.Decimal.{print}
use ics_trafficgen.StringUtilities.{split}
use ics_trafficgen.Soe.{Indexed}
use ics_trafficgen.Soe.Printing.{
  Texts, CommandEvent, bool_to_string, process_printed, binary_command_events,
}
use ics_trafficgen.Soe.Printing.Reading.{
  IsOneLine, first_number, Avoids-print, Avoids-bool_to_string, process_printed_lem,
}

-- A double is shown by its whole part, and a command status by its number.
abbrev texts : Texts ℕ
texts = record {
  DoubleBit = Bool;
  IntervalUnits = Bool;
  CommandStatus = ℕ;
  of_double = print;
  double_bit_to_string = bool_to_string;
  interval_units_to_string = bool_to_string;
  command_status_to_string = print;
}

texts-IsOneLine : IsOneLine texts
texts-IsOneLine = record {
  doubles = Avoids-print;
  double_bits = Avoids-bool_to_string;
  units = Avoids-bool_to_string;
  statuses = Avoids-print;
}

abbrev events : List (Indexed (CommandEvent Bool ℕ))
events =
    (record { value = record { value = true; status = 0 }; time = 1700; index = 12 })
    ∷ (record { value = record { value = false; status = 4 }; time = 1701; index = 3 })
    ∷ []

process_printed_lem_example :
    map first_number (split b'\n' (process_printed texts (binary_command_events events)))
    ≡ 12 ∷ 3 ∷ []
process_printed_lem_example =
    process_printed_lem texts texts-IsOneLine (binary_command_events events)
