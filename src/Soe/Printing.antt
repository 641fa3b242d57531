-- ===== src/Soe/Printing.antt =====
-- MappingSoeHandler.cpp: the overloads of `Process` that print a batch of measurements to the
-- console. The text of a double and of opendnp3's enumerators is a parameter, `Texts`.
pub mod Reading
use ics_trafficgen.Base.{
  ℕ, String, List, [], ◌∷◌, ◌++◌, Bool, true, false, codes, if◌then◌else◌, length,
}
use ics_trafficgen.Decimal.{print}
use ics_trafficgen.Soe.{Indexed}

-- `operator<<` of a double, and the functions of opendnp3 that name an enumerator.
pub record Texts (D : Type 0) : Type 1 where
  pub DoubleBit : Type 0
  pub IntervalUnits : Type 0
  pub CommandStatus : Type 0
  pub of_double : D → List ℕ
  pub double_bit_to_string : DoubleBit → List ℕ
  pub interval_units_to_string : IntervalUnits → List ℕ
  pub command_status_to_string : CommandStatus → List ℕ

-- A measurement with the number of its flags.
pub record Flagged (V : Type 0) : Type 0 where
  pub meas : Indexed V
  pub flags : ℕ

pub record TimeAndInterval (U : Type 0) : Type 0 where
  pub interval : ℕ
  pub units : U

pub record CommandEvent (V S : Type 0) : Type 0 where
  pub value : V
  pub status : S

pub record SecurityStat : Type 0 where
  pub count : ℕ
  pub quality : ℕ
  pub assoc_id : ℕ

-- ` : `
abbrev pub sep : List ℕ
sep = codes " : "

-- `operator<<` of a bool
abbrev pub bool_to_string : Bool → List ℕ
bool_to_string b = if b then codes "1" else codes "0"

-- `"[" << index << "]" << ...`
abbrev pub bracketed : ℕ → List ℕ → List ℕ
bracketed i rest = b'[' ∷ (print i ++ (b']' ∷ rest))

-- the lines that `ForeachItem` writes, each with `std::endl`
unfoldable pub print_all : {A : Type 0} → (A → List ℕ) → List A → List ℕ
print_all f [] = []
print_all f (x ∷ xs) = f x ++ b'\n' ∷ print_all f xs

-- `Print` of a measurement with flags
abbrev pub print_flagged : {V : Type 0} → (V → List ℕ) → Flagged V → List ℕ
print_flagged value_to_string f = bracketed f.meas.index (
    sep ++ (value_to_string f.meas.value ++ (sep ++ (print f.flags ++ (sep ++ print f.meas.time)))))

module _ {D : Type 0} (tx : Texts D) where
  open tx use {
    DoubleBit, IntervalUnits, CommandStatus, of_double, double_bit_to_string,
    interval_units_to_string, command_status_to_string,
  }

  -- The collections of the overloads that print.
  pub data Printed : Type 0 where
    double_bit_binaries : List (Flagged DoubleBit) → Printed
    frozen_counters : List (Flagged ℕ) → Printed
    binary_output_statuses : List (Flagged Bool) → Printed
    analog_output_statuses : List (Flagged D) → Printed
    octet_strings : List (Indexed (List ℕ)) → Printed
    time_and_intervals : List (Indexed (TimeAndInterval IntervalUnits)) → Printed
    binary_command_events : List (Indexed (CommandEvent Bool CommandStatus)) → Printed
    analog_command_events : List (Indexed (CommandEvent D CommandStatus)) → Printed
    security_stats : List (Indexed SecurityStat) → Printed
    dnp_times : List ℕ → Printed

  abbrev pub octet_string_line : Indexed (List ℕ) → List ℕ
  octet_string_line m =
      codes "OctetString  " ++ bracketed m.index (codes " : Size : " ++ print (length m.value))

  abbrev pub time_and_interval_line : Indexed (TimeAndInterval IntervalUnits) → List ℕ
  time_and_interval_line m =
      codes "TimeAndInterval: "
      ++ bracketed m.index (
          sep
          ++ (print m.time
              ++ (sep
                  ++ (print m.value.interval ++ (sep ++ interval_units_to_string m.value.units)))))

  -- both kinds of command events
  abbrev pub command_event_line :
      {V : Type 0} → List ℕ → (V → List ℕ) → Indexed (CommandEvent V CommandStatus) → List ℕ
  command_event_line name show m =
      name
      ++ bracketed m.index (
          sep
          ++ (print m.time
              ++ (sep ++ (show m.value.value ++ (sep ++ command_status_to_string m.value.status)))))

  abbrev pub security_stat_line : Indexed SecurityStat → List ℕ
  security_stat_line m =
      codes "SecurityStat: "
      ++ bracketed m.index (
          sep
          ++ (print m.time
              ++ (sep
                  ++ (print m.value.count
                      ++ (sep ++ (print m.value.quality ++ (sep ++ print m.value.assoc_id)))))))

  abbrev pub dnp_time_line : ℕ → List ℕ
  dnp_time_line t = codes "DNPTime: " ++ print t

  -- what `Process` writes to the console
  unfoldable pub process_printed : Printed → List ℕ
  process_printed (double_bit_binaries ms) = print_all (print_flagged double_bit_to_string) ms
  process_printed (frozen_counters ms) = print_all (print_flagged print) ms
  process_printed (binary_output_statuses ms) = print_all (print_flagged bool_to_string) ms
  process_printed (analog_output_statuses ms) = print_all (print_flagged of_double) ms
  process_printed (octet_strings ms) = print_all octet_string_line ms
  process_printed (time_and_intervals ms) = print_all time_and_interval_line ms
  process_printed (binary_command_events ms) =
      print_all (command_event_line (codes "BinaryCommandEvent: ") bool_to_string) ms
  process_printed (analog_command_events ms) =
      print_all (command_event_line (codes "AnalogCommandEvent: ") of_double) ms
  process_printed (security_stats ms) = print_all security_stat_line ms
  process_printed (dnp_times ts) = print_all dnp_time_line ts
