-- ===== src/Station/Database.antt =====
-- Station.cpp: `ConfigureDatabase`. An index out of a vector of the view gives `none`.
pub mod Total
pub mod Indexes
pub mod Entries
use ics_trafficgen.Base.{
  ℕ, String, List, [], ◌∷◌, Map, Option, none, some, Bool, true, false, ℤ, int_eq, any, ◌>>=◌,
  if◌then◌else◌, str_eq, write_at, insert, lookup_or,
}
use ics_trafficgen.Points.{DataPoint}
use ics_trafficgen.Station.{
  Variation, PointClass, Table, s_analog_input, e_analog_input, s_counter, e_counter,
  s_frozen_counter, e_frozen_counter, s_binary, e_binary, s_double_binary, e_double_binary,
  point_class, variation,
}

-- What is set of a point, its deadband aside.
pub record PointConfig : Type 0 where
  pub svariation : Variation
  pub clazz : PointClass
  pub evariation : Variation

-- The vectors of `asiodnp3::DatabaseConfig` that are written, and `dpTypeIndexMap`. The deadbands
-- of the analogs stand in a vector of their own.
pub record Database (F : Type 0) : Type 0 where
  pub analog : List PointConfig
  pub deadband : List F
  pub binary : List PointConfig
  pub double_binary : List PointConfig
  pub counter : List PointConfig
  pub frozen_counter : List PointConfig
  pub dp_type_index_map : Map (List ℤ)

-- The types that the chain of tests tells apart.
pub data InputType : Type 0 where
  analog_input : InputType
  binary_input : InputType
  double_binary_input : InputType
  counter_input : InputType
  frozen_counter_input : InputType
  other_type : InputType

unfoldable pub input_type : String → InputType
input_type t =
    if str_eq t "Analog Input"
    then analog_input
    else if str_eq t "Binary Input"
    then binary_input
    else if str_eq t "Double Binary Input"
    then double_binary_input
    else if str_eq t "Counter"
    then counter_input
    else if str_eq t "Frozen Counter"
    then frozen_counter_input
    else other_type

-- `set.insert(i)`
abbrev pub add_index : ℤ → List ℤ → List ℤ
add_index i is = if any (int_eq i) is then is else i ∷ is

-- `dpTypeIndexMap[type].insert(index)`
unfoldable pub note_index : String → ℤ → Map (List ℤ) → Map (List ℤ)
note_index t i m = insert t (add_index i (lookup_or [] t m)) m

module _ {F : Type 0} where
  abbrev pub point_config : Table → ℕ → Table → ℕ → DataPoint F → PointConfig
  point_config s s_other e e_other dp = record {
    svariation = variation s s_other dp.s_variation;
    clazz = point_class dp.event_class;
    evariation = variation e e_other dp.e_variation;
  }

  abbrev pub noted : DataPoint F → Map (List ℤ) → Map (List ℤ)
  noted dp m = note_index dp.point_type dp.index m

-- `positive`: the test `x > 0` of a `float`
module _ {F : Type 0} (positive : F → Bool) where
  abbrev pub set_deadband : DataPoint F → List F → Option (List F)
  set_deadband dp xs = if positive dp.deadband then write_at xs dp.index dp.deadband else some xs

  unfoldable pub configure_as : InputType → DataPoint F → Database F → Option (Database F)
  configure_as analog_input dp db = do
    xs ← write_at db.analog dp.index (point_config s_analog_input 5 e_analog_input 7 dp)
    ds ← set_deadband dp db.deadband
    some (record db {
      analog = xs;
      deadband = ds;
      dp_type_index_map = noted dp db.dp_type_index_map;
    })
  configure_as binary_input dp db = do
    xs ← write_at db.binary dp.index (point_config s_binary 1 e_binary 1 dp)
    some (record db { binary = xs; dp_type_index_map = noted dp db.dp_type_index_map })
  configure_as double_binary_input dp db = do
    xs ← write_at db.double_binary dp.index (point_config s_double_binary 2 e_double_binary 1 dp)
    some (record db { double_binary = xs; dp_type_index_map = noted dp db.dp_type_index_map })
  configure_as counter_input dp db = do
    xs ← write_at db.counter dp.index (point_config s_counter 5 e_counter 5 dp)
    some (record db { counter = xs; dp_type_index_map = noted dp db.dp_type_index_map })
  configure_as frozen_counter_input dp db = do
    xs ← write_at db.frozen_counter dp.index (point_config s_frozen_counter 5 e_frozen_counter 5 dp)
    some (record db { frozen_counter = xs; dp_type_index_map = noted dp db.dp_type_index_map })
  configure_as other_type dp db = some db

  -- `ConfigureDatabase`, on the points of the node
  unfoldable pub configure_database : List (DataPoint F) → Database F → Option (Database F)
  configure_database [] db = some db
  configure_database (dp ∷ dps) db = do
    db' ← configure_as (input_type dp.point_type) dp db
    configure_database dps db'
