-- ===== src/Mapping.antt =====
-- MappingOutstation.h and MappingOutstation.cpp: an outstation whose points come from other
-- stations. `Channel` holds what the class keeps for one of its three point types.
pub mod Arrays
pub mod Passing
pub mod Safety
pub mod Emission
pub mod Pass
pub mod Start
pub mod Ready
pub mod Once
pub mod Undersized
pub mod Inject
pub mod Loop
use ics_trafficgen.Base.{
  ℕ, ℤ, Bool, false, String, List, [], ◌∷◌, Map, Option, none, some, read_at, write_at, lookup_or,
  ◌>>=◌,
}
use ics_trafficgen.Points.{MappedDataPoint, Dnp3Point, Doubles}

-- xValues, xFlag and xOutValues, for one of analog, binary and counter.
pub record Channel (D : Type 0) : Type 0 where
  pub values : Map (List (Dnp3Point D))
  pub flag : Map Bool
  pub out : List (Dnp3Point D)

pub record MappingOutstation (D : Type 0) : Type 0 where
  pub node_name : String
  pub data_sources : Map (List MappedDataPoint)
  pub db_size : Map ℕ
  pub dp_type_index_map : Map (List ℤ)
  pub analog : Channel D
  pub binary : Channel D
  pub counter : Channel D

-- A call of `UpdateBuilder::Update`: the measurement, its time, and the 16-bit index.
pub data Update (D : Type 0) : Type 0 where
  analog_update : D → ℕ → ℕ → Update D
  binary_update : Bool → ℕ → ℕ → Update D
  counter_update : ℕ → ℕ → ℕ → Update D

module _ {D : Type 0} where
  -- `xValues[srcName]`
  abbrev pub source_values : String → Channel D → List (Dnp3Point D)
  source_values src ch = lookup_or [] src ch.values

  -- `xFlag[srcName]`
  abbrev pub is_flagged : String → Channel D → Bool
  is_flagged src ch = lookup_or false src ch.flag

  -- `xOutValues[dp.index] = xValues[srcName][dp.input_index]`, value and timestamp
  unfoldable pub copy_point : String → MappedDataPoint → Channel D → Option (Channel D)
  copy_point src dp ch = do
    p ← read_at (source_values src ch) dp.input_index
    out ← write_at ch.out dp.index p
    some (record ch { out = out })

  -- the measurements that the outstation builds from a `double`
  abbrev pub analog_of : Doubles D → D → ℕ → ℕ → Update D
  analog_of ops v t i = analog_update v t i

  abbrev pub binary_of : Doubles D → D → ℕ → ℕ → Update D
  binary_of ops v t i = binary_update (ops.to_bool v) t i

  abbrev pub counter_of : Doubles D → D → ℕ → ℕ → Update D
  counter_of ops v t i = counter_update (ops.to_uint32 v) t i
