-- ===== src/Config/DataSpecs.antt =====
-- CfgJsonParser.cpp: the points of an outstation, and the sizes that follow from them.
pub mod Sizes
pub mod Preserved
pub mod Coverage
pub mod Link
use ics_trafficgen.Base.{
  ℕ, zero, suc, ◌+◌, ◌<◌, String, List, [], ◌∷◌, ◌++◌, Map, Option, none, some, Bool, codes, ◌>>=◌,
  ℤ, pos, negsuc, true, int_max, map, if◌then◌else◌, insert, lookup_or, ltb,
}
use ics_trafficgen.Points.{DataPoint, MappedDataPoint, grow}
use ics_trafficgen.Node.{Node, new_data_point}
use ics_trafficgen.Config.{PropTree}
use ics_trafficgen.Config.IndexList.{index_ranges, indexes_of}

abbrev pub event_buffer_size : ℤ
event_buffer_size = pos 100

-- the loop over `dbSize`: each type with points gets a buffer
unfoldable pub set_buffers : Map ℕ → Map ℤ → Map ℤ
set_buffers [] buffers = buffers
set_buffers ((t, n) ∷ sizes) buffers =
    set_buffers sizes (if ltb 0 n then insert t event_buffer_size buffers else buffers)

-- An index that has a successor.
abbrev pub is_below_max : ℤ → Bool
is_below_max (pos i) = ltb i int_max
is_below_max (negsuc i) = true

module _ {F : Type 0} where
  -- the size of the type, and the point at the end of the list
  unfoldable pub add_point : DataPoint F → Node F → Node F
  add_point dp n = record n {
    db_size = grow dp.point_type dp.index n.db_size;
    data_points = n.data_points ++ dp ∷ [];
  }

  -- `pushPtToStn`; `none` is the overflow of `dpt.index + 1`, which C++ leaves undefined
  unfoldable pub push_point : DataPoint F → Node F → Option (Node F)
  push_point dp n = if is_below_max dp.index then some (add_point dp n) else none

  unfoldable pub push_indexes : DataPoint F → List ℕ → Node F → Option (Node F)
  push_indexes dp [] n = some n
  push_indexes dp (i ∷ is) n = do
    n' ← push_point (record dp { index = pos i }) n
    push_indexes dp is n'

  unfoldable pub push_ranges : DataPoint F → List (ℕ × ℕ) → Node F → Option (Node F)
  push_ranges dp [] n = some n
  push_ranges dp (r ∷ rs) n = do n' ← push_indexes dp (indexes_of r) n; push_ranges dp rs n'

module _ (pt : PropTree) where
  open pt use {Tree, Float, children, get_int, get_string, get_float}

  -- `readDataPoint`
  unfoldable pub read_data_point : Tree → DataPoint Float → Option (DataPoint Float)
  read_data_point t dp = do
    type ← get_string t "Type"
    class ← get_int t "Event Class"
    s ← get_int t "sVariation"
    e ← get_int t "eVariation"
    some (record dp {
      point_type = type;
      event_class = class;
      s_variation = s;
      e_variation = e;
      deadband = elim (get_float t "Deadband") [ none ↦ dp.deadband | some d ↦ d ];
    })

  abbrev pub push_index : Option ℤ → DataPoint Float → Node Float → Option (Node Float)
  push_index none dp n = some n
  push_index (some i) dp n = push_point (record dp { index = i }) n

  abbrev pub with_index : Option ℤ → DataPoint Float → DataPoint Float
  with_index none dp = dp
  with_index (some i) dp = record dp { index = i }

  abbrev pub push_list : Option String → DataPoint Float → Node Float → Option (Node Float)
  push_list none dp n = some n
  push_list (some list) dp n = do rs ← index_ranges (codes list); push_ranges dp rs n

  -- the loop of `readDataGenerationSpecs` over "Data"
  unfoldable pub read_points : List Tree → Node Float → Option (Node Float)
  read_points [] n = some n
  read_points (t ∷ ts) n = do
    dp ← read_data_point t (new_data_point pt.zero_float)
    let index = get_int t "Index"
    n₁ ← push_index index dp n
    n₂ ← push_list (get_string t "Index List") (with_index index dp) n₁
    read_points ts n₂

  abbrev pub fill_buffers : Node Float → Node Float
  fill_buffers n = record n { evt_buffer_size = set_buffers n.db_size n.evt_buffer_size }

  -- `readDataGenerationSpecs`
  unfoldable pub read_data_generation_specs : Tree → Node Float → Option (Node Float)
  read_data_generation_specs t n = elim (children t "Data") [
    | none ↦ some n
    | some ts ↦ read_points ts n >>= λ n'. some (fill_buffers n')
  ]

  abbrev pub mapped_of : DataPoint Float → ℤ → MappedDataPoint
  mapped_of dp input = record { index = dp.index; input_index = input; point_type = dp.point_type }

  -- the loop over "Mapped Data"
  unfoldable pub read_mapped_points : String → List Tree → Node Float → Option (Node Float)
  read_mapped_points source [] n = some n
  read_mapped_points source (t ∷ ts) n = do
    dp₀ ← read_data_point t (new_data_point pt.zero_float)
    index ← get_int t "Index"
    let dp = record dp₀ { index = index }
    n₁ ← push_point dp n
    input ← get_int t "InputIndex"
    read_mapped_points source ts (record n₁ {
      data_sources =
          insert source (lookup_or [] source n₁.data_sources ++ mapped_of dp input ∷ [])
            n₁.data_sources;
    })

  -- what the loop over "Data Sources" does with "Mapped Data"
  abbrev pub read_mapped : String → Tree → Node Float → Option (Node Float)
  read_mapped source t n = elim (children t "Mapped Data") [
    | none ↦ some n
    | some ms ↦ read_mapped_points source ms n >>= λ n₁. some (fill_buffers n₁)
  ]

  -- the loop over "Data Sources"
  unfoldable pub read_sources : List Tree → Node Float → Option (Node Float)
  read_sources [] n = some n
  read_sources (t ∷ ts) n = do
    source ← get_string t "Source"
    n' ← read_mapped source t n
    read_sources ts n'

  -- `readMappedDataGenerationSpecs`
  unfoldable pub read_mapped_data_generation_specs : Tree → Node Float → Option (Node Float)
  read_mapped_data_generation_specs t n = elim (children t "Data Sources") [
    | none ↦ some n
    | some ts ↦ read_sources ts n
  ]
