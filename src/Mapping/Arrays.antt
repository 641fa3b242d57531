-- ===== src/Mapping/Arrays.antt =====
-- MappingOutstation.cpp: the size of the arrays before the station starts.
use ics_trafficgen.Base.{
  ℕ, zero, suc, String, List, [], ◌∷◌, Map, lookup_or, insert, map, false, ◌≡◌, refl, length, ap,
}
use ics_trafficgen.Points.{MappedDataPoint, Dnp3Point, Doubles, grow}
use ics_trafficgen.Mapping.{Channel, MappingOutstation, source_values}

-- `std::vector::resize`: what is cut off is lost, what is new is `a`.
unfoldable pub resize {ℓ} : {A : Type ℓ} → ℕ → A → List A → List A
resize zero a xs = []
resize (suc n) a [] = a ∷ resize n a []
resize (suc n) a (x ∷ xs) = x ∷ resize n a xs

pub length-resize {ℓ} : {A : Type ℓ} (n : ℕ) (a : A) (xs : List A) → length (resize n a xs) ≡ n
unfolding resize
length-resize zero a xs = refl
length-resize (suc n) a [] = ap suc (length-resize n a [])
length-resize (suc n) a (x ∷ xs) = ap suc (length-resize n a xs)

-- the loop over `mdpList`: a local size for each point type, from the output indexes
unfoldable pub source_sizes : List MappedDataPoint → Map ℕ → Map ℕ
source_sizes [] sizes = sizes
source_sizes (dp ∷ dps) sizes = source_sizes dps (grow dp.point_type dp.index sizes)

module _ {D : Type 0} (ops : Doubles D) where
  abbrev pub origin : Dnp3Point D
  origin = record { value = ops.zero_value; timestamp = 0 }

  -- resize, and for analog and binary points a loop that writes 0 to each
  unfoldable pub clear_source : String → ℕ → Channel D → Channel D
  clear_source src n ch = record ch {
    values = insert src (map (λ _. origin) (resize n origin (source_values src ch))) ch.values;
  }

  unfoldable pub resize_source : String → ℕ → Channel D → Channel D
  resize_source src n ch = record ch {
    values = insert src (resize n origin (source_values src ch)) ch.values;
  }

  -- one round of the loop over `node->dataSources`, with the sizes that it has counted
  unfoldable pub configure_source : String → Map ℕ → MappingOutstation D → MappingOutstation D
  configure_source src sizes m = record m {
    analog = clear_source src (lookup_or 0 "Analog Input" sizes) m.analog;
    binary = clear_source src (lookup_or 0 "Binary Input" sizes) m.binary;
    counter = resize_source src (lookup_or 0 "Counter" sizes) m.counter;
  }

  unfoldable pub configure_sources :
      Map (List MappedDataPoint) → MappingOutstation D → MappingOutstation D
  configure_sources [] m = m
  configure_sources ((src, dps) ∷ rest) m =
      configure_sources rest (configure_source src (source_sizes dps []) m)

  abbrev pub resize_out : ℕ → Channel D → Channel D
  resize_out n ch = record ch { out = resize n origin ch.out }

  -- `ConfigureInputMultiplexingArrays`
  unfoldable pub configure_input_multiplexing_arrays : MappingOutstation D → MappingOutstation D
  configure_input_multiplexing_arrays m =
      let c = configure_sources m.data_sources m in
      record c {
        analog = resize_out (lookup_or 0 "Analog Input" m.db_size) c.analog;
        binary = resize_out (lookup_or 0 "Binary Input" m.db_size) c.binary;
        counter = resize_out (lookup_or 0 "Counter" m.db_size) c.counter;
      }

module _ {D : Type 0} where
  -- the loop of `run` that clears the flags of each source
  unfoldable pub clear_flags : Map (List MappedDataPoint) → Channel D → Channel D
  clear_flags [] ch = ch
  clear_flags ((src, dps) ∷ rest) ch =
      clear_flags rest (record ch { flag = insert src false ch.flag })

  -- what `run` does to the arrays before its loop
  unfoldable pub start : Doubles D → MappingOutstation D → MappingOutstation D
  start ops m =
      let c = configure_input_multiplexing_arrays ops m in
      record c {
        analog = clear_flags m.data_sources c.analog;
        binary = clear_flags m.data_sources c.binary;
        counter = clear_flags m.data_sources c.counter;
      }
