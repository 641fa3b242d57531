-- ===== src/Soe/OutOfReach.antt =====
-- A mapped input whose index lies above the output index of every analog point of its source.
use ics_trafficgen.Base.{
  ℕ, ◌+◌, ◌<◌, ◌≤◌, String, List, [], ◌∷◌, none, true, str_eq, pos, lookup_or, ◌≡◌, sym, ◌∙◌, subst,
  arith, length,
}
use ics_trafficgen.Points.{MappedDataPoint, Doubles, lookup_or-grow}
use ics_trafficgen.Mapping.{MappingOutstation, source_values}
use ics_trafficgen.Mapping.Arrays.{source_sizes, start, configure_input_multiplexing_arrays}
use ics_trafficgen.Mapping.Passing.{pass_thru_data_changes}
use ics_trafficgen.Mapping.Emission.{DistinctKeys}
use ics_trafficgen.Mapping.Start.{AreSized, configure_sources-kept}
use ics_trafficgen.Mapping.Ready.{start-AreSized}
use ics_trafficgen.Mapping.Undersized.{pass_thru-eq-none}
use ics_trafficgen.Soe.{Indexed, analogs, process_at}
use ics_trafficgen.Soe.Arrays.{receive_parts, receive-SameShape}

single_size :
    (dp : MappedDataPoint) (o : ℕ)
    → str_eq dp.point_type "Analog Input" ≡ true
    → dp.index ≡ pos o
    → lookup_or 0 "Analog Input" (source_sizes (dp ∷ []) []) ≤ o + 1
unfolding source_sizes
single_size dp o t j = rw (j, lookup_or-grow dp.point_type "Analog Input" o [], t) (ground arith)

module _ {D : Type 0} (ops : Doubles D) where
  start-data_sources : (m : MappingOutstation D) → (start ops m).data_sources ≡ m.data_sources
  unfolding start configure_input_multiplexing_arrays
  start-data_sources m = configure_sources-kept ops m.data_sources m

  -- Let an outstation have one source, with one mapped analog point whose input index is above its
  -- index. Then the array of the source is too short: after any analog callback of that source, the
  -- first pass from the start reads past the end of it.
  pub input_above_index :
      (m : MappingOutstation D) (src : String) (dp : MappedDataPoint) (o i : ℕ)
      (es : List (Indexed D))
      → m.data_sources ≡ (src, dp ∷ []) ∷ []
      → str_eq dp.point_type "Analog Input" ≡ true
      → dp.index ≡ pos o
      → dp.input_index ≡ pos i
      → o < i
      → pass_thru_data_changes ops (process_at ops src (analogs es) (start ops m)) ≡ none
  unfolding process_at
  input_above_index m src dp o i es e t j k lt =
      let m₀ = start ops m in
      let m₁ = process_at ops src (analogs es) m₀ in
      let sized =
        subst (AreSized m₀) e (start-AreSized ops m (subst DistinctKeys (sym e) (tt, tt))) in
      let shape = receive-SameShape ops (λ v. v) src es m₀.analog in
      let size : length (source_values src m₁.analog) ≤ o + 1 =
        rw (shape.in_size src ∙ sized.0.analog_sized) (single_size dp o t j) in
      pass_thru-eq-none ops m₁ src dp i (start-data_sources m ∙ e) t k (omega arith)
        (receive_parts ops (λ v. v) src es m₀.analog).1
