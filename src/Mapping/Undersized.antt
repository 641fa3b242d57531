-- ===== src/Mapping/Undersized.antt =====
-- The input arrays are sized by the output indexes of a source, and read at its input indexes.
use ics_trafficgen.Base.{
  ℕ, ◌≤◌, String, [], ◌∷◌, none, true, str_eq, pos, get_elem?_of_ge, ◌≡◌, length,
}
use ics_trafficgen.Points.{MappedDataPoint, Doubles}
use ics_trafficgen.Mapping.{MappingOutstation, source_values, is_flagged, copy_point}
use ics_trafficgen.Mapping.Passing.{
  pass_point, pass_points, pass_channel, pass_source, pass_sources, pass_thru_data_changes,
}

module _ {D : Type 0} (ops : Doubles D) where
  -- A flagged source whose first point is an analog one that reads past its input array.
  pub pass_thru-eq-none :
      (m : MappingOutstation D) (src : String) (dp : MappedDataPoint) (i : ℕ)
      → m.data_sources ≡ (src, dp ∷ []) ∷ []
      → str_eq dp.point_type "Analog Input" ≡ true
      → dp.input_index ≡ pos i
      → length (source_values src m.analog) ≤ i
      → is_flagged src m.analog ≡ true
      → pass_thru_data_changes ops m ≡ none
  unfolding pass_thru_data_changes pass_sources pass_source pass_channel pass_points pass_point
      copy_point
  pass_thru-eq-none m src dp i e t j l f = rw (
    e,
    pass_sources,
    pass_source,
    pass_channel,
    f,
    t,
    j,
    get_elem?_of_ge (source_values src m.analog) i l,
  )
